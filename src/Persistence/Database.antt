-- ===== src/Persistence/Database.antt =====
-- infrastructure/persistence/models.py: the rows of the modelled tables and the constraints whose
-- violation the database reports as an IntegrityError. Time stamps that the server fills in and
-- the columns that no modelled operation reads are left out.
use muxivo_console.Shared.{
  ℕ, Bool, true, false, not, ◌&&◌, ◌||◌, Option, List, [], ◌∷◌, any, Text, text_eq, String, ◌==◌,
}
use text.Mathlib.Text.{◌==◌ as str_eq}
use muxivo_console.Domain.Activity.{Uuid}
use muxivo_console.Domain.Audit.{AuditEvent}
use muxivo_console.Persistence.Rows.{
  UserRow, EmailRow, LoginIdentityRow, CredentialRow, LinkTransactionRow, LoginTransactionRow,
  RecoveryTransactionRow,
}

pub record OrganizationRow : Type 0 where
  pub id : Uuid
  pub name : Text
  pub slug : Text

pub record MembershipRow : Type 0 where
  pub id : Uuid
  pub organization_id : Uuid
  pub user_id : Uuid
  pub role : String

pub record ScopeRow : Type 0 where
  pub id : Uuid
  pub membership_id : Uuid
  pub resource : String
  pub action : String

-- A JSON column: an object, with for each key whether its value is `true`, or anything else.
pub data Json : Type 0 where
  object : List (Text × Bool) → Json
  other : Json

pub record ConnectionRow : Type 0 where
  pub id : Uuid
  pub organization_id : Uuid
  pub platform : String
  pub external_resource_id : Text
  pub status : String
  pub status_reason : Option String
  pub granted_capabilities : Json

pub record IdempotencyRow : Type 0 where
  pub organization_id : Uuid
  pub idempotency_key : Text
  pub connection_id : Uuid
  pub action : String
  pub result_status : String
  pub result_reason : Option String

-- Instants are microseconds; those of the columns and of the clock are timezone-aware.
pub record SessionRow : Type 0 where
  pub id : Uuid
  pub user_id : Uuid
  pub token_hash : Text
  pub expires_at : ℕ
  pub revoked_at : Option ℕ
  pub assurance_level : String
  pub ip_hash : Option Text
  pub user_agent_hash : Option Text
  pub last_seen_at : Option ℕ
  pub created_at : ℕ

pub record InvitationRow : Type 0 where
  pub id : Uuid
  pub organization_id : Uuid
  pub invited_by_user_id : Option Uuid
  pub email_ciphertext : Text
  pub email_lookup_hash : Text
  pub email_hint : Text
  pub token_hash : Text
  pub role : String
  pub delivery_status : Option String
  pub expires_at : ℕ
  pub accepted_at : Option ℕ
  pub revoked_at : Option ℕ
  pub created_at : ℕ

pub record InvitationScopeRow : Type 0 where
  pub id : Uuid
  pub invitation_id : Uuid
  pub resource : String
  pub action : String

pub record Database : Type 0 where
  pub organizations : List OrganizationRow
  pub users : List UserRow
  pub emails : List EmailRow
  pub memberships : List MembershipRow
  pub scopes : List ScopeRow
  pub connections : List ConnectionRow
  pub idempotency : List IdempotencyRow
  pub audit_events : List AuditEvent
  pub sessions : List SessionRow
  pub invitations : List InvitationRow
  pub invitation_scopes : List InvitationScopeRow
  pub login_identities : List LoginIdentityRow
  pub credentials : List CredentialRow
  pub link_transactions : List LinkTransactionRow
  pub login_transactions : List LoginTransactionRow
  pub recovery_transactions : List RecoveryTransactionRow

-- The values that an update statement writes to the rows it selects.
abbrev pub update_where {ℓ} : {A : Type ℓ} → (A → Bool) → (A → A) → List A → List A
update_where p f [] = []
update_where p f (x ∷ xs) = elim (p x) [ true ↦ f x | false ↦ x ] ∷ update_where p f xs

abbrev pub has_organization : Uuid → Database → Bool
has_organization o db = any (λ r. r.id == o) db.organizations

abbrev pub has_user : Uuid → Database → Bool
has_user u db = any (λ r. r.id == u) db.users

abbrev pub has_connection : Uuid → List ConnectionRow → Bool
has_connection c rows = any (λ r. r.id == c) rows

-- Primary key of `audit_events`.
abbrev pub audit_fits : AuditEvent → Database → Bool
audit_fits e db = not (any (λ r. r.id == e.id) db.audit_events)

-- Primary key, foreign key and `uq_platform_connection_external_resource` of
-- `platform_connections`; a status that is a member's value meets the check constraint.
abbrev pub connection_fits : ConnectionRow → Database → Bool
connection_fits c db =
    not (has_connection c.id db.connections)
    && has_organization c.organization_id db
    && not (
        any
          (λ r.
            str_eq r.platform c.platform && text_eq r.external_resource_id c.external_resource_id)
          db.connections)

abbrev pub is_key : Uuid → Text → IdempotencyRow → Bool
is_key o k r = r.organization_id == o && text_eq r.idempotency_key k

-- Primary and foreign keys of `platform_connection_lifecycle_idempotency`.
abbrev pub idempotency_fits : IdempotencyRow → Database → Bool
idempotency_fits i db =
    not (any (is_key i.organization_id i.idempotency_key) db.idempotency)
    && has_organization i.organization_id db
    && has_connection i.connection_id db.connections

-- Primary key, foreign keys and `uq_organization_membership` of `organization_memberships`.
abbrev pub membership_fits : MembershipRow → Database → Bool
membership_fits m db =
    not (any (λ r. r.id == m.id) db.memberships)
    && not
        (any (λ r. r.organization_id == m.organization_id && r.user_id == m.user_id) db.memberships)
    && has_organization m.organization_id db
    && has_user m.user_id db

-- Primary and foreign key of `membership_resource_scopes`, for rows added one after another.
abbrev pub scopes_fit : List ScopeRow → List ScopeRow → List MembershipRow → Bool
scopes_fit [] present memberships = true
scopes_fit (s ∷ ss) present memberships =
    not (any (λ r. r.id == s.id) present)
    && any (λ r. r.id == s.membership_id) memberships
    && scopes_fit ss (s ∷ present) memberships

-- Primary key, foreign key and unique token hash of `auth_sessions`.
abbrev pub session_fits : SessionRow → Database → Bool
session_fits s db =
    not (any (λ r. r.id == s.id) db.sessions)
    && has_user s.user_id db
    && not (any (λ r. text_eq r.token_hash s.token_hash) db.sessions)

abbrev pub has_invitation : Uuid → List InvitationRow → Bool
has_invitation i rows = any (λ r. r.id == i) rows

-- Primary key, foreign keys, unique token hash and check of the role of `organization_invitations`.
abbrev pub invitation_fits : InvitationRow → Uuid → Database → Bool
invitation_fits i inviter db =
    not (has_invitation i.id db.invitations)
    && has_organization i.organization_id db
    && has_user inviter db
    && not (any (λ r. text_eq r.token_hash i.token_hash) db.invitations)
    && not (str_eq i.role "owner")

-- `uq_organization_invitation_scope`
abbrev pub is_same_scope : InvitationScopeRow → InvitationScopeRow → Bool
is_same_scope s r =
    r.invitation_id == s.invitation_id && str_eq r.resource s.resource && str_eq r.action s.action

-- Primary key, foreign key and unique constraint of `organization_invitation_scopes`, for rows
-- added one after another.
abbrev pub invitation_scopes_fit :
    List InvitationScopeRow → List InvitationScopeRow → List InvitationRow → Bool
invitation_scopes_fit [] present invitations = true
invitation_scopes_fit (s ∷ ss) present invitations =
    not (any (λ r. r.id == s.id || is_same_scope s r) present)
    && has_invitation s.invitation_id invitations
    && invitation_scopes_fit ss (s ∷ present) invitations
