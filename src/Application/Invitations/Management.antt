-- ===== src/Application/Invitations/Management.antt =====
-- application/invite_organization_member_use_case.py, revoke_organization_invitation_use_case.py
-- and list_organization_invitations_use_case.py, with the listing of
-- organization_invitation_reader.py. Whether the mail goes out is a parameter, and so is whether
-- the status of the delivery can be written; logging is left out.
use Prim.Native.Nat.{max, min}
use muxivo_console.Shared.{
  ℕ, zero, suc, ◌+◌, Bool, true, false, not, ◌||◌, ◌&&◌, Option, none, some, List, [], ◌∷◌, ◌++◌,
  Text, length, filter, sort_by, ltb, ◌==◌, Result, ok, err, if◌then◌else◌,
}
use muxivo_console.Domain.Activity.{Uuid}
use muxivo_console.Domain.Audit.{AuditEvent}
use muxivo_console.Domain.Invitations.{
  OrganizationInvitation, OrganizationInvitationDeliveryStatus, InvitationError,
  organization_invitation, status_at,
}
use muxivo_console.Domain.Organizations.{
  OrganizationRole, OrganizationMembership, MembershipResourceScope, may_assign,
}
use muxivo_console.Persistence.Database.{Database, InvitationRow}
use muxivo_console.Persistence.Members.{MemberWriteError, get_membership}
use muxivo_console.Persistence.Organizations.{constructed, find_organization}
use muxivo_console.Persistence.Invitations.{
  create_invitation, update_delivery_status, revoke_invitation,
}
use muxivo_console.Persistence.Invitations.Reading.{
  find_invitation, invitation_from_records, scopes_for,
}
use muxivo_console.Application.Identifiers.{Supply, rest_of}
use muxivo_console.Application.Libraries.{Libraries, Tokens}
use muxivo_console.Application.Members.{
  can_manage_organization_members, scopes_supported, assign_scope_ids,
}
use muxivo_console.Application.Invitations.{is_pending_status}

pub record InviteCommand : Type 0 where
  pub actor_id : Uuid
  pub organization_id : Uuid
  pub email : Text
  pub role : OrganizationRole
  pub resource_scopes : List MembershipResourceScope
  pub correlation_id : Uuid

-- The rejections of the use cases, by the check that raises them, and the errors that are not
-- caught.
pub data InvitationRejection : Type 0 where
  invalid_email creation_denied unsupported_scopes not_created no_domain revocation_denied
        revocation_failed listing_denied :
      InvitationRejection
  invalid_invitation : InvitationError → InvitationRejection
  write_error : MemberWriteError → InvitationRejection

-- `str.partition("@")`: what stands before the first of them and after it.
abbrev pub partition_at : Text → Option (Text × Text)
partition_at [] = none
partition_at (c ∷ s) =
    let rest = partition_at s in
    if c == 64
    then some ([], s)
    else elim rest [ none ↦ none | some (before, after) ↦ some (c ∷ before, after) ]

abbrev pub stars : ℕ → Text
stars zero = []
stars (suc n) = 42 ∷ stars n

-- `_masked_email_hint`; `none` where it raises.
unfoldable pub masked_email_hint : Text → Option Text
masked_email_hint email = elim (partition_at email) [
  | none ↦ none
  | some ([], domain) ↦ none
  | some (c ∷ local, domain) ↦ some ((c ∷ stars (max 1 (min 3 (length local)))) ++ (64 ∷ domain))
]

abbrev pub invitation_event : Uuid → Uuid → Uuid → Uuid → Bool → Uuid → AuditEvent
invitation_event new_id correlation actor o created i = record {
  id = new_id;
  correlation_id = correlation;
  actor_id = some actor;
  organization_id = some o;
  action =
      if created
      then "organization.member.invitation.created"
      else "organization.member.invitation.revoked";
  resource_type = "organization_invitation";
  resource_id = some i;
  result = "succeeded";
}

-- `timedelta(days=7)`
abbrev pub invitation_lifetime : ℕ
invitation_lifetime = 604800000000

-- How the notifier ends: it delivers or not, or it raises.
pub data Delivery : Type 0 where
  delivered undelivered raised : Delivery

abbrev pub delivery_status_of : Delivery → OrganizationInvitationDeliveryStatus
delivery_status_of Delivery.delivered = OrganizationInvitationDeliveryStatus.sent
delivery_status_of Delivery.undelivered = OrganizationInvitationDeliveryStatus.unavailable
delivery_status_of Delivery.raised = OrganizationInvitationDeliveryStatus.failed

abbrev pub InviteResult : Type 0
InviteResult = Result InvitationRejection OrganizationInvitation × Database

module _ (lib : Libraries) (ids : Supply) (tokens : Tokens) (now : ℕ) (delivery : Delivery)
    (written : Bool) (cmd : InviteCommand) where
  abbrev pub new_invitation : Text → Text → List MembershipResourceScope → OrganizationInvitation
  new_invitation email hint scopes = record {
    id = ids 0;
    organization_id = cmd.organization_id;
    invited_by_user_id = cmd.actor_id;
    email_lookup_hash = lib.hash_email email;
    email_hint = hint;
    email_ciphertext = lib.encrypt email;
    token_hash = lib.hash_token (tokens 0);
    role = cmd.role;
    resource_scopes = scopes;
    expires_at = now + invitation_lifetime;
    created_at = now;
    accepted_at = none;
    revoked_at = none;
    delivery_status = none;
  }

  -- The part of `InviteOrganizationMember.execute` from the delivery on. A failure to write its
  -- status is hidden.
  unfoldable pub deliver : OrganizationInvitation → Database → InviteResult
  deliver i db =
      let status = delivery_status_of delivery in
      (
        ok (record i { delivery_status = some status }),
        if written then (update_delivery_status i.id i.organization_id status db).1 else db,
      )

  -- What is done with the answer of the writer.
  unfoldable pub invitation_created :
      OrganizationInvitation → Result MemberWriteError Bool → Database → InviteResult
  invitation_created i (ok true) db = deliver i db
  invitation_created i (ok false) db = (err InvitationRejection.not_created, db)
  invitation_created i (err e) db = (err (InvitationRejection.write_error e), db)

  -- The part from the construction of the invitation on.
  unfoldable pub store_invitation : Text → Text → Database → InviteResult
  store_invitation email hint db =
      let (scopes, ids') = assign_scope_ids (rest_of ids) cmd.resource_scopes in
      elim (organization_invitation (new_invitation email hint scopes)) [
        | err e ↦ (err (InvitationRejection.invalid_invitation e), db)
        | ok i ↦
            let event =
              invitation_event (ids' 0) cmd.correlation_id cmd.actor_id cmd.organization_id true
                i.id in
            let (created, db') = create_invitation i event db in invitation_created i created db'
      ]

  -- The part from the actor's membership on.
  unfoldable pub invite_as : Text → OrganizationMembership → Database → InviteResult
  invite_as email actor db =
      if not (can_manage_organization_members actor.role) || not (may_assign actor.role cmd.role)
      then (err InvitationRejection.creation_denied, db)
      else if not (scopes_supported cmd.role cmd.resource_scopes)
      then (err InvitationRejection.unsupported_scopes, db)
      else elim (masked_email_hint email) [
        | none ↦ (err InvitationRejection.no_domain, db)
        | some hint ↦ store_invitation email hint db
      ]

  -- `InviteOrganizationMember.execute`
  unfoldable pub invite_organization_member : Database → InviteResult
  invite_organization_member db = elim (lib.normalize_email cmd.email) [
    | none ↦ (err InvitationRejection.invalid_email, db)
    | some email ↦ elim (find_organization cmd.organization_id db) [
      | none ↦ (err InvitationRejection.creation_denied, db)
      | some _ ↦ elim (get_membership cmd.actor_id cmd.organization_id db) [
        | none ↦ (err InvitationRejection.creation_denied, db)
        | some actor ↦ invite_as email actor db
      ]
    ]
  ]

pub record RevokeCommand : Type 0 where
  pub actor_id : Uuid
  pub organization_id : Uuid
  pub invitation_id : Uuid
  pub correlation_id : Uuid

-- The part of `RevokeOrganizationInvitation.execute` from the checks of what was found on; the
-- clock reads the same instant twice.
unfoldable pub revoke_found :
    Supply
    → ℕ
    → RevokeCommand
    → OrganizationMembership
    → OrganizationInvitation
    → Database
    → Result InvitationRejection (Unit {0}) × Database
revoke_found ids now cmd actor i db =
    if not (can_manage_organization_members actor.role)
      || not (may_assign actor.role i.role)
      || not (is_pending_status (status_at i now))
    then (err InvitationRejection.revocation_denied, db)
    else let (revoked, db') =
        revoke_invitation i.id i.organization_id now
          (invitation_event (ids 0) cmd.correlation_id cmd.actor_id cmd.organization_id false i.id)
          db in
      (if revoked then ok tt else err InvitationRejection.revocation_failed, db')

-- `RevokeOrganizationInvitation.execute`
unfoldable pub revoke_organization_invitation :
    Supply → ℕ → RevokeCommand → Database → Result InvitationRejection (Unit {0}) × Database
revoke_organization_invitation ids now cmd db =
    elim (get_membership cmd.actor_id cmd.organization_id db) [
      | none ↦ (err InvitationRejection.revocation_denied, db)
      | some actor ↦ elim (find_invitation cmd.organization_id cmd.invitation_id db) [
        | none ↦ (err InvitationRejection.revocation_denied, db)
        | some i ↦ revoke_found ids now cmd actor i db
      ]
    ]

-- `order_by(created_at.desc(), id)`
abbrev pub newer_invitation : InvitationRow → InvitationRow → Bool
newer_invitation r s =
    ltb s.created_at r.created_at || s.created_at == r.created_at && ltb r.id s.id

-- `SqlAlchemyOrganizationInvitationReader.list_for_organization`
unfoldable pub list_invitations : Uuid → Database → List OrganizationInvitation
list_invitations o db =
    constructed (λ r. invitation_from_records r (scopes_for r.id db))
      (sort_by newer_invitation (filter (λ r. r.organization_id == o) db.invitations))

-- `ListOrganizationInvitations.execute`
unfoldable pub list_organization_invitations :
    Uuid → Uuid → Database → Result InvitationRejection (List OrganizationInvitation)
list_organization_invitations actor o db = elim (get_membership actor o db) [
  | none ↦ err InvitationRejection.listing_denied
  | some m ↦
      if not (can_manage_organization_members m.role)
      then err InvitationRejection.listing_denied
      else ok (list_invitations o db)
]
