-- ===== src/Persistence/Invitations.antt =====
-- infrastructure/persistence/organization_invitation_writer.py: invitations, and the membership
-- that an acceptance adds. Each method is one transaction.
pub mod Closing
pub mod Acceptance
pub mod Reading
use muxivo_console.Shared.{
  ℕ, Bool, true, false, not, ◌&&◌, Option, none, some, List, [], ◌∷◌, ◌++◌, count, Text, String,
  ltb, ◌==◌, Result, ok, err, if◌then◌else◌, is_none,
}
use muxivo_console.Domain.Activity.{Uuid}
use muxivo_console.Domain.Audit.{AuditEvent}
use muxivo_console.Domain.Invitations.{OrganizationInvitation, OrganizationInvitationDeliveryStatus}
use muxivo_console.Domain.Organizations.{OrganizationMembership, MembershipResourceScope}
use muxivo_console.Persistence.Values.{role_value, resource_value, action_value}
use muxivo_console.Persistence.Database.{
  Database, InvitationRow, InvitationScopeRow, update_where, audit_fits, invitation_fits,
  invitation_scopes_fit,
}
use muxivo_console.Persistence.Members.{MemberWriteError, add_member_at}

abbrev pub delivery_value : OrganizationInvitationDeliveryStatus → String
delivery_value OrganizationInvitationDeliveryStatus.sent = "sent"
delivery_value OrganizationInvitationDeliveryStatus.unavailable = "unavailable"
delivery_value OrganizationInvitationDeliveryStatus.failed = "failed"

abbrev pub write_delivery : Option OrganizationInvitationDeliveryStatus → Option String
write_delivery none = none
write_delivery (some d) = some (delivery_value d)

abbrev pub invitation_row : OrganizationInvitation → InvitationRow
invitation_row i = record {
  id = i.id;
  organization_id = i.organization_id;
  invited_by_user_id = some i.invited_by_user_id;
  email_ciphertext = i.email_ciphertext;
  email_lookup_hash = i.email_lookup_hash;
  email_hint = i.email_hint;
  token_hash = i.token_hash;
  role = role_value i.role;
  delivery_status = write_delivery i.delivery_status;
  expires_at = i.expires_at;
  accepted_at = none;
  revoked_at = none;
  created_at = i.created_at;
}

-- `_invitation_scope_record` over the set; a scope without an identifier raises.
abbrev pub invitation_scope_records :
    Uuid → List MembershipResourceScope → Option (List InvitationScopeRow)
invitation_scope_records i [] = some []
invitation_scope_records i (s ∷ ss) =
    let rest = invitation_scope_records i ss in
    elim s.id [
      | none ↦ none
      | some k ↦ elim rest [
        | none ↦ none
        | some rows ↦ some (
            record {
              id = k;
              invitation_id = i;
              resource = resource_value s.resource;
              action = action_value s.action;
            }
            ∷ rows)
      ]
    ]

-- `SqlAlchemyOrganizationInvitationWriter.create`
unfoldable pub create_invitation :
    OrganizationInvitation → AuditEvent → Database → Result MemberWriteError Bool × Database
create_invitation i event db =
    if invitation_fits (invitation_row i) i.invited_by_user_id db
    then elim (invitation_scope_records i.id i.resource_scopes) [
      | none ↦ (err MemberWriteError.missing_scope_id, db)
      | some rows ↦
          if invitation_scopes_fit rows db.invitation_scopes (invitation_row i ∷ db.invitations)
            && audit_fits event db
          then (
            ok true,
            record db {
              invitations = invitation_row i ∷ db.invitations;
              invitation_scopes = rows ++ db.invitation_scopes;
              audit_events = event ∷ db.audit_events;
            },
          )
          else (ok false, db)
    ]
    else (ok false, db)

abbrev pub is_invitation : Uuid → Uuid → InvitationRow → Bool
is_invitation i o r = r.id == i && r.organization_id == o

-- `update_delivery_status`
unfoldable pub update_delivery_status :
    Uuid → Uuid → OrganizationInvitationDeliveryStatus → Database → Bool × Database
update_delivery_status i o status db = (
  count (is_invitation i o) db.invitations == 1,
  record db {
    invitations =
        update_where (is_invitation i o)
          (λ r. record r { delivery_status = some (delivery_value status) }) db.invitations;
  },
)

-- Neither accepted nor revoked.
abbrev pub is_open : InvitationRow → Bool
is_open r = is_none r.accepted_at && is_none r.revoked_at

-- The `where` of an acceptance and of a revocation.
abbrev pub is_pending : Uuid → Uuid → ℕ → InvitationRow → Bool
is_pending i o at r = is_invitation i o r && is_open r && ltb at r.expires_at

abbrev pub accept_row : ℕ → InvitationRow → InvitationRow
accept_row at r = record r { accepted_at = some at }

abbrev pub is_done : Result MemberWriteError Bool → Bool
is_done (ok b) = b
is_done (err e) = false

-- `accept`, from the membership's identifier on. It adds the membership as `add_member` does.
unfoldable pub accept_at :
    Uuid
    → OrganizationInvitation
    → OrganizationMembership
    → ℕ
    → AuditEvent
    → Database
    → Result MemberWriteError Bool × Database
accept_at k i m at event db =
    let pending = is_pending i.id i.organization_id at in
    let written = record db { invitations = update_where pending (accept_row at) db.invitations } in
    if not (count pending db.invitations == 1)
    then (ok false, written)
    else let (added, db') = add_member_at k m event written in
      (added, if is_done added then db' else db)

-- `SqlAlchemyOrganizationInvitationWriter.accept`
unfoldable pub accept :
    OrganizationInvitation
    → OrganizationMembership
    → ℕ
    → AuditEvent
    → Database
    → Result MemberWriteError Bool × Database
accept i m at event db = elim m.id [
  | none ↦ (err MemberWriteError.missing_membership_id, db)
  | some k ↦ accept_at k i m at event db
]

abbrev pub revoke_invitation_row : ℕ → InvitationRow → InvitationRow
revoke_invitation_row at r = record r { revoked_at = some at }

-- `SqlAlchemyOrganizationInvitationWriter.revoke`
unfoldable pub revoke_invitation : Uuid → Uuid → ℕ → AuditEvent → Database → Bool × Database
revoke_invitation i o at event db =
    let pending = is_pending i o at in
    let written = record db {
      invitations = update_where pending (revoke_invitation_row at) db.invitations;
    } in
    if not (count pending db.invitations == 1)
    then (false, written)
    else if audit_fits event db
    then (true, record written { audit_events = event ∷ db.audit_events })
    else (false, db)
