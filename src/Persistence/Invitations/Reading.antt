-- ===== src/Persistence/Invitations/Reading.antt =====
-- infrastructure/persistence/organization_invitation_reader.py and
-- organization_invitation_mapping.py: invitations as they are read back.
use muxivo_console.Shared.{
  ℕ, Bool, ◌&&◌, Option, none, some, List, [], ◌∷◌, find, filter, Text, text_eq, String, ltb, ◌==◌,
  if◌then◌else◌,
}
use text.Mathlib.Text.{◌==◌ as str_eq}
use muxivo_console.Domain.Activity.{Uuid}
use muxivo_console.Domain.Invitations.{
  OrganizationInvitation, OrganizationInvitationDeliveryStatus, organization_invitation,
}
use muxivo_console.Domain.Organizations.{MembershipResourceScope}
use muxivo_console.Persistence.Values.{to_role, to_resource, to_action}
use muxivo_console.Persistence.Database.{Database, InvitationRow, InvitationScopeRow}
use muxivo_console.Persistence.Connections.{and_then, no_error}
use muxivo_console.Persistence.Invitations.{is_invitation, is_open}

unfoldable pub to_delivery : String → Option OrganizationInvitationDeliveryStatus
to_delivery s =
    if str_eq s "sent"
    then some OrganizationInvitationDeliveryStatus.sent
    else if str_eq s "unavailable"
    then some OrganizationInvitationDeliveryStatus.unavailable
    else if str_eq s "failed"
    then some OrganizationInvitationDeliveryStatus.failed
    else none

abbrev pub read_delivery : Option String → Option (Option OrganizationInvitationDeliveryStatus)
read_delivery none = some none
read_delivery (some s) = and_then (to_delivery s) (λ d. some (some d))

abbrev pub invitation_scope : InvitationScopeRow → Option MembershipResourceScope
invitation_scope r = and_then (to_resource r.resource) (λ q.
    and_then (to_action r.action) (λ a. some (record { resource = q; action = a; id = some r.id })))

-- The set of scopes; one malformed row is an error for all.
abbrev pub invitation_scopes : List InvitationScopeRow → Option (List MembershipResourceScope)
invitation_scopes [] = some []
invitation_scopes (r ∷ rs) =
    let rest = invitation_scopes rs in
    and_then (invitation_scope r) (λ s. and_then rest (λ ss. some (s ∷ ss)))

-- `invitation_from_records`, where an error gives no invitation.
unfoldable pub invitation_from_records :
    InvitationRow → List InvitationScopeRow → Option OrganizationInvitation
invitation_from_records r rows = and_then r.invited_by_user_id (λ inviter.
    and_then (to_role r.role) (λ role. and_then (invitation_scopes rows) (λ scopes.
      and_then (read_delivery r.delivery_status) (λ delivery. no_error (
        organization_invitation (record {
          id = r.id;
          organization_id = r.organization_id;
          invited_by_user_id = inviter;
          email_lookup_hash = r.email_lookup_hash;
          email_hint = r.email_hint;
          email_ciphertext = r.email_ciphertext;
          token_hash = r.token_hash;
          role = role;
          resource_scopes = scopes;
          expires_at = r.expires_at;
          created_at = r.created_at;
          accepted_at = r.accepted_at;
          revoked_at = r.revoked_at;
          delivery_status = delivery;
        }))))))

-- `_scopes_for_invitations`, of one invitation.
abbrev pub scopes_for : Uuid → Database → List InvitationScopeRow
scopes_for i db = filter (λ s. s.invitation_id == i) db.invitation_scopes

-- `find_for_organization`
unfoldable pub find_invitation : Uuid → Uuid → Database → Option OrganizationInvitation
find_invitation o i db =
    and_then (find (is_invitation i o) db.invitations)
      (λ r. invitation_from_records r (scopes_for r.id db))

abbrev pub is_pending_token : Text → ℕ → InvitationRow → Bool
is_pending_token h now r = text_eq r.token_hash h && is_open r && ltb now r.expires_at

-- `find_pending_by_token_hash`; the hash of a token is unique.
unfoldable pub find_pending_by_token_hash : Text → ℕ → Database → Option OrganizationInvitation
find_pending_by_token_hash h now db =
    and_then (find (is_pending_token h now) db.invitations)
      (λ r. invitation_from_records r (scopes_for r.id db))
