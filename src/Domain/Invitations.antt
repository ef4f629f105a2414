-- ===== src/Domain/Invitations.antt =====
-- domain/organization_invitations.py: offers of a membership. Instants are numbers of microseconds,
-- all of them timezone-aware, so the checks of `tzinfo` have no counterpart.
use muxivo_console.Shared.{
  ℕ, true, false, not, ◌&&◌, ◌||◌, Option, none, some, List, Text, length, is_blank, is_empty,
  Result, ok, raise_unless, ltb, leb, is_some, ◌==◌,
}
use muxivo_console.Domain.Activity.{Uuid}
use muxivo_console.Domain.Organizations.{OrganizationRole, MembershipResourceScope}

pub data OrganizationInvitationStatus : Type 0 where
  pending accepted revoked expired : OrganizationInvitationStatus

pub data OrganizationInvitationDeliveryStatus : Type 0 where
  sent unavailable failed : OrganizationInvitationDeliveryStatus

pub record OrganizationInvitation : Type 0 where
  pub id : Uuid
  pub organization_id : Uuid
  pub invited_by_user_id : Uuid
  pub email_lookup_hash : Text
  pub email_hint : Text
  pub email_ciphertext : Text
  pub token_hash : Text
  pub role : OrganizationRole
  pub resource_scopes : List MembershipResourceScope
  pub expires_at : ℕ
  pub created_at : ℕ
  pub accepted_at : Option ℕ
  pub revoked_at : Option ℕ
  pub delivery_status : Option OrganizationInvitationDeliveryStatus

pub data InvitationError : Type 0 where
  invalid_lookup_hash invalid_token_hash invalid_hint empty_ciphertext expires_too_early
        accepted_and_revoked :
      InvitationError

-- `OrganizationInvitation.__post_init__`
unfoldable pub organization_invitation :
    OrganizationInvitation → Result InvitationError OrganizationInvitation
organization_invitation i =
    raise_unless (length i.email_lookup_hash == 64) InvitationError.invalid_lookup_hash (
      raise_unless (length i.token_hash == 64) InvitationError.invalid_token_hash (
        raise_unless (not (is_blank i.email_hint || ltb 192 (length i.email_hint)))
          InvitationError.invalid_hint
          (raise_unless (not (is_empty i.email_ciphertext)) InvitationError.empty_ciphertext (
            raise_unless (not (leb i.expires_at i.created_at)) InvitationError.expires_too_early (
              raise_unless (not (is_some i.accepted_at && is_some i.revoked_at))
                InvitationError.accepted_and_revoked (ok i))))))

unfoldable pub status_at : OrganizationInvitation → ℕ → OrganizationInvitationStatus
status_at i now = elim i.accepted_at [
  | some _ ↦ OrganizationInvitationStatus.accepted
  | none ↦ elim i.revoked_at [
    | some _ ↦ OrganizationInvitationStatus.revoked
    | none ↦ elim (leb i.expires_at now) [
      | true ↦ OrganizationInvitationStatus.expired
      | false ↦ OrganizationInvitationStatus.pending
    ]
  ]
]
