-- ===== src/Application/Invitations.antt =====
-- application/accept_organization_invitation_use_case.py: the acceptance of an invitation by the
-- account that its e-mail belongs to. Logging is left out.
pub mod Outcomes
pub mod Management
use muxivo_console.Application.Identifiers.{Supply, rest_of}
use muxivo_console.Shared.{
  ℕ, suc, Bool, true, false, not, Option, none, some, List, [], ◌∷◌, Text, any, is_some, ◌==◌,
  Result, ok, err, if◌then◌else◌,
}
use muxivo_console.Domain.Activity.{Uuid}
use muxivo_console.Domain.Audit.{AuditEvent}
use muxivo_console.Domain.Invitations.{
  OrganizationInvitation, OrganizationInvitationStatus, status_at,
}
use muxivo_console.Domain.Organizations.{OrganizationMembership, MembershipResourceScope}
use muxivo_console.Persistence.Database.{Database}
use muxivo_console.Persistence.Emails.{find_active_user_id_by_email_lookup_hash}
use muxivo_console.Persistence.Members.{MemberWriteError, get_membership, get_status}
use muxivo_console.Persistence.Invitations.{accept}
use muxivo_console.Persistence.Invitations.Reading.{find_pending_by_token_hash}
use muxivo_console.Application.Members.{is_active, same_scope}
use muxivo_console.Application.Sessions.{is_usable_token}

pub record AcceptCommand : Type 0 where
  pub actor_id : Uuid
  pub raw_token : Text
  pub correlation_id : Uuid

-- `OrganizationInvitationAcceptanceRejectedError`, by the check that raises it, and the error of
-- the writer that is not caught.
pub data AcceptRejection : Type 0 where
  unusable_token rejected_token rejected_identity inactive_user existing_member conflict :
      AcceptRejection
  write_error : MemberWriteError → AcceptRejection

-- `_fresh_scope_ids`: each scope gets an identifier of its own.
abbrev pub fresh_scope_ids :
    Supply → List MembershipResourceScope → List MembershipResourceScope × Supply
fresh_scope_ids ids [] = ([], ids)
fresh_scope_ids ids (s ∷ ss) =
    let (others, ids') = fresh_scope_ids (rest_of ids) ss in
    (record s { id = some (ids 0) } ∷ others, ids')

abbrev pub accepted_event : Uuid → AcceptCommand → OrganizationInvitation → AuditEvent
accepted_event new_id cmd i = record {
  id = new_id;
  correlation_id = cmd.correlation_id;
  actor_id = some cmd.actor_id;
  organization_id = some i.organization_id;
  action = "organization.member.invitation.accepted";
  resource_type = "organization_invitation";
  resource_id = some i.id;
  result = "succeeded";
}

abbrev pub accepted_membership :
    Uuid
    → AcceptCommand
    → OrganizationInvitation
    → List MembershipResourceScope
    → OrganizationMembership
accepted_membership new_id cmd i scopes = record {
  actor_id = cmd.actor_id;
  organization_id = i.organization_id;
  role = i.role;
  resource_scopes = scopes;
  id = some new_id;
}

abbrev pub accepted_or :
    OrganizationMembership
    → Result MemberWriteError Bool
    → Result AcceptRejection OrganizationMembership
accepted_or m (ok true) = ok m
accepted_or m (ok false) = err AcceptRejection.conflict
accepted_or m (err e) = err (AcceptRejection.write_error e)

abbrev pub AcceptResult : Type 0
AcceptResult = Result AcceptRejection OrganizationMembership × Database

-- The part of `execute` from the construction of the membership on.
unfoldable pub accept_found :
    Supply → ℕ → AcceptCommand → OrganizationInvitation → Database → AcceptResult
accept_found ids now cmd i db =
    let (scopes, ids') = fresh_scope_ids (rest_of ids) i.resource_scopes in
    let m = accepted_membership (ids 0) cmd i scopes in
    let (accepted, db') = accept i m now (accepted_event (ids' 0) cmd i) db in
    (accepted_or m accepted, db')

abbrev pub is_pending_status : OrganizationInvitationStatus → Bool
is_pending_status OrganizationInvitationStatus.pending = true
is_pending_status _ = false

abbrev pub is_user : Option Uuid → Uuid → Bool
is_user none u = false
is_user (some v) u = v == u

-- The part from the invitation's checks on.
unfoldable pub accept_checked :
    Supply → ℕ → AcceptCommand → OrganizationInvitation → Database → AcceptResult
accept_checked ids now cmd i db =
    if not (is_pending_status (status_at i now))
    then (err AcceptRejection.rejected_token, db)
    else if not
        (is_user (find_active_user_id_by_email_lookup_hash i.email_lookup_hash db) cmd.actor_id)
    then (err AcceptRejection.rejected_identity, db)
    else if not (is_active (get_status cmd.actor_id db))
    then (err AcceptRejection.inactive_user, db)
    else if is_some (get_membership cmd.actor_id i.organization_id db)
    then (err AcceptRejection.existing_member, db)
    else accept_found ids now cmd i db

-- `AcceptOrganizationInvitation.execute`, over the keyed hash of the libraries.
unfoldable pub accept_invitation :
    (Text → Text) → Supply → ℕ → AcceptCommand → Database → AcceptResult
accept_invitation hash ids now cmd db =
    if not (is_usable_token cmd.raw_token)
    then (err AcceptRejection.unusable_token, db)
    else elim (find_pending_by_token_hash (hash cmd.raw_token) now db) [
      | none ↦ (err AcceptRejection.rejected_token, db)
      | some i ↦ accept_checked ids now cmd i db
    ]
