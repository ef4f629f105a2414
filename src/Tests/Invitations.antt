-- ===== src/Tests/Invitations.antt =====
-- Runs of the acceptance of an invitation.
use muxivo_console.Application.Identifiers.{Supply}
use muxivo_console.Shared.{
  ◌+◌, ◌≤◌, ◌≡◌, ◌⊎◌, refl, some, List, [], ◌∷◌, Text, codes, ok, is_blank, strip, is_space,
}
use muxivo_console.Domain.Invitations.{OrganizationInvitation, organization_invitation, status_at}
use muxivo_console.Domain.Organizations.{OrganizationMembership, OrganizationRole}
use muxivo_console.Persistence.Values.{to_role, to_resource, to_action}
use muxivo_console.Persistence.Emails.{find_active_user_id_by_email_lookup_hash}
use muxivo_console.Persistence.Members.{
  get_membership, membership_from_record, get_status, to_user_status, add_member_at,
}
use muxivo_console.Persistence.Invitations.{accept, accept_at}
use muxivo_console.Persistence.Invitations.Reading.{
  find_pending_by_token_hash, invitation_from_records,
}
use muxivo_console.Persistence.Invitations.Closing.{
  InvitationWrite, done_writes, is_closing_of, is_creation_of, opened, closed_once,
}
use muxivo_console.Application.Sessions.{is_usable_token}
use muxivo_console.Application.Invitations.{
  AcceptCommand, accept_invitation, accept_checked, accept_found,
}
use muxivo_console.Application.Invitations.Outcomes.{
  Refuses, IsInvited, Joins, accept_invitation_lem,
}
use muxivo_console.Tests.Fixtures.{base, event, base-IsConsistent}

abbrev ids : Supply
ids n = 100 + n

abbrev hash : Text → Text
hash token = codes "8888888888888888888888888888888888888888888888888888888888888888"

abbrev join : AcceptCommand
join = record { actor_id = 13; raw_token = codes "opaque"; correlation_id = 70 }

abbrev joined : OrganizationMembership
joined = record {
  actor_id = 13;
  organization_id = 1;
  role = OrganizationRole.analyst;
  resource_scopes = [];
  id = some 100;
}

user_joins : (accept_invitation hash ids 1000 join base).0 ≡ ok joined
unfolding accept_invitation accept_checked accept_found is_usable_token is_space is_blank strip
    find_pending_by_token_hash invitation_from_records organization_invitation to_role to_resource
    to_action status_at find_active_user_id_by_email_lookup_hash get_status to_user_status
    get_membership membership_from_record accept accept_at add_member_at
user_joins = refl

accept_invitation_lem_example :
    let run = accept_invitation hash ids 1000 join base in
    Refuses ids 1000 join base run
    ⊎ (i : OrganizationInvitation) × (find_pending_by_token_hash (hash join.raw_token) 1000 base
        ≡ some i)
      × IsInvited ids 1000 join base i
      × Joins ids 1000 join base i run
accept_invitation_lem_example =
    accept_invitation_lem ids 1000 join base hash base-IsConsistent (refl, tt)

abbrev writes : List InvitationWrite
writes =
    InvitationWrite.to_revoke 80 1 1000 event
    ∷ InvitationWrite.to_revoke 80 1 1001 (record event { id = 95 })
    ∷ []

closed_once_example :
    done_writes (is_closing_of 80) writes base
    ≤ done_writes (is_creation_of 80) writes base + opened 80 base
closed_once_example = closed_once 80 writes base
