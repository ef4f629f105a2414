-- ===== src/Tests/Management.antt =====
-- Runs of the commands on members.
use muxivo_console.Application.Identifiers.{Supply}
use muxivo_console.Shared.{◌≡◌, refl, ◌⊎◌, ◌+◌, [], ◌∷◌, some, none, ok, codes, Option, List, Text}
use muxivo_console.Domain.Authorization.{AuthorizationAction, AuthorizationResource}
use muxivo_console.Domain.Organizations.{
  OrganizationMembership, OrganizationRole, may_assign, supports_scope,
}
use muxivo_console.Persistence.Values.{to_role, to_resource, to_action}
use muxivo_console.Persistence.Emails.{find_active_user_id_by_email_lookup_hash}
use muxivo_console.Persistence.Members.{
  get_membership, membership_from_record, get_status, to_user_status, add_member, update_member,
  remove_member,
}
use muxivo_console.Persistence.Members.Writes.{IsConsistent}
use muxivo_console.Application.Members.{
  AddMemberCommand, UpdateMemberCommand, RemoveMemberCommand, add_organization_member,
  add_authorized, add_invitee, add_target, update_organization_member, update_authorized,
  update_target, remove_organization_member, remove_found, remove_target, require_actor_can_manage,
  assign_scope_ids,
}
use muxivo_console.Application.Members.Outcomes.{
  IsRefused, Added, Updated, Removed, add_organization_member_lem, update_organization_member_lem,
  remove_organization_member_lem,
}
use muxivo_console.Application.Members.Owners.{MemberCommand, run_members, owners_stay}
use muxivo_console.Tests.Fixtures.{base, base-IsConsistent}

abbrev ids : Supply
ids n = 100 + n

abbrev trimmed : Text → Option Text
trimmed = some

abbrev digest : Text → Text
digest t = t

abbrev add_analyst : AddMemberCommand
add_analyst = record {
  actor_id = 11;
  organization_id = 1;
  email = codes "13@example.org";
  role = OrganizationRole.analyst;
  resource_scopes =
      record {
        resource = AuthorizationResource.audit_events;
        action = AuthorizationAction.read;
        id = none;
      }
      ∷ [];
  correlation_id = 70;
}

abbrev change_viewer : UpdateMemberCommand
change_viewer = record {
  actor_id = 11;
  organization_id = 1;
  user_id = 12;
  role = OrganizationRole.moderator;
  resource_scopes = [];
  correlation_id = 71;
}

abbrev remove_viewer : RemoveMemberCommand
remove_viewer = record { actor_id = 11; organization_id = 1; user_id = 12; correlation_id = 72 }

-- All that a command on members calls.
ManageOpen : Type 0
unfolding add_organization_member add_authorized add_invitee add_target update_organization_member
    update_authorized update_target remove_organization_member remove_found remove_target
    require_actor_can_manage assign_scope_ids may_assign supports_scope get_membership
    membership_from_record to_role to_resource to_action find_active_user_id_by_email_lookup_hash
    get_status to_user_status add_member update_member remove_member
ManageOpen = Unit

abbrev analyst : OrganizationMembership
analyst = record {
  actor_id = 13;
  organization_id = 1;
  role = OrganizationRole.analyst;
  resource_scopes =
      record {
        resource = AuthorizationResource.audit_events;
        action = AuthorizationAction.read;
        id = some 101;
      }
      ∷ [];
  id = some 100;
}

analyst_added : (add_organization_member trimmed digest ids add_analyst base).0 ≡ ok analyst
unfolding ManageOpen
analyst_added = refl

viewer_removed : (remove_organization_member ids remove_viewer base).0 ≡ ok tt
unfolding ManageOpen
viewer_removed = refl

add_organization_member_lem_example :
    let run = add_organization_member trimmed digest ids add_analyst base in
    IsRefused base run
    ⊎ (email : Text) × (trimmed add_analyst.email ≡ some email)
      × Added (digest email) ids add_analyst base run
add_organization_member_lem_example =
    add_organization_member_lem trimmed digest ids add_analyst base base-IsConsistent

update_organization_member_lem_example :
    let run = update_organization_member ids change_viewer base in
    IsRefused base run ⊎ Updated ids change_viewer base run
update_organization_member_lem_example =
    update_organization_member_lem ids change_viewer base base-IsConsistent

remove_organization_member_lem_example :
    let run = remove_organization_member ids remove_viewer base in
    IsRefused base run ⊎ Removed ids remove_viewer base run
remove_organization_member_lem_example =
    remove_organization_member_lem ids remove_viewer base base-IsConsistent

abbrev the_owner : OrganizationMembership
the_owner = record {
  actor_id = 10;
  organization_id = 1;
  role = OrganizationRole.owner;
  resource_scopes = [];
  id = some 20;
}

owner_found : get_membership 10 1 base ≡ some the_owner
unfolding ManageOpen
owner_found = refl

abbrev orders : List (Supply × MemberCommand)
orders =
    (ids, MemberCommand.add add_analyst)
    ∷ ((λ n. 200 + n), MemberCommand.remove remove_viewer)
    ∷ ((λ n. 300 + n), MemberCommand.remove (record remove_viewer { user_id = 10 }))
    ∷ []

owners_stay_example :
    (get_membership 10 1 (run_members trimmed digest orders base) ≡ some the_owner)
    × IsConsistent (run_members trimmed digest orders base)
owners_stay_example =
    owners_stay trimmed digest orders 10 1 the_owner base base-IsConsistent owner_found refl
