-- ===== src/Tests/Members.antt =====
-- Runs of the member repository.
use muxivo_console.Shared.{true, ◌≡◌, refl, [], ◌∷◌, some, ok}
use muxivo_console.Domain.Organizations.{OrganizationMembership, OrganizationRole}
use muxivo_console.Persistence.Values.{to_role, to_resource, to_action}
use muxivo_console.Persistence.Members.{get_membership, membership_from_record, add_member}
use muxivo_console.Persistence.Members.Writes.{Adds, add_member_lem}
use muxivo_console.Tests.Fixtures.{base, event, admin, admin_scope, base-IsConsistent}

admin_found : get_membership 11 1 base ≡ some admin
unfolding get_membership membership_from_record to_role to_resource to_action
admin_found = refl

abbrev newcomer : OrganizationMembership
newcomer = record {
  actor_id = 13;
  organization_id = 1;
  role = OrganizationRole.analyst;
  resource_scopes = record admin_scope { id = some 32 } ∷ [];
  id = some 23;
}

newcomer_added : (add_member newcomer event base).0 ≡ ok true
unfolding add_member
newcomer_added = refl

add_member_lem_example : Adds newcomer event base (add_member newcomer event base)
add_member_lem_example = add_member_lem newcomer event base base-IsConsistent

abbrev demoted : OrganizationMembership
demoted = record admin { role = OrganizationRole.viewer; resource_scopes = [] }
