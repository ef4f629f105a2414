-- ===== src/Application/Organizations.antt =====
-- application/create_organization_use_case.py, list_organizations_use_case.py and
-- list_organization_members.py. The slug, which is random in part, is a parameter; logging is left
-- out.
use muxivo_console.Shared.{
  ℕ, Bool, true, false, not, none, some, List, [], Text, String, Result, ok, err, if◌then◌else◌,
}
use muxivo_console.Domain.Activity.{Uuid}
use muxivo_console.Domain.Audit.{AuditEvent}
use muxivo_console.Domain.Organizations.{
  Organization, OrganizationRole, OrganizationMembership, OrganizationMemberProfile,
  OrganizationMembershipProfile, OrganizationError, organization,
}
use muxivo_console.Persistence.Database.{Database}
use muxivo_console.Persistence.Members.{MemberWriteError, get_membership, get_status}
use muxivo_console.Persistence.Organizations.{
  Collation, create_organization_row, list_for_actor, list_profiles,
}
use muxivo_console.Application.Identifiers.{Supply}
use muxivo_console.Application.Members.{is_active, can_manage_organization_members}

-- The rejections, and the errors that are not caught.
pub data OrganizationRejection : Type 0 where
  creation_rejected listing_rejected access_denied : OrganizationRejection
  invalid_organization : OrganizationError → OrganizationRejection
  write_error : MemberWriteError → OrganizationRejection

pub record CreateOrganizationCommand : Type 0 where
  pub actor_id : Uuid
  pub name : Text
  pub correlation_id : Uuid

abbrev pub new_organization : Uuid → (Text → Text) → CreateOrganizationCommand → Organization
new_organization new_id slug cmd = record { id = new_id; name = cmd.name; slug = slug cmd.name }

abbrev pub owner_membership : Uuid → Uuid → Uuid → OrganizationMembership
owner_membership new_id actor o = record {
  actor_id = actor;
  organization_id = o;
  role = OrganizationRole.owner;
  resource_scopes = [];
  id = some new_id;
}

abbrev pub created_event : Uuid → CreateOrganizationCommand → Uuid → AuditEvent
created_event new_id cmd o = record {
  id = new_id;
  correlation_id = cmd.correlation_id;
  actor_id = some cmd.actor_id;
  organization_id = some o;
  action = "organization.create";
  resource_type = "organization";
  resource_id = some o;
  result = "succeeded";
}

abbrev pub created_or :
    Organization → Result MemberWriteError Bool → Result OrganizationRejection Organization
created_or o (ok true) = ok o
created_or o (ok false) = err OrganizationRejection.creation_rejected
created_or o (err e) = err (OrganizationRejection.write_error e)

-- The part of `CreateOrganization.execute` from the construction of the organization on.
unfoldable pub store_organization :
    (Text → Text)
    → (ℕ → Uuid)
    → CreateOrganizationCommand
    → Database
    → Result OrganizationRejection Organization × Database
store_organization slug ids cmd db = elim (organization (new_organization (ids 0) slug cmd)) [
  | err e ↦ (err (OrganizationRejection.invalid_organization e), db)
  | ok o ↦
      let (created, db') =
        create_organization_row o (owner_membership (ids 1) cmd.actor_id o.id)
          (created_event (ids 2) cmd o.id) db in
      (created_or o created, db')
]

-- `CreateOrganization.execute`
unfoldable pub create_organization :
    (Text → Text)
    → Supply
    → CreateOrganizationCommand
    → Database
    → Result OrganizationRejection Organization × Database
create_organization slug ids cmd db =
    if not (is_active (get_status cmd.actor_id db))
    then (err OrganizationRejection.creation_rejected, db)
    else store_organization slug ids cmd db

-- `ListOrganizations.execute`
unfoldable pub list_organizations :
    Collation → Uuid → Database → Result OrganizationRejection (List OrganizationMembershipProfile)
list_organizations before actor db =
    if not (is_active (get_status actor db))
    then err OrganizationRejection.listing_rejected
    else ok (list_for_actor before actor db)

-- `ListOrganizationMembers.execute`
unfoldable pub list_organization_members :
    (String → String → Bool)
    → Collation
    → Uuid
    → Uuid
    → Database
    → Result OrganizationRejection (List OrganizationMemberProfile)
list_organization_members role_before before actor o db = elim (get_membership actor o db) [
  | none ↦ err OrganizationRejection.access_denied
  | some m ↦
      if not (can_manage_organization_members m.role)
      then err OrganizationRejection.access_denied
      else ok (list_profiles role_before before o db)
]
