-- ===== src/Tests/Organizations.antt =====
-- Runs of the role and membership rules.
use muxivo_console.Shared.{true, false, ◌≡◌, refl, ◌⊎◌, ◌↔◌, inl}
use muxivo_console.Domain.Authorization.{
  AuthorizationAction, AuthorizationResource, AuthorizationRequest,
}
use muxivo_console.Domain.Organizations.{OrganizationRole, allows, role_supports, scope_allows}
use muxivo_console.Domain.Organizations.Access.{Grants, allows_iff, manage_needs_owner_or_admin}
use muxivo_console.Tests.Fixtures.{admin}

abbrev manage_connections : AuthorizationRequest
manage_connections = record {
  actor_id = 11;
  organization_id = 1;
  resource = AuthorizationResource.platform_connections;
  action = AuthorizationAction.manage;
}

admin_manages : allows admin manage_connections ≡ true
unfolding allows role_supports scope_allows
admin_manages = refl

elsewhere_denied : allows admin (record manage_connections { organization_id = 2 }) ≡ false
unfolding allows role_supports scope_allows
elsewhere_denied = refl

allows_iff_example : (allows admin manage_connections ≡ true) ↔ (
    (manage_connections.actor_id ≡ admin.actor_id)
    × (manage_connections.organization_id ≡ admin.organization_id)
    × ((admin.role ≡ OrganizationRole.owner)
        ⊎ (role_supports admin.role manage_connections ≡ true)
          × Grants manage_connections admin.resource_scopes))
allows_iff_example = allows_iff admin manage_connections

manage_needs_owner_or_admin_example :
    (admin.role ≡ OrganizationRole.owner) ⊎ (admin.role ≡ OrganizationRole.admin)
manage_needs_owner_or_admin_example =
    manage_needs_owner_or_admin admin manage_connections admin_manages (inl refl)
