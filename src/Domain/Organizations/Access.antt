-- ===== src/Domain/Organizations/Access.antt =====
-- What `OrganizationMembership.allows` grants.
use muxivo_console.Shared.{true, ◌≡◌, refl, ◌⊎◌, ◌↔◌, ◌∷◌, [], List, arith, any, filter}
use muxivo_console.Domain.Authorization.{
  AuthorizationAction, AuthorizationResource, AuthorizationRequest,
}
use muxivo_console.Domain.Organizations.{
  OrganizationRole, OrganizationMembership, MembershipResourceScope, allows, role_supports,
  scope_allows, supports_scope,
}

-- One of the scopes names the requested pair of a resource and an action.
abbrev pub Grants : AuthorizationRequest → List MembershipResourceScope → Type 0
Grants q [] = ⊥
Grants q (s ∷ ss) = (s.resource ≡ q.resource) × (s.action ≡ q.action) ⊎ Grants q ss

scope_allows_iff :
    (s : MembershipResourceScope) (q : AuthorizationRequest)
    → (scope_allows s q ≡ true) ↔ ((s.resource ≡ q.resource) × (s.action ≡ q.action))
unfolding scope_allows
scope_allows_iff s q = ground arith

any-scope_allows→Grants :
    (q : AuthorizationRequest) (ss : List MembershipResourceScope)
    → any (λ s. scope_allows s q) ss ≡ true
    → Grants q ss
any-scope_allows→Grants q [] h = cc
any-scope_allows→Grants q (s ∷ ss) h =
    ground (arith, scope_allows_iff s q, any-scope_allows→Grants q ss)

Grants→any-scope_allows :
    (q : AuthorizationRequest) (ss : List MembershipResourceScope)
    → Grants q ss
    → any (λ s. scope_allows s q) ss ≡ true
Grants→any-scope_allows q [] h = absurd h
Grants→any-scope_allows q (s ∷ ss) h =
    ground (arith, scope_allows_iff s q, Grants→any-scope_allows q ss)

-- A membership allows a request exactly when the actor and the organization are the membership's
-- own, and the role is owner, or the role can ever use the pair and a scope grants it.
pub allows_iff :
    (m : OrganizationMembership) (q : AuthorizationRequest)
    → (allows m q ≡ true) ↔ (
        (q.actor_id ≡ m.actor_id)
        × (q.organization_id ≡ m.organization_id)
        × ((m.role ≡ OrganizationRole.owner)
            ⊎ (role_supports m.role q ≡ true) × Grants q m.resource_scopes))
unfolding allows
allows_iff m q = ground (
  arith,
  any-scope_allows→Grants q m.resource_scopes,
  Grants→any-scope_allows q m.resource_scopes,
)

-- To manage any resource, or to touch the organization's members, takes an owner or an admin,
-- whatever scopes the membership holds.
pub manage_needs_owner_or_admin :
    (m : OrganizationMembership) (q : AuthorizationRequest)
    → allows m q ≡ true
    → (q.action ≡ AuthorizationAction.manage)
      ⊎ (q.resource ≡ AuthorizationResource.organization_members)
    → (m.role ≡ OrganizationRole.owner) ⊎ (m.role ≡ OrganizationRole.admin)
unfolding allows role_supports
manage_needs_owner_or_admin m q h k = ground arith

any-filter-supports :
    (m : OrganizationMembership) (q : AuthorizationRequest) (ss : List MembershipResourceScope)
    → role_supports m.role q ≡ true
    → any (λ s. scope_allows s q) (filter (supports_scope m.role) ss)
      ≡ any (λ s. scope_allows s q) ss
unfolding role_supports supports_scope scope_allows
any-filter-supports m q [] h = refl
any-filter-supports m q (s ∷ ss) h = ground (arith, any-filter-supports m q ss h)

-- Scopes that the role does not support are inert: dropping them changes no decision.
pub unsupported_scopes_inert :
    (m : OrganizationMembership) (q : AuthorizationRequest)
    → allows (record m { resource_scopes = filter (supports_scope m.role) m.resource_scopes }) q
      ≡ allows m q
unfolding allows
unsupported_scopes_inert m q = ground (arith, any-filter-supports m q m.resource_scopes)
