-- ===== src/Application/Authorizer.antt =====
-- application/organization_authorizer.py: decisions from memberships alone.
use muxivo_console.Shared.{true, ◌≡◌, none, some, Option-cases, inl, inr}
use muxivo_console.Domain.Authorization.{AuthorizationRequest, AuthorizationDecision, deny}
use muxivo_console.Domain.Organizations.{OrganizationMembership, allows}
use muxivo_console.Persistence.Database.{Database}
use muxivo_console.Persistence.Members.{get_membership}

-- `MembershipOrganizationAuthorizer.authorize`
unfoldable pub authorize : AuthorizationRequest → Database → AuthorizationDecision
unfolding deny
authorize q db = elim (get_membership q.actor_id q.organization_id db) [
  | none ↦ deny
  | some m ↦ record { allowed = allows m q }
]

-- Only a member whose membership allows the request is let through.
pub authorize-allowed :
    (q : AuthorizationRequest) (db : Database)
    → (authorize q db).allowed ≡ true
    → (m : OrganizationMembership) × (get_membership q.actor_id q.organization_id db ≡ some m)
      × (allows m q ≡ true)
unfolding authorize
authorize-allowed q db h = elim (Option-cases (get_membership q.actor_id q.organization_id db)) [
  | inl e ↦ absurd (cc (rw (e, authorize) at h))
  | inr (m, e) ↦ (m, e, (rw (e, authorize) at h))
]
