-- ===== src/Domain/Organizations.antt =====
-- domain/organizations.py: roles, their ranks, memberships and the scopes granted to them.
pub mod Ranks
pub mod Access
use muxivo_console.Shared.{
  ℕ, Bool, true, false, ◌&&◌, ◌||◌, not, Option, none, some, List, [], ◌∷◌, any, Text, length,
  is_empty, is_blank, Result, raise_unless, ok, ◌==◌, ltb, leb,
}
use muxivo_console.Domain.Activity.{Uuid}
use muxivo_console.Domain.Authorization.{
  AuthorizationAction, AuthorizationResource, AuthorizationRequest, is_action, is_resource,
}

pub data OrganizationRole : Type 0 where
  owner admin moderator analyst viewer : OrganizationRole

-- `_ROLE_RANK`
abbrev pub role_rank : OrganizationRole → ℕ
role_rank OrganizationRole.owner = 0
role_rank OrganizationRole.admin = 1
role_rank OrganizationRole.moderator = 2
role_rank OrganizationRole.analyst = 3
role_rank OrganizationRole.viewer = 4

unfoldable pub may_assign : OrganizationRole → OrganizationRole → Bool
may_assign r target = ltb (role_rank r) (role_rank target)

pub record MembershipResourceScope : Type 0 where
  pub resource : AuthorizationResource
  pub action : AuthorizationAction
  pub id : Option Uuid

abbrev pub is_owner : OrganizationRole → Bool
is_owner OrganizationRole.owner = true
is_owner _ = false

abbrev pub is_admin : OrganizationRole → Bool
is_admin OrganizationRole.admin = true
is_admin _ = false

abbrev pub is_analyst : OrganizationRole → Bool
is_analyst OrganizationRole.analyst = true
is_analyst _ = false

-- `_role_supports_pair`, one clause for each `if resource is …`
unfoldable pub role_supports_pair :
    OrganizationRole → AuthorizationResource → AuthorizationAction → Bool
role_supports_pair r AuthorizationResource.organization_members a = is_owner r || is_admin r
role_supports_pair r AuthorizationResource.control_modules a = is_action a AuthorizationAction.read
role_supports_pair r AuthorizationResource.platform_connections a =
    is_admin r && (is_action a AuthorizationAction.read || is_action a AuthorizationAction.manage)
role_supports_pair r AuthorizationResource.audit_events a =
    (is_admin r || is_analyst r) && is_action a AuthorizationAction.read

-- `OrganizationRole.supports_scope`
unfoldable pub supports_scope : OrganizationRole → MembershipResourceScope → Bool
unfolding role_supports_pair
supports_scope r s = role_supports_pair r s.resource s.action

-- `MembershipResourceScope.allows`
unfoldable pub scope_allows : MembershipResourceScope → AuthorizationRequest → Bool
scope_allows s q = is_resource s.resource q.resource && is_action s.action q.action

pub record OrganizationMembership : Type 0 where
  pub actor_id : Uuid
  pub organization_id : Uuid
  pub role : OrganizationRole
  pub resource_scopes : List MembershipResourceScope  -- a frozenset
  pub id : Option Uuid

-- `_role_supports`
unfoldable pub role_supports : OrganizationRole → AuthorizationRequest → Bool
unfolding role_supports_pair
role_supports r q = role_supports_pair r q.resource q.action

-- `OrganizationMembership.allows`, its early returns in order.
unfoldable pub allows : OrganizationMembership → AuthorizationRequest → Bool
allows m q = elim (not (q.actor_id == m.actor_id) || not (q.organization_id == m.organization_id)) [
  | true ↦ false
  | false ↦ elim (is_owner m.role) [
    | true ↦ true
    | false ↦ elim (not (role_supports m.role q)) [
      | true ↦ false
      | false ↦ any (λ s. scope_allows s q) m.resource_scopes
    ]
  ]
]

pub record Organization : Type 0 where
  pub id : Uuid
  pub name : Text
  pub slug : Text

pub data OrganizationError : Type 0 where
  invalid_name invalid_slug : OrganizationError

-- `Organization.__post_init__`
unfoldable pub organization : Organization → Result OrganizationError Organization
organization o =
    raise_unless (not (is_blank o.name || ltb 128 (length o.name))) OrganizationError.invalid_name (
      raise_unless (not (is_empty o.slug || ltb 96 (length o.slug))) OrganizationError.invalid_slug
        (ok o))

-- One member as it is displayed.
pub record OrganizationMemberProfile : Type 0 where
  pub membership : OrganizationMembership
  pub display_name : Text

-- `OrganizationMemberProfile.__post_init__`
unfoldable pub organization_member_profile :
    OrganizationMemberProfile → Result OrganizationError OrganizationMemberProfile
organization_member_profile p =
    raise_unless (not (is_blank p.display_name || ltb 64 (length p.display_name)))
      OrganizationError.invalid_name (ok p)

pub record OrganizationMembershipProfile : Type 0 where
  pub organization : Organization
  pub membership : OrganizationMembership
