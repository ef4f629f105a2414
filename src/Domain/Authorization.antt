-- ===== src/Domain/Authorization.antt =====
-- domain/authorization.py: the facts of one authorization decision.
use muxivo_console.Shared.{Bool, true, false}
use muxivo_console.Domain.Activity.{Uuid}

pub data AuthorizationAction : Type 0 where
  read manage : AuthorizationAction

pub data AuthorizationResource : Type 0 where
  control_modules platform_connections audit_events organization_members : AuthorizationResource

-- `left is right` on members of an enumeration.
abbrev pub is_action : AuthorizationAction → AuthorizationAction → Bool
is_action AuthorizationAction.read AuthorizationAction.read = true
is_action AuthorizationAction.manage AuthorizationAction.manage = true
is_action _ _ = false

abbrev pub is_resource : AuthorizationResource → AuthorizationResource → Bool
is_resource AuthorizationResource.control_modules AuthorizationResource.control_modules = true
is_resource AuthorizationResource.platform_connections AuthorizationResource.platform_connections =
    true
is_resource AuthorizationResource.audit_events AuthorizationResource.audit_events = true
is_resource AuthorizationResource.organization_members AuthorizationResource.organization_members =
    true
is_resource _ _ = false

pub record AuthorizationRequest : Type 0 where
  pub actor_id : Uuid
  pub organization_id : Uuid
  pub resource : AuthorizationResource
  pub action : AuthorizationAction

pub record AuthorizationDecision : Type 0 where
  pub allowed : Bool

unfoldable pub deny : AuthorizationDecision
deny = record { allowed = false }
