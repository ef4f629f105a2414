-- ===== src/Persistence/Values.antt =====
-- The strings under which the tables hold the members of the string enumerations: `member.value`
-- and the enumeration called with such a string, which fails on any other.
use text.Mathlib.Text.{◌==◌ as str_eq}
use muxivo_console.Shared.{◌≡◌, refl, Option, none, some, String, if◌then◌else◌}
use muxivo_console.Domain.Activity.{Platform}
use muxivo_console.Domain.Authorization.{AuthorizationAction, AuthorizationResource}
use muxivo_console.Domain.Organizations.{OrganizationRole}
use muxivo_console.Domain.Connections.{ConnectionStatus, ConnectionStatusReason}

abbrev pub platform_value : Platform → String
platform_value Platform.discord = "discord"
platform_value Platform.twitch = "twitch"
platform_value Platform.telegram = "telegram"

unfoldable pub to_platform : String → Option Platform
to_platform s =
    if str_eq s "discord"
    then some Platform.discord
    else if str_eq s "twitch"
    then some Platform.twitch
    else if str_eq s "telegram"
    then some Platform.telegram
    else none

abbrev pub status_value : ConnectionStatus → String
status_value ConnectionStatus.pending = "pending"
status_value ConnectionStatus.active = "active"
status_value ConnectionStatus.degraded = "degraded"
status_value ConnectionStatus.reauth_required = "reauth_required"
status_value ConnectionStatus.disconnected = "disconnected"

unfoldable pub to_status : String → Option ConnectionStatus
to_status s =
    if str_eq s "pending"
    then some ConnectionStatus.pending
    else if str_eq s "active"
    then some ConnectionStatus.active
    else if str_eq s "degraded"
    then some ConnectionStatus.degraded
    else if str_eq s "reauth_required"
    then some ConnectionStatus.reauth_required
    else if str_eq s "disconnected"
    then some ConnectionStatus.disconnected
    else none

abbrev pub reason_value : ConnectionStatusReason → String
reason_value ConnectionStatusReason.initial_pending = "initial_pending"
reason_value ConnectionStatusReason.healthy = "healthy"
reason_value ConnectionStatusReason.preflight_failed = "preflight_failed"
reason_value ConnectionStatusReason.token_expired = "token_expired"
reason_value ConnectionStatusReason.scopes_missing = "scopes_missing"
reason_value ConnectionStatusReason.platform_unreachable = "platform_unreachable"
reason_value ConnectionStatusReason.resource_removed = "resource_removed"
reason_value ConnectionStatusReason.reauthorized = "reauthorized"
reason_value ConnectionStatusReason.revoked = "revoked"
reason_value ConnectionStatusReason.disconnected = "disconnected"

unfoldable pub to_reason : String → Option ConnectionStatusReason
to_reason s =
    if str_eq s "initial_pending"
    then some ConnectionStatusReason.initial_pending
    else if str_eq s "healthy"
    then some ConnectionStatusReason.healthy
    else if str_eq s "preflight_failed"
    then some ConnectionStatusReason.preflight_failed
    else if str_eq s "token_expired"
    then some ConnectionStatusReason.token_expired
    else if str_eq s "scopes_missing"
    then some ConnectionStatusReason.scopes_missing
    else if str_eq s "platform_unreachable"
    then some ConnectionStatusReason.platform_unreachable
    else if str_eq s "resource_removed"
    then some ConnectionStatusReason.resource_removed
    else if str_eq s "reauthorized"
    then some ConnectionStatusReason.reauthorized
    else if str_eq s "revoked"
    then some ConnectionStatusReason.revoked
    else if str_eq s "disconnected"
    then some ConnectionStatusReason.disconnected
    else none

abbrev pub role_value : OrganizationRole → String
role_value OrganizationRole.owner = "owner"
role_value OrganizationRole.admin = "admin"
role_value OrganizationRole.moderator = "moderator"
role_value OrganizationRole.analyst = "analyst"
role_value OrganizationRole.viewer = "viewer"

unfoldable pub to_role : String → Option OrganizationRole
to_role s =
    if str_eq s "owner"
    then some OrganizationRole.owner
    else if str_eq s "admin"
    then some OrganizationRole.admin
    else if str_eq s "moderator"
    then some OrganizationRole.moderator
    else if str_eq s "analyst"
    then some OrganizationRole.analyst
    else if str_eq s "viewer"
    then some OrganizationRole.viewer
    else none

abbrev pub resource_value : AuthorizationResource → String
resource_value AuthorizationResource.control_modules = "console.control_modules"
resource_value AuthorizationResource.platform_connections = "console.platform_connections"
resource_value AuthorizationResource.audit_events = "console.audit_events"
resource_value AuthorizationResource.organization_members = "console.organization_members"

unfoldable pub to_resource : String → Option AuthorizationResource
to_resource s =
    if str_eq s "console.control_modules"
    then some AuthorizationResource.control_modules
    else if str_eq s "console.platform_connections"
    then some AuthorizationResource.platform_connections
    else if str_eq s "console.audit_events"
    then some AuthorizationResource.audit_events
    else if str_eq s "console.organization_members"
    then some AuthorizationResource.organization_members
    else none

abbrev pub action_value : AuthorizationAction → String
action_value AuthorizationAction.read = "read"
action_value AuthorizationAction.manage = "manage"

unfoldable pub to_action : String → Option AuthorizationAction
to_action s =
    if str_eq s "read"
    then some AuthorizationAction.read
    else if str_eq s "manage"
    then some AuthorizationAction.manage
    else none

-- What is written under a member's value is read back as that member.
pub to_platform-value : (p : Platform) → to_platform (platform_value p) ≡ some p
unfolding to_platform
to_platform-value Platform.discord = refl
to_platform-value _ = refl

pub to_status-value : (s : ConnectionStatus) → to_status (status_value s) ≡ some s
unfolding to_status
to_status-value ConnectionStatus.pending = refl
to_status-value _ = refl

pub to_reason-value : (r : ConnectionStatusReason) → to_reason (reason_value r) ≡ some r
unfolding to_reason
to_reason-value ConnectionStatusReason.healthy = refl
to_reason-value _ = refl

pub to_role-value : (r : OrganizationRole) → to_role (role_value r) ≡ some r
unfolding to_role
to_role-value OrganizationRole.owner = refl
to_role-value _ = refl

pub to_resource-value : (r : AuthorizationResource) → to_resource (resource_value r) ≡ some r
unfolding to_resource
to_resource-value AuthorizationResource.audit_events = refl
to_resource-value _ = refl

pub to_action-value : (a : AuthorizationAction) → to_action (action_value a) ≡ some a
unfolding to_action
to_action-value AuthorizationAction.read = refl
to_action-value _ = refl
