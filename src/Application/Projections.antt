-- ===== src/Application/Projections.antt =====
-- application/get_platform_*.py, list_platform_connection_channels.py, update_platform_*.py,
-- list_control_modules_use_case.py, list_platform_connection_candidates_use_case.py and the two
-- routers by platform: what is asked of a platform's service, and when. The services' answers are
-- parameters; logging is left out.
pub mod Updates
use muxivo_console.Shared.{
  ℕ, Bool, true, false, not, ◌&&◌, ◌||◌, Option, none, some, List, any, Text, Result, ok, err,
  if◌then◌else◌,
}
use muxivo_console.Domain.Activity.{Uuid, Platform, ControlModule}
use muxivo_console.Domain.Authorization.{
  AuthorizationRequest, AuthorizationResource, AuthorizationAction, AuthorizationDecision, deny,
}
use muxivo_console.Domain.Connections.{PlatformConnection, ConnectionStatus}
use muxivo_console.Domain.Health.{PlatformHealth}
use muxivo_console.Domain.Projections.{
  PlatformWelcomeSettings, PlatformChannelCatalog, PlatformChannelPurposes, PlatformRolePurposes,
  PlatformServerStatistics, PlatformIntegrations, PlatformDashboardSummary,
}
use muxivo_console.Domain.Projections.Settings.{
  PlatformBotSettings, PlatformAuditTimeline, PlatformAiModerationSummary,
  PlatformAiModerationPolicyState, is_discord,
}
use muxivo_console.Domain.Projections.Candidates.{PlatformConnectionCandidateCatalog, same_platform}
use muxivo_console.Persistence.Database.{Database}
use muxivo_console.Persistence.Connections.{find_for_organization, list_for_organization}
use muxivo_console.Application.Authorizer.{authorize}

-- `AccessDeniedError`, `PlatformHealthUnavailableError`, an exception of the service's client, and
-- for the updates the required authentication and the audit event that cannot be written.
pub data ControlError : Type 0 where
  access_denied unavailable client_error recent_authentication_required not_recorded : ControlError

-- What a client answers for an organization, an actor, a resource and a correlation; `none` where
-- it raises.
abbrev pub Client : Type 0 → Type 0
Client A = Uuid → Uuid → Text → Uuid → Option A

abbrev pub Readers : Type 0 → Type 0
Readers A = Platform → Option (Client A)

pub record ReadCommand : Type 0 where
  pub actor_id : Uuid
  pub organization_id : Uuid
  pub connection_id : Uuid
  pub correlation_id : Uuid

abbrev pub control_request : AuthorizationAction → Uuid → Uuid → AuthorizationRequest
control_request action actor o = record {
  actor_id = actor;
  organization_id = o;
  resource = AuthorizationResource.control_modules;
  action = action;
}

abbrev pub is_usable : ConnectionStatus → Bool
is_usable ConnectionStatus.active = true
is_usable ConnectionStatus.degraded = true
is_usable _ = false

abbrev pub answer_or : {A : Type 0} → Option A → Result ControlError A
answer_or none = err ControlError.client_error
answer_or (some a) = ok a

-- The client's answer on a connection's resource.
abbrev pub ask : {A : Type 0} → Client A → ReadCommand → PlatformConnection → Result ControlError A
ask client cmd c =
    answer_or (client cmd.organization_id cmd.actor_id c.external_resource_id cmd.correlation_id)

abbrev pub ask_reader :
    {A : Type 0} → Readers A → ReadCommand → PlatformConnection → Result ControlError A
ask_reader readers cmd c = elim (readers c.platform) [
  | none ↦ err ControlError.unavailable
  | some client ↦ ask client cmd c
]

-- The shape that the use cases share: the authorization, then the connection, then the client.
unfoldable pub on_connection :
    {A : Type 0}
    → AuthorizationAction
    → (PlatformConnection → Bool)
    → (PlatformConnection → Result ControlError A)
    → ReadCommand
    → Database
    → Result ControlError A
on_connection action passes run cmd db =
    if not (authorize (control_request action cmd.actor_id cmd.organization_id) db).allowed
    then err ControlError.access_denied
    else elim (find_for_organization cmd.organization_id cmd.connection_id db) [
      | none ↦ err ControlError.unavailable
      | some c ↦ if passes c then run c else err ControlError.unavailable
    ]

abbrev pub is_usable_connection : PlatformConnection → Bool
is_usable_connection c = is_usable c.status

abbrev pub is_usable_discord : PlatformConnection → Bool
is_usable_discord c = is_discord c.platform && is_usable c.status

-- `GetPlatformAiModerationPolicy.execute`
unfoldable pub get_ai_moderation_policy :
    Client PlatformAiModerationPolicyState
    → ReadCommand
    → Database
    → Result ControlError PlatformAiModerationPolicyState
unfolding on_connection
get_ai_moderation_policy client cmd =
    on_connection AuthorizationAction.manage is_usable_discord (ask client cmd) cmd

-- `GetPlatformAiModerationSummary.execute`
unfoldable pub get_ai_moderation_summary :
    Client PlatformAiModerationSummary
    → ReadCommand
    → Database
    → Result ControlError PlatformAiModerationSummary
unfolding on_connection
get_ai_moderation_summary client cmd =
    on_connection AuthorizationAction.read is_usable_discord (ask client cmd) cmd

-- `GetPlatformAuditTimeline.execute`
unfoldable pub get_audit_timeline :
    Readers PlatformAuditTimeline
    → ReadCommand
    → Database
    → Result ControlError PlatformAuditTimeline
unfolding on_connection
get_audit_timeline readers cmd =
    on_connection AuthorizationAction.manage is_usable_connection (ask_reader readers cmd) cmd

-- `GetPlatformBotSettings.execute`
unfoldable pub get_bot_settings :
    Readers PlatformBotSettings → ReadCommand → Database → Result ControlError PlatformBotSettings
unfolding on_connection
get_bot_settings readers cmd =
    on_connection AuthorizationAction.manage is_usable_connection (ask_reader readers cmd) cmd

-- `GetPlatformChannelPurposes.execute`
unfoldable pub get_channel_purposes :
    Client PlatformChannelPurposes
    → ReadCommand
    → Database
    → Result ControlError PlatformChannelPurposes
unfolding on_connection
get_channel_purposes client cmd =
    on_connection AuthorizationAction.read is_usable_discord (ask client cmd) cmd

-- `GetPlatformDashboardSummary.execute`
unfoldable pub get_dashboard_summary :
    Readers PlatformDashboardSummary
    → ReadCommand
    → Database
    → Result ControlError PlatformDashboardSummary
unfolding on_connection
get_dashboard_summary readers cmd =
    on_connection AuthorizationAction.read is_usable_connection (ask_reader readers cmd) cmd

-- `GetPlatformIntegrations.execute`
unfoldable pub get_integrations :
    Readers PlatformIntegrations → ReadCommand → Database → Result ControlError PlatformIntegrations
unfolding on_connection
get_integrations readers cmd =
    on_connection AuthorizationAction.manage is_usable_connection (ask_reader readers cmd) cmd

-- `GetPlatformRolePurposes.execute`
unfoldable pub get_role_purposes :
    Client PlatformRolePurposes → ReadCommand → Database → Result ControlError PlatformRolePurposes
unfolding on_connection
get_role_purposes client cmd =
    on_connection AuthorizationAction.read is_usable_discord (ask client cmd) cmd

-- `GetPlatformServerStatistics.execute`
unfoldable pub get_server_statistics :
    Readers PlatformServerStatistics
    → ReadCommand
    → Database
    → Result ControlError PlatformServerStatistics
unfolding on_connection
get_server_statistics readers cmd =
    on_connection AuthorizationAction.manage is_usable_connection (ask_reader readers cmd) cmd

-- `GetPlatformWelcomeSettings.execute`
unfoldable pub get_welcome_settings :
    Client PlatformWelcomeSettings
    → ReadCommand
    → Database
    → Result ControlError PlatformWelcomeSettings
unfolding on_connection
get_welcome_settings client cmd =
    on_connection AuthorizationAction.read is_usable_discord (ask client cmd) cmd

-- `ListPlatformConnectionChannels.execute`
unfoldable pub list_connection_channels :
    Readers PlatformChannelCatalog
    → ReadCommand
    → Database
    → Result ControlError PlatformChannelCatalog
unfolding on_connection
list_connection_channels readers cmd =
    on_connection AuthorizationAction.read is_usable_connection (ask_reader readers cmd) cmd

-- A client that answers for an organization, an actor and a correlation.
abbrev pub OrganizationClient : Type 0 → Type 0
OrganizationClient A = Uuid → Uuid → Uuid → Option A

-- `GetPlatformHealth.execute`
unfoldable pub get_platform_health :
    (Platform → Option (OrganizationClient PlatformHealth))
    → Uuid
    → Uuid
    → Platform
    → Uuid
    → Database
    → Result ControlError PlatformHealth
get_platform_health readers actor o platform correlation db =
    if not (authorize (control_request AuthorizationAction.read actor o) db).allowed
    then err ControlError.access_denied
    else if not (
        any (λ c. same_platform c.platform platform && is_usable c.status)
          (list_for_organization o none 100 db))
    then err ControlError.unavailable
    else elim (readers platform) [
      | none ↦ err ControlError.unavailable
      | some client ↦ answer_or (client o actor correlation)
    ]

-- `ListControlModules.execute`
unfoldable pub list_control_modules :
    OrganizationClient (List ControlModule)
    → Uuid
    → Uuid
    → Uuid
    → Database
    → Result ControlError (List ControlModule)
list_control_modules catalog actor o correlation db =
    if not (authorize (control_request AuthorizationAction.read actor o) db).allowed
    then err ControlError.access_denied
    else answer_or (catalog o actor correlation)

-- `DenyByDefaultOrganizationAuthorizer.authorize`
unfoldable pub deny_by_default : AuthorizationRequest → AuthorizationDecision
unfolding deny
deny_by_default q = deny

-- `PlatformConnectionCandidateCatalogRouter.list_for_platform`
unfoldable pub list_for_platform :
    (Platform → Option (OrganizationClient PlatformConnectionCandidateCatalog))
    → Uuid
    → Uuid
    → Platform
    → Uuid
    → Result ControlError PlatformConnectionCandidateCatalog
list_for_platform catalogs o actor platform correlation = elim (catalogs platform) [
  | none ↦ err ControlError.unavailable
  | some client ↦ answer_or (client o actor correlation)
]

-- `ListPlatformConnectionCandidates.execute`
unfoldable pub list_connection_candidates :
    (Platform → Option (OrganizationClient PlatformConnectionCandidateCatalog))
    → Uuid
    → Uuid
    → Platform
    → Uuid
    → Database
    → Result ControlError PlatformConnectionCandidateCatalog
unfolding list_for_platform
list_connection_candidates catalogs actor o platform correlation db =
    if not
      (authorize
        (record {
          actor_id = actor;
          organization_id = o;
          resource = AuthorizationResource.platform_connections;
          action = AuthorizationAction.manage;
        })
        db).allowed
    then err ControlError.access_denied
    else list_for_platform catalogs o actor platform correlation

-- `PlatformConnectionVerifierRouter.verify_connection`
unfoldable pub verify_connection :
    (Platform → Option (Client Bool)) → Uuid → Uuid → Platform → Text → Uuid → Option Bool
verify_connection verifiers actor o platform resource correlation = elim (verifiers platform) [
  | none ↦ some false
  | some verify ↦ verify o actor resource correlation
]
