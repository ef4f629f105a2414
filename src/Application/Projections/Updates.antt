-- ===== src/Application/Projections/Updates.antt =====
-- application/update_platform_welcome_settings.py, update_platform_channel_purpose.py and
-- update_platform_ai_moderation_policy.py. What a platform's service answers to an update is a
-- parameter.
pub mod Outcomes
use muxivo_console.Shared.{
  ℕ, Bool, true, false, not, ◌&&◌, Option, none, some, Text, String, Result, ok, err, if◌then◌else◌,
}
use muxivo_console.Domain.Activity.{Uuid, Platform}
use muxivo_console.Domain.Audit.{AuditEvent}
use muxivo_console.Domain.Authorization.{AuthorizationAction}
use muxivo_console.Domain.Connections.{PlatformConnection, ConnectionStatus}
use muxivo_console.Domain.Projections.{
  PlatformWelcomeSettings, PlatformChannelPurposes, ChannelPurpose,
}
use muxivo_console.Domain.Projections.Settings.{
  PlatformAiModerationPolicy, PlatformAiModerationSummary, is_discord,
}
use muxivo_console.Domain.Projections.Candidates.{same_platform}
use muxivo_console.Persistence.Database.{Database}
use muxivo_console.Persistence.Connections.{find_for_organization}
use muxivo_console.Persistence.Organizations.{record_event}
use muxivo_console.Application.Identifiers.{Supply}
use muxivo_console.Application.Authorizer.{authorize}
use muxivo_console.Application.Sessions.{BrowserSessionPrincipal, check_recent}
use muxivo_console.Application.Projections.{
  ControlError, Client, ReadCommand, control_request, ask, on_connection,
}

abbrev pub is_active_status : ConnectionStatus → Bool
is_active_status ConnectionStatus.active = true
is_active_status _ = false

abbrev pub is_active_discord : PlatformConnection → Bool
is_active_discord c = is_discord c.platform && is_active_status c.status

-- `UpdatePlatformWelcomeSettings.execute`
unfoldable pub update_welcome_settings :
    (PlatformWelcomeSettings → Client PlatformWelcomeSettings)
    → PlatformWelcomeSettings
    → ReadCommand
    → Database
    → Result ControlError PlatformWelcomeSettings
unfolding on_connection
update_welcome_settings client settings cmd =
    on_connection AuthorizationAction.manage
      (λ c. same_platform settings.platform c.platform && is_active_discord c)
      (ask (client settings) cmd) cmd

-- `UpdatePlatformChannelPurpose.execute`
unfoldable pub update_channel_purpose :
    (ChannelPurpose → Text → Client PlatformChannelPurposes)
    → ChannelPurpose
    → Text
    → ReadCommand
    → Database
    → Result ControlError PlatformChannelPurposes
unfolding on_connection
update_channel_purpose client purpose channel cmd =
    on_connection AuthorizationAction.manage is_active_discord (ask (client purpose channel) cmd)
      cmd

pub record UpdatePolicyCommand : Type 0 where
  pub principal : BrowserSessionPrincipal
  pub organization_id : Uuid
  pub connection_id : Uuid
  pub policy : PlatformAiModerationPolicy
  pub correlation_id : Uuid

abbrev pub policy_event : Uuid → UpdatePolicyCommand → String → AuditEvent
policy_event new_id cmd outcome = record {
  id = new_id;
  correlation_id = cmd.correlation_id;
  actor_id = some cmd.principal.user_id;
  organization_id = some cmd.organization_id;
  action = "platform_ai_moderation_policy.updated";
  resource_type = "platform_connection";
  resource_id = some cmd.connection_id;
  result = outcome;
}

abbrev pub PolicyResult : Type 0
PolicyResult = Result ControlError PlatformAiModerationSummary × Database

-- `_record_audit`, whose exception takes the place of the answer.
abbrev pub recorded :
    AuditEvent → Result ControlError PlatformAiModerationSummary → Database → PolicyResult
recorded event answer db = elim (record_event event db) [
  | none ↦ (err ControlError.not_recorded, db)
  | some db' ↦ (answer, db')
]

-- The part of `UpdatePlatformAiModerationPolicy.execute` from the service's answer on.
unfoldable pub policy_answered :
    Supply → UpdatePolicyCommand → Option PlatformAiModerationSummary → Database → PolicyResult
unfolding record_event
policy_answered ids cmd none db =
    recorded (policy_event (ids 0) cmd "failed") (err ControlError.client_error) db
policy_answered ids cmd (some summary) db =
    recorded (policy_event (ids 0) cmd "succeeded") (ok summary) db

-- Whether the policy can be set on a connection.
abbrev pub takes_policy : UpdatePolicyCommand → PlatformConnection → Bool
takes_policy cmd c = same_platform cmd.policy.platform c.platform && is_active_discord c

-- `UpdatePlatformAiModerationPolicy.execute`
unfoldable pub update_ai_moderation_policy :
    (PlatformAiModerationPolicy → Client PlatformAiModerationSummary)
    → Supply
    → ℕ
    → ℕ
    → UpdatePolicyCommand
    → Database
    → PolicyResult
update_ai_moderation_policy client ids now maximum_age cmd db =
    if not (check_recent now maximum_age cmd.principal)
    then (err ControlError.recent_authentication_required, db)
    else if not
        (authorize
          (control_request AuthorizationAction.manage cmd.principal.user_id cmd.organization_id)
          db).allowed
    then (err ControlError.access_denied, db)
    else elim (find_for_organization cmd.organization_id cmd.connection_id db) [
      | none ↦ (err ControlError.unavailable, db)
      | some c ↦
          if not (takes_policy cmd c)
          then (err ControlError.unavailable, db)
          else policy_answered ids cmd
              (client cmd.policy cmd.organization_id cmd.principal.user_id c.external_resource_id
                cmd.correlation_id)
              db
    ]
