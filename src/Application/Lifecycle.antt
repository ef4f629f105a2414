-- ===== src/Application/Lifecycle.antt =====
-- application/manage_platform_connection_lifecycle_use_case.py with its command and
-- platform_connection_lifecycle_action.py: a member changes the state of a connection, and may
-- send a retry key.
pub mod Outcomes
pub mod Retries
pub mod Histories
use muxivo_console.Shared.{
  ℕ, Bool, true, false, not, Option, none, some, Text, String, length, strip, is_empty, ◌==◌, ltb,
  Result, ok, err, if◌then◌else◌, ◌||◌,
}
use text.Mathlib.Text.{◌==◌ as str_eq}
use muxivo_console.Domain.Activity.{Uuid}
use muxivo_console.Domain.Audit.{AuditEvent}
use muxivo_console.Domain.Authorization.{
  AuthorizationAction, AuthorizationResource, AuthorizationRequest,
}
use muxivo_console.Domain.Connections.{
  PlatformConnection, ConnectionStatus, ConnectionStatusReason, ConnectionError, is_status,
  transition_to, platform_connection,
}
use muxivo_console.Persistence.Database.{Database}
use muxivo_console.Persistence.Connections.{
  IdempotencyResult, find_for_organization, find_idempotent_lifecycle_result, update_status,
}
use muxivo_console.Application.Authorizer.{authorize}

pub data LifecycleAction : Type 0 where
  reauthorize revoke disconnect : LifecycleAction

abbrev pub lifecycle_action_value : LifecycleAction → String
lifecycle_action_value LifecycleAction.reauthorize = "reauthorize"
lifecycle_action_value LifecycleAction.revoke = "revoke"
lifecycle_action_value LifecycleAction.disconnect = "disconnect"

abbrev pub target_status : LifecycleAction → ConnectionStatus
target_status LifecycleAction.reauthorize = ConnectionStatus.active
target_status LifecycleAction.revoke = ConnectionStatus.reauth_required
target_status LifecycleAction.disconnect = ConnectionStatus.disconnected

-- `f"platform_connection.{self.value}"`
abbrev pub audit_action : LifecycleAction → String
audit_action LifecycleAction.reauthorize = "platform_connection.reauthorize"
audit_action LifecycleAction.revoke = "platform_connection.revoke"
audit_action LifecycleAction.disconnect = "platform_connection.disconnect"

abbrev pub action_reason : LifecycleAction → ConnectionStatusReason
action_reason LifecycleAction.reauthorize = ConnectionStatusReason.reauthorized
action_reason LifecycleAction.revoke = ConnectionStatusReason.revoked
action_reason LifecycleAction.disconnect = ConnectionStatusReason.disconnected

pub record LifecycleCommand : Type 0 where
  pub actor_id : Uuid
  pub organization_id : Uuid
  pub connection_id : Uuid
  pub action : LifecycleAction
  pub correlation_id : Uuid
  pub idempotency_key : Option Text

-- `PlatformConnectionLifecycleRejectedError`, by its messages, and the error of a construction
-- that is not caught.
pub data LifecycleRejection : Type 0 where
  denied key_too_long key_conflict unavailable invalid_transition not_saved : LifecycleRejection
  invalid_connection : ConnectionError → LifecycleRejection

-- `_normalized_idempotency_key`
unfoldable pub normalized_idempotency_key : Option Text → Result LifecycleRejection (Option Text)
normalized_idempotency_key none = ok none
normalized_idempotency_key (some value) =
    let normalized = strip value in
    if is_empty normalized
    then ok none
    else if ltb 128 (length normalized)
    then err LifecycleRejection.key_too_long
    else ok (some normalized)

abbrev pub lifecycle_request : LifecycleCommand → AuthorizationRequest
lifecycle_request cmd = record {
  actor_id = cmd.actor_id;
  organization_id = cmd.organization_id;
  resource = AuthorizationResource.platform_connections;
  action = AuthorizationAction.manage;
}

-- The event written with a change; `new_id` is what the identifier generator returns.
abbrev pub lifecycle_event : Uuid → LifecycleCommand → AuditEvent
lifecycle_event new_id cmd = record {
  id = new_id;
  correlation_id = cmd.correlation_id;
  actor_id = some cmd.actor_id;
  organization_id = some cmd.organization_id;
  action = audit_action cmd.action;
  resource_type = "platform_connection";
  resource_id = some cmd.connection_id;
  result = "succeeded";
}

-- The stored result of the key, if there is a key and it was used before.
abbrev pub stored_result : LifecycleCommand → Option Text → Database → Option IdempotencyResult
stored_result cmd none db = none
stored_result cmd (some key) db = find_idempotent_lifecycle_result cmd.organization_id key db

-- The answer to a repeated key. The connection is built without its capabilities.
unfoldable pub replay :
    LifecycleCommand → IdempotencyResult → Database → Result LifecycleRejection PlatformConnection
replay cmd result db = elim (find_for_organization cmd.organization_id cmd.connection_id db) [
  | none ↦ err LifecycleRejection.key_conflict
  | some current ↦
      if not (result.connection_id == cmd.connection_id)
        || not (str_eq result.action (lifecycle_action_value cmd.action))
      then err LifecycleRejection.key_conflict
      else elim (platform_connection (record current {
        status = result.result_status;
        status_reason = result.result_reason;
        granted_capabilities = mathlib.Core.List.[];
      })) [ ok replayed ↦ ok replayed | err e ↦ err (LifecycleRejection.invalid_connection e) ]
]

-- Saving a transition, with the retry key if there is one.
unfoldable pub save :
    Uuid
    → LifecycleCommand
    → Option Text
    → PlatformConnection
    → Database
    → Result LifecycleRejection PlatformConnection × Database
save new_id cmd key updated db =
    let key_action = elim key as (λ x. Option String) [
      | none ↦ none
      | some k ↦ some (lifecycle_action_value cmd.action)
    ] in
    let (saved, db') = update_status updated (lifecycle_event new_id cmd) key key_action db in
    (if saved then ok updated else err LifecycleRejection.not_saved, db')

-- The part of `execute` from a connection that was found on.
unfoldable pub change_found :
    Uuid
    → LifecycleCommand
    → Option Text
    → PlatformConnection
    → Database
    → Result LifecycleRejection PlatformConnection × Database
change_found new_id cmd key current db =
    if is_status current.status (target_status cmd.action)
    then (ok current, db)
    else elim (transition_to current (target_status cmd.action) (some (action_reason cmd.action))) [
      | err e ↦ (err LifecycleRejection.invalid_transition, db)
      | ok updated ↦ save new_id cmd key updated db
    ]

-- The part of `execute` from the lookup of the connection on.
unfoldable pub change :
    Uuid
    → LifecycleCommand
    → Option Text
    → Database
    → Result LifecycleRejection PlatformConnection × Database
change new_id cmd key db = elim (find_for_organization cmd.organization_id cmd.connection_id db) [
  | none ↦ (err LifecycleRejection.unavailable, db)
  | some current ↦ change_found new_id cmd key current db
]

-- The part of `execute` from a normalized key on.
unfoldable pub with_key :
    Uuid
    → LifecycleCommand
    → Option Text
    → Database
    → Result LifecycleRejection PlatformConnection × Database
with_key new_id cmd key db = elim (stored_result cmd key db) [
  | some result ↦ (replay cmd result db, db)
  | none ↦ change new_id cmd key db
]

-- `ManagePlatformConnectionLifecycle.execute`
unfoldable pub execute :
    Uuid → LifecycleCommand → Database → Result LifecycleRejection PlatformConnection × Database
execute new_id cmd db =
    if not (authorize (lifecycle_request cmd) db).allowed
    then (err LifecycleRejection.denied, db)
    else elim (normalized_idempotency_key cmd.idempotency_key) [
      | err e ↦ (err e, db)
      | ok key ↦ with_key new_id cmd key db
    ]
