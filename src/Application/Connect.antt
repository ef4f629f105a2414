-- ===== src/Application/Connect.antt =====
-- application/connect_platform_connection_use_case.py: a new connection, after the checks of the
-- actor's rights and of the resource's ownership. Logging is left out.
pub mod Outcomes
use muxivo_console.Application.Identifiers.{Supply}
use muxivo_console.Shared.{
  ℕ, Bool, true, false, not, Option, none, some, List, Text, strip, Result, ok, err, if◌then◌else◌,
}
use muxivo_console.Domain.Activity.{Uuid, Platform}
use muxivo_console.Domain.Audit.{AuditEvent}
use muxivo_console.Domain.Authorization.{
  AuthorizationRequest, AuthorizationResource, AuthorizationAction,
}
use muxivo_console.Domain.Capabilities.{capability_keys_for_platform}
use muxivo_console.Domain.Connections.{
  PlatformConnection, ConnectionStatus, ConnectionStatusReason, ConnectionError,
  platform_connection,
}
use muxivo_console.Persistence.Database.{Database}
use muxivo_console.Persistence.Connections.{create}
use muxivo_console.Application.Authorizer.{authorize}

pub record ConnectCommand : Type 0 where
  pub actor_id : Uuid
  pub organization_id : Uuid
  pub platform : Platform
  pub external_resource_id : Text
  pub correlation_id : Uuid

-- `PlatformConnectionConnectRejectedError`, by its messages, the error of a verifier that is
-- unavailable, and the error of the construction.
pub data ConnectRejection : Type 0 where
  denied not_verified not_created verifier_unavailable : ConnectRejection
  invalid_connection : ConnectionError → ConnectRejection

-- The platform's answer on whether the actor owns the resource; `none` if it raises.
abbrev pub Verifier : Type 0
Verifier = ConnectCommand → Text → Option Bool

-- The order in which a JSON column gives back a dictionary.
abbrev pub Jsonb : Type 0
Jsonb = List (Text × Bool) → List (Text × Bool)

abbrev pub connect_request : ConnectCommand → AuthorizationRequest
connect_request cmd = record {
  actor_id = cmd.actor_id;
  organization_id = cmd.organization_id;
  resource = AuthorizationResource.platform_connections;
  action = AuthorizationAction.manage;
}

abbrev pub new_connection : Uuid → ConnectCommand → PlatformConnection
new_connection new_id cmd = record {
  id = new_id;
  organization_id = cmd.organization_id;
  platform = cmd.platform;
  external_resource_id = strip cmd.external_resource_id;
  status = ConnectionStatus.pending;
  status_reason = some ConnectionStatusReason.initial_pending;
  granted_capabilities = capability_keys_for_platform cmd.platform;
}

abbrev pub connect_event : Uuid → Uuid → ConnectCommand → AuditEvent
connect_event new_id connection_id cmd = record {
  id = new_id;
  correlation_id = cmd.correlation_id;
  actor_id = some cmd.actor_id;
  organization_id = some cmd.organization_id;
  action = "platform_connection.connect";
  resource_type = "platform_connection";
  resource_id = some connection_id;
  result = "succeeded";
}

-- The part of `execute` from the construction of the connection on.
unfoldable pub create_connection :
    Jsonb
    → Supply
    → ConnectCommand
    → Database
    → Result ConnectRejection PlatformConnection × Database
create_connection jsonb ids cmd db = elim (platform_connection (new_connection (ids 0) cmd)) [
  | err e ↦ (err (ConnectRejection.invalid_connection e), db)
  | ok c ↦
      let (created, db') = create jsonb c (connect_event (ids 1) c.id cmd) db in
      (if created then ok c else err ConnectRejection.not_created, db')
]

-- `ConnectPlatformConnection.execute`
unfoldable pub connect :
    Verifier
    → Jsonb
    → Supply
    → ConnectCommand
    → Database
    → Result ConnectRejection PlatformConnection × Database
connect verify jsonb ids cmd db =
    if not (authorize (connect_request cmd) db).allowed
    then (err ConnectRejection.denied, db)
    else elim (verify cmd (strip cmd.external_resource_id)) [
      | none ↦ (err ConnectRejection.verifier_unavailable, db)
      | some verified ↦
          if not verified
          then (err ConnectRejection.not_verified, db)
          else create_connection jsonb ids cmd db
    ]
