-- ===== src/Tests/Lifecycle.antt =====
-- Runs of the lifecycle use case.
use muxivo_console.Shared.{
  ℕ, Bool, true, false, ◌≡◌, refl, ◌≢◌, ◌⊎◌, inl, inr, [], ◌∷◌, some, none, ok, err, codes, Text,
  Result, is_blank, strip, is_space, arith, Option, List,
}
use muxivo_console.Domain.Organizations.{
  OrganizationRole, OrganizationMembership, allows, role_supports, scope_allows,
}
use muxivo_console.Domain.Connections.{
  PlatformConnection, ConnectionStatus, ConnectionStatusReason, platform_connection, transition_to,
  may_become,
}
use muxivo_console.Persistence.Values.{
  to_status, to_reason, to_platform, to_role, to_resource, to_action,
}
use muxivo_console.Persistence.Database.{Database}
use muxivo_console.Persistence.Members.{get_membership, membership_from_record}
use muxivo_console.Persistence.Connections.{
  connection_from_row, find_for_organization, update_status, find_idempotent_lifecycle_result,
}
use muxivo_console.Application.Authorizer.{authorize}
use muxivo_console.Application.Lifecycle.{
  LifecycleCommand, LifecycleAction, execute, with_key, change, change_found, save, replay,
  stored_result, normalized_idempotency_key,
}
use muxivo_console.Application.Lifecycle.Outcomes.{Ends, execute-Ends, execute_authorized}
use muxivo_console.Application.Lifecycle.Histories.{Follows, run, run-Follows}
use muxivo_console.Application.Lifecycle.Retries.{retry_replays}
use muxivo_console.Tests.Fixtures.{base, guild_connection}

abbrev revoke_guild : LifecycleCommand
revoke_guild = record {
  actor_id = 11;
  organization_id = 1;
  connection_id = 50;
  action = LifecycleAction.revoke;
  correlation_id = 70;
  idempotency_key = some (codes " retry-1 ");
}

abbrev revoked : PlatformConnection
revoked = record guild_connection {
  status = ConnectionStatus.reauth_required;
  status_reason = some ConnectionStatusReason.revoked;
}

-- All that an execution calls.
ExecuteOpen : Type 0
unfolding execute with_key change change_found save replay authorize normalized_idempotency_key
    strip is_blank is_space allows role_supports scope_allows get_membership membership_from_record
    to_role to_resource to_action find_for_organization connection_from_row to_status to_reason
    to_platform platform_connection transition_to may_become update_status
    find_idempotent_lifecycle_result
ExecuteOpen = Unit

revoke_succeeds : (execute 80 revoke_guild base).0 ≡ ok revoked
unfolding ExecuteOpen
revoke_succeeds = refl

revoke_changes : (execute 80 revoke_guild base).1 ≢ base
unfolding ExecuteOpen
revoke_changes same = cc (muxivo_console.Shared.ap (λ (d : Database). d.audit_events) same)

execute-Ends_example : Ends 80 revoke_guild base (execute 80 revoke_guild base)
execute-Ends_example = execute-Ends 80 revoke_guild base (refl, (refl, tt))

execute_authorized_example :
    (m : OrganizationMembership) × (get_membership 11 1 base ≡ some m)
    × ((m.role ≡ OrganizationRole.owner) ⊎ (m.role ≡ OrganizationRole.admin))
execute_authorized_example = execute_authorized 80 revoke_guild base revoke_succeeds

guild_found : find_for_organization 1 50 base ≡ some guild_connection
unfolding ExecuteOpen
guild_found = refl

abbrev commands : List (ℕ × LifecycleCommand)
commands =
    (80, revoke_guild)
    ∷ (81, record revoke_guild { action = LifecycleAction.reauthorize; idempotency_key = none })
    ∷ []

run-Follows_example : Follows 1 50 guild_connection (run commands base)
run-Follows_example = run-Follows commands 1 50 base guild_connection (refl, (refl, tt)) guild_found

key_normalized :
    normalized_idempotency_key revoke_guild.idempotency_key ≡ ok (some (codes "retry-1"))
unfolding ExecuteOpen
key_normalized = refl

key_unused : stored_result revoke_guild (some (codes "retry-1")) base ≡ none
unfolding ExecuteOpen
key_unused = refl

retry_replays_example :
    execute 82 revoke_guild (execute 80 revoke_guild base).1
    ≡ (ok (record revoked { granted_capabilities = [] }), (execute 80 revoke_guild base).1)
retry_replays_example =
    retry_replays 80 82 revoke_guild (codes "retry-1") revoked base (refl, (refl, tt))
      key_normalized key_unused revoke_succeeds revoke_changes
