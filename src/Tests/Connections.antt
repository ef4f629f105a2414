-- ===== src/Tests/Connections.antt =====
-- Runs of the connection's lifecycle rules and of its repository.
use mathlib.Core.List.Perm
use mathlib.Core.List.{Perm}
use muxivo_console.Shared.{
  Bool, true, false, ◌≡◌, refl, ◌≢◌, ◌⊎◌, ◌↔◌, inl, inr, [], ◌∷◌, some, none, ok, err, codes, arith,
}
use muxivo_console.Domain.Connections.{
  PlatformConnection, ConnectionStatus, ConnectionStatusReason, platform_connection,
}
use muxivo_console.Domain.Connections.Transitions.{◌⟶*◌, moved, ⟶*_iff}
use muxivo_console.Persistence.Values.{to_status, to_reason, to_platform}
use muxivo_console.Persistence.Connections.{
  connection_from_row, update_status, find_for_organization, list_reconcilable,
}
use muxivo_console.Persistence.Connections.Writes.{
  HasUniqueIds, update_status_lem, update_status_atomic, update_status_others,
}
use muxivo_console.Tests.Fixtures.{base, event, guild_connection}
use muxivo_console.Shared.{is_blank, strip, is_space}

guild_valid : platform_connection guild_connection ≡ ok guild_connection
unfolding platform_connection is_blank strip is_space
guild_valid = refl

guild_found : find_for_organization 1 50 base ≡ some guild_connection
unfolding find_for_organization connection_from_row to_platform to_status to_reason
    platform_connection is_blank strip is_space
guild_found = refl

ids_unique : HasUniqueIds base.connections
ids_unique = (refl, (refl, tt))

both_listed : muxivo_console.Shared.length (list_reconcilable 10 base) ≡ 2
unfolding list_reconcilable connection_from_row to_platform to_status to_reason platform_connection
    is_blank strip is_space
both_listed = refl

abbrev revoked : PlatformConnection
revoked =
    moved guild_connection ConnectionStatus.reauth_required (some ConnectionStatusReason.revoked)

⟶*_iff_example : (ConnectionStatus.degraded ⟶* ConnectionStatus.disconnected) ↔ (
    (ConnectionStatus.degraded ≡ ConnectionStatus.disconnected)
    ⊎ (ConnectionStatus.degraded ≢ ConnectionStatus.disconnected)
      × (ConnectionStatus.disconnected ≢ ConnectionStatus.pending))
⟶*_iff_example = ⟶*_iff ConnectionStatus.degraded ConnectionStatus.disconnected

abbrev another_guild : PlatformConnection
another_guild = record guild_connection {
  id = 51;
  external_resource_id = codes "guild-9";
  granted_capabilities = codes "ban" ∷ codes "timeout" ∷ [];
}

update_status_lem_example :
    let (done, db') = update_status revoked event none none base in
    (done ≡ false) × (db' ≡ base)
    ⊎ (done ≡ true)
      × (find_for_organization 1 50 db' ≡ some revoked)
      × (db'.audit_events ≡ event ∷ base.audit_events)
update_status_lem_example =
    update_status_lem guild_connection ConnectionStatus.reauth_required
      (some ConnectionStatusReason.revoked) event none none base ids_unique guild_found

-- A connection that the table does not hold.
update_status_atomic_example :
    (update_status (record revoked { id = 52 }) event none none base).1 ≡ base
unfolding update_status
update_status_atomic_example =
    update_status_atomic (record revoked { id = 52 }) event none none base ids_unique refl

update_status_others_example :
    find_for_organization 2 60 (update_status revoked event none none base).1
    ≡ find_for_organization 2 60 base
update_status_others_example =
    update_status_others revoked event none none 2 60 base (inr (omega arith))
