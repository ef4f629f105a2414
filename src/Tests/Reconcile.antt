-- ===== src/Tests/Reconcile.antt =====
-- Runs of a reconciliation pass.
use muxivo_console.Shared.{
  is_blank, strip, is_space, ◌==◌, if◌then◌else◌, false, ◌≡◌, refl, ◌+◌, ◌≤◌, [], ◌∷◌, some, none,
  codes, Option, All, length,
}
use muxivo_console.Domain.Activity.{Platform, Uuid}
use muxivo_console.Domain.Connections.{PlatformConnection, platform_connection}
use muxivo_console.Domain.Health.{PlatformHealth, HealthStatus, HealthSignal}
use muxivo_console.Persistence.Values.{to_status, to_reason, to_platform}
use muxivo_console.Persistence.Connections.{
  connection_from_row, find_for_organization, list_reconcilable,
}
use muxivo_console.Persistence.Connections.Reconcilable.{
  IsStored, IsLive, AreDistinct, is_among, list_reconcilable_lem,
}
use muxivo_console.Application.Reconcile.{
  Probe, ReconcileCommand, PassState, inspect_connection, reconcile,
}
use muxivo_console.Application.Reconcile.Pass.{IsReconciled, reconcile_lem, reconcile_accounts}
use muxivo_console.Tests.Fixtures.{base, guild_connection}

abbrev slow : HealthSignal
slow = record {
  key = codes "gateway";
  display_name = codes "Gateway";
  value = codes "slow";
  status = HealthStatus.degraded;
  latency_ms = none;
}

-- The platform reports a degraded signal for organization 1, and does not answer for others.
abbrev health : PlatformConnection → Option PlatformHealth
health c =
    if c.organization_id == 1
    then some (record { platform = Platform.discord; signals = slow ∷ [] })
    else none

abbrev probes : Platform → Option Probe
probes Platform.discord = some (inspect_connection health)
probes _ = none

abbrev pass : ReconcileCommand
pass = record { system_actor_id = 1; correlation_id = 71; limit = 100 }

abbrev start : PassState
start = record { supply = λ n. 100 + n; db = base }

-- All that a reading of connections calls.
ReadOpen : Type 0
unfolding connection_from_row to_status to_reason to_platform platform_connection
    find_for_organization list_reconcilable is_blank strip is_space
ReadOpen = Unit

listed : length (list_reconcilable 100 base) ≡ 2
unfolding ReadOpen
listed = refl

guild-IsStored : IsStored base guild_connection
unfolding ReadOpen
guild-IsStored = refl

list_reconcilable_lem_example :
    let cs = list_reconcilable 100 base in
    All (IsStored base) cs × AreDistinct cs × All IsLive cs × (length cs ≤ 100)
list_reconcilable_lem_example = list_reconcilable_lem 100 base (refl, (refl, tt))

reconcile_lem_example :
    let cs = list_reconcilable 100 base in
    let db' = (reconcile probes pass start).1.db in
    All (IsReconciled probes pass db') cs
    × ((o k : Uuid)
        → is_among k cs ≡ false
        → find_for_organization o k db' ≡ find_for_organization o k base)
reconcile_lem_example = reconcile_lem probes pass start (refl, (refl, tt))

reconcile_accounts_example :
    let (r, s') = reconcile probes pass start in
    (r.inspected ≡ length (list_reconcilable 100 base))
    × (r.inspected ≤ 100)
    × (r.changed + r.skipped ≡ r.inspected)
    × (length s'.db.audit_events ≡ r.changed + length base.audit_events)
reconcile_accounts_example = reconcile_accounts probes pass start (refl, (refl, tt))
