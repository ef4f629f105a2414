-- ===== src/Application/Reconcile.antt =====
-- application/reconcile_platform_connections_use_case.py, with
-- infrastructure/reconciliation_probe.py: the periodic pass that asks a probe for each connection
-- and applies what it decides.
pub mod Decisions
pub mod Steps
pub mod Pass
use muxivo_console.Application.Identifiers.{Supply}
use muxivo_console.Shared.{
  ℕ, suc, ◌+◌, Bool, true, false, Option, none, some, List, [], ◌∷◌, any, Result, ok, err,
  if◌then◌else◌,
}
use muxivo_console.Domain.Activity.{Uuid, Platform}
use muxivo_console.Domain.Audit.{AuditEvent}
use muxivo_console.Domain.Connections.{
  PlatformConnection, ConnectionStatus, ConnectionStatusReason, is_status, transition_to,
}
use muxivo_console.Domain.Reconciliation.{
  ConnectionReconciliationDecision, ConnectionReconciliationReason,
}
use muxivo_console.Domain.Health.{PlatformHealth, is_degraded}
use muxivo_console.Persistence.Database.{Database}
use muxivo_console.Persistence.Connections.{list_reconcilable, update_status}

-- A probe's `inspect_connection`; `none` is a PlatformControlUnavailableError.
abbrev pub Probe : Type 0
Probe = PlatformConnection → Option ConnectionReconciliationDecision

abbrev pub unreachable : ConnectionReconciliationDecision
unreachable = record {
  target_status = ConnectionStatus.degraded;
  reason = ConnectionReconciliationReason.platform_unreachable;
}

-- `PlatformHealthReconciliationProbe.inspect_connection`; `health` is the platform's answer for the
-- connection's organization, `none` where its Control API is unavailable.
unfoldable pub inspect_connection : (PlatformConnection → Option PlatformHealth) → Probe
inspect_connection health c = elim (health c) [
  | none ↦ some unreachable
  | some h ↦
      if any (λ signal. is_degraded signal.status) h.signals
      then some (record {
        target_status = ConnectionStatus.degraded;
        reason = ConnectionReconciliationReason.preflight_failed;
      })
      else some (record {
        target_status = ConnectionStatus.active;
        reason = ConnectionReconciliationReason.healthy;
      })
]

-- `ConnectionStatusReason(decision.reason.value)`: each reason's string is one of a status reason.
abbrev pub status_reason_of : ConnectionReconciliationReason → ConnectionStatusReason
status_reason_of ConnectionReconciliationReason.healthy = ConnectionStatusReason.healthy
status_reason_of ConnectionReconciliationReason.preflight_failed =
    ConnectionStatusReason.preflight_failed
status_reason_of ConnectionReconciliationReason.token_expired = ConnectionStatusReason.token_expired
status_reason_of ConnectionReconciliationReason.scopes_missing =
    ConnectionStatusReason.scopes_missing
status_reason_of ConnectionReconciliationReason.platform_unreachable =
    ConnectionStatusReason.platform_unreachable
status_reason_of ConnectionReconciliationReason.resource_removed =
    ConnectionStatusReason.resource_removed

pub record ReconcileCommand : Type 0 where
  pub system_actor_id : Uuid
  pub correlation_id : Uuid
  pub limit : ℕ

abbrev pub reconcile_event : Uuid → ReconcileCommand → PlatformConnection → AuditEvent
reconcile_event new_id cmd c = record {
  id = new_id;
  correlation_id = cmd.correlation_id;
  actor_id = some cmd.system_actor_id;
  organization_id = some c.organization_id;
  action = "platform_connection.reconciled";
  resource_type = "platform_connection";
  resource_id = some c.id;
  result = "succeeded";
}

-- The identifiers that are left, and the tables.
pub record PassState : Type 0 where
  pub supply : Supply
  pub db : Database

-- The write of `_apply_decision`, which draws one identifier.
unfoldable pub save_decision :
    ReconcileCommand → PlatformConnection → PlatformConnection → PassState → Bool × PassState
save_decision cmd c updated s =
    let (saved, db') = update_status updated (reconcile_event (s.supply 0) cmd c) none none s.db in
    (saved, record { supply = λ n. s.supply (suc n); db = db' })

-- `_apply_decision`
unfoldable pub apply_decision :
    ReconcileCommand
    → PlatformConnection
    → ConnectionReconciliationDecision
    → PassState
    → Bool × PassState
apply_decision cmd c decision s =
    if is_status c.status ConnectionStatus.disconnected
    then (false, s)
    else if is_status c.status decision.target_status
    then (false, s)
    else elim (transition_to c decision.target_status (some (status_reason_of decision.reason))) [
      | err e ↦ (false, s)
      | ok updated ↦ save_decision cmd c updated s
    ]

pub record ReconcileResult : Type 0 where
  pub inspected : ℕ
  pub changed : ℕ
  pub skipped : ℕ

-- The probe's decision, where an unavailable platform counts as unreachable.
abbrev pub decision_of : Probe → PlatformConnection → ConnectionReconciliationDecision
decision_of probe c = elim (probe c) [ none ↦ unreachable | some d ↦ d ]

-- The body of the loop: whether the connection was changed.
unfoldable pub reconcile_one :
    (Platform → Option Probe) → ReconcileCommand → PlatformConnection → PassState → Bool × PassState
reconcile_one probes cmd c s = elim (probes c.platform) [
  | none ↦ (false, s)
  | some probe ↦ apply_decision cmd c (decision_of probe c) s
]

abbrev pub tally : Bool → ReconcileResult → ReconcileResult
tally true r = record r { inspected = r.inspected + 1; changed = r.changed + 1 }
tally false r = record r { inspected = r.inspected + 1; skipped = r.skipped + 1 }

-- The loop over the connections that were read.
unfoldable pub reconcile_each :
    (Platform → Option Probe)
    → ReconcileCommand
    → List PlatformConnection
    → ReconcileResult
    → PassState
    → ReconcileResult × PassState
reconcile_each probes cmd [] r s = (r, s)
reconcile_each probes cmd (c ∷ cs) r s =
    let (changed, s') = reconcile_one probes cmd c s in
    reconcile_each probes cmd cs (tally changed r) s'

-- `ReconcilePlatformConnections.execute`
unfoldable pub reconcile :
    (Platform → Option Probe) → ReconcileCommand → PassState → ReconcileResult × PassState
reconcile probes cmd s =
    reconcile_each probes cmd (list_reconcilable cmd.limit s.db)
      (record { inspected = 0; changed = 0; skipped = 0 }) s
