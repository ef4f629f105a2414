-- ===== src/Application/Reconcile/Decisions.antt =====
-- What the health probe and the fallback decide.
use muxivo_console.Shared.{
  false, ◌≡◌, refl, Option, none, some, ok, any, inl, inr, Bool-cases, Option-cases, ◌⊎◌,
}
use muxivo_console.Domain.Connections.{PlatformConnection, ConnectionStatus}
use muxivo_console.Domain.Health.{PlatformHealth, is_degraded}
use muxivo_console.Domain.Reconciliation.{
  ConnectionReconciliationDecision, ConnectionReconciliationReason, reconciliation_decision,
}
use muxivo_console.Application.Reconcile.{inspect_connection, unreachable, decision_of}

abbrev pub AllOperational : PlatformHealth → Type 0
AllOperational h = any (λ signal. is_degraded signal.status) h.signals ≡ false

abbrev degraded_by_signals : ConnectionReconciliationDecision
degraded_by_signals = record {
  target_status = ConnectionStatus.degraded;
  reason = ConnectionReconciliationReason.preflight_failed;
}

abbrev operational : ConnectionReconciliationDecision
operational = record {
  target_status = ConnectionStatus.active;
  reason = ConnectionReconciliationReason.healthy;
}

module _ (health : PlatformConnection → Option PlatformHealth) (c : PlatformConnection) where
  abbrev decided : ConnectionReconciliationDecision
  decided = decision_of (inspect_connection health) c

  decided-unreachable : health c ≡ none → decided ≡ unreachable
  unfolding inspect_connection
  decided-unreachable e = rw (e, inspect_connection, decision_of)

  decided_by_signals :
      (h : PlatformHealth)
      → health c ≡ some h
      → (AllOperational h × (decided ≡ operational))
        ⊎ (¬ AllOperational h) × (decided ≡ degraded_by_signals)
  unfolding inspect_connection
  decided_by_signals h e = elim (Bool-cases (any (λ signal. is_degraded signal.status) h.signals)) [
    | inl bad ↦ inr (λ good. cc, rw (e, inspect_connection, decision_of) (rw bad))
    | inr good ↦ inl (good, rw (e, inspect_connection, decision_of) (rw good))
  ]

  -- The health probe decides `active` exactly when the platform answers and none of its signals
  -- is degraded, and `degraded` otherwise; its decision passes the decision's own checks.
  pub inspect_connection_lem :
      (reconciliation_decision decided ≡ ok decided)
      × ((decided.target_status ≡ ConnectionStatus.active)
            × ((h : PlatformHealth) × (health c ≡ some h) × AllOperational h)
          ⊎ (decided.target_status ≡ ConnectionStatus.degraded)
            × ((h : PlatformHealth) → health c ≡ some h → ¬ AllOperational h))
  unfolding reconciliation_decision
  inspect_connection_lem = elim (Option-cases (health c)) [
    | inl e ↦ rw (decided-unreachable e) (refl, inr (refl, λ h answered good. cc))
    | inr (h, e) ↦ elim (decided_by_signals h e) [
      | inl (good, d) ↦ rw d (refl, inl (refl, (h, e, good)))
      | inr (bad, d) ↦
          rw d
            (refl, inr (refl, λ h' answered good. let same : h' ≡ h = cc in bad (rw (← same) good)))
    ]
  ]
