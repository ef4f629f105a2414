-- ===== src/Application/Reconcile/Steps.antt =====
-- The body of the reconciliation loop, on one connection.
use muxivo_console.Shared.{
  ◌+◌, Bool, true, false, ◌≡◌, ◌≢◌, refl, arith, Option, none, some, ◌∷◌, ok, err, inl, inr,
  Bool-cases, ◌⊎◌, length, if◌then◌else◌,
}
use muxivo_console.Domain.Activity.{Uuid, Platform}
use muxivo_console.Domain.Connections.{
  PlatformConnection, ConnectionStatus, is_status, transition_to,
}
use muxivo_console.Domain.Connections.Transitions.{◌⟶◌, moved, transition_to-ok, may_become→⟶}
use muxivo_console.Domain.Reconciliation.{ConnectionReconciliationDecision}
use muxivo_console.Persistence.Database.{Database}
use muxivo_console.Persistence.Connections.{find_for_organization, update_status}
use muxivo_console.Persistence.Connections.Writes.{
  HasUniqueIds, update_status_lem, update_status_atomic, update_status_others,
  update_status-HasUniqueIds,
}
use muxivo_console.Persistence.Connections.Reconcilable.{IsStored}
use muxivo_console.Application.Reconcile.{
  Probe, ReconcileCommand, PassState, reconcile_event, save_decision, apply_decision, decision_of,
  reconcile_one, status_reason_of,
}

module _ (probes : Platform → Option Probe) (cmd : ReconcileCommand) (c : PlatformConnection) where
  -- The connection as the decision wants it.
  abbrev pub decided : ConnectionReconciliationDecision → PlatformConnection
  decided d = moved c d.target_status (some (status_reason_of d.reason))

  -- A probe for the connection's platform decided so, and the diagram has that edge.
  abbrev pub Decides : ConnectionReconciliationDecision → Type 0
  Decides d =
      (probe : Probe) × (probes c.platform ≡ some probe)
      × (d ≡ decision_of probe c)
      × (c.status ⟶ d.target_status)

  apply_decision-cases :
      (d : ConnectionReconciliationDecision) (s : PassState)
      → (apply_decision cmd c d s ≡ (false, s))
        ⊎ (c.status ⟶ d.target_status)
          × (apply_decision cmd c d s ≡ save_decision cmd c (decided d) s)
  unfolding apply_decision
  apply_decision-cases d s = elim (Bool-cases (is_status c.status ConnectionStatus.disconnected)) [
    | inl e ↦ inl (rw e refl)
    | inr e ↦ elim (Bool-cases (is_status c.status d.target_status)) [
      | inl e' ↦ inl (rw (e, e') refl)
      | inr e' ↦
          rw (e, e')
            (elim (transition_to c d.target_status (some (status_reason_of d.reason)))
                as (λ t.
                  (transition_to c d.target_status (some (status_reason_of d.reason)) ≡ t)
                  → ((elim t as (λ x. Bool × PassState) [
                    | err e ↦ (false, s)
                    | ok updated ↦ save_decision cmd c updated s
                  ])
                      ≡ (false, s))
                    ⊎ (c.status ⟶ d.target_status)
                      × ((elim t as (λ x. Bool × PassState) [
                        | err e ↦ (false, s)
                        | ok updated ↦ save_decision cmd c updated s
                      ])
                          ≡ save_decision cmd c (decided d) s)) [
                            | err x ↦ λ moves. inl refl
                            | ok u ↦ λ moves.
                                let (same, edge) =
                                  transition_to-ok c d.target_status
                                    (some (status_reason_of d.reason)) moves in
                                inr (may_become→⟶ c.status d.target_status edge, rw same refl)
                          ]
              refl)
    ]
  ]

  -- The body leaves the state as it is, or it saves what the probe decided.
  pub reconcile_one-cases :
      (s : PassState)
      → (reconcile_one probes cmd c s ≡ (false, s))
        ⊎ ((d : ConnectionReconciliationDecision) × Decides d
            × (reconcile_one probes cmd c s ≡ save_decision cmd c (decided d) s))
  unfolding reconcile_one
  reconcile_one-cases s =
      elim (probes c.platform)
          as (λ found.
            (probes c.platform ≡ found)
            → ((elim found as (λ x. Bool × PassState) [
              | none ↦ (false, s)
              | some probe ↦ apply_decision cmd c (decision_of probe c) s
            ])
                ≡ (false, s))
              ⊎ ((d : ConnectionReconciliationDecision) × Decides d
                  × ((elim found as (λ x. Bool × PassState) [
                    | none ↦ (false, s)
                    | some probe ↦ apply_decision cmd c (decision_of probe c) s
                  ])
                      ≡ save_decision cmd c (decided d) s))) [
                        | none ↦ λ e. inl refl
                        | some probe ↦ λ e. elim (apply_decision-cases (decision_of probe c) s) [
                          | inl same ↦ inl same
                          | inr (edge, saves) ↦
                              inr (decision_of probe c, (probe, e, refl, edge), saves)
                        ]
                      ]
        refl

  -- The body of the loop on a stored connection: the tables are unchanged, or the connection is
  -- found with the status and the reason that the probe of its platform decided, along an edge of
  -- the diagram, and one audit event of the system actor has been added.
  pub reconcile_one_lem :
      (s : PassState)
      → HasUniqueIds s.db.connections
      → IsStored s.db c
      → let (changed, s') = reconcile_one probes cmd c s in
        (changed ≡ false) × (s'.db ≡ s.db)
        ⊎ (changed ≡ true)
          × ((d : ConnectionReconciliationDecision) × Decides d
              × (find_for_organization c.organization_id c.id s'.db ≡ some (decided d))
              × (s'.db.audit_events ≡ reconcile_event (s.supply 0) cmd c ∷ s.db.audit_events))
  unfolding save_decision
  reconcile_one_lem s unique stored = elim (reconcile_one-cases s) [
    | inl e ↦ rw e (inl (refl, refl))
    | inr (d, decides, e) ↦
        rw e
          (elim (update_status_lem c d.target_status (some (status_reason_of d.reason))
            (reconcile_event (s.supply 0) cmd c) none none s.db unique stored) [
              | inl (failed, same) ↦ inl (failed, same)
              | inr (done, now, event) ↦ inr (done, (d, decides, now, event))
            ])
  ]

  -- What holds of the tables before, and after any status write of the connection, holds after it.
  reconcile_one_keeps :
      (P : Database → Type 0) (s : PassState)
      → P s.db
      → ((d : ConnectionReconciliationDecision)
          → P (update_status (decided d) (reconcile_event (s.supply 0) cmd c) none none s.db).1)
      → P (reconcile_one probes cmd c s).1.db
  unfolding save_decision
  reconcile_one_keeps P s before write = elim (reconcile_one-cases s) [
    | inl e ↦ rw e before
    | inr (d, decides, e) ↦ rw e (write d)
  ]

  pub reconcile_one-HasUniqueIds :
      (s : PassState)
      → HasUniqueIds s.db.connections
      → HasUniqueIds (reconcile_one probes cmd c s).1.db.connections
  reconcile_one-HasUniqueIds s unique =
      reconcile_one_keeps (λ db. HasUniqueIds db.connections) s unique
        (λ d.
          update_status-HasUniqueIds (decided d) (reconcile_event (s.supply 0) cmd c) none none s.db
            unique)

  pub reconcile_one_others :
      (o k : Uuid) (s : PassState)
      → k ≢ c.id
      → find_for_organization o k (reconcile_one probes cmd c s).1.db
        ≡ find_for_organization o k s.db
  reconcile_one_others o k s other =
      reconcile_one_keeps (λ db. find_for_organization o k db ≡ find_for_organization o k s.db) s
        refl
        (λ d.
          update_status_others (decided d) (reconcile_event (s.supply 0) cmd c) none none o k s.db
            (inr other))

  -- One audit event for a change, and none without one.
  pub reconcile_one_audits :
      (s : PassState)
      → HasUniqueIds s.db.connections
      → let (changed, s') = reconcile_one probes cmd c s in
        length s'.db.audit_events ≡ (if changed then 1 else 0) + length s.db.audit_events
  unfolding save_decision update_status
  reconcile_one_audits s unique = elim (reconcile_one-cases s) [
    | inl e ↦ rw e (omega arith)
    | inr (d, decides, e) ↦ rw e (
        ground (
          arith,
          update_status_atomic (decided d) (reconcile_event (s.supply 0) cmd c) none none s.db
              unique,
        ))
  ]
