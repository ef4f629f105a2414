-- ===== src/Application/Reconcile/Pass.antt =====
-- A whole reconciliation pass.
use muxivo_console.Shared.{
  ◌+◌, ◌≤◌, false, ◌≡◌, refl, arith, Option, some, List, [], ◌∷◌, inl, inr, Bool-cases, ◌⊎◌, length,
  All, ◌∙◌,
}
use muxivo_console.Domain.Activity.{Uuid, Platform}
use muxivo_console.Domain.Connections.{PlatformConnection}
use muxivo_console.Domain.Reconciliation.{ConnectionReconciliationDecision}
use muxivo_console.Persistence.Database.{Database}
use muxivo_console.Persistence.Connections.{find_for_organization, list_reconcilable}
use muxivo_console.Persistence.Connections.Writes.{HasUniqueIds}
use muxivo_console.Persistence.Connections.Reconcilable.{
  IsStored, is_among, AreDistinct, list_reconcilable_lem,
}
use muxivo_console.Application.Reconcile.{
  Probe, ReconcileCommand, ReconcileResult, PassState, reconcile_one, reconcile_each, reconcile,
  tally,
}
use muxivo_console.Application.Reconcile.Steps.{
  Decides, decided, reconcile_one_lem, reconcile_one_audits, reconcile_one_others,
  reconcile_one-HasUniqueIds,
}

abbrev nothing : ReconcileResult
nothing = record { inspected = 0; changed = 0; skipped = 0 }

module _ (probes : Platform → Option Probe) (cmd : ReconcileCommand) where
  -- The connection is as it was, or as the probe of its platform decided.
  abbrev pub IsReconciled : Database → PlatformConnection → Type 0
  IsReconciled db c =
      (find_for_organization c.organization_id c.id db ≡ some c)
      ⊎ ((d : ConnectionReconciliationDecision) × Decides probes cmd c d
          × (find_for_organization c.organization_id c.id db ≡ some (decided probes cmd c d)))

  All-IsStored-others :
      (c : PlatformConnection) (cs : List PlatformConnection) (s : PassState)
      → is_among c.id cs ≡ false
      → All (IsStored s.db) cs
      → All (IsStored (reconcile_one probes cmd c s).1.db) cs
  All-IsStored-others c [] s apart stored = tt
  All-IsStored-others c (x ∷ xs) s apart stored = (
    reconcile_one_others probes cmd c x.organization_id x.id s (λ e. ground arith) ∙ stored.0,
    All-IsStored-others c xs s (ground arith) stored.1,
  )

  reconcile_each_others :
      (o k : Uuid) (cs : List PlatformConnection) (r : ReconcileResult) (s : PassState)
      → is_among k cs ≡ false
      → find_for_organization o k (reconcile_each probes cmd cs r s).1.db
        ≡ find_for_organization o k s.db
  unfolding reconcile_each
  reconcile_each_others o k [] r s apart = refl
  reconcile_each_others o k (c ∷ cs) r s apart =
      let (changed, s') = reconcile_one probes cmd c s in
      reconcile_each_others o k cs (tally changed r) s' (ground arith)
      ∙ reconcile_one_others probes cmd c o k s (λ e. ground arith)

  one-IsReconciled :
      (c : PlatformConnection) (s : PassState)
      → HasUniqueIds s.db.connections
      → IsStored s.db c
      → IsReconciled (reconcile_one probes cmd c s).1.db c
  one-IsReconciled c s unique stored = elim (reconcile_one_lem probes cmd c s unique stored) [
    | inl (kept, same) ↦ inl (rw same stored)
    | inr (changed, (d, decides, now, event)) ↦ inr (d, decides, now)
  ]

  reconcile_each-IsReconciled :
      (cs : List PlatformConnection) (r : ReconcileResult) (s : PassState)
      → HasUniqueIds s.db.connections
      → AreDistinct cs
      → All (IsStored s.db) cs
      → All (IsReconciled (reconcile_each probes cmd cs r s).1.db) cs
  unfolding reconcile_each
  reconcile_each-IsReconciled [] r s unique apart stored = tt
  reconcile_each-IsReconciled (c ∷ cs) r s unique apart stored =
      let (changed, s') = reconcile_one probes cmd c s in
      (
        rw (reconcile_each_others c.organization_id c.id cs (tally changed r) s' apart.0)
            (one-IsReconciled c s unique stored.0),
        reconcile_each-IsReconciled cs (tally changed r) s'
            (reconcile_one-HasUniqueIds probes cmd c s unique) apart.1
            (All-IsStored-others c cs s apart.0 stored.1),
      )

  -- A pass over tables with unique identifiers: every connection that was listed is as it was or
  -- as the probe of its platform decided, along an edge of the diagram, and every other connection
  -- is as it was.
  pub reconcile_lem :
      (s : PassState)
      → HasUniqueIds s.db.connections
      → let cs = list_reconcilable cmd.limit s.db in
        let db' = (reconcile probes cmd s).1.db in
        All (IsReconciled db') cs
        × ((o k : Uuid)
            → is_among k cs ≡ false
            → find_for_organization o k db' ≡ find_for_organization o k s.db)
  unfolding reconcile
  reconcile_lem s unique =
      let cs = list_reconcilable cmd.limit s.db in
      let (stored, apart, live, bound) = list_reconcilable_lem cmd.limit s.db unique in
      (
        reconcile_each-IsReconciled cs nothing s unique apart stored,
        λ o k away. reconcile_each_others o k cs nothing s away,
      )

  reconcile_each_accounts :
      (cs : List PlatformConnection) (r : ReconcileResult) (s : PassState)
      → HasUniqueIds s.db.connections
      → let (r', s') = reconcile_each probes cmd cs r s in
        (r'.inspected ≡ length cs + r.inspected)
        × (r'.changed + r'.skipped ≡ length cs + (r.changed + r.skipped))
        × (length s'.db.audit_events + r.changed ≡ r'.changed + length s.db.audit_events)
  unfolding reconcile_each
  reconcile_each_accounts [] r s unique = (omega arith, omega arith, omega arith)
  reconcile_each_accounts (c ∷ cs) r s unique =
      let one = reconcile_one probes cmd c s in
      let rest =
        reconcile_each_accounts cs (tally one.0 r) one.1
          (reconcile_one-HasUniqueIds probes cmd c s unique) in
      let audits = reconcile_one_audits probes cmd c s unique in
      elim (Bool-cases one.0) [ inl e ↦ ground arith | inr e ↦ ground arith ]

  -- The counts that a pass returns, over tables with unique identifiers: it inspects what was
  -- listed, at most as many as the limit; each is either changed or skipped; and the audit trail
  -- has grown by one event for each that changed.
  pub reconcile_accounts :
      (s : PassState)
      → HasUniqueIds s.db.connections
      → let (r, s') = reconcile probes cmd s in
        (r.inspected ≡ length (list_reconcilable cmd.limit s.db))
        × (r.inspected ≤ cmd.limit)
        × (r.changed + r.skipped ≡ r.inspected)
        × (length s'.db.audit_events ≡ r.changed + length s.db.audit_events)
  unfolding reconcile
  reconcile_accounts s unique =
      let cs = list_reconcilable cmd.limit s.db in
      let (stored, apart, live, bound) = list_reconcilable_lem cmd.limit s.db unique in
      let (i, c, a) = reconcile_each_accounts cs nothing s unique in
      (omega (arith, i), omega (arith, i, bound), omega (arith, i, c), omega (arith, a))
