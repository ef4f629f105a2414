-- ===== src/Domain/Connections/Transitions.antt =====
-- The transition diagram of connections, and what `transition_to` keeps.
use muxivo_console.Shared.{
  true, ◌≡◌, refl, ◌≢◌, ◌⊎◌, ◌↔◌, inl, inr, arith, Option, ok, err, ◌∙◌, Bool-cases,
}
use muxivo_console.Domain.Connections.{
  ConnectionStatus, ConnectionStatusReason, PlatformConnection, ConnectionError, may_become,
  transition_to, platform_connection,
}

-- The rules by which a connection may change: to disconnect from any live state, to lose its
-- authorization from any other live state, to recover, and to degrade.
infix 40 ◌⟶◌ ◌⟶*◌
pub data ◌⟶◌ : ConnectionStatus → ConnectionStatus → Type 0 where
  recover :
      {s : ConnectionStatus}
      → s ≢ ConnectionStatus.active
      → s ≢ ConnectionStatus.disconnected
      → s ⟶ ConnectionStatus.active
  degrade_new : ConnectionStatus.pending ⟶ ConnectionStatus.degraded
  degrade : ConnectionStatus.active ⟶ ConnectionStatus.degraded
  lose :
      {s : ConnectionStatus}
      → s ≢ ConnectionStatus.reauth_required
      → s ≢ ConnectionStatus.disconnected
      → s ⟶ ConnectionStatus.reauth_required
  disconnect :
      {s : ConnectionStatus} → s ≢ ConnectionStatus.disconnected → s ⟶ ConnectionStatus.disconnected

-- Any number of transitions that the table allows.
pub data ◌⟶*◌ : ConnectionStatus → ConnectionStatus → Type 0 where
  here : {s : ConnectionStatus} → s ⟶* s
  then : {s t u : ConnectionStatus} → may_become s t ≡ true → t ⟶* u → s ⟶* u

pub may_become→⟶ : (s t : ConnectionStatus) → may_become s t ≡ true → s ⟶ t
unfolding may_become
may_become→⟶ s t h = grind (arith, recover, degrade_new, degrade, lose, disconnect)

pub ⟶→may_become : {s t : ConnectionStatus} → s ⟶ t → may_become s t ≡ true
unfolding may_become
⟶→may_become (recover {s} a d) = ground arith
⟶→may_become degrade_new = refl
⟶→may_become degrade = refl
⟶→may_become (lose {s} a d) = ground arith
⟶→may_become (disconnect {s} d) = ground arith

-- The connection with the new status and reason, all else kept.
abbrev pub moved :
    PlatformConnection → ConnectionStatus → Option ConnectionStatusReason → PlatformConnection
moved c t r = record c { status = t; status_reason = r }

-- A connection that passes its own checks moves to a target exactly when the diagram has that
-- edge; the result is then the same connection with the new status and reason, and otherwise an
-- error that names both states.
pub transition_to_lem :
    (c : PlatformConnection) (t : ConnectionStatus) (r : Option ConnectionStatusReason)
    → platform_connection c ≡ ok c
    → (c.status ⟶ t) × (transition_to c t r ≡ ok (moved c t r))
      ⊎ ¬ (c.status ⟶ t)
        × (transition_to c t r ≡ err (ConnectionError.cannot_transition c.status t))
unfolding transition_to platform_connection
transition_to_lem c t r h = elim (Bool-cases (may_become c.status t)) [
  | inl e ↦ inl (may_become→⟶ c.status t e, ground arith)
  | inr e ↦ inr ((λ step. cc (⟶→may_become step)), ground arith)
]

step_ends :
    {s t : ConnectionStatus}
    → s ⟶ t
    → (s ≢ ConnectionStatus.disconnected) × (t ≢ ConnectionStatus.pending)
step_ends (recover a d) = (d, λ e. cc)
step_ends degrade_new = (λ e. cc, λ e. cc)
step_ends degrade = (λ e. cc, λ e. cc)
step_ends (lose r d) = (d, λ e. cc)
step_ends (disconnect d) = (d, λ e. cc)

reach_ends :
    {s t : ConnectionStatus}
    → s ⟶* t
    → (s ≡ t) ⊎ (s ≢ ConnectionStatus.disconnected) × (t ≢ ConnectionStatus.pending)
reach_ends here = inl refl
reach_ends (then {s} {t} step rest) =
    let ends = step_ends (may_become→⟶ s t step) in
    elim (reach_ends rest) [
      | inl e ↦ inr (ends.0, λ p. ends.1 (e ∙ p))
      | inr later ↦ inr (ends.0, later.1)
    ]

to_active :
    (s : ConnectionStatus) → s ≢ ConnectionStatus.disconnected → s ⟶* ConnectionStatus.active
to_active ConnectionStatus.active live = here
to_active ConnectionStatus.disconnected live = absurd (live refl)
to_active _ live = then (⟶→may_become (recover (λ e. cc) live)) here

-- One step from `active`, then what follows from `active`.
via_active :
    {s t : ConnectionStatus} → s ⟶* ConnectionStatus.active → ConnectionStatus.active ⟶ t → s ⟶* t
via_active here last = then (⟶→may_become last) here
via_active (then step rest) last = then step (via_active rest last)

from_live :
    (s t : ConnectionStatus)
    → s ≢ ConnectionStatus.disconnected
    → t ≢ ConnectionStatus.pending
    → s ⟶* t
from_live s ConnectionStatus.pending live t_ne = absurd (t_ne refl)
from_live s ConnectionStatus.active live t_ne = to_active s live
from_live s ConnectionStatus.degraded live t_ne = via_active (to_active s live) degrade
from_live s ConnectionStatus.reauth_required live t_ne =
    via_active (to_active s live) (lose (λ e. cc) (λ e. cc))
from_live s ConnectionStatus.disconnected live t_ne =
    via_active (to_active s live) (disconnect (λ e. cc))

-- A status can become another one, in any number of steps, exactly when they are the same or the
-- first is not `disconnected` and the second is not `pending`: `disconnected` is final, nothing
-- returns to `pending`, and all else stays reachable.
pub ⟶*_iff :
    (s t : ConnectionStatus)
    → (s ⟶* t) ↔ ((s ≡ t) ⊎ (s ≢ ConnectionStatus.disconnected) × (t ≢ ConnectionStatus.pending))
⟶*_iff s t =
    (reach_ends, λ h. elim h [ inl e ↦ rw (← e) here | inr ends ↦ from_live s t ends.0 ends.1 ])

-- A successful transition followed an edge and changed the status and its reason alone.
pub transition_to-ok :
    (c : PlatformConnection) (t : ConnectionStatus) (r : Option ConnectionStatusReason)
    {u : PlatformConnection}
    → transition_to c t r ≡ ok u
    → (u ≡ moved c t r) × (may_become c.status t ≡ true)
unfolding transition_to platform_connection
transition_to-ok c t r h = ground arith
