-- ===== src/Application/Lifecycle/Histories.antt =====
-- Any sequence of lifecycle commands: every connection moves along the diagram.
use muxivo_console.Shared.{
  ◌≡◌, refl, ◌≢◌, ◌⊎◌, inl, inr, arith, Option, none, some, List, [], ◌∷◌, Text, Result, ok, err,
  Bool-cases, ◌==◌, ==_iff, ◌∙◌, String, ap,
}
use muxivo_console.Domain.Activity.{Uuid}
use muxivo_console.Domain.Connections.{
  PlatformConnection, ConnectionStatus, transition_to, is_status,
}
use muxivo_console.Domain.Connections.Transitions.{
  ◌⟶*◌, here, then, moved, ⟶→may_become, transition_to-ok,
}
use muxivo_console.Persistence.Database.{Database}
use muxivo_console.Persistence.Connections.{find_for_organization, update_status}
use muxivo_console.Persistence.Connections.Writes.{
  HasUniqueIds, update_status_others, update_status-HasUniqueIds, find_for_organization_scoped,
}
use muxivo_console.Application.Authorizer.{authorize}
use muxivo_console.Application.Lifecycle.{
  LifecycleCommand, LifecycleRejection, execute, change, change_found, save, with_key, replay,
  stored_result, lifecycle_event, lifecycle_request, target_status, action_reason,
  normalized_idempotency_key, lifecycle_action_value,
}
use muxivo_console.Application.Lifecycle.Outcomes.{Ends, execute-Ends}

-- What holds of the database before, and after any write of the commanded connection, holds
-- after an execution.
module _ (new_id : Uuid) (cmd : LifecycleCommand) (db : Database) (P : Database → Type 0)
    (before : P db)
    (write : (u : PlatformConnection) (key : Option Text) (action : Option String)
      → u.organization_id ≡ cmd.organization_id
      → u.id ≡ cmd.connection_id
      → P (update_status u (lifecycle_event new_id cmd) key action db).1) where
  save_keeps :
      (key : Option Text) (u : PlatformConnection)
      → u.organization_id ≡ cmd.organization_id
      → u.id ≡ cmd.connection_id
      → P (save new_id cmd key u db).1
  unfolding save
  save_keeps none u o c = write u none none o c
  save_keeps (some k) u o c = write u (some k) (some (lifecycle_action_value cmd.action)) o c

  change_found_keeps :
      (key : Option Text) (old : PlatformConnection)
      → find_for_organization cmd.organization_id cmd.connection_id db ≡ some old
      → P (change_found new_id cmd key old db).1
  unfolding change_found
  change_found_keeps key old h =
      let (o, c) = find_for_organization_scoped cmd.organization_id cmd.connection_id db h in
      let next = transition_to old (target_status cmd.action) (some (action_reason cmd.action)) in
      elim (Bool-cases (is_status old.status (target_status cmd.action))) [
        | inl same ↦ rw same before
        | inr differs ↦ rw differs (
            elim next
                as (λ t.
                  next ≡ t
                  → P
                      (elim t as (λ x. Result LifecycleRejection PlatformConnection × Database) [
                        | err e ↦ (err LifecycleRejection.invalid_transition, db)
                        | ok u ↦ save new_id cmd key u db
                      ]).1) [
                        | err e ↦ λ moves. before
                        | ok u ↦ λ moves.
                            let (e, edge) =
                              transition_to-ok old (target_status cmd.action)
                                (some (action_reason cmd.action)) moves in
                            save_keeps key u (rw e o) (rw e c)
                      ]
              refl)
      ]

  change_keeps : (key : Option Text) → P (change new_id cmd key db).1
  unfolding change
  change_keeps key =
      let found = find_for_organization cmd.organization_id cmd.connection_id db in
      elim found
          as (λ f.
            found ≡ f
            → P
                (elim f as (λ x. Result LifecycleRejection PlatformConnection × Database) [
                  | none ↦ (err LifecycleRejection.unavailable, db)
                  | some old ↦ change_found new_id cmd key old db
                ]).1) [ none ↦ λ e. before | some old ↦ λ e. change_found_keeps key old e ]
        refl

  with_key_keeps : (key : Option Text) → P (with_key new_id cmd key db).1
  unfolding with_key
  with_key_keeps key =
      elim (stored_result cmd key db)
        as (λ s.
          P
            (elim s as (λ x. Result LifecycleRejection PlatformConnection × Database) [
              | some result ↦ (replay cmd result db, db)
              | none ↦ change new_id cmd key db
            ]).1) [ none ↦ change_keeps key | some result ↦ before ]

  execute_keeps : P (execute new_id cmd db).1
  unfolding execute
  execute_keeps = elim (Bool-cases (authorize (lifecycle_request cmd) db).allowed) [
    | inl permitted ↦
        rw permitted
          (elim (normalized_idempotency_key cmd.idempotency_key)
            as (λ n.
              P
                (elim n as (λ x. Result LifecycleRejection PlatformConnection × Database) [
                  | err e ↦ (err e, db)
                  | ok key ↦ with_key new_id cmd key db
                ]).1) [ err e ↦ before | ok key ↦ with_key_keeps key ])
    | inr denied ↦ rw denied before
  ]

pub execute-HasUniqueIds :
    (new_id : Uuid) (cmd : LifecycleCommand) (db : Database)
    → HasUniqueIds db.connections
    → HasUniqueIds (execute new_id cmd db).1.connections
execute-HasUniqueIds new_id cmd db unique =
    execute_keeps new_id cmd db (λ d. HasUniqueIds d.connections) unique
      (λ u key action o c.
        update_status-HasUniqueIds u (lifecycle_event new_id cmd) key action db unique)

-- An execution leaves every other connection as it was.
pub execute_others :
    (new_id : Uuid) (cmd : LifecycleCommand) (o k : Uuid) (db : Database)
    → (o ≢ cmd.organization_id) ⊎ (k ≢ cmd.connection_id)
    → find_for_organization o k (execute new_id cmd db).1 ≡ find_for_organization o k db
execute_others new_id cmd o k db other =
    execute_keeps new_id cmd db (λ d. find_for_organization o k d ≡ find_for_organization o k db)
      refl
      (λ u key action eo ec.
        update_status_others u (lifecycle_event new_id cmd) key action o k db (rw (eo, ec) other))

-- The connection is found again, moved along the diagram and otherwise as it was.
abbrev pub Follows : Uuid → Uuid → PlatformConnection → Database → Type 0
Follows o k c db =
    (c' : PlatformConnection) × (find_for_organization o k db ≡ some c')
    × (c.status ⟶* c'.status)
    × (c' ≡ moved c c'.status c'.status_reason)

commanded-Follows :
    (new_id : Uuid) (cmd : LifecycleCommand) (db : Database) (c : PlatformConnection)
    → find_for_organization cmd.organization_id cmd.connection_id db ≡ some c
    → Ends new_id cmd db (execute new_id cmd db)
    → Follows cmd.organization_id cmd.connection_id c (execute new_id cmd db).1
commanded-Follows new_id cmd db c h (inl (e, refused, same)) = (c, rw same h, here, refl)
commanded-Follows new_id cmd db c h (inr (inl (x, answered, same, repeats))) =
    (c, rw same h, here, refl)
commanded-Follows new_id cmd db c h (inr (inr (u, done, (old, was, step, e, now, event)))) =
    let same : c ≡ old = cc in (u, now, rw (same, e) (then (⟶→may_become step) here), rw (same, e))

execute-Follows :
    (new_id : Uuid) (cmd : LifecycleCommand) (o k : Uuid) (db : Database) (c : PlatformConnection)
    → HasUniqueIds db.connections
    → find_for_organization o k db ≡ some c
    → Follows o k c (execute new_id cmd db).1
execute-Follows new_id cmd o k db c unique h = elim (Bool-cases (o == cmd.organization_id)) [
  | inl eo ↦ elim (Bool-cases (k == cmd.connection_id)) [
    | inl ek ↦
        let same_o : o ≡ cmd.organization_id = (==_iff o cmd.organization_id).0 eo in
        let same_k : k ≡ cmd.connection_id = (==_iff k cmd.connection_id).0 ek in
        rw (same_o, same_k)
          (commanded-Follows new_id cmd db c (rw (← same_o, ← same_k) h)
            (execute-Ends new_id cmd db unique))
    | inr ne ↦ (c, execute_others new_id cmd o k db (inr (λ e. ground arith)) ∙ h, here, refl)
  ]
  | inr ne ↦ (c, execute_others new_id cmd o k db (inl (λ e. ground arith)) ∙ h, here, refl)
]

-- The commands one after another, each with the identifier that it draws.
unfoldable pub run : List (Uuid × LifecycleCommand) → Database → Database
run [] db = db
run ((new_id, cmd) ∷ cmds) db = run cmds (execute new_id cmd db).1

⟶*-trans : {s t u : ConnectionStatus} → s ⟶* t → t ⟶* u → s ⟶* u
⟶*-trans here r = r
⟶*-trans (then step rest) r = then step (⟶*-trans rest r)

-- After any sequence of lifecycle commands, of any actors and on any connections, a connection
-- that was found is still found; its status has moved along the diagram, and all but the status
-- and its reason is as it was.
pub run-Follows :
    (cmds : List (Uuid × LifecycleCommand)) (o k : Uuid) (db : Database) (c : PlatformConnection)
    → HasUniqueIds db.connections
    → find_for_organization o k db ≡ some c
    → Follows o k c (run cmds db)
unfolding run
run-Follows [] o k db c unique h = (c, h, here, refl)
run-Follows ((new_id, cmd) ∷ cmds) o k db c unique h =
    let (c1, h1, r1, e1) = execute-Follows new_id cmd o k db c unique h in
    let db1 = (execute new_id cmd db).1 in
    let (c2, h2, r2, e2) =
      run-Follows cmds o k db1 c1 (execute-HasUniqueIds new_id cmd db unique) h1 in
    (
      c2,
      h2,
      ⟶*-trans r1 r2,
      e2 ∙ ap (λ (x : PlatformConnection). moved x c2.status c2.status_reason) e1,
    )
