-- ===== src/Application/Lifecycle/Retries.antt =====
-- A command sent again under its retry key is answered from the stored result.
use mathlib.Core.Path.{subst}
use text.Mathlib.TextPositions.{eq_refl}
use muxivo_console.Shared.{
  Bool, true, ◌≡◌, refl, ◌≢◌, ◌⊎◌, inl, inr, arith, none, some, [], Text, Result, ok, err,
  Bool-cases, ◌==◌, ==_self,
}
use muxivo_console.Domain.Activity.{Uuid}
use muxivo_console.Domain.Authorization.{AuthorizationRequest}
use muxivo_console.Domain.Connections.{
  PlatformConnection, transition_to, is_status, platform_connection,
}
use muxivo_console.Domain.Connections.Transitions.{transition_to-ok}
use muxivo_console.Persistence.Database.{Database}
use muxivo_console.Persistence.Members.{get_membership}
use muxivo_console.Persistence.Connections.{
  find_for_organization, update_status, find_idempotent_lifecycle_result,
}
use muxivo_console.Persistence.Connections.Writes.{HasUniqueIds, find_for_organization_scoped}
use muxivo_console.Persistence.Connections.RetryKeys.{
  update_status_stores, update_status_members, found_valid, result_of,
}
use muxivo_console.Application.Authorizer.{authorize}
use muxivo_console.Application.Lifecycle.{
  LifecycleCommand, LifecycleRejection, execute, change, change_found, save, with_key, replay,
  stored_result, lifecycle_event, lifecycle_request, target_status, action_reason,
  normalized_idempotency_key, lifecycle_action_value,
}
use muxivo_console.Application.Lifecycle.Outcomes.{Ends, execute-Ends}

module _ (new_id : Uuid) (cmd : LifecycleCommand) (db : Database) (key : Text) where
  saved : PlatformConnection → Bool × Database
  saved u =
      update_status u (lifecycle_event new_id cmd) (some key)
        (some (lifecycle_action_value cmd.action)) db

  -- The only way to a changed database is through `save`.
  abbrev Saves :
      PlatformConnection → Result LifecycleRejection PlatformConnection × Database → Type 0
  Saves u r =
      r.0 ≡ ok u
      → r.1 ≢ db
      → (old : PlatformConnection) × (find_for_organization cmd.organization_id cmd.connection_id db
          ≡ some old)
        × (transition_to old (target_status cmd.action) (some (action_reason cmd.action)) ≡ ok u)
        × ((saved u).0 ≡ true)
        × (r.1 ≡ (saved u).1)

  save-Saves :
      (old v u : PlatformConnection)
      → find_for_organization cmd.organization_id cmd.connection_id db ≡ some old
      → transition_to old (target_status cmd.action) (some (action_reason cmd.action)) ≡ ok v
      → Saves u (save new_id cmd (some key) v db)
  unfolding save saved
  save-Saves old v u h moves e changed = elim (Bool-cases (saved v).0) [
    | inl done ↦
        let same : v ≡ u = cc (rw done at e) in
        (old, h, rw (← same) moves, rw (← same) done, rw (← same) refl)
    | inr failed ↦ absurd (cc (rw failed at e))
  ]

  change_found-Saves :
      (old u : PlatformConnection)
      → find_for_organization cmd.organization_id cmd.connection_id db ≡ some old
      → Saves u (change_found new_id cmd (some key) old db)
  unfolding change_found
  change_found-Saves old u h =
      let next = transition_to old (target_status cmd.action) (some (action_reason cmd.action)) in
      elim (Bool-cases (is_status old.status (target_status cmd.action))) [
        | inl same ↦ rw same (λ e changed. absurd (changed refl))
        | inr differs ↦ rw differs (
            elim next
                as (λ t.
                  next ≡ t
                  → Saves u
                      (elim t as (λ x. Result LifecycleRejection PlatformConnection × Database) [
                        | err e ↦ (err LifecycleRejection.invalid_transition, db)
                        | ok v ↦ save new_id cmd (some key) v db
                      ])) [
                        | err x ↦ λ moves e changed. absurd (changed refl)
                        | ok v ↦ λ moves. save-Saves old v u h moves
                      ]
              refl)
      ]

  change-Saves : (u : PlatformConnection) → Saves u (change new_id cmd (some key) db)
  unfolding change
  change-Saves u =
      let found = find_for_organization cmd.organization_id cmd.connection_id db in
      elim found
          as (λ f.
            found ≡ f
            → Saves u (elim f as (λ x. Result LifecycleRejection PlatformConnection × Database) [
              | none ↦ (err LifecycleRejection.unavailable, db)
              | some old ↦ change_found new_id cmd (some key) old db
            ])) [
              | none ↦ λ e p changed. absurd (changed refl)
              | some old ↦ λ e. change_found-Saves old u e
            ]
        refl

  with_key-Saves :
      (u : PlatformConnection)
      → stored_result cmd (some key) db ≡ none
      → Saves u (with_key new_id cmd (some key) db)
  unfolding with_key
  with_key-Saves u unused = rw (unused, with_key) (change-Saves u)

  -- An execution under an unused key that changed the database.
  execute-Saves :
      (u : PlatformConnection)
      → normalized_idempotency_key cmd.idempotency_key ≡ ok (some key)
      → stored_result cmd (some key) db ≡ none
      → ((authorize (lifecycle_request cmd) db).allowed ≡ true) × Saves u (execute new_id cmd db)
        ⊎ ((execute new_id cmd db).1 ≡ db)
  unfolding execute
  execute-Saves u norm unused = elim (Bool-cases (authorize (lifecycle_request cmd) db).allowed) [
    | inl permitted ↦ inl (permitted, rw permitted (rw norm (with_key-Saves u unused)))
    | inr denied ↦ inr (rw denied)
  ]

-- The decision does not depend on the connections.
authorize_after :
    (q : AuthorizationRequest) (db db' : Database)
    → db'.memberships ≡ db.memberships
    → db'.scopes ≡ db.scopes
    → authorize q db' ≡ authorize q db
unfolding authorize get_membership
authorize_after q db db' ms ss = rw (ms, ss)

-- Without its capabilities a valid connection is valid.
bare_valid :
    (c : PlatformConnection)
    → platform_connection c ≡ ok c
    → platform_connection (record c { granted_capabilities = [] })
      ≡ ok (record c { granted_capabilities = [] })
unfolding platform_connection
bare_valid c h = ground arith

-- The answer from what a connection's own write stored.
replay_own :
    (cmd : LifecycleCommand) (u : PlatformConnection) (db : Database)
    → find_for_organization cmd.organization_id cmd.connection_id db ≡ some u
    → replay cmd (result_of u (lifecycle_action_value cmd.action)) db
      ≡ ok (record u { granted_capabilities = [] })
unfolding replay
replay_own cmd u db h =
    let (o, c) = find_for_organization_scoped cmd.organization_id cmd.connection_id db h in
    let valid = bare_valid u (found_valid cmd.organization_id cmd.connection_id db h) in
    let own : (u.id == cmd.connection_id) ≡ true = rw c (==_self cmd.connection_id) in
    rw (h, replay) (rw (own, eq_refl (lifecycle_action_value cmd.action)) (rw (valid, replay)))

-- The command again, where its key was stored and the connection is as it was left.
again :
    (retry_id : Uuid) (cmd : LifecycleCommand) (key : Text) (u : PlatformConnection) (db : Database)
    → (authorize (lifecycle_request cmd) db).allowed ≡ true
    → normalized_idempotency_key cmd.idempotency_key ≡ ok (some key)
    → stored_result cmd (some key) db ≡ some (result_of u (lifecycle_action_value cmd.action))
    → find_for_organization cmd.organization_id cmd.connection_id db ≡ some u
    → execute retry_id cmd db ≡ (ok (record u { granted_capabilities = [] }), db)
unfolding execute with_key
again retry_id cmd key u db permitted norm stored h =
    rw permitted (rw norm (rw (stored, with_key) (rw (replay_own cmd u db h))))

-- A changing execution leaves its answer in the database.
found_after :
    (new_id : Uuid) (cmd : LifecycleCommand) (db : Database) (u : PlatformConnection)
    → Ends new_id cmd db (execute new_id cmd db)
    → (execute new_id cmd db).0 ≡ ok u
    → (execute new_id cmd db).1 ≢ db
    → find_for_organization cmd.organization_id cmd.connection_id (execute new_id cmd db).1 ≡ some u
found_after new_id cmd db u (inl (e, refused, same)) answered changed = absurd (changed same)
found_after new_id cmd db u (inr (inl (c, done, same, repeats))) answered changed =
    absurd (changed same)
found_after new_id cmd db u (inr (inr (v, done, (old, was, step, e, now, event)))) answered
      changed =
    let same : v ≡ u = cc in rw (← same) now

-- And under its key.
stored_after :
    (new_id : Uuid) (cmd : LifecycleCommand) (db : Database) (key : Text)
    (old u : PlatformConnection)
    → find_for_organization cmd.organization_id cmd.connection_id db ≡ some old
    → transition_to old (target_status cmd.action) (some (action_reason cmd.action)) ≡ ok u
    → (saved new_id cmd db key u).0 ≡ true
    → stored_result cmd (some key) (saved new_id cmd db key u).1
      ≡ some (result_of u (lifecycle_action_value cmd.action))
unfolding saved
stored_after new_id cmd db key old u was moves done =
    let (o, c) = find_for_organization_scoped cmd.organization_id cmd.connection_id db was in
    let (e, edge) =
      transition_to-ok old (target_status cmd.action) (some (action_reason cmd.action)) moves in
    let same : u.organization_id ≡ cmd.organization_id = rw e o in
    subst
      (λ (k : Uuid).
        find_idempotent_lifecycle_result k key (saved new_id cmd db key u).1
        ≡ some (result_of u (lifecycle_action_value cmd.action)))
      same
      (update_status_stores u (lifecycle_event new_id cmd) key (lifecycle_action_value cmd.action)
        db done)

-- And the decision as it was.
permitted_after :
    (new_id : Uuid) (cmd : LifecycleCommand) (db : Database) (key : Text) (u : PlatformConnection)
    → (authorize (lifecycle_request cmd) db).allowed ≡ true
    → (authorize (lifecycle_request cmd) (saved new_id cmd db key u).1).allowed ≡ true
unfolding saved
permitted_after new_id cmd db key u permitted =
    let (ms, ss) =
      update_status_members u (lifecycle_event new_id cmd) (some key)
        (some (lifecycle_action_value cmd.action)) db in
    rw (authorize_after (lifecycle_request cmd) db (saved new_id cmd db key u).1 ms ss) permitted

-- A command under an unused retry key that changed the database, sent again to the database that
-- it left, changes nothing and is answered with the state of the first answer, though with no
-- capabilities.
pub retry_replays :
    (new_id retry_id : Uuid) (cmd : LifecycleCommand) (key : Text) (u : PlatformConnection)
    (db : Database)
    → HasUniqueIds db.connections
    → normalized_idempotency_key cmd.idempotency_key ≡ ok (some key)
    → stored_result cmd (some key) db ≡ none
    → (execute new_id cmd db).0 ≡ ok u
    → (execute new_id cmd db).1 ≢ db
    → execute retry_id cmd (execute new_id cmd db).1
      ≡ (ok (record u { granted_capabilities = [] }), (execute new_id cmd db).1)
retry_replays new_id retry_id cmd key u db unique norm unused answered changed =
    elim (execute-Saves new_id cmd db key u norm unused) [
      | inr same ↦ absurd (changed same)
      | inl (permitted, saves) ↦
          let (old, was, moves, done, after) = saves answered changed in
          let now =
            found_after new_id cmd db u (execute-Ends new_id cmd db unique) answered changed in
          rw after (
            again retry_id cmd key u (saved new_id cmd db key u).1
              (permitted_after new_id cmd db key u permitted) norm
              (stored_after new_id cmd db key old u was moves done) (rw after at now))
    ]
