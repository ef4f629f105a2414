-- ===== src/Application/Lifecycle/Outcomes.antt =====
-- How an execution ends: with an error, with an answer that changes nothing, or with one change.
use muxivo_console.Shared.{
  true, false, ◌≡◌, refl, ◌⊎◌, inl, inr, arith, Option, none, some, ◌∷◌, Text, Result, ok, err,
  Bool-cases, String, if◌then◌else◌,
}
use muxivo_console.Domain.Activity.{Uuid}
use muxivo_console.Domain.Organizations.{OrganizationRole, OrganizationMembership}
use muxivo_console.Domain.Organizations.Access.{manage_needs_owner_or_admin}
use muxivo_console.Domain.Connections.{
  PlatformConnection, ConnectionStatus, transition_to, is_status,
}
use muxivo_console.Domain.Connections.Transitions.{◌⟶◌, moved, transition_to-ok, may_become→⟶}
use muxivo_console.Persistence.Database.{Database}
use muxivo_console.Persistence.Members.{get_membership}
use muxivo_console.Persistence.Connections.{IdempotencyResult, find_for_organization, update_status}
use muxivo_console.Persistence.Connections.Writes.{
  HasUniqueIds, update_status_lem, find_for_organization_scoped,
}
use muxivo_console.Application.Authorizer.{authorize, authorize-allowed}
use muxivo_console.Application.Lifecycle.{
  LifecycleCommand, LifecycleRejection, execute, change, change_found, save, with_key, replay,
  stored_result, lifecycle_event, lifecycle_request, target_status, action_reason,
  normalized_idempotency_key, lifecycle_action_value,
}

is_status→eq : (s t : ConnectionStatus) → is_status s t ≡ true → s ≡ t
is_status→eq s t h = ground arith

module _ (new_id : Uuid) (cmd : LifecycleCommand) (db : Database) where
  abbrev found : Database → Option PlatformConnection
  found = find_for_organization cmd.organization_id cmd.connection_id

  -- The connection has moved along one edge of the diagram to the action's status, with the
  -- action's reason, and the action's event has been added.
  abbrev pub Changes : PlatformConnection → Database → Type 0
  Changes u db' =
      (old : PlatformConnection) × (found db ≡ some old)
      × (old.status ⟶ target_status cmd.action)
      × (u ≡ moved old (target_status cmd.action) (some (action_reason cmd.action)))
      × (found db' ≡ some u)
      × (db'.audit_events ≡ lifecycle_event new_id cmd ∷ db.audit_events)

  -- An answer that is not a change: the connection has the status already, or a stored result.
  abbrev pub Repeats : PlatformConnection → Type 0
  Repeats c =
      (found db ≡ some c) × (c.status ≡ target_status cmd.action)
      ⊎ (result : IdempotencyResult) × (key : Text) × (normalized_idempotency_key
            cmd.idempotency_key
          ≡ ok (some key))
        × (stored_result cmd (some key) db ≡ some result)
        × (replay cmd result db ≡ ok c)

  abbrev pub Ends : Result LifecycleRejection PlatformConnection × Database → Type 0
  Ends (r, db') =
      ((e : LifecycleRejection) × (r ≡ err e) × (db' ≡ db))
      ⊎ ((c : PlatformConnection) × (r ≡ ok c) × (db' ≡ db) × Repeats c)
      ⊎ ((u : PlatformConnection) × (r ≡ ok u) × Changes u db')

  module _ (unique : HasUniqueIds db.connections) where
    -- The write of a connection that was found under the command's keys.
    written :
        (key : Option Text) (action : Option String) (old : PlatformConnection)
        → found db ≡ some old
        → let next = moved old (target_status cmd.action) (some (action_reason cmd.action)) in
          let (done, db') = update_status next (lifecycle_event new_id cmd) key action db in
          (done ≡ false) × (db' ≡ db)
          ⊎ (done ≡ true)
            × (found db' ≡ some next)
            × (db'.audit_events ≡ lifecycle_event new_id cmd ∷ db.audit_events)
    written key action old h =
        let (o, c) = find_for_organization_scoped cmd.organization_id cmd.connection_id db h in
        ground (
          arith,
          update_status_lem old (target_status cmd.action) (some (action_reason cmd.action))
              (lifecycle_event new_id cmd) key action db unique,
        )

    written-Ends :
        (key : Option Text) (action : Option String) (old u : PlatformConnection)
        → found db ≡ some old
        → transition_to old (target_status cmd.action) (some (action_reason cmd.action)) ≡ ok u
        → let (done, db') = update_status u (lifecycle_event new_id cmd) key action db in
          Ends ((if done then ok u else err LifecycleRejection.not_saved), db')
    written-Ends key action old u h moves =
        let (e, edge) =
          transition_to-ok old (target_status cmd.action) (some (action_reason cmd.action)) moves in
        let step = may_become→⟶ old.status (target_status cmd.action) edge in
        rw e (elim (written key action old h) [
          | inl (failed, same) ↦ inl (LifecycleRejection.not_saved, rw failed, same)
          | inr (done, now, event) ↦ inr (
              inr (
                moved old (target_status cmd.action) (some (action_reason cmd.action)),
                rw done,
                (old, h, step, refl, now, event),
              ))
        ])

    save-Ends :
        (key : Option Text) (old u : PlatformConnection)
        → found db ≡ some old
        → transition_to old (target_status cmd.action) (some (action_reason cmd.action)) ≡ ok u
        → Ends (save new_id cmd key u db)
    unfolding save
    save-Ends none old u h moves = written-Ends none none old u h moves
    save-Ends (some k) old u h moves =
        written-Ends (some k) (some (lifecycle_action_value cmd.action)) old u h moves

    change_found-Ends :
        (key : Option Text) (old : PlatformConnection)
        → found db ≡ some old
        → Ends (change_found new_id cmd key old db)
    unfolding change_found
    change_found-Ends key old h =
        elim (Bool-cases (is_status old.status (target_status cmd.action))) [
          | inl same ↦ rw same (
              inr (
                inl (
                  old,
                  refl,
                  refl,
                  inl (h, is_status→eq old.status (target_status cmd.action) same),
                )))
          | inr differs ↦ rw differs (
              elim (transition_to old (target_status cmd.action) (some (action_reason cmd.action)))
                  as (λ t.
                    transition_to old (target_status cmd.action) (some (action_reason cmd.action))
                      ≡ t
                    → Ends (elim t [
                      | err e ↦ (err LifecycleRejection.invalid_transition, db)
                      | ok updated ↦ save new_id cmd key updated db
                    ])) [
                      | err e ↦ λ moves. inl (LifecycleRejection.invalid_transition, refl, refl)
                      | ok u ↦ λ moves. save-Ends key old u h moves
                    ]
                refl)
        ]

    change-Ends : (key : Option Text) → Ends (change new_id cmd key db)
    unfolding change
    change-Ends key =
        elim (found db)
            as (λ f.
              found db ≡ f
              → Ends (elim f [
                | none ↦ (err LifecycleRejection.unavailable, db)
                | some current ↦ change_found new_id cmd key current db
              ])) [
                | none ↦ λ e. inl (LifecycleRejection.unavailable, refl, refl)
                | some old ↦ λ e. change_found-Ends key old e
              ]
          refl

  -- Only owners and admins of the organization get an answer.
  pub execute_authorized :
      {c : PlatformConnection}
      → (execute new_id cmd db).0 ≡ ok c
      → (m : OrganizationMembership) × (get_membership cmd.actor_id cmd.organization_id db ≡ some m)
        × ((m.role ≡ OrganizationRole.owner) ⊎ (m.role ≡ OrganizationRole.admin))
  unfolding execute
  execute_authorized h = elim (Bool-cases (authorize (lifecycle_request cmd) db).allowed) [
    | inl yes_allowed ↦
        let (m, e, a) = authorize-allowed (lifecycle_request cmd) db yes_allowed in
        (m, e, manage_needs_owner_or_admin m (lifecycle_request cmd) a (inl refl))
    | inr denied ↦ absurd (cc (rw (denied, execute) at h))
  ]

  replay-Ends :
      (key : Text) (result : IdempotencyResult)
      → normalized_idempotency_key cmd.idempotency_key ≡ ok (some key)
      → stored_result cmd (some key) db ≡ some result
      → Ends (replay cmd result db, db)
  replay-Ends key result norm stored =
      elim (replay cmd result db) as (λ r. replay cmd result db ≡ r → Ends (r, db)) [
        | err e ↦ λ h. inl (e, refl, refl)
        | ok c ↦ λ h. inr (inl (c, refl, refl, inr (result, key, norm, stored, h)))
      ]
        refl

  with_key-Ends :
      HasUniqueIds db.connections
      → (key : Option Text) → normalized_idempotency_key cmd.idempotency_key ≡ ok key
      → Ends (with_key new_id cmd key db)
  unfolding with_key
  with_key-Ends unique none norm = change-Ends unique none
  with_key-Ends unique (some key) norm =
      elim (stored_result cmd (some key) db)
          as (λ s.
            stored_result cmd (some key) db ≡ s
            → Ends (elim s [
              | some result ↦ (replay cmd result db, db)
              | none ↦ change new_id cmd (some key) db
            ])) [
              | none ↦ λ h. change-Ends unique (some key)
              | some result ↦ λ h. replay-Ends key result norm h
            ]
        refl

  -- An execution ends in one of three ways. It is refused, and no table changes. Or it answers
  -- with the connection as it stands, which has the action's status already, or with what is
  -- stored under the retry key, and no table changes. Or the connection moves along an edge of
  -- the diagram to the action's status, with the action's reason, is found in that state and
  -- returned, and exactly the action's event is added.
  pub execute-Ends : HasUniqueIds db.connections → Ends (execute new_id cmd db)
  unfolding execute
  execute-Ends unique = elim (Bool-cases (authorize (lifecycle_request cmd) db).allowed) [
    | inl permitted ↦ rw permitted (
        elim (normalized_idempotency_key cmd.idempotency_key)
            as (λ n.
              normalized_idempotency_key cmd.idempotency_key ≡ n
              → Ends (elim n [ err e ↦ (err e, db) | ok key ↦ with_key new_id cmd key db ])) [
                | err e ↦ λ h. inl (e, refl, refl)
                | ok key ↦ λ h. with_key-Ends unique key h
              ]
          refl)
    | inr denied ↦ rw denied (inl (LifecycleRejection.denied, refl, refl))
  ]
