-- ===== src/Application/Passwords/Outcomes.antt =====
-- What a password recovery that succeeds has done.
use mathlib.Core.Path.{subst}
use muxivo_console.Shared.{
  ℕ, ◌≤◌, true, ◌≡◌, refl, arith, Option, none, some, List, [], ◌∷◌, Text, find, count, ◌==◌,
  Result, ok, err, Bool-cases, Option-cases, inl, inr, ap, sym, ◌∙◌,
}
use muxivo_console.Domain.Activity.{Uuid}
use muxivo_console.Domain.Identity.{password_credential}
use muxivo_console.Persistence.Rows.{RecoveryTransactionRow, CredentialRow}
use muxivo_console.Persistence.Database.{Database, update_where, audit_fits}
use muxivo_console.Persistence.Connections.{no_error}
use muxivo_console.Persistence.Sessions.{list_active_for_user}
use muxivo_console.Persistence.Identities.{has_credential_of, find_credential}
use muxivo_console.Persistence.Identities.Writes.{changed_row}
use muxivo_console.Persistence.Transactions.{is_usable_recovery, consumed_recovery, recovered_event}
use muxivo_console.Persistence.Recovery.{complete_for, complete_recovery}
use muxivo_console.Application.Identifiers.{Supply}
use muxivo_console.Application.Libraries.{Libraries}
use muxivo_console.Application.TokenStore.{OneTimeTokenStore, ConnectionError}
use muxivo_console.Application.Sessions.{is_usable_token}
use muxivo_console.Application.Sessions.Revocation.{none_valid}
use muxivo_console.Application.Passwords.{is_valid_password}
use muxivo_console.Application.Passwords.Recovery.{
  complete_password_recovery, complete_referenced, recovery_completed, recovery_key,
}

-- After the consumption no transaction is usable with the token.
none_usable :
    (h : Text) (at t : ℕ) (rows : List RecoveryTransactionRow)
    → at ≤ t
    → find
        (is_usable_recovery h t)
        (update_where (is_usable_recovery h at) (consumed_recovery at) rows)
      ≡ none
none_usable h at t [] later = refl
none_usable h at t (r ∷ rs) later = ground (arith, none_usable h at t rs later)

find_changed :
    (u : Uuid) (hash : Text) (at : ℕ) (cs : List CredentialRow)
    → count (has_credential_of u) cs ≡ 1
    → (c : CredentialRow) × (find
          (has_credential_of u)
          (update_where (has_credential_of u) (changed_row hash at) cs)
        ≡ some (changed_row hash at c))
find_changed u hash at [] h = absurd (cc)
find_changed u hash at (c ∷ cs) h = elim (Bool-cases (has_credential_of u c)) [
  | inl e ↦ (c, rw e (rw e refl))
  | inr e ↦ let (d, found) = find_changed u hash at cs (rw e at h) in (d, rw e (rw e found))
]

not_completed :
    (h hash : Text) (t : ℕ) (i c : Uuid) (db : Database)
    → find (is_usable_recovery h t) db.recovery_transactions ≡ none
    → complete_recovery h hash t i c db ≡ (none, db)
unfolding complete_recovery
not_completed h hash t i c db e = rw (e, complete_recovery) refl

module _ (h hash : Text) (at : ℕ) (audit_id correlation : Uuid) where
  -- What a completion for the user leaves.
  abbrev pub Recovers : Uuid → Database → Database → Type 0
  Recovers u db db' =
      (find_credential u db'
        ≡ no_error (password_credential (record { user_id = u; password_hash = hash })))
      × ((t : ℕ) → at ≤ t → list_active_for_user u t db' ≡ [])
      × ((t : ℕ)
          → at ≤ t
          → (hash' : Text) (i c : Uuid) → complete_recovery h hash' t i c db' ≡ (none, db'))
      × (db'.audit_events ≡ recovered_event audit_id correlation u ∷ db.audit_events)

  complete_for-Recovers :
      (u : Uuid) (db : Database)
      → (complete_for u h hash at audit_id correlation db).0 ≡ some u
      → Recovers u db (complete_for u h hash at audit_id correlation db).1
  unfolding complete_for
  complete_for-Recovers u db done =
      elim (Bool-cases (count (has_credential_of u) db.credentials == 1)) [
        | inr e ↦ absurd (cc (rw (e, complete_for) at done))
        | inl e ↦ elim (Bool-cases (audit_fits (recovered_event audit_id correlation u) db)) [
          | inr f ↦ absurd (cc (rw (e, f, complete_for) at done))
          | inl f ↦
              let (c, found) = find_changed u hash at db.credentials (ground arith) in
              rw (e, f, complete_for)
                (
                  unfold find_credential in rw found refl,
                  λ t later.
                      unfold list_active_for_user in rw (none_valid u at t db.sessions later) refl,
                  λ t later hash' i c.
                      not_completed h hash' t i c _
                        (none_usable h at t db.recovery_transactions later),
                  refl,
                )
        ]
      ]

  completed_user :
      (v u : Uuid) (db : Database)
      → (complete_for v h hash at audit_id correlation db).0 ≡ some u
      → v ≡ u
  unfolding complete_for
  completed_user v u db done = ground arith

  completed_by :
      (r : RecoveryTransactionRow) (db : Database)
      → find (is_usable_recovery h at) db.recovery_transactions ≡ some r
      → complete_recovery h hash at audit_id correlation db
        ≡ complete_for r.user_id h hash at audit_id correlation db
  unfolding complete_recovery
  completed_by r db e = rw (e, complete_recovery) refl

  complete_recovery-Recovers :
      (u : Uuid) (db : Database)
      → (complete_recovery h hash at audit_id correlation db).0 ≡ some u
      → Recovers u db (complete_recovery h hash at audit_id correlation db).1
  complete_recovery-Recovers u db done =
      elim (Option-cases (find (is_usable_recovery h at) db.recovery_transactions)) [
        | inl e ↦
            absurd (cc (ap (λ x. x.0) (not_completed h hash at audit_id correlation db e), done))
        | inr (r, e) ↦
            let opened = completed_by r db e in
            let made : (complete_for r.user_id h hash at audit_id correlation db).0 ≡ some u =
              sym (ap (λ x. x.0) opened) ∙ done in
            let same : r.user_id ≡ u = completed_user r.user_id u db made in
            subst (λ x. Recovers u db x.1) (sym opened)
              (subst
                (λ v. Recovers v db (complete_for r.user_id h hash at audit_id correlation db).1)
                same (complete_for-Recovers r.user_id db (made ∙ ap some (sym same))))
      ]

module _ {S : Type 0} (store : OneTimeTokenStore S) (lib : Libraries) (ids : Supply) where
  module _ (now : ℕ) (correlation : Uuid) (token new_password : Text) where
    abbrev hashed : Text
    hashed = lib.hash_token token

    abbrev Recovered : Database → Database → Type 0
    Recovered db db' =
        (u : Uuid) × Recovers hashed (lib.hash_password new_password) now (ids 0) correlation u db
          db'

    completed_end :
        (key reference : Text) (completed : Option Uuid) (s : S) (db : Database)
        → (recovery_completed store lib ids key reference completed s db).0 ≡ ok tt
        → (u : Uuid) × (completed ≡ some u)
          × ((recovery_completed store lib ids key reference completed s db).2 ≡ db)
    unfolding recovery_completed
    completed_end key reference none s db done = absurd (cc (done))
    completed_end key reference (some u) s db done = (u, refl, refl)

    referenced_end :
        (got : Result ConnectionError (Option Text)) (s : S) (db : Database)
        → (complete_referenced store lib ids now correlation token new_password got s db).0 ≡ ok tt
        → Recovered db
            (complete_referenced store lib ids now correlation token new_password got s db).2
          × ((reference : Text) × (got ≡ ok (some reference)))
    unfolding complete_referenced
    referenced_end (err e) s db done = absurd (cc (done))
    referenced_end (ok none) s db done = absurd (cc (done))
    referenced_end (ok (some reference)) s db done =
        elim (Bool-cases (lib.is_uuid_text reference)) [
          | inr e ↦ absurd (cc (rw e at done))
          | inl e ↦
              let result =
                complete_recovery hashed (lib.hash_password new_password) now (ids 0) correlation
                  db in
              let (u, completed, kept) =
                completed_end (recovery_key hashed) reference result.0 s result.1 (rw e at done) in
              (
                (
                  u,
                  rw e (
                      subst
                        (Recovers hashed (lib.hash_password new_password) now (ids 0) correlation u
                          db)
                        (sym kept)
                        (complete_recovery-Recovers hashed (lib.hash_password new_password) now
                          (ids 0) correlation u db completed)),
                ),
                (reference, refl),
              )
        ]

    -- A completion of a password recovery that succeeds had a usable token whose hash is known to
    -- the store and a valid password, and leaves the database as follows, for one user: the
    -- credential has the hash of the new password, no session of the user is listed as active at
    -- that instant or later, the token can complete no recovery from then on, whatever the
    -- password, and the audit trail has one event more, for that user.
    pub complete_password_recovery-Recovers :
        (s : S) (db : Database)
        → (complete_password_recovery store lib ids now correlation token new_password s db).0
          ≡ ok tt
        → (is_usable_token token ≡ true)
          × (is_valid_password new_password ≡ true)
          × ((reference : Text) × ((store.get (recovery_key (lib.hash_token token)) s).0
                ≡ ok (some reference)))
          × (u : Uuid) × Recovers
              (lib.hash_token token)
              (lib.hash_password new_password)
              now
              (ids 0)
              correlation
              u
              db
              (complete_password_recovery store lib ids now correlation token new_password s db).2
    unfolding complete_password_recovery
    complete_password_recovery-Recovers s db done = elim (Bool-cases (is_usable_token token)) [
      | inr e ↦ absurd (cc (rw e at done))
      | inl e ↦ elim (Bool-cases (is_valid_password new_password)) [
        | inr f ↦ absurd (cc (rw (e, f) at done))
        | inl f ↦
            let got = store.get (recovery_key hashed) s in
            let ((u, recovers), reference) = referenced_end got.0 got.1 db (rw (e, f) at done) in
            (e, f, reference, u, rw (e, f) recovers)
      ]
    ]
