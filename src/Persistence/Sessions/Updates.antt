-- ===== src/Persistence/Sessions/Updates.antt =====
-- The writes of the session tables leave every session of a token revoked, once all of them are.
use muxivo_console.Shared.{
  ℕ, Bool, true, false, ◌⊎◌, ◌&&◌, ◌||◌, ◌≡◌, ◌≢◌, ◌≤◌, refl, arith, some, List, [], ◌∷◌, any, find,
  count, filter, All, Text, text_eq, eq_of_text_eq, err, Bool-cases, Option-cases, inl, inr, ap,
  sym, ◌∙◌, is_none, ◌==◌,
}
use mathlib.Core.Path.{subst}
use muxivo_console.Domain.Activity.{Uuid}
use muxivo_console.Domain.Audit.{AuditEvent}
use muxivo_console.Domain.Sessions.{AuthSession}
use muxivo_console.Persistence.Database.{
  Database, SessionRow, update_where, audit_fits, session_fits,
}
use muxivo_console.Persistence.Sessions.{
  has_token, session_row, create_session, is_unrevoked, is_valid, is_valid_of, revoke_row, seen_row,
  reauthenticated_row, update_sessions, revoke_session, revoke_all_for_user, reauthenticate,
  touch_last_seen, is_one, is_positive, SessionWriteError,
}
use muxivo_console.Persistence.Identities.{has_credential_of}
use muxivo_console.Persistence.Transactions.{is_usable_recovery, recovered_event}
use muxivo_console.Persistence.Recovery.{complete_for, complete_recovery}

-- What is no longer of use: a row that is revoked.
abbrev pub IsRevoked : SessionRow → Type 0
IsRevoked r = is_none r.revoked_at ≡ false

-- Every row of the token is revoked.
abbrev pub Dead : Text → List SessionRow → Type 0
Dead h = All (λ (r : SessionRow). text_eq r.token_hash h ≡ true → IsRevoked r)

abbrev pub Present : Text → List SessionRow → Type 0
Present h rs = any (has_token h) rs ≡ true

-- A change of rows that leaves their token, and does not undo a revocation.
abbrev Keeps : (SessionRow → SessionRow) → Type 0
Keeps change =
    (r : SessionRow) → ((change r).token_hash ≡ r.token_hash) × (IsRevoked r → IsRevoked (change r))

module _ (h : Text) (selected : SessionRow → Bool) (change : SessionRow → SessionRow)
    (keeps : Keeps change) where
  pub update-Dead : (rs : List SessionRow) → Dead h rs → Dead h (update_where selected change rs)
  update-Dead [] dead = tt
  update-Dead (r ∷ rs) dead = elim (Bool-cases (selected r)) [
    | inr e ↦ rw e (dead.0, update-Dead rs dead.1)
    | inl e ↦ rw e (
      λ own. (keeps r).1 (dead.0 (sym (ap (λ t. text_eq t h) (keeps r).0) ∙ own)),
      update-Dead rs dead.1,
    )
  ]

  pub update-Present :
      (rs : List SessionRow)
      → any (has_token h) (update_where selected change rs) ≡ any (has_token h) rs
  update-Present [] = refl
  update-Present (r ∷ rs) = elim (Bool-cases (selected r)) [
    | inr e ↦ rw e (ap (λ b. text_eq r.token_hash h || b) (update-Present rs))
    | inl e ↦ rw e (rw ((keeps r).0, update-Present rs) refl)
  ]

abbrev pub Keeping : Text → List SessionRow → List SessionRow → Type 0
Keeping h rs rs' = (Dead h rs → Dead h rs') × (Present h rs → Present h rs')

-- A write that keeps the token dead, and in the table.
abbrev pub Preserves : Text → Database → Database → Type 0
Preserves h db db' = Keeping h db.sessions db'.sessions

module _ (h : Text) (db : Database) where
  unchanged : Keeping h db.sessions db.sessions
  unchanged = (λ dead. dead, λ here. here)

  updated :
      (selected : SessionRow → Bool) (change : SessionRow → SessionRow)
      → Keeps change
      → Keeping h db.sessions (update_where selected change db.sessions)
  updated selected change keeps = (
    update-Dead h selected change keeps db.sessions,
    λ here. update-Present h selected change keeps db.sessions ∙ here,
  )

  update_sessions-Preserves :
      {A : Type 0} (selected : SessionRow → Bool) (change : SessionRow → SessionRow)
      (passes : ℕ → Bool) (answer : ℕ → A) (refused : A) (event : AuditEvent)
      → Keeps change
      → Preserves h db (update_sessions selected change passes answer refused event db).1
  unfolding update_sessions
  update_sessions-Preserves selected change passes answer refused event keeps =
      let kept = updated selected change keeps in
      elim (Bool-cases (passes (count selected db.sessions))) [
        | inr e ↦ rw e kept
        | inl e ↦ elim (Bool-cases (audit_fits event db)) [
          | inl f ↦ rw e (rw f kept)
          | inr f ↦ rw e (rw f unchanged)
        ]
      ]

  revoke_row-Keeps : (at : ℕ) → Keeps (revoke_row at)
  revoke_row-Keeps at r = (refl, λ dead. refl)

  pub revoke_session-Preserves :
      (session user : Uuid) (at : ℕ) (event : AuditEvent)
      → Preserves h db (revoke_session session user at event db).1
  unfolding revoke_session
  revoke_session-Preserves session user at event =
      update_sessions-Preserves (is_unrevoked session user) (revoke_row at) is_one (λ n. true) false
        event (revoke_row-Keeps at)

  pub revoke_all_for_user-Preserves :
      (user : Uuid) (at : ℕ) (event : AuditEvent)
      → Preserves h db (revoke_all_for_user user at event db).1
  unfolding revoke_all_for_user
  revoke_all_for_user-Preserves user at event =
      update_sessions-Preserves (is_valid_of user at) (revoke_row at) is_positive (λ n. n) 0 event
        (revoke_row-Keeps at)

  pub reauthenticate-Preserves :
      (session user : Uuid) (at : ℕ) (event : AuditEvent)
      → Preserves h db (reauthenticate session user at event db).1
  unfolding reauthenticate
  reauthenticate-Preserves session user at event =
      update_sessions-Preserves (is_valid session user at) (reauthenticated_row at) is_one
        (λ n. true) false event (λ r. (refl, λ dead. dead))

  pub touch_last_seen-Preserves :
      (session user : Uuid) (at : ℕ) → Preserves h db (touch_last_seen session user at db).1
  unfolding touch_last_seen
  touch_last_seen-Preserves session user at =
      updated (is_valid session user at) (seen_row at) (λ r. (refl, λ dead. dead))

  complete_for-Preserves :
      (u : Uuid) (token_hash hash : Text) (at : ℕ) (i c : Uuid)
      → Preserves h db (complete_for u token_hash hash at i c db).1
  unfolding complete_for
  complete_for-Preserves u token_hash hash at i c =
      elim (Bool-cases (count (has_credential_of u) db.credentials == 1)) [
        | inr e ↦ rw (e, complete_for) unchanged
        | inl e ↦ elim (Bool-cases (audit_fits (recovered_event i c u) db)) [
          | inr f ↦ rw (e, f, complete_for) unchanged
          | inl f ↦
              rw (e, f, complete_for)
                (updated (is_valid_of u at) (revoke_row at) (revoke_row-Keeps at))
        ]
      ]

  pub complete_recovery-Preserves :
      (token_hash hash : Text) (at : ℕ) (i c : Uuid)
      → Preserves h db (complete_recovery token_hash hash at i c db).1
  unfolding complete_recovery
  complete_recovery-Preserves token_hash hash at i c =
      elim (Option-cases (find (is_usable_recovery token_hash at) db.recovery_transactions)) [
        | inl e ↦ rw (e, complete_recovery) unchanged
        | inr (r, e) ↦
            rw (e, complete_recovery) (complete_for-Preserves r.user_id token_hash hash at i c)
      ]

  -- A new session is another token's, or violates the constraint of a token that is there.
  pub create_session-Dead :
      (server_now : ℕ) (s : AuthSession) (event : AuditEvent)
      → (Present h db.sessions ⊎ (text_eq s.token_hash h ≡ false))
      → Dead h db.sessions
      → Dead h (create_session server_now s event db).1.sessions
  unfolding create_session
  create_session-Dead server_now s event other dead =
      elim (Bool-cases (session_fits (session_row server_now s) db && audit_fits event db)) [
        | inr e ↦ rw e dead
        | inl e ↦ elim (Bool-cases (text_eq s.token_hash h)) [
          | inr f ↦ rw e ((λ own. absurd (cc (f, own))), dead)
          | inl f ↦
              let same = eq_of_text_eq s.token_hash h f in
              elim other [
                | inl here ↦
                    let taken : any (has_token s.token_hash) db.sessions ≡ true = rw same here in
                    absurd (ground arith)
                | inr ne ↦ absurd (cc (f, ne))
              ]
        ]
      ]

  pub create_session-Present :
      (server_now : ℕ) (s : AuthSession) (event : AuditEvent)
      → Present h db.sessions
      → Present h (create_session server_now s event db).1.sessions
  unfolding create_session
  create_session-Present server_now s event here =
      elim (Bool-cases (session_fits (session_row server_now s) db && audit_fits event db)) [
        | inr e ↦ rw e here
        | inl e ↦ rw e (rw here (ground arith))
      ]

pub filter-Dead :
    (h : Text) (p : SessionRow → Bool) (rs : List SessionRow) → Dead h rs → Dead h (filter p rs)
filter-Dead h p [] dead = tt
filter-Dead h p (r ∷ rs) dead = elim (Bool-cases (p r)) [
  | inl e ↦ rw e (dead.0, filter-Dead h p rs dead.1)
  | inr e ↦ rw e (filter-Dead h p rs dead.1)
]

none_held : (h : Text) (rs : List SessionRow) → count (has_token h) rs ≤ 0 → Dead h rs
none_held h [] none_of = tt
none_held h (r ∷ rs) none_of = elim (Bool-cases (text_eq r.token_hash h)) [
  | inl e ↦ absurd (omega (arith, rw e at none_of))
  | inr e ↦ ((λ own. absurd (cc (e, own))), none_held h rs (rw e at none_of))
]

-- Where one row has the token, its revocation leaves the token dead.
one_revoked :
    (h : Text) (x : SessionRow) (at : ℕ) (rs : List SessionRow)
    → find (has_token h) rs ≡ some x
    → count (has_token h) rs ≤ 1
    → Dead h (update_where (is_unrevoked x.id x.user_id) (revoke_row at) rs)
one_revoked h x at [] found one = cc
one_revoked h x at (r ∷ rs) found one = elim (Bool-cases (text_eq r.token_hash h)) [
  | inr e ↦
      let rest = one_revoked h x at rs (rw e at found) (rw e at one) in
      elim (Bool-cases (is_unrevoked x.id x.user_id r)) [
        | inl s ↦ rw s ((λ own. refl), rest)
        | inr s ↦ rw s ((λ own. absurd (cc (e, own))), rest)
      ]
  | inl e ↦
      let same : r ≡ x = cc (rw e at found) in
      let rest =
        update-Dead h (is_unrevoked x.id x.user_id) (revoke_row at) (λ r'. (refl, λ dead. refl)) rs
          (none_held h rs (omega (arith, rw e at one))) in
      elim (Bool-cases (is_unrevoked x.id x.user_id r)) [
        | inl s ↦ rw s ((λ own. refl), rest)
        | inr s ↦
            let done : is_none r.revoked_at ≡ false =
              subst (λ y. is_unrevoked y.id y.user_id r ≡ false → is_none r.revoked_at ≡ false) same
                (λ out. ground arith) s in
            rw s ((λ own. done), rest)
      ]
]

find-Present :
    (h : Text) (x : SessionRow) (rs : List SessionRow)
    → find (has_token h) rs ≡ some x
    → Present h rs
find-Present h x [] found = cc
find-Present h x (r ∷ rs) found = ground (arith, find-Present h x rs)

-- The session of a token, revoked without a violated constraint.
pub revoke_session-Dead :
    (h : Text) (x : SessionRow) (at : ℕ) (event : AuditEvent) (db : Database)
    → find (has_token h) db.sessions ≡ some x
    → count (has_token h) db.sessions ≤ 1
    → (revoke_session x.id x.user_id at event db).0 ≢ err SessionWriteError.integrity
    → Dead h (revoke_session x.id x.user_id at event db).1.sessions
      × Present h (revoke_session x.id x.user_id at event db).1.sessions
unfolding revoke_session update_sessions
revoke_session-Dead h x at event db found one fine =
    let dead = one_revoked h x at db.sessions found one in
    let here =
      (revoke_session-Preserves h db x.id x.user_id at event).1
        (find-Present h x db.sessions found) in
    elim (Bool-cases (is_one (count (is_unrevoked x.id x.user_id) db.sessions))) [
      | inr c ↦ (rw c dead, here)
      | inl c ↦ elim (Bool-cases (audit_fits event db)) [
        | inl f ↦ (rw c (rw f dead), here)
        | inr f ↦ absurd (fine (rw c (rw f refl)))
      ]
    ]

-- What is found for a dead token is revoked.
pub find-IsRevoked :
    (h : Text) (x : SessionRow) (rs : List SessionRow)
    → Dead h rs
    → find (has_token h) rs ≡ some x
    → IsRevoked x
find-IsRevoked h x [] dead found = cc
find-IsRevoked h x (r ∷ rs) dead found = elim (Bool-cases (text_eq r.token_hash h)) [
  | inl e ↦ let same : r ≡ x = cc (rw e at found) in subst (λ y. IsRevoked y) same (dead.0 e)
  | inr e ↦ find-IsRevoked h x rs dead.1 (rw e at found)
]
