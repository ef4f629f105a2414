-- ===== src/Application/Cleanup/Safety.antt =====
-- The deletion of old records takes nothing that can still be used.
use muxivo_console.Shared.{
  ℕ, ◌-◌, ◌≤◌, true, false, not, ◌≡◌, ◌⊎◌, refl, arith, none, some, List, [], ◌∷◌, Text, filter,
  find, count, Bool-cases, Option-cases, Result-cases, inl, inr, ap, sym, ◌∙◌, ok,
}
use muxivo_console.Domain.Activity.{Uuid}
use muxivo_console.Domain.Sessions.{AuthSession, auth_session, is_active_at}
use muxivo_console.Persistence.Rows.{RecoveryTransactionRow}
use muxivo_console.Persistence.Database.{Database, SessionRow}
use muxivo_console.Persistence.Connections.{no_error}
use muxivo_console.Persistence.Members.{get_status}
use muxivo_console.Application.Members.{is_active}
use muxivo_console.Application.Sessions.{
  ResolverSettings, is_usable_token, touch, resolve_found, resolve_session,
}
use muxivo_console.Persistence.Sessions.{
  has_token, to_level, session_from_record, is_valid_of, list_active_for_user, find_by_token_hash,
}
use muxivo_console.Persistence.Transactions.{is_usable_recovery}
use muxivo_console.Application.Cleanup.{
  CleanupCommand, is_old_session, is_old_recovery, delete_sessions, delete_recoveries,
  cleanup_security_records,
}

-- What is deleted was expired or revoked before; a row that is valid later stays.
valid_kept :
    (u : Uuid) (before t : ℕ) (rows : List SessionRow)
    → before ≤ t
    → filter (is_valid_of u t) (filter (λ r. not (is_old_session before r)) rows)
      ≡ filter (is_valid_of u t) rows
valid_kept u before t [] later = refl
valid_kept u before t (r ∷ rs) later =
    let rest = valid_kept u before t rs later in
    elim (Option-cases r.revoked_at) [ inl e ↦ ground arith | inr (at, e) ↦ ground arith ]

usable_kept :
    (h : Text) (before t : ℕ) (rows : List RecoveryTransactionRow)
    → before ≤ t
    → find (is_usable_recovery h t) (filter (λ r. not (is_old_recovery before r)) rows)
      ≡ find (is_usable_recovery h t) rows
usable_kept h before t [] later = refl
usable_kept h before t (r ∷ rs) later =
    let rest = usable_kept h before t rs later in
    elim (Option-cases r.consumed_at) [ inl e ↦ ground arith | inr (at, e) ↦ ground arith ]

none_kept :
    (h : Text) (before : ℕ) (rows : List SessionRow)
    → count (has_token h) rows ≤ 0
    → find (has_token h) (filter (λ r. not (is_old_session before r)) rows) ≡ none
none_kept h before [] zero_rows = refl
none_kept h before (r ∷ rs) zero_rows = ground (arith, none_kept h before rs)

-- Where one row has the token, it stays, or it was old and none is left.
token_kept :
    (h : Text) (before : ℕ) (rows : List SessionRow)
    → count (has_token h) rows ≤ 1
    → (find (has_token h) (filter (λ r. not (is_old_session before r)) rows)
        ≡ find (has_token h) rows)
      ⊎ ((find (has_token h) (filter (λ r. not (is_old_session before r)) rows) ≡ none)
          × ((r : SessionRow) × (find (has_token h) rows ≡ some r)
              × (is_old_session before r ≡ true)))
token_kept h before [] one = inl refl
token_kept h before (r ∷ rs) one = elim (Bool-cases (has_token h r)) [
  | inr e ↦ elim (Bool-cases (is_old_session before r)) [
    | inl o ↦ rw (e, o) (token_kept h before rs (rw e at one))
    | inr o ↦ rw (e, o, e) (token_kept h before rs (rw e at one))
  ]
  | inl e ↦ elim (Bool-cases (is_old_session before r)) [
    | inr o ↦ rw (e, o, e) (inl refl)
    | inl o ↦ rw (e, o) (inr (none_kept h before rs (omega (arith, rw e at one)), (r, refl, o)))
  ]
]

constructed : (x s : AuthSession) → no_error (auth_session x) ≡ some s → x ≡ s
unfolding auth_session
constructed x s made = ground arith

session_times :
    (r : SessionRow) (s : AuthSession)
    → session_from_record r ≡ some s
    → (r.revoked_at ≡ s.revoked_at) × (r.expires_at ≡ s.expires_at)
unfolding session_from_record
session_times r s made = elim (Option-cases (to_level r.assurance_level)) [
  | inl e ↦ absurd (cc (rw (e, session_from_record) at made))
  | inr (level, e) ↦
      let same = constructed _ s (rw (e, session_from_record) at made) in
      (ap (λ (x : AuthSession). x.revoked_at) same, ap (λ (x : AuthSession). x.expires_at) same)
]

old_inactive :
    (r : SessionRow) (s : AuthSession) (before t : ℕ)
    → before ≤ t
    → session_from_record r ≡ some s
    → is_old_session before r ≡ true
    → is_active_at s t ≡ false
unfolding is_active_at
old_inactive r s before t later made old =
    let (revoked, expires) = session_times r s made in
    elim (Option-cases r.revoked_at) [ inl f ↦ ground arith | inr (at, f) ↦ ground arith ]

touch_same :
    (settings : ResolverSettings) (s : AuthSession) (t : ℕ) (db db' : Database)
    → (touch settings s t db').0 ≡ (touch settings s t db).0
unfolding touch
touch_same settings s t db db' = ground arith

resolve_found_same :
    (settings : ResolverSettings) (s : AuthSession) (t : ℕ) (db db' : Database)
    → get_status s.user_id db' ≡ get_status s.user_id db
    → (resolve_found settings t s db').0 ≡ (resolve_found settings t s db).0
unfolding resolve_found
resolve_found_same settings s t db db' users = elim (Bool-cases (is_active_at s t)) [
  | inr e ↦ rw (e, resolve_found) refl
  | inl e ↦ elim (Bool-cases (is_active (get_status s.user_id db))) [
    | inr f ↦ rw (e, users, f, resolve_found) refl
    | inl f ↦
        let same = touch_same settings s t db db' in
        elim (Result-cases (touch settings s t db).0) [
          | inl (x, g) ↦ rw (e, users, f, same, g, resolve_found) refl
          | inr (x, g) ↦ rw (e, users, f, same, g, resolve_found) refl
        ]
  ]
]

inactive_resolves :
    (settings : ResolverSettings) (s : AuthSession) (t : ℕ) (db : Database)
    → is_active_at s t ≡ false
    → (resolve_found settings t s db).0 ≡ ok none
unfolding resolve_found
inactive_resolves settings s t db e = rw (e, resolve_found) refl

module _ (now : ℕ) (cmd : CleanupCommand) (db : Database) where
  abbrev cleaned : Database
  cleaned = (cleanup_security_records now cmd db).1

  list_active_kept :
      (u : Uuid) (t : ℕ) → now ≤ t → list_active_for_user u t cleaned ≡ list_active_for_user u t db
  unfolding list_active_for_user cleanup_security_records delete_sessions delete_recoveries
  list_active_kept u t later =
      rw (valid_kept u (now - cmd.session_retention) t db.sessions (omega arith)) refl

  recovery_kept :
      (h : Text) (t : ℕ)
      → now ≤ t
      → find (is_usable_recovery h t) cleaned.recovery_transactions
        ≡ find (is_usable_recovery h t) db.recovery_transactions
  unfolding cleanup_security_records delete_sessions delete_recoveries
  recovery_kept h t later =
      usable_kept h (now - cmd.password_recovery_retention) t db.recovery_transactions (omega arith)

  token_found :
      (h : Text)
      → count (has_token h) db.sessions ≤ 1
      → (find_by_token_hash h cleaned ≡ find_by_token_hash h db)
        ⊎ ((find_by_token_hash h cleaned ≡ none)
            × ((r : SessionRow) × (find_by_token_hash h db ≡ session_from_record r)
                × (is_old_session (now - cmd.session_retention) r ≡ true)))
  unfolding find_by_token_hash cleanup_security_records delete_sessions delete_recoveries
  token_found h one = elim (token_kept h (now - cmd.session_retention) db.sessions one) [
    | inl same ↦ inl (rw same refl)
    | inr (gone, (r, found, old)) ↦ inr (rw gone refl, (r, rw found refl, old))
  ]

  users_kept : (u : Uuid) → get_status u cleaned ≡ get_status u db
  unfolding get_status cleanup_security_records delete_sessions delete_recoveries
  users_kept u = refl

  none_resolves :
      (hash : Text → Text) (settings : ResolverSettings) (t : ℕ) (token : Text) (db' : Database)
      → find_by_token_hash (hash token) db' ≡ none
      → (resolve_session hash settings t token db').0 ≡ ok none
  unfolding resolve_session
  none_resolves hash settings t token db' e = elim (Bool-cases (is_usable_token token)) [
    | inl f ↦ rw (f, e, resolve_session) refl
    | inr f ↦ rw (f, resolve_session) refl
  ]

  found_resolves :
      (hash : Text → Text) (settings : ResolverSettings) (t : ℕ) (token : Text) (s : AuthSession)
      (db' : Database)
      → find_by_token_hash (hash token) db' ≡ some s
      → is_usable_token token ≡ true
      → resolve_session hash settings t token db' ≡ resolve_found settings t s db'
  unfolding resolve_session
  found_resolves hash settings t token s db' e f = rw (f, e, resolve_session) refl

  unusable_resolves :
      (hash : Text → Text) (settings : ResolverSettings) (t : ℕ) (token : Text) (db' : Database)
      → is_usable_token token ≡ false
      → (resolve_session hash settings t token db').0 ≡ ok none
  unfolding resolve_session
  unusable_resolves hash settings t token db' f = rw (f, resolve_session) refl

  resolve_kept :
      (hash : Text → Text) (settings : ResolverSettings) (t : ℕ) (token : Text)
      → now ≤ t
      → count (has_token (hash token)) db.sessions ≤ 1
      → (resolve_session hash settings t token cleaned).0
        ≡ (resolve_session hash settings t token db).0
  resolve_kept hash settings t token later one = elim (Bool-cases (is_usable_token token)) [
    | inr f ↦
        unusable_resolves hash settings t token cleaned f
        ∙ sym (unusable_resolves hash settings t token db f)
    | inl f ↦ elim (Option-cases (find_by_token_hash (hash token) db)) [
      | inl e ↦ elim (token_found (hash token) one) [
        | inl same ↦
            none_resolves hash settings t token cleaned (same ∙ e)
            ∙ sym (none_resolves hash settings t token db e)
        | inr (gone, old) ↦
            none_resolves hash settings t token cleaned gone
            ∙ sym (none_resolves hash settings t token db e)
      ]
      | inr (s, e) ↦
          let before = ap (λ x. x.0) (found_resolves hash settings t token s db e f) in
          elim (token_found (hash token) one) [
            | inl same ↦
                ap (λ x. x.0) (found_resolves hash settings t token s cleaned (same ∙ e) f)
                ∙ resolve_found_same settings s t db cleaned (users_kept s.user_id)
                ∙ sym before
            | inr (gone, (r, found, old)) ↦
                none_resolves hash settings t token cleaned gone
                ∙ sym (
                    before
                    ∙ inactive_resolves settings s t db (
                        old_inactive r s (now - cmd.session_retention) t (omega arith)
                          (sym found ∙ e) old))
          ]
    ]
  ]

  -- A cleanup cannot be noticed at its instant or later, whatever is retained: every token that at
  -- most one session has resolves as before, every user has the same active sessions, and a token
  -- finds the same recovery.
  pub cleanup_security_records_lem :
      (t : ℕ)
      → now ≤ t
      → ((hash : Text → Text) (settings : ResolverSettings) (token : Text)
          → count (has_token (hash token)) db.sessions ≤ 1
          → (resolve_session hash settings t token cleaned).0
            ≡ (resolve_session hash settings t token db).0)
        × ((u : Uuid) → list_active_for_user u t cleaned ≡ list_active_for_user u t db)
        × ((h : Text)
            → find (is_usable_recovery h t) cleaned.recovery_transactions
              ≡ find (is_usable_recovery h t) db.recovery_transactions)
  cleanup_security_records_lem t later = (
    λ hash settings token one. resolve_kept hash settings t token later one,
    λ u. list_active_kept u t later,
    λ h. recovery_kept h t later,
  )
