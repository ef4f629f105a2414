-- ===== src/Application/Sessions/Revocation.antt =====
-- A revoked session is of no use any more.
use muxivo_console.Shared.{
  ℕ, ◌≤◌, false, not, find, text_eq, ◌≡◌, ◌≢◌, refl, arith, none, some, List, [], ◌∷◌, Text, ok,
  err, Bool-cases, Option-cases, inl, inr, filter, count, is_none,
}
use muxivo_console.Domain.Activity.{Uuid}
use muxivo_console.Domain.Audit.{AuditEvent}
use muxivo_console.Domain.Sessions.{AuthSession, is_active_at, auth_session}
use muxivo_console.Persistence.Database.{Database, SessionRow, update_where, audit_fits}
use muxivo_console.Persistence.Connections.{and_then}
use muxivo_console.Persistence.Sessions.{
  SessionWriteError, list_active_for_user, session_from_record, find_by_token_hash, has_token,
  create_session, revoke_session, revoke_all_for_user, reauthenticate, touch_last_seen,
  update_sessions, is_valid_of, revoke_row, is_positive,
}
use muxivo_console.Persistence.Sessions.Updates.{
  Dead, Present, IsRevoked, create_session-Dead, create_session-Present, revoke_session-Preserves,
  revoke_all_for_user-Preserves, reauthenticate-Preserves, touch_last_seen-Preserves,
  complete_recovery-Preserves, filter-Dead, revoke_session-Dead, find-IsRevoked,
}
use muxivo_console.Persistence.Recovery.{complete_recovery}
use muxivo_console.Application.Cleanup.{is_old_session, delete_sessions}
use muxivo_console.Application.Sessions.{
  ResolverSettings, is_usable_token, resolve_found, resolve_session,
}

-- A write of the table of sessions, with the identifiers and instants that it is given: the methods
-- of the session repositories, the completion of a password recovery, and the cleanup.
pub data SessionWrite : Type 0 where
  create : ℕ → AuthSession → AuditEvent → SessionWrite
  revoke reauthenticate_one : Uuid → Uuid → ℕ → AuditEvent → SessionWrite
  revoke_all : Uuid → ℕ → AuditEvent → SessionWrite
  touch_one : Uuid → Uuid → ℕ → SessionWrite
  recover : Text → Text → ℕ → Uuid → Uuid → SessionWrite
  delete_old : ℕ → SessionWrite

unfoldable pub session_step : SessionWrite → Database → Database
session_step (SessionWrite.create server_now s event) db = (create_session server_now s event db).1
session_step (SessionWrite.revoke session user at event) db =
    (revoke_session session user at event db).1
session_step (SessionWrite.reauthenticate_one session user at event) db =
    (reauthenticate session user at event db).1
session_step (SessionWrite.revoke_all user at event) db = (revoke_all_for_user user at event db).1
session_step (SessionWrite.touch_one session user at) db = (touch_last_seen session user at db).1
session_step (SessionWrite.recover token_hash hash at i c) db =
    (complete_recovery token_hash hash at i c db).1
session_step (SessionWrite.delete_old before) db = (delete_sessions before db).1

unfoldable pub run_sessions : List SessionWrite → Database → Database
unfolding session_step
run_sessions [] db = db
run_sessions (w ∷ ws) db = run_sessions ws (session_step w db)

-- No session is created with the hash.
abbrev pub Avoids : Text → List SessionWrite → Type 0
Avoids h [] = Unit
Avoids h (SessionWrite.create server_now s event ∷ ws) =
    (text_eq s.token_hash h ≡ false) × Avoids h ws
Avoids h (w ∷ ws) = Avoids h ws

-- No session is created with the hash after a cleanup, which may have deleted the one that had it.
abbrev pub NeverReuses : Text → List SessionWrite → Type 0
NeverReuses h [] = Unit
NeverReuses h (SessionWrite.delete_old before ∷ ws) = Avoids h ws
NeverReuses h (w ∷ ws) = NeverReuses h ws

delete_sessions-Dead :
    (h : Text) (before : ℕ) (db : Database)
    → Dead h db.sessions
    → Dead h (delete_sessions before db).1.sessions
unfolding delete_sessions
delete_sessions-Dead h before db dead =
    filter-Dead h (λ r. not (is_old_session before r)) db.sessions dead

module _ (h : Text) where
  -- A dead token stays dead where its hash is not used again.
  run-Dead :
      (ws : List SessionWrite) (db : Database)
      → Avoids h ws
      → Dead h db.sessions
      → Dead h (run_sessions ws db).sessions
  unfolding run_sessions
  run-Dead [] db avoids dead = dead
  run-Dead (SessionWrite.create server_now s event ∷ ws) db avoids dead =
      run-Dead ws _ avoids.1 (create_session-Dead h db server_now s event (inr avoids.0) dead)
  run-Dead (SessionWrite.delete_old before ∷ ws) db avoids dead =
      run-Dead ws _ avoids (delete_sessions-Dead h before db dead)
  run-Dead (SessionWrite.revoke session user at event ∷ ws) db avoids dead =
      run-Dead ws _ avoids ((revoke_session-Preserves h db session user at event).0 dead)
  run-Dead (SessionWrite.reauthenticate_one session user at event ∷ ws) db avoids dead =
      run-Dead ws _ avoids ((reauthenticate-Preserves h db session user at event).0 dead)
  run-Dead (SessionWrite.revoke_all user at event ∷ ws) db avoids dead =
      run-Dead ws _ avoids ((revoke_all_for_user-Preserves h db user at event).0 dead)
  run-Dead (SessionWrite.touch_one session user at ∷ ws) db avoids dead =
      run-Dead ws _ avoids ((touch_last_seen-Preserves h db session user at).0 dead)
  run-Dead (SessionWrite.recover token_hash hash at i c ∷ ws) db avoids dead =
      run-Dead ws _ avoids ((complete_recovery-Preserves h db token_hash hash at i c).0 dead)

  -- A dead token that the table holds stays dead, at least until a cleanup.
  run_held :
      (ws : List SessionWrite) (db : Database)
      → NeverReuses h ws
      → Dead h db.sessions
      → Present h db.sessions
      → Dead h (run_sessions ws db).sessions
  unfolding run_sessions
  run_held [] db never dead here = dead
  run_held (SessionWrite.create server_now s event ∷ ws) db never dead here =
      run_held ws _ never (create_session-Dead h db server_now s event (inl here) dead)
        (create_session-Present h db server_now s event here)
  run_held (SessionWrite.delete_old before ∷ ws) db never dead here =
      run-Dead ws _ never (delete_sessions-Dead h before db dead)
  run_held (SessionWrite.revoke session user at event ∷ ws) db never dead here =
      let kept = revoke_session-Preserves h db session user at event in
      run_held ws _ never (kept.0 dead) (kept.1 here)
  run_held (SessionWrite.reauthenticate_one session user at event ∷ ws) db never dead here =
      let kept = reauthenticate-Preserves h db session user at event in
      run_held ws _ never (kept.0 dead) (kept.1 here)
  run_held (SessionWrite.revoke_all user at event ∷ ws) db never dead here =
      let kept = revoke_all_for_user-Preserves h db user at event in
      run_held ws _ never (kept.0 dead) (kept.1 here)
  run_held (SessionWrite.touch_one session user at ∷ ws) db never dead here =
      let kept = touch_last_seen-Preserves h db session user at in
      run_held ws _ never (kept.0 dead) (kept.1 here)
  run_held (SessionWrite.recover token_hash hash at i c ∷ ws) db never dead here =
      let kept = complete_recovery-Preserves h db token_hash hash at i c in
      run_held ws _ never (kept.0 dead) (kept.1 here)

read_revoked :
    (x : SessionRow) (s : AuthSession)
    → IsRevoked x
    → session_from_record x ≡ some s
    → is_none s.revoked_at ≡ false
unfolding session_from_record auth_session
read_revoked x s revoked e = ground arith

find_revoked :
    (h : Text) (db : Database) (s : AuthSession)
    → Dead h db.sessions
    → find_by_token_hash h db ≡ some s
    → is_none s.revoked_at ≡ false
unfolding find_by_token_hash
find_revoked h db s dead e = elim (Option-cases (find (has_token h) db.sessions)) [
  | inl f ↦ absurd (cc (rw (f, and_then) at e))
  | inr (x, f) ↦ read_revoked x s (find-IsRevoked h x db.sessions dead f) (rw (f, and_then) at e)
]

resolve-Dead :
    (hash : Text → Text) (settings : ResolverSettings) (now : ℕ) (raw_token : Text) (db : Database)
    → Dead (hash raw_token) db.sessions
    → resolve_session hash settings now raw_token db ≡ (ok none, db)
unfolding resolve_session resolve_found is_active_at
resolve-Dead hash settings now raw_token db dead = elim (Bool-cases (is_usable_token raw_token)) [
  | inr e ↦ rw e refl
  | inl e ↦ elim (Option-cases (find_by_token_hash (hash raw_token) db)) [
    | inl f ↦ rw (e, f, resolve_session) refl
    | inr (s, f) ↦
        let gone = find_revoked (hash raw_token) db s dead f in
        rw (e, f, resolve_session) (rw (gone, resolve_found) refl)
  ]
]

-- After the session of a token has been revoked, where its audit event violated no constraint and
-- it alone had the token's hash, the token resolves to nobody at any instant, after any writes of
-- the table of sessions since: new, renewed, seen and revoked sessions, completed password
-- recoveries and cleanups. The hash may be tried again for a new session, but not after a cleanup,
-- which may have deleted the session that had it.
pub revoked_for_good :
    (hash : Text → Text) (settings : ResolverSettings) (now : ℕ) (raw_token : Text) (x : SessionRow)
    (at : ℕ) (event : AuditEvent) (ws : List SessionWrite) (db : Database)
    → find (has_token (hash raw_token)) db.sessions ≡ some x
    → count (has_token (hash raw_token)) db.sessions ≤ 1
    → (revoke_session x.id x.user_id at event db).0 ≢ err SessionWriteError.integrity
    → NeverReuses (hash raw_token) ws
    → let db' = run_sessions ws (revoke_session x.id x.user_id at event db).1 in
      resolve_session hash settings now raw_token db' ≡ (ok none, db')
revoked_for_good hash settings now raw_token x at event ws db found one fine never =
    let (dead, here) = revoke_session-Dead (hash raw_token) x at event db found one fine in
    let after = (revoke_session x.id x.user_id at event db).1 in
    resolve-Dead hash settings now raw_token (run_sessions ws after)
      (run_held (hash raw_token) ws after never dead here)

pub none_valid :
    (user : Uuid) (at t : ℕ) (rs : List SessionRow)
    → at ≤ t
    → filter (is_valid_of user t) (update_where (is_valid_of user at) (revoke_row at) rs) ≡ []
none_valid user at t [] later = refl
none_valid user at t (r ∷ rs) later = ground (arith, none_valid user at t rs later)

-- Revoking all sessions of a user, unless its audit event violates a constraint, returns how many
-- were valid, and from that instant on the user has no active session in the listing.
pub revoke_all_for_user_lem :
    (user : Uuid) (at t : ℕ) (event : AuditEvent) (db : Database) {n : ℕ}
    → at ≤ t
    → (revoke_all_for_user user at event db).0 ≡ ok n
    → (n ≡ count (is_valid_of user at) db.sessions)
      × (list_active_for_user user t (revoke_all_for_user user at event db).1 ≡ [])
unfolding revoke_all_for_user update_sessions list_active_for_user
revoke_all_for_user_lem user at t event db {n} later h =
    let gone = none_valid user at t db.sessions later in
    elim (Bool-cases (is_positive (count (is_valid_of user at) db.sessions))) [
      | inr c ↦ (ground arith, rw c (rw gone refl))
      | inl c ↦ elim (Bool-cases (audit_fits event db)) [
        | inl f ↦ (ground arith, rw c (rw f (rw gone refl)))
        | inr f ↦ absurd (cc (rw (c, f) at h))
      ]
    ]
