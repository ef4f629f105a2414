-- ===== src/Tests/Sessions.antt =====
-- Runs of the resolution and the revocation of sessions.
use muxivo_console.Shared.{
  ℕ, ◌+◌, ◌≤◌, true, ◌≡◌, ◌≢◌, ◌↔◌, refl, arith, none, some, List, [], ◌∷◌, Text, codes, ok, err,
  count, is_space,
}
use muxivo_console.Domain.Sessions.{AuthSession, SessionAssuranceLevel, auth_session, is_active_at}
use muxivo_console.Persistence.Database.{SessionRow}
use muxivo_console.Persistence.Members.{get_status, to_user_status}
use muxivo_console.Persistence.Sessions.{
  find_by_token_hash, session_from_record, to_level, revoke_session, revoke_all_for_user,
  update_sessions, list_active_for_user, is_valid_of, SessionWriteError,
}
use muxivo_console.Application.Sessions.{
  BrowserSessionPrincipal, ResolverSettings, resolve_session, resolve_found, touch, is_usable_token,
  last_seen_requires_update, principal_of, check_recent,
}
use muxivo_console.Application.Sessions.Resolution.{IsUsable, resolve_session_iff, check_recent_iff}
use muxivo_console.Application.Sessions.Revocation.{
  SessionWrite, run_sessions, revoked_for_good, revoke_all_for_user_lem,
}
use muxivo_console.Tests.Fixtures.{base, event}

abbrev digest_text : Text
digest_text = codes "7777777777777777777777777777777777777777777777777777777777777777"

abbrev hash : Text → Text
hash token = digest_text

abbrev token : Text
token = codes "opaque"

abbrev settings : ResolverSettings
settings = record { has_updater = true; last_seen_update_interval = 300 }

abbrev principal : BrowserSessionPrincipal
principal = record {
  user_id = 11;
  session_id = 70;
  assurance_level = SessionAssuranceLevel.password;
  authenticated_at = some 50;
}

-- All that a resolution calls.
ResolveOpen : Type 0
unfolding resolve_session resolve_found touch is_usable_token last_seen_requires_update is_active_at
    find_by_token_hash session_from_record to_level auth_session get_status to_user_status is_space
    revoke_session revoke_all_for_user update_sessions
ResolveOpen = Unit

token_resolves : (resolve_session hash settings 1000 token base).0 ≡ ok (some principal)
unfolding ResolveOpen
token_resolves = refl

resolve_session_iff_example :
    ((resolve_session hash settings 1000 token base).0 ≡ ok (some principal)) ↔ (
      (is_usable_token token ≡ true)
      × ((s : AuthSession) × (find_by_token_hash (hash token) base ≡ some s)
          × IsUsable 1000 s base
          × (principal ≡ principal_of s)))
resolve_session_iff_example =
    resolve_session_iff settings 1000 base (λ e. omega (arith, e)) hash token principal

check_recent_iff_example : (check_recent 1000 900 principal ≡ true) ↔ (
    (principal.assurance_level ≡ SessionAssuranceLevel.recent_authentication)
    × ((t : ℕ) × (principal.authenticated_at ≡ some t) × (t ≤ 1000) × (1000 ≤ t + 900)))
check_recent_iff_example = check_recent_iff 1000 900 principal

abbrev the_row : SessionRow
the_row = record {
  id = 70;
  user_id = 11;
  token_hash = digest_text;
  expires_at = 9000;
  revoked_at = none;
  assurance_level = "password";
  ip_hash = none;
  user_agent_hash = none;
  last_seen_at = some 100;
  created_at = 50;
}

revoked : (revoke_session 70 11 2000 event base).0 ≢ err SessionWriteError.integrity
unfolding ResolveOpen
revoked e = cc

abbrev later : List SessionWrite
later =
    SessionWrite.reauthenticate_one 70 11 2100 (record event { id = 95 })
    ∷ SessionWrite.touch_one 70 11 2200
    ∷ SessionWrite.recover (codes "other") (codes "$argon2id$new") 2250 96 97
    ∷ SessionWrite.delete_old 2300
    ∷ []

revoked_for_good_example :
    let db' = run_sessions later (revoke_session 70 11 2000 event base).1 in
    resolve_session hash settings 2500 token db' ≡ (ok none, db')
revoked_for_good_example =
    revoked_for_good hash settings 2500 token the_row 2000 event later base refl (omega arith)
      revoked tt

one_revoked : (revoke_all_for_user 11 2000 event base).0 ≡ ok 1
unfolding ResolveOpen
one_revoked = refl

revoke_all_for_user_lem_example :
    (1 ≡ count (is_valid_of 11 2000) base.sessions)
    × (list_active_for_user 11 2500 (revoke_all_for_user 11 2000 event base).1 ≡ [])
revoke_all_for_user_lem_example =
    revoke_all_for_user_lem 11 2000 2500 event base (omega arith) one_revoked
