-- ===== src/Application/Sessions.antt =====
-- application/resolve_browser_session_use_case.py, browser_session_principal.py and
-- require_recent_authentication_use_case.py: who a browser's token stands for, and whether the
-- authentication is recent. Logging is left out.
pub mod Resolution
pub mod Revocation
use muxivo_console.Shared.{
  ℕ, ◌+◌, Bool, true, false, not, ◌&&◌, ◌||◌, Option, none, some, Text, any, length, is_empty,
  is_space, ltb, leb, ◌==◌, Result, ok, err, if◌then◌else◌,
}
use muxivo_console.Domain.Activity.{Uuid}
use muxivo_console.Domain.Sessions.{AuthSession, SessionAssuranceLevel, is_active_at, is_recent}
use muxivo_console.Persistence.Database.{Database}
use muxivo_console.Persistence.Members.{get_status}
use muxivo_console.Persistence.Sessions.{find_by_token_hash, touch_last_seen}
use muxivo_console.Application.Members.{is_active}

pub record BrowserSessionPrincipal : Type 0 where
  pub user_id : Uuid
  pub session_id : Uuid
  pub assurance_level : SessionAssuranceLevel
  pub authenticated_at : Option ℕ

-- `_is_usable_token`
unfoldable pub is_usable_token : Text → Bool
is_usable_token token =
    if is_empty token || ltb 4096 (length token) then false else not (any is_space token)

pub data ResolveError : Type 0 where
  interval_not_positive : ResolveError

-- The updater, if there is one, and the least time between its updates.
pub record ResolverSettings : Type 0 where
  pub has_updater : Bool
  pub last_seen_update_interval : ℕ

-- `_last_seen_requires_update`, for an interval that is positive.
unfoldable pub last_seen_requires_update : Option ℕ → ℕ → ℕ → Bool
last_seen_requires_update none now interval = true
last_seen_requires_update (some seen) now interval = leb (seen + interval) now

-- `_touch_last_seen`, which ignores whether the update was made.
unfoldable pub touch :
    ResolverSettings → AuthSession → ℕ → Database → Result ResolveError (Unit {0}) × Database
touch settings s now db =
    if not settings.has_updater
    then (ok tt, db)
    else if settings.last_seen_update_interval == 0
    then (err ResolveError.interval_not_positive, db)
    else if not (last_seen_requires_update s.last_seen_at now settings.last_seen_update_interval)
    then (ok tt, db)
    else (ok tt, (touch_last_seen s.id s.user_id now db).1)

abbrev pub principal_of : AuthSession → BrowserSessionPrincipal
principal_of s = record {
  user_id = s.user_id;
  session_id = s.id;
  assurance_level = s.assurance_level;
  authenticated_at = s.authenticated_at;
}

abbrev pub Resolved : Type 0
Resolved = Result ResolveError (Option BrowserSessionPrincipal) × Database

-- The part of `ResolveBrowserSession.execute` from a session that was found on.
unfoldable pub resolve_found : ResolverSettings → ℕ → AuthSession → Database → Resolved
resolve_found settings now s db =
    if not (is_active_at s now)
    then (ok none, db)
    else if not (is_active (get_status s.user_id db))
    then (ok none, db)
    else let (touched, db') = touch settings s now db in
      elim touched as (λ x. Resolved) [
        | err e ↦ (err e, db')
        | ok _ ↦ (ok (some (principal_of s)), db')
      ]

-- `ResolveBrowserSession.execute`, over the keyed hash of the libraries.
unfoldable pub resolve_session : (Text → Text) → ResolverSettings → ℕ → Text → Database → Resolved
resolve_session hash settings now raw_token db =
    if not (is_usable_token raw_token)
    then (ok none, db)
    else elim (find_by_token_hash (hash raw_token) db) [
      | none ↦ (ok none, db)
      | some s ↦ resolve_found settings now s db
    ]

-- `RequireRecentAuthentication.check`: whether it lets the principal pass.
unfoldable pub check_recent : ℕ → ℕ → BrowserSessionPrincipal → Bool
check_recent now maximum_age p = elim p.authenticated_at [
  | none ↦ false
  | some t ↦ is_recent p.assurance_level && not (ltb now t) && not (ltb (t + maximum_age) now)
]
