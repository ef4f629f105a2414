-- ===== src/Domain/Sessions.antt =====
-- domain/sessions.py: browser sessions. Instants are numbers of microseconds; the columns and the
-- clock give timezone-aware ones alone, so the checks of `tzinfo` have no counterpart.
use muxivo_console.Shared.{
  ℕ, Bool, true, false, ◌&&◌, Option, none, some, Text, length, Result, ok, raise_unless, ltb, ◌==◌,
  is_none,
}
use muxivo_console.Domain.Activity.{Uuid}

pub data SessionAssuranceLevel : Type 0 where
  password recent_authentication : SessionAssuranceLevel

abbrev pub is_recent : SessionAssuranceLevel → Bool
is_recent SessionAssuranceLevel.recent_authentication = true
is_recent SessionAssuranceLevel.password = false

pub record AuthSession : Type 0 where
  pub id : Uuid
  pub user_id : Uuid
  pub token_hash : Text
  pub expires_at : ℕ
  pub assurance_level : SessionAssuranceLevel
  pub revoked_at : Option ℕ
  pub authenticated_at : Option ℕ
  pub last_seen_at : Option ℕ
  pub ip_hash : Option Text
  pub user_agent_hash : Option Text

pub data SessionError : Type 0 where
  invalid_token_hash invalid_ip_hash invalid_user_agent_hash : SessionError

abbrev pub is_digest : Option Text → Bool
is_digest none = true
is_digest (some h) = length h == 64

-- `AuthSession.__post_init__`
unfoldable pub auth_session : AuthSession → Result SessionError AuthSession
auth_session s = raise_unless (length s.token_hash == 64) SessionError.invalid_token_hash (
    raise_unless (is_digest s.ip_hash) SessionError.invalid_ip_hash
      (raise_unless (is_digest s.user_agent_hash) SessionError.invalid_user_agent_hash (ok s)))

unfoldable pub is_active_at : AuthSession → ℕ → Bool
is_active_at s instant = is_none s.revoked_at && ltb instant s.expires_at
