-- ===== src/Application/Browser.antt =====
-- application/create_browser_session_use_case.py, reauthenticate_browser_session_use_case.py,
-- revoke_browser_session.py, revoke_all_browser_sessions_use_case.py and
-- list_browser_sessions_use_case.py. Logging is left out.
pub mod Creation
use muxivo_console.Shared.{
  ℕ, ◌+◌, Bool, true, false, not, Option, none, some, List, [], map, Text, strip, is_empty, ltb,
  ◌==◌, Result, ok, err, if◌then◌else◌, String,
}
use muxivo_console.Domain.Activity.{Uuid}
use muxivo_console.Domain.Audit.{AuditEvent}
use muxivo_console.Domain.Identity.{PasswordCredential}
use muxivo_console.Domain.Sessions.{AuthSession, SessionAssuranceLevel, SessionError, auth_session}
use muxivo_console.Persistence.Database.{Database}
use muxivo_console.Persistence.Members.{get_status}
use muxivo_console.Persistence.Identities.{find_credential}
use muxivo_console.Persistence.Sessions.{
  SessionWriteError, create_session, revoke_session, revoke_all_for_user, reauthenticate,
  list_active_for_user,
}
use muxivo_console.Application.Identifiers.{Supply}
use muxivo_console.Application.Libraries.{Libraries, Tokens}
use muxivo_console.Application.Members.{is_active}
use muxivo_console.Application.Sessions.{BrowserSessionPrincipal, check_recent}

-- The rejections of the use cases, and the errors that are not caught.
pub data BrowserError : Type 0 where
  creation_rejected reauthentication_rejected not_revoked recent_authentication_required
        none_revoked listing_rejected integrity :
      BrowserError
  invalid_session : SessionError → BrowserError

pub record CreateSessionCommand : Type 0 where
  pub user_id : Uuid
  pub correlation_id : Uuid
  pub assurance_level : SessionAssuranceLevel
  pub client_ip : Option Text
  pub user_agent : Option Text

pub record IssuedBrowserSession : Type 0 where
  pub id : Uuid
  pub raw_token : Text
  pub raw_csrf_token : Text
  pub expires_at : ℕ
  pub assurance_level : SessionAssuranceLevel

abbrev pub or_empty : Option Text → Text
or_empty none = []
or_empty (some s) = s

-- `_fingerprint_ip` and `_fingerprint_user_agent`, over the hash of each.
abbrev pub fingerprint : (Text → Text) → Option Text → Option Text
fingerprint hash value =
    let stripped = strip (or_empty value) in
    if is_empty stripped then none else some (hash stripped)

abbrev pub session_event : Uuid → Uuid → Uuid → String → Uuid → AuditEvent
session_event new_id correlation user action session = record {
  id = new_id;
  correlation_id = correlation;
  actor_id = some user;
  organization_id = none;
  action = action;
  resource_type = "auth_session";
  resource_id = some session;
  result = "succeeded";
}

abbrev pub new_session : Libraries → Text → Uuid → ℕ → ℕ → CreateSessionCommand → AuthSession
new_session lib raw_token new_id now lifetime cmd = record {
  id = new_id;
  user_id = cmd.user_id;
  token_hash = lib.hash_token raw_token;
  expires_at = now + lifetime;
  assurance_level = cmd.assurance_level;
  revoked_at = none;
  authenticated_at = some now;
  last_seen_at = some now;
  ip_hash = fingerprint lib.hash_ip cmd.client_ip;
  user_agent_hash = fingerprint lib.hash_agent cmd.user_agent;
}

abbrev pub issued : Text → Text → AuthSession → IssuedBrowserSession
issued raw_token raw_csrf_token s = record {
  id = s.id;
  raw_token = raw_token;
  raw_csrf_token = raw_csrf_token;
  expires_at = s.expires_at;
  assurance_level = s.assurance_level;
}

-- The part of `CreateBrowserSession.execute` from the construction of the session on.
unfoldable pub store_session :
    Libraries
    → Supply
    → Tokens
    → ℕ
    → ℕ
    → CreateSessionCommand
    → Database
    → Result BrowserError IssuedBrowserSession × Database
store_session lib ids tokens now lifetime cmd db =
    elim (auth_session (new_session lib (tokens 0) (ids 0) now lifetime cmd)) [
      | err e ↦ (err (BrowserError.invalid_session e), db)
      | ok s ↦
          let event =
            session_event (ids 1) cmd.correlation_id cmd.user_id "auth.session_created" s.id in
          let (created, db') = create_session now s event db in
          (
            if created
                then ok (issued (tokens 0) (tokens 1) s)
                else err BrowserError.creation_rejected,
            db',
          )
    ]

-- `CreateBrowserSession.execute`
unfoldable pub create_browser_session :
    Libraries
    → Supply
    → Tokens
    → ℕ
    → ℕ
    → CreateSessionCommand
    → Database
    → Result BrowserError IssuedBrowserSession × Database
create_browser_session lib ids tokens now lifetime cmd db =
    if not (is_active (get_status cmd.user_id db))
    then (err BrowserError.creation_rejected, db)
    else store_session lib ids tokens now lifetime cmd db

pub record ReauthenticateCommand : Type 0 where
  pub principal : BrowserSessionPrincipal
  pub current_password : Text
  pub correlation_id : Uuid

abbrev pub done_or : BrowserError → Result SessionWriteError Bool → Result BrowserError (Unit {0})
done_or e (ok true) = ok tt
done_or e (ok false) = err e
done_or e (err SessionWriteError.integrity) = err BrowserError.integrity

-- The part of `ReauthenticateBrowserSession.execute` from the credential on.
unfoldable pub reauthenticate_with :
    Libraries
    → Supply
    → ℕ
    → ReauthenticateCommand
    → PasswordCredential
    → Database
    → Result BrowserError (Unit {0}) × Database
reauthenticate_with lib ids now cmd c db =
    let p = cmd.principal in
    if not (lib.verify_password c.password_hash cmd.current_password)
    then (err BrowserError.reauthentication_rejected, db)
    else let (made, db') =
        reauthenticate p.session_id p.user_id now
          (session_event (ids 0) cmd.correlation_id p.user_id "auth.session_reauthenticated"
            p.session_id)
          db in
      (done_or BrowserError.reauthentication_rejected made, db')

-- `ReauthenticateBrowserSession.execute`
unfoldable pub reauthenticate_browser_session :
    Libraries
    → Supply
    → ℕ
    → ReauthenticateCommand
    → Database
    → Result BrowserError (Unit {0}) × Database
reauthenticate_browser_session lib ids now cmd db =
    if not (is_active (get_status cmd.principal.user_id db))
    then (err BrowserError.reauthentication_rejected, db)
    else elim (find_credential cmd.principal.user_id db) [
      | none ↦ (err BrowserError.reauthentication_rejected, db)
      | some c ↦ reauthenticate_with lib ids now cmd c db
    ]

-- `RevokeBrowserSession.execute`
unfoldable pub revoke_browser_session :
    Supply → ℕ → Uuid → Uuid → Uuid → Database → Result BrowserError (Unit {0}) × Database
revoke_browser_session ids now user session correlation db =
    let (revoked, db') =
      revoke_session session user now
        (session_event (ids 0) correlation user "auth.session_revoked" session) db in
    (done_or BrowserError.not_revoked revoked, db')

abbrev pub counted_or : Result SessionWriteError ℕ → Result BrowserError ℕ
counted_or (ok n) = if ltb n 1 then err BrowserError.none_revoked else ok n
counted_or (err SessionWriteError.integrity) = err BrowserError.integrity

-- `RevokeAllBrowserSessions.execute`, over the age up to which an authentication is recent.
unfoldable pub revoke_all_browser_sessions :
    Supply → ℕ → ℕ → BrowserSessionPrincipal → Uuid → Database → Result BrowserError ℕ × Database
revoke_all_browser_sessions ids now maximum_age p correlation db =
    if not (check_recent now maximum_age p)
    then (err BrowserError.recent_authentication_required, db)
    else let (revoked, db') =
        revoke_all_for_user p.user_id now
          (session_event (ids 0) correlation p.user_id "auth.sessions_revoked" p.session_id) db in
      (counted_or revoked, db')

-- A session, and whether it is the current one.
abbrev pub SecurityView : Type 0
SecurityView = AuthSession × Bool

-- `ListBrowserSessions.execute`
unfoldable pub list_browser_sessions :
    ℕ → Uuid → Uuid → Database → Result BrowserError (List SecurityView)
list_browser_sessions now actor current_session db =
    if not (is_active (get_status actor db))
    then err BrowserError.listing_rejected
    else ok (map (λ s. (s, s.id == current_session)) (list_active_for_user actor now db))
