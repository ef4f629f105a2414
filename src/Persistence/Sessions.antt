-- ===== src/Persistence/Sessions.antt =====
-- infrastructure/persistence/session_repository.py and session_last_seen_repository.py: browser
-- sessions. Each method is one transaction; a constraint violated by the audit event of an update
-- raises, and rolls the update back.
pub mod Updates
use muxivo_console.Shared.{
  ℕ, Bool, true, false, not, ◌&&◌, ◌||◌, Option, none, some, List, [], ◌∷◌, filter, find, count,
  Text, text_eq, String, ltb, ◌==◌, Result, ok, err, if◌then◌else◌, is_none,
}
use text.Mathlib.Text.{◌==◌ as str_eq}
use muxivo_console.Domain.Activity.{Uuid}
use muxivo_console.Domain.Audit.{AuditEvent}
use muxivo_console.Domain.Sessions.{AuthSession, SessionAssuranceLevel, auth_session}
use muxivo_console.Persistence.Database.{
  Database, SessionRow, update_where, audit_fits, session_fits,
}
use muxivo_console.Persistence.Connections.{and_then, no_error}

abbrev pub level_value : SessionAssuranceLevel → String
level_value SessionAssuranceLevel.password = "password"
level_value SessionAssuranceLevel.recent_authentication = "recent_authentication"

unfoldable pub to_level : String → Option SessionAssuranceLevel
to_level s =
    if str_eq s "password"
    then some SessionAssuranceLevel.password
    else if str_eq s "recent_authentication"
    then some SessionAssuranceLevel.recent_authentication
    else none

-- `_session_from_record`, where a ValueError gives no session.
unfoldable pub session_from_record : SessionRow → Option AuthSession
session_from_record r = elim (to_level r.assurance_level) [
  | none ↦ none
  | some level ↦ no_error (
      auth_session (record {
        id = r.id;
        user_id = r.user_id;
        token_hash = r.token_hash;
        expires_at = r.expires_at;
        assurance_level = level;
        revoked_at = r.revoked_at;
        authenticated_at = some r.created_at;
        last_seen_at = r.last_seen_at;
        ip_hash = r.ip_hash;
        user_agent_hash = r.user_agent_hash;
      }))
]

abbrev pub has_token : Text → SessionRow → Bool
has_token h r = text_eq r.token_hash h

-- `SqlAlchemyAuthSessionReader.find_by_token_hash`
unfoldable pub find_by_token_hash : Text → Database → Option AuthSession
find_by_token_hash h db = and_then (find (has_token h) db.sessions) session_from_record

-- The time of authentication, or the server's time where the session has none.
abbrev pub or_now : Option ℕ → ℕ → ℕ
or_now none now = now
or_now (some t) now = t

abbrev pub session_row : ℕ → AuthSession → SessionRow
session_row server_now s = record {
  id = s.id;
  user_id = s.user_id;
  token_hash = s.token_hash;
  expires_at = s.expires_at;
  revoked_at = s.revoked_at;
  assurance_level = level_value s.assurance_level;
  ip_hash = s.ip_hash;
  user_agent_hash = s.user_agent_hash;
  last_seen_at = s.last_seen_at;
  created_at = or_now s.authenticated_at server_now;
}

-- `SqlAlchemyAuthSessionWriter.create`
unfoldable pub create_session : ℕ → AuthSession → AuditEvent → Database → Bool × Database
create_session server_now s event db =
    if session_fits (session_row server_now s) db && audit_fits event db
    then (
      true,
      record db {
        sessions = session_row server_now s ∷ db.sessions;
        audit_events = event ∷ db.audit_events;
      },
    )
    else (false, db)

-- The order of the listing: the last seen first, those never seen at the end, then by identifier.
abbrev seen_before : Option ℕ → Option ℕ → Bool
seen_before (some s) (some t) = ltb t s
seen_before (some s) none = true
seen_before none t = false

abbrev pub comes_first : SessionRow → SessionRow → Bool
comes_first r s =
    seen_before r.last_seen_at s.last_seen_at
    || not (seen_before s.last_seen_at r.last_seen_at) && ltb r.id s.id

abbrev pub insert_seen : SessionRow → List SessionRow → List SessionRow
insert_seen r [] = r ∷ []
insert_seen r (s ∷ ss) = if comes_first s r then s ∷ insert_seen r ss else r ∷ s ∷ ss

abbrev pub order_by_seen : List SessionRow → List SessionRow
order_by_seen [] = []
order_by_seen (r ∷ rs) = insert_seen r (order_by_seen rs)

abbrev pub is_valid_of : Uuid → ℕ → SessionRow → Bool
is_valid_of user at r = r.user_id == user && is_none r.revoked_at && ltb at r.expires_at

abbrev pub sessions_from_records : List SessionRow → List AuthSession
sessions_from_records [] = []
sessions_from_records (r ∷ rs) =
    let rest = sessions_from_records rs in
    elim (session_from_record r) [ none ↦ rest | some s ↦ s ∷ rest ]

-- `list_active_for_user`
unfoldable pub list_active_for_user : Uuid → ℕ → Database → List AuthSession
list_active_for_user user active_at db =
    sessions_from_records (order_by_seen (filter (is_valid_of user active_at) db.sessions))

pub data SessionWriteError : Type 0 where
  integrity : SessionWriteError

abbrev pub revoke_row : ℕ → SessionRow → SessionRow
revoke_row at r = record r { revoked_at = some at }

abbrev pub is_unrevoked : Uuid → Uuid → SessionRow → Bool
is_unrevoked session user r = r.id == session && r.user_id == user && is_none r.revoked_at

-- An update of the selected rows and its audit event; the answer is made from the row count, which
-- has to pass the test.
unfoldable pub update_sessions :
    {A : Type 0}
    → (SessionRow → Bool)
    → (SessionRow → SessionRow)
    → (ℕ → Bool)
    → (ℕ → A)
    → A
    → AuditEvent
    → Database
    → Result SessionWriteError A × Database
update_sessions selected change passes answer refused event db =
    let n = count selected db.sessions in
    let written = record db { sessions = update_where selected change db.sessions } in
    if not (passes n)
    then (ok refused, written)
    else if audit_fits event db
    then (ok (answer n), record written { audit_events = event ∷ db.audit_events })
    else (err SessionWriteError.integrity, db)

abbrev pub is_one : ℕ → Bool
is_one n = n == 1

abbrev pub is_positive : ℕ → Bool
is_positive n = ltb 0 n

-- `SqlAlchemyAuthSessionRevoker.revoke`
unfoldable pub revoke_session :
    Uuid → Uuid → ℕ → AuditEvent → Database → Result SessionWriteError Bool × Database
unfolding update_sessions
revoke_session session user at =
    update_sessions (is_unrevoked session user) (revoke_row at) is_one (λ n. true) false

-- `SqlAlchemyAuthSessionRevoker.revoke_all_for_user`
unfoldable pub revoke_all_for_user :
    Uuid → ℕ → AuditEvent → Database → Result SessionWriteError ℕ × Database
unfolding update_sessions
revoke_all_for_user user at =
    update_sessions (is_valid_of user at) (revoke_row at) is_positive (λ n. n) 0

abbrev pub reauthenticated_row : ℕ → SessionRow → SessionRow
reauthenticated_row at r = record r {
  assurance_level = level_value SessionAssuranceLevel.recent_authentication;
  created_at = at;
  last_seen_at = some at;
}

abbrev pub is_valid : Uuid → Uuid → ℕ → SessionRow → Bool
is_valid session user at r = r.id == session && is_valid_of user at r

-- `SqlAlchemyAuthSessionReauthenticationWriter.reauthenticate`
unfoldable pub reauthenticate :
    Uuid → Uuid → ℕ → AuditEvent → Database → Result SessionWriteError Bool × Database
unfolding update_sessions
reauthenticate session user at =
    update_sessions (is_valid session user at) (reauthenticated_row at) is_one (λ n. true) false

abbrev pub seen_row : ℕ → SessionRow → SessionRow
seen_row at r = record r { last_seen_at = some at }

-- `SqlAlchemyAuthSessionLastSeenUpdater.touch_last_seen`
unfoldable pub touch_last_seen : Uuid → Uuid → ℕ → Database → Bool × Database
touch_last_seen session user at db = (
  count (is_valid session user at) db.sessions == 1,
  record db { sessions = update_where (is_valid session user at) (seen_row at) db.sessions },
)
