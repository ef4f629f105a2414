-- ===== src/Application/Passwords.antt =====
-- application/change_email_password_use_case.py and authenticate_email_password_use_case.py: the
-- change of a password, and the login with one. Logging is left out, and so is the hash that is
-- computed for an account that is not there.
pub mod Recovery
pub mod Outcomes
use muxivo_console.Shared.{
  ℕ, Bool, true, false, not, ◌&&◌, ◌||◌, Option, none, some, Text, text_eq, length, leb, Result, ok,
  err, if◌then◌else◌,
}
use muxivo_console.Domain.Activity.{Uuid}
use muxivo_console.Domain.Audit.{AuditEvent}
use muxivo_console.Domain.Identity.{UserStatus, PasswordCredential, EmailPasswordAccount}
use muxivo_console.Domain.Sessions.{SessionAssuranceLevel}
use muxivo_console.Persistence.Database.{Database}
use muxivo_console.Persistence.Members.{get_status}
use muxivo_console.Persistence.Identities.{find_credential, find_by_email_lookup_hash}
use muxivo_console.Persistence.Identities.Writes.{change_password}
use muxivo_console.Application.Identifiers.{Supply}
use muxivo_console.Application.Libraries.{Libraries, Tokens}
use muxivo_console.Application.Members.{is_active}
use muxivo_console.Application.Sessions.{BrowserSessionPrincipal, check_recent}
use muxivo_console.Application.Browser.{
  BrowserError, IssuedBrowserSession, CreateSessionCommand, create_browser_session,
}

-- `PasswordChangeRejectedError`, by the check that raises it.
pub data PasswordRejection : Type 0 where
  recent_authentication_required inactive_user invalid_password no_credential wrong_password
        same_password conflict :
      PasswordRejection

pub record ChangePasswordCommand : Type 0 where
  pub principal : BrowserSessionPrincipal
  pub current_password : Text
  pub new_password : Text
  pub correlation_id : Uuid

-- `_is_valid_new_password`, and `_is_valid_password` of the recovery.
abbrev pub is_valid_password : Text → Bool
is_valid_password p = leb 12 (length p) && leb (length p) 1024

abbrev pub password_changed : Uuid → Uuid → Uuid → AuditEvent
password_changed new_id correlation u = record {
  id = new_id;
  correlation_id = correlation;
  actor_id = some u;
  organization_id = none;
  action = "auth.password_changed";
  resource_type = "user";
  resource_id = some u;
  result = "succeeded";
}

abbrev pub PasswordResult : Type 0
PasswordResult = Result PasswordRejection (Unit {0}) × Database

-- The part of `ChangeEmailPassword.execute` from the credential on.
unfoldable pub change_with :
    Libraries → Supply → ℕ → ChangePasswordCommand → PasswordCredential → Database → PasswordResult
change_with lib ids now cmd c db =
    let u = cmd.principal.user_id in
    if not (lib.verify_password c.password_hash cmd.current_password)
    then (err PasswordRejection.wrong_password, db)
    else if text_eq cmd.current_password cmd.new_password
    then (err PasswordRejection.same_password, db)
    else let (changed, db') =
        change_password u (lib.hash_password cmd.new_password) now
          (password_changed (ids 0) cmd.correlation_id u) db in
      (if changed then ok tt else err PasswordRejection.conflict, db')

-- `ChangeEmailPassword.execute`
unfoldable pub change_email_password :
    Libraries → Supply → ℕ → ℕ → ChangePasswordCommand → Database → PasswordResult
change_email_password lib ids now maximum_age cmd db =
    let u = cmd.principal.user_id in
    if not (check_recent now maximum_age cmd.principal)
    then (err PasswordRejection.recent_authentication_required, db)
    else if not (is_active (get_status u db))
    then (err PasswordRejection.inactive_user, db)
    else if not (is_valid_password cmd.new_password)
    then (err PasswordRejection.invalid_password, db)
    else elim (find_credential u db) [
      | none ↦ (err PasswordRejection.no_credential, db)
      | some c ↦ change_with lib ids now cmd c db
    ]

-- `AuthenticationRejectedError`, by its cause, and the errors of a session that are not caught.
pub data AuthenticationError : Type 0 where
  invalid_email unknown_account wrong_credentials session_rejected : AuthenticationError
  uncaught : BrowserError → AuthenticationError

pub record AuthenticateCommand : Type 0 where
  pub email : Text
  pub password : Text
  pub correlation_id : Uuid
  pub client_ip : Option Text
  pub user_agent : Option Text

abbrev pub authenticated_command : Uuid → AuthenticateCommand → CreateSessionCommand
authenticated_command u cmd = record {
  user_id = u;
  correlation_id = cmd.correlation_id;
  assurance_level = SessionAssuranceLevel.recent_authentication;
  client_ip = cmd.client_ip;
  user_agent = cmd.user_agent;
}

abbrev pub AuthenticationResult : Type 0
AuthenticationResult = Result AuthenticationError IssuedBrowserSession × Database

-- `except SessionCreationRejectedError`
abbrev pub caught_creation : BrowserError → AuthenticationError
caught_creation BrowserError.creation_rejected = AuthenticationError.session_rejected
caught_creation e = AuthenticationError.uncaught e

abbrev pub authenticated_or :
    Result BrowserError IssuedBrowserSession × Database → AuthenticationResult
authenticated_or (ok s, db) = (ok s, db)
authenticated_or (err e, db) = (err (caught_creation e), db)

-- The part of `AuthenticateEmailPassword.execute` from the account on.
unfoldable pub authenticate_account :
    Libraries
    → Supply
    → Tokens
    → ℕ
    → ℕ
    → AuthenticateCommand
    → EmailPasswordAccount
    → Database
    → AuthenticationResult
authenticate_account lib ids tokens now lifetime cmd account db =
    if not (lib.verify_password account.password_hash cmd.password)
      || not (is_active (some account.status))
    then (err AuthenticationError.wrong_credentials, db)
    else authenticated_or (
        create_browser_session lib ids tokens now lifetime
          (authenticated_command account.user_id cmd) db)

-- `AuthenticateEmailPassword.execute`
unfoldable pub authenticate_email_password :
    Libraries → Supply → Tokens → ℕ → ℕ → AuthenticateCommand → Database → AuthenticationResult
authenticate_email_password lib ids tokens now lifetime cmd db =
    elim (lib.normalize_email cmd.email) [
      | none ↦ (err AuthenticationError.invalid_email, db)
      | some email ↦ elim (find_by_email_lookup_hash (lib.hash_email email) db) [
        | none ↦ (err AuthenticationError.unknown_account, db)
        | some account ↦ authenticate_account lib ids tokens now lifetime cmd account db
      ]
    ]
