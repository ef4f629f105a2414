-- ===== src/Application/Registration/Verify.antt =====
-- application/verify_email_password_registration.py and complete_email_password_registration.py:
-- the code is checked, and the account is made. Logging is left out.
use Prim.Native.Nat.{min}
use muxivo_console.Shared.{
  ℕ, zero, suc, ◌+◌, ℤ, pos, Bool, true, false, not, ◌||◌, ◌&&◌, Option, none, some, [], Text,
  text_eq, all, length, ◌==◌, Result, ok, err, if◌then◌else◌,
}
use muxivo_console.Domain.Activity.{Uuid}
use muxivo_console.Domain.Audit.{AuditEvent}
use muxivo_console.Domain.Identity.{
  UserStatus, LoginIdentityProvider, EmailPasswordRegistration, IdentityError, is_argon2id, user,
  login_identity, user_email, password_credential, email_password_registration,
}
use muxivo_console.Persistence.Database.{Database}
use muxivo_console.Persistence.Identities.Writes.{register}
use muxivo_console.Application.Identifiers.{Supply}
use muxivo_console.Application.Libraries.{Libraries}
use muxivo_console.Application.TokenStore.{OneTimeTokenStore, ConnectionError}
use muxivo_console.Application.Sessions.{is_usable_token}
use muxivo_console.Application.Registration.{
  PendingRegistration, JsonLibrary, max_verification_attempts, with_attempts, to_json, pending_of,
}
use muxivo_console.Application.Registration.Start.{
  lifetime_seconds, is_exhausted, pending_key, code_hash,
}

-- What completes a registration.
pub record CompleteCommand : Type 0 where
  pub normalized_email : Text
  pub display_name : Text
  pub password_hash : Text
  pub correlation_id : Uuid

-- `EmailPasswordRegistrationRejectedError` and the `ValueError`s.
pub data CompleteError : Type 0 where
  rejected invalid_email : CompleteError
  invalid_entity : IdentityError → CompleteError

abbrev pub new_account : Libraries → Supply → Text → CompleteCommand → EmailPasswordRegistration
new_account lib ids email cmd = record {
  user = record { id = ids 0; status = UserStatus.active; display_name = cmd.display_name };
  identity = record {
    id = ids 1;
    user_id = ids 0;
    provider = LoginIdentityProvider.email;
    provider_subject = lib.hash_email email;
  };
  email = record {
    id = ids 2;
    user_id = ids 0;
    ciphertext = lib.encrypt email;
    lookup_hash = lib.hash_email email;
    is_primary = true;
  };
  password_credential = record { user_id = ids 0; password_hash = cmd.password_hash };
}

abbrev pub verified_event : Uuid → Uuid → Uuid → AuditEvent
verified_event new_id correlation u = record {
  id = new_id;
  correlation_id = correlation;
  actor_id = some u;
  organization_id = none;
  action = "auth.email_password_registration_verified";
  resource_type = "user";
  resource_id = some u;
  result = "succeeded";
}

-- The constructions of the entities, in order, as one.
abbrev pub and_ok :
    {A B : Type 0} → Result IdentityError A → Result IdentityError B → Result IdentityError B
and_ok (ok a) r = r
and_ok (err e) r = err e

abbrev pub constructed_account :
    EmailPasswordRegistration → Result IdentityError EmailPasswordRegistration
constructed_account r = and_ok (user r.user) (
    and_ok (login_identity r.identity) (
      and_ok (user_email r.email)
        (and_ok (password_credential r.password_credential) (email_password_registration r))))

-- The part of `CompleteEmailPasswordRegistration.execute` from the construction on.
unfoldable pub register_account :
    Supply → ℕ → Uuid → EmailPasswordRegistration → Database → Result CompleteError Uuid × Database
register_account ids now correlation r db = elim (constructed_account r) [
  | err e ↦ (err (CompleteError.invalid_entity e), db)
  | ok q ↦
      let (created, db') = register now q (verified_event (ids 3) correlation q.user.id) db in
      (if created then ok q.user.id else err CompleteError.rejected, db')
]

-- `CompleteEmailPasswordRegistration.execute`, at the instant that the database writes.
unfoldable pub complete_registration :
    Libraries → Supply → ℕ → CompleteCommand → Database → Result CompleteError Uuid × Database
complete_registration lib ids now cmd db = elim (lib.normalize_email cmd.normalized_email) [
  | none ↦ (err CompleteError.invalid_email, db)
  | some email ↦
      if not (is_argon2id cmd.password_hash)
      then (err CompleteError.rejected, db)
      else register_account ids now cmd.correlation_id (new_account lib ids email cmd) db
]

-- `EmailPasswordRegistrationVerificationRejectedError`, and the store's `ConnectionError`.
pub data VerifyError : Type 0 where
  rejected store_unreachable : VerifyError

pub record VerifyCommand : Type 0 where
  pub token : Text
  pub code : Text
  pub correlation_id : Uuid

-- `min(max_attempts, attempts + 1)`
abbrev pub next_attempts : ℤ → ℤ
next_attempts (pos n) = pos (min max_verification_attempts (n + 1))
next_attempts (ℤ.negsuc zero) = pos 0
next_attempts (ℤ.negsuc (suc n)) = ℤ.negsuc n

module _ {S : Type 0} (store : OneTimeTokenStore S) (lib : Libraries) (json : JsonLibrary)
    (ids : Supply) (now : ℕ) where
  abbrev pub VerifyResult : Type 0
  VerifyResult = Result VerifyError (Unit {0}) × S × Database

  -- `re.fullmatch(r"\d{6}", code)`
  abbrev pub is_code : Text → Bool
  is_code code = length code == 6 && all lib.is_decimal_digit code

  abbrev pub verified_or : Result CompleteError Uuid → Result VerifyError (Unit {0})
  verified_or (ok u) = ok tt
  verified_or (err e) = err VerifyError.rejected

  abbrev pub complete_command : Text → VerifyCommand → PendingRegistration → CompleteCommand
  complete_command email cmd p = record {
    normalized_email = email;
    display_name = p.display_name;
    password_hash = p.password_hash;
    correlation_id = cmd.correlation_id;
  }

  -- The part of `execute` from the consumption on.
  unfoldable pub verify_consumed :
      VerifyCommand
      → PendingRegistration
      → Result ConnectionError Bool × S
      → Database
      → VerifyResult
  verify_consumed cmd p (err e, s) db = (err VerifyError.store_unreachable, s, db)
  verify_consumed cmd p (ok false, s) db = (err VerifyError.rejected, s, db)
  verify_consumed cmd p (ok true, s) db = elim (lib.decrypt p.email_ciphertext) [
    | none ↦ (err VerifyError.rejected, s, db)
    | some email ↦
        let (completed, db') =
          complete_registration lib ids now (complete_command email cmd p) db in
        (verified_or completed, s, db')
  ]

  -- The wrong code: the attempt is counted, whatever the store answers.
  abbrev pub count_attempt : Text → PendingRegistration → S → Result ConnectionError Bool × S
  count_attempt token p s =
      store.replace (pending_key store lib json token)
        (to_json lib json (with_attempts (next_attempts p.attempts) p)) lifetime_seconds s

  abbrev pub attempt_counted : Result ConnectionError Bool × S → Database → VerifyResult
  attempt_counted (err e, s) db = (err VerifyError.store_unreachable, s, db)
  attempt_counted (ok b, s) db = (err VerifyError.rejected, s, db)

  -- The part from the waiting registration on; `value` is the text that the store holds.
  unfoldable pub verify_found :
      VerifyCommand → Text → Option PendingRegistration → S → Database → VerifyResult
  verify_found cmd value none s db = (err VerifyError.rejected, s, db)
  verify_found cmd value (some p) s db =
      if is_exhausted max_verification_attempts p.attempts
      then (err VerifyError.rejected, s, db)
      else if not (text_eq (code_hash store lib json cmd.token cmd.code) p.verification_code_hash)
      then attempt_counted (count_attempt cmd.token p s) db
      else verify_consumed cmd p (store.consume (pending_key store lib json cmd.token) value s) db

  abbrev pub or_empty : Option Text → Text
  or_empty none = []
  or_empty (some s) = s

  unfoldable pub verify_got :
      VerifyCommand → Result ConnectionError (Option Text) × S → Database → VerifyResult
  verify_got cmd (err e, s) db = (err VerifyError.store_unreachable, s, db)
  verify_got cmd (ok value, s) db =
      verify_found cmd (or_empty value) (pending_of lib json value) s db

  -- `VerifyEmailPasswordRegistration.execute`
  unfoldable pub verify_registration : VerifyCommand → S → Database → VerifyResult
  verify_registration cmd s db =
      if not (is_usable_token cmd.token) || not (is_code cmd.code)
      then (err VerifyError.rejected, s, db)
      else verify_got cmd (store.get (pending_key store lib json cmd.token) s) db
