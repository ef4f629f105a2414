-- ===== src/Application/Registration/Start.antt =====
-- application/start_email_password_registration.py: the start of a registration, and a new code for
-- one that waits. How the notifier ends is a parameter, and so is the random code; logging is left
-- out.
use muxivo_console.Shared.{
  ℕ, ℤ, pos, Bool, true, false, not, ◌||◌, Option, none, some, Text, ◌++◌, codes, is_blank, length,
  leb, ltb, Result, ok, err, if◌then◌else◌,
}
use muxivo_console.Domain.Activity.{Uuid}
use muxivo_console.Persistence.Database.{Database}
use muxivo_console.Persistence.Identities.{find_by_email_lookup_hash}
use muxivo_console.Application.Identifiers.{Supply}
use muxivo_console.Application.Libraries.{Libraries, Tokens}
use muxivo_console.Application.TokenStore.{OneTimeTokenStore, ConnectionError}
use muxivo_console.Application.Passwords.{is_valid_password}
use muxivo_console.Application.Registration.{
  PendingRegistration, PendingError, JsonLibrary, max_verification_attempts, pending_registration,
  to_json, pending_of,
}

-- `ValueError`, by the check that raises it, and `ConnectionError`.
pub data StartError : Type 0 where
  invalid_email invalid_display_name invalid_password store_unreachable delivery_failed : StartError
  invalid_pending : PendingError → StartError

pub record StartCommand : Type 0 where
  pub email : Text
  pub password : Text
  pub display_name : Text

-- How the notifier ends: it returns, it raises a `ConnectionError`, or another exception.
pub data Notice : Type 0 where
  sent unreachable failed : Notice

-- `_lifetime_seconds`: fifteen minutes.
abbrev pub lifetime_seconds : ℤ
lifetime_seconds = pos 900

-- Whether the attempts of a registration are used up.
abbrev pub is_exhausted : ℕ → ℤ → Bool
is_exhausted limit (pos n) = leb limit n
is_exhausted limit (ℤ.negsuc n) = false

module _ {S : Type 0} (store : OneTimeTokenStore S) (lib : Libraries) (json : JsonLibrary) where
  -- `_key` and `_code_hash`
  abbrev pub pending_key : Text → Text
  pending_key raw_token =
      codes "muxivo-console:registration-verification:" ++ lib.hash_token raw_token

  abbrev pub code_hash : Text → Text → Text
  code_hash raw_token code =
      lib.hash_token (codes "registration-code:" ++ (raw_token ++ (codes ":" ++ code)))

  -- The token of the result, if any, and the store after the call.
  abbrev pub StartResult : Type 0
  StartResult = Result StartError (Option Text) × S

  -- `_discard_pending`, which hides the store's errors.
  abbrev pub discard_pending : Text → Text → S → S
  discard_pending key value s = (store.consume key value s).1

  -- The part of both methods from the notifier on.
  unfoldable pub notified : Notice → Text → Text → S → StartResult
  notified Notice.sent raw_token value s = (ok (some raw_token), s)
  notified Notice.unreachable raw_token value s =
      (err StartError.delivery_failed, discard_pending (pending_key raw_token) value s)
  notified Notice.failed raw_token value s =
      (err StartError.delivery_failed, discard_pending (pending_key raw_token) value s)

  -- What is done with the answer of the store's `put` or `replace`.
  unfoldable pub kept : Notice → Text → Text → Result ConnectionError Bool × S → StartResult
  kept notice raw_token value (err e, s) = (err StartError.store_unreachable, s)
  kept notice raw_token value (ok false, s) = (ok none, s)
  kept notice raw_token value (ok true, s) = notified notice raw_token value s

  abbrev pub new_pending : Uuid → Text → Text → StartCommand → Text → PendingRegistration
  new_pending new_id raw_token code cmd email = record {
    registration_id = new_id;
    email_ciphertext = lib.encrypt email;
    email_lookup_hash = lib.hash_email email;
    password_hash = lib.hash_password cmd.password;
    display_name = cmd.display_name;
    verification_code_hash = code_hash raw_token code;
    attempts = pos 0;
  }

  -- The part of `execute` from the construction of the waiting registration on.
  unfoldable pub start_pending : Notice → Text → PendingRegistration → S → StartResult
  start_pending notice raw_token p s = elim (pending_registration p) [
    | err e ↦ (err (StartError.invalid_pending e), s)
    | ok q ↦
        kept notice raw_token (to_json lib json q)
          (store.put (pending_key raw_token) (to_json lib json q) lifetime_seconds s)
  ]

  -- `StartEmailPasswordRegistration.execute`
  unfoldable pub start_registration :
      Supply → Tokens → Text → Notice → StartCommand → S → Database → StartResult
  start_registration ids tokens code notice cmd s db = elim (lib.normalize_email cmd.email) [
    | none ↦ (err StartError.invalid_email, s)
    | some email ↦
        if is_blank cmd.display_name || ltb 64 (length cmd.display_name)
        then (err StartError.invalid_display_name, s)
        else if not (is_valid_password cmd.password)
        then (err StartError.invalid_password, s)
        else elim (find_by_email_lookup_hash (lib.hash_email email) db) [
          | some account ↦ (ok none, s)
          | none ↦ start_pending notice (tokens 0) (new_pending (ids 0) (tokens 0) code cmd email) s
        ]
  ]

  abbrev pub rotated : Text → Text → PendingRegistration → PendingRegistration
  rotated raw_token code p = record p { verification_code_hash = code_hash raw_token code }

  -- The part of `resend` from the decryption on.
  unfoldable pub resend_pending : Text → Notice → Text → PendingRegistration → S → StartResult
  resend_pending code notice raw_token p s = elim (lib.decrypt p.email_ciphertext) [
    | none ↦ (ok none, s)
    | some email ↦ elim (pending_registration (rotated raw_token code p)) [
      | err e ↦ (err (StartError.invalid_pending e), s)
      | ok q ↦
          kept notice raw_token (to_json lib json q)
            (store.replace (pending_key raw_token) (to_json lib json q) lifetime_seconds s)
    ]
  ]

  unfoldable pub resend_found : Text → Notice → Text → Option PendingRegistration → S → StartResult
  resend_found code notice raw_token none s = (ok none, s)
  resend_found code notice raw_token (some p) s =
      if is_exhausted max_verification_attempts p.attempts
      then (ok none, s)
      else resend_pending code notice raw_token p s

  unfoldable pub resend_got :
      Text → Notice → Text → Result ConnectionError (Option Text) × S → StartResult
  resend_got code notice raw_token (err e, s) = (err StartError.store_unreachable, s)
  resend_got code notice raw_token (ok value, s) =
      resend_found code notice raw_token (pending_of lib json value) s

  -- `StartEmailPasswordRegistration.resend`
  unfoldable pub resend : Text → Notice → Text → S → StartResult
  resend code notice raw_token s =
      resend_got code notice raw_token (store.get (pending_key raw_token) s)
