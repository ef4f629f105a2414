-- ===== src/Application/Passwords/Recovery.antt =====
-- application/request_password_recovery_use_case.py and complete_password_recovery_use_case.py,
-- over any store of tokens. Whether the mail goes out is a parameter; logging is left out.
use muxivo_console.Shared.{
  ℕ, ◌+◌, ℤ, pos, Bool, true, false, not, ◌||◌, Option, none, some, Text, ◌++◌, codes, Result, ok,
  err, if◌then◌else◌,
}
use muxivo_console.Domain.Activity.{Uuid}
use muxivo_console.Domain.Audit.{AuditEvent}
use muxivo_console.Domain.Identity.{
  EmailPasswordAccount, PasswordRecoveryTransaction, IdentityError, password_recovery_transaction,
}
use muxivo_console.Persistence.Database.{Database}
use muxivo_console.Persistence.Identities.{find_by_email_lookup_hash}
use muxivo_console.Persistence.Transactions.{create_recovery}
use muxivo_console.Persistence.Recovery.{RecipientError, complete_recovery, find_primary_email}
use muxivo_console.Application.Identifiers.{Supply}
use muxivo_console.Application.Libraries.{Libraries, Tokens}
use muxivo_console.Application.TokenStore.{OneTimeTokenStore, ConnectionError}
use muxivo_console.Application.Members.{is_active}
use muxivo_console.Application.Sessions.{is_usable_token}
use muxivo_console.Application.Passwords.{is_valid_password}

-- What is raised: the rejection of a completion, by its check, a store that cannot be reached, and
-- the errors that are not caught.
pub data RecoveryError : Type 0 where
  unusable_token invalid_password unknown_reference rejected store_unreachable : RecoveryError
  invalid_transaction : IdentityError → RecoveryError
  recipient_error : RecipientError → RecoveryError

abbrev pub recovery_key : Text → Text
recovery_key token_hash = codes "muxivo-console:password-recovery:" ++ token_hash

-- `timedelta(minutes=30)` in microseconds and, as `_lifetime_seconds`, in seconds.
abbrev pub recovery_lifetime : ℕ
recovery_lifetime = 1800000000

abbrev pub recovery_seconds : ℤ
recovery_seconds = pos 1800

abbrev pub new_recovery : Libraries → Uuid → Text → ℕ → Uuid → PasswordRecoveryTransaction
new_recovery lib new_id raw_token now u = record {
  id = new_id;
  user_id = u;
  token_hash = lib.hash_token raw_token;
  expires_at = now + recovery_lifetime;
  consumed_at = none;
}

abbrev pub requested_event : Uuid → Uuid → Uuid → AuditEvent
requested_event new_id correlation u = record {
  id = new_id;
  correlation_id = correlation;
  actor_id = some u;
  organization_id = none;
  action = "auth.password_recovery_requested";
  resource_type = "user";
  resource_id = some u;
  result = "succeeded";
}

module _ {S : Type 0} (store : OneTimeTokenStore S) (lib : Libraries) (ids : Supply) where
  -- The result, with the store and the database after the call.
  abbrev pub RecoveryResult : Type 0
  RecoveryResult = Result RecoveryError (Unit {0}) × S × Database

  -- `_discard_token`, which hides the store's errors.
  abbrev pub discard_token : Text → Text → S → S
  discard_token key value s = (store.consume key value s).1

  -- The part of `RequestPasswordRecovery.execute` from the stored token on.
  unfoldable pub request_stored :
      Bool → Uuid → PasswordRecoveryTransaction → S → Database → RecoveryResult
  request_stored delivered correlation t s db =
      let key = recovery_key t.token_hash in
      let (created, db') = create_recovery t (requested_event (ids 1) correlation t.user_id) db in
      if not created || not delivered
      then (ok tt, discard_token key (lib.uuid_text t.id) s, db')
      else (ok tt, s, db')

  -- What is done with the answer of the store's `put`.
  unfoldable pub request_put :
      Bool
      → Uuid
      → PasswordRecoveryTransaction
      → Result ConnectionError Bool
      → S
      → Database
      → RecoveryResult
  request_put delivered correlation t (err e) s db = (err RecoveryError.store_unreachable, s, db)
  request_put delivered correlation t (ok false) s db = (ok tt, s, db)
  request_put delivered correlation t (ok true) s db = request_stored delivered correlation t s db

  -- The part from the account on.
  unfoldable pub request_for :
      Tokens → ℕ → Bool → Uuid → EmailPasswordAccount → S → Database → RecoveryResult
  request_for tokens now delivered correlation account s db =
      if not (is_active (some account.status))
      then (ok tt, s, db)
      else elim (password_recovery_transaction
          (new_recovery lib (ids 0) (tokens 0) now account.user_id)) [
            | err e ↦ (err (RecoveryError.invalid_transaction e), s, db)
            | ok t ↦
                let (stored, s') =
                  store.put (recovery_key t.token_hash) (lib.uuid_text t.id) recovery_seconds s in
                request_put delivered correlation t stored s' db
          ]

  -- `RequestPasswordRecovery.execute`
  unfoldable pub request_password_recovery :
      Tokens → ℕ → Bool → Uuid → Text → S → Database → RecoveryResult
  request_password_recovery tokens now delivered correlation email s db =
      elim (lib.normalize_email email) [
        | none ↦ (ok tt, s, db)
        | some normalized ↦ elim (find_by_email_lookup_hash (lib.hash_email normalized) db) [
          | none ↦ (ok tt, s, db)
          | some account ↦ request_for tokens now delivered correlation account s db
        ]
      ]

  abbrev pub recipient_or : Result RecipientError (Option Text) → Result RecoveryError (Unit {0})
  recipient_or (ok recipient) = ok tt
  recipient_or (err e) = err (RecoveryError.recipient_error e)

  -- What is done with the answer of the repository: the token is consumed, whatever the store
  -- says, and the recipient is looked up.
  unfoldable pub recovery_completed : Text → Text → Option Uuid → S → Database → RecoveryResult
  recovery_completed key reference none s db = (err RecoveryError.rejected, s, db)
  recovery_completed key reference (some u) s db =
      (recipient_or (find_primary_email lib.decrypt u db), discard_token key reference s, db)

  -- The part of `CompletePasswordRecovery.execute` from the stored reference on.
  unfoldable pub complete_referenced :
      ℕ → Uuid → Text → Text → Result ConnectionError (Option Text) → S → Database → RecoveryResult
  complete_referenced now correlation token new_password (err e) s db =
      (err RecoveryError.store_unreachable, s, db)
  complete_referenced now correlation token new_password (ok none) s db =
      (err RecoveryError.unknown_reference, s, db)
  complete_referenced now correlation token new_password (ok (some reference)) s db =
      let hash = lib.hash_token token in
      let (completed, db') =
        complete_recovery hash (lib.hash_password new_password) now (ids 0) correlation db in
      if not (lib.is_uuid_text reference)
      then (err RecoveryError.unknown_reference, s, db)
      else recovery_completed (recovery_key hash) reference completed s db'

  -- `CompletePasswordRecovery.execute`
  unfoldable pub complete_password_recovery : ℕ → Uuid → Text → Text → S → Database → RecoveryResult
  complete_password_recovery now correlation token new_password s db =
      let (reference, s') = store.get (recovery_key (lib.hash_token token)) s in
      if not (is_usable_token token)
      then (err RecoveryError.unusable_token, s, db)
      else if not (is_valid_password new_password)
      then (err RecoveryError.invalid_password, s, db)
      else complete_referenced now correlation token new_password reference s' db
