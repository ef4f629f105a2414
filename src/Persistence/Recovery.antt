-- ===== src/Persistence/Recovery.antt =====
-- infrastructure/persistence/password_recovery_repository.py and
-- password_recovery_recipient_reader.py: the completion of a recovery, and whom to tell.
use muxivo_console.Shared.{
  ℕ, not, ◌&&◌, Option, none, some, List, [], ◌∷◌, Text, filter, find, count, ◌==◌, Result, ok, err,
  if◌then◌else◌, is_empty,
}
use muxivo_console.Domain.Activity.{Uuid}
use muxivo_console.Persistence.Rows.{EmailRow}
use muxivo_console.Persistence.Database.{Database, update_where, audit_fits}
use muxivo_console.Persistence.Sessions.{is_valid_of, revoke_row}
use muxivo_console.Persistence.Identities.{has_credential_of}
use muxivo_console.Persistence.Identities.Writes.{changed_row}
use muxivo_console.Persistence.Transactions.{is_usable_recovery, consumed_recovery, recovered_event}

abbrev pub with_consumed : Text → ℕ → Database → Database
with_consumed token_hash at db = record db {
  recovery_transactions =
      update_where (is_usable_recovery token_hash at) (consumed_recovery at)
        db.recovery_transactions;
}

abbrev pub with_password : Uuid → Text → ℕ → Database → Database
with_password u hash at db = record db {
  credentials = update_where (has_credential_of u) (changed_row hash at) db.credentials;
}

abbrev pub with_sessions_revoked : Uuid → ℕ → Database → Database
with_sessions_revoked u at db = record db {
  sessions = update_where (is_valid_of u at) (revoke_row at) db.sessions;
}

-- The part of `complete` from the transaction's row on. A `return` within the transaction commits
-- what was written before it; an `IntegrityError` rolls everything back.
unfoldable pub complete_for :
    Uuid → Text → Text → ℕ → Uuid → Uuid → Database → Option Uuid × Database
complete_for u token_hash hash at audit_id correlation_id db =
    let consumed = with_consumed token_hash at db in
    let event = recovered_event audit_id correlation_id u in
    let changed = with_sessions_revoked u at (with_password u hash at consumed) in
    if not (count (has_credential_of u) db.credentials == 1)
    then (none, with_password u hash at consumed)
    else if audit_fits event db
    then (some u, record changed { audit_events = event ∷ db.audit_events })
    else (none, db)

-- `SqlAlchemyPasswordRecoveryRepository.complete`
unfoldable pub complete_recovery : Text → Text → ℕ → Uuid → Uuid → Database → Option Uuid × Database
complete_recovery token_hash hash at audit_id correlation_id db =
    elim (find (is_usable_recovery token_hash at) db.recovery_transactions) [
      | none ↦ (none, db)
      | some r ↦ complete_for r.user_id token_hash hash at audit_id correlation_id db
    ]

-- `MultipleResultsFound`: that a user has one primary e-mail is no constraint of the table.
pub data RecipientError : Type 0 where
  multiple_results : RecipientError

abbrev pub non_empty : Option Text → Option Text
non_empty none = none
non_empty (some e) = if is_empty e then none else some e

abbrev pub recipient_of : (Text → Option Text) → List EmailRow → Result RecipientError (Option Text)
recipient_of decrypt [] = ok none
recipient_of decrypt (e ∷ []) = ok (non_empty (decrypt e.email_ciphertext))
recipient_of decrypt (e ∷ f ∷ es) = err RecipientError.multiple_results

-- `find_primary_email`, over the cipher of the libraries, `none` where it raises.
unfoldable pub find_primary_email :
    (Text → Option Text) → Uuid → Database → Result RecipientError (Option Text)
find_primary_email decrypt u db =
    recipient_of decrypt (filter (λ e. e.user_id == u && e.is_primary) db.emails)
