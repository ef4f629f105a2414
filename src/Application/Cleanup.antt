-- ===== src/Application/Cleanup.antt =====
-- application/cleanup_security_records_use_case.py and
-- infrastructure/persistence/security_cleanup_repository.py: the deletion of old sessions and
-- recoveries. Logging is left out. An age before the first instant deletes nothing.
pub mod Safety
use muxivo_console.Shared.{
  ℕ, ◌-◌, Bool, true, false, not, ◌||◌, Option, none, some, List, filter, count, ltb,
}
use muxivo_console.Persistence.Rows.{RecoveryTransactionRow}
use muxivo_console.Persistence.Database.{Database, SessionRow}

-- `column < before`, which is not true of a null.
abbrev pub is_earlier : Option ℕ → ℕ → Bool
is_earlier none before = false
is_earlier (some t) before = ltb t before

abbrev pub is_old_session : ℕ → SessionRow → Bool
is_old_session before r = ltb r.expires_at before || is_earlier r.revoked_at before

-- `delete_expired_or_revoked_sessions`
unfoldable pub delete_sessions : ℕ → Database → ℕ × Database
delete_sessions before db = (
  count (is_old_session before) db.sessions,
  record db { sessions = filter (λ r. not (is_old_session before r)) db.sessions },
)

abbrev pub is_old_recovery : ℕ → RecoveryTransactionRow → Bool
is_old_recovery before r = ltb r.expires_at before || is_earlier r.consumed_at before

-- `delete_consumed_or_expired_password_recovery_transactions`
unfoldable pub delete_recoveries : ℕ → Database → ℕ × Database
delete_recoveries before db = (
  count (is_old_recovery before) db.recovery_transactions,
  record db {
    recovery_transactions = filter (λ r. not (is_old_recovery before r)) db.recovery_transactions;
  },
)

pub record CleanupCommand : Type 0 where
  pub session_retention : ℕ
  pub password_recovery_retention : ℕ

pub record CleanupResult : Type 0 where
  pub deleted_sessions : ℕ
  pub deleted_password_recovery_transactions : ℕ

-- `CleanupSecurityRecords.execute`
unfoldable pub cleanup_security_records : ℕ → CleanupCommand → Database → CleanupResult × Database
cleanup_security_records now cmd db =
    let (sessions, cleaned) = delete_sessions (now - cmd.session_retention) db in
    let (recoveries, swept) = delete_recoveries (now - cmd.password_recovery_retention) cleaned in
    (
      record { deleted_sessions = sessions; deleted_password_recovery_transactions = recoveries },
      swept,
    )
