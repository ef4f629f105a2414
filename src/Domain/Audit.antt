-- ===== src/Domain/Audit.antt =====
-- domain/audit.py: the audit facts that accompany every write.
use muxivo_console.Shared.{ℕ, ◌||◌, not, Option, String, Result, raise_unless, ok}
use muxivo_console.Domain.Activity.{Uuid}
use text.Mathlib.Text.{◌==◌ as str_eq}

-- `resource_id` is always `str` of a UUID, and is kept as that UUID.
pub record AuditEvent : Type 0 where
  pub id : Uuid
  pub correlation_id : Uuid
  pub actor_id : Option Uuid
  pub organization_id : Option Uuid
  pub action : String
  pub resource_type : String
  pub resource_id : Option Uuid
  pub result : String

pub data AuditError : Type 0 where
  missing_field : AuditError

-- `AuditEvent.__post_init__`
unfoldable pub audit_event : AuditEvent → Result AuditError AuditEvent
audit_event e =
    raise_unless (not (str_eq e.action "" || str_eq e.resource_type "" || str_eq e.result ""))
      AuditError.missing_field (ok e)

-- What of an event is shown; the instant, in microseconds, is timezone-aware as the column is.
pub record AuditLogEntry : Type 0 where
  pub id : Uuid
  pub correlation_id : Uuid
  pub actor_id : Option Uuid
  pub action : String
  pub resource_type : String
  pub resource_id : Option Uuid
  pub result : String
  pub created_at : ℕ

-- `AuditLogEntry.__post_init__`
unfoldable pub audit_log_entry : AuditLogEntry → Result AuditError AuditLogEntry
audit_log_entry e =
    raise_unless (not (str_eq e.action "" || str_eq e.resource_type "" || str_eq e.result ""))
      AuditError.missing_field (ok e)
