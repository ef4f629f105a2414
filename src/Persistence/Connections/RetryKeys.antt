-- ===== src/Persistence/Connections/RetryKeys.antt =====
-- What `update_status` leaves under a retry key, and what it does not touch.
use muxivo_console.Shared.{true, ◌≡◌, arith, Option, some, Text, String, ==_self, ok, text_eq_refl}
use muxivo_console.Domain.Activity.{Uuid}
use muxivo_console.Domain.Audit.{AuditEvent}
use muxivo_console.Domain.Connections.{PlatformConnection, platform_connection}
use muxivo_console.Persistence.Values.{to_status-value, status_value}
use muxivo_console.Persistence.Database.{Database, IdempotencyRow, is_key}
use muxivo_console.Persistence.Connections.{
  IdempotencyResult, result_from_row, update_status, find_idempotent_lifecycle_result,
  find_for_organization, write_reason,
}
use muxivo_console.Persistence.Connections.Rows.{read_reason-write, connection_from_row-valid}
use muxivo_console.Persistence.Connections.Writes.{found_row}

-- The result that a connection's write leaves under a key.
abbrev pub result_of : PlatformConnection → String → IdempotencyResult
result_of c action = record {
  organization_id = c.organization_id;
  connection_id = c.id;
  action = action;
  result_status = c.status;
  result_reason = c.status_reason;
}

abbrev retry_row : PlatformConnection → Text → String → IdempotencyRow
retry_row c key action = record {
  organization_id = c.organization_id;
  idempotency_key = key;
  connection_id = c.id;
  action = action;
  result_status = status_value c.status;
  result_reason = write_reason c.status_reason;
}

result_from_row-retry_row :
    (c : PlatformConnection) (key : Text) (action : String)
    → result_from_row (retry_row c key action) ≡ some (result_of c action)
result_from_row-retry_row c key action =
    rw (to_status-value c.status, result_from_row)
      (rw (read_reason-write c.status_reason, result_from_row))

is_key-retry_row :
    (c : PlatformConnection) (key : Text) (action : String)
    → is_key c.organization_id key (retry_row c key action) ≡ true
is_key-retry_row c key action = rw (==_self c.organization_id) (text_eq_refl key)

-- After a successful write under a key, the key's stored result is the written state.
pub update_status_stores :
    (c : PlatformConnection) (event : AuditEvent) (key : Text) (action : String) (db : Database)
    → (update_status c event (some key) (some action) db).0 ≡ true
    → find_idempotent_lifecycle_result c.organization_id key
        (update_status c event (some key) (some action) db).1
      ≡ some (result_of c action)
unfolding update_status find_idempotent_lifecycle_result
update_status_stores c event key action db h =
    ground (arith, is_key-retry_row c key action, result_from_row-retry_row c key action)

-- No write of a connection touches the members.
pub update_status_members :
    (c : PlatformConnection) (event : AuditEvent) (key : Option Text) (action : Option String)
    (db : Database)
    → ((update_status c event key action db).1.memberships ≡ db.memberships)
      × ((update_status c event key action db).1.scopes ≡ db.scopes)
unfolding update_status
update_status_members c event key action db = ground arith

-- What is found passes the checks of its constructor.
pub found_valid :
    (o c : Uuid) (db : Database) {x : PlatformConnection}
    → find_for_organization o c db ≡ some x
    → platform_connection x ≡ ok x
found_valid o c db h = let (r, e, built) = found_row o c db h in connection_from_row-valid r built
