-- ===== src/Persistence/Connections.antt =====
-- infrastructure/persistence/connection_repository.py: connections, their retry keys and audit
-- events. Each method is one transaction, which a violated constraint rolls back.
pub mod Flags
pub mod Rows
pub mod Writes
pub mod RetryKeys
pub mod Listing
pub mod Reconcilable
use muxivo_console.Shared.{
  ℕ, Bool, true, false, not, ◌&&◌, ◌||◌, Option, none, some, List, [], ◌∷◌, ◌++◌, map, filter, find,
  take, count, any, Text, text_eq, is_blank, String, ◌==◌, ltb, Result, ok, err, is_some,
  if◌then◌else◌,
}
use text.Mathlib.Text.{◌==◌ as str_eq}
use mathlib.Core.Option
use muxivo_console.Domain.Activity.{Uuid}
use muxivo_console.Domain.Audit.{AuditEvent}
use muxivo_console.Domain.Connections.{
  PlatformConnection, ConnectionStatus, ConnectionStatusReason, platform_connection,
}
use muxivo_console.Persistence.Values.{
  platform_value, status_value, reason_value, to_platform, to_status, to_reason,
}
use muxivo_console.Persistence.Database.{
  Json, object, other, Database, ConnectionRow, IdempotencyRow, update_where, audit_fits,
  connection_fits, idempotency_fits, is_key,
}

-- `_capability_keys_from_record`; the keys of a JSON object are strings.
abbrev pub capability_keys : Json → List Text
capability_keys other = []
capability_keys (object []) = []
capability_keys (object ((k, enabled) ∷ d)) =
    let rest = capability_keys (object d) in if not (is_blank k) && enabled then k ∷ rest else rest

-- The optional column of a reason.
abbrev pub write_reason : Option ConnectionStatusReason → Option String
write_reason none = none
write_reason (some q) = some (reason_value q)

abbrev pub read_reason : Option String → Option (Option ConnectionStatusReason)
read_reason none = some none
read_reason (some s) = Option.map some (to_reason s)

-- `except ValueError`: no value where a construction raises.
abbrev pub no_error {ℓ κ} : {E : Type ℓ} {A : Type κ} → Result E A → Option A
no_error (ok a) = some a
no_error (err e) = none

-- The construction of a connection from its row.
unfoldable pub connection_from_row : ConnectionRow → Option PlatformConnection
connection_from_row r = elim (to_platform r.platform) [
  | none ↦ none
  | some p ↦ elim (to_status r.status) [
    | none ↦ none
    | some s ↦ elim (read_reason r.status_reason) [
      | none ↦ none
      | some q ↦ no_error (
          platform_connection (record {
            id = r.id;
            organization_id = r.organization_id;
            platform = p;
            external_resource_id = r.external_resource_id;
            status = s;
            status_reason = q;
            granted_capabilities = capability_keys r.granted_capabilities;
          }))
    ]
  ]
]

-- The row that `create` adds. A connection's capability keys are distinct, so the dictionary has
-- one entry for each; `jsonb` is the order in which the column gives a dictionary back.
unfoldable pub row_of :
    (List (Text × Bool) → List (Text × Bool)) → PlatformConnection → ConnectionRow
row_of jsonb c = record {
  id = c.id;
  organization_id = c.organization_id;
  platform = platform_value c.platform;
  external_resource_id = c.external_resource_id;
  status = status_value c.status;
  status_reason = write_reason c.status_reason;
  granted_capabilities = object (jsonb (map (λ k. (k, true)) c.granted_capabilities));
}

-- `SqlAlchemyPlatformConnectionWriter.create`
unfoldable pub create :
    (List (Text × Bool) → List (Text × Bool))
    → PlatformConnection
    → AuditEvent
    → Database
    → Bool × Database
unfolding row_of
create jsonb c event db =
    let row = row_of jsonb c in
    if connection_fits row db && audit_fits event db
    then (
      true,
      record db { connections = row ∷ db.connections; audit_events = event ∷ db.audit_events },
    )
    else (false, db)

-- The `where` of the update and of `find_for_organization`.
abbrev pub is_connection : Uuid → Uuid → ConnectionRow → Bool
is_connection o c r = r.id == c && r.organization_id == o

abbrev pub set_status : PlatformConnection → ConnectionRow → ConnectionRow
set_status c r = record r {
  status = status_value c.status;
  status_reason = write_reason c.status_reason;
}

-- The retry record that `update_status` adds, if it is given a key and an action.
abbrev pub retry_rows : PlatformConnection → Option Text → Option String → List IdempotencyRow
retry_rows c none action = []
retry_rows c (some key) none = []
retry_rows c (some key) (some action) =
    record {
      organization_id = c.organization_id;
      idempotency_key = key;
      connection_id = c.id;
      action = action;
      result_status = status_value c.status;
      result_reason = write_reason c.status_reason;
    }
    ∷ []

abbrev pub retries_fit : List IdempotencyRow → Database → Bool
retries_fit [] db = true
retries_fit (i ∷ is) db = idempotency_fits i db && retries_fit is db

-- `SqlAlchemyPlatformConnectionWriter.update_status`. The early return leaves the transaction's
-- block without an exception, so what the statement wrote by then is committed.
unfoldable pub update_status :
    PlatformConnection → AuditEvent → Option Text → Option String → Database → Bool × Database
update_status c event key action db =
    let selected = is_connection c.organization_id c.id in
    let written = record db { connections = update_where selected (set_status c) db.connections } in
    let retries = retry_rows c key action in
    if count selected db.connections == 1
    then if retries_fit retries written && audit_fits event written
      then (
        true,
        record written {
          idempotency = retries ++ written.idempotency;
          audit_events = event ∷ written.audit_events;
        },
      )
      else (false, db)
    else (false, written)

pub record IdempotencyResult : Type 0 where
  pub organization_id : Uuid
  pub connection_id : Uuid
  pub action : String
  pub result_status : ConnectionStatus
  pub result_reason : Option ConnectionStatusReason

-- The construction of a `PlatformConnectionLifecycleIdempotencyResult`; the stored actions are
-- never blank, by the table's check constraint.
abbrev pub result_from_row : IdempotencyRow → Option IdempotencyResult
result_from_row r = elim (to_status r.result_status) [
  | none ↦ none
  | some s ↦ elim (read_reason r.result_reason) [
    | none ↦ none
    | some q ↦ some (record {
      organization_id = r.organization_id;
      connection_id = r.connection_id;
      action = r.action;
      result_status = s;
      result_reason = q;
    })
  ]
]

-- The value that a `try` block computes from the row that was found, if one was.
abbrev pub and_then {ℓ κ} : {A : Type ℓ} {B : Type κ} → Option A → (A → Option B) → Option B
and_then none f = none
and_then (some a) f = f a

-- `find_idempotent_lifecycle_result`: the key is primary, so at most one row has it.
unfoldable pub find_idempotent_lifecycle_result : Uuid → Text → Database → Option IdempotencyResult
find_idempotent_lifecycle_result o key db =
    and_then (find (is_key o key) db.idempotency) result_from_row

-- `SqlAlchemyPlatformConnectionReader.find_for_organization`, by primary key.
unfoldable pub find_for_organization : Uuid → Uuid → Database → Option PlatformConnection
find_for_organization o c db =
    and_then (find (is_connection o c) db.connections) connection_from_row

-- `order_by(id)`
abbrev pub insert_by_id : ConnectionRow → List ConnectionRow → List ConnectionRow
insert_by_id r [] = r ∷ []
insert_by_id r (s ∷ ss) = if ltb s.id r.id then s ∷ insert_by_id r ss else r ∷ s ∷ ss

abbrev pub order_by_id : List ConnectionRow → List ConnectionRow
order_by_id [] = []
order_by_id (r ∷ rs) = insert_by_id r (order_by_id rs)

-- The loop over the rows, which skips each that is malformed.
abbrev pub connections_from_rows : List ConnectionRow → List PlatformConnection
connections_from_rows [] = []
connections_from_rows (r ∷ rs) =
    let rest = connections_from_rows rs in
    elim (connection_from_row r) [ none ↦ rest | some c ↦ c ∷ rest ]

abbrev is_after : Option Uuid → ConnectionRow → Bool
is_after none r = true
is_after (some a) r = ltb a r.id

-- `list_for_organization`, one page of an organization's connections.
unfoldable pub list_for_organization : Uuid → Option Uuid → ℕ → Database → List PlatformConnection
list_for_organization o after limit db = connections_from_rows (
    take limit
      (order_by_id (filter (λ r. r.organization_id == o && is_after after r) db.connections)))

-- `list_reconcilable`
unfoldable pub list_reconcilable : ℕ → Database → List PlatformConnection
list_reconcilable limit db = connections_from_rows (
    take limit (
      order_by_id (
        filter (λ r. not (str_eq r.status (status_value ConnectionStatus.disconnected)))
          db.connections)))
