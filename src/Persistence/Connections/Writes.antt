-- ===== src/Persistence/Connections/Writes.antt =====
-- What the writes of the connection repository do to the tables: all or nothing, on one row.
use mathlib.Core.List.{Perm}
use muxivo_console.Shared.{
  Bool, true, false, ◌≡◌, refl, ◌≢◌, ◌⊎◌, inl, inr, arith, Option, some, List, [], ◌∷◌, find, count,
  Text, String, Option-cases, ok, ◌&&◌,
}
use muxivo_console.Domain.Activity.{Uuid}
use muxivo_console.Domain.Audit.{AuditEvent}
use muxivo_console.Domain.Connections.{
  PlatformConnection, ConnectionStatus, ConnectionStatusReason, platform_connection,
}
use muxivo_console.Domain.Connections.Transitions.{moved}
use muxivo_console.Persistence.Database.{
  Database, ConnectionRow, update_where, has_connection, connection_fits, audit_fits,
}
use muxivo_console.Persistence.Connections.{
  connection_from_row, is_connection, set_status, update_status, find_for_organization, and_then,
  create, row_of,
}
use muxivo_console.Persistence.Connections.Flags.{flags}
use muxivo_console.Persistence.Connections.Rows.{
  connection_from_row-set_status, keys_of_row, read_back, connection_from_row-row_of,
}

-- The primary key of the table: no two rows have one identifier.
abbrev pub HasUniqueIds : List ConnectionRow → Type 0
HasUniqueIds [] = Unit
HasUniqueIds (r ∷ rs) = (has_connection r.id rs ≡ false) × HasUniqueIds rs

module _ (o c : Uuid) (f : ConnectionRow → ConnectionRow) where
  -- No row has the identifier: the statement selects and changes nothing.
  unmatched :
      (rs : List ConnectionRow)
      → has_connection c rs ≡ false
      → (count (is_connection o c) rs ≡ 0) × (update_where (is_connection o c) f rs ≡ rs)
  unmatched [] h = (refl, refl)
  unmatched (r ∷ rs) h = ground (arith, unmatched rs)

  -- At most one row is selected, and if none is, nothing changes.
  pub one_match :
      (rs : List ConnectionRow)
      → HasUniqueIds rs
      → (count (is_connection o c) rs ≡ 1)
        ⊎ (count (is_connection o c) rs ≡ 0) × (update_where (is_connection o c) f rs ≡ rs)
  one_match [] u = inr (refl, refl)
  one_match (r ∷ rs) u = ground (arith, unmatched rs, one_match rs u.1)

module _ (d : PlatformConnection) where
  find-update_self :
      (o c : Uuid) (x : ConnectionRow) (rs : List ConnectionRow)
      → find (is_connection o c) rs ≡ some x
      → find (is_connection o c) (update_where (is_connection o c) (set_status d) rs)
        ≡ some (set_status d x)
  find-update_self o c x [] h = cc
  find-update_self o c x (r ∷ rs) h = ground (arith, find-update_self o c x rs)

  find-update_ne :
      (o c o' c' : Uuid) (rs : List ConnectionRow)
      → (o' ≢ o) ⊎ (c' ≢ c)
      → find (is_connection o' c') (update_where (is_connection o c) (set_status d) rs)
        ≡ find (is_connection o' c') rs
  find-update_ne o c o' c' [] h = refl
  find-update_ne o c o' c' (r ∷ rs) h = ground (arith, find-update_ne o c o' c' rs h)

  has_connection-update :
      (o c k : Uuid) (rs : List ConnectionRow)
      → has_connection k (update_where (is_connection o c) (set_status d) rs) ≡ has_connection k rs
  has_connection-update o c k [] = refl
  has_connection-update o c k (r ∷ rs) = ground (arith, has_connection-update o c k rs)

  pub update-HasUniqueIds :
      (o c : Uuid) (rs : List ConnectionRow)
      → HasUniqueIds rs
      → HasUniqueIds (update_where (is_connection o c) (set_status d) rs)
  update-HasUniqueIds o c [] u = tt
  update-HasUniqueIds o c (r ∷ rs) u =
      ground (arith, has_connection-update o c r.id rs, update-HasUniqueIds o c rs u.1)

find→count :
    (o c : Uuid) (x : ConnectionRow) (rs : List ConnectionRow)
    → find (is_connection o c) rs ≡ some x
    → count (is_connection o c) rs ≢ 0
find→count o c x [] h = λ e. cc
find→count o c x (r ∷ rs) h = ground (arith, find→count o c x rs)

-- `update_status` is atomic: where it reports failure, for whatever reason, no table has changed.
pub update_status_atomic :
    (c : PlatformConnection) (event : AuditEvent) (key : Option Text) (action : Option String)
    (db : Database)
    → HasUniqueIds db.connections
    → (update_status c event key action db).0 ≡ false
    → (update_status c event key action db).1 ≡ db
unfolding update_status
update_status_atomic c event key action db u h =
    ground (arith, one_match c.organization_id c.id (set_status c) db.connections u)

-- The row that a connection was found in.
pub found_row :
    (o c : Uuid) (db : Database) {x : PlatformConnection}
    → find_for_organization o c db ≡ some x
    → (r : ConnectionRow) × (find (is_connection o c) db.connections ≡ some r)
      × (connection_from_row r ≡ some x)
unfolding find_for_organization
found_row o c db h = elim (Option-cases (find (is_connection o c) db.connections)) [
  | inl e ↦ absurd (cc (rw (e, and_then) at h))
  | inr (r, e) ↦ (r, e, (rw (e, and_then) at h))
]

find→keys :
    (o c : Uuid) (x : ConnectionRow) (rs : List ConnectionRow)
    → find (is_connection o c) rs ≡ some x
    → (x.id ≡ c) × (x.organization_id ≡ o)
find→keys o c x [] h = cc
find→keys o c x (r ∷ rs) h = ground (arith, find→keys o c x rs)

-- What is found for an organization and an identifier has that organization and identifier.
pub find_for_organization_scoped :
    (o c : Uuid) (db : Database) {x : PlatformConnection}
    → find_for_organization o c db ≡ some x
    → (x.organization_id ≡ o) × (x.id ≡ c)
find_for_organization_scoped o c db {x} h =
    let (r, e, built) = found_row o c db h in
    ground (arith, keys_of_row r {c = x} built, find→keys o c r db.connections e)

-- Of a connection that was found, `update_status` either fails and changes nothing, or the
-- connection is found with its new status and reason and one audit event has been added.
pub update_status_lem :
    (c : PlatformConnection) (s : ConnectionStatus) (q : Option ConnectionStatusReason)
    (event : AuditEvent) (key : Option Text) (action : Option String) (db : Database)
    → HasUniqueIds db.connections
    → find_for_organization c.organization_id c.id db ≡ some c
    → let (done, db') = update_status (moved c s q) event key action db in
      (done ≡ false) × (db' ≡ db)
      ⊎ (done ≡ true)
        × (find_for_organization c.organization_id c.id db' ≡ some (moved c s q))
        × (db'.audit_events ≡ event ∷ db.audit_events)
unfolding update_status find_for_organization
update_status_lem c s q event key action db u h =
    let (r, e, built) = found_row c.organization_id c.id db h in
    ground (
      arith,
      find→count c.organization_id c.id r db.connections e,
      one_match c.organization_id c.id (set_status (moved c s q)) db.connections u,
      find-update_self (moved c s q) c.organization_id c.id r db.connections e,
      connection_from_row-set_status r c s q built,
    )

-- `update_status` leaves every other connection as it was, that of another organization too.
pub update_status_others :
    (c : PlatformConnection) (event : AuditEvent) (key : Option Text) (action : Option String)
    (o k : Uuid) (db : Database)
    → (o ≢ c.organization_id) ⊎ (k ≢ c.id)
    → find_for_organization o k (update_status c event key action db).1
      ≡ find_for_organization o k db
unfolding update_status find_for_organization
update_status_others c event key action o k db h =
    ground (arith, find-update_ne c c.organization_id c.id o k db.connections h)

pub update_status-HasUniqueIds :
    (c : PlatformConnection) (event : AuditEvent) (key : Option Text) (action : Option String)
    (db : Database)
    → HasUniqueIds db.connections
    → HasUniqueIds (update_status c event key action db).1.connections
unfolding update_status
update_status-HasUniqueIds c event key action db u =
    ground (arith, update-HasUniqueIds c c.organization_id c.id db.connections u)

-- Where the constraints do not allow a row, nothing changes; else it is found as it is read back.
create_at :
    (jsonb : List (Text × Bool) → List (Text × Bool)) (c x : PlatformConnection)
    (event : AuditEvent) (db : Database)
    → connection_from_row (row_of jsonb c) ≡ some x
    → let (done, db') = create jsonb c event db in
      let fits = connection_fits (row_of jsonb c) db && audit_fits event db in
      (fits ≡ false) × (done ≡ false) × (db' ≡ db)
      ⊎ (fits ≡ true)
        × (done ≡ true)
        × (find_for_organization c.organization_id c.id db' ≡ some x)
        × (db'.audit_events ≡ event ∷ db.audit_events)
        × (HasUniqueIds db.connections → HasUniqueIds db'.connections)
unfolding create find_for_organization row_of
create_at jsonb c x event db read = ground arith

pub create_lem :
    (jsonb : List (Text × Bool) → List (Text × Bool)) (c : PlatformConnection) (event : AuditEvent)
    (db : Database)
    → platform_connection c ≡ ok c
    → Perm (jsonb (flags c.granted_capabilities)) (flags c.granted_capabilities)
    → let (done, db') = create jsonb c event db in
      let fits = connection_fits (row_of jsonb c) db && audit_fits event db in
      (fits ≡ false) × (done ≡ false) × (db' ≡ db)
      ⊎ (fits ≡ true)
        × (done ≡ true)
        × (find_for_organization c.organization_id c.id db' ≡ some (read_back jsonb c))
        × Perm (read_back jsonb c).granted_capabilities c.granted_capabilities
        × (db'.audit_events ≡ event ∷ db.audit_events)
        × (HasUniqueIds db.connections → HasUniqueIds db'.connections)
create_lem jsonb c event db valid same =
    let (read, kept) = connection_from_row-row_of jsonb c valid same in
    elim (create_at jsonb c (read_back jsonb c) event db read) [
      | inl refused ↦ inl refused
      | inr (fits, done, found, stored, unique) ↦ inr (fits, done, found, kept, stored, unique)
    ]
