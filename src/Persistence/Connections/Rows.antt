-- ===== src/Persistence/Connections/Rows.antt =====
-- A connection survives its row: `row_of` and `set_status` are undone by `connection_from_row`.
use mathlib.Core.Path.{subst}
use muxivo_console.Shared.{
  Bool, false, ◌≡◌, refl, arith, Option, none, some, List, any, Text, ok, ap, inl, inr,
  Option-cases,
}
use mathlib.Core.List.{Perm}
use muxivo_console.Domain.Activity.{Platform}
use muxivo_console.Domain.Connections.{
  PlatformConnection, ConnectionStatus, ConnectionStatusReason, platform_connection, are_unique,
}
use muxivo_console.Domain.Connections.Transitions.{moved}
use muxivo_console.Persistence.Values.{
  to_platform-value, to_status-value, to_reason-value, to_platform, to_status,
}
use muxivo_console.Persistence.Database.{ConnectionRow}
use muxivo_console.Persistence.Connections.{
  connection_from_row, row_of, set_status, capability_keys, read_reason, write_reason, no_error,
}
use muxivo_console.Persistence.Connections.Flags.{
  flags, keys, is_bad_key, reordered_lem, are_unique-Perm,
}

pub read_reason-write : (q : Option ConnectionStatusReason) → read_reason (write_reason q) ≡ some q
read_reason-write none = refl
read_reason-write (some q) = rw (to_reason-value q)

-- What a valid connection says of its capability keys.
valid_keys :
    (c : PlatformConnection)
    → platform_connection c ≡ ok c
    → any is_bad_key c.granted_capabilities ≡ false
unfolding platform_connection
valid_keys c h = ground arith

-- A connection with its capability keys in the order in which the column gives them back.
abbrev pub read_back :
    (List (Text × Bool) → List (Text × Bool)) → PlatformConnection → PlatformConnection
read_back jsonb c = record c { granted_capabilities = keys (jsonb (flags c.granted_capabilities)) }

read_back-valid :
    (c : PlatformConnection) (ks : List Text)
    → platform_connection c ≡ ok c
    → any is_bad_key ks ≡ false
    → are_unique ks ≡ are_unique c.granted_capabilities
    → platform_connection (record c { granted_capabilities = ks })
      ≡ ok (record c { granted_capabilities = ks })
unfolding platform_connection
read_back-valid c ks valid still unique = ground arith

-- A valid connection is read back from the row written for it, where the column returns the
-- dictionary of its capability flags in some order: it has the same keys, in that order.
pub connection_from_row-row_of :
    (jsonb : List (Text × Bool) → List (Text × Bool)) (c : PlatformConnection)
    → platform_connection c ≡ ok c
    → Perm (jsonb (flags c.granted_capabilities)) (flags c.granted_capabilities)
    → (connection_from_row (row_of jsonb c) ≡ some (read_back jsonb c))
      × Perm (read_back jsonb c).granted_capabilities c.granted_capabilities
unfolding connection_from_row row_of
connection_from_row-row_of jsonb c valid same =
    let stored = jsonb (flags c.granted_capabilities) in
    let (read, kept, still) =
      reordered_lem stored c.granted_capabilities same (valid_keys c valid) in
    let built = read_back-valid c (keys stored) valid still (are_unique-Perm kept) in
    (
      rw (to_platform-value c.platform, connection_from_row, row_of)
          (rw (to_status-value c.status, connection_from_row, row_of)
            (rw (read_reason-write c.status_reason, connection_from_row, row_of)
              (rw read (ap no_error built)))),
      kept,
    )

-- Validity does not look at the status.
pub moved-valid :
    (c : PlatformConnection) (s : ConnectionStatus) (q : Option ConnectionStatusReason)
    → platform_connection c ≡ ok c
    → platform_connection (moved c s q) ≡ ok (moved c s q)
unfolding platform_connection
moved-valid c s q h = ground arith

-- A connection that was constructed is what it was constructed from, and valid.
constructed :
    (x : PlatformConnection) {c : PlatformConnection}
    → no_error (platform_connection x) ≡ some c
    → (c ≡ x) × (platform_connection c ≡ ok c)
unfolding platform_connection
constructed x h = ground arith

-- The connection that a row stands for, if its columns hold this platform, status and reason.
abbrev connection_of :
    ConnectionRow → Platform → ConnectionStatus → Option ConnectionStatusReason → PlatformConnection
connection_of r p s q = record {
  id = r.id;
  organization_id = r.organization_id;
  platform = p;
  external_resource_id = r.external_resource_id;
  status = s;
  status_reason = q;
  granted_capabilities = capability_keys r.granted_capabilities;
}

-- The case of a row whose columns all parse.
read_parts_at :
    (r : ConnectionRow) (p : Platform) (s : ConnectionStatus) (q : Option ConnectionStatusReason)
    {c : PlatformConnection}
    → to_platform r.platform ≡ some p
    → no_error (platform_connection (connection_of r p s q)) ≡ some c
    → (to_platform r.platform ≡ some c.platform)
      × (c ≡ connection_of r c.platform c.status c.status_reason)
      × (platform_connection c ≡ ok c)
read_parts_at r p s q {c} ep h =
    let (e, valid) = constructed (connection_of r p s q) h in (rw e ep, rw e, valid)

-- The parts of a row that could be read.
read_parts :
    (r : ConnectionRow) {c : PlatformConnection}
    → connection_from_row r ≡ some c
    → (to_platform r.platform ≡ some c.platform)
      × (c ≡ connection_of r c.platform c.status c.status_reason)
      × (platform_connection c ≡ ok c)
unfolding connection_from_row
read_parts r {c} h = elim (Option-cases (to_platform r.platform)) [
  | inl e ↦ absurd (cc (rw (e, connection_from_row) at h))
  | inr (p, ep) ↦ elim (Option-cases (to_status r.status)) [
    | inl e ↦ absurd (cc (rw (ep, e, connection_from_row) at h))
    | inr (s, es) ↦ elim (Option-cases (read_reason r.status_reason)) [
      | inl e ↦ absurd (cc (rw (ep, es, e, connection_from_row) at h))
      | inr (q, eq) ↦ read_parts_at r p s q ep (rw (ep, es, eq, connection_from_row) at h)
    ]
  ]
]

valid_at :
    (r : ConnectionRow) (c : PlatformConnection) (s : ConnectionStatus)
    (q : Option ConnectionStatusReason)
    → c ≡ connection_of r c.platform c.status c.status_reason
    → platform_connection c ≡ ok c
    → platform_connection (connection_of r c.platform s q) ≡ ok (moved c s q)
valid_at r c s q e valid =
    subst (λ x. platform_connection x ≡ ok (moved c s q))
      (ap (λ (x : PlatformConnection). moved x s q) e) (moved-valid c s q valid)

-- After the status columns of a row are set, it stands for the same connection with the new
-- status and reason.
pub connection_from_row-set_status :
    (r : ConnectionRow) (c : PlatformConnection) (s : ConnectionStatus)
    (q : Option ConnectionStatusReason)
    → connection_from_row r ≡ some c
    → connection_from_row (set_status (moved c s q) r) ≡ some (moved c s q)
unfolding connection_from_row
connection_from_row-set_status r c s q h =
    let (ep, e, valid) = read_parts r h in
    rw (ep, connection_from_row)
      (rw (to_status-value s, connection_from_row)
        (rw (read_reason-write q, connection_from_row) (ap no_error (valid_at r c s q e valid))))

-- The row's keys are the connection's.
pub keys_of_row :
    (r : ConnectionRow) {c : PlatformConnection}
    → connection_from_row r ≡ some c
    → (r.id ≡ c.id) × (r.organization_id ≡ c.organization_id)
keys_of_row r {c} h = let (ep, e, valid) = read_parts r h in (rw e, rw e)

-- What is read from a row passes the checks of its constructor.
pub connection_from_row-valid :
    (r : ConnectionRow) {c : PlatformConnection}
    → connection_from_row r ≡ some c
    → platform_connection c ≡ ok c
connection_from_row-valid r h = let (ep, e, valid) = read_parts r h in valid

status_at :
    (r : ConnectionRow) (p : Platform) (s : ConnectionStatus) (q : Option ConnectionStatusReason)
    {c : PlatformConnection}
    → to_status r.status ≡ some s
    → no_error (platform_connection (connection_of r p s q)) ≡ some c
    → to_status r.status ≡ some c.status
status_at r p s q {c} es h = let (e, valid) = constructed (connection_of r p s q) h in rw e es

-- The status that was read is the row's.
pub status_of_row :
    (r : ConnectionRow) {c : PlatformConnection}
    → connection_from_row r ≡ some c
    → to_status r.status ≡ some c.status
unfolding connection_from_row
status_of_row r {c} h = elim (Option-cases (to_platform r.platform)) [
  | inl e ↦ absurd (cc (rw (e, connection_from_row) at h))
  | inr (p, ep) ↦ elim (Option-cases (to_status r.status)) [
    | inl e ↦ absurd (cc (rw (ep, e, connection_from_row) at h))
    | inr (s, es) ↦ elim (Option-cases (read_reason r.status_reason)) [
      | inl e ↦ absurd (cc (rw (ep, es, e, connection_from_row) at h))
      | inr (q, eq) ↦ status_at r p s q es (rw (ep, es, eq, connection_from_row) at h)
    ]
  ]
]
