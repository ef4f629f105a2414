-- ===== src/Application/Connect/Outcomes.antt =====
-- How the connection of a platform's resource ends.
use mathlib.Core.List.{Perm}
use muxivo_console.Application.Identifiers.{Supply}
use muxivo_console.Shared.{
  true, false, ◌&&◌, none, ◌≡◌, refl, arith, ◌⊎◌, inl, inr, some, ◌∷◌, strip, Result, ok, err,
  Bool-cases, Option-cases, Result-cases, ap, sym, ◌∙◌,
}
use muxivo_console.Domain.Organizations.{OrganizationRole, OrganizationMembership}
use muxivo_console.Domain.Organizations.Access.{manage_needs_owner_or_admin}
use muxivo_console.Domain.Capabilities.{capability_keys_for_platform}
use muxivo_console.Domain.Connections.{PlatformConnection, platform_connection}
use muxivo_console.Persistence.Database.{Database, connection_fits, audit_fits}
use muxivo_console.Persistence.Members.{get_membership}
use muxivo_console.Persistence.Connections.{find_for_organization, row_of}
use muxivo_console.Persistence.Connections.Flags.{flags}
use muxivo_console.Persistence.Connections.Rows.{read_back}
use muxivo_console.Persistence.Connections.Writes.{HasUniqueIds, create_lem}
use muxivo_console.Application.Authorizer.{authorize, authorize-allowed}
use muxivo_console.Application.Connect.{
  ConnectCommand, ConnectRejection, Verifier, Jsonb, connect_request, new_connection, connect_event,
  create_connection, connect,
}

constructed :
    (c : PlatformConnection) {u : PlatformConnection} → platform_connection c ≡ ok u → c ≡ u
unfolding platform_connection
constructed c h = ground arith

module _ (verify : Verifier) (jsonb : Jsonb) (ids : Supply) (cmd : ConnectCommand)
    (db : Database) where
  -- The connection that is to be stored, and its event.
  abbrev fresh : PlatformConnection
  fresh = new_connection (ids 0) cmd

  -- What each refusal reports.
  abbrev pub Reports : ConnectRejection → Type 0
  Reports ConnectRejection.denied = (authorize (connect_request cmd) db).allowed ≡ false
  Reports ConnectRejection.verifier_unavailable = verify cmd (strip cmd.external_resource_id) ≡ none
  Reports ConnectRejection.not_verified = verify cmd (strip cmd.external_resource_id) ≡ some false
  Reports (ConnectRejection.invalid_connection e) = platform_connection fresh ≡ err e
  Reports ConnectRejection.not_created =
      connection_fits (row_of jsonb fresh) db && audit_fits (connect_event (ids 1) (ids 0) cmd) db
      ≡ false

  abbrev pub Rejects : Result ConnectRejection PlatformConnection × Database → Type 0
  Rejects (r, db') = (e : ConnectRejection) × (r ≡ err e) × (db' ≡ db) × Reports e

  -- The new connection is stored, with its event, and identifiers stay unique. It is found with its
  -- capability keys in the order in which the column gives them back.
  abbrev pub Stores : Result ConnectRejection PlatformConnection × Database → Type 0
  Stores (r, db') =
      (r ≡ ok (new_connection (ids 0) cmd))
      × (find_for_organization cmd.organization_id (ids 0) db' ≡ some (read_back jsonb fresh))
      × Perm (read_back jsonb fresh).granted_capabilities fresh.granted_capabilities
      × (db'.audit_events ≡ connect_event (ids 1) (ids 0) cmd ∷ db.audit_events)
      × (HasUniqueIds db.connections → HasUniqueIds db'.connections)

  abbrev pub Connects : Result ConnectRejection PlatformConnection × Database → Type 0
  Connects run =
      ((m : OrganizationMembership) × (get_membership cmd.actor_id cmd.organization_id db ≡ some m)
        × ((m.role ≡ OrganizationRole.owner) ⊎ (m.role ≡ OrganizationRole.admin)))
      × (verify cmd (strip cmd.external_resource_id) ≡ some true)
      × Stores run

  -- The column gives back the dictionary of the capability flags, in any order.
  abbrev pub KeepsEntries : Type 0
  KeepsEntries =
      Perm (jsonb (flags (capability_keys_for_platform cmd.platform)))
        (flags (capability_keys_for_platform cmd.platform))

  create_connection_lem :
      KeepsEntries
      → Rejects (create_connection jsonb ids cmd db) ⊎ Stores (create_connection jsonb ids cmd db)
  unfolding create_connection
  create_connection_lem keeps = elim (Result-cases (platform_connection fresh)) [
    | inl (e, h) ↦
        rw (h, create_connection) (inl (ConnectRejection.invalid_connection e, refl, refl, h))
    | inr (u, h) ↦
        let same = constructed fresh h in
        let valid : platform_connection fresh ≡ ok fresh = h ∙ ap ok (sym same) in
        rw (valid, create_connection)
          (elim (create_lem jsonb fresh (connect_event (ids 1) (ids 0) cmd) db valid keeps) [
            | inl (full, failed, unchanged) ↦
                inl (ConnectRejection.not_created, rw failed refl, unchanged, full)
            | inr (fits, done, found, kept, event, unique) ↦
                inr (rw done refl, found, kept, event, unique)
          ])
  ]

  -- Connecting a resource is refused and changes nothing, for the reason that the refusal reports
  -- (the actor may not, the platform does not answer or does not verify the resource, the
  -- connection is not valid, or the constraints of the tables do not allow it); or the actor is an
  -- owner or admin of the organization, the platform has verified the resource, and the new
  -- connection, pending and with its platform's capability keys, is found, with one audit event.
  -- The JSONB column gives back the entries of the dictionary of capability flags in some order,
  -- which is then the order of the keys that are found.
  pub connect_lem :
      KeepsEntries
      → Rejects (connect verify jsonb ids cmd db) ⊎ Connects (connect verify jsonb ids cmd db)
  unfolding connect
  connect_lem keeps = elim (Bool-cases (authorize (connect_request cmd) db).allowed) [
    | inr refused ↦ rw refused (inl (ConnectRejection.denied, refl, refl, refused))
    | inl permitted ↦
        let (m, member, allowed) = authorize-allowed (connect_request cmd) db permitted in
        let role = manage_needs_owner_or_admin m (connect_request cmd) allowed (inl refl) in
        elim (Option-cases (verify cmd (strip cmd.external_resource_id))) [
          | inl e ↦
              rw permitted
                (rw (e, connect) (inl (ConnectRejection.verifier_unavailable, refl, refl, e)))
          | inr (verified, e) ↦ elim (Bool-cases verified) [
            | inr f ↦ rw permitted (
                rw (e, connect)
                  (rw f (inl (ConnectRejection.not_verified, refl, refl, e ∙ ap some f))))
            | inl t ↦ rw permitted (
                rw (e, connect)
                  (rw t (elim (create_connection_lem keeps) [
                    | inl refused ↦ inl refused
                    | inr stored ↦ inr ((m, member, role), refl, stored)
                  ])))
          ]
        ]
  ]
