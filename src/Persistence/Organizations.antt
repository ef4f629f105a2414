-- ===== src/Persistence/Organizations.antt =====
-- infrastructure/persistence/organization_repository.py and audit_repository.py: organizations,
-- the listings of them, of their members and of their audit events. Each method is one
-- transaction. The database's collation is a parameter, and so is the time stamp that the server
-- gives an audit event.
use muxivo_console.Shared.{
  ℕ, Bool, true, false, not, ◌&&◌, ◌||◌, Option, none, some, List, [], ◌∷◌, Text, String, text_eq,
  any, filter, find, take, sort_by, ltb, ◌==◌, Result, ok, err, if◌then◌else◌,
}
use muxivo_console.Domain.Activity.{Uuid}
use muxivo_console.Domain.Audit.{AuditEvent, AuditLogEntry, AuditError, audit_log_entry}
use muxivo_console.Domain.Organizations.{
  Organization, OrganizationMembership, OrganizationMemberProfile, OrganizationMembershipProfile,
  organization, organization_member_profile,
}
use muxivo_console.Persistence.Rows.{UserRow}
use muxivo_console.Persistence.Database.{
  Database, OrganizationRow, MembershipRow, audit_fits, has_organization, membership_fits,
}
use muxivo_console.Persistence.Connections.{and_then, no_error}
use muxivo_console.Persistence.Members.{
  MemberWriteError, member_row, membership_from_record, scopes_of,
}

abbrev pub organization_row : Organization → OrganizationRow
organization_row o = record { id = o.id; name = o.name; slug = o.slug }

-- Primary key and unique slug of `organizations`.
abbrev pub organization_fits : Organization → Database → Bool
organization_fits o db =
    not (has_organization o.id db) && not (any (λ r. text_eq r.slug o.slug) db.organizations)

-- `SqlAlchemyOrganizationCreationWriter.create`, from the membership's identifier on. The
-- organization is flushed first.
unfoldable pub create_organization_at :
    Uuid → Organization → OrganizationMembership → AuditEvent → Database → Bool × Database
create_organization_at k o m event db =
    let present = record db { organizations = organization_row o ∷ db.organizations } in
    if organization_fits o db && membership_fits (member_row k m) present && audit_fits event db
    then (
      true,
      record present {
        memberships = member_row k m ∷ db.memberships;
        audit_events = event ∷ db.audit_events;
      },
    )
    else (false, db)

-- `SqlAlchemyOrganizationCreationWriter.create`
unfoldable pub create_organization_row :
    Organization
    → OrganizationMembership
    → AuditEvent
    → Database
    → Result MemberWriteError Bool × Database
create_organization_row o m event db = elim m.id [
  | none ↦ (err MemberWriteError.missing_membership_id, db)
  | some k ↦ let (created, db') = create_organization_at k o m event db in (ok created, db')
]

abbrev pub organization_from_row : OrganizationRow → Option Organization
organization_from_row r =
    no_error (organization (record { id = r.id; name = r.name; slug = r.slug }))

-- `SqlAlchemyOrganizationListingReader.find_by_id`
unfoldable pub find_organization : Uuid → Database → Option Organization
find_organization o db = and_then (find (λ r. r.id == o) db.organizations) organization_from_row

-- The loops that skip a row from which a construction raises.
abbrev pub constructed {ℓ κ} : {A : Type ℓ} {B : Type κ} → (A → Option B) → List A → List B
constructed f [] = []
constructed f (x ∷ xs) =
    let rest = constructed f xs in elim (f x) [ none ↦ rest | some y ↦ y ∷ rest ]

-- Whether one value comes before another in the database's order of texts.
abbrev pub Collation : Type 0
Collation = Text → Text → Bool

abbrev pub joined_organization : Database → MembershipRow → Option (OrganizationRow × MembershipRow)
joined_organization db m =
    and_then (find (λ r. r.id == m.organization_id) db.organizations) λ r. some (r, m)

-- `order_by(name, id)`
abbrev pub named_before :
    Collation → OrganizationRow × MembershipRow → OrganizationRow × MembershipRow → Bool
named_before before (r, m) (s, n) =
    before r.name s.name || not (before s.name r.name) && ltb r.id s.id

abbrev pub membership_profile :
    Database → OrganizationRow × MembershipRow → Option OrganizationMembershipProfile
membership_profile db (r, m) = and_then (organization_from_row r) λ o.
    and_then (membership_from_record m (scopes_of m.id db.scopes))
      λ k. some (record { organization = o; membership = k })

-- `SqlAlchemyOrganizationListingReader.list_for_actor`
unfoldable pub list_for_actor : Collation → Uuid → Database → List OrganizationMembershipProfile
list_for_actor before actor db = constructed (membership_profile db) (
    sort_by (named_before before)
      (constructed (joined_organization db) (filter (λ m. m.user_id == actor) db.memberships)))

abbrev pub joined_user : Database → MembershipRow → Option (MembershipRow × UserRow)
joined_user db m = and_then (find (λ u. u.id == m.user_id) db.users) λ u. some (m, u)

-- `order_by(role, display_name)`, over the order of the roles' values.
abbrev pub profile_before :
    (String → String → Bool) → Collation → MembershipRow × UserRow → MembershipRow × UserRow → Bool
profile_before role_before before (m, u) (n, v) =
    role_before m.role n.role
    || not (role_before n.role m.role) && before u.display_name v.display_name

abbrev pub member_profile : Database → MembershipRow × UserRow → Option OrganizationMemberProfile
member_profile db (m, u) = and_then (membership_from_record m (scopes_of m.id db.scopes)) λ k.
    no_error
      (organization_member_profile (record { membership = k; display_name = u.display_name }))

-- `SqlAlchemyOrganizationMemberRepository.list_profiles`
unfoldable pub list_profiles :
    (String → String → Bool) → Collation → Uuid → Database → List OrganizationMemberProfile
list_profiles role_before before o db = constructed (member_profile db) (
    sort_by (profile_before role_before before)
      (constructed (joined_user db) (filter (λ m. m.organization_id == o) db.memberships)))

abbrev pub is_of_organization : Uuid → AuditEvent → Bool
is_of_organization o e = elim e.organization_id [ none ↦ false | some p ↦ p == o ]

abbrev pub is_before : Option Uuid → AuditEvent → Bool
is_before none e = true
is_before (some a) e = ltb e.id a

-- `order_by(id.desc())`
abbrev pub newer : AuditEvent → AuditEvent → Bool
newer e f = ltb f.id e.id

-- The entry that is shown for a row; `created_at` is the instant that the server gave the row.
abbrev pub entry_of : (Uuid → ℕ) → AuditEvent → AuditLogEntry
entry_of created_at e = record {
  id = e.id;
  correlation_id = e.correlation_id;
  actor_id = e.actor_id;
  action = e.action;
  resource_type = e.resource_type;
  resource_id = e.resource_id;
  result = e.result;
  created_at = created_at e.id;
}

-- An entry before the others, unless its construction or theirs raises.
abbrev pub add_entry :
    Result AuditError AuditLogEntry
    → Result AuditError (List AuditLogEntry)
    → Result AuditError (List AuditLogEntry)
add_entry (err x) entries = err x
add_entry (ok e) (err x) = err x
add_entry (ok e) (ok entries) = ok (e ∷ entries)

-- The construction of the entries, one of which may raise.
abbrev pub entries_of : (Uuid → ℕ) → List AuditEvent → Result AuditError (List AuditLogEntry)
entries_of created_at [] = ok []
entries_of created_at (e ∷ es) =
    add_entry (audit_log_entry (entry_of created_at e)) (entries_of created_at es)

-- `SqlAlchemyAuditEventReader.list_for_organization`
unfoldable pub list_audit_events :
    (Uuid → ℕ) → Uuid → Option Uuid → ℕ → Database → Result AuditError (List AuditLogEntry)
list_audit_events created_at o after limit db = entries_of created_at (
    take limit
      (sort_by newer (filter (λ e. is_of_organization o e && is_before after e) db.audit_events)))

-- `SqlAlchemyAuditEventWriter.record`; `none` where the identifier is taken, which raises.
unfoldable pub record_event : AuditEvent → Database → Option Database
record_event e db =
    if audit_fits e db then some (record db { audit_events = e ∷ db.audit_events }) else none
