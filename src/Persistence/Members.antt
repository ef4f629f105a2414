-- ===== src/Persistence/Members.antt =====
-- infrastructure/persistence/organization_repository.py: members of an organization, their roles
-- and scopes, and the status of a user. Each method is one transaction.
pub mod Rows
pub mod Writes
pub mod Changes
pub mod Consistency
pub mod Others
use muxivo_console.Shared.{
  ℕ, Bool, true, false, not, ◌&&◌, Option, none, some, List, [], ◌∷◌, ◌++◌, filter, find, count,
  any, String, ◌==◌, Result, ok, err, if◌then◌else◌,
}
use text.Mathlib.Text.{◌==◌ as str_eq}
use muxivo_console.Domain.Activity.{Uuid}
use muxivo_console.Domain.Audit.{AuditEvent}
use muxivo_console.Domain.Identity.{UserStatus}
use muxivo_console.Domain.Organizations.{
  OrganizationRole, OrganizationMembership, MembershipResourceScope,
}
use muxivo_console.Persistence.Values.{
  role_value, resource_value, action_value, to_role, to_resource, to_action,
}
use muxivo_console.Persistence.Database.{
  Database, MembershipRow, ScopeRow, update_where, audit_fits, membership_fits, scopes_fit,
}
use muxivo_console.Persistence.Connections.{and_then}

abbrev pub user_status_value : UserStatus → String
user_status_value UserStatus.pending_verification = "pending_verification"
user_status_value UserStatus.active = "active"
user_status_value UserStatus.suspended = "suspended"
user_status_value UserStatus.deleted = "deleted"

unfoldable pub to_user_status : String → Option UserStatus
to_user_status s =
    if str_eq s "pending_verification"
    then some UserStatus.pending_verification
    else if str_eq s "active"
    then some UserStatus.active
    else if str_eq s "suspended"
    then some UserStatus.suspended
    else if str_eq s "deleted"
    then some UserStatus.deleted
    else none

-- `SqlAlchemyUserStatusReader.get_status`, by primary key.
unfoldable pub get_status : Uuid → Database → Option UserStatus
get_status u db = and_then (find (λ r. r.id == u) db.users) (λ r. to_user_status r.status)

abbrev pub scope_from_row : ScopeRow → Option MembershipResourceScope
scope_from_row r = elim (to_resource r.resource) [
  | none ↦ none
  | some q ↦ elim (to_action r.action) [
    | none ↦ none
    | some a ↦ some (record { resource = q; action = a; id = some r.id })
  ]
]

-- The set of scopes; one malformed row is an error for all.
abbrev pub scopes_from_rows : List ScopeRow → Option (List MembershipResourceScope)
scopes_from_rows [] = some []
scopes_from_rows (r ∷ rs) =
    let rest = scopes_from_rows rs in
    elim (scope_from_row r) [
      | none ↦ none
      | some s ↦ elim rest [ none ↦ none | some ss ↦ some (s ∷ ss) ]
    ]

-- `_membership_from_record`; a malformed role or scope raises, which its callers catch.
unfoldable pub membership_from_record :
    MembershipRow → List ScopeRow → Option OrganizationMembership
membership_from_record m rows = elim (to_role m.role) [
  | none ↦ none
  | some role ↦ elim (scopes_from_rows rows) [
    | none ↦ none
    | some scopes ↦ some (record {
      actor_id = m.user_id;
      organization_id = m.organization_id;
      role = role;
      resource_scopes = scopes;
      id = some m.id;
    })
  ]
]

abbrev pub is_member : Uuid → Uuid → MembershipRow → Bool
is_member user o r = r.user_id == user && r.organization_id == o

abbrev pub scopes_of : Uuid → List ScopeRow → List ScopeRow
scopes_of i = filter (λ s. s.membership_id == i)

-- `SqlAlchemyOrganizationMembershipReader.get_membership`; a user is a member of an organization
-- once at most.
unfoldable pub get_membership : Uuid → Uuid → Database → Option OrganizationMembership
get_membership user o db =
    and_then (find (is_member user o) db.memberships)
      (λ m. membership_from_record m (scopes_of m.id db.scopes))

pub data MemberWriteError : Type 0 where
  missing_membership_id missing_scope_id : MemberWriteError

-- `_scope_record` over the set; a scope without an identifier raises.
abbrev pub scope_records : Uuid → List MembershipResourceScope → Option (List ScopeRow)
scope_records i [] = some []
scope_records i (s ∷ ss) =
    let rest = scope_records i ss in
    elim s.id [
      | none ↦ none
      | some k ↦ elim rest [
        | none ↦ none
        | some rows ↦ some (
            record {
              id = k;
              membership_id = i;
              resource = resource_value s.resource;
              action = action_value s.action;
            }
            ∷ rows)
      ]
    ]

abbrev pub member_row : Uuid → OrganizationMembership → MembershipRow
member_row i m = record {
  id = i;
  organization_id = m.organization_id;
  user_id = m.actor_id;
  role = role_value m.role;
}

-- `add_member`, from the identifier on.
unfoldable pub add_member_at :
    Uuid → OrganizationMembership → AuditEvent → Database → Result MemberWriteError Bool × Database
add_member_at i m event db =
    if membership_fits (member_row i m) db
    then elim (scope_records i m.resource_scopes) [
      | none ↦ (err MemberWriteError.missing_scope_id, db)
      | some rows ↦
          if scopes_fit rows db.scopes (member_row i m ∷ db.memberships) && audit_fits event db
          then (
            ok true,
            record db {
              memberships = member_row i m ∷ db.memberships;
              scopes = rows ++ db.scopes;
              audit_events = event ∷ db.audit_events;
            },
          )
          else (ok false, db)
    ]
    else (ok false, db)

-- `SqlAlchemyOrganizationMemberRepository.add_member`
unfoldable pub add_member :
    OrganizationMembership → AuditEvent → Database → Result MemberWriteError Bool × Database
unfolding add_member_at
add_member m event db = elim m.id [
  | none ↦ (err MemberWriteError.missing_membership_id, db)
  | some i ↦ add_member_at i m event db
]

abbrev pub has_id : Uuid → MembershipRow → Bool
has_id i r = r.id == i

abbrev pub set_role : OrganizationRole → MembershipRow → MembershipRow
set_role role r = record r { role = role_value role }

-- `update_member`, from the identifier on; its early return commits, as that of `update_status`.
unfoldable pub update_member_at :
    Uuid → OrganizationMembership → AuditEvent → Database → Result MemberWriteError Bool × Database
update_member_at i m event db =
    let written = record db {
      memberships = update_where (has_id i) (set_role m.role) db.memberships;
    } in
    let kept = filter (λ s. not (s.membership_id == i)) db.scopes in
    if count (has_id i) db.memberships == 1
    then elim (scope_records i m.resource_scopes) [
      | none ↦ (err MemberWriteError.missing_scope_id, db)
      | some rows ↦
          if scopes_fit rows kept written.memberships && audit_fits event db
          then (
            ok true,
            record written { scopes = rows ++ kept; audit_events = event ∷ db.audit_events },
          )
          else (ok false, db)
    ]
    else (ok false, written)

-- `SqlAlchemyOrganizationMemberRepository.update_member`
unfoldable pub update_member :
    OrganizationMembership → AuditEvent → Database → Result MemberWriteError Bool × Database
unfolding update_member_at
update_member m event db = elim m.id [
  | none ↦ (err MemberWriteError.missing_membership_id, db)
  | some i ↦ update_member_at i m event db
]

-- `SqlAlchemyOrganizationMemberRepository.remove_member`; the foreign key of the scopes cascades.
unfoldable pub remove_member : Uuid → AuditEvent → Database → Bool × Database
remove_member i event db =
    let deleted = record db {
      memberships = filter (λ r. not (has_id i r)) db.memberships;
      scopes = filter (λ s. not (s.membership_id == i)) db.scopes;
    } in
    if count (has_id i) db.memberships == 1
    then if audit_fits event db
      then (true, record deleted { audit_events = event ∷ db.audit_events })
      else (false, db)
    else (false, deleted)
