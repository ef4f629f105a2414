-- ===== src/Persistence/Members/Changes.antt =====
-- Changing and removing a member: one membership, and no other.
use mathlib.Core.List.{append-nil}
use muxivo_console.Shared.{
  true, false, not, ◌≡◌, refl, ◌≢◌, ◌⊎◌, inl, inr, ◌∙◌, arith, none, some, List, [], ◌∷◌, ◌++◌,
  find, filter, count, any, ◌==◌, Option-cases, ok, ◌∙◌,
}
use muxivo_console.Domain.Activity.{Uuid}
use muxivo_console.Domain.Audit.{AuditEvent}
use muxivo_console.Domain.Organizations.{OrganizationMembership, OrganizationRole}
use muxivo_console.Persistence.Database.{Database, MembershipRow, ScopeRow, update_where}
use muxivo_console.Persistence.Connections.{and_then}
use muxivo_console.Persistence.Members.{
  update_member, remove_member, get_membership, membership_from_record, is_member, has_id,
  member_row, scope_records, scopes_of, set_role,
}
use muxivo_console.Persistence.Members.Rows.{
  membership_from_record-rows, scopes_of-records, scopes_of-deleted,
}
use muxivo_console.Persistence.Members.Writes.{IsConsistent, HasUniqueIds, HasMembersOnce}

-- The row that a membership was found in, which has its keys.
membership_keys :
    (r : MembershipRow) (scopes : List ScopeRow) {t : OrganizationMembership}
    → membership_from_record r scopes ≡ some t
    → t.id ≡ some r.id
unfolding membership_from_record
membership_keys r scopes h = ground arith

pub find→keys :
    (user o : Uuid) (x : MembershipRow) (rs : List MembershipRow)
    → find (is_member user o) rs ≡ some x
    → (x.user_id ≡ user) × (x.organization_id ≡ o) × (any (has_id x.id) rs ≡ true)
find→keys user o x [] h = cc
find→keys user o x (r ∷ rs) h = ground (arith, find→keys user o x rs)

pub found_row :
    (user o : Uuid) (db : Database) {t : OrganizationMembership}
    → get_membership user o db ≡ some t
    → (r : MembershipRow) × (find (is_member user o) db.memberships ≡ some r)
      × (t.id ≡ some r.id)
      × (r.user_id ≡ user)
      × (r.organization_id ≡ o)
      × (any (has_id r.id) db.memberships ≡ true)
unfolding get_membership
found_row user o db {t} h = elim (Option-cases (find (is_member user o) db.memberships)) [
  | inl e ↦ absurd (cc (rw (e, and_then) at h))
  | inr (r, e) ↦
      let (u, v, w) = find→keys user o r db.memberships e in
      (r, e, membership_keys r (scopes_of r.id db.scopes) (rw (e, and_then) at h), u, v, w)
]

membership_actor :
    (r : MembershipRow) (rows : List ScopeRow) {t : OrganizationMembership}
    → membership_from_record r rows ≡ some t
    → (t.actor_id ≡ r.user_id) × (t.organization_id ≡ r.organization_id)
unfolding membership_from_record
membership_actor r rows {t} h = ground arith

-- The membership that is found is the user's, in the organization.
pub get_membership_scoped :
    (user o : Uuid) (db : Database) {t : OrganizationMembership}
    → get_membership user o db ≡ some t
    → (t.actor_id ≡ user) × (t.organization_id ≡ o)
unfolding get_membership
get_membership_scoped user o db {t} h =
    elim (Option-cases (find (is_member user o) db.memberships)) [
      | inl e ↦ absurd (cc (rw (e, and_then) at h))
      | inr (r, e) ↦
          let (u, v, w) = find→keys user o r db.memberships e in
          let (a, b) = membership_actor r (scopes_of r.id db.scopes) (rw (e, and_then) at h) in
          (a ∙ u, b ∙ v)
    ]

-- At most one row has the identifier; where none has, nothing is selected.
module _ (i : Uuid) (f : MembershipRow → MembershipRow) where
  unmatched :
      (rs : List MembershipRow)
      → any (has_id i) rs ≡ false
      → (count (has_id i) rs ≡ 0)
        × (update_where (has_id i) f rs ≡ rs)
        × (filter (λ r. not (has_id i r)) rs ≡ rs)
  unmatched [] h = (refl, refl, refl)
  unmatched (r ∷ rs) h = ground (arith, unmatched rs)

  one_match :
      (rs : List MembershipRow)
      → HasUniqueIds rs
      → any (has_id i) rs ≡ true
      → count (has_id i) rs ≡ 1
  one_match [] u h = cc
  one_match (r ∷ rs) u h = ground (arith, unmatched rs, one_match rs u.1)

find-update :
    (role : OrganizationRole) (user o : Uuid) (x : MembershipRow) (rs : List MembershipRow)
    → find (is_member user o) rs ≡ some x
    → find (is_member user o) (update_where (has_id x.id) (set_role role) rs)
      ≡ some (set_role role x)
find-update role user o x [] h = cc
find-update role user o x (r ∷ rs) h = ground (arith, find-update role user o x rs)

-- The row with its new role is the row of the changed membership.
set_role-member_row :
    (m : OrganizationMembership) (r : MembershipRow)
    → r.user_id ≡ m.actor_id
    → r.organization_id ≡ m.organization_id
    → set_role m.role r ≡ member_row r.id m
set_role-member_row m r u o = ground arith

module _ (m : OrganizationMembership) (event : AuditEvent) (db : Database) (r : MembershipRow) where
  abbrev changed : List ScopeRow → Database
  changed rows = record db {
    memberships = update_where (has_id r.id) (set_role m.role) db.memberships;
    scopes = rows ++ filter (λ s. not (s.membership_id == r.id)) db.scopes;
    audit_events = event ∷ db.audit_events;
  }

  changed_found :
      (rows : List ScopeRow)
      → m.id ≡ some r.id
      → scope_records r.id m.resource_scopes ≡ some rows
      → find (is_member m.actor_id m.organization_id) db.memberships ≡ some r
      → r.user_id ≡ m.actor_id
      → r.organization_id ≡ m.organization_id
      → get_membership m.actor_id m.organization_id (changed rows) ≡ some m
  unfolding get_membership
  changed_found rows id written found u o =
      let kept = filter (λ s. not (s.membership_id == r.id)) db.scopes in
      rw (find-update m.role m.actor_id m.organization_id r db.memberships found) (
        rw (set_role-member_row m r u o) (
          rw (scopes_of-records r.id m.resource_scopes rows kept written) (
            rw (scopes_of-deleted r.id db.scopes)
              (rw append-nil (membership_from_record-rows r.id m rows id written)))))

-- Changing a member who was found, in a consistent database, either changes nothing, or the member
-- is found with the new role and the new scopes and no others, and one audit event has been added.
pub update_member_lem :
    (t m : OrganizationMembership) (event : AuditEvent) (db : Database)
    → IsConsistent db
    → get_membership m.actor_id m.organization_id db ≡ some t
    → m.id ≡ t.id
    → let (r, db') = update_member m event db in
      (r ≢ ok true) × (db' ≡ db)
      ⊎ (r ≡ ok true)
        × (get_membership m.actor_id m.organization_id db' ≡ some m)
        × (db'.audit_events ≡ event ∷ db.audit_events)
unfolding update_member
update_member_lem t m event db good h same =
    let (r, found, id, u, o, present) = found_row m.actor_id m.organization_id db h in
    let own : m.id ≡ some r.id = same ∙ id in
    elim (Option-cases (scope_records r.id m.resource_scopes)) [
      | inl e ↦
          ground (arith, one_match r.id (set_role m.role) db.memberships good.unique_ids present)
      | inr (rows, e) ↦ ground (
        arith,
        one_match r.id (set_role m.role) db.memberships good.unique_ids present,
        changed_found m event db r rows own e found u o,
      )
    ]

find-none :
    (user o : Uuid) (rs : List MembershipRow)
    → any (is_member user o) rs ≡ false
    → find (is_member user o) rs ≡ none
find-none user o [] h = refl
find-none user o (r ∷ rs) h = ground (arith, find-none user o rs)

-- Removing a row leaves no other one for the same user and organization.
find-removed :
    (user o : Uuid) (x : MembershipRow) (rs : List MembershipRow)
    → HasMembersOnce rs
    → HasUniqueIds rs
    → find (is_member user o) rs ≡ some x
    → find (is_member user o) (filter (λ r. not (has_id x.id r)) rs) ≡ none
find-removed user o x [] once u h = refl
find-removed user o x (r ∷ rs) once u h = ground (
  arith,
  find-none user o rs,
  unmatched r.id (λ y. y) rs u.0,
  find→keys user o x rs,
  find-removed user o x rs once.1 u.1,
)

-- Removing a member who was found, in a consistent database, either changes nothing, or the user
-- is no longer a member of the organization and one audit event has been added.
pub remove_member_lem :
    (user o i : Uuid) (t : OrganizationMembership) (event : AuditEvent) (db : Database)
    → IsConsistent db
    → get_membership user o db ≡ some t
    → t.id ≡ some i
    → let (done, db') = remove_member i event db in
      (done ≡ false) × (db' ≡ db)
      ⊎ (done ≡ true)
        × (get_membership user o db' ≡ none)
        × (db'.audit_events ≡ event ∷ db.audit_events)
unfolding remove_member get_membership
remove_member_lem user o i t event db good h id =
    let (r, found, id', u, p, present) = found_row user o db h in
    ground (
      arith,
      one_match i (set_role t.role) db.memberships good.unique_ids,
      find-removed user o r db.memberships good.members_once good.unique_ids found,
    )
