-- ===== src/Persistence/Members/Consistency.antt =====
-- The writes of the member repository keep the keys of its tables.
use muxivo_console.Shared.{
  true, false, not, ◌≡◌, refl, inl, inr, arith, ◌&&◌, List, [], ◌∷◌, ◌++◌, any, filter, ◌==◌,
  Bool-cases, Option-cases, count,
}
use muxivo_console.Domain.Activity.{Uuid}
use muxivo_console.Domain.Audit.{AuditEvent}
use muxivo_console.Domain.Organizations.{OrganizationMembership, OrganizationRole}
use muxivo_console.Persistence.Database.{
  Database, MembershipRow, ScopeRow, update_where, scopes_fit, audit_fits,
}
use muxivo_console.Persistence.Members.{
  add_member, update_member, update_member_at, remove_member, is_member, has_id, set_role,
  scope_records,
}
use muxivo_console.Persistence.Members.Writes.{
  HasUniqueIds, HasMembersOnce, AreOwned, IsConsistent, AreOwned-append, add_member_lem,
}

-- A changed role changes no key.
module _ (i : Uuid) (role : OrganizationRole) where
  abbrev with_role : List MembershipRow → List MembershipRow
  with_role = update_where (has_id i) (set_role role)

  any-has_id-with_role :
      (k : Uuid) (rs : List MembershipRow) → any (has_id k) (with_role rs) ≡ any (has_id k) rs
  any-has_id-with_role k [] = refl
  any-has_id-with_role k (r ∷ rs) = ground (arith, any-has_id-with_role k rs)

  any-is_member-with_role :
      (user o : Uuid) (rs : List MembershipRow)
      → any (is_member user o) (with_role rs) ≡ any (is_member user o) rs
  any-is_member-with_role user o [] = refl
  any-is_member-with_role user o (r ∷ rs) = ground (arith, any-is_member-with_role user o rs)

  with_role-HasUniqueIds : (rs : List MembershipRow) → HasUniqueIds rs → HasUniqueIds (with_role rs)
  with_role-HasUniqueIds [] u = tt
  with_role-HasUniqueIds (r ∷ rs) u =
      ground (arith, any-has_id-with_role r.id rs, with_role-HasUniqueIds rs u.1)

  with_role-HasMembersOnce :
      (rs : List MembershipRow) → HasMembersOnce rs → HasMembersOnce (with_role rs)
  with_role-HasMembersOnce [] u = tt
  with_role-HasMembersOnce (r ∷ rs) u = ground (
    arith,
    any-is_member-with_role r.user_id r.organization_id rs,
    with_role-HasMembersOnce rs u.1,
  )

  with_role-AreOwned :
      (ss : List ScopeRow) (rs : List MembershipRow) → AreOwned ss rs → AreOwned ss (with_role rs)
  with_role-AreOwned [] rs w = tt
  with_role-AreOwned (s ∷ ss) rs w =
      (rw (any-has_id-with_role s.membership_id rs) w.0, with_role-AreOwned ss rs w.1)

-- Removing rows removes keys.
module _ (i : Uuid) where
  abbrev without : List MembershipRow → List MembershipRow
  without = filter (λ r. not (has_id i r))

  abbrev unscoped : List ScopeRow → List ScopeRow
  unscoped = filter (λ s. not (s.membership_id == i))

  any-has_id-without :
      (k : Uuid) (rs : List MembershipRow)
      → any (has_id k) rs ≡ false
      → any (has_id k) (without rs) ≡ false
  any-has_id-without k [] h = refl
  any-has_id-without k (r ∷ rs) h = ground (arith, any-has_id-without k rs)

  any-is_member-without :
      (user o : Uuid) (rs : List MembershipRow)
      → any (is_member user o) rs ≡ false
      → any (is_member user o) (without rs) ≡ false
  any-is_member-without user o [] h = refl
  any-is_member-without user o (r ∷ rs) h = ground (arith, any-is_member-without user o rs)

  still_has_id :
      (k : Uuid) (rs : List MembershipRow)
      → (k == i) ≡ false
      → any (has_id k) rs ≡ true
      → any (has_id k) (without rs) ≡ true
  still_has_id k [] ne h = cc
  still_has_id k (r ∷ rs) ne h = ground (arith, still_has_id k rs)

  without-HasUniqueIds : (rs : List MembershipRow) → HasUniqueIds rs → HasUniqueIds (without rs)
  without-HasUniqueIds [] u = tt
  without-HasUniqueIds (r ∷ rs) u =
      ground (arith, any-has_id-without r.id rs u.0, without-HasUniqueIds rs u.1)

  without-HasMembersOnce :
      (rs : List MembershipRow) → HasMembersOnce rs → HasMembersOnce (without rs)
  without-HasMembersOnce [] u = tt
  without-HasMembersOnce (r ∷ rs) u = ground (
    arith,
    any-is_member-without r.user_id r.organization_id rs u.0,
    without-HasMembersOnce rs u.1,
  )

  unscoped-AreOwned :
      (ss : List ScopeRow) (rs : List MembershipRow) → AreOwned ss rs → AreOwned (unscoped ss) rs
  unscoped-AreOwned [] rs w = tt
  unscoped-AreOwned (s ∷ ss) rs w = ground (arith, unscoped-AreOwned ss rs w.1)

  unscoped-without-AreOwned :
      (ss : List ScopeRow) (rs : List MembershipRow)
      → AreOwned ss rs
      → AreOwned (unscoped ss) (without rs)
  unscoped-without-AreOwned [] rs w = tt
  unscoped-without-AreOwned (s ∷ ss) rs w =
      ground (arith, still_has_id s.membership_id rs, unscoped-without-AreOwned ss rs w.1)

add_member-IsConsistent :
    (m : OrganizationMembership) (event : AuditEvent) (db : Database)
    → IsConsistent db
    → IsConsistent (add_member m event db).1
add_member-IsConsistent m event db good = elim (add_member_lem m event db good) [
  | inl (failed, same) ↦ rw same good
  | inr (done, found, audit, consistent) ↦ consistent
]

with_role-IsConsistent :
    (i : Uuid) (role : OrganizationRole) (db : Database)
    → IsConsistent db
    → IsConsistent
        (record db { memberships = update_where (has_id i) (set_role role) db.memberships })
with_role-IsConsistent i role db good = record {
  unique_ids = with_role-HasUniqueIds i role db.memberships good.unique_ids;
  members_once = with_role-HasMembersOnce i role db.memberships good.members_once;
  owned = with_role-AreOwned i role db.scopes db.memberships good.owned;
}

updated-IsConsistent :
    (i : Uuid) (role : OrganizationRole) (rows : List ScopeRow) (event : AuditEvent) (db : Database)
    → IsConsistent db
    → scopes_fit rows
        (filter (λ s. not (s.membership_id == i)) db.scopes)
        (update_where (has_id i) (set_role role) db.memberships)
      ≡ true
    → IsConsistent (record db {
      memberships = update_where (has_id i) (set_role role) db.memberships;
      scopes = rows ++ filter (λ s. not (s.membership_id == i)) db.scopes;
      audit_events = event ∷ db.audit_events;
    })
updated-IsConsistent i role rows event db good fit =
    let ms = update_where (has_id i) (set_role role) db.memberships in
    let kept = filter (λ s. not (s.membership_id == i)) db.scopes in
    record {
      unique_ids = with_role-HasUniqueIds i role db.memberships good.unique_ids;
      members_once = with_role-HasMembersOnce i role db.memberships good.members_once;
      owned = AreOwned-append rows kept kept ms fit (
          with_role-AreOwned i role kept db.memberships
            (unscoped-AreOwned i db.scopes db.memberships good.owned));
    }

update_member_at-IsConsistent :
    (i : Uuid) (m : OrganizationMembership) (event : AuditEvent) (db : Database)
    → IsConsistent db
    → IsConsistent (update_member_at i m event db).1
unfolding update_member_at
update_member_at-IsConsistent i m event db good =
    elim (Bool-cases (count (has_id i) db.memberships == 1)) [
      | inr c ↦ rw c (with_role-IsConsistent i m.role db good)
      | inl c ↦ elim (Option-cases (scope_records i m.resource_scopes)) [
        | inl e ↦ rw (c, e, update_member_at) good
        | inr (rows, e) ↦
            let fits =
              scopes_fit rows (filter (λ s. not (s.membership_id == i)) db.scopes)
                (update_where (has_id i) (set_role m.role) db.memberships)
              && audit_fits event db in
            elim (Bool-cases fits) [
              | inl f ↦
                  rw (c, e, update_member_at)
                    (rw f (updated-IsConsistent i m.role rows event db good (ground arith)))
              | inr f ↦ rw (c, e, update_member_at) (rw f good)
            ]
      ]
    ]

update_member-IsConsistent :
    (m : OrganizationMembership) (event : AuditEvent) (db : Database)
    → IsConsistent db
    → IsConsistent (update_member m event db).1
unfolding update_member
update_member-IsConsistent m event db good = elim (Option-cases m.id) [
  | inl e ↦ rw (e, update_member) good
  | inr (i, e) ↦ rw (e, update_member) (update_member_at-IsConsistent i m event db good)
]

removed-IsConsistent :
    (i : Uuid) (db : Database)
    → IsConsistent db
    → IsConsistent (record db {
      memberships = filter (λ r. not (has_id i r)) db.memberships;
      scopes = filter (λ s. not (s.membership_id == i)) db.scopes;
    })
removed-IsConsistent i db good = record {
  unique_ids = without-HasUniqueIds i db.memberships good.unique_ids;
  members_once = without-HasMembersOnce i db.memberships good.members_once;
  owned = unscoped-without-AreOwned i db.scopes db.memberships good.owned;
}

remove_member-IsConsistent :
    (i : Uuid) (event : AuditEvent) (db : Database)
    → IsConsistent db
    → IsConsistent (remove_member i event db).1
unfolding remove_member
remove_member-IsConsistent i event db good =
    let gone = removed-IsConsistent i db good in
    elim (Bool-cases (count (has_id i) db.memberships == 1)) [
      | inr c ↦ rw c gone
      | inl c ↦ elim (Bool-cases (audit_fits event db)) [
        | inl f ↦ rw c (
            rw f (record {
              unique_ids = gone.unique_ids;
              members_once = gone.members_once;
              owned = gone.owned;
            }))
        | inr f ↦ rw c (rw f good)
      ]
    ]

-- Each write of a member keeps the tables consistent, whether it succeeds or fails: identifiers
-- are unique, a user is a member of an organization once at most, and every scope belongs to a
-- membership.
pub member_writes-IsConsistent :
    (m : OrganizationMembership) (i : Uuid) (event : AuditEvent) (db : Database)
    → IsConsistent db
    → IsConsistent (add_member m event db).1
      × IsConsistent (update_member m event db).1
      × IsConsistent (remove_member i event db).1
member_writes-IsConsistent m i event db good = (
  add_member-IsConsistent m event db good,
  update_member-IsConsistent m event db good,
  remove_member-IsConsistent i event db good,
)
