-- ===== src/Persistence/Members/Others.antt =====
-- The writes of the member repository leave the other members as they were.
use muxivo_console.Shared.{
  true, false, not, ◌≡◌, ◌≢◌, refl, ◌∙◌, sym, ◌&&◌, inl, inr, arith, some, List, [], ◌∷◌, ◌++◌, any,
  find, filter, ◌==◌, Bool-cases, Option-cases, count,
}
use muxivo_console.Domain.Activity.{Uuid}
use muxivo_console.Domain.Audit.{AuditEvent}
use muxivo_console.Domain.Organizations.{
  OrganizationMembership, OrganizationRole, MembershipResourceScope,
}
use muxivo_console.Persistence.Database.{
  Database, MembershipRow, ScopeRow, update_where, scopes_fit, audit_fits, membership_fits,
}
use muxivo_console.Persistence.Members.{
  get_membership, membership_from_record, add_member, add_member_at, update_member,
  update_member_at, remove_member, is_member, has_id, set_role, scope_records, scopes_of,
  member_row,
}
use muxivo_console.Persistence.Members.Rows.{scope_records-cons}
use muxivo_console.Persistence.Members.Changes.{found_row, find→keys}
use muxivo_console.Persistence.Members.Writes.{HasUniqueIds, IsConsistent}

module _ (user o : Uuid) (x : MembershipRow) where
  find-update_other :
      (i : Uuid) (role : OrganizationRole) (rs : List MembershipRow)
      → x.id ≢ i
      → find (is_member user o) rs ≡ some x
      → find (is_member user o) (update_where (has_id i) (set_role role) rs) ≡ some x
  find-update_other i role [] ne h = h
  find-update_other i role (r ∷ rs) ne h = ground (arith, find-update_other i role rs ne)

  find-remove_other :
      (i : Uuid) (rs : List MembershipRow)
      → x.id ≢ i
      → find (is_member user o) rs ≡ some x
      → find (is_member user o) (filter (λ r. not (has_id i r)) rs) ≡ some x
  find-remove_other i [] ne h = h
  find-remove_other i (r ∷ rs) ne h = ground (arith, find-remove_other i rs ne)

scopes_of-kept :
    (k i : Uuid) (ss : List ScopeRow)
    → k ≢ i
    → scopes_of k (filter (λ s. not (s.membership_id == i)) ss) ≡ scopes_of k ss
scopes_of-kept k i [] ne = refl
scopes_of-kept k i (s ∷ ss) ne = ground (arith, scopes_of-kept k i ss ne)

scopes_of-records_other :
    (k i : Uuid) (ss : List MembershipResourceScope) (rows old : List ScopeRow)
    → k ≢ i
    → scope_records i ss ≡ some rows
    → scopes_of k (rows ++ old) ≡ scopes_of k old
scopes_of-records_other k i [] rows old ne h = let nothing : [] ≡ rows = cc in rw (← nothing)
scopes_of-records_other k i (s ∷ ss) rows old ne h =
    let (j, rest, e, eq, whole) = scope_records-cons i s ss h in
    rw (← whole) (ground (arith, scopes_of-records_other k i ss rest old ne eq))

-- What is found depends on the row and its scopes alone.
found_again :
    (user o : Uuid) (x : MembershipRow) (t : OrganizationMembership) (db db' : Database)
    → find (is_member user o) db.memberships ≡ some x
    → find (is_member user o) db'.memberships ≡ some x
    → scopes_of x.id db'.scopes ≡ scopes_of x.id db.scopes
    → get_membership user o db ≡ some t
    → get_membership user o db' ≡ some t
unfolding get_membership
found_again user o x t db db' before after scopes h = ground arith

find→any :
    (user o : Uuid) (x : MembershipRow) (rs : List MembershipRow)
    → find (is_member user o) rs ≡ some x
    → any (λ r. r.organization_id == o && r.user_id == user) rs ≡ true
find→any user o x [] h = cc
find→any user o x (r ∷ rs) h = ground (arith, find→any user o x rs)

-- A row that meets the constraints is another one than a row that was found.
fits-apart :
    (user o i : Uuid) (x : MembershipRow) (m : OrganizationMembership) (db : Database)
    → membership_fits (member_row i m) db ≡ true
    → find (is_member user o) db.memberships ≡ some x
    → any (has_id x.id) db.memberships ≡ true
    → (is_member user o (member_row i m) ≡ false) × (x.id ≢ i)
fits-apart user o i x m db fits found present =
    let taken = find→any user o x db.memberships found in
    (
      elim (Bool-cases (is_member user o (member_row i m))) [
        | inr e ↦ e
        | inl e ↦ absurd (ground arith)
      ],
      λ e. ground arith,
    )

module _ (user o : Uuid) (t : OrganizationMembership) (event : AuditEvent) (db : Database)
    (h : get_membership user o db ≡ some t) where
  update_member_at_others :
      (i : Uuid) (m : OrganizationMembership)
      → t.id ≢ some i
      → get_membership user o (update_member_at i m event db).1 ≡ some t
  unfolding update_member_at
  update_member_at_others i m ne =
      let (r, found, id, u, p, present) = found_row user o db h in
      let other : r.id ≢ i = λ e. ground arith in
      let kept = filter (λ s. not (s.membership_id == i)) db.scopes in
      let found' = find-update_other user o r i m.role db.memberships other found in
      elim (Bool-cases (count (has_id i) db.memberships == 1)) [
        | inr c ↦ rw c (found_again user o r t db _ found found' refl h)
        | inl c ↦ elim (Option-cases (scope_records i m.resource_scopes)) [
          | inl e ↦ rw (c, e, update_member_at) h
          | inr (rows, e) ↦
              let fits =
                scopes_fit rows kept (update_where (has_id i) (set_role m.role) db.memberships)
                && audit_fits event db in
              let scopes =
                scopes_of-records_other r.id i m.resource_scopes rows kept other e
                ∙ scopes_of-kept r.id i db.scopes other in
              elim (Bool-cases fits) [
                | inl f ↦
                    rw (c, e, update_member_at)
                      (rw f (found_again user o r t db _ found found' scopes h))
                | inr f ↦ rw (c, e, update_member_at) (rw f h)
              ]
        ]
      ]

  pub update_member_others :
      (m : OrganizationMembership)
      → t.id ≢ m.id
      → get_membership user o (update_member m event db).1 ≡ some t
  unfolding update_member
  update_member_others m ne = elim (Option-cases m.id) [
    | inl e ↦ rw (e, update_member) h
    | inr (i, e) ↦ rw (e, update_member) (update_member_at_others i m (λ same. ne (same ∙ sym e)))
  ]

  pub remove_member_others :
      (i : Uuid) → t.id ≢ some i → get_membership user o (remove_member i event db).1 ≡ some t
  unfolding remove_member
  remove_member_others i ne =
      let (r, found, id, u, p, present) = found_row user o db h in
      let other : r.id ≢ i = λ e. ground arith in
      let later = λ (db' : Database). found_again user o r t db db' found in
      elim (Bool-cases (count (has_id i) db.memberships == 1)) [
        | inr c ↦ rw c (
            later _ (find-remove_other user o r i db.memberships other found)
              (scopes_of-kept r.id i db.scopes other) h)
        | inl c ↦ elim (Bool-cases (audit_fits event db)) [
          | inl f ↦ rw c (
              rw f (
                later _ (find-remove_other user o r i db.memberships other found)
                  (scopes_of-kept r.id i db.scopes other) h))
          | inr f ↦ rw c (rw f h)
        ]
      ]

  add_member_at_others :
      (i : Uuid) (m : OrganizationMembership)
      → get_membership user o (add_member_at i m event db).1 ≡ some t
  unfolding add_member_at
  add_member_at_others i m =
      let (r, found, id, u, p, present) = found_row user o db h in
      elim (Bool-cases (membership_fits (member_row i m) db)) [
        | inr c ↦ rw c h
        | inl c ↦ elim (Option-cases (scope_records i m.resource_scopes)) [
          | inl e ↦ rw (c, e, add_member_at) h
          | inr (rows, e) ↦
              let (apart, other) = fits-apart user o i r m db c found present in
              let found' : find (is_member user o) (member_row i m ∷ db.memberships) ≡ some r =
                rw apart found in
              let scopes =
                scopes_of-records_other r.id i m.resource_scopes rows db.scopes other e in
              elim (Bool-cases (
                scopes_fit rows db.scopes (member_row i m ∷ db.memberships)
                && audit_fits event db)) [
                  | inl f ↦
                      rw (c, e, add_member_at)
                        (rw f (found_again user o r t db _ found found' scopes h))
                  | inr f ↦ rw (c, e, add_member_at) (rw f h)
                ]
        ]
      ]

  pub add_member_others :
      (m : OrganizationMembership) → get_membership user o (add_member m event db).1 ≡ some t
  unfolding add_member
  add_member_others m = elim (Option-cases m.id) [
    | inl e ↦ rw (e, add_member) h
    | inr (i, e) ↦ rw (e, add_member) (add_member_at_others i m)
  ]

same_row :
    (u o u' o' : Uuid) (x y : MembershipRow) (rs : List MembershipRow)
    → HasUniqueIds rs
    → find (is_member u o) rs ≡ some x
    → find (is_member u' o') rs ≡ some y
    → x.id ≡ y.id
    → x ≡ y
same_row u o u' o' x y [] unique hx hy e = cc
same_row u o u' o' x y (r ∷ rs) unique hx hy e =
    ground (arith, same_row u o u' o' x y rs unique.1, find→keys u o x rs, find→keys u' o' y rs)

built_from :
    (u o : Uuid) (r : MembershipRow) (t : OrganizationMembership) (db : Database)
    → find (is_member u o) db.memberships ≡ some r
    → get_membership u o db ≡ some t
    → membership_from_record r (scopes_of r.id db.scopes) ≡ some t
unfolding get_membership
built_from u o r t db found h = ground arith

-- Memberships that are found with one identifier are one membership.
pub same_membership :
    (u o u' o' : Uuid) (t t' : OrganizationMembership) (db : Database)
    → IsConsistent db
    → get_membership u o db ≡ some t
    → get_membership u' o' db ≡ some t'
    → t.id ≡ t'.id
    → t ≡ t'
same_membership u o u' o' t t' db good h h' e =
    let (r, found, id, _, _, _) = found_row u o db h in
    let (r', found', id', _, _, _) = found_row u' o' db h' in
    let same : r ≡ r' =
      same_row u o u' o' r r' db.memberships good.unique_ids found found' (ground arith) in
    let built = built_from u o r t db found h in
    let built' = built_from u' o' r' t' db found' h' in cc
