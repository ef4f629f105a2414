-- ===== src/Persistence/Members/Rows.antt =====
-- A membership survives its rows, scopes included.
use muxivo_console.Shared.{
  ◌≡◌, refl, arith, some, List, [], ◌∷◌, ◌++◌, inl, inr, Option-cases, ap, not, filter, ◌==◌,
  ==_self,
}
use muxivo_console.Domain.Activity.{Uuid}
use muxivo_console.Domain.Organizations.{OrganizationMembership, MembershipResourceScope}
use muxivo_console.Domain.Authorization.{AuthorizationAction, AuthorizationResource}
use muxivo_console.Persistence.Values.{
  to_role-value, to_resource-value, to_action-value, resource_value, action_value,
}
use muxivo_console.Persistence.Database.{ScopeRow}
use muxivo_console.Persistence.Members.{
  membership_from_record, member_row, scope_from_row, scope_records, scopes_from_rows, scopes_of,
}

abbrev row_at : Uuid → Uuid → AuthorizationResource → AuthorizationAction → ScopeRow
row_at i k q a = record {
  id = k;
  membership_id = i;
  resource = resource_value q;
  action = action_value a;
}

scope_from_row-at :
    (i k : Uuid) (q : AuthorizationResource) (a : AuthorizationAction)
    → scope_from_row (row_at i k q a) ≡ some (record { resource = q; action = a; id = some k })
scope_from_row-at i k q a =
    rw (to_resource-value q, scope_from_row) (rw (to_action-value a, scope_from_row))

-- The first row and the others.
pub scope_records-cons :
    (i : Uuid) (s : MembershipResourceScope) (ss : List MembershipResourceScope)
    {rows : List ScopeRow}
    → scope_records i (s ∷ ss) ≡ some rows
    → (k : Uuid) × (rest : List ScopeRow) × (s.id ≡ some k)
      × (scope_records i ss ≡ some rest)
      × (row_at i k s.resource s.action ∷ rest ≡ rows)
scope_records-cons i s ss h = elim (Option-cases s.id) [
  | inl e ↦ absurd (cc (rw (e, scope_records) at h))
  | inr (k, e) ↦ elim (Option-cases (scope_records i ss)) [
    | inl none_left ↦ absurd (cc (rw (e, none_left, scope_records) at h))
    | inr (rest, eq) ↦ (k, rest, e, eq, cc (rw (e, eq, scope_records) at h))
  ]
]

-- The rows written for a list of scopes are read back as those scopes.
pub scopes_from_rows-records :
    (i : Uuid) (ss : List MembershipResourceScope) (rows : List ScopeRow)
    → scope_records i ss ≡ some rows
    → scopes_from_rows rows ≡ some ss
scopes_from_rows-records i [] rows h = ground arith
scopes_from_rows-records i (s ∷ ss) rows h =
    let (k, rest, e, eq, whole) = scope_records-cons i s ss h in
    rw (← whole) (
      rw (scope_from_row-at i k s.resource s.action, scopes_from_rows)
        (rw (scopes_from_rows-records i ss rest eq, scopes_from_rows) (ground arith)))

-- All of them belong to the membership, and so they are what is selected for it besides what
-- the table held for it.
pub scopes_of-records :
    (i : Uuid) (ss : List MembershipResourceScope) (rows old : List ScopeRow)
    → scope_records i ss ≡ some rows
    → scopes_of i (rows ++ old) ≡ rows ++ scopes_of i old
scopes_of-records i [] rows old h = let nothing : [] ≡ rows = cc in rw (← nothing)
scopes_of-records i (s ∷ ss) rows old h =
    let (k, rest, e, eq, whole) = scope_records-cons i s ss h in
    rw (← whole) (
      rw (==_self i) (
        ap (λ (x : List ScopeRow). row_at i k s.resource s.action ∷ x)
          (scopes_of-records i ss rest old eq)))

-- What was deleted is not selected.
pub scopes_of-deleted :
    (i : Uuid) (rows : List ScopeRow)
    → scopes_of i (filter (λ s. not (s.membership_id == i)) rows) ≡ []
scopes_of-deleted i [] = refl
scopes_of-deleted i (r ∷ rows) = ground (arith, scopes_of-deleted i rows)

-- A membership is read back from the rows written for it.
pub membership_from_record-rows :
    (i : Uuid) (m : OrganizationMembership) (rows : List ScopeRow)
    → m.id ≡ some i
    → scope_records i m.resource_scopes ≡ some rows
    → membership_from_record (member_row i m) rows ≡ some m
unfolding membership_from_record
membership_from_record-rows i m rows e h =
    rw (to_role-value m.role, membership_from_record)
      (rw (scopes_from_rows-records i m.resource_scopes rows h, membership_from_record)
        (ground arith))
