-- ===== src/Persistence/Members/Writes.antt =====
-- What the writes of the member repository do to the tables.
use mathlib.Core.List.{append-nil}
use muxivo_console.Shared.{
  Bool, true, false, ◌≡◌, refl, ◌≢◌, ◌⊎◌, inl, inr, arith, some, List, [], ◌∷◌, ◌++◌, any, ◌==◌,
  Bool-cases, Option-cases, ok, ==_self, Result,
}
use muxivo_console.Domain.Activity.{Uuid}
use muxivo_console.Domain.Audit.{AuditEvent}
use muxivo_console.Domain.Organizations.{OrganizationMembership}
use muxivo_console.Persistence.Database.{
  Database, MembershipRow, ScopeRow, membership_fits, scopes_fit,
}
use muxivo_console.Persistence.Members.{
  add_member, get_membership, is_member, has_id, member_row, scope_records, scopes_of,
  MemberWriteError,
}
use muxivo_console.Persistence.Members.Rows.{membership_from_record-rows, scopes_of-records}

-- The primary key of the memberships.
abbrev pub HasUniqueIds : List MembershipRow → Type 0
HasUniqueIds [] = Unit
HasUniqueIds (r ∷ rs) = (any (has_id r.id) rs ≡ false) × HasUniqueIds rs

-- `uq_organization_membership`
abbrev pub HasMembersOnce : List MembershipRow → Type 0
HasMembersOnce [] = Unit
HasMembersOnce (r ∷ rs) =
    (any (is_member r.user_id r.organization_id) rs ≡ false) × HasMembersOnce rs

-- The foreign key of the scopes.
abbrev pub AreOwned : List ScopeRow → List MembershipRow → Type 0
AreOwned [] ms = Unit
AreOwned (s ∷ ss) ms = (any (has_id s.membership_id) ms ≡ true) × AreOwned ss ms

pub record IsConsistent (db : Database) : Type 0 where
  pub unique_ids : HasUniqueIds db.memberships
  pub members_once : HasMembersOnce db.memberships
  pub owned : AreOwned db.scopes db.memberships

-- A membership that the table does not hold has no scopes.
no_scopes :
    (i : Uuid) (ss : List ScopeRow) (ms : List MembershipRow)
    → AreOwned ss ms
    → any (has_id i) ms ≡ false
    → scopes_of i ss ≡ []
no_scopes i [] ms w h = refl
no_scopes i (s ∷ ss) ms w h = elim (Bool-cases (s.membership_id == i)) [
  | inl e ↦ absurd (ground (arith, w.0))
  | inr e ↦ rw e (no_scopes i ss ms w.1 h)
]

-- A new membership leaves the scopes owned.
AreOwned-cons :
    (r : MembershipRow) (ss : List ScopeRow) (ms : List MembershipRow)
    → AreOwned ss ms
    → AreOwned ss (r ∷ ms)
AreOwned-cons r [] ms w = tt
AreOwned-cons r (s ∷ ss) ms w = ground (arith, AreOwned-cons r ss ms w.1)

pub AreOwned-append :
    (rows present ss : List ScopeRow) (ms : List MembershipRow)
    → scopes_fit rows present ms ≡ true
    → AreOwned ss ms
    → AreOwned (rows ++ ss) ms
AreOwned-append [] present ss ms fit w = w
AreOwned-append (r ∷ rows) present ss ms fit w =
    ground (arith, AreOwned-append rows (r ∷ present) ss ms)

-- What a call of `add_member` has done.
abbrev pub Adds :
    OrganizationMembership
    → AuditEvent
    → Database
    → Result MemberWriteError Bool × Database
    → Type 0
Adds m event db (r, db') =
    (r ≢ ok true) × (db' ≡ db)
    ⊎ (r ≡ ok true)
      × (get_membership m.actor_id m.organization_id db' ≡ some m)
      × (db'.audit_events ≡ event ∷ db.audit_events)
      × IsConsistent db'

module _ (i : Uuid) (m : OrganizationMembership) (event : AuditEvent) (db : Database) where
  -- The tables after a member has been added with these scopes.
  abbrev added : List ScopeRow → Database
  added rows = record db {
    memberships = member_row i m ∷ db.memberships;
    scopes = rows ++ db.scopes;
    audit_events = event ∷ db.audit_events;
  }

  module _ (rows : List ScopeRow) (id : m.id ≡ some i)
      (written : scope_records i m.resource_scopes ≡ some rows)
      (fits : membership_fits (member_row i m) db ≡ true) (good : IsConsistent db) where
    fresh : any (has_id i) db.memberships ≡ false
    fresh = ground arith

    added_found : get_membership m.actor_id m.organization_id (added rows) ≡ some m
    unfolding get_membership
    added_found = rw (==_self m.actor_id) (
        rw (==_self m.organization_id) (
          rw (scopes_of-records i m.resource_scopes rows db.scopes written) (
            rw (no_scopes i db.scopes db.memberships good.owned fresh)
              (rw append-nil (membership_from_record-rows i m rows id written)))))

    added-IsConsistent :
        scopes_fit rows db.scopes (member_row i m ∷ db.memberships) ≡ true
        → IsConsistent (added rows)
    added-IsConsistent fit = record {
      unique_ids = (fresh, good.unique_ids);
      members_once = (ground arith, good.members_once);
      owned =
          AreOwned-append rows db.scopes db.scopes (member_row i m ∷ db.memberships) fit
            (AreOwned-cons (member_row i m) db.scopes db.memberships good.owned);
    }

-- In a consistent database, adding a membership that has an identifier either changes nothing, or
-- the membership is found as it was given, scopes included, one audit event has been added, and
-- the tables are consistent.
pub add_member_lem :
    (m : OrganizationMembership) (event : AuditEvent) (db : Database)
    → IsConsistent db
    → Adds m event db (add_member m event db)
unfolding add_member
add_member_lem m event db good = elim (Option-cases m.id) [
  | inl e ↦ ground arith
  | inr (i, e) ↦ elim (Option-cases (scope_records i m.resource_scopes)) [
    | inl e' ↦ ground arith
    | inr (rows, written) ↦ ground (
      arith,
      added_found i m event db rows e written,
      added-IsConsistent i m event db rows e written,
    )
  ]
]
