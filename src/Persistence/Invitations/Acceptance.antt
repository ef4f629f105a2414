-- ===== src/Persistence/Invitations/Acceptance.antt =====
-- What an acceptance does to the tables.
use mathlib.Core.Path.{subst}
use muxivo_console.Shared.{
  ℕ, ◌+◌, Bool, true, false, ◌≡◌, ◌≢◌, ◌⊎◌, refl, arith, some, List, [], ◌∷◌, count, ◌==◌, ==_self,
  ==_iff, Result, ok, err, Bool-cases, Option-cases, inl, inr, ap, sym, ◌∙◌,
}
use muxivo_console.Domain.Activity.{Uuid}
use muxivo_console.Domain.Audit.{AuditEvent}
use muxivo_console.Domain.Invitations.{OrganizationInvitation}
use muxivo_console.Domain.Organizations.{OrganizationMembership}
use muxivo_console.Persistence.Database.{Database, InvitationRow, update_where, has_invitation}
use muxivo_console.Persistence.Members.{MemberWriteError, get_membership, add_member, add_member_at}
use muxivo_console.Persistence.Members.Writes.{IsConsistent, add_member_lem}
use muxivo_console.Persistence.Invitations.{is_pending, accept_row, is_done, accept, accept_at}
use muxivo_console.Persistence.Invitations.Closing.{opened, accepting, add_member_at_invitations}

-- The primary key of the invitations.
abbrev pub HasUniqueIds : List InvitationRow → Type 0
HasUniqueIds [] = Unit
HasUniqueIds (r ∷ rs) = (has_invitation r.id rs ≡ false) × HasUniqueIds rs

module _ (i o : Uuid) (at : ℕ) where
  unmatched :
      (rs : List InvitationRow)
      → has_invitation i rs ≡ false
      → (count (is_pending i o at) rs ≡ 0)
        × (update_where (is_pending i o at) (accept_row at) rs ≡ rs)
  unmatched [] h = (refl, refl)
  unmatched (r ∷ rs) h = ground (arith, unmatched rs)

  one_match :
      (rs : List InvitationRow)
      → HasUniqueIds rs
      → (count (is_pending i o at) rs ≡ 1)
        ⊎ (update_where (is_pending i o at) (accept_row at) rs ≡ rs)
  one_match [] u = inr refl
  one_match (r ∷ rs) u = ground (arith, unmatched rs, one_match rs u.1)

not_done : (r : Result MemberWriteError Bool) → r ≢ ok true → is_done r ≡ false
not_done (ok true) h = absurd (h refl)
not_done (ok false) h = refl
not_done (err e) h = refl

module _ (i : OrganizationInvitation) (m : OrganizationMembership) (at : ℕ) (event : AuditEvent)
    (db : Database) where
  abbrev pub Accepts : Result MemberWriteError Bool × Database → Type 0
  Accepts (r, db') =
      (is_done r ≡ false) × (db' ≡ db)
      ⊎ (r ≡ ok true)
        × (get_membership m.actor_id m.organization_id db' ≡ some m)
        × (db'.audit_events ≡ event ∷ db.audit_events)
        × IsConsistent db'
        × (opened i.id db' + 1 ≡ opened i.id db)

  abbrev written : Database
  written = record db {
    invitations =
        update_where (is_pending i.id i.organization_id at) (accept_row at) db.invitations;
  }

  one_fewer :
      count (is_pending i.id i.organization_id at) db.invitations ≡ 1
      → opened i.id written + 1 ≡ opened i.id db
  one_fewer one =
      let sum = accepting i.id i.id i.organization_id at db.invitations in
      let self = ==_self i.id in ground (arith, sum)

  accept_at-Accepts :
      (k : Uuid)
      → m.id ≡ some k
      → IsConsistent db
      → HasUniqueIds db.invitations
      → Accepts (accept_at k i m at event db)
  unfolding accept_at add_member
  accept_at-Accepts k id good unique =
      let pending = is_pending i.id i.organization_id at in
      let good' : IsConsistent written = record {
        unique_ids = good.unique_ids;
        members_once = good.members_once;
        owned = good.owned;
      } in
      let same : add_member m event written ≡ add_member_at k m event written =
        rw (id, add_member) refl in
      elim (Bool-cases (count pending db.invitations == 1)) [
        | inr c ↦ elim (one_match i.id i.organization_id at db.invitations unique) [
          | inl one ↦ absurd (ground arith)
          | inr kept ↦ rw c (inl (refl, ap (λ rows. record db { invitations = rows }) kept))
        ]
        | inl c ↦ elim (add_member_lem m event written good') [
          | inl (failed, unchanged) ↦
              let missed : is_done (add_member_at k m event written).0 ≡ false =
                not_done (add_member_at k m event written).0 (λ e.
                  failed (ap (λ (x : Result MemberWriteError Bool × Database). x.0) same ∙ e)) in
              rw c (rw missed (inl (refl, refl)))
          | inr (done, found, audit, consistent) ↦
              let made : (add_member_at k m event written).0 ≡ ok true =
                ap (λ (x : Result MemberWriteError Bool × Database). x.0) (sym same) ∙ done in
              let fewer = one_fewer ((==_iff (count pending db.invitations) 1).0 c) in
              rw c (
                rw made (
                  inr (
                    refl,
                    subst
                        (λ (x : Result MemberWriteError Bool × Database).
                          get_membership m.actor_id m.organization_id x.1 ≡ some m)
                        same found,
                    subst
                        (λ (x : Result MemberWriteError Bool × Database).
                          x.1.audit_events ≡ event ∷ db.audit_events)
                        same audit,
                    subst (λ (x : Result MemberWriteError Bool × Database). IsConsistent x.1) same
                        consistent,
                    rw (add_member_at_invitations k m event written) fewer,
                  )))
        ]
      ]

  -- In consistent tables, accepting an invitation with a membership either fails and changes
  -- nothing, or the membership is found, scopes included, with one audit event; the tables stay
  -- consistent and the invitation is no longer open.
  pub accept_lem : IsConsistent db → HasUniqueIds db.invitations → Accepts (accept i m at event db)
  unfolding accept accept_at add_member_at
  accept_lem good unique = elim (Option-cases m.id) [
    | inl e ↦ rw (e, accept) (inl (refl, refl))
    | inr (k, e) ↦
        let same : accept i m at event db ≡ accept_at k i m at event db = rw (e, accept) refl in
        subst Accepts (sym same) (accept_at-Accepts k e good unique)
  ]
