-- ===== src/Persistence/Invitations/Closing.antt =====
-- An invitation is accepted or revoked once at most.
use muxivo_console.Shared.{
  ℕ, ◌+◌, ◌≤◌, Bool, false, ◌&&◌, ◌≡◌, refl, arith, some, List, [], ◌∷◌, count, ◌==◌, if◌then◌else◌,
  Bool-cases, Option-cases, inl, inr, one_if,
}
use muxivo_console.Domain.Activity.{Uuid}
use muxivo_console.Domain.Audit.{AuditEvent}
use muxivo_console.Domain.Invitations.{OrganizationInvitation, OrganizationInvitationDeliveryStatus}
use muxivo_console.Domain.Organizations.{OrganizationMembership}
use muxivo_console.Persistence.Database.{
  Database, InvitationRow, update_where, audit_fits, membership_fits, scopes_fit,
}
use muxivo_console.Persistence.Members.{add_member_at, scope_records, member_row}
use muxivo_console.Persistence.Invitations.{
  is_open, is_pending, is_invitation, accept_row, revoke_invitation_row, is_done, delivery_value,
  create_invitation, accept, accept_at, revoke_invitation, update_delivery_status,
  invitation_scope_records,
}

-- How many rows of the identifier are open, one at most by the primary key.
abbrev pub is_open_of : Uuid → InvitationRow → Bool
is_open_of k r = r.id == k && is_open r

abbrev pub opened : Uuid → Database → ℕ
opened k db = count (is_open_of k) db.invitations

module _ (k i o : Uuid) (at : ℕ) where
  pub accepting :
      (rs : List InvitationRow)
      → count (is_open_of k) (update_where (is_pending i o at) (accept_row at) rs)
          + (if i == k then count (is_pending i o at) rs else 0)
        ≡ count (is_open_of k) rs
  accepting [] = ground arith
  accepting (r ∷ rs) = ground (arith, accepting rs)

  revoking :
      (rs : List InvitationRow)
      → count (is_open_of k) (update_where (is_pending i o at) (revoke_invitation_row at) rs)
          + (if i == k then count (is_pending i o at) rs else 0)
        ≡ count (is_open_of k) rs
  revoking [] = ground arith
  revoking (r ∷ rs) = ground (arith, revoking rs)

  delivering :
      (status : OrganizationInvitationDeliveryStatus) (rs : List InvitationRow)
      → count (is_open_of k) (
          update_where
            (is_invitation i o)
            (λ r. record r { delivery_status = some (delivery_value status) })
            rs)
        ≡ count (is_open_of k) rs
  delivering status [] = refl
  delivering status (r ∷ rs) = ground (arith, delivering status rs)

pub add_member_at_invitations :
    (i : Uuid) (m : OrganizationMembership) (event : AuditEvent) (db : Database)
    → (add_member_at i m event db).1.invitations ≡ db.invitations
unfolding add_member_at
add_member_at_invitations i m event db = elim (Bool-cases (membership_fits (member_row i m) db)) [
  | inr c ↦ rw c refl
  | inl c ↦ elim (Option-cases (scope_records i m.resource_scopes)) [
    | inl e ↦ rw (c, e, add_member_at) refl
    | inr (rows, e) ↦
        elim (Bool-cases
          (scopes_fit rows db.scopes (member_row i m ∷ db.memberships) && audit_fits event db)) [
            | inl f ↦ rw (c, e, add_member_at) (rw f refl)
            | inr f ↦ rw (c, e, add_member_at) (rw f refl)
          ]
  ]
]

-- The writes of invitations, and the identifier that each is about.
pub data InvitationWrite : Type 0 where
  to_create : OrganizationInvitation → AuditEvent → InvitationWrite
  to_accept : OrganizationInvitation → OrganizationMembership → ℕ → AuditEvent → InvitationWrite
  to_revoke : Uuid → Uuid → ℕ → AuditEvent → InvitationWrite
  to_deliver : Uuid → Uuid → OrganizationInvitationDeliveryStatus → InvitationWrite

abbrev pub is_creation_of : Uuid → InvitationWrite → Bool
is_creation_of k (InvitationWrite.to_create i event) = i.id == k
is_creation_of k _ = false

-- An acceptance or a revocation.
abbrev pub is_closing_of : Uuid → InvitationWrite → Bool
is_closing_of k (InvitationWrite.to_accept i m at event) = i.id == k
is_closing_of k (InvitationWrite.to_revoke i o at event) = i == k
is_closing_of k _ = false

-- Whether a write reports success, and the tables after it.
unfoldable pub invitation_step : InvitationWrite → Database → Bool × Database
invitation_step (InvitationWrite.to_create i event) db =
    let (r, db') = create_invitation i event db in (is_done r, db')
invitation_step (InvitationWrite.to_accept i m at event) db =
    let (r, db') = accept i m at event db in (is_done r, db')
invitation_step (InvitationWrite.to_revoke i o at event) db = revoke_invitation i o at event db
invitation_step (InvitationWrite.to_deliver i o status) db = update_delivery_status i o status db

abbrev pub Closes : Uuid → InvitationWrite → Bool × Database → Database → Type 0
Closes k w (done, db') db =
    one_if (is_closing_of k w && done) + opened k db'
    ≤ one_if (is_creation_of k w && done) + opened k db

module _ (k : Uuid) (db : Database) where
  create-Closes :
      (i : OrganizationInvitation) (event : AuditEvent)
      → let w = InvitationWrite.to_create i event in Closes k w (invitation_step w db) db
  unfolding invitation_step create_invitation
  create-Closes i event = elim (Option-cases (invitation_scope_records i.id i.resource_scopes)) [
    | inl e ↦ ground arith
    | inr (rows, e) ↦ ground arith
  ]

  accept-Closes :
      (i : OrganizationInvitation) (m : OrganizationMembership) (at : ℕ) (event : AuditEvent)
      → let w = InvitationWrite.to_accept i m at event in Closes k w (invitation_step w db) db
  unfolding invitation_step accept accept_at
  accept-Closes i m at event = elim (Option-cases m.id) [
    | inl e ↦ rw (e, accept) (ground arith)
    | inr (j, e) ↦
        let pending = is_pending i.id i.organization_id at in
        let written : Database = record db {
          invitations = update_where pending (accept_row at) db.invitations;
        } in
        let fewer = accepting k i.id i.organization_id at db.invitations in
        elim (Bool-cases (count pending db.invitations == 1)) [
          | inr c ↦ rw (e, accept) (rw c (ground (arith, fewer)))
          | inl c ↦ elim (Bool-cases (is_done (add_member_at j m event written).0)) [
            | inr f ↦ rw (e, accept) (rw c (rw f (ground arith)))
            | inl f ↦
                rw (e, accept)
                  (rw c (
                    rw f
                      (rw (add_member_at_invitations j m event written) (ground (arith, fewer)))))
          ]
        ]
  ]

  revoke-Closes :
      (i o : Uuid) (at : ℕ) (event : AuditEvent)
      → let w = InvitationWrite.to_revoke i o at event in Closes k w (invitation_step w db) db
  unfolding invitation_step revoke_invitation
  revoke-Closes i o at event = ground (arith, revoking k i o at db.invitations)

  deliver-Closes :
      (i o : Uuid) (status : OrganizationInvitationDeliveryStatus)
      → let w = InvitationWrite.to_deliver i o status in Closes k w (invitation_step w db) db
  unfolding invitation_step update_delivery_status
  deliver-Closes i o status = rw (delivering k i o 0 status db.invitations) (omega arith)

  step-Closes : (w : InvitationWrite) → Closes k w (invitation_step w db) db
  step-Closes (InvitationWrite.to_create i event) = create-Closes i event
  step-Closes (InvitationWrite.to_accept i m at event) = accept-Closes i m at event
  step-Closes (InvitationWrite.to_revoke i o at event) = revoke-Closes i o at event
  step-Closes (InvitationWrite.to_deliver i o status) = deliver-Closes i o status

-- How many of the writes that meet the test succeed.
unfoldable pub done_writes : (InvitationWrite → Bool) → List InvitationWrite → Database → ℕ
unfolding invitation_step
done_writes p [] db = 0
done_writes p (w ∷ ws) db =
    let (done, db') = invitation_step w db in one_if (p w && done) + done_writes p ws db'

-- In any sequence of writes of invitations, the acceptances and revocations of one invitation that
-- succeed are at most as many as its open rows at the start and its creations: an invitation that
-- was accepted or revoked is neither accepted nor revoked again.
pub closed_once :
    (k : Uuid) (ws : List InvitationWrite) (db : Database)
    → done_writes (is_closing_of k) ws db ≤ done_writes (is_creation_of k) ws db + opened k db
unfolding done_writes
closed_once k [] db = omega arith
closed_once k (w ∷ ws) db =
    omega (arith, step-Closes k db w, closed_once k ws (invitation_step w db).1)
