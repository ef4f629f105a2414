-- ===== src/Application/Invitations/Outcomes.antt =====
-- How an acceptance ends.
use muxivo_console.Application.Identifiers.{Supply, rest_of}
use muxivo_console.Shared.{
  ℕ, ◌+◌, Bool, true, false, ◌≡◌, ◌⊎◌, refl, Option, none, some, ◌∷◌, Text, is_some, ==_iff, Result,
  ok, err, Bool-cases, Option-cases, inl, inr, ap,
}
use muxivo_console.Domain.Activity.{Uuid}
use muxivo_console.Domain.Identity.{UserStatus}
use muxivo_console.Domain.Invitations.{
  OrganizationInvitation, OrganizationInvitationStatus, status_at,
}
use muxivo_console.Domain.Organizations.{OrganizationMembership}
use muxivo_console.Persistence.Database.{Database}
use muxivo_console.Persistence.Emails.{find_active_user_id_by_email_lookup_hash}
use muxivo_console.Persistence.Members.{MemberWriteError, get_membership, get_status}
use muxivo_console.Persistence.Members.Writes.{IsConsistent}
use muxivo_console.Persistence.Invitations.{accept, is_done}
use muxivo_console.Persistence.Invitations.Reading.{find_pending_by_token_hash}
use muxivo_console.Persistence.Invitations.Closing.{opened}
use muxivo_console.Persistence.Invitations.Acceptance.{HasUniqueIds, accept_lem}
use muxivo_console.Application.Members.{is_active}
use muxivo_console.Application.Members.Guards.{active_status}
use muxivo_console.Application.Sessions.{is_usable_token}
use muxivo_console.Application.Invitations.{
  AcceptCommand, AcceptRejection, AcceptResult, fresh_scope_ids, accepted_event,
  accepted_membership, accepted_or, accept_found, accept_checked, accept_invitation,
  is_pending_status, is_user,
}

pending_status :
    (s : OrganizationInvitationStatus)
    → is_pending_status s ≡ true
    → s ≡ OrganizationInvitationStatus.pending
pending_status OrganizationInvitationStatus.pending h = refl
pending_status OrganizationInvitationStatus.accepted h = cc
pending_status OrganizationInvitationStatus.revoked h = cc
pending_status OrganizationInvitationStatus.expired h = cc

is_user_iff : (o : Option Uuid) (u : Uuid) → is_user o u ≡ true → o ≡ some u
is_user_iff none u h = cc
is_user_iff (some v) u h = ap some ((==_iff v u).0 h)

no_member : {A : Type 0} (o : Option A) → is_some o ≡ false → o ≡ none
no_member none h = refl
no_member (some a) h = cc

not_made :
    (m : OrganizationMembership) (r : Result MemberWriteError Bool)
    → is_done r ≡ false
    → (e : AcceptRejection) × (accepted_or m r ≡ err e)
not_made m (ok true) h = cc
not_made m (ok false) h = (AcceptRejection.conflict, refl)
not_made m (err e) h = (AcceptRejection.write_error e, refl)

module _ (ids : Supply) (now : ℕ) (cmd : AcceptCommand) (db : Database) where
  abbrev pub Refuses : AcceptResult → Type 0
  Refuses (r, db') = (e : AcceptRejection) × (r ≡ err e) × (db' ≡ db)

  -- The invitation is pending, and the actor, an active user who is no member yet, owns its e-mail.
  abbrev pub IsInvited : OrganizationInvitation → Type 0
  IsInvited i =
      (status_at i now ≡ OrganizationInvitationStatus.pending)
      × (find_active_user_id_by_email_lookup_hash i.email_lookup_hash db ≡ some cmd.actor_id)
      × (get_status cmd.actor_id db ≡ some UserStatus.active)
      × (get_membership cmd.actor_id i.organization_id db ≡ none)

  abbrev pub Joins : OrganizationInvitation → AcceptResult → Type 0
  Joins i (r, db') =
      (m : OrganizationMembership) × (r ≡ ok m)
      × (m.role ≡ i.role)
      × (get_membership cmd.actor_id i.organization_id db' ≡ some m)
      × (db'.audit_events
          ≡ accepted_event ((fresh_scope_ids (rest_of ids) i.resource_scopes).1 0) cmd i
            ∷ db.audit_events)
      × IsConsistent db'
      × (opened i.id db' + 1 ≡ opened i.id db)

  found_ends :
      (i : OrganizationInvitation)
      → IsConsistent db
      → HasUniqueIds db.invitations
      → Refuses (accept_found ids now cmd i db) ⊎ Joins i (accept_found ids now cmd i db)
  unfolding accept_found
  found_ends i good unique =
      let (scopes, ids') = fresh_scope_ids (rest_of ids) i.resource_scopes in
      let m = accepted_membership (ids 0) cmd i scopes in
      let event = accepted_event (ids' 0) cmd i in
      elim (accept_lem i m now event db good unique) [
        | inl (failed, same) ↦
            let (e, refused) = not_made m (accept i m now event db).0 failed in
            inl (e, refused, same)
        | inr (done, found, audit, consistent, fewer) ↦
            inr (m, ap (accepted_or m) done, refl, found, audit, consistent, fewer)
      ]

  checked_ends :
      (i : OrganizationInvitation)
      → IsConsistent db
      → HasUniqueIds db.invitations
      → Refuses (accept_checked ids now cmd i db)
        ⊎ IsInvited i × Joins i (accept_checked ids now cmd i db)
  unfolding accept_checked
  checked_ends i good unique =
      let user = find_active_user_id_by_email_lookup_hash i.email_lookup_hash db in
      elim (Bool-cases (is_pending_status (status_at i now))) [
        | inr e ↦ rw e (inl (AcceptRejection.rejected_token, refl, refl))
        | inl e ↦ elim (Bool-cases (is_user user cmd.actor_id)) [
          | inr f ↦ rw e (rw f (inl (AcceptRejection.rejected_identity, refl, refl)))
          | inl f ↦ elim (Bool-cases (is_active (get_status cmd.actor_id db))) [
            | inr g ↦ rw e (rw f (rw g (inl (AcceptRejection.inactive_user, refl, refl))))
            | inl g ↦
                elim (Bool-cases (is_some (get_membership cmd.actor_id i.organization_id db))) [
                  | inl h ↦
                      rw e (rw f (rw g (rw h (inl (AcceptRejection.existing_member, refl, refl)))))
                  | inr h ↦
                      let invited : IsInvited i = (
                        pending_status (status_at i now) e,
                        is_user_iff user cmd.actor_id f,
                        active_status (get_status cmd.actor_id db) g,
                        no_member (get_membership cmd.actor_id i.organization_id db) h,
                      ) in
                      rw e (
                        rw f (
                          rw g (
                            rw h (elim (found_ends i good unique) [
                              | inl refused ↦ inl refused
                              | inr joined ↦ inr (invited, joined)
                            ]))))
                ]
          ]
        ]
      ]

  -- In consistent tables, an acceptance is refused and changes nothing; or a pending invitation
  -- was found under the token's hash, its e-mail is that of the actor, who is active and was no
  -- member; the actor is now a member with the invitation's role, with one audit event, the tables
  -- stay consistent and the invitation is no longer open.
  pub accept_invitation_lem :
      (hash : Text → Text)
      → IsConsistent db
      → HasUniqueIds db.invitations
      → let run = accept_invitation hash ids now cmd db in
        Refuses run
        ⊎ (i : OrganizationInvitation) × (find_pending_by_token_hash (hash cmd.raw_token) now db
            ≡ some i)
          × IsInvited i
          × Joins i run
  unfolding accept_invitation
  accept_invitation_lem hash good unique = elim (Bool-cases (is_usable_token cmd.raw_token)) [
    | inr e ↦ rw e (inl (AcceptRejection.unusable_token, refl, refl))
    | inl e ↦ elim (Option-cases (find_pending_by_token_hash (hash cmd.raw_token) now db)) [
      | inl f ↦ rw e (rw (f, accept_invitation) (inl (AcceptRejection.rejected_token, refl, refl)))
      | inr (i, f) ↦ rw e (
          rw (f, accept_invitation)
            (elim (checked_ends i good unique) [
              | inl refused ↦ inl refused
              | inr (invited, joined) ↦ inr (i, refl, invited, joined)
            ]))
    ]
  ]
