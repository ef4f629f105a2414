-- ===== src/Application/Members/Outcomes.antt =====
-- How commands on members end.
use muxivo_console.Application.Identifiers.{Supply, rest_of}
use muxivo_console.Shared.{
  Bool, true, false, ◌≡◌, ◌≢◌, refl, Option, none, some, ◌∷◌, Text, Result, ok, err, ◌⊎◌, inl, inr,
  Option-cases, ap, sym, ◌∙◌,
}
use mathlib.Core.Path.{subst}
use muxivo_console.Domain.Activity.{Uuid}
use muxivo_console.Domain.Identity.{UserStatus}
use muxivo_console.Domain.Organizations.{OrganizationMembership}
use muxivo_console.Persistence.Database.{Database}
use muxivo_console.Persistence.Emails.{find_active_user_id_by_email_lookup_hash}
use muxivo_console.Persistence.Members.{
  MemberWriteError, get_membership, get_status, add_member, update_member,
}
use muxivo_console.Persistence.Members.Writes.{IsConsistent, add_member_lem}
use muxivo_console.Persistence.Members.Changes.{
  get_membership_scoped, update_member_lem, remove_member_lem,
}
use muxivo_console.Application.Members.{
  MemberRejection, AddMemberCommand, UpdateMemberCommand, RemoveMemberCommand, member_event,
  assign_scope_ids, new_membership, updated_target, saved_or, scopes_supported, add_target,
  add_authorized, add_organization_member, update_target, update_organization_member, remove_target,
  remove_organization_member,
}
use muxivo_console.Application.Members.Guards.{
  IsAbove, IsTarget, add-cases, update-cases, remove-cases,
}

-- An error, with the tables as they were.
abbrev pub IsRefused : {A : Type 0} → Database → Result MemberRejection A × Database → Type 0
IsRefused db (r, db') = (e : MemberRejection) × (r ≡ err e) × (db' ≡ db)

saved_or-refused :
    {A : Type 0} (a : A) (r : Result MemberWriteError Bool)
    → r ≢ ok true
    → (e : MemberRejection) × (saved_or a r ≡ err e)
saved_or-refused a (ok true) h = absurd (h refl)
saved_or-refused a (ok false) h = (MemberRejection.not_saved, refl)
saved_or-refused a (err e) h = (MemberRejection.write_error e, refl)

module _ (ids : Supply) (cmd : RemoveMemberCommand) (db : Database) where
  abbrev pub Removed : Result MemberRejection (Unit {0}) × Database → Type 0
  Removed (r, db') =
      (r ≡ ok tt)
      × ((actor : OrganizationMembership) × (target : OrganizationMembership) × (get_membership
              cmd.actor_id cmd.organization_id db
            ≡ some actor)
          × (get_membership cmd.user_id cmd.organization_id db ≡ some target)
          × IsTarget actor target
          × IsAbove actor target.role)
      × (get_membership cmd.user_id cmd.organization_id db' ≡ none)
      × (db'.audit_events
          ≡ member_event (ids 0) cmd.correlation_id cmd.actor_id cmd.organization_id
              "organization.member.remove" cmd.user_id
            ∷ db.audit_events)

  -- A removal is refused and changes nothing; or an owner or admin has removed another member of
  -- the organization, of a role below their own, who is found no more, with one audit event.
  pub remove_organization_member_lem :
      IsConsistent db
      → IsRefused db (remove_organization_member ids cmd db)
        ⊎ Removed (remove_organization_member ids cmd db)
  unfolding remove_target
  remove_organization_member_lem good = elim (remove-cases ids cmd db) [
    | inl (e, refused) ↦ inl (rw refused (e, refl, refl))
    | inr (actor, target, i, found, found', id, below, above, lets) ↦
        let event =
          member_event (ids 0) cmd.correlation_id cmd.actor_id cmd.organization_id
            "organization.member.remove" cmd.user_id in
        rw (lets, remove_target)
          (elim (remove_member_lem cmd.user_id cmd.organization_id i target event db good found'
            id) [
              | inl (failed, same) ↦ inl (MemberRejection.not_saved, rw failed refl, same)
              | inr (done, gone, audit) ↦
                  inr (rw done refl, (actor, target, found, found', below, above), gone, audit)
            ])
  ]

module _ (ids : Supply) (cmd : UpdateMemberCommand) (db : Database) where
  abbrev pub Updated : Result MemberRejection OrganizationMembership × Database → Type 0
  Updated (r, db') =
      (m : OrganizationMembership) × (r ≡ ok m)
      × ((actor : OrganizationMembership) × (target : OrganizationMembership) × (get_membership
              cmd.actor_id cmd.organization_id db
            ≡ some actor)
          × (get_membership cmd.user_id cmd.organization_id db ≡ some target)
          × IsTarget actor target
          × IsAbove actor cmd.role
          × (scopes_supported cmd.role cmd.resource_scopes ≡ true)
          × (m ≡ updated_target target cmd.role (assign_scope_ids ids cmd.resource_scopes).0))
      × (get_membership cmd.user_id cmd.organization_id db' ≡ some m)
      × (db'.audit_events
          ≡ member_event ((assign_scope_ids ids cmd.resource_scopes).1 0) cmd.correlation_id
              cmd.actor_id cmd.organization_id "organization.member.update" cmd.user_id
            ∷ db.audit_events)

  -- An update is refused and changes nothing; or an owner or admin, above the member's old role
  -- and the new one, has given another member the role and the scopes of the command, which the
  -- role supports, with one audit event.
  pub update_organization_member_lem :
      IsConsistent db
      → IsRefused db (update_organization_member ids cmd db)
        ⊎ Updated (update_organization_member ids cmd db)
  unfolding update_target
  update_organization_member_lem good = elim (update-cases ids cmd db) [
    | inl (e, refused) ↦ inl (rw refused (e, refl, refl))
    | inr (actor, target, found, found', below, above, supported, lets) ↦
        let (user, org) = get_membership_scoped cmd.user_id cmd.organization_id db found' in
        let m = updated_target target cmd.role (assign_scope_ids ids cmd.resource_scopes).0 in
        let event =
          member_event ((assign_scope_ids ids cmd.resource_scopes).1 0) cmd.correlation_id
            cmd.actor_id cmd.organization_id "organization.member.update" cmd.user_id in
        let at_keys : get_membership target.actor_id target.organization_id db ≡ some target =
          ap (λ u. get_membership u target.organization_id db) user
          ∙ (ap (λ o. get_membership cmd.user_id o db) org ∙ found') in
        rw (lets, update_target)
          (elim (update_member_lem target m event db good at_keys refl) [
            | inl (failed, same) ↦
                let (e, refused) = saved_or-refused m (update_member m event db).0 failed in
                inl (e, refused, same)
            | inr (done, now, audit) ↦ inr (
              m,
              ap (saved_or m) done,
              (actor, target, found, found', below, above, supported, refl),
              ap (λ (x : Uuid). get_membership x cmd.organization_id (update_member m event db).1)
                    (sym user)
                  ∙ (ap
                        (λ (x : Uuid).
                          get_membership target.actor_id x (update_member m event db).1)
                        (sym org)
                      ∙ now),
              audit,
            )
          ])
  ]

module _ (hash : Text) (ids : Supply) (cmd : AddMemberCommand) (db : Database) where
  abbrev pub Added : Result MemberRejection OrganizationMembership × Database → Type 0
  Added (r, db') =
      (m : OrganizationMembership) × (r ≡ ok m)
      × ((actor : OrganizationMembership) × (get_membership cmd.actor_id cmd.organization_id db
            ≡ some actor)
          × IsAbove actor cmd.role)
      × (find_active_user_id_by_email_lookup_hash hash db ≡ some m.actor_id)
      × (get_status m.actor_id db ≡ some UserStatus.active)
      × (m.role ≡ cmd.role)
      × (scopes_supported cmd.role cmd.resource_scopes ≡ true)
      × (m.resource_scopes ≡ (assign_scope_ids (rest_of ids) cmd.resource_scopes).0)
      × (get_membership m.actor_id cmd.organization_id db' ≡ some m)
      × (db'.audit_events
          ≡ member_event ((assign_scope_ids (rest_of ids) cmd.resource_scopes).1 0)
              cmd.correlation_id cmd.actor_id cmd.organization_id "organization.member.add"
              m.actor_id
            ∷ db.audit_events)
      × IsConsistent db'

  add_authorized_lem :
      IsConsistent db
      → IsRefused db (add_authorized ids cmd hash db) ⊎ Added (add_authorized ids cmd hash db)
  unfolding add_target
  add_authorized_lem good = elim (add-cases hash ids cmd db) [
    | inl (e, refused) ↦ inl (rw refused (e, refl, refl))
    | inr (actor, target, found, above, supported, invitee, active, lets) ↦
        let (scopes, ids') = assign_scope_ids (rest_of ids) cmd.resource_scopes in
        let m = new_membership (ids 0) target cmd scopes in
        let event =
          member_event (ids' 0) cmd.correlation_id cmd.actor_id cmd.organization_id
            "organization.member.add" target in
        rw (lets, add_target)
          (elim (add_member_lem m event db good) [
            | inl (failed, same) ↦
                let (e, refused) = saved_or-refused m (add_member m event db).0 failed in
                inl (e, refused, same)
            | inr (done, now, audit, consistent) ↦ inr (
              m,
              ap (saved_or m) done,
              (actor, found, above),
              invitee,
              active,
              refl,
              supported,
              refl,
              now,
              audit,
              consistent,
            )
          ])
  ]

-- An addition is refused and changes nothing; or an owner or admin has given the active user of
-- the e-mail a membership, of a role below their own and with the scopes of the command, which the
-- role supports; it is found, with one audit event, and the tables stay consistent.
pub add_organization_member_lem :
    (normalize : Text → Option Text) (lookup_hash : Text → Text) (ids : Supply)
    (cmd : AddMemberCommand) (db : Database)
    → IsConsistent db
    → let run = add_organization_member normalize lookup_hash ids cmd db in
      IsRefused db run
      ⊎ (email : Text) × (normalize cmd.email ≡ some email)
        × Added (lookup_hash email) ids cmd db run
unfolding add_organization_member
add_organization_member_lem normalize lookup_hash ids cmd db good =
    elim (Option-cases (normalize cmd.email)) [
      | inl e ↦ rw (e, add_organization_member) (inl (MemberRejection.invalid_email, refl, refl))
      | inr (email, e) ↦
          let same : add_organization_member normalize lookup_hash ids cmd db
              ≡ add_authorized ids cmd (lookup_hash email) db =
            rw (e, add_organization_member) refl in
          elim (add_authorized_lem (lookup_hash email) ids cmd db good) [
            | inl refused ↦ inl (subst (IsRefused db) (sym same) refused)
            | inr added ↦
                inr (email, e, subst (Added (lookup_hash email) ids cmd db) (sym same) added)
          ]
    ]
