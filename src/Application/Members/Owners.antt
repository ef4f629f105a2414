-- ===== src/Application/Members/Owners.antt =====
-- Any sequence of commands on members.
use muxivo_console.Application.Identifiers.{Supply}
use muxivo_console.Shared.{
  true, ◌≡◌, ◌≢◌, refl, arith, Option, some, List, [], ◌∷◌, Text, inl, inr, Option-cases, ap, sym,
  ◌∙◌,
}
use muxivo_console.Domain.Activity.{Uuid}
use muxivo_console.Domain.Audit.{AuditEvent}
use muxivo_console.Domain.Organizations.{OrganizationRole, OrganizationMembership, may_assign}
use muxivo_console.Persistence.Database.{Database}
use muxivo_console.Persistence.Members.{get_membership, add_member, update_member, remove_member}
use muxivo_console.Persistence.Members.Writes.{IsConsistent}
use muxivo_console.Persistence.Members.Consistency.{member_writes-IsConsistent}
use muxivo_console.Persistence.Members.Others.{
  add_member_others, update_member_others, remove_member_others, same_membership,
}
use muxivo_console.Application.Members.{
  AddMemberCommand, UpdateMemberCommand, RemoveMemberCommand, add_target, add_organization_member,
  update_target, update_organization_member, remove_target, remove_organization_member,
}
use muxivo_console.Application.Members.Guards.{add-cases, update-cases, remove-cases}

pub data MemberCommand : Type 0 where
  add : AddMemberCommand → MemberCommand
  update : UpdateMemberCommand → MemberCommand
  remove : RemoveMemberCommand → MemberCommand

-- Nobody outranks an owner.
not_above_owner : (r : OrganizationRole) → may_assign r OrganizationRole.owner ≢ true
unfolding may_assign
not_above_owner r h = ground arith

below_owner :
    (actor target t : OrganizationMembership)
    → t.role ≡ OrganizationRole.owner
    → may_assign actor.role target.role ≡ true
    → t ≢ target
below_owner actor target t owner h same = not_above_owner actor.role (
    ap (λ (x : OrganizationRole). may_assign actor.role x)
      (sym owner ∙ ap (λ (m : OrganizationMembership). m.role) same)
    ∙ h)

module _ (normalize : Text → Option Text) (lookup_hash : Text → Text) where
  -- The tables after a command, each with the identifiers that it draws.
  unfoldable pub member_step : Supply → MemberCommand → Database → Database
  member_step ids (MemberCommand.add cmd) db =
      (add_organization_member normalize lookup_hash ids cmd db).1
  member_step ids (MemberCommand.update cmd) db = (update_organization_member ids cmd db).1
  member_step ids (MemberCommand.remove cmd) db = (remove_organization_member ids cmd db).1

  -- What holds before, and after any write that a command may make, holds after the command.
  module _ (P : Database → Type 0) (db : Database) (before : P db) where
    add_keeps :
        (ids : Supply) (cmd : AddMemberCommand)
        → ((m : OrganizationMembership) (event : AuditEvent) → P (add_member m event db).1)
        → P (add_organization_member normalize lookup_hash ids cmd db).1
    unfolding add_organization_member add_target
    add_keeps ids cmd write = elim (Option-cases (normalize cmd.email)) [
      | inl e ↦ rw (e, add_organization_member) before
      | inr (email, e) ↦
          rw (e, add_organization_member)
            (elim (add-cases (lookup_hash email) ids cmd db) [
              | inl (x, refused) ↦ rw refused before
              | inr (actor, target, _, _, _, _, _, lets) ↦ rw (lets, add_target) (write _ _)
            ])
    ]

    update_keeps :
        (ids : Supply) (cmd : UpdateMemberCommand)
        → ((actor target m : OrganizationMembership) (event : AuditEvent)
            → get_membership cmd.user_id cmd.organization_id db ≡ some target
            → may_assign actor.role target.role ≡ true
            → m.id ≡ target.id
            → P (update_member m event db).1)
        → P (update_organization_member ids cmd db).1
    unfolding update_target
    update_keeps ids cmd write = elim (update-cases ids cmd db) [
      | inl (x, refused) ↦ rw refused before
      | inr (actor, target, _, found, below, _, _, lets) ↦
          rw (lets, update_target) (write actor target _ _ found below.2 refl)
    ]

    remove_keeps :
        (ids : Supply) (cmd : RemoveMemberCommand)
        → ((actor target : OrganizationMembership) (i : Uuid) (event : AuditEvent)
            → get_membership cmd.user_id cmd.organization_id db ≡ some target
            → may_assign actor.role target.role ≡ true
            → target.id ≡ some i
            → P (remove_member i event db).1)
        → P (remove_organization_member ids cmd db).1
    unfolding remove_target
    remove_keeps ids cmd write = elim (remove-cases ids cmd db) [
      | inl (x, refused) ↦ rw refused before
      | inr (actor, target, i, _, found, id, below, _, lets) ↦
          rw (lets, remove_target) (write actor target i _ found below.2 id)
    ]

  pub member_step-IsConsistent :
      (ids : Supply) (cmd : MemberCommand) (db : Database)
      → IsConsistent db
      → IsConsistent (member_step ids cmd db)
  unfolding member_step
  member_step-IsConsistent ids (MemberCommand.add cmd) db good =
      add_keeps IsConsistent db good ids cmd
        (λ m event. (member_writes-IsConsistent m 0 event db good).0)
  member_step-IsConsistent ids (MemberCommand.update cmd) db good =
      update_keeps IsConsistent db good ids cmd
        (λ actor target m event found below id. (member_writes-IsConsistent m 0 event db good).1)
  member_step-IsConsistent ids (MemberCommand.remove cmd) db good =
      remove_keeps IsConsistent db good ids cmd (λ actor target i event found below id.
        (member_writes-IsConsistent target i event db good).2)

  owner_stays :
      (ids : Supply) (cmd : MemberCommand) (user o : Uuid) (t : OrganizationMembership)
      (db : Database)
      → IsConsistent db
      → get_membership user o db ≡ some t
      → t.role ≡ OrganizationRole.owner
      → get_membership user o (member_step ids cmd db) ≡ some t
  unfolding member_step
  owner_stays ids (MemberCommand.add cmd) user o t db good h owner =
      add_keeps (λ d. get_membership user o d ≡ some t) db h ids cmd
        (λ m event. add_member_others user o t event db h m)
  owner_stays ids (MemberCommand.update cmd) user o t db good h owner =
      update_keeps (λ d. get_membership user o d ≡ some t) db h ids cmd
        (λ actor target m event found below id. update_member_others user o t event db h m (λ e.
          below_owner actor target t owner below (
            same_membership user o cmd.user_id cmd.organization_id t target db good h found
              (e ∙ id))))
  owner_stays ids (MemberCommand.remove cmd) user o t db good h owner =
      remove_keeps (λ d. get_membership user o d ≡ some t) db h ids cmd
        (λ actor target i event found below id. remove_member_others user o t event db h i (λ e.
          below_owner actor target t owner below (
            same_membership user o cmd.user_id cmd.organization_id t target db good h found
              (e ∙ sym id))))

  -- The commands one after another.
  unfoldable pub run_members : List (Supply × MemberCommand) → Database → Database
  unfolding member_step
  run_members [] db = db
  run_members ((ids, cmd) ∷ cmds) db = run_members cmds (member_step ids cmd db)

  -- Whatever commands on members are executed, by whomever and in whatever order, an owner of an
  -- organization keeps the membership as it was, scopes included, and the tables stay consistent.
  pub owners_stay :
      (cmds : List (Supply × MemberCommand)) (user o : Uuid) (t : OrganizationMembership)
      (db : Database)
      → IsConsistent db
      → get_membership user o db ≡ some t
      → t.role ≡ OrganizationRole.owner
      → (get_membership user o (run_members cmds db) ≡ some t) × IsConsistent (run_members cmds db)
  unfolding run_members
  owners_stay [] user o t db good h owner = (h, good)
  owners_stay ((ids, cmd) ∷ cmds) user o t db good h owner =
      owners_stay cmds user o t (member_step ids cmd db) (member_step-IsConsistent ids cmd db good)
        (owner_stays ids cmd user o t db good h owner) owner
