-- ===== src/Application/Members/Guards.antt =====
-- What lets a command through to its write.
use muxivo_console.Application.Identifiers.{Supply}
use muxivo_console.Shared.{
  true, not, ◌||◌, ◌≡◌, ◌≢◌, refl, arith, Option, none, some, Text, Result, ok, err, ◌==◌, ◌⊎◌, inl,
  inr, Option-cases, Result-cases, Bool-cases,
}
use muxivo_console.Domain.Activity.{Uuid}
use muxivo_console.Domain.Identity.{UserStatus}
use muxivo_console.Domain.Organizations.{OrganizationRole, OrganizationMembership, may_assign}
use muxivo_console.Persistence.Database.{Database}
use muxivo_console.Persistence.Emails.{find_active_user_id_by_email_lookup_hash}
use muxivo_console.Persistence.Members.{get_membership, get_status}
use muxivo_console.Application.Members.{
  MemberRejection, require_actor_can_manage, scopes_supported, can_manage_organization_members,
  AddMemberCommand, UpdateMemberCommand, RemoveMemberCommand, add_target, add_invitee,
  add_authorized, is_below, is_active, update_target, update_authorized, update_organization_member,
  remove_target, remove_found, remove_organization_member,
}

-- The member manages members and outranks the role.
abbrev pub IsAbove : OrganizationMembership → OrganizationRole → Type 0
IsAbove m role =
    ((m.role ≡ OrganizationRole.owner) ⊎ (m.role ≡ OrganizationRole.admin))
    × (may_assign m.role role ≡ true)

can_manage_iff :
    (r : OrganizationRole)
    → can_manage_organization_members r ≡ true
    → (r ≡ OrganizationRole.owner) ⊎ (r ≡ OrganizationRole.admin)
can_manage_iff OrganizationRole.owner h = inl refl
can_manage_iff OrganizationRole.admin h = inr refl
can_manage_iff OrganizationRole.moderator h = cc
can_manage_iff OrganizationRole.analyst h = cc
can_manage_iff OrganizationRole.viewer h = cc

require_actor_can_manage-ok :
    (a o : Uuid) (role : OrganizationRole) (db : Database) {m : OrganizationMembership}
    → require_actor_can_manage a o role db ≡ ok m
    → (get_membership a o db ≡ some m) × IsAbove m role
unfolding require_actor_can_manage
require_actor_can_manage-ok a o role db {m} h = elim (Option-cases (get_membership a o db)) [
  | inl e ↦ absurd (cc (rw (e, require_actor_can_manage) at h))
  | inr (x, e) ↦ ground (arith, can_manage_iff x.role)
]

-- The target of a change is a member other than the actor, whom the actor outranks.
abbrev pub IsTarget : OrganizationMembership → OrganizationMembership → Type 0
IsTarget actor target =
    ((i : Uuid) × (target.id ≡ some i))
    × (target.actor_id ≢ actor.actor_id)
    × (may_assign actor.role target.role ≡ true)

is_below-IsTarget :
    (target actor : OrganizationMembership) → is_below target actor ≡ true → IsTarget actor target
is_below-IsTarget target actor h = elim (Option-cases target.id) [
  | inl e ↦ absurd (cc (rw e at h))
  | inr (i, e) ↦ ((i, e), ground arith, ground arith)
]

pub active_status : (s : Option UserStatus) → is_active s ≡ true → s ≡ some UserStatus.active
active_status none h = cc
active_status (some UserStatus.active) h = refl
active_status (some UserStatus.pending_verification) h = cc
active_status (some UserStatus.suspended) h = cc
active_status (some UserStatus.deleted) h = cc

module _ (ids : Supply) (cmd : RemoveMemberCommand) (db : Database) where
  abbrev pub Removes : Result MemberRejection (Unit {0}) × Database → Type 0
  Removes r =
      (actor : OrganizationMembership) × (target : OrganizationMembership) × (i : Uuid)
      × (get_membership cmd.actor_id cmd.organization_id db ≡ some actor)
      × (get_membership cmd.user_id cmd.organization_id db ≡ some target)
      × (target.id ≡ some i)
      × IsTarget actor target
      × IsAbove actor target.role
      × (r ≡ remove_target ids cmd i db)

  remove_found-cases :
      (actor target : OrganizationMembership) (i : Uuid)
      → target.id ≡ some i
      → (remove_found ids cmd actor target db ≡ (err MemberRejection.denied, db))
        ⊎ IsTarget actor target
          × IsAbove actor target.role
          × (remove_found ids cmd actor target db ≡ remove_target ids cmd i db)
  unfolding remove_found
  remove_found-cases actor target i e =
      let refused =
        target.actor_id == actor.actor_id
        || not (can_manage_organization_members actor.role)
        || not (may_assign actor.role target.role) in
      elim (Bool-cases refused) [
        | inl c ↦ inl (rw (e, remove_found) (rw c refl))
        | inr c ↦ inr (
          ((i, e), ground arith, ground arith),
          (can_manage_iff actor.role (ground arith), ground arith),
          rw (e, remove_found) (rw c refl),
        )
      ]

  -- A removal is refused and changes nothing, or it is let through to its write.
  pub remove-cases :
      ((e : MemberRejection) × (remove_organization_member ids cmd db ≡ (err e, db)))
      ⊎ Removes (remove_organization_member ids cmd db)
  unfolding remove_organization_member remove_found
  remove-cases = elim (Option-cases (get_membership cmd.actor_id cmd.organization_id db)) [
    | inl e ↦ inl (MemberRejection.denied, rw (e, remove_organization_member) refl)
    | inr (actor, e) ↦ elim (Option-cases (get_membership cmd.user_id cmd.organization_id db)) [
      | inl e' ↦ inl (MemberRejection.denied, rw (e, e', remove_organization_member) refl)
      | inr (target, e') ↦ elim (Option-cases target.id) [
        | inl none_id ↦ inl (
          MemberRejection.denied,
          rw (e, e', remove_organization_member) (rw (none_id, remove_found) refl),
        )
        | inr (i, id) ↦ elim (remove_found-cases actor target i id) [
          | inl refused ↦
              inl (MemberRejection.denied, rw (e, e', remove_organization_member) refused)
          | inr (below, above, lets) ↦ inr (
            actor,
            target,
            i,
            e,
            e',
            id,
            below,
            above,
            rw (e, e', remove_organization_member) lets,
          )
        ]
      ]
    ]
  ]

module _ (ids : Supply) (cmd : UpdateMemberCommand) (db : Database) where
  abbrev pub Updates : Result MemberRejection OrganizationMembership × Database → Type 0
  Updates r =
      (actor : OrganizationMembership) × (target : OrganizationMembership) × (get_membership
          cmd.actor_id cmd.organization_id db
        ≡ some actor)
      × (get_membership cmd.user_id cmd.organization_id db ≡ some target)
      × IsTarget actor target
      × IsAbove actor cmd.role
      × (scopes_supported cmd.role cmd.resource_scopes ≡ true)
      × (r ≡ update_target ids cmd target db)

  update_authorized-cases :
      (actor : OrganizationMembership)
      → (update_authorized ids cmd actor db ≡ (err MemberRejection.denied, db))
        ⊎ (target : OrganizationMembership) × (get_membership cmd.user_id cmd.organization_id db
            ≡ some target)
          × IsTarget actor target
          × (update_authorized ids cmd actor db ≡ update_target ids cmd target db)
  unfolding update_authorized
  update_authorized-cases actor =
      elim (Option-cases (get_membership cmd.user_id cmd.organization_id db)) [
        | inl e ↦ inl (rw (e, update_authorized) refl)
        | inr (target, e) ↦ elim (Bool-cases (is_below target actor)) [
          | inl c ↦
              inr
                (target, e, is_below-IsTarget target actor c, rw (e, update_authorized) (rw c refl))
          | inr c ↦ inl (rw (e, update_authorized) (rw c refl))
        ]
      ]

  -- An update is refused and changes nothing, or it is let through to its write.
  pub update-cases :
      ((e : MemberRejection) × (update_organization_member ids cmd db ≡ (err e, db)))
      ⊎ Updates (update_organization_member ids cmd db)
  unfolding update_organization_member
  update-cases =
      elim (Result-cases (require_actor_can_manage cmd.actor_id cmd.organization_id cmd.role db)) [
        | inl (x, e) ↦ inl (x, rw (e, update_organization_member) refl)
        | inr (actor, e) ↦ elim (Bool-cases (scopes_supported cmd.role cmd.resource_scopes)) [
          | inr c ↦
              inl
                (MemberRejection.unsupported_scopes, rw (e, update_organization_member) (rw c refl))
          | inl c ↦
              let (found, above) =
                require_actor_can_manage-ok cmd.actor_id cmd.organization_id cmd.role db e in
              elim (update_authorized-cases actor) [
                | inl refused ↦
                    inl (MemberRejection.denied, rw (e, update_organization_member) (rw c refused))
                | inr (target, e', below, lets) ↦ inr (
                  actor,
                  target,
                  found,
                  e',
                  below,
                  above,
                  c,
                  rw (e, update_organization_member) (rw c lets),
                )
              ]
        ]
      ]

module _ (hash : Text) (ids : Supply) (cmd : AddMemberCommand) (db : Database) where
  abbrev pub Adds : Result MemberRejection OrganizationMembership × Database → Type 0
  Adds r =
      (actor : OrganizationMembership) × (target : Uuid) × (get_membership cmd.actor_id
          cmd.organization_id db
        ≡ some actor)
      × IsAbove actor cmd.role
      × (scopes_supported cmd.role cmd.resource_scopes ≡ true)
      × (find_active_user_id_by_email_lookup_hash hash db ≡ some target)
      × (get_status target db ≡ some UserStatus.active)
      × (r ≡ add_target ids cmd target db)

  add_invitee-cases :
      ((e : MemberRejection) × (add_invitee ids cmd hash db ≡ (err e, db)))
      ⊎ (target : Uuid) × (find_active_user_id_by_email_lookup_hash hash db ≡ some target)
        × (get_status target db ≡ some UserStatus.active)
        × (add_invitee ids cmd hash db ≡ add_target ids cmd target db)
  unfolding add_invitee
  add_invitee-cases = elim (Option-cases (find_active_user_id_by_email_lookup_hash hash db)) [
    | inl e ↦ inl (MemberRejection.unknown_invitee, rw (e, add_invitee) refl)
    | inr (target, e) ↦ elim (Bool-cases (is_active (get_status target db))) [
      | inl c ↦
          inr (target, e, active_status (get_status target db) c, rw (e, add_invitee) (rw c refl))
      | inr c ↦ inl (MemberRejection.inactive_target, rw (e, add_invitee) (rw c refl))
    ]
  ]

  -- An addition is refused and changes nothing, or it is let through to its write.
  pub add-cases :
      ((e : MemberRejection) × (add_authorized ids cmd hash db ≡ (err e, db)))
      ⊎ Adds (add_authorized ids cmd hash db)
  unfolding add_authorized
  add-cases =
      elim (Result-cases (require_actor_can_manage cmd.actor_id cmd.organization_id cmd.role db)) [
        | inl (x, e) ↦ inl (x, rw (e, add_authorized) refl)
        | inr (actor, e) ↦ elim (Bool-cases (scopes_supported cmd.role cmd.resource_scopes)) [
          | inr c ↦ inl (MemberRejection.unsupported_scopes, rw (e, add_authorized) (rw c refl))
          | inl c ↦
              let (found, above) =
                require_actor_can_manage-ok cmd.actor_id cmd.organization_id cmd.role db e in
              elim add_invitee-cases [
                | inl (x, refused) ↦ inl (x, rw (e, add_authorized) (rw c refused))
                | inr (target, e', active, lets) ↦
                    inr (
                      actor,
                      target,
                      found,
                      above,
                      c,
                      e',
                      active,
                      rw (e, add_authorized) (rw c lets),
                    )
              ]
        ]
      ]
