-- ===== src/Application/Members.antt =====
-- application/add_organization_member.py, update_organization_member.py,
-- remove_organization_member.py and organization_member_management_helpers.py: who may change the
-- members of an organization. Logging is left out.
pub mod Guards
pub mod Outcomes
pub mod Owners
use muxivo_console.Application.Identifiers.{Supply, rest_of}
use muxivo_console.Shared.{
  ℕ, suc, ◌+◌, Bool, true, false, not, ◌&&◌, ◌||◌, Option, none, some, List, [], ◌∷◌, any, Text,
  String, Result, ok, err, if◌then◌else◌, ◌==◌,
}
use muxivo_console.Domain.Activity.{Uuid}
use muxivo_console.Domain.Audit.{AuditEvent}
use muxivo_console.Domain.Authorization.{is_action, is_resource}
use muxivo_console.Domain.Identity.{UserStatus}
use muxivo_console.Domain.Organizations.{
  OrganizationRole, OrganizationMembership, MembershipResourceScope, may_assign, supports_scope,
  is_owner, is_admin,
}
use muxivo_console.Persistence.Database.{Database}
use muxivo_console.Persistence.Emails.{find_active_user_id_by_email_lookup_hash}
use muxivo_console.Persistence.Members.{
  MemberWriteError, get_membership, get_status, add_member, update_member, remove_member,
}

-- `OrganizationMemberManagementRejectedError`, by its messages, and the errors that are not caught:
-- an invalid e-mail and a scope or membership without an identifier.
pub data MemberRejection : Type 0 where
  management_denied unsupported_scopes unknown_invitee inactive_target denied not_saved
        invalid_email :
      MemberRejection
  write_error : MemberWriteError → MemberRejection

abbrev pub can_manage_organization_members : OrganizationRole → Bool
can_manage_organization_members r = is_owner r || is_admin r

unfoldable pub require_actor_can_manage :
    Uuid → Uuid → OrganizationRole → Database → Result MemberRejection OrganizationMembership
require_actor_can_manage actor o target db = elim (get_membership actor o db) [
  | none ↦ err MemberRejection.management_denied
  | some m ↦
      if not (can_manage_organization_members m.role) || not (may_assign m.role target)
      then err MemberRejection.management_denied
      else ok m
]

abbrev pub same_id : Option Uuid → Option Uuid → Bool
same_id none none = true
same_id (some i) (some j) = i == j
same_id _ _ = false

abbrev pub same_scope : MembershipResourceScope → MembershipResourceScope → Bool
same_scope s t =
    is_resource s.resource t.resource && is_action s.action t.action && same_id s.id t.id

-- `assign_scope_ids`: a frozenset, which keeps one of equal scopes.
unfoldable pub assign_scope_ids :
    Supply → List MembershipResourceScope → List MembershipResourceScope × Supply
assign_scope_ids ids [] = ([], ids)
assign_scope_ids ids (s ∷ ss) =
    let assigned = elim s.id as (λ i. MembershipResourceScope × Supply) [
      | none ↦ (record s { id = some (ids 0) }, rest_of ids)
      | some i ↦ (s, ids)
    ] in
    let (others, ids') = assign_scope_ids assigned.1 ss in
    (if any (same_scope assigned.0) others then others else assigned.0 ∷ others, ids')

abbrev pub scopes_supported : OrganizationRole → List MembershipResourceScope → Bool
scopes_supported role scopes = not (any (λ s. not (supports_scope role s)) scopes)

-- `create_member_audit_event`
abbrev pub member_event : Uuid → Uuid → Uuid → Uuid → String → Uuid → AuditEvent
member_event new_id correlation actor o action target = record {
  id = new_id;
  correlation_id = correlation;
  actor_id = some actor;
  organization_id = some o;
  action = action;
  resource_type = "organization_member";
  resource_id = some target;
  result = "succeeded";
}

-- The answer to a write that reports whether it was made.
abbrev pub saved_or : {A : Type 0} → A → Result MemberWriteError Bool → Result MemberRejection A
saved_or a (ok true) = ok a
saved_or a (ok false) = err MemberRejection.not_saved
saved_or a (err e) = err (MemberRejection.write_error e)

pub record AddMemberCommand : Type 0 where
  pub actor_id : Uuid
  pub organization_id : Uuid
  pub email : Text
  pub role : OrganizationRole
  pub resource_scopes : List MembershipResourceScope
  pub correlation_id : Uuid

abbrev pub is_active : Option UserStatus → Bool
is_active (some UserStatus.active) = true
is_active _ = false

abbrev pub new_membership :
    Uuid → Uuid → AddMemberCommand → List MembershipResourceScope → OrganizationMembership
new_membership i target cmd scopes = record {
  actor_id = target;
  organization_id = cmd.organization_id;
  role = cmd.role;
  resource_scopes = scopes;
  id = some i;
}

-- The part of `AddOrganizationMember.execute` from the construction of the membership on.
unfoldable pub add_target :
    Supply
    → AddMemberCommand
    → Uuid
    → Database
    → Result MemberRejection OrganizationMembership × Database
add_target ids cmd target db =
    let (scopes, ids') = assign_scope_ids (rest_of ids) cmd.resource_scopes in
    let m = new_membership (ids 0) target cmd scopes in
    let event =
      member_event (ids' 0) cmd.correlation_id cmd.actor_id cmd.organization_id
        "organization.member.add" target in
    let (created, db') = add_member m event db in (saved_or m created, db')

-- The part from the lookup of the invitee on.
unfoldable pub add_invitee :
    Supply
    → AddMemberCommand
    → Text
    → Database
    → Result MemberRejection OrganizationMembership × Database
add_invitee ids cmd hash db = elim (find_active_user_id_by_email_lookup_hash hash db) [
  | none ↦ (err MemberRejection.unknown_invitee, db)
  | some target ↦
      if not (is_active (get_status target db))
      then (err MemberRejection.inactive_target, db)
      else add_target ids cmd target db
]

-- The part from the authorization on.
unfoldable pub add_authorized :
    Supply
    → AddMemberCommand
    → Text
    → Database
    → Result MemberRejection OrganizationMembership × Database
add_authorized ids cmd hash db =
    elim (require_actor_can_manage cmd.actor_id cmd.organization_id cmd.role db) [
      | err e ↦ (err e, db)
      | ok actor ↦
          if not (scopes_supported cmd.role cmd.resource_scopes)
          then (err MemberRejection.unsupported_scopes, db)
          else add_invitee ids cmd hash db
    ]

-- `AddOrganizationMember.execute`, over the e-mail validator and the keyed hash of the libraries.
unfoldable pub add_organization_member :
    (Text → Option Text)
    → (Text → Text)
    → Supply
    → AddMemberCommand
    → Database
    → Result MemberRejection OrganizationMembership × Database
add_organization_member normalize lookup_hash ids cmd db = elim (normalize cmd.email) [
  | none ↦ (err MemberRejection.invalid_email, db)
  | some email ↦ add_authorized ids cmd (lookup_hash email) db
]

pub record UpdateMemberCommand : Type 0 where
  pub actor_id : Uuid
  pub organization_id : Uuid
  pub user_id : Uuid
  pub role : OrganizationRole
  pub resource_scopes : List MembershipResourceScope
  pub correlation_id : Uuid

abbrev pub updated_target :
    OrganizationMembership
    → OrganizationRole
    → List MembershipResourceScope
    → OrganizationMembership
updated_target target role scopes = record target { role = role; resource_scopes = scopes }

-- The write of `UpdateOrganizationMember.execute`.
unfoldable pub update_target :
    Supply
    → UpdateMemberCommand
    → OrganizationMembership
    → Database
    → Result MemberRejection OrganizationMembership × Database
update_target ids cmd target db =
    let (scopes, ids') = assign_scope_ids ids cmd.resource_scopes in
    let m = updated_target target cmd.role scopes in
    let event =
      member_event (ids' 0) cmd.correlation_id cmd.actor_id cmd.organization_id
        "organization.member.update" cmd.user_id in
    let (saved, db') = update_member m event db in (saved_or m saved, db')

-- The checks of a target: it has an identifier, it is not the actor, and the actor outranks it.
abbrev pub is_below : OrganizationMembership → OrganizationMembership → Bool
is_below target actor = elim target.id [
  | none ↦ false
  | some i ↦ not (target.actor_id == actor.actor_id) && may_assign actor.role target.role
]

-- The part from the lookup of the target on.
unfoldable pub update_authorized :
    Supply
    → UpdateMemberCommand
    → OrganizationMembership
    → Database
    → Result MemberRejection OrganizationMembership × Database
update_authorized ids cmd actor db = elim (get_membership cmd.user_id cmd.organization_id db) [
  | none ↦ (err MemberRejection.denied, db)
  | some target ↦
      if not (is_below target actor)
      then (err MemberRejection.denied, db)
      else update_target ids cmd target db
]

-- `UpdateOrganizationMember.execute`
unfoldable pub update_organization_member :
    Supply
    → UpdateMemberCommand
    → Database
    → Result MemberRejection OrganizationMembership × Database
update_organization_member ids cmd db =
    elim (require_actor_can_manage cmd.actor_id cmd.organization_id cmd.role db) [
      | err e ↦ (err e, db)
      | ok actor ↦
          if not (scopes_supported cmd.role cmd.resource_scopes)
          then (err MemberRejection.unsupported_scopes, db)
          else update_authorized ids cmd actor db
    ]

pub record RemoveMemberCommand : Type 0 where
  pub actor_id : Uuid
  pub organization_id : Uuid
  pub user_id : Uuid
  pub correlation_id : Uuid

-- The write of `RemoveOrganizationMember.execute`.
unfoldable pub remove_target :
    Supply → RemoveMemberCommand → Uuid → Database → Result MemberRejection (Unit {0}) × Database
remove_target ids cmd i db =
    let event =
      member_event (ids 0) cmd.correlation_id cmd.actor_id cmd.organization_id
        "organization.member.remove" cmd.user_id in
    let (removed, db') = remove_member i event db in (saved_or tt (ok removed), db')

-- The checks on an actor and a target that were both found.
unfoldable pub remove_found :
    Supply
    → RemoveMemberCommand
    → OrganizationMembership
    → OrganizationMembership
    → Database
    → Result MemberRejection (Unit {0}) × Database
remove_found ids cmd actor target db = elim target.id [
  | none ↦ (err MemberRejection.denied, db)
  | some i ↦
      if target.actor_id == actor.actor_id
        || not (can_manage_organization_members actor.role)
        || not (may_assign actor.role target.role)
      then (err MemberRejection.denied, db)
      else remove_target ids cmd i db
]

-- `RemoveOrganizationMember.execute`
unfoldable pub remove_organization_member :
    Supply → RemoveMemberCommand → Database → Result MemberRejection (Unit {0}) × Database
remove_organization_member ids cmd db = elim (get_membership cmd.actor_id cmd.organization_id db) [
  | none ↦ (err MemberRejection.denied, db)
  | some actor ↦ elim (get_membership cmd.user_id cmd.organization_id db) [
    | none ↦ (err MemberRejection.denied, db)
    | some target ↦ remove_found ids cmd actor target db
  ]
]
