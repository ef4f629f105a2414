-- ===== src/Application/Projections/Updates/Outcomes.antt =====
-- How an update of the policy for AI moderation ends.
use muxivo_console.Shared.{
  ℕ, true, ◌≡◌, ◌⊎◌, refl, arith, Option, none, some, ◌∷◌, ok, err, Bool-cases, Option-cases, inl,
  inr, Result, sym, ◌∙◌,
}
use mathlib.Core.Path.{subst}
use muxivo_console.Domain.Authorization.{AuthorizationAction}
use muxivo_console.Domain.Organizations.{
  OrganizationRole, OrganizationMembership, allows, role_supports, role_supports_pair,
}
use muxivo_console.Domain.Audit.{AuditEvent}
use muxivo_console.Domain.Connections.{PlatformConnection}
use muxivo_console.Domain.Projections.Settings.{
  PlatformAiModerationPolicy, PlatformAiModerationSummary,
}
use muxivo_console.Persistence.Database.{Database, audit_fits}
use muxivo_console.Persistence.Members.{get_membership}
use muxivo_console.Persistence.Connections.{find_for_organization}
use muxivo_console.Persistence.Organizations.{record_event}
use muxivo_console.Application.Identifiers.{Supply}
use muxivo_console.Application.Authorizer.{authorize, authorize-allowed}
use muxivo_console.Application.Sessions.{check_recent}
use muxivo_console.Application.Projections.{ControlError, Client, control_request}
use muxivo_console.Application.Projections.Updates.{
  UpdatePolicyCommand, PolicyResult, policy_event, policy_answered, recorded, takes_policy,
  update_ai_moderation_policy,
}

-- To manage the modules of the bots no role is enough but the owner's.
manage_needs_owner :
    (m : OrganizationMembership) (actor o : ℕ)
    → allows m (control_request AuthorizationAction.manage actor o) ≡ true
    → m.role ≡ OrganizationRole.owner
unfolding allows role_supports role_supports_pair
manage_needs_owner m actor o h = ground arith

module _ (client : PlatformAiModerationPolicy → Client PlatformAiModerationSummary) (ids : Supply)
    (now maximum_age : ℕ) (cmd : UpdatePolicyCommand) (db : Database) where
  abbrev pub audited : AuditEvent → Database
  audited event = record db { audit_events = event ∷ db.audit_events }

  -- What the platform's service answers about a connection's resource.
  abbrev pub answer : PlatformConnection → Option PlatformAiModerationSummary
  answer c =
      client cmd.policy cmd.organization_id cmd.principal.user_id c.external_resource_id
        cmd.correlation_id

  -- The answer of the service, and the event that says whether it was one.
  abbrev pub Answers : PlatformConnection → PolicyResult → Type 0
  Answers c r =
      ((answer c ≡ none)
        × (r ≡ (err ControlError.client_error, audited (policy_event (ids 0) cmd "failed"))))
      ⊎ ((summary : PlatformAiModerationSummary) × (answer c ≡ some summary)
          × (r ≡ (ok summary, audited (policy_event (ids 0) cmd "succeeded"))))

  -- The owner of the organization, recently authenticated, and a connection that takes the policy.
  abbrev pub Asks : PlatformConnection → Type 0
  Asks c =
      (check_recent now maximum_age cmd.principal ≡ true)
      × ((m : OrganizationMembership) × (get_membership cmd.principal.user_id cmd.organization_id db
            ≡ some m)
          × (m.role ≡ OrganizationRole.owner))
      × (find_for_organization cmd.organization_id cmd.connection_id db ≡ some c)
      × (takes_policy cmd c ≡ true)

  abbrev pub Refused : PolicyResult → Type 0
  Refused r = (e : ControlError) × (r ≡ (err e, db))

  recorded_event :
      (event : AuditEvent) (a : Result ControlError PlatformAiModerationSummary)
      → (recorded event a db ≡ (err ControlError.not_recorded, db))
        ⊎ (recorded event a db ≡ (a, audited event))
  unfolding record_event
  recorded_event event a = elim (Bool-cases (audit_fits event db)) [
    | inl e ↦ inr (rw (e, recorded, record_event) refl)
    | inr e ↦ inl (rw (e, recorded, record_event) refl)
  ]

  policy_answered-Answers :
      (c : PlatformConnection)
      → Refused (policy_answered ids cmd (answer c) db)
        ⊎ Answers c (policy_answered ids cmd (answer c) db)
  unfolding policy_answered
  policy_answered-Answers c = elim (Option-cases (answer c)) [
    | inl e ↦
        rw e
          (elim (recorded_event (policy_event (ids 0) cmd "failed")
            (err ControlError.client_error)) [
              | inl f ↦ inl (ControlError.not_recorded, f)
              | inr f ↦ inr (inl (refl, f))
            ])
    | inr (summary, e) ↦
        rw e (elim (recorded_event (policy_event (ids 0) cmd "succeeded") (ok summary)) [
          | inl f ↦ inl (ControlError.not_recorded, f)
          | inr f ↦ inr (inr (summary, refl, f))
        ])
  ]

  asked :
      (c : PlatformConnection)
      → check_recent now maximum_age cmd.principal ≡ true
      → (authorize
          (control_request AuthorizationAction.manage cmd.principal.user_id cmd.organization_id)
          db).allowed
        ≡ true
      → find_for_organization cmd.organization_id cmd.connection_id db ≡ some c
      → takes_policy cmd c ≡ true
      → update_ai_moderation_policy client ids now maximum_age cmd db
        ≡ policy_answered ids cmd (answer c) db
  unfolding update_ai_moderation_policy
  asked c e f g h = rw (e, f, g, h, update_ai_moderation_policy) refl

  -- An update of the policy is refused, or its event cannot be written, and then no table changes;
  -- or the actor is the organization's owner (no other role suffices, not an admin's) and recently
  -- authenticated, the connection is an active one of Discord, for which the policy is, and the
  -- platform's service is asked: its summary is the answer, or its failure an error, and exactly
  -- one event is added, which says so.
  pub update_ai_moderation_policy_lem :
      Refused (update_ai_moderation_policy client ids now maximum_age cmd db)
      ⊎ ((c : PlatformConnection) × Asks c
          × Answers c (update_ai_moderation_policy client ids now maximum_age cmd db))
  unfolding update_ai_moderation_policy
  update_ai_moderation_policy_lem =
      let q =
        control_request AuthorizationAction.manage cmd.principal.user_id cmd.organization_id in
      elim (Bool-cases (check_recent now maximum_age cmd.principal)) [
        | inr e ↦
            rw (e, update_ai_moderation_policy)
              (inl (ControlError.recent_authentication_required, refl))
        | inl e ↦ elim (Bool-cases (authorize q db).allowed) [
          | inr f ↦ rw (e, f, update_ai_moderation_policy) (inl (ControlError.access_denied, refl))
          | inl f ↦
              let (m, found, permitted) = authorize-allowed q db f in
              let owner =
                manage_needs_owner m cmd.principal.user_id cmd.organization_id permitted in
              elim (Option-cases (find_for_organization cmd.organization_id cmd.connection_id db)) [
                | inl g ↦
                    rw (e, f, g, update_ai_moderation_policy) (inl (ControlError.unavailable, refl))
                | inr (c, g) ↦ elim (Bool-cases (takes_policy cmd c)) [
                  | inr h ↦
                      rw (e, f, g, h, update_ai_moderation_policy)
                        (inl (ControlError.unavailable, refl))
                  | inl h ↦
                      let request : Asks c = (e, (m, found, owner), g, h) in
                      elim (policy_answered-Answers c) [
                        | inl (error, same) ↦ inl (error, asked c e f g h ∙ same)
                        | inr ends ↦
                            inr (c, request, subst (Answers c) (sym (asked c e f g h)) ends)
                      ]
                ]
              ]
        ]
      ]
