-- ===== src/Tests/Upkeep.antt =====
-- Runs of the cleanup and of the update of a policy.
use muxivo_console.Shared.{
  ℕ, ◌+◌, ◌≤◌, pos, true, false, ◌≡◌, ◌⊎◌, refl, arith, none, some, [], ◌∷◌, Text, codes, count,
  find, err, is_blank, strip, is_space,
}
use muxivo_console.Domain.Activity.{Uuid, Platform}
use muxivo_console.Domain.Sessions.{SessionAssuranceLevel}
use muxivo_console.Domain.Organizations.{allows}
use muxivo_console.Domain.Connections.{PlatformConnection, platform_connection}
use muxivo_console.Persistence.Values.{to_role, to_platform, to_status, to_reason}
use muxivo_console.Domain.Projections.Settings.{
  PlatformAiModerationPolicy, PlatformAiModerationSummary, AiModerationAction,
  AiModerationEnforcementMode,
}
use muxivo_console.Persistence.Database.{Database}
use muxivo_console.Persistence.Members.{get_membership, membership_from_record}
use muxivo_console.Persistence.Connections.{find_for_organization, connection_from_row, no_error}
use muxivo_console.Persistence.Sessions.{has_token, list_active_for_user}
use muxivo_console.Persistence.Transactions.{is_usable_recovery}
use muxivo_console.Persistence.Organizations.{record_event, entry_of, entries_of}
use muxivo_console.Application.Authorizer.{authorize}
use muxivo_console.Application.Sessions.{ResolverSettings, resolve_session, check_recent}
use muxivo_console.Application.Cleanup.{
  CleanupCommand, cleanup_security_records, delete_sessions, delete_recoveries,
}
use muxivo_console.Application.Cleanup.Safety.{cleanup_security_records_lem}
use muxivo_console.Application.Projections.{Client, ControlError}
use muxivo_console.Application.Projections.Updates.{
  UpdatePolicyCommand, policy_answered, update_ai_moderation_policy,
}
use muxivo_console.Application.Projections.Updates.Outcomes.{
  Refused, Asks, Answers, update_ai_moderation_policy_lem,
}
use muxivo_console.Domain.Audit.{AuditEvent, audit_log_entry}
use muxivo_console.Domain.Authorization.{AuthorizationResource}
use muxivo_console.Application.Pages.{list_request}
use muxivo_console.Application.Pages.Order.{Distinct}
use muxivo_console.Application.Pages.Listing.{trail, follow_pages, follow_pages_lem}
use muxivo_console.Tests.Fixtures.{base, event}

abbrev cleanup : CleanupCommand
cleanup = record { session_retention = 100; password_recovery_retention = 90000 }

abbrev swept : Database
swept = (cleanup_security_records 20000 cleanup base).1

-- The session has gone, the recovery stays.
sweeps : (swept.sessions ≡ []) × (swept.recovery_transactions ≡ base.recovery_transactions)
unfolding cleanup_security_records delete_sessions delete_recoveries
sweeps = (refl, refl)

cleanup_security_records_lem_example :
    ((hash : Text → Text) (settings : ResolverSettings) (token : Text)
      → count (has_token (hash token)) base.sessions ≤ 1
      → (resolve_session hash settings 20000 token swept).0
        ≡ (resolve_session hash settings 20000 token base).0)
    × ((u : Uuid) → list_active_for_user u 20000 swept ≡ list_active_for_user u 20000 base)
    × ((h : Text)
        → find (is_usable_recovery h 20000) swept.recovery_transactions
          ≡ find (is_usable_recovery h 20000) base.recovery_transactions)
cleanup_security_records_lem_example =
    cleanup_security_records_lem 20000 cleanup base 20000 (omega arith)

abbrev policy : PlatformAiModerationPolicy
policy = record {
  platform = Platform.discord;
  blacklist_words = codes "spam" ∷ [];
  allowed_domains = [];
  labels = [];
  blacklist_action = AiModerationAction.delete;
  unapproved_domain_action = AiModerationAction.delete;
  context_window_days = pos 7;
  repeat_offender_threshold = pos 3;
  repeat_offender_action = AiModerationAction.delete;
  escalation_enabled = false;
  escalation_score_threshold = pos 100;
  escalation_half_life_days = pos 7;
  excluded_user_ids = [];
  excluded_role_ids = [];
  excluded_channel_ids = [];
  exclude_bots = true;
  ocr_enabled = false;
  ocr_failure_mode = codes "skip";
  ocr_max_gif_frames = pos 3;
  ocr_process_empty_result = false;
  test_mode = true;
  enforcement_mode = AiModerationEnforcementMode.shadow;
  limited_min_confidence = pos 90;
  limited_hard_rule_labels = [];
  beta_enforcement_acknowledged = false;
  allow_automated_timeout = false;
  allow_automated_kick = false;
  allow_automated_ban = false;
}

abbrev update : UpdatePolicyCommand
update = record {
  principal = record {
    user_id = 10;
    session_id = 71;
    assurance_level = SessionAssuranceLevel.recent_authentication;
    authenticated_at = some 50;
  };
  organization_id = 1;
  connection_id = 50;
  policy = policy;
  correlation_id = 7;
}

-- A service that cannot be reached.
abbrev failing : PlatformAiModerationPolicy → Client PlatformAiModerationSummary
failing p o actor resource correlation = none

update_fails :
    (update_ai_moderation_policy failing (λ n. n) 60 300 update base).0
    ≡ err ControlError.client_error
unfolding update_ai_moderation_policy policy_answered check_recent authorize get_membership
    find_for_organization record_event membership_from_record to_role allows connection_from_row
    to_platform to_status to_reason platform_connection is_blank strip is_space
update_fails = refl

update_ai_moderation_policy_lem_example :
    Refused failing
      (λ n. n)
      60
      300
      update
      base
      (update_ai_moderation_policy failing (λ n. n) 60 300 update base)
    ⊎ ((c : PlatformConnection) × Asks failing (λ n. n) 60 300 update base c
        × Answers failing
            (λ n. n)
            60
            300
            update
            base
            c
            (update_ai_moderation_policy failing (λ n. n) 60 300 update base))
update_ai_moderation_policy_lem_example =
    update_ai_moderation_policy_lem failing (λ n. n) 60 300 update base

abbrev noted : Uuid → AuditEvent
noted i = record event { id = i }

-- Three events of organization 1, which are read one by one.
abbrev eventful : Database
eventful = record base { audit_events = noted 91 ∷ noted 93 ∷ noted 92 ∷ [] }

owner_reads :
    (authorize (list_request AuthorizationResource.audit_events 10 1) eventful).allowed ≡ true
unfolding authorize get_membership membership_from_record to_role allows
owner_reads = refl

events-Distinct : Distinct eventful.audit_events
events-Distinct =
    (((λ e. omega arith), ((λ e. omega arith), tt)), (((λ e. omega arith), tt), (tt, tt)))

trail_read : trail 1 eventful ≡ noted 93 ∷ noted 92 ∷ noted 91 ∷ []
trail_read = refl

-- A time stamp for each event, in microseconds.
abbrev stamped : Uuid → ℕ
stamped i = 1000 + i

trail_shown :
    no_error (entries_of stamped (trail 1 eventful))
    ≡ some (
        entry_of stamped (noted 93)
        ∷ entry_of stamped (noted 92)
        ∷ entry_of stamped (noted 91)
        ∷ [])
unfolding audit_log_entry
trail_shown = refl

follow_pages_lem_example :
    follow_pages stamped 4 10 1 1 none eventful
    ≡ no_error (entries_of stamped (noted 93 ∷ noted 92 ∷ noted 91 ∷ []))
follow_pages_lem_example = follow_pages_lem stamped 10 1 1 eventful events-Distinct refl owner_reads
