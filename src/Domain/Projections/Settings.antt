-- ===== src/Domain/Projections/Settings.antt =====
-- domain/bot_settings.py, audit_timeline.py, ai_moderation.py and ai_moderation_policy.py. A
-- floating-point value is given in thousandths.
use muxivo_console.Shared.{
  ℕ, ℤ, pos, negsuc, is_negative, Bool, true, false, not, ◌&&◌, ◌||◌, List, [], ◌∷◌, Text, codes,
  text_eq, is_blank, any, length, ltb, Result, ok, err, raise_unless, if◌then◌else◌,
}
use muxivo_console.Domain.Activity.{Platform}
use muxivo_console.Domain.Projections.{ProjectionError, is_between, is_positive, none_negative}

pub record PlatformBotSettings : Type 0 where
  pub platform : Platform
  pub subscription_tier : Text
  pub activity_rotation_enabled : Bool
  pub activity_rotation_interval_seconds : ℤ
  pub retention_days : List (Text × ℤ)

abbrev pub is_bad_retention : Text × ℤ → Bool
is_bad_retention (key, value) = is_blank key || is_negative value

-- `PlatformBotSettings.__post_init__`
unfoldable pub bot_settings : PlatformBotSettings → Result ProjectionError PlatformBotSettings
bot_settings s = raise_unless (not (is_blank s.subscription_tier)) ProjectionError.blank_text (
    raise_unless (is_positive s.activity_rotation_interval_seconds) ProjectionError.invalid_interval
      (raise_unless (not (any is_bad_retention s.retention_days)) ProjectionError.negative_count
        (ok s)))

pub record PlatformAuditTimelineEvent : Type 0 where
  pub event_type : Text
  pub occurred_at : Text

-- `PlatformAuditTimelineEvent.__post_init__`
unfoldable pub timeline_event :
    PlatformAuditTimelineEvent → Result ProjectionError PlatformAuditTimelineEvent
timeline_event e =
    raise_unless (not (is_blank e.event_type || is_blank e.occurred_at)) ProjectionError.blank_text
      (ok e)

pub record PlatformAuditTimeline : Type 0 where
  pub platform : Platform
  pub events : List PlatformAuditTimelineEvent
  pub limit : ℤ

abbrev pub is_longer : ℕ → ℤ → Bool
is_longer n (pos k) = ltb k n
is_longer n (negsuc k) = true

-- `PlatformAuditTimeline.__post_init__`
unfoldable pub audit_timeline : PlatformAuditTimeline → Result ProjectionError PlatformAuditTimeline
audit_timeline t =
    raise_unless (is_between 1 100 t.limit && not (is_longer (length t.events) t.limit))
      ProjectionError.invalid_limit (ok t)

pub record PlatformAiModerationSummary : Type 0 where
  pub platform : Platform
  pub enforcement_mode : Text
  pub test_mode : Bool
  pub is_default_policy : Bool
  pub covered_channel_count : ℤ
  pub log_channel_configured : Bool
  pub label_count : ℤ
  pub blacklist_word_count : ℤ
  pub allowed_domain_count : ℤ
  pub automated_timeout_enabled : Bool
  pub automated_kick_enabled : Bool
  pub automated_ban_enabled : Bool

-- `PlatformAiModerationSummary.__post_init__`
unfoldable pub ai_moderation_summary :
    PlatformAiModerationSummary → Result ProjectionError PlatformAiModerationSummary
ai_moderation_summary s =
    raise_unless (not (is_blank s.enforcement_mode)) ProjectionError.blank_text (
      raise_unless
        (none_negative (
          s.covered_channel_count ∷ s.label_count ∷ s.blacklist_word_count ∷ s.allowed_domain_count
          ∷ []))
        ProjectionError.negative_count (ok s))

pub data AiModerationAction : Type 0 where
  ignore log review warn delete delete_warn timeout kick ban : AiModerationAction

-- `_ACTION_RANK`
abbrev pub action_rank : AiModerationAction → ℕ
action_rank AiModerationAction.ignore = 0
action_rank AiModerationAction.log = 1
action_rank AiModerationAction.review = 2
action_rank AiModerationAction.warn = 3
action_rank AiModerationAction.delete = 4
action_rank AiModerationAction.delete_warn = 5
action_rank AiModerationAction.timeout = 6
action_rank AiModerationAction.kick = 7
action_rank AiModerationAction.ban = 8

pub data AiModerationEnforcementMode : Type 0 where
  shadow limited elevated : AiModerationEnforcementMode

abbrev pub is_elevated : AiModerationEnforcementMode → Bool
is_elevated AiModerationEnforcementMode.elevated = true
is_elevated _ = false

pub record AiModerationLabelRule : Type 0 where
  pub risk_threshold : ℤ
  pub min_action : AiModerationAction
  pub max_action : AiModerationAction

pub data PolicyError : Type 0 where
  invalid_threshold minimum_above_maximum unsupported_platform invalid_window
        invalid_offender_threshold invalid_score_threshold invalid_half_life invalid_confidence
        invalid_ocr_mode invalid_gif_frames no_hard_rule_labels not_acknowledged :
      PolicyError

-- `AiModerationLabelRule.__post_init__`
unfoldable pub label_rule : AiModerationLabelRule → Result PolicyError AiModerationLabelRule
label_rule r = raise_unless (is_between 0 100000 r.risk_threshold) PolicyError.invalid_threshold (
    raise_unless (not (ltb (action_rank r.max_action) (action_rank r.min_action)))
      PolicyError.minimum_above_maximum (ok r))

pub record PlatformAiModerationPolicy : Type 0 where
  pub platform : Platform
  pub blacklist_words : List Text
  pub allowed_domains : List Text
  pub labels : List (Text × AiModerationLabelRule)
  pub blacklist_action : AiModerationAction
  pub unapproved_domain_action : AiModerationAction
  pub context_window_days : ℤ
  pub repeat_offender_threshold : ℤ
  pub repeat_offender_action : AiModerationAction
  pub escalation_enabled : Bool
  pub escalation_score_threshold : ℤ
  pub escalation_half_life_days : ℤ
  pub excluded_user_ids : List Text
  pub excluded_role_ids : List Text
  pub excluded_channel_ids : List Text
  pub exclude_bots : Bool
  pub ocr_enabled : Bool
  pub ocr_failure_mode : Text
  pub ocr_max_gif_frames : ℤ
  pub ocr_process_empty_result : Bool
  pub test_mode : Bool
  pub enforcement_mode : AiModerationEnforcementMode
  pub limited_min_confidence : ℤ
  pub limited_hard_rule_labels : List Text
  pub beta_enforcement_acknowledged : Bool
  pub allow_automated_timeout : Bool
  pub allow_automated_kick : Bool
  pub allow_automated_ban : Bool

-- `not labels`
abbrev pub is_none_of : List Text → Bool
is_none_of [] = true
is_none_of (x ∷ xs) = false

abbrev pub is_discord : Platform → Bool
is_discord Platform.discord = true
is_discord _ = false

-- `PlatformAiModerationPolicy.__post_init__`, its checks in order.
unfoldable pub ai_moderation_policy :
    PlatformAiModerationPolicy → Result PolicyError PlatformAiModerationPolicy
ai_moderation_policy p =
    if not (is_discord p.platform)
    then err PolicyError.unsupported_platform
    else if not (is_between 1 3650 p.context_window_days)
    then err PolicyError.invalid_window
    else if not (is_between 1 1000 p.repeat_offender_threshold)
    then err PolicyError.invalid_offender_threshold
    else if not (is_between 100 1000000 p.escalation_score_threshold)
    then err PolicyError.invalid_score_threshold
    else if not (is_between 1000 3650000 p.escalation_half_life_days)
    then err PolicyError.invalid_half_life
    else if not (is_between 0 1000 p.limited_min_confidence)
    then err PolicyError.invalid_confidence
    else if not
        (text_eq p.ocr_failure_mode (codes "SKIP") || text_eq p.ocr_failure_mode (codes "REVIEW"))
    then err PolicyError.invalid_ocr_mode
    else if not (is_between 1 24 p.ocr_max_gif_frames)
    then err PolicyError.invalid_gif_frames
    else if is_none_of p.limited_hard_rule_labels
    then err PolicyError.no_hard_rule_labels
    else if is_elevated p.enforcement_mode
        && (p.allow_automated_timeout || p.allow_automated_kick || p.allow_automated_ban)
        && not p.beta_enforcement_acknowledged
    then err PolicyError.not_acknowledged
    else ok p

pub record PlatformAiModerationPolicyState : Type 0 where
  pub policy : PlatformAiModerationPolicy
  pub is_default_policy : Bool
