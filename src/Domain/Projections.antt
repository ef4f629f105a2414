-- ===== src/Domain/Projections.antt =====
-- domain/welcome.py, channels.py, channel_purposes.py, role_purposes.py, server_statistics.py,
-- integrations.py, dashboard.py, bot_settings.py, audit_timeline.py, ai_moderation.py and the
-- candidates of a connection: what a platform's service answers, and the checks of its values.
-- Python's integers may be negative.
pub mod Settings
pub mod Candidates
use muxivo_console.Shared.{
  ℕ, zero, suc, ℤ, pos, negsuc, is_negative, Bool, true, false, not, ◌&&◌, ◌||◌, Option, none, some,
  List, [], ◌∷◌, Text, text_eq, is_blank, any, all, length, leb, ltb, ◌==◌, Result, ok,
  raise_unless,
}
use muxivo_console.Domain.Activity.{Platform}

pub data ProjectionError : Type 0 where
  blank_text invalid_color negative_count invalid_interval invalid_limit invalid_identifier
        invalid_name unlinked_candidates foreign_candidate repeated_identifier :
      ProjectionError

-- `lo <= n <= hi`, for natural bounds.
abbrev pub is_between : ℕ → ℕ → ℤ → Bool
is_between lo hi (pos n) = leb lo n && leb n hi
is_between lo hi (negsuc n) = false

-- `n >= 1`
abbrev pub is_positive : ℤ → Bool
is_positive (pos n) = ltb 0 n
is_positive (negsuc n) = false

abbrev pub none_negative : List ℤ → Bool
none_negative ns = not (any is_negative ns)

pub record PlatformWelcomeSettings : Type 0 where
  pub platform : Platform
  pub title : Text
  pub description : Text
  pub thumbnail_url : Option Text
  pub footer_text : Option Text
  pub footer_icon_url : Option Text
  pub color : ℤ
  pub is_enabled : Bool
  pub rules_channel_id : Option Text
  pub roles_channel_id : Option Text

-- `PlatformWelcomeSettings.__post_init__`
unfoldable pub welcome_settings :
    PlatformWelcomeSettings → Result ProjectionError PlatformWelcomeSettings
welcome_settings s =
    raise_unless (not (is_blank s.title || is_blank s.description)) ProjectionError.blank_text
      (raise_unless (is_between 0 0xFFFFFF s.color) ProjectionError.invalid_color (ok s))

pub data ChannelKind : Type 0 where
  text voice announcement : ChannelKind

pub record PlatformChannel : Type 0 where
  pub id : Text
  pub name : Text
  pub kind : ChannelKind

-- `PlatformChannel.__post_init__`
unfoldable pub platform_channel : PlatformChannel → Result ProjectionError PlatformChannel
platform_channel c =
    raise_unless (not (is_blank c.id || is_blank c.name)) ProjectionError.blank_text (ok c)

pub record PlatformChannelCatalog : Type 0 where
  pub platform : Platform
  pub items : List PlatformChannel

pub data ChannelPurpose : Type 0 where
  welcome member_log mod_log message_log channel_log stream_announce dev_blog ai_moderation_log :
      ChannelPurpose

pub record PlatformChannelPurposes : Type 0 where
  pub platform : Platform
  pub assignments : List (ChannelPurpose × Text)

pub data RolePurpose : Type 0 where
  activity_admin activity_streamer activity_developer ping_stream ping_dev : RolePurpose

pub record PlatformRolePurposes : Type 0 where
  pub platform : Platform
  pub assignments : List (RolePurpose × Text)

-- Whether an assignment names no channel or role.
abbrev pub is_unassigned : {P : Type 0} → P × Text → Bool
is_unassigned (p, i) = is_blank i

-- `PlatformChannelPurposes.__post_init__`
unfoldable pub channel_purposes :
    PlatformChannelPurposes → Result ProjectionError PlatformChannelPurposes
channel_purposes p =
    raise_unless (not (any is_unassigned p.assignments)) ProjectionError.blank_text (ok p)

-- `PlatformRolePurposes.__post_init__`
unfoldable pub role_purposes : PlatformRolePurposes → Result ProjectionError PlatformRolePurposes
role_purposes p =
    raise_unless (not (any is_unassigned p.assignments)) ProjectionError.blank_text (ok p)

pub record PlatformServerStatistics : Type 0 where
  pub platform : Platform
  pub period_days : ℤ
  pub total_messages : ℤ
  pub active_users : ℤ
  pub active_channels : ℤ
  pub current_member_count : ℤ
  pub total_voice_minutes : ℤ
  pub joins : ℤ
  pub leaves : ℤ
  pub moderation_events : ℤ

-- `PlatformServerStatistics.__post_init__`
unfoldable pub server_statistics :
    PlatformServerStatistics → Result ProjectionError PlatformServerStatistics
server_statistics s =
    raise_unless
      (is_positive s.period_days
        && none_negative (
            s.total_messages ∷ s.active_users ∷ s.active_channels ∷ s.current_member_count
            ∷ s.total_voice_minutes ∷ s.joins ∷ s.leaves ∷ s.moderation_events ∷ []))
      ProjectionError.negative_count (ok s)

pub record IntegrationSourceCount : Type 0 where
  pub platform : Text
  pub total : ℤ
  pub active : ℤ

-- `active > total`, where neither is negative.
abbrev pub exceeds : ℤ → ℤ → Bool
exceeds (pos a) (pos t) = ltb t a
exceeds (pos a) (negsuc t) = true
exceeds (negsuc a) (pos t) = false
exceeds (negsuc a) (negsuc t) = ltb a t

-- `IntegrationSourceCount.__post_init__`
unfoldable pub integration_source_count :
    IntegrationSourceCount → Result ProjectionError IntegrationSourceCount
integration_source_count s =
    raise_unless
      (not (
        is_blank s.platform
        || is_negative s.total
        || is_negative s.active
        || exceeds s.active s.total))
      ProjectionError.negative_count (ok s)

pub record PlatformIntegrations : Type 0 where
  pub platform : Platform
  pub discord_bot_status : Text
  pub creator_platforms_status : Text
  pub creator_poll_interval_seconds : ℤ
  pub creator_sources : List IntegrationSourceCount
  pub muxivo_core_status : Text
  pub database_status : Text

-- `PlatformIntegrations.__post_init__`
unfoldable pub integrations : PlatformIntegrations → Result ProjectionError PlatformIntegrations
integrations i =
    raise_unless (is_positive i.creator_poll_interval_seconds) ProjectionError.invalid_interval (
      raise_unless
        (not (
          any is_blank (
            i.discord_bot_status ∷ i.creator_platforms_status ∷ i.muxivo_core_status
            ∷ i.database_status ∷ [])))
        ProjectionError.blank_text (ok i))

pub record PlatformDashboardSummary : Type 0 where
  pub platform : Platform
  pub messages_today : ℤ
  pub ai_flagged_today : ℤ
  pub creator_sources : ℤ
  pub bot_latency_ms : Option ℤ

abbrev pub is_negative_option : Option ℤ → Bool
is_negative_option none = false
is_negative_option (some n) = is_negative n

-- `PlatformDashboardSummary.__post_init__`
unfoldable pub dashboard_summary :
    PlatformDashboardSummary → Result ProjectionError PlatformDashboardSummary
dashboard_summary d =
    raise_unless (none_negative (d.messages_today ∷ d.ai_flagged_today ∷ d.creator_sources ∷ []))
      ProjectionError.negative_count
      (raise_unless (not (is_negative_option d.bot_latency_ms)) ProjectionError.negative_count
        (ok d))
