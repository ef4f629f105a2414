-- ===== src/Domain/Health.antt =====
-- domain/health.py: aggregate health signals of a platform.
use muxivo_console.Shared.{
  ℤ, is_negative, Bool, true, false, ◌||◌, not, Option, none, some, List, Text, is_empty, is_blank,
  Result, raise_unless, ok,
}
use muxivo_console.Domain.Activity.{Platform}

pub data HealthStatus : Type 0 where
  operational degraded : HealthStatus

abbrev pub is_degraded : HealthStatus → Bool
is_degraded HealthStatus.degraded = true
is_degraded _ = false

pub record HealthSignal : Type 0 where
  pub key : Text
  pub display_name : Text
  pub value : Text
  pub status : HealthStatus
  pub latency_ms : Option ℤ

pub data HealthError : Type 0 where
  empty_field negative_latency : HealthError

abbrev is_negative_latency : Option ℤ → Bool
is_negative_latency none = false
is_negative_latency (some n) = is_negative n

-- `HealthSignal.__post_init__`
unfoldable pub health_signal : HealthSignal → Result HealthError HealthSignal
health_signal s =
    raise_unless (not (is_empty s.key || is_blank s.display_name || is_blank s.value))
      HealthError.empty_field
      (raise_unless (not (is_negative_latency s.latency_ms)) HealthError.negative_latency (ok s))

pub record PlatformHealth : Type 0 where
  pub platform : Platform
  pub signals : List HealthSignal
