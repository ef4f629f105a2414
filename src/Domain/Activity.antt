-- ===== src/Domain/Activity.antt =====
-- domain/activity.py: the platforms and the control modules that a platform exposes.
use muxivo_console.Shared.{
  Bool, true, false, ◌||◌, not, Text, any, is_empty, is_blank, Result, raise_unless, ok, ◌==◌,
}

-- A service's identifiers are UUIDs, which the program only compares.
abbrev pub Uuid : Type 0
Uuid = Prim.Native.Nat.ℕ

pub data Platform : Type 0 where
  discord twitch telegram : Platform

abbrev pub is_platform : Platform → Platform → Bool
is_platform Platform.discord Platform.discord = true
is_platform Platform.twitch Platform.twitch = true
is_platform Platform.telegram Platform.telegram = true
is_platform _ _ = false

pub data ModuleCapability : Type 0 where
  view manage : ModuleCapability

pub data ModuleStatus : Type 0 where
  available unavailable requires_reauthorization : ModuleStatus

pub record ControlModule : Type 0 where
  pub key : Text
  pub display_name : Text
  pub platform : Platform
  pub capability : ModuleCapability
  pub status : ModuleStatus

pub data ControlModuleError : Type 0 where
  key_not_namespaced blank_display_name : ControlModuleError

-- `__post_init__`; a full stop is the code point 46.
unfoldable pub control_module : ControlModule → Result ControlModuleError ControlModule
control_module m =
    raise_unless (not (is_empty m.key || not (any (λ c. c == 46) m.key)))
      ControlModuleError.key_not_namespaced
      (raise_unless (not (is_blank m.display_name)) ControlModuleError.blank_display_name (ok m))
