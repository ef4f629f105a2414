-- ===== src/Domain/Connections.antt =====
-- domain/connections.py and domain/connection_status_reason.py: the lifecycle of a connection.
pub mod Transitions
use muxivo_console.Shared.{
  ℕ, Bool, true, false, ◌&&◌, ◌||◌, not, Option, none, some, List, [], ◌∷◌, any, Text, length,
  is_blank, text_eq, Result, raise_unless, ok, ltb,
}
use muxivo_console.Domain.Activity.{Uuid, Platform}

pub data ConnectionStatus : Type 0 where
  pending active degraded reauth_required disconnected : ConnectionStatus

abbrev pub is_status : ConnectionStatus → ConnectionStatus → Bool
is_status ConnectionStatus.pending ConnectionStatus.pending = true
is_status ConnectionStatus.active ConnectionStatus.active = true
is_status ConnectionStatus.degraded ConnectionStatus.degraded = true
is_status ConnectionStatus.reauth_required ConnectionStatus.reauth_required = true
is_status ConnectionStatus.disconnected ConnectionStatus.disconnected = true
is_status _ _ = false

pub data ConnectionStatusReason : Type 0 where
  initial_pending healthy preflight_failed token_expired scopes_missing : ConnectionStatusReason
  platform_unreachable resource_removed reauthorized revoked disconnected : ConnectionStatusReason

-- `_ALLOWED_TRANSITIONS[status]`
abbrev pub allowed_transitions : ConnectionStatus → List ConnectionStatus
allowed_transitions ConnectionStatus.pending =
    ConnectionStatus.active ∷ ConnectionStatus.degraded ∷ ConnectionStatus.reauth_required
    ∷ ConnectionStatus.disconnected ∷ []
allowed_transitions ConnectionStatus.active =
    ConnectionStatus.degraded ∷ ConnectionStatus.reauth_required ∷ ConnectionStatus.disconnected
    ∷ []
allowed_transitions ConnectionStatus.degraded =
    ConnectionStatus.active ∷ ConnectionStatus.reauth_required ∷ ConnectionStatus.disconnected ∷ []
allowed_transitions ConnectionStatus.reauth_required =
    ConnectionStatus.active ∷ ConnectionStatus.disconnected ∷ []
allowed_transitions ConnectionStatus.disconnected = []

-- `target in _ALLOWED_TRANSITIONS[status]`
unfoldable pub may_become : ConnectionStatus → ConnectionStatus → Bool
may_become s target = any (is_status target) (allowed_transitions s)

pub record PlatformConnection : Type 0 where
  pub id : Uuid
  pub organization_id : Uuid
  pub platform : Platform
  pub external_resource_id : Text
  pub status : ConnectionStatus
  pub status_reason : Option ConnectionStatusReason
  pub granted_capabilities : List Text

pub data ConnectionError : Type 0 where
  invalid_resource invalid_capability duplicate_capability : ConnectionError
  cannot_transition : ConnectionStatus → ConnectionStatus → ConnectionError

-- `len(set(keys)) == len(keys)`
abbrev pub are_unique : List Text → Bool
are_unique [] = true
are_unique (k ∷ ks) = not (any (text_eq k) ks) && are_unique ks

-- `PlatformConnection.__post_init__`, which every construction runs; the reason's type is checked
-- by the model's own.
unfoldable pub platform_connection : PlatformConnection → Result ConnectionError PlatformConnection
platform_connection c =
    raise_unless (not (is_blank c.external_resource_id || ltb 255 (length c.external_resource_id)))
      ConnectionError.invalid_resource
      (raise_unless (not (any (λ k. is_blank k || ltb 128 (length k)) c.granted_capabilities))
        ConnectionError.invalid_capability
        (raise_unless (are_unique c.granted_capabilities) ConnectionError.duplicate_capability
          (ok c)))

unfoldable pub transition_to :
    PlatformConnection
    → ConnectionStatus
    → Option ConnectionStatusReason
    → Result ConnectionError PlatformConnection
transition_to c target reason =
    raise_unless (may_become c.status target) (ConnectionError.cannot_transition c.status target)
      (platform_connection (record c { status = target; status_reason = reason }))
