-- ===== src/Domain/Reconciliation.antt =====
-- domain/connection_reconciliation.py: what a reconciliation probe may decide.
use muxivo_console.Shared.{List, [], ◌∷◌, any, Result, raise_unless, ok}
use muxivo_console.Domain.Connections.{ConnectionStatus, is_status}

pub data ConnectionReconciliationReason : Type 0 where
  healthy preflight_failed token_expired scopes_missing : ConnectionReconciliationReason
  platform_unreachable resource_removed : ConnectionReconciliationReason

-- `_ALLOWED_TARGET_STATUSES[reason]`
abbrev pub allowed_target_statuses : ConnectionReconciliationReason → List ConnectionStatus
allowed_target_statuses ConnectionReconciliationReason.healthy =
    ConnectionStatus.pending ∷ ConnectionStatus.active ∷ ConnectionStatus.degraded ∷ []
allowed_target_statuses ConnectionReconciliationReason.preflight_failed =
    ConnectionStatus.pending ∷ ConnectionStatus.degraded ∷ []
allowed_target_statuses ConnectionReconciliationReason.token_expired =
    ConnectionStatus.reauth_required ∷ []
allowed_target_statuses ConnectionReconciliationReason.scopes_missing =
    ConnectionStatus.reauth_required ∷ []
allowed_target_statuses ConnectionReconciliationReason.platform_unreachable =
    ConnectionStatus.degraded ∷ []
allowed_target_statuses ConnectionReconciliationReason.resource_removed =
    ConnectionStatus.disconnected ∷ []

pub record ConnectionReconciliationDecision : Type 0 where
  pub target_status : ConnectionStatus
  pub reason : ConnectionReconciliationReason

pub data ReconciliationError : Type 0 where
  reason_mismatch : ReconciliationError

-- `__post_init__`; the two type checks are the model's own.
unfoldable pub reconciliation_decision :
    ConnectionReconciliationDecision → Result ReconciliationError ConnectionReconciliationDecision
reconciliation_decision d =
    raise_unless (any (is_status d.target_status) (allowed_target_statuses d.reason))
      ReconciliationError.reason_mismatch (ok d)
