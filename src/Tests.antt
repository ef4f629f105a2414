-- ===== src/Tests.antt =====
-- Concrete runs of the model, and each theorem that has hypotheses applied to such a run.
mod Fixtures
mod Organizations
mod Connections
mod Members
mod Lifecycle
mod Reconcile
mod Management
mod Sessions
mod Invitations
mod Connect
mod Infrastructure
mod Redis
mod Accounts
mod Logins
mod Upkeep
mod Formats
mod Registration
