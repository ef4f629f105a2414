-- ===== src/Domain.antt =====
-- The domain package: entities and their rules.
pub mod Activity
pub mod Authorization
pub mod Organizations
pub mod Connections
pub mod Reconciliation
pub mod Audit
pub mod Identity
pub mod Health
pub mod Capabilities
pub mod Sessions
pub mod Invitations
pub mod Projections
