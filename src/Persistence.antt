-- ===== src/Persistence.antt =====
-- The persistence package: the tables, and the repositories that read and write them.
pub mod Values
pub mod Rows
pub mod Database
pub mod Connections
pub mod Members
pub mod Organizations
pub mod Emails
pub mod Identities
pub mod Transactions
pub mod Recovery
pub mod Sessions
pub mod Invitations
