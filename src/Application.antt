-- ===== src/Application.antt =====
-- The application package: use cases over the domain and the repositories.
pub mod Identifiers
pub mod Libraries
pub mod TokenStore
pub mod Authorizer
pub mod Lifecycle
pub mod Reconcile
pub mod Members
pub mod Organizations
pub mod Pages
pub mod Projections
pub mod Cleanup
pub mod Connect
pub mod Sessions
pub mod Browser
pub mod Identities
pub mod Passwords
pub mod OauthLogin
pub mod Registration
pub mod Invitations
