-- ===== src/Lib.antt =====
-- A model of the backend of Muxivo Console, apps/api/src/muxivo_console: the control plane that
-- keeps organizations, their members, their connections to platforms and the browser sessions of
-- their users.
--
-- How the program is put together. The domain package holds entities whose constructors check
-- their fields (`__post_init__`) and whose methods decide. The application package holds use cases:
-- each takes a command, asks an authorizer and readers, builds entities and audit events, and calls
-- a writer. The infrastructure package implements the readers and writers over a relational
-- database, and keeps limits and one-time tokens. Use cases and repositories meet in the tables,
-- which are one value of the type Database here: a repository's method takes the tables and returns
-- an answer with the tables after it, and a use case passes them on.
--
-- The files (paths are those of the package apps/api/src/muxivo_console).
--   Shared              tests, lists, texts, results, integers and dictionaries in Python's terms
--   Domain.Activity     domain/activity.py
--   Domain.Authorization, Application.Authorizer
--                       domain/authorization.py, application/organization_authorizer.py
--   Domain.Organizations (Ranks, Access)
--                       domain/organizations.py
--   Domain.Connections (Transitions), Domain.Capabilities
--                       domain/connections.py, connection_status_reason.py and
--                       platform_connection_capabilities.py
--   Domain.Reconciliation, Domain.Health, Domain.Audit, Domain.Sessions
--                       the modules of domain/ with those subjects
--   Domain.Identity     domain/identity.py, identity_linking.py, oauth_login.py and
--                       password_recovery.py
--   Domain.Projections (Settings, Candidates)
--                       the values that are read from platforms: domain/welcome.py, channels.py,
--                       channel_purposes.py, role_purposes.py, server_statistics.py,
--                       integrations.py, dashboard.py, bot_settings.py, audit_timeline.py,
--                       ai_moderation.py, ai_moderation_policy.py and
--                       platform_connection_candidate.py with its catalog
--   Persistence.Values, Persistence.Rows, Persistence.Database
--                       the strings that columns hold for enumerations, and the rows and
--                       constraints of infrastructure/persistence/models.py
--   Persistence.Connections (Flags, Rows, Writes, RetryKeys, Listing, Reconcilable)
--                       infrastructure/persistence/connection_repository.py
--   Persistence.Members (Rows, Writes, Changes, Consistency, Others)
--                       infrastructure/persistence/organization_repository.py
--   Persistence.Emails, Persistence.Sessions (Updates)
--                       identity_repository.py, session_repository.py and
--                       session_last_seen_repository.py in infrastructure/persistence
--   Persistence.Identities (Writes)
--                       identity_repository.py, identity_link_writer.py,
--                       identity_unlink_writer.py and registration_writer.py
--   Persistence.Transactions, Persistence.Recovery
--                       identity_link_transaction_writer.py, oauth_login_transaction_repository.py,
--                       password_recovery_repository.py and password_recovery_recipient_reader.py
--   Persistence.Organizations
--                       the listings and creations of organization_repository.py, and
--                       audit_repository.py
--   Domain.Invitations, Persistence.Invitations (Reading, Closing, Acceptance)
--                       domain/organization_invitations.py and organization_invitation_writer.py,
--                       organization_invitation_reader.py, organization_invitation_mapping.py
--   Application.Invitations (Outcomes, Management)
--                       application/accept_organization_invitation_use_case.py, and the creation,
--                       listing and revocation of invitations
--   Application.Lifecycle (Outcomes, Histories, Retries)
--                       application/manage_platform_connection_lifecycle_use_case.py
--   Application.Reconcile (Decisions, Steps, Pass)
--                       application/reconcile_platform_connections_use_case.py and
--                       infrastructure/reconciliation_probe.py
--   Application.Members (Guards, Outcomes, Owners)
--                       application/add_organization_member.py, update_organization_member.py,
--                       remove_organization_member.py, organization_member_management_helpers.py
--   Application.Identifiers
--                       IdentifierGenerator of application/ports.py
--   Application.Connect (Outcomes)
--                       application/connect_platform_connection_use_case.py
--   Application.Sessions (Resolution, Revocation)
--                       application/resolve_browser_session_use_case.py and
--                       require_recent_authentication_use_case.py
--   Application.Libraries, Application.TokenStore
--                       what the use cases call in libraries, and OneTimeTokenStore of
--                       application/ports.py: a record of operations over a state, which the store
--                       in memory fills
--   Application.Browser (Creation)
--                       the use cases that create, list, revoke and reauthenticate sessions
--   Application.Passwords (Recovery, Outcomes)
--                       the login with a password, its change and its recovery
--   Application.Identities (Completion, Unlinking), Application.OauthLogin (Outcomes)
--                       the linking of identities of providers, and the login with one
--   Application.Registration (Start, Verify, Codec, Attempts,
--                       Exhaustion)
--                       application/pending_email_password_registration.py and the use cases that
--                       start, verify and complete a registration
--   Application.Organizations, Application.Pages (Order, Entries, Listing)
--                       the creation and listing of organizations, and the listings by pages
--   Application.Projections (Updates.Outcomes)
--                       the use cases get_platform_*, update_platform_* and list_platform_* that
--                       ask a platform's service, and the routers by platform
--   Application.Cleanup (Safety)
--                       application/cleanup_security_records_use_case.py and
--                       infrastructure/persistence/security_cleanup_repository.py
--   Infrastructure.RateLimits (Windows), Infrastructure.Tokens (OneTime, Expiry, Refinement)
--                       infrastructure/in_memory_fixed_window_rate_limiter.py and
--                       in_memory_one_time_token_store.py
--   Infrastructure.Redis (Numbers, Utf8, Encoding, Reading, Fuel, RoundTrip, Clients, Limits)
--                       infrastructure/redis_one_time_token_store.py, whose functions of the wire
--                       format redis_fixed_window_counter.py shares, and
--                       redis_fixed_window_rate_limiter.py
--   Tests               concrete runs
--
-- Conventions. A constructor that may raise is a function from the record to a Result. A method of
-- a repository is one transaction: a violated constraint (`*_fits` in Persistence.Database) rolls
-- it back, and an early return inside the transaction's block commits what was written by then. A
-- frozenset is a list. Identifiers are UUIDs, of which the program compares and orders nothing but
-- the values; they are natural numbers, and a generator of identifiers is a function from the
-- number of the draw. Instants are natural numbers, of microseconds for datetimes and of
-- nanoseconds for the monotonic clock of the limiter. Every loop of the program runs over a list
-- that is given, but for the reader of a reply of Redis, which calls itself for the elements of an
-- array, and for the decimal digits of a number n, with fuel n + 1. The reader's first argument is
-- the number of nested calls for which the interpreter's stack has room, beyond which it raises
-- RecursionError; it is arbitrary, a parameter of the clients. Where `execute` is long, its parts
-- are definitions of their own, composed in the order of the source.
--
-- Parameters, since their code is not the repository's: the order in which a JSONB column gives a
-- dictionary's entries back, which is any, the time stamps of audit events, the answers of the
-- platforms' services, the e-mail validator, the hashes and ciphers, base64 and JSON text, the
-- delivery of mail, the bytes that a Redis server sends, the identifiers and tokens that are
-- drawn, and the clocks.
--
-- Not modelled: logging, HTTP presentation and contracts, settings and wiring, the clients of the
-- platforms' control APIs, mail, metrics and cryptography, which are glue or input and output; the
-- workers that repeat a use case, and the redaction of log text. Transactions run one after another
-- here; two use cases that overlap between their reads and their writes are outside the model.
pub mod Shared
pub mod Domain
pub mod Persistence
pub mod Application
pub mod Infrastructure
mod Tests
