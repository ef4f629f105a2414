-- ===== src/Application/Identities.antt =====
-- application/unlink_login_identity.py, list_login_identities.py, link_verified_identity_use_case.py,
-- begin_identity_link_use_case.py and complete_identity_link_use_case.py. Logging is left out.
pub mod Completion
pub mod Unlinking
use muxivo_console.Shared.{
  ℕ, ◌+◌, Bool, true, false, not, ◌||◌, Option, none, some, List, Text, is_empty, length, find, leb,
  ◌==◌, Result, ok, err, if◌then◌else◌, String,
}
use muxivo_console.Domain.Activity.{Uuid}
use muxivo_console.Domain.Audit.{AuditEvent}
use muxivo_console.Domain.Identity.{
  LoginIdentityProvider, LoginIdentityProfile, LoginIdentity, IdentityLinkTransaction,
  IdentityError, is_email, login_identity, identity_link_transaction,
}
use muxivo_console.Persistence.Database.{Database}
use muxivo_console.Persistence.Members.{get_status}
use muxivo_console.Persistence.Identities.{list_for_user}
use muxivo_console.Persistence.Identities.Writes.{link, unlink}
use muxivo_console.Persistence.Transactions.{create_link, consume_link}
use muxivo_console.Application.Identifiers.{Supply, rest_of}
use muxivo_console.Application.Libraries.{Libraries, Tokens}
use muxivo_console.Application.Members.{is_active}
use muxivo_console.Application.Sessions.{BrowserSessionPrincipal, check_recent}

-- `LoginIdentityManagementRejectedError` and the rejections of linking, by the check that raises
-- them, and the error of a construction that is not caught.
pub data IdentityRejection : Type 0 where
  recent_authentication_required inactive_user not_found email_identity last_identity conflict
        listing_denied link_rejected start_rejected completion_rejected :
      IdentityRejection
  invalid_transaction : IdentityError → IdentityRejection

abbrev pub identity_event : Uuid → Uuid → Uuid → String → String → Uuid → AuditEvent
identity_event new_id correlation user action kind target = record {
  id = new_id;
  correlation_id = correlation;
  actor_id = some user;
  organization_id = none;
  action = action;
  resource_type = kind;
  resource_id = some target;
  result = "succeeded";
}

pub record UnlinkCommand : Type 0 where
  pub principal : BrowserSessionPrincipal
  pub identity_id : Uuid
  pub correlation_id : Uuid

-- The part of `UnlinkLoginIdentity.execute` from the target on.
unfoldable pub unlink_target :
    Supply
    → UnlinkCommand
    → ℕ
    → LoginIdentityProfile
    → Database
    → Result IdentityRejection LoginIdentityProfile × Database
unlink_target ids cmd n target db =
    if is_email target.provider
    then (err IdentityRejection.email_identity, db)
    else if leb n 1
    then (err IdentityRejection.last_identity, db)
    else let (unlinked, db') =
        unlink target.id cmd.principal.user_id
          (identity_event (ids 0) cmd.correlation_id cmd.principal.user_id "identity.unlink"
            "login_identity" target.id)
          db in
      (if unlinked then ok target else err IdentityRejection.conflict, db')

-- `UnlinkLoginIdentity.execute`
unfoldable pub unlink_login_identity :
    Supply
    → ℕ
    → ℕ
    → UnlinkCommand
    → Database
    → Result IdentityRejection LoginIdentityProfile × Database
unlink_login_identity ids now maximum_age cmd db =
    let identities = list_for_user cmd.principal.user_id db in
    if not (check_recent now maximum_age cmd.principal)
    then (err IdentityRejection.recent_authentication_required, db)
    else if not (is_active (get_status cmd.principal.user_id db))
    then (err IdentityRejection.inactive_user, db)
    else elim (find (λ (i : LoginIdentityProfile). i.id == cmd.identity_id) identities) [
      | none ↦ (err IdentityRejection.not_found, db)
      | some target ↦ unlink_target ids cmd (length identities) target db
    ]

-- `ListLoginIdentities.execute`
unfoldable pub list_login_identities :
    Uuid → Database → Result IdentityRejection (List LoginIdentityProfile)
list_login_identities actor db =
    if not (is_active (get_status actor db))
    then err IdentityRejection.listing_denied
    else ok (list_for_user actor db)

pub record LinkCommand : Type 0 where
  pub actor_id : Uuid
  pub provider : LoginIdentityProvider
  pub verified_provider_subject : Text
  pub correlation_id : Uuid

abbrev pub new_identity : Uuid → LinkCommand → LoginIdentity
new_identity new_id cmd = record {
  id = new_id;
  user_id = cmd.actor_id;
  provider = cmd.provider;
  provider_subject = cmd.verified_provider_subject;
}

-- The part of `LinkVerifiedIdentity.execute` from the construction of the identity on.
unfoldable pub link_identity :
    Supply → ℕ → LinkCommand → Database → Result IdentityRejection LoginIdentity × Database
link_identity ids now cmd db = elim (login_identity (new_identity (ids 0) cmd)) [
  | err e ↦ (err IdentityRejection.link_rejected, db)
  | ok i ↦
      let event =
        identity_event (ids 1) cmd.correlation_id cmd.actor_id "identity.link" "login_identity"
          i.id in
      let (linked, db') = link now i event db in
      (if linked then ok i else err IdentityRejection.link_rejected, db')
]

-- `LinkVerifiedIdentity.execute`, at the instant that the database writes.
unfoldable pub link_verified_identity :
    Supply → ℕ → LinkCommand → Database → Result IdentityRejection LoginIdentity × Database
link_verified_identity ids now cmd db =
    if is_email cmd.provider
    then (err IdentityRejection.link_rejected, db)
    else if not (is_active (get_status cmd.actor_id db))
    then (err IdentityRejection.link_rejected, db)
    else link_identity ids now cmd db

pub record BeginLinkCommand : Type 0 where
  pub actor_id : Uuid
  pub provider : LoginIdentityProvider
  pub correlation_id : Uuid

-- `StartedIdentityLink` and `StartedOAuthLogin`
pub record StartedLink : Type 0 where
  pub state : Text
  pub code_challenge : Text
  pub expires_in_seconds : ℕ

-- `timedelta(minutes=10)`, in microseconds and in seconds.
abbrev pub link_lifetime : ℕ
link_lifetime = 600000000

abbrev pub started : Libraries → Tokens → StartedLink
started lib tokens = record {
  state = tokens 0;
  code_challenge = lib.code_challenge (tokens 1);
  expires_in_seconds = 600;
}

abbrev pub new_link : Libraries → Uuid → Tokens → ℕ → BeginLinkCommand → IdentityLinkTransaction
new_link lib new_id tokens now cmd = record {
  id = new_id;
  user_id = cmd.actor_id;
  provider = cmd.provider;
  state_hash = lib.hash_token (tokens 0);
  code_verifier_ciphertext = lib.encrypt (tokens 1);
  expires_at = now + link_lifetime;
  consumed_at = none;
}

-- The part of `BeginIdentityLink.execute` from the construction of the transaction on.
unfoldable pub store_link :
    Libraries
    → Supply
    → Tokens
    → ℕ
    → BeginLinkCommand
    → Database
    → Result IdentityRejection StartedLink × Database
store_link lib ids tokens now cmd db =
    elim (identity_link_transaction (new_link lib (ids 0) tokens now cmd)) [
      | err e ↦ (err (IdentityRejection.invalid_transaction e), db)
      | ok t ↦
          let event =
            identity_event (ids 1) cmd.correlation_id cmd.actor_id "identity.link_started"
              "identity_link_transaction" t.id in
          let (created, db') = create_link t event db in
          (if created then ok (started lib tokens) else err IdentityRejection.start_rejected, db')
    ]

-- `BeginIdentityLink.execute`
unfoldable pub begin_identity_link :
    Libraries
    → Supply
    → Tokens
    → ℕ
    → BeginLinkCommand
    → Database
    → Result IdentityRejection StartedLink × Database
begin_identity_link lib ids tokens now cmd db =
    if is_email cmd.provider
    then (err IdentityRejection.start_rejected, db)
    else if not (is_active (get_status cmd.actor_id db))
    then (err IdentityRejection.start_rejected, db)
    else store_link lib ids tokens now cmd db
