-- ===== src/Application/OauthLogin.antt =====
-- application/begin_oauth_login_use_case.py and complete_oauth_login_use_case.py: the login with a
-- provider's identity. Every exception of the completion's `try` block is a rejection. The clock is
-- read for the consumption of the transaction and once more for the session; logging is left out.
pub mod Outcomes
use muxivo_console.Shared.{
  ℕ, ◌+◌, Bool, true, false, not, ◌||◌, Option, none, some, Text, is_empty, Result, ok, err,
  if◌then◌else◌,
}
use muxivo_console.Domain.Activity.{Uuid}
use muxivo_console.Domain.Audit.{AuditEvent}
use muxivo_console.Domain.Identity.{
  LoginIdentityProvider, OAuthLoginTransaction, IdentityError, is_email, oauth_login_transaction,
}
use muxivo_console.Domain.Sessions.{SessionAssuranceLevel}
use muxivo_console.Persistence.Database.{Database}
use muxivo_console.Persistence.Identities.{find_user_id}
use muxivo_console.Persistence.Transactions.{create_login, consume_login}
use muxivo_console.Application.Identifiers.{Supply}
use muxivo_console.Application.Libraries.{Libraries, Tokens}
use muxivo_console.Application.Browser.{
  BrowserError, IssuedBrowserSession, CreateSessionCommand, create_browser_session,
}
use muxivo_console.Application.Identities.{StartedLink, link_lifetime, started}
use muxivo_console.Application.Identities.Completion.{ProviderClient, same_provider}

-- The rejections, and the errors that are not caught.
pub data LoginRejection : Type 0 where
  start_rejected completion_rejected : LoginRejection
  invalid_transaction : IdentityError → LoginRejection

abbrev pub new_login : Libraries → Uuid → Tokens → ℕ → LoginIdentityProvider → OAuthLoginTransaction
new_login lib new_id tokens now p = record {
  id = new_id;
  provider = p;
  state_hash = lib.hash_token (tokens 0);
  code_verifier_ciphertext = lib.encrypt (tokens 1);
  expires_at = now + link_lifetime;
}

abbrev pub login_event : Uuid → Uuid → Uuid → AuditEvent
login_event new_id correlation transaction = record {
  id = new_id;
  correlation_id = correlation;
  actor_id = none;
  organization_id = none;
  action = "auth.oauth_login_started";
  resource_type = "oauth_login_transaction";
  resource_id = some transaction;
  result = "succeeded";
}

-- `BeginOAuthLogin.execute`
unfoldable pub begin_oauth_login :
    Libraries
    → Supply
    → Tokens
    → ℕ
    → LoginIdentityProvider
    → Uuid
    → Database
    → Result LoginRejection StartedLink × Database
begin_oauth_login lib ids tokens now p correlation db =
    if is_email p
    then (err LoginRejection.start_rejected, db)
    else elim (oauth_login_transaction (new_login lib (ids 0) tokens now p)) [
      | err e ↦ (err (LoginRejection.invalid_transaction e), db)
      | ok t ↦
          let (created, db') = create_login t (login_event (ids 1) correlation t.id) db in
          (if created then ok (started lib tokens) else err LoginRejection.start_rejected, db')
    ]

pub record CompleteLoginCommand : Type 0 where
  pub provider : LoginIdentityProvider
  pub state : Text
  pub authorization_code : Text
  pub correlation_id : Uuid
  pub client_ip : Option Text
  pub user_agent : Option Text

abbrev pub LoginResult : Type 0
LoginResult = Result LoginRejection IssuedBrowserSession × Database

abbrev pub session_or : Result BrowserError IssuedBrowserSession × Database → LoginResult
session_or (ok s, db) = (ok s, db)
session_or (err e, db) = (err LoginRejection.completion_rejected, db)

abbrev pub session_command : Uuid → CompleteLoginCommand → CreateSessionCommand
session_command u cmd = record {
  user_id = u;
  correlation_id = cmd.correlation_id;
  assurance_level = SessionAssuranceLevel.recent_authentication;
  client_ip = cmd.client_ip;
  user_agent = cmd.user_agent;
}

module _ (lib : Libraries) (client : ProviderClient) (ids : Supply) (tokens : Tokens)
    (now session_now lifetime : ℕ) (cmd : CompleteLoginCommand) where
  -- The `try` block of `CompleteOAuthLogin.execute`.
  unfoldable pub login_with : OAuthLoginTransaction → Database → LoginResult
  login_with t db = elim (lib.decrypt t.code_verifier_ciphertext) [
    | none ↦ (err LoginRejection.completion_rejected, db)
    | some verifier ↦ elim (client cmd.authorization_code verifier) [
      | none ↦ (err LoginRejection.completion_rejected, db)
      | some subject ↦ elim (find_user_id cmd.provider subject db) [
        | none ↦ (err LoginRejection.completion_rejected, db)
        | some u ↦
            session_or (
              create_browser_session lib ids tokens session_now lifetime (session_command u cmd) db)
      ]
    ]
  ]

  -- What is done with the answer of `consume`.
  unfoldable pub login_consumed :
      Result IdentityError (Option OAuthLoginTransaction) → Database → LoginResult
  login_consumed (err e) db = (err (LoginRejection.invalid_transaction e), db)
  login_consumed (ok none) db = (err LoginRejection.completion_rejected, db)
  login_consumed (ok (some t)) db =
      if not (same_provider t.provider cmd.provider)
      then (err LoginRejection.completion_rejected, db)
      else login_with t db

  -- `CompleteOAuthLogin.execute`
  unfoldable pub complete_oauth_login : Database → LoginResult
  complete_oauth_login db =
      let (found, consumed) = consume_login (lib.hash_token cmd.state) now db in
      if is_email cmd.provider || is_empty cmd.state || is_empty cmd.authorization_code
      then (err LoginRejection.completion_rejected, db)
      else login_consumed found consumed
