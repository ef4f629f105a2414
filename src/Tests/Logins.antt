-- ===== src/Tests/Logins.antt =====
-- A run of the login with a provider's identity.
use muxivo_console.Shared.{
  ℕ, ◌≤◌, true, false, ◌≡◌, ◌≢◌, refl, arith, none, some, [], ◌∷◌, codes, ok, is_space, strip,
}
use muxivo_console.Domain.Identity.{
  OAuthLoginTransaction, LoginIdentityProvider, is_email, oauth_login_transaction,
}
use muxivo_console.Domain.Sessions.{SessionAssuranceLevel, auth_session}
use muxivo_console.Persistence.Database.{Database}
use muxivo_console.Persistence.Members.{get_status, to_user_status}
use muxivo_console.Persistence.Identities.{find_user_id, to_provider}
use muxivo_console.Persistence.Sessions.{create_session}
use muxivo_console.Persistence.Transactions.{consume_login}
use muxivo_console.Application.Sessions.{ResolverSettings, is_usable_token}
use muxivo_console.Application.Browser.{IssuedBrowserSession, create_browser_session, store_session}
use muxivo_console.Application.Identities.Completion.{ProviderClient, same_provider}
use muxivo_console.Application.OauthLogin.{
  CompleteLoginCommand, complete_oauth_login, login_consumed, login_with,
}
use muxivo_console.Application.OauthLogin.Outcomes.{LogsIn, complete_oauth_login-LogsIn}
use muxivo_console.Application.Libraries.{Tokens}
use muxivo_console.Tests.Fixtures.{base}
use muxivo_console.Tests.Accounts.{lib, ids}

abbrev settings : ResolverSettings
settings = record { has_updater = true; last_seen_update_interval = 300 }

abbrev positive : settings.last_seen_update_interval ≢ 0
positive = λ e. omega arith

abbrev tokens : Tokens
tokens n = codes "raw"

-- The provider knows one code.
abbrev client : ProviderClient
client code verifier = some (codes "123")

abbrev cmd : CompleteLoginCommand
cmd = record {
  provider = LoginIdentityProvider.discord;
  state = codes "state";
  authorization_code = codes "code";
  correlation_id = 7;
  client_ip = none;
  user_agent = none;
}

abbrev started : Database
started = record base {
  login_transactions =
      record {
        id = 65;
        provider = "discord";
        state_hash = codes "9999999999999999999999999999999999999999999999999999999999999999";
        code_verifier_ciphertext = codes "verifier";
        expires_at = 5000;
        consumed_at = none;
      }
      ∷ [];
}

abbrev session : IssuedBrowserSession
session = record {
  id = 200;
  raw_token = codes "raw";
  raw_csrf_token = codes "raw";
  expires_at = 8101;
  assurance_level = SessionAssuranceLevel.recent_authentication;
}

abbrev logged_in : Database
logged_in = (complete_oauth_login lib client ids tokens 100 101 8000 cmd started).1

issues : (complete_oauth_login lib client ids tokens 100 101 8000 cmd started).0 ≡ ok session
unfolding complete_oauth_login login_consumed login_with consume_login find_user_id
    create_browser_session store_session create_session auth_session get_status to_user_status
    to_provider oauth_login_transaction strip
issues = refl

usable : is_usable_token session.raw_token ≡ true
unfolding is_usable_token is_space
usable = refl

complete_oauth_login-LogsIn_example :
    (t : OAuthLoginTransaction) × (is_email cmd.provider ≡ false)
    × ((consume_login (lib.hash_token cmd.state) 100 started).0 ≡ ok (some t))
    × (same_provider t.provider cmd.provider ≡ true)
    × LogsIn lib settings positive client ids tokens 100 101 8000 cmd t session started logged_in
    × ((later : ℕ)
        → 100 ≤ later
        → (consume_login (lib.hash_token cmd.state) later logged_in).0 ≡ ok none)
complete_oauth_login-LogsIn_example =
    complete_oauth_login-LogsIn lib settings positive client ids tokens 100 101 8000 cmd session
      started issues usable
