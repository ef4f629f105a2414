-- ===== src/Tests/Accounts.antt =====
-- Runs of the unlinking of an identity and of the recovery of a password.
use muxivo_console.Shared.{◌+◌, true, ◌≡◌, refl, some, [], ◌∷◌, Text, codes, ok, is_space}
use muxivo_console.Domain.Activity.{Uuid}
use muxivo_console.Domain.Identity.{LoginIdentityProfile, LoginIdentityProvider}
use muxivo_console.Domain.Sessions.{SessionAssuranceLevel}
use muxivo_console.Persistence.Database.{Database}
use muxivo_console.Persistence.Members.{get_status, to_user_status}
use muxivo_console.Persistence.Identities.{list_for_user, to_provider}
use muxivo_console.Persistence.Identities.Writes.{unlink}
use muxivo_console.Persistence.Recovery.{complete_recovery, complete_for, find_primary_email}
use muxivo_console.Application.Identifiers.{Supply}
use muxivo_console.Application.Libraries.{Libraries}
use muxivo_console.Application.TokenStore.{in_memory}
use muxivo_console.Application.Sessions.{BrowserSessionPrincipal, check_recent, is_usable_token}
use muxivo_console.Application.Passwords.{is_valid_password}
use muxivo_console.Application.Passwords.Recovery.{
  complete_password_recovery, complete_referenced, recovery_completed, recovery_key,
}
use muxivo_console.Application.Passwords.Outcomes.{Recovers, complete_password_recovery-Recovers}
use muxivo_console.Application.Identities.{UnlinkCommand, unlink_login_identity, unlink_target}
use muxivo_console.Application.Identities.Unlinking.{Unlinks, unlink_login_identity_lem}
use muxivo_console.Infrastructure.Tokens.{Store, get_token, consume_token}
use muxivo_console.Tests.Fixtures.{base}

abbrev pub lib : Libraries
lib = record {
  normalize_email = some;
  hash_email = λ t. t;
  hash_token = λ t. codes "9999999999999999999999999999999999999999999999999999999999999999";
  hash_ip = λ t. t;
  hash_agent = λ t. t;
  hash_password = λ t. codes "$argon2id$new";
  verify_password = λ h p. true;
  encrypt = λ t. t;
  decrypt = some;
  code_challenge = λ t. t;
  uuid_text = λ u. u ∷ [];
  is_uuid_text = λ t. true;
  uuid_of_text = λ t. some 60;
  is_decimal_digit = λ c. true;
  base64_encode = λ t. t;
  base64_decode = some;
}

abbrev pub ids : Supply
ids n = 200 + n

abbrev principal : BrowserSessionPrincipal
principal = record {
  user_id = 11;
  session_id = 70;
  assurance_level = SessionAssuranceLevel.recent_authentication;
  authenticated_at = some 50;
}

abbrev unlink_discord : UnlinkCommand
unlink_discord = record { principal = principal; identity_id = 51; correlation_id = 7 }

abbrev discord : LoginIdentityProfile
discord = record {
  id = 51;
  user_id = 11;
  provider = LoginIdentityProvider.discord;
  linked_at = 2;
  last_used_at = some 5;
}

abbrev unlinked : Database
unlinked = (unlink_login_identity ids 60 300 unlink_discord base).1

unlinks : unlink_login_identity ids 60 300 unlink_discord base ≡ (ok discord, unlinked)
unfolding unlink_login_identity unlink_target list_for_user unlink check_recent get_status
    to_user_status to_provider
unlinks = refl

unlink_login_identity_lem_example : Unlinks ids 60 300 unlink_discord base discord unlinked
unlink_login_identity_lem_example =
    unlink_login_identity_lem ids 60 300 unlink_discord base discord unlinked unlinks

abbrev token : Text
token = codes "opaque"

abbrev new_password : Text
new_password = codes "correct horse"

-- The store holds the reference of the recovery.
abbrev referenced : Store
referenced = (recovery_key (lib.hash_token token), (60 ∷ [], 5000)) ∷ []

abbrev recovered : Database
recovered =
    (complete_password_recovery (in_memory 100) lib ids 100 7 token new_password referenced base).2

-- All that a recovery calls.
RecoveryOpen : Type 0
unfolding complete_password_recovery complete_referenced recovery_completed complete_recovery
    complete_for get_token is_usable_token is_space find_primary_email consume_token
RecoveryOpen = Unit

recovers :
    (complete_password_recovery (in_memory 100) lib ids 100 7 token new_password referenced base).0
    ≡ ok tt
unfolding RecoveryOpen
recovers = refl

complete_password_recovery-Recovers_example :
    (is_usable_token token ≡ true)
    × (is_valid_password new_password ≡ true)
    × ((reference : Text) × (((in_memory 100).get
            (recovery_key (lib.hash_token token))
            referenced).0
          ≡ ok (some reference)))
    × (u : Uuid) × Recovers
        (lib.hash_token token)
        (lib.hash_password new_password)
        100
        (ids 0)
        7
        u
        base
        recovered
complete_password_recovery-Recovers_example =
    complete_password_recovery-Recovers (in_memory 100) lib ids 100 7 token new_password referenced
      base recovers
