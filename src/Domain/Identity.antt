-- ===== src/Domain/Identity.antt =====
-- domain/identity.py, identity_linking.py, oauth_login.py and password_recovery.py: accounts, the
-- identities by which they log in, and the transactions of linking, login and recovery. Instants
-- are microseconds, all of them timezone-aware, so the checks of `tzinfo` have no counterpart.
use muxivo_console.Shared.{
  ℕ, Bool, true, false, not, ◌&&◌, ◌||◌, Option, [], ◌∷◌, Text, codes, is_blank, is_empty, length,
  ltb, ◌==◌, Result, ok, raise_unless,
}
use muxivo_console.Domain.Activity.{Uuid}

pub data UserStatus : Type 0 where
  pending_verification active suspended deleted : UserStatus

pub data LoginIdentityProvider : Type 0 where
  email discord twitch telegram google yandex : LoginIdentityProvider

abbrev pub is_email : LoginIdentityProvider → Bool
is_email LoginIdentityProvider.email = true
is_email _ = false

pub record User : Type 0 where
  pub id : Uuid
  pub status : UserStatus
  pub display_name : Text

pub record LoginIdentity : Type 0 where
  pub id : Uuid
  pub user_id : Uuid
  pub provider : LoginIdentityProvider
  pub provider_subject : Text

pub record LoginIdentityProfile : Type 0 where
  pub id : Uuid
  pub user_id : Uuid
  pub provider : LoginIdentityProvider
  pub linked_at : ℕ
  pub last_used_at : Option ℕ

pub record UserEmail : Type 0 where
  pub id : Uuid
  pub user_id : Uuid
  pub ciphertext : Text
  pub lookup_hash : Text
  pub is_primary : Bool

pub record PasswordCredential : Type 0 where
  pub user_id : Uuid
  pub password_hash : Text

pub record EmailPasswordRegistration : Type 0 where
  pub user : User
  pub identity : LoginIdentity
  pub email : UserEmail
  pub password_credential : PasswordCredential

pub record EmailPasswordAccount : Type 0 where
  pub user_id : Uuid
  pub status : UserStatus
  pub password_hash : Text

pub data IdentityError : Type 0 where
  invalid_display_name invalid_subject empty_ciphertext invalid_lookup_hash not_argon2id
        different_users not_email email_provider invalid_hash :
      IdentityError

-- `User.__post_init__`
unfoldable pub user : User → Result IdentityError User
user u =
    raise_unless (not (is_blank u.display_name || ltb 64 (length u.display_name)))
      IdentityError.invalid_display_name (ok u)

-- `LoginIdentity.__post_init__`
unfoldable pub login_identity : LoginIdentity → Result IdentityError LoginIdentity
login_identity i =
    raise_unless (not (is_empty i.provider_subject || ltb 255 (length i.provider_subject)))
      IdentityError.invalid_subject (ok i)

-- `UserEmail.__post_init__`
unfoldable pub user_email : UserEmail → Result IdentityError UserEmail
user_email e =
    raise_unless (not (is_empty e.ciphertext)) IdentityError.empty_ciphertext
      (raise_unless (length e.lookup_hash == 64) IdentityError.invalid_lookup_hash (ok e))

-- `s.startswith(p)`
abbrev pub starts_with : Text → Text → Bool
starts_with [] s = true
starts_with (c ∷ p) [] = false
starts_with (c ∷ p) (d ∷ s) = c == d && starts_with p s

abbrev pub is_argon2id : Text → Bool
is_argon2id h = starts_with (codes "$argon2id$") h

-- `PasswordCredential.__post_init__`
unfoldable pub password_credential : PasswordCredential → Result IdentityError PasswordCredential
password_credential c = raise_unless (is_argon2id c.password_hash) IdentityError.not_argon2id (ok c)

-- `EmailPasswordAccount.__post_init__`
unfoldable pub email_password_account :
    EmailPasswordAccount → Result IdentityError EmailPasswordAccount
email_password_account a =
    raise_unless (is_argon2id a.password_hash) IdentityError.not_argon2id (ok a)

-- `EmailPasswordRegistration.__post_init__`
unfoldable pub email_password_registration :
    EmailPasswordRegistration → Result IdentityError EmailPasswordRegistration
email_password_registration r =
    let u = r.user.id in
    raise_unless
      (r.identity.user_id == u && r.email.user_id == u && r.password_credential.user_id == u)
      IdentityError.different_users
      (raise_unless (is_email r.identity.provider) IdentityError.not_email (ok r))

pub record IdentityLinkTransaction : Type 0 where
  pub id : Uuid
  pub user_id : Uuid
  pub provider : LoginIdentityProvider
  pub state_hash : Text
  pub code_verifier_ciphertext : Text
  pub expires_at : ℕ
  pub consumed_at : Option ℕ

-- `IdentityLinkTransaction.__post_init__`
unfoldable pub identity_link_transaction :
    IdentityLinkTransaction → Result IdentityError IdentityLinkTransaction
identity_link_transaction t =
    raise_unless (not (is_email t.provider)) IdentityError.email_provider (
      raise_unless (length t.state_hash == 64) IdentityError.invalid_hash (
        raise_unless (not (is_empty t.code_verifier_ciphertext)) IdentityError.empty_ciphertext
          (ok t)))

pub record OAuthLoginTransaction : Type 0 where
  pub id : Uuid
  pub provider : LoginIdentityProvider
  pub state_hash : Text
  pub code_verifier_ciphertext : Text
  pub expires_at : ℕ

-- `OAuthLoginTransaction.__post_init__`
unfoldable pub oauth_login_transaction :
    OAuthLoginTransaction → Result IdentityError OAuthLoginTransaction
oauth_login_transaction t =
    raise_unless (not (is_email t.provider)) IdentityError.email_provider
      (raise_unless (length t.state_hash == 64) IdentityError.invalid_hash (ok t))

pub record PasswordRecoveryTransaction : Type 0 where
  pub id : Uuid
  pub user_id : Uuid
  pub token_hash : Text
  pub expires_at : ℕ
  pub consumed_at : Option ℕ

-- `PasswordRecoveryTransaction.__post_init__`
unfoldable pub password_recovery_transaction :
    PasswordRecoveryTransaction → Result IdentityError PasswordRecoveryTransaction
password_recovery_transaction t =
    raise_unless (length t.token_hash == 64) IdentityError.invalid_hash (ok t)
