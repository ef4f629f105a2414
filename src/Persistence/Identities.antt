-- ===== src/Persistence/Identities.antt =====
-- infrastructure/persistence/identity_repository.py, identity_link_writer.py,
-- identity_unlink_writer.py and registration_writer.py: accounts and the identities by which they
-- log in. Each method is one transaction.
pub mod Writes
use text.Mathlib.Text.{◌==◌ as str_eq}
use muxivo_console.Shared.{
  ℕ, suc, Bool, true, false, not, ◌&&◌, ◌||◌, Option, none, some, List, [], ◌∷◌, Text, String,
  text_eq, any, filter, find, count, ltb, sort_by, ◌==◌, Result, ok, err, if◌then◌else◌, is_empty,
}
use muxivo_console.Domain.Activity.{Uuid}
use muxivo_console.Domain.Audit.{AuditEvent}
use muxivo_console.Domain.Identity.{
  LoginIdentityProvider, LoginIdentity, LoginIdentityProfile, EmailPasswordAccount,
  PasswordCredential, EmailPasswordRegistration, email_password_account, password_credential,
}
use muxivo_console.Persistence.Rows.{UserRow, EmailRow, LoginIdentityRow, CredentialRow}
use muxivo_console.Persistence.Database.{Database, update_where, audit_fits, has_user}
use muxivo_console.Persistence.Connections.{and_then, no_error}
use muxivo_console.Persistence.Members.{to_user_status, user_status_value}

abbrev pub provider_value : LoginIdentityProvider → String
provider_value LoginIdentityProvider.email = "email"
provider_value LoginIdentityProvider.discord = "discord"
provider_value LoginIdentityProvider.twitch = "twitch"
provider_value LoginIdentityProvider.telegram = "telegram"
provider_value LoginIdentityProvider.google = "google"
provider_value LoginIdentityProvider.yandex = "yandex"

unfoldable pub to_provider : String → Option LoginIdentityProvider
to_provider s =
    if str_eq s "email"
    then some LoginIdentityProvider.email
    else if str_eq s "discord"
    then some LoginIdentityProvider.discord
    else if str_eq s "twitch"
    then some LoginIdentityProvider.twitch
    else if str_eq s "telegram"
    then some LoginIdentityProvider.telegram
    else if str_eq s "google"
    then some LoginIdentityProvider.google
    else if str_eq s "yandex"
    then some LoginIdentityProvider.yandex
    else none

abbrev pub has_credential_of : Uuid → CredentialRow → Bool
has_credential_of u c = c.user_id == u

-- The construction of an account from the joined columns; a `ValueError` gives none.
unfoldable pub account_from_row : UserRow → CredentialRow → Option EmailPasswordAccount
account_from_row u c = elim (to_user_status u.status) [
  | none ↦ none
  | some status ↦ no_error (
      email_password_account
        (record { user_id = u.id; status = status; password_hash = c.password_hash }))
]

-- `SqlAlchemyEmailPasswordAccountReader.find_by_email_lookup_hash`: the e-mail's hash and both
-- users' keys are unique.
unfoldable pub find_by_email_lookup_hash : Text → Database → Option EmailPasswordAccount
find_by_email_lookup_hash hash db =
    and_then (find (λ e. text_eq e.email_lookup_hash hash) db.emails) λ e.
      and_then (find (λ u. u.id == e.user_id) db.users)
        λ u. and_then (find (has_credential_of u.id) db.credentials) λ c. account_from_row u c

-- `SqlAlchemyLoginIdentityReader.find_provider_subject`, by the one row that is there.
unfoldable pub find_provider_subject : Uuid → LoginIdentityProvider → Database → Option Text
find_provider_subject u p db =
    and_then
      (find (λ r. r.user_id == u && str_eq r.provider (provider_value p)) db.login_identities)
      λ r. if is_empty r.provider_subject then none else some r.provider_subject

abbrev pub is_subject : String → Text → LoginIdentityRow → Bool
is_subject p s r = str_eq r.provider p && text_eq r.provider_subject s

-- `SqlAlchemyLoginIdentityReader.find_user_id`
unfoldable pub find_user_id : LoginIdentityProvider → Text → Database → Option Uuid
find_user_id p s db =
    and_then (find (is_subject (provider_value p) s) db.login_identities) λ r. some r.user_id

-- `order_by(linked_at, id)`
abbrev pub linked_before : LoginIdentityRow → LoginIdentityRow → Bool
linked_before r s = ltb r.linked_at s.linked_at || r.linked_at == s.linked_at && ltb r.id s.id

abbrev pub profile_from_row : LoginIdentityRow → Option LoginIdentityProfile
profile_from_row r = elim (to_provider r.provider) [
  | none ↦ none
  | some p ↦ some (record {
    id = r.id;
    user_id = r.user_id;
    provider = p;
    linked_at = r.linked_at;
    last_used_at = r.last_used_at;
  })
]

abbrev pub skip_none : {A : Type 0} → Option A → List A → List A
skip_none none rest = rest
skip_none (some a) rest = a ∷ rest

-- The loop that skips a row whose provider is unknown.
abbrev pub profiles_from_rows : List LoginIdentityRow → List LoginIdentityProfile
profiles_from_rows [] = []
profiles_from_rows (r ∷ rs) = skip_none (profile_from_row r) (profiles_from_rows rs)

-- `SqlAlchemyLoginIdentityReader.list_for_user`
unfoldable pub list_for_user : Uuid → Database → List LoginIdentityProfile
list_for_user u db =
    profiles_from_rows (sort_by linked_before (filter (λ r. r.user_id == u) db.login_identities))

-- `SqlAlchemyPasswordCredentialRepository.find_for_user`
unfoldable pub find_credential : Uuid → Database → Option PasswordCredential
find_credential u db =
    and_then (find (has_credential_of u) db.credentials)
      λ c. no_error (password_credential (record { user_id = u; password_hash = c.password_hash }))
