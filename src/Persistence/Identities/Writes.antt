-- ===== src/Persistence/Identities/Writes.antt =====
-- The writers of accounts, credentials and identities.
use text.Mathlib.Text.{◌==◌ as str_eq}
use muxivo_console.Shared.{
  ℕ, Bool, true, false, not, ◌&&◌, none, ◌∷◌, Text, text_eq, any, filter, count, ◌==◌,
  if◌then◌else◌,
}
use muxivo_console.Domain.Activity.{Uuid}
use muxivo_console.Domain.Audit.{AuditEvent}
use muxivo_console.Domain.Identity.{LoginIdentity, EmailPasswordRegistration}
use muxivo_console.Persistence.Rows.{UserRow, EmailRow, LoginIdentityRow, CredentialRow}
use muxivo_console.Persistence.Database.{Database, update_where, audit_fits, has_user}
use muxivo_console.Persistence.Members.{user_status_value}
use muxivo_console.Persistence.Identities.{provider_value, is_subject, has_credential_of}

abbrev pub identity_row : ℕ → LoginIdentity → LoginIdentityRow
identity_row server_now i = record {
  id = i.id;
  user_id = i.user_id;
  provider = provider_value i.provider;
  provider_subject = i.provider_subject;
  linked_at = server_now;
  last_used_at = none;
}

-- Primary key, foreign key and `uq_login_identity_provider_subject` of `login_identities`.
abbrev pub identity_fits : LoginIdentityRow → Database → Bool
identity_fits r db =
    not (any (λ s. s.id == r.id) db.login_identities)
    && has_user r.user_id db
    && not (any (is_subject r.provider r.provider_subject) db.login_identities)

-- `SqlAlchemyLoginIdentityLinkWriter.link`
unfoldable pub link : ℕ → LoginIdentity → AuditEvent → Database → Bool × Database
link server_now i event db =
    if identity_fits (identity_row server_now i) db && audit_fits event db
    then (
      true,
      record db {
        login_identities = identity_row server_now i ∷ db.login_identities;
        audit_events = event ∷ db.audit_events;
      },
    )
    else (false, db)

abbrev pub is_unlinkable : Uuid → Uuid → LoginIdentityRow → Bool
is_unlinkable i u r = r.id == i && r.user_id == u && not (str_eq r.provider "email")

-- `SqlAlchemyLoginIdentityUnlinkWriter.unlink`
unfoldable pub unlink : Uuid → Uuid → AuditEvent → Database → Bool × Database
unlink i u event db =
    let written = record db {
      login_identities = filter (λ r. not (is_unlinkable i u r)) db.login_identities;
    } in
    if not (count (is_unlinkable i u) db.login_identities == 1)
    then (false, written)
    else if audit_fits event db
    then (true, record written { audit_events = event ∷ db.audit_events })
    else (false, db)

abbrev pub changed_row : Text → ℕ → CredentialRow → CredentialRow
changed_row hash at c = record c {
  password_hash = hash;
  password_changed_at = at;
  failed_attempts = 0;
  locked_until = none;
}

-- `SqlAlchemyPasswordCredentialRepository.change_password`
unfoldable pub change_password : Uuid → Text → ℕ → AuditEvent → Database → Bool × Database
change_password u hash at event db =
    let written = record db {
      credentials = update_where (has_credential_of u) (changed_row hash at) db.credentials;
    } in
    if not (count (has_credential_of u) db.credentials == 1)
    then (false, written)
    else if audit_fits event db
    then (true, record written { audit_events = event ∷ db.audit_events })
    else (false, db)

abbrev pub user_row : EmailPasswordRegistration → UserRow
user_row r = record {
  id = r.user.id;
  status = user_status_value r.user.status;
  display_name = r.user.display_name;
}

abbrev pub email_row : EmailPasswordRegistration → EmailRow
email_row r = record {
  id = r.email.id;
  user_id = r.email.user_id;
  email_ciphertext = r.email.ciphertext;
  email_lookup_hash = r.email.lookup_hash;
  is_primary = r.email.is_primary;
}

abbrev pub credential_row : ℕ → EmailPasswordRegistration → CredentialRow
credential_row server_now r = record {
  user_id = r.password_credential.user_id;
  password_hash = r.password_credential.password_hash;
  password_changed_at = server_now;
  failed_attempts = 0;
  locked_until = none;
}

-- Primary key, foreign key and unique hash of `user_emails`.
abbrev pub email_fits : EmailRow → Database → Bool
email_fits e db =
    not (any (λ f. f.id == e.id) db.emails)
    && has_user e.user_id db
    && not (any (λ f. text_eq f.email_lookup_hash e.email_lookup_hash) db.emails)

-- Primary and foreign key of `password_credentials`.
abbrev pub credential_fits : CredentialRow → Database → Bool
credential_fits c db =
    not (any (has_credential_of c.user_id) db.credentials) && has_user c.user_id db

abbrev pub with_user : EmailPasswordRegistration → Database → Database
with_user r db = record db { users = user_row r ∷ db.users }

-- `SqlAlchemyEmailPasswordRegistrationWriter.register`: the user is flushed first.
unfoldable pub register : ℕ → EmailPasswordRegistration → AuditEvent → Database → Bool × Database
register server_now r event db =
    let present = with_user r db in
    if not (has_user r.user.id db)
      && identity_fits (identity_row server_now r.identity) present
      && email_fits (email_row r) present
      && credential_fits (credential_row server_now r) present
      && audit_fits event db
    then (
      true,
      record present {
        login_identities = identity_row server_now r.identity ∷ db.login_identities;
        emails = email_row r ∷ db.emails;
        credentials = credential_row server_now r ∷ db.credentials;
        audit_events = event ∷ db.audit_events;
      },
    )
    else (false, db)
