-- ===== src/Persistence/Transactions.antt =====
-- infrastructure/persistence/identity_link_transaction_writer.py,
-- oauth_login_transaction_repository.py, password_recovery_repository.py and
-- password_recovery_recipient_reader.py: transactions of linking, login and recovery. Each method
-- is one transaction of the database.
use text.Mathlib.Text.{◌==◌ as str_eq}
use muxivo_console.Shared.{
  ℕ, Bool, true, false, not, ◌&&◌, ◌||◌, Option, none, some, ◌∷◌, Text, text_eq, any, find, ltb,
  ◌==◌, Result, ok, err, if◌then◌else◌, is_none,
}
use muxivo_console.Domain.Activity.{Uuid}
use muxivo_console.Domain.Audit.{AuditEvent}
use muxivo_console.Domain.Identity.{
  IdentityLinkTransaction, OAuthLoginTransaction, PasswordRecoveryTransaction, IdentityError,
  identity_link_transaction, oauth_login_transaction,
}
use muxivo_console.Persistence.Rows.{
  LinkTransactionRow, LoginTransactionRow, RecoveryTransactionRow,
}
use muxivo_console.Persistence.Database.{Database, update_where, audit_fits, has_user}
use muxivo_console.Persistence.Connections.{and_then, no_error}
use muxivo_console.Persistence.Identities.{provider_value, to_provider}

-- Primary key, foreign key, unique state hash and check of the provider of
-- `identity_link_transactions`.
abbrev pub link_fits : LinkTransactionRow → Database → Bool
link_fits r db =
    not (any (λ s. s.id == r.id || text_eq s.state_hash r.state_hash) db.link_transactions)
    && has_user r.user_id db
    && not (str_eq r.provider "email")

abbrev pub link_row : IdentityLinkTransaction → LinkTransactionRow
link_row t = record {
  id = t.id;
  user_id = t.user_id;
  provider = provider_value t.provider;
  state_hash = t.state_hash;
  code_verifier_ciphertext = t.code_verifier_ciphertext;
  expires_at = t.expires_at;
  consumed_at = none;
}

-- `SqlAlchemyIdentityLinkTransactionWriter.create`
unfoldable pub create_link : IdentityLinkTransaction → AuditEvent → Database → Bool × Database
create_link t event db =
    if link_fits (link_row t) db && audit_fits event db
    then (
      true,
      record db {
        link_transactions = link_row t ∷ db.link_transactions;
        audit_events = event ∷ db.audit_events;
      },
    )
    else (false, db)

abbrev pub is_usable_link : Text → ℕ → LinkTransactionRow → Bool
is_usable_link state_hash at r =
    text_eq r.state_hash state_hash && is_none r.consumed_at && ltb at r.expires_at

abbrev pub consumed_link : ℕ → LinkTransactionRow → LinkTransactionRow
consumed_link at r = record r { consumed_at = some at }

abbrev pub link_from_row : LinkTransactionRow → Option IdentityLinkTransaction
link_from_row r = elim (to_provider r.provider) [
  | none ↦ none
  | some p ↦ no_error (
      identity_link_transaction (record {
        id = r.id;
        user_id = r.user_id;
        provider = p;
        state_hash = r.state_hash;
        code_verifier_ciphertext = r.code_verifier_ciphertext;
        expires_at = r.expires_at;
        consumed_at = r.consumed_at;
      }))
]

-- `SqlAlchemyIdentityLinkTransactionConsumer.consume`: the row as the update leaves it.
unfoldable pub consume_link : Text → ℕ → Database → Option IdentityLinkTransaction × Database
consume_link state_hash at db = (
  and_then (find (is_usable_link state_hash at) db.link_transactions)
      (λ r. link_from_row (consumed_link at r)),
  record db {
    link_transactions =
        update_where (is_usable_link state_hash at) (consumed_link at) db.link_transactions;
  },
)

-- Primary key, unique state hash and check of the provider of `oauth_login_transactions`.
abbrev pub login_fits : LoginTransactionRow → Database → Bool
login_fits r db =
    not (any (λ s. s.id == r.id || text_eq s.state_hash r.state_hash) db.login_transactions)
    && not (str_eq r.provider "email")

abbrev pub login_row : OAuthLoginTransaction → LoginTransactionRow
login_row t = record {
  id = t.id;
  provider = provider_value t.provider;
  state_hash = t.state_hash;
  code_verifier_ciphertext = t.code_verifier_ciphertext;
  expires_at = t.expires_at;
  consumed_at = none;
}

-- `SqlAlchemyOAuthLoginTransactionWriter.create`
unfoldable pub create_login : OAuthLoginTransaction → AuditEvent → Database → Bool × Database
create_login t event db =
    if login_fits (login_row t) db && audit_fits event db
    then (
      true,
      record db {
        login_transactions = login_row t ∷ db.login_transactions;
        audit_events = event ∷ db.audit_events;
      },
    )
    else (false, db)

abbrev pub is_usable_login : Text → ℕ → LoginTransactionRow → Bool
is_usable_login state_hash at r =
    text_eq r.state_hash state_hash && is_none r.consumed_at && ltb at r.expires_at

abbrev pub consumed_login : ℕ → LoginTransactionRow → LoginTransactionRow
consumed_login at r = record r { consumed_at = some at }

-- The `ValueError` of an unknown provider or of the construction is not caught.
abbrev pub login_from_row : LoginTransactionRow → Result IdentityError OAuthLoginTransaction
login_from_row r = elim (to_provider r.provider) [
  | none ↦ err IdentityError.email_provider
  | some p ↦ oauth_login_transaction (record {
    id = r.id;
    provider = p;
    state_hash = r.state_hash;
    code_verifier_ciphertext = r.code_verifier_ciphertext;
    expires_at = r.expires_at;
  })
]

abbrev pub found_login :
    Option LoginTransactionRow → Result IdentityError (Option OAuthLoginTransaction)
found_login none = ok none
found_login (some r) = elim (login_from_row r) [ ok t ↦ ok (some t) | err e ↦ err e ]

-- `SqlAlchemyOAuthLoginTransactionConsumer.consume`
unfoldable pub consume_login :
    Text → ℕ → Database → Result IdentityError (Option OAuthLoginTransaction) × Database
consume_login state_hash at db = (
  found_login (find (is_usable_login state_hash at) db.login_transactions),
  record db {
    login_transactions =
        update_where (is_usable_login state_hash at) (consumed_login at) db.login_transactions;
  },
)

-- Primary key, foreign key and unique hash of `password_recovery_transactions`.
abbrev pub recovery_fits : RecoveryTransactionRow → Database → Bool
recovery_fits r db =
    not (any (λ s. s.id == r.id || text_eq s.token_hash r.token_hash) db.recovery_transactions)
    && has_user r.user_id db

abbrev pub recovery_row : PasswordRecoveryTransaction → RecoveryTransactionRow
recovery_row t = record {
  id = t.id;
  user_id = t.user_id;
  token_hash = t.token_hash;
  expires_at = t.expires_at;
  consumed_at = t.consumed_at;
}

-- `SqlAlchemyPasswordRecoveryRepository.create`
unfoldable pub create_recovery :
    PasswordRecoveryTransaction → AuditEvent → Database → Bool × Database
create_recovery t event db =
    if recovery_fits (recovery_row t) db && audit_fits event db
    then (
      true,
      record db {
        recovery_transactions = recovery_row t ∷ db.recovery_transactions;
        audit_events = event ∷ db.audit_events;
      },
    )
    else (false, db)

abbrev pub is_usable_recovery : Text → ℕ → RecoveryTransactionRow → Bool
is_usable_recovery token_hash at r =
    text_eq r.token_hash token_hash && is_none r.consumed_at && ltb at r.expires_at

abbrev pub consumed_recovery : ℕ → RecoveryTransactionRow → RecoveryTransactionRow
consumed_recovery at r = record r { consumed_at = some at }

abbrev pub recovered_event : Uuid → Uuid → Uuid → AuditEvent
recovered_event audit_id correlation_id u = record {
  id = audit_id;
  correlation_id = correlation_id;
  actor_id = some u;
  organization_id = none;
  action = "auth.password_recovered";
  resource_type = "user";
  resource_id = some u;
  result = "succeeded";
}
