-- ===== src/Persistence/Rows.antt =====
-- infrastructure/persistence/models.py: the rows of the tables of accounts.
use muxivo_console.Shared.{ℕ, Bool, Option, Text, String}
use muxivo_console.Domain.Activity.{Uuid}

pub record UserRow : Type 0 where
  pub id : Uuid
  pub status : String
  pub display_name : Text

-- The hash is unique.
pub record EmailRow : Type 0 where
  pub id : Uuid
  pub user_id : Uuid
  pub email_ciphertext : Text
  pub email_lookup_hash : Text
  pub is_primary : Bool

pub record LoginIdentityRow : Type 0 where
  pub id : Uuid
  pub user_id : Uuid
  pub provider : String
  pub provider_subject : Text
  pub linked_at : ℕ
  pub last_used_at : Option ℕ

pub record CredentialRow : Type 0 where
  pub user_id : Uuid
  pub password_hash : Text
  pub password_changed_at : ℕ
  pub failed_attempts : ℕ
  pub locked_until : Option ℕ

pub record LinkTransactionRow : Type 0 where
  pub id : Uuid
  pub user_id : Uuid
  pub provider : String
  pub state_hash : Text
  pub code_verifier_ciphertext : Text
  pub expires_at : ℕ
  pub consumed_at : Option ℕ

pub record LoginTransactionRow : Type 0 where
  pub id : Uuid
  pub provider : String
  pub state_hash : Text
  pub code_verifier_ciphertext : Text
  pub expires_at : ℕ
  pub consumed_at : Option ℕ

pub record RecoveryTransactionRow : Type 0 where
  pub id : Uuid
  pub user_id : Uuid
  pub token_hash : Text
  pub expires_at : ℕ
  pub consumed_at : Option ℕ
