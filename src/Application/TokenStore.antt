-- ===== src/Application/TokenStore.antt =====
-- `OneTimeTokenStore` of application/ports.py: what the use cases ask of a store of one-time
-- tokens, over the store's state, and the store in memory as an implementation of it.
use muxivo_console.Shared.{ℕ, ℤ, Bool, Option, Text, Result, ok}
use muxivo_console.Infrastructure.Tokens.{Store, put_token, get_token, replace_token, consume_token}

pub data ConnectionError : Type 0 where
  connection_error : ConnectionError

-- Each call may raise a `ConnectionError`.
pub record OneTimeTokenStore (S : Type 0) : Type 0 where
  pub put : Text → Text → ℤ → S → Result ConnectionError Bool × S
  pub get : Text → S → Result ConnectionError (Option Text) × S
  pub replace : Text → Text → ℤ → S → Result ConnectionError Bool × S
  pub consume : Text → Text → S → Result ConnectionError Bool × S

abbrev pub made {ℓ} : {A S : Type ℓ} → A × S → Result ConnectionError A × S
made (a, s) = (ok a, s)

-- `InMemoryOneTimeTokenStore` during one use case, whose calls read the clock at one instant.
abbrev pub in_memory : ℕ → OneTimeTokenStore Store
in_memory now = record {
  put = λ key value ttl s. made (put_token now now key value ttl s);
  get = λ key s. made (get_token now key s);
  replace = λ key value ttl s. made (replace_token now now key value ttl s);
  consume = λ key value s. made (consume_token now key value s);
}
