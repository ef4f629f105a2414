-- ===== src/Application/Libraries.antt =====
-- What the use cases call in libraries, or in adapters around them: keyed hashes, the password
-- hash, the ciphers, the text form of a UUID, base64, the decimal digits of Unicode and the e-mail
-- validator. `none` stands for a `ValueError` or `InvalidToken`.
use muxivo_console.Shared.{ℕ, Bool, Option, Text}
use muxivo_console.Domain.Activity.{Uuid}

pub record Libraries : Type 0 where
  pub normalize_email : Text → Option Text
  pub hash_email : Text → Text
  pub hash_token : Text → Text
  pub hash_ip : Text → Text
  pub hash_agent : Text → Text
  pub hash_password : Text → Text
  pub verify_password : Text → Text → Bool
  pub encrypt : Text → Text
  pub decrypt : Text → Option Text
  pub code_challenge : Text → Text
  pub uuid_text : Uuid → Text
  pub is_uuid_text : Text → Bool
  pub uuid_of_text : Text → Option Uuid
  pub is_decimal_digit : ℕ → Bool
  pub base64_encode : Text → Text
  pub base64_decode : Text → Option Text

-- The opaque tokens that the issuer returns, call by call.
abbrev pub Tokens : Type 0
Tokens = ℕ → Text
