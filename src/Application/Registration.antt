-- ===== src/Application/Registration.antt =====
-- application/pending_email_password_registration.py: a registration that waits for the code sent
-- by mail, and the JSON text under which the store of tokens holds it. The text of a JSON value is
-- the library's, which is a parameter. A stored payload whose fields are of another type than text
-- is no registration here; of such a payload `from_json` raises AttributeError if its identifier,
-- name or password hash is no text, and takes a list of 64 values for a hash. `to_json` writes
-- none.
pub mod Start
pub mod Verify
pub mod Codec
pub mod Attempts
pub mod Exhaustion
use muxivo_console.Shared.{
  ℕ, suc, ℤ, pos, negsuc, Bool, true, false, not, ◌&&◌, ◌||◌, Option, none, some, List, [], ◌∷◌,
  Text, codes, text_eq, is_blank, is_empty, length, leb, ltb, ◌==◌, find, Result, ok, err,
  raise_unless, if◌then◌else◌,
}
use muxivo_console.Domain.Activity.{Uuid}
use muxivo_console.Domain.Identity.{is_argon2id}
use muxivo_console.Persistence.Connections.{and_then, no_error}
use muxivo_console.Application.Libraries.{Libraries}

-- A member of the object that is written: texts, and the number of attempts.
pub data JsonValue : Type 0 where
  text : Text → JsonValue
  number : ℤ → JsonValue
  boolean : Bool → JsonValue
  other : JsonValue

abbrev pub JsonObject : Type 0
JsonObject = List (Text × JsonValue)

-- `json.dumps` with sorted keys, and `json.loads`, `none` where it raises or gives no object.
pub record JsonLibrary : Type 0 where
  pub dumps : JsonObject → Text
  pub loads : Text → Option JsonObject

pub record PendingRegistration : Type 0 where
  pub registration_id : Uuid
  pub email_ciphertext : Text
  pub email_lookup_hash : Text
  pub password_hash : Text
  pub display_name : Text
  pub verification_code_hash : Text
  pub attempts : ℤ

abbrev pub max_verification_attempts : ℕ
max_verification_attempts = 5

abbrev pub is_attempt_count : ℤ → Bool
is_attempt_count (pos n) = leb n max_verification_attempts
is_attempt_count (negsuc n) = false

pub data PendingError : Type 0 where
  empty_ciphertext invalid_lookup_hash not_argon2id invalid_display_name invalid_code_hash
        invalid_attempts :
      PendingError

-- `PendingEmailPasswordRegistration.__post_init__`
unfoldable pub pending_registration : PendingRegistration → Result PendingError PendingRegistration
pending_registration p =
    if is_empty p.email_ciphertext
    then err PendingError.empty_ciphertext
    else if not (length p.email_lookup_hash == 64)
    then err PendingError.invalid_lookup_hash
    else if not (is_argon2id p.password_hash)
    then err PendingError.not_argon2id
    else if is_blank p.display_name || ltb 64 (length p.display_name)
    then err PendingError.invalid_display_name
    else if not (length p.verification_code_hash == 64)
    then err PendingError.invalid_code_hash
    else if not (is_attempt_count p.attempts)
    then err PendingError.invalid_attempts
    else ok p

-- `with_attempts`, for a count that the constructor accepts.
abbrev pub with_attempts : ℤ → PendingRegistration → PendingRegistration
with_attempts n p = record p { attempts = n }

module _ (lib : Libraries) (json : JsonLibrary) where
  -- The dictionary of `to_json`, its keys sorted.
  abbrev pub payload_of : PendingRegistration → JsonObject
  payload_of p =
      (codes "attempts", JsonValue.number p.attempts)
      ∷ (codes "display_name", JsonValue.text p.display_name)
      ∷ (codes "email_ciphertext", JsonValue.text (lib.base64_encode p.email_ciphertext))
      ∷ (codes "email_lookup_hash", JsonValue.text p.email_lookup_hash)
      ∷ (codes "password_hash", JsonValue.text p.password_hash)
      ∷ (codes "registration_id", JsonValue.text (lib.uuid_text p.registration_id))
      ∷ (codes "verification_code_hash", JsonValue.text p.verification_code_hash)
      ∷ []

  unfoldable pub to_json : PendingRegistration → Text
  to_json p = json.dumps (payload_of p)

  abbrev pub value_of : Option (Text × JsonValue) → Option JsonValue
  value_of none = none
  value_of (some (key, v)) = some v

  -- `payload[key]`
  abbrev pub member : Text → JsonObject → Option JsonValue
  member key o = value_of (find (λ e. text_eq e.0 key) o)

  -- The texts among the values; a value of another kind gives no registration.
  abbrev pub as_text : Option JsonValue → Option Text
  as_text (some (JsonValue.text s)) = some s
  as_text _ = none

  -- `payload.get("attempts", 0)`, where a Boolean is an `int`.
  abbrev pub as_count : Option JsonValue → Option ℤ
  as_count none = some (pos 0)
  as_count (some (JsonValue.number n)) = some n
  as_count (some (JsonValue.boolean true)) = some (pos 1)
  as_count (some (JsonValue.boolean false)) = some (pos 0)
  as_count (some (JsonValue.text s)) = none
  as_count (some JsonValue.other) = none

  unfoldable pub from_payload : JsonObject → Option PendingRegistration
  from_payload o =
      and_then (and_then (as_text (member (codes "email_ciphertext") o)) lib.base64_decode)
        λ ciphertext. and_then (as_count (member (codes "attempts") o)) λ attempts.
          and_then (and_then (as_text (member (codes "registration_id") o)) lib.uuid_of_text) λ id.
            and_then (as_text (member (codes "email_lookup_hash") o)) λ lookup_hash.
              and_then (as_text (member (codes "password_hash") o)) λ password_hash.
                and_then (as_text (member (codes "display_name") o)) λ display_name.
                  and_then (as_text (member (codes "verification_code_hash") o)) λ code_hash.
                    no_error (
                      pending_registration (record {
                        registration_id = id;
                        email_ciphertext = ciphertext;
                        email_lookup_hash = lookup_hash;
                        password_hash = password_hash;
                        display_name = display_name;
                        verification_code_hash = code_hash;
                        attempts = attempts;
                      }))

  unfoldable pub from_json : Text → Option PendingRegistration
  from_json s = and_then (json.loads s) from_payload

  -- `from_json(value) if value else None`
  abbrev pub pending_of : Option Text → Option PendingRegistration
  pending_of none = none
  pending_of (some s) = if is_empty s then none else from_json s
