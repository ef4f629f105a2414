-- ===== src/Application/Registration/Codec.antt =====
-- The text of a waiting registration is read back.
use muxivo_console.Shared.{false, ◌≡◌, refl, some, Text, is_empty, ok}
use muxivo_console.Domain.Activity.{Uuid}
use muxivo_console.Application.Libraries.{Libraries}
use muxivo_console.Application.Registration.{
  JsonLibrary, JsonObject, PendingRegistration, pending_registration, payload_of, to_json,
  from_payload, from_json, pending_of,
}

module _ (lib : Libraries) (json : JsonLibrary) where
  -- What the text formats promise: each reads what it has written, and no JSON text is empty.
  pub record Formats : Type 0 where
    pub loads_dumps : (o : JsonObject) → json.loads (json.dumps o) ≡ some o
    pub dumps_text : (o : JsonObject) → is_empty (json.dumps o) ≡ false
    pub base64_decode_encode : (t : Text) → lib.base64_decode (lib.base64_encode t) ≡ some t
    pub uuid_of_text_uuid_text : (u : Uuid) → lib.uuid_of_text (lib.uuid_text u) ≡ some u

  module _ (formats : Formats) (p : PendingRegistration)
      (valid : pending_registration p ≡ ok p) where
    payload_read : from_payload lib json (payload_of lib json p) ≡ some p
    unfolding from_payload
    payload_read =
        rw
          (
            formats.base64_decode_encode p.email_ciphertext,
            formats.uuid_of_text_uuid_text p.registration_id,
            valid,
          )
          refl

    -- A registration whose fields are valid is read back as it was written, where the text formats
    -- read what they write.
    pub pending_of-to_json : pending_of lib json (some (to_json lib json p)) ≡ some p
    unfolding to_json from_json
    pending_of-to_json =
        rw (formats.dumps_text (payload_of lib json p), formats.loads_dumps (payload_of lib json p))
          payload_read
