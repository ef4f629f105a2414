-- ===== src/Tests/Formats.antt =====
-- A text format for objects, which stands for JSON in the runs of a registration: lengths and tags
-- before what they announce.
use muxivo_console.Shared.{
  ℕ, zero, suc, pos, negsuc, true, false, ◌≡◌, refl, Option, none, some, [], ◌∷◌, Text, ◌++◌,
  length,
}
use muxivo_console.Persistence.Connections.{and_then}
use muxivo_console.Application.Libraries.{Libraries}
use muxivo_console.Application.Registration.{JsonValue, JsonObject, JsonLibrary}
use muxivo_console.Application.Registration.Codec.{Formats}
use muxivo_console.Tests.Accounts.{lib}

abbrev take_text : ℕ → Text → Option (Text × Text)
take_text zero bs = some ([], bs)
take_text (suc n) [] = none
take_text (suc n) (b ∷ bs) = and_then (take_text n bs) λ r. some (b ∷ r.0, r.1)

take_text-append : (t rest : Text) → take_text (length t) (t ++ rest) ≡ some (t, rest)
take_text-append [] rest = refl
take_text-append (c ∷ t) rest = rw (take_text-append t rest) refl

abbrev read_text : Text → Option (Text × Text)
read_text [] = none
read_text (n ∷ bs) = take_text n bs

abbrev write_value : JsonValue → Text → Text
write_value (JsonValue.text t) rest = zero ∷ length t ∷ t ++ rest
write_value (JsonValue.number (pos n)) rest = (suc zero) ∷ n ∷ rest
write_value (JsonValue.number (negsuc n)) rest = (suc (suc zero)) ∷ n ∷ rest
write_value (JsonValue.boolean true) rest = (suc (suc (suc zero))) ∷ rest
write_value (JsonValue.boolean false) rest = (suc (suc (suc (suc zero)))) ∷ rest
write_value JsonValue.other rest = (suc (suc (suc (suc (suc zero))))) ∷ rest

abbrev text_value : Option (Text × Text) → Option (JsonValue × Text)
text_value none = none
text_value (some (t, rest)) = some (JsonValue.text t, rest)

abbrev read_value : Text → Option (JsonValue × Text)
read_value (zero ∷ bs) = text_value (read_text bs)
read_value ((suc zero) ∷ n ∷ bs) = some (JsonValue.number (pos n), bs)
read_value ((suc (suc zero)) ∷ n ∷ bs) = some (JsonValue.number (negsuc n), bs)
read_value ((suc (suc (suc zero))) ∷ bs) = some (JsonValue.boolean true, bs)
read_value ((suc (suc (suc (suc zero)))) ∷ bs) = some (JsonValue.boolean false, bs)
read_value ((suc (suc (suc (suc (suc zero))))) ∷ bs) = some (JsonValue.other, bs)
read_value _ = none

read-write_value : (v : JsonValue) (rest : Text) → read_value (write_value v rest) ≡ some (v, rest)
read-write_value (JsonValue.text t) rest = rw (take_text-append t rest) refl
read-write_value (JsonValue.number (pos n)) rest = refl
read-write_value (JsonValue.number (negsuc n)) rest = refl
read-write_value (JsonValue.boolean true) rest = refl
read-write_value (JsonValue.boolean false) rest = refl
read-write_value JsonValue.other rest = refl

abbrev write_members : JsonObject → Text
write_members [] = []
write_members ((k, v) ∷ o) = length k ∷ k ++ write_value v (write_members o)

abbrev read_members : ℕ → Text → Option JsonObject
read_members zero bs = some []
read_members (suc n) bs = and_then (read_text bs) λ key.
    and_then (read_value key.1)
      λ value. and_then (read_members n value.1) λ rest. some ((key.0, value.0) ∷ rest)

read-write_members : (o : JsonObject) → read_members (length o) (write_members o) ≡ some o
read-write_members [] = refl
read-write_members ((k, v) ∷ o) =
    rw (take_text-append k (write_value v (write_members o)))
      (rw (read-write_value v (write_members o)) (rw (read-write_members o) refl))

abbrev loads : Text → Option JsonObject
loads [] = none
loads (n ∷ bs) = read_members n bs

abbrev pub json : JsonLibrary
json = record { dumps = λ o. length o ∷ write_members o; loads = loads }

abbrev one_code : Text → Option ℕ
one_code (u ∷ []) = some u
one_code _ = none

abbrev pub plain : Libraries
plain = record lib { uuid_of_text = one_code }

pub formats : Formats plain json
formats = record {
  loads_dumps = read-write_members;
  dumps_text = λ o. refl;
  base64_decode_encode = λ t. refl;
  uuid_of_text_uuid_text = λ u. refl;
}
