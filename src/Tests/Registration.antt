-- ===== src/Tests/Registration.antt =====
-- Five wrong codes, and then the right one.
use muxivo_console.Shared.{
  pos, true, ◌≡◌, refl, arith, some, [], ◌∷◌, List, Text, codes, ok, err, is_blank, strip, is_space,
}
use muxivo_console.Infrastructure.Tokens.{Store, text_keys}
use muxivo_console.Application.Sessions.{is_usable_token}
use muxivo_console.Application.Registration.{
  PendingRegistration, pending_registration, to_json, pending_of,
}
use muxivo_console.Application.Registration.Codec.{pending_of-to_json}
use muxivo_console.Application.Registration.Verify.{VerifyError}
use muxivo_console.Application.Registration.Attempts.{key}
use muxivo_console.Application.Registration.Exhaustion.{
  Attempt, AllWrong, run_attempts, verify, wrong_codes_end,
}
use muxivo_console.Tests.Fixtures.{base}
use muxivo_console.Tests.Accounts.{ids}
use muxivo_console.Tests.Formats.{json, plain, formats}

abbrev digest_text : Text
digest_text = codes "7777777777777777777777777777777777777777777777777777777777777777"

abbrev pending : PendingRegistration
pending = record {
  registration_id = 60;
  email_ciphertext = codes "x";
  email_lookup_hash = digest_text;
  password_hash = codes "$argon2id$new";
  display_name = codes "New";
  verification_code_hash = digest_text;
  attempts = pos 0;
}

valid : pending_registration pending ≡ ok pending
unfolding pending_registration is_blank strip is_space
valid = refl

pending_of-to_json_example :
    pending_of plain json (some (to_json plain json pending)) ≡ some pending
pending_of-to_json_example = pending_of-to_json plain json formats pending valid

abbrev token : Text
token = codes "raw"

abbrev six_zeros : Attempt
six_zeros = record { instant = 100; code = codes "000000"; correlation_id = 7 }

abbrev attempts : List Attempt
attempts = six_zeros ∷ six_zeros ∷ six_zeros ∷ six_zeros ∷ six_zeros ∷ []

abbrev waiting : Store
waiting = (key plain json formats ids token pending valid, (to_json plain json pending, 5000)) ∷ []

usable : is_usable_token token ≡ true
unfolding is_usable_token is_space
usable = refl

wrong : AllWrong plain json formats ids token pending valid attempts
wrong = ((refl, refl), ((refl, refl), ((refl, refl), ((refl, refl), ((refl, refl), tt)))))

wrong_codes_end_example :
    let (s', db') = run_attempts plain json formats ids token pending valid attempts waiting base in
    (db' ≡ base)
    × ((verify plain json formats ids token pending valid six_zeros s' db').0
        ≡ err VerifyError.rejected)
    × ((verify plain json formats ids token pending valid six_zeros s' db').2 ≡ base)
wrong_codes_end_example =
    wrong_codes_end plain json formats ids token pending valid attempts six_zeros 5000 0 waiting
      base usable (refl, tt) (omega arith) refl wrong (omega arith)
