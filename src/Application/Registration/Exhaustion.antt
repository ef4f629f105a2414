-- ===== src/Application/Registration/Exhaustion.antt =====
-- Wrong codes use a registration up.
use Prim.Native.Nat.{min}
use muxivo_console.Shared.{
  ℕ, suc, ◌+◌, ◌≤◌, pos, true, false, not, ◌||◌, ◌≡◌, refl, arith, some, List, [], ◌∷◌, Text,
  text_eq, length, get, IsDict, ok, err, Bool-cases, inl, inr, sym, ◌∙◌,
}
use mathlib.Core.Path.{subst}
use muxivo_console.Domain.Activity.{Uuid}
use muxivo_console.Persistence.Database.{Database}
use muxivo_console.Infrastructure.Tokens.{Store, text_keys}
use muxivo_console.Application.Identifiers.{Supply}
use muxivo_console.Application.Libraries.{Libraries}
use muxivo_console.Application.TokenStore.{in_memory}
use muxivo_console.Application.Sessions.{is_usable_token}
use muxivo_console.Application.Registration.{
  JsonLibrary, PendingRegistration, pending_registration, with_attempts, to_json,
}
use muxivo_console.Application.Registration.Start.{code_hash}
use muxivo_console.Application.Registration.Verify.{
  VerifyError, VerifyResult, is_code, verify_got, verify_registration,
}
use muxivo_console.Application.Registration.Codec.{Formats}
use muxivo_console.Application.Registration.Attempts.{
  key, Waits, Rejects, got_Rejects, command, verify_at,
}

-- A verification with a code, at an instant.
pub record Attempt : Type 0 where
  pub instant : ℕ
  pub code : Text
  pub correlation_id : Uuid

module _ (lib : Libraries) (json : JsonLibrary) (formats : Formats lib json) (ids : Supply)
    (token : Text) (p : PendingRegistration) (valid : pending_registration p ≡ ok p) where
  -- What the shape of the command decides.
  shaped :
      (now : ℕ) (code : Text) (correlation : Uuid) (s : Store) (db : Database)
      → is_usable_token token ≡ true
      → is_code (in_memory 0) lib json ids 0 code ≡ true
      → verify_at lib json formats ids token p valid now
          (command lib json formats ids token p valid code correlation)
          s
          db
        ≡ verify_got
            (in_memory now)
            lib
            json
            ids
            now
            (command lib json formats ids token p valid code correlation)
            ((in_memory now).get (key lib json formats ids token p valid) s)
            db
  unfolding verify_registration
  shaped now code correlation s db e f = rw (e, f, verify_registration) refl

  unshaped :
      (now : ℕ) (code : Text) (correlation : Uuid) (s : Store) (db : Database)
      → not (is_usable_token token) || not (is_code (in_memory 0) lib json ids 0 code) ≡ true
      → verify_at lib json formats ids token p valid now
          (command lib json formats ids token p valid code correlation)
          s
          db
        ≡ (err VerifyError.rejected, s, db)
  unfolding verify_registration
  unshaped now code correlation s db e = rw (e, verify_registration) refl

  -- Six digits, but not those of the registration.
  abbrev pub IsWrong : Attempt → Type 0
  IsWrong a =
      (is_code (in_memory 0) lib json ids 0 a.code ≡ true)
      × (text_eq (code_hash (in_memory 0) lib json token a.code) p.verification_code_hash ≡ false)

  abbrev pub AllWrong : List Attempt → Type 0
  AllWrong [] = Unit
  AllWrong (a ∷ rest) = IsWrong a × AllWrong rest

  abbrev pub verify : Attempt → Store → Database → VerifyResult (in_memory 0) lib json ids 0
  verify a =
      verify_at lib json formats ids token p valid a.instant
        (command lib json formats ids token p valid a.code a.correlation_id)

  -- The store and the tables after the attempts.
  unfoldable pub run_attempts : List Attempt → Store → Database → Store × Database
  run_attempts [] s db = (s, db)
  run_attempts (a ∷ rest) s db = let (answer, s', db') = verify a s db in run_attempts rest s' db'

  wrong_Rejects :
      (a : Attempt) (k : ℕ) (s : Store) (db : Database)
      → is_usable_token token ≡ true
      → IsWrong a
      → IsDict s
      → Waits lib json formats ids token p valid k s
      → Rejects lib json formats ids token p valid (min 5 (k + 1)) db (verify a s db)
  wrong_Rejects a k s db usable (six, wrong) good waits =
      subst (Rejects lib json formats ids token p valid (min 5 (k + 1)) db)
        (sym (shaped a.instant a.code a.correlation_id s db usable six))
        (got_Rejects lib json formats ids token p valid a.instant k (min 5 (k + 1)) a.code
          a.correlation_id s db good waits (λ m low high. inr (wrong, ground arith)))

  last_Rejects :
      (a : Attempt) (s : Store) (db : Database)
      → IsDict s
      → Waits lib json formats ids token p valid 5 s
      → Rejects lib json formats ids token p valid 5 db (verify a s db)
  last_Rejects a s db good waits =
      elim (Bool-cases
        (not (is_usable_token token) || not (is_code (in_memory 0) lib json ids 0 a.code))) [
          | inl e ↦
              subst (Rejects lib json formats ids token p valid 5 db)
                (sym (unshaped a.instant a.code a.correlation_id s db e)) (refl, refl, good, waits)
          | inr e ↦
              subst (Rejects lib json formats ids token p valid 5 db)
                (sym (shaped a.instant a.code a.correlation_id s db (ground arith) (ground arith)))
                (got_Rejects lib json formats ids token p valid a.instant 5 5 a.code
                  a.correlation_id s db good waits (λ m low high. inl (low, low)))
        ]

  Waits-fewer :
      (k k' : ℕ) (s : Store)
      → k' ≤ k
      → Waits lib json formats ids token p valid k s
      → Waits lib json formats ids token p valid k' s
  Waits-fewer k k' s fewer (inl gone) = inl gone
  Waits-fewer k k' s fewer (inr (e, m, low, high, found)) = inr (e, m, omega arith, high, found)

  run_Rejects :
      (attempts : List Attempt) (k : ℕ) (s : Store) (db : Database)
      → is_usable_token token ≡ true
      → AllWrong attempts
      → IsDict s
      → Waits lib json formats ids token p valid k s
      → ((run_attempts attempts s db).1 ≡ db)
        × IsDict (run_attempts attempts s db).0
        × Waits lib json formats ids token p valid
            (min 5 (k + length attempts))
            (run_attempts attempts s db).0
  unfolding run_attempts
  run_Rejects [] k s db usable wrong good waits =
      (refl, good, Waits-fewer k (min 5 (k + 0)) s (ground arith) waits)
  run_Rejects (a ∷ rest) k s db usable (first, others) good waits =
      let (rejected, kept, good', waits') = wrong_Rejects a k s db usable first good waits in
      let (kept_all, good_all, waits_all) =
        run_Rejects rest (min 5 (k + 1)) (verify a s db).1 (verify a s db).2 usable others good'
          waits' in
      (
        kept_all ∙ kept,
        good_all,
        Waits-fewer (min 5 (min 5 (k + 1) + length rest)) (min 5 (k + suc (length rest)))
            (run_attempts (a ∷ rest) s db).0 (ground arith) waits_all,
      )

  -- A registration that waits is used up by five wrong codes: after any sequence of at least five
  -- verifications with a usable token and six digits that are not the code's, at whatever instants,
  -- no table has changed, and every further verification with the token, be its code the right
  -- one, is rejected and changes no table. The store is the one in memory, and the text formats
  -- read what they write.
  pub wrong_codes_end :
      (attempts : List Attempt) (last : Attempt) (e m : ℕ) (s : Store) (db : Database)
      → is_usable_token token ≡ true
      → IsDict s
      → m ≤ 5
      → get (key lib json formats ids token p valid) s
        ≡ some (to_json lib json (with_attempts (pos m) p), e)
      → AllWrong attempts
      → 5 ≤ length attempts
      → let (s', db') = run_attempts attempts s db in
        (db' ≡ db)
        × ((verify last s' db').0 ≡ err VerifyError.rejected)
        × ((verify last s' db').2 ≡ db)
  wrong_codes_end attempts last e m s db usable good few found wrong many =
      let (kept, good', waits) =
        run_Rejects attempts m s db usable wrong good (inr (e, m, omega arith, few, found)) in
      let (s', db') = run_attempts attempts s db in
      let (rejected, unchanged, _, _) =
        last_Rejects last s' db' good'
          (Waits-fewer (min 5 (m + length attempts)) 5 s' (ground arith) waits) in
      (kept, rejected, unchanged ∙ kept)
