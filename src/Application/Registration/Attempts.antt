-- ===== src/Application/Registration/Attempts.antt =====
-- A verification with a wrong code counts an attempt.
use Prim.Native.Nat.{min}
use muxivo_console.Shared.{
  ℕ, ◌+◌, ◌≤◌, pos, true, false, ◌≡◌, ◌⊎◌, refl, arith, none, some, Text, text_eq, leb, get, only,
  IsDict, get-set, get-keep, keep-IsDict, set-IsDict, ok, err, Bool-cases, inl, inr, ap, sym, ◌∙◌,
}
use mathlib.Core.Path.{subst}
use native.Mathlib.Nat.{min-le_left}
use muxivo_console.Domain.Activity.{Uuid}
use muxivo_console.Persistence.Database.{Database}
use muxivo_console.Infrastructure.Tokens.{
  Store, Entry, text_keys, is_live, purge_expired, value_of, expires_at, get_token, replace_token,
}
use muxivo_console.Application.Identifiers.{Supply}
use muxivo_console.Application.Libraries.{Libraries}
use muxivo_console.Application.TokenStore.{in_memory}
use muxivo_console.Application.Registration.{
  JsonLibrary, PendingRegistration, pending_registration, with_attempts, to_json, pending_of,
}
use muxivo_console.Application.Registration.Start.{lifetime_seconds, pending_key, code_hash}
use muxivo_console.Application.Registration.Verify.{
  VerifyCommand, VerifyError, VerifyResult, verify_found, verify_got, verify_registration,
}
use muxivo_console.Application.Registration.Codec.{Formats, pending_of-to_json}

valid_attempts :
    (p : PendingRegistration) (m : ℕ)
    → pending_registration p ≡ ok p
    → m ≤ 5
    → pending_registration (with_attempts (pos m) p) ≡ ok (with_attempts (pos m) p)
unfolding pending_registration
valid_attempts p m valid few = ground arith

module _ (lib : Libraries) (json : JsonLibrary) (formats : Formats lib json) (ids : Supply)
    (token : Text) (p : PendingRegistration) (valid : pending_registration p ≡ ok p) where
  abbrev pub key : Text
  key = pending_key (in_memory 0) lib json token

  abbrev pub verify_at :
      ℕ → VerifyCommand → Store → Database → VerifyResult (in_memory 0) lib json ids 0
  verify_at now = verify_registration (in_memory now) lib json ids now

  -- The registration, with a number of attempts that has to be reached, or none.
  abbrev pub Waits : ℕ → Store → Type 0
  Waits k s =
      (get key s ≡ none)
      ⊎ ((e : ℕ) × (m : ℕ) × (k ≤ m)
          × (m ≤ 5)
          × (get key s ≡ some (to_json lib json (with_attempts (pos m) p), e)))

  -- The same of a store from which the expired entries are purged, with what is read there.
  abbrev Reads : ℕ → ℕ → Store → Type 0
  Reads k now s =
      (get key s ≡ none)
      ⊎ ((e : ℕ) × (m : ℕ) × (k ≤ m)
          × (m ≤ 5)
          × (get key s ≡ some (to_json lib json (with_attempts (pos m) p), e))
          × (get key (purge_expired now s) ≡ get key s))

  purged-Reads : (k now : ℕ) (s : Store) → IsDict s → Waits k s → Reads k now (purge_expired now s)
  purged-Reads k now s good (inl gone) =
      inl (get-keep key (is_live now) s good ∙ ap (only (is_live now)) gone)
  purged-Reads k now s good (inr (e, m, low, high, found)) =
      let entry : Entry = (to_json lib json (with_attempts (pos m) p), e) in
      let seen = get-keep key (is_live now) s good ∙ ap (only (is_live now)) found in
      let again =
        get-keep key (is_live now) (purge_expired now s) (keep-IsDict (is_live now) s good) in
      elim (Bool-cases (is_live now entry)) [
        | inl live ↦
            let here : get key (purge_expired now s) ≡ some entry = seen ∙ rw live refl in
            inr (
              e,
              m,
              low,
              high,
              here,
              again ∙ ap (only (is_live now)) here ∙ rw live refl ∙ sym here,
            )
        | inr dead ↦ inl (seen ∙ rw dead refl)
      ]

  reads_pending :
      (m : ℕ)
      → m ≤ 5
      → pending_of lib json (some (to_json lib json (with_attempts (pos m) p)))
        ≡ some (with_attempts (pos m) p)
  reads_pending m few =
      pending_of-to_json lib json formats (with_attempts (pos m) p) (valid_attempts p m valid few)

  -- A verification that changes no table, is rejected, and leaves the registration waiting.
  abbrev pub Rejects : ℕ → Database → VerifyResult (in_memory 0) lib json ids 0 → Type 0
  Rejects k db r = (r.0 ≡ err VerifyError.rejected) × (r.2 ≡ db) × IsDict r.1 × Waits k r.1

  -- The attempts are used up, or the code is not the registration's.
  abbrev Fails : ℕ → ℕ → Text → Type 0
  Fails m k code =
      (5 ≤ m) × (k ≤ m)
      ⊎ (text_eq (code_hash (in_memory 0) lib json token code) p.verification_code_hash ≡ false)
        × (k ≤ min 5 (m + 1))

  -- The entry of one attempt more.
  abbrev counted : ℕ → ℕ → Entry
  counted m now =
      (to_json lib json (with_attempts (pos (min 5 (m + 1))) p), expires_at now lifetime_seconds)

  found_Rejects :
      (now m k : ℕ) (code : Text) (correlation : Uuid) (e : ℕ) (s : Store) (db : Database)
      → IsDict s
      → m ≤ 5
      → get key s ≡ some (to_json lib json (with_attempts (pos m) p), e)
      → get key (purge_expired now s) ≡ get key s
      → Fails m k code
      → Rejects k db (
          verify_found
            (in_memory now)
            lib
            json
            ids
            now
            (record { token = token; code = code; correlation_id = correlation })
            (to_json lib json (with_attempts (pos m) p))
            (some (with_attempts (pos m) p))
            s
            db)
  unfolding verify_found replace_token
  found_Rejects now m k code correlation e s db good few found stays (inl (used, low)) =
      let exhausted : leb 5 m ≡ true = ground arith in
      rw exhausted (refl, refl, good, inr (e, m, low, few, found))
  found_Rejects now m k code correlation e s db good few found stays (inr (wrong, low)) =
      elim (Bool-cases (leb 5 m)) [
        | inl f ↦ rw f (refl, refl, good, inr (e, m, ground arith, few, found))
        | inr f ↦
            rw (f, wrong, stays, found, verify_found)
              (
                refl,
                refl,
                set-IsDict key (counted m now) (purge_expired now s)
                    (keep-IsDict (is_live now) s good),
                inr (
                  expires_at now lifetime_seconds,
                  min 5 (m + 1),
                  low,
                  min-le_left 5 (m + 1),
                  get-set key (counted m now) (purge_expired now s),
                ),
              )
      ]

  abbrev pub command : Text → Uuid → VerifyCommand
  command code correlation = record { token = token; code = code; correlation_id = correlation }

  pub got_Rejects :
      (now k k' : ℕ) (code : Text) (correlation : Uuid) (s : Store) (db : Database)
      → IsDict s
      → Waits k s
      → ((m : ℕ) → k ≤ m → m ≤ 5 → Fails m k' code)
      → Rejects k' db (
          verify_got
            (in_memory now)
            lib
            json
            ids
            now
            (command code correlation)
            ((in_memory now).get key s)
            db)
  unfolding verify_got get_token verify_found
  got_Rejects now k k' code correlation s db good waits fails =
      let s' = purge_expired now s in
      let good' = keep-IsDict (is_live now) s good in
      elim (purged-Reads k now s good waits) [
        | inl gone ↦ rw gone (refl, refl, good', inl gone)
        | inr (e, m, low, high, found, stays) ↦
            subst
              (λ o. Rejects k' db (
                verify_got (in_memory now) lib json ids now (command code correlation)
                  (ok (value_of o), s') db))
              (sym found)
              (subst
                (λ o. Rejects k' db (
                  verify_found (in_memory now) lib json ids now (command code correlation)
                    (to_json lib json (with_attempts (pos m) p)) o s' db))
                (sym (reads_pending m high))
                (found_Rejects now m k' code correlation e s' db good' high found stays
                  (fails m low high)))
      ]
