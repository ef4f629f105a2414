-- ===== src/Application/Pages/Entries.antt =====
-- The entries that are shown for a list of audit events: their construction, which may raise, and
-- the part of it that is a page.
use muxivo_console.Shared.{
  ℕ, zero, suc, ◌+◌, ◌≡◌, refl, arith, Option, none, some, List, ◌++◌, Option-cases, length, take,
  drop, ok, err, Result, Result-cases, ◌⊎◌, map, [], ◌∷◌, inl, inr, ap, sym, ◌∙◌,
}
use muxivo_console.Domain.Activity.{Uuid}
use muxivo_console.Domain.Audit.{AuditEvent, AuditLogEntry, AuditError, audit_log_entry}
use muxivo_console.Persistence.Organizations.{entry_of, entries_of, add_entry}
use muxivo_console.Persistence.Connections.{no_error}
use muxivo_console.Application.Pages.{last_id}
use muxivo_console.Application.Pages.Order.{take-take, take-drop}

-- Entries before those that follow, if there are any.
abbrev pub prepend : List AuditLogEntry → Option (List AuditLogEntry) → Option (List AuditLogEntry)
prepend items none = none
prepend items (some es) = some (items ++ es)

-- What was constructed before the rest.
abbrev join :
    Result AuditError (List AuditLogEntry)
    → Option (List AuditLogEntry)
    → Option (List AuditLogEntry)
join (err x) rest = none
join (ok items) rest = prepend items rest

no_error-add :
    (e : AuditLogEntry) (r : Result AuditError (List AuditLogEntry))
    → no_error (add_entry (ok e) r) ≡ prepend (e ∷ []) (no_error r)
no_error-add e (ok items) = refl
no_error-add e (err x) = refl

join-add :
    (e : AuditLogEntry) (r : Result AuditError (List AuditLogEntry))
    (rest : Option (List AuditLogEntry))
    → prepend (e ∷ []) (join r rest) ≡ join (add_entry (ok e) r) rest
join-add e (err x) rest = refl
join-add e (ok items) none = refl
join-add e (ok items) (some es) = refl

-- The entries of a page, and the construction of all of them.
module _ (created_at : Uuid → ℕ) where
  abbrev pub shown : List AuditEvent → List AuditLogEntry
  shown = map (entry_of created_at)

  abbrev pub entries : List AuditEvent → Result AuditError (List AuditLogEntry)
  entries = entries_of created_at

  entry_constructed : (e : AuditLogEntry) {x : AuditLogEntry} → audit_log_entry e ≡ ok x → e ≡ x
  unfolding audit_log_entry
  entry_constructed e h = ground arith

  pub entries-cases :
      (es : List AuditEvent)
      → ((x : AuditError) × (entries es ≡ err x)) ⊎ (entries es ≡ ok (shown es))
  entries-cases [] = inr refl
  entries-cases (e ∷ es) = elim (Result-cases (audit_log_entry (entry_of created_at e))) [
    | inl (x, f) ↦ inl (x, rw f refl)
    | inr (entry, f) ↦ elim (entries-cases es) [
      | inl (x, g) ↦ inl (x, rw (f, g) refl)
      | inr g ↦ inr (
          rw (f, g)
            (ap (λ y. ok (y ∷ shown es)) (sym (entry_constructed (entry_of created_at e) f))))
    ]
  ]

  -- The construction goes from the first event to the last.
  entries-append :
      (es fs : List AuditEvent)
      → no_error (entries (es ++ fs)) ≡ join (entries es) (no_error (entries fs))
  entries-append [] fs = elim (Option-cases (no_error (entries fs))) [
    | inl f ↦ rw f refl
    | inr (x, f) ↦ rw f refl
  ]
  entries-append (e ∷ es) fs = elim (Result-cases (audit_log_entry (entry_of created_at e))) [
    | inl (x, f) ↦ rw f refl
    | inr (entry, f) ↦ rw f (
        no_error-add entry (entries (es ++ fs))
        ∙ ap (prepend (entry ∷ [])) (entries-append es fs)
        ∙ join-add entry (entries es) (no_error (entries fs)))
  ]

  -- What could be constructed began with what could.
  entries-prefix :
      (es fs : List AuditEvent)
      → entries (es ++ fs) ≡ ok (shown (es ++ fs))
      → entries es ≡ ok (shown es)
  entries-prefix es fs h = elim (entries-cases es) [
    | inl (x, f) ↦ absurd (
        cc
          (sym (ap no_error h) ∙ entries-append es fs ∙ ap (λ r. join r (no_error (entries fs))) f))
    | inr f ↦ f
  ]

  pub entries-fail :
      (n : ℕ) (es : List AuditEvent) (x : AuditError)
      → entries (take n es) ≡ err x
      → no_error (entries es) ≡ none
  entries-fail n es x f =
      ap (λ l. no_error (entries l)) (sym (take-drop n es))
      ∙ entries-append (take n es) (drop n es)
      ∙ ap (λ r. join r (no_error (entries (drop n es)))) f

  pub entries-split :
      (n : ℕ) (es : List AuditEvent)
      → entries (take (suc n + 1) es) ≡ ok (shown (take (suc n + 1) es))
      → no_error (entries es)
        ≡ prepend (shown (take (suc n) es)) (no_error (entries (drop (suc n) es)))
  entries-split n es h =
      let more = take (suc n + 1) es in
      let halves : take (suc n) more ++ drop (suc n) more ≡ more = take-drop (suc n) more in
      let first = entries-prefix (take (suc n) more) (drop (suc n) more) (rw halves h) in
      let page : entries (take (suc n) es) ≡ ok (shown (take (suc n) es)) =
        rw (take-take (suc n) (suc n + 1) es (omega arith)) at first in
      ap (λ l. no_error (entries l)) (sym (take-drop (suc n) es))
      ∙ entries-append (take (suc n) es) (drop (suc n) es)
      ∙ ap (λ r. join r (no_error (entries (drop (suc n) es)))) page

  pub take-shown : (n : ℕ) (es : List AuditEvent) → take n (shown es) ≡ shown (take n es)
  take-shown zero es = refl
  take-shown (suc n) [] = refl
  take-shown (suc n) (e ∷ es) = ap (λ rest. entry_of created_at e ∷ rest) (take-shown n es)

  pub length-shown : (es : List AuditEvent) → length (shown es) ≡ length es
  length-shown [] = refl
  length-shown (e ∷ es) = ap suc (length-shown es)

  pub last_id-shown :
      (es : List AuditEvent) → last_id (λ e. e.id) (shown es) ≡ last_id (λ e. e.id) es
  last_id-shown [] = refl
  last_id-shown (e ∷ []) = refl
  last_id-shown (e ∷ f ∷ es) = last_id-shown (f ∷ es)
