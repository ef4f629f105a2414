-- ===== src/Application/Pages/Listing.antt =====
-- The pages of the audit trail, followed from cursor to cursor, are the whole trail.
use muxivo_console.Shared.{
  ℕ, zero, suc, ◌+◌, ◌≤◌, ◌<◌, true, false, ◌≡◌, refl, arith, Option, none, some, List, length,
  take, drop, filter, ltb, leb, sort_by, ok, err, Result, Bool-cases, inl, inr, ap, sym, ◌∙◌,
}
use muxivo_console.Domain.Activity.{Uuid}
use muxivo_console.Domain.Audit.{AuditEvent, AuditLogEntry, AuditError}
use muxivo_console.Domain.Authorization.{AuthorizationResource}
use muxivo_console.Persistence.Database.{Database}
use muxivo_console.Persistence.Organizations.{
  is_of_organization, is_before, newer, list_audit_events, entries_of,
}
use muxivo_console.Persistence.Connections.{no_error}
use muxivo_console.Application.Authorizer.{authorize}
use muxivo_console.Application.Pages.{
  Page, PageError, page_of, last_id, is_page_size, list_request, list_organization_audit_events,
}
use muxivo_console.Application.Pages.Order.{
  later, Decreasing, Distinct, cursor_lem, take-take, longer, take_all, drop_shorter, later-none,
  narrower, filter-Decreasing, sort_by-Decreasing, Distinct-filter, filter_and, later-sort_by,
}
use muxivo_console.Application.Pages.Entries.{
  prepend, shown, entries, entries-cases, entries-fail, entries-split, take-shown, length-shown,
  last_id-shown,
}

-- A client that asks for page after page, at most `fuel` of them; `none` where a request is refused
-- or the pages do not end.
unfoldable pub follow_pages :
    (Uuid → ℕ) → ℕ → Uuid → Uuid → ℕ → Option Uuid → Database → Option (List AuditLogEntry)
follow_pages created_at zero actor o limit after db = none
follow_pages created_at (suc fuel) actor o limit after db =
    elim (list_organization_audit_events created_at actor o after limit db) [
      | err e ↦ none
      | ok page ↦ elim page.next_cursor [
        | none ↦ some page.items
        | some c ↦ prepend page.items (follow_pages created_at fuel actor o limit (some c) db)
      ]
    ]

-- The trail of an organization, by decreasing identifiers.
abbrev pub trail : Uuid → Database → List AuditEvent
trail o db = sort_by newer (filter (is_of_organization o) db.audit_events)

list_audit_events_lem :
    (created_at : Uuid → ℕ) (o : Uuid) (after : Option Uuid) (n : ℕ) (db : Database)
    → list_audit_events created_at o after n db
      ≡ entries_of created_at (take n (later after (trail o db)))
unfolding list_audit_events
list_audit_events_lem created_at o after n db =
    ap (λ es. entries_of created_at (take n es))
      (ap (sort_by newer) (filter_and (is_of_organization o) (is_before after) db.audit_events)
        ∙ later-sort_by after (filter (is_of_organization o) db.audit_events))

-- The answer to a request for which these entries were read.
abbrev answer : ℕ → Result AuditError (List AuditLogEntry) → Result PageError (Page AuditLogEntry)
answer limit (err x) = err (PageError.invalid_entry x)
answer limit (ok items) = ok (page_of (λ e. e.id) limit items)

module _ (created_at : Uuid → ℕ) (actor o : Uuid) (n : ℕ) (db : Database)
    (size : is_page_size (suc n) ≡ true)
    (allowed : (authorize (list_request AuthorizationResource.audit_events actor o) db).allowed
      ≡ true) where
  abbrev rest_after : Option Uuid → List AuditEvent
  rest_after after = later after (trail o db)

  page_read :
      (after : Option Uuid)
      → list_organization_audit_events created_at actor o after (suc n) db
        ≡ answer (suc n) (entries created_at (take (suc n + 1) (rest_after after)))
  unfolding list_organization_audit_events
  page_read after =
      rw
        (
          size,
          allowed,
          list_audit_events_lem created_at o after (suc n + 1) db,
          list_organization_audit_events,
        )
        refl

  abbrev page : List AuditEvent → Page AuditLogEntry
  page es = page_of (λ e. e.id) (suc n) (shown created_at (take (suc n + 1) es))

  page_last :
      (es : List AuditEvent)
      → length es ≤ suc n
      → page es ≡ record { items = shown created_at es; next_cursor = none }
  page_last es few =
      let short : ltb (suc n) (length es) ≡ false = ground arith in
      rw
        (
          length-shown created_at (take (suc n + 1) es),
          take-shown created_at (suc n) (take (suc n + 1) es),
          longer (suc n) (suc n + 1) es (omega arith),
          short,
          take-take (suc n) (suc n + 1) es (omega arith),
          take_all (suc n) es few,
        )
        refl

  page_more :
      (es : List AuditEvent) (c : ℕ)
      → suc n < length es
      → last_id (λ e. e.id) (take (suc n) es) ≡ some c
      → page es ≡ record { items = shown created_at (take (suc n) es); next_cursor = some c }
  page_more es c many last =
      let long : ltb (suc n) (length es) ≡ true = ground arith in
      rw
        (
          length-shown created_at (take (suc n + 1) es),
          take-shown created_at (suc n) (take (suc n + 1) es),
          longer (suc n) (suc n + 1) es (omega arith),
          long,
          take-take (suc n) (suc n + 1) es (omega arith),
          last_id-shown created_at (take (suc n) es),
          last,
        )
        refl

  follow_lem :
      (fuel : ℕ) (after : Option Uuid)
      → Decreasing (trail o db)
      → length (rest_after after) < fuel
      → follow_pages created_at fuel actor o (suc n) after db
        ≡ no_error (entries created_at (rest_after after))
  unfolding follow_pages
  follow_lem zero after d few = absurd (omega arith)
  follow_lem (suc fuel) after d few =
      let es = rest_after after in
      elim (entries-cases created_at (take (suc n + 1) es)) [
        | inl (x, f) ↦
            rw (page_read after ∙ ap (answer (suc n)) f, follow_pages)
              (sym (entries-fail created_at (suc n + 1) es x f))
        | inr f ↦ elim (Bool-cases (leb (length es) (suc n))) [
          | inl e ↦
              let all : take (suc n + 1) es ≡ es = take_all (suc n + 1) es (ground arith) in
              rw
                (
                  page_read after ∙ ap (answer (suc n)) f ∙ ap ok (page_last es (ground arith)),
                  follow_pages,
                )
                (sym (ap no_error (rw all at f)))
          | inr e ↦
              let many : suc n < length es = ground arith in
              let (c, last, next, least) =
                cursor_lem n es (filter-Decreasing (is_before after) (trail o db) d)
                  (omega arith) in
              let left : rest_after (some c) ≡ drop (suc n) es =
                sym (narrower after c (trail o db) least) ∙ next in
              let fewer : length (rest_after (some c)) < fuel =
                rw left (omega (arith, drop_shorter n es (omega arith))) in
              let rest = follow_lem fuel (some c) d fewer in
              rw
                (
                  page_read after ∙ ap (answer (suc n)) f ∙ ap ok (page_more es c many last),
                  rest,
                  left,
                  follow_pages,
                )
                (sym (entries-split created_at n es f))
        ]
      ]

-- An actor who may read an organization's audit trail, and who follows the cursors from the first
-- page on, with any page size that is allowed, gets the entries of the whole trail by decreasing
-- identifiers and each once, and comes to an end after at most one page more than there are events:
-- no cursor skips or repeats an event. Where the constructor of one of the entries raises, there is
-- no such end, and a page is refused. The identifiers of the events are distinct, the time stamps
-- that the server gave the events are arbitrary, and no event is written meanwhile.
pub follow_pages_lem :
    (created_at : Uuid → ℕ) (actor o : Uuid) (limit : ℕ) (db : Database)
    → Distinct db.audit_events
    → is_page_size limit ≡ true
    → (authorize (list_request AuthorizationResource.audit_events actor o) db).allowed ≡ true
    → follow_pages created_at (suc (length (trail o db))) actor o limit none db
      ≡ no_error (entries_of created_at (trail o db))
follow_pages_lem created_at actor o zero db u size allowed = absurd (cc (size))
follow_pages_lem created_at actor o (suc n) db u size allowed =
    let same = later-none (trail o db) in
    follow_lem created_at actor o n db size allowed (suc (length (trail o db))) none
      (sort_by-Decreasing (filter (is_of_organization o) db.audit_events)
        (Distinct-filter (is_of_organization o) db.audit_events u))
      (rw same (omega arith))
    ∙ ap (λ es. no_error (entries_of created_at es)) same
