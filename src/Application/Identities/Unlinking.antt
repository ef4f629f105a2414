-- ===== src/Application/Identities/Unlinking.antt =====
-- An account keeps a way to log in.
use text.Mathlib.Text.{◌==◌ as str_eq}
use muxivo_console.Shared.{
  ℕ, ◌+◌, ◌≤◌, ◌<◌, Bool, true, false, not, ◌&&◌, ◌≡◌, refl, arith, Option, none, some, List, [],
  ◌∷◌, length, filter, count, find, sort_by, insert_by, is_some, leb, ◌==◌, ok, one_if, Bool-cases,
  Option-cases, inl, inr,
}
use mathlib.Core.Path.{subst}
use muxivo_console.Domain.Activity.{Uuid}
use muxivo_console.Domain.Audit.{AuditEvent}
use muxivo_console.Domain.Identity.{LoginIdentityProfile, is_email}
use muxivo_console.Persistence.Rows.{LoginIdentityRow}
use muxivo_console.Persistence.Database.{Database, audit_fits}
use muxivo_console.Persistence.Members.{get_status}
use muxivo_console.Persistence.Identities.{
  linked_before, profile_from_row, profiles_from_rows, skip_none, list_for_user,
}
use muxivo_console.Persistence.Identities.Writes.{is_unlinkable, unlink}
use muxivo_console.Application.Identifiers.{Supply}
use muxivo_console.Application.Members.{is_active}
use muxivo_console.Application.Sessions.{check_recent}
use muxivo_console.Application.Identities.{
  UnlinkCommand, identity_event, unlink_target, unlink_login_identity,
}

-- How many rows have a known provider.
abbrev profiles : List LoginIdentityRow → ℕ
profiles rows = length (profiles_from_rows rows)

abbrev known : LoginIdentityRow → ℕ
known r = one_if (is_some (profile_from_row r))

length-skip_none :
    {A : Type 0} (o : Option A) (rest : List A)
    → length (skip_none o rest) ≡ one_if (is_some o) + length rest
length-skip_none none rest = omega arith
length-skip_none (some a) rest = omega arith

one_if-le : (b : Bool) → one_if b ≤ 1
one_if-le true = omega arith
one_if-le false = omega arith

profiles-cons :
    (r : LoginIdentityRow) (rs : List LoginIdentityRow) → profiles (r ∷ rs) ≡ known r + profiles rs
profiles-cons r rs = length-skip_none (profile_from_row r) (profiles_from_rows rs)

profiles-insert_by :
    (before : LoginIdentityRow → LoginIdentityRow → Bool) (r : LoginIdentityRow)
    (rs : List LoginIdentityRow)
    → profiles (insert_by before r rs) ≡ known r + profiles rs
profiles-insert_by before r [] = profiles-cons r []
profiles-insert_by before r (s ∷ ss) = elim (Bool-cases (before s r)) [
  | inl e ↦ rw e (
      omega (
        arith,
        profiles-cons s (insert_by before r ss),
        profiles-insert_by before r ss,
        profiles-cons s ss,
      ))
  | inr e ↦ rw e (profiles-cons r (s ∷ ss))
]

profiles-sort_by :
    (before : LoginIdentityRow → LoginIdentityRow → Bool) (rs : List LoginIdentityRow)
    → profiles (sort_by before rs) ≡ profiles rs
profiles-sort_by before [] = refl
profiles-sort_by before (r ∷ rs) = omega (
  arith,
  profiles-insert_by before r (sort_by before rs),
  profiles-sort_by before rs,
  profiles-cons r rs,
)

abbrev is_of : Uuid → LoginIdentityRow → Bool
is_of u r = r.user_id == u

abbrev stays : Uuid → Uuid → LoginIdentityRow → Bool
stays i u r = not (is_unlinkable i u r)

-- The rows of a user lose no more than the rows that are unlinked.
profiles-unlinked :
    (i u : Uuid) (rows : List LoginIdentityRow)
    → profiles (filter (is_of u) rows)
      ≤ profiles (filter (is_of u) (filter (stays i u) rows)) + count (is_unlinkable i u) rows
profiles-unlinked i u [] = omega arith
profiles-unlinked i u (r ∷ rs) =
    let rest = profiles-unlinked i u rs in
    let one = one_if-le (is_some (profile_from_row r)) in
    let old = profiles-cons r (filter (is_of u) rs) in
    let new = profiles-cons r (filter (is_of u) (filter (stays i u) rs)) in
    elim (Bool-cases (is_unlinkable i u r)) [
      | inl e ↦ elim (Bool-cases (is_of u r)) [
        | inl o ↦ rw e (rw o (omega arith))
        | inr o ↦ rw e (rw o (omega arith))
      ]
      | inr e ↦ elim (Bool-cases (is_of u r)) [
        | inl o ↦ rw e (rw o (omega arith))
        | inr o ↦ rw e (rw o rest)
      ]
    ]

-- The identities by e-mail of a user.
abbrev pub is_email_of : Uuid → LoginIdentityRow → Bool
is_email_of v r = r.user_id == v && str_eq r.provider "email"

emails-unlinked :
    (i u v : Uuid) (rows : List LoginIdentityRow)
    → count (is_email_of v) (filter (stays i u) rows) ≡ count (is_email_of v) rows
emails-unlinked i u v [] = refl
emails-unlinked i u v (r ∷ rs) =
    let rest = emails-unlinked i u v rs in
    elim (Bool-cases (str_eq r.provider "email")) [ inl e ↦ ground arith | inr e ↦ ground arith ]

unlink_lem :
    (i u : Uuid) (event : AuditEvent) (db : Database)
    → (unlink i u event db).0 ≡ true
    → (count (is_unlinkable i u) db.login_identities ≡ 1)
      × ((unlink i u event db).1.login_identities ≡ filter (stays i u) db.login_identities)
      × ((unlink i u event db).1.audit_events ≡ event ∷ db.audit_events)
unfolding unlink
unlink_lem i u event db h = elim (Bool-cases (count (is_unlinkable i u) db.login_identities == 1)) [
  | inr e ↦ absurd (cc (rw (e, unlink) at h))
  | inl e ↦ elim (Bool-cases (audit_fits event db)) [
    | inr f ↦ absurd (cc (rw (e, f, unlink) at h))
    | inl f ↦ rw (e, f, unlink) (ground arith, refl, refl)
  ]
]

list_for_user-unlinked :
    (i u : Uuid) (db db' : Database)
    → count (is_unlinkable i u) db.login_identities ≡ 1
    → db'.login_identities ≡ filter (stays i u) db.login_identities
    → length (list_for_user u db) ≤ length (list_for_user u db') + 1
unfolding list_for_user
list_for_user-unlinked i u db db' one rows = rw rows (
    omega (
      arith,
      profiles-sort_by linked_before (filter (is_of u) db.login_identities),
      profiles-sort_by linked_before (filter (is_of u) (filter (stays i u) db.login_identities)),
      profiles-unlinked i u db.login_identities,
    ))

module _ (ids : Supply) (now maximum_age : ℕ) (cmd : UnlinkCommand) (db : Database) where
  abbrev actor : Uuid
  actor = cmd.principal.user_id

  -- What holds after an unlinking of `target` that succeeds.
  abbrev pub Unlinks : LoginIdentityProfile → Database → Type 0
  Unlinks target db' =
      (check_recent now maximum_age cmd.principal ≡ true)
      × (is_active (get_status cmd.principal.user_id db) ≡ true)
      × (is_email target.provider ≡ false)
      × (1 ≤ length (list_for_user cmd.principal.user_id db'))
      × ((v : Uuid)
          → count (is_email_of v) db'.login_identities ≡ count (is_email_of v) db.login_identities)
      × (db'.audit_events
          ≡ identity_event (ids 0) cmd.correlation_id cmd.principal.user_id "identity.unlink"
              "login_identity" target.id
            ∷ db.audit_events)

  written :
      (p : LoginIdentityProfile)
      → let event =
          identity_event (ids 0) cmd.correlation_id actor "identity.unlink" "login_identity" p.id in
        (check_recent now maximum_age cmd.principal ≡ true)
        → (is_active (get_status actor db) ≡ true)
        → (is_email p.provider ≡ false)
        → (leb (length (list_for_user actor db)) 1 ≡ false)
        → (unlink p.id actor event db).0 ≡ true
        → Unlinks p (unlink p.id actor event db).1
  written p recent active provider several done =
      let event =
        identity_event (ids 0) cmd.correlation_id actor "identity.unlink" "login_identity" p.id in
      let db' : Database = (unlink p.id actor event db).1 in
      let (one, rows, events) = unlink_lem p.id actor event db done in
      let left = list_for_user-unlinked p.id actor db db' one rows in
      let many : 1 < length (list_for_user actor db) = ground arith in
      (
        recent,
        active,
        provider,
        omega arith,
        λ v. rw rows (emails-unlinked p.id actor v db.login_identities),
        events,
      )

  target_unlinked :
      (target p : LoginIdentityProfile) (db' : Database)
      → unlink_target ids cmd (length (list_for_user actor db)) p db ≡ (ok target, db')
      → (check_recent now maximum_age cmd.principal ≡ true)
      → (is_active (get_status actor db) ≡ true)
      → Unlinks target db'
  unfolding unlink_target
  target_unlinked target p db' h recent active =
      let event =
        identity_event (ids 0) cmd.correlation_id actor "identity.unlink" "login_identity" p.id in
      elim (Bool-cases (is_email p.provider)) [
        | inl e ↦ absurd (cc (rw (e, unlink_target) at h))
        | inr e ↦ elim (Bool-cases (leb (length (list_for_user actor db)) 1)) [
          | inl f ↦ absurd (cc (rw (e, f, unlink_target) at h))
          | inr f ↦ elim (Bool-cases (unlink p.id actor event db).0) [
            | inr g ↦ absurd (cc (rw (e, f, g, unlink_target) at h))
            | inl g ↦
                let made = rw (e, f, g, unlink_target) at h in
                let same : p ≡ target = cc in
                let state : (unlink p.id actor event db).1 ≡ db' = cc in
                subst (λ x. Unlinks x db') same
                  (subst (λ x. Unlinks p x) state (written p recent active e f g))
          ]
        ]
      ]

  -- An account never loses its last way to log in. An unlinking succeeds only after a recent
  -- authentication of an active user, and not for an identity by e-mail; after it the user still
  -- has an identity with a known provider, every user has as many identities by e-mail as before,
  -- and there is one audit event more.
  pub unlink_login_identity_lem :
      (target : LoginIdentityProfile) (db' : Database)
      → unlink_login_identity ids now maximum_age cmd db ≡ (ok target, db')
      → Unlinks target db'
  unfolding unlink_login_identity
  unlink_login_identity_lem target db' h =
      let chosen =
        find (λ (i : LoginIdentityProfile). i.id == cmd.identity_id) (list_for_user actor db) in
      elim (Bool-cases (check_recent now maximum_age cmd.principal)) [
        | inr e ↦ absurd (cc (rw (e, unlink_login_identity) at h))
        | inl e ↦ elim (Bool-cases (is_active (get_status actor db))) [
          | inr f ↦ absurd (cc (rw (e, f, unlink_login_identity) at h))
          | inl f ↦ elim (Option-cases chosen) [
            | inl g ↦ absurd (cc (rw (e, f, g, unlink_login_identity) at h))
            | inr (p, g) ↦
                target_unlinked target p db' (rw (e, f, g, unlink_login_identity) at h) e f
          ]
        ]
      ]
