-- ===== src/Application/Sessions/Resolution.antt =====
-- Which tokens resolve to a principal.
use muxivo_console.Shared.{
  ℕ, ◌<◌, ◌≤◌, ◌+◌, true, ◌≡◌, ◌≢◌, ◌↔◌, refl, arith, none, some, Text, ok, Bool-cases,
  Option-cases, inl, inr, ap, ◌∙◌, sym,
}
use muxivo_console.Domain.Identity.{UserStatus}
use muxivo_console.Domain.Sessions.{AuthSession, SessionAssuranceLevel, is_active_at}
use muxivo_console.Persistence.Database.{Database}
use muxivo_console.Persistence.Members.{get_status}
use muxivo_console.Persistence.Sessions.{find_by_token_hash}
use muxivo_console.Application.Members.{is_active}
use muxivo_console.Application.Members.Guards.{active_status}
use muxivo_console.Application.Sessions.{
  BrowserSessionPrincipal, ResolverSettings, is_usable_token, touch, principal_of, resolve_found,
  resolve_session, check_recent,
}

touch_ok :
    (settings : ResolverSettings) (s : AuthSession) (now : ℕ) (db : Database)
    → settings.last_seen_update_interval ≢ 0
    → (touch settings s now db).0 ≡ ok tt
unfolding touch
touch_ok settings s now db positive = ground arith

-- Not revoked, not expired, and of an active user.
abbrev pub IsUsable : ℕ → AuthSession → Database → Type 0
IsUsable now s db =
    (s.revoked_at ≡ none)
    × (now < s.expires_at)
    × (get_status s.user_id db ≡ some UserStatus.active)

is_active_at_iff :
    (s : AuthSession) (now : ℕ)
    → (is_active_at s now ≡ true) ↔ ((s.revoked_at ≡ none) × (now < s.expires_at))
unfolding is_active_at
is_active_at_iff s now = (λ h. (ground arith, ground arith), λ h. ground arith)

module _ (settings : ResolverSettings) (now : ℕ) (db : Database)
    (positive : settings.last_seen_update_interval ≢ 0) where
  found_usable :
      (s : AuthSession)
      → IsUsable now s db
      → (resolve_found settings now s db).0 ≡ ok (some (principal_of s))
  unfolding resolve_found
  found_usable s (unrevoked, early, active) =
      let live = (is_active_at_iff s now).1 (unrevoked, early) in
      rw live (rw active (rw (touch_ok settings s now db positive, resolve_found) refl))

  found_resolves :
      (s : AuthSession) {p : BrowserSessionPrincipal}
      → (resolve_found settings now s db).0 ≡ ok (some p)
      → IsUsable now s db × (p ≡ principal_of s)
  unfolding resolve_found
  found_resolves s {p} h = elim (Bool-cases (is_active_at s now)) [
    | inr e ↦ absurd (cc (rw (e, resolve_found) at h))
    | inl e ↦ elim (Bool-cases (is_active (get_status s.user_id db))) [
      | inr f ↦ absurd (cc (rw (e, f, resolve_found) at h))
      | inl f ↦
          let (unrevoked, early) = (is_active_at_iff s now).0 e in
          let usable : IsUsable now s db =
            (unrevoked, early, active_status (get_status s.user_id db) f) in
          (usable, cc (h, found_usable s usable))
    ]
  ]

  -- With a positive interval between updates, a token resolves to a principal exactly when it has
  -- a usable shape and the session found under its hash is not revoked, has not expired and
  -- belongs to an active user; the principal is that session's.
  pub resolve_session_iff :
      (hash : Text → Text) (raw_token : Text) (p : BrowserSessionPrincipal)
      → ((resolve_session hash settings now raw_token db).0 ≡ ok (some p)) ↔ (
          (is_usable_token raw_token ≡ true)
          × ((s : AuthSession) × (find_by_token_hash (hash raw_token) db ≡ some s)
              × IsUsable now s db
              × (p ≡ principal_of s)))
  unfolding resolve_session
  resolve_session_iff hash raw_token p = (
    λ h. elim (Bool-cases (is_usable_token raw_token)) [
      | inr e ↦ absurd (cc (rw (e, resolve_session) at h))
      | inl e ↦ elim (Option-cases (find_by_token_hash (hash raw_token) db)) [
        | inl f ↦ absurd (cc (rw (e, f, resolve_session) at h))
        | inr (s, f) ↦
            let (usable, same) = found_resolves s (rw (e, f, resolve_session) at h) in
            (e, (s, f, usable, same))
      ]
    ],
    λ h.
        let (e, (s, f, usable, same)) = h in
        rw (e, f, resolve_session)
          (found_usable s usable ∙ ap (λ (x : BrowserSessionPrincipal). ok (some x)) (sym same)),
  )

-- The check lets a principal pass exactly when its session has recent authentication, made at or
-- before the present instant and at most the maximum age ago.
pub check_recent_iff :
    (now maximum_age : ℕ) (p : BrowserSessionPrincipal)
    → (check_recent now maximum_age p ≡ true) ↔ (
        (p.assurance_level ≡ SessionAssuranceLevel.recent_authentication)
        × ((t : ℕ) × (p.authenticated_at ≡ some t) × (t ≤ now) × (now ≤ t + maximum_age)))
unfolding check_recent
check_recent_iff now maximum_age p = (
  λ h. elim (Option-cases p.authenticated_at) [
    | inl e ↦ absurd (cc (rw (e, check_recent) at h))
    | inr (t, e) ↦ (ground arith, (t, e, ground arith, ground arith))
  ],
  λ h. let (level, (t, e, past, young)) = h in ground arith,
)
