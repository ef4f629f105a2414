-- ===== src/Application/Browser/Creation.antt =====
-- A session that is issued resolves.
use muxivo_console.Shared.{
  ℕ, ◌+◌, ◌<◌, ◌≤◌, true, false, ◌&&◌, ◌≡◌, ◌≢◌, refl, arith, none, some, ◌∷◌, Text, ok, ◌==◌,
  length, Bool-cases, Result-cases, inl, inr, ap, sym, ◌∙◌, text_eq_refl, ltb, is_none,
}
use mathlib.Core.Path.{subst}
use muxivo_console.Domain.Sessions.{
  AuthSession, SessionAssuranceLevel, auth_session, is_active_at, is_digest,
}
use muxivo_console.Domain.Activity.{Uuid}
use muxivo_console.Domain.Audit.{AuditEvent}
use muxivo_console.Domain.Identity.{UserStatus}
use muxivo_console.Persistence.Database.{Database, audit_fits, session_fits}
use muxivo_console.Persistence.Members.{get_status}
use muxivo_console.Persistence.Sessions.{
  level_value, to_level, session_row, session_from_record, find_by_token_hash, create_session,
}
use muxivo_console.Application.Identifiers.{Supply}
use muxivo_console.Application.Libraries.{Libraries, Tokens}
use muxivo_console.Application.Members.{is_active}
use muxivo_console.Application.Members.Guards.{active_status}
use muxivo_console.Application.Sessions.{
  ResolverSettings, is_usable_token, principal_of, resolve_found, resolve_session,
}
use muxivo_console.Application.Sessions.Resolution.{resolve_session_iff}
use muxivo_console.Application.Browser.{
  CreateSessionCommand, IssuedBrowserSession, new_session, issued, session_event, store_session,
  create_browser_session,
}

to_level-level_value : (a : SessionAssuranceLevel) → to_level (level_value a) ≡ some a
unfolding to_level
to_level-level_value SessionAssuranceLevel.password = refl
to_level-level_value SessionAssuranceLevel.recent_authentication = refl

-- The checks of the constructor pass.
abbrev IsDigested : AuthSession → Type 0
IsDigested s =
    (length s.token_hash == 64 ≡ true)
    × (is_digest s.ip_hash ≡ true)
    × (is_digest s.user_agent_hash ≡ true)

constructed : (s s' : AuthSession) → auth_session s ≡ ok s' → (s ≡ s') × IsDigested s
unfolding auth_session
constructed s s' h = ground arith

session_from_record-row :
    (now : ℕ) (s : AuthSession)
    → IsDigested s
    → session_from_record (session_row now (record s { authenticated_at = some now }))
      ≡ some (record s { authenticated_at = some now })
unfolding session_from_record auth_session
session_from_record-row now s (token, ip, agent) =
    rw (session_from_record, to_level-level_value s.assurance_level)
      (rw (auth_session, token, ip, agent) refl)

created_row :
    (now : ℕ) (s : AuthSession) (event : AuditEvent) (db : Database)
    → (create_session now s event db).0 ≡ true
    → (create_session now s event db).1 ≡ record db {
      sessions = session_row now s ∷ db.sessions;
      audit_events = event ∷ db.audit_events;
    }
unfolding create_session
created_row now s event db done =
    elim (Bool-cases (session_fits (session_row now s) db && audit_fits event db)) [
      | inl e ↦ rw (e, create_session) refl
      | inr e ↦ absurd (cc (rw (e, create_session) at done))
    ]

module _ (lib : Libraries) (settings : ResolverSettings)
    (positive : settings.last_seen_update_interval ≢ 0) where
  -- The token of an issued session stands for a user, who logged in at `now`, until the session
  -- expires, and for nobody from then on.
  abbrev pub Resolves : Uuid → ℕ → SessionAssuranceLevel → IssuedBrowserSession → Database → Type 0
  Resolves u now level s db =
      (t : ℕ)
      → (t < s.expires_at
          → (resolve_session lib.hash_token settings t s.raw_token db).0
            ≡ ok (
                some (record {
                  user_id = u;
                  session_id = s.id;
                  assurance_level = level;
                  authenticated_at = some now;
                })))
        × (s.expires_at ≤ t
            → (resolve_session lib.hash_token settings t s.raw_token db).0 ≡ ok none)

  resolved_none :
      (t : ℕ) (token : Text) (s : AuthSession) (db : Database)
      → find_by_token_hash (lib.hash_token token) db ≡ some s
      → s.expires_at ≤ t
      → (resolve_session lib.hash_token settings t token db).0 ≡ ok none
  unfolding resolve_session resolve_found is_active_at
  resolved_none t token s db found late = elim (Bool-cases (is_usable_token token)) [
    | inr e ↦ rw (e, resolve_session) refl
    | inl e ↦
        let past : ltb t s.expires_at ≡ false = ground arith in
        elim (Bool-cases (is_none s.revoked_at)) [
          | inl f ↦ rw (e, found, f, past, resolve_session, resolve_found) refl
          | inr f ↦ rw (e, found, f, resolve_session, resolve_found) refl
        ]
  ]

  module _ (ids : Supply) (tokens : Tokens) (now lifetime : ℕ) (cmd : CreateSessionCommand) where
    -- What a session that was stored leaves.
    abbrev Stores : IssuedBrowserSession → Database → Database → Type 0
    Stores s db db' =
        (find_by_token_hash (lib.hash_token s.raw_token) db'
          ≡ some (new_session lib s.raw_token s.id now lifetime cmd))
        × (s.expires_at ≡ now + lifetime)
        × (get_status cmd.user_id db' ≡ get_status cmd.user_id db)

    abbrev new : AuthSession
    new = new_session lib (tokens 0) (ids 0) now lifetime cmd

    abbrev created_event : AuditEvent
    created_event =
        session_event (ids 1) cmd.correlation_id cmd.user_id "auth.session_created" (ids 0)

    row_stored :
        (db : Database)
        → IsDigested new
        → (create_session now new created_event db).0 ≡ true
        → Stores (issued (tokens 0) (tokens 1) new) db (create_session now new created_event db).1
    row_stored db digested done =
        subst (Stores (issued (tokens 0) (tokens 1) new) db)
          (sym (created_row now new created_event db done))
          (
            unfold find_by_token_hash in
                rw (text_eq_refl (lib.hash_token (tokens 0)))
                  (session_from_record-row now new digested),
            refl,
            unfold get_status in refl,
          )

    stored_session :
        (s : IssuedBrowserSession) (db : Database)
        → (store_session lib ids tokens now lifetime cmd db).0 ≡ ok s
        → Stores s db (store_session lib ids tokens now lifetime cmd db).1
    unfolding store_session
    stored_session s db done = elim (Result-cases (auth_session new)) [
      | inl (e, f) ↦ absurd (cc (rw (f, store_session) at done))
      | inr (s', f) ↦
          let (same, digested) = constructed new s' f in
          let valid : auth_session new ≡ ok new = f ∙ ap ok (sym same) in
          elim (Bool-cases (create_session now new created_event db).0) [
            | inr g ↦ absurd (cc (rw (valid, g, store_session) at done))
            | inl g ↦
                let made : issued (tokens 0) (tokens 1) new ≡ s =
                  cc (rw (valid, g, store_session) at done) in
                rw (valid, store_session)
                  (subst (λ x. Stores x db (create_session now new created_event db).1) made
                    (row_stored db digested g))
          ]
    ]

    -- What is issued for an active user resolves to that user, up to its expiry.
    pub create_browser_session-Resolves :
        (s : IssuedBrowserSession) (db : Database)
        → (create_browser_session lib ids tokens now lifetime cmd db).0 ≡ ok s
        → is_usable_token s.raw_token ≡ true
        → (get_status cmd.user_id db ≡ some UserStatus.active)
          × Resolves cmd.user_id now cmd.assurance_level s
              (create_browser_session lib ids tokens now lifetime cmd db).1
    unfolding create_browser_session
    create_browser_session-Resolves s db done usable =
        let db' = (store_session lib ids tokens now lifetime cmd db).1 in
        elim (Bool-cases (is_active (get_status cmd.user_id db))) [
          | inr e ↦ absurd (cc (rw (e, create_browser_session) at done))
          | inl e ↦
              let (found, expiry, status) =
                stored_session s db (rw (e, create_browser_session) at done) in
              let active : get_status cmd.user_id db ≡ some UserStatus.active =
                active_status (get_status cmd.user_id db) e in
              let stored = new_session lib s.raw_token s.id now lifetime cmd in
              rw (e, create_browser_session)
                (
                  active,
                  λ t. (
                    λ early.
                        (resolve_session_iff settings t db' positive lib.hash_token s.raw_token
                            (principal_of stored)).1
                          (usable, (stored, found, (refl, omega arith, status ∙ active), refl)),
                    λ late. resolved_none t s.raw_token stored db' found (omega arith),
                  ),
                )
        ]
