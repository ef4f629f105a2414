-- ===== src/Application/OauthLogin/Outcomes.antt =====
-- What a login with a provider's identity that succeeds has done.
use mathlib.Core.Path.{subst}
use muxivo_console.Shared.{
  ℕ, ◌≤◌, true, false, ◌&&◌, ◌||◌, ◌≡◌, ◌≢◌, refl, arith, Option, none, some, List, [], ◌∷◌, Text,
  find, Result, ok, err, is_empty, Bool-cases, Option-cases, Result-cases, inl, inr, ap, sym, ◌∙◌,
}
use muxivo_console.Domain.Activity.{Uuid}
use muxivo_console.Domain.Audit.{AuditEvent}
use muxivo_console.Domain.Identity.{UserStatus, OAuthLoginTransaction, IdentityError, is_email}
use muxivo_console.Domain.Sessions.{AuthSession, SessionAssuranceLevel, auth_session}
use muxivo_console.Persistence.Rows.{LoginTransactionRow}
use muxivo_console.Persistence.Database.{Database, update_where, audit_fits, session_fits}
use muxivo_console.Persistence.Members.{get_status}
use muxivo_console.Persistence.Identities.{find_user_id}
use muxivo_console.Persistence.Sessions.{create_session, session_row}
use muxivo_console.Persistence.Transactions.{is_usable_login, consumed_login, consume_login}
use muxivo_console.Application.Identifiers.{Supply}
use muxivo_console.Application.Libraries.{Libraries, Tokens}
use muxivo_console.Application.Members.{is_active}
use muxivo_console.Application.Sessions.{ResolverSettings, is_usable_token}
use muxivo_console.Application.Browser.{
  BrowserError, IssuedBrowserSession, CreateSessionCommand, new_session, session_event,
  store_session, create_browser_session,
}
use muxivo_console.Application.Browser.Creation.{Resolves, create_browser_session-Resolves}
use muxivo_console.Application.Identities.Completion.{ProviderClient, same_provider}
use muxivo_console.Application.OauthLogin.{
  CompleteLoginCommand, session_or, session_command, login_with, login_consumed,
  complete_oauth_login,
}

none_left :
    (h : Text) (at t : ℕ) (rows : List LoginTransactionRow)
    → at ≤ t
    → find (is_usable_login h t) (update_where (is_usable_login h at) (consumed_login at) rows)
      ≡ none
none_left h at t [] later = refl
none_left h at t (r ∷ rs) later = ground (arith, none_left h at t rs later)

create_session_logins :
    (now : ℕ) (s : AuthSession) (event : AuditEvent) (db : Database)
    → (create_session now s event db).1.login_transactions ≡ db.login_transactions
unfolding create_session
create_session_logins now s event db =
    elim (Bool-cases (session_fits (session_row now s) db && audit_fits event db)) [
      | inl e ↦ rw (e, create_session) refl
      | inr e ↦ rw (e, create_session) refl
    ]

module _ (lib : Libraries) (ids : Supply) (tokens : Tokens) (now lifetime : ℕ) where
  store_session_logins :
      (cmd : CreateSessionCommand) (db : Database)
      → (store_session lib ids tokens now lifetime cmd db).1.login_transactions
        ≡ db.login_transactions
  unfolding store_session
  store_session_logins cmd db =
      elim (Result-cases (auth_session (new_session lib (tokens 0) (ids 0) now lifetime cmd))) [
        | inl (e, f) ↦ rw (f, store_session) refl
        | inr (s, f) ↦
            rw (f, store_session)
              (create_session_logins now s
                (session_event (ids 1) cmd.correlation_id cmd.user_id "auth.session_created" s.id)
                db)
      ]

  create_browser_session_logins :
      (cmd : CreateSessionCommand) (db : Database)
      → (create_browser_session lib ids tokens now lifetime cmd db).1.login_transactions
        ≡ db.login_transactions
  unfolding create_browser_session
  create_browser_session_logins cmd db = elim (Bool-cases (is_active (get_status cmd.user_id db))) [
    | inl e ↦ rw (e, create_browser_session) (store_session_logins cmd db)
    | inr e ↦ rw (e, create_browser_session) refl
  ]

  session_end :
      (cmd : CreateSessionCommand) (s : IssuedBrowserSession) (db : Database)
      → (session_or (create_browser_session lib ids tokens now lifetime cmd db)).0 ≡ ok s
      → ((create_browser_session lib ids tokens now lifetime cmd db).0 ≡ ok s)
        × ((session_or (create_browser_session lib ids tokens now lifetime cmd db)).1
            ≡ (create_browser_session lib ids tokens now lifetime cmd db).1)
  session_end cmd s db done =
      let made = create_browser_session lib ids tokens now lifetime cmd db in
      elim (Result-cases made.0) [
        | inl (e, f) ↦ absurd (cc (rw f at done))
        | inr (s', f) ↦ let same : s' ≡ s = cc (rw f at done) in rw f (ap ok same, refl)
      ]

module _ (lib : Libraries) (settings : ResolverSettings)
    (positive : settings.last_seen_update_interval ≢ 0) where
  module _ (client : ProviderClient) (ids : Supply) (tokens : Tokens) (now session_now lifetime : ℕ)
      (cmd : CompleteLoginCommand) where
    -- Who is logged in, by which answer of the provider to which transaction.
    abbrev pub LogsIn : OAuthLoginTransaction → IssuedBrowserSession → Database → Database → Type 0
    LogsIn t s db db' =
        (verifier : Text) × (subject : Text) × (u : Uuid) × (lib.decrypt t.code_verifier_ciphertext
          ≡ some verifier)
        × (client cmd.authorization_code verifier ≡ some subject)
        × (find_user_id cmd.provider subject db ≡ some u)
        × (get_status u db ≡ some UserStatus.active)
        × Resolves lib settings positive u session_now SessionAssuranceLevel.recent_authentication s
            db'

    abbrev session_for : Uuid → Database → Result BrowserError IssuedBrowserSession × Database
    session_for u =
        create_browser_session lib ids tokens session_now lifetime (session_command u cmd)

    login_with_session :
        (t : OAuthLoginTransaction) (verifier subject : Text) (u : Uuid) (db : Database)
        → lib.decrypt t.code_verifier_ciphertext ≡ some verifier
        → client cmd.authorization_code verifier ≡ some subject
        → find_user_id cmd.provider subject db ≡ some u
        → login_with lib client ids tokens now session_now lifetime cmd t db
          ≡ session_or (session_for u db)
    unfolding login_with
    login_with_session t verifier subject u db e f g = rw (e, f, g, login_with) refl

    login_with-LogsIn :
        (t : OAuthLoginTransaction) (s : IssuedBrowserSession) (db : Database)
        → (login_with lib client ids tokens now session_now lifetime cmd t db).0 ≡ ok s
        → is_usable_token s.raw_token ≡ true
        → LogsIn t s db (login_with lib client ids tokens now session_now lifetime cmd t db).1
          × ((login_with lib client ids tokens now session_now lifetime cmd t
                db).1.login_transactions
              ≡ db.login_transactions)
    unfolding login_with
    login_with-LogsIn t s db done usable =
        elim (Option-cases (lib.decrypt t.code_verifier_ciphertext)) [
          | inl e ↦ absurd (cc (rw (e, login_with) at done))
          | inr (verifier, e) ↦ elim (Option-cases (client cmd.authorization_code verifier)) [
            | inl f ↦ absurd (cc (rw (e, f, login_with) at done))
            | inr (subject, f) ↦ elim (Option-cases (find_user_id cmd.provider subject db)) [
              | inl g ↦ absurd (cc (rw (e, f, g, login_with) at done))
              | inr (u, g) ↦
                  let opened = login_with_session t verifier subject u db e f g in
                  let (issued_s, state) =
                    session_end lib ids tokens session_now lifetime (session_command u cmd) s db
                      (sym (ap (λ x. x.0) opened) ∙ done) in
                  let (active, resolves) =
                    create_browser_session-Resolves lib settings positive ids tokens session_now
                      lifetime (session_command u cmd) s db issued_s usable in
                  let kept =
                    create_browser_session_logins lib ids tokens session_now lifetime
                      (session_command u cmd) db in
                  subst (λ x. LogsIn t s db x × (x.login_transactions ≡ db.login_transactions))
                    (sym (ap (λ x. x.1) opened ∙ state))
                    ((verifier, subject, u, e, f, g, active, resolves), kept)
            ]
          ]
        ]

    login_consumed-LogsIn :
        (found : Result IdentityError (Option OAuthLoginTransaction)) (s : IssuedBrowserSession)
        (db : Database)
        → (login_consumed lib client ids tokens now session_now lifetime cmd found db).0 ≡ ok s
        → is_usable_token s.raw_token ≡ true
        → (t : OAuthLoginTransaction) × (found ≡ ok (some t))
          × (same_provider t.provider cmd.provider ≡ true)
          × LogsIn t s db
              (login_consumed lib client ids tokens now session_now lifetime cmd found db).1
          × ((login_consumed lib client ids tokens now session_now lifetime cmd found
                db).1.login_transactions
              ≡ db.login_transactions)
    unfolding login_consumed
    login_consumed-LogsIn (err e) s db done usable = absurd (cc (done))
    login_consumed-LogsIn (ok none) s db done usable = absurd (cc (done))
    login_consumed-LogsIn (ok (some t)) s db done usable =
        elim (Bool-cases (same_provider t.provider cmd.provider)) [
          | inr e ↦ absurd (cc (rw e at done))
          | inl e ↦
              let (logs_in, kept) = login_with-LogsIn t s db (rw e at done) usable in
              (t, refl, e, rw e logs_in, rw e kept)
        ]

    abbrev consumed : Database → Database
    consumed db = (consume_login (lib.hash_token cmd.state) now db).1

    before_consumed :
        (t : OAuthLoginTransaction) (s : IssuedBrowserSession) (db db' : Database)
        → LogsIn t s (consumed db) db'
        → LogsIn t s db db'
    unfolding consume_login find_user_id get_status
    before_consumed t s db db' h = h

    state_used :
        (db db' : Database) (later : ℕ)
        → now ≤ later
        → db'.login_transactions ≡ (consumed db).login_transactions
        → (consume_login (lib.hash_token cmd.state) later db').0 ≡ ok none
    unfolding consume_login
    state_used db db' later after kept =
        rw (kept, none_left (lib.hash_token cmd.state) now later db.login_transactions after) refl

    -- A login through a provider that issues a usable token was by another provider than the
    -- e-mail; the state named a transaction of that provider which is consumed, so that the state
    -- completes no login from then on; the provider resolved the authorization code, with the
    -- transaction's verifier, to the identity of an active user; and up to its expiry the token
    -- resolves to that user, recently authenticated, and to nobody from then on.
    pub complete_oauth_login-LogsIn :
        (s : IssuedBrowserSession) (db : Database)
        → (complete_oauth_login lib client ids tokens now session_now lifetime cmd db).0 ≡ ok s
        → is_usable_token s.raw_token ≡ true
        → (t : OAuthLoginTransaction) × (is_email cmd.provider ≡ false)
          × ((consume_login (lib.hash_token cmd.state) now db).0 ≡ ok (some t))
          × (same_provider t.provider cmd.provider ≡ true)
          × LogsIn t s db
              (complete_oauth_login lib client ids tokens now session_now lifetime cmd db).1
          × ((later : ℕ)
              → now ≤ later
              → (consume_login
                  (lib.hash_token cmd.state)
                  later
                  (complete_oauth_login lib client ids tokens now session_now lifetime cmd db).1).0
                ≡ ok none)
    unfolding complete_oauth_login
    complete_oauth_login-LogsIn s db done usable =
        let refused =
          is_email cmd.provider || is_empty cmd.state || is_empty cmd.authorization_code in
        let found = (consume_login (lib.hash_token cmd.state) now db).0 in
        let left =
          (login_consumed lib client ids tokens now session_now lifetime cmd found
            (consumed db)).1 in
        elim (Bool-cases refused) [
          | inl e ↦ absurd (cc (rw e at done))
          | inr e ↦
              let (t, named, same, logs_in, kept) =
                login_consumed-LogsIn found s (consumed db) (rw e at done) usable in
              rw e (
                t,
                ground arith,
                named,
                same,
                before_consumed t s db left logs_in,
                λ later after. state_used db left later after kept,
              )
        ]
