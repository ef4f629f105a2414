-- ===== src/Application/Identities/Completion.antt =====
-- application/complete_identity_link_use_case.py: the callback of a provider. The answer of the
-- provider's client is a parameter; an error of it other than a `ValueError` is not modelled.
use muxivo_console.Shared.{
  ℕ, Bool, not, ◌||◌, Option, none, some, Text, is_empty, Result, ok, err, if◌then◌else◌,
}
use text.Mathlib.Text.{◌==◌ as str_eq}
use muxivo_console.Domain.Activity.{Uuid}
use muxivo_console.Domain.Identity.{LoginIdentityProvider, LoginIdentity, IdentityLinkTransaction}
use muxivo_console.Persistence.Database.{Database}
use muxivo_console.Persistence.Identities.{provider_value}
use muxivo_console.Persistence.Transactions.{consume_link}
use muxivo_console.Application.Identifiers.{Supply}
use muxivo_console.Application.Libraries.{Libraries}
use muxivo_console.Application.Identities.{IdentityRejection, link_verified_identity}

pub record CompleteLinkCommand : Type 0 where
  pub provider : LoginIdentityProvider
  pub state : Text
  pub authorization_code : Text
  pub correlation_id : Uuid

-- `a is b`: the values of two members differ.
abbrev pub same_provider : LoginIdentityProvider → LoginIdentityProvider → Bool
same_provider p q = str_eq (provider_value p) (provider_value q)

-- `resolve_subject`, from the authorization code and the verifier.
abbrev pub ProviderClient : Type 0
ProviderClient = Text → Text → Option Text

abbrev pub linked_or :
    Result IdentityRejection LoginIdentity → Result IdentityRejection LoginIdentity
linked_or (ok i) = ok i
linked_or (err e) = err IdentityRejection.completion_rejected

-- The part of `execute` from the transaction on.
unfoldable pub complete_with :
    Libraries
    → ProviderClient
    → Supply
    → ℕ
    → CompleteLinkCommand
    → IdentityLinkTransaction
    → Database
    → Result IdentityRejection LoginIdentity × Database
complete_with lib client ids now cmd t db = elim (lib.decrypt t.code_verifier_ciphertext) [
  | none ↦ (err IdentityRejection.completion_rejected, db)
  | some verifier ↦ elim (client cmd.authorization_code verifier) [
    | none ↦ (err IdentityRejection.completion_rejected, db)
    | some subject ↦
        let (linked, db') =
          link_verified_identity ids now
            (record {
              actor_id = t.user_id;
              provider = t.provider;
              verified_provider_subject = subject;
              correlation_id = cmd.correlation_id;
            })
            db in
        (linked_or linked, db')
  ]
]

-- What is done with the answer of `consume`.
unfoldable pub complete_consumed :
    Libraries
    → ProviderClient
    → Supply
    → ℕ
    → CompleteLinkCommand
    → Option IdentityLinkTransaction
    → Database
    → Result IdentityRejection LoginIdentity × Database
complete_consumed lib client ids now cmd none db = (err IdentityRejection.completion_rejected, db)
complete_consumed lib client ids now cmd (some t) db =
    if not (same_provider t.provider cmd.provider)
    then (err IdentityRejection.completion_rejected, db)
    else complete_with lib client ids now cmd t db

-- `CompleteIdentityLink.execute`
unfoldable pub complete_identity_link :
    Libraries
    → ProviderClient
    → Supply
    → ℕ
    → CompleteLinkCommand
    → Database
    → Result IdentityRejection LoginIdentity × Database
complete_identity_link lib client ids now cmd db =
    let (found, consumed) = consume_link (lib.hash_token cmd.state) now db in
    if is_empty cmd.state || is_empty cmd.authorization_code
    then (err IdentityRejection.completion_rejected, db)
    else complete_consumed lib client ids now cmd found consumed
