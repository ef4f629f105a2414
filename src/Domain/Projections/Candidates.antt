-- ===== src/Domain/Projections/Candidates.antt =====
-- domain/platform_connection_candidate.py and platform_connection_candidate_catalog.py.
use muxivo_console.Shared.{
  Bool, true, false, not, ◌||◌, List, [], ◌∷◌, Text, text_eq, is_blank, any, length, ltb, Result,
  ok, raise_unless,
}
use muxivo_console.Domain.Activity.{Platform}
use muxivo_console.Domain.Projections.{ProjectionError}

pub record PlatformConnectionCandidate : Type 0 where
  pub platform : Platform
  pub external_resource_id : Text
  pub display_name : Text

-- `PlatformConnectionCandidate.__post_init__`
unfoldable pub connection_candidate :
    PlatformConnectionCandidate → Result ProjectionError PlatformConnectionCandidate
connection_candidate c =
    raise_unless (not (is_blank c.external_resource_id || ltb 255 (length c.external_resource_id)))
      ProjectionError.invalid_identifier
      (raise_unless (not (is_blank c.display_name || ltb 255 (length c.display_name)))
        ProjectionError.invalid_name (ok c))

pub record PlatformConnectionCandidateCatalog : Type 0 where
  pub platform : Platform
  pub items : List PlatformConnectionCandidate
  pub identity_linked : Bool

abbrev pub same_platform : Platform → Platform → Bool
same_platform Platform.discord Platform.discord = true
same_platform Platform.twitch Platform.twitch = true
same_platform Platform.telegram Platform.telegram = true
same_platform _ _ = false

abbrev pub is_no_candidate : List PlatformConnectionCandidate → Bool
is_no_candidate [] = true
is_no_candidate (c ∷ cs) = false

-- `len(ids) != len(set(ids))`
abbrev pub repeats : List PlatformConnectionCandidate → Bool
repeats [] = false
repeats (c ∷ cs) = any (λ d. text_eq d.external_resource_id c.external_resource_id) cs || repeats cs

-- `PlatformConnectionCandidateCatalog.__post_init__`
unfoldable pub candidate_catalog :
    PlatformConnectionCandidateCatalog → Result ProjectionError PlatformConnectionCandidateCatalog
candidate_catalog k =
    raise_unless (k.identity_linked || is_no_candidate k.items) ProjectionError.unlinked_candidates
      (raise_unless (not (any (λ c. not (same_platform c.platform k.platform)) k.items))
        ProjectionError.foreign_candidate
        (raise_unless (not (repeats k.items)) ProjectionError.repeated_identifier (ok k)))
