-- ===== src/Tests/Infrastructure.antt =====
-- Runs of the limiter and of the token store.
use Prim.Native.Nat.{min}
use muxivo_console.Shared.{
  suc, ◌≤◌, pos, true, ◌≡◌, refl, arith, Option, some, List, [], ◌∷◌, Text, codes, inl, count, get,
}
use muxivo_console.Infrastructure.RateLimits.{RateLimitRule, RateLimitCall, BucketKey}
use muxivo_console.Infrastructure.RateLimits.Windows.{allowed_for, is_for, allowed_in_window}
use muxivo_console.Infrastructure.Tokens.{TokenCall, put_token, token_step, text_keys}
use muxivo_console.Infrastructure.Tokens.OneTime.{
  successes, is_put_of, is_consume_of, consumed_once,
}
use muxivo_console.Infrastructure.Tokens.Refinement.{
  store_answers, table_answers, store-table_answers,
}

abbrev twice_a_minute : RateLimitRule
twice_a_minute = record { limit = 2; window_seconds = 60 }

abbrev rules : Text → Option RateLimitRule
rules scope = some twice_a_minute

abbrev here : BucketKey
here = (codes "login", codes "10.0.0.1")

abbrev calls : List RateLimitCall
calls =
    record { now = 5; bucket = here }
    ∷ record { now = 6; bucket = (codes "login", codes "10.0.0.2") }
    ∷ record { now = 7; bucket = here }
    ∷ []

allowed_in_window_example :
    allowed_for rules here (record { now = 4; bucket = here } ∷ calls) []
    ≡ min (suc (count (is_for rules here) calls)) 2
allowed_in_window_example =
    allowed_in_window rules here twice_a_minute refl 4 calls [] (omega arith) (inl refl)
      ((λ e. omega arith), ((λ e. omega arith), ((λ e. omega arith), tt)))

abbrev token_calls : List TokenCall
token_calls =
    TokenCall.to_put 1 1 (codes "k") (codes "v") (pos 60)
    ∷ TokenCall.to_consume 2 (codes "k") (codes "v")
    ∷ TokenCall.to_consume 3 (codes "k") (codes "v")
    ∷ []

consumed_once_example :
    successes (is_consume_of (codes "k")) token_calls []
    ≤ successes (is_put_of (codes "k")) token_calls []
consumed_once_example = consumed_once (codes "k") token_calls

one_consumed : successes (is_consume_of (codes "k")) token_calls [] ≡ 1
unfolding successes token_step
one_consumed = refl

put_made : (put_token 1 1 (codes "k") (codes "v") (pos 60) []).0 ≡ true
unfolding put_token
put_made = refl

store-table_answers_example :
    store_answers token_calls [] ≡ table_answers token_calls (λ k. get k [])
store-table_answers_example =
    store-table_answers token_calls 0 [] ((omega arith), ((omega arith), ((omega arith), tt))) tt
