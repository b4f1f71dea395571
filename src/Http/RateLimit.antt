-- ===== src/Http/RateLimit.antt =====
-- The token bucket limiter of apps/api/src/http/rateLimit.ts (`createRateLimiter`), over the operations on numbers that
-- its code uses: `doubles` are those of JavaScript, `exact` those without rounding. The times are whole milliseconds,
-- whose differences are exact; they are signed, as the clock may go backwards.
pub mod Doubles
pub mod Exact
pub mod Level
pub mod Table
pub mod Budget
mod Tests
use beefy_envio_balances_ind.Common.{
  ℕ, max, Bool, Option, none, some, List, [], ◌∷◌, leb, if◌then◌else◌,
}
use beefy_envio_balances_ind.Common.Int.{ℤ, sub_ℕ}
use beefy_envio_balances_ind.Common.Dict.{size, lookup, delete, set}

pub record Config : Type 0 where
  pub rate_per_minute : ℕ
  pub burst : ℕ
  pub max_keys : ℕ

-- `denied none` stands for a wait of `Infinity`, at a rate of 0.
pub data RateLimitResult : Type 0 where
  allowed : RateLimitResult
  denied : (retry_after_seconds : Option ℕ) → RateLimitResult

-- The numbers of the tokens, the numbers of `perMs`, and the operations on them.
pub record Arithmetic : Type 1 where
  pub Number : Type 0
  pub Rate : Type 0
  pub whole : ℕ → Number
  pub plus : Number → Number → Number
  pub minus : Number → Number → Number
  pub le : Number → Number → Bool
  -- `ratePerMinute / 60_000`
  pub per_ms : (rate_per_minute : ℕ) → Rate
  -- `(time - bucket.at) * perMs`
  pub times : ℤ → Rate → Number
  -- `Math.ceil(x / perMs / 1000)`; none where that is `Infinity`
  pub seconds : Number → Rate → Option ℕ

pub record Bucket (N : Type 0) : Type 0 where
  pub tokens : N
  pub at : ℕ

-- a full table forgets its first key, the least recently used
unfoldable pub make_room :
    {K : Type 0} {N : Type 0} → Config → List (K × Bucket N) → List (K × Bucket N)
make_room cfg [] = []
make_room cfg (e ∷ m) = if leb cfg.max_keys (size (e ∷ m)) then m else e ∷ m

module _ (ar : Arithmetic) where
  -- `Math.min`
  abbrev pub min_of : ar.Number → ar.Number → ar.Number
  min_of a b = if ar.le a b then a else b

  abbrev pub full : Config → ℕ → Bucket ar.Number
  full cfg time = record { tokens = ar.whole cfg.burst; at = time }

  unfoldable pub refill : Config → Bucket ar.Number → ℕ → Bucket ar.Number
  refill cfg b time = record {
    tokens =
        min_of (ar.whole cfg.burst)
          (ar.plus b.tokens (ar.times (sub_ℕ time b.at) (ar.per_ms cfg.rate_per_minute)));
    at = time;
  }

  -- seconds until the bucket holds one token, at least one
  unfoldable pub retry_after : Config → ar.Number → Option ℕ
  retry_after cfg tokens =
      elim (ar.seconds (ar.minus (ar.whole 1) tokens) (ar.per_ms cfg.rate_per_minute)) [
        | none ↦ none
        | some s ↦ some (max 1 s)
      ]

  -- the end of `take`: one token is spent, if there is one
  unfoldable pub spend : Config → Bucket ar.Number → RateLimitResult × Bucket ar.Number
  spend cfg b =
      if ar.le (ar.whole 1) b.tokens
      then (allowed, record b { tokens = ar.minus b.tokens (ar.whole 1) })
      else (denied (retry_after cfg b.tokens), b)

  module _ {K : Type 0} (dec : Discrete K) where
    unfoldable pub take :
        Config → K → ℕ → List (K × Bucket ar.Number) → RateLimitResult × List (K × Bucket ar.Number)
    take cfg key time buckets = elim (lookup dec key buckets) [
      | none ↦
          let (result, bucket) = spend cfg (full cfg time) in
          (result, set dec key bucket (make_room cfg buckets))
      | some b ↦
          let (result, bucket) = spend cfg (refill cfg b time) in
          (result, set dec key bucket (delete dec key buckets))
    ]
