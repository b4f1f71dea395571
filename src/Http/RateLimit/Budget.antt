-- ===== src/Http/RateLimit/Budget.antt =====
-- How many requests of one key the limiter lets through.
use beefy_envio_balances_ind.Common.{
  ℕ, ◌+◌, ◌-◌, ◌*◌, ◌≤◌, ◌≡◌, inl, inr, Bool, true, false, List, [], ◌∷◌, arith, if◌then◌else◌,
  Option-cases,
}
use beefy_envio_balances_ind.Common.Dict.{lookup, All-lookup}
use beefy_envio_balances_ind.Http.RateLimit.{Config, RateLimitResult, allowed, denied, take}
use beefy_envio_balances_ind.Http.RateLimit.Exact.{ExactBucket, unit, exact}
use beefy_envio_balances_ind.Http.RateLimit.Level.{IsSound, level-growth}
use beefy_envio_balances_ind.Http.RateLimit.Table.{
  IsValid, IsKept, IsSound-later, available, take-available, take-IsValid, available-take_self,
  lookup-take_ne,
}
use mathlib.Core.Logic.{ite, if_pos, if_neg}

abbrev pub is_allowed : RateLimitResult → Bool
is_allowed allowed = true
is_allowed (denied _) = false

-- The requests come in the order of their times, from `start` to `finish`.
abbrev pub Ordered : {K : Type 0} → ℕ → List (K × ℕ) → ℕ → Type 0
Ordered start [] finish = start ≤ finish
Ordered start ((_, time) ∷ rs) finish = (start ≤ time) × Ordered time rs finish

Ordered-le :
    {K : Type 0} (start : ℕ) (rs : List (K × ℕ)) (finish : ℕ)
    → Ordered start rs finish
    → start ≤ finish
Ordered-le s [] f h = h
Ordered-le s ((_, t) ∷ rs) f h = omega (arith, Ordered-le t rs f h.1)

module _ {K : Type 0} (dec : Discrete K) where
  -- how many of the requests (key and time) of the key `q` are let through
  pub admitted : Config → K → List (K × ℕ) → List (K × ExactBucket) → ℕ
  admitted cfg q [] m = 0
  admitted cfg q ((key, time) ∷ rs) m =
      let (result, after) = take exact dec cfg key time m in
      ite (dec key q) (if is_allowed result then 1 else 0) 0 + admitted cfg q rs after

  -- The table never has to forget a key on the way.
  abbrev pub AllKept : Config → List (K × ℕ) → List (K × ExactBucket) → Type 0
  AllKept cfg [] m = Unit
  AllKept cfg ((key, time) ∷ rs) m =
      IsKept dec cfg key m × AllKept cfg rs (take exact dec cfg key time m).1

  available-growth :
      (cfg : Config) (q : K) (t u : ℕ) (m : List (K × ExactBucket))
      → IsValid dec cfg t m
      → t ≤ u
      → available cfg u (lookup dec q m)
        ≤ available cfg t (lookup dec q m) + (u - t) * cfg.rate_per_minute
  unfolding available
  available-growth cfg q t u m valid h = elim (Option-cases (lookup dec q m)) [
    | inl new ↦ rw (new, available) (omega arith)
    | inr (b, known) ↦
        let s = All-lookup dec (IsSound cfg t) q b m valid.sound known in
        rw (known, available) (level-growth cfg b t u s.past h)
  ]

  rates : (a b c r : ℕ) → a ≤ b → b ≤ c → (b - a) * r + (c - b) * r ≡ (c - a) * r
  rates a b c r h k = grind arith

  take_one_self :
      (cfg : Config) (q : K) (time : ℕ) (m : List (K × ExactBucket))
      → IsValid dec cfg time m
      → unit * (if is_allowed (take exact dec cfg q time m).0 then 1 else 0)
          + available cfg time (lookup dec q (take exact dec cfg q time m).1)
        ≡ available cfg time (lookup dec q m)
  take_one_self cfg q time m valid =
      rw (available-take_self dec cfg q time m valid, take-available dec cfg q time m valid)
        (ground arith)

  take_one :
      (cfg : Config) (key q : K) (time : ℕ) (m : List (K × ExactBucket))
      → IsValid dec cfg time m
      → IsKept dec cfg key m
      → unit * ite (dec key q) (if is_allowed (take exact dec cfg key time m).0 then 1 else 0) 0
          + available cfg time (lookup dec q (take exact dec cfg key time m).1)
        ≡ available cfg time (lookup dec q m)
  take_one cfg key q time m valid kept = elim (dec key q) [
    | yes here ↦ rw (if_pos _ here, here) (take_one_self cfg q time m valid)
    | no there ↦
        rw (if_neg _ there, lookup-take_ne dec cfg key q time m valid kept there) (omega arith)
  ]

  -- In arithmetic without rounding, over requests in the order of their times, where no key is
  -- forgotten: between two times the limiter lets through at most what the key had available at the
  -- first, and what the rate adds until the second: no interleaving with other keys changes that.
  pub admitted-available :
      (cfg : Config) (q : K) (rs : List (K × ℕ)) (start finish : ℕ) (m : List (K × ExactBucket))
      → IsValid dec cfg start m
      → Ordered start rs finish
      → AllKept cfg rs m
      → unit * admitted cfg q rs m
        ≤ available cfg start (lookup dec q m) + (finish - start) * cfg.rate_per_minute
  unfolding admitted
  admitted-available cfg q [] start finish m valid ordered kept = omega arith
  admitted-available cfg q ((key, time) ∷ rs) start finish m valid ordered kept =
      let later : IsValid dec cfg time m = record {
        distinct = valid.distinct;
        sound = IsSound-later cfg start time m ordered.0 valid.sound;
      } in
      let after = (take exact dec cfg key time m).1 in
      omega (
        arith,
        take_one cfg key q time m later kept.0,
        available-growth cfg q start time m valid ordered.0,
        rates start time finish cfg.rate_per_minute ordered.0 (Ordered-le time rs finish ordered.1),
        admitted-available cfg q rs time finish after (take-IsValid dec cfg key time m later)
            ordered.1 kept.1,
      )
