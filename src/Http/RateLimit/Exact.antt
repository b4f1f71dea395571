-- ===== src/Http/RateLimit/Exact.antt =====
-- The numbers of the limiter without rounding. Tokens are counted in 1/60000 of a token, so that a millisecond adds
-- `ratePerMinute` of them.
use beefy_envio_balances_ind.Common.{ℕ, ◌+◌, ◌-◌, ◌*◌, ◌/◌, none, some, ◌==◌, if◌then◌else◌}
use beefy_envio_balances_ind.Common.Int.{ℤ, pos, pos_part, ◌+ℤ◌, ◌-ℤ◌, ◌*ℤ◌, leb_ℤ}
use beefy_envio_balances_ind.Http.RateLimit.{Arithmetic, Config, Bucket}

-- one token
abbrev pub unit : ℕ
unit = 60000

-- `Math.ceil(n / d)`, for a positive `d`
abbrev pub ceil_div : ℕ → ℕ → ℕ
ceil_div n d = (n + d - 1) / d

abbrev pub exact : Arithmetic
exact = record {
  Number = ℤ;
  Rate = ℕ;
  whole = λ n. pos (n * unit);
  plus = ◌+ℤ◌;
  minus = ◌-ℤ◌;
  le = leb_ℤ;
  per_ms = λ rate. rate;
  times = λ ms rate. ms *ℤ pos rate;
  seconds = λ x rate. if rate == 0 then none else some (ceil_div (pos_part x) (rate * 1000));
}

abbrev pub capacity : Config → ℕ
capacity cfg = cfg.burst * unit

abbrev pub ExactBucket : Type 0
ExactBucket = Bucket ℤ
