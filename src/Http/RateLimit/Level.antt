-- ===== src/Http/RateLimit/Level.antt =====
-- One bucket under a clock that does not go backwards: its level is a natural number.
use beefy_envio_balances_ind.Common.{ℕ, ◌+◌, ◌-◌, ◌*◌, ◌≤◌, ◌≡◌, min, arith, if◌then◌else◌, leb}
use beefy_envio_balances_ind.Common.Int.{pos, pos_part, neg_part, sub_ℕ, ◌+ℤ◌, ◌-ℤ◌, ◌*ℤ◌}
use beefy_envio_balances_ind.Http.RateLimit.{Config, allowed, denied, refill, spend, retry_after}
use beefy_envio_balances_ind.Http.RateLimit.Exact.{ExactBucket, unit, capacity, exact}

pub record IsSound (cfg : Config) (now : ℕ) (b : ExactBucket) : Type 0 where
  pub nonneg : neg_part b.tokens ≡ 0
  pub within : pos_part b.tokens ≤ capacity cfg
  pub past : b.at ≤ now

-- what a bucket holds at `time`, unspent
unfoldable pub level : Config → ExactBucket → ℕ → ℕ
level cfg b time = min (capacity cfg) (pos_part b.tokens + (time - b.at) * cfg.rate_per_minute)

elapsed_lem : (t a r : ℕ) → a ≤ t → sub_ℕ t a *ℤ pos r ≡ pos ((t - a) * r)
unfolding ◌*ℤ◌
elapsed_lem t a r h = ground arith

pub refill-level :
    (cfg : Config) (b : ExactBucket) (time : ℕ)
    → IsSound cfg time b
    → refill exact cfg b time ≡ record { tokens = pos (level cfg b time); at = time }
unfolding refill level ◌+ℤ◌
refill-level cfg b time s = rw (elapsed_lem time b.at cfg.rate_per_minute s.past) (ground arith)

-- Between two times the level grows by at most the rate.
pub level-growth :
    (cfg : Config) (b : ExactBucket) (t u : ℕ)
    → b.at ≤ t
    → t ≤ u
    → level cfg b u ≤ level cfg b t + (u - t) * cfg.rate_per_minute
unfolding level
level-growth cfg b t u h k =
    let split : (u - b.at) * cfg.rate_per_minute
        ≡ (t - b.at) * cfg.rate_per_minute + (u - t) * cfg.rate_per_minute =
      grind arith in
    omega (arith, split)

pub level_mono : (cfg : Config) (b : ExactBucket) (t u : ℕ) → t ≤ u → level cfg b t ≤ level cfg b u
unfolding level
level_mono cfg b t u h = grind arith

pub level-le : (cfg : Config) (b : ExactBucket) (t : ℕ) → level cfg b t ≤ capacity cfg
unfolding level
level-le cfg b t = omega arith

-- Reading the level at the bucket's own time adds nothing.
pub level_self :
    (cfg : Config) (n t : ℕ)
    → n ≤ capacity cfg
    → level cfg (record { tokens = pos n; at = t }) t ≡ n
unfolding level
level_self cfg n t h = grind arith

-- Spending from a bucket that holds `n`: a token leaves it exactly when there is one.
pub spend-pos :
    (cfg : Config) (n t : ℕ)
    → spend exact cfg (record { tokens = pos n; at = t }) ≡ (
        if leb unit n
        then (allowed, record { tokens = pos (n - unit); at = t })
        else (denied (retry_after exact cfg (pos n)), record { tokens = pos n; at = t }))
unfolding spend ◌-ℤ◌
spend-pos cfg n t = ground arith
