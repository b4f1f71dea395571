-- ===== src/Http/RateLimit/Tests.antt =====
-- Runs of the limiter, and the theorems at a concrete table.
use native.Mathlib.Decide.{ℕ_discrete}
use beefy_envio_balances_ind.Common.{ℕ, ◌+◌, ◌-◌, ◌*◌, ◌≤◌, ◌≡◌, refl, some, List, [], ◌∷◌, arith}
use beefy_envio_balances_ind.Common.Int.{ℤ, pos, ◌+ℤ◌, ◌-ℤ◌, ◌*ℤ◌}
use beefy_envio_balances_ind.Common.Dict.{lookup, delete, set}
use beefy_envio_balances_ind.Http.RateLimit.{
  Bucket, Config, allowed, denied, take, spend, refill, make_room, retry_after,
}
use beefy_envio_balances_ind.Http.RateLimit.Exact.{ExactBucket, unit, exact}
use beefy_envio_balances_ind.Http.RateLimit.Table.{IsValid, available}
use beefy_envio_balances_ind.Http.RateLimit.Budget.{admitted, admitted-available}
use beefy_envio_balances_ind.Http.RateLimit.Doubles.{spacing, nearest, rounded, doubles}

program : Unit {0}
unfolding take spend refill make_room retry_after lookup delete set ℕ_discrete ◌+ℤ◌ ◌-ℤ◌ ◌*ℤ◌
    spacing nearest rounded
program = tt

-- a token every 3 seconds, at most two, for two keys
abbrev cfg : Config
cfg = record { rate_per_minute = 20; burst = 2; max_keys = 2 }

abbrev spent : List (ℕ × ExactBucket)
spent = (7, record { tokens = pos 0; at = 100 }) ∷ []

spent_lem : (take exact ℕ_discrete cfg 7 100 (take exact ℕ_discrete cfg 7 100 []).1).1 ≡ spent
unfolding program
spent_lem = refl

refused : (take exact ℕ_discrete cfg 7 100 spent).0 ≡ denied (some 3)
unfolding program
refused = refl

-- a clock set back leaves a bucket in debt
set_back : (take exact ℕ_discrete cfg 7 40 spent).0 ≡ denied (some 4)
unfolding program
set_back = refl

forgets :
    (take exact ℕ_discrete cfg 9 102 (take exact ℕ_discrete cfg 8 101 spent).1).1
    ≡ (8, record { tokens = pos 60000; at = 101 })
      ∷ (9, record { tokens = pos 60000; at = 102 })
      ∷ []
unfolding program
forgets = refl

spent-IsValid : IsValid ℕ_discrete cfg 100 spent
spent-IsValid = record {
  distinct = (tt, tt);
  sound = (record { nonneg = refl; within = omega arith; past = omega arith }, tt);
}

abbrev requests : List (ℕ × ℕ)
requests = (7, 200) ∷ (8, 300) ∷ (7, 4000) ∷ []

admitted-available_example :
    unit * admitted ℕ_discrete cfg 7 requests spent
    ≤ available cfg 100 (lookup ℕ_discrete 7 spent) + (5000 - 100) * 20
unfolding program
admitted-available_example =
    admitted-available ℕ_discrete cfg 7 requests 100 5000 spent spent-IsValid
      (omega arith, (omega arith, (omega arith, omega arith)))
      (λ h. omega arith, (λ h. omega arith, (λ h. cc, tt)))

-- In the doubles of the code ten times a tenth of a token is less than one: a client that waits the announced seconds
-- is refused again. A token every 6 seconds, at most one.
abbrev slow : Config
slow = record { rate_per_minute = 10; burst = 1; max_keys = 2 }

abbrev after_two : List (ℕ × Bucket ℤ)
after_two = (take doubles ℕ_discrete slow 7 2909 (take doubles ℕ_discrete slow 7 1909 []).1).1

told_five :
    (take doubles ℕ_discrete slow 7 2909 (take doubles ℕ_discrete slow 7 1909 []).1).0
    ≡ denied (some 5)
unfolding program
told_five = refl

refused_again : (take doubles ℕ_discrete slow 7 7909 after_two).0 ≡ denied (some 1)
unfolding program
refused_again = refl

-- And one that is told to wait two seconds is let through after one: 20 tokens a minute, at most one, taken at 0.
abbrev default_rate : Config
default_rate = record { rate_per_minute = 20; burst = 1; max_keys = 2 }

abbrev after_refusal : List (ℕ × Bucket ℤ)
after_refusal =
    (take doubles ℕ_discrete default_rate 7 2000 (take doubles ℕ_discrete default_rate 7 0 []).1).1

told_two :
    (take doubles ℕ_discrete default_rate 7 2000 (take doubles ℕ_discrete default_rate 7 0 []).1).0
    ≡ denied (some 2)
unfolding program
told_two = refl

passed_after_one : (take doubles ℕ_discrete default_rate 7 3000 after_refusal).0 ≡ allowed
unfolding program
passed_after_one = refl
