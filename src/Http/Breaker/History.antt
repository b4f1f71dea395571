-- ===== src/Http/Breaker/History.antt =====
-- The breaker against its history: it is open exactly after enough failures in a row.
use beefy_envio_balances_ind.Common.{ℕ, ◌+◌, ◌≡◌, ◌<◌, refl, List, [], ◌∷◌, leb, arith}
use beefy_envio_balances_ind.Http.Breaker.{
  Config, Breaker, success, failure, ignored, closed, is_open, enter, settle, Event, call, ended,
  step, run,
}

-- The failures since the last success, after `n` before; calls and other errors do not count.
pub consecutive : ℕ → List (Event × ℕ) → ℕ
consecutive n [] = n
consecutive n ((call, _) ∷ es) = consecutive n es
consecutive n ((ended success, _) ∷ es) = consecutive 0 es
consecutive n ((ended failure, _) ∷ es) = consecutive (n + 1) es
consecutive n ((ended ignored, _) ∷ es) = consecutive n es

-- The breaker is open exactly when it counts enough failures.
pub record IsValid (cfg : Config) (b : Breaker) : Type 0 where
  pub tripped : is_open b ≡ leb cfg.failure_threshold b.failures

step-IsValid :
    (cfg : Config) (e : Event) (now : ℕ) (b : Breaker)
    → 0 < cfg.failure_threshold
    → IsValid cfg b
    → IsValid cfg (step cfg e now b)
unfolding step enter settle
step-IsValid cfg call now b p v = record { tripped = ground arith }
step-IsValid cfg (ended success) now b p v = record { tripped = ground arith }
step-IsValid cfg (ended failure) now b p v = record { tripped = ground arith }
step-IsValid cfg (ended ignored) now b p v = record { tripped = ground arith }

step-failures :
    (cfg : Config) (e : Event) (now : ℕ) (b : Breaker) (es : List (Event × ℕ))
    → consecutive (step cfg e now b).failures es ≡ consecutive b.failures ((e, now) ∷ es)
unfolding step enter settle consecutive
step-failures cfg call now b es = ground arith
step-failures cfg (ended success) now b es = refl
step-failures cfg (ended failure) now b es = refl
step-failures cfg (ended ignored) now b es = refl

run_lem :
    (cfg : Config) (es : List (Event × ℕ)) (b : Breaker)
    → 0 < cfg.failure_threshold
    → IsValid cfg b
    → (is_open (run cfg es b) ≡ leb cfg.failure_threshold (consecutive b.failures es))
      × ((run cfg es b).failures ≡ consecutive b.failures es)
unfolding run consecutive
run_lem cfg [] b p v = (v.tripped, refl)
run_lem cfg ((e, now) ∷ es) b p v =
    rw (← step-failures cfg e now b es)
      (run_lem cfg es (step cfg e now b) p (step-IsValid cfg e now b p v))

-- Whatever the order of calls and ends, and whatever the clock, the breaker is open exactly when the
-- failures since the last success reach the threshold.
pub is_open-run :
    (cfg : Config) (es : List (Event × ℕ))
    → 0 < cfg.failure_threshold
    → is_open (run cfg es closed) ≡ leb cfg.failure_threshold (consecutive 0 es)
is_open-run cfg es p = (run_lem cfg es closed p (record { tripped = ground arith })).0
