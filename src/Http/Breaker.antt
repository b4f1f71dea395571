-- ===== src/Http/Breaker.antt =====
-- The circuit breaker of apps/api/src/http/breaker.ts (`createCircuitBreaker`). `run` is cut at its
-- `await`: `enter` is what happens before the call of `fn`, `settle` what happens when it ends, so
-- that other calls can come in between. `now()` is an argument of each.
pub mod History
pub mod Probe
mod Tests
use beefy_envio_balances_ind.Common.{
  ℕ, ◌+◌, Bool, true, false, ◌||◌, Option, none, some, List, [], ◌∷◌, ltb, leb, if◌then◌else◌,
}

pub record Config : Type 0 where
  pub failure_threshold : ℕ
  pub open_ms : ℕ

pub record Breaker : Type 0 where
  pub failures : ℕ
  pub opened_at : Option ℕ
  pub probing : Bool

-- How `fn` ends: with a value, with an error that `isFailure` accepts, or with one that it rejects.
pub data Outcome : Type 0 where
  success failure ignored : Outcome

abbrev pub closed : Breaker
closed = record { failures = 0; opened_at = none; probing = false }

abbrev pub is_open : Breaker → Bool
is_open b = elim b.opened_at [ none ↦ false | some _ ↦ true ]

-- `none` is the `BreakerOpenError`; `now - openedAt < openMs` has its subtraction moved over.
pub enter : Config → ℕ → Breaker → Option Breaker
enter cfg now b = elim b.opened_at [
  | none ↦ some b
  | some opened ↦
      if ltb now (opened + cfg.open_ms) || b.probing
      then none
      else some (record b { probing = true })
]

pub settle : Config → Outcome → ℕ → Breaker → Breaker
settle cfg success now b = record { failures = 0; opened_at = none; probing = false }
settle cfg ignored now b = record b { probing = false }
settle cfg failure now b =
    let failures = b.failures + 1 in
    record {
      failures = failures;
      opened_at = if is_open b || leb cfg.failure_threshold failures then some now else b.opened_at;
      probing = false;
    }

-- One thing that happens to the breaker at a time: a call comes, or a call that was let in ends.
pub data Event : Type 0 where
  call : Event
  ended : Outcome → Event

-- A refused call leaves the breaker as it is.
pub step : Config → Event → ℕ → Breaker → Breaker
step cfg call now b = elim (enter cfg now b) [ none ↦ b | some b' ↦ b' ]
step cfg (ended o) now b = settle cfg o now b

pub run : Config → List (Event × ℕ) → Breaker → Breaker
run cfg [] b = b
run cfg ((e, now) ∷ es) b = run cfg es (step cfg e now b)
