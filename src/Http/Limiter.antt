-- ===== src/Http/Limiter.antt =====
-- The concurrency limiter of apps/api/src/http/limiter.ts (`createConcurrencyLimiter`). A waiter is
-- known by a number; `timers` holds the waiters whose timeout is pending. `run` is cut at its two
-- `await`s into `acquire`, `time_out` (the callback of `setTimeout`) and `release` (the `finally`).
pub mod Invariant
pub mod Fairness
mod Tests
use beefy_envio_balances_ind.Common.{
  ℕ, ◌+◌, ◌-◌, ◌≡◌, Bool, true, false, Option, none, some, List, [], ◌∷◌, ◌++◌, ltb, leb, ◌==◌,
  if◌then◌else◌, length,
}

pub record Config : Type 0 where
  pub max_in_flight : ℕ
  pub max_queue : ℕ

pub record Limiter : Type 0 where
  pub active : ℕ
  pub waiting : List ℕ
  pub timers : List ℕ

abbrev pub idle : Limiter
idle = record { active = 0; waiting = []; timers = [] }

-- `waiting.indexOf(waiter)`
pub index_of : ℕ → List ℕ → Option ℕ
index_of w [] = none
index_of w (v ∷ vs) =
    let later = index_of w vs in
    if v == w then some 0 else elim later [ none ↦ none | some i ↦ some (i + 1) ]

pub remove_at : ℕ → List ℕ → List ℕ
remove_at i [] = []
remove_at i (v ∷ vs) = if i == 0 then vs else v ∷ remove_at (i - 1) vs

-- `waiting.splice(index, 1)`; an `indexOf` of -1 removes the last element
pub splice : Option ℕ → List ℕ → List ℕ
splice (some i) vs = remove_at i vs
splice none vs = remove_at (length vs - 1) vs

-- `clearTimeout`
pub clear : ℕ → List ℕ → List ℕ
clear w [] = []
clear w (v ∷ vs) = if v == w then vs else v ∷ clear w vs

-- What a call of `acquire` comes to at once: it runs, it is refused with `OverloadedError`, or it
-- waits in the queue.
pub data Answer : Type 0 where
  granted refused queued : Answer

-- `w` is the new waiter, if one is made.
pub acquire : Config → ℕ → Limiter → Answer × Limiter
acquire cfg w l =
    if ltb l.active cfg.max_in_flight
    then (granted, record l { active = l.active + 1 })
    else if leb cfg.max_queue (length l.waiting)
    then (refused, l)
    else (queued, record l { waiting = l.waiting ++ w ∷ []; timers = l.timers ++ w ∷ [] })

-- `next`, with the waiter that it starts
pub next : Limiter → Option ℕ × Limiter
next l = elim l.waiting [
  | [] ↦ (none, l)
  | w ∷ ws ↦ (some w, record { active = l.active + 1; waiting = ws; timers = clear w l.timers })
]

-- the `finally` of `run`
pub release : Limiter → Option ℕ × Limiter
release l = next (record l { active = l.active - 1 })

-- the timeout of a waiter, which is then refused with `OverloadedError`
pub time_out : ℕ → Limiter → Limiter
time_out w l = record l {
  waiting = splice (index_of w l.waiting) l.waiting;
  timers = clear w l.timers;
}
