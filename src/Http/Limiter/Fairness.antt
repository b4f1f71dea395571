-- ===== src/Http/Limiter/Fairness.antt =====
-- First come, first served: the queue is in the order of arrival, and nobody overtakes it.
use beefy_envio_balances_ind.Common.{
  ℕ, ◌+◌, ◌≡◌, ◌≢◌, ◌<◌, refl, ap, Bool-cases, inl, inr, some, List, [], ◌∷◌, ◌++◌, ltb, leb, ◌==◌,
  length, arith, All,
}
use beefy_envio_balances_ind.Http.Limiter.{Config, clear, granted, acquire, next, release, time_out}
use beefy_envio_balances_ind.Http.Limiter.Invariant.{
  World, call, finish, Has, Step, calls, ends, fires, Reach, start, after, IsValid, Step-IsValid,
  splice-clear,
}

abbrev pub Increasing : List ℕ → Type 0
Increasing [] = Unit
Increasing (v ∷ vs) = All (λ u. v < u) vs × Increasing vs

-- The waiters stand in the order of their arrival, before any call to come.
pub record InOrder (w : World) : Type 0 where
  pub increasing : Increasing w.limiter.waiting
  pub past : All (λ u. u < w.fresh) w.limiter.waiting

All-snoc : (P : ℕ → Type 0) (vs : List ℕ) (v : ℕ) → All P vs → P v → All P (vs ++ v ∷ [])
All-snoc P [] v h p = (p, tt)
All-snoc P (u ∷ us) v (q, h) p = (q, All-snoc P us v h p)

All-clear : (P : ℕ → Type 0) (c : ℕ) (vs : List ℕ) → All P vs → All P (clear c vs)
unfolding clear
All-clear P c [] h = tt
All-clear P c (v ∷ vs) (p, h) = elim (Bool-cases (v == c)) [
  | inl e ↦ rw e h
  | inr e ↦ rw e (p, All-clear P c vs h)
]

All-weaken : (n : ℕ) (vs : List ℕ) → All (λ u. u < n) vs → All (λ u. u < n + 1) vs
All-weaken n [] h = tt
All-weaken n (v ∷ vs) (p, h) = (omega arith, All-weaken n vs h)

Increasing-snoc :
    (vs : List ℕ) (v : ℕ) → Increasing vs → All (λ u. u < v) vs → Increasing (vs ++ v ∷ [])
Increasing-snoc [] v i h = (tt, tt)
Increasing-snoc (u ∷ us) v (p, i) (q, h) =
    (All-snoc (λ t. u < t) us v p q, Increasing-snoc us v i h)

Increasing-clear : (c : ℕ) (vs : List ℕ) → Increasing vs → Increasing (clear c vs)
unfolding clear
Increasing-clear c [] i = tt
Increasing-clear c (v ∷ vs) (p, i) = elim (Bool-cases (v == c)) [
  | inl e ↦ rw e i
  | inr e ↦ rw e (All-clear (λ t. v < t) c vs p, Increasing-clear c vs i)
]

call-InOrder : (cfg : Config) (w : World) → InOrder w → InOrder (call cfg w)
unfolding call acquire
call-InOrder cfg w o = elim (Bool-cases (ltb w.limiter.active cfg.max_in_flight)) [
  | inl room ↦
      rw (room, call, acquire)
        (record { increasing = o.increasing; past = All-weaken w.fresh w.limiter.waiting o.past })
  | inr busy ↦ elim (Bool-cases (leb cfg.max_queue (length w.limiter.waiting))) [
    | inl full ↦
        rw (busy, full, call, acquire)
          (record { increasing = o.increasing; past = All-weaken w.fresh w.limiter.waiting o.past })
    | inr space ↦
        rw (busy, space, call, acquire)
          (record {
            increasing = Increasing-snoc w.limiter.waiting w.fresh o.increasing o.past;
            past =
                All-snoc (λ u. u < w.fresh + 1) w.limiter.waiting w.fresh
                  (All-weaken w.fresh w.limiter.waiting o.past) (omega arith);
          })
  ]
]

finish-InOrder : (w : World) (c : ℕ) → InOrder w → InOrder (finish c w)
unfolding finish release next
finish-InOrder w c o = go w.limiter.waiting refl
  where
    go : (ws : List ℕ) → w.limiter.waiting ≡ ws → InOrder (finish c w)
    go [] e = rw (e, finish, release, next) (record { increasing = o.increasing; past = o.past })
    go (u ∷ us) e =
        let i : Increasing (u ∷ us) = rw e at o.increasing in
        let p : All (λ u. u < w.fresh) (u ∷ us) = rw e at o.past in
        rw (e, finish, release, next) (record { increasing = i.1; past = p.1 })

Step-InOrder :
    {cfg : Config} {w w' : World} → Step cfg w w' → IsValid cfg w → InOrder w → InOrder w'
unfolding time_out
Step-InOrder {cfg} (calls w) v o = call-InOrder cfg w o
Step-InOrder (ends w c h) v o = finish-InOrder w c o
Step-InOrder (fires w u h) v o =
    let waits : Has u w.limiter.waiting = rw v.timed at h in
    rw (splice-clear u w.limiter.waiting waits) (record {
      increasing = Increasing-clear u w.limiter.waiting o.increasing;
      past = All-clear (λ t. t < w.fresh) u w.limiter.waiting o.past;
    })

-- Whatever calls come, end and time out in whatever order: at most `maxInFlight` run, at most
-- `maxQueue` wait, a call waits only while all places are taken, each waiter's timeout is pending,
-- and the queue is in the order of arrival.
pub Reach-IsValid : {cfg : Config} {w : World} → Reach cfg w → IsValid cfg w × InOrder w
Reach-IsValid start = (
  record {
    counted = refl;
    in_flight = omega arith;
    queue = omega arith;
    timed = refl;
    busy = λ p. absurd (omega arith);
  },
  record { increasing = tt; past = tt },
)
Reach-IsValid (after r s) = let (v, o) = Reach-IsValid r in (Step-IsValid s v, Step-InOrder s v o)

-- When a call ends, the waiter that starts is the one that came first; and while calls wait, no new
-- call is let in before them.
pub first_come :
    {cfg : Config} {w : World}
    → Reach cfg w
    → (v : ℕ) (vs : List ℕ) → w.limiter.waiting ≡ v ∷ vs
    → ((release w.limiter).0 ≡ some v)
      × ((release w.limiter).1.waiting ≡ vs)
      × All (λ u. v < u) vs
      × ((acquire cfg w.fresh w.limiter).0 ≢ granted)
unfolding release next acquire
first_come {cfg} {w} r v vs e =
    let (valid, order) = Reach-IsValid r in
    let i : Increasing (v ∷ vs) = rw e at order.increasing in
    let full = valid.busy (omega (arith, ap length e)) in
    (rw (e, next), rw (e, next), i.0, ground arith)
