-- ===== src/Http/Limiter/Invariant.antt =====
-- Every state that calls, ends and timeouts can reach, in any order.
use beefy_envio_balances_ind.Common.{
  ℕ, ◌+◌, ◌-◌, ◌≡◌, ◌<◌, ◌≤◌, refl, ap, Bool-cases, inl, inr, false, none, some, List, [], ◌∷◌,
  ◌++◌, ◌==◌, length, arith, length-append,
}
use beefy_envio_balances_ind.Http.Limiter.{
  Config, Limiter, idle, index_of, remove_at, splice, clear, Answer, granted, refused, acquire,
  next, release, time_out,
}

-- The calls that run, by their numbers, beside the limiter; new numbers are counted up.
pub record World : Type 0 where
  pub limiter : Limiter
  pub running : List ℕ
  pub fresh : ℕ

abbrev pub started : World
started = record { limiter = idle; running = []; fresh = 0 }

-- A call with a new number comes.
unfoldable pub call : Config → World → World
call cfg w =
    let (answer, l) = acquire cfg w.fresh w.limiter in
    record {
      limiter = l;
      running = elim answer [ granted ↦ w.running ++ w.fresh ∷ [] | _ ↦ w.running ];
      fresh = w.fresh + 1;
    }

-- A call that runs ends; the waiter that starts then runs.
unfoldable pub finish : ℕ → World → World
finish c w =
    let (waiter, l) = release w.limiter in
    record {
      limiter = l;
      running = elim waiter [ none ↦ clear c w.running | some v ↦ clear c w.running ++ v ∷ [] ];
      fresh = w.fresh;
    }

pub data Has (c : ℕ) : List ℕ → Type 0 where
  here : (cs : List ℕ) → Has c (c ∷ cs)
  there : {d : ℕ} {cs : List ℕ} → Has c cs → Has c (d ∷ cs)

-- A call ends only while it runs, and a timer fires only while it is pending.
pub data Step (cfg : Config) : World → World → Type 0 where
  calls : (w : World) → Step cfg w (call cfg w)
  ends : (w : World) (c : ℕ) → Has c w.running → Step cfg w (finish c w)
  fires :
      (w : World) (v : ℕ)
      → Has v w.limiter.timers
      → Step cfg w (record w { limiter = time_out v w.limiter })

pub data Reach (cfg : Config) : World → Type 0 where
  start : Reach cfg started
  after : {w w' : World} → Reach cfg w → Step cfg w w' → Reach cfg w'

pub record IsValid (cfg : Config) (w : World) : Type 0 where
  pub counted : w.limiter.active ≡ length w.running
  pub in_flight : w.limiter.active ≤ cfg.max_in_flight
  pub queue : length w.limiter.waiting ≤ cfg.max_queue
  pub timed : w.limiter.timers ≡ w.limiter.waiting
  pub busy : 0 < length w.limiter.waiting → w.limiter.active ≡ cfg.max_in_flight

length-clear : (c : ℕ) (cs : List ℕ) → Has c cs → length cs ≡ length (clear c cs) + 1
unfolding clear
length-clear c cs (here ds) = ground arith
length-clear c cs (there {d} {cs = ds} h) = ground (arith, length-clear c ds h)

Has-pos : (c : ℕ) (cs : List ℕ) → Has c cs → 0 < length cs
Has-pos c cs h = omega (arith, length-clear c cs h)

remove_at-suc : (i d : ℕ) (ds : List ℕ) → remove_at (i + 1) (d ∷ ds) ≡ d ∷ remove_at i ds
unfolding remove_at
remove_at-suc i d ds =
    let positive : (i + 1 == 0) ≡ false = ground arith in
    let back : i + 1 - 1 ≡ i = omega arith in rw (positive, back)

found :
    (v : ℕ) (vs : List ℕ)
    → Has v vs
    → (i : ℕ) × (index_of v vs ≡ some i) × (remove_at i vs ≡ clear v vs)
unfolding index_of clear
found v vs (here ds) = (0, ground arith, unfold remove_at in ground arith)
found v vs (there {d} {cs = ds} h) =
    let (i, at_i, same) = found v ds h in
    elim (Bool-cases (d == v)) [
      | inl first ↦ (0, rw first, rw first (unfold remove_at in refl))
      | inr later ↦ (i + 1, rw (later, at_i), rw (remove_at-suc i d ds, later, same))
    ]

-- A pending timer's waiter is found, so that `splice` removes just that waiter.
pub splice-clear : (v : ℕ) (vs : List ℕ) → Has v vs → splice (index_of v vs) vs ≡ clear v vs
unfolding splice
splice-clear v vs h = let (i, at_i, same) = found v vs h in rw (at_i, splice) same

call-IsValid : (cfg : Config) (w : World) → IsValid cfg w → IsValid cfg (call cfg w)
unfolding call acquire
call-IsValid cfg w v = record {
  counted = ground (arith, length-append w.running (w.fresh ∷ []));
  in_flight = ground arith;
  queue = ground (arith, length-append w.limiter.waiting (w.fresh ∷ []));
  timed = ground arith;
  busy = ground (arith, length-append w.limiter.waiting (w.fresh ∷ []));
}

clear-head : (v : ℕ) (vs : List ℕ) → clear v (v ∷ vs) ≡ vs
unfolding clear
clear-head v vs = ground arith

finish-IsValid :
    (cfg : Config) (w : World) (c : ℕ) → IsValid cfg w → Has c w.running → IsValid cfg (finish c w)
unfolding finish release next
finish-IsValid cfg w c v h = go w.limiter.waiting refl
  where
    go : (ws : List ℕ) → w.limiter.waiting ≡ ws → IsValid cfg (finish c w)
    go [] e =
        rw (e, finish, release, next)
          (record {
            counted = omega (arith, length-clear c w.running h);
            in_flight = omega arith;
            queue = omega arith;
            timed = v.timed;
            busy = λ p. absurd (omega (arith, ap length e));
          })
    go (u ∷ us) e =
        let positive = Has-pos c w.running h in
        let full = v.busy (omega (arith, ap length e)) in
        rw (e, finish, release, next)
          (record {
            counted =
                omega
                  (arith, length-clear c w.running h, length-append (clear c w.running) (u ∷ []));
            in_flight = omega arith;
            queue = omega (arith, ap length e, v.queue);
            timed = rw (v.timed, e) (clear-head u us);
            busy = λ _. omega arith;
          })

pub Step-IsValid : {cfg : Config} {w w' : World} → Step cfg w w' → IsValid cfg w → IsValid cfg w'
unfolding time_out
Step-IsValid {cfg} (calls w) v = call-IsValid cfg w v
Step-IsValid {cfg} (ends w c h) v = finish-IsValid cfg w c v h
Step-IsValid {cfg} (fires w u h) v =
    let waits : Has u w.limiter.waiting = rw v.timed at h in
    record {
      counted = v.counted;
      in_flight = v.in_flight;
      queue =
          rw (splice-clear u w.limiter.waiting waits)
            (omega (arith, length-clear u w.limiter.waiting waits, v.queue));
      timed = rw (splice-clear u w.limiter.waiting waits, v.timed);
      busy = λ _. v.busy (Has-pos u w.limiter.waiting waits);
    }

-- the calls that run or wait
abbrev pub pending : World → ℕ
pending w = length w.running + length w.limiter.waiting

-- a call that is refused does neither
abbrev pub taken_in : Answer → ℕ
taken_in refused = 0
taken_in _ = 1

pub pending-call :
    (cfg : Config) (w : World)
    → pending (call cfg w) ≡ pending w + taken_in (acquire cfg w.fresh w.limiter).0
unfolding call acquire
pending-call cfg w =
    ground (
      arith,
      length-append w.running (w.fresh ∷ []),
      length-append w.limiter.waiting (w.fresh ∷ []),
    )

pub pending-finish : (w : World) (c : ℕ) → Has c w.running → pending (finish c w) + 1 ≡ pending w
unfolding finish release next
pending-finish w c h = go w.limiter.waiting refl
  where
    go : (ws : List ℕ) → w.limiter.waiting ≡ ws → pending (finish c w) + 1 ≡ pending w
    go [] e = rw (e, finish, release, next) (omega (arith, ap length e, length-clear c w.running h))
    go (u ∷ us) e =
        rw (e, finish, release, next)
          (omega (
            arith,
            ap length e,
            length-clear c w.running h,
            length-append (clear c w.running) (u ∷ []),
          ))

pub pending-time_out :
    {cfg : Config} (w : World) (v : ℕ)
    → IsValid cfg w
    → Has v w.limiter.timers
    → length w.running + length (time_out v w.limiter).waiting + 1 ≡ pending w
unfolding time_out
pending-time_out w v valid h =
    let waits : Has v w.limiter.waiting = rw valid.timed at h in
    rw (splice-clear v w.limiter.waiting waits)
      (omega (arith, length-clear v w.limiter.waiting waits))
