-- ===== src/Worker/Scheduler/Runs.antt =====
-- No job overlaps itself, no job is forgotten, and a stopped scheduler comes to its end.
use mathlib.Core.Bool.{false≢true}
use beefy_envio_balances_ind.Common.{
  ℕ, zero, suc, ◌+◌, ◌≤◌, ◌<◌, ◌≡◌, ◌⊎◌, refl, true, false, List, [], ◌∷◌, ◌++◌, if◌then◌else◌,
  ◌==◌, Bool-cases, inl, inr, length, arith, ==_iff, ap, sym, ltb, ◌∙◌,
}
use beefy_envio_balances_ind.Worker.Scheduler.{
  Scheduler, loop, remove, count, start_jobs, start_scheduler, finished, fired, stopped, Step,
  run_ends, timer_fires, stops,
}

-- What the scheduler of so many jobs comes to, by any events in any order
pub data Reached (jobs : ℕ) : Scheduler → Type 0 where
  at_start : Reached jobs (start_scheduler jobs)
  after : (s t : Scheduler) → Reached jobs s → Step s t → Reached jobs t

-- Events but for another `stop`, and how many
pub data Drained (s : Scheduler) : ℕ → Scheduler → Type 0 where
  here : Drained s 0 s
  run_ended :
      (n job : ℕ) (t : Scheduler)
      → Drained s n t
      → 0 < count job t.running
      → Drained s (suc n) (finished job t)
  timer_fired :
      (n job : ℕ) (t : Scheduler)
      → Drained s n t
      → 0 < count job t.timers
      → Drained s (suc n) (fired job t)

one : ℕ → ℕ → ℕ
one j job = if j == job then 1 else 0

count-append : (job : ℕ) (xs ys : List ℕ) → count job (xs ++ ys) ≡ count job xs + count job ys
unfolding count
count-append job [] ys = omega arith
count-append job (x ∷ xs) ys = omega (arith, count-append job xs ys)

count-remove :
    (job k : ℕ) (xs : List ℕ) → 0 < count job xs → count k (remove job xs) + one job k ≡ count k xs
unfolding count remove one
count-remove job k [] h = omega arith
count-remove job k (x ∷ xs) h = elim (Bool-cases (x == job)) [
  | inl e ↦ let same : x ≡ job = (==_iff x job).0 e in rw (e, remove, same) (omega arith)
  | inr e ↦
      let rest : 0 < 0 + count job xs = rw e at h in
      let later : 0 < count job xs = omega (arith, rest) in
      rw (e, remove) (omega (arith, count-remove job k xs later))
]

length-remove : (job : ℕ) (xs : List ℕ) → 0 < count job xs → length (remove job xs) + 1 ≡ length xs
unfolding count remove
length-remove job [] h = omega arith
length-remove job (x ∷ xs) h = elim (Bool-cases (x == job)) [
  | inl e ↦ rw (e, remove) (omega arith)
  | inr e ↦
      let rest : 0 < 0 + count job xs = rw e at h in
      let later : 0 < count job xs = omega (arith, rest) in
      rw (e, remove) (omega (arith, length-remove job xs later))
]

-- 1 for a place in the list of jobs
abbrev due : ℕ → ℕ → ℕ
due jobs k = if ltb k jobs then 1 else 0

due-suc : (n k : ℕ) → due (suc n) k ≡ due n k + one n k
unfolding one
due-suc n k = ground arith

count-snoc : (j k : ℕ) (xs : List ℕ) → count k (xs ++ j ∷ []) ≡ count k xs + one j k
unfolding count one
count-snoc j k xs = omega (arith, count-append k xs (j ∷ []))

count-start_jobs :
    (n from k : ℕ) (s : Scheduler)
    → count k (start_jobs n from s).running + due from k ≡ count k s.running + due (from + n) k
unfolding start_jobs
count-start_jobs zero from k s =
    ap (λ m. count k s.running + due m k) (let e : from ≡ from + 0 = omega arith in e)
count-start_jobs (suc n) from k s =
    let ih = count-start_jobs n (suc from) k (loop from s) in
    let place : suc from + n ≡ from + suc n = omega arith in
    let later : due (suc from + n) k ≡ due (from + suc n) k = ap (λ m. due m k) place in
    omega (arith, ih, due-suc from k, count-snoc from k s.running, later)

start_jobs-timers : (n from : ℕ) (s : Scheduler) → (start_jobs n from s).timers ≡ s.timers
unfolding start_jobs
start_jobs-timers zero from s = refl
start_jobs-timers (suc n) from s = start_jobs-timers n (suc from) (loop from s)

start_jobs-aborted : (n from : ℕ) (s : Scheduler) → (start_jobs n from s).aborted ≡ s.aborted
unfolding start_jobs
start_jobs-aborted zero from s = refl
start_jobs-aborted (suc n) from s = start_jobs-aborted n (suc from) (loop from s)

-- Until `stop`, each job runs or has its timer, once; after it, no timer is set.
record IsAlive (jobs : ℕ) (s : Scheduler) : Type 0 where
  once : s.aborted ≡ false → (k : ℕ) → count k s.running + count k s.timers ≡ due jobs k
  at_most : (k : ℕ) → count k s.running + count k s.timers ≤ due jobs k
  quiet : s.aborted ≡ true → s.timers ≡ []

no_timer : (job : ℕ) (timers : List ℕ) → timers ≡ [] → count job timers ≡ 0
unfolding count
no_timer job timers e = rw e refl

finished-IsAlive :
    (jobs job : ℕ) (s : Scheduler)
    → 0 < count job s.running
    → IsAlive jobs s
    → IsAlive jobs (finished job s)
unfolding finished
finished-IsAlive jobs job s p h = elim (Bool-cases s.aborted) [
  | inl a ↦
      rw (a, finished)
        (record {
          once = λ e. absurd (false≢true (sym e));
          at_most = λ k. omega (arith, h.at_most k, count-remove job k s.running p);
          quiet = λ e. h.quiet a;
        })
  | inr a ↦
      let moved = λ (k : ℕ).
        (let x : count k (remove job s.running) + count k (s.timers ++ job ∷ [])
              ≡ count k s.running + count k s.timers =
            omega (arith, count-remove job k s.running p, count-snoc job k s.timers) in
          x) in
      rw (a, finished)
        (record {
          once = λ e k. moved k ∙ h.once a k;
          at_most = λ k. omega (arith, moved k, h.at_most k);
          quiet = λ e. absurd (false≢true e);
        })
]

fired-IsAlive :
    (jobs job : ℕ) (s : Scheduler)
    → 0 < count job s.timers
    → IsAlive jobs s
    → IsAlive jobs (fired job s)
unfolding fired
fired-IsAlive jobs job s p h =
    let moved = λ (k : ℕ).
      (let x : count k (s.running ++ job ∷ []) + count k (remove job s.timers)
            ≡ count k s.running + count k s.timers =
          omega (arith, count-remove job k s.timers p, count-snoc job k s.running) in
        x) in
    record {
      once = λ e k. moved k ∙ h.once e k;
      at_most = λ k. omega (arith, moved k, h.at_most k);
      quiet = λ e.
          absurd (let none_set = no_timer job s.timers (h.quiet e) in omega (arith, p, none_set));
    }

Step-IsAlive : (jobs : ℕ) (s t : Scheduler) → Step s t → IsAlive jobs s → IsAlive jobs t
unfolding count
Step-IsAlive jobs s _ (run_ends job p) h = finished-IsAlive jobs job s p h
Step-IsAlive jobs s _ (timer_fires job p) h = fired-IsAlive jobs job s p h
Step-IsAlive jobs s _ stops h = record {
  once = λ e. absurd (false≢true (sym e));
  at_most = λ k. omega (arith, h.at_most k);
  quiet = λ e. refl;
}

Reached-IsAlive : (jobs : ℕ) (s : Scheduler) → Reached jobs s → IsAlive jobs s
unfolding count
Reached-IsAlive jobs _ at_start =
    let empty : Scheduler = record { aborted = false; timers = []; running = [] } in
    let timers = start_jobs-timers jobs 0 empty in
    let from_zero = λ (k : ℕ). ap (λ m. due m k) (let e : 0 + jobs ≡ jobs = omega arith in e) in
    let none_before = λ (k : ℕ). (let e : due 0 k ≡ 0 = ground arith in e) in
    let all = λ (k : ℕ).
      (let x : count k (start_scheduler jobs).running + count k (start_scheduler jobs).timers
            ≡ due jobs k =
          omega (
            arith,
            count-start_jobs jobs 0 k empty,
            from_zero k,
            none_before k,
            no_timer k (start_scheduler jobs).timers timers,
          ) in
        x) in
    record { once = λ e k. all k; at_most = λ k. omega (arith, all k); quiet = λ e. timers }
Reached-IsAlive jobs t (after s _ r step) = Step-IsAlive jobs s t step (Reached-IsAlive jobs s r)

-- Whatever runs end, timers fire and stops come, in any order: no job ever runs twice at a time; until
-- `stop`, each job runs or waits for its timer, and not both; after it, no timer is set.
pub Reached-once :
    (jobs : ℕ) (s : Scheduler) (job : ℕ)
    → Reached jobs s
    → job < jobs
    → (count job s.running ≤ 1)
      × (((s.aborted ≡ false) × (count job s.running + count job s.timers ≡ 1))
          ⊎ ((s.aborted ≡ true) × (s.timers ≡ [])))
Reached-once jobs s job r l =
    let h = Reached-IsAlive jobs s r in
    let one_job : due jobs job ≡ 1 = ground arith in
    (
      omega (arith, h.at_most job, one_job),
      elim (Bool-cases s.aborted) [
        | inl a ↦ inr (a, h.quiet a)
        | inr a ↦ inl (a, h.once a job ∙ one_job)
      ],
    )

-- After `stop`, no run starts any more, and every event is the end of a run: the scheduler comes to
-- its end after as many events as runs were going on.
pub Drained-running :
    (s t : Scheduler) (n : ℕ)
    → Drained (stopped s) n t
    → (n + length t.running ≡ length s.running) × (t.timers ≡ []) × (t.aborted ≡ true)
unfolding finished
Drained-running s _ _ here = (omega arith, refl, refl)
Drained-running s _ _ (run_ended n job t d p) =
    let (ran, quiet, aborted) = Drained-running s t n d in
    rw (aborted, finished) (omega (arith, ran, length-remove job t.running p), quiet, refl)
Drained-running s _ _ (timer_fired n job t d p) =
    let (ran, quiet, aborted) = Drained-running s t n d in
    absurd (let none_set = no_timer job t.timers quiet in omega (arith, p, none_set))
