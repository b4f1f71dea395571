-- ===== src/Worker/Scheduler.antt =====
-- The scheduler of the worker's jobs: `startScheduler` of apps/worker/src/scheduler.ts. A job is known by its place in
-- the list of jobs. Its run, its timer and `stop` are events.
pub mod Runs
mod Tests
use beefy_envio_balances_ind.Common.{
  ℕ, zero, suc, ◌+◌, Bool, true, false, List, [], ◌∷◌, ◌++◌, if◌then◌else◌, ◌==◌, ◌≡◌, ◌<◌,
}

pub record Scheduler : Type 0 where
  pub aborted : Bool
  pub timers : List ℕ
  pub running : List ℕ

-- the first of the items that is `job`, taken out: `delete` of a `Set`
unfoldable pub remove : ℕ → List ℕ → List ℕ
remove job [] = []
remove job (j ∷ jobs) = if j == job then jobs else j ∷ remove job jobs

-- how often a job stands in a list
unfoldable pub count : ℕ → List ℕ → ℕ
count job [] = 0
count job (j ∷ jobs) = (if j == job then 1 else 0) + count job jobs

-- `loop(job)`: the run starts, and counts as running
abbrev pub loop : ℕ → Scheduler → Scheduler
loop job s = record s { running = s.running ++ job ∷ [] }

-- `for (const job of jobs) loop(job)`, for the jobs from the place `from` on
unfoldable pub start_jobs : (jobs from : ℕ) → Scheduler → Scheduler
start_jobs zero from s = s
start_jobs (suc jobs) from s = start_jobs jobs (suc from) (loop from s)

abbrev pub start_scheduler : ℕ → Scheduler
start_scheduler jobs = start_jobs jobs 0 (record { aborted = false; timers = []; running = [] })

-- the `finally` of a run, whether it failed or not
unfoldable pub finished : ℕ → Scheduler → Scheduler
finished job s =
    let ended : Scheduler = record s { running = remove job s.running } in
    if s.aborted then ended else record ended { timers = s.timers ++ job ∷ [] }

-- the timer of a job
unfoldable pub fired : ℕ → Scheduler → Scheduler
fired job s = loop job (record s { timers = remove job s.timers })

-- `stop`, up to its wait for the jobs that run
abbrev pub stopped : Scheduler → Scheduler
stopped s = record s { aborted = true; timers = [] }

-- A run ends only while it runs, and a timer fires only while it is set.
pub data Step (s : Scheduler) : Scheduler → Type 0 where
  run_ends : (job : ℕ) → 0 < count job s.running → Step s (finished job s)
  timer_fires : (job : ℕ) → 0 < count job s.timers → Step s (fired job s)
  stops : Step s (stopped s)
