-- ===== src/Worker/Scheduler/Tests.antt =====
-- Two jobs: the first ends and runs again, and then the worker stops.
use beefy_envio_balances_ind.Common.{◌+◌, ◌≤◌, ◌≡◌, ◌⊎◌, true, false, [], arith, length}
use beefy_envio_balances_ind.Worker.Scheduler.{
  Scheduler, count, remove, start_jobs, start_scheduler, finished, fired, stopped, run_ends,
  timer_fires,
}
use beefy_envio_balances_ind.Worker.Scheduler.Runs.{
  at_start, after, here, run_ended, Reached-once, Drained-running,
}

abbrev first_ended : Scheduler
first_ended = finished 0 (start_scheduler 2)

abbrev again : Scheduler
again = fired 0 first_ended

abbrev last_ended : Scheduler
last_ended = finished 1 (stopped again)

Reached-once_example :
    (count 0 again.running ≤ 1)
    × (((again.aborted ≡ false) × (count 0 again.running + count 0 again.timers ≡ 1))
        ⊎ ((again.aborted ≡ true) × (again.timers ≡ [])))
unfolding count start_jobs finished remove
Reached-once_example =
    Reached-once 2 again 0
      (after first_ended again
        (after (start_scheduler 2) first_ended at_start (run_ends 0 (omega arith)))
        (timer_fires 0 (omega arith)))
      (omega arith)

Drained-running_example :
    (1 + length last_ended.running ≡ length again.running)
    × (last_ended.timers ≡ [])
    × (last_ended.aborted ≡ true)
unfolding count start_jobs finished fired remove
Drained-running_example =
    Drained-running again last_ended 1 (run_ended 0 1 (stopped again) here (omega arith))
