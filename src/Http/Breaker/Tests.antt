-- ===== src/Http/Breaker/Tests.antt =====
-- Runs of the breaker, and the theorems at concrete states.
use beefy_envio_balances_ind.Common.{
  ℕ, ◌≡◌, refl, true, false, none, some, List, [], ◌∷◌, leb, arith, All,
}
use beefy_envio_balances_ind.Http.Breaker.{
  Config, Breaker, failure, ignored, closed, is_open, enter, settle, Event, call, ended, step, run,
}
use beefy_envio_balances_ind.Http.Breaker.History.{consecutive, is_open-run}
use beefy_envio_balances_ind.Http.Breaker.Probe.{enter_early, one_probe, second_probe}

abbrev cfg : Config
cfg = record { failure_threshold = 2; open_ms = 100 }

abbrev opened : Breaker
opened = record { failures = 2; opened_at = some 20; probing = false }

abbrev history : List (Event × ℕ)
history =
    (call, 1) ∷ (call, 2) ∷ (ended failure, 10) ∷ (ended ignored, 15) ∷ (ended failure, 20) ∷ []

opens : run cfg history closed ≡ opened
unfolding run step enter settle
opens = refl

is_open-run_example : is_open (run cfg history closed) ≡ leb 2 (consecutive 0 history)
is_open-run_example = is_open-run cfg history (omega arith)

enter_early_example : enter cfg 119 opened ≡ none
enter_early_example = enter_early cfg opened 20 119 refl (omega arith)

one_probe_example :
    (b' : Breaker) × (enter cfg 120 opened ≡ some b')
    × All (λ t. enter cfg t b' ≡ none) (120 ∷ 5000 ∷ [])
one_probe_example = one_probe cfg opened 20 120 (120 ∷ 5000 ∷ []) refl (omega arith) refl

second_probe_example :
    (enter cfg 150 (record opened { probing = true }) ≡ none)
    × (enter cfg 150 (settle cfg ignored 150 (record opened { probing = true }))
        ≡ some (record opened { probing = true }))
second_probe_example =
    second_probe cfg (record opened { probing = true }) 20 150 refl (omega arith) refl
