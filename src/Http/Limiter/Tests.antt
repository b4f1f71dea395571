-- ===== src/Http/Limiter/Tests.antt =====
-- A run of the limiter, and the theorems at the state it reaches.
use beefy_envio_balances_ind.Common.{◌≡◌, ◌≢◌, ◌<◌, refl, some, [], ◌∷◌, All}
use beefy_envio_balances_ind.Http.Limiter.{
  Config, clear, granted, acquire, next, release, time_out, index_of, splice, remove_at,
}
use beefy_envio_balances_ind.Http.Limiter.Invariant.{
  World, started, call, finish, calls, Reach, start, after, IsValid,
}
use beefy_envio_balances_ind.Http.Limiter.Fairness.{InOrder, Reach-IsValid, first_come}

program : Unit {0}
unfolding call finish acquire next release time_out index_of splice remove_at clear
program = tt

-- one place and a queue of two
abbrev cfg : Config
cfg = record { max_in_flight = 1; max_queue = 2 }

-- four calls: one runs, two wait, one is refused
abbrev busy : World
busy = call cfg (call cfg (call cfg (call cfg started)))

busy_lem : busy ≡ record {
  limiter = record { active = 1; waiting = 1 ∷ 2 ∷ []; timers = 1 ∷ 2 ∷ [] };
  running = 0 ∷ [];
  fresh = 4;
}
unfolding program
busy_lem = refl

-- the first waiter gives up, and the second starts when the call ends
served : finish 0 (record busy { limiter = time_out 1 busy.limiter }) ≡ record {
  limiter = record { active = 1; waiting = []; timers = [] };
  running = 2 ∷ [];
  fresh = 4;
}
unfolding program
served = refl

reached : Reach cfg busy
reached = after (after (after (after start (calls _)) (calls _)) (calls _)) (calls _)

Reach-IsValid_example : IsValid cfg busy × InOrder busy
Reach-IsValid_example = Reach-IsValid reached

first_come_example :
    ((release busy.limiter).0 ≡ some 1)
    × ((release busy.limiter).1.waiting ≡ 2 ∷ [])
    × All (λ u. 1 < u) (2 ∷ [])
    × ((acquire cfg busy.fresh busy.limiter).0 ≢ granted)
unfolding program
first_come_example = first_come reached 1 (2 ∷ []) refl
