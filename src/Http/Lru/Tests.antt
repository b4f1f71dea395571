-- ===== src/Http/Lru/Tests.antt =====
-- Runs of the cache, and the theorems at concrete caches.
use native.Mathlib.Decide.{ℕ_discrete}
use beefy_envio_balances_ind.Common.{ℕ, ◌+◌, ◌-◌, ◌≡◌, refl, some, none, [], ◌∷◌, ◌++◌, arith}
use beefy_envio_balances_ind.Common.Dict.{lookup, delete, set as map_set}
use beefy_envio_balances_ind.Http.Lru.{
  Lifetimes, Lru, entry_at, drop, get, evict, set, empty, state_of, bytes_of, fresh, stale,
  error_only,
}
use beefy_envio_balances_ind.Http.Lru.Accounting.{IsValid, fit}
use beefy_envio_balances_ind.Http.Lru.Eviction.{set-fit, set-IsValid}
use beefy_envio_balances_ind.Http.Lru.Reads.{get-set, answer, lifetime_at}

program : Unit {0}
unfolding state_of drop get evict set lookup delete map_set ℕ_discrete
program = tt

abbrev life : Lifetimes
life = record { fresh_ms = 10; stale_ms = 20; error_ms = 30 }

-- two entries of 40 bytes in a cache of 100
abbrev two : Lru ℕ ℕ
two = record { entries = (1, entry_at 11 40 life 0) ∷ (2, entry_at 22 40 life 5) ∷ []; used = 80 }

two_lem : set ℕ_discrete 100 2 22 40 life 5 (set ℕ_discrete 100 1 11 40 life 0 empty) ≡ two
unfolding program
two_lem = refl

-- a third entry pushes the least recently used one out, which is 2 once 1 was read
third :
    (set ℕ_discrete 100 3 33 40 life 7 (get ℕ_discrete 1 6 two).1).entries
    ≡ (1, entry_at 11 40 life 0) ∷ (3, entry_at 33 40 life 7) ∷ []
unfolding program
third = refl

reads :
    ((get ℕ_discrete 1 9 two).0 ≡ some (record { value = 11; state = fresh }))
    × ((get ℕ_discrete 1 10 two).0 ≡ some (record { value = 11; state = stale }))
    × ((get ℕ_discrete 1 59 two).0 ≡ some (record { value = 11; state = error_only }))
    × ((get ℕ_discrete 1 60 two).0 ≡ none)
unfolding program
reads = (refl, refl, refl, refl)

two-IsValid : IsValid 100 two
two-IsValid = record {
  distinct = ((omega arith, tt), (tt, tt));
  counted = refl;
  bounded = omega arith;
}

set-fit_example : set ℕ_discrete 100 3 33 40 life 7 two ≡ (
    let kept = fit ℕ_discrete (100 - 40) (delete ℕ_discrete 3 two.entries) in
    record { entries = kept ++ (3, entry_at 33 40 life 7) ∷ []; used = bytes_of kept + 40 })
set-fit_example = set-fit ℕ_discrete 100 3 33 40 life 7 two two-IsValid (omega arith)

set-IsValid_example : IsValid 100 (set ℕ_discrete 100 3 33 40 life 7 two)
set-IsValid_example = set-IsValid ℕ_discrete 100 3 33 40 life 7 two two-IsValid

get-set_example :
    (get ℕ_discrete 3 (7 + 12) (set ℕ_discrete 100 3 33 40 life 7 two)).0
    ≡ answer 33 (lifetime_at life 12)
get-set_example = get-set ℕ_discrete 100 3 33 40 life 7 12 two two-IsValid (omega arith)
