-- ===== src/Http/Breaker/Probe.antt =====
-- The half-open breaker: refusals while it is open, the probe, and what ends it.
use beefy_envio_balances_ind.Common.{
  ℕ, ◌+◌, ◌≡◌, ◌<◌, ◌≤◌, ◌≢◌, true, false, none, some, List, [], ◌∷◌, ltb, if◌then◌else◌, arith,
  All,
}
use beefy_envio_balances_ind.Http.Breaker.{
  Config, Breaker, success, failure, ignored, enter, settle,
}

-- An open breaker refuses every call until `openMs` after it opened, probe or not.
pub enter_early :
    (cfg : Config) (b : Breaker) (opened now : ℕ)
    → b.opened_at ≡ some opened
    → now < opened + cfg.open_ms
    → enter cfg now b ≡ none
unfolding enter
enter_early cfg b opened now h early = ground arith

-- After that, an open breaker without a probe lets one call in, and then refuses every call at any
-- time until a call ends.
pub one_probe :
    (cfg : Config) (b : Breaker) (opened now : ℕ) (later : List ℕ)
    → b.opened_at ≡ some opened
    → opened + cfg.open_ms ≤ now
    → b.probing ≡ false
    → (b' : Breaker) × (enter cfg now b ≡ some b') × All (λ t. enter cfg t b' ≡ none) later
unfolding enter
one_probe cfg b opened now later h due idle =
    (record b { probing = true }, ground arith, refuses later)
  where
    refuses : (ts : List ℕ) → All (λ t. enter cfg t (record b { probing = true }) ≡ none) ts
    refuses [] = tt
    refuses (t ∷ ts) = (ground arith, refuses ts)

-- What the probe's end decides: a success closes the breaker, so that the next call gets in; a
-- failure holds it open for another `openMs` and lets one probe in after that; any other error lets the next call probe at once.
pub probe_end :
    (cfg : Config) (b : Breaker) (opened now later : ℕ)
    → b.opened_at ≡ some opened
    → opened + cfg.open_ms ≤ now
    → now ≤ later
    → (enter cfg later (settle cfg success now b) ≢ none)
      × (enter cfg later (settle cfg failure now b) ≡ (
          if ltb later (now + cfg.open_ms)
          then none
          else some (record { failures = b.failures + 1; opened_at = some now; probing = true })))
      × (enter cfg later (settle cfg ignored now b) ≢ none)
unfolding enter settle
probe_end cfg b opened now later h due order = (ground arith, ground arith, ground arith)

-- `probing` belongs to no call: while the probe runs, the end of any other call, let in before the
-- breaker opened, with an error that is not a failure, lets a second probe in beside the first.
pub second_probe :
    (cfg : Config) (b : Breaker) (opened now : ℕ)
    → b.opened_at ≡ some opened
    → opened + cfg.open_ms ≤ now
    → b.probing ≡ true
    → (enter cfg now b ≡ none) × (enter cfg now (settle cfg ignored now b) ≡ some b)
unfolding enter settle
second_probe cfg b opened now h due probing = (ground arith, ground arith)
