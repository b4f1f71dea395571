-- ===== src/Timelines/Service/TooLarge.antt =====
-- An account that is too large is remembered.
use beefy_envio_balances_ind.Common.{ℕ, ◌≡◌, Option, some, List, [], ◌∷◌, Text}
use beefy_envio_balances_ind.Common.Dict.{lookup}
use beefy_envio_balances_ind.Http.Lru
use beefy_envio_balances_ind.Http.RateLimit
use beefy_envio_balances_ind.Http.RateLimit.{allowed, denied}
use beefy_envio_balances_ind.Http.Breaker
use beefy_envio_balances_ind.Timelines.Service.{
  Key, Key-discrete, too_large, Options, Service, begin,
}

module _ (o : Options) where
  -- what a service remembers of a key until some time
  abbrev Remembers : Key → ℕ → Service → Type 0
  Remembers key until s = lookup Key-discrete key s.too_large ≡ some until

  -- calls, each at its time, for a key, of a client
  abbrev pub after_calls : List (ℕ × Key × Text) → Service → Service
  after_calls [] s = s
  after_calls ((now, key, client) ∷ calls) s = after_calls calls (begin o now key client s).1
