-- ===== src/Timelines/Service/Components.antt =====
-- Every state of the service that calls, queries and timeouts lead to, in any order: the parts that it is made of keep
-- their bounds.
use beefy_envio_balances_ind.Common.{ℕ, ◌≤◌, ◌≡◌, ◌≢◌, none, some, Text}
use beefy_envio_balances_ind.Common.Dict.{size, lookup, Distinct}
use beefy_envio_balances_ind.Http.Lru
use beefy_envio_balances_ind.Http.Lru.Accounting
use beefy_envio_balances_ind.Http.RateLimit
use beefy_envio_balances_ind.Http.RateLimit.{RateLimitResult, allowed, denied}
use beefy_envio_balances_ind.Http.Breaker
use beefy_envio_balances_ind.Http.Limiter.Invariant
use beefy_envio_balances_ind.Http.Limiter.Invariant.{Has, Reach}
use beefy_envio_balances_ind.Timelines.Service.Builds.{builds}
use beefy_envio_balances_ind.Timelines.Service.{
  Key, Key-discrete, Flight, QueryResult, Options, Service, new_service, too_large_max_entries,
  begin, query_ended, wait_ended, refusal_ended,
}

-- One event. A query ends only while it runs, and a timeout fires only while it is pending.
pub data Step (o : Options) (s : Service) : Service → Type 0 where
  asked : (now : ℕ) (key : Key) (client : Text) → Step o s (begin o now key client s).1
  query_done :
      (jitter : ℕ → ℕ) (now : ℕ) (key : Key) (flight : Flight) (result : QueryResult)
      → lookup Key-discrete key s.flights ≡ some flight
      → flight.refusal ≡ none
      → Has flight.id s.world.running
      → Step o s (query_ended o jitter now key flight result s)
  wait_done :
      (now : ℕ) (key : Key) (flight : Flight)
      → lookup Key-discrete key s.flights ≡ some flight
      → flight.refusal ≡ none
      → Has flight.id s.world.limiter.timers
      → Step o s (wait_ended now key flight s)
  refusal_done :
      (key : Key) (flight : Flight)
      → lookup Key-discrete key s.flights ≡ some flight
      → flight.refusal ≢ none
      → Step o s (refusal_ended key s)

pub data Served (o : Options) : Service → Type 0 where
  opened : Served o new_service
  then_step : (s t : Service) → Served o s → Step o s t → Served o t

record IsSound (o : Options) (s : Service) : Type 0 where
  cached : Accounting.IsValid o.cache_bytes s.cache
  reached : Reach o.limiter s.world
  remembered : size s.too_large ≤ too_large_max_entries
  distinct : Distinct s.flights
  matched : Invariant.pending s.world ≡ builds s.flights
