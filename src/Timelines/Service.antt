-- ===== src/Timelines/Service.antt =====
-- The service that answers timelines, apps/api/src/timeline/service.ts (`createTimelineService`), over the cache, the
-- budgets, the breaker and the limiter of Http, and http/singleFlight.ts. A call of `get` is cut at its one wait, for
-- the flight of its key: `begin` is what happens before it, `reply_of` after it. A build is cut at its wait for the
-- database; a build that is refused a place or the breaker fails at once, and is dropped when its flight ends.
pub mod OldCopy
pub mod Builds
pub mod Cases
pub mod Components
pub mod InFlight
pub mod TooLarge
mod Tests
use beefy_envio_balances_ind.Common.{
  ℕ, ◌+◌, ◌*◌, ◌⊎◌, inl, inr, Bool, true, false, Option, none, some, List, [], ◌∷◌, if◌then◌else◌,
  ltb, leb, length, Text, Text-discrete, pair_discrete,
}
use native.Mathlib.Decide.{ℕ_discrete}
use beefy_envio_balances_ind.Common.Dict.{size, lookup, set, delete}
use beefy_envio_balances_ind.Http.Lru
use beefy_envio_balances_ind.Http.Lru.{fresh, error_only}
use beefy_envio_balances_ind.Common.Int.{ℤ}
use beefy_envio_balances_ind.Http.RateLimit
use beefy_envio_balances_ind.Http.RateLimit.Doubles.{doubles}
use beefy_envio_balances_ind.Http.RateLimit.{allowed, denied}
use beefy_envio_balances_ind.Http.Breaker
use beefy_envio_balances_ind.Http.Breaker.{success, failure, ignored}
use beefy_envio_balances_ind.Http.Limiter
use beefy_envio_balances_ind.Http.Limiter.{granted, refused, queued}
use beefy_envio_balances_ind.Http.Limiter.Invariant
use beefy_envio_balances_ind.Timelines.Rows.{PricedRow, Platform, TimelineItem}
use beefy_envio_balances_ind.Timelines.Build.{build_timeline}

-- `keyOf`: the active version, 0 while it is unknown, and the address
abbrev pub Key : Type 0
Key = ℕ × Text

unfoldable pub Key-discrete : Discrete Key
unfolding pair_discrete ℕ_discrete Text-discrete
Key-discrete = pair_discrete ℕ_discrete Text-discrete

pub data Freshness : Type 0 where
  active idle empty_timeline : Freshness

pub record Body : Type 0 where
  pub body : Text
  pub gzip : Text
  pub etag : Text

-- `cacheControl` is a function of the freshness.
pub record Response : Type 0 where
  pub content : Body
  pub freshness : Freshness
  pub items : ℕ

pub data CacheLabel : Type 0 where
  hit miss stale error_stale : CacheLabel

pub data Failure : Type 0 where
  too_large overloaded breaker_open database_failed : Failure
  miss_limited : (retry_after_seconds : Option ℕ) → Failure

-- what a call of `get` resolves or throws
pub data Reply : Type 0 where
  answered : Response → CacheLabel → Reply
  failed : Failure → Reply

-- how a query ends
pub data QueryResult : Type 0 where
  rows_read : List PricedRow → QueryResult
  rows_too_many : QueryResult
  query_failed : QueryResult

-- A running build: the number of its call of the limiter, and why it fails, if it was refused.
pub record Flight : Type 0 where
  pub id : ℕ
  pub refusal : Option Failure

pub record Options : Type 0 where
  pub cache_bytes : ℕ
  pub misses : RateLimit.Config
  pub client_misses : RateLimit.Config
  pub limiter : Limiter.Config
  pub platform : Platform
  -- JSON, gzip and the hash of the items
  pub render : ℕ → Text → List TimelineItem → Body

pub record Service : Type 0 where
  pub cache : Lru.Lru Key Response
  pub flights : List (Key × Flight)
  pub misses : List (Text × RateLimit.Bucket ℤ)
  pub client_misses : List (Text × RateLimit.Bucket ℤ)
  pub world : Invariant.World
  pub breaker : Breaker.Breaker
  pub too_large : List (Key × ℕ)

-- no version is 0
abbrev pub key_of : Option ℕ → Text → Key
key_of none address = (0, address)
key_of (some version) address = (version, address)

abbrev pub new_service : Service
new_service = record {
  cache = Lru.empty;
  flights = [];
  misses = [];
  client_misses = [];
  world = Invariant.started;
  breaker = Breaker.closed;
  too_large = [];
}

abbrev pub breaker_config : Breaker.Config
breaker_config = record { failure_threshold = 5; open_ms = 10000 }

abbrev pub too_large_ms : ℕ
too_large_ms = 5 * 60000

abbrev pub too_large_max_entries : ℕ
too_large_max_entries = 10000

abbrev pub active_window_ms : ℕ
active_window_ms = 2 * 3600 * 1000

-- "all", the one key of `misses`
abbrev pub all_misses : Text
all_misses = 97 ∷ 108 ∷ 108 ∷ []

-- the places of the limiter as they are for the next call
abbrev pub acquired : Options → Service → Limiter.Answer
acquired o s = (Limiter.acquire o.limiter s.world.fresh s.world.limiter).0

-- `flight.run(key, () => build(key, address))`, up to the query; of an `OverloadedError` the breaker hears at once
unfoldable pub refresh : Options → ℕ → Key → Service → Service
refresh o now key s =
    let flight = λ (refusal : Option Failure).
      (let f : Flight = record { id = s.world.fresh; refusal = refusal } in f) in
    elim (lookup Key-discrete key s.flights) [
      | some _ ↦ s
      | none ↦ elim (Breaker.enter breaker_config now s.breaker) [
        | none ↦ record s { flights = set Key-discrete key (flight (some breaker_open)) s.flights }
        | some b ↦ elim (acquired o s) [
          | refused ↦ record s {
            breaker = Breaker.settle breaker_config ignored now b;
            world = Invariant.call o.limiter s.world;
            flights = set Key-discrete key (flight (some overloaded)) s.flights;
          }
          | _ ↦ record s {
            breaker = b;
            world = Invariant.call o.limiter s.world;
            flights = set Key-discrete key (flight none) s.flights;
          }
        ]
      ]
    ]

-- an old copy beats an error
abbrev pub or_old : Option Response → Failure → Reply
or_old none error = failed error
or_old (some old) error = answered old error_stale

-- what a call of `get` comes to before its wait
pub data Begun : Type 0 where
  replied : Reply → Begun
  awaits : Option Response → Begun

-- the budgets of a miss whose key is not in flight: the client's, then everyone's
unfoldable pub spend_budgets : Options → ℕ → Text → Service → Option Failure × Service
spend_budgets o now client s =
    let (own, client_misses) =
      RateLimit.take doubles Text-discrete o.client_misses client now s.client_misses in
    let spent : Service = record s { client_misses = client_misses } in
    elim own [
      | denied wait ↦ (some (miss_limited wait), spent)
      | allowed ↦
          let (shared, misses) =
            RateLimit.take doubles Text-discrete o.misses all_misses now s.misses in
          let paid : Service = record spent { misses = misses } in
          elim shared [ denied wait ↦ (some (miss_limited wait), paid) | allowed ↦ (none, paid) ]
    ]

-- the query that a miss waits for: one that runs already, or a new one
unfoldable pub miss_begun : Options → ℕ → Key → Text → Option Response → Service → Begun × Service
miss_begun o now key client old s = elim (lookup Key-discrete key s.flights) [
  | some _ ↦ (awaits old, s)
  | none ↦
      let (refusal, paid) = spend_budgets o now client s in
      elim refusal [
        | some error ↦ (replied (or_old old error), paid)
        | none ↦ (awaits old, refresh o now key paid)
      ]
]

-- `get`, past the accounts that are remembered as too large
unfoldable pub look_up : Options → ℕ → Key → Text → Service → Begun × Service
look_up o now key client s =
    let (found, cache) = Lru.get Key-discrete key now s.cache in
    let read : Service = record s { cache = cache } in
    elim found [
      | none ↦ miss_begun o now key client none read
      | some h ↦ elim h.state [
        | fresh ↦ (replied (answered h.value hit), read)
        | Lru.stale ↦ (replied (answered h.value stale), refresh o now key read)
        | error_only ↦ miss_begun o now key client (some h.value) read
      ]
    ]

unfoldable pub begin : Options → ℕ → Key → Text → Service → Begun × Service
begin o now key client s = elim (lookup Key-discrete key s.too_large) [
  | none ↦ look_up o now key client s
  | some until ↦
      if ltb now until
      then (replied (failed too_large), s)
      else look_up o now key client (record s { too_large = delete Key-discrete key s.too_large })
]

-- what a call of `get` that waited resolves or throws
abbrev pub reply_of : Option Response → (Response ⊎ Failure) → Reply
reply_of old (inl response) = answered response miss
reply_of old (inr error) = or_old old error

abbrev pub without_first : List (Key × ℕ) → List (Key × ℕ)
without_first [] = []
without_first (e ∷ m) = m

-- a full table forgets its oldest account first
unfoldable pub remember_too_large : Key → ℕ → List (Key × ℕ) → List (Key × ℕ)
remember_too_large key until m =
    let room = if leb too_large_max_entries (size m) then without_first m else m in
    set Key-discrete key until room

abbrev pub freshness_of : ℕ → List TimelineItem → Freshness
freshness_of now [] = empty_timeline
freshness_of now (newest ∷ _) =
    if ltb now (newest.timestamp * 1000 + active_window_ms) then active else idle

abbrev pub origin_fresh_ms : Freshness → ℕ
origin_fresh_ms active = 4000
origin_fresh_ms _ = 45000

abbrev pub origin_stale_ms : Freshness → ℕ
origin_stale_ms active = 0
origin_stale_ms _ = 60000

abbrev pub response_of : Options → ℕ → Text → List PricedRow → Response
response_of o now address rows =
    let items = build_timeline o.platform rows in
    record {
      content = o.render now address items;
      freshness = freshness_of now items;
      items = length items;
    }

-- what the calls that wait for a query get
abbrev pub result_of : Options → ℕ → Text → QueryResult → Response ⊎ Failure
result_of o now address (rows_read rows) = inl (response_of o now address rows)
result_of o now address rows_too_many = inr too_large
result_of o now address query_failed = inr database_failed

-- how the breaker counts the end of a query
abbrev pub outcome_of : QueryResult → Breaker.Outcome
outcome_of (rows_read _) = success
outcome_of rows_too_many = ignored
outcome_of query_failed = failure

-- A query ends: the limiter starts the next one, the breaker counts, and the build goes on to its end.
-- `jitter` is the factor of the random number.
unfoldable pub query_ended : Options → (ℕ → ℕ) → ℕ → Key → Flight → QueryResult → Service → Service
query_ended o jitter now key flight result s =
    let ended : Service = record s {
      world = Invariant.finish flight.id s.world;
      breaker = Breaker.settle breaker_config (outcome_of result) now s.breaker;
      flights = delete Key-discrete key s.flights;
    } in
    elim result [
      | query_failed ↦ ended
      | rows_too_many ↦ record ended {
        too_large = remember_too_large key (now + too_large_ms) s.too_large;
      }
      | rows_read rows ↦
          let response = response_of o now key.1 rows in
          record ended {
            cache =
                Lru.set Key-discrete o.cache_bytes key response
                  (length response.content.body + length response.content.gzip)
                  (record {
                    fresh_ms = jitter (origin_fresh_ms response.freshness);
                    stale_ms = origin_stale_ms response.freshness;
                    error_ms = 3600000;
                  })
                  now s.cache;
          }
    ]

-- The timeout of a build that waits for a place.
unfoldable pub wait_ended : ℕ → Key → Flight → Service → Service
wait_ended now key flight s = record s {
  world = record s.world { limiter = Limiter.time_out flight.id s.world.limiter };
  breaker = Breaker.settle breaker_config ignored now s.breaker;
  flights = delete Key-discrete key s.flights;
}

-- A build that was refused ends.
abbrev pub refusal_ended : Key → Service → Service
refusal_ended key s = record s { flights = delete Key-discrete key s.flights }
