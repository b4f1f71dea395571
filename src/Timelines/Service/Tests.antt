-- ===== src/Timelines/Service/Tests.antt =====
-- Two accounts at a service that lets one query run.
use mathlib.Core.Path.{refl}
use beefy_envio_balances_ind.Common.{◌+◌, ◌≡◌, true, none, some, List, ℕ, [], ◌∷◌, Text, inr}
use beefy_envio_balances_ind.Common.Dict.{lookup}
use beefy_envio_balances_ind.Http.Lru
use beefy_envio_balances_ind.Timelines.Service.{
  Key, Key-discrete, Body, Response, database_failed, Flight, rows_too_many, Options, Service,
  new_service, begin, query_ended, idle,
}
use beefy_envio_balances_ind.Timelines.Service.OldCopy.{is_answered, reply_after, begin-answered}
use beefy_envio_balances_ind.Timelines.Service.InFlight.{SameWork, begin-in_flight}

abbrev options : Options
options = record {
  cache_bytes = 1000;
  misses = record { rate_per_minute = 60; burst = 10; max_keys = 1 };
  client_misses = record { rate_per_minute = 60; burst = 10; max_keys = 100 };
  limiter = record { max_in_flight = 1; max_queue = 1 };
  platform = record {
    to_iso = λ ms. ms ∷ [];
    chain_key = λ id. none;
    zero_usd = 0;
    add = λ a b. a + b;
    usd_of = λ v decimals price. price;
  };
  render =
      λ now address items. (let b : Body = record { body = address; gzip = []; etag = [] } in b);
}

abbrev ann : Key
ann = (1, 2 ∷ [])

abbrev bob : Key
bob = (1, 3 ∷ [])

abbrev client : Text
client = 9 ∷ []

abbrev ann_waits : Service
ann_waits = (begin options 0 ann client new_service).1

abbrev both_wait : Service
both_wait = (begin options 1 bob client ann_waits).1

abbrev flight : Flight
flight = record { id = 0; refusal = none }

abbrev ann_too_large : Service
ann_too_large = query_ended options (λ n. n) 50 ann flight rows_too_many ann_waits

-- Ann and Bob call after that, and Ann once more.
abbrev calls : List (ℕ × Key × Text)
calls = (100, ann, client) ∷ (120, bob, client) ∷ []

-- Ann's build runs, and her copy is not fresh.
abbrev building : Service
building = record new_service { flights = (ann, flight) ∷ [] }

ann_in_flight : lookup Key-discrete ann building.flights ≡ some flight
unfolding lookup Key-discrete
ann_in_flight = refl

begin-in_flight_example : SameWork building (begin options 3 ann client building).1
begin-in_flight_example = begin-in_flight options 3 ann client building flight ann_in_flight

abbrev old_copy : Response
old_copy = record {
  content = record { body = []; gzip = []; etag = [] };
  freshness = idle;
  items = 0;
}

-- the copy of Ann's timeline is stale since 20, and kept for errors until 90
abbrev with_copy : Service
with_copy = record new_service {
  cache = record {
    entries =
        (
          ann,
          record {
            value = old_copy;
            bytes = 0;
            fresh_until = 10;
            stale_until = 20;
            error_until = 90;
          },
        )
        ∷ [];
    used = 0;
  };
}

begin-answered_example :
    is_answered (reply_after (begin options 50 ann client with_copy).0 (inr database_failed)) ≡ true
unfolding lookup Lru.get Lru.state_of Key-discrete
begin-answered_example =
    begin-answered options 50 ann client with_copy
      (record { value = old_copy; state = Lru.error_only }) (inr database_failed) refl refl
