-- ===== src/Http/ClientRateLimit.antt =====
-- The bucket of a request's client: apps/api/src/http/clientRateLimit.ts. The counter of the metrics and the header
-- `Cache-Control` are left out; `isIP` of node:net is a parameter.
pub mod Spoofing
mod Tests
use beefy_envio_balances_ind.Common.{
  ℕ, Option, none, some, List, [], ◌∷◌, Text, Text-discrete, get_or,
}
use beefy_envio_balances_ind.Http.ClientIp.{Cidr, ClientIpSource, resolve_client_ip}
use beefy_envio_balances_ind.Http.ClientIp.Key.{client_key}
use beefy_envio_balances_ind.Common.Int.{ℤ}
use beefy_envio_balances_ind.Http.RateLimit.Doubles.{doubles}
use beefy_envio_balances_ind.Http.RateLimit.{Config, RateLimitResult, allowed, denied, Bucket, take}

-- what is read of a request; no address where it does not run behind the Node server
pub record Request : Type 0 where
  pub remote : Option Text
  pub forwarded_for : Option Text
  pub connecting_ip : Option Text

-- the next handler, which finds the key in the context, or status 429 with `Retry-After`
pub data ClientReply : Type 0 where
  passed_on : (key : Text) → ClientReply
  too_many : (retry_after_seconds : Option ℕ) → ClientReply

-- "unknown"
abbrev pub unknown_address : Text
unknown_address = 117 ∷ 110 ∷ 107 ∷ 110 ∷ 111 ∷ 119 ∷ 110 ∷ []

abbrev pub socket_address : Request → Text
socket_address request = get_or request.remote unknown_address

abbrev pub reply_to : Text → RateLimitResult → ClientReply
reply_to client allowed = passed_on client
reply_to client (denied seconds) = too_many seconds

module _ (is_ip : Text → ℕ) (source : ClientIpSource) (ranges : List Cidr) (cfg : Config) where
  abbrev pub client_of : Request → Text
  client_of request = client_key is_ip (
      resolve_client_ip is_ip source (socket_address request) request.forwarded_for
        request.connecting_ip ranges)

  unfoldable pub client_rate_limit :
      Request → ℕ → List (Text × Bucket ℤ) → ClientReply × List (Text × Bucket ℤ)
  client_rate_limit request time buckets =
      let client = client_of request in
      let (result, later) = take doubles Text-discrete cfg client time buckets in
      (reply_to client result, later)
