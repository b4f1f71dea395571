-- ===== src/Http/ClientRateLimit/Spoofing.antt =====
-- No header gives a client another bucket.
use beefy_envio_balances_ind.Common.{
  ℕ, ◌≡◌, ◌∙◌, ap, sym, false, not, ◌&&◌, Option, some, List, ◌∷◌, ◌++◌, Text, Text-discrete,
  get_or,
}
use beefy_envio_balances_ind.Http.ClientIp.{Cidr, ClientIpSource, is_socket, in_ranges, hop_of}
use beefy_envio_balances_ind.Http.ClientIp.Key.{client_key}
use beefy_envio_balances_ind.Http.ClientIp.Spoofing.{resolve_client_ip-spoofed}
use beefy_envio_balances_ind.Common.Int.{ℤ}
use beefy_envio_balances_ind.Http.RateLimit.Doubles.{doubles}
use beefy_envio_balances_ind.Http.RateLimit.{Config, Bucket, take}
use beefy_envio_balances_ind.Http.ClientRateLimit.{
  unknown_address, ClientReply, reply_to, client_rate_limit,
}

-- A client whose hop is outside the ranges of Cloudflare, or of a server that does not stand behind
-- Cloudflare, spends from one bucket and gets one answer, whatever it writes before the last comma of
-- `X-Forwarded-For` and into `CF-Connecting-IP`.
pub client_rate_limit-spoofed :
    (is_ip : Text → ℕ) (source : ClientIpSource) (ranges : List Cidr) (cfg : Config)
    (remote : Option Text) (earlier other last : Text) (claimed claimed_again : Option Text)
    (time : ℕ) (buckets : List (Text × Bucket ℤ))
    → (not (is_socket source)
        && in_ranges is_ip (hop_of is_ip source (get_or remote unknown_address) (some last)) ranges)
      ≡ false
    → client_rate_limit is_ip source ranges cfg
        (record {
          remote = remote;
          forwarded_for = some (earlier ++ 44 ∷ last);
          connecting_ip = claimed;
        })
        time
        buckets
      ≡ client_rate_limit is_ip source ranges cfg
          (record {
            remote = remote;
            forwarded_for = some (other ++ 44 ∷ last);
            connecting_ip = claimed_again;
          })
          time
          buckets
unfolding client_rate_limit
client_rate_limit-spoofed is_ip source ranges cfg remote earlier other last claimed claimed_again
      time buckets outside =
    let answer : Text → ClientReply × List (Text × Bucket ℤ) = λ (address : Text).
      let client = client_key is_ip address in
      let (result, later) = take doubles Text-discrete cfg client time buckets in
      (reply_to client result, later) in
    let address = get_or remote unknown_address in
    let here =
      resolve_client_ip-spoofed is_ip source address earlier last claimed claimed ranges ranges
        outside in
    let there =
      resolve_client_ip-spoofed is_ip source address other last claimed claimed_again ranges ranges
        outside in
    ap answer (here.1 ∙ sym there.1)
