-- ===== src/Http/ClientRateLimit/Tests.antt =====
-- A client at 9.9.9.9 that reaches the router directly, twice, and lies about itself in two ways.
use beefy_envio_balances_ind.Common.{
  ℕ, ◌≡◌, refl, false, not, ◌&&◌, none, some, List, [], ◌∷◌, ◌++◌, Text, ◌==◌, length,
  if◌then◌else◌, get_or,
}
use beefy_envio_balances_ind.Http.ClientIp.{
  split_on, last_of, trim_start, trim_end, read_digits, read_octets, ipv4_to_big_int, to_big_int,
  in_ranges, Cidr, heroku_cloudflare, last_forwarded_hop, hop_of, is_socket,
}
use beefy_envio_balances_ind.Http.RateLimit.{Config}
use beefy_envio_balances_ind.Http.ClientRateLimit.{unknown_address, client_rate_limit}
use beefy_envio_balances_ind.Http.ClientRateLimit.Spoofing.{client_rate_limit-spoofed}

-- every text of seven code points is an IPv4 address
abbrev is_ip : Text → ℕ
is_ip s = if length s == 7 then 4 else 0

abbrev nines : Text
nines = 57 ∷ 46 ∷ 57 ∷ 46 ∷ 57 ∷ 46 ∷ 57 ∷ []

abbrev ones : Text
ones = 49 ∷ 46 ∷ 49 ∷ 46 ∷ 49 ∷ 46 ∷ 49 ∷ []

-- 1.0.0.0/8
abbrev ranges : List Cidr
ranges = record { network = 16777216; bits = 32; prefix = 8 } ∷ []

abbrev config : Config
config = record { rate_per_minute = 60; burst = 2; max_keys = 10 }

nines_outside :
    (not (is_socket heroku_cloudflare)
      && in_ranges is_ip
          (hop_of is_ip heroku_cloudflare (get_or none unknown_address) (some nines))
          ranges)
    ≡ false
unfolding split_on last_of trim_start trim_end read_digits read_octets ipv4_to_big_int to_big_int
    in_ranges last_forwarded_hop
nines_outside = refl

client_rate_limit-spoofed_example :
    client_rate_limit is_ip heroku_cloudflare ranges config
      (record {
        remote = none;
        forwarded_for = some (ones ++ 44 ∷ nines);
        connecting_ip = some ones;
      })
      7
      []
    ≡ client_rate_limit is_ip heroku_cloudflare ranges config
        (record { remote = none; forwarded_for = some ([] ++ 44 ∷ nines); connecting_ip = none })
        7
        []
client_rate_limit-spoofed_example =
    client_rate_limit-spoofed is_ip heroku_cloudflare ranges config none ones [] nines (some ones)
      none 7 [] nines_outside
