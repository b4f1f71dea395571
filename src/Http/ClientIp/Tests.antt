-- ===== src/Http/ClientIp/Tests.antt =====
-- A client that reaches the router directly, from 9.9.9.9, and claims to come through Cloudflare.
use beefy_envio_balances_ind.Common.{
  ℕ, ◌≡◌, refl, true, false, not, ◌&&◌, none, some, List, [], ◌∷◌, ◌++◌, Text, to_lower, ◌==◌,
  length, if◌then◌else◌,
}
use beefy_envio_balances_ind.Http.ClientIp.{
  split_colons, read_groups, ipv6_to_big_int, split_on, last_of, trim_start, trim_end, read_digits,
  read_octets, ipv4_to_big_int, to_big_int, in_ranges, Cidr, heroku_cloudflare, last_forwarded_hop,
  hop_of, is_socket, resolve_client_ip,
}
use beefy_envio_balances_ind.Http.ClientIp.Key.{client_key, hex_of}
use beefy_envio_balances_ind.Http.ClientIp.Spoofing.{resolve_client_ip-spoofed}

-- every text of seven code points is an IPv4 address
abbrev is_ip : Text → ℕ
is_ip s = if length s == 7 then 4 else 0

abbrev nines : Text
nines = 57 ∷ 46 ∷ 57 ∷ 46 ∷ 57 ∷ 46 ∷ 57 ∷ []

abbrev ones : Text
ones = 49 ∷ 46 ∷ 49 ∷ 46 ∷ 49 ∷ 46 ∷ 49 ∷ []

-- 1.0.0.0/8
abbrev ranges : List Cidr
ranges = record { network = 16777216; bits = 32; prefix = 8 } ∷ []

program : Unit {0}
unfolding split_on last_of trim_start trim_end read_digits read_octets ipv4_to_big_int to_big_int
    in_ranges last_forwarded_hop resolve_client_ip to_lower
program = tt

nines_outside :
    (not (is_socket heroku_cloudflare)
      && in_ranges is_ip (hop_of is_ip heroku_cloudflare [] (some nines)) ranges)
    ≡ false
unfolding program
nines_outside = refl

resolve_client_ip-spoofed_example :
    (resolve_client_ip is_ip heroku_cloudflare [] (some (ones ++ 44 ∷ nines)) none ranges
      ≡ resolve_client_ip is_ip heroku_cloudflare [] (some nines) none ranges)
    × (resolve_client_ip is_ip heroku_cloudflare [] (some (ones ++ 44 ∷ nines)) (some ones) ranges
        ≡ to_lower (hop_of is_ip heroku_cloudflare [] (some nines)))
resolve_client_ip-spoofed_example =
    resolve_client_ip-spoofed is_ip heroku_cloudflare [] ones nines none (some ones) ranges ranges
      nines_outside

-- an address inside the range, and one outside it
in_ranges_run : in_ranges is_ip ones ranges ≡ true
unfolding program
in_ranges_run = refl

in_ranges_other : in_ranges is_ip nines ranges ≡ false
unfolding program
in_ranges_other = refl

-- the claim is believed behind Cloudflare only
resolve_run :
    resolve_client_ip is_ip heroku_cloudflare []
      (some (nines ++ 44 ∷ 32 ∷ ones))
      (some nines)
      ranges
    ≡ nines
unfolding program
resolve_run = refl

-- Of texts that `isIP` calls IPv6 the key of "2001:db8::1" is that of its /64.
client_key_run :
    client_key (λ s. 6) (50 ∷ 48 ∷ 48 ∷ 49 ∷ 58 ∷ 100 ∷ 98 ∷ 56 ∷ 58 ∷ 58 ∷ 49 ∷ [])
    ≡ 50 ∷ 48 ∷ 48 ∷ 49 ∷ 58 ∷ 100 ∷ 98 ∷ 56 ∷ 58 ∷ 48 ∷ 58 ∷ 48 ∷ 58 ∷ 58 ∷ 47 ∷ 54 ∷ 52 ∷ []
unfolding client_key hex_of to_big_int ipv6_to_big_int ipv4_to_big_int split_on split_colons
    read_digits read_octets read_groups
client_key_run = refl
