-- ===== src/Http/ClientIp.antt =====
-- Whose request it is: apps/api/src/http/clientIp.ts. `isIP` of node:net is a parameter, 0 for a text that is no
-- address; it lets only digits and dots through as IPv4, so `Number` is that of digits. The ranges are read when the
-- API starts, and are an argument here.
pub mod Key
pub mod Spoofing
mod Tests
use beefy_envio_balances_ind.Common.{
  ℕ, zero, suc, ◌+◌, ◌-◌, ◌*◌, ◌/◌, ◌%◌, ◌^◌, Bool, true, false, not, ◌&&◌, ◌||◌, Option, none,
  some, List, [], ◌∷◌, ◌++◌, if◌then◌else◌, ltb, leb, ◌==◌, some_of, length, Text, to_lower, get_or,
}

-- `split` at one code point
unfoldable pub split_on : ℕ → Text → List Text
split_on c [] = [] ∷ []
split_on c (a ∷ s) = elim (split_on c s) [
  | [] ↦ []
  | p ∷ ps ↦ if a == c then [] ∷ p ∷ ps else (a ∷ p) ∷ ps
]

abbrev pub cons_first : ℕ → List Text → List Text
cons_first c [] = []
cons_first c (p ∷ ps) = (c ∷ p) ∷ ps

-- `split('::')`; `pending` is a colon that may begin the next separator
unfoldable pub split_colons : (pending : Bool) → Text → List Text
split_colons true [] = (58 ∷ []) ∷ []
split_colons false [] = [] ∷ []
split_colons true (a ∷ s) =
    if a == 58
    then [] ∷ split_colons false s
    else cons_first 58 (cons_first a (split_colons false s))
split_colons false (a ∷ s) =
    if a == 58 then split_colons true s else cons_first a (split_colons false s)

-- the last of the parts
unfoldable pub last_of : List Text → Text
last_of [] = []
last_of (p ∷ ps) = elim ps [ [] ↦ p | _ ∷ _ ↦ last_of ps ]

-- the white space and the line ends of JavaScript
abbrev pub is_space : ℕ → Bool
is_space c =
    c == 32
    || (leb 9 c && leb c 13)
    || c == 160
    || c == 5760
    || (leb 8192 c && leb c 8202)
    || c == 8232
    || c == 8233
    || c == 8239
    || c == 8287
    || c == 12288
    || c == 65279

unfoldable pub trim_start : Text → Text
trim_start [] = []
trim_start (c ∷ s) = if is_space c then trim_start s else c ∷ s

unfoldable pub trim_end : Text → Text
trim_end [] = []
trim_end (c ∷ s) = elim (trim_end s) [ [] ↦ if is_space c then [] else c ∷ [] | d ∷ t ↦ c ∷ d ∷ t ]

abbrev pub trim : Text → Text
trim s = trim_end (trim_start s)

abbrev pub is_digit : ℕ → Bool
is_digit c = leb 48 c && leb c 57

-- the value of a hexadecimal digit
abbrev pub hex_digit : ℕ → Option ℕ
hex_digit c =
    if is_digit c
    then some (c - 48)
    else if leb 97 c && leb c 102
    then some (c - 87)
    else if leb 65 c && leb c 70
    then some (c - 55)
    else none

-- the number of digits in a base, read after `acc`
unfoldable pub read_digits : (base : ℕ) → (ℕ → Option ℕ) → (acc : ℕ) → Text → Option ℕ
read_digits base digit acc [] = some acc
read_digits base digit acc (c ∷ s) = elim (digit c) [
  | none ↦ none
  | some d ↦ read_digits base digit (acc * base + d) s
]

abbrev pub decimal_digit : ℕ → Option ℕ
decimal_digit c = if is_digit c then some (c - 48) else none

unfoldable pub read_octets : ℕ → List Text → Option ℕ
read_octets value [] = some value
read_octets value (octet ∷ octets) = elim (read_digits 10 decimal_digit 0 octet) [
  | none ↦ none
  | some n ↦ if ltb 255 n then none else read_octets (value * 256 + n) octets
]

unfoldable pub ipv4_to_big_int : Text → Option ℕ
ipv4_to_big_int address =
    let octets = split_on 46 address in if length octets == 4 then read_octets 0 octets else none

-- `/^[0-9a-fA-F]{1,4}$/` and the shift by 16 bits
unfoldable pub read_groups : ℕ → List Text → Option ℕ
read_groups value [] = some value
read_groups value (group ∷ groups) =
    if ltb 0 (length group) && leb (length group) 4
    then elim (read_digits 16 hex_digit 0 group) [
      | none ↦ none
      | some n ↦ read_groups (value * 65536 + n) groups
    ]
    else none

abbrev pub zero_groups : ℕ → List Text
zero_groups zero = []
zero_groups (suc n) = (48 ∷ []) ∷ zero_groups n

abbrev pub groups_of : Text → List Text
groups_of [] = []
groups_of (c ∷ s) = split_on 58 (c ∷ s)

abbrev pub first_of_parts : List Text → Text
first_of_parts [] = []
first_of_parts (p ∷ ps) = p

unfoldable pub ipv6_to_big_int : Text → Option ℕ
ipv6_to_big_int address = elim (split_colons false (first_of_parts (split_on 37 address))) [
  | [] ↦ none
  | head ∷ rest ↦ elim rest [
    | [] ↦ let left = groups_of head in if length left == 8 then read_groups 0 left else none
    | tail ∷ extra ↦ elim extra [
      | _ ∷ _ ↦ none
      | [] ↦
          let left = groups_of head in
          let right = groups_of tail in
          let known = length left + length right in
          if leb 8 known then none else read_groups 0 (left ++ (zero_groups (8 - known) ++ right))
    ]
  ]
]

pub record Parsed : Type 0 where
  pub value : ℕ
  pub bits : ℕ

pub record Cidr : Type 0 where
  pub network : ℕ
  pub bits : ℕ
  pub prefix : ℕ

-- `(value >> n) << n`
abbrev pub masked : ℕ → ℕ → ℕ
masked value n = value / 2 ^ n * 2 ^ n

abbrev pub parsed : ℕ → Option ℕ → Option Parsed
parsed bits none = none
parsed bits (some value) = some (record { value = value; bits = bits })

-- every part is digits, and not empty
unfoldable pub all_digits : List Text → Bool
all_digits [] = true
all_digits (p ∷ ps) = elim (read_digits 10 decimal_digit 0 p) [
  | none ↦ false
  | some _ ↦ ltb 0 (length p) && all_digits ps
]

abbrev pub is_f : ℕ → Bool
is_f c = c == 102 || c == 70

-- what follows "::ffff:", in any case, if the text begins so
abbrev pub after_mapped : Text → Option Text
after_mapped (a ∷ b ∷ c ∷ d ∷ e ∷ f ∷ g ∷ rest) =
    if a == 58 && b == 58 && is_f c && is_f d && is_f e && is_f f && g == 58
    then some rest
    else none
after_mapped _ = none

-- the IPv4 address of `/^::ffff:(\d+\.\d+\.\d+\.\d+)$/i`
abbrev pub mapped_ipv4 : Text → Option Text
mapped_ipv4 address = elim (after_mapped address) [
  | none ↦ none
  | some rest ↦
      let octets = split_on 46 rest in
      if length octets == 4 && all_digits octets then some rest else none
]

module _ (is_ip : Text → ℕ) where
  unfoldable pub to_big_int : Text → Option Parsed
  to_big_int address =
      let text = get_or (mapped_ipv4 address) address in
      if is_ip text == 4
      then parsed 32 (ipv4_to_big_int text)
      else if is_ip text == 6
      then parsed 128 (ipv6_to_big_int text)
      else none

  unfoldable pub in_ranges : Text → List Cidr → Bool
  in_ranges address ranges = elim (to_big_int address) [
    | none ↦ false
    | some p ↦
        some_of (λ (r : Cidr). r.bits == p.bits && masked p.value (r.bits - r.prefix) == r.network)
          ranges
  ]

pub data ClientIpSource : Type 0 where
  socket cloudflare heroku_cloudflare : ClientIpSource

abbrev pub is_socket : ClientIpSource → Bool
is_socket socket = true
is_socket _ = false

module _ (is_ip : Text → ℕ) where
  unfoldable pub last_forwarded_hop : Option Text → Option Text
  last_forwarded_hop none = none
  last_forwarded_hop (some header) =
      let hop = trim (last_of (split_on 44 header)) in if is_ip hop == 0 then none else some hop

  -- the hop that reached us
  abbrev pub hop_of : ClientIpSource → Text → Option Text → Text
  hop_of heroku_cloudflare socket_ip forwarded_for =
      get_or (last_forwarded_hop forwarded_for) socket_ip
  hop_of _ socket_ip forwarded_for = socket_ip

  -- what `CF-Connecting-IP` says, if it is an address
  abbrev pub candidate_of : Option Text → Option Text
  candidate_of none = none
  candidate_of (some connecting_ip) =
      let candidate = trim connecting_ip in
      if is_ip candidate == 0 then none else some (to_lower candidate)

  unfoldable pub resolve_client_ip :
      ClientIpSource → Text → Option Text → Option Text → List Cidr → Text
  resolve_client_ip source socket_ip forwarded_for connecting_ip ranges =
      let hop = hop_of source socket_ip forwarded_for in
      if not (is_socket source) && in_ranges is_ip hop ranges
      then get_or (candidate_of connecting_ip) (to_lower hop)
      else to_lower hop
