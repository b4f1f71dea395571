-- ===== src/Http/ClientIp/Key.antt =====
-- The rate limit key of an address: `clientKey` of apps/api/src/http/clientIp.ts.
use beefy_envio_balances_ind.Common.{
  ℕ, zero, suc, ◌≡◌, ◌∙◌, ap, sym, ◌+◌, ◌/◌, ◌%◌, ◌^◌, Option, none, some, [], ◌∷◌, ◌++◌,
  if◌then◌else◌, ltb, ◌==◌, Text, get_or,
}
use beefy_envio_balances_ind.Http.ClientIp.{Parsed, after_mapped, to_big_int}

abbrev hex_char : ℕ → ℕ
hex_char d = if ltb d 10 then d + 48 else d + 87

-- `toString(16)`, of at most as many digits, in front of `s`
unfoldable pub hex_of : (digits : ℕ) → ℕ → Text → Text
hex_of zero n s = s
hex_of (suc k) n s =
    let t = hex_char (n % 16) ∷ s in
    let longer = hex_of k (n / 16) t in if n / 16 == 0 then t else longer

-- a group of 16 bits has at most four digits
abbrev group_at : ℕ → ℕ → Text
group_at prefix shift = hex_of 4 (prefix / 2 ^ shift % 65536) []

-- the /64 in front of which `prefix` stands
abbrev block_key : ℕ → Text
block_key prefix =
    group_at prefix 48
    ++ 58
      ∷ (group_at prefix 32
          ++ 58 ∷ (group_at prefix 16 ++ 58 ∷ (group_at prefix 0 ++ 58 ∷ 58 ∷ 47 ∷ 54 ∷ 52 ∷ [])))

-- the key of an address that reads as `p`, if it does
abbrev key_read : Text → Option Parsed → Text
key_read address none = address
key_read address (some p) =
    if p.bits == 32 then get_or (after_mapped address) address else block_key (p.value / 2 ^ 64)

unfoldable pub client_key : (Text → ℕ) → Text → Text
client_key is_ip address = key_read address (to_big_int is_ip address)

-- One host has one key: IPv6 addresses that agree in their first 64 bits, however they are written and
-- whatever stands behind those, are one client.
client_key-block :
    (is_ip : Text → ℕ) (a b : Text) (v w : ℕ)
    → to_big_int is_ip a ≡ some (record { value = v; bits = 128 })
    → to_big_int is_ip b ≡ some (record { value = w; bits = 128 })
    → v / 2 ^ 64 ≡ w / 2 ^ 64
    → client_key is_ip a ≡ client_key is_ip b
unfolding client_key
client_key-block is_ip a b v w read_a read_b block =
    ap (key_read a) read_a ∙ ap block_key block ∙ sym (ap (key_read b) read_b)
