-- ===== src/Timelines/Units.antt =====
-- Amounts as decimal texts: `formatUnits` of apps/api/src/timeline/units.ts.
pub mod RoundTrip
use beefy_envio_balances_ind.Common.{
  ℕ, zero, suc, ◌+◌, ◌-◌, ◌/◌, ◌%◌, Bool, true, false, List, [], ◌∷◌, ◌++◌, if◌then◌else◌, ltb,
  length, Text, strip_end,
}
use beefy_envio_balances_ind.Common.Int.{ℤ, pos, pos_part, neg, ltb_ℤ}

-- the digits of a number; every round divides it by ten, so `n + 1` rounds are enough
unfoldable pub decimal_at : ℕ → ℕ → Text
decimal_at zero n = []
decimal_at (suc fuel) n = elim (ltb n 10) [
  | true ↦ (48 + n) ∷ []
  | false ↦ decimal_at fuel (n / 10) ++ (48 + n % 10) ∷ []
]

-- `toString()`
abbrev pub decimal : ℕ → Text
decimal n = decimal_at (suc n) n

abbrev pub repeat : ℕ → ℕ → Text
repeat c zero = []
repeat c (suc n) = c ∷ repeat c n

-- `padStart(n, c)`
abbrev pub pad_start : ℕ → ℕ → Text → Text
pad_start n c s = repeat c (n - length s) ++ s

-- `slice(0, n)`
abbrev pub take : ℕ → Text → Text
take zero s = []
take (suc n) [] = []
take (suc n) (c ∷ s) = c ∷ take n s

-- `slice(n)`
abbrev pub drop : ℕ → Text → Text
drop zero s = s
drop (suc n) [] = []
drop (suc n) (c ∷ s) = drop n s

-- a fraction behind its point
abbrev pub point : Text → Text
point [] = []
point (c ∷ s) = 46 ∷ c ∷ s

abbrev pub magnitude : ℤ → ℕ
magnitude value = pos_part (if ltb_ℤ value (pos 0) then neg value else value)

abbrev pub digits_of : ℤ → ℕ → Text
digits_of value decimals = pad_start (decimals + 1) 48 (decimal (magnitude value))

unfoldable pub format_units : ℤ → ℕ → Text
format_units value decimals =
    let digits = digits_of value decimals in
    let whole = take (length digits - decimals) digits in
    let fraction = strip_end 48 (drop (length digits - decimals) digits) in
    (if ltb_ℤ value (pos 0) then 45 ∷ [] else []) ++ (whole ++ point fraction)
