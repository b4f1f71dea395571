-- ===== src/Http/RateLimit/Doubles.antt =====
-- The numbers of JavaScript, IEEE 754 doubles, as far as the limiter computes with them: a finite double is a multiple of
-- 2^-1074, and an operation rounds its exact result to the nearest double, and to the one with the even significand
-- where two are as near. The results stay below 2^1024, so none of them overflows.
use beefy_envio_balances_ind.Common.{
  ℕ, zero, suc, ◌+◌, ◌-◌, ◌*◌, ◌/◌, ◌%◌, ◌^◌, true, false, ◌||◌, ◌&&◌, none, some, ltb, leb, ◌==◌,
  if◌then◌else◌,
}
use beefy_envio_balances_ind.Common.Int.{ℤ, pos, pos_part, neg_part, ◌+ℤ◌, ◌-ℤ◌, ◌*ℤ◌, leb_ℤ}
use beefy_envio_balances_ind.Http.RateLimit.{Arithmetic}

-- how many there are of it in 1
abbrev pub scale : ℕ
scale = 2 ^ 1074

-- The distance of two neighbours at `n`, a power of two: a double has 53 significant bits. `k` steps of bisection do
-- for `n` below 2 ^ (52 + 2 ^ k).
unfoldable pub spacing : (k : ℕ) → ℕ → ℕ
spacing zero n = 1
spacing (suc k) n =
    let e = 2 ^ k in
    elim (leb (2 ^ (52 + e)) n) [ true ↦ 2 ^ e * spacing k (n / 2 ^ e) | false ↦ spacing k n ]

-- the whole number next to `n / d`, for a positive `d`
unfoldable pub nearest : ℕ → ℕ → ℕ
nearest n d =
    let q = n / d in let r = 2 * (n % d) in if ltb d r || (r == d && q % 2 == 1) then q + 1 else q

-- `n / d`, rounded
unfoldable pub rounded : ℕ → ℕ → ℕ
rounded n d = let s = spacing 12 (n / d) in s * nearest n (d * s)

-- of either sign
abbrev pub signed : (ℕ → ℕ) → ℤ → ℤ
signed f z = pos (f (pos_part z)) -ℤ pos (f (neg_part z))

abbrev pub rounded_ℤ : ℤ → ℤ
rounded_ℤ z = signed (λ n. rounded n 1) z

abbrev pub over : ℤ → ℕ → ℤ
over z d = signed (λ n. rounded (n * scale) d) z

-- `Math.ceil` of a double that is not negative
abbrev pub ceiling : ℤ → ℕ
ceiling z = (pos_part z + scale - 1) / scale

abbrev pub doubles : Arithmetic
doubles = record {
  Number = ℤ;
  Rate = ℕ;
  whole = λ n. rounded_ℤ (pos (n * scale));
  plus = λ a b. rounded_ℤ (a +ℤ b);
  minus = λ a b. rounded_ℤ (a -ℤ b);
  le = leb_ℤ;
  per_ms = λ rate. rounded (rounded (rate * scale) 1) 60000;
  times = λ ms rate. rounded_ℤ (ms *ℤ pos rate);
  seconds =
      λ x rate. if rate == 0 then none else some (ceiling (over (over x rate) (1000 * scale)));
}
