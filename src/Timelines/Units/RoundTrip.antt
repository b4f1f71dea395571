-- ===== src/Timelines/Units/RoundTrip.antt =====
-- A formatted amount reads back as the amount.
use native.Mathlib.Nat.{pow-suc, mul_assoc, mul_comm}
use beefy_envio_balances_ind.Common.{
  ℕ, zero, suc, ◌+◌, ◌-◌, ◌*◌, ◌/◌, ◌%◌, ◌^◌, ◌≤◌, ◌<◌, ◌≡◌, refl, sym, ap, ◌∙◌, Bool, true, false,
  [], ◌∷◌, ◌++◌, if◌then◌else◌, ltb, ◌==◌, Bool-cases, inl, inr, ==_iff, ◌⊎◌, All, All-append,
  length-append, length, Text, strip_end, arith,
}
use beefy_envio_balances_ind.Common.Int.{ℤ, pos, neg, ltb_ℤ, neg_parts}
use beefy_envio_balances_ind.Timelines.Units.{
  decimal_at, decimal, repeat, take, drop, point, magnitude, digits_of, format_units,
}

-- The reading of a decimal text in the unit that is 10 to the `left` times smaller.
unfoldable pub read_fraction : ℕ → ℕ → Text → ℕ
read_fraction acc left [] = acc * 10 ^ left
read_fraction acc left (c ∷ s) = read_fraction (acc * 10 + (c - 48)) (left - 1) s

unfoldable pub read_whole : ℕ → ℕ → Text → ℕ
read_whole acc left [] = acc * 10 ^ left
read_whole acc left (c ∷ s) = elim (c == 46) [
  | true ↦ read_fraction acc left s
  | false ↦ read_whole (acc * 10 + (c - 48)) left s
]

unfoldable pub read_units : ℕ → Text → ℤ
read_units decimals [] = pos 0
read_units decimals (c ∷ s) =
    if c == 45 then neg (pos (read_whole 0 decimals s)) else pos (read_whole 0 decimals (c ∷ s))

-- the number of a row of digits, after those of `acc`
abbrev value : ℕ → Text → ℕ
value acc [] = acc
value acc (c ∷ s) = value (acc * 10 + (c - 48)) s

value-append : (acc : ℕ) (s t : Text) → value acc (s ++ t) ≡ value (value acc s) t
value-append acc [] t = refl
value-append acc (c ∷ s) t = value-append (acc * 10 + (c - 48)) s t

value-decimal_at : (fuel n : ℕ) → n < fuel → value 0 (decimal_at fuel n) ≡ n
unfolding decimal_at
value-decimal_at zero n h = omega arith
value-decimal_at (suc fuel) n h = elim (Bool-cases (ltb n 10)) [
  | inl e ↦ rw (e, decimal_at) (omega arith)
  | inr e ↦
      let ten : 10 ≤ n = ground arith in
      let ih = value-decimal_at fuel (n / 10) (omega arith) in
      rw (e, decimal_at, value-append 0 (decimal_at fuel (n / 10)) ((48 + n % 10) ∷ []), ih)
        (omega arith)
]

abbrev IsDigit : ℕ → Type 0
IsDigit c = (48 ≤ c) × (c ≤ 57)

decimal_at-All : (fuel n : ℕ) → All IsDigit (decimal_at fuel n)
unfolding decimal_at
decimal_at-All zero n = tt
decimal_at-All (suc fuel) n = elim (Bool-cases (ltb n 10)) [
  | inl e ↦ rw (e, decimal_at) ((omega arith, ground arith), tt)
  | inr e ↦
      rw (e, decimal_at)
        (All-append IsDigit (decimal_at fuel (n / 10)) ((48 + n % 10) ∷ [])
          (decimal_at-All fuel (n / 10)) ((omega arith, omega arith), tt))
]

List-cases : (s : Text) → (s ≡ []) ⊎ ((c : ℕ) × (t : Text) × (s ≡ c ∷ t))
List-cases [] = inl refl
List-cases (c ∷ t) = inr (c, t, refl)

repeat-All : (n : ℕ) → All IsDigit (repeat 48 n)
repeat-All zero = tt
repeat-All (suc n) = ((omega arith, omega arith), repeat-All n)

value-repeat : (n : ℕ) (s : Text) → value 0 (repeat 48 n ++ s) ≡ value 0 s
value-repeat zero s = refl
value-repeat (suc n) s = value-repeat n s

-- whole digits are read one by one
read_whole-append :
    (acc left : ℕ) (s t : Text)
    → All IsDigit s
    → read_whole acc left (s ++ t) ≡ read_whole (value acc s) left t
unfolding read_whole
read_whole-append acc left [] t h = refl
read_whole-append acc left (c ∷ s) t (d, h) =
    let other : (c == 46) ≡ false = ground arith in
    rw (other, read_whole) (read_whole-append (acc * 10 + (c - 48)) left s t h)

read_whole-point :
    (acc left : ℕ) (f : Text) → read_whole acc left (point f) ≡ read_fraction acc left f
unfolding read_whole read_fraction
read_whole-point acc left [] = refl
read_whole-point acc left (c ∷ s) = refl

pow_step : (acc left : ℕ) → 1 ≤ left → acc * 10 * 10 ^ (left - 1) ≡ acc * 10 ^ left
pow_step acc zero h = omega arith
pow_step acc (suc left) h =
    let shorter : suc left - 1 ≡ left = omega arith in
    rw shorter (
      mul_assoc acc 10 (10 ^ left)
      ∙ ap (λ x. acc * x) (mul_comm 10 (10 ^ left) ∙ sym (pow-suc 10 left)))

-- the zeros at the end of a fraction say nothing
read_fraction-strip_end :
    (acc left : ℕ) (f : Text)
    → length f ≤ left
    → read_fraction acc left (strip_end 48 f) ≡ read_fraction acc left f
unfolding read_fraction strip_end
read_fraction-strip_end acc left [] h = refl
read_fraction-strip_end acc left (c ∷ s) h =
    let ih = read_fraction-strip_end (acc * 10 + (c - 48)) (left - 1) s (omega arith) in
    elim (List-cases (strip_end 48 s)) [
      | inr (d, t, e) ↦ rw (e, strip_end, ← ih, e) refl
      | inl e ↦ elim (Bool-cases (c == 48)) [
        | inl z ↦
            let next = acc * 10 + (c - 48) in
            let same : next ≡ acc * 10 = omega (arith, (==_iff c 48).0 z) in
            let rest : read_fraction next (left - 1) [] ≡ read_fraction next (left - 1) s =
              rw e at ih in
            rw (e, z, strip_end)
              (sym (pow_step acc left (omega arith))
                ∙ ap (λ x. x * 10 ^ (left - 1)) (sym same)
                ∙ rest)
        | inr z ↦ rw (e, z, strip_end, ← ih, e) refl
      ]
    ]

read_fraction-value : (acc : ℕ) (f : Text) → read_fraction acc (length f) f ≡ value acc f
unfolding read_fraction
read_fraction-value acc [] = grind arith
read_fraction-value acc (c ∷ s) =
    let shorter : suc (length s) - 1 ≡ length s = omega arith in
    rw (shorter, read_fraction) (read_fraction-value (acc * 10 + (c - 48)) s)

take-drop : (n : ℕ) (s : Text) → take n s ++ drop n s ≡ s
take-drop zero s = refl
take-drop (suc n) [] = refl
take-drop (suc n) (c ∷ s) = ap (λ t. c ∷ t) (take-drop n s)

length-drop : (n : ℕ) (s : Text) → length (drop n s) ≡ length s - n
length-drop zero s = omega arith
length-drop (suc n) [] = omega arith
length-drop (suc n) (c ∷ s) = omega (arith, length-drop n s)

take-All : (n : ℕ) (s : Text) → All IsDigit s → All IsDigit (take n s)
take-All zero s h = tt
take-All (suc n) [] h = tt
take-All (suc n) (c ∷ s) (d, h) = (d, take-All n s h)

length-repeat : (c n : ℕ) → length (repeat c n) ≡ n
length-repeat c zero = refl
length-repeat c (suc n) = ap suc (length-repeat c n)

-- enough digits, split before the last `decimals` of them, read as their number
read_whole-split :
    (decimals : ℕ) (s : Text)
    → All IsDigit s
    → decimals ≤ length s
    → read_whole 0 decimals
        (take (length s - decimals) s ++ point (strip_end 48 (drop (length s - decimals) s)))
      ≡ value 0 s
read_whole-split decimals s h enough =
    let n = length s - decimals in
    let f = drop n s in
    let w = value 0 (take n s) in
    let fits : length f ≡ decimals = omega (arith, length-drop n s) in
    read_whole-append 0 decimals (take n s) (point (strip_end 48 f)) (take-All n s h)
    ∙ read_whole-point w decimals (strip_end 48 f)
    ∙ read_fraction-strip_end w decimals f (omega arith)
    ∙ ap (λ k. read_fraction w k f) (sym fits)
    ∙ read_fraction-value w f
    ∙ sym (value-append 0 (take n s) f)
    ∙ ap (value 0) (take-drop n s)

digits_of-All : (v : ℤ) (decimals : ℕ) → All IsDigit (digits_of v decimals)
digits_of-All v decimals =
    let n = magnitude v in
    All-append IsDigit (repeat 48 (decimals + 1 - length (decimal n))) (decimal n)
      (repeat-All (decimals + 1 - length (decimal n))) (decimal_at-All (suc n) n)

digits_of-length : (v : ℤ) (decimals : ℕ) → decimals + 1 ≤ length (digits_of v decimals)
digits_of-length v decimals =
    let n = magnitude v in
    let k = decimals + 1 - length (decimal n) in
    omega (arith, length-append (repeat 48 k) (decimal n), length-repeat 48 k)

value-digits_of : (v : ℤ) (decimals : ℕ) → value 0 (digits_of v decimals) ≡ magnitude v
value-digits_of v decimals =
    let n = magnitude v in
    value-repeat (decimals + 1 - length (decimal n)) (decimal n)
    ∙ value-decimal_at (suc n) n (omega arith)

-- the text without its sign
abbrev unsigned : ℤ → ℕ → Text
unsigned v decimals =
    let s = digits_of v decimals in
    take (length s - decimals) s ++ point (strip_end 48 (drop (length s - decimals) s))

read_whole-unsigned :
    (v : ℤ) (decimals : ℕ) → read_whole 0 decimals (unsigned v decimals) ≡ magnitude v
read_whole-unsigned v decimals =
    read_whole-split decimals (digits_of v decimals) (digits_of-All v decimals)
      (omega (arith, digits_of-length v decimals))
    ∙ value-digits_of v decimals

-- the text of digits has no sign of its own
read_units-digits :
    (decimals n : ℕ) (s t : Text)
    → All IsDigit s
    → 1 ≤ n
    → n ≤ length s
    → read_units decimals (take n s ++ t) ≡ pos (read_whole 0 decimals (take n s ++ t))
unfolding read_units
read_units-digits decimals zero s t h k l = absurd (omega arith)
read_units-digits decimals (suc n) [] t h k l = absurd (omega arith)
read_units-digits decimals (suc n) (c ∷ s) t (d, h) k l =
    let other : (c == 45) ≡ false = ground arith in rw other refl

magnitude-pos : (v : ℤ) → ltb_ℤ v (pos 0) ≡ false → pos (magnitude v) ≡ v
magnitude-pos v h = ground (arith, neg_parts v)

magnitude-neg : (v : ℤ) → ltb_ℤ v (pos 0) ≡ true → neg (pos (magnitude v)) ≡ v
unfolding neg
magnitude-neg v h = ground (arith, neg_parts v)

format_units-sign :
    (v : ℤ) (decimals : ℕ)
    → format_units v decimals ≡ (if ltb_ℤ v (pos 0) then 45 ∷ [] else []) ++ unsigned v decimals
unfolding format_units
format_units-sign v decimals = refl

-- The text of an amount, read in the unit of its decimals, is the amount: the formatting is exact,
-- for every amount, also a negative one, and every number of decimals.
pub read_units-format_units :
    (v : ℤ) (decimals : ℕ) → read_units decimals (format_units v decimals) ≡ v
unfolding read_units
read_units-format_units v decimals =
    let text = λ (b : Bool). (if b then 45 ∷ [] else []) ++ unsigned v decimals in
    let s = digits_of v decimals in
    let signed = λ (b : Bool) (e : ltb_ℤ v (pos 0) ≡ b).
      ap (read_units decimals) (format_units-sign v decimals ∙ ap text e) in
    elim (Bool-cases (ltb_ℤ v (pos 0))) [
      | inl e ↦
          signed true e ∙ ap (λ n. neg (pos n)) (read_whole-unsigned v decimals) ∙ magnitude-neg v e
      | inr e ↦
          signed false e
          ∙ read_units-digits decimals (length s - decimals) s
              (point (strip_end 48 (drop (length s - decimals) s))) (digits_of-All v decimals)
              (omega (arith, digits_of-length v decimals)) (omega arith)
          ∙ ap pos (read_whole-unsigned v decimals)
          ∙ magnitude-pos v e
    ]
