-- ===== src/Common/Texts.antt =====
-- Texts as lists of code points, which the addresses and hashes of the indexer are.
use Prim.Native.Nat.{ℕ, ◌+◌}
use mathlib.Core.Path.{◌≡◌, refl, ap, ap₂}
use mathlib.Core.Bool.{Bool, true, false, ◌&&◌, decide, decide_iff}
use mathlib.Core.List.{List, [], ◌∷◌}
use mathlib.Core.Logic.{◌⊎◌, ◌≢◌, inl, inr}
use native.Mathlib.Decide.{ℕ_discrete}
use native.Mathlib.Omega.{arith}
use beefy_envio_balances_ind.Common.Tests.{Bool-cases, leb, ◌==◌, if◌then◌else◌}

abbrev pub Text : Type 0
Text = List ℕ

-- `replace` of the code points `c` at the end, by nothing
unfoldable pub strip_end : ℕ → Text → Text
strip_end c [] = []
strip_end c (a ∷ s) = elim (strip_end c s) [
  | [] ↦ if a == c then [] else a ∷ []
  | b ∷ t ↦ a ∷ b ∷ t
]

cons_dec : {a b : ℕ} {s t : Text} → Dec (a ≡ b) → Dec (s ≡ t) → Dec (a ∷ s ≡ b ∷ t)
cons_dec (yes p) (yes q) = yes (ap₂ ◌∷◌ p q)
cons_dec (yes p) (no q) = no (λ e. q (cc))
cons_dec (no p) _ = no (λ e. p (cc))

unfoldable pub Text-discrete : Discrete Text
unfolding cons_dec ℕ_discrete
Text-discrete [] [] = yes refl
Text-discrete [] (b ∷ t) = no (λ e. cc)
Text-discrete (a ∷ s) [] = no (λ e. cc)
Text-discrete (a ∷ s) (b ∷ t) = cons_dec (ℕ_discrete a b) (Text-discrete s t)

-- `a === b`
abbrev pub same_text : Text → Text → Bool
same_text a b = decide (Text-discrete a b)

pub same_text-cases :
    (a b : Text) → ((same_text a b ≡ true) × (a ≡ b)) ⊎ ((same_text a b ≡ false) × (a ≢ b))
same_text-cases a b = elim (Bool-cases (same_text a b)) [
  | inl e ↦ inl (e, (decide_iff (Text-discrete a b)).0 e)
  | inr e ↦ inr (e, λ p. let h : same_text a b ≡ true = (decide_iff (Text-discrete a b)).1 p in cc)
]

-- `toLowerCase`, on ASCII, of which hex texts are made
abbrev pub lower : ℕ → ℕ
lower c = if leb 65 c && leb c 90 then c + 32 else c

unfoldable pub to_lower : Text → Text
to_lower [] = []
to_lower (c ∷ s) = lower c ∷ to_lower s

lower_idempotent : (c : ℕ) → lower (lower c) ≡ lower c
lower_idempotent c = ground arith

pub to_lower_idempotent : (s : Text) → to_lower (to_lower s) ≡ to_lower s
unfolding to_lower
to_lower_idempotent [] = refl
to_lower_idempotent (c ∷ s) = ap₂ ◌∷◌ (lower_idempotent c) (to_lower_idempotent s)

module _ {A B : Type 0} (da : Discrete A) (db : Discrete B) where
  pair_dec : {a c : A} {b d : B} → Dec (a ≡ c) → Dec (b ≡ d) → Dec (◌≡◌ {A = A × B} (a, b) (c, d))
  pair_dec (yes p) (yes q) = yes (λ i. (p i, q i))
  pair_dec (yes p) (no q) = no (λ e. q (ap (λ r. r.1) e))
  pair_dec (no p) _ = no (λ e. p (ap (λ r. r.0) e))

  unfoldable pub pair_discrete : Discrete (A × B)
  unfolding pair_dec
  pair_discrete r s = pair_dec (da r.0 s.0) (db r.1 s.1)
