-- ===== src/Common/Sums.antt =====
-- Sums of signed integers over the entries of a map.
use mathlib.Core.Path.{◌≡◌, ap}
use mathlib.Core.Logic.{if_pos, if_neg}
use mathlib.Core.Option.{Option, none, some}
use mathlib.Core.List.{List, [], ◌∷◌}
use beefy_envio_balances_ind.Common.Int.{ℤ, pos, pos_part, neg_part, ◌+ℤ◌, int_laws}
use beefy_envio_balances_ind.Common.Dict.{lookup, set}

module _ {K V : Type 0} (dec : Discrete K) (f : K → V → ℤ) where
  unfoldable pub sum_entries : List (K × V) → ℤ
  sum_entries [] = pos 0
  sum_entries ((k, v) ∷ m) = f k v +ℤ sum_entries m

  -- what the map holds at a key
  abbrev pub held : K → Option V → ℤ
  held k none = pos 0
  held k (some v) = f k v

  -- Writing an entry moves the sum by the change of that entry.
  pub sum_entries-set :
      (k : K) (v : V) (m : List (K × V))
      → sum_entries (set dec k v m) +ℤ held k (lookup dec k m) ≡ sum_entries m +ℤ f k v
  unfolding sum_entries set lookup
  sum_entries-set k v [] = omega int_laws
  sum_entries-set k v ((j, w) ∷ m) = elim (dec j k) [
    | yes p ↦
        let same = ap (λ x. f x w) p in
        let same_new = ap (λ x. f x v) p in
        rw (if_pos _ p, if_pos _ p, same, same_new) (omega int_laws)
    | no n ↦
        let ih = sum_entries-set k v m in
        rw (if_neg _ n, if_neg _ n) (omega (int_laws, ap pos_part ih, ap neg_part ih))
  ]
