-- ===== src/Indexer/Balances/Totals.antt =====
-- The sum of the balances of a token.
use beefy_envio_balances_ind.Common.{◌≡◌, ◌≢◌, sym, ◌∙◌, ap, List, [], ◌∷◌}
use beefy_envio_balances_ind.Common.Int.{ℤ, pos, pos_part, neg_part, ◌+ℤ◌, int_laws}
use beefy_envio_balances_ind.Common.Dict.{lookup, set}
use beefy_envio_balances_ind.Indexer.Event.{ContractKey, ContractKey-discrete}
use beefy_envio_balances_ind.Indexer.Store.{BalanceKey, BalanceKey-discrete, Balance}
use beefy_envio_balances_ind.Indexer.Balances.{balance_or_zero}
use mathlib.Core.Logic.{ite, if_pos, if_neg}

-- the balances of the token `s` (its chain and address), over all accounts
unfoldable pub total : ContractKey → List (BalanceKey × Balance) → ℤ
total s [] = pos 0
total s ((k, row) ∷ m) = ite (ContractKey-discrete k.0 s) row.balance (pos 0) +ℤ total s m

-- Writing a row moves its token's total by the change of that row.
pub total-set :
    (s : ContractKey) (k : BalanceKey) (row : Balance) (m : List (BalanceKey × Balance))
    → k.0 ≡ s
    → total s (set BalanceKey-discrete k row m) +ℤ balance_or_zero (lookup BalanceKey-discrete k m)
      ≡ total s m +ℤ row.balance
unfolding total set lookup
total-set s k row [] h = rw (if_pos (ContractKey-discrete k.0 s) h) (omega int_laws)
total-set s k row ((j, old) ∷ m) h = elim (BalanceKey-discrete j k) [
  | yes p ↦
      let same : j.0 ≡ s = ap (λ i. i.0) p ∙ h in
      rw
        (
          if_pos _ p,
          if_pos _ p,
          if_pos (ContractKey-discrete j.0 s) same row.balance (pos 0),
          if_pos (ContractKey-discrete j.0 s) same old.balance (pos 0),
        )
        (omega int_laws)
  | no p ↦
      let ih = total-set s k row m h in
      rw (if_neg _ p, if_neg _ p) (omega (int_laws, ap pos_part ih, ap neg_part ih))
]

pub total-set_ne :
    (s : ContractKey) (k : BalanceKey) (row : Balance) (m : List (BalanceKey × Balance))
    → k.0 ≢ s
    → total s (set BalanceKey-discrete k row m) ≡ total s m
unfolding total set
total-set_ne s k row [] h = rw (if_neg (ContractKey-discrete k.0 s) h) (omega int_laws)
total-set_ne s k row ((j, old) ∷ m) h = elim (BalanceKey-discrete j k) [
  | yes p ↦
      let other : j.0 ≢ s = λ e. h (ap (λ i. i.0) (sym p) ∙ e) in
      rw (
        if_pos _ p,
        if_neg (ContractKey-discrete j.0 s) other row.balance (pos 0),
        if_neg (ContractKey-discrete j.0 s) other old.balance (pos 0),
      )
  | no p ↦ rw (if_neg _ p, total-set_ne s k row m h)
]
