-- ===== src/Indexer/Balances/Deltas.antt =====
-- What the loop of `applyBalanceDeltas` does to the balances of a token.
use beefy_envio_balances_ind.Common.{
  ℕ, ◌≡◌, ◌≢◌, refl, sym, ap, ◌∙◌, Bool, List, [], ◌∷◌, Text, All, filter_by, Bool-cases, inl, inr,
}
use beefy_envio_balances_ind.Common.Int.{ℤ, pos, pos_part, neg_part, ◌+ℤ◌, int_laws, +ℤ_zero}
use beefy_envio_balances_ind.Common.Dict.{lookup, set, lookup-set_ne}
use beefy_envio_balances_ind.Indexer.Event.{as_hex, ContractKey}
use beefy_envio_balances_ind.Indexer.Store.{BalanceKey, BalanceKey-discrete, Balance}
use beefy_envio_balances_ind.Indexer.Balances.{Delta, balance_id, supply_id, balance_or_zero}
use beefy_envio_balances_ind.Indexer.Balances.Totals.{total, total-set, total-set_ne}

unfoldable pub sum_deltas : List Delta → ℤ
sum_deltas [] = pos 0
sum_deltas (d ∷ ds) = d.delta +ℤ sum_deltas ds

-- no two of the deltas are of one account
abbrev pub IsApart : List Delta → Type 0
IsApart [] = Unit
IsApart (d ∷ ds) = All (λ e. as_hex d.account ≢ as_hex e.account) ds × IsApart ds

All-filter_by :
    (P : Delta → Type 0) (test : Delta → Bool) (ds : List Delta)
    → All P ds
    → All P (filter_by test ds)
All-filter_by P test [] h = tt
All-filter_by P test (d ∷ ds) (p, h) = elim (Bool-cases (test d)) [
  | inl in_it ↦ rw in_it (p, All-filter_by P test ds h)
  | inr out ↦ rw out (All-filter_by P test ds h)
]

pub IsApart-filter_by :
    (test : Delta → Bool) (ds : List Delta) → IsApart ds → IsApart (filter_by test ds)
IsApart-filter_by test [] h = tt
IsApart-filter_by test (d ∷ ds) (p, h) = elim (Bool-cases (test d)) [
  | inl in_it ↦ rw in_it (
    All-filter_by (λ e. as_hex d.account ≢ as_hex e.account) test ds p,
    IsApart-filter_by test ds h,
  )
  | inr out ↦ rw out (IsApart-filter_by test ds h)
]

module _ (chain : ℕ) (token : Text) (block : ℕ) (read : List (BalanceKey × Balance)) where
  abbrev pub row_after : Delta → Balance
  row_after d = record {
    token = as_hex token;
    account = as_hex d.account;
    balance =
        balance_or_zero (lookup BalanceKey-discrete (balance_id chain token d.account) read)
        +ℤ d.delta;
    last_change_block = block;
  }

  -- the balances that the loop of `applyBalanceDeltas` leaves
  unfoldable pub balances_after :
      List Delta → List (BalanceKey × Balance) → List (BalanceKey × Balance)
  balances_after [] m = m
  balances_after (d ∷ ds) m =
      balances_after ds (set BalanceKey-discrete (balance_id chain token d.account) (row_after d) m)

  abbrev pub Agrees : List (BalanceKey × Balance) → Delta → Type 0
  Agrees m d =
      lookup BalanceKey-discrete (balance_id chain token d.account) m
      ≡ lookup BalanceKey-discrete (balance_id chain token d.account) read

  pub Agrees-refl : (ds : List Delta) → All (Agrees read) ds
  Agrees-refl [] = tt
  Agrees-refl (d ∷ ds) = (refl, Agrees-refl ds)

  pub Agrees-set :
      (d : Delta) (ds : List Delta) (m : List (BalanceKey × Balance))
      → All (λ e. as_hex d.account ≢ as_hex e.account) ds
      → All (Agrees m) ds
      → All (Agrees (set BalanceKey-discrete (balance_id chain token d.account) (row_after d) m)) ds
  Agrees-set d [] m h a = tt
  Agrees-set d (e ∷ es) m (p, h) (q, a) = (
    lookup-set_ne BalanceKey-discrete (balance_id chain token d.account)
          (balance_id chain token e.account) (row_after d) m (λ same. p (ap (λ k. k.1) same))
        ∙ q,
    Agrees-set d es m h a,
  )

  pub total-balances_after :
      (ds : List Delta) (m : List (BalanceKey × Balance))
      → IsApart ds
      → All (Agrees m) ds
      → total (supply_id chain token) (balances_after ds m)
        ≡ total (supply_id chain token) m +ℤ sum_deltas ds
  unfolding balances_after sum_deltas
  total-balances_after [] m h a = sym (+ℤ_zero _)
  total-balances_after (d ∷ ds) m (p, h) (q, a) =
      let k = balance_id chain token d.account in
      let m' = set BalanceKey-discrete k (row_after d) m in
      let moved = total-set (supply_id chain token) k (row_after d) m refl in
      let moved' = rw q at moved in
      let ih = total-balances_after ds m' h (Agrees-set d ds m p a) in
      omega (int_laws, ap pos_part moved', ap neg_part moved', ap pos_part ih, ap neg_part ih)

  pub total-balances_after_ne :
      (s : ContractKey) (ds : List Delta) (m : List (BalanceKey × Balance))
      → supply_id chain token ≢ s
      → total s (balances_after ds m) ≡ total s m
  unfolding balances_after
  total-balances_after_ne s [] m h = refl
  total-balances_after_ne s (d ∷ ds) m h =
      total-balances_after_ne s ds _ h
      ∙ total-set_ne s (balance_id chain token d.account) (row_after d) m h
