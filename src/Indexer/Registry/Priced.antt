-- ===== src/Indexer/Registry/Priced.antt =====
-- The price facts of a row, through what is stored of it.
use mathlib.Core.Option.{none-ne-some}
use beefy_envio_balances_ind.Common.{ℕ, ◌≢◌, sym, Bool, Option, none, some, List}
use beefy_envio_balances_ind.Indexer.Event.{RawEvent}
use beefy_envio_balances_ind.Indexer.Store.{Contract, ContractKind}
use beefy_envio_balances_ind.Indexer.Registry.{Token}
use beefy_envio_balances_ind.Indexer.Registry.Facts.{PriceFacts, with_price_facts}
use beefy_envio_balances_ind.Indexer.Registry.Guard.{LinkRead, with_facts, first_of}

-- The price facts of a row are all there.
abbrev pub IsPriced : Contract → Type 0
IsPriced c = (c.product_address ≢ none) × (c.price_decimals ≢ none) × (c.product_kind ≢ none)

first_of-kept {ℓ} : {A : Type ℓ} (a b : Option A) → b ≢ none → first_of a b ≢ none
first_of-kept none b h = h
first_of-kept (some a) b h = λ e. none-ne-some a (sym e)

kind_kept :
    (o : Option ℕ) (k : ContractKind) (was : Option ContractKind)
    → was ≢ none
    → (elim o [ none ↦ was | some _ ↦ some k ]) ≢ none
kind_kept none k was h = h
kind_kept (some n) k was h = λ e. none-ne-some k (sym e)

pub with_facts-IsPriced :
    (event : RawEvent) (c : Contract) (own : Option (Token × Bool)) (reads : List LinkRead)
    → IsPriced c
    → IsPriced (with_facts event c own reads)
unfolding with_facts
with_facts-IsPriced event c own reads (p, d, k) =
    (first_of-kept _ _ p, first_of-kept _ _ d, kind_kept _ _ _ k)

pub with_price_facts-IsPriced :
    (c : Contract) (f : PriceFacts) → IsPriced c → IsPriced (with_price_facts c f)
with_price_facts-IsPriced c f (p, d, k) =
    (p, (λ e. none-ne-some f.price_decimals (sym e)), λ e. none-ne-some f.product_kind (sym e))
