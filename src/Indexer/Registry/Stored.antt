-- ===== src/Indexer/Registry/Stored.antt =====
-- What the registry's operations store in the table of contracts: rows of one id and kind.
use mathlib.Core.Path.{subst}
use beefy_envio_balances_ind.Common.{
  ℕ, ◌≡◌, refl, sym, ◌∙◌, Bool, true, false, Option, none, some, List, [], ◌∷◌, Text, map, get_or,
  inl, inr, Option-cases,
}
use beefy_envio_balances_ind.Common.Dict.{set}
use beefy_envio_balances_ind.Indexer.Event.{
  RawEvent, ContractKey, ContractKey-discrete, block_timestamp,
}
use beefy_envio_balances_ind.Indexer.Store.{Contract}
use beefy_envio_balances_ind.Indexer.Registry.{Token, Registry, Effects, ReadLink, read_facts}
use beefy_envio_balances_ind.Indexer.Registry.Facts.{
  write_token, write_read_link, new_price_facts, set_contract, complete_price_facts,
  with_price_facts,
}
use beefy_envio_balances_ind.Indexer.Registry.Guard.{
  LinkRead, read_link_token, read_own_token, write_read, write_link_tokens, write_links, with_facts,
  apply_facts,
}
use beefy_envio_balances_ind.Indexer.Registry.Priced.{
  IsPriced, with_facts-IsPriced, with_price_facts-IsPriced,
}

abbrev pub Contracts : Type 0
Contracts = List (ContractKey × Contract)

-- `Q` holds of the table after any row of this contract's id and kind is stored that has its price facts.
abbrev pub IsClosed : Contract → (Contracts → Type 0) → Type 0
IsClosed c Q =
    (u : Contract) (m : Contracts)
    → u.id ≡ c.id
    → u.kind ≡ c.kind
    → (IsPriced c → IsPriced u)
    → Q m
    → Q (set ContractKey-discrete u.id u m)

write_read-contracts :
    (chain : ℕ) (address : Text) (r : Option (Token × Bool)) (reg : Registry)
    → (write_read chain address r reg).contracts ≡ reg.contracts
unfolding write_token
write_read-contracts chain address none reg = refl
write_read-contracts chain address (some (row, true)) reg = refl
write_read-contracts chain address (some (row, false)) reg = refl

write_link_tokens-contracts :
    (chain : ℕ) (ls : List LinkRead) (reg : Registry)
    → (write_link_tokens chain ls reg).contracts ≡ reg.contracts
unfolding write_link_tokens
write_link_tokens-contracts chain [] reg = refl
write_link_tokens-contracts chain (l ∷ ls) reg = elim (Option-cases l.link.to) [
  | inl n ↦ rw n (write_link_tokens-contracts chain ls reg)
  | inr (to, e) ↦ rw e (
      write_link_tokens-contracts chain ls (write_read chain to l.token reg)
      ∙ write_read-contracts chain to l.token reg)
]

write_links-contracts :
    (contract : Contract) (block timestamp : ℕ) (ls : List ReadLink) (reg : Registry)
    → (write_links contract block timestamp ls reg).contracts ≡ reg.contracts
unfolding write_links write_read_link
write_links-contracts contract block timestamp [] reg = refl
write_links-contracts contract block timestamp (l ∷ ls) reg = elim (Option-cases l.to) [
  | inl n ↦ rw n (write_links-contracts contract block timestamp ls reg)
  | inr (to, e) ↦ rw e (write_links-contracts contract block timestamp ls _)
]

module _ (Q : Contracts → Type 0) where
  pub complete_price_facts-closed :
      (chain : ℕ) (contract : Contract) (reg : Registry)
      → IsClosed contract Q
      → Q reg.contracts
      → Q (complete_price_facts chain contract reg).1.contracts
  unfolding complete_price_facts set_contract
  complete_price_facts-closed chain contract reg h q =
      elim (Option-cases (new_price_facts chain contract reg)) [
        | inl n ↦ rw (n, complete_price_facts) q
        | inr (facts, e) ↦
            rw (e, complete_price_facts)
              (h (with_price_facts contract facts) reg.contracts refl refl
                (with_price_facts-IsPriced contract facts) q)
      ]

  pub apply_facts-closed :
      (fx : Effects) (event : RawEvent) (contract : Contract) (reg : Registry)
      → IsClosed contract Q
      → Q reg.contracts
      → Q (apply_facts fx event contract reg).1.contracts
  unfolding apply_facts with_facts set_contract
  apply_facts-closed fx event contract reg h q =
      let chain = event.chain_id in
      let links = read_facts fx contract.kind contract.address in
      let own = read_own_token fx chain reg contract in
      let reads = map (read_link_token fx chain reg) links in
      let owned = write_read chain contract.address own reg in
      let stored = write_link_tokens chain reads owned in
      let linked =
        write_links contract (get_or contract.created_block event.block_number)
          (get_or contract.created_timestamp (block_timestamp event)) links stored in
      let updated = with_facts event contract own reads in
      let kept : IsPriced contract → IsPriced updated =
        with_facts-IsPriced event contract own reads in
      let same : linked.contracts ≡ reg.contracts =
        write_links-contracts contract _ _ links stored
        ∙ write_link_tokens-contracts chain reads owned
        ∙ write_read-contracts chain contract.address own reg in
      complete_price_facts-closed chain updated (set_contract updated linked)
        (λ u m i k p. h u m i k (λ x. p (kept x)))
        (h updated linked.contracts refl refl kept (subst Q (sym same) q))
