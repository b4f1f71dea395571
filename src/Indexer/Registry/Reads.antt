-- ===== src/Indexer/Registry/Reads.antt =====
-- When facts are read again, what the guard lets through, and what a read keeps.
use mathlib.Core.Path.{subst}
use mathlib.Core.Option.{none-ne-some, some-injective}
use mathlib.Core.Bool.{decide_iff}
use beefy_envio_balances_ind.Common.{
  ℕ, ◌+◌, ◌≡◌, ◌≤◌, refl, sym, ◌∙◌, Bool, true, false, Option, some, List, Text, map, Bool-cases,
  Option-cases, inl, inr, arith,
}
use beefy_envio_balances_ind.Common.Dict.{lookup, lookup-set_self}
use beefy_envio_balances_ind.Indexer.Event.{
  RawEvent, ContractKey, ContractKey-discrete, contract_id,
}
use beefy_envio_balances_ind.Indexer.Store.{Contract, ContractKind, partial}
use beefy_envio_balances_ind.Indexer.Registry.{
  Registry, Effects, Token, is_kind, read_facts, ContractKind-discrete,
}
use beefy_envio_balances_ind.Indexer.Registry.Facts.{
  PriceFacts, needs_facts, new_price_facts, complete_price_facts, with_price_facts, set_contract,
}
use beefy_envio_balances_ind.Indexer.Registry.Keyed.{IsKeyed}
use beefy_envio_balances_ind.Indexer.Registry.Guard.{
  LinkRead, with_facts, apply_facts, with_current_facts, listed_row, ensure_contract,
  read_link_token, read_own_token,
}

-- Any fact of a row that price facts do not touch is that of the row before.
complete_price_facts-row :
    (P : Contract → Type 0) (chain : ℕ) (contract : Contract) (reg : Registry)
    → ((f : PriceFacts) → P (with_price_facts contract f))
    → P contract
    → P (complete_price_facts chain contract reg).0
unfolding complete_price_facts
complete_price_facts-row P chain contract reg h p =
    elim (Option-cases (new_price_facts chain contract reg)) [
      | inl n ↦ rw (n, complete_price_facts) p
      | inr (facts, e) ↦ rw (e, complete_price_facts) (h facts)
    ]

apply_facts-row :
    (P : Contract → Type 0) (fx : Effects) (event : RawEvent) (contract : Contract) (reg : Registry)
    → ((own : Option (Token × Bool))
        → (reads : List LinkRead) → (f : PriceFacts)
        → P (with_price_facts (with_facts event contract own reads) f))
    → ((own : Option (Token × Bool))
        → (reads : List LinkRead) → P (with_facts event contract own reads))
    → P (apply_facts fx event contract reg).0
unfolding apply_facts
apply_facts-row P fx event contract reg h p =
    let own = read_own_token fx event.chain_id reg contract in
    let reads =
      map (read_link_token fx event.chain_id reg) (read_facts fx contract.kind contract.address) in
    complete_price_facts-row P event.chain_id (with_facts event contract own reads) _ (h own reads)
      (p own reads)

retried :
    (c : Contract) (later block : ℕ)
    → c.facts_block ≡ some block
    → needs_facts c later ≡ true
    → (c.facts_status ≡ some partial) × (block + 10000 ≤ later)
unfolding needs_facts
retried c later block e h = ground arith

complete_price_facts-stored :
    (chain : ℕ) (c : Contract) (reg : Registry)
    → lookup ContractKey-discrete c.id reg.contracts ≡ some c
    → lookup ContractKey-discrete c.id (complete_price_facts chain c reg).1.contracts
      ≡ some (complete_price_facts chain c reg).0
unfolding complete_price_facts set_contract
complete_price_facts-stored chain c reg h = elim (Option-cases (new_price_facts chain c reg)) [
  | inl n ↦ rw (n, complete_price_facts) h
  | inr (facts, e) ↦
      rw (e, complete_price_facts)
        (lookup-set_self ContractKey-discrete c.id (with_price_facts c facts) reg.contracts)
]

-- the row that a read returns is the one that it stores
apply_facts-stored :
    (fx : Effects) (event : RawEvent) (contract : Contract) (reg : Registry)
    → lookup ContractKey-discrete contract.id (apply_facts fx event contract reg).1.contracts
      ≡ some (apply_facts fx event contract reg).0
unfolding apply_facts with_facts set_contract
apply_facts-stored fx event contract reg =
    let own = read_own_token fx event.chain_id reg contract in
    let reads =
      map (read_link_token fx event.chain_id reg) (read_facts fx contract.kind contract.address) in
    complete_price_facts-stored event.chain_id (with_facts event contract own reads) _
      (lookup-set_self ContractKey-discrete contract.id (with_facts event contract own reads) _)

returned_retried :
    (fx : Effects) (event : RawEvent) (contract : Contract) (reg : Registry) (later : ℕ)
    → needs_facts (apply_facts fx event contract reg).0 later ≡ true
    → ((apply_facts fx event contract reg).0.facts_status ≡ some partial)
      × (event.block_number + 10000 ≤ later)
unfolding with_facts
returned_retried fx event contract reg later =
    apply_facts-row
      (λ c.
        needs_facts c later ≡ true
        → (c.facts_status ≡ some partial) × (event.block_number + 10000 ≤ later))
      fx event contract reg
      (λ own reads f.
        retried (with_price_facts (with_facts event contract own reads) f) later event.block_number
          refl)
      (λ own reads. retried (with_facts event contract own reads) later event.block_number refl)

-- A read stores the row that it returns. The facts of a row that a read at a block has stored are read
-- again only if that read was partial, and only at events at least 10000 blocks later.
pub apply_facts-needs_facts :
    (fx : Effects) (event : RawEvent) (contract : Contract) (reg : Registry) (stored : Contract)
    (later : ℕ)
    → lookup ContractKey-discrete contract.id (apply_facts fx event contract reg).1.contracts
      ≡ some stored
    → needs_facts stored later ≡ true
    → (stored ≡ (apply_facts fx event contract reg).0)
      × (stored.facts_status ≡ some partial)
      × (event.block_number + 10000 ≤ later)
apply_facts-needs_facts fx event contract reg stored later at again =
    let same : (apply_facts fx event contract reg).0 ≡ stored =
      some-injective _ stored (sym (apply_facts-stored fx event contract reg) ∙ at) in
    subst
      (λ c.
        needs_facts c later ≡ true
        → (c ≡ (apply_facts fx event contract reg).0)
          × (c.facts_status ≡ some partial)
          × (event.block_number + 10000 ≤ later))
      same (λ h. let r = returned_retried fx event contract reg later h in (refl, r.0, r.1)) again

with_current_facts-row :
    (P : Contract → Type 0) (fx : Effects) (event : RawEvent) (contract : Contract) (reg : Registry)
    → P contract
    → ((f : PriceFacts) → P (with_price_facts contract f))
    → ((own : Option (Token × Bool))
        → (reads : List LinkRead) → P (with_facts event contract own reads))
    → ((own : Option (Token × Bool))
        → (reads : List LinkRead) → (f : PriceFacts)
        → P (with_price_facts (with_facts event contract own reads) f))
    → P (with_current_facts fx event contract reg).0
with_current_facts-row P fx event contract reg p q r s =
    elim (Bool-cases (needs_facts contract event.block_number)) [
      | inl n ↦ rw n (apply_facts-row P fx event contract reg s r)
      | inr n ↦ rw n (complete_price_facts-row P event.chain_id contract reg q p)
    ]

some_row : (P : Contract → Type 0) (c d : Contract) → P d → some d ≡ some c → P c
some_row P c d p e = subst P (some-injective d c e) p

guard_row :
    (fx : Effects) (event : RawEvent) (kind : ContractKind) (id : ContractKey) (d : Contract)
    (reg : Registry)
    → d.kind ≡ kind
    → d.id ≡ id
    → (let r = (with_current_facts fx event d reg).0 in (r.kind ≡ kind) × (r.id ≡ id))
unfolding with_facts
guard_row fx event kind id d reg k i =
    with_current_facts-row (λ r. (r.kind ≡ kind) × (r.id ≡ id)) fx event d reg (k, i) (λ f. (k, i))
      (λ own reads. (k, i)) (λ own reads f. (k, i))

-- A handler goes on only for an address that is not blacklisted, with the row of that address and of
-- the handler's kind.
pub ensure_contract-guard :
    (is_blacklisted : ℕ → Text → Bool) (fx : Effects) (event : RawEvent) (kind : ContractKind)
    (reg : Registry) (c : Contract)
    → IsKeyed reg.contracts
    → (ensure_contract is_blacklisted fx event kind reg).0 ≡ some c
    → (is_blacklisted event.chain_id event.src_address ≡ false)
      × (c.kind ≡ kind)
      × (c.id ≡ contract_id event.chain_id event.src_address)
unfolding ensure_contract
ensure_contract-guard is_blacklisted fx event kind reg c keyed =
    let id = contract_id event.chain_id event.src_address in
    let P : Contract → Type 0 = λ d. (d.kind ≡ kind) × (d.id ≡ id) in
    elim (Bool-cases (is_blacklisted event.chain_id event.src_address)) [
      | inl b ↦ rw (b, ensure_contract) (λ e. elim (none-ne-some c e) [ ])
      | inr b ↦ elim (Option-cases (lookup ContractKey-discrete id reg.contracts)) [
        | inl n ↦
            rw (b, n, ensure_contract)
              (λ e.
                let r =
                  some_row P c _ (guard_row fx event kind id (listed_row event kind) reg refl refl)
                    e in
                (refl, r.0, r.1))
        | inr (d, f) ↦ elim (Bool-cases (is_kind d.kind kind)) [
          | inl s ↦
              rw (b, f, s, ensure_contract)
                (λ e.
                  let r =
                    some_row P c _
                      (guard_row fx event kind id d reg
                        ((decide_iff (ContractKind-discrete d.kind kind)).0 s) (keyed id d f))
                      e in
                  (refl, r.0, r.1))
          | inr s ↦ rw (b, f, s, ensure_contract) (λ e. elim (none-ne-some c e) [ ])
        ]
      ]
    ]
