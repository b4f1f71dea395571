-- ===== src/Indexer/Registry/Tests.antt =====
-- A vault from its creation event on, with a read that fails at first.
use mathlib.Core.Bool.{decide}
use mathlib.Core.Option.{none-ne-some}
use beefy_envio_balances_ind.Common.{
  ℕ, ◌+◌, ◌≡◌, ◌≢◌, ◌≤◌, refl, Bool, true, false, Option, none, some, [], ◌∷◌, Text, Text-discrete,
  to_lower, map,
}
use beefy_envio_balances_ind.Common.Dict.{lookup, set}
use beefy_envio_balances_ind.Indexer.Event.{RawEvent, ContractKey-discrete, contract_id}
use beefy_envio_balances_ind.Indexer.Store.{Contract, vault, boost, unknown, partial, ok}
use beefy_envio_balances_ind.Indexer.Registry.{
  LinkRelation-discrete, ContractKind-discrete, LinkKey-discrete, Metadata, Registry, Effects,
  read_facts,
}
use beefy_envio_balances_ind.Indexer.Registry.Facts.{
  token_of, write_token, write_read_link, needs_facts, staked_relation, staked_price_facts,
  has_price_facts, same_price_facts, set_contract, new_price_facts, complete_price_facts,
}
use beefy_envio_balances_ind.Indexer.Registry.Guard.{
  write_link_tokens, write_links, is_complete, find_link, with_facts, apply_facts,
  register_created_contract, ensure_contract,
}
use beefy_envio_balances_ind.Indexer.Registry.Keyed.{IsKeyed, IsKeyed-set, kind_at}
use beefy_envio_balances_ind.Indexer.Registry.Kinds.{
  here, registered, ensured, Later-kind_at, Later-IsPriced,
}
use beefy_envio_balances_ind.Indexer.Registry.Priced.{IsPriced}
use beefy_envio_balances_ind.Indexer.Registry.Reads.{apply_facts-needs_facts, ensure_contract-guard}

program : Unit {0}
unfolding decide to_lower Text-discrete lookup set ContractKey-discrete LinkRelation-discrete
    ContractKind-discrete LinkKey-discrete read_facts token_of write_token write_read_link
    needs_facts staked_relation staked_price_facts has_price_facts same_price_facts set_contract
    new_price_facts complete_price_facts write_link_tokens write_links is_complete find_link
    with_facts apply_facts register_created_contract ensure_contract
program = tt

abbrev at_block : ℕ → RawEvent
at_block n = record {
  chain_id = 10;
  src_address = 7 ∷ [];
  log_index = 1;
  block_number = n;
  block_timestamp = 5000;
  trx_hash = 9 ∷ [];
  trx_from = none;
}

abbrev nothing : Text → Option Text
nothing a = none

-- the chain answers with this want for every vault, and with 18 decimals for every token
abbrev answers : Option Text → Effects
answers want = record {
  read_vault_want = λ a. want;
  read_strategy_vault = nothing;
  read_clm_strategy_vault = nothing;
  read_clm_strategy_pool = nothing;
  read_boost_staked = nothing;
  read_boost_reward = nothing;
  read_reward_pool_staked = nothing;
  read_clm_want0 = nothing;
  read_clm_want1 = nothing;
  read_adapter_vault = nothing;
  read_asset = nothing;
  get_token_metadata = λ a.
      (let m : Metadata = record { ok = true; decimals = some 18; symbol = none; name = none } in
        m);
}

abbrev no_list : ℕ → Text → Bool
no_list chain address = false

abbrev blank : Registry
blank = record { contracts = []; tokens = []; links = [] }

-- the first event of the vault finds no want
abbrev first : Registry
first = (ensure_contract no_list (answers none) (at_block 100) vault blank).1

abbrev first_row : Contract
first_row = record {
  id = (10, 7 ∷ []);
  address = 7 ∷ [];
  kind = vault;
  factory = none;
  created_block = none;
  created_timestamp = none;
  created_trx_hash = none;
  deploy_name = none;
  facts_block = some 100;
  facts_status = some partial;
  product_address = some (7 ∷ []);
  price_decimals = none;
  product_kind = none;
}

-- it is not read again before block 10100
retries :
    (map (λ e. needs_facts e.1 10099) first.contracts ≡ false ∷ [])
    × (map (λ e. needs_facts e.1 10100) first.contracts ≡ true ∷ [])
unfolding program
retries = (refl, refl)

-- the retry finds it, with its decimals
found_later :
    let row = (ensure_contract no_list (answers (some (5 ∷ []))) (at_block 10100) vault first).0 in
    (row
      ≡ some (record first_row {
        facts_block = some 10100;
        facts_status = some ok;
        price_decimals = some 18;
        product_kind = some vault;
      }))
unfolding program
found_later = refl

-- another kind's handler is turned away
turned_away : (ensure_contract no_list (answers none) (at_block 101) boost first).0 ≡ none
unfolding program
turned_away = refl

first-IsKeyed : IsKeyed first.contracts
unfolding program
first-IsKeyed = IsKeyed-set first_row [] (λ k c e. elim (none-ne-some c e) [ ])

vault-ne-unknown : vault ≢ unknown
vault-ne-unknown = λ e. cc

first_kind : kind_at (10, 7 ∷ []) first ≡ some vault
unfolding program
first_kind = refl

Later-kind_at_example :
    kind_at
      (10, 7 ∷ [])
      (register_created_contract (answers none) (at_block 200) (7 ∷ []) boost none first).1
    ≡ some vault
Later-kind_at_example =
    Later-kind_at no_list (10, 7 ∷ []) vault first
      (register_created_contract (answers none) (at_block 200) (7 ∷ []) boost none first).1
      first-IsKeyed first_kind vault-ne-unknown
      (registered (answers none) (at_block 200) (7 ∷ []) boost none first here)

abbrev read_row : Contract
read_row = (apply_facts (answers none) (at_block 100) first_row blank).0

needs_again : needs_facts read_row 10100 ≡ true
unfolding program
needs_again = refl

read_stored :
    lookup ContractKey-discrete
      (10, 7 ∷ [])
      (apply_facts (answers none) (at_block 100) first_row blank).1.contracts
    ≡ some read_row
unfolding program
read_stored = refl

apply_facts-needs_facts_example :
    (read_row ≡ (apply_facts (answers none) (at_block 100) first_row blank).0)
    × (read_row.facts_status ≡ some partial)
    × (100 + 10000 ≤ 10100)
apply_facts-needs_facts_example =
    apply_facts-needs_facts (answers none) (at_block 100) first_row blank read_row 10100 read_stored
      needs_again

goes_on : (ensure_contract no_list (answers none) (at_block 101) vault first).0 ≡ some first_row
unfolding program
goes_on = refl

ensure_contract-guard_example :
    (false ≡ false) × (vault ≡ vault) × (first_row.id ≡ contract_id 10 (7 ∷ []))
ensure_contract-guard_example =
    ensure_contract-guard no_list (answers none) (at_block 101) vault first first_row first-IsKeyed
      goes_on

abbrev priced_row : Contract
priced_row = record first_row { price_decimals = some 6; product_kind = some vault }

priced : IsPriced priced_row
priced = ((λ e. cc), (λ e. cc), λ e. cc)

-- a registry with that row
abbrev priced_registry : Registry
priced_registry = set_contract priced_row blank

priced_registry-IsKeyed : IsKeyed priced_registry.contracts
unfolding program
priced_registry-IsKeyed = IsKeyed-set priced_row [] (λ k c e. elim (none-ne-some c e) [ ])

priced_stored : lookup ContractKey-discrete (10, 7 ∷ []) priced_registry.contracts ≡ some priced_row
unfolding program
priced_stored = refl

-- its facts are read again, with no answer
Later-IsPriced_example :
    (d : Contract) × (lookup ContractKey-discrete
        (10, 7 ∷ [])
        (ensure_contract no_list (answers none) (at_block 20000) vault priced_registry).1.contracts
      ≡ some d)
    × IsPriced d
Later-IsPriced_example =
    Later-IsPriced no_list (10, 7 ∷ []) priced_row priced_registry
      (ensure_contract no_list (answers none) (at_block 20000) vault priced_registry).1
      priced_registry-IsKeyed priced_stored vault-ne-unknown priced
      (ensured (answers none) (at_block 20000) vault priced_registry here)
