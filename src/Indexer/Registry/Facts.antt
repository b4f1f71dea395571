-- ===== src/Indexer/Registry/Facts.antt =====
-- Token rows, links and the facts of a contract: `tokenRow`, `completePriceFacts` and `applyFacts`.
use beefy_envio_balances_ind.Common.{
  ℕ, ◌+◌, Bool, true, false, not, ◌&&◌, ◌||◌, Option, none, some, ◌==◌, if◌then◌else◌, Text, leb,
}
use beefy_envio_balances_ind.Common.Dict.{lookup, set}
use beefy_envio_balances_ind.Indexer.Event.{
  RawEvent, as_hex, ContractKey-discrete, contract_id, block_timestamp,
}
use beefy_envio_balances_ind.Indexer.Store.{
  Contract, ContractKind, vault, boost, reward_pool, clm_manager, unknown, ok, partial,
}
use beefy_envio_balances_ind.Indexer.Registry.{
  LinkRelation, boost_staked, reward_pool_staked, LinkKey-discrete, Token, Registry, Effects,
  facts_retry_blocks, is_kind, read, event,
}

-- A token row as read and written by `tokenRow`: the row, and whether it is to be stored
unfoldable pub token_of : Effects → Text → Bool → Bool → Option Token → Token × Bool
token_of fx address is_beefy_share retry_invalid existing =
    let metadata = fx.get_token_metadata (as_hex address) in
    let row = λ (share : Bool).
      (let t : Token = record {
        address = as_hex address;
        decimals = metadata.decimals;
        symbol = metadata.symbol;
        name = metadata.name;
        metadata_ok = metadata.ok;
        is_beefy_share = share;
      } in
        t) in
    elim existing [
      | none ↦ (row is_beefy_share, true)
      | some t ↦
          let upgrades_share = is_beefy_share && not t.is_beefy_share in
          if not upgrades_share && (t.metadata_ok || not retry_invalid)
          then (t, false)
          else (row (is_beefy_share || t.is_beefy_share), true)
    ]

abbrev pub read_token : Effects → ℕ → Text → Bool → Bool → Registry → Token × Bool
read_token fx chain address is_beefy_share retry_invalid reg =
    token_of fx address is_beefy_share retry_invalid
      (lookup ContractKey-discrete (contract_id chain address) reg.tokens)

unfoldable pub write_token : ℕ → Text → Token × Bool → Registry → Registry
write_token chain address (row, written) reg =
    if written
    then record reg { tokens = set ContractKey-discrete (contract_id chain address) row reg.tokens }
    else reg

unfoldable pub token_row : Effects → ℕ → Text → Bool → Bool → Registry → Token × Registry
token_row fx chain address is_beefy_share retry_invalid reg =
    let r = read_token fx chain address is_beefy_share retry_invalid reg in
    (r.0, write_token chain address r reg)

abbrev pub ensure_token : Effects → ℕ → Text → Bool → Bool → Registry → Bool × Registry
ensure_token fx chain address is_beefy_share retry_invalid reg =
    let (row, reg') = token_row fx chain address is_beefy_share retry_invalid reg in
    (row.metadata_ok, reg')

-- a link discovered from an event
unfoldable pub write_event_link : RawEvent → LinkRelation → Text → Registry → Registry
write_event_link e relation to reg = record reg {
  links =
      set LinkKey-discrete (((e.chain_id, as_hex e.trx_hash), some e.log_index), relation)
        (record {
          from_address = as_hex e.src_address;
          to_address = as_hex to;
          relation = relation;
          source = event;
          since_block = e.block_number;
          since_timestamp = block_timestamp e;
          trx_hash = some (as_hex e.trx_hash);
          log_index = some e.log_index;
        })
        reg.links;
}

unfoldable pub write_read_link : Contract → ℕ → ℕ → LinkRelation → Text → Registry → Registry
write_read_link contract since_block since_timestamp relation to reg = record reg {
  links =
      set LinkKey-discrete ((contract.id, none), relation)
        (record {
          from_address = contract.address;
          to_address = as_hex to;
          relation = relation;
          source = read;
          since_block = since_block;
          since_timestamp = since_timestamp;
          trx_hash = none;
          log_index = none;
        })
        reg.links;
}

unfoldable pub needs_facts : Contract → ℕ → Bool
needs_facts contract block = not (is_kind contract.kind unknown) && elim contract.facts_block [
  | none ↦ true
  | some read_at ↦ elim contract.facts_status [
    | none ↦ false
    | some ok ↦ false
    | some partial ↦ leb (read_at + facts_retry_blocks) block
  ]
]

abbrev pub is_product : ContractKind → Bool
is_product kind = is_kind kind vault || is_kind kind clm_manager

-- `STAKED_RELATIONS`
unfoldable pub staked_relation : ContractKind → Option LinkRelation
staked_relation kind =
    if is_kind kind boost
    then some boost_staked
    else if is_kind kind reward_pool
    then some reward_pool_staked
    else none

pub record PriceFacts : Type 0 where
  pub price_decimals : ℕ
  pub product_kind : ContractKind

abbrev price_facts : Option ℕ → ContractKind → Option PriceFacts
price_facts none kind = none
price_facts (some n) kind = some (record { price_decimals = n; product_kind = kind })

abbrev token_decimals : Option Token → Option ℕ
token_decimals none = none
token_decimals (some t) = t.decimals

unfoldable pub staked_price_facts : Registry → ℕ → ContractKind → Text → Option PriceFacts
staked_price_facts reg chain kind product =
    let id = contract_id chain product in
    let decimals = token_decimals (lookup ContractKey-discrete id reg.tokens) in
    let unregistered = if is_kind kind reward_pool then price_facts decimals unknown else none in
    elim (lookup ContractKey-discrete id reg.contracts) [
      | none ↦ unregistered
      | some row ↦
          if is_kind row.kind unknown
          then unregistered
          else price_facts (if is_product row.kind then row.price_decimals else decimals) row.kind
    ]

-- whether the price facts are there and final
unfoldable pub has_price_facts : Contract → Bool
has_price_facts c = elim c.price_decimals [
  | none ↦ false
  | some _ ↦ elim c.product_kind [ none ↦ true | some kind ↦ not (is_kind kind unknown) ]
]

unfoldable pub same_price_facts : Contract → PriceFacts → Bool
same_price_facts c f = elim c.price_decimals [
  | none ↦ false
  | some n ↦ elim c.product_kind [
    | none ↦ false
    | some kind ↦ (f.price_decimals == n) && is_kind f.product_kind kind
  ]
]

abbrev pub with_price_facts : Contract → PriceFacts → Contract
with_price_facts c f = record c {
  price_decimals = some f.price_decimals;
  product_kind = some f.product_kind;
}

-- `context.Contract.set`
unfoldable pub set_contract : Contract → Registry → Registry
set_contract c reg = record reg { contracts = set ContractKey-discrete c.id c reg.contracts }

-- the price facts that `completePriceFacts` finds and the row lacks: none at its early returns
unfoldable pub new_price_facts : ℕ → Contract → Registry → Option PriceFacts
new_price_facts chain contract reg = elim contract.product_address [
  | none ↦ none
  | some product ↦ if has_price_facts contract then none else elim (staked_relation contract.kind) [
    | none ↦ none
    | some _ ↦ elim (staked_price_facts reg chain contract.kind product) [
      | none ↦ none
      | some facts ↦ if same_price_facts contract facts then none else some facts
    ]
  ]
]

unfoldable pub complete_price_facts : ℕ → Contract → Registry → Contract × Registry
complete_price_facts chain contract reg = elim (new_price_facts chain contract reg) [
  | none ↦ (contract, reg)
  | some facts ↦
      (with_price_facts contract facts, set_contract (with_price_facts contract facts) reg)
]
