-- ===== src/Indexer/Timeline.antt =====
-- `TimelineEvent` rows, apps/indexer/src/lib/timeline.ts. The cached price of the head price source
-- (lib/headPrices.ts, which reads the clock) is an argument.
pub mod Flow
pub mod Zap
mod Tests
use beefy_envio_balances_ind.Common.{
  ℕ, ◌≡◌, Bool, true, false, not, ◌&&◌, Option, none, some, List, [], ◌∷◌, ◌++◌, ◌==◌,
  if◌then◌else◌, get_or, some_of, filter_by, Text, same_text,
}
use beefy_envio_balances_ind.Common.Int.{ℤ, pos}
use beefy_envio_balances_ind.Common.Dict.{lookup, set}
use beefy_envio_balances_ind.Indexer.Event.{
  RawEvent, as_hex, zero_address, is_zero_address, ContractKey, ContractKey-discrete,
  block_timestamp,
}
use beefy_envio_balances_ind.Indexer.Store.{
  Contract, ContractKind, TimelineKind, TimelineKey, TimelineKey-discrete, Source, blank, mint,
  burn, HeadColumns, TimelineEvent, ShareFlow, Store,
}

pub record HeadPrice : Type 0 where
  pub price : ℕ
  pub fetched_at : ℕ
  pub decimals : Option ℕ

-- `headPriceAt(chainId, contract, blockTimestamp)`
abbrev pub HeadPriceSource : Type 0
HeadPriceSource = ℕ → Text → ℕ → Option HeadPrice

abbrev pub no_head : HeadColumns
no_head = record {
  head_price = none;
  head_price_at = none;
  head_product = none;
  head_decimals = none;
  head_product_kind = none;
  head_contract_kind = none;
}

-- the columns once the price facts are known
unfoldable pub known_head : Contract → Text → ℕ → ContractKind → Option HeadPrice → HeadColumns
known_head contract product decimals kind head = record {
  head_price = elim head [ none ↦ none | some h ↦ some h.price ];
  head_price_at = elim head [ none ↦ none | some h ↦ some h.fetched_at ];
  head_product = some product;
  head_decimals = elim head [ none ↦ some decimals | some h ↦ some (get_or h.decimals decimals) ];
  head_product_kind = some kind;
  head_contract_kind = some contract.kind;
}

-- The kind-specific columns; the defaults are those of every other row.
pub record Fields : Type 0 where
  pub source : Source
  pub delta : ℤ
  pub shares_after : ℤ
  pub amount0 : ℕ
  pub amount1 : ℕ
  pub reward_token : Text
  pub reward_amount : ℕ

abbrev pub no_fields : Fields
no_fields = record {
  source = blank;
  delta = pos 0;
  shares_after = pos 0;
  amount0 = 0;
  amount1 = 0;
  reward_token = [];
  reward_amount = 0;
}

-- a transfer of the flow, put together from the four arrays of the row
pub record Leg : Type 0 where
  pub from : Text
  pub to : Text
  pub value : ℕ
  pub log_index : ℕ

abbrev head_or {ℓ} : {A : Type ℓ} → List A → A → A
head_or [] d = d
head_or (x ∷ xs) d = x

abbrev rest {ℓ} : {A : Type ℓ} → List A → List A
rest [] = []
rest (x ∷ xs) = xs

unfoldable pub legs_of : List Text → List Text → List ℕ → List ℕ → List Leg
legs_of froms tos [] logs = []
legs_of froms tos (v ∷ vs) logs =
    record {
      from = head_or froms zero_address;
      to = head_or tos zero_address;
      value = v;
      log_index = head_or logs 0;
    }
    ∷ legs_of (rest froms) (rest tos) vs (rest logs)

abbrev pub legs : ShareFlow → List Leg
legs flow = legs_of flow.from_addresses flow.to_addresses flow.values flow.log_indexes

-- the flow of the transaction: a stored one of another transaction is over
unfoldable pub flow_of : Text → Option ShareFlow → ShareFlow
flow_of hash none = record {
  trx_hash = hash;
  from_addresses = [];
  to_addresses = [];
  values = [];
  log_indexes = [];
}
flow_of hash (some stored) = if same_text stored.trx_hash hash then stored else record {
  trx_hash = hash;
  from_addresses = [];
  to_addresses = [];
  values = [];
  log_indexes = [];
}

-- a leg of `value` to `account`, from 0x0 or from an account
abbrev pub minted_to : Text → ℕ → Leg → Bool
minted_to account value leg =
    is_zero_address leg.from && same_text leg.to (as_hex account) && (leg.value == value)

abbrev pub sent_to : Text → ℕ → Leg → Bool
sent_to account value leg =
    not (is_zero_address leg.from) && same_text leg.to (as_hex account) && (leg.value == value)

abbrev pub with_leg : ShareFlow → Leg → ShareFlow
with_leg flow leg = record flow {
  from_addresses = flow.from_addresses ++ leg.from ∷ [];
  to_addresses = flow.to_addresses ++ leg.to ∷ [];
  values = flow.values ++ leg.value ∷ [];
  log_indexes = flow.log_indexes ++ leg.log_index ∷ [];
}

abbrev pub timeline_id : RawEvent → Text → TimelineKind → ℕ → TimelineKey
timeline_id event account kind log_index =
    ((((event.chain_id, as_hex event.trx_hash), log_index), as_hex account), kind)

module _ (head_price_at : HeadPriceSource) where
  unfoldable pub head_columns : RawEvent → Contract → HeadColumns
  head_columns event contract = elim contract.product_address [
    | none ↦ no_head
    | some product ↦ elim contract.price_decimals [
      | none ↦ no_head
      | some decimals ↦ elim contract.product_kind [
        | none ↦ no_head
        | some kind ↦
            known_head contract product decimals kind
              (head_price_at event.chain_id contract.address event.block_timestamp)
      ]
    ]
  ]

  unfoldable pub timeline_row :
      RawEvent → Contract → Text → TimelineKind → Fields → ℕ → TimelineEvent
  timeline_row event contract account kind fields log_index = record {
    account = as_hex account;
    kind = kind;
    contract = contract.address;
    source = fields.source;
    delta = fields.delta;
    shares_after = fields.shares_after;
    amount0 = fields.amount0;
    amount1 = fields.amount1;
    reward_token = fields.reward_token;
    reward_amount = fields.reward_amount;
    block_number = event.block_number;
    block_timestamp = block_timestamp event;
    log_index = log_index;
    trx_hash = as_hex event.trx_hash;
    head = head_columns event contract;
  }

  -- `context.TimelineEvent.set(timelineRow(...))`
  unfoldable pub set_row : RawEvent → Contract → Text → TimelineKind → Fields → ℕ → Store → Store
  set_row event contract account kind fields log_index store = record store {
    timeline =
        set TimelineKey-discrete (timeline_id event account kind log_index)
          (timeline_row event contract account kind fields log_index) store.timeline;
  }

  abbrev pub write_timeline_event :
      RawEvent → Contract → Text → TimelineKind → Fields → Store → Store
  write_timeline_event event contract account kind fields store =
      set_row event contract account kind fields event.log_index store

  -- the `forEach` over the legs of a burn
  unfoldable pub burn_rows : RawEvent → Contract → List Leg → Store → Store
  burn_rows event contract [] store = store
  burn_rows event contract (leg ∷ ls) store =
      burn_rows event contract ls
        (set_row event contract leg.from burn no_fields leg.log_index store)

  unfoldable pub write_transfer_timeline : RawEvent → Contract → Text → Text → ℕ → Store → Store
  write_transfer_timeline event token from to value store =
      let is_mint = is_zero_address from in
      let is_burn = is_zero_address to in
      let id : ContractKey = (event.chain_id, as_hex token.address) in
      let trx_hash = as_hex event.trx_hash in
      let flow = flow_of trx_hash (lookup ContractKey-discrete id store.flows) in
      let minted =
        if is_mint then write_timeline_event event token to mint no_fields store else store in
      let burned =
        if is_burn then write_timeline_event event token from burn no_fields minted else minted in
      let routed =
        if not is_mint && some_of (minted_to from value) (legs flow)
        then write_timeline_event event token to mint no_fields burned
        else burned in
      if is_mint && is_burn
      then burned
      else if is_burn
      then burn_rows event token (filter_by (sent_to from value) (legs flow)) burned
      else record routed {
        flows =
            set ContractKey-discrete id
              (with_leg flow (record {
                from = as_hex from;
                to = as_hex to;
                value = value;
                log_index = event.log_index;
              }))
              routed.flows;
      }
