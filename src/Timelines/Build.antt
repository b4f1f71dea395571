-- ===== src/Timelines/Build.antt =====
-- One account's priced rows as timeline items: `buildTimeline` of apps/api/src/timeline/build.ts.
pub mod Grouping
pub mod Diffs
use mathlib.Core.Bool.{decide}
use mathlib.Core.List.{reverse}
use beefy_envio_balances_ind.Common.{
  ℕ, ◌*◌, ◌/◌, Bool, true, false, not, ◌&&◌, ◌||◌, Option, none, some, List, [], ◌∷◌, ◌++◌, map,
  if◌then◌else◌, get_or, filter_by, Text, Text-discrete, pair_discrete,
}
use beefy_envio_balances_ind.Common.Int.{ℤ, pos, ◌+ℤ◌, neg, ltb_ℤ}
use beefy_envio_balances_ind.Common.Dict.{lookup, set}
use beefy_envio_balances_ind.Indexer.Event.{ContractKey, ContractKey-discrete}
use beefy_envio_balances_ind.Indexer.Store.{
  ContractKind, clm_manager, TimelineKind, TimelineKind-discrete, balance, clm_deposit,
  clm_withdraw, claim,
}
use beefy_envio_balances_ind.Indexer.Registry.{ContractKind-discrete}
use beefy_envio_balances_ind.Timelines.Units.{decimal, magnitude, format_units}
use beefy_envio_balances_ind.Timelines.Rows.{
  Double, PricedRow, Platform, ItemType, classic, clm, Entry, ContractPart, Price, Claim,
  TimelineItem,
}
use beefy_envio_balances_ind.Timelines.Actions.{actions_of}

-- The rows of one transaction and product, and the product's balance after the last of them
pub record Group : Type 0 where
  pub rows : List PricedRow
  pub balance_after : ℤ

-- `product:trxHash`, of a product `chainId:address`
abbrev pub GroupKey : Type 0
GroupKey = ContractKey × Text

unfoldable pub GroupKey-discrete : Discrete GroupKey
unfolding pair_discrete ContractKey-discrete Text-discrete
GroupKey-discrete = pair_discrete ContractKey-discrete Text-discrete

abbrev pub product_address_of : PricedRow → Text
product_address_of row = elim row.product_address [ [] ↦ row.contract | c ∷ s ↦ c ∷ s ]

abbrev pub product_of : PricedRow → ContractKey
product_of row = (row.chain_id, product_address_of row)

abbrev pub key_of : PricedRow → GroupKey
key_of row = (product_of row, row.trx_hash)

abbrev pub is_row : TimelineKind → PricedRow → Bool
is_row kind row = decide (TimelineKind-discrete row.kind kind)

-- `groups` and `balances`
pub record Assembly : Type 0 where
  pub groups : List (GroupKey × Group)
  pub balances : List (ContractKey × ℤ)

abbrev pub balance_at : ContractKey → List (ContractKey × ℤ) → ℤ
balance_at product balances = get_or (lookup ContractKey-discrete product balances) (pos 0)

abbrev pub rows_in : Option Group → List PricedRow
rows_in none = []
rows_in (some g) = g.rows

abbrev pub rows_at : GroupKey → List (GroupKey × Group) → List PricedRow
rows_at key groups = rows_in (lookup GroupKey-discrete key groups)

-- one round of the first loop
unfoldable pub add_row : Assembly → PricedRow → Assembly
add_row a row =
    let balances =
      if is_row balance row
      then set ContractKey-discrete (product_of row)
          (balance_at (product_of row) a.balances +ℤ row.delta) a.balances
      else a.balances in
    record {
      balances = balances;
      groups =
          set GroupKey-discrete (key_of row)
            (record {
              rows = rows_at (key_of row) a.groups ++ row ∷ [];
              balance_after = balance_at (product_of row) balances;
            })
            a.groups;
    }

unfoldable pub assemble : Assembly → List PricedRow → Assembly
assemble a [] = a
assemble a (row ∷ rows) = assemble (add_row a row) rows

abbrev pub no_rows : Assembly
no_rows = record { groups = []; balances = [] }

-- the last row that passes the test
unfoldable pub find_last : (PricedRow → Bool) → List PricedRow → Option PricedRow
find_last test [] = none
find_last test (row ∷ rows) = elim (find_last test rows) [
  | some found ↦ some found
  | none ↦ if test row then some row else none
]

unfoldable pub sum_deltas : List PricedRow → ℤ
sum_deltas [] = pos 0
sum_deltas (row ∷ rows) = row.delta +ℤ sum_deltas rows

-- one round of the loop over the `BALANCE` rows of a group
abbrev pub add_entry : List (Text × Entry) → PricedRow → List (Text × Entry)
add_entry contracts row =
    let entry =
      get_or (lookup Text-discrete row.contract contracts)
        (record { entry_kind = row.contract_kind; diff = pos 0; balance_then = pos 0 }) in
    set Text-discrete row.contract
      (record entry { diff = entry.diff +ℤ row.delta; balance_then = row.shares_after }) contracts

unfoldable pub entries_of : List (Text × Entry) → List PricedRow → List (Text × Entry)
entries_of contracts [] = contracts
entries_of contracts (row ∷ rows) = entries_of (add_entry contracts row) rows

abbrev pub part_of : ℕ → Text × Entry → ContractPart
part_of decimals (address, entry) = record {
  address = address;
  part_kind = entry.entry_kind;
  part_balance = format_units entry.balance_then decimals;
  part_diff = format_units entry.diff decimals;
}

-- `toString()` of a `bigint`
abbrev pub signed_decimal : ℤ → Text
signed_decimal v = if ltb_ℤ v (pos 0) then 45 ∷ decimal (magnitude v) else decimal (magnitude v)

-- the deposits and withdrawals of a manager, summed up
unfoldable pub sum_amounts : List PricedRow → ℤ × ℤ
sum_amounts [] = (pos 0, pos 0)
sum_amounts (row ∷ rows) =
    let (amount0, amount1) = sum_amounts rows in
    let signed = λ (n : ℕ). if is_row clm_deposit row then pos n else neg (pos n) in
    (signed row.amount0 +ℤ amount0, signed row.amount1 +ℤ amount1)

abbrev pub underlying_of : List PricedRow → Option (Text × Text)
underlying_of [] = none
underlying_of (row ∷ rows) =
    let (amount0, amount1) = sum_amounts (row ∷ rows) in
    some (signed_decimal amount0, signed_decimal amount1)

-- `usd`, which is always null, is left out
abbrev pub claim_of : PricedRow → Claim
claim_of row = record {
  claim_contract = row.contract;
  claim_token = elim row.reward_token [ [] ↦ none | c ∷ s ↦ some (c ∷ s) ];
  amount = row.reward_amount;
}

abbrev pub is_clm : Option ContractKind → Bool
is_clm none = false
is_clm (some kind) = decide (ContractKind-discrete kind clm_manager)

module _ (platform : Platform) where
  unfoldable pub sum_usd : List PricedRow → Double → Double
  sum_usd [] sum = sum
  sum_usd (row ∷ rows) sum = sum_usd rows (platform.add sum row.usd_delta)

  abbrev pub iso : Option ℕ → Option Text
  iso none = none
  iso (some seconds) = some (platform.to_iso (seconds * 1000))

  abbrev pub price_of : PricedRow → Price
  price_of priced = record {
    share_to_usd = priced.share_to_usd;
    flag = priced.price_flag;
    price_source = priced.price_source;
    resolution = elim priced.price_resolution [ [] ↦ none | c ∷ s ↦ some (c ∷ s) ];
    as_of = iso priced.price_before_at;
    as_of_next = iso priced.price_after_at;
  }

  -- the item of a group, whose last row is `last`
  unfoldable pub item_of : Group → PricedRow → TimelineItem
  item_of group last =
      let priced = get_or (find_last (is_row balance) group.rows) last in
      let balance_rows = filter_by (is_row balance) group.rows in
      let timestamp = last.timestamp_ms / 1000 in
      record {
        type_of_item = if is_clm last.product_kind then clm else classic;
        datetime = platform.to_iso (timestamp * 1000);
        timestamp = timestamp;
        block_number = last.block_number;
        transaction_hash = last.trx_hash;
        chain = get_or (platform.chain_key last.chain_id) (decimal last.chain_id);
        chain_id = last.chain_id;
        product_address = product_address_of last;
        actions = actions_of group.rows;
        share_balance = format_units group.balance_after last.decimals;
        share_diff = format_units (sum_deltas balance_rows) last.decimals;
        contracts = map (part_of last.decimals) (entries_of [] balance_rows);
        price = price_of priced;
        usd_balance = platform.usd_of group.balance_after last.decimals priced.share_to_usd;
        usd_diff = sum_usd balance_rows platform.zero_usd;
        underlying =
            underlying_of
              (filter_by (λ row. is_row clm_deposit row || is_row clm_withdraw row) group.rows);
        claims = map claim_of (filter_by (is_row claim) group.rows);
      }

  -- the items of the groups, newest first
  unfoldable pub items_of : List (GroupKey × Group) → List TimelineItem
  items_of [] = []
  items_of ((key, group) ∷ groups) = elim (find_last (λ row. true) group.rows) [
    | none ↦ items_of groups
    | some last ↦ items_of groups ++ item_of group last ∷ []
  ]

  abbrev pub build_timeline : List PricedRow → List TimelineItem
  build_timeline rows = items_of (assemble no_rows rows).groups
