-- ===== src/Indexer/Store.antt =====
-- The tables that the balance and timeline handlers read and write, and their rows
-- (apps/indexer/schema.graphql). A `set` of a row is a `set` of its table at the row's id.
use beefy_envio_balances_ind.Common.{ℕ, Option, List, [], Text, Text-discrete, pair_discrete}
use beefy_envio_balances_ind.Common.Int.{ℤ}
use beefy_envio_balances_ind.Indexer.Event.{
  ContractKey, ContractKey-discrete, EventKey, EventKey-discrete, EventColumns,
}

pub data ContractKind : Type 0 where
  vault strategy clm_strategy boost reward_pool clm_manager erc4626_adapter lst_vault : ContractKind
  token swapper unknown : ContractKind

pub data FactsStatus : Type 0 where
  ok partial : FactsStatus

pub record Contract : Type 0 where
  pub id : ContractKey
  pub address : Text
  pub kind : ContractKind
  pub factory : Option Text
  pub created_block : Option ℕ
  pub created_timestamp : Option ℕ
  pub created_trx_hash : Option Text
  pub deploy_name : Option Text
  pub facts_block : Option ℕ
  pub facts_status : Option FactsStatus
  pub product_address : Option Text
  pub price_decimals : Option ℕ
  pub product_kind : Option ContractKind

-- `chainId-token-account`
abbrev pub BalanceKey : Type 0
BalanceKey = ContractKey × Text

unfoldable pub BalanceKey-discrete : Discrete BalanceKey
unfolding pair_discrete ContractKey-discrete Text-discrete
BalanceKey-discrete = pair_discrete ContractKey-discrete Text-discrete

pub record Balance : Type 0 where
  pub token : Text
  pub account : Text
  pub balance : ℤ
  pub last_change_block : ℕ

pub record TokenSupply : Type 0 where
  pub token : Text
  pub total_supply : ℤ
  pub last_change_block : ℕ

pub data TimelineKind : Type 0 where
  balance clm_deposit clm_withdraw claim mint burn : TimelineKind

unfoldable pub TimelineKind-discrete : Discrete TimelineKind
TimelineKind-discrete = hlevel

-- `chainId-trxHash-logIndex-account-kind`
abbrev pub TimelineKey : Type 0
TimelineKey = (EventKey × Text) × TimelineKind

unfoldable pub TimelineKey-discrete : Discrete TimelineKey
unfolding pair_discrete EventKey-discrete Text-discrete TimelineKind-discrete
TimelineKey-discrete =
    pair_discrete (pair_discrete EventKey-discrete Text-discrete) TimelineKind-discrete

-- `source` of a row: empty but for BALANCE rows
pub data Source : Type 0 where
  blank transfer boost_stake : Source

-- The price facts of a row. `head_price` holds the bits of a float, which no handler computes with.
pub record HeadColumns : Type 0 where
  pub head_price : Option ℕ
  pub head_price_at : Option ℕ
  pub head_product : Option Text
  pub head_decimals : Option ℕ
  pub head_product_kind : Option ContractKind
  pub head_contract_kind : Option ContractKind

pub record TimelineEvent : Type 0 where
  pub account : Text
  pub kind : TimelineKind
  pub contract : Text
  pub source : Source
  pub delta : ℤ
  pub shares_after : ℤ
  pub amount0 : ℕ
  pub amount1 : ℕ
  pub reward_token : Text
  pub reward_amount : ℕ
  pub block_number : ℕ
  pub block_timestamp : ℕ
  pub log_index : ℕ
  pub trx_hash : Text
  pub head : HeadColumns

pub record ShareFlow : Type 0 where
  pub trx_hash : Text
  pub from_addresses : List Text
  pub to_addresses : List Text
  pub values : List ℕ
  pub log_indexes : List ℕ

pub record ShareTransfer : Type 0 where
  pub columns : EventColumns
  pub token : Text
  pub from_address : Text
  pub to_address : Text
  pub value : ℕ
  pub total_supply_after : Option ℤ

pub data Direction : Type 0 where
  stake unstake : Direction

pub record BoostStake : Type 0 where
  pub columns : EventColumns
  pub boost : Text
  pub user : Text
  pub amount : ℕ
  pub direction : Direction

pub record Store : Type 0 where
  pub balances : List (BalanceKey × Balance)
  pub supplies : List (ContractKey × TokenSupply)
  pub timeline : List (TimelineKey × TimelineEvent)
  pub flows : List (ContractKey × ShareFlow)
  pub share_transfers : List (EventKey × ShareTransfer)
  pub boost_stakes : List (EventKey × BoostStake)

abbrev pub empty : Store
empty = record {
  balances = [];
  supplies = [];
  timeline = [];
  flows = [];
  share_transfers = [];
  boost_stakes = [];
}
