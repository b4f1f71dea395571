-- ===== src/Indexer/Handlers/Rows.antt =====
-- The rows of the handlers (apps/indexer/schema.graphql), and all the tables together.
use native.Mathlib.Decide.{ℕ_discrete}
use beefy_envio_balances_ind.Common.{ℕ, Bool, Option, List, [], Text, Text-discrete, pair_discrete}
use beefy_envio_balances_ind.Common.Int.{ℤ}
use beefy_envio_balances_ind.Indexer.Event.{
  ContractKey, ContractKey-discrete, EventKey, EventColumns,
}
use beefy_envio_balances_ind.Indexer.Store.{Store, empty}
use beefy_envio_balances_ind.Indexer.Registry.{Registry}

-- `source` of the reward rows
pub data RewardSource : Type 0 where
  of_boost of_reward_pool : RewardSource

pub record RewardNotified : Type 0 where
  pub columns : EventColumns
  pub contract : Text
  pub source : RewardSource
  pub reward_token : Option Text
  pub amount : ℕ
  pub duration : Option ℕ

pub record RewardPaid : Type 0 where
  pub columns : EventColumns
  pub contract : Text
  pub source : RewardSource
  pub user : Text
  pub reward_token : Option Text
  pub amount : ℕ

pub record ClmDeposit : Type 0 where
  pub columns : EventColumns
  pub manager : Text
  pub user : Text
  pub shares : ℕ
  pub amount0 : ℕ
  pub amount1 : ℕ
  pub fee0 : ℕ
  pub fee1 : ℕ

pub record ClmWithdraw : Type 0 where
  pub columns : EventColumns
  pub manager : Text
  pub user : Text
  pub shares : ℕ
  pub amount0 : ℕ
  pub amount1 : ℕ

pub data HarvestKind : Type 0 where
  classic_strat_harvest clm_harvest clm_harvest_rewards clm_claimed_fees : HarvestKind
  clm_claimed_rewards : HarvestKind

pub record Harvest : Type 0 where
  pub columns : EventColumns
  pub strategy : Text
  pub kind : HarvestKind
  pub harvester : Option Text
  pub want_harvested : Option ℕ
  pub tvl : Option ℕ
  pub fee0 : Option ℕ
  pub fee1 : Option ℕ
  pub fees : Option ℕ
  pub fee_main0 : Option ℕ
  pub fee_main1 : Option ℕ
  pub fee_alt0 : Option ℕ
  pub fee_alt1 : Option ℕ

pub data ProductFamily : Type 0 where
  classic clm : ProductFamily

pub record FeesCharged : Type 0 where
  pub columns : EventColumns
  pub strategy : Text
  pub family : ProductFamily
  pub version : ℕ
  pub call_fee : Option ℕ
  pub beefy_fee : ℕ
  pub strategist_fee : Option ℕ
  pub liquidity_fee : Option ℕ

pub record PauseChange : Type 0 where
  pub columns : EventColumns
  pub contract : Text
  pub paused : Bool
  pub account : Text

pub record ClmTvl : Type 0 where
  pub columns : EventColumns
  pub strategy : Text
  pub bal0 : ℕ
  pub bal1 : ℕ

-- What `readClmPoolState` answers, each value unset where its call failed
pub record PoolState : Type 0 where
  pub ok : Bool
  pub price : Option ℤ
  pub range_lower : Option ℤ
  pub range_upper : Option ℤ
  pub token0_bal : Option ℤ
  pub token1_bal : Option ℤ
  pub main_amount0 : Option ℤ
  pub main_amount1 : Option ℤ
  pub alt_amount0 : Option ℤ
  pub alt_amount1 : Option ℤ

pub record ClmPoolState : Type 0 where
  pub strategy : Text
  pub state : PoolState
  pub block_number : ℕ
  pub block_timestamp : ℕ

-- `chainId-strategy-blockNumber`
abbrev pub PoolKey : Type 0
PoolKey = ContractKey × ℕ

unfoldable pub PoolKey-discrete : Discrete PoolKey
unfolding pair_discrete ContractKey-discrete ℕ_discrete
PoolKey-discrete = pair_discrete ContractKey-discrete ℕ_discrete

pub record Route : Type 0 where
  pub swapper : Text
  pub from_token : Text
  pub to_token : Text
  pub router : Text
  pub data_hex : Text
  pub amount_index : ℕ
  pub min_index : ℕ
  pub min_amount_sign : ℤ

pub record SwapperRoute : Type 0 where
  pub route : Route
  pub updated_block : ℕ
  pub updated_timestamp : ℕ
  pub updated_trx_hash : Text

-- `chainId-swapper-fromToken-toToken`
abbrev pub RouteKey : Type 0
RouteKey = (ContractKey × Text) × Text

unfoldable pub RouteKey-discrete : Discrete RouteKey
unfolding pair_discrete ContractKey-discrete Text-discrete
RouteKey-discrete = pair_discrete (pair_discrete ContractKey-discrete Text-discrete) Text-discrete

pub record SwapperRouteChange : Type 0 where
  pub columns : EventColumns
  pub route : Route

pub data SwapperConfigKind : Type 0 where
  config_initialized set_oracle set_slippage : SwapperConfigKind

pub record SwapperConfigChange : Type 0 where
  pub columns : EventColumns
  pub swapper : Text
  pub kind : SwapperConfigKind
  pub oracle : Option Text
  pub slippage : Option ℕ
  pub version : Option ℕ

-- every table that the handlers write
pub record Tables : Type 0 where
  pub registry : Registry
  pub store : Store
  pub reward_notified : List (EventKey × RewardNotified)
  pub reward_paid : List (EventKey × RewardPaid)
  pub clm_deposits : List (EventKey × ClmDeposit)
  pub clm_withdraws : List (EventKey × ClmWithdraw)
  pub harvests : List (EventKey × Harvest)
  pub fees_charged : List (EventKey × FeesCharged)
  pub pause_changes : List (EventKey × PauseChange)
  pub clm_tvls : List (EventKey × ClmTvl)
  pub clm_pool_states : List (PoolKey × ClmPoolState)
  pub swapper_routes : List (RouteKey × SwapperRoute)
  pub swapper_route_changes : List (EventKey × SwapperRouteChange)
  pub swapper_config_changes : List (EventKey × SwapperConfigChange)

abbrev pub no_tables : Tables
no_tables = record {
  registry = record { contracts = []; tokens = []; links = [] };
  store = empty;
  reward_notified = [];
  reward_paid = [];
  clm_deposits = [];
  clm_withdraws = [];
  harvests = [];
  fees_charged = [];
  pause_changes = [];
  clm_tvls = [];
  clm_pool_states = [];
  swapper_routes = [];
  swapper_route_changes = [];
  swapper_config_changes = [];
}
