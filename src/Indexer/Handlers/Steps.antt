-- ===== src/Indexer/Handlers/Steps.antt =====
-- One event of any contract, with any answers of the effects.
use beefy_envio_balances_ind.Common.{ℕ, ◌≡◌, Bool, false, Option, Text}
use beefy_envio_balances_ind.Indexer.Event.{RawEvent, is_zero_address}
use beefy_envio_balances_ind.Indexer.Store.{ContractKind, Direction}
use beefy_envio_balances_ind.Indexer.Timeline.{HeadPriceSource}
use beefy_envio_balances_ind.Indexer.Registry.{Effects}
use beefy_envio_balances_ind.Indexer.Handlers.Rows.{Tables, ProductFamily, PoolState}
use beefy_envio_balances_ind.Indexer.Handlers.Guarded.{on_initialized, on_transfer}
use beefy_envio_balances_ind.Indexer.Handlers.Shares.{
  on_stake, on_boost_reward_added, on_boost_reward_paid, on_clm_deposit, on_clm_withdraw,
  on_add_reward, on_notify_reward, on_reward_paid,
}
use beefy_envio_balances_ind.Indexer.Handlers.Strategies.{
  on_pause_change, on_charged_fees, on_charged_fees_v2, on_strat_harvest, on_clm_harvest,
  on_harvest_rewards, on_claimed_fees, on_claimed_rewards, on_tvl,
}
use beefy_envio_balances_ind.Indexer.Handlers.Swapper.{
  SwapInfo, on_swapper_initialized, on_set_oracle, on_set_slippage, on_set_swap_info,
}
use beefy_envio_balances_ind.Indexer.Handlers.Factories.{
  Answers, Config, on_created, on_vault_or_strategy, on_contract_deployed, on_upgrade_strat,
}

-- No boost is staked in by 0x0.
pub data Step (cfg : Config) (head_price_at : HeadPriceSource) (t : Tables) : Tables → Type 0 where
  initialized :
      (fx : Effects) (event : RawEvent) (kind : ContractKind)
      → Step cfg head_price_at t (on_initialized cfg.is_blacklisted fx event kind t)
  transferred :
      (fx : Effects) (event : RawEvent) (kind : ContractKind) (from to : Text) (value : ℕ)
      → Step cfg head_price_at t
          (on_transfer cfg.is_blacklisted head_price_at fx event kind from to value t)
  staked :
      (fx : Effects) (event : RawEvent) (direction : Direction) (user : Text) (amount : ℕ)
      → is_zero_address user ≡ false
      → Step cfg head_price_at t
          (on_stake cfg.is_blacklisted head_price_at fx event direction user amount t)
  boost_reward_added :
      (fx : Effects) (event : RawEvent) (reward : ℕ)
      → Step cfg head_price_at t
          (on_boost_reward_added cfg.is_blacklisted head_price_at fx event reward t)
  boost_reward_paid :
      (fx : Effects) (event : RawEvent) (user : Text) (reward : ℕ)
      → Step cfg head_price_at t
          (on_boost_reward_paid cfg.is_blacklisted head_price_at fx event user reward t)
  clm_deposited :
      (fx : Effects) (event : RawEvent) (user : Text) (shares amount0 amount1 fee0 fee1 : ℕ)
      → Step cfg head_price_at t (
          on_clm_deposit cfg.is_blacklisted head_price_at fx event user shares amount0 amount1 fee0
            fee1 t)
  clm_withdrawn :
      (fx : Effects) (event : RawEvent) (user : Text) (shares amount0 amount1 : ℕ)
      → Step cfg head_price_at t
          (on_clm_withdraw cfg.is_blacklisted head_price_at fx event user shares amount0 amount1 t)
  reward_added :
      (fx : Effects) (event : RawEvent) (reward : Text)
      → Step cfg head_price_at t (on_add_reward cfg.is_blacklisted head_price_at fx event reward t)
  reward_notified :
      (fx : Effects) (event : RawEvent) (reward : Text) (amount duration : ℕ)
      → Step cfg head_price_at t
          (on_notify_reward cfg.is_blacklisted head_price_at fx event reward amount duration t)
  reward_paid :
      (fx : Effects) (event : RawEvent) (user reward : Text) (amount : ℕ)
      → Step cfg head_price_at t
          (on_reward_paid cfg.is_blacklisted head_price_at fx event user reward amount t)
  paused :
      (fx : Effects) (event : RawEvent) (kind : ContractKind) (account : Text) (on : Bool)
      → Step cfg head_price_at t (on_pause_change cfg.is_blacklisted fx event kind account on t)
  fees_charged :
      (fx : Effects) (event : RawEvent) (kind : ContractKind) (family : ProductFamily)
      (beefy_fee liquidity_fee : ℕ)
      → Step cfg head_price_at t
          (on_charged_fees cfg.is_blacklisted fx event kind family beefy_fee liquidity_fee t)
  fees_charged_v2 :
      (fx : Effects) (event : RawEvent) (kind : ContractKind) (family : ProductFamily)
      (call_fee beefy_fee strategist_fee : ℕ)
      → Step cfg head_price_at t (
          on_charged_fees_v2 cfg.is_blacklisted fx event kind family call_fee beefy_fee
            strategist_fee t)
  strat_harvested :
      (fx : Effects) (event : RawEvent) (harvester : Text) (want_harvested tvl : ℕ)
      → Step cfg head_price_at t
          (on_strat_harvest cfg.is_blacklisted fx event harvester want_harvested tvl t)
  clm_harvested :
      (fx : Effects) (state : PoolState) (event : RawEvent) (fee0 fee1 : ℕ)
      → Step cfg head_price_at t (on_clm_harvest cfg.is_blacklisted fx state event fee0 fee1 t)
  rewards_harvested :
      (fx : Effects) (event : RawEvent) (fees : ℕ)
      → Step cfg head_price_at t (on_harvest_rewards cfg.is_blacklisted fx event fees t)
  fees_claimed :
      (fx : Effects) (event : RawEvent) (fee_main0 fee_main1 fee_alt0 fee_alt1 : ℕ)
      → Step cfg head_price_at t
          (on_claimed_fees cfg.is_blacklisted fx event fee_main0 fee_main1 fee_alt0 fee_alt1 t)
  rewards_claimed :
      (fx : Effects) (event : RawEvent) (fees : ℕ)
      → Step cfg head_price_at t (on_claimed_rewards cfg.is_blacklisted fx event fees t)
  tvl_told :
      (fx : Effects) (state : PoolState) (event : RawEvent) (bal0 bal1 : ℕ)
      → Step cfg head_price_at t (on_tvl cfg.is_blacklisted fx state event bal0 bal1 t)
  swapper_initialized :
      (fx : Effects) (event : RawEvent) (version : ℕ)
      → Step cfg head_price_at t (on_swapper_initialized cfg.is_blacklisted fx event version t)
  oracle_set :
      (fx : Effects) (event : RawEvent) (oracle : Text)
      → Step cfg head_price_at t (on_set_oracle cfg.is_blacklisted fx event oracle t)
  slippage_set :
      (fx : Effects) (event : RawEvent) (slippage : ℕ)
      → Step cfg head_price_at t (on_set_slippage cfg.is_blacklisted fx event slippage t)
  swap_info_set :
      (fx : Effects) (event : RawEvent) (from_token to_token : Text) (info : SwapInfo)
      → Step cfg head_price_at t
          (on_set_swap_info cfg.is_blacklisted fx event from_token to_token info t)
  created :
      (fx : Effects) (event : RawEvent) (address : Text) (kind : ContractKind) (name : Option Text)
      → Step cfg head_price_at t (on_created cfg fx event address kind name t)
  proxy_created :
      (fx : Effects) (answers : Answers) (event : RawEvent) (proxy : Text) (input : Option Text)
      → Step cfg head_price_at t (on_vault_or_strategy cfg fx answers event proxy input t)
  deployed :
      (fx : Effects) (event : RawEvent) (address contract_name : Text)
      → Step cfg head_price_at t (on_contract_deployed cfg fx event address contract_name t)
  strategy_upgraded :
      (fx : Effects) (event : RawEvent) (implementation : Text)
      → Step cfg head_price_at t (on_upgrade_strat cfg fx event implementation t)

-- what some events lead to
pub data Steps (cfg : Config) (head_price_at : HeadPriceSource) (t : Tables) : Tables → Type 0 where
  here : Steps cfg head_price_at t t
  then_step :
      (u v : Tables)
      → Steps cfg head_price_at t u
      → Step cfg head_price_at u v
      → Steps cfg head_price_at t v
