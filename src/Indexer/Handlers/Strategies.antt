-- ===== src/Indexer/Handlers/Strategies.antt =====
-- The handlers of strategies: apps/indexer/src/handlers/classicStrategy.handlers.ts and
-- clmStrategy.handlers.ts, and lib/rows.ts. What `readClmPoolState` answers is an argument.
use beefy_envio_balances_ind.Common.{ℕ, Bool, Option, none, some, Text}
use beefy_envio_balances_ind.Common.Dict.{set}
use beefy_envio_balances_ind.Indexer.Event.{
  RawEvent, as_hex, EventKey-discrete, event_id, event_columns, contract_id, block_timestamp,
}
use beefy_envio_balances_ind.Indexer.Store.{ContractKind, strategy, clm_strategy}
use beefy_envio_balances_ind.Indexer.Registry.{Effects}
use beefy_envio_balances_ind.Indexer.Handlers.Rows.{
  Tables, Harvest, HarvestKind, classic_strat_harvest, clm_harvest, clm_harvest_rewards,
  clm_claimed_fees, clm_claimed_rewards, ProductFamily, FeesCharged, PoolState, PoolKey-discrete,
}
use beefy_envio_balances_ind.Indexer.Handlers.Guarded.{guarded}

abbrev pub write_pause_change : RawEvent → Text → Bool → Tables → Tables
write_pause_change event account paused t = record t {
  pause_changes =
      set EventKey-discrete (event_id event)
        (record {
          columns = event_columns event;
          contract = as_hex event.src_address;
          paused = paused;
          account = as_hex account;
        })
        t.pause_changes;
}

abbrev pub set_harvest : RawEvent → Harvest → Tables → Tables
set_harvest event row t = record t {
  harvests = set EventKey-discrete (event_id event) row t.harvests;
}

abbrev pub set_fees : RawEvent → FeesCharged → Tables → Tables
set_fees event row t = record t {
  fees_charged = set EventKey-discrete (event_id event) row t.fees_charged;
}

-- the row of a classic `StratHarvest`
abbrev pub strat_harvest_row : RawEvent → Text → ℕ → ℕ → Harvest
strat_harvest_row event harvester want_harvested tvl = record {
  columns = event_columns event;
  strategy = as_hex event.src_address;
  kind = classic_strat_harvest;
  harvester = some (as_hex harvester);
  want_harvested = some want_harvested;
  tvl = some tvl;
  fee0 = none;
  fee1 = none;
  fees = none;
  fee_main0 = none;
  fee_main1 = none;
  fee_alt0 = none;
  fee_alt1 = none;
}

-- the amounts of a CLM harvest event: those that it does not carry are none
pub record Amounts : Type 0 where
  pub fee0 : Option ℕ
  pub fee1 : Option ℕ
  pub fees : Option ℕ
  pub fee_main0 : Option ℕ
  pub fee_main1 : Option ℕ
  pub fee_alt0 : Option ℕ
  pub fee_alt1 : Option ℕ

abbrev pub no_amounts : Amounts
no_amounts = record {
  fee0 = none;
  fee1 = none;
  fees = none;
  fee_main0 = none;
  fee_main1 = none;
  fee_alt0 = none;
  fee_alt1 = none;
}

abbrev pub harvest_row : RawEvent → HarvestKind → Amounts → Harvest
harvest_row event kind amounts = record {
  columns = event_columns event;
  strategy = as_hex event.src_address;
  kind = kind;
  harvester = none;
  want_harvested = none;
  tvl = none;
  fee0 = amounts.fee0;
  fee1 = amounts.fee1;
  fees = amounts.fees;
  fee_main0 = amounts.fee_main0;
  fee_main1 = amounts.fee_main1;
  fee_alt0 = amounts.fee_alt0;
  fee_alt1 = amounts.fee_alt1;
}

-- `ChargedFees`, of both families
abbrev pub fees_row : RawEvent → ProductFamily → (beefy_fee liquidity_fee : ℕ) → FeesCharged
fees_row event family beefy_fee liquidity_fee = record {
  columns = event_columns event;
  strategy = as_hex event.src_address;
  family = family;
  version = 1;
  call_fee = none;
  beefy_fee = beefy_fee;
  strategist_fee = none;
  liquidity_fee = some liquidity_fee;
}

-- `ChargedFeesV2`, of both families
abbrev pub fees_row_v2 :
    RawEvent → ProductFamily → (call_fee beefy_fee strategist_fee : ℕ) → FeesCharged
fees_row_v2 event family call_fee beefy_fee strategist_fee = record {
  columns = event_columns event;
  strategy = as_hex event.src_address;
  family = family;
  version = 2;
  call_fee = some call_fee;
  beefy_fee = beefy_fee;
  strategist_fee = some strategist_fee;
  liquidity_fee = none;
}

abbrev pub write_clm_pool_state : PoolState → RawEvent → Tables → Tables
write_clm_pool_state state event t = record t {
  clm_pool_states =
      set PoolKey-discrete (contract_id event.chain_id event.src_address, event.block_number)
        (record {
          strategy = as_hex event.src_address;
          state = state;
          block_number = event.block_number;
          block_timestamp = block_timestamp event;
        })
        t.clm_pool_states;
}

module _ (is_blacklisted : ℕ → Text → Bool) where
  -- `Paused` and `Unpaused` of either kind of strategy
  abbrev pub on_pause_change : Effects → RawEvent → ContractKind → Text → Bool → Tables → Tables
  on_pause_change fx event kind account paused t =
      guarded is_blacklisted fx event kind (λ _ t'. write_pause_change event account paused t') t

  abbrev pub on_charged_fees :
      Effects
      → RawEvent
      → ContractKind
      → ProductFamily
      → (beefy_fee liquidity_fee : ℕ) → Tables
      → Tables
  on_charged_fees fx event kind family beefy_fee liquidity_fee t =
      guarded is_blacklisted fx event kind
        (λ _ t'. set_fees event (fees_row event family beefy_fee liquidity_fee) t') t

  abbrev pub on_charged_fees_v2 :
      Effects
      → RawEvent
      → ContractKind
      → ProductFamily
      → (call_fee beefy_fee strategist_fee : ℕ) → Tables
      → Tables
  on_charged_fees_v2 fx event kind family call_fee beefy_fee strategist_fee t =
      guarded is_blacklisted fx event kind
        (λ _ t'. set_fees event (fees_row_v2 event family call_fee beefy_fee strategist_fee) t') t

  -- `StratHarvest`, of both ABIs
  abbrev pub on_strat_harvest :
      Effects → RawEvent → Text → (want_harvested tvl : ℕ) → Tables → Tables
  on_strat_harvest fx event harvester want_harvested tvl t =
      guarded is_blacklisted fx event strategy
        (λ _ t'. set_harvest event (strat_harvest_row event harvester want_harvested tvl) t') t

  abbrev pub on_clm_harvest : Effects → PoolState → RawEvent → (fee0 fee1 : ℕ) → Tables → Tables
  on_clm_harvest fx state event fee0 fee1 t =
      guarded is_blacklisted fx event clm_strategy
        (λ _ t'. write_clm_pool_state state event (
          set_harvest event
            (harvest_row event clm_harvest
              (record no_amounts { fee0 = some fee0; fee1 = some fee1 }))
            t'))
        t

  abbrev pub on_harvest_rewards : Effects → RawEvent → ℕ → Tables → Tables
  on_harvest_rewards fx event fees t =
      guarded is_blacklisted fx event clm_strategy
        (λ _ t'.
          set_harvest event
            (harvest_row event clm_harvest_rewards (record no_amounts { fees = some fees })) t')
        t

  abbrev pub on_claimed_fees :
      Effects → RawEvent → (fee_main0 fee_main1 fee_alt0 fee_alt1 : ℕ) → Tables → Tables
  on_claimed_fees fx event fee_main0 fee_main1 fee_alt0 fee_alt1 t =
      guarded is_blacklisted fx event clm_strategy
        (λ _ t'.
          set_harvest event
            (harvest_row event clm_claimed_fees (record no_amounts {
              fee_main0 = some fee_main0;
              fee_main1 = some fee_main1;
              fee_alt0 = some fee_alt0;
              fee_alt1 = some fee_alt1;
            }))
            t')
        t

  abbrev pub on_claimed_rewards : Effects → RawEvent → ℕ → Tables → Tables
  on_claimed_rewards fx event fees t =
      guarded is_blacklisted fx event clm_strategy
        (λ _ t'.
          set_harvest event
            (harvest_row event clm_claimed_rewards (record no_amounts { fees = some fees })) t')
        t

  abbrev pub on_tvl : Effects → PoolState → RawEvent → (bal0 bal1 : ℕ) → Tables → Tables
  on_tvl fx state event bal0 bal1 t =
      guarded is_blacklisted fx event clm_strategy
        (λ _ t'. write_clm_pool_state state event (record t' {
          clm_tvls =
              set EventKey-discrete (event_id event)
                (record {
                  columns = event_columns event;
                  strategy = as_hex event.src_address;
                  bal0 = bal0;
                  bal1 = bal1;
                })
                t'.clm_tvls;
        }))
        t
