-- ===== src/Indexer/Handlers/Shares.antt =====
-- The handlers of boosts, CLM managers and reward pools: apps/indexer/src/handlers/classicBoost.handlers.ts,
-- clmManager.handlers.ts and rewardPool.handlers.ts.
use beefy_envio_balances_ind.Common.{ℕ, Bool, false, none, some, Text}
use beefy_envio_balances_ind.Common.Dict.{set}
use beefy_envio_balances_ind.Indexer.Event.{
  RawEvent, as_hex, EventKey-discrete, event_id, event_columns,
}
use beefy_envio_balances_ind.Indexer.Store.{
  boost, clm_manager, reward_pool, Direction, clm_deposit, clm_withdraw, claim,
}
use beefy_envio_balances_ind.Indexer.Timeline.{HeadPriceSource, no_fields, write_timeline_event}
use beefy_envio_balances_ind.Indexer.Balances.{handle_boost_stake}
use beefy_envio_balances_ind.Indexer.Registry.{Effects, reward_pool_reward}
use beefy_envio_balances_ind.Indexer.Registry.Facts.{ensure_token, write_event_link}
use beefy_envio_balances_ind.Indexer.Handlers.Rows.{of_boost, of_reward_pool, Tables}
use beefy_envio_balances_ind.Indexer.Handlers.Guarded.{guarded}

module _ (is_blacklisted : ℕ → Text → Bool) (head_price_at : HeadPriceSource) where
  -- `Staked` and `Withdrawn` of a boost
  abbrev pub on_stake : Effects → RawEvent → Direction → Text → ℕ → Tables → Tables
  on_stake fx event direction user amount t =
      guarded is_blacklisted fx event boost
        (λ c t'. record t' {
          store = handle_boost_stake head_price_at event user amount c direction t'.store;
        })
        t

  abbrev pub on_boost_reward_added : Effects → RawEvent → ℕ → Tables → Tables
  on_boost_reward_added fx event reward t =
      guarded is_blacklisted fx event boost
        (λ _ t'. record t' {
          reward_notified =
              set EventKey-discrete (event_id event)
                (record {
                  columns = event_columns event;
                  contract = as_hex event.src_address;
                  source = of_boost;
                  reward_token = none;
                  amount = reward;
                  duration = none;
                })
                t'.reward_notified;
        })
        t

  abbrev pub on_boost_reward_paid : Effects → RawEvent → Text → ℕ → Tables → Tables
  on_boost_reward_paid fx event user reward t =
      guarded is_blacklisted fx event boost
        (λ c t'. record t' {
          reward_paid =
              set EventKey-discrete (event_id event)
                (record {
                  columns = event_columns event;
                  contract = as_hex event.src_address;
                  source = of_boost;
                  user = as_hex user;
                  reward_token = none;
                  amount = reward;
                })
                t'.reward_paid;
          store =
              write_timeline_event head_price_at event c user claim
                (record no_fields { reward_amount = reward }) t'.store;
        })
        t

  abbrev pub on_clm_deposit :
      Effects → RawEvent → Text → (shares amount0 amount1 fee0 fee1 : ℕ) → Tables → Tables
  on_clm_deposit fx event user shares amount0 amount1 fee0 fee1 t =
      guarded is_blacklisted fx event clm_manager
        (λ c t'. record t' {
          clm_deposits =
              set EventKey-discrete (event_id event)
                (record {
                  columns = event_columns event;
                  manager = as_hex event.src_address;
                  user = as_hex user;
                  shares = shares;
                  amount0 = amount0;
                  amount1 = amount1;
                  fee0 = fee0;
                  fee1 = fee1;
                })
                t'.clm_deposits;
          store =
              write_timeline_event head_price_at event c user clm_deposit
                (record no_fields { amount0 = amount0; amount1 = amount1 }) t'.store;
        })
        t

  abbrev pub on_clm_withdraw :
      Effects → RawEvent → Text → (shares amount0 amount1 : ℕ) → Tables → Tables
  on_clm_withdraw fx event user shares amount0 amount1 t =
      guarded is_blacklisted fx event clm_manager
        (λ c t'. record t' {
          clm_withdraws =
              set EventKey-discrete (event_id event)
                (record {
                  columns = event_columns event;
                  manager = as_hex event.src_address;
                  user = as_hex user;
                  shares = shares;
                  amount0 = amount0;
                  amount1 = amount1;
                })
                t'.clm_withdraws;
          store =
              write_timeline_event head_price_at event c user clm_withdraw
                (record no_fields { amount0 = amount0; amount1 = amount1 }) t'.store;
        })
        t

  abbrev pub on_add_reward : Effects → RawEvent → Text → Tables → Tables
  on_add_reward fx event reward t =
      guarded is_blacklisted fx event reward_pool
        (λ _ t'. record t' {
          registry =
              write_event_link event reward_pool_reward reward
                (ensure_token fx event.chain_id reward false false t'.registry).1;
        })
        t

  abbrev pub on_notify_reward : Effects → RawEvent → Text → (amount duration : ℕ) → Tables → Tables
  on_notify_reward fx event reward amount duration t =
      guarded is_blacklisted fx event reward_pool
        (λ _ t'. record t' {
          reward_notified =
              set EventKey-discrete (event_id event)
                (record {
                  columns = event_columns event;
                  contract = as_hex event.src_address;
                  source = of_reward_pool;
                  reward_token = some (as_hex reward);
                  amount = amount;
                  duration = some duration;
                })
                t'.reward_notified;
        })
        t

  abbrev pub on_reward_paid : Effects → RawEvent → Text → Text → ℕ → Tables → Tables
  on_reward_paid fx event user reward amount t =
      guarded is_blacklisted fx event reward_pool
        (λ c t'. record t' {
          reward_paid =
              set EventKey-discrete (event_id event)
                (record {
                  columns = event_columns event;
                  contract = as_hex event.src_address;
                  source = of_reward_pool;
                  user = as_hex user;
                  reward_token = some (as_hex reward);
                  amount = amount;
                })
                t'.reward_paid;
          store =
              write_timeline_event head_price_at event c user claim
                (record no_fields { reward_token = as_hex reward; reward_amount = amount })
                t'.store;
        })
        t
