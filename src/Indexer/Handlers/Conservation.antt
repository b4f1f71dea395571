-- ===== src/Indexer/Handlers/Conservation.antt =====
-- Balances and supplies through every handler.
use beefy_envio_balances_ind.Common.{refl, Text, Option, Option-cases, Bool-cases, inl, inr}
use beefy_envio_balances_ind.Common.Dict.{lookup}
use beefy_envio_balances_ind.Indexer.Event.{RawEvent, as_hex}
use beefy_envio_balances_ind.Indexer.Store.{Contract, ContractKind}
use beefy_envio_balances_ind.Indexer.Timeline.{HeadPriceSource, set_row}
use beefy_envio_balances_ind.Indexer.Balances.Totals.{total}
use beefy_envio_balances_ind.Indexer.Balances.Moves.{IsConserved}
use beefy_envio_balances_ind.Indexer.Balances.Conservation.{
  handle_share_transfer-IsConserved, handle_boost_stake-IsConserved,
}
use beefy_envio_balances_ind.Indexer.Registry.{Effects}
use beefy_envio_balances_ind.Indexer.Registry.Guard.{ensure_contract}
use beefy_envio_balances_ind.Indexer.Handlers.Rows.{Tables, no_tables}
use beefy_envio_balances_ind.Indexer.Handlers.Guarded.{guarded}
use beefy_envio_balances_ind.Indexer.Handlers.Factories.{Config, on_created}
use beefy_envio_balances_ind.Indexer.Handlers.Steps.{
  Step, Steps, here, then_step, initialized, transferred, staked, boost_reward_added,
  boost_reward_paid, clm_deposited, clm_withdrawn, reward_added, reward_notified, reward_paid,
  paused, fees_charged, fees_charged_v2, strat_harvested, clm_harvested, rewards_harvested,
  fees_claimed, rewards_claimed, tvl_told, swapper_initialized, oracle_set, slippage_set,
  swap_info_set, created, proxy_created, deployed, strategy_upgraded,
}

module _ (cfg : Config) (head_price_at : HeadPriceSource) where
  guarded-IsConserved :
      (fx : Effects) (event : RawEvent) (kind : ContractKind) (rest : Contract → Tables → Tables)
      (t : Tables)
      → ((c : Contract) → (u : Tables) → IsConserved u.store → IsConserved (rest c u).store)
      → IsConserved t.store
      → IsConserved (guarded cfg.is_blacklisted fx event kind rest t).store
  unfolding guarded
  guarded-IsConserved fx event kind rest t h c =
      let r = ensure_contract cfg.is_blacklisted fx event kind t.registry in
      elim (Option-cases r.0) [
        | inl n ↦ rw (n, guarded) c
        | inr (row, e) ↦ rw (e, guarded) (h row (record t { registry = r.1 }) c)
      ]

  on_created-IsConserved :
      (fx : Effects) (event : RawEvent) (address : Text) (kind : ContractKind) (name : Option Text)
      (t : Tables)
      → IsConserved t.store
      → IsConserved (on_created cfg fx event address kind name t).store
  unfolding on_created
  on_created-IsConserved fx event address kind name t h =
      elim (Bool-cases (cfg.is_blacklisted event.chain_id address)) [
        | inl b ↦ rw (b, on_created) h
        | inr b ↦ rw (b, on_created) h
      ]

  Step-IsConserved :
      (t u : Tables) → Step cfg head_price_at t u → IsConserved t.store → IsConserved u.store
  unfolding set_row
  Step-IsConserved t _ (initialized fx event kind) h =
      guarded-IsConserved fx event _ _ t (λ c u g. g) h
  Step-IsConserved t _ (transferred fx event kind from to value) h =
      guarded-IsConserved fx event kind _ t
        (λ c u g. handle_share_transfer-IsConserved head_price_at event from to value c u.store g) h
  Step-IsConserved t _ (staked fx event direction user amount z) h =
      guarded-IsConserved fx event _ _ t
        (λ c u g.
          handle_boost_stake-IsConserved head_price_at event user amount c direction u.store z g)
        h
  Step-IsConserved t _ (boost_reward_added fx event reward) h =
      guarded-IsConserved fx event _ _ t (λ c u g. g) h
  Step-IsConserved t _ (boost_reward_paid fx event user reward) h =
      guarded-IsConserved fx event _ _ t (λ c u g. g) h
  Step-IsConserved t _ (clm_deposited fx event user shares amount0 amount1 fee0 fee1) h =
      guarded-IsConserved fx event _ _ t (λ c u g. g) h
  Step-IsConserved t _ (clm_withdrawn fx event user shares amount0 amount1) h =
      guarded-IsConserved fx event _ _ t (λ c u g. g) h
  Step-IsConserved t _ (reward_added fx event reward) h =
      guarded-IsConserved fx event _ _ t (λ c u g. g) h
  Step-IsConserved t _ (reward_notified fx event reward amount duration) h =
      guarded-IsConserved fx event _ _ t (λ c u g. g) h
  Step-IsConserved t _ (reward_paid fx event user reward amount) h =
      guarded-IsConserved fx event _ _ t (λ c u g. g) h
  Step-IsConserved t _ (paused fx event kind account on) h =
      guarded-IsConserved fx event _ _ t (λ c u g. g) h
  Step-IsConserved t _ (fees_charged fx event kind family beefy_fee liquidity_fee) h =
      guarded-IsConserved fx event _ _ t (λ c u g. g) h
  Step-IsConserved t _ (fees_charged_v2 fx event kind family call_fee beefy_fee strategist_fee) h =
      guarded-IsConserved fx event _ _ t (λ c u g. g) h
  Step-IsConserved t _ (strat_harvested fx event harvester want_harvested tvl) h =
      guarded-IsConserved fx event _ _ t (λ c u g. g) h
  Step-IsConserved t _ (clm_harvested fx state event fee0 fee1) h =
      guarded-IsConserved fx event _ _ t (λ c u g. g) h
  Step-IsConserved t _ (rewards_harvested fx event fees) h =
      guarded-IsConserved fx event _ _ t (λ c u g. g) h
  Step-IsConserved t _ (fees_claimed fx event fee_main0 fee_main1 fee_alt0 fee_alt1) h =
      guarded-IsConserved fx event _ _ t (λ c u g. g) h
  Step-IsConserved t _ (rewards_claimed fx event fees) h =
      guarded-IsConserved fx event _ _ t (λ c u g. g) h
  Step-IsConserved t _ (tvl_told fx state event bal0 bal1) h =
      guarded-IsConserved fx event _ _ t (λ c u g. g) h
  Step-IsConserved t _ (swapper_initialized fx event version) h =
      guarded-IsConserved fx event _ _ t (λ c u g. g) h
  Step-IsConserved t _ (oracle_set fx event oracle) h =
      guarded-IsConserved fx event _ _ t (λ c u g. g) h
  Step-IsConserved t _ (slippage_set fx event slippage) h =
      guarded-IsConserved fx event _ _ t (λ c u g. g) h
  Step-IsConserved t _ (swap_info_set fx event from_token to_token info) h =
      guarded-IsConserved fx event _ _ t (λ c u g. g) h
  Step-IsConserved t _ (strategy_upgraded fx event implementation) h =
      guarded-IsConserved fx event _ _ t (λ c u g. g) h
  Step-IsConserved t _ (created fx event address kind name) h =
      on_created-IsConserved fx event address kind name t h
  Step-IsConserved t _ (proxy_created fx answers event proxy input) h =
      on_created-IsConserved fx event _ _ _ t h
  Step-IsConserved t _ (deployed fx event address contract_name) h =
      elim (Bool-cases (cfg.is_contract_factory event.chain_id (as_hex event.src_address))) [
        | inl f ↦ rw f (on_created-IsConserved fx event _ _ _ t h)
        | inr f ↦ rw f h
      ]

  Steps-IsConserved :
      (t u : Tables) → Steps cfg head_price_at t u → IsConserved t.store → IsConserved u.store
  Steps-IsConserved t _ here h = h
  Steps-IsConserved t _ (then_step u v r s) h = Step-IsConserved u v s (Steps-IsConserved t u r h)

  -- In all tables that events of any contracts lead to from empty ones, in any order, with any
  -- answers of the chain and no stake by 0x0, the balances of each token add up to its supply.
  pub Handled-IsConserved : (t : Tables) → Steps cfg head_price_at no_tables t → IsConserved t.store
  unfolding total lookup
  Handled-IsConserved t s = Steps-IsConserved no_tables t s (λ k. refl)
