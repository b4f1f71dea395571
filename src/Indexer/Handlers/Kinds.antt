-- ===== src/Indexer/Handlers/Kinds.antt =====
-- Established kinds through every handler, and the events of created contracts.
use mathlib.Core.Path.{subst}
use beefy_envio_balances_ind.Common.{
  ℕ, ◌≡◌, ◌≢◌, ◌∙◌, refl, sym, Bool, true, false, Text, Option, none, Option-cases, Bool-cases, inl,
  inr,
}
use beefy_envio_balances_ind.Indexer.Event.{RawEvent, as_hex, ContractKey, contract_id}
use beefy_envio_balances_ind.Indexer.Store.{Contract, ContractKind, unknown}
use beefy_envio_balances_ind.Indexer.Timeline.{HeadPriceSource}
use beefy_envio_balances_ind.Indexer.Registry.{
  Effects, Registry, Token, reward_pool_reward, vault_strategy,
}
use beefy_envio_balances_ind.Indexer.Registry.Facts.{
  read_token, write_token, token_row, ensure_token, write_event_link,
}
use beefy_envio_balances_ind.Indexer.Handlers.Swapper.{route_of, write_route, ensure_route_tokens}
use beefy_envio_balances_ind.Indexer.Registry.Guard.{ensure_contract}
use beefy_envio_balances_ind.Indexer.Registry.Keyed.{
  IsKeyed, HasKind, OfKind, OfKind-IsStable, Holds,
}
use beefy_envio_balances_ind.Indexer.Registry.Kinds.{
  ensure_contract-Holds, register_created_contract-Holds,
}
use beefy_envio_balances_ind.Indexer.Registry.Created.{
  IsFree, register_created_contract-kind, ensure_contract-ne-none,
}
use beefy_envio_balances_ind.Indexer.Handlers.Rows.{Tables}
use beefy_envio_balances_ind.Indexer.Handlers.Guarded.{guarded}
use beefy_envio_balances_ind.Indexer.Handlers.Factories.{Config, on_created}
use beefy_envio_balances_ind.Indexer.Handlers.Steps.{
  Step, Steps, here, then_step, initialized, transferred, staked, boost_reward_added,
  boost_reward_paid, clm_deposited, clm_withdrawn, reward_added, reward_notified, reward_paid,
  paused, fees_charged, fees_charged_v2, strat_harvested, clm_harvested, rewards_harvested,
  fees_claimed, rewards_claimed, tvl_told, swapper_initialized, oracle_set, slippage_set,
  swap_info_set, created, proxy_created, deployed, strategy_upgraded,
}

write_token-contracts :
    (chain : ℕ) (address : Text) (r : Token × Bool) (reg : Registry)
    → (write_token chain address r reg).contracts ≡ reg.contracts
unfolding write_token
write_token-contracts chain address (row, true) reg = refl
write_token-contracts chain address (row, false) reg = refl

abbrev with_reward : Effects → RawEvent → Text → Tables → Tables
with_reward fx event reward t = record t {
  registry =
      write_event_link event reward_pool_reward reward
        (ensure_token fx event.chain_id reward false false t.registry).1;
}

ensure_route_tokens-contracts :
    (fx : Effects) (event : RawEvent) (from_token to_token : Text) (t : Tables)
    → (ensure_route_tokens fx event from_token to_token t).registry.contracts ≡ t.registry.contracts
ensure_route_tokens-contracts fx event from_token to_token t =
    let chain = event.chain_id in
    let f = read_token fx chain (as_hex from_token) false false t.registry in
    let g = read_token fx chain (as_hex to_token) false false t.registry in
    write_token-contracts chain (as_hex to_token) g
      (write_token chain (as_hex from_token) f t.registry)
    ∙ write_token-contracts chain (as_hex from_token) f t.registry

module _ (cfg : Config) (head_price_at : HeadPriceSource) (k : ContractKey)
    (known : ContractKind) where
  guarded-Holds :
      (fx : Effects) (event : RawEvent) (kind : ContractKind) (rest : Contract → Tables → Tables)
      (t : Tables)
      → ((c : Contract) → (u : Tables) → (rest c u).registry.contracts ≡ u.registry.contracts)
      → Holds k known t.registry.contracts
      → Holds k known (guarded cfg.is_blacklisted fx event kind rest t).registry.contracts
  unfolding guarded
  guarded-Holds fx event kind rest t h c =
      let r = ensure_contract cfg.is_blacklisted fx event kind t.registry in
      let held =
        ensure_contract-Holds k (OfKind known) cfg.is_blacklisted fx event kind t.registry
          (OfKind-IsStable known) c in
      elim (Option-cases r.0) [
        | inl n ↦ rw (n, guarded) held
        | inr (row, e) ↦
            rw (e, guarded) (subst (Holds k known) (sym (h row (record t { registry = r.1 }))) held)
      ]

  on_created-Holds :
      (fx : Effects) (event : RawEvent) (address : Text) (kind : ContractKind) (name : Option Text)
      (t : Tables)
      → known ≢ unknown
      → Holds k known t.registry.contracts
      → Holds k known (on_created cfg fx event address kind name t).registry.contracts
  unfolding on_created
  on_created-Holds fx event address kind name t e h =
      elim (Bool-cases (cfg.is_blacklisted event.chain_id address)) [
        | inl b ↦ rw (b, on_created) h
        | inr b ↦
            rw (b, on_created)
              (register_created_contract-Holds k (OfKind known) fx event address kind name
                t.registry (OfKind-IsStable known)
                (λ c same unknown_kind. e (sym same ∙ unknown_kind)) h)
      ]

  Step-Holds :
      (t u : Tables)
      → Step cfg head_price_at t u
      → known ≢ unknown
      → Holds k known t.registry.contracts
      → Holds k known u.registry.contracts
  unfolding write_event_link write_token token_row
  Step-Holds t _ (initialized fx event kind) n h = guarded-Holds fx event _ _ t (λ c u. refl) h
  Step-Holds t _ (transferred fx event kind from to value) n h =
      guarded-Holds fx event _ _ t (λ c u. refl) h
  Step-Holds t _ (staked fx event direction user amount z) n h =
      guarded-Holds fx event _ _ t (λ c u. refl) h
  Step-Holds t _ (boost_reward_added fx event reward) n h =
      guarded-Holds fx event _ _ t (λ c u. refl) h
  Step-Holds t _ (boost_reward_paid fx event user reward) n h =
      guarded-Holds fx event _ _ t (λ c u. refl) h
  Step-Holds t _ (clm_deposited fx event user shares amount0 amount1 fee0 fee1) n h =
      guarded-Holds fx event _ _ t (λ c u. refl) h
  Step-Holds t _ (clm_withdrawn fx event user shares amount0 amount1) n h =
      guarded-Holds fx event _ _ t (λ c u. refl) h
  Step-Holds t _ (reward_added fx event reward) n h =
      guarded-Holds fx event _ (λ _ u. with_reward fx event reward u) t
        (λ c u.
          write_token-contracts event.chain_id reward
            (read_token fx event.chain_id reward false false u.registry) u.registry)
        h
  Step-Holds t _ (reward_notified fx event reward amount duration) n h =
      guarded-Holds fx event _ _ t (λ c u. refl) h
  Step-Holds t _ (reward_paid fx event user reward amount) n h =
      guarded-Holds fx event _ _ t (λ c u. refl) h
  Step-Holds t _ (paused fx event kind account on) n h =
      guarded-Holds fx event _ _ t (λ c u. refl) h
  Step-Holds t _ (fees_charged fx event kind family beefy_fee liquidity_fee) n h =
      guarded-Holds fx event _ _ t (λ c u. refl) h
  Step-Holds t _ (fees_charged_v2 fx event kind family call_fee beefy_fee strategist_fee) n h =
      guarded-Holds fx event _ _ t (λ c u. refl) h
  Step-Holds t _ (strat_harvested fx event harvester want_harvested tvl) n h =
      guarded-Holds fx event _ _ t (λ c u. refl) h
  Step-Holds t _ (clm_harvested fx state event fee0 fee1) n h =
      guarded-Holds fx event _ _ t (λ c u. refl) h
  Step-Holds t _ (rewards_harvested fx event fees) n h =
      guarded-Holds fx event _ _ t (λ c u. refl) h
  Step-Holds t _ (fees_claimed fx event fee_main0 fee_main1 fee_alt0 fee_alt1) n h =
      guarded-Holds fx event _ _ t (λ c u. refl) h
  Step-Holds t _ (rewards_claimed fx event fees) n h = guarded-Holds fx event _ _ t (λ c u. refl) h
  Step-Holds t _ (tvl_told fx state event bal0 bal1) n h =
      guarded-Holds fx event _ _ t (λ c u. refl) h
  Step-Holds t _ (swapper_initialized fx event version) n h =
      guarded-Holds fx event _ _ t (λ c u. refl) h
  Step-Holds t _ (oracle_set fx event oracle) n h = guarded-Holds fx event _ _ t (λ c u. refl) h
  Step-Holds t _ (slippage_set fx event slippage) n h = guarded-Holds fx event _ _ t (λ c u. refl) h
  Step-Holds t _ (swap_info_set fx event from_token to_token info) n h =
      guarded-Holds fx event _
        (λ _ u.
          write_route event (route_of event from_token to_token info)
            (ensure_route_tokens fx event from_token to_token u))
        t (λ c u. ensure_route_tokens-contracts fx event from_token to_token u) h
  Step-Holds t _ (strategy_upgraded fx event implementation) n h =
      guarded-Holds fx event _
        (λ _ u. record u {
          registry = write_event_link event vault_strategy implementation u.registry;
        })
        t (λ c u. refl) h
  Step-Holds t _ (created fx event address kind name) n h =
      on_created-Holds fx event address kind name t n h
  Step-Holds t _ (proxy_created fx answers event proxy input) n h =
      on_created-Holds fx event _ _ _ t n h
  Step-Holds t _ (deployed fx event address contract_name) n h =
      elim (Bool-cases (cfg.is_contract_factory event.chain_id (as_hex event.src_address))) [
        | inl f ↦ rw f (on_created-Holds fx event _ _ _ t n h)
        | inr f ↦ rw f h
      ]

  Steps-Holds :
      (t u : Tables)
      → Steps cfg head_price_at t u
      → known ≢ unknown
      → Holds k known t.registry.contracts
      → Holds k known u.registry.contracts
  Steps-Holds t _ here n h = h
  Steps-Holds t _ (then_step u v r s) n h = Step-Holds u v s n (Steps-Holds t u r n h)

-- Once a factory's event has created a contract, of a kind other than UNKNOWN, at an address that
-- is not blacklisted and has no row, one of UNKNOWN kind or one of this kind, then after any further
-- events, with any answers of the chain, an event of that contract passes the guard of its kind.
pub created-passes :
    (cfg : Config) (head_price_at : HeadPriceSource) (fx : Effects) (event : RawEvent)
    (address : Text) (kind : ContractKind) (name : Option Text) (t u : Tables) (fx' : Effects)
    (later : RawEvent)
    → cfg.is_blacklisted event.chain_id address ≡ false
    → kind ≢ unknown
    → IsKeyed t.registry.contracts
    → IsFree (contract_id event.chain_id address) kind t.registry
    → Steps cfg head_price_at (on_created cfg fx event address kind name t) u
    → contract_id later.chain_id later.src_address ≡ contract_id event.chain_id address
    → cfg.is_blacklisted later.chain_id later.src_address ≡ false
    → (ensure_contract cfg.is_blacklisted fx' later kind u.registry).0 ≢ none
unfolding on_created
created-passes cfg head_price_at fx event address kind name t u fx' later b known keyed free steps
      at_address c =
    let id = contract_id event.chain_id address in
    let made : Holds id kind (on_created cfg fx event address kind name t).registry.contracts =
      rw (b, on_created)
        (register_created_contract-kind fx event address kind name t.registry known keyed free) in
    let held : Holds id kind u.registry.contracts =
      Steps-Holds cfg head_price_at id kind (on_created cfg fx event address kind name t) u steps
        known made in
    ensure_contract-ne-none cfg.is_blacklisted fx' later kind u.registry c
      (subst (λ i. HasKind i kind u.registry.contracts) (sym at_address) held.1)
