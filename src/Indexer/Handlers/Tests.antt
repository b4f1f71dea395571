-- ===== src/Indexer/Handlers/Tests.antt =====
-- A boost that is created, a stake in it, its reward, and a transfer that the registry turns away.
use mathlib.Core.Bool.{decide, false≢true}
use mathlib.Core.Option.{none-ne-some}
use beefy_envio_balances_ind.Common.{
  ℕ, ◌≡◌, ◌≢◌, ◌⊎◌, refl, Bool, true, false, Option, none, some, [], ◌∷◌, Text, Text-discrete,
  to_lower, ap, inl,
}
use beefy_envio_balances_ind.Common.Dict.{lookup}
use beefy_envio_balances_ind.Indexer.Event.{RawEvent, as_hex, is_zero_address, zero_address}
use beefy_envio_balances_ind.Indexer.Store.{ContractKind, stake, boost, unknown, lst_vault}
use beefy_envio_balances_ind.Indexer.Timeline.{HeadPriceSource}
use beefy_envio_balances_ind.Indexer.Balances.Moves.{IsConserved}
use beefy_envio_balances_ind.Indexer.Registry.{Metadata, Effects}
use beefy_envio_balances_ind.Indexer.Registry.Keyed.{IsKeyed}
use beefy_envio_balances_ind.Indexer.Registry.Guard.{ensure_contract}
use beefy_envio_balances_ind.Indexer.Handlers.Rows.{Tables, no_tables}
use beefy_envio_balances_ind.Indexer.Handlers.Guarded.{on_transfer}
use beefy_envio_balances_ind.Indexer.Handlers.Shares.{on_stake, on_boost_reward_paid}
use beefy_envio_balances_ind.Indexer.Handlers.Factories.{
  reward_pool_type, reward_pool_created, register_factory, booooost, Config, on_created,
  classic_boost, Answers, register_vault_or_strategy, classify_from_input, proxy_kind,
}
use beefy_envio_balances_ind.Indexer.Handlers.Factories.Routing.{
  IsRouted, register_factory-created_kind, register_vault_or_strategy-proxy_kind,
}
use beefy_envio_balances_ind.Indexer.Handlers.Steps.{
  Steps, here, then_step, staked, boost_reward_paid, transferred, created,
}
use beefy_envio_balances_ind.Indexer.Handlers.Conservation.{Handled-IsConserved}
use beefy_envio_balances_ind.Indexer.Handlers.Kinds.{created-passes}

abbrev at_log : ℕ → RawEvent
at_log n = record {
  chain_id = 10;
  src_address = 7 ∷ [];
  log_index = n;
  block_number = 100;
  block_timestamp = 5000;
  trx_hash = 9 ∷ [];
  trx_from = none;
}

abbrev nothing : Text → Option Text
nothing a = none

abbrev silent : Effects
silent = record {
  read_vault_want = nothing;
  read_strategy_vault = nothing;
  read_clm_strategy_vault = nothing;
  read_clm_strategy_pool = nothing;
  read_boost_staked = nothing;
  read_boost_reward = nothing;
  read_reward_pool_staked = nothing;
  read_clm_want0 = nothing;
  read_clm_want1 = nothing;
  read_adapter_vault = nothing;
  read_asset = nothing;
  get_token_metadata = λ a.
      (let m : Metadata = record { ok = true; decimals = some 18; symbol = none; name = none } in
        m);
}

-- nothing is blacklisted or listed, and any input is of `booooost`
abbrev open_config : Config
open_config = record {
  is_blacklisted = λ chain address. false;
  uses_strat_harvest1 = λ chain address. false;
  is_listed = λ chain type address. false;
  is_contract_factory = λ chain address. true;
  decode_function = λ input. some booooost;
  hex_to_string = λ value. value;
}

abbrev no_price : HeadPriceSource
no_price chain contract timestamp = none

ann_not_zero : is_zero_address (2 ∷ []) ≡ false
unfolding decide is_zero_address to_lower Text-discrete zero_address
ann_not_zero = refl

abbrev open_list : ℕ → Text → Bool
open_list chain address = false

abbrev made : Tables
made = on_created open_config silent (at_log 0) (7 ∷ []) boost none no_tables

abbrev staked_in : Tables
staked_in = on_stake open_list no_price silent (at_log 1) stake (2 ∷ []) 40 made

abbrev rewarded : Tables
rewarded = on_boost_reward_paid open_list no_price silent (at_log 2) (2 ∷ []) 3 staked_in

-- the boost is registered as one, so a transfer of it as an LST vault is turned away
abbrev turned_away : Tables
turned_away =
    on_transfer open_list no_price silent (at_log 3) lst_vault (2 ∷ []) (3 ∷ []) 5 rewarded

abbrev after_made : Steps open_config no_price made turned_away
after_made =
    then_step rewarded turned_away
      (then_step staked_in rewarded
        (then_step made staked_in here (staked silent (at_log 1) stake (2 ∷ []) 40 ann_not_zero))
        (boost_reward_paid silent (at_log 2) (2 ∷ []) 3))
      (transferred silent (at_log 3) lst_vault (2 ∷ []) (3 ∷ []) 5)

Handled-IsConserved_example : IsConserved turned_away.store
Handled-IsConserved_example = Handled-IsConserved open_config no_price turned_away (
    then_step rewarded turned_away
      (then_step staked_in rewarded
        (then_step made staked_in
          (then_step no_tables made here (created silent (at_log 0) (7 ∷ []) boost none))
          (staked silent (at_log 1) stake (2 ∷ []) 40 ann_not_zero))
        (boost_reward_paid silent (at_log 2) (2 ∷ []) 3))
      (transferred silent (at_log 3) lst_vault (2 ∷ []) (3 ∷ []) 5))

is_unknown : ContractKind → Bool
is_unknown unknown = true
is_unknown _ = false

boost-ne-unknown : boost ≢ unknown
unfolding is_unknown
boost-ne-unknown e = false≢true (ap is_unknown e)

no_tables-IsKeyed : IsKeyed no_tables.registry.contracts
unfolding lookup
no_tables-IsKeyed k c e = elim (none-ne-some c e) [ ]

created-passes_example :
    (ensure_contract open_list silent (at_log 4) boost turned_away.registry).0 ≢ none
unfolding lookup
created-passes_example =
    created-passes open_config no_price silent (at_log 0) (7 ∷ []) boost none no_tables turned_away
      silent (at_log 4) refl boost-ne-unknown no_tables-IsKeyed (inl refl) after_made refl refl

abbrev answers : Answers
answers = record { vault = false; strategy = false; reward_token = false }

register_vault_or_strategy-proxy_kind_example :
    IsRouted classic_boost
      (as_hex (5 ∷ []))
      (register_vault_or_strategy open_config 10 (5 ∷ []) (some (1 ∷ [])) [])
    ⊎ (false ≡ true)
unfolding classify_from_input proxy_kind
register_vault_or_strategy-proxy_kind_example =
    register_vault_or_strategy-proxy_kind open_config answers 10 (5 ∷ []) (some (1 ∷ [])) []
      classic_boost refl refl

register_factory-created_kind_example :
    IsRouted reward_pool_type
      (as_hex (5 ∷ []))
      (register_factory open_config reward_pool_created 10 (5 ∷ []) [])
register_factory-created_kind_example =
    register_factory-created_kind open_config reward_pool_created 10 (5 ∷ []) [] reward_pool_type
      refl refl
