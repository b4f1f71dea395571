-- ===== src/Indexer/Balances/Tests.antt =====
-- A mint, a transfer and a burn of shares, and a stake in a boost.
use mathlib.Core.Bool.{decide}
use beefy_envio_balances_ind.Common.{
  ℕ, ◌≡◌, refl, false, none, List, [], ◌∷◌, Text, Text-discrete, to_lower, map, All,
}
use beefy_envio_balances_ind.Common.Int.{pos, neg, ◌+ℤ◌}
use beefy_envio_balances_ind.Common.Dict.{lookup, set}
use beefy_envio_balances_ind.Indexer.Event.{
  RawEvent, as_hex, zero_address, is_zero_address, ContractKey-discrete, EventKey-discrete,
}
use beefy_envio_balances_ind.Indexer.Store.{
  Contract, boost, BalanceKey-discrete, TimelineKey-discrete, stake, Store, empty,
}
use beefy_envio_balances_ind.Indexer.Timeline.{
  HeadPriceSource, legs_of, flow_of, head_columns, timeline_row, set_row, burn_rows,
  write_transfer_timeline,
}
use beefy_envio_balances_ind.Indexer.Balances.{
  is_tracked, apply_supply_delta, transfer_supply, write_deltas, apply_balance_deltas,
  transfer_balances, handle_share_transfer, handle_boost_stake,
}
use beefy_envio_balances_ind.Indexer.Balances.Totals.{total}
use beefy_envio_balances_ind.Indexer.Timeline.Flow.{Transfer}
use beefy_envio_balances_ind.Indexer.Balances.Accounts.{
  balance_of, credit, ledger, replay_shares, handle_share_transfer-balance_of, replay_shares-ledger,
}

abbrev no_price : HeadPriceSource
no_price chain contract timestamp = none

abbrev at_log : ℕ → RawEvent
at_log n = record {
  chain_id = 10;
  src_address = 7 ∷ [];
  log_index = n;
  block_number = 100;
  block_timestamp = 5000;
  trx_hash = 48 ∷ 120 ∷ n ∷ [];
  trx_from = none;
}

abbrev token : Contract
token = record {
  id = (10, 7 ∷ []);
  address = 7 ∷ [];
  kind = boost;
  factory = none;
  created_block = none;
  created_timestamp = none;
  created_trx_hash = none;
  deploy_name = none;
  facts_block = none;
  facts_status = none;
  product_address = none;
  price_decimals = none;
  product_kind = none;
}

abbrev ann : Text
ann = 2 ∷ []

abbrev bob : Text
bob = 3 ∷ []

program : Unit {0}
unfolding decide to_lower Text-discrete is_zero_address zero_address lookup set ContractKey-discrete
    BalanceKey-discrete TimelineKey-discrete EventKey-discrete legs_of flow_of head_columns
    timeline_row set_row burn_rows write_transfer_timeline is_tracked apply_supply_delta
    transfer_supply write_deltas apply_balance_deltas transfer_balances handle_share_transfer
    handle_boost_stake neg ◌+ℤ◌ total
program = tt

abbrev minted : Store
minted = handle_share_transfer no_price (at_log 1) zero_address ann 50 token empty

abbrev moved : Store
moved = handle_share_transfer no_price (at_log 2) ann bob 20 token minted

abbrev burnt : Store
burnt = handle_share_transfer no_price (at_log 3) bob zero_address 5 token moved

balances_lem : map (λ e. e.1.balance) burnt.balances ≡ pos 30 ∷ pos 15 ∷ []
unfolding program
balances_lem = refl

supplies_lem : map (λ e. e.1.total_supply) burnt.supplies ≡ pos 45 ∷ []
unfolding program
supplies_lem = refl

-- 0x0 has no balance of its own
keys_lem : map (λ e. e.0.1) burnt.balances ≡ ann ∷ bob ∷ []
unfolding program
keys_lem = refl

-- a stake by 0x0 moves the supply but no balance
zero_stake :
    (let after = handle_boost_stake no_price (at_log 1) zero_address 9 token stake empty in
      (map (λ e. e.1.total_supply) after.supplies ≡ pos 9 ∷ []) × (after.balances ≡ []))
unfolding program
zero_stake = (refl, refl)

ann_not_zero : is_zero_address ann ≡ false
unfolding program
ann_not_zero = refl

bob_not_zero : is_zero_address bob ≡ false
unfolding program
bob_not_zero = refl

handle_share_transfer-balance_of_example :
    balance_of ((10, as_hex (7 ∷ [])), bob) moved.balances
    ≡ balance_of ((10, as_hex (7 ∷ [])), bob) minted.balances
      +ℤ credit (as_hex ann) (as_hex bob) 20 bob
handle_share_transfer-balance_of_example =
    handle_share_transfer-balance_of no_price (at_log 2) ann bob 20 token minted bob bob_not_zero

abbrev day : List Transfer
day =
    record { event = at_log 1; from = zero_address; to = ann; value = 50 }
    ∷ record { event = at_log 2; from = ann; to = bob; value = 20 }
    ∷ record { event = at_log 3; from = bob; to = zero_address; value = 5 }
    ∷ []

one_chain : All (λ (t : Transfer). t.event.chain_id ≡ 10) day
one_chain = (refl, (refl, (refl, tt)))

replay_shares-ledger_example :
    balance_of ((10, as_hex (7 ∷ [])), bob) (replay_shares no_price token day empty).balances
    ≡ balance_of ((10, as_hex (7 ∷ [])), bob) empty.balances +ℤ ledger bob day
replay_shares-ledger_example =
    replay_shares-ledger no_price 10 token day empty bob one_chain bob_not_zero
