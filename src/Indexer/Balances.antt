-- ===== src/Indexer/Balances.antt =====
-- Running sums, apps/indexer/src/lib/balances.ts: `Balance`, `TokenSupply` and the BALANCE rows. The
-- parts that a `Promise.all` joins work on different rows, and run one after the other here.
pub mod Totals
pub mod Deltas
pub mod Moves
pub mod Conservation
pub mod Accounts
mod Tests
use beefy_envio_balances_ind.Common.{
  ℕ, ◌≡◌, Bool, true, false, not, ◌&&◌, ◌||◌, Option, none, some, List, [], ◌∷◌, ◌==◌,
  if◌then◌else◌, filter_by, Text, same_text,
}
use beefy_envio_balances_ind.Common.Int.{ℤ, pos, negsuc, neg, ◌+ℤ◌}
use beefy_envio_balances_ind.Common.Dict.{lookup, set}
use beefy_envio_balances_ind.Indexer.Event.{
  RawEvent, as_hex, is_zero_address, ContractKey, ContractKey-discrete, EventKey-discrete, event_id,
  event_columns,
}
use beefy_envio_balances_ind.Indexer.Store.{
  Contract, BalanceKey, BalanceKey-discrete, Balance, TokenSupply, Source, transfer, boost_stake,
  ShareTransfer, Direction, stake, unstake, BoostStake, Store,
}
use beefy_envio_balances_ind.Indexer.Store
use beefy_envio_balances_ind.Indexer.Timeline.{
  HeadPriceSource, Fields, no_fields, write_timeline_event, write_transfer_timeline,
}

abbrev pub balance_id : ℕ → Text → Text → BalanceKey
balance_id chain token account = ((chain, as_hex token), as_hex account)

abbrev pub supply_id : ℕ → Text → ContractKey
supply_id chain token = (chain, as_hex token)

pub record Delta : Type 0 where
  pub account : Text
  pub delta : ℤ

abbrev pub is_zero : ℤ → Bool
is_zero (pos n) = n == 0
is_zero (negsuc n) = false

-- `current?.balance ?? 0n`
abbrev pub balance_or_zero : Option Balance → ℤ
balance_or_zero none = pos 0
balance_or_zero (some b) = b.balance

abbrev pub supply_or_zero : Option TokenSupply → ℤ
supply_or_zero none = pos 0
supply_or_zero (some s) = s.total_supply

unfoldable pub is_tracked : Delta → Bool
is_tracked d = not (is_zero d.delta) && not (is_zero_address d.account)

-- the supply after the change, and the store
unfoldable pub apply_supply_delta : RawEvent → Text → ℤ → Store → ℤ × Store
apply_supply_delta event token delta store =
    let id = supply_id event.chain_id token in
    let total_supply = supply_or_zero (lookup ContractKey-discrete id store.supplies) +ℤ delta in
    (
      total_supply,
      record store {
        supplies =
            set ContractKey-discrete id
              (record {
                token = as_hex token;
                total_supply = total_supply;
                last_change_block = event.block_number;
              })
              store.supplies;
      },
    )

-- the change of the user's balance and of the boost's supply
abbrev pub staked : Direction → ℕ → ℤ
staked stake amount = pos amount
staked unstake amount = neg (pos amount)

-- the supply's part of a transfer: only a mint or a burn, not both, changes it
unfoldable pub transfer_supply : RawEvent → Text → Text → Text → ℕ → Store → Option ℤ × Store
transfer_supply event token from to value store =
    let change = λ (d : ℤ).
      (let (after, store') = apply_supply_delta event token d store in
        let r : Option ℤ × Store = (some after, store') in r) in
    if is_zero_address from
    then (if is_zero_address to then (none, store) else change (pos value))
    else if is_zero_address to
    then change (neg (pos value))
    else (none, store)

module _ (head_price_at : HeadPriceSource) where
  -- the `forEach` over the tracked deltas, with the balances as read before any write
  unfoldable pub write_deltas :
      RawEvent → Contract → Source → List (BalanceKey × Balance) → List Delta → Store → Store
  write_deltas event contract source read [] store = store
  write_deltas event contract source read (d ∷ ds) store =
      let token = contract.address in
      let id = balance_id event.chain_id token d.account in
      let balance_after = balance_or_zero (lookup BalanceKey-discrete id read) +ℤ d.delta in
      write_deltas event contract source read ds (
        write_timeline_event head_price_at event contract d.account Store.TimelineKind.balance
          (record no_fields { source = source; delta = d.delta; shares_after = balance_after })
          (record store {
            balances =
                set BalanceKey-discrete id
                  (record {
                    token = as_hex token;
                    account = as_hex d.account;
                    balance = balance_after;
                    last_change_block = event.block_number;
                  })
                  store.balances;
          }))

  unfoldable pub apply_balance_deltas : RawEvent → Contract → Source → List Delta → Store → Store
  apply_balance_deltas event contract source deltas store =
      write_deltas event contract source store.balances (filter_by is_tracked deltas) store

  unfoldable pub transfer_balances : RawEvent → Contract → Text → Text → ℕ → Store → Store
  transfer_balances event contract from to value store =
      if same_text from to
      then store
      else apply_balance_deltas event contract transfer
          (record { account = from; delta = neg (pos value) }
            ∷ record { account = to; delta = pos value }
            ∷ [])
          store

  unfoldable pub handle_share_transfer : RawEvent → Text → Text → ℕ → Contract → Store → Store
  handle_share_transfer event from_param to_param value contract store =
      let token = contract.address in
      let from = as_hex from_param in
      let to = as_hex to_param in
      let (total_supply_after, supplied) = transfer_supply event token from to value store in
      let moved = transfer_balances event contract from to value supplied in
      let marked = write_transfer_timeline head_price_at event contract from to value moved in
      record marked {
        share_transfers =
            set EventKey-discrete (event_id event)
              (record {
                columns = event_columns event;
                token = token;
                from_address = from;
                to_address = to;
                value = value;
                total_supply_after = total_supply_after;
              })
              marked.share_transfers;
      }

  unfoldable pub handle_boost_stake : RawEvent → Text → ℕ → Contract → Direction → Store → Store
  handle_boost_stake event user_param amount contract direction store =
      let boost = contract.address in
      let user = as_hex user_param in
      let delta = staked direction amount in
      let supplied = (apply_supply_delta event boost delta store).1 in
      let moved =
        apply_balance_deltas event contract boost_stake
          (record { account = user; delta = delta } ∷ []) supplied in
      record moved {
        boost_stakes =
            set EventKey-discrete (event_id event)
              (record {
                columns = event_columns event;
                boost = boost;
                user = user;
                amount = amount;
                direction = direction;
              })
              moved.boost_stakes;
      }
