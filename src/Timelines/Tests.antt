-- ===== src/Timelines/Tests.antt =====
-- A stake of vault shares: a transfer to the boost in one transaction, after a deposit in another.
use mathlib.Core.List.{Mem}
use beefy_envio_balances_ind.Common.{
  ℕ, ◌+◌, ◌≤◌, ◌≡◌, refl, not, ◌&&◌, none, some, List, [], ◌∷◌, ◌++◌, some_of, filter_by, strip_end,
  Text-discrete,
}
use beefy_envio_balances_ind.Common.Int.{ℤ, pos, negsuc, neg}
use beefy_envio_balances_ind.Common.Sums.{sum_entries}
use beefy_envio_balances_ind.Indexer.Store.{
  vault, boost, TimelineKind, balance, mint, Source, blank, transfer, boost_stake,
}
use beefy_envio_balances_ind.Timelines.Units.{decimal_at, format_units}
use beefy_envio_balances_ind.Timelines.Units.RoundTrip.{read_units, read_units-format_units}
use beefy_envio_balances_ind.Timelines.Rows.{PricedRow, Platform, transfer_out}
use beefy_envio_balances_ind.Timelines.Actions.{includes, actions_of}
use beefy_envio_balances_ind.Timelines.Actions.Listed.{does, caused, count, actions_of-listed}
use beefy_envio_balances_ind.Timelines.Build.{
  is_row, balance_at, assemble, no_rows, item_of, entries_of, build_timeline,
}
use beefy_envio_balances_ind.Timelines.Build.Grouping.{group_of, build_timeline-Mem}
use beefy_envio_balances_ind.Timelines.Build.Diffs.{
  entry_diff, share_diff_of, diffs_of, diffs_of-balance_at, entries_of-share_diff,
}

abbrev row_of : (trx contract : ℕ) → TimelineKind → Source → ℤ → PricedRow
row_of trx contract kind source delta = record {
  chain_id = 10;
  timestamp_ms = 1700000000123;
  block_number = 5;
  log_index = 1;
  trx_hash = trx ∷ [];
  kind = kind;
  contract = contract ∷ [];
  source = source;
  delta = delta;
  shares_after = pos 40;
  amount0 = 0;
  amount1 = 0;
  reward_token = [];
  reward_amount = 0;
  product_address = 7 ∷ [];
  product_kind = some vault;
  contract_kind = some boost;
  decimals = 18;
  share_to_usd = 0;
  price_flag = [];
  price_source = [];
  price_resolution = [];
  price_before_at = none;
  price_after_at = none;
  usd_delta = 0;
  usd_after = 0;
}

abbrev platform : Platform
platform = record {
  to_iso = λ ms. ms ∷ [];
  chain_key = λ id. none;
  zero_usd = 0;
  add = λ a b. a + b;
  usd_of = λ v decimals price. price;
}

abbrev deposited : List PricedRow
deposited = row_of 1 7 mint blank (pos 0) ∷ row_of 1 7 balance transfer (pos 40) ∷ []

abbrev sent : PricedRow
sent = row_of 2 7 balance transfer (negsuc 39)

abbrev stake_row : PricedRow
stake_row = row_of 2 8 balance boost_stake (pos 40)

-- "-0.05", of -5 in hundredths
format_units_run : format_units (negsuc 4) 2 ≡ 45 ∷ 48 ∷ 46 ∷ 48 ∷ 53 ∷ []
unfolding format_units decimal_at neg strip_end
format_units_run = refl

read_units-format_units_example : read_units 2 (format_units (negsuc 1249) 2) ≡ negsuc 1249
read_units-format_units_example = read_units-format_units (negsuc 1249) 2

actions_of-listed_example :
    (includes transfer_out (actions_of (sent ∷ stake_row ∷ [])) ≡ (
      some_of (does transfer_out) (sent ∷ stake_row ∷ [])
      && not (caused (sent ∷ stake_row ∷ []) transfer_out)))
    × (count transfer_out (actions_of (sent ∷ stake_row ∷ [])) ≤ 1)
actions_of-listed_example = actions_of-listed transfer_out (sent ∷ stake_row ∷ [])

build_timeline-Mem_example :
    Mem
      (item_of platform (group_of (deposited ++ sent ∷ []) stake_row) stake_row)
      (build_timeline platform ((deposited ++ sent ∷ []) ++ stake_row ∷ []))
build_timeline-Mem_example = build_timeline-Mem platform (deposited ++ sent ∷ []) stake_row [] tt

diffs_of-balance_at_example :
    diffs_of (10, 7 ∷ []) (assemble no_rows (deposited ++ sent ∷ stake_row ∷ []))
    ≡ balance_at (10, 7 ∷ []) (assemble no_rows (deposited ++ sent ∷ stake_row ∷ [])).balances
diffs_of-balance_at_example = diffs_of-balance_at (10, 7 ∷ []) (deposited ++ sent ∷ stake_row ∷ [])

entries_of-share_diff_example :
    sum_entries Text-discrete entry_diff (
      entries_of [] (filter_by (is_row balance) (group_of (deposited ++ sent ∷ []) stake_row).rows))
    ≡ share_diff_of (group_of (deposited ++ sent ∷ []) stake_row)
entries_of-share_diff_example = entries_of-share_diff (group_of (deposited ++ sent ∷ []) stake_row)
