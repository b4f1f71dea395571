-- ===== src/Indexer/Handlers/Swapper.antt =====
-- The handlers of swappers, apps/indexer/src/handlers/beefySwapper.handlers.ts.
use beefy_envio_balances_ind.Common.{ℕ, Bool, false, Option, none, some, Text}
use beefy_envio_balances_ind.Common.Int.{ℤ}
use beefy_envio_balances_ind.Common.Dict.{set}
use beefy_envio_balances_ind.Indexer.Event.{
  RawEvent, as_hex, EventKey-discrete, event_id, event_columns, contract_id, block_timestamp,
}
use beefy_envio_balances_ind.Indexer.Store.{swapper}
use beefy_envio_balances_ind.Indexer.Registry.{Effects}
use beefy_envio_balances_ind.Indexer.Registry.Facts.{read_token, write_token}
use beefy_envio_balances_ind.Indexer.Handlers.Rows.{
  Tables, Route, RouteKey-discrete, SwapperConfigKind, config_initialized, set_oracle, set_slippage,
}
use beefy_envio_balances_ind.Indexer.Handlers.Guarded.{guarded}

abbrev pub write_config_change :
    RawEvent → SwapperConfigKind → Option Text → Option ℕ → Option ℕ → Tables → Tables
write_config_change event kind oracle slippage version t = record t {
  swapper_config_changes =
      set EventKey-discrete (event_id event)
        (record {
          columns = event_columns event;
          swapper = as_hex event.src_address;
          kind = kind;
          oracle = oracle;
          slippage = slippage;
          version = version;
        })
        t.swapper_config_changes;
}

-- `swapInfo` of the event
pub record SwapInfo : Type 0 where
  pub router : Text
  pub data_hex : Text
  pub amount_index : ℕ
  pub min_index : ℕ
  pub min_amount_sign : ℤ

abbrev pub route_of : RawEvent → Text → Text → SwapInfo → Route
route_of event from_token to_token info = record {
  swapper = as_hex event.src_address;
  from_token = as_hex from_token;
  to_token = as_hex to_token;
  router = as_hex info.router;
  data_hex = as_hex info.data_hex;
  amount_index = info.amount_index;
  min_index = info.min_index;
  min_amount_sign = info.min_amount_sign;
}

-- the two `ensureToken` of a route, both of which read before either writes
abbrev pub ensure_route_tokens : Effects → RawEvent → Text → Text → Tables → Tables
ensure_route_tokens fx event from_token to_token t =
    let chain = event.chain_id in
    let f = read_token fx chain (as_hex from_token) false false t.registry in
    let g = read_token fx chain (as_hex to_token) false false t.registry in
    record t {
      registry =
          write_token chain (as_hex to_token) g
            (write_token chain (as_hex from_token) f t.registry);
    }

abbrev pub write_route : RawEvent → Route → Tables → Tables
write_route event route t = record t {
  swapper_routes =
      set RouteKey-discrete
        ((contract_id event.chain_id event.src_address, route.from_token), route.to_token)
        (record {
          route = route;
          updated_block = event.block_number;
          updated_timestamp = block_timestamp event;
          updated_trx_hash = as_hex event.trx_hash;
        })
        t.swapper_routes;
  swapper_route_changes =
      set EventKey-discrete (event_id event)
        (record { columns = event_columns event; route = route }) t.swapper_route_changes;
}

module _ (is_blacklisted : ℕ → Text → Bool) where
  abbrev pub on_swapper_initialized : Effects → RawEvent → ℕ → Tables → Tables
  on_swapper_initialized fx event version t =
      guarded is_blacklisted fx event swapper
        (λ _ t'. write_config_change event config_initialized none none (some version) t') t

  abbrev pub on_set_oracle : Effects → RawEvent → Text → Tables → Tables
  on_set_oracle fx event oracle t =
      guarded is_blacklisted fx event swapper
        (λ _ t'. write_config_change event set_oracle (some (as_hex oracle)) none none t') t

  abbrev pub on_set_slippage : Effects → RawEvent → ℕ → Tables → Tables
  on_set_slippage fx event slippage t =
      guarded is_blacklisted fx event swapper
        (λ _ t'. write_config_change event set_slippage none (some slippage) none t') t

  abbrev pub on_set_swap_info : Effects → RawEvent → Text → Text → SwapInfo → Tables → Tables
  on_set_swap_info fx event from_token to_token info t =
      guarded is_blacklisted fx event swapper
        (λ _ t'.
          write_route event (route_of event from_token to_token info)
            (ensure_route_tokens fx event from_token to_token t'))
        t
