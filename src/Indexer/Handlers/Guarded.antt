-- ===== src/Indexer/Handlers/Guarded.antt =====
-- `ensureContract` before every product handler, and the two events that all kinds share.
use beefy_envio_balances_ind.Common.{ℕ, Bool, none, some, Text}
use beefy_envio_balances_ind.Indexer.Event.{RawEvent}
use beefy_envio_balances_ind.Indexer.Store.{Contract, ContractKind}
use beefy_envio_balances_ind.Indexer.Timeline.{HeadPriceSource}
use beefy_envio_balances_ind.Indexer.Balances.{handle_share_transfer}
use beefy_envio_balances_ind.Indexer.Registry.{Effects}
use beefy_envio_balances_ind.Indexer.Registry.Guard.{ensure_contract}
use beefy_envio_balances_ind.Indexer.Handlers.Rows.{Tables}

module _ (is_blacklisted : ℕ → Text → Bool) where
  -- `ensureContract`, then the rest of the handler with the row, if there is one
  unfoldable pub guarded :
      Effects → RawEvent → ContractKind → (Contract → Tables → Tables) → Tables → Tables
  guarded fx event kind rest t =
      let (contract, registry) = ensure_contract is_blacklisted fx event kind t.registry in
      let t' = record t { registry = registry } in elim contract [ none ↦ t' | some c ↦ rest c t' ]

  abbrev pub on_initialized : Effects → RawEvent → ContractKind → Tables → Tables
  on_initialized fx event kind t = guarded fx event kind (λ _ t'. t') t

  -- `Transfer` of a share token
  abbrev pub on_transfer :
      HeadPriceSource → Effects → RawEvent → ContractKind → Text → Text → ℕ → Tables → Tables
  on_transfer head_price_at fx event kind from to value t =
      guarded fx event kind
        (λ c t'. record t' {
          store = handle_share_transfer head_price_at event from to value c t'.store;
        })
        t
