-- ===== src/Indexer/Timeline/Tests.antt =====
-- A zap deposit and a zap withdrawal, through one router.
use mathlib.Core.Bool.{decide}
use beefy_envio_balances_ind.Common.{
  ℕ, ◌≡◌, refl, none, some, List, [], ◌∷◌, true, false, if◌then◌else◌, some_of, filter_by, All,
  Text, Text-discrete, to_lower, map,
}
use beefy_envio_balances_ind.Common.Dict.{lookup, set}
use beefy_envio_balances_ind.Indexer.Event.{
  RawEvent, as_hex, zero_address, is_zero_address, ContractKey-discrete,
}
use beefy_envio_balances_ind.Indexer.Store.{
  Contract, vault, TimelineKey-discrete, mint, burn, empty,
}
use beefy_envio_balances_ind.Indexer.Timeline.{
  HeadPriceSource, no_fields, legs, legs_of, flow_of, head_columns, set_row, burn_rows, minted_to,
  sent_to, timeline_id, timeline_row, write_transfer_timeline,
}
use beefy_envio_balances_ind.Indexer.Timeline.Flow.{
  Transfer, recorded, IsStart, Within, replay, flow_in, replay-legs,
}
use beefy_envio_balances_ind.Indexer.Timeline.Zap.{
  Marked, write_transfer_timeline-mint, write_transfer_timeline-burn,
}

abbrev no_price : HeadPriceSource
no_price chain contract timestamp = none

abbrev hash : Text
hash = 48 ∷ 120 ∷ 1 ∷ []

abbrev at_log : ℕ → RawEvent
at_log n = record {
  chain_id = 10;
  src_address = 7 ∷ [];
  log_index = n;
  block_number = 100;
  block_timestamp = 5000;
  trx_hash = hash;
  trx_from = none;
}

abbrev token : Contract
token = record {
  id = (10, 7 ∷ []);
  address = 7 ∷ [];
  kind = vault;
  factory = none;
  created_block = none;
  created_timestamp = none;
  created_trx_hash = none;
  deploy_name = none;
  facts_block = none;
  facts_status = none;
  product_address = none;
  price_decimals = none;
  product_kind = none;
}

abbrev router : Text
router = 2 ∷ []

abbrev user : Text
user = 3 ∷ []

-- the router receives new shares
abbrev minted : List Transfer
minted = record { event = at_log 1; from = zero_address; to = router; value = 50 } ∷ []

-- and forwards them
abbrev forwarded : Transfer
forwarded = record { event = at_log 2; from = router; to = user; value = 50 }

-- the user sends its shares to the router
abbrev returned : List Transfer
returned = record { event = at_log 1; from = user; to = router; value = 50 } ∷ []

-- which burns them
abbrev burnt : Transfer
burnt = record { event = at_log 2; from = router; to = zero_address; value = 50 }

program : Unit {0}
unfolding decide to_lower Text-discrete is_zero_address zero_address lookup set ContractKey-discrete
    TimelineKey-discrete legs_of flow_of head_columns timeline_row set_row burn_rows
    write_transfer_timeline
program = tt

-- the deposit leaves the router's row and the user's
zap_in :
    map
      (λ e. e.0)
      (write_transfer_timeline no_price forwarded.event token forwarded.from forwarded.to 50
        (replay no_price token minted empty)).timeline
    ≡ timeline_id (at_log 1) router mint 1 ∷ timeline_id (at_log 2) user mint 2 ∷ []
unfolding program
zap_in = refl

-- the withdrawal too, the user's at the log of its transfer
zap_out :
    map
      (λ e. e.0)
      (write_transfer_timeline no_price burnt.event token burnt.from burnt.to 50
        (replay no_price token returned empty)).timeline
    ≡ timeline_id (at_log 2) router burn 2 ∷ timeline_id (at_log 1) user burn 1 ∷ []
unfolding program
zap_out = refl

started : IsStart hash (lookup ContractKey-discrete (10, as_hex token.address) empty.flows)
unfolding program
started = tt

Within-minted : All (Within 10 hash) minted
unfolding program
Within-minted = ((refl, refl), tt)

Within-returned : All (Within 10 hash) returned
unfolding program
Within-returned = ((refl, refl), tt)

Within-forwarded : Within 10 hash forwarded
unfolding program
Within-forwarded = (refl, refl)

Within-burnt : Within 10 hash burnt
unfolding program
Within-burnt = (refl, refl)

router_not_zero : is_zero_address router ≡ false
unfolding program
router_not_zero = refl

user_not_zero : is_zero_address user ≡ false
unfolding program
user_not_zero = refl

burns : is_zero_address zero_address ≡ true
unfolding program
burns = refl

replay-legs_example :
    legs (flow_in no_price token 10 hash (replay no_price token minted empty)) ≡ recorded minted
replay-legs_example = replay-legs no_price token 10 hash minted empty started Within-minted

write_transfer_timeline-mint_example :
    (let before = replay no_price token minted empty in
      (write_transfer_timeline no_price (at_log 2) token router user 50 before).timeline ≡ (
        if some_of (minted_to router 50) (recorded minted)
        then set TimelineKey-discrete
            (timeline_id (at_log 2) user mint 2)
            (timeline_row no_price (at_log 2) token user mint no_fields 2)
            before.timeline
        else before.timeline))
write_transfer_timeline-mint_example =
    write_transfer_timeline-mint no_price token 10 hash minted forwarded empty started Within-minted
      Within-forwarded router_not_zero user_not_zero

write_transfer_timeline-burn_example :
    (let after =
        write_transfer_timeline no_price
          (at_log 2)
          token
          router
          zero_address
          50
          (replay no_price token returned empty) in
      All
        (Marked no_price token (at_log 2) after)
        (filter_by (sent_to router 50) (recorded returned))
      × (lookup TimelineKey-discrete (timeline_id (at_log 2) router burn 2) after.timeline
          ≡ some (timeline_row no_price (at_log 2) token router burn no_fields 2)))
write_transfer_timeline-burn_example =
    write_transfer_timeline-burn no_price token 10 hash returned burnt empty started Within-returned
      Within-burnt router_not_zero burns
