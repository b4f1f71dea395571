-- ===== src/Indexer/Balances/Conservation.antt =====
-- The balances of a token add up to its supply, after every event.
use mathlib.Core.Path.{subst}
use beefy_envio_balances_ind.Common.{
  ℕ, ◌≡◌, ◌≢◌, refl, sym, ap, ◌∙◌, false, List, [], ◌∷◌, Text, same_text-cases, filter_by, some_of,
  Bool-cases, inl, inr, to_lower_idempotent,
}
use beefy_envio_balances_ind.Common.Int.{pos, neg, ◌+ℤ◌, +ℤ_zero, zero_+ℤ}
use beefy_envio_balances_ind.Common.Dict.{lookup}
use beefy_envio_balances_ind.Indexer.Event.{RawEvent, as_hex, is_zero_address, ContractKey-discrete}
use beefy_envio_balances_ind.Indexer.Store.{
  Contract, BalanceKey, Balance, Source, transfer, boost_stake, Direction, Store, empty,
}
use beefy_envio_balances_ind.Indexer.Timeline.{
  HeadPriceSource, minted_to, legs, flow_of, Leg, burn_rows, set_row, write_transfer_timeline,
}
use beefy_envio_balances_ind.Indexer.Balances.{
  Delta, supply_id, is_tracked, write_deltas, apply_balance_deltas, apply_supply_delta, staked,
  transfer_supply, transfer_balances, handle_share_transfer, handle_boost_stake,
}
use beefy_envio_balances_ind.Indexer.Balances.Totals.{total}
use beefy_envio_balances_ind.Indexer.Balances.Moves.{
  IsConserved, Moves, still, Moves-then, Moves-IsConserved, apply_supply_delta-Moves, minted,
  transfer_supply-Moves, self-minted, tracked-minted, tracked-staked, is_zero_address-as_hex,
}
use beefy_envio_balances_ind.Indexer.Balances.Deltas.{
  sum_deltas, IsApart, IsApart-filter_by, balances_after, Agrees-refl, total-balances_after,
  total-balances_after_ne,
}

module _ (head_price_at : HeadPriceSource) where
  pub write_deltas_lem :
      (event : RawEvent) (contract : Contract) (src : Source) (read : List (BalanceKey × Balance))
      (ds : List Delta) (store : Store)
      → (let after = write_deltas head_price_at event contract src read ds store in
          (after.balances
            ≡ balances_after event.chain_id contract.address event.block_number read ds
                store.balances)
          × (after.supplies ≡ store.supplies))
  unfolding write_deltas balances_after set_row
  write_deltas_lem event contract src read [] store = (refl, refl)
  write_deltas_lem event contract src read (d ∷ ds) store =
      write_deltas_lem event contract src read ds _

  apply_balance_deltas-Moves :
      (event : RawEvent) (contract : Contract) (src : Source) (ds : List Delta) (store : Store)
      → IsApart ds
      → Moves
          (supply_id event.chain_id contract.address)
          (sum_deltas (filter_by is_tracked ds))
          (pos 0)
          store
          (apply_balance_deltas head_price_at event contract src ds store)
  unfolding apply_balance_deltas
  apply_balance_deltas-Moves event contract src ds store apart =
      let tracked = filter_by is_tracked ds in
      let (written, kept) = write_deltas_lem event contract src store.balances tracked store in
      let chain = event.chain_id in
      let block = event.block_number in
      record {
        balances = rw written (
            total-balances_after chain contract.address block store.balances tracked store.balances
              (IsApart-filter_by is_tracked ds apart)
              (Agrees-refl chain contract.address block store.balances tracked));
        supply = rw kept (sym (+ℤ_zero _));
        others = λ s h. (
          rw written (
              total-balances_after_ne chain contract.address block store.balances s tracked
                store.balances h),
          rw kept,
        );
      }

  transfer_balances-Moves :
      (event : RawEvent) (contract : Contract) (from to : Text) (value : ℕ) (store : Store)
      → as_hex from ≡ from
      → as_hex to ≡ to
      → Moves
          (supply_id event.chain_id contract.address)
          (minted from to value)
          (pos 0)
          store
          (transfer_balances head_price_at event contract from to value store)
  unfolding transfer_balances
  transfer_balances-Moves event contract from to value store f t = elim (same_text-cases from to) [
    | inl (same, e) ↦ rw same (
        subst (λ b. Moves (supply_id event.chain_id contract.address) b (pos 0) store store)
          (self-minted from to value e) (still _ store store refl refl))
    | inr (other, n) ↦
        let apart : as_hex from ≢ as_hex to = λ h. n (sym f ∙ h ∙ t) in
        rw (other, ← tracked-minted from to value)
          (apply_balance_deltas-Moves event contract transfer
            (record { account = from; delta = neg (pos value) }
              ∷ record { account = to; delta = pos value }
              ∷ [])
            store ((apart, tt), (tt, tt)))
  ]

  burn_rows-keeps :
      (event : RawEvent) (contract : Contract) (ls : List Leg) (store : Store)
      → (let after = burn_rows head_price_at event contract ls store in
          (after.balances ≡ store.balances) × (after.supplies ≡ store.supplies))
  unfolding burn_rows set_row
  burn_rows-keeps event contract [] store = (refl, refl)
  burn_rows-keeps event contract (l ∷ ls) store = burn_rows-keeps event contract ls _

  pub timeline-keeps :
      (event : RawEvent) (contract : Contract) (from to : Text) (value : ℕ) (store : Store)
      → (let after = write_transfer_timeline head_price_at event contract from to value store in
          (after.balances ≡ store.balances) × (after.supplies ≡ store.supplies))
  unfolding write_transfer_timeline set_row
  timeline-keeps event contract from to value store =
      let routed = some_of (minted_to from value) (
        legs (
          flow_of (as_hex event.trx_hash)
            (lookup ContractKey-discrete (event.chain_id, as_hex contract.address) store.flows))) in
      elim (Bool-cases (is_zero_address from)) [
        | inl m ↦ elim (Bool-cases (is_zero_address to)) [
          | inl b ↦ rw (m, b) (refl, refl)
          | inr b ↦ rw (m, b) (refl, refl)
        ]
        | inr m ↦ elim (Bool-cases (is_zero_address to)) [
          | inl b ↦ elim (Bool-cases routed) [
            | inl r ↦ rw (m, b) (burn_rows-keeps event contract _ _)
            | inr r ↦ rw (m, b) (burn_rows-keeps event contract _ _)
          ]
          | inr b ↦ elim (Bool-cases routed) [
            | inl r ↦ rw (m, b, r) (refl, refl)
            | inr r ↦ rw (m, b, r) (refl, refl)
          ]
        ]
      ]

  -- Every share transfer keeps the balances of every token equal to its supply.
  pub handle_share_transfer-IsConserved :
      (event : RawEvent) (from to : Text) (value : ℕ) (contract : Contract) (store : Store)
      → IsConserved store
      → IsConserved (handle_share_transfer head_price_at event from to value contract store)
  unfolding handle_share_transfer
  handle_share_transfer-IsConserved event from to value contract store h =
      let f = as_hex from in
      let t = as_hex to in
      let k = supply_id event.chain_id contract.address in
      let supplied = (transfer_supply event contract.address f t value store).1 in
      let moved = transfer_balances head_price_at event contract f t value supplied in
      let n = minted f t value in
      let moves =
        Moves-then k (pos 0) n n (pos 0) store supplied moved
          (transfer_supply-Moves event contract.address f t value store)
          (transfer_balances-Moves event contract f t value supplied (to_lower_idempotent from)
            (to_lower_idempotent to)) in
      let both : Moves k n n store moved =
        subst (λ b. Moves k b n store moved) (zero_+ℤ n)
          (subst (λ c. Moves k (pos 0 +ℤ n) c store moved) (+ℤ_zero n) moves) in
      let (kept, supplies) = timeline-keeps event contract f t value moved in
      λ s. rw (kept, supplies) (Moves-IsConserved k n store moved both h s)

  -- So does every stake and unstake by a user other than 0x0.
  pub handle_boost_stake-IsConserved :
      (event : RawEvent) (user : Text) (amount : ℕ) (contract : Contract) (direction : Direction)
      (store : Store)
      → is_zero_address user ≡ false
      → IsConserved store
      → IsConserved (handle_boost_stake head_price_at event user amount contract direction store)
  unfolding handle_boost_stake
  handle_boost_stake-IsConserved event user amount contract direction store z h =
      let user' = as_hex user in
      let d = staked direction amount in
      let boost = contract.address in
      let k = supply_id event.chain_id boost in
      let ds : List Delta = record { account = user'; delta = d } ∷ [] in
      let supplied = (apply_supply_delta event boost d store).1 in
      let moved = apply_balance_deltas head_price_at event contract boost_stake ds supplied in
      let moves =
        Moves-then k (pos 0) d (sum_deltas (filter_by is_tracked ds)) (pos 0) store supplied moved
          (apply_supply_delta-Moves event boost d store)
          (apply_balance_deltas-Moves event contract boost_stake ds supplied (tt, tt)) in
      let both : Moves k d d store moved =
        subst (λ b. Moves k b d store moved)
          (ap (λ b. pos 0 +ℤ b)
              (tracked-staked user' amount direction (is_zero_address-as_hex user ∙ z))
            ∙ zero_+ℤ d)
          (subst (λ c. Moves k (pos 0 +ℤ sum_deltas (filter_by is_tracked ds)) c store moved)
            (+ℤ_zero d) moves) in
      Moves-IsConserved k d store moved both h

  -- The stores that the handlers reach from empty tables.
  pub data Reached : Store → Type 0 where
    start : Reached empty
    transferred :
        (event : RawEvent) (from to : Text) (value : ℕ) (contract : Contract) (store : Store)
        → Reached store
        → Reached (handle_share_transfer head_price_at event from to value contract store)
    staked_by :
        (event : RawEvent) (user : Text) (amount : ℕ) (contract : Contract) (direction : Direction)
        (store : Store)
        → is_zero_address user ≡ false
        → Reached store
        → Reached (handle_boost_stake head_price_at event user amount contract direction store)

  -- In every store that share transfers, and stakes and unstakes by users other than 0x0, reach from
  -- empty tables, in any order, the balances of each token add up to its supply.
  pub Reached-IsConserved : (store : Store) → Reached store → IsConserved store
  unfolding total lookup
  Reached-IsConserved _ start = λ s. refl
  Reached-IsConserved _ (transferred event from to value contract store r) =
      handle_share_transfer-IsConserved event from to value contract store
        (Reached-IsConserved store r)
  Reached-IsConserved _ (staked_by event user amount contract direction store z r) =
      handle_boost_stake-IsConserved event user amount contract direction store z
        (Reached-IsConserved store r)
