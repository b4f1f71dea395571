-- ===== src/Indexer/Timeline/Zap.antt =====
-- The rows that `writeTransferTimeline` attributes to the users of a router.
use mathlib.Core.Path.{subst}
use beefy_envio_balances_ind.Common.{
  ℕ, ◌≡◌, sym, ap, ◌∙◌, true, false, some, List, [], ◌∷◌, if◌then◌else◌, some_of, filter_by, All,
  Text, Bool-cases, inl, inr,
}
use beefy_envio_balances_ind.Common.Dict.{lookup, set, lookup-set_self, lookup-set_ne}
use beefy_envio_balances_ind.Indexer.Event.{RawEvent, as_hex, is_zero_address, ContractKey-discrete}
use beefy_envio_balances_ind.Indexer.Store.{
  Contract, TimelineKey, TimelineKey-discrete, mint, burn, Store,
}
use beefy_envio_balances_ind.Indexer.Timeline.{
  HeadPriceSource, no_fields, Leg, legs, minted_to, sent_to, timeline_id, timeline_row, set_row,
  burn_rows, write_transfer_timeline,
}
use beefy_envio_balances_ind.Indexer.Timeline.Flow.{
  Transfer, recorded, IsStart, Within, replay, flow_in, replay-legs,
}

module _ (head_price_at : HeadPriceSource) (token : Contract) where
  -- the legs that `t` meets
  legs_met :
      (chain : ℕ) (hash : Text) (ts : List Transfer) (t : Transfer) (store : Store)
      → IsStart hash (lookup ContractKey-discrete (chain, as_hex token.address) store.flows)
      → All (Within chain hash) ts
      → t.event.chain_id ≡ chain
      → as_hex t.event.trx_hash ≡ hash
      → legs (
          flow_in head_price_at token t.event.chain_id
            (as_hex t.event.trx_hash)
            (replay head_price_at token ts store))
        ≡ recorded ts
  legs_met chain hash ts t store h ws c x =
      rw (c, x) (replay-legs head_price_at token chain hash ts store h ws)

  -- A transfer between two accounts, neither of them 0x0, of any value, 0 too, and to the sender
  -- itself too, after the transfers `ts` of its
  -- transaction, marks its receiver MINT at its own log when one of `ts` mints that value to the
  -- sender, and changes no timeline row otherwise.
  pub write_transfer_timeline-mint :
      (chain : ℕ) (hash : Text) (ts : List Transfer) (t : Transfer) (store : Store)
      → IsStart hash (lookup ContractKey-discrete (chain, as_hex token.address) store.flows)
      → All (Within chain hash) ts
      → Within chain hash t
      → is_zero_address t.from ≡ false
      → is_zero_address t.to ≡ false
      → (let before = replay head_price_at token ts store in
          (write_transfer_timeline head_price_at t.event token t.from t.to t.value before).timeline
          ≡ (if some_of (minted_to t.from t.value) (recorded ts)
              then set TimelineKey-discrete
                  (timeline_id t.event t.to mint t.event.log_index)
                  (timeline_row head_price_at t.event token t.to mint no_fields t.event.log_index)
                  before.timeline
              else before.timeline))
  unfolding write_transfer_timeline set_row
  write_transfer_timeline-mint chain hash ts t store h ws (c, x) from_zero to_zero =
      let before = replay head_price_at token ts store in
      let known = legs_met chain hash ts t store h ws c x in
      elim (Bool-cases (some_of (minted_to t.from t.value) (recorded ts))) [
        | inl r ↦ rw (from_zero, to_zero, known, r)
        | inr r ↦ rw (from_zero, to_zero, known, r)
      ]

  -- A BURN row of the burn's transaction at this log and account
  abbrev pub Marked : RawEvent → Store → Leg → Type 0
  Marked event store leg =
      lookup TimelineKey-discrete (timeline_id event leg.from burn leg.log_index) store.timeline
      ≡ some (timeline_row head_price_at event token leg.from burn no_fields leg.log_index)

  set_row-Marked :
      (event : RawEvent) (leg new : Leg) (store : Store)
      → Marked event store leg
      → Marked event
          (set_row head_price_at event token new.from burn no_fields new.log_index store)
          leg
  unfolding set_row timeline_row
  set_row-Marked event leg new store h =
      let k = timeline_id event leg.from burn leg.log_index in
      let j = timeline_id event new.from burn new.log_index in
      elim (TimelineKey-discrete j k) [
        | yes e ↦
            let row =
              timeline_row head_price_at event token new.from burn no_fields new.log_index in
            subst
              (λ (i : TimelineKey).
                lookup TimelineKey-discrete i (set TimelineKey-discrete j row store.timeline)
                ≡ some (record row { account = i.0.1; log_index = i.0.0.1 }))
              e (lookup-set_self TimelineKey-discrete j row store.timeline)
        | no n ↦ lookup-set_ne TimelineKey-discrete j k _ store.timeline n ∙ h
      ]

  set_row_marks :
      (event : RawEvent) (leg : Leg) (store : Store)
      → Marked event
          (set_row head_price_at event token leg.from burn no_fields leg.log_index store)
          leg
  unfolding set_row
  set_row_marks event leg store =
      lookup-set_self TimelineKey-discrete (timeline_id event leg.from burn leg.log_index) _
        store.timeline

  burn_rows-Marked :
      (event : RawEvent) (ls : List Leg) (leg : Leg) (store : Store)
      → Marked event store leg
      → Marked event (burn_rows head_price_at event token ls store) leg
  unfolding burn_rows
  burn_rows-Marked event [] leg store h = h
  burn_rows-Marked event (l ∷ ls) leg store h =
      burn_rows-Marked event ls leg _ (set_row-Marked event leg l store h)

  burn_rows-All :
      (event : RawEvent) (ls : List Leg) (store : Store)
      → All (Marked event (burn_rows head_price_at event token ls store)) ls
  unfolding burn_rows
  burn_rows-All event [] store = tt
  burn_rows-All event (l ∷ ls) store =
      (burn_rows-Marked event ls l _ (set_row_marks event l store), burn_rows-All event ls _)

  burn_rows_after :
      (t : Transfer) (before : Store)
      → is_zero_address t.from ≡ false
      → is_zero_address t.to ≡ true
      → write_transfer_timeline head_price_at t.event token t.from t.to t.value before
        ≡ burn_rows head_price_at t.event token
            (filter_by (sent_to t.from t.value) (
              legs (flow_in head_price_at token t.event.chain_id (as_hex t.event.trx_hash) before)))
            (set_row head_price_at t.event token t.from burn no_fields t.event.log_index before)
  unfolding write_transfer_timeline
  burn_rows_after t before from_zero to_zero = rw (from_zero, to_zero)

  -- A burn by an account other than 0x0, of any value, 0 too, after the transfers `ts` of its transaction, marks each
  -- sender of the same value to that account, at the log of its transfer, and the account itself.
  pub write_transfer_timeline-burn :
      (chain : ℕ) (hash : Text) (ts : List Transfer) (t : Transfer) (store : Store)
      → IsStart hash (lookup ContractKey-discrete (chain, as_hex token.address) store.flows)
      → All (Within chain hash) ts
      → Within chain hash t
      → is_zero_address t.from ≡ false
      → is_zero_address t.to ≡ true
      → (let after =
            write_transfer_timeline head_price_at t.event token t.from t.to t.value
              (replay head_price_at token ts store) in
          All (Marked t.event after) (filter_by (sent_to t.from t.value) (recorded ts))
          × (lookup TimelineKey-discrete
                (timeline_id t.event t.from burn t.event.log_index)
                after.timeline
              ≡ some (
                  timeline_row head_price_at t.event token t.from burn no_fields
                    t.event.log_index)))
  write_transfer_timeline-burn chain hash ts t store h ws (c, x) from_zero to_zero =
      let before = replay head_price_at token ts store in
      let marked =
        set_row head_price_at t.event token t.from burn no_fields t.event.log_index before in
      let senders = filter_by (sent_to t.from t.value) (recorded ts) in
      let own : Leg = record {
        from = t.from;
        to = t.to;
        value = t.value;
        log_index = t.event.log_index;
      } in
      let after : write_transfer_timeline head_price_at t.event token t.from t.to t.value before
          ≡ burn_rows head_price_at t.event token senders marked =
        burn_rows_after t before from_zero to_zero
        ∙ ap
            (λ ls.
              burn_rows head_price_at t.event token (filter_by (sent_to t.from t.value) ls) marked)
            (legs_met chain hash ts t store h ws c x) in
      subst (λ s. All (Marked t.event s) senders × Marked t.event s own) (sym after)
        (
          burn_rows-All t.event senders marked,
          burn_rows-Marked t.event senders own marked (set_row_marks t.event own before),
        )
