-- ===== src/Indexer/Balances/Accounts.antt =====
-- The balance of each account, and the ledger that the share transfers of a token add up to.
use mathlib.Core.Path.{subst}
use beefy_envio_balances_ind.Common.{
  ℕ, ◌≡◌, refl, sym, ap, ◌∙◌, false, List, [], ◌∷◌, arith, Text, same_text, same_text-cases,
  if◌then◌else◌, All, filter_by, Bool-cases, inl, inr, to_lower_idempotent,
}
use beefy_envio_balances_ind.Common.Int.{ℤ, pos, neg, ◌+ℤ◌, int_laws, +ℤ_zero, zero_+ℤ, +ℤ_assoc}
use beefy_envio_balances_ind.Common.Dict.{lookup, set, lookup-set_self, lookup-set_ne}
use beefy_envio_balances_ind.Indexer.Event.{RawEvent, as_hex, is_zero_address}
use beefy_envio_balances_ind.Indexer.Store.{
  Contract, BalanceKey, BalanceKey-discrete, Balance, transfer, Store,
}
use beefy_envio_balances_ind.Indexer.Timeline.{HeadPriceSource}
use beefy_envio_balances_ind.Indexer.Timeline.Flow.{Transfer}
use beefy_envio_balances_ind.Indexer.Balances.{
  Delta, balance_id, balance_or_zero, is_tracked, apply_supply_delta, transfer_supply,
  apply_balance_deltas, transfer_balances, handle_share_transfer,
}
use beefy_envio_balances_ind.Indexer.Balances.Deltas.{
  IsApart, IsApart-filter_by, balances_after, row_after, Agrees, Agrees-refl, Agrees-set,
}
use beefy_envio_balances_ind.Indexer.Balances.Moves.{is_zero_address-as_hex}
use beefy_envio_balances_ind.Indexer.Balances.Conservation.{write_deltas_lem, timeline-keeps}

-- the balance of an account of a token, 0 where it has no row
abbrev pub balance_of : BalanceKey → List (BalanceKey × Balance) → ℤ
balance_of k m = balance_or_zero (lookup BalanceKey-discrete k m)

-- what these deltas add to the balance of the account `a`
unfoldable pub credited : Text → List Delta → ℤ
credited a [] = pos 0
credited a (d ∷ ds) = (if same_text (as_hex d.account) a then d.delta else pos 0) +ℤ credited a ds

-- what a transfer adds to it
abbrev pub credit : Text → Text → ℕ → Text → ℤ
credit from to value a =
    (if same_text from a then neg (pos value) else pos 0)
    +ℤ (if same_text to a then pos value else pos 0)

module _ (chain : ℕ) (token : Text) (block : ℕ) (read : List (BalanceKey × Balance)) where
  balance_of-balances_after :
      (a : Text) (ds : List Delta) (m : List (BalanceKey × Balance))
      → IsApart ds
      → All (Agrees chain token block read m) ds
      → balance_of ((chain, as_hex token), a) (balances_after chain token block read ds m)
        ≡ balance_of ((chain, as_hex token), a) m +ℤ credited a ds
  unfolding balances_after credited
  balance_of-balances_after a [] m h g = sym (+ℤ_zero _)
  balance_of-balances_after a (d ∷ ds) m (p, h) (q, g) =
      let j = balance_id chain token d.account in
      let row = row_after chain token block read d in
      let m' = set BalanceKey-discrete j row m in
      let ih = balance_of-balances_after a ds m' h (Agrees-set chain token block read d ds m p g) in
      elim (same_text-cases (as_hex d.account) a) [
        | inl (same, e) ↦
            let moved : balance_of ((chain, as_hex token), a) m'
                ≡ balance_of ((chain, as_hex token), a) m +ℤ d.delta =
              subst
                (λ b.
                  balance_of ((chain, as_hex token), b) m'
                  ≡ balance_of ((chain, as_hex token), b) m +ℤ d.delta)
                e (rw (lookup-set_self BalanceKey-discrete j row m, q)) in
            rw (same, ih, moved) (+ℤ_assoc _ _ _)
        | inr (other, n) ↦ rw (
          other,
          ih,
          zero_+ℤ,
          lookup-set_ne BalanceKey-discrete j ((chain, as_hex token), a) row m
              (λ e. n (ap (λ k. k.1) e)),
        )
      ]

untracked : (d : Delta) → is_tracked d ≡ false → is_zero_address d.account ≡ false → d.delta ≡ pos 0
unfolding is_tracked
untracked d h z = ground arith

-- The filter drops only what changes no balance of an account other than 0x0.
credited-filter_by :
    (a : Text) (ds : List Delta)
    → is_zero_address a ≡ false
    → credited a (filter_by is_tracked ds) ≡ credited a ds
unfolding credited
credited-filter_by a [] z = refl
credited-filter_by a (d ∷ ds) z =
    let ih = credited-filter_by a ds z in
    elim (Bool-cases (is_tracked d)) [
      | inl kept ↦ rw (kept, ih)
      | inr dropped ↦ elim (same_text-cases (as_hex d.account) a) [
        | inl (same, e) ↦
            let plain : is_zero_address d.account ≡ false =
              sym (is_zero_address-as_hex d.account) ∙ ap is_zero_address e ∙ z in
            rw (dropped, same, untracked d dropped plain, ih) (sym (zero_+ℤ _))
        | inr (other, _) ↦ rw (dropped, other, ih) (sym (zero_+ℤ _))
      ]
    ]

self-credit : (a b : Text) (value : ℕ) → credit b b value a ≡ pos 0
self-credit a b value = elim (Bool-cases (same_text b a)) [
  | inl same ↦ rw same (omega int_laws)
  | inr other ↦ rw other (omega int_laws)
]

transfer_supply-balances :
    (event : RawEvent) (token from to : Text) (value : ℕ) (store : Store)
    → (transfer_supply event token from to value store).1.balances ≡ store.balances
unfolding transfer_supply apply_supply_delta
transfer_supply-balances event token from to value store = ground arith

module _ (head_price_at : HeadPriceSource) where
  transfer_balances-balance_of :
      (event : RawEvent) (contract : Contract) (from to : Text) (value : ℕ) (store : Store)
      (a : Text)
      → as_hex from ≡ from
      → as_hex to ≡ to
      → is_zero_address a ≡ false
      → (let k : BalanceKey = ((event.chain_id, as_hex contract.address), a) in
          balance_of k (transfer_balances head_price_at event contract from to value store).balances
          ≡ balance_of k store.balances +ℤ credit from to value a)
  unfolding transfer_balances apply_balance_deltas credited
  transfer_balances-balance_of event contract from to value store a f t z =
      let chain = event.chain_id in
      let token = contract.address in
      let block = event.block_number in
      let ds : List Delta =
        record { account = from; delta = neg (pos value) }
        ∷ record { account = to; delta = pos value }
        ∷ [] in
      elim (same_text-cases from to) [
        | inl (same, e) ↦ rw (same, ← e, self-credit a from value) (sym (+ℤ_zero _))
        | inr (other, n) ↦
            let apart : IsApart ds = (((λ h. n (sym f ∙ h ∙ t)), tt), (tt, tt)) in
            let tracked = filter_by is_tracked ds in
            let (written, _) =
              write_deltas_lem head_price_at event contract transfer store.balances tracked store in
            let moved =
              balance_of-balances_after chain token block store.balances a tracked store.balances
                (IsApart-filter_by is_tracked ds apart)
                (Agrees-refl chain token block store.balances tracked) in
            let all = credited-filter_by a ds z in
            rw other (
              ap (balance_of ((chain, as_hex token), a)) written
              ∙ moved
              ∙ ap (λ c. balance_of ((chain, as_hex token), a) store.balances +ℤ c)
                  (all ∙ rw (f, t, +ℤ_zero (if same_text to a then pos value else pos 0))))
      ]

  -- `handleShareTransfer` over the transfers of one token, in order
  abbrev pub replay_shares : Contract → List Transfer → Store → Store
  replay_shares contract [] store = store
  replay_shares contract (t ∷ ts) store =
      replay_shares contract ts
        (handle_share_transfer head_price_at t.event t.from t.to t.value contract store)

  -- A share transfer adds its credit to the balance of every account other than 0x0: a mint, a burn,
  -- a transfer of 0 and a transfer to oneself included.
  pub handle_share_transfer-balance_of :
      (event : RawEvent) (from to : Text) (value : ℕ) (contract : Contract) (store : Store)
      (a : Text)
      → is_zero_address a ≡ false
      → (let k : BalanceKey = ((event.chain_id, as_hex contract.address), a) in
          balance_of k
            (handle_share_transfer head_price_at event from to value contract store).balances
          ≡ balance_of k store.balances +ℤ credit (as_hex from) (as_hex to) value a)
  unfolding handle_share_transfer
  handle_share_transfer-balance_of event from to value contract store a z =
      let f = as_hex from in
      let t = as_hex to in
      let supplied = (transfer_supply event contract.address f t value store).1 in
      let moved = transfer_balances head_price_at event contract f t value supplied in
      rw ((timeline-keeps head_price_at event contract f t value moved).0) (
        transfer_balances-balance_of event contract f t value supplied a (to_lower_idempotent from)
          (to_lower_idempotent to) z
        ∙ ap
            (λ m. balance_of ((event.chain_id, as_hex contract.address), a) m +ℤ credit f t value a)
            (transfer_supply-balances event contract.address f t value store))

-- what transfers add to the balance of an account: each one received, less each one sent
abbrev pub ledger : Text → List Transfer → ℤ
ledger a [] = pos 0
ledger a (t ∷ ts) = credit (as_hex t.from) (as_hex t.to) t.value a +ℤ ledger a ts

module _ (head_price_at : HeadPriceSource) where
  -- After any transfers of a token on one chain, the balance of every account other than 0x0 is
  -- its balance before them with what it received, less what it sent.
  pub replay_shares-ledger :
      (chain : ℕ) (contract : Contract) (ts : List Transfer) (store : Store) (a : Text)
      → All (λ (t : Transfer). t.event.chain_id ≡ chain) ts
      → is_zero_address a ≡ false
      → (let k : BalanceKey = ((chain, as_hex contract.address), a) in
          balance_of k (replay_shares head_price_at contract ts store).balances
          ≡ balance_of k store.balances +ℤ ledger a ts)
  replay_shares-ledger chain contract [] store a h z = sym (+ℤ_zero _)
  replay_shares-ledger chain contract (t ∷ ts) store a (c, cs) z =
      let next = handle_share_transfer head_price_at t.event t.from t.to t.value contract store in
      let token = as_hex contract.address in
      replay_shares-ledger chain contract ts next a cs z
      ∙ ap (λ n. n +ℤ ledger a ts)
          (subst
            (λ i.
              balance_of ((i, token), a) next.balances
              ≡ balance_of ((i, token), a) store.balances
                +ℤ credit (as_hex t.from) (as_hex t.to) t.value a)
            c
            (handle_share_transfer-balance_of head_price_at t.event t.from t.to t.value contract
              store a z))
      ∙ +ℤ_assoc _ _ _
