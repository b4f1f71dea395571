-- ===== src/Indexer/Balances/Moves.antt =====
-- How the parts of a handler move the balances of a token and its supply.
use mathlib.Core.Path.{subst}
use beefy_envio_balances_ind.Common.{
  ℕ, ◌≡◌, ◌≢◌, refl, sym, ap, ◌∙◌, false, [], ◌∷◌, arith, Text, if◌then◌else◌, filter_by,
  Bool-cases, inl, inr, to_lower_idempotent,
}
use beefy_envio_balances_ind.Common.Int.{ℤ, pos, neg, ◌+ℤ◌, +ℤ_zero, +ℤ_assoc}
use beefy_envio_balances_ind.Common.Dict.{lookup, lookup-set_self, lookup-set_ne}
use beefy_envio_balances_ind.Indexer.Event.{
  RawEvent, as_hex, is_zero_address, ContractKey, ContractKey-discrete,
}
use beefy_envio_balances_ind.Indexer.Store.{Direction, stake, unstake, Store}
use beefy_envio_balances_ind.Indexer.Balances.{
  supply_id, supply_or_zero, is_tracked, apply_supply_delta, staked, transfer_supply,
}
use beefy_envio_balances_ind.Indexer.Balances.Totals.{total}
use beefy_envio_balances_ind.Indexer.Balances.Deltas.{sum_deltas}

-- For every chain and token, the balances add up to the supply.
abbrev pub IsConserved : Store → Type 0
IsConserved store =
    (s : ContractKey)
    → total s store.balances ≡ supply_or_zero (lookup ContractKey-discrete s store.supplies)

-- One part of a handler moves the balances of a token by `b` and its supply by `c`.
pub record Moves (k : ContractKey) (b c : ℤ) (before after : Store) : Type 0 where
  pub balances : total k after.balances ≡ total k before.balances +ℤ b
  pub supply :
      supply_or_zero (lookup ContractKey-discrete k after.supplies)
      ≡ supply_or_zero (lookup ContractKey-discrete k before.supplies) +ℤ c
  pub others :
      (s : ContractKey)
      → k ≢ s
      → (total s after.balances ≡ total s before.balances)
        × (lookup ContractKey-discrete s after.supplies
            ≡ lookup ContractKey-discrete s before.supplies)

pub still :
    (k : ContractKey) (before after : Store)
    → after.balances ≡ before.balances
    → after.supplies ≡ before.supplies
    → Moves k (pos 0) (pos 0) before after
still k before after p q = record {
  balances = rw p (sym (+ℤ_zero _));
  supply = rw q (sym (+ℤ_zero _));
  others = λ s _. (rw p, rw q);
}

pub Moves-then :
    (k : ContractKey) (b c d e : ℤ) (x y z : Store)
    → Moves k b c x y
    → Moves k d e y z
    → Moves k (b +ℤ d) (c +ℤ e) x z
Moves-then k b c d e x y z m n = record {
  balances = rw (n.balances, m.balances) (+ℤ_assoc _ _ _);
  supply = rw (n.supply, m.supply) (+ℤ_assoc _ _ _);
  others = λ s h. ((n.others s h).0 ∙ (m.others s h).0, (n.others s h).1 ∙ (m.others s h).1);
}

-- What moves balances and supply alike keeps them equal.
pub Moves-IsConserved :
    (k : ContractKey) (b : ℤ) (x y : Store) → Moves k b b x y → IsConserved x → IsConserved y
Moves-IsConserved k b x y m h = λ s. elim (ContractKey-discrete k s) [
  | yes e ↦
      subst (λ t. total t y.balances ≡ supply_or_zero (lookup ContractKey-discrete t y.supplies)) e
        (m.balances ∙ ap (λ n. n +ℤ b) (h k) ∙ sym m.supply)
  | no e ↦ rw ((m.others s e).0, (m.others s e).1) (h s)
]

pub apply_supply_delta-Moves :
    (event : RawEvent) (token : Text) (d : ℤ) (store : Store)
    → Moves
        (supply_id event.chain_id token)
        (pos 0)
        d
        store
        (apply_supply_delta event token d store).1
unfolding apply_supply_delta
apply_supply_delta-Moves event token d store =
    let k = supply_id event.chain_id token in
    record {
      balances = sym (+ℤ_zero _);
      supply = rw (lookup-set_self ContractKey-discrete k _ store.supplies);
      others = λ s h. (refl, lookup-set_ne ContractKey-discrete k s _ store.supplies h);
    }

-- the change of a token's supply by a transfer
abbrev pub minted : Text → Text → ℕ → ℤ
minted from to value =
    if is_zero_address from
    then (if is_zero_address to then pos 0 else pos value)
    else if is_zero_address to
    then neg (pos value)
    else pos 0

pub transfer_supply-Moves :
    (event : RawEvent) (token from to : Text) (value : ℕ) (store : Store)
    → Moves
        (supply_id event.chain_id token)
        (pos 0)
        (minted from to value)
        store
        (transfer_supply event token from to value store).1
unfolding transfer_supply
transfer_supply-Moves event token from to value store = elim (Bool-cases (is_zero_address from)) [
  | inl mint ↦ elim (Bool-cases (is_zero_address to)) [
    | inl both ↦ rw (mint, both) (still _ store store refl refl)
    | inr only ↦ rw (mint, only) (apply_supply_delta-Moves event token (pos value) store)
  ]
  | inr plain ↦ elim (Bool-cases (is_zero_address to)) [
    | inl burnt ↦ rw (plain, burnt) (apply_supply_delta-Moves event token (neg (pos value)) store)
    | inr kept ↦ rw (plain, kept) (still _ store store refl refl)
  ]
]

pub self-minted : (from to : Text) (value : ℕ) → from ≡ to → pos 0 ≡ minted from to value
self-minted from to value e = elim (Bool-cases (is_zero_address to)) [
  | inl z ↦ rw (e, z)
  | inr z ↦ rw (e, z)
]

-- The tracked changes of a transfer between two accounts add up to what is minted or burnt.
pub tracked-minted :
    (from to : Text) (value : ℕ)
    → sum_deltas (
        filter_by is_tracked (
          record { account = from; delta = neg (pos value) }
          ∷ record { account = to; delta = pos value }
          ∷ []))
      ≡ minted from to value
unfolding sum_deltas is_tracked neg ◌+ℤ◌
tracked-minted from to value = ground arith

pub tracked-staked :
    (user : Text) (n : ℕ) (direction : Direction)
    → is_zero_address user ≡ false
    → sum_deltas (filter_by is_tracked (record { account = user; delta = staked direction n } ∷ []))
      ≡ staked direction n
unfolding sum_deltas is_tracked neg ◌+ℤ◌
tracked-staked user n stake z = ground arith
tracked-staked user n unstake z = ground arith

pub is_zero_address-as_hex : (a : Text) → is_zero_address (as_hex a) ≡ is_zero_address a
unfolding is_zero_address
is_zero_address-as_hex a = rw (to_lower_idempotent a)
