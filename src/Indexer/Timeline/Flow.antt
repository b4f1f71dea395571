-- ===== src/Indexer/Timeline/Flow.antt =====
-- The flow of a transaction that `writeTransferTimeline` stores, and the zap attribution that reads it.
use mathlib.Core.List.{map, append-nil, append_assoc}
use mathlib.Core.Path.{subst}
use beefy_envio_balances_ind.Common.{
  ℕ, ◌≡◌, ◌≢◌, refl, sym, ap, ◌∙◌, false, Option, none, some, List, [], ◌∷◌, ◌++◌, if◌then◌else◌,
  some_of, All, Text, same_text-cases, Bool-cases, inl, inr,
}
use beefy_envio_balances_ind.Common.Dict.{lookup, set, lookup-set_self}
use beefy_envio_balances_ind.Indexer.Event.{
  RawEvent, as_hex, is_zero_address, ContractKey, ContractKey-discrete,
}
use beefy_envio_balances_ind.Indexer.Store.{Contract, ShareFlow, Store}
use beefy_envio_balances_ind.Indexer.Timeline.{
  HeadPriceSource, Leg, legs_of, legs, flow_of, minted_to, with_leg, set_row, burn_rows,
  write_transfer_timeline,
}

-- The four arrays of the row are the columns of these legs.
abbrev pub Holds : ShareFlow → List Leg → Type 0
Holds flow ls =
    (flow.from_addresses ≡ map (λ (l : Leg). l.from) ls)
    × (flow.to_addresses ≡ map (λ (l : Leg). l.to) ls)
    × (flow.values ≡ map (λ (l : Leg). l.value) ls)
    × (flow.log_indexes ≡ map (λ (l : Leg). l.log_index) ls)

map-snoc {ℓ κ} :
    {A : Type ℓ}
    → {B : Type κ} → (f : A → B) (xs : List A) (x : A) → map f (xs ++ x ∷ []) ≡ map f xs ++ f x ∷ []
map-snoc f [] x = refl
map-snoc f (y ∷ ys) x = ap (λ r. f y ∷ r) (map-snoc f ys x)

legs_of-map :
    (ls : List Leg)
    → legs_of
        (map (λ (l : Leg). l.from) ls)
        (map (λ (l : Leg). l.to) ls)
        (map (λ (l : Leg). l.value) ls)
        (map (λ (l : Leg). l.log_index) ls)
      ≡ ls
unfolding legs_of
legs_of-map [] = refl
legs_of-map (l ∷ ls) = ap (λ r. l ∷ r) (legs_of-map ls)

pub legs-Holds : (flow : ShareFlow) (ls : List Leg) → Holds flow ls → legs flow ≡ ls
legs-Holds flow ls (f, t, v, g) = rw (f, t, v, g) (legs_of-map ls)

Holds-with_leg :
    (flow : ShareFlow) (ls : List Leg) (leg : Leg)
    → Holds flow ls
    → Holds (with_leg flow leg) (ls ++ leg ∷ [])
Holds-with_leg flow ls leg (f, t, v, g) = (
  rw (f, map-snoc (λ (l : Leg). l.from) ls leg),
  rw (t, map-snoc (λ (l : Leg). l.to) ls leg),
  rw (v, map-snoc (λ (l : Leg). l.value) ls leg),
  rw (g, map-snoc (λ (l : Leg). l.log_index) ls leg),
)

-- one `Transfer` of a share token
pub record Transfer : Type 0 where
  pub event : RawEvent
  pub from : Text
  pub to : Text
  pub value : ℕ

abbrev pub leg_of : Transfer → Leg
leg_of t = record {
  from = as_hex t.from;
  to = as_hex t.to;
  value = t.value;
  log_index = t.event.log_index;
}

-- the legs that these transfers leave, in their order: all but the burns
abbrev pub recorded : List Transfer → List Leg
recorded [] = []
recorded (t ∷ ts) = if is_zero_address t.to then recorded ts else leg_of t ∷ recorded ts

-- The stored flow is of another transaction, or there is none.
abbrev pub IsStart : Text → Option ShareFlow → Type 0
IsStart hash none = Unit
IsStart hash (some flow) = flow.trx_hash ≢ hash

abbrev pub Within : ℕ → Text → Transfer → Type 0
Within chain hash t = (t.event.chain_id ≡ chain) × (as_hex t.event.trx_hash ≡ hash)

flow_of-trx_hash : (hash : Text) (stored : Option ShareFlow) → (flow_of hash stored).trx_hash ≡ hash
unfolding flow_of
flow_of-trx_hash hash none = refl
flow_of-trx_hash hash (some flow) = elim (same_text-cases flow.trx_hash hash) [
  | inl (same, e) ↦ rw same e
  | inr (other, _) ↦ rw other
]

flow_of-start :
    (hash : Text) (stored : Option ShareFlow) → IsStart hash stored → Holds (flow_of hash stored) []
unfolding flow_of
flow_of-start hash none h = (refl, refl, refl, refl)
flow_of-start hash (some flow) h = elim (same_text-cases flow.trx_hash hash) [
  | inl (same, e) ↦ elim (h e) [ ]
  | inr (other, _) ↦ rw other (refl, refl, refl, refl)
]

flow_of-same :
    (hash : Text) (flow : ShareFlow) → flow.trx_hash ≡ hash → flow_of hash (some flow) ≡ flow
unfolding flow_of
flow_of-same hash flow e = elim (same_text-cases flow.trx_hash hash) [
  | inl (same, _) ↦ rw same
  | inr (_, n) ↦ elim (n e) [ ]
]

module _ (head_price_at : HeadPriceSource) (token : Contract) where
  abbrev pub replay : List Transfer → Store → Store
  replay [] store = store
  replay (t ∷ ts) store =
      replay ts (write_transfer_timeline head_price_at t.event token t.from t.to t.value store)

  abbrev pub flow_in : ℕ → Text → Store → ShareFlow
  flow_in chain hash store =
      flow_of hash (lookup ContractKey-discrete (chain, as_hex token.address) store.flows)

  burn_rows-flows :
      (event : RawEvent) (ls : List Leg) (store : Store)
      → (burn_rows head_price_at event token ls store).flows ≡ store.flows
  unfolding burn_rows set_row
  burn_rows-flows event [] store = refl
  burn_rows-flows event (l ∷ ls) store = burn_rows-flows event ls _

  -- Only a burn leaves the flow as it was.
  write_transfer_timeline-flows :
      (t : Transfer) (store : Store)
      → (write_transfer_timeline head_price_at t.event token t.from t.to t.value store).flows ≡ (
          if is_zero_address t.to
          then store.flows
          else set ContractKey-discrete
              (t.event.chain_id, as_hex token.address)
              (with_leg (flow_in t.event.chain_id (as_hex t.event.trx_hash) store) (leg_of t))
              store.flows)
  unfolding write_transfer_timeline set_row
  write_transfer_timeline-flows t store =
      let routed =
        some_of (minted_to t.from t.value)
          (legs (flow_in t.event.chain_id (as_hex t.event.trx_hash) store)) in
      elim (Bool-cases (is_zero_address t.from)) [
        | inl m ↦ elim (Bool-cases (is_zero_address t.to)) [ inl b ↦ rw (m, b) | inr b ↦ rw (m, b) ]
        | inr m ↦ elim (Bool-cases (is_zero_address t.to)) [
          | inl b ↦ rw (m, b) (burn_rows-flows t.event _ _)
          | inr b ↦ elim (Bool-cases routed) [ inl r ↦ rw (m, b, r) | inr r ↦ rw (m, b, r) ]
        ]
      ]

  transfer-Holds :
      (t : Transfer) (ls : List Leg) (store : Store)
      → is_zero_address t.to ≡ false
      → Holds (flow_in t.event.chain_id (as_hex t.event.trx_hash) store) ls
      → Holds
          (flow_in t.event.chain_id
            (as_hex t.event.trx_hash)
            (write_transfer_timeline head_price_at t.event token t.from t.to t.value store))
          (ls ++ leg_of t ∷ [])
  transfer-Holds t ls store plain h =
      let hash = as_hex t.event.trx_hash in
      let id : ContractKey = (t.event.chain_id, as_hex token.address) in
      let before = flow_in t.event.chain_id hash store in
      let after = with_leg before (leg_of t) in
      let stored = write_transfer_timeline-flows t store in
      let known : flow_in t.event.chain_id hash
            (write_transfer_timeline head_price_at t.event token t.from t.to t.value store)
          ≡ after =
        rw (stored, plain, lookup-set_self ContractKey-discrete id after store.flows)
          (flow_of-same hash after
            (flow_of-trx_hash hash (lookup ContractKey-discrete id store.flows))) in
      subst (λ f. Holds f (ls ++ leg_of t ∷ [])) (sym known) (Holds-with_leg before ls (leg_of t) h)

  replay-Holds :
      (chain : ℕ) (hash : Text) (ts : List Transfer) (ls : List Leg) (store : Store)
      → All (Within chain hash) ts
      → Holds (flow_in chain hash store) ls
      → Holds (flow_in chain hash (replay ts store)) (ls ++ recorded ts)
  replay-Holds chain hash [] ls store w h =
      subst (λ l. Holds (flow_in chain hash store) l) (sym (append-nil ls)) h
  replay-Holds chain hash (t ∷ ts) ls store ((c, x), ws) h =
      let next = write_transfer_timeline head_price_at t.event token t.from t.to t.value store in
      let stored = write_transfer_timeline-flows t store in
      elim (Bool-cases (is_zero_address t.to)) [
        | inl burnt ↦
            let kept : next.flows ≡ store.flows = stored ∙ rw burnt in
            let h' : Holds (flow_in chain hash next) ls =
              subst
                (λ m.
                  Holds (flow_of hash (lookup ContractKey-discrete (chain, as_hex token.address) m))
                    ls)
                (sym kept) h in
            subst
              (λ b.
                Holds (flow_in chain hash (replay ts next))
                  (ls ++ (if b then recorded ts else leg_of t ∷ recorded ts)))
              (sym burnt) (replay-Holds chain hash ts ls next ws h')
        | inr plain ↦
            let h' : Holds (flow_in chain hash next) (ls ++ leg_of t ∷ []) =
              subst (λ k. Holds (flow_in k hash next) (ls ++ leg_of t ∷ [])) c
                (subst (λ k. Holds (flow_in t.event.chain_id k next) (ls ++ leg_of t ∷ [])) x
                  (transfer-Holds t ls store plain (
                    subst (λ k. Holds (flow_in t.event.chain_id k store) ls) (sym x)
                      (subst (λ k. Holds (flow_in k hash store) ls) (sym c) h)))) in
            subst
              (λ b.
                Holds (flow_in chain hash (replay ts next))
                  (ls ++ (if b then recorded ts else leg_of t ∷ recorded ts)))
              (sym plain)
              (subst (λ l. Holds (flow_in chain hash (replay ts next)) l)
                (append_assoc ls (leg_of t ∷ []) (recorded ts))
                (replay-Holds chain hash ts (ls ++ leg_of t ∷ []) next ws h'))
      ]

  -- At the end of transfers of one transaction and token, the first of which meets no flow of that
  -- transaction, the flow's legs are those transfers but the burns, in their order.
  pub replay-legs :
      (chain : ℕ) (hash : Text) (ts : List Transfer) (store : Store)
      → IsStart hash (lookup ContractKey-discrete (chain, as_hex token.address) store.flows)
      → All (Within chain hash) ts
      → legs (flow_in chain hash (replay ts store)) ≡ recorded ts
  replay-legs chain hash ts store h w =
      legs-Holds (flow_in chain hash (replay ts store)) (recorded ts)
        (replay-Holds chain hash ts [] store w (flow_of-start hash _ h))
