-- ===== src/Indexer/Registry/Kinds.antt =====
-- The kind of a contract, once established, never changes.
use mathlib.Core.Option.{none-ne-some, some-injective}
use mathlib.Core.Bool.{decide_iff}
use beefy_envio_balances_ind.Common.{
  ℕ, ◌≡◌, ◌≢◌, sym, ap, ◌∙◌, Bool, true, false, not, ◌||◌, Option, some, Text, Bool-cases, inl, inr,
  arith, Option-cases,
}
use beefy_envio_balances_ind.Common.Dict.{lookup}
use beefy_envio_balances_ind.Indexer.Event.{
  RawEvent, ContractKey, ContractKey-discrete, contract_id,
}
use beefy_envio_balances_ind.Indexer.Store.{Contract, ContractKind, unknown}
use beefy_envio_balances_ind.Indexer.Registry.{Registry, Effects, is_kind, ContractKind-discrete}
use beefy_envio_balances_ind.Indexer.Registry.Priced.{IsPriced}
use beefy_envio_balances_ind.Indexer.Registry.Keyed.{
  kind_of, kind_at, IsKeyed, HasKind, OfKind, OfKind-IsStable, IsStable, HoldsRow,
  with_current_facts-Holds, create-Holds, not_absent, row_here,
}
use beefy_envio_balances_ind.Indexer.Registry.Guard.{
  created_row, listed_row, first_of, register_created_contract, ensure_contract,
}

was_unknown : (a b : Bool) → (not a || b) ≡ false → a ≡ true
was_unknown a b h = ground arith

pub ensure_contract-Holds :
    (k : ContractKey) (P : Contract → Type 0) (is_blacklisted : ℕ → Text → Bool) (fx : Effects)
    (event : RawEvent) (asked : ContractKind) (reg : Registry)
    → IsStable P
    → HoldsRow k P reg.contracts
    → HoldsRow k P (ensure_contract is_blacklisted fx event asked reg).1.contracts
unfolding ensure_contract
ensure_contract-Holds k P is_blacklisted fx event asked reg stable (keyed, has) =
    let id = contract_id event.chain_id event.src_address in
    elim (Bool-cases (is_blacklisted event.chain_id event.src_address)) [
      | inl b ↦ rw b (keyed, has)
      | inr b ↦ elim (Option-cases (lookup ContractKey-discrete id reg.contracts)) [
        | inl n ↦
            rw (b, n)
              (with_current_facts-Holds k P fx event (listed_row event asked) reg stable
                (λ e. elim (not_absent k id P reg.contracts has n e) [ ]) (keyed, has))
        | inr (c, e) ↦ elim (Bool-cases (is_kind c.kind asked)) [
          | inl s ↦
              rw (b, e, s)
                (with_current_facts-Holds k P fx event c reg stable
                  (λ i. row_here k id P reg.contracts c has e (sym (keyed id c e) ∙ i))
                  (keyed, has))
          | inr s ↦ rw (b, e, s) (keyed, has)
        ]
      ]
    ]

pub register_created_contract-Holds :
    (k : ContractKey) (P : Contract → Type 0) (fx : Effects) (event : RawEvent) (address : Text)
    (asked : ContractKind) (name : Option Text) (reg : Registry)
    → IsStable P
    → ((c : Contract) → P c → c.kind ≢ unknown)
    → HoldsRow k P reg.contracts
    → HoldsRow k P (register_created_contract fx event address asked name reg).1.contracts
unfolding register_created_contract
register_created_contract-Holds k P fx event address asked name reg stable known (keyed, has) =
    let id = contract_id event.chain_id address in
    elim (Option-cases (lookup ContractKey-discrete id reg.contracts)) [
      | inl n ↦
          rw (n, register_created_contract)
            (create-Holds k P fx event (created_row event address asked name) reg stable
              (λ p. elim (not_absent k id P reg.contracts has n p) [ ]) (keyed, has))
      | inr (c, e) ↦ elim (Bool-cases (not (is_kind c.kind unknown) || is_kind asked unknown)) [
        | inl t ↦ rw (e, t, register_created_contract) (keyed, has)
        | inr t ↦
            let was : c.kind ≡ unknown =
              (decide_iff (ContractKind-discrete c.kind unknown)).0
                (was_unknown (is_kind c.kind unknown) (is_kind asked unknown) t) in
            rw (e, t, register_created_contract)
              (create-Holds k P fx event
                (created_row event address asked (first_of name c.deploy_name)) reg stable
                (λ p. elim (known c (row_here k id P reg.contracts c has e p) was) [ ])
                (keyed, has))
      ]
    ]

-- What the handlers do to the registry, with any answers of the effects, from `reg` on.
pub data Later (is_blacklisted : ℕ → Text → Bool) (reg : Registry) : Registry → Type 0 where
  here : Later is_blacklisted reg reg
  registered :
      (fx : Effects) (event : RawEvent) (address : Text) (kind : ContractKind) (name : Option Text)
      (r : Registry)
      → Later is_blacklisted reg r
      → Later is_blacklisted reg (register_created_contract fx event address kind name r).1
  ensured :
      (fx : Effects) (event : RawEvent) (kind : ContractKind) (r : Registry)
      → Later is_blacklisted reg r
      → Later is_blacklisted reg (ensure_contract is_blacklisted fx event kind r).1

pub Later-Holds :
    (is_blacklisted : ℕ → Text → Bool) (k : ContractKey) (P : Contract → Type 0)
    (reg after : Registry)
    → IsStable P
    → ((c : Contract) → P c → c.kind ≢ unknown)
    → HoldsRow k P reg.contracts
    → Later is_blacklisted reg after
    → HoldsRow k P after.contracts
Later-Holds is_blacklisted k P reg _ stable known h here = h
Later-Holds is_blacklisted k P reg _ stable known h (registered fx event address asked name r l) =
    register_created_contract-Holds k P fx event address asked name r stable known
      (Later-Holds is_blacklisted k P reg r stable known h l)
Later-Holds is_blacklisted k P reg _ stable known h (ensured fx event asked r l) =
    ensure_contract-Holds k P is_blacklisted fx event asked r stable
      (Later-Holds is_blacklisted k P reg r stable known h l)

has_kind :
    (k : ContractKey) (kind : ContractKind) (reg : Registry)
    → kind_at k reg ≡ some kind
    → HasKind k kind reg.contracts
has_kind k kind reg h = elim (Option-cases (lookup ContractKey-discrete k reg.contracts)) [
  | inl n ↦ elim (none-ne-some kind (sym (ap kind_of n) ∙ h)) [ ]
  | inr (c, e) ↦ (c, e, some-injective c.kind kind (sym (ap kind_of e) ∙ h))
]

kind_at_has :
    (k : ContractKey) (kind : ContractKind) (reg : Registry)
    → HasKind k kind reg.contracts
    → kind_at k reg ≡ some kind
kind_at_has k kind reg (c, e, f) = rw e (ap some f)

-- A contract that stands under its id with a kind other than UNKNOWN keeps that kind, whatever
-- creation events and handled events follow, and whatever the chain answers to their reads.
pub Later-kind_at :
    (is_blacklisted : ℕ → Text → Bool) (k : ContractKey) (kind : ContractKind)
    (reg after : Registry)
    → IsKeyed reg.contracts
    → kind_at k reg ≡ some kind
    → kind ≢ unknown
    → Later is_blacklisted reg after
    → kind_at k after ≡ some kind
Later-kind_at is_blacklisted k kind reg after keyed at known l =
    let has : HasKind k kind reg.contracts = has_kind k kind reg at in
    kind_at_has k kind after
      (Later-Holds is_blacklisted k (OfKind kind) reg after (OfKind-IsStable kind)
        (λ c same unknown_kind. known (sym same ∙ unknown_kind)) (keyed, has) l).1

-- A contract that stands under its id with a kind other than UNKNOWN and with its price facts known
-- is stored with its price facts known after whatever creation events and handled events follow, and
-- whatever the chain answers to their reads.
pub Later-IsPriced :
    (is_blacklisted : ℕ → Text → Bool) (k : ContractKey) (c : Contract) (reg after : Registry)
    → IsKeyed reg.contracts
    → lookup ContractKey-discrete k reg.contracts ≡ some c
    → c.kind ≢ unknown
    → IsPriced c
    → Later is_blacklisted reg after
    → (d : Contract) × (lookup ContractKey-discrete k after.contracts ≡ some d) × IsPriced d
Later-IsPriced is_blacklisted k c reg after keyed at known priced l =
    let (d, e, (_, p)) =
      (Later-Holds is_blacklisted k (λ r. (r.kind ≢ unknown) × IsPriced r) reg after
        (λ r u same kept h. ((λ e. h.0 (sym same ∙ e)), kept h.1)) (λ r h. h.0)
        (keyed, (c, at, (known, priced))) l).1 in
    (d, e, p)
