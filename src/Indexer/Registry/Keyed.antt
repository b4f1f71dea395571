-- ===== src/Indexer/Registry/Keyed.antt =====
-- Tables in which each contract stands under its id, and the kind of one key through the registry's steps.
use mathlib.Core.Option.{none-ne-some, some-injective}
use mathlib.Core.Path.{subst}
use beefy_envio_balances_ind.Common.{
  ◌≡◌, ◌≢◌, refl, sym, ap, ◌∙◌, Option, none, some, Bool-cases, inl, inr,
}
use beefy_envio_balances_ind.Common.Dict.{lookup, set, lookup-set_self, lookup-set_ne}
use beefy_envio_balances_ind.Indexer.Event.{RawEvent, ContractKey, ContractKey-discrete}
use beefy_envio_balances_ind.Indexer.Store.{Contract, ContractKind}
use beefy_envio_balances_ind.Indexer.Registry.{Registry, Effects}
use beefy_envio_balances_ind.Indexer.Registry.Facts.{needs_facts, set_contract}
use beefy_envio_balances_ind.Indexer.Registry.Priced.{IsPriced}
use beefy_envio_balances_ind.Indexer.Registry.Stored.{
  Contracts, IsClosed, complete_price_facts-closed, apply_facts-closed,
}
use beefy_envio_balances_ind.Indexer.Registry.Guard.{with_needed_facts, with_current_facts}

abbrev pub kind_of : Option Contract → Option ContractKind
kind_of none = none
kind_of (some c) = some c.kind

-- the kind under which a key is registered
abbrev pub kind_at : ContractKey → Registry → Option ContractKind
kind_at k reg = kind_of (lookup ContractKey-discrete k reg.contracts)

-- Every contract stands under its own id.
abbrev pub IsKeyed : Contracts → Type 0
IsKeyed m = (k : ContractKey) (c : Contract) → lookup ContractKey-discrete k m ≡ some c → c.id ≡ k

-- The key `k` has a contract, of which `P` holds.
abbrev pub HasRow : ContractKey → (Contract → Type 0) → Contracts → Type 0
HasRow k P m = (c : Contract) × (lookup ContractKey-discrete k m ≡ some c) × P c

abbrev pub OfKind : ContractKind → Contract → Type 0
OfKind kind c = c.kind ≡ kind

-- The key `k` has a contract of this kind.
abbrev pub HasKind : ContractKey → ContractKind → Contracts → Type 0
HasKind k kind = HasRow k (OfKind kind)

-- `P` stays true when a row keeps its kind, and its price facts if it has them.
abbrev pub IsStable : (Contract → Type 0) → Type 0
IsStable P = (c u : Contract) → u.kind ≡ c.kind → (IsPriced c → IsPriced u) → P c → P u

pub OfKind-IsStable : (kind : ContractKind) → IsStable (OfKind kind)
OfKind-IsStable kind c u same priced of_kind = same ∙ of_kind

pub IsKeyed-set :
    (u : Contract) (m : Contracts) → IsKeyed m → IsKeyed (set ContractKey-discrete u.id u m)
IsKeyed-set u m h = λ k c e. elim (ContractKey-discrete u.id k) [
  | yes p ↦
      let set_at : lookup ContractKey-discrete k (set ContractKey-discrete u.id u m) ≡ some u =
        ap (λ i. lookup ContractKey-discrete i (set ContractKey-discrete u.id u m)) (sym p)
        ∙ lookup-set_self ContractKey-discrete u.id u m in
      ap (λ (o : Option Contract). elim o [ none ↦ c.id | some x ↦ x.id ]) (sym e ∙ set_at) ∙ p
  | no n ↦ h k c (sym (lookup-set_ne ContractKey-discrete u.id k u m n) ∙ e)
]

HasRow-set :
    (k : ContractKey) (P : Contract → Type 0) (u : Contract) (m : Contracts)
    → (u.id ≡ k → P u)
    → HasRow k P m
    → HasRow k P (set ContractKey-discrete u.id u m)
HasRow-set k P u m h (c, e, f) = elim (ContractKey-discrete u.id k) [
  | yes p ↦ (
    u,
    ap (λ i. lookup ContractKey-discrete i (set ContractKey-discrete u.id u m)) (sym p)
        ∙ lookup-set_self ContractKey-discrete u.id u m,
    h p,
  )
  | no n ↦ (c, lookup-set_ne ContractKey-discrete u.id k u m n ∙ e, f)
]

-- Both facts about the table, for a key and its row
abbrev pub HoldsRow : ContractKey → (Contract → Type 0) → Contracts → Type 0
HoldsRow k P m = IsKeyed m × HasRow k P m

-- of this kind
abbrev pub Holds : ContractKey → ContractKind → Contracts → Type 0
Holds k kind = HoldsRow k (OfKind kind)

Holds-closed :
    (k : ContractKey) (P : Contract → Type 0) (c : Contract)
    → IsStable P
    → (c.id ≡ k → P c)
    → IsClosed c (HoldsRow k P)
Holds-closed k P c stable h = λ u m i j p q.
    (IsKeyed-set u m q.0, HasRow-set k P u m (λ e. stable c u j p (h (sym i ∙ e))) q.1)

pub with_current_facts-Holds :
    (k : ContractKey) (P : Contract → Type 0) (fx : Effects) (event : RawEvent) (c : Contract)
    (reg : Registry)
    → IsStable P
    → (c.id ≡ k → P c)
    → HoldsRow k P reg.contracts
    → HoldsRow k P (with_current_facts fx event c reg).1.contracts
with_current_facts-Holds k P fx event c reg stable h q =
    elim (Bool-cases (needs_facts c event.block_number)) [
      | inl n ↦
          rw n (apply_facts-closed (HoldsRow k P) fx event c reg (Holds-closed k P c stable h) q)
      | inr n ↦ rw n (
          complete_price_facts-closed (HoldsRow k P) event.chain_id c reg
            (Holds-closed k P c stable h) q)
    ]

pub created-Holds :
    (k : ContractKey) (P : Contract → Type 0) (fx : Effects) (event : RawEvent) (c : Contract)
    (reg : Registry)
    → IsStable P
    → (c.id ≡ k → P c)
    → HoldsRow k P (set_contract c reg).contracts
    → HoldsRow k P (with_needed_facts fx event c (set_contract c reg)).1.contracts
created-Holds k P fx event c reg stable h stored =
    elim (Bool-cases (needs_facts c event.block_number)) [
      | inl n ↦ rw n (
          apply_facts-closed (HoldsRow k P) fx event c (set_contract c reg)
            (Holds-closed k P c stable h) stored)
      | inr n ↦ rw n stored
    ]

pub create-Holds :
    (k : ContractKey) (P : Contract → Type 0) (fx : Effects) (event : RawEvent) (c : Contract)
    (reg : Registry)
    → IsStable P
    → (c.id ≡ k → P c)
    → HoldsRow k P reg.contracts
    → HoldsRow k P (with_needed_facts fx event c (set_contract c reg)).1.contracts
unfolding set_contract
create-Holds k P fx event c reg stable h q =
    created-Holds k P fx event c reg stable h
      (Holds-closed k P c stable h c reg.contracts refl refl (λ p. p) q)

-- what is found is the key's contract
pub found_row :
    (k : ContractKey) (P : Contract → Type 0) (m : Contracts) (c : Contract)
    → HasRow k P m
    → lookup ContractKey-discrete k m ≡ some c
    → P c
found_row k P m c (d, e, f) g = subst P (some-injective d c (sym e ∙ g)) f

pub not_absent :
    (k id : ContractKey) (P : Contract → Type 0) (m : Contracts)
    → HasRow k P m
    → lookup ContractKey-discrete id m ≡ none
    → id ≢ k
not_absent k id P m (d, e, f) n p =
    none-ne-some d (sym n ∙ ap (λ i. lookup ContractKey-discrete i m) p ∙ e)

-- a contract found under its id, at the key `k`
pub row_here :
    (k id : ContractKey) (P : Contract → Type 0) (m : Contracts) (c : Contract)
    → HasRow k P m
    → lookup ContractKey-discrete id m ≡ some c
    → id ≡ k
    → P c
row_here k id P m c has e p =
    found_row k P m c has (ap (λ i. lookup ContractKey-discrete i m) (sym p) ∙ e)
