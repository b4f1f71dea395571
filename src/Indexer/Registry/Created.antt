-- ===== src/Indexer/Registry/Created.antt =====
-- From its creation on, a contract is known by its kind, and its events pass the guard.
use mathlib.Core.Option.{none-ne-some, some-injective}
use mathlib.Core.Bool.{decide_iff}
use beefy_envio_balances_ind.Common.{
  ℕ, ◌≡◌, ◌≢◌, ◌⊎◌, refl, sym, ap, ◌∙◌, Bool, true, false, not, ◌||◌, Option, none, some, Text,
  Bool-cases, inl, inr, arith, Option-cases,
}
use beefy_envio_balances_ind.Common.Dict.{lookup, lookup-set_self}
use beefy_envio_balances_ind.Indexer.Event.{
  RawEvent, ContractKey, ContractKey-discrete, contract_id,
}
use beefy_envio_balances_ind.Indexer.Store.{Contract, ContractKind, unknown}
use beefy_envio_balances_ind.Indexer.Registry.{Registry, Effects, is_kind, ContractKind-discrete}
use beefy_envio_balances_ind.Indexer.Registry.Facts.{set_contract}
use beefy_envio_balances_ind.Indexer.Registry.Keyed.{
  kind_of, kind_at, IsKeyed, HasKind, IsKeyed-set, OfKind, OfKind-IsStable, Holds, created-Holds,
}
use beefy_envio_balances_ind.Indexer.Registry.Guard.{
  created_row, first_of, register_created_contract, ensure_contract,
}

stored-Holds :
    (c : Contract) (reg : Registry)
    → IsKeyed reg.contracts
    → Holds c.id c.kind (set_contract c reg).contracts
unfolding set_contract
stored-Holds c reg keyed = (
  IsKeyed-set c reg.contracts keyed,
  (c, lookup-set_self ContractKey-discrete c.id c reg.contracts, refl),
)

-- The address has no row yet, or one of UNKNOWN kind, or already this kind.
abbrev pub IsFree : ContractKey → ContractKind → Registry → Type 0
IsFree id kind reg =
    (kind_at id reg ≡ none) ⊎ ((kind_at id reg ≡ some unknown) ⊎ (kind_at id reg ≡ some kind))

both_unknown : (a b : Bool) → (not a || b) ≡ true → a ≡ true → b ≡ true
both_unknown a b h k = ground arith

kept_kind :
    (id : ContractKey) (kind : ContractKind) (reg : Registry) (c : Contract)
    → kind ≢ unknown
    → IsFree id kind reg
    → kind_at id reg ≡ some c.kind
    → (not (is_kind c.kind unknown) || is_kind kind unknown) ≡ true
    → c.kind ≡ kind
kept_kind id kind reg c known (inl n) e t = elim (none-ne-some c.kind (sym n ∙ e)) [ ]
kept_kind id kind reg c known (inr (inl u)) e t =
    let was =
      (decide_iff (ContractKind-discrete c.kind unknown)).1
        (some-injective c.kind unknown (sym e ∙ u)) in
    elim (known (
      (decide_iff (ContractKind-discrete kind unknown)).0
        (both_unknown (is_kind c.kind unknown) (is_kind kind unknown) t was))) [ ]
kept_kind id kind reg c known (inr (inr k)) e t = some-injective c.kind kind (sym e ∙ k)

pub register_created_contract-kind :
    (fx : Effects) (event : RawEvent) (address : Text) (kind : ContractKind) (name : Option Text)
    (reg : Registry)
    → kind ≢ unknown
    → IsKeyed reg.contracts
    → IsFree (contract_id event.chain_id address) kind reg
    → Holds
        (contract_id event.chain_id address)
        kind
        (register_created_contract fx event address kind name reg).1.contracts
unfolding register_created_contract
register_created_contract-kind fx event address kind name reg known keyed free =
    let id = contract_id event.chain_id address in
    let fresh = λ (n : Option Text).
      created-Holds id (OfKind kind) fx event (created_row event address kind n) reg
        (OfKind-IsStable kind) (λ _. refl)
        (stored-Holds (created_row event address kind n) reg keyed) in
    elim (Option-cases (lookup ContractKey-discrete id reg.contracts)) [
      | inl n ↦ rw (n, register_created_contract) (fresh name)
      | inr (c, e) ↦ elim (Bool-cases (not (is_kind c.kind unknown) || is_kind kind unknown)) [
        | inl t ↦
            rw (e, t, register_created_contract)
              (keyed, (c, e, kept_kind id kind reg c known free (ap kind_of e) t))
        | inr t ↦ rw (e, t, register_created_contract) (fresh (first_of name c.deploy_name))
      ]
    ]

-- The guard goes on with a contract of the kind that it asks for.
pub ensure_contract-ne-none :
    (is_blacklisted : ℕ → Text → Bool) (fx : Effects) (event : RawEvent) (kind : ContractKind)
    (reg : Registry)
    → is_blacklisted event.chain_id event.src_address ≡ false
    → HasKind (contract_id event.chain_id event.src_address) kind reg.contracts
    → (ensure_contract is_blacklisted fx event kind reg).0 ≢ none
unfolding ensure_contract
ensure_contract-ne-none is_blacklisted fx event kind reg b (c, e, k) =
    let s : is_kind c.kind kind ≡ true = (decide_iff (ContractKind-discrete c.kind kind)).1 k in
    rw (b, e, s, ensure_contract) (λ h. none-ne-some _ (sym h))
