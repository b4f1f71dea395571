-- ===== src/Indexer/Handlers/Factories/Routing.antt =====
-- A created proxy is routed to the contract type of its kind, and its events pass the registry's guard.
use mathlib.Core.Path.{subst}
use mathlib.Core.Option.{none-ne-some, some-injective}
use mathlib.Core.List.{Mem, mem-append_left, mem-append_right, mem-cons_self}
use beefy_envio_balances_ind.Common.{
  ℕ, ◌≡◌, ◌⊎◌, refl, sym, ap, ◌∙◌, Bool, true, false, Option, none, some, [], ◌∷◌, Text, Bool-cases,
  Option-cases, inl, inr, to_lower_idempotent, arith,
}
use beefy_envio_balances_ind.Indexer.Event.{as_hex}
use beefy_envio_balances_ind.Indexer.Store.{
  ContractKind, vault, strategy, boost, reward_pool, clm_manager, clm_strategy, erc4626_adapter,
}
use beefy_envio_balances_ind.Indexer.Handlers.Factories.{
  ContractType, classic_vault, classic_strategy, classic_boost, reward_pool_type, clm_manager_type,
  clm_strategy_type, erc4626_adapter_type, Creation, strategy_created, boost_created,
  reward_pool_created, clm_manager_created, clm_strategy_created, erc4626_adapter_created,
  created_kind, register_factory, register_strategy, register_created, Routes, add, clone_vault,
  booooost, another, Answers, Config, classify_classic_proxy_reads, classify_from_input,
  static_classic_kind, register_classic_strategy, register_vault_or_strategy, proxy_kind, only,
  match_if,
}

-- the contract type whose handlers ask for this kind
abbrev pub type_of : ContractKind → Option ContractType
type_of vault = some classic_vault
type_of strategy = some classic_strategy
type_of boost = some classic_boost
type_of _ = none

-- the same for all kinds that a factory creates
abbrev pub handled_type : ContractKind → Option ContractType
handled_type reward_pool = some reward_pool_type
handled_type clm_manager = some clm_manager_type
handled_type clm_strategy = some clm_strategy_type
handled_type erc4626_adapter = some erc4626_adapter_type
handled_type kind = type_of kind

abbrev pub IsRouted : ContractType → Text → Routes → Type 0
IsRouted type a routes = Mem {A = ContractType × Text} (type, a) routes

add-Mem :
    (type : ContractType) (a : Text) (routes : Routes)
    → IsRouted type (as_hex a) (add type a routes)
add-Mem type a routes = mem-append_right routes mem-cons_self

listed_type :
    (listed : ContractType → Bool) (known type : ContractType)
    → listed known ≡ true
    → some known ≡ some type
    → listed type ≡ true
listed_type listed known type l e = subst (λ t. listed t ≡ true) (some-injective known type e) l

only_kind :
    (a b c : Bool) (kind : ContractKind)
    → only (match_if a vault (match_if b strategy (match_if c boost []))) ≡ some kind
    → ((kind ≡ vault) × (a ≡ true))
      ⊎ (((kind ≡ strategy) × (b ≡ true)) ⊎ ((kind ≡ boost) × (c ≡ true)))
only_kind a b c kind e = ground arith

-- the kind that alone is listed is listed
only_listed :
    (listed : ContractType → Bool) (kind : ContractKind) (type : ContractType)
    → only (
        match_if
          (listed classic_vault)
          vault
          (match_if (listed classic_strategy) strategy (match_if (listed classic_boost) boost [])))
      ≡ some kind
    → type_of kind ≡ some type
    → listed type ≡ true
only_listed listed kind type e k =
    elim (only_kind (listed classic_vault) (listed classic_strategy) (listed classic_boost) kind
      e) [
        | inl (v, l) ↦ listed_type listed classic_vault type l (ap type_of (sym v) ∙ k)
        | inr (inl (v, l)) ↦ listed_type listed classic_strategy type l (ap type_of (sym v) ∙ k)
        | inr (inr (v, l)) ↦ listed_type listed classic_boost type l (ap type_of (sym v) ∙ k)
      ]

abbrev creation_type : Creation → ContractType
creation_type strategy_created = classic_strategy
creation_type boost_created = classic_boost
creation_type reward_pool_created = reward_pool_type
creation_type clm_manager_created = clm_manager_type
creation_type clm_strategy_created = clm_strategy_type
creation_type erc4626_adapter_created = erc4626_adapter_type

handled_creation :
    (creation : Creation) → handled_type (created_kind creation) ≡ some (creation_type creation)
handled_creation strategy_created = refl
handled_creation boost_created = refl
handled_creation reward_pool_created = refl
handled_creation clm_manager_created = refl
handled_creation clm_strategy_created = refl
handled_creation erc4626_adapter_created = refl

module _ (cfg : Config) where
  register_classic_strategy-Mem :
      (chain : ℕ) (a : Text) (routes : Routes)
      → IsRouted classic_strategy (as_hex a) (register_classic_strategy cfg chain a routes)
  unfolding register_classic_strategy
  register_classic_strategy-Mem chain a routes =
      elim (Bool-cases (cfg.uses_strat_harvest1 chain a)) [
        | inl h ↦ rw h (mem-append_left _ (add-Mem classic_strategy a routes))
        | inr h ↦ rw h (mem-append_left _ (add-Mem classic_strategy a routes))
      ]

  register_classic_strategy-keeps :
      (chain : ℕ) (a : Text) (routes : Routes) (r : ContractType × Text)
      → Mem r routes
      → Mem r (register_classic_strategy cfg chain a routes)
  unfolding register_classic_strategy
  register_classic_strategy-keeps chain a routes r m =
      elim (Bool-cases (cfg.uses_strat_harvest1 chain a)) [
        | inl h ↦ rw h (mem-append_left _ (mem-append_left _ m))
        | inr h ↦ rw h (mem-append_left _ (mem-append_left _ m))
      ]

  classify_from_input-cases :
      (input : Option Text)
      → (classify_from_input cfg input ≡ none)
        ⊎ ((classify_from_input cfg input ≡ some vault)
            ⊎ (classify_from_input cfg input ≡ some boost))
  unfolding classify_from_input
  classify_from_input-cases none = inl refl
  classify_from_input-cases (some []) = inl refl
  classify_from_input-cases (some (c ∷ s)) = elim (Option-cases (cfg.decode_function (c ∷ s))) [
    | inl n ↦ rw (n, classify_from_input) (inl refl)
    | inr (clone_vault, e) ↦ rw (e, classify_from_input) (inr (inl refl))
    | inr (booooost, e) ↦ rw (e, classify_from_input) (inr (inr refl))
    | inr (another, e) ↦ rw (e, classify_from_input) (inl refl)
  ]

  -- a proxy of no known kind is routed to every classic type
  candidates-Mem :
      (chain : ℕ) (a : Text) (routes : Routes) (kind : ContractKind) (type : ContractType)
      → type_of kind ≡ some type
      → IsRouted type
          (as_hex a)
          (add classic_boost a (register_classic_strategy cfg chain a (add classic_vault a routes)))
  candidates-Mem chain a routes vault type e =
      subst
        (λ t. IsRouted t (as_hex a) (
          add classic_boost a (register_classic_strategy cfg chain a (add classic_vault a routes))))
        (some-injective _ _ e)
        (mem-append_left _ (
          register_classic_strategy-keeps chain a (add classic_vault a routes) _
            (add-Mem classic_vault a routes)))
  candidates-Mem chain a routes strategy type e =
      subst
        (λ t. IsRouted t (as_hex a) (
          add classic_boost a (register_classic_strategy cfg chain a (add classic_vault a routes))))
        (some-injective _ _ e)
        (mem-append_left _ (register_classic_strategy-Mem chain a (add classic_vault a routes)))
  candidates-Mem chain a routes boost type e =
      subst
        (λ t. IsRouted t (as_hex a) (
          add classic_boost a (register_classic_strategy cfg chain a (add classic_vault a routes))))
        (some-injective _ _ e) (add-Mem classic_boost a _)
  candidates-Mem chain a routes _ type e = elim (none-ne-some type e) [ ]

  static_classic_kind-listed :
      (chain : ℕ) (a : Text) (kind : ContractKind) (type : ContractType)
      → static_classic_kind cfg chain a ≡ some kind
      → type_of kind ≡ some type
      → cfg.is_listed chain type (as_hex a) ≡ true
  unfolding static_classic_kind
  static_classic_kind-listed chain a kind type e k =
      only_listed (λ t. cfg.is_listed chain t (as_hex a)) kind type e k

  -- The kind that a proxy is registered under is the type that its events are routed to: by this
  -- registration, or from the start of the chain, by config.yaml.
  pub register_vault_or_strategy-proxy_kind :
      (answers : Answers) (chain : ℕ) (proxy : Text) (input : Option Text) (routes : Routes)
      (type : ContractType)
      → cfg.is_blacklisted chain (as_hex proxy) ≡ false
      → type_of (proxy_kind cfg answers chain (as_hex proxy) input) ≡ some type
      → IsRouted type (as_hex proxy) (register_vault_or_strategy cfg chain proxy input routes)
        ⊎ (cfg.is_listed chain type (as_hex proxy) ≡ true)
  unfolding register_vault_or_strategy proxy_kind
  register_vault_or_strategy-proxy_kind answers chain proxy input routes type b k =
      let a = as_hex proxy in
      let plain = to_lower_idempotent proxy in
      let routed = λ (u : ContractType) (r : Routes) (m : IsRouted u (as_hex a) r).
        subst (λ x. IsRouted u x r) plain m in
      elim (classify_from_input-cases input) [
        | inr (inl v) ↦
            let t : some classic_vault ≡ some type = rw (v, proxy_kind) at k in
            inl (rw (b, v, ← some-injective _ _ t) (routed _ _ (add-Mem classic_vault a routes)))
        | inr (inr v) ↦
            let t : some classic_boost ≡ some type = rw (v, proxy_kind) at k in
            inl (rw (b, v, ← some-injective _ _ t) (routed _ _ (add-Mem classic_boost a routes)))
        | inl n ↦ elim (Option-cases (static_classic_kind cfg chain a)) [
          | inr (kind, e) ↦
              let t : type_of kind ≡ some type = rw (n, e, proxy_kind) at k in
              inr (
                subst (λ x. cfg.is_listed chain type x ≡ true) plain
                  (static_classic_kind-listed chain a kind type e t))
          | inl m ↦
              let t : type_of (classify_classic_proxy_reads answers) ≡ some type =
                rw (n, m, proxy_kind) at k in
              inl (rw (b, n, m) (routed _ _ (candidates-Mem chain a routes _ type t)))
        ]
      ]

  register_strategy-Mem :
      (chain : ℕ) (a : Text) (routes : Routes)
      → cfg.is_blacklisted chain a ≡ false
      → IsRouted classic_strategy (as_hex a) (register_strategy cfg chain a routes)
  register_strategy-Mem chain a routes b = rw b (register_classic_strategy-Mem chain a routes)

  register_created-Mem :
      (type : ContractType) (chain : ℕ) (a : Text) (routes : Routes)
      → cfg.is_blacklisted chain a ≡ false
      → IsRouted type (as_hex a) (register_created cfg type chain a routes)
  register_created-Mem type chain a routes b = rw b (add-Mem type a routes)

  routed :
      (creation : Creation) (chain : ℕ) (a : Text) (routes : Routes)
      → cfg.is_blacklisted chain a ≡ false
      → IsRouted (creation_type creation) (as_hex a) (register_factory cfg creation chain a routes)
  routed strategy_created chain a routes b = register_strategy-Mem chain a routes b
  routed boost_created chain a routes b = register_created-Mem classic_boost chain a routes b
  routed reward_pool_created chain a routes b =
      register_created-Mem reward_pool_type chain a routes b
  routed clm_manager_created chain a routes b =
      register_created-Mem clm_manager_type chain a routes b
  routed clm_strategy_created chain a routes b =
      register_created-Mem clm_strategy_type chain a routes b
  routed erc4626_adapter_created chain a routes b =
      register_created-Mem erc4626_adapter_type chain a routes b

  -- A factory of one kind routes what it creates, unless it is blacklisted, to the contract type of
  -- the kind that it registers it under.
  pub register_factory-created_kind :
      (creation : Creation) (chain : ℕ) (a : Text) (routes : Routes) (type : ContractType)
      → cfg.is_blacklisted chain a ≡ false
      → handled_type (created_kind creation) ≡ some type
      → IsRouted type (as_hex a) (register_factory cfg creation chain a routes)
  register_factory-created_kind creation chain a routes type b e =
      subst (λ u. IsRouted u (as_hex a) (register_factory cfg creation chain a routes))
        (some-injective _ type (sym (handled_creation creation) ∙ e))
        (routed creation chain a routes b)
