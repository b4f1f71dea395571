-- ===== src/Indexer/Handlers/Factories.antt =====
-- Factories: apps/indexer/src/handlers/factories.handlers.ts and classicVault.handlers.ts, lib/register.ts and
-- lib/classify.ts. A `contractRegister` handler adds addresses to the routes of the chain, an `onEvent` handler
-- writes the registry.
pub mod Routing
use mathlib.Core.Bool.{decide}
use beefy_envio_balances_ind.Common.{
  ℕ, ◌≡◌, Bool, true, false, not, ◌&&◌, Option, none, some, List, [], ◌∷◌, ◌++◌, if◌then◌else◌,
  filter_by, Text, strip_end,
}
use beefy_envio_balances_ind.Indexer.Event.{RawEvent, as_hex}
use beefy_envio_balances_ind.Indexer.Store.{
  ContractKind, vault, strategy, boost, reward_pool, clm_manager, clm_strategy, erc4626_adapter,
  unknown,
}
use beefy_envio_balances_ind.Indexer.Registry.{Effects, Registry, vault_strategy}
use beefy_envio_balances_ind.Indexer.Registry.Facts.{write_event_link}
use beefy_envio_balances_ind.Indexer.Registry.Guard.{register_created_contract}
use beefy_envio_balances_ind.Indexer.Handlers.Rows.{Tables}
use beefy_envio_balances_ind.Indexer.Handlers.Guarded.{guarded}

-- the contract types of config.yaml that are registered while the chain is read
pub data ContractType : Type 0 where
  classic_vault classic_strategy strat_harvest0 strat_harvest1 : ContractType
  classic_boost reward_pool_type clm_manager_type clm_strategy_type erc4626_adapter_type :
      ContractType

-- `context.chain.X.add(asHex(address))`
abbrev pub Routes : Type 0
Routes = List (ContractType × Text)

abbrev pub add : ContractType → Text → Routes → Routes
add type address routes = routes ++ (type, as_hex address) ∷ []

-- The events of the factories of one kind; those with a name differ in it alone.
pub data Creation : Type 0 where
  strategy_created boost_created reward_pool_created : Creation
  clm_manager_created clm_strategy_created erc4626_adapter_created : Creation

abbrev pub created_kind : Creation → ContractKind
created_kind strategy_created = strategy
created_kind boost_created = boost
created_kind reward_pool_created = reward_pool
created_kind clm_manager_created = clm_manager
created_kind clm_strategy_created = clm_strategy
created_kind erc4626_adapter_created = erc4626_adapter

-- what `decodeFunctionData` finds in a call of the factory
pub data FunctionName : Type 0 where
  clone_vault booooost another : FunctionName

-- Which detection calls of a proxy succeed
pub record Answers : Type 0 where
  pub vault : Bool
  pub strategy : Bool
  pub reward_token : Bool

-- The configuration and the library calls that the factories use.
pub record Config : Type 0 where
  -- lib/blacklist.ts
  pub is_blacklisted : ℕ → Text → Bool
  -- config/classic/stratHarvest1
  pub uses_strat_harvest1 : ℕ → Text → Bool
  -- the addresses of config.yaml
  pub is_listed : ℕ → ContractType → Text → Bool
  -- the `ContractFactory` addresses of config.yaml
  pub is_contract_factory : ℕ → Text → Bool
  -- viem: none where it throws
  pub decode_function : Text → Option FunctionName
  pub hex_to_string : Text → Text

-- `compact` of the three matches, if only one is left
abbrev pub only {ℓ} : {A : Type ℓ} → List A → Option A
only [] = none
only (x ∷ []) = some x
only (x ∷ y ∷ xs) = none

abbrev pub match_if : Bool → ContractKind → List ContractKind → List ContractKind
match_if b kind kinds = if b then kind ∷ kinds else kinds

unfoldable pub classify_classic_proxy_reads : Answers → ContractKind
classify_classic_proxy_reads a =
    elim (only
      (match_if a.strategy vault (match_if a.vault strategy (match_if a.reward_token boost [])))) [
        | none ↦ unknown
        | some kind ↦ kind
      ]

module _ (cfg : Config) where
  unfoldable pub classify_from_input : Option Text → Option ContractKind
  classify_from_input none = none
  classify_from_input (some []) = none
  classify_from_input (some (c ∷ s)) = elim (cfg.decode_function (c ∷ s)) [
    | none ↦ none
    | some name ↦ elim name [ clone_vault ↦ some vault | booooost ↦ some boost | another ↦ none ]
  ]

  -- the kind of a proxy that config.yaml lists under exactly one classic type
  unfoldable pub static_classic_kind : ℕ → Text → Option ContractKind
  static_classic_kind chain address =
      let listed = λ (type : ContractType). cfg.is_listed chain type (as_hex address) in
      only (
        match_if (listed classic_vault) vault
          (match_if (listed classic_strategy) strategy (match_if (listed classic_boost) boost [])))

  unfoldable pub register_classic_strategy : ℕ → Text → Routes → Routes
  register_classic_strategy chain address routes =
      let routed = add classic_strategy address routes in
      if cfg.uses_strat_harvest1 chain address
      then add strat_harvest1 address routed
      else add strat_harvest0 address routed

  abbrev pub decode_bytes32_name : Text → Text
  decode_bytes32_name value = strip_end 0 (cfg.hex_to_string value)

  -- `contractRegister` of `VaultOrStrategyCreated`
  unfoldable pub register_vault_or_strategy : ℕ → Text → Option Text → Routes → Routes
  register_vault_or_strategy chain proxy_param input routes =
      let proxy = as_hex proxy_param in
      if cfg.is_blacklisted chain proxy then routes else elim (classify_from_input input) [
        | some kind ↦ elim kind [
          | vault ↦ add classic_vault proxy routes
          | boost ↦ add classic_boost proxy routes
          | _ ↦ routes
        ]
        | none ↦ elim (static_classic_kind chain proxy) [
          | some _ ↦ routes
          | none ↦
              add classic_boost proxy
                (register_classic_strategy chain proxy (add classic_vault proxy routes))
        ]
      ]

  -- the kind that `onEvent` of `VaultOrStrategyCreated` finds
  unfoldable pub proxy_kind : Answers → ℕ → Text → Option Text → ContractKind
  proxy_kind answers chain proxy input = elim (classify_from_input input) [
    | some kind ↦ kind
    | none ↦ elim (static_classic_kind chain proxy) [
      | some kind ↦ kind
      | none ↦ classify_classic_proxy_reads answers
    ]
  ]

  -- `onEvent` of a creation event: `registerCreatedContract`, but for a blacklisted address
  unfoldable pub on_created :
      Effects → RawEvent → Text → ContractKind → Option Text → Tables → Tables
  on_created fx event address kind name t =
      if cfg.is_blacklisted event.chain_id address then t else record t {
        registry = (register_created_contract fx event address kind name t.registry).1;
      }

  abbrev pub on_vault_or_strategy :
      Effects → Answers → RawEvent → Text → Option Text → Tables → Tables
  on_vault_or_strategy fx answers event proxy_param input t =
      let proxy = as_hex proxy_param in
      on_created fx event proxy (proxy_kind answers event.chain_id proxy input) none t

  -- `contractRegister` of `StrategyCreated`, `StrategyCreatedWithName` and `UpgradeStrat`
  abbrev pub register_strategy : ℕ → Text → Routes → Routes
  register_strategy chain address routes =
      if cfg.is_blacklisted chain address
      then routes
      else register_classic_strategy chain address routes

  -- `contractRegister` of the other factories
  abbrev pub register_created : ContractType → ℕ → Text → Routes → Routes
  register_created type chain address routes =
      if cfg.is_blacklisted chain address then routes else add type address routes

  -- `contractRegister` of a factory of one kind
  abbrev pub register_factory : Creation → ℕ → Text → Routes → Routes
  register_factory strategy_created = register_strategy
  register_factory boost_created = register_created classic_boost
  register_factory reward_pool_created = register_created reward_pool_type
  register_factory clm_manager_created = register_created clm_manager_type
  register_factory clm_strategy_created = register_created clm_strategy_type
  register_factory erc4626_adapter_created = register_created erc4626_adapter_type

  -- `onEvent` of a factory of one kind
  abbrev pub on_factory : Effects → Creation → RawEvent → Text → Option Text → Tables → Tables
  on_factory fx creation event address name t =
      on_created fx event address (created_kind creation) name t

  abbrev pub on_contract_deployed : Effects → RawEvent → Text → Text → Tables → Tables
  on_contract_deployed fx event address contract_name t =
      if cfg.is_contract_factory event.chain_id (as_hex event.src_address)
      then on_created fx event address unknown (some (decode_bytes32_name contract_name)) t
      else t

  abbrev pub on_upgrade_strat : Effects → RawEvent → Text → Tables → Tables
  on_upgrade_strat fx event implementation t =
      guarded cfg.is_blacklisted fx event vault
        (λ _ t'. record t' {
          registry = write_event_link event vault_strategy implementation t'.registry;
        })
        t
