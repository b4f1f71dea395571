-- ===== src/Indexer/Registry.antt =====
-- The contract registry, apps/indexer/src/lib/registry.ts: its tables, the reads of each kind and the
-- token rows. What the RPC effects answer (effects/facts.effects.ts, effects/token.effects.ts) is a parameter
-- of each call, so two calls may get different answers.
pub mod Facts
pub mod Guard
pub mod Stored
pub mod Keyed
pub mod Kinds
pub mod Created
pub mod Priced
pub mod Reads
mod Tests
use beefy_envio_balances_ind.Common.{
  ℕ, ◌≡◌, refl, Bool, true, false, not, ◌&&◌, ◌||◌, Option, none, some, List, [], ◌∷◌, ◌==◌,
  if◌then◌else◌, Text, Text-discrete, pair_discrete, leb,
}
use beefy_envio_balances_ind.Common.Dict.{lookup, set}
use beefy_envio_balances_ind.Indexer.Event.{
  RawEvent, as_hex, ContractKey, ContractKey-discrete, contract_id, block_timestamp,
}
use beefy_envio_balances_ind.Indexer.Store.{
  Contract, ContractKind, vault, strategy, clm_strategy, boost, reward_pool, clm_manager,
  erc4626_adapter, lst_vault, token, swapper, unknown,
}
use mathlib.Core.Bool.{decide}
use native.Mathlib.Decide.{ℕ_discrete}

pub data LinkRelation : Type 0 where
  vault_want vault_strategy strategy_vault boost_staked boost_reward : LinkRelation
  reward_pool_staked reward_pool_reward clm_want0 clm_want1 clm_pool : LinkRelation
  clm_strategy_manager adapter_vault : LinkRelation

unfoldable pub LinkRelation-discrete : Discrete LinkRelation
LinkRelation-discrete = hlevel

unfoldable pub ContractKind-discrete : Discrete ContractKind
ContractKind-discrete = hlevel

option_dec : {a b : ℕ} → Dec (a ≡ b) → Dec (some a ≡ some b)
option_dec (yes p) = yes (λ i. some (p i))
option_dec (no p) = no (λ e. p (cc))

unfoldable option_discrete : Discrete (Option ℕ)
unfolding option_dec ℕ_discrete
option_discrete none none = yes refl
option_discrete none (some b) = no (λ e. cc)
option_discrete (some a) none = no (λ e. cc)
option_discrete (some a) (some b) = option_dec (ℕ_discrete a b)

-- READ: `chainId-from-relation-read`; EVENT: `chainId-trxHash-logIndex-relation`. The log index is
-- that of an event, and none for a read.
abbrev pub LinkKey : Type 0
LinkKey = (ContractKey × Option ℕ) × LinkRelation

unfoldable pub LinkKey-discrete : Discrete LinkKey
unfolding pair_discrete ContractKey-discrete option_discrete LinkRelation-discrete
LinkKey-discrete =
    pair_discrete (pair_discrete ContractKey-discrete option_discrete) LinkRelation-discrete

pub data LinkSource : Type 0 where
  read event : LinkSource

pub record ContractLink : Type 0 where
  pub from_address : Text
  pub to_address : Text
  pub relation : LinkRelation
  pub source : LinkSource
  pub since_block : ℕ
  pub since_timestamp : ℕ
  pub trx_hash : Option Text
  pub log_index : Option ℕ

pub record Token : Type 0 where
  pub address : Text
  pub decimals : Option ℕ
  pub symbol : Option Text
  pub name : Option Text
  -- whether `metadataStatus` is OK
  pub metadata_ok : Bool
  pub is_beefy_share : Bool

-- the tables of the registry
pub record Registry : Type 0 where
  pub contracts : List (ContractKey × Contract)
  pub tokens : List (ContractKey × Token)
  pub links : List (LinkKey × ContractLink)

pub record Metadata : Type 0 where
  pub ok : Bool
  pub decimals : Option ℕ
  pub symbol : Option Text
  pub name : Option Text

-- What the effects answer, each at an address of the event's chain.
pub record Effects : Type 0 where
  pub read_vault_want : Text → Option Text
  pub read_strategy_vault : Text → Option Text
  pub read_clm_strategy_vault : Text → Option Text
  pub read_clm_strategy_pool : Text → Option Text
  pub read_boost_staked : Text → Option Text
  pub read_boost_reward : Text → Option Text
  pub read_reward_pool_staked : Text → Option Text
  pub read_clm_want0 : Text → Option Text
  pub read_clm_want1 : Text → Option Text
  pub read_adapter_vault : Text → Option Text
  pub read_asset : Text → Option Text
  pub get_token_metadata : Text → Metadata

-- `to` is none for a reverted or zero read
pub record ReadLink : Type 0 where
  pub relation : LinkRelation
  pub to : Option Text

abbrev pub facts_retry_blocks : ℕ
facts_retry_blocks = 10000

abbrev pub is_share_token : ContractKind → Bool
is_share_token vault = true
is_share_token boost = true
is_share_token reward_pool = true
is_share_token clm_manager = true
is_share_token erc4626_adapter = true
is_share_token lst_vault = true
is_share_token token = true
is_share_token strategy = false
is_share_token clm_strategy = false
is_share_token swapper = false
is_share_token unknown = false

-- `a === b`, of kinds and of relations
abbrev pub is_kind : ContractKind → ContractKind → Bool
is_kind a b = decide (ContractKind-discrete a b)

abbrev pub is_relation : LinkRelation → LinkRelation → Bool
is_relation a b = decide (LinkRelation-discrete a b)

abbrev pub is_non_erc20_share : ContractKind → Bool
is_non_erc20_share kind = is_kind kind boost

abbrev pub is_token_relation : LinkRelation → Bool
is_token_relation vault_want = true
is_token_relation boost_staked = true
is_token_relation boost_reward = true
is_token_relation reward_pool_staked = true
is_token_relation reward_pool_reward = true
is_token_relation clm_want0 = true
is_token_relation clm_want1 = true
is_token_relation adapter_vault = true
is_token_relation vault_strategy = false
is_token_relation strategy_vault = false
is_token_relation clm_pool = false
is_token_relation clm_strategy_manager = false

unfoldable pub read_facts : Effects → ContractKind → Text → List ReadLink
read_facts fx vault a = record { relation = vault_want; to = fx.read_vault_want (as_hex a) } ∷ []
read_facts fx strategy a =
    record { relation = strategy_vault; to = fx.read_strategy_vault (as_hex a) } ∷ []
read_facts fx clm_strategy a =
    record { relation = clm_strategy_manager; to = fx.read_clm_strategy_vault (as_hex a) }
    ∷ record { relation = clm_pool; to = fx.read_clm_strategy_pool (as_hex a) }
    ∷ []
read_facts fx boost a =
    record { relation = boost_staked; to = fx.read_boost_staked (as_hex a) }
    ∷ record { relation = boost_reward; to = fx.read_boost_reward (as_hex a) }
    ∷ []
read_facts fx reward_pool a =
    record { relation = reward_pool_staked; to = fx.read_reward_pool_staked (as_hex a) } ∷ []
read_facts fx clm_manager a =
    record { relation = clm_want0; to = fx.read_clm_want0 (as_hex a) }
    ∷ record { relation = clm_want1; to = fx.read_clm_want1 (as_hex a) }
    ∷ []
read_facts fx erc4626_adapter a =
    record { relation = adapter_vault; to = fx.read_adapter_vault (as_hex a) } ∷ []
read_facts fx lst_vault a = record { relation = vault_want; to = fx.read_asset (as_hex a) } ∷ []
read_facts fx token a = []
read_facts fx swapper a = []
read_facts fx unknown a = []
