-- ===== src/Timelines/Rows.antt =====
-- The rows that a timeline is built of and its items, `PricedRow` and `TimelineItem` of
-- apps/api/src/timeline/build.ts. A 64 or 256 bit number, which the source has as a text, is the number.
use beefy_envio_balances_ind.Common.{ℕ, Option, List, Text}
use beefy_envio_balances_ind.Common.Int.{ℤ}
use beefy_envio_balances_ind.Indexer.Store.{ContractKind, TimelineKind, Source}

-- a double, as its bits
abbrev pub Double : Type 0
Double = ℕ

pub record PricedRow : Type 0 where
  pub chain_id : ℕ
  pub timestamp_ms : ℕ
  pub block_number : ℕ
  pub log_index : ℕ
  pub trx_hash : Text
  pub kind : TimelineKind
  pub contract : Text
  pub source : Source
  pub delta : ℤ
  pub shares_after : ℤ
  pub amount0 : ℕ
  pub amount1 : ℕ
  pub reward_token : Text
  pub reward_amount : ℕ
  pub product_address : Text
  pub product_kind : Option ContractKind
  pub contract_kind : Option ContractKind
  pub decimals : ℕ
  pub share_to_usd : Double
  pub price_flag : Text
  pub price_source : Text
  pub price_resolution : Text
  pub price_before_at : Option ℕ
  pub price_after_at : Option ℕ
  pub usd_delta : Double
  pub usd_after : Double

-- What the code uses of the platform and of `@beefy/models`.
pub record Platform : Type 0 where
  -- `new Date(ms).toISOString()`
  pub to_iso : ℕ → Text
  -- `chainById(id)?.key`
  pub chain_key : ℕ → Option Text
  pub zero_usd : Double
  pub add : Double → Double → Double
  -- `(Number(balance) / 10 ** decimals) * price`
  pub usd_of : ℤ → ℕ → Double → Double

pub data Action : Type 0 where
  deposit withdraw claim_reward stake unstake transfer_in transfer_out : Action

pub data ItemType : Type 0 where
  classic clm : ItemType

-- the balance of a contract of the product, and what the item changes of it
pub record Entry : Type 0 where
  pub entry_kind : Option ContractKind
  pub diff : ℤ
  pub balance_then : ℤ

pub record ContractPart : Type 0 where
  pub address : Text
  pub part_kind : Option ContractKind
  pub part_balance : Text
  pub part_diff : Text

pub record Price : Type 0 where
  pub share_to_usd : Double
  pub flag : Text
  pub price_source : Text
  pub resolution : Option Text
  pub as_of : Option Text
  pub as_of_next : Option Text

pub record Claim : Type 0 where
  pub claim_contract : Text
  pub claim_token : Option Text
  pub amount : ℕ

pub record TimelineItem : Type 0 where
  pub type_of_item : ItemType
  pub datetime : Text
  pub timestamp : ℕ
  pub block_number : ℕ
  pub transaction_hash : Text
  pub chain : Text
  pub chain_id : ℕ
  pub product_address : Text
  pub actions : List Action
  pub share_balance : Text
  pub share_diff : Text
  pub contracts : List ContractPart
  pub price : Price
  pub usd_balance : Double
  pub usd_diff : Double
  pub underlying : Option (Text × Text)
  pub claims : List Claim
