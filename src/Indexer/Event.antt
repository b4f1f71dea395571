-- ===== src/Indexer/Event.antt =====
-- Events and hex texts: apps/indexer/src/lib/event.ts and hex.ts. An id, which the source builds as
-- a text of parts joined by "-", is the tuple of its parts here.
use beefy_envio_balances_ind.Common.{
  ℕ, zero, suc, ◌*◌, Bool, Option, none, some, [], ◌∷◌, if◌then◌else◌, Text, Text-discrete,
  to_lower, pair_discrete,
}
use mathlib.Core.Bool.{decide}
use native.Mathlib.Decide.{ℕ_discrete}

pub record RawEvent : Type 0 where
  pub chain_id : ℕ
  pub src_address : Text
  pub log_index : ℕ
  pub block_number : ℕ
  pub block_timestamp : ℕ
  pub trx_hash : Text
  pub trx_from : Option Text

-- the same text in lower case: hex texts are lower case everywhere
abbrev pub as_hex : Text → Text
as_hex = to_lower

abbrev zeros : ℕ → Text
zeros zero = []
zeros (suc n) = 48 ∷ zeros n

-- "0x" and forty zeros
unfoldable pub zero_address : Text
zero_address = 48 ∷ 120 ∷ zeros 40

unfoldable pub is_zero_address : Text → Bool
is_zero_address a = decide (Text-discrete (as_hex a) zero_address)

-- `undefined` for a missing or zero address
unfoldable pub non_zero_address : Option Text → Option Text
non_zero_address none = none
non_zero_address (some a) = if is_zero_address a then none else some (as_hex a)

-- `chainId-address`, the id of a contract and of a token
abbrev pub ContractKey : Type 0
ContractKey = ℕ × Text

unfoldable pub ContractKey-discrete : Discrete ContractKey
unfolding pair_discrete ℕ_discrete Text-discrete
ContractKey-discrete = pair_discrete ℕ_discrete Text-discrete

abbrev pub contract_id : ℕ → Text → ContractKey
contract_id chain address = (chain, as_hex address)

-- `chainId-trxHash-logIndex`
abbrev pub EventKey : Type 0
EventKey = (ℕ × Text) × ℕ

unfoldable pub EventKey-discrete : Discrete EventKey
unfolding pair_discrete ContractKey-discrete ℕ_discrete
EventKey-discrete = pair_discrete ContractKey-discrete ℕ_discrete

abbrev pub event_id : RawEvent → EventKey
event_id event = ((event.chain_id, as_hex event.trx_hash), event.log_index)

-- milliseconds, as a `Date` holds them
abbrev pub block_timestamp : RawEvent → ℕ
block_timestamp event = event.block_timestamp * 1000

pub record EventColumns : Type 0 where
  pub id : EventKey
  pub block_number : ℕ
  pub block_timestamp : ℕ
  pub trx_hash : Text
  pub trx_from : Option Text
  pub log_index : ℕ

abbrev pub event_columns : RawEvent → EventColumns
event_columns event = record {
  id = event_id event;
  block_number = event.block_number;
  block_timestamp = block_timestamp event;
  trx_hash = as_hex event.trx_hash;
  trx_from = elim event.trx_from [ none ↦ none | some f ↦ some (as_hex f) ];
  log_index = event.log_index;
}
