-- ===== src/Http/Lru.antt =====
-- The byte-bounded cache of apps/api/src/http/lru.ts (`createByteLru`). The closure's two variables
-- are a record; `now()` is an argument, a time in any unit. Keys have a decidable equality.
pub mod Accounting
pub mod Eviction
pub mod Reads
mod Tests
use beefy_envio_balances_ind.Common.{
  ℕ, ◌+◌, ◌-◌, Bool, Option, none, some, List, [], ◌∷◌, ltb, leb, if◌then◌else◌, sum_by,
}
use beefy_envio_balances_ind.Common.Dict.{size, lookup, delete, set as map_set}

pub data CacheState : Type 0 where
  fresh stale error_only : CacheState

pub record CacheHit {ℓ} (V : Type ℓ) : Type ℓ where
  pub value : V
  pub state : CacheState

pub record Entry {ℓ} (V : Type ℓ) : Type ℓ where
  pub value : V
  pub bytes : ℕ
  pub fresh_until : ℕ
  pub stale_until : ℕ
  pub error_until : ℕ

pub record Lifetimes : Type 0 where
  pub fresh_ms : ℕ
  pub stale_ms : ℕ
  pub error_ms : ℕ

pub record Lru {ℓ} (K V : Type ℓ) : Type ℓ where
  pub entries : List (K × Entry V)
  pub used : ℕ

abbrev pub empty {ℓ} : {K V : Type ℓ} → Lru K V
empty = record { entries = []; used = 0 }

-- which of its lifetimes an entry is in, before `errorUntil`
unfoldable pub state_of {ℓ} : {V : Type ℓ} → Entry V → ℕ → CacheState
state_of e time =
    if ltb time e.fresh_until then fresh else if ltb time e.stale_until then stale else error_only

-- the entry that `set` stores at `time`
abbrev pub entry_at {ℓ} : {V : Type ℓ} → V → ℕ → Lifetimes → ℕ → Entry V
entry_at value bytes life time = record {
  value = value;
  bytes = bytes;
  fresh_until = time + life.fresh_ms;
  stale_until = time + life.fresh_ms + life.stale_ms;
  error_until = time + life.fresh_ms + life.stale_ms + life.error_ms;
}

module _ {ℓ} {K V : Type ℓ} (dec : Discrete K) where
  -- The subtraction cannot go below 0 on a valid cache, where `used` is the sum of the bytes.
  unfoldable pub drop : K → Lru K V → Lru K V
  drop key c = elim (lookup dec key c.entries) [
    | none ↦ c
    | some e ↦ record { entries = delete dec key c.entries; used = c.used - e.bytes }
  ]

  unfoldable pub get : K → ℕ → Lru K V → Option (CacheHit V) × Lru K V
  get key time c = elim (lookup dec key c.entries) [
    | none ↦ (none, c)
    | some e ↦ if leb e.error_until time then (none, drop key c) else (
      some (record { value = e.value; state = state_of e time }),
      record c { entries = map_set dec key e (delete dec key c.entries) },
    )
  ]

  -- the loop of `set` over the keys, oldest first
  unfoldable pub evict : ℕ → List (K × Entry V) → Lru K V → Lru K V
  evict max_bytes [] c = c
  evict max_bytes ((oldest, _) ∷ rest) c =
      if leb c.used max_bytes then c else evict max_bytes rest (drop oldest c)

  unfoldable pub set : ℕ → K → V → ℕ → Lifetimes → ℕ → Lru K V → Lru K V
  set max_bytes key value bytes life time c =
      let dropped = drop key c in
      if ltb max_bytes bytes
      then dropped
      else let entries = map_set dec key (entry_at value bytes life time) dropped.entries in
        evict max_bytes entries (record { entries = entries; used = dropped.used + bytes })

  abbrev pub bytes : Lru K V → ℕ
  bytes c = c.used

-- the total size of some entries
abbrev pub bytes_of {ℓ} : {K V : Type ℓ} → List (K × Entry V) → ℕ
bytes_of = sum_by (λ e. e.1.bytes)
