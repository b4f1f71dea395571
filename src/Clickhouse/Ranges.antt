-- ===== src/Clickhouse/Ranges.antt =====
-- The planner of reprice statements, packages/clickhouse/src/ranges.ts (`planRanges`). Times are
-- milliseconds; their texts (`msOf`, `timeOf`, `utcTime`) are left out. `none` stands for a range
-- with no end, where the source computes with `Infinity`.
pub mod Atoms
pub mod Cover
pub mod Greedy
pub mod Order
mod Tests
use beefy_envio_balances_ind.Common.{
  ℕ, zero, suc, ◌+◌, ◌-◌, ◌*◌, ◌/◌, min, max, Bool, true, false, ◌||◌, ◌&&◌, Option, none, some,
  List, [], ◌∷◌, ◌++◌, ltb, leb, ◌==◌, if◌then◌else◌, get_or,
}

pub record Range : Type 0 where
  pub from : ℕ
  pub to : Option ℕ

pub record Bucket : Type 0 where
  pub start_ms : ℕ
  pub events : ℕ

pub record PlannedRange : Type 0 where
  pub from : ℕ
  pub to : Option ℕ
  pub events : ℕ

pub record PlanLimits : Type 0 where
  pub max_events : ℕ
  pub max_span_ms : ℕ
  pub bucket_ms : ℕ

pub record Atom : Type 0 where
  pub start_ms : ℕ
  pub end_ms : ℕ
  pub events : ℕ

-- `Math.min(n, toMs)`
abbrev pub clip : ℕ → Option ℕ → ℕ
clip n none = n
clip n (some to) = min n to

-- `Math.min(Math.ceil(events / maxEvents), length)`; a division by 0 is `Infinity`
pub parts_of : ℕ → ℕ → ℕ → ℕ
parts_of events max_events length =
    if max_events == 0 then length else min ((events + max_events - 1) / max_events) length

-- the part `index` of a stretch of `length` from `start` with `events`, cut in `parts`
pub atom_at : (start length events parts index : ℕ) → Atom
atom_at start length events parts index = record {
  start_ms = start + index * length / parts;
  end_ms = start + (index + 1) * length / parts;
  events = (index + 1) * events / parts - index * events / parts;
}

-- `Array.from({ length: n }, (_, index) => f(index))`, from `index` on
pub array_from {ℓ} : {A : Type ℓ} → ℕ → ℕ → (ℕ → A) → List A
array_from zero index f = []
array_from (suc n) index f = f index ∷ array_from n (index + 1) f

pub atoms_of : Bucket → ℕ → Option ℕ → PlanLimits → List Atom
atoms_of bucket from_ms to_ms limits =
    let start = max bucket.start_ms from_ms in
    let end = clip (bucket.start_ms + limits.bucket_ms) to_ms in
    let parts = parts_of bucket.events limits.max_events (end - start) in
    if leb bucket.events 0 || leb end start
    then []
    else array_from parts 0 (atom_at start (end - start) bucket.events parts)

-- `sort((a, b) => a.startMs - b.startMs)`: a stable sort
pub insert : Bucket → List Bucket → List Bucket
insert b [] = b ∷ []
insert b (c ∷ cs) = if leb b.start_ms c.start_ms then b ∷ c ∷ cs else c ∷ insert b cs

pub sorted : List Bucket → List Bucket
sorted [] = []
sorted (b ∷ bs) = insert b (sorted bs)

-- `flatMap`
pub all_atoms : List Bucket → ℕ → Option ℕ → PlanLimits → List Atom
all_atoms [] from_ms to_ms limits = []
all_atoms (b ∷ bs) from_ms to_ms limits =
    atoms_of b from_ms to_ms limits ++ all_atoms bs from_ms to_ms limits

-- the span from the range's first atom to the end of this one is too long
abbrev pub too_long : Option ℕ → Atom → PlanLimits → Bool
too_long none a limits = false
too_long (some first) a limits = ltb (first + limits.max_span_ms) a.end_ms

-- the test of the loop: the atom begins a new range
pub cuts : PlanLimits → ℕ → Option ℕ → Atom → Bool
cuts limits events first a =
    ltb 0 events && (ltb limits.max_events (events + a.events) || too_long first a limits)

-- the loop of `planRanges`, over its variables `start`, `events` and `firstMs`
pub plan_from : PlanLimits → Option ℕ → ℕ → ℕ → Option ℕ → List Atom → List PlannedRange
plan_from limits to start events first [] = record { from = start; to = to; events = events } ∷ []
plan_from limits to start events first (a ∷ as') =
    let cut = plan_from limits to a.start_ms a.events (some a.start_ms) as' in
    let joined =
      plan_from limits to start (events + a.events) (some (get_or first a.start_ms)) as' in
    if cuts limits events first a
    then record { from = start; to = some a.start_ms; events = events } ∷ cut
    else joined

pub plan_ranges : Range → List Bucket → PlanLimits → List PlannedRange
plan_ranges range buckets limits =
    plan_from limits range.to range.from 0 none
      (all_atoms (sorted buckets) range.from range.to limits)
