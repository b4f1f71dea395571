-- ===== src/Clickhouse/Ranges/Cover.antt =====
-- The planned ranges cover the range without a gap and hold every event of it.
use beefy_envio_balances_ind.Common.{
  ℕ, ◌+◌, ◌≡◌, refl, sym, ◌∙◌, ap, Option, none, some, List, [], ◌∷◌, arith, ltb, leb,
  if◌then◌else◌, sum_by, sum_by-append, Bool-cases, inl, inr, get_or,
}
use beefy_envio_balances_ind.Clickhouse.Ranges.{
  Range, Bucket, PlannedRange, PlanLimits, Atom, insert, sorted, all_atoms, atoms_of, cuts,
  plan_from, plan_ranges,
}
use beefy_envio_balances_ind.Clickhouse.Ranges.Atoms.{
  events_of, events_of-atoms_of, start_in, end_in,
}

-- After `r` the ranges follow one another, and the last ends at `to`.
abbrev pub Follow : Option ℕ → PlannedRange → List PlannedRange → Type 0
Follow to r [] = r.to ≡ to
Follow to r (s ∷ rs) = (r.to ≡ some s.from) × Follow to s rs

-- The ranges begin at `from`, each begins where the one before it ends, and the last ends at `to`.
abbrev pub Covers : ℕ → Option ℕ → List PlannedRange → Type 0
Covers from to [] = ⊥
Covers from to (r ∷ rs) = (r.from ≡ from) × Follow to r rs

Covers-cons :
    (from mid n : ℕ) (to : Option ℕ) (rs : List PlannedRange)
    → Covers mid to rs
    → Covers from to (record { from = from; to = some mid; events = n } ∷ rs)
Covers-cons from mid n to [] h = absurd h
Covers-cons from mid n to (r ∷ rs) h = (refl, (ap some (sym h.0), h.1))

plan_from-Covers :
    (limits : PlanLimits) (to : Option ℕ) (start n : ℕ) (first : Option ℕ) (atoms : List Atom)
    → Covers start to (plan_from limits to start n first atoms)
unfolding plan_from
plan_from-Covers limits to start n first [] = (refl, refl)
plan_from-Covers limits to start n first (a ∷ as') = elim (Bool-cases (cuts limits n first a)) [
  | inl here ↦ rw here (
      Covers-cons start a.start_ms n to _
        (plan_from-Covers limits to a.start_ms a.events (some a.start_ms) as'))
  | inr later ↦ rw later (plan_from-Covers limits to start _ _ as')
]

plan_from-events :
    (limits : PlanLimits) (to : Option ℕ) (start n : ℕ) (first : Option ℕ) (atoms : List Atom)
    → sum_by (λ r. r.events) (plan_from limits to start n first atoms) ≡ n + events_of atoms
unfolding plan_from
plan_from-events limits to start n first [] = omega arith
plan_from-events limits to start n first (a ∷ as') = elim (Bool-cases (cuts limits n first a)) [
  | inl here ↦
      rw here (omega (arith, plan_from-events limits to a.start_ms a.events (some a.start_ms) as'))
  | inr later ↦ rw later (
      omega (
        arith,
        plan_from-events limits to start (n + a.events) (some (get_or first a.start_ms)) as',
      ))
]

-- Sorting changes no sum.
sum_by-insert :
    (f : Bucket → ℕ) (b : Bucket) (bs : List Bucket) → sum_by f (insert b bs) ≡ f b + sum_by f bs
unfolding insert
sum_by-insert f b [] = refl
sum_by-insert f b (c ∷ cs) = elim (Bool-cases (leb b.start_ms c.start_ms)) [
  | inl first ↦ rw first
  | inr later ↦ rw later (omega (arith, sum_by-insert f b cs))
]

sum_by-sorted : (f : Bucket → ℕ) (bs : List Bucket) → sum_by f (sorted bs) ≡ sum_by f bs
unfolding sorted
sum_by-sorted f [] = refl
sum_by-sorted f (b ∷ bs) = omega (arith, sum_by-insert f b (sorted bs), sum_by-sorted f bs)

-- the events of a bucket that overlaps the range, which are counted whole
pub counted : ℕ → Option ℕ → PlanLimits → Bucket → ℕ
counted from_ms to_ms limits b =
    if ltb (start_in b from_ms) (end_in b to_ms limits) then b.events else 0

events_of-all_atoms :
    (bs : List Bucket) (from_ms : ℕ) (to_ms : Option ℕ) (limits : PlanLimits)
    → events_of (all_atoms bs from_ms to_ms limits) ≡ sum_by (counted from_ms to_ms limits) bs
unfolding all_atoms counted
events_of-all_atoms [] f t limits = refl
events_of-all_atoms (b ∷ bs) f t limits = omega (
  arith,
  sum_by-append (λ (a : Atom). a.events) (atoms_of b f t limits) (all_atoms bs f t limits),
  events_of-atoms_of b f t limits,
  events_of-all_atoms bs f t limits,
)

-- The planned ranges begin where the range begins, follow one another without a gap or an overlap,
-- and end where the range ends.
pub plan_ranges-Covers :
    (range : Range) (buckets : List Bucket) (limits : PlanLimits)
    → Covers range.from range.to (plan_ranges range buckets limits)
unfolding plan_ranges
plan_ranges-Covers range buckets limits = plan_from-Covers limits range.to range.from 0 none _

-- Together they hold the events of every bucket that overlaps the range, in whatever order the
-- buckets are given.
pub plan_ranges-events :
    (range : Range) (buckets : List Bucket) (limits : PlanLimits)
    → sum_by (λ r. r.events) (plan_ranges range buckets limits)
      ≡ sum_by (counted range.from range.to limits) buckets
unfolding plan_ranges
plan_ranges-events range buckets limits =
    plan_from-events limits range.to range.from 0 none _
    ∙ omega (
      arith,
      events_of-all_atoms (sorted buckets) range.from range.to limits,
      sum_by-sorted (counted range.from range.to limits) buckets,
    )
