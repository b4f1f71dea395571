-- ===== src/Clickhouse/Ranges/Greedy.antt =====
-- Each planned range keeps the limits, and ends only where its next part would break them.
use mathlib.Core.Path.{subst}
use mathlib.Core.List.{append-nil, append_assoc}
use beefy_envio_balances_ind.Common.{
  ℕ, ◌+◌, ◌*◌, ◌-◌, ◌≤◌, ◌<◌, ◌≡◌, refl, sym, true, false, Option, none, some, List, [], ◌∷◌, ◌++◌,
  arith, leb, sum_by-append, Bool-cases, inl, inr, All, All-append,
}
use beefy_envio_balances_ind.Clickhouse.Ranges.{
  Range, Bucket, PlannedRange, PlanLimits, Atom, insert, sorted, all_atoms, atoms_of, cuts,
  plan_from, plan_ranges,
}
use beefy_envio_balances_ind.Clickhouse.Ranges.Atoms.{
  events_of, atoms_of-le, atoms_of-pos, start_in, end_in,
}

abbrev pub last_end : Atom → List Atom → ℕ
last_end a [] = a.end_ms
last_end a (b ∷ g) = last_end b g

-- A range of more than one part keeps both limits: a single part always makes a range.
abbrev pub Fits : PlanLimits → List Atom → Type 0
Fits limits [] = Unit
Fits limits (a ∷ []) = Unit
Fits limits (a ∷ b ∷ g) =
    (events_of (a ∷ b ∷ g) ≤ limits.max_events) × (last_end b g ≤ a.start_ms + limits.max_span_ms)

-- A plan of the parts from `start` on, whose ranges fit and cannot take one part more.
pub data IsPlan (limits : PlanLimits) (to : Option ℕ)
    : ℕ → List Atom → List PlannedRange → Type 0 where
  last :
      {start : ℕ} (g : List Atom)
      → Fits limits g
      → IsPlan limits to start g (record { from = start; to = to; events = events_of g } ∷ [])
  cut :
      {start : ℕ} (g : List Atom) (a : Atom) (rest : List Atom) {rs : List PlannedRange}
      → Fits limits g
      → ¬ Fits limits (g ++ a ∷ [])
      → IsPlan limits to a.start_ms (a ∷ rest) rs
      → IsPlan limits to start
          (g ++ a ∷ rest)
          (record { from = start; to = some a.start_ms; events = events_of g } ∷ rs)

last_end-snoc : (b : Atom) (g : List Atom) (a : Atom) → last_end b (g ++ a ∷ []) ≡ a.end_ms
last_end-snoc b [] a = refl
last_end-snoc b (c ∷ g) a = last_end-snoc c g a

-- the two limits, for a group that takes one part more
abbrev Joins : PlanLimits → Atom → List Atom → Atom → Type 0
Joins limits h g a =
    (events_of (h ∷ g) + a.events ≤ limits.max_events)
    × (a.end_ms ≤ h.start_ms + limits.max_span_ms)

Joins-Fits :
    (limits : PlanLimits) (h : Atom) (g : List Atom) (a : Atom)
    → Joins limits h g a
    → Fits limits (h ∷ g ++ a ∷ [])
Joins-Fits limits h [] a (p, q) = (omega arith, q)
Joins-Fits limits h (b ∷ g) a (p, q) =
    (omega (arith, sum_by-append (λ (c : Atom). c.events) g (a ∷ [])), rw (last_end-snoc b g a) q)

Fits-Joins :
    (limits : PlanLimits) (h : Atom) (g : List Atom) (a : Atom)
    → Fits limits (h ∷ g ++ a ∷ [])
    → Joins limits h g a
Fits-Joins limits h [] a (p, q) = (omega arith, q)
Fits-Joins limits h (b ∷ g) a (p, q) = (
  omega (arith, sum_by-append (λ (c : Atom). c.events) g (a ∷ [])),
  rw (last_end-snoc b g a) at q,
)

cuts-Joins :
    (limits : PlanLimits) (h : Atom) (g : List Atom) (a : Atom)
    → 0 < h.events
    → cuts limits (events_of (h ∷ g)) (some h.start_ms) a ≡ false
    → Joins limits h g a
unfolding cuts
cuts-Joins limits h g a p e = ground arith

not-Joins :
    (limits : PlanLimits) (h : Atom) (g : List Atom) (a : Atom)
    → cuts limits (events_of (h ∷ g)) (some h.start_ms) a ≡ true
    → ¬ Joins limits h g a
unfolding cuts
not-Joins limits h g a e = λ j. ground arith

module _ (limits : PlanLimits) (to : Option ℕ) where
  grow :
      (start : ℕ) (h : Atom) (g atoms : List Atom)
      → Fits limits (h ∷ g)
      → 0 < h.events
      → All (λ a. 0 < a.events) atoms
      → IsPlan limits to start
          (h ∷ g ++ atoms)
          (plan_from limits to start (events_of (h ∷ g)) (some h.start_ms) atoms)
  unfolding plan_from
  grow start h g [] fits p ps = rw (append-nil g) (last (h ∷ g) fits)
  grow start h g (a ∷ as') fits p (q, qs) =
      elim (Bool-cases (cuts limits (events_of (h ∷ g)) (some h.start_ms) a)) [
        | inl here ↦
            let n : a.events ≡ events_of (a ∷ []) = omega arith in
            rw here (
              cut (h ∷ g) a as' fits (λ f. not-Joins limits h g a here (Fits-Joins limits h g a f))
                (subst
                  (λ k.
                    IsPlan limits to a.start_ms (a ∷ as')
                      (plan_from limits to a.start_ms k (some a.start_ms) as'))
                  (sym n) (grow a.start_ms a [] as' tt q qs)))
        | inr later ↦
            let more = Joins-Fits limits h g a (cuts-Joins limits h g a p later) in
            let n : events_of (h ∷ g) + a.events ≡ events_of (h ∷ g ++ a ∷ []) =
              omega (arith, sum_by-append (λ (c : Atom). c.events) g (a ∷ [])) in
            rw (later, n, ← append_assoc g (a ∷ []) as') (grow start h (g ++ a ∷ []) as' more p qs)
      ]

  plan_from-IsPlan :
      (start : ℕ) (atoms : List Atom)
      → All (λ a. 0 < a.events) atoms
      → IsPlan limits to start atoms (plan_from limits to start 0 none atoms)
  unfolding plan_from cuts
  plan_from-IsPlan start [] ps = last [] tt
  plan_from-IsPlan start (a ∷ as') (p, ps) =
      let n : 0 + a.events ≡ events_of (a ∷ []) = omega arith in
      subst
        (λ k. IsPlan limits to start (a ∷ as') (plan_from limits to start k (some a.start_ms) as'))
        (sym n) (grow start a [] as' tt p ps)

Fits-le :
    (limits : PlanLimits) (g : List Atom)
    → Fits limits g
    → All (λ a. a.events ≤ limits.max_events) g
    → events_of g ≤ limits.max_events
Fits-le limits [] fits small = omega arith
Fits-le limits (a ∷ []) fits small = omega arith
Fits-le limits (a ∷ b ∷ g) fits small = fits.0

All-split : (P : Atom → Type 0) (g rest : List Atom) → All P (g ++ rest) → All P g × All P rest
All-split P [] rest h = (tt, h)
All-split P (a ∷ g) rest (p, h) = let (front, back) = All-split P g rest h in ((p, front), back)

-- A planned range within the limit, unless it is a single part.
IsPlan-le :
    (limits : PlanLimits) (to : Option ℕ) {start : ℕ} {atoms : List Atom} {rs : List PlannedRange}
    → All (λ a. a.events ≤ limits.max_events) atoms
    → IsPlan limits to start atoms rs
    → All (λ r. r.events ≤ limits.max_events) rs
IsPlan-le limits to small (last g fits) = (Fits-le limits g fits small, tt)
IsPlan-le limits to small (cut g a rest fits full plan) =
    let (front, back) = All-split (λ b. b.events ≤ limits.max_events) g (a ∷ rest) small in
    (Fits-le limits g fits front, IsPlan-le limits to back plan)

pub All-insert :
    (P : Bucket → Type 0) (b : Bucket) (bs : List Bucket) → P b → All P bs → All P (insert b bs)
unfolding insert
All-insert P b [] p h = (p, tt)
All-insert P b (c ∷ cs) p (q, h) = elim (Bool-cases (leb b.start_ms c.start_ms)) [
  | inl first ↦ rw first (p, (q, h))
  | inr later ↦ rw later (q, All-insert P b cs p h)
]

pub All-sorted : (P : Bucket → Type 0) (bs : List Bucket) → All P bs → All P (sorted bs)
unfolding sorted
All-sorted P [] h = tt
All-sorted P (b ∷ bs) (p, h) = All-insert P b (sorted bs) p (All-sorted P bs h)

all_atoms-pos :
    (bs : List Bucket) (from_ms : ℕ) (to_ms : Option ℕ) (limits : PlanLimits)
    → 0 < limits.max_events
    → All (λ a. 0 < a.events) (all_atoms bs from_ms to_ms limits)
unfolding all_atoms
all_atoms-pos [] f t limits p = tt
all_atoms-pos (b ∷ bs) f t limits p =
    All-append (λ a. 0 < a.events) (atoms_of b f t limits) (all_atoms bs f t limits)
      (atoms_of-pos b f t limits p) (all_atoms-pos bs f t limits p)

-- A bucket has at most the limit of events for each millisecond of it that lies in the range.
abbrev pub IsSparse : Range → PlanLimits → Bucket → Type 0
IsSparse range limits b =
    b.events ≤ limits.max_events * (end_in b range.to limits - start_in b range.from)

all_atoms-le :
    (bs : List Bucket) (range : Range) (limits : PlanLimits)
    → 0 < limits.max_events
    → All (IsSparse range limits) bs
    → All (λ a. a.events ≤ limits.max_events) (all_atoms bs range.from range.to limits)
unfolding all_atoms
all_atoms-le [] range limits p h = tt
all_atoms-le (b ∷ bs) range limits p (q, h) =
    All-append (λ a. a.events ≤ limits.max_events) (atoms_of b range.from range.to limits)
      (all_atoms bs range.from range.to limits) (atoms_of-le b range.from range.to limits p q)
      (all_atoms-le bs range limits p h)

-- With a positive limit on events, the planned ranges are a plan of the buckets' parts in the order
-- of the buckets: a range of more than one part keeps both limits, and each range but the last ends
-- at a part with which it would break one.
pub plan_ranges-IsPlan :
    (range : Range) (buckets : List Bucket) (limits : PlanLimits)
    → 0 < limits.max_events
    → IsPlan limits range.to range.from
        (all_atoms (sorted buckets) range.from range.to limits)
        (plan_ranges range buckets limits)
unfolding plan_ranges
plan_ranges-IsPlan range buckets limits p =
    plan_from-IsPlan limits range.to range.from _
      (all_atoms-pos (sorted buckets) range.from range.to limits p)

-- With a positive limit, and no bucket that has more events than the limit for each of its
-- milliseconds in the range, no planned range holds more events than the limit.
pub plan_ranges-le :
    (range : Range) (buckets : List Bucket) (limits : PlanLimits)
    → 0 < limits.max_events
    → All (IsSparse range limits) buckets
    → All (λ r. r.events ≤ limits.max_events) (plan_ranges range buckets limits)
plan_ranges-le range buckets limits p h =
    IsPlan-le limits range.to
      (all_atoms-le (sorted buckets) range limits p (All-sorted (IsSparse range limits) buckets h))
      (plan_ranges-IsPlan range buckets limits p)
