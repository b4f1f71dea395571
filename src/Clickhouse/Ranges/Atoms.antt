-- ===== src/Clickhouse/Ranges/Atoms.antt =====
-- The parts of a bucket: together they hold its events, and none holds more than the limit.
use beefy_envio_balances_ind.Common.{
  ℕ, zero, suc, ◌+◌, ◌-◌, ◌*◌, ◌/◌, ◌≤◌, ◌<◌, ◌≡◌, min, max, false, ◌||◌, Option, List, arith, ltb,
  leb, ◌==◌, if◌then◌else◌, sum_by, All, Bool-cases, inl, inr, lt→ltb, lt→not_leb, le→leb,
  le→not_ltb, sym,
}
use beefy_envio_balances_ind.Clickhouse.Ranges.{
  Bucket, PlanLimits, Atom, clip, parts_of, atom_at, array_from, atoms_of,
}
use native.Mathlib.Decide.{dec_le, dec_lt}
use native.Mathlib.Nat.{div-add-mod, mod-lt, le-div_iff_mul-le, div-lt_iff_lt-mul}

abbrev pub events_of : List Atom → ℕ
events_of = sum_by (λ a. a.events)

pub div_mono : (a b p : ℕ) → a ≤ b → a / p ≤ b / p
div_mono a b p h = grind arith

pub div-mul_self : (n p : ℕ) → 0 < p → p * n / p ≡ n
div-mul_self n p h = grind arith

-- The events of the parts from `index` on, telescoped.
events_of-array_from :
    (start length events parts n index : ℕ)
    → events_of (array_from n index (atom_at start length events parts)) + index * events / parts
      ≡ (index + n) * events / parts
unfolding array_from atom_at
events_of-array_from start length events parts zero index =
    let same : index + 0 ≡ index = omega arith in rw same (omega arith)
events_of-array_from start length events parts (suc n) index =
    let shift : index + suc n ≡ index + 1 + n = omega arith in
    rw shift (
      omega (
        arith,
        events_of-array_from start length events parts n (index + 1),
        div_mono (index * events) ((index + 1) * events) parts (omega arith),
      ))

-- Each part holds at most the limit, where the bucket is cut as often as the limit asks.
atom_at-le :
    (start length events parts index limit : ℕ)
    → 0 < parts
    → events ≤ parts * limit
    → (atom_at start length events parts index).events ≤ limit
unfolding atom_at
atom_at-le start length events parts index limit p h =
    let x = index * events / parts in
    let below : index * events < x * parts + parts =
      omega (arith, div-add-mod (index * events) parts, mod-lt (index * events) p) in
    let next : (index + 1) * events / parts < x + limit + 1 =
      (div-lt_iff_lt-mul {x = (index + 1) * events} {y = x + limit + 1} p).1 (omega arith) in
    omega arith

pub All-array_from {ℓ κ} :
    {A : Type ℓ} (P : A → Type κ) (f : ℕ → A) (n index : ℕ)
    → ((i : ℕ) → P (f i))
    → All P (array_from n index f)
unfolding array_from
All-array_from P f zero index h = tt
All-array_from P f (suc n) index h = (h index, All-array_from P f n (index + 1) h)

-- where a bucket's time inside the range begins and ends
abbrev pub start_in : Bucket → ℕ → ℕ
start_in b from_ms = max b.start_ms from_ms

abbrev pub end_in : Bucket → Option ℕ → PlanLimits → ℕ
end_in b to_ms limits = clip (b.start_ms + limits.bucket_ms) to_ms

pub parts_of_pos :
    (events limit length : ℕ) → 0 < events → 0 < length → 0 < parts_of events limit length
unfolding parts_of
parts_of_pos events limit length p q = elim (Bool-cases (limit == 0)) [
  | inl unbounded ↦ rw unbounded q
  | inr bounded ↦
      let positive : 0 < limit = ground arith in
      let one : 1 ≤ (events + limit - 1) / limit =
        (le-div_iff_mul-le {x = 1} {y = events + limit - 1} positive).1 (omega arith) in
      rw bounded (omega arith)
]

parts_of-enough :
    (events limit length : ℕ)
    → 0 < limit
    → events ≤ limit * length
    → events ≤ parts_of events limit length * limit
unfolding parts_of
parts_of-enough events limit length p h =
    let bounded : (limit == 0) ≡ false = ground arith in
    let c = (events + limit - 1) / limit in
    let covers : events ≤ c * limit =
      omega (arith, div-add-mod (events + limit - 1) limit, mod-lt (events + limit - 1) p) in
    rw bounded (elim (dec_le c length) [
      | yes short ↦ let same : min c length ≡ c = omega arith in rw same covers
      | no long ↦ let same : min c length ≡ length = omega arith in rw same (omega arith)
    ])

events_of-all :
    (start length events parts : ℕ)
    → 0 < parts
    → events_of (array_from parts 0 (atom_at start length events parts)) ≡ events
events_of-all start length events parts p =
    let all : events_of (array_from parts 0 (atom_at start length events parts))
          + 0 * events / parts
        ≡ (0 + parts) * events / parts =
      events_of-array_from start length events parts parts 0 in
    let same : 0 + parts ≡ parts = omega arith in
    let none_before : 0 * events ≡ 0 = omega arith in
    let sums = rw (same, none_before) at all in omega (arith, sums, div-mul_self events parts p)

-- A bucket's parts hold all of its events, if any of its time lies in the range, and else none.
pub events_of-atoms_of :
    (b : Bucket) (from_ms : ℕ) (to_ms : Option ℕ) (limits : PlanLimits)
    → events_of (atoms_of b from_ms to_ms limits)
      ≡ (if ltb (start_in b from_ms) (end_in b to_ms limits) then b.events else 0)
unfolding atoms_of
events_of-atoms_of b from_ms to_ms limits =
    let start = start_in b from_ms in
    let end = end_in b to_ms limits in
    elim (dec_lt start end) [
      | yes h ↦ elim (Bool-cases (leb b.events 0)) [
        | inl empty ↦
            let zero_events : b.events ≡ 0 = ground arith in
            rw (empty, lt→ltb start end h) (sym zero_events)
        | inr full ↦
            rw (full, lt→not_leb start end h, lt→ltb start end h)
              (events_of-all start (end - start) b.events
                (parts_of b.events limits.max_events (end - start))
                (parts_of_pos b.events limits.max_events (end - start) (ground arith)
                  (omega arith)))
      ]
      | no h ↦
          rw (le→leb end start (omega arith), le→not_ltb end start (omega arith)) (ground arith)
    ]

-- No part of a bucket holds more than the limit, unless it has more events than the limit for
-- each millisecond of it that lies in the range.
pub atoms_of-le :
    (b : Bucket) (from_ms : ℕ) (to_ms : Option ℕ) (limits : PlanLimits)
    → 0 < limits.max_events
    → b.events ≤ limits.max_events * (end_in b to_ms limits - start_in b from_ms)
    → All (λ a. a.events ≤ limits.max_events) (atoms_of b from_ms to_ms limits)
unfolding atoms_of
atoms_of-le b from_ms to_ms limits p h =
    let start = start_in b from_ms in
    let end = end_in b to_ms limits in
    let parts = parts_of b.events limits.max_events (end - start) in
    elim (Bool-cases (leb b.events 0 || leb end start)) [
      | inl none_left ↦ rw none_left tt
      | inr some_left ↦
          let positive : 0 < b.events = ground arith in
          let long : start < end = ground arith in
          rw some_left (
            All-array_from (λ a. a.events ≤ limits.max_events)
              (atom_at start (end - start) b.events parts) parts 0
              (λ i.
                atom_at-le start (end - start) b.events parts i limits.max_events
                  (parts_of_pos b.events limits.max_events (end - start) positive (omega arith))
                  (parts_of-enough b.events limits.max_events (end - start) p h)))
    ]

parts_of-le : (events limit length : ℕ) → 0 < limit → parts_of events limit length ≤ events
unfolding parts_of
parts_of-le events limit length p =
    let bounded : (limit == 0) ≡ false = ground arith in
    let product : events ≤ events * limit = grind arith in
    let few : (events + limit - 1) / limit < events + 1 =
      (div-lt_iff_lt-mul {x = events + limit - 1} {y = events + 1} p).1 (omega arith) in
    rw bounded (omega arith)

-- No more parts than events leave no part empty.
atom_at-pos :
    (start length events parts index : ℕ)
    → 0 < parts
    → parts ≤ events
    → 0 < (atom_at start length events parts index).events
unfolding atom_at
atom_at-pos start length events parts index p h =
    let x = index * events / parts in
    let next : x + 1 ≤ (index + 1) * events / parts =
      (le-div_iff_mul-le {x = x + 1} {y = (index + 1) * events} p).1
        (omega (arith, div-add-mod (index * events) parts)) in
    omega arith

pub atoms_of-pos :
    (b : Bucket) (from_ms : ℕ) (to_ms : Option ℕ) (limits : PlanLimits)
    → 0 < limits.max_events
    → All (λ a. 0 < a.events) (atoms_of b from_ms to_ms limits)
unfolding atoms_of
atoms_of-pos b from_ms to_ms limits p =
    let start = start_in b from_ms in
    let end = end_in b to_ms limits in
    let parts = parts_of b.events limits.max_events (end - start) in
    elim (Bool-cases (leb b.events 0 || leb end start)) [
      | inl none_left ↦ rw none_left tt
      | inr some_left ↦
          let positive : 0 < b.events = ground arith in
          let long : start < end = ground arith in
          rw some_left (
            All-array_from (λ a. 0 < a.events) (atom_at start (end - start) b.events parts) parts 0
              (λ i.
                atom_at-pos start (end - start) b.events parts i
                  (parts_of_pos b.events limits.max_events (end - start) positive (omega arith))
                  (parts_of-le b.events limits.max_events (end - start) p)))
    ]
