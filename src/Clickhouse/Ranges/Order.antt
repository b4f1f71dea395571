-- ===== src/Clickhouse/Ranges/Order.antt =====
-- The planned ranges lie one behind the other.
use mathlib.Core.Path.{subst}
use beefy_envio_balances_ind.Common.{
  ℕ, zero, suc, ◌+◌, ◌-◌, ◌*◌, ◌/◌, ◌≤◌, ◌<◌, ◌≡◌, ◌⊎◌, inl, inr, true, ◌||◌, Option, none, some,
  List, [], ◌∷◌, ◌++◌, arith, leb, All, Bool-cases, get_or,
}
use beefy_envio_balances_ind.Clickhouse.Ranges.{
  Range, Bucket, PlannedRange, PlanLimits, Atom, insert, sorted, parts_of, atom_at, array_from,
  atoms_of, all_atoms, cuts, plan_from, plan_ranges,
}
use beefy_envio_balances_ind.Clickhouse.Ranges.Atoms.{
  start_in, end_in, div_mono, div-mul_self, parts_of_pos,
}
use beefy_envio_balances_ind.Clickhouse.Ranges.Greedy.{All-insert, All-sorted}
use beefy_envio_balances_ind.Clickhouse.Ranges.Cover.{Covers, plan_ranges-Covers}

-- `n` is not behind the end, if there is one.
abbrev pub Until : Option ℕ → ℕ → Type 0
Until none n = Unit
Until (some to) n = n ≤ to

-- The parts begin one behind the other, from `lo` on and not behind the end.
abbrev Rising : ℕ → Option ℕ → List Atom → Type 0
Rising lo to [] = Until to lo
Rising lo to (a ∷ as') = (lo ≤ a.start_ms) × Rising a.start_ms to as'

Until-le : (to : Option ℕ) (lo n : ℕ) → lo ≤ n → Until to n → Until to lo
Until-le none lo n h u = tt
Until-le (some t) lo n h u = omega arith

Rising-le :
    (lo n : ℕ) (to : Option ℕ) (as' : List Atom) → lo ≤ n → Rising n to as' → Rising lo to as'
Rising-le lo n to [] h r = Until-le to lo n h r
Rising-le lo n to (a ∷ as') h (p, r) = (omega arith, r)

Rising-append :
    (lo mid : ℕ) (to : Option ℕ) (as' bs : List Atom)
    → Rising lo (some mid) as'
    → Rising mid to bs
    → Rising lo to (as' ++ bs)
Rising-append lo mid to [] bs h k = Rising-le lo mid to bs h k
Rising-append lo mid to (a ∷ as') bs (p, h) k = (p, Rising-append a.start_ms mid to as' bs h k)

-- the parts of one stretch
Rising-array_from :
    (lo start length events parts n index : ℕ)
    → 0 < parts
    → index + n ≤ parts
    → lo ≤ start + index * length / parts
    → Rising lo (some (start + length)) (array_from n index (atom_at start length events parts))
unfolding array_from atom_at
Rising-array_from lo start length events parts zero index p h k =
    let product : index * length ≤ parts * length = grind arith in
    omega
      (arith, div_mono (index * length) (parts * length) parts product, div-mul_self length parts p)
Rising-array_from lo start length events parts (suc n) index p h k =
    let product : index * length ≤ (index + 1) * length = grind arith in
    (
      k,
      Rising-array_from (start + index * length / parts) start length events parts n (index + 1) p
          (omega arith)
          (omega (arith, div_mono (index * length) ((index + 1) * length) parts product)),
    )

atoms_of-Rising :
    (b : Bucket) (from_ms : ℕ) (to_ms : Option ℕ) (limits : PlanLimits)
    → start_in b from_ms < end_in b to_ms limits
    → Rising (start_in b from_ms) (some (end_in b to_ms limits)) (atoms_of b from_ms to_ms limits)
unfolding atoms_of
atoms_of-Rising b from_ms to_ms limits h =
    let start = start_in b from_ms in
    let end = end_in b to_ms limits in
    elim (Bool-cases (leb b.events 0 || leb end start)) [
      | inl none_left ↦ rw none_left (omega arith)
      | inr some_left ↦
          let length = end - start in
          let parts = parts_of b.events limits.max_events length in
          let p : 0 < parts =
            parts_of_pos b.events limits.max_events length (ground arith) (omega arith) in
          let whole : start + length ≡ end = omega arith in
          rw some_left (
            subst
              (λ e.
                Rising start (some e) (array_from parts 0 (atom_at start length b.events parts)))
              whole
              (Rising-array_from start start length b.events parts parts 0 p (omega arith)
                (omega arith)))
    ]

-- Two buckets do not overlap.
abbrev pub Apart : PlanLimits → Bucket → Bucket → Type 0
Apart limits b c =
    (b.start_ms + limits.bucket_ms ≤ c.start_ms) ⊎ (c.start_ms + limits.bucket_ms ≤ b.start_ms)

abbrev pub AllApart : PlanLimits → List Bucket → Type 0
AllApart limits [] = Unit
AllApart limits (b ∷ bs) = All (Apart limits b) bs × AllApart limits bs

-- Each bucket ends before the later ones begin.
abbrev InOrder : PlanLimits → List Bucket → Type 0
InOrder limits [] = Unit
InOrder limits (b ∷ bs) =
    All (λ c. b.start_ms + limits.bucket_ms ≤ c.start_ms) bs × InOrder limits bs

still_behind :
    (limits : PlanLimits) (b c : Bucket) (cs : List Bucket)
    → b.start_ms ≤ c.start_ms
    → All (λ d. c.start_ms + limits.bucket_ms ≤ d.start_ms) cs
    → All (λ d. b.start_ms + limits.bucket_ms ≤ d.start_ms) cs
still_behind limits b c [] h k = tt
still_behind limits b c (d ∷ cs) h (p, k) = (omega arith, still_behind limits b c cs h k)

insert-InOrder :
    (limits : PlanLimits) (b : Bucket) (cs : List Bucket)
    → All (Apart limits b) cs
    → InOrder limits cs
    → InOrder limits (insert b cs)
unfolding insert
insert-InOrder limits b [] h k = (tt, tt)
insert-InOrder limits b (c ∷ cs) (a, h) (p, k) = elim (Bool-cases (leb b.start_ms c.start_ms)) [
  | inl first ↦
      let le : b.start_ms ≤ c.start_ms = ground arith in
      rw first
        ((elim a [ inl x ↦ x | inr x ↦ omega arith ], still_behind limits b c cs le p), (p, k))
  | inr later ↦
      let lt : c.start_ms < b.start_ms = ground arith in
      let behind : c.start_ms + limits.bucket_ms ≤ b.start_ms = elim a [
        | inl x ↦ omega arith
        | inr x ↦ x
      ] in
      rw later (
        All-insert (λ d. c.start_ms + limits.bucket_ms ≤ d.start_ms) b cs behind p,
        insert-InOrder limits b cs h k,
      )
]

sorted-InOrder :
    (limits : PlanLimits) (bs : List Bucket) → AllApart limits bs → InOrder limits (sorted bs)
unfolding sorted
sorted-InOrder limits [] h = tt
sorted-InOrder limits (b ∷ bs) (a, h) =
    insert-InOrder limits b (sorted bs) (All-sorted (Apart limits b) bs a)
      (sorted-InOrder limits bs h)

start_in_behind :
    (from_ms to_ms : _) (limits : PlanLimits) (b : Bucket) (bs : List Bucket)
    → All (λ c. b.start_ms + limits.bucket_ms ≤ c.start_ms) bs
    → All (λ c. end_in b to_ms limits ≤ start_in c from_ms) bs
start_in_behind f none limits b [] h = tt
start_in_behind f (some t) limits b [] h = tt
start_in_behind f none limits b (c ∷ cs) (p, h) =
    (omega arith, start_in_behind f none limits b cs h)
start_in_behind f (some t) limits b (c ∷ cs) (p, h) =
    (omega arith, start_in_behind f (some t) limits b cs h)

end_in-Until :
    (b : Bucket) (to_ms : Option ℕ) (limits : PlanLimits) → Until to_ms (end_in b to_ms limits)
end_in-Until b none limits = tt
end_in-Until b (some t) limits = omega arith

all_atoms-Rising :
    (bs : List Bucket) (from_ms : ℕ) (to_ms : Option ℕ) (limits : PlanLimits) (lo : ℕ)
    → InOrder limits bs
    → All (λ c. lo ≤ start_in c from_ms) bs
    → Until to_ms lo
    → Rising lo to_ms (all_atoms bs from_ms to_ms limits)
unfolding all_atoms atoms_of
all_atoms-Rising [] f t limits lo order h u = u
all_atoms-Rising (b ∷ bs) f t limits lo (p, order) (q, h) u =
    elim (Bool-cases (leb (end_in b t limits) (start_in b f))) [
      | inl outside ↦
          let empty : (leb b.events 0 || leb (end_in b t limits) (start_in b f)) ≡ true =
            ground arith in
          rw empty (all_atoms-Rising bs f t limits lo order h u)
      | inr inside ↦
          let lt : start_in b f < end_in b t limits = ground arith in
          Rising-le lo (start_in b f) t _ q (
            Rising-append (start_in b f) (end_in b t limits) t (atoms_of b f t limits)
              (all_atoms bs f t limits) (atoms_of-Rising b f t limits lt)
              (all_atoms-Rising bs f t limits (end_in b t limits) order
                (start_in_behind f t limits b bs p) (end_in-Until b t limits)))
    ]

-- A planned range does not end before it begins.
abbrev pub Forward : PlannedRange → Type 0
Forward r = Until r.to r.from

plan_from-Forward :
    (limits : PlanLimits) (to : Option ℕ) (start n : ℕ) (first : Option ℕ) (atoms : List Atom)
    → Rising start to atoms
    → All Forward (plan_from limits to start n first atoms)
unfolding plan_from
plan_from-Forward limits to start n first [] h = (h, tt)
plan_from-Forward limits to start n first (a ∷ as') (p, h) =
    elim (Bool-cases (cuts limits n first a)) [
      | inl here ↦
          rw here (p, plan_from-Forward limits to a.start_ms a.events (some a.start_ms) as' h)
      | inr later ↦ rw later (
          plan_from-Forward limits to start (n + a.events) (some (get_or first a.start_ms)) as'
            (Rising-le start a.start_ms to as' p h))
    ]

none_before : (bs : List Bucket) (from_ms : ℕ) → All (λ c. from_ms ≤ start_in c from_ms) bs
none_before [] f = tt
none_before (b ∷ bs) f = (omega arith, none_before bs f)

-- The planned ranges of a range that does not end before it begins, for buckets that do not overlap,
-- in whatever order they are given: the first begins where the range begins, each begins where the one
-- before it ends, the last ends where the range ends, and none ends before it begins. So there is
-- neither a gap nor an overlap.
pub plan_ranges-Forward :
    (range : Range) (buckets : List Bucket) (limits : PlanLimits)
    → Until range.to range.from
    → AllApart limits buckets
    → Covers range.from range.to (plan_ranges range buckets limits)
      × All Forward (plan_ranges range buckets limits)
unfolding plan_ranges
plan_ranges-Forward range buckets limits proper apart = (
  plan_ranges-Covers range buckets limits,
  plan_from-Forward limits range.to range.from 0 none _ (
      all_atoms-Rising (sorted buckets) range.from range.to limits range.from
        (sorted-InOrder limits buckets apart) (none_before (sorted buckets) range.from) proper),
)
