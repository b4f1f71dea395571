-- ===== src/Http/Lru/Accounting.antt =====
-- The cache's invariant: `used` counts the stored bytes, within the bound, and no key stands twice.
use beefy_envio_balances_ind.Common.{
  ℕ, ◌+◌, ◌-◌, ◌≤◌, ◌≡◌, refl, sym, ap, inl, inr, some, List, [], ◌∷◌, ◌++◌, arith, leb,
  if◌then◌else◌, Bool-cases, Option-cases, sum_by-append,
}
use beefy_envio_balances_ind.Common.Dict.{
  Distinct, Fresh, lookup, delete, delete_of_Fresh, delete-head, lookup-head, Fresh-of_none,
  Distinct-delete,
}
use beefy_envio_balances_ind.Http.Lru.{Entry, Lru, drop, evict, bytes_of}

pub record IsValid {ℓ} {K V : Type ℓ} (max_bytes : ℕ) (c : Lru K V) : Type ℓ where
  pub distinct : Distinct c.entries
  pub counted : c.used ≡ bytes_of c.entries
  pub bounded : c.used ≤ max_bytes

module _ {ℓ} {K V : Type ℓ} (dec : Discrete K) where
  pub bytes_of-delete :
      (k : K) (e : Entry V) (m : List (K × Entry V))
      → lookup dec k m ≡ some e
      → bytes_of m ≡ bytes_of (delete dec k m) + e.bytes
  unfolding lookup delete
  bytes_of-delete k e [] h = cc
  bytes_of-delete k e ((j, f) ∷ m) h = ground (arith, bytes_of-delete k e m)

  -- What `drop` leaves: the other entries, and their bytes.
  pub drop-entries : (k : K) (c : Lru K V) → (drop dec k c).entries ≡ delete dec k c.entries
  unfolding drop
  drop-entries k c = elim (Option-cases (lookup dec k c.entries)) [
    | inl miss ↦
        rw (miss, drop) (sym (delete_of_Fresh dec k c.entries (Fresh-of_none dec k c.entries miss)))
    | inr (e, hit) ↦ rw (hit, drop)
  ]

  pub drop-used :
      (k : K) (c : Lru K V)
      → c.used ≡ bytes_of c.entries
      → (drop dec k c).used ≡ bytes_of (drop dec k c).entries
  unfolding drop
  drop-used k c counted = elim (Option-cases (lookup dec k c.entries)) [
    | inl miss ↦ rw (miss, drop) counted
    | inr (e, hit) ↦ rw (hit, drop) (omega (arith, bytes_of-delete k e c.entries hit))
  ]

  pub drop-used-le : (k : K) (c : Lru K V) → (drop dec k c).used ≤ c.used
  unfolding drop
  drop-used-le k c = elim (Option-cases (lookup dec k c.entries)) [
    | inl miss ↦ rw (miss, drop) (omega arith)
    | inr (e, hit) ↦ rw (hit, drop) (omega arith)
  ]

  -- The longest tail of the entries whose bytes fit in `room`.
  pub fit : ℕ → List (K × Entry V) → List (K × Entry V)
  fit room [] = []
  fit room (e ∷ m) = if leb (bytes_of (e ∷ m)) room then e ∷ m else fit room m

  drop-head :
      (k : K) (e : Entry V) (m : List (K × Entry V)) (u : ℕ)
      → drop dec k (record { entries = (k, e) ∷ m; used = u })
        ≡ record { entries = m; used = u - e.bytes }
  unfolding drop
  drop-head k e m u = rw (lookup-head dec k e m, drop) (rw (delete-head dec k e m))

  -- The loop of `set`, started on the keys of its own map, leaves the longest tail that fits.
  pub evict-fit :
      (max_bytes : ℕ) (m : List (K × Entry V)) (u : ℕ)
      → u ≡ bytes_of m
      → evict dec max_bytes m (record { entries = m; used = u })
        ≡ record { entries = fit max_bytes m; used = bytes_of (fit max_bytes m) }
  unfolding evict fit
  evict-fit b [] u h = rw h
  evict-fit b ((k, e) ∷ m) u h =
      rw (h, drop-head k e m (bytes_of ((k, e) ∷ m)))
        (elim (Bool-cases (leb (bytes_of ((k, e) ∷ m)) b)) [
          | inl fits ↦ rw fits
          | inr over ↦ rw over (evict-fit b m (bytes_of ((k, e) ∷ m) - e.bytes) (omega arith))
        ])

  pub fit-suffix :
      (room : ℕ) (m : List (K × Entry V))
      → (evicted : List (K × Entry V)) × (m ≡ evicted ++ fit room m)
  unfolding fit
  fit-suffix room [] = ([], refl)
  fit-suffix room (e ∷ m) = elim (Bool-cases (leb (bytes_of (e ∷ m)) room)) [
    | inl fits ↦ ([], rw fits)
    | inr over ↦ let (evicted, same) = fit-suffix room m in (e ∷ evicted, rw over (ap (◌∷◌ e) same))
  ]

  pub fit-le : (room : ℕ) (m : List (K × Entry V)) → bytes_of (fit room m) ≤ room
  unfolding fit
  fit-le room [] = omega arith
  fit-le room (e ∷ m) = ground (arith, fit-le room m)

  -- A last entry that fits by itself always stays.
  pub fit-snoc :
      (room : ℕ) (m : List (K × Entry V)) (k : K) (e : Entry V)
      → e.bytes ≤ room
      → fit room (m ++ (k, e) ∷ []) ≡ fit (room - e.bytes) m ++ (k, e) ∷ []
  unfolding fit
  fit-snoc room [] k e h = ground arith
  fit-snoc room (x ∷ m) k e h =
      ground (
        arith,
        fit-snoc room m k e h,
        sum_by-append (λ (d : K × Entry V). d.1.bytes) m ((k, e) ∷ []),
      )

  pub fit-Fresh : (k : K) (room : ℕ) (m : List (K × Entry V)) → Fresh k m → Fresh k (fit room m)
  unfolding fit
  fit-Fresh k room [] h = tt
  fit-Fresh k room (e ∷ m) h = elim (Bool-cases (leb (bytes_of (e ∷ m)) room)) [
    | inl fits ↦ rw fits h
    | inr over ↦ rw over (fit-Fresh k room m h.1)
  ]

  pub fit-Distinct : (room : ℕ) (m : List (K × Entry V)) → Distinct m → Distinct (fit room m)
  unfolding fit
  fit-Distinct room [] h = tt
  fit-Distinct room (e ∷ m) h = elim (Bool-cases (leb (bytes_of (e ∷ m)) room)) [
    | inl fits ↦ rw fits h
    | inr over ↦ rw over (fit-Distinct room m h.1)
  ]

  pub drop-IsValid :
      (max_bytes : ℕ) (k : K) (c : Lru K V) → IsValid max_bytes c → IsValid max_bytes (drop dec k c)
  drop-IsValid b k c v = record {
    distinct = rw (drop-entries k c) (Distinct-delete dec k c.entries v.distinct);
    counted = drop-used k c v.counted;
    bounded = omega (arith, drop-used-le k c, v.bounded);
  }
