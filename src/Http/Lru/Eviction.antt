-- ===== src/Http/Lru/Eviction.antt =====
-- What `set` stores and what it evicts, and that `get` and `set` keep the invariant.
use native.Mathlib.Decide.{dec_le}
use beefy_envio_balances_ind.Common.{
  le→not_ltb, ℕ, ◌+◌, ◌-◌, ◌≤◌, ◌<◌, ◌≡◌, ap, inl, inr, [], ◌∷◌, ◌++◌, arith, leb, Bool-cases,
  Option-cases, sum_by-append, lt→ltb,
}
use beefy_envio_balances_ind.Common.Dict.{
  lookup, delete, set_of_Fresh, Distinct-snoc, Fresh-delete_self, Distinct-delete,
}
use beefy_envio_balances_ind.Http.Lru.{Entry, Lifetimes, Lru, entry_at, drop, get, set, bytes_of}
use beefy_envio_balances_ind.Http.Lru.Accounting.{
  IsValid, fit, fit-snoc, fit-le, fit-Fresh, fit-Distinct, evict-fit, drop-entries, drop-used,
  drop-IsValid, bytes_of-delete,
}

module _ {ℓ} {K V : Type ℓ} (dec : Discrete K) where
  -- A value larger than the whole cache is not stored; the key's old entry goes all the same.
  pub set_oversize :
      (max_bytes : ℕ) (k : K) (v : V) (n : ℕ) (life : Lifetimes) (time : ℕ) (c : Lru K V)
      → max_bytes < n
      → set dec max_bytes k v n life time c ≡ drop dec k c
  unfolding set
  set_oversize b k v n life time c h = rw (lt→ltb b n h)

  -- `set` of a value that fits, as a whole: the longest tail of the other entries that leaves room
  -- for it, then the new entry, last; `used` is their total size.
  pub set-fit :
      (max_bytes : ℕ) (k : K) (v : V) (n : ℕ) (life : Lifetimes) (time : ℕ) (c : Lru K V)
      → IsValid max_bytes c
      → n ≤ max_bytes
      → set dec max_bytes k v n life time c ≡ (
          let kept = fit dec (max_bytes - n) (delete dec k c.entries) in
          record { entries = kept ++ (k, entry_at v n life time) ∷ []; used = bytes_of kept + n })
  unfolding set
  set-fit b k v n life time c valid h =
      let m = delete dec k c.entries in
      let e = entry_at v n life time in
      let fresh = Fresh-delete_self dec k c.entries valid.distinct in
      let counted = drop-used dec k c valid.counted in
      let total = sum_by-append (λ (d : K × Entry V). d.1.bytes) in
      rw
        (
          le→not_ltb n b h,
          drop-entries dec k c,
          set_of_Fresh dec k e m fresh,
          evict-fit dec b (m ++ (k, e) ∷ []) ((drop dec k c).used + n)
              (omega (arith, rw (drop-entries dec k c) at counted, total m ((k, e) ∷ []))),
          fit-snoc dec b m k e h,
          total (fit dec (b - n) m) ((k, e) ∷ []),
        )
        (ap (λ u. record { entries = fit dec (b - n) m ++ (k, e) ∷ []; used = u }) (omega arith))

  -- `set` keeps the invariant, whether or not it stores the value.
  pub set-IsValid :
      (max_bytes : ℕ) (k : K) (v : V) (n : ℕ) (life : Lifetimes) (time : ℕ) (c : Lru K V)
      → IsValid max_bytes c
      → IsValid max_bytes (set dec max_bytes k v n life time c)
  set-IsValid b k v n life time c valid = elim (dec_le n b) [
    | yes h ↦
        let m = delete dec k c.entries in
        let kept = fit dec (b - n) m in
        let e = entry_at v n life time in
        rw (set-fit b k v n life time c valid h) (record {
          distinct =
              Distinct-snoc k e kept
                (fit-Distinct dec (b - n) m (Distinct-delete dec k c.entries valid.distinct))
                (fit-Fresh dec k (b - n) m (Fresh-delete_self dec k c.entries valid.distinct));
          counted =
              omega (arith, sum_by-append (λ (d : K × Entry V). d.1.bytes) kept ((k, e) ∷ []));
          bounded = omega (arith, fit-le dec (b - n) m);
        })
    | no h ↦ rw (set_oversize b k v n life time c (omega arith)) (drop-IsValid dec b k c valid)
  ]

  -- `get` keeps the invariant.
  pub get-IsValid :
      (max_bytes : ℕ) (k : K) (time : ℕ) (c : Lru K V)
      → IsValid max_bytes c
      → IsValid max_bytes (get dec k time c).1
  unfolding get
  get-IsValid b k time c valid = elim (Option-cases (lookup dec k c.entries)) [
    | inl miss ↦ rw (miss, get) valid
    | inr (e, hit) ↦
        rw (hit, get)
          (elim (Bool-cases (leb e.error_until time)) [
            | inl gone ↦ rw gone (drop-IsValid dec b k c valid)
            | inr kept ↦
                let m = delete dec k c.entries in
                let fresh = Fresh-delete_self dec k c.entries valid.distinct in
                rw (kept, set_of_Fresh dec k e m fresh)
                  (record {
                    distinct =
                        Distinct-snoc k e m (Distinct-delete dec k c.entries valid.distinct) fresh;
                    counted = omega (
                      arith,
                      valid.counted,
                      bytes_of-delete dec k e c.entries hit,
                      sum_by-append (λ (d : K × Entry V). d.1.bytes) m ((k, e) ∷ []),
                    );
                    bounded = valid.bounded;
                  })
          ])
  ]
