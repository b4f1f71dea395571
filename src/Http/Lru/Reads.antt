-- ===== src/Http/Lru/Reads.antt =====
-- When an entry is served, and in which of its three lifetimes.
use beefy_envio_balances_ind.Common.{
  ℕ, ◌+◌, ◌-◌, ◌≤◌, ◌≡◌, ◌≢◌, sym, ◌∙◌, ap, inl, inr, Option, none, some, [], ◌∷◌, ◌++◌, arith, leb,
  ltb, if◌then◌else◌, Bool-cases, Option-cases,
}
use beefy_envio_balances_ind.Common.Dict.{
  lookup, delete, set_of_Fresh, lookup-append, lookup-head, Fresh-delete_self, lookup-snoc_ne,
  lookup-delete_ne,
}
use beefy_envio_balances_ind.Http.Lru.{
  CacheState, fresh, stale, error_only, CacheHit, Entry, Lifetimes, Lru, state_of, entry_at, get,
  set, bytes_of,
}
use beefy_envio_balances_ind.Http.Lru.Accounting.{IsValid, fit, fit-Fresh, drop-entries}
use beefy_envio_balances_ind.Http.Lru.Eviction.{set-fit}

-- The lifetime of a value that was stored `age` ago, by the three periods laid end to end.
pub lifetime_at : Lifetimes → ℕ → Option CacheState
lifetime_at life age =
    if ltb age life.fresh_ms
    then some fresh
    else if ltb age (life.fresh_ms + life.stale_ms)
    then some stale
    else if ltb age (life.fresh_ms + life.stale_ms + life.error_ms)
    then some error_only
    else none

-- The answer for a value in some lifetime, or in none.
abbrev pub answer {ℓ} : {V : Type ℓ} → V → Option CacheState → Option (CacheHit V)
answer v none = none
answer v (some s) = some (record { value = v; state = s })

entry_at-lifetime {ℓ} :
    {V : Type ℓ} (v : V) (n : ℕ) (life : Lifetimes) (time age : ℕ)
    → (let e = entry_at v n life time in
        if leb e.error_until (time + age) then none else some (state_of e (time + age)))
      ≡ lifetime_at life age
unfolding state_of lifetime_at
entry_at-lifetime v n life time age = ground arith

module _ {ℓ} {K V : Type ℓ} (dec : Discrete K) where
  get_of_lookup :
      (k : K) (time : ℕ) (c : Lru K V) (e : Entry V)
      → lookup dec k c.entries ≡ some e
      → (get dec k time c).0
        ≡ answer e.value (if leb e.error_until time then none else some (state_of e time))
  unfolding get
  get_of_lookup k time c e h =
      rw (h, get)
        (elim (Bool-cases (leb e.error_until time)) [ inl gone ↦ rw gone | inr kept ↦ rw kept ])

  -- A value that was stored is read back in the lifetime of its age.
  pub get-set :
      (max_bytes : ℕ) (k : K) (v : V) (n : ℕ) (life : Lifetimes) (time age : ℕ) (c : Lru K V)
      → IsValid max_bytes c
      → n ≤ max_bytes
      → (get dec k (time + age) (set dec max_bytes k v n life time c)).0
        ≡ answer v (lifetime_at life age)
  get-set b k v n life time age c valid h =
      let m = delete dec k c.entries in
      let e = entry_at v n life time in
      let fresh_kept =
        fit-Fresh dec k (b - n) m (Fresh-delete_self dec k c.entries valid.distinct) in
      let kept = fit dec (b - n) m in
      let after : Lru K V = record { entries = kept ++ (k, e) ∷ []; used = bytes_of kept + n } in
      let found : lookup dec k after.entries ≡ some e =
        lookup-append dec k kept ((k, e) ∷ []) fresh_kept ∙ lookup-head dec k e [] in
      rw (set-fit dec b k v n life time c valid h, get_of_lookup k (time + age) after e found)
        (ap (answer v) (entry_at-lifetime v n life time age))

  lookup-get_ne :
      (k q : K) (time : ℕ) (c : Lru K V) (max_bytes : ℕ)
      → IsValid max_bytes c
      → k ≢ q
      → lookup dec q (get dec k time c).1.entries ≡ lookup dec q c.entries
  unfolding get
  lookup-get_ne k q time c b valid other = elim (Option-cases (lookup dec k c.entries)) [
    | inl miss ↦ rw (miss, get)
    | inr (e, hit) ↦
        rw (hit, get)
          (elim (Bool-cases (leb e.error_until time)) [
            | inl gone ↦ rw (gone, drop-entries dec k c) (lookup-delete_ne dec k q c.entries other)
            | inr kept ↦
                let m = delete dec k c.entries in
                rw (kept, set_of_Fresh dec k e m (Fresh-delete_self dec k c.entries valid.distinct))
                  (lookup-snoc_ne dec k q e m other ∙ lookup-delete_ne dec k q c.entries other)
          ])
  ]

  get_cong :
      (k : K) (time : ℕ) (c d : Lru K V)
      → lookup dec k c.entries ≡ lookup dec k d.entries
      → (get dec k time c).0 ≡ (get dec k time d).0
  unfolding get
  get_cong k time c d same = elim (Option-cases (lookup dec k d.entries)) [
    | inl miss ↦ (let gone : lookup dec k c.entries ≡ none = same ∙ miss in rw (gone, miss, get))
    | inr (e, hit) ↦ get_of_lookup k time c e (same ∙ hit) ∙ sym (get_of_lookup k time d e hit)
  ]

  -- A read changes the eviction order and never the answer to a read of another key.
  pub get-get_ne :
      (max_bytes : ℕ) (k q : K) (time later : ℕ) (c : Lru K V)
      → IsValid max_bytes c
      → k ≢ q
      → (get dec q later (get dec k time c).1).0 ≡ (get dec q later c).0
  get-get_ne b k q time later c valid other =
      get_cong q later _ c (lookup-get_ne k q time c b valid other)
