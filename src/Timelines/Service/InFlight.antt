-- ===== src/Timelines/Service/InFlight.antt =====
-- A key whose build runs.
use beefy_envio_balances_ind.Common.{
  ℕ, ◌≡◌, refl, Option, none, some, Text, Option-cases, Bool-cases, inl, inr, ltb,
}
use beefy_envio_balances_ind.Common.Dict.{lookup, delete}
use beefy_envio_balances_ind.Http.Lru
use beefy_envio_balances_ind.Timelines.Service.OldCopy.{CacheState-cases}
use beefy_envio_balances_ind.Timelines.Service.{
  Key, Key-discrete, Response, Flight, Options, Service, refresh, miss_begun, look_up, begin,
}

-- the same builds, queries and budgets
abbrev pub SameWork : Service → Service → Type 0
SameWork s t =
    (t.flights ≡ s.flights)
    × (t.world ≡ s.world)
    × (t.breaker ≡ s.breaker)
    × (t.misses ≡ s.misses)
    × (t.client_misses ≡ s.client_misses)

abbrev same : (s : Service) → SameWork s s
same s = (refl, refl, refl, refl, refl)

module _ (o : Options) (now : ℕ) (key : Key) (client : Text) where
  refresh_in_flight :
      (s : Service) (f : Flight)
      → lookup Key-discrete key s.flights ≡ some f
      → refresh o now key s ≡ s
  unfolding refresh
  refresh_in_flight s f e = rw (e, refresh) refl

  miss_in_flight :
      (old : Option Response) (s : Service) (f : Flight)
      → lookup Key-discrete key s.flights ≡ some f
      → (miss_begun o now key client old s).1 ≡ s
  unfolding miss_begun
  miss_in_flight old s f e = rw (e, miss_begun) refl

  look_up_in_flight :
      (s : Service) (f : Flight)
      → lookup Key-discrete key s.flights ≡ some f
      → SameWork s (look_up o now key client s).1
  unfolding look_up
  look_up_in_flight s f e =
      let got = Lru.get Key-discrete key now s.cache in
      let read : Service = record s { cache = got.1 } in
      elim (Option-cases got.0) [
        | inl n ↦ rw (n, look_up, miss_in_flight none read f e) (same s)
        | inr (c, h) ↦ elim (CacheState-cases c.state) [
          | inl k ↦ rw (h, k, look_up) (same s)
          | inr (inl k) ↦ rw (h, k, look_up, refresh_in_flight read f e) (same s)
          | inr (inr k) ↦ rw (h, k, look_up, miss_in_flight (some c.value) read f e) (same s)
        ]
      ]

-- While the build of a key runs, a call for that key starts no second build and no query, and pays
-- from no budget, whatever the cache has of it.
pub begin-in_flight :
    (o : Options) (now : ℕ) (key : Key) (client : Text) (s : Service) (f : Flight)
    → lookup Key-discrete key s.flights ≡ some f
    → SameWork s (begin o now key client s).1
unfolding begin
begin-in_flight o now key client s f e = elim (Option-cases (lookup Key-discrete key s.too_large)) [
  | inl n ↦ rw (n, begin) (look_up_in_flight o now key client s f e)
  | inr (until, h) ↦ elim (Bool-cases (ltb now until)) [
    | inl b ↦ rw (h, b, begin) (same s)
    | inr b ↦
        rw (h, b, begin)
          (look_up_in_flight o now key client
            (record s { too_large = delete Key-discrete key s.too_large }) f e)
  ]
]
