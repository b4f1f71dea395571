-- ===== src/Http/RateLimit/Table.antt =====
-- What `take` does to the table of buckets.
use beefy_envio_balances_ind.Common.{
  ℕ, ◌-◌, ◌≤◌, ◌<◌, ◌≡◌, ◌≢◌, refl, sym, ◌∙◌, inl, inr, Option, none, some, List, [], ◌∷◌, arith,
  leb, if◌then◌else◌, All, Bool-cases, Option-cases,
}
use beefy_envio_balances_ind.Common.Int.{pos}
use beefy_envio_balances_ind.Common.Dict.{
  size, lookup, delete, set, Fresh, Distinct, All-lookup, All-delete, All-set, lookup-set_self,
  lookup-set_ne, lookup-delete_ne, Fresh-of_none, Fresh-delete_self, Distinct-delete, Distinct-set,
  set_of_Fresh, size-delete, delete_of_Fresh,
}
use beefy_envio_balances_ind.Http.RateLimit.{
  Config, allowed, denied, spend, retry_after, make_room, take,
}
use beefy_envio_balances_ind.Http.RateLimit.Exact.{ExactBucket, unit, capacity, exact}
use beefy_envio_balances_ind.Http.RateLimit.Level.{
  IsSound, level, refill-level, level-le, level_self, spend-pos,
}
use beefy_envio_balances_ind.Common.{length-append}

-- what a key may spend at `time`: its bucket's level, or a full bucket where it has none
unfoldable pub available : Config → ℕ → Option ExactBucket → ℕ
available cfg time none = capacity cfg
available cfg time (some b) = level cfg b time

-- what is left of `n` after a take
abbrev pub left : ℕ → ℕ
left n = if leb unit n then n - unit else n

available-le : (cfg : Config) (t : ℕ) (o : Option ExactBucket) → available cfg t o ≤ capacity cfg
unfolding available
available-le cfg t none = omega arith
available-le cfg t (some b) = level-le cfg b t

left-le : (cfg : Config) (n : ℕ) → n ≤ capacity cfg → left n ≤ capacity cfg
left-le cfg n h = ground arith

pub IsSound-later :
    {K : Type 0} (cfg : Config) (t u : ℕ) (m : List (K × ExactBucket))
    → t ≤ u
    → All (λ e. IsSound cfg t e.1) m
    → All (λ e. IsSound cfg u e.1) m
IsSound-later cfg t u [] h s = tt
IsSound-later cfg t u (e ∷ m) h (s, ss) = (
  record { nonneg = s.nonneg; within = s.within; past = omega (arith, s.past) },
  IsSound-later cfg t u m h ss,
)

module _ {K : Type 0} (dec : Discrete K) where
  -- Every bucket of the table is sound and no key stands twice.
  pub record IsValid (cfg : Config) (now : ℕ) (m : List (K × ExactBucket)) : Type 0 where
    pub distinct : Distinct m
    pub sound : All (λ e. IsSound cfg now e.1) m

  -- the table without the key, after room was made for it
  pub rest_of : Config → K → List (K × ExactBucket) → List (K × ExactBucket)
  rest_of cfg key m = elim (lookup dec key m) [ none ↦ make_room cfg m | some _ ↦ delete dec key m ]

  spend-left :
      (cfg : Config) (n t : ℕ)
      → spend exact cfg (record { tokens = pos n; at = t }) ≡ (
        (if leb unit n then allowed else denied (retry_after exact cfg (pos n))),
        record { tokens = pos (left n); at = t },
      )
  spend-left cfg n t = rw (spend-pos cfg n t) (ground arith)

  -- A take spends one token of what the key has available, and answers by that alone.
  pub take-available :
      (cfg : Config) (key : K) (time : ℕ) (m : List (K × ExactBucket))
      → IsValid cfg time m
      → take exact dec cfg key time m ≡ (
          let n = available cfg time (lookup dec key m) in
          (
            if leb unit n then allowed else denied (retry_after exact cfg (pos n)),
            set dec key (record { tokens = pos (left n); at = time }) (rest_of cfg key m),
          ))
  unfolding take available rest_of
  take-available cfg key time m valid = elim (Option-cases (lookup dec key m)) [
    | inl new ↦ rw (new, take, available, rest_of) (rw (spend-left cfg (capacity cfg) time))
    | inr (b, known) ↦
        let s = All-lookup dec (IsSound cfg time) key b m valid.sound known in
        rw (known, take, available, rest_of)
          (rw (refill-level cfg b time s) (rw (spend-left cfg (level cfg b time) time)))
  ]

  -- With room for a new key nothing is forgotten.
  abbrev pub IsKept : Config → K → List (K × ExactBucket) → Type 0
  IsKept cfg key m = (lookup dec key m ≡ none) → size m < cfg.max_keys

  make_room-keeps :
      (cfg : Config) (m : List (K × ExactBucket)) → size m < cfg.max_keys → make_room cfg m ≡ m
  unfolding make_room
  make_room-keeps cfg [] h = refl
  make_room-keeps cfg (e ∷ m) h = ground arith

  rest_of-kept :
      (cfg : Config) (key : K) (m : List (K × ExactBucket))
      → IsKept cfg key m
      → rest_of cfg key m ≡ delete dec key m
  unfolding rest_of
  rest_of-kept cfg key m kept = elim (Option-cases (lookup dec key m)) [
    | inl new ↦
        rw (new, rest_of)
          (make_room-keeps cfg m (kept new)
            ∙ sym (delete_of_Fresh dec key m (Fresh-of_none dec key m new)))
    | inr (b, known) ↦ rw (known, rest_of)
  ]

  -- the rest of the table: still valid, without the key, and below the bound
  record IsRest (cfg : Config) (key : K) (time : ℕ) (m r : List (K × ExactBucket)) : Type 0 where
    fresh : Fresh key r
    valid : IsValid cfg time r
    bounded : 0 < cfg.max_keys → size m ≤ cfg.max_keys → size r < cfg.max_keys

  make_room-IsRest :
      (cfg : Config) (key : K) (time : ℕ) (m : List (K × ExactBucket))
      → IsValid cfg time m
      → Fresh key m
      → IsRest cfg key time m (make_room cfg m)
  unfolding make_room
  make_room-IsRest cfg key time [] valid f = record { fresh = f; valid = valid; bounded = λ p _. p }
  make_room-IsRest cfg key time ((k, b) ∷ m) valid f =
      elim (Bool-cases (leb cfg.max_keys (size ((k, b) ∷ m)))) [
        | inl over ↦ rw over (record {
          fresh = f.1;
          valid = record { distinct = valid.distinct.1; sound = valid.sound.1 };
          bounded = λ _ h. h;
        })
        | inr room ↦ rw room (record { fresh = f; valid = valid; bounded = λ _ _. ground arith })
      ]

  rest_of-IsRest :
      (cfg : Config) (key : K) (time : ℕ) (m : List (K × ExactBucket))
      → IsValid cfg time m
      → IsRest cfg key time m (rest_of cfg key m)
  unfolding rest_of
  rest_of-IsRest cfg key time m valid = elim (Option-cases (lookup dec key m)) [
    | inl new ↦
        rw (new, rest_of) (make_room-IsRest cfg key time m valid (Fresh-of_none dec key m new))
    | inr (b, known) ↦
        rw (known, rest_of)
          (record {
            fresh = Fresh-delete_self dec key m valid.distinct;
            valid = record {
              distinct = Distinct-delete dec key m valid.distinct;
              sound = All-delete dec (IsSound cfg time) key m valid.sound;
            };
            bounded = λ _ h. omega (arith, size-delete dec key b m known);
          })
  ]

  -- `take` keeps the table valid, at the time of the take.
  pub take-IsValid :
      (cfg : Config) (key : K) (time : ℕ) (m : List (K × ExactBucket))
      → IsValid cfg time m
      → IsValid cfg time (take exact dec cfg key time m).1
  take-IsValid cfg key time m valid =
      let rest = rest_of-IsRest cfg key time m valid in
      let n = available cfg time (lookup dec key m) in
      rw (take-available cfg key time m valid) (record {
        distinct = Distinct-set dec key _ (rest_of cfg key m) rest.valid.distinct;
        sound =
            All-set dec (IsSound cfg time) key _ (rest_of cfg key m)
              (record {
                nonneg = refl;
                within = left-le cfg n (available-le cfg time (lookup dec key m));
                past = omega arith;
              })
              rest.valid.sound;
      })

  -- A flood of distinct keys does not grow the table past its bound.
  pub take-size-le :
      (cfg : Config) (key : K) (time : ℕ) (m : List (K × ExactBucket))
      → IsValid cfg time m
      → 0 < cfg.max_keys
      → size m ≤ cfg.max_keys
      → size (take exact dec cfg key time m).1 ≤ cfg.max_keys
  take-size-le cfg key time m valid p h =
      let rest = rest_of-IsRest cfg key time m valid in
      rw
        (take-available cfg key time m valid, set_of_Fresh dec key _ (rest_of cfg key m) rest.fresh)
        (omega (arith, length-append (rest_of cfg key m) ((key, _) ∷ []), rest.bounded p h))

  -- The key's own bucket after a take.
  pub available-take_self :
      (cfg : Config) (key : K) (time : ℕ) (m : List (K × ExactBucket))
      → IsValid cfg time m
      → available cfg time (lookup dec key (take exact dec cfg key time m).1)
        ≡ left (available cfg time (lookup dec key m))
  unfolding available
  available-take_self cfg key time m valid =
      let n = available cfg time (lookup dec key m) in
      rw (take-available cfg key time m valid, lookup-set_self dec key _ (rest_of cfg key m))
        (level_self cfg (left n) time (left-le cfg n (available-le cfg time (lookup dec key m))))

  -- Another key's bucket, where the take forgets none.
  pub lookup-take_ne :
      (cfg : Config) (key q : K) (time : ℕ) (m : List (K × ExactBucket))
      → IsValid cfg time m
      → IsKept cfg key m
      → key ≢ q
      → lookup dec q (take exact dec cfg key time m).1 ≡ lookup dec q m
  lookup-take_ne cfg key q time m valid kept other =
      rw
        (
          take-available cfg key time m valid,
          lookup-set_ne dec key q _ (rest_of cfg key m) other,
          rest_of-kept cfg key m kept,
        )
        (lookup-delete_ne dec key q m other)
