-- ===== src/Timelines/Service/Cases.antt =====
-- The table of too large accounts by its size, and the answers of the limiters by cases.
use beefy_envio_balances_ind.Common.{
  ℕ, ◌+◌, ◌≤◌, ◌≡◌, refl, Option, List, [], ◌∷◌, inl, inr, Bool-cases, leb, arith, ◌⊎◌,
}
use mathlib.Core.Logic.{if_pos, if_neg}
use beefy_envio_balances_ind.Common.Dict.{size, set, delete}
use beefy_envio_balances_ind.Http.RateLimit.{RateLimitResult, allowed, denied}
use beefy_envio_balances_ind.Http.Limiter
use beefy_envio_balances_ind.Http.Limiter.{granted, refused, queued}
use beefy_envio_balances_ind.Timelines.Service.{
  Key, Key-discrete, too_large_max_entries, without_first, remember_too_large,
}

size-set :
    (key : Key) (until : ℕ) (m : List (Key × ℕ)) → size (set Key-discrete key until m) ≤ size m + 1
unfolding set
size-set key until [] = omega arith
size-set key until ((j, v) ∷ m) = elim (Key-discrete j key) [
  | yes p ↦ rw (if_pos _ p) (omega arith)
  | no n ↦ rw (if_neg _ n) (omega (arith, size-set key until m))
]

pub size-delete : (key : Key) (m : List (Key × ℕ)) → size (delete Key-discrete key m) ≤ size m
unfolding delete
size-delete key [] = omega arith
size-delete key ((j, v) ∷ m) = elim (Key-discrete j key) [
  | yes p ↦ rw (if_pos _ p) (omega arith)
  | no n ↦ rw (if_neg _ n) (omega (arith, size-delete key m))
]

size-without_first :
    (m : List (Key × ℕ))
    → size m ≤ too_large_max_entries
    → size (without_first m) + 1 ≤ too_large_max_entries
size-without_first [] h = omega arith
size-without_first (e ∷ m) h = omega arith

pub size-remember_too_large :
    (key : Key) (until : ℕ) (m : List (Key × ℕ))
    → size m ≤ too_large_max_entries
    → size (remember_too_large key until m) ≤ too_large_max_entries
unfolding remember_too_large
size-remember_too_large key until m h = elim (Bool-cases (leb too_large_max_entries (size m))) [
  | inl e ↦
      rw (e, remember_too_large)
        (omega (arith, size-set key until (without_first m), size-without_first m h))
  | inr e ↦
      let room : size m + 1 ≤ too_large_max_entries = ground arith in
      rw (e, remember_too_large) (omega (arith, size-set key until m))
]

pub Answer-cases : (a : Limiter.Answer) → (a ≡ granted) ⊎ ((a ≡ refused) ⊎ (a ≡ queued))
Answer-cases granted = inl refl
Answer-cases refused = inr (inl refl)
Answer-cases queued = inr (inr refl)

pub RateLimitResult-cases :
    (r : RateLimitResult) → (r ≡ allowed) ⊎ ((w : Option ℕ) × (r ≡ denied w))
RateLimitResult-cases allowed = inl refl
RateLimitResult-cases (denied w) = inr (w, refl)
