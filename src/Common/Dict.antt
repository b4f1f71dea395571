-- ===== src/Common/Dict.antt =====
-- A JavaScript `Map`: keys with their values in insertion order, over a decidable equality of keys.
use Prim.Native.Nat.{ℕ, ◌+◌}
use mathlib.Core.Path.{◌≡◌, refl, sym, subst}
use mathlib.Core.Logic.{◌≢◌, ite, if_pos, if_neg}
use mathlib.Core.Option.{Option, none, some, none-ne-some}
use mathlib.Core.List.{List, [], ◌∷◌, ◌++◌}
use native.Mathlib.Omega.{arith}
use beefy_envio_balances_ind.Common.Lists.{length, All}

module _ {ℓ} {K V : Type ℓ} where
  -- no entry of the map has this key
  abbrev pub Fresh : K → List (K × V) → Type ℓ
  Fresh k [] = Unit
  Fresh k ((j, v) ∷ m) = (j ≢ k) × Fresh k m

  -- no key stands twice
  abbrev pub Distinct : List (K × V) → Type ℓ
  Distinct [] = Unit
  Distinct ((k, v) ∷ m) = Fresh k m × Distinct m

  pub Fresh-append : (k : K) (m n : List (K × V)) → Fresh k m → Fresh k n → Fresh k (m ++ n)
  Fresh-append k [] n h h' = h'
  Fresh-append k ((j, v) ∷ m) n (p, h) h' = (p, Fresh-append k m n h h')

  pub Distinct-snoc :
      (k : K) (v : V) (m : List (K × V)) → Distinct m → Fresh k m → Distinct (m ++ (k, v) ∷ [])
  Distinct-snoc k v [] d h = (tt, tt)
  Distinct-snoc k v ((j, w) ∷ m) (f, d) (p, h) =
      (Fresh-append j m ((k, v) ∷ []) f ((λ e. p (sym e)), tt), Distinct-snoc k v m d h)

  -- `map.size`
  abbrev pub size : List (K × V) → ℕ
  size = length

  -- `map.keys().next()`, with the value
  abbrev pub first? : List (K × V) → Option (K × V)
  first? [] = none
  first? (e ∷ m) = some e

module _ {ℓ} {K V : Type ℓ} (dec : Discrete K) where
  unfoldable pub lookup : K → List (K × V) → Option V
  lookup k [] = none
  lookup k ((j, v) ∷ m) = ite (dec j k) (some v) (lookup k m)

  -- `map.delete(k)`
  unfoldable pub delete : K → List (K × V) → List (K × V)
  delete k [] = []
  delete k ((j, v) ∷ m) = ite (dec j k) m ((j, v) ∷ delete k m)

  -- `map.set(k, v)`: an existing key keeps its place, a new one goes last
  unfoldable pub set : K → V → List (K × V) → List (K × V)
  set k v [] = (k, v) ∷ []
  set k v ((j, w) ∷ m) = ite (dec j k) ((j, v) ∷ m) ((j, w) ∷ set k v m)

  pub lookup_of_Fresh : (k : K) (m : List (K × V)) → Fresh k m → lookup k m ≡ none
  unfolding lookup
  lookup_of_Fresh k [] h = refl
  lookup_of_Fresh k ((j, v) ∷ m) (p, h) = ground (arith, lookup_of_Fresh k m h)

  pub Fresh-of_none : (k : K) (m : List (K × V)) → lookup k m ≡ none → Fresh k m
  unfolding lookup
  Fresh-of_none k [] h = tt
  Fresh-of_none k ((j, v) ∷ m) h = elim (dec j k) [
    | yes p ↦ absurd (ground arith)
    | no p ↦ (p, Fresh-of_none k m (ground arith))
  ]

  pub lookup-set_self : (k : K) (v : V) (m : List (K × V)) → lookup k (set k v m) ≡ some v
  unfolding lookup set
  lookup-set_self k v [] = ground arith
  lookup-set_self k v ((j, w) ∷ m) = ground (arith, lookup-set_self k v m)

  pub lookup-set_ne :
      (k q : K) (v : V) (m : List (K × V)) → k ≢ q → lookup q (set k v m) ≡ lookup q m
  unfolding lookup set
  lookup-set_ne k q v [] h = ground arith
  lookup-set_ne k q v ((j, w) ∷ m) h = ground (arith, lookup-set_ne k q v m h)

  pub lookup-delete_ne : (k q : K) (m : List (K × V)) → k ≢ q → lookup q (delete k m) ≡ lookup q m
  unfolding lookup delete
  lookup-delete_ne k q [] h = refl
  lookup-delete_ne k q ((j, v) ∷ m) h = ground (arith, lookup-delete_ne k q m h)

  pub Fresh-delete : (k q : K) (m : List (K × V)) → Fresh q m → Fresh q (delete k m)
  unfolding delete
  Fresh-delete k q [] h = tt
  Fresh-delete k q ((j, v) ∷ m) (p, h) = elim (dec j k) [
    | yes e ↦ rw (if_pos _ e) h
    | no e ↦ rw (if_neg _ e) (p, Fresh-delete k q m h)
  ]

  pub Fresh-delete_self : (k : K) (m : List (K × V)) → Distinct m → Fresh k (delete k m)
  unfolding delete
  Fresh-delete_self k [] d = tt
  Fresh-delete_self k ((j, v) ∷ m) (f, d) = elim (dec j k) [
    | yes e ↦ rw (if_pos _ e) (rw e at f)
    | no e ↦ rw (if_neg _ e) (e, Fresh-delete_self k m d)
  ]

  pub Distinct-delete : (k : K) (m : List (K × V)) → Distinct m → Distinct (delete k m)
  unfolding delete
  Distinct-delete k [] d = tt
  Distinct-delete k ((j, v) ∷ m) (f, d) = elim (dec j k) [
    | yes e ↦ rw (if_pos _ e) d
    | no e ↦ rw (if_neg _ e) (Fresh-delete k j m f, Distinct-delete k m d)
  ]

  pub Fresh-set : (k q : K) (v : V) (m : List (K × V)) → k ≢ q → Fresh q m → Fresh q (set k v m)
  unfolding set
  Fresh-set k q v [] n h = (n, tt)
  Fresh-set k q v ((j, w) ∷ m) n (p, h) = elim (dec j k) [
    | yes e ↦ rw (if_pos _ e) (p, h)
    | no e ↦ rw (if_neg _ e) (p, Fresh-set k q v m n h)
  ]

  pub Distinct-set : (k : K) (v : V) (m : List (K × V)) → Distinct m → Distinct (set k v m)
  unfolding set
  Distinct-set k v [] d = (tt, tt)
  Distinct-set k v ((j, w) ∷ m) (f, d) = elim (dec j k) [
    | yes e ↦ rw (if_pos _ e) (f, d)
    | no e ↦ rw (if_neg _ e) (Fresh-set k j v m (λ i. e (sym i)) f, Distinct-set k v m d)
  ]

  -- a new key goes last
  pub set_of_Fresh : (k : K) (v : V) (m : List (K × V)) → Fresh k m → set k v m ≡ m ++ (k, v) ∷ []
  unfolding set
  set_of_Fresh k v [] h = refl
  set_of_Fresh k v ((j, w) ∷ m) (p, h) = rw (if_neg _ p, set_of_Fresh k v m h)

  pub delete_of_Fresh : (k : K) (m : List (K × V)) → Fresh k m → delete k m ≡ m
  unfolding delete
  delete_of_Fresh k [] h = refl
  delete_of_Fresh k ((j, w) ∷ m) (p, h) = rw (if_neg _ p, delete_of_Fresh k m h)

  pub delete-head : (k : K) (v : V) (m : List (K × V)) → delete k ((k, v) ∷ m) ≡ m
  unfolding delete
  delete-head k v m = if_pos (dec k k) refl _ _

  pub lookup-head : (k : K) (v : V) (m : List (K × V)) → lookup k ((k, v) ∷ m) ≡ some v
  unfolding lookup
  lookup-head k v m = if_pos (dec k k) refl _ _

  -- past keys that are not asked for
  pub lookup-append : (k : K) (m n : List (K × V)) → Fresh k m → lookup k (m ++ n) ≡ lookup k n
  unfolding lookup
  lookup-append k [] n h = refl
  lookup-append k ((j, w) ∷ m) n (p, h) = rw (if_neg _ p) (lookup-append k m n h)

  pub lookup-snoc_ne :
      (k q : K) (v : V) (m : List (K × V)) → k ≢ q → lookup q (m ++ (k, v) ∷ []) ≡ lookup q m
  unfolding lookup
  lookup-snoc_ne k q v [] h = if_neg (dec k q) h _ _
  lookup-snoc_ne k q v ((j, w) ∷ m) h = rw (lookup-snoc_ne k q v m h)

  module _ {κ} (P : V → Type κ) where
    pub All-lookup :
        (k : K) (v : V) (m : List (K × V)) → All (λ e. P e.1) m → lookup k m ≡ some v → P v
    unfolding lookup
    All-lookup k v [] h e = absurd (none-ne-some v e)
    All-lookup k v ((j, w) ∷ m) (p, h) e = elim (dec j k) [
      | yes here ↦ let same : w ≡ v = ground arith in subst P same p
      | no there ↦ All-lookup k v m h (rw (if_neg _ there) at e)
    ]

    pub All-delete : (k : K) (m : List (K × V)) → All (λ e. P e.1) m → All (λ e. P e.1) (delete k m)
    unfolding delete
    All-delete k [] h = tt
    All-delete k ((j, w) ∷ m) (p, h) = elim (dec j k) [
      | yes here ↦ rw (if_pos _ here) h
      | no there ↦ rw (if_neg _ there) (p, All-delete k m h)
    ]

    pub All-set :
        (k : K) (v : V) (m : List (K × V)) → P v → All (λ e. P e.1) m → All (λ e. P e.1) (set k v m)
    unfolding set
    All-set k v [] q h = (q, tt)
    All-set k v ((j, w) ∷ m) q (p, h) = elim (dec j k) [
      | yes here ↦ rw (if_pos _ here) (q, h)
      | no there ↦ rw (if_neg _ there) (p, All-set k v m q h)
    ]

  pub size-delete :
      (k : K) (v : V) (m : List (K × V)) → lookup k m ≡ some v → size m ≡ size (delete k m) + 1
  unfolding lookup delete
  size-delete k v [] h = cc
  size-delete k v ((j, w) ∷ m) h = ground (arith, size-delete k v m)
