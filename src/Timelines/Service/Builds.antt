-- ===== src/Timelines/Service/Builds.antt =====
-- The builds in the table that a query runs or waits for.
use mathlib.Core.Option.{none-ne-some, some-injective}
use mathlib.Core.Logic.{if_pos, if_neg}
use beefy_envio_balances_ind.Common.{
  ℕ, ◌+◌, ◌≡◌, ◌≢◌, refl, ap, none, some, List, [], ◌∷◌, arith, sum_by, sum_by-append, Option-cases,
  inl, inr,
}
use beefy_envio_balances_ind.Common.Dict.{lookup, set, delete, Fresh-of_none, set_of_Fresh}
use beefy_envio_balances_ind.Timelines.Service.{Key, Key-discrete, Flight}

-- a build that was refused has no query
abbrev pub queries_of : Flight → ℕ
queries_of f = elim f.refusal [ none ↦ 1 | some _ ↦ 0 ]

abbrev pub builds : List (Key × Flight) → ℕ
builds m = sum_by (λ e. queries_of e.1) m

pub builds-set :
    (key : Key) (f : Flight) (m : List (Key × Flight))
    → lookup Key-discrete key m ≡ none
    → builds (set Key-discrete key f m) ≡ builds m + queries_of f
builds-set key f m n =
    rw (set_of_Fresh Key-discrete key f m (Fresh-of_none Key-discrete key m n))
      (omega (arith, sum_by-append (λ (e : Key × Flight). queries_of e.1) m ((key, f) ∷ [])))

pub builds-delete :
    (key : Key) (f : Flight) (m : List (Key × Flight))
    → lookup Key-discrete key m ≡ some f
    → builds m ≡ queries_of f + builds (delete Key-discrete key m)
unfolding lookup delete
builds-delete key f [] e = elim (none-ne-some f e) [ ]
builds-delete key f ((j, g) ∷ m) e = elim (Key-discrete j key) [
  | yes p ↦
      let same : g ≡ f = some-injective g f (rw (if_pos _ p) at e) in
      rw (if_pos _ p) (ap (λ (x : Flight). queries_of x + builds m) same)
  | no n ↦
      let later : lookup Key-discrete key m ≡ some f = rw (if_neg _ n) at e in
      rw (if_neg _ n) (omega (arith, builds-delete key f m later))
]

pub refused_none : (f : Flight) → f.refusal ≢ none → queries_of f ≡ 0
refused_none f r = elim (Option-cases f.refusal) [ inl n ↦ elim (r n) [ ] | inr (x, e) ↦ rw e refl ]

pub runs_one : (f : Flight) → f.refusal ≡ none → queries_of f ≡ 1
runs_one f n = rw n refl
