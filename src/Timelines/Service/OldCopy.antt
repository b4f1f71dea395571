-- ===== src/Timelines/Service/OldCopy.antt =====
-- An old copy beats every error.
use beefy_envio_balances_ind.Common.{
  ℕ, ◌≡◌, refl, Bool, true, false, none, some, ◌⊎◌, inl, inr, Text, Option-cases,
}
use beefy_envio_balances_ind.Common.Dict.{lookup}
use beefy_envio_balances_ind.Http.Lru
use beefy_envio_balances_ind.Http.Lru.{CacheHit, CacheState, fresh, stale, error_only}
use beefy_envio_balances_ind.Timelines.Service.{
  Key, Key-discrete, Response, Failure, Reply, answered, failed, Options, Service, or_old, Begun,
  replied, awaits, spend_budgets, miss_begun, look_up, begin, reply_of,
}

abbrev pub is_answered : Reply → Bool
is_answered (answered _ _) = true
is_answered (failed _) = false

-- the reply of a call that has begun, if its flight ends like this
abbrev pub reply_after : Begun → Response ⊎ Failure → Reply
reply_after (replied reply) result = reply
reply_after (awaits old) result = reply_of old result

or_old-answered : (old : Response) (e : Failure) → is_answered (or_old (some old) e) ≡ true
or_old-answered old e = refl

reply_of-answered :
    (old : Response) (result : Response ⊎ Failure) → is_answered (reply_of (some old) result) ≡ true
reply_of-answered old (inl r) = refl
reply_of-answered old (inr e) = refl

miss_begun-answered :
    (o : Options) (now : ℕ) (key : Key) (client : Text) (old : Response) (s : Service)
    (result : Response ⊎ Failure)
    → is_answered (reply_after (miss_begun o now key client (some old) s).0 result) ≡ true
unfolding miss_begun
miss_begun-answered o now key client old s result =
    elim (Option-cases (lookup Key-discrete key s.flights)) [
      | inr (f, e) ↦ rw (e, miss_begun) (reply_of-answered old result)
      | inl n ↦ elim (Option-cases (spend_budgets o now client s).0) [
        | inl m ↦ rw (n, m, miss_begun) (reply_of-answered old result)
        | inr (err, m) ↦ rw (n, m, miss_begun) refl
      ]
    ]

pub CacheState-cases : (c : CacheState) → (c ≡ fresh) ⊎ ((c ≡ stale) ⊎ (c ≡ error_only))
CacheState-cases fresh = inl refl
CacheState-cases stale = inr (inl refl)
CacheState-cases error_only = inr (inr refl)

look_up-answered :
    (o : Options) (now : ℕ) (key : Key) (client : Text) (s : Service) (h : CacheHit Response)
    (result : Response ⊎ Failure)
    → (Lru.get Key-discrete key now s.cache).0 ≡ some h
    → is_answered (reply_after (look_up o now key client s).0 result) ≡ true
unfolding look_up
look_up-answered o now key client s h result e =
    let read : Service = record s { cache = (Lru.get Key-discrete key now s.cache).1 } in
    elim (CacheState-cases h.state) [
      | inl f ↦ rw (e, f, look_up) refl
      | inr (inl f) ↦ rw (e, f, look_up) refl
      | inr (inr f) ↦ rw (e, f, look_up) (miss_begun-answered o now key client h.value read result)
    ]

-- A call for a key of which the cache has a copy, of any age up to its last lifetime, is answered,
-- whatever the budgets, the queue, the breaker and the database do, unless the account is remembered
-- as too large.
pub begin-answered :
    (o : Options) (now : ℕ) (key : Key) (client : Text) (s : Service) (h : CacheHit Response)
    (result : Response ⊎ Failure)
    → lookup Key-discrete key s.too_large ≡ none
    → (Lru.get Key-discrete key now s.cache).0 ≡ some h
    → is_answered (reply_after (begin o now key client s).0 result) ≡ true
unfolding begin
begin-answered o now key client s h result n e =
    rw (n, begin) (look_up-answered o now key client s h result e)
