-- ===== src/Http/ClientIp/Spoofing.antt =====
-- What a client writes into its headers is believed of no one but Cloudflare.
use beefy_envio_balances_ind.Common.{
  ℕ, ◌≡◌, refl, sym, ap, ◌∙◌, true, false, not, ◌&&◌, Option, none, some, List, [], ◌∷◌, ◌++◌,
  if◌then◌else◌, ◌==◌, Bool-cases, inl, inr, Text, to_lower, arith, get_or,
}
use beefy_envio_balances_ind.Http.ClientIp.{
  split_on, last_of, trim, Cidr, in_ranges, ClientIpSource, socket, cloudflare, heroku_cloudflare,
  last_forwarded_hop, hop_of, is_socket, candidate_of, resolve_client_ip,
}

split_on-parts : (c : ℕ) (s : Text) → (p : Text) × (ps : List Text) × (split_on c s ≡ p ∷ ps)
unfolding split_on
split_on-parts c [] = ([], [], refl)
split_on-parts c (a ∷ s) =
    let (p, ps, e) = split_on-parts c s in
    elim (Bool-cases (a == c)) [
      | inl h ↦ ([], p ∷ ps, rw (e, h, split_on) refl)
      | inr h ↦ (a ∷ p, ps, rw (e, h, split_on) refl)
    ]

split_on-append :
    (c : ℕ) (s t : Text)
    → (p : Text) × (ps : List Text) × (split_on c (s ++ c ∷ t) ≡ p ∷ (ps ++ split_on c t))
unfolding split_on
split_on-append c [] t =
    let (p, ps, e) = split_on-parts c t in
    let here : (c == c) ≡ true = ground arith in ([], [], rw (e, here, split_on) refl)
split_on-append c (a ∷ s) t =
    let (p, ps, e) = split_on-append c s t in
    elim (Bool-cases (a == c)) [
      | inl h ↦ ([], p ∷ ps, rw (e, h, split_on) refl)
      | inr h ↦ (a ∷ p, ps, rw (e, h, split_on) refl)
    ]

last_of-append :
    (p : Text) (ps : List Text) (q : Text) (qs : List Text)
    → last_of (p ∷ (ps ++ q ∷ qs)) ≡ last_of (q ∷ qs)
unfolding last_of
last_of-append p [] q qs = refl
last_of-append p (r ∷ ps) q qs = last_of-append r ps q qs

-- the last entry is that of what stands behind any comma
last_of-split_on : (c : ℕ) (s t : Text) → last_of (split_on c (s ++ c ∷ t)) ≡ last_of (split_on c t)
last_of-split_on c s t =
    let (p, ps, e) = split_on-append c s t in
    let (q, qs, f) = split_on-parts c t in
    ap last_of e
    ∙ ap (λ parts. last_of (p ∷ (ps ++ parts))) f
    ∙ last_of-append p ps q qs
    ∙ ap last_of (sym f)

last_forwarded_hop-append :
    (is_ip : Text → ℕ) (earlier last : Text)
    → last_forwarded_hop is_ip (some (earlier ++ 44 ∷ last)) ≡ last_forwarded_hop is_ip (some last)
unfolding last_forwarded_hop
last_forwarded_hop-append is_ip earlier last =
    ap (λ part. if is_ip (trim part) == 0 then none else some (trim part))
      (last_of-split_on 44 earlier last)

hop_of-append :
    (is_ip : Text → ℕ) (source : ClientIpSource) (socket_ip earlier last : Text)
    → hop_of is_ip source socket_ip (some (earlier ++ 44 ∷ last))
      ≡ hop_of is_ip source socket_ip (some last)
hop_of-append is_ip heroku_cloudflare socket_ip earlier last =
    ap (λ o. get_or o socket_ip) (last_forwarded_hop-append is_ip earlier last)
hop_of-append is_ip socket socket_ip earlier last = refl
hop_of-append is_ip cloudflare socket_ip earlier last = refl

-- Behind Cloudflare or not, of `X-Forwarded-For` only what stands behind its last comma is read,
-- whatever a client wrote before it; and where the server does not stand behind Cloudflare, or the hop
-- that reached it is outside the ranges of Cloudflare, that hop is the client, whatever a client wrote
-- into `CF-Connecting-IP`.
pub resolve_client_ip-spoofed :
    (is_ip : Text → ℕ) (source : ClientIpSource) (socket_ip earlier last : Text)
    (connecting_ip claimed : Option Text) (ranges believed : List Cidr)
    → (not (is_socket source) && in_ranges is_ip (hop_of is_ip source socket_ip (some last)) ranges)
      ≡ false
    → (resolve_client_ip is_ip source socket_ip (some (earlier ++ 44 ∷ last)) connecting_ip believed
        ≡ resolve_client_ip is_ip source socket_ip (some last) connecting_ip believed)
      × (resolve_client_ip is_ip source socket_ip (some (earlier ++ 44 ∷ last)) claimed ranges
          ≡ to_lower (hop_of is_ip source socket_ip (some last)))
unfolding resolve_client_ip
resolve_client_ip-spoofed is_ip source socket_ip earlier last connecting_ip claimed ranges believed
      h =
    let answer = λ (c : Option Text) (rs : List Cidr) (hop : Text).
      if not (is_socket source) && in_ranges is_ip hop rs
      then get_or (candidate_of is_ip c) (to_lower hop)
      else to_lower hop in
    let hop = hop_of is_ip source socket_ip (some last) in
    let same = hop_of-append is_ip source socket_ip earlier last in
    (
      ap (answer connecting_ip believed) same,
      ap (answer claimed ranges) same
          ∙ ap (λ b. if b then get_or (candidate_of is_ip claimed) (to_lower hop) else to_lower hop)
              h,
    )
