-- ===== src/Worker/Status/Quiet.antt =====
-- What the stall lines of a report say of one chain of one version, and what the others leave of it.
use mathlib.Core.Path.{ap₂}
use mathlib.Core.List.{append-nil}
use beefy_envio_balances_ind.Common.{
  ℕ, ◌≡◌, ◌≢◌, ◌-◌, refl, ap, ◌∙◌, Bool, false, ◌&&◌, Option, none, some, List, [], ◌∷◌, ◌++◌,
  if◌then◌else◌, ltb, ◌==◌, Text, All, same_text, Option-cases, Bool-cases, inl, inr, filter_by,
  arith,
}
use beefy_envio_balances_ind.Common.Dict.{lookup, lookup-set_ne}
use beefy_envio_balances_ind.Worker.Status.{
  DeploymentState, VersionStatus, ReportLine, chain_stalled, ChainKey, ChainKey-discrete, Seen,
  ChainProgress, round_to, is_retired, check_chain, check_chains, stalled_chains,
}

abbrev pub key : (version chain : ℕ) → ChainKey
key version chain = (version, chain)

-- a stall line of this chain of this version
abbrev pub concerns : (version chain : ℕ) → ReportLine → Bool
concerns version chain (chain_stalled v _ c _ _) = v == version && c == chain
concerns version chain _ = false

abbrev pub about : (version chain : ℕ) → List ReportLine → List ReportLine
about version chain lines = filter_by (concerns version chain) lines

pub about-append :
    (version chain : ℕ) (ls ms : List ReportLine)
    → about version chain (ls ++ ms) ≡ about version chain ls ++ about version chain ms
about-append version chain [] ms = refl
about-append version chain (l ∷ ls) ms = elim (Bool-cases (concerns version chain l)) [
  | inl h ↦ rw h (ap (λ ns. l ∷ ns) (about-append version chain ls ms))
  | inr h ↦ rw h (about-append version chain ls ms)
]

module _ (alert now version chain : ℕ) where
  -- It says nothing of the chain, and leaves what is remembered of it.
  abbrev pub IsQuiet : ChainProgress → List ReportLine × ChainProgress → Type 0
  IsQuiet progress r =
      (about version chain r.0 ≡ [])
      × (lookup ChainKey-discrete (version, chain) r.1
          ≡ lookup ChainKey-discrete (version, chain) progress)

  other_key : (v c : ℕ) → key v c ≢ key version chain → (v == version && c == chain) ≡ false
  other_key v c h = elim (Bool-cases (v == version && c == chain)) [
    | inr e ↦ e
    | inl e ↦
        let p : v ≡ version = ground arith in
        let q : c ≡ chain = ground arith in elim (h (ap₂ key p q)) [ ]
  ]

  abbrev pub lines_of : Option ReportLine → List ReportLine
  lines_of none = []
  lines_of (some l) = l ∷ []

  check_chain_other :
      (v : ℕ) (state : DeploymentState) (c : ℕ) (checkpoint : Text) (progress : ChainProgress)
      → key v c ≢ key version chain
      → (let r = check_chain alert now v state c checkpoint progress in
          IsQuiet progress (lines_of r.0, r.1))
  unfolding check_chain
  check_chain_other v state c checkpoint progress h =
      let r : Seen = record { checkpoint = checkpoint; moved_at = now } in
      let kept = lookup-set_ne ChainKey-discrete (v, c) (version, chain) r progress h in
      elim (Option-cases (lookup ChainKey-discrete (v, c) progress)) [
        | inl n ↦ rw (n, check_chain) (refl, kept)
        | inr (seen, e) ↦ elim (Bool-cases (same_text seen.checkpoint checkpoint)) [
          | inr m ↦ rw (e, m, check_chain) (refl, kept)
          | inl m ↦ elim (Bool-cases (ltb (round_to (now - seen.moved_at) 60000) alert)) [
            | inl k ↦ rw (e, m, k, check_chain) (refl, refl)
            | inr k ↦ rw (e, m, k, check_chain) (rw (other_key v c h) (refl, refl))
          ]
        ]
      ]

  check_chains-cons :
      (v : ℕ) (state : DeploymentState) (c : ℕ) (checkpoint : Text) (frontier : List (ℕ × Text))
      (progress : ChainProgress)
      → check_chains alert now v state ((c, checkpoint) ∷ frontier) progress ≡ (
          let r = check_chain alert now v state c checkpoint progress in
          let s = check_chains alert now v state frontier r.1 in (lines_of r.0 ++ s.0, s.1))
  unfolding check_chains
  check_chains-cons v state c checkpoint frontier progress =
      elim (Option-cases (check_chain alert now v state c checkpoint progress).0) [
        | inl n ↦ rw n refl
        | inr (l, e) ↦ rw e refl
      ]

  IsQuiet-append :
      (p : ChainProgress) (q r : List ReportLine × ChainProgress)
      → IsQuiet p q
      → IsQuiet q.1 r
      → IsQuiet p (q.0 ++ r.0, r.1)
  IsQuiet-append p q r (a, b) (c, d) = (about-append version chain q.0 r.0 ∙ ap₂ ◌++◌ a c, d ∙ b)

  pub check_chains-IsQuiet :
      (v : ℕ) (state : DeploymentState) (frontier : List (ℕ × Text)) (progress : ChainProgress)
      → All (λ f. key v f.0 ≢ key version chain) frontier
      → IsQuiet progress (check_chains alert now v state frontier progress)
  unfolding check_chains
  check_chains-IsQuiet v state [] progress h = (refl, refl)
  check_chains-IsQuiet v state ((c, checkpoint) ∷ frontier) progress (h, hs) =
      let r = check_chain alert now v state c checkpoint progress in
      rw (check_chains-cons v state c checkpoint frontier progress) (
        IsQuiet-append progress (lines_of r.0, r.1) (check_chains alert now v state frontier r.1)
          (check_chain_other v state c checkpoint progress h)
          (check_chains-IsQuiet v state frontier r.1 hs))

  -- A report in which the chain stands once says of it what its check says, and remembers what it
  -- remembers; `seen` is what was remembered before.
  abbrev pub Says : List ReportLine → Option Seen → List ReportLine × ChainProgress → Type 0
  Says said remembered r =
      (about version chain r.0 ≡ said)
      × (lookup ChainKey-discrete (version, chain) r.1 ≡ remembered)

  abbrev pub ChecksTo :
      DeploymentState → Text → Option Seen → List ReportLine → Option Seen → Type 0
  ChecksTo state checkpoint seen said remembered =
      (p : ChainProgress)
      → lookup ChainKey-discrete (version, chain) p ≡ seen
      → (let r = check_chain alert now version state chain checkpoint p in
          Says said remembered (lines_of r.0, r.1))

  module _ (said : List ReportLine) (remembered : Option Seen) where
    Says-later :
        (p : ChainProgress) (q r : List ReportLine × ChainProgress)
        → IsQuiet p q
        → Says said remembered r
        → Says said remembered (q.0 ++ r.0, r.1)
    Says-later p q r (a, b) (c, d) = (about-append version chain q.0 r.0 ∙ ap₂ ◌++◌ a c, d)

    Says-earlier :
        (q r : List ReportLine × ChainProgress)
        → Says said remembered q
        → IsQuiet q.1 r
        → Says said remembered (q.0 ++ r.0, r.1)
    Says-earlier q r (a, b) (c, d) =
        (about-append version chain q.0 r.0 ∙ ap₂ ◌++◌ a c ∙ append-nil said, d ∙ b)

    pub check_chains-Says :
        (state : DeploymentState) (checkpoint : Text) (earlier later : List (ℕ × Text))
        (seen : Option Seen) (p : ChainProgress)
        → All (λ f. key version f.0 ≢ key version chain) earlier
        → All (λ f. key version f.0 ≢ key version chain) later
        → ChecksTo state checkpoint seen said remembered
        → lookup ChainKey-discrete (version, chain) p ≡ seen
        → Says said remembered
            (check_chains alert now version state (earlier ++ (chain, checkpoint) ∷ later) p)
    check_chains-Says state checkpoint [] later seen p h k checks e =
        let r = check_chain alert now version state chain checkpoint p in
        rw (check_chains-cons version state chain checkpoint later p) (
          Says-earlier (lines_of r.0, r.1) (check_chains alert now version state later r.1)
            (checks p e) (check_chains-IsQuiet version state later r.1 k))
    check_chains-Says state checkpoint ((c, other) ∷ earlier) later seen p (h, hs) k checks e =
        let r = check_chain alert now version state c other p in
        let quiet = check_chain_other version state c other p h in
        rw (check_chains-cons version state c other (earlier ++ (chain, checkpoint) ∷ later) p) (
          Says-later p (lines_of r.0, r.1)
            (check_chains alert now version state (earlier ++ (chain, checkpoint) ∷ later) r.1)
            quiet
            (check_chains-Says state checkpoint earlier later seen r.1 hs k checks (quiet.1 ∙ e)))

  other_keys :
      (v : ℕ) (frontier : List (ℕ × Text))
      → v ≢ version
      → All (λ f. key v f.0 ≢ key version chain) frontier
  other_keys v [] h = tt
  other_keys v (f ∷ frontier) h = ((λ e. h (ap (λ (k : ChainKey). k.0) e)), other_keys v frontier h)

  abbrev round_of : VersionStatus → ChainProgress → List ReportLine × ChainProgress
  round_of status p =
      if is_retired status.state
      then ([], p)
      else check_chains alert now status.version status.state status.frontier p

  round_of-IsQuiet :
      (status : VersionStatus) (p : ChainProgress)
      → status.version ≢ version
      → IsQuiet p (round_of status p)
  round_of-IsQuiet status p h = elim (Bool-cases (is_retired status.state)) [
    | inl r ↦ rw r (refl, refl)
    | inr r ↦ rw r (
        check_chains-IsQuiet status.version status.state status.frontier p
          (other_keys status.version status.frontier h))
  ]

  stalled_chains-IsQuiet :
      (statuses : List VersionStatus) (p : ChainProgress)
      → All (λ (s : VersionStatus). s.version ≢ version) statuses
      → IsQuiet p (stalled_chains statuses p alert now)
  unfolding stalled_chains
  stalled_chains-IsQuiet [] p h = (refl, refl)
  stalled_chains-IsQuiet (s ∷ statuses) p (h, hs) =
      let here = round_of s p in
      IsQuiet-append p here (stalled_chains statuses here.1 alert now) (round_of-IsQuiet s p h)
        (stalled_chains-IsQuiet statuses here.1 hs)

  pub stalled_chains-Says :
      (said : List ReportLine) (remembered seen : Option Seen) (earlier later : List VersionStatus)
      (status : VersionStatus) (p : ChainProgress)
      → All (λ (s : VersionStatus). s.version ≢ version) earlier
      → All (λ (s : VersionStatus). s.version ≢ version) later
      → ((q : ChainProgress)
          → lookup ChainKey-discrete (version, chain) q ≡ seen
          → Says said remembered (round_of status q))
      → lookup ChainKey-discrete (version, chain) p ≡ seen
      → Says said remembered (stalled_chains (earlier ++ status ∷ later) p alert now)
  unfolding stalled_chains
  stalled_chains-Says said remembered seen [] later status p h k round e =
      let here = round_of status p in
      Says-earlier said remembered here (stalled_chains later here.1 alert now) (round p e)
        (stalled_chains-IsQuiet later here.1 k)
  stalled_chains-Says said remembered seen (s ∷ earlier) later status p (h, hs) k round e =
      let here = round_of s p in
      let quiet = round_of-IsQuiet s p h in
      Says-later said remembered p here
        (stalled_chains (earlier ++ status ∷ later) here.1 alert now) quiet
        (stalled_chains-Says said remembered seen earlier later status here.1 hs k round
          (quiet.1 ∙ e))
