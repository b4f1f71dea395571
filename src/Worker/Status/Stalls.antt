-- ===== src/Worker/Status/Stalls.antt =====
-- The clock of a stalled chain.
use beefy_envio_balances_ind.Common.{
  ℕ, arith, ◌==◌, ◌&&◌, ◌+◌, ◌-◌, ◌/◌, ◌≡◌, ◌≢◌, refl, true, false, Option, some, List, [], ◌∷◌,
  ◌++◌, if◌then◌else◌, ltb, Text, All, same_text, Text-discrete, Option-cases, Bool-cases, inl, inr,
}
use mathlib.Core.Bool.{decide_iff}
use beefy_envio_balances_ind.Common.Dict.{lookup, lookup-set_self}
use beefy_envio_balances_ind.Worker.Status.{
  DeploymentState, VersionStatus, ReportLine, chain_stalled, ChainKey-discrete, Seen, ChainProgress,
  is_seen, is_retired, check_chain, stalled_chains,
}
use beefy_envio_balances_ind.Worker.Status.Quiet.{
  key, about, Says, lines_of, check_chains-Says, stalled_chains-Says,
}

-- What a report sees: other versions, and the version of this chain with other chains.
pub record Sight : Type 0 where
  pub earlier : List VersionStatus
  pub status : VersionStatus
  pub earlier_chains : List (ℕ × Text)
  pub later_chains : List (ℕ × Text)
  pub later : List VersionStatus

module _ (version chain : ℕ) (checkpoint : Text) where
  -- the statuses of a report that sees the chain at the checkpoint
  abbrev pub statuses_of : Sight → List VersionStatus
  statuses_of s =
      let status : VersionStatus = record s.status {
        frontier = s.earlier_chains ++ (chain, checkpoint) ∷ s.later_chains;
      } in
      s.earlier ++ status ∷ s.later

  -- The version is listed once, and is not retired, and the chain once in it.
  pub record SeesOnce (s : Sight) : Type 0 where
    pub same : s.status.version ≡ version
    pub kept : is_retired s.status.state ≡ false
    pub earlier : All (λ (t : VersionStatus). t.version ≢ version) s.earlier
    pub later : All (λ (t : VersionStatus). t.version ≢ version) s.later
    pub earlier_chains : All (λ f. key version f.0 ≢ key version chain) s.earlier_chains
    pub later_chains : All (λ f. key version f.0 ≢ key version chain) s.later_chains

  module _ (alert : ℕ) where
    report-Says :
        (now : ℕ) (s : Sight) (said : List ReportLine) (seen remembered : Option Seen)
        (p : ChainProgress)
        → SeesOnce s
        → ((q : ChainProgress)
            → lookup ChainKey-discrete (version, chain) q ≡ seen
            → (let r = check_chain alert now version s.status.state chain checkpoint q in
                Says alert now version chain said remembered
                  (lines_of alert now version chain r.0, r.1)))
        → lookup ChainKey-discrete (version, chain) p ≡ seen
        → Says alert now version chain said remembered (stalled_chains (statuses_of s) p alert now)
    report-Says now s said seen remembered p once checks e =
        stalled_chains-Says alert now version chain said remembered seen s.earlier s.later _ p
          once.earlier once.later
          (λ q f.
            rw (once.kept, once.same)
              (check_chains-Says alert now version chain said remembered s.status.state checkpoint
                s.earlier_chains s.later_chains seen q once.earlier_chains once.later_chains checks
                f))
          e

    same_again : same_text checkpoint checkpoint ≡ true
    same_again = (decide_iff (Text-discrete checkpoint checkpoint)).1 refl

    abbrev seen_at : ℕ → Option Seen
    seen_at t = some (record { checkpoint = checkpoint; moved_at = t })

    -- a first sight, or a checkpoint that moved, starts the clock and says nothing
    first_sight :
        (now : ℕ) (s : Sight) (p : ChainProgress)
        → SeesOnce s
        → is_seen checkpoint (lookup ChainKey-discrete (version, chain) p) ≡ false
        → Says alert now version chain [] (seen_at now) (stalled_chains (statuses_of s) p alert now)
    unfolding check_chain
    first_sight now s p once h =
        report-Says now s [] (lookup ChainKey-discrete (version, chain) p) (seen_at now) p once
          (λ q e.
            let r : Seen = record { checkpoint = checkpoint; moved_at = now } in
            let stored = lookup-set_self ChainKey-discrete (version, chain) r q in
            elim (Option-cases (lookup ChainKey-discrete (version, chain) q)) [
              | inl n ↦ rw (n, check_chain) (refl, stored)
              | inr (seen, f) ↦
                  let moved : same_text seen.checkpoint checkpoint ≡ false = rw (← e, f) at h in
                  rw (f, moved, check_chain) (refl, stored)
            ])
          refl

    -- the line of a chain that stood still for so many milliseconds, if it is time for one
    abbrev pub stall_line : DeploymentState → ℕ → List ReportLine
    stall_line state still_ms =
        let minutes = (still_ms + 30000) / 60000 in
        if ltb minutes alert then [] else chain_stalled version state chain checkpoint minutes ∷ []

    -- the same checkpoint again leaves the clock as it is
    later_sight :
        (t now : ℕ) (s : Sight) (p : ChainProgress)
        → SeesOnce s
        → lookup ChainKey-discrete (version, chain) p ≡ seen_at t
        → Says alert now version chain
            (stall_line s.status.state (now - t))
            (seen_at t)
            (stalled_chains (statuses_of s) p alert now)
    unfolding check_chain
    later_sight t now s p once e =
        let minutes = (now - t + 30000) / 60000 in
        let itself : (version == version && chain == chain) ≡ true = ground arith in
        report-Says now s (stall_line s.status.state (now - t)) (seen_at t) (seen_at t) p once
          (λ q f. elim (Bool-cases (ltb minutes alert)) [
            | inl young ↦ rw (f, same_again, young, check_chain) (refl, f)
            | inr old ↦ rw (f, same_again, old, check_chain) (rw itself (refl, f))
          ])
          e

    -- what is remembered after reports, each at its time
    abbrev pub after_reports : List (ℕ × Sight) → ChainProgress → ChainProgress
    after_reports [] p = p
    after_reports ((now, s) ∷ reports) p =
        after_reports reports (stalled_chains (statuses_of s) p alert now).1

    after_reports-seen_at :
        (t : ℕ) (reports : List (ℕ × Sight)) (p : ChainProgress)
        → All (λ r. SeesOnce r.1) reports
        → lookup ChainKey-discrete (version, chain) p ≡ seen_at t
        → lookup ChainKey-discrete (version, chain) (after_reports reports p) ≡ seen_at t
    after_reports-seen_at t [] p h e = e
    after_reports-seen_at t ((now, s) ∷ reports) p (h, hs) e =
        after_reports-seen_at t reports (stalled_chains (statuses_of s) p alert now).1 hs
          (later_sight t now s p h e).1

    -- Of reports that list a version once, which is not retired, and a chain once in it, among any
    -- other versions and chains: the first that sees the chain, or sees it at another checkpoint than
    -- before, has no stall line for it; and after it and any reports that see the same checkpoint, a
    -- report that sees it too has one if and only if the minutes since the first of them, rounded to
    -- the nearest, reach the alert, and the line says how many they are.
    pub stalled_chains-after_reports :
        (first : ℕ) (s : Sight) (between : List (ℕ × Sight)) (now : ℕ) (t : Sight)
        (p : ChainProgress)
        → is_seen checkpoint (lookup ChainKey-discrete (version, chain) p) ≡ false
        → SeesOnce s
        → All (λ r. SeesOnce r.1) between
        → SeesOnce t
        → (about version chain (stalled_chains (statuses_of s) p alert first).0 ≡ [])
          × (about version chain
                (stalled_chains
                  (statuses_of t)
                  (after_reports ((first, s) ∷ between) p)
                  alert
                  now).0
              ≡ stall_line t.status.state (now - first))
    stalled_chains-after_reports first s between now t p h once all last =
        let started = first_sight first s p once h in
        let next = (stalled_chains (statuses_of s) p alert first).1 in
        (
          started.0,
          (later_sight first now t (after_reports between next) last
              (after_reports-seen_at first between next all started.1)).0,
        )
