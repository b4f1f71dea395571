-- ===== src/Worker/Status/Tests.antt =====
-- Chain 10 of version 3, seen at the checkpoint "9" at 0 and from then on.
use beefy_envio_balances_ind.Common.{ℕ, ap, arith, ◌≡◌, refl, false, none, [], ◌∷◌, Text}
use beefy_envio_balances_ind.Common.Dict.{lookup}
use beefy_envio_balances_ind.Worker.Status.{
  active, chain_stalled, no_active_version, ChainProgress, ChainKey, DeploymentState, VersionStatus,
  retired, stalled_chains, version_report, report_lines, Thresholds,
}
use beefy_envio_balances_ind.Worker.Status.Quiet.{about}
use beefy_envio_balances_ind.Worker.Status.Stalls.{
  Sight, SeesOnce, statuses_of, stall_line, after_reports, stalled_chains-after_reports,
}

abbrev nothing_seen : ChainProgress
nothing_seen = []

abbrev checkpoint : Text
checkpoint = 57 ∷ []

-- a version with no chain but those that a sight adds
abbrev in_state : ℕ → DeploymentState → VersionStatus
in_state version state = record {
  version = version;
  state = state;
  envio_database = [];
  created_at = [];
  watermark = none;
  watermark_age_seconds = none;
  frontier = (10, checkpoint) ∷ [];
  head_prices = none;
}

-- behind version 2, which is retired, with another chain before it
abbrev sight : Sight
sight = record {
  earlier = in_state 2 retired ∷ [];
  status = in_state 3 active;
  earlier_chains = (1, checkpoint) ∷ [];
  later_chains = [];
  later = [];
}

sight-SeesOnce : SeesOnce 3 10 checkpoint sight
sight-SeesOnce = record {
  same = refl;
  kept = refl;
  earlier = ((λ e. omega (arith, e)), tt);
  later = tt;
  earlier_chains = ((λ e. omega (arith, ap (λ (k : ChainKey). k.1) e)), tt);
  later_chains = tt;
}

-- thirty minutes and a half later, past an alert of thirty minutes
stalled_chains-after_reports_example :
    (about 3 10 (stalled_chains (statuses_of 3 10 checkpoint sight) nothing_seen 30 0).0 ≡ [])
    × (about 3 10
          (stalled_chains
            (statuses_of 3 10 checkpoint sight)
            (after_reports 3 10 checkpoint 30 ((0, sight) ∷ (600000, sight) ∷ []) nothing_seen)
            30
            1830000).0
        ≡ stall_line 3 10 checkpoint 30 active 1830000)
unfolding lookup
stalled_chains-after_reports_example =
    stalled_chains-after_reports 3 10 checkpoint 30 0 sight ((600000, sight) ∷ []) 1830000 sight
      nothing_seen refl sight-SeesOnce (sight-SeesOnce, tt) sight-SeesOnce

-- it is 31 minutes, rounded
stall_line_run :
    stall_line 3 10 checkpoint 30 active 1830000 ≡ chain_stalled 3 active 10 checkpoint 31 ∷ []
stall_line_run = refl

abbrev limits : Thresholds
limits = record {
  watermark_alert_seconds = 60;
  unpriced_share_alert = 0;
  building_alert_hours = 1;
  chain_stall_alert_minutes = 30;
}

-- without versions, the report says that none is active
version_report_run : version_report (λ a b. false) (λ s. 0) [] limits 0 ≡ no_active_version ∷ []
unfolding version_report report_lines
version_report_run = refl
