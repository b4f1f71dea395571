-- ===== src/Worker/Status.antt =====
-- The status report of the versions, apps/worker/src/jobs/versionStatus.ts. A line of a report is a constructor with
-- what the line says. The clock of the reports does not go back.
pub mod Quiet
pub mod Stalls
mod Tests
use mathlib.Core.Bool.{decide}
use native.Mathlib.Decide.{ℕ_discrete}
use beefy_envio_balances_ind.Common.{
  ℕ, zero, suc, ◌+◌, ◌-◌, ◌*◌, ◌/◌, Bool, true, false, not, ◌&&◌, ◌||◌, Option, none, some, List,
  [], ◌∷◌, ◌++◌, if◌then◌else◌, ltb, some_of, filter_by, map, Text, Text-discrete, same_text,
  pair_discrete,
}
use beefy_envio_balances_ind.Common.Dict.{lookup, set}

pub data DeploymentState : Type 0 where
  building ready active retired dropped : DeploymentState

-- a double, as its bits
abbrev pub Double : Type 0
Double = ℕ

pub record HeadPriceStatus : Type 0 where
  pub last_hour_events : ℕ
  pub last_hour_unpriced : ℕ
  pub last_hour_unpriced_share : Option Double
  pub pending_old : ℕ

pub record VersionStatus : Type 0 where
  pub version : ℕ
  pub state : DeploymentState
  pub envio_database : Text
  pub created_at : Text
  pub watermark : Option Text
  pub watermark_age_seconds : Option ℕ
  pub frontier : List (ℕ × Text)
  pub head_prices : Option HeadPriceStatus

pub record Thresholds : Type 0 where
  pub watermark_alert_seconds : ℕ
  pub unpriced_share_alert : Double
  pub building_alert_hours : ℕ
  pub chain_stall_alert_minutes : ℕ

-- All but `version_status` have the level `warn`.
pub data ReportLine : Type 0 where
  version_status : VersionStatus → ReportLine
  indexer_prices_missing : (version : ℕ) → HeadPriceStatus → ReportLine
  pending_events_old : (version pending_old : ℕ) → ReportLine
  watermark_old : (version : ℕ) → DeploymentState → Option Text → ℕ → ReportLine
  watermark_missing : (version : ℕ) → DeploymentState → Text → ReportLine
  version_stuck_building : (version : ℕ) → Text → (building_hours : ℕ) → ReportLine
  no_active_version : ReportLine
  chain_stalled :
      (version : ℕ) → DeploymentState → (chain : ℕ) → Text → (stalled_minutes : ℕ) → ReportLine

-- `version:chain`
abbrev pub ChainKey : Type 0
ChainKey = ℕ × ℕ

unfoldable pub ChainKey-discrete : Discrete ChainKey
unfolding pair_discrete ℕ_discrete
ChainKey-discrete = pair_discrete ℕ_discrete ℕ_discrete

pub record Seen : Type 0 where
  pub checkpoint : Text
  pub moved_at : ℕ

abbrev pub ChainProgress : Type 0
ChainProgress = List (ChainKey × Seen)

-- `Math.round(ms / unit)`
abbrev pub round_to : (ms unit : ℕ) → ℕ
round_to ms unit = (ms + unit / 2) / unit

abbrev pub is_seen : Text → Option Seen → Bool
is_seen checkpoint none = false
is_seen checkpoint (some seen) = same_text seen.checkpoint checkpoint

-- one chain of one version
unfoldable pub check_chain :
    (alert_minutes now version : ℕ)
    → DeploymentState
    → (chain : ℕ) → Text
    → ChainProgress
    → Option ReportLine × ChainProgress
check_chain alert_minutes now version state chain checkpoint progress =
    let restart : Option ReportLine × ChainProgress = (
      none,
      set ChainKey-discrete (version, chain) (record { checkpoint = checkpoint; moved_at = now })
          progress,
    ) in
    elim (lookup ChainKey-discrete (version, chain) progress) [
      | none ↦ restart
      | some seen ↦ elim (same_text seen.checkpoint checkpoint) [
        | false ↦ restart
        | true ↦
            let stalled_minutes = round_to (now - seen.moved_at) 60000 in
            (
              if ltb stalled_minutes alert_minutes
                  then none
                  else some (chain_stalled version state chain checkpoint stalled_minutes),
              progress,
            )
      ]
    ]

-- the two `flatMap`s
unfoldable pub check_chains :
    (alert_minutes now version : ℕ)
    → DeploymentState
    → List (ℕ × Text)
    → ChainProgress
    → List ReportLine × ChainProgress
check_chains alert_minutes now version state [] progress = ([], progress)
check_chains alert_minutes now version state ((chain, checkpoint) ∷ frontier) progress =
    let (line, next) = check_chain alert_minutes now version state chain checkpoint progress in
    let (lines, last) = check_chains alert_minutes now version state frontier next in
    (elim line [ none ↦ lines | some l ↦ l ∷ lines ], last)

abbrev pub is_retired : DeploymentState → Bool
is_retired retired = true
is_retired _ = false

unfoldable pub stalled_chains :
    List VersionStatus → ChainProgress → (alert_minutes now : ℕ) → List ReportLine × ChainProgress
stalled_chains [] progress alert_minutes now = ([], progress)
stalled_chains (status ∷ statuses) progress alert_minutes now =
    let here =
      if is_retired status.state
      then ([], progress)
      else check_chains alert_minutes now status.version status.state status.frontier progress in
    let (lines, last) = stalled_chains statuses here.1 alert_minutes now in (here.0 ++ lines, last)

abbrev pub is_building : DeploymentState → Bool
is_building building = true
is_building _ = false

abbrev pub is_active : DeploymentState → Bool
is_active active = true
is_active _ = false

abbrev pub line_if : Bool → ReportLine → List ReportLine
line_if b line = if b then line ∷ [] else []

module _ (exceeds : Double → Double → Bool) (parse_date : Text → ℕ) where
  -- the lines about the prices of the last hour
  abbrev pub price_lines : Thresholds → VersionStatus → List ReportLine
  price_lines limits status = elim status.head_prices [
    | none ↦ []
    | some prices ↦
        line_if
          (elim prices.last_hour_unpriced_share [
            | none ↦ false
            | some share ↦ exceeds share limits.unpriced_share_alert
          ])
          (indexer_prices_missing status.version prices)
        ++ line_if (ltb 0 prices.pending_old) (pending_events_old status.version prices.pending_old)
  ]

  abbrev pub watermark_lines : Thresholds → (age_ms : ℕ) → VersionStatus → List ReportLine
  watermark_lines limits age_ms status = elim status.watermark_age_seconds [
    | some age ↦
        line_if (ltb limits.watermark_alert_seconds age)
          (watermark_old status.version status.state status.watermark age)
    | none ↦
        line_if
          (not (is_building status.state) && ltb (limits.watermark_alert_seconds * 1000) age_ms)
          (watermark_missing status.version status.state status.created_at)
  ]

  -- the round of one version; `now - Date.parse(createdAt)` is `age_ms`
  abbrev pub status_lines : Thresholds → (now : ℕ) → VersionStatus → List ReportLine
  status_lines limits now status =
      let age_ms = now - parse_date status.created_at in
      version_status status
      ∷ (price_lines limits status
          ++ (watermark_lines limits age_ms status
              ++ line_if
                  (is_building status.state
                    && ltb (limits.building_alert_hours * 3600 * 1000) age_ms)
                  (version_stuck_building status.version status.created_at
                    (round_to age_ms 3600000))))

  unfoldable pub report_lines : Thresholds → (now : ℕ) → List VersionStatus → List ReportLine
  report_lines limits now [] = []
  report_lines limits now (status ∷ statuses) =
      status_lines limits now status ++ report_lines limits now statuses

  unfoldable pub version_report : List VersionStatus → Thresholds → (now : ℕ) → List ReportLine
  version_report statuses limits now =
      report_lines limits now statuses
      ++ line_if (not (some_of (λ status. is_active status.state) statuses)) no_active_version

  -- a run of the job, over the progress that it keeps
  abbrev pub status_run :
      Thresholds → List VersionStatus → (now : ℕ) → ChainProgress → List ReportLine × ChainProgress
  status_run limits statuses now progress =
      let (lines, next) = stalled_chains statuses progress limits.chain_stall_alert_minutes now in
      (version_report statuses limits now ++ lines, next)
