-- ===== src/Clickhouse/Ranges/Tests.antt =====
-- A plan, and the theorems at its input.
use beefy_envio_balances_ind.Common.{◌≤◌, ◌≡◌, refl, arith, inl, inr, some, List, [], ◌∷◌, All}
use beefy_envio_balances_ind.Clickhouse.Ranges.{
  Range, Bucket, PlanLimits, all_atoms, atoms_of, array_from, atom_at, parts_of, sorted, insert,
  cuts, plan_from, plan_ranges,
}
use beefy_envio_balances_ind.Clickhouse.Ranges.Cover.{Covers}
use beefy_envio_balances_ind.Clickhouse.Ranges.Order.{Forward, plan_ranges-Forward}
use beefy_envio_balances_ind.Clickhouse.Ranges.Greedy.{IsPlan, plan_ranges-IsPlan, plan_ranges-le}

abbrev limits : PlanLimits
limits = record { max_events = 10; max_span_ms = 5000; bucket_ms = 1000 }

abbrev range : Range
range = record { from = 500; to = some 9000 }

-- the third bucket is cut in two; the first is before the second in time
abbrev buckets : List Bucket
buckets =
    record { start_ms = 2000; events = 4 }
    ∷ record { start_ms = 0; events = 3 }
    ∷ record { start_ms = 3000; events = 14 }
    ∷ record { start_ms = 9000; events = 6 }
    ∷ []

planned :
    plan_ranges range buckets limits
    ≡ record { from = 500; to = some 3000; events = 7 }
      ∷ record { from = 3000; to = some 3500; events = 7 }
      ∷ record { from = 3500; to = some 9000; events = 7 }
      ∷ []
unfolding all_atoms atoms_of array_from atom_at parts_of sorted insert cuts plan_from plan_ranges
planned = refl

plan_ranges-Forward_example :
    Covers 500 (some 9000) (plan_ranges range buckets limits)
    × All Forward (plan_ranges range buckets limits)
plan_ranges-Forward_example = plan_ranges-Forward range buckets limits (omega arith) (
  (inr (omega arith), (inl (omega arith), (inl (omega arith), tt))),
  ((inl (omega arith), (inl (omega arith), tt)), ((inl (omega arith), tt), (tt, tt))),
)

plan_ranges-IsPlan_example :
    IsPlan limits
      (some 9000)
      500
      (all_atoms (sorted buckets) 500 (some 9000) limits)
      (plan_ranges range buckets limits)
plan_ranges-IsPlan_example = plan_ranges-IsPlan range buckets limits (omega arith)

abbrev inside : List Bucket
inside = record { start_ms = 2000; events = 4 } ∷ record { start_ms = 3000; events = 14 } ∷ []

plan_ranges-le_example : All (λ r. r.events ≤ 10) (plan_ranges range inside limits)
plan_ranges-le_example =
    plan_ranges-le range inside limits (omega arith) (omega arith, (omega arith, tt))
