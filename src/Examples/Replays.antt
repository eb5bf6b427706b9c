-- ===== src/Examples/Replays.antt =====
-- The theorems on the plan, the gaps and the baseline, on a window of ten blocks.
use ictt_sentinel.Base.{ℕ, ◌≡◌, refl, ◌↔◌, true, false, List, [], ◌∷◌, Memᴰ, none, some, arith, All}
use ictt_sentinel.Base.Int.{ℤ, pos, ◌≤ℤ◌, ◌+ℤ◌, ◌-ℤ◌}
use ictt_sentinel.Base.Sets.{sort, sort_insert}
use ictt_sentinel.Domain.{Verdict}
use ictt_sentinel.Replay.{
  BlockRange, PlanInput, CompletenessInput, plan_ranges, find_range_gaps, gaps_from,
  assess_completeness, is_divergence, is_blocking,
}
use ictt_sentinel.Replay.Plan.{Tiles, plan_ranges-Tiles}
use ictt_sentinel.Replay.Gaps.{IsCovered, find_range_gaps-IsCovered, assess_completeness-ok}
use ictt_sentinel.Drift.{DriftObservation, DriftStatus, DriftControl, assess_drift}
use ictt_sentinel.Drift.Assessed.{IsBreach, assess_drift-critical_iff}

abbrev range : ℕ → ℕ → BlockRange
range a b = record { from_block = pos a; to_block = pos b }

abbrev plan : PlanInput
plan = record {
  start_block = pos 1;
  agreed_head = pos 10;
  max_range_blocks = pos 4;
  retry_budget = 3;
}

plan_ranges-Tiles_example :
    (rs : List BlockRange) × (plan_ranges plan ≡ some rs) × Tiles (pos 4) (pos 1) (pos 10) rs
plan_ranges-Tiles_example = plan_ranges-Tiles plan (omega arith) (omega arith)

no_gaps : find_range_gaps (range 5 10 ∷ range 1 6 ∷ []) (range 1 10) ≡ []
unfolding find_range_gaps gaps_from sort sort_insert ◌+ℤ◌ ◌-ℤ◌
no_gaps = refl

find_range_gaps-IsCovered_example : IsCovered (range 5 10 ∷ range 1 6 ∷ []) (pos 7)
find_range_gaps-IsCovered_example =
    find_range_gaps-IsCovered (range 5 10 ∷ range 1 6 ∷ []) (range 1 10) (pos 7) no_gaps
      (omega arith) (omega arith)

abbrev replay : CompletenessInput
replay = record {
  window = range 1 10;
  committed = range 5 10 ∷ range 1 6 ∷ [];
  last_success_at = some (pos 90);
  freshness_ttl_ms = pos 30;
  open_reasons = [];
  now = pos 100;
}

replay_green : (assess_completeness replay).verdict ≡ Verdict.ok
unfolding assess_completeness find_range_gaps gaps_from sort sort_insert ◌+ℤ◌ ◌-ℤ◌
replay_green = refl

assess_completeness-ok_example :
    All (λ r. (is_divergence r ≡ false) × (is_blocking r ≡ false)) replay.open_reasons
    × ((h : ℤ) → pos 1 ≤ℤ h → h ≤ℤ pos 10 → IsCovered replay.committed h)
    × ((t : ℤ) × (replay.last_success_at ≡ some t) × (pos 100 -ℤ t ≤ℤ pos 30))
assess_completeness-ok_example = assess_completeness-ok replay replay_green

abbrev observation : DriftControl → DriftStatus → DriftObservation
observation control status = record {
  control = control;
  status = status;
  expected = none;
  observed = none;
  required = true;
}

abbrev baseline : List DriftObservation
baseline =
    observation DriftControl.token_decimals DriftStatus.drift
    ∷ observation DriftControl.registered_remote_census DriftStatus.candidate
    ∷ []

assess_drift-critical_iff_example :
    ((assess_drift baseline).critical ≡ true)
    ↔ ((o : DriftObservation) × Memᴰ o baseline × IsBreach o)
assess_drift-critical_iff_example = assess_drift-critical_iff baseline
