-- ===== src/Domain.antt =====
-- packages/domain/src/verdict.ts: the verdict lattice.
pub mod Lattice
use ictt_sentinel.Base.{
  ℕ, zero, suc, Bool, true, false, List, [], ◌∷◌, Option, none, some, ltb, if◌then◌else◌,
}

-- `VERDICTS`
pub data Verdict : Type 0 where
  ok warn unknown critical : Verdict

pub data Requirement : Type 0 where
  required optional : Requirement

pub record Judgement : Type 0 where
  pub verdict : Verdict
  pub requirement : Requirement

-- `RANK`
abbrev pub rank : Verdict → ℕ
rank ok = 0
rank warn = 1
rank unknown = 2
rank critical = 3

-- `BY_RANK[highest] ?? 'UNKNOWN'`
abbrev pub by_rank : ℕ → Verdict
by_rank zero = ok
by_rank (suc zero) = warn
by_rank (suc (suc zero)) = unknown
by_rank (suc (suc (suc zero))) = critical
by_rank _ = unknown

abbrev pub demoted : Verdict → Requirement → ℕ
demoted unknown optional = rank warn
demoted v r = rank v

-- `rankOf`
abbrev pub rank_of : Judgement → ℕ
rank_of j = demoted j.verdict j.requirement

-- The loop of `combineVerdicts`.
unfoldable pub highest_from : ℕ → List Judgement → ℕ
highest_from highest [] = highest
highest_from highest (j ∷ js) =
    highest_from (if ltb highest (rank_of j) then rank_of j else highest) js

unfoldable pub combine_verdicts : List Judgement → Verdict
unfolding highest_from
combine_verdicts [] = unknown
combine_verdicts (j ∷ js) = by_rank (highest_from 0 (j ∷ js))

unfoldable pub is_healthy : Verdict → Bool
is_healthy ok = true
is_healthy _ = false

-- `SUPPLY_ASSESSMENTS`
pub data SupplyAssessment : Type 0 where
  sufficient indeterminate unknown : SupplyAssessment

unfoldable pub supply_assessment_to_verdict : SupplyAssessment → Verdict
supply_assessment_to_verdict sufficient = ok
supply_assessment_to_verdict indeterminate = Verdict.unknown
supply_assessment_to_verdict SupplyAssessment.unknown = Verdict.unknown
