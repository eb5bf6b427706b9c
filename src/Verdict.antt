-- ===== src/Verdict.antt =====
-- packages/invariant-core/src/verdict.ts: the aggregation of rule contributions into one verdict.
-- `aggregate` follows the source statement by statement; a `Set` is a list without repetitions.
pub mod Order
pub mod Status
pub mod Claim
pub mod Exit
use Prim.Native.String.{String}
use ictt_sentinel.Base.{
  ℕ, Bool, true, false, not, ◌&&◌, ◌||◌, List, [], ◌∷◌, ◌++◌, map, any, filter, is_empty, when,
  flat_map, if◌then◌else◌, ltb, Option,
}
use ictt_sentinel.Base.Text.{Text, text_le}
use ictt_sentinel.Base.Sets.{unique, sort}
use ictt_sentinel.Reason.{
  ReasonCode, agg_m01_required_evaluation_missing, agg_m02_previous_ok_expired,
  agg_m03_evaluation_fault, agg_m04_witness_divergence, acc_i06_stale_observation,
}
use ictt_sentinel.Reason.Codes.{code_le, code_Eq}

-- `PROTOCOL_STATUSES`
pub data ProtocolStatus : Type 0 where
  ok warn critical unknown : ProtocolStatus

-- `DATA_STATUSES`
pub data DataStatus : Type 0 where
  complete stale partial divergent unknown : DataStatus

-- `CLAIM_MODES`
pub data ClaimMode : Type 0 where
  exact causal_exact sufficient_upper_bound indeterminate unsupported : ClaimMode

-- `COVERAGE_STATES`
pub data CoverageState : Type 0 where
  complete partial unverified : CoverageState

-- The `result` of a contribution.
pub data RuleResult : Type 0 where
  pass fail unknown unsupported : RuleResult

pub record RuleContribution : Type 0 where
  pub rule_id : Text
  pub result : RuleResult
  pub critical : Bool
  pub required : Bool
  pub claim_mode : ClaimMode
  pub reasons : List ReasonCode
  pub liveness_only : Option Bool

pub record AggregationInput : Type 0 where
  pub contributions : List RuleContribution
  pub data_status : DataStatus
  pub coverage : CoverageState
  pub missing_required_evaluations : List Text
  pub previous_ok_expired : Bool
  pub evaluation_faults : List Text

pub record GlobalVerdict : Type 0 where
  pub protocol_status : ProtocolStatus
  pub data_status : DataStatus
  pub claim_mode : ClaimMode
  pub coverage : CoverageState
  pub reason_codes : List ReasonCode
  pub critical_rule_ids : List Text
  pub unknown_rule_ids : List Text
  pub assumptions : List String
  pub exclusions : List String
  pub runbook : String

-- `CLAIM_RANK`
abbrev pub claim_rank : ClaimMode → ℕ
claim_rank exact = 0
claim_rank causal_exact = 1
claim_rank sufficient_upper_bound = 2
claim_rank indeterminate = 3
claim_rank unsupported = 4

-- One step of the `reduce` of `weakestClaim`.
abbrev pub worse_claim : ClaimMode → ClaimMode → ClaimMode
worse_claim worst m = if ltb (claim_rank worst) (claim_rank m) then m else worst

abbrev pub worst_from : ClaimMode → List ClaimMode → ClaimMode
worst_from worst [] = worst
worst_from worst (m ∷ ms) = worst_from (worse_claim worst m) ms

-- `weakestClaim`
unfoldable pub weakest_claim : List ClaimMode → ClaimMode
weakest_claim [] = ClaimMode.unsupported
weakest_claim (m ∷ ms) = worst_from m (m ∷ ms)

abbrev pub data_is_complete : DataStatus → Bool
data_is_complete complete = true
data_is_complete _ = false

abbrev pub data_is_stale : DataStatus → Bool
data_is_stale stale = true
data_is_stale _ = false

abbrev pub data_is_divergent : DataStatus → Bool
data_is_divergent divergent = true
data_is_divergent _ = false

abbrev pub coverage_is_complete : CoverageState → Bool
coverage_is_complete complete = true
coverage_is_complete _ = false

-- `c.result === 'UNKNOWN' || c.result === 'UNSUPPORTED'`
abbrev pub is_unestablished : RuleResult → Bool
is_unestablished unknown = true
is_unestablished unsupported = true
is_unestablished _ = false

abbrev pub is_fail : RuleResult → Bool
is_fail fail = true
is_fail _ = false

abbrev pub blocks : RuleContribution → Bool
blocks c = c.required && is_unestablished c.result

abbrev pub deviates : RuleContribution → Bool
deviates c = is_fail c.result && not c.critical

-- The set `reasons` when the verdict is built.
unfoldable pub collected_reasons : AggregationInput → List ReasonCode
collected_reasons input = unique (
    flat_map (λ c. c.reasons) input.contributions
    ++ (when (not (is_empty input.missing_required_evaluations)) agg_m01_required_evaluation_missing
        ++ (when input.previous_ok_expired agg_m02_previous_ok_expired
            ++ (when (not (is_empty input.evaluation_faults)) agg_m03_evaluation_fault
                ++ (when (data_is_stale input.data_status) acc_i06_stale_observation
                    ++ when (data_is_divergent input.data_status) agg_m04_witness_divergence)))))

abbrev pub critical_ids : List RuleContribution → List Text
critical_ids cs = map (λ c. c.rule_id) (filter (λ c. c.critical) cs)

abbrev pub unknown_ids : List RuleContribution → List Text
unknown_ids cs = map (λ c. c.rule_id) (filter blocks cs)

-- `hasBlockingUnknown`
abbrev pub has_blocking_unknown : AggregationInput → Bool
has_blocking_unknown input =
    not (is_empty (unknown_ids input.contributions))
    || not (is_empty input.missing_required_evaluations)
    || input.previous_ok_expired
    || not (is_empty input.evaluation_faults)
    || not (data_is_complete input.data_status)
    || not (coverage_is_complete input.coverage)

-- `protocolStatus`
unfoldable pub status_of : AggregationInput → ProtocolStatus
status_of input =
    if not (is_empty (critical_ids input.contributions))
    then ProtocolStatus.critical
    else if has_blocking_unknown input
    then ProtocolStatus.unknown
    else if any deviates input.contributions
    then ProtocolStatus.warn
    else ProtocolStatus.ok

abbrev pub assumptions : List String
assumptions =
    "Quorum is counted over independent provider groups; it is not a cryptographic or Byzantine guarantee."
    ∷ "Native claims are reported upper bounds, never exact circulating supply."
    ∷ "Observed on-chain state is coverage at a pinned block, not legal recoverability." ∷ []

abbrev pub exclusions : List String
exclusions =
    "Rate and volume anomalies are heuristic signals and never appear under a collateral headline."
    ∷ "Unsupported families, routes and token behaviours resolve to UNKNOWN rather than being interpreted."
    ∷ []

unfoldable pub aggregate : AggregationInput → GlobalVerdict
unfolding status_of collected_reasons weakest_claim
aggregate input = record {
  protocol_status = status_of input;
  data_status = input.data_status;
  claim_mode = weakest_claim (map (λ c. c.claim_mode) input.contributions);
  coverage = input.coverage;
  reason_codes = sort code_le (collected_reasons input);
  critical_rule_ids = sort text_le (critical_ids input.contributions);
  unknown_rule_ids = sort text_le (unknown_ids input.contributions);
  assumptions = assumptions;
  exclusions = exclusions;
  runbook = "docs/RUNBOOK.md#verdict-triage";
}

-- `EXIT_CODES` and `exitCodeFor`
unfoldable pub exit_code_of : ProtocolStatus → ℕ
exit_code_of ok = 0
exit_code_of critical = 2
exit_code_of unknown = 3
exit_code_of warn = 4

unfoldable pub exit_code_for : GlobalVerdict → ℕ
unfolding exit_code_of
exit_code_for v = exit_code_of v.protocol_status

abbrev pub status_is_ok : ProtocolStatus → Bool
status_is_ok ok = true
status_is_ok _ = false

-- `v.claimMode !== 'UNSUPPORTED' && v.claimMode !== 'INDETERMINATE'`
abbrev pub claim_decides : ClaimMode → Bool
claim_decides unsupported = false
claim_decides indeterminate = false
claim_decides _ = true

unfoldable pub is_overall_green : GlobalVerdict → Bool
is_overall_green v =
    status_is_ok v.protocol_status
    && data_is_complete v.data_status
    && coverage_is_complete v.coverage
    && claim_decides v.claim_mode
