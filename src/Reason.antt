-- ===== src/Reason.antt =====
-- packages/invariant-core/src/reasons.ts: the reason codes, their spelling and their proof class.
-- The summaries are display text and are left out.
pub mod Codes
use ictt_sentinel.Base.{◌≡◌, refl, sym, ap, ◌∙◌, ◌↔◌, Bool, Option, none, some, List, [], ◌∷◌}
use Prim.Native.String.{String}
use ictt_sentinel.Base.Text.{Text, units, text_eq, text_eq_iff, text_le}

-- `REASON_CODES`, `ReasonCode`
pub data ReasonCode : Type 0 where
  acc_i01_no_approved_baseline : ReasonCode
  acc_i02_no_source_lock_version : ReasonCode
  acc_i03_census_incomplete : ReasonCode
  acc_i04_no_pinned_block : ReasonCode
  acc_i05_causal_cut_open : ReasonCode
  acc_i06_stale_observation : ReasonCode
  acc_i07_missing_observation : ReasonCode
  acc_i08_unknown_token_scale : ReasonCode
  acc_u01_unsupported_family : ReasonCode
  acc_u02_unknown_fingerprint : ReasonCode
  acc_u03_unsupported_token_behaviour : ReasonCode
  acc_u04_unsupported_route : ReasonCode
  acc_a00_reconciled : ReasonCode
  acc_a01_excess_remote_representation : ReasonCode
  acc_a02_delta_unexplained : ReasonCode
  acc_a03_duplicate_economic_effect : ReasonCode
  acc_a04_unauthorised_mint : ReasonCode
  acc_a05_route_mismatch : ReasonCode
  acc_a06_arithmetic_out_of_range : ReasonCode
  acc_b00_coverage_sufficient : ReasonCode
  acc_b01_coverage_shortfall : ReasonCode
  acc_b02_untracked_remote_liability : ReasonCode
  acc_b03_gate_a_not_passed : ReasonCode
  acc_n00_reported_upper_bound_covered : ReasonCode
  acc_n01_upper_bound_above_coverage_indeterminate : ReasonCode
  acc_n02_supply_lower_bound_exceeds_coverage : ReasonCode
  cfg_n01_unexpected_minter_role : ReasonCode
  cfg_n02_unauthorised_native_mint : ReasonCode
  cfg_n03_native_minter_census_incomplete : ReasonCode
  cfg_n04_duplicate_fee_report : ReasonCode
  cfg_n05_fee_remint_semantics_unverified : ReasonCode
  cfg_d01_baseline_drift : ReasonCode
  cfg_d02_unapproved_candidate : ReasonCode
  cfg_d03_control_unresolved : ReasonCode
  agg_m01_required_evaluation_missing : ReasonCode
  agg_m02_previous_ok_expired : ReasonCode
  agg_m03_evaluation_fault : ReasonCode
  agg_m04_witness_divergence : ReasonCode
  acc_l01_pending_age_exceeded : ReasonCode
  rsk_h01_rate_anomaly : ReasonCode
  rsk_h02_receipt_delay : ReasonCode

-- The string that the code is in the source.
unfoldable pub code_text : ReasonCode → Text
code_text acc_i01_no_approved_baseline = units "ACC-I01-NO-APPROVED-BASELINE"
code_text acc_i02_no_source_lock_version = units "ACC-I02-NO-SOURCE-LOCK-VERSION"
code_text acc_i03_census_incomplete = units "ACC-I03-CENSUS-INCOMPLETE"
code_text acc_i04_no_pinned_block = units "ACC-I04-NO-PINNED-BLOCK"
code_text acc_i05_causal_cut_open = units "ACC-I05-CAUSAL-CUT-OPEN"
code_text acc_i06_stale_observation = units "ACC-I06-STALE-OBSERVATION"
code_text acc_i07_missing_observation = units "ACC-I07-MISSING-OBSERVATION"
code_text acc_i08_unknown_token_scale = units "ACC-I08-UNKNOWN-TOKEN-SCALE"
code_text acc_u01_unsupported_family = units "ACC-U01-UNSUPPORTED-FAMILY"
code_text acc_u02_unknown_fingerprint = units "ACC-U02-UNKNOWN-FINGERPRINT"
code_text acc_u03_unsupported_token_behaviour = units "ACC-U03-UNSUPPORTED-TOKEN-BEHAVIOUR"
code_text acc_u04_unsupported_route = units "ACC-U04-UNSUPPORTED-ROUTE"
code_text acc_a00_reconciled = units "ACC-A00-RECONCILED"
code_text acc_a01_excess_remote_representation = units "ACC-A01-EXCESS-REMOTE-REPRESENTATION"
code_text acc_a02_delta_unexplained = units "ACC-A02-DELTA-UNEXPLAINED"
code_text acc_a03_duplicate_economic_effect = units "ACC-A03-DUPLICATE-ECONOMIC-EFFECT"
code_text acc_a04_unauthorised_mint = units "ACC-A04-UNAUTHORISED-MINT"
code_text acc_a05_route_mismatch = units "ACC-A05-ROUTE-MISMATCH"
code_text acc_a06_arithmetic_out_of_range = units "ACC-A06-ARITHMETIC-OUT-OF-RANGE"
code_text acc_b00_coverage_sufficient = units "ACC-B00-COVERAGE-SUFFICIENT"
code_text acc_b01_coverage_shortfall = units "ACC-B01-COVERAGE-SHORTFALL"
code_text acc_b02_untracked_remote_liability = units "ACC-B02-UNTRACKED-REMOTE-LIABILITY"
code_text acc_b03_gate_a_not_passed = units "ACC-B03-GATE-A-NOT-PASSED"
code_text acc_n00_reported_upper_bound_covered = units "ACC-N00-REPORTED-UPPER-BOUND-COVERED"
code_text acc_n01_upper_bound_above_coverage_indeterminate =
    units "ACC-N01-UPPER-BOUND-ABOVE-COVERAGE-INDETERMINATE"
code_text acc_n02_supply_lower_bound_exceeds_coverage =
    units "ACC-N02-SUPPLY-LOWER-BOUND-EXCEEDS-COVERAGE"
code_text cfg_n01_unexpected_minter_role = units "CFG-N01-UNEXPECTED-MINTER-ROLE"
code_text cfg_n02_unauthorised_native_mint = units "CFG-N02-UNAUTHORISED-NATIVE-MINT"
code_text cfg_n03_native_minter_census_incomplete = units "CFG-N03-NATIVE-MINTER-CENSUS-INCOMPLETE"
code_text cfg_n04_duplicate_fee_report = units "CFG-N04-DUPLICATE-FEE-REPORT"
code_text cfg_n05_fee_remint_semantics_unverified = units "CFG-N05-FEE-REMINT-SEMANTICS-UNVERIFIED"
code_text cfg_d01_baseline_drift = units "CFG-D01-BASELINE-DRIFT"
code_text cfg_d02_unapproved_candidate = units "CFG-D02-UNAPPROVED-CANDIDATE"
code_text cfg_d03_control_unresolved = units "CFG-D03-CONTROL-UNRESOLVED"
code_text agg_m01_required_evaluation_missing = units "AGG-M01-REQUIRED-EVALUATION-MISSING"
code_text agg_m02_previous_ok_expired = units "AGG-M02-PREVIOUS-OK-EXPIRED"
code_text agg_m03_evaluation_fault = units "AGG-M03-EVALUATION-FAULT"
code_text agg_m04_witness_divergence = units "AGG-M04-WITNESS-DIVERGENCE"
code_text acc_l01_pending_age_exceeded = units "ACC-L01-PENDING-AGE-EXCEEDED"
code_text rsk_h01_rate_anomaly = units "RSK-H01-RATE-ANOMALY"
code_text rsk_h02_receipt_delay = units "RSK-H02-RECEIPT-DELAY"

pub data ProofClass : Type 0 where
  coverage correctness liveness heuristic : ProofClass

-- `REASON_META[code].proofClass`
unfoldable pub proof_class : ReasonCode → ProofClass
proof_class acc_i01_no_approved_baseline = coverage
proof_class acc_i02_no_source_lock_version = coverage
proof_class acc_i03_census_incomplete = coverage
proof_class acc_i04_no_pinned_block = coverage
proof_class acc_i05_causal_cut_open = coverage
proof_class acc_i06_stale_observation = coverage
proof_class acc_i07_missing_observation = coverage
proof_class acc_i08_unknown_token_scale = coverage
proof_class acc_u01_unsupported_family = coverage
proof_class acc_u02_unknown_fingerprint = coverage
proof_class acc_u03_unsupported_token_behaviour = coverage
proof_class acc_u04_unsupported_route = coverage
proof_class acc_a00_reconciled = correctness
proof_class acc_a01_excess_remote_representation = correctness
proof_class acc_a02_delta_unexplained = coverage
proof_class acc_a03_duplicate_economic_effect = correctness
proof_class acc_a04_unauthorised_mint = correctness
proof_class acc_a05_route_mismatch = correctness
proof_class acc_a06_arithmetic_out_of_range = coverage
proof_class acc_b00_coverage_sufficient = coverage
proof_class acc_b01_coverage_shortfall = coverage
proof_class acc_b02_untracked_remote_liability = coverage
proof_class acc_b03_gate_a_not_passed = coverage
proof_class acc_n00_reported_upper_bound_covered = coverage
proof_class acc_n01_upper_bound_above_coverage_indeterminate = coverage
proof_class acc_n02_supply_lower_bound_exceeds_coverage = correctness
proof_class cfg_n01_unexpected_minter_role = correctness
proof_class cfg_n02_unauthorised_native_mint = correctness
proof_class cfg_n03_native_minter_census_incomplete = coverage
proof_class cfg_n04_duplicate_fee_report = correctness
proof_class cfg_n05_fee_remint_semantics_unverified = coverage
proof_class cfg_d01_baseline_drift = correctness
proof_class cfg_d02_unapproved_candidate = coverage
proof_class cfg_d03_control_unresolved = coverage
proof_class agg_m01_required_evaluation_missing = coverage
proof_class agg_m02_previous_ok_expired = coverage
proof_class agg_m03_evaluation_fault = coverage
proof_class agg_m04_witness_divergence = coverage
proof_class acc_l01_pending_age_exceeded = liveness
proof_class rsk_h01_rate_anomaly = heuristic
proof_class rsk_h02_receipt_delay = liveness
