-- ===== src/Reason/Codes.antt =====
-- Reason codes are told apart by their spelling: two codes with one string are one code.
use ictt_sentinel.Base.{
  ◌≡◌, refl, sym, ap, ◌∙◌, ◌↔◌, Bool, true, Option, none, some, List, [], ◌∷◌, if◌then◌else◌,
}
use ictt_sentinel.Base.Text.{
  Text, text_eq, text_eq_iff, text_le, text_le_total, text_le_antisymm, text_le_trans,
}
use ictt_sentinel.Base.Sets.{Eq, IsOrder}
use ictt_sentinel.Reason.{
  ReasonCode, code_text, acc_i01_no_approved_baseline, acc_i02_no_source_lock_version,
  acc_i03_census_incomplete, acc_i04_no_pinned_block, acc_i05_causal_cut_open,
  acc_i06_stale_observation, acc_i07_missing_observation, acc_i08_unknown_token_scale,
  acc_u01_unsupported_family, acc_u02_unknown_fingerprint, acc_u03_unsupported_token_behaviour,
  acc_u04_unsupported_route, acc_a00_reconciled, acc_a01_excess_remote_representation,
  acc_a02_delta_unexplained, acc_a03_duplicate_economic_effect, acc_a04_unauthorised_mint,
  acc_a05_route_mismatch, acc_a06_arithmetic_out_of_range, acc_b00_coverage_sufficient,
  acc_b01_coverage_shortfall, acc_b02_untracked_remote_liability, acc_b03_gate_a_not_passed,
  acc_n00_reported_upper_bound_covered, acc_n01_upper_bound_above_coverage_indeterminate,
  acc_n02_supply_lower_bound_exceeds_coverage, cfg_n01_unexpected_minter_role,
  cfg_n02_unauthorised_native_mint, cfg_n03_native_minter_census_incomplete,
  cfg_n04_duplicate_fee_report, cfg_n05_fee_remint_semantics_unverified, cfg_d01_baseline_drift,
  cfg_d02_unapproved_candidate, cfg_d03_control_unresolved, agg_m01_required_evaluation_missing,
  agg_m02_previous_ok_expired, agg_m03_evaluation_fault, agg_m04_witness_divergence,
  acc_l01_pending_age_exceeded, rsk_h01_rate_anomaly, rsk_h02_receipt_delay,
}

-- The first listed code with the given spelling.
find_code : Text → List ReasonCode → Option ReasonCode
find_code t [] = none
find_code t (c ∷ cs) = let rest = find_code t cs in if text_eq (code_text c) t then some c else rest

all_codes : List ReasonCode
all_codes =
    acc_i01_no_approved_baseline ∷ acc_i02_no_source_lock_version ∷ acc_i03_census_incomplete
    ∷ acc_i04_no_pinned_block ∷ acc_i05_causal_cut_open ∷ acc_i06_stale_observation
    ∷ acc_i07_missing_observation ∷ acc_i08_unknown_token_scale ∷ acc_u01_unsupported_family
    ∷ acc_u02_unknown_fingerprint ∷ acc_u03_unsupported_token_behaviour ∷ acc_u04_unsupported_route
    ∷ acc_a00_reconciled ∷ acc_a01_excess_remote_representation ∷ acc_a02_delta_unexplained
    ∷ acc_a03_duplicate_economic_effect ∷ acc_a04_unauthorised_mint ∷ acc_a05_route_mismatch
    ∷ acc_a06_arithmetic_out_of_range ∷ acc_b00_coverage_sufficient ∷ acc_b01_coverage_shortfall
    ∷ acc_b02_untracked_remote_liability ∷ acc_b03_gate_a_not_passed
    ∷ acc_n00_reported_upper_bound_covered ∷ acc_n01_upper_bound_above_coverage_indeterminate
    ∷ acc_n02_supply_lower_bound_exceeds_coverage ∷ cfg_n01_unexpected_minter_role
    ∷ cfg_n02_unauthorised_native_mint ∷ cfg_n03_native_minter_census_incomplete
    ∷ cfg_n04_duplicate_fee_report ∷ cfg_n05_fee_remint_semantics_unverified
    ∷ cfg_d01_baseline_drift ∷ cfg_d02_unapproved_candidate ∷ cfg_d03_control_unresolved
    ∷ agg_m01_required_evaluation_missing ∷ agg_m02_previous_ok_expired ∷ agg_m03_evaluation_fault
    ∷ agg_m04_witness_divergence ∷ acc_l01_pending_age_exceeded ∷ rsk_h01_rate_anomaly
    ∷ rsk_h02_receipt_delay ∷ []

find-code_text : (c : ReasonCode) → find_code (code_text c) all_codes ≡ some c
unfolding find_code all_codes code_text text_eq
find-code_text acc_i01_no_approved_baseline = refl
find-code_text _ = refl

some_inj : {a b : ReasonCode} → some a ≡ some b → a ≡ b
some_inj h = cc

pub code_text_inj : (a b : ReasonCode) → code_text a ≡ code_text b → a ≡ b
code_text_inj a b h =
    some_inj (sym (find-code_text a) ∙ ap (λ t. find_code t all_codes) h ∙ find-code_text b)

-- `a === b`
unfoldable pub code_eq : ReasonCode → ReasonCode → Bool
unfolding code_text text_eq
code_eq a b = text_eq (code_text a) (code_text b)

pub code_eq_iff : (a b : ReasonCode) → (code_eq a b ≡ true) ↔ (a ≡ b)
unfolding code_eq
code_eq_iff a b =
    (λ h. code_text_inj a b ((text_eq_iff _ _).0 h), λ h. (text_eq_iff _ _).1 (ap code_text h))

instance abbrev pub code_Eq : Eq ReasonCode
code_Eq = record { beq = code_eq; beq_iff = code_eq_iff }

-- The order by which `sort()` arranges reason codes.
unfoldable pub code_le : ReasonCode → ReasonCode → Bool
unfolding code_text text_le
code_le a b = text_le (code_text a) (code_text b)

pub code_le-IsOrder : IsOrder code_le
unfolding code_le
code_le-IsOrder = record {
  total = λ a b. text_le_total (code_text a) (code_text b);
  antisymm = λ a b h k. code_text_inj a b (text_le_antisymm _ _ h k);
  trans = λ a b c. text_le_trans (code_text a) (code_text b) (code_text c);
}
