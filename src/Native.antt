-- ===== src/Native.antt =====
-- packages/invariant-core/src/native.ts: the native token rule, a reported upper bound on the supply
-- against the coverage at home.
pub mod Assessed
use ictt_sentinel.Base.{
  ℕ, ◌≡◌, Bool, true, false, not, ◌&&◌, ◌||◌, List, [], ◌∷◌, ◌++◌, Option, none, some, is_empty,
  is_none, when, if◌then◌else◌, leb,
}
use ictt_sentinel.Base.Int.{ℤ, pos, ◌+ℤ◌, ◌-ℤ◌, leb_ℤ, ltb_ℤ}
use ictt_sentinel.Base.Text.{Text}
use ictt_sentinel.Inputs.{max_uint256}
use ictt_sentinel.Reason.{
  ReasonCode, cfg_n01_unexpected_minter_role, cfg_n02_unauthorised_native_mint,
  cfg_n03_native_minter_census_incomplete, cfg_n04_duplicate_fee_report,
  cfg_n05_fee_remint_semantics_unverified, acc_u02_unknown_fingerprint, acc_i06_stale_observation,
  acc_i07_missing_observation, acc_a06_arithmetic_out_of_range,
  acc_n00_reported_upper_bound_covered, acc_n01_upper_bound_above_coverage_indeterminate,
  acc_n02_supply_lower_bound_exceeds_coverage,
}
use ictt_sentinel.GateA.{or_zero}

pub record NativeSupplyComponents : Type 0 where
  pub total_minted : Option ℤ
  pub initial_reserve_imbalance : Option ℤ
  pub burned_tx_fees_address_balance : Option ℤ
  pub burned_for_transfer_address_balance : Option ℤ
  pub components_fresh : Bool
  pub fingerprint_recognised : Bool

pub record MinterCensus : Type 0 where
  pub manifest_roster_provided : Bool
  pub genesis_chain_config_read : Bool
  pub activation_rules_known : Bool
  pub role_history_complete_from_activation : Bool
  pub all_candidate_roles_read : Bool
  pub unexpected_role_holders : List Text
  pub unauthorised_mint_observed : Bool
  pub epochs_covered : ℕ
  pub epochs_expected : ℕ

pub record BurnedFeeReporting : Type 0 where
  pub reported_reward_already_in_total_minted : Bool
  pub duplicate_report_observed : Bool
  pub open_report_envelopes : ℕ

pub record NativeInput : Type 0 where
  pub components : NativeSupplyComponents
  pub census : MinterCensus
  pub fee_reporting : BurnedFeeReporting
  pub eligible_home_coverage : Option ℤ
  pub trustworthy_supply_lower_bound : Option ℤ
  pub collateral_needed : Option ℤ
  pub accepted_collateral : Option ℤ

pub data NativeAssessment : Type 0 where
  sufficient indeterminate unknown : NativeAssessment

-- The `intermediates` of the source are the last two fields.
pub record NativeResult : Type 0 where
  pub assessment : NativeAssessment
  pub reported_upper_bound : Option ℤ
  pub eligible_coverage : Option ℤ
  pub headroom : Option ℤ
  pub critical : Bool
  pub minter_exclusivity_established : Bool
  pub reasons : List ReasonCode
  pub created : Option ℤ
  pub burned : Option ℤ

pub record MinterAssessment : Type 0 where
  pub established : Bool
  pub critical : Bool
  pub reasons : List ReasonCode

-- `allPresent`
abbrev pub all_present : NativeSupplyComponents → Bool
all_present c =
    not (is_none c.total_minted)
    && not (is_none c.initial_reserve_imbalance)
    && not (is_none c.burned_tx_fees_address_balance)
    && not (is_none c.burned_for_transfer_address_balance)

abbrev pub census_critical : MinterCensus → Bool
census_critical census =
    not (is_empty census.unexpected_role_holders) || census.unauthorised_mint_observed

abbrev pub census_complete : MinterCensus → Bool
census_complete census =
    census.manifest_roster_provided
    && census.genesis_chain_config_read
    && census.activation_rules_known
    && census.role_history_complete_from_activation
    && census.all_candidate_roles_read
    && leb census.epochs_expected census.epochs_covered

-- `assessMinterCensus`
unfoldable pub assess_minter_census : MinterCensus → MinterAssessment
assess_minter_census census = record {
  established = census_complete census && not (census_critical census);
  critical = census_critical census;
  reasons =
      when (not (is_empty census.unexpected_role_holders)) cfg_n01_unexpected_minter_role
      ++ (when census.unauthorised_mint_observed cfg_n02_unauthorised_native_mint
          ++ when (not (census_complete census)) cfg_n03_native_minter_census_incomplete);
}

-- A result that carries `...empty`.
abbrev pub not_measured : NativeInput → List ReasonCode → NativeResult
not_measured input reasons = record {
  assessment = NativeAssessment.unknown;
  reported_upper_bound = none;
  eligible_coverage = input.eligible_home_coverage;
  headroom = none;
  critical = (assess_minter_census input.census).critical;
  minter_exclusivity_established = (assess_minter_census input.census).established;
  reasons = reasons;
  created = none;
  burned = none;
}

-- A result that carries the bound and the headroom.
abbrev pub measured_as : ℤ → ℤ → ℤ → NativeAssessment → Bool → Bool → List ReasonCode → NativeResult
measured_as created burned coverage assessment critical established reasons = record {
  assessment = assessment;
  reported_upper_bound = some (created -ℤ burned);
  eligible_coverage = some coverage;
  headroom = some (coverage -ℤ (created -ℤ burned));
  critical = critical;
  minter_exclusivity_established = established;
  reasons = reasons;
  created = some created;
  burned = some burned;
}

-- `lower !== null && lower > coverage`
abbrev pub lower_exceeds : Option ℤ → ℤ → Bool
lower_exceeds none coverage = false
lower_exceeds (some lower) coverage = ltb_ℤ coverage lower

-- The part of `assessNative` behind `const headroom`.
unfoldable pub judge_bound : NativeInput → List ReasonCode → ℤ → ℤ → ℤ → NativeResult
judge_bound input reasons created burned coverage =
    if not (assess_minter_census input.census).established
    then measured_as created burned coverage
        (if (assess_minter_census input.census).critical
          then NativeAssessment.indeterminate
          else NativeAssessment.unknown)
        (assess_minter_census input.census).critical false reasons
    else if leb_ℤ (created -ℤ burned) coverage
    then measured_as created burned coverage NativeAssessment.sufficient false true
        (reasons ++ acc_n00_reported_upper_bound_covered ∷ [])
    else if lower_exceeds input.trustworthy_supply_lower_bound coverage
    then measured_as created burned coverage NativeAssessment.indeterminate true true
        (reasons ++ acc_n02_supply_lower_bound_exceeds_coverage ∷ [])
    else measured_as created burned coverage NativeAssessment.indeterminate false true
        (reasons ++ acc_n01_upper_bound_above_coverage_indeterminate ∷ [])

-- The test of `coverage === null` and what follows it.
abbrev pub against_coverage : NativeInput → List ReasonCode → ℤ → ℤ → Option ℤ → NativeResult
against_coverage input reasons created burned none =
    record (not_measured input (reasons ++ acc_i07_missing_observation ∷ [])) {
      reported_upper_bound = some (created -ℤ burned);
      created = some created;
      burned = some burned;
    }
against_coverage input reasons created burned (some coverage) =
    judge_bound input reasons created burned coverage

abbrev pub created_of : NativeSupplyComponents → ℤ
created_of c = or_zero c.total_minted +ℤ or_zero c.initial_reserve_imbalance

abbrev pub burned_of : NativeSupplyComponents → ℤ
burned_of c =
    or_zero c.burned_tx_fees_address_balance +ℤ or_zero c.burned_for_transfer_address_balance

-- `reasons` behind the test of a repeated fee report.
abbrev pub fee_reasons : NativeInput → List ReasonCode
fee_reasons input =
    (assess_minter_census input.census).reasons
    ++ when input.fee_reporting.duplicate_report_observed cfg_n04_duplicate_fee_report

-- `assessNative`
unfoldable pub assess_native : NativeInput → NativeResult
unfolding judge_bound
assess_native input =
    if not input.components.fingerprint_recognised
    then not_measured input (minter_reasons ++ acc_u02_unknown_fingerprint ∷ [])
    else if not (all_present input.components)
    then not_measured input (minter_reasons ++ acc_i07_missing_observation ∷ [])
    else if not input.components.components_fresh
    then not_measured input (minter_reasons ++ acc_i06_stale_observation ∷ [])
    else if not input.fee_reporting.reported_reward_already_in_total_minted
    then not_measured input (fee_reasons input ++ cfg_n05_fee_remint_semantics_unverified ∷ [])
    else if ltb_ℤ max_uint256 (created_of input.components)
    then not_measured input (fee_reasons input ++ acc_a06_arithmetic_out_of_range ∷ [])
    else against_coverage input (fee_reasons input) (created_of input.components)
        (burned_of input.components) input.eligible_home_coverage
  where
    minter_reasons : List ReasonCode
    minter_reasons = (assess_minter_census input.census).reasons
