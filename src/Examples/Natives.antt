-- ===== src/Examples/Natives.antt =====
-- The theorems on the native rule, at a covered bound and at a shortfall.
use ictt_sentinel.Base.{refl, ◌≡◌, ◌↔◌, ◌⊎◌, true, [], some, none, false}
use ictt_sentinel.Base.Int.{ℤ, pos, ◌≤ℤ◌}
use ictt_sentinel.Native.{NativeInput, NativeAssessment, assess_native}
use ictt_sentinel.Native.Assessed.{
  IsExclusive, HasMinterBreach, IsMeasured, HasShortfall, upper_bound, assess_native-sufficient_iff,
  assess_native-critical_iff,
}

-- 100 and 10 created, 20 burned: a bound of 90.
abbrev covered_by : ℤ → NativeInput
covered_by coverage = record {
  components = record {
    total_minted = some (pos 100);
    initial_reserve_imbalance = some (pos 10);
    burned_tx_fees_address_balance = some (pos 5);
    burned_for_transfer_address_balance = some (pos 15);
    components_fresh = true;
    fingerprint_recognised = true;
  };
  census = record {
    manifest_roster_provided = true;
    genesis_chain_config_read = true;
    activation_rules_known = true;
    role_history_complete_from_activation = true;
    all_candidate_roles_read = true;
    unexpected_role_holders = [];
    unauthorised_mint_observed = false;
    epochs_covered = 2;
    epochs_expected = 2;
  };
  fee_reporting = record {
    reported_reward_already_in_total_minted = true;
    duplicate_report_observed = false;
    open_report_envelopes = 0;
  };
  eligible_home_coverage = some coverage;
  trustworthy_supply_lower_bound = some (pos 80);
  collateral_needed = none;
  accepted_collateral = none;
}

assess_native-sufficient_iff_example :
    ((assess_native (covered_by (pos 95))).assessment ≡ NativeAssessment.sufficient) ↔ (
      IsMeasured (covered_by (pos 95))
      × IsExclusive (covered_by (pos 95)).census
      × ((a : ℤ) × ((covered_by (pos 95)).eligible_home_coverage ≡ some a)
          × (upper_bound (covered_by (pos 95)) ≤ℤ a)))
assess_native-sufficient_iff_example = assess_native-sufficient_iff (covered_by (pos 95)) refl

assess_native-critical_iff_example : ((assess_native (covered_by (pos 70))).critical ≡ true) ↔ (
    HasMinterBreach (covered_by (pos 70)).census
    ⊎ (IsMeasured (covered_by (pos 70))
        × IsExclusive (covered_by (pos 70)).census
        × ((a : ℤ) × ((covered_by (pos 70)).eligible_home_coverage ≡ some a)
            × HasShortfall (covered_by (pos 70)) a)))
assess_native-critical_iff_example = assess_native-critical_iff (covered_by (pos 70))
