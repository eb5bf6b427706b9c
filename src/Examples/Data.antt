-- ===== src/Examples/Data.antt =====
-- One remote with 100 units accounted to it at home, 70 minted, and 30 in flight.
use ictt_sentinel.Base.{Bool, true, false, List, [], ◌∷◌, none, some}
use ictt_sentinel.Base.Int.{ℤ, pos}
use ictt_sentinel.Base.Text.{Text, units}
use ictt_sentinel.Inputs.{
  ProofInput, ProvenanceInput, PinnedBlock, RemoteObservation, PendingEnvelope, CreditedEffect,
  home_to_remote, complete_from_deployment_block, closed,
}
use ictt_sentinel.GateA.{supported_family}
use ictt_sentinel.Verdict.{
  RuleContribution, AggregationInput, ClaimMode, RuleResult, DataStatus, CoverageState,
}

abbrev pub block : PinnedBlock
block = record { blockchain_id = units "home"; block_number = pos 7; block_hash = units "0xb7" }

abbrev pub provenance : ProvenanceInput
provenance = record {
  manifest_hash = some (units "m");
  policy_hash = some (units "p");
  source_lock_commit_sha = some (units "8fef6ef");
  adapter_id = some (units "ictt");
  adapter_version = some 1;
  rule_version = units "1";
}

abbrev pub remote_with : ℤ → RemoteObservation
remote_with supply = record {
  remote_blockchain_id = units "L1";
  remote_address = units "0xr";
  transferred_balance = some (pos 100);
  remote_total_supply = some supply;
  scale = record {
    token_multiplier = pos 1;
    multiply_on_remote = true;
    home_decimals = 18;
    remote_decimals = 18;
    established = true;
  };
  home_pin = some block;
  remote_pin = some block;
  fingerprint_recognised = true;
  token_behaviour_canonical = true;
  route_single_hop = true;
  initial_reserve_imbalance = pos 0;
}

abbrev pub envelope : Text → ℤ → PendingEnvelope
envelope key amount = record {
  message_key = key;
  direction = home_to_remote;
  amount = amount;
  age_seconds = 5;
  remote_blockchain_id = units "L1";
  remote_address = units "0xr";
}

abbrev pub effect : CreditedEffect
effect = record {
  message_key = units "k1";
  remote_blockchain_id = units "L1";
  remote_address = units "0xr";
  amount = pos 70;
  has_unique_authorised_source = true;
  route_matches_source = true;
  duplicate_effect = false;
  causal_source_fact = some (units "f1");
}

abbrev pub input_with : ℤ → ProofInput
input_with supply = record {
  deployment_id = units "d";
  family = supported_family;
  provenance = provenance;
  census = complete_from_deployment_block;
  untracked_remotes = [];
  cut = closed;
  freshness = record { fresh = true; independent_witness_groups = 2; required_witness_groups = 2 };
  remotes = remote_with supply ∷ [];
  pending = envelope (units "k2") (pos 30) ∷ [];
  effects = effect ∷ [];
  home_escrow = record {
    escrow_balance = some (pos 100);
    home_pin = some block;
    accepted_collateral_home_units = pos 0;
  };
  pending_age_limit_seconds = 60;
}

-- 100 = 70 + 30
abbrev pub healthy_input : ProofInput
healthy_input = input_with (pos 70)

-- 100 < 200
abbrev pub breached_input : ProofInput
breached_input = input_with (pos 200)

abbrev pub fixed_digest : ProofInput → Text
fixed_digest _ = units "0xd"

abbrev pub rule : Text → RuleResult → Bool → RuleContribution
rule rule_id result critical = record {
  rule_id = rule_id;
  result = result;
  critical = critical;
  required = true;
  claim_mode = ClaimMode.causal_exact;
  reasons = [];
  liveness_only = none;
}

abbrev pub verdict_input : List RuleContribution → AggregationInput
verdict_input contributions = record {
  contributions = contributions;
  data_status = DataStatus.complete;
  coverage = CoverageState.complete;
  missing_required_evaluations = [];
  previous_ok_expired = false;
  evaluation_faults = [];
}
