-- ===== src/GateA.antt =====
-- packages/invariant-core/src/gate-a.ts: exact causal reconciliation of the canonical ERC20 route.
pub mod Contract
pub mod Outcome
pub mod Breach
pub mod Ledger
use ictt_sentinel.Base.{
  ℕ, ◌≡◌, Bool, true, false, not, ◌&&◌, ◌||◌, List, [], ◌∷◌, ◌++◌, Option, none, some, any, filter,
  is_empty, is_none, when, flat_map, if◌then◌else◌, ltb,
}
use ictt_sentinel.Base.Int.{ℤ, pos, ◌+ℤ◌, ◌-ℤ◌, leb_ℤ, ltb_ℤ, eqb_ℤ, sum_ℤ}
use ictt_sentinel.Base.Text.{Text, units, text_eq}
use ictt_sentinel.Base.Sets.{unique}
use ictt_sentinel.Inputs.{
  ProofInput, RemoteObservation, PendingEnvelope, CreditedEffect, Direction, home_to_remote,
  remote_to_home, max_uint256, census_is_complete, cut_is_closed,
}
use ictt_sentinel.Reason.{
  ReasonCode, acc_i01_no_approved_baseline, acc_i02_no_source_lock_version,
  acc_i03_census_incomplete, acc_i04_no_pinned_block, acc_i05_causal_cut_open,
  acc_i06_stale_observation, acc_i07_missing_observation, acc_i08_unknown_token_scale,
  acc_u01_unsupported_family, acc_u02_unknown_fingerprint, acc_u03_unsupported_token_behaviour,
  acc_u04_unsupported_route, acc_a00_reconciled, acc_a01_excess_remote_representation,
  acc_a02_delta_unexplained, acc_a03_duplicate_economic_effect, acc_a04_unauthorised_mint,
  acc_a05_route_mismatch, acc_a06_arithmetic_out_of_range, acc_b02_untracked_remote_liability,
  acc_l01_pending_age_exceeded,
}
use ictt_sentinel.Reason.Codes.{code_Eq}

pub record RemoteReconciliation : Type 0 where
  pub remote_blockchain_id : Text
  pub remote_address : Text
  pub transferred_balance : ℤ
  pub remote_total_supply : ℤ
  pub delta : ℤ
  pub pending_home_to_remote : ℤ
  pub pending_remote_to_home : ℤ
  pub pending_total : ℤ
  pub reconciled : Bool

pub data GateAOutcome : Type 0 where
  pass fail unknown unsupported : GateAOutcome

pub record GateAResult : Type 0 where
  pub outcome : GateAOutcome
  pub reasons : List ReasonCode
  pub critical : Bool
  pub per_remote : List RemoteReconciliation
  pub total_delta : ℤ
  pub total_pending : ℤ

-- The body of the loop of `missingInputReasons`.
abbrev pub missing_of_remote : RemoteObservation → List ReasonCode
missing_of_remote r =
    when (is_none r.transferred_balance || is_none r.remote_total_supply)
      acc_i07_missing_observation
    ++ (when (is_none r.home_pin || is_none r.remote_pin) acc_i04_no_pinned_block
        ++ when (not r.scale.established) acc_i08_unknown_token_scale)

abbrev pub missing_pushed : ProofInput → List ReasonCode
missing_pushed input =
    when (is_none p.manifest_hash || is_none p.policy_hash) acc_i01_no_approved_baseline
    ++ (when (is_none p.source_lock_commit_sha || is_none p.adapter_id || is_none p.adapter_version)
          acc_i02_no_source_lock_version
        ++ (when (not (census_is_complete input.census)) acc_i03_census_incomplete
            ++ (when (not (is_empty input.untracked_remotes)) acc_b02_untracked_remote_liability
                ++ (when (not (cut_is_closed input.cut)) acc_i05_causal_cut_open
                    ++ (when (not input.freshness.fresh) acc_i06_stale_observation
                        ++ (when
                              (ltb input.freshness.independent_witness_groups
                                input.freshness.required_witness_groups)
                              acc_i04_no_pinned_block
                            ++ (when (is_empty input.remotes) acc_i07_missing_observation
                                ++ flat_map missing_of_remote input.remotes)))))))
  where
    open input use {provenance as p}

-- `missingInputReasons`
unfoldable pub missing_input_reasons : ProofInput → List ReasonCode
missing_input_reasons input = unique (missing_pushed input)

-- `SUPPORTED_FAMILY`
abbrev pub supported_family : Text
supported_family = units "canonical-erc20-single-hop"

-- The body of the loop of `unsupportedReasons`.
abbrev pub unsupported_of_remote : RemoteObservation → List ReasonCode
unsupported_of_remote r =
    when (not r.fingerprint_recognised) acc_u02_unknown_fingerprint
    ++ (when (not r.token_behaviour_canonical) acc_u03_unsupported_token_behaviour
        ++ (when (not r.route_single_hop) acc_u04_unsupported_route
            ++ when (not (eqb_ℤ r.initial_reserve_imbalance (pos 0))) acc_u01_unsupported_family))

abbrev pub unsupported_pushed : ProofInput → List ReasonCode
unsupported_pushed input =
    when (not (text_eq input.family supported_family)) acc_u01_unsupported_family
    ++ flat_map unsupported_of_remote input.remotes

-- `unsupportedReasons`
unfoldable pub unsupported_reasons : ProofInput → List ReasonCode
unsupported_reasons input = unique (unsupported_pushed input)

abbrev pub in_range : ℤ → Bool
in_range v = leb_ℤ (pos 0) v && leb_ℤ v max_uint256

-- `x ?? 0n`
abbrev pub or_zero : Option ℤ → ℤ
or_zero none = pos 0
or_zero (some v) = v

abbrev pub out_of_range : RemoteObservation → Bool
out_of_range r =
    not (in_range (or_zero r.transferred_balance))
    || not (in_range (or_zero r.remote_total_supply))
    || not (in_range r.scale.token_multiplier)

abbrev pub is_home_to_remote : PendingEnvelope → Bool
is_home_to_remote p = elim p.direction [ home_to_remote ↦ true | remote_to_home ↦ false ]

abbrev pub is_remote_to_home : PendingEnvelope → Bool
is_remote_to_home p = elim p.direction [ home_to_remote ↦ false | remote_to_home ↦ true ]

-- The envelopes of the remote's own route.
abbrev pub mine : RemoteObservation → List PendingEnvelope → List PendingEnvelope
mine remote = filter (λ p.
    text_eq p.remote_blockchain_id remote.remote_blockchain_id
    && text_eq p.remote_address remote.remote_address)

abbrev pub pending_sum : (PendingEnvelope → Bool) → RemoteObservation → List PendingEnvelope → ℤ
pending_sum way remote pending = sum_ℤ (λ p. p.amount) (filter way (mine remote pending))

-- `reconcileRemote`, once both balances are known.
unfoldable pub reconcile : RemoteObservation → ℤ → ℤ → List PendingEnvelope → RemoteReconciliation
reconcile remote d s pending =
    let h2r = pending_sum is_home_to_remote remote pending in
    let r2h = pending_sum is_remote_to_home remote pending in
    record {
      remote_blockchain_id = remote.remote_blockchain_id;
      remote_address = remote.remote_address;
      transferred_balance = d;
      remote_total_supply = s;
      delta = d -ℤ s;
      pending_home_to_remote = h2r;
      pending_remote_to_home = r2h;
      pending_total = h2r +ℤ r2h;
      reconciled = eqb_ℤ (d -ℤ s) (h2r +ℤ r2h);
    }

abbrev pub reconcile_known :
    RemoteObservation → Option ℤ → Option ℤ → List PendingEnvelope → Option RemoteReconciliation
reconcile_known remote none s pending = none
reconcile_known remote (some d) none pending = none
reconcile_known remote (some d) (some s) pending = some (reconcile remote d s pending)

-- `reconcileRemote`
abbrev pub reconcile_remote : RemoteObservation → List PendingEnvelope → Option RemoteReconciliation
reconcile_remote remote pending =
    reconcile_known remote remote.transferred_balance remote.remote_total_supply pending

abbrev pub keep_some {ℓ} : {A : Type ℓ} → Option A → List A
keep_some none = []
keep_some (some a) = a ∷ []

-- `input.remotes.map(reconcileRemote).filter(r => r !== null)`
unfoldable pub reconcile_all :
    List RemoteObservation → List PendingEnvelope → List RemoteReconciliation
unfolding reconcile
reconcile_all remotes pending = flat_map (λ r. keep_some (reconcile_remote r pending)) remotes

abbrev pub effect_reasons_of : CreditedEffect → List ReasonCode
effect_reasons_of e =
    when e.duplicate_effect acc_a03_duplicate_economic_effect
    ++ (when (not e.has_unique_authorised_source || is_none e.causal_source_fact)
          acc_a04_unauthorised_mint
        ++ when (not e.route_matches_source) acc_a05_route_mismatch)

-- `effectReasons`
unfoldable pub effect_reasons : ProofInput → List ReasonCode
effect_reasons input = flat_map effect_reasons_of input.effects

abbrev pub is_over_age : ProofInput → PendingEnvelope → Bool
is_over_age input p = ltb input.pending_age_limit_seconds p.age_seconds

-- `livenessReasons`
unfoldable pub liveness_reasons : ProofInput → List ReasonCode
liveness_reasons input =
    when (not (is_empty (filter (is_over_age input) input.pending))) acc_l01_pending_age_exceeded

-- A result that carries no measurement.
abbrev pub refused : GateAOutcome → List ReasonCode → GateAResult
refused outcome reasons = record {
  outcome = outcome;
  reasons = reasons;
  critical = false;
  per_remote = [];
  total_delta = pos 0;
  total_pending = pos 0;
}

-- A result that carries the reconciliation of every remote.
abbrev pub measured :
    GateAOutcome → List ReasonCode → Bool → List RemoteReconciliation → GateAResult
measured outcome reasons critical per_remote = record {
  outcome = outcome;
  reasons = reasons;
  critical = critical;
  per_remote = per_remote;
  total_delta = sum_ℤ (λ r. r.delta) per_remote;
  total_pending = sum_ℤ (λ r. r.pending_total) per_remote;
}

-- The part of `evaluateGateA` behind the input contract.
unfoldable pub judge : ProofInput → List RemoteReconciliation → GateAResult
judge input per_remote =
    if not (is_empty (effect_reasons input))
    then measured GateAOutcome.fail (unique (effect_reasons input ++ liveness_reasons input)) true
        per_remote
    else if not (is_empty (filter (λ r. ltb_ℤ r.delta (pos 0)) per_remote))
    then measured GateAOutcome.fail
        (unique (acc_a01_excess_remote_representation ∷ liveness_reasons input)) true per_remote
    else if not (is_empty (filter (λ r. not r.reconciled) per_remote))
    then measured GateAOutcome.unknown (unique (acc_a02_delta_unexplained ∷ liveness_reasons input))
        false per_remote
    else measured GateAOutcome.pass (unique (acc_a00_reconciled ∷ liveness_reasons input)) false
        per_remote

-- `evaluateGateA`
unfoldable pub evaluate_gate_a : ProofInput → GateAResult
unfolding judge reconcile_all unsupported_reasons missing_input_reasons
evaluate_gate_a input =
    if not (is_empty (unsupported_reasons input))
    then refused GateAOutcome.unsupported (unsupported_reasons input)
    else if not (is_empty (missing_input_reasons input))
    then refused GateAOutcome.unknown (missing_input_reasons input)
    else if any out_of_range input.remotes
    then refused GateAOutcome.unknown (acc_a06_arithmetic_out_of_range ∷ [])
    else judge input (reconcile_all input.remotes input.pending)
