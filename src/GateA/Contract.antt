-- ===== src/GateA/Contract.antt =====
-- The input contract of Gate A, stated without the code's tests, and its equivalence with them.
use ictt_sentinel.Base.{
  ◌≤◌, ◌≡◌, ◌≢◌, ◌↔◌, Bool, true, false, not, ◌&&◌, ◌||◌, List, [], none, arith, any, is_empty,
  flat_map, All, All-map, any-false_iff, is_empty_iff, is_empty-flat_map_iff, Bool-cases, inl, inr,
}
use ictt_sentinel.Base.Int.{ℤ, pos, ◌≤ℤ◌, eqb_ℤ_iff}
use ictt_sentinel.Base.Text.{text_eq_iff}
use ictt_sentinel.Base.Sets.{is_empty-unique}
use ictt_sentinel.Inputs.{
  ProofInput, RemoteObservation, complete_from_deployment_block, closed, max_uint256,
}
use ictt_sentinel.Reason.Codes.{code_Eq}
use ictt_sentinel.GateA.{
  unsupported_reasons, unsupported_pushed, unsupported_of_remote, supported_family,
  missing_input_reasons, missing_pushed, missing_of_remote, in_range, or_zero, out_of_range,
  evaluate_gate_a, judge, reconcile_all, GateAOutcome,
}

-- The remote is of the shape that the equation was verified for.
pub record IsSupported (r : RemoteObservation) : Type 0 where
  pub recognised : r.fingerprint_recognised ≡ true
  pub canonical : r.token_behaviour_canonical ≡ true
  pub single_hop : r.route_single_hop ≡ true
  pub no_imbalance : r.initial_reserve_imbalance ≡ pos 0

-- Both balances, both pins and the scale of the remote were established.
pub record IsObserved (r : RemoteObservation) : Type 0 where
  pub balance : r.transferred_balance ≢ none
  pub supply : r.remote_total_supply ≢ none
  pub home_pinned : r.home_pin ≢ none
  pub remote_pinned : r.remote_pin ≢ none
  pub scaled : r.scale.established ≡ true

abbrev pub IsUint256 : ℤ → Type 0
IsUint256 v = (pos 0 ≤ℤ v) × (v ≤ℤ max_uint256)

pub record IsInRange (r : RemoteObservation) : Type 0 where
  pub balance : IsUint256 (or_zero r.transferred_balance)
  pub supply : IsUint256 (or_zero r.remote_total_supply)
  pub multiplier : IsUint256 r.scale.token_multiplier

-- The part of the contract that `missingInputReasons` checks.
pub record IsComplete (input : ProofInput) : Type 0 where
  pub manifest : input.provenance.manifest_hash ≢ none
  pub policy : input.provenance.policy_hash ≢ none
  pub source_lock : input.provenance.source_lock_commit_sha ≢ none
  pub adapter : input.provenance.adapter_id ≢ none
  pub adapter_version : input.provenance.adapter_version ≢ none
  pub census : input.census ≡ complete_from_deployment_block
  pub tracked : input.untracked_remotes ≡ []
  pub cut : input.cut ≡ closed
  pub fresh : input.freshness.fresh ≡ true
  pub witnesses :
      input.freshness.required_witness_groups ≤ input.freshness.independent_witness_groups
  pub some_remote : input.remotes ≢ []
  pub observed : All IsObserved input.remotes

-- What Gate A demands of its input before it computes anything.
pub record IsAdmissible (input : ProofInput) : Type 0 where
  pub family : input.family ≡ supported_family
  pub supported : All IsSupported input.remotes
  pub complete : IsComplete input
  pub in_range : All IsInRange input.remotes

unsupported_of_remote_iff :
    (r : RemoteObservation) → (is_empty (unsupported_of_remote r) ≡ true) ↔ IsSupported r
unsupported_of_remote_iff r = (
  λ h. ground (arith, eqb_ℤ_iff r.initial_reserve_imbalance (pos 0)),
  λ h. ground (arith, eqb_ℤ_iff r.initial_reserve_imbalance (pos 0)),
)

missing_of_remote_iff :
    (r : RemoteObservation) → (is_empty (missing_of_remote r) ≡ true) ↔ IsObserved r
missing_of_remote_iff r = (λ h. ground arith, λ h. ground arith)

in_range_iff : (v : ℤ) → (in_range v ≡ true) ↔ IsUint256 v
in_range_iff v = (λ h. ground arith, λ h. ground arith)

none_out :
    (a b c : Bool) → ((not a || not b || not c) ≡ false) ↔ ((a ≡ true) × (b ≡ true) × (c ≡ true))
none_out a b c = (λ h. ground arith, λ h. ground arith)

out_of_range_iff : (r : RemoteObservation) → (out_of_range r ≡ false) ↔ IsInRange r
out_of_range_iff r = (
  λ h.
      let t = (none_out _ _ _).0 h in
      record {
        balance = (in_range_iff _).0 t.0;
        supply = (in_range_iff _).0 t.1;
        multiplier = (in_range_iff _).0 t.2;
      },
  λ h.
      (none_out _ _ _).1 (
        (in_range_iff _).1 h.balance,
        (in_range_iff _).1 h.supply,
        (in_range_iff _).1 h.multiplier,
      ),
)

unsupported_iff :
    (input : ProofInput)
    → (is_empty (unsupported_reasons input) ≡ true)
      ↔ ((input.family ≡ supported_family) × All IsSupported input.remotes)
unfolding unsupported_reasons
unsupported_iff input = (to, from)
  where
    pushed : is_empty (unsupported_reasons input) ≡ is_empty (unsupported_pushed input)
    pushed = is_empty-unique (unsupported_pushed input)

    to :
        is_empty (unsupported_reasons input) ≡ true
        → (input.family ≡ supported_family) × All IsSupported input.remotes
    to h = (
      (text_eq_iff _ _).0 (ground (arith, pushed)),
      All-map _ IsSupported input.remotes (λ r. (unsupported_of_remote_iff r).0)
          ((is_empty-flat_map_iff unsupported_of_remote input.remotes).0 (ground (arith, pushed))),
    )

    from :
        (input.family ≡ supported_family) × All IsSupported input.remotes
        → is_empty (unsupported_reasons input) ≡ true
    from h = ground (
      arith,
      pushed,
      (text_eq_iff input.family supported_family).1 h.0,
      (is_empty-flat_map_iff unsupported_of_remote input.remotes).1
          (All-map IsSupported _ input.remotes (λ r. (unsupported_of_remote_iff r).1) h.1),
    )

missing_iff :
    (input : ProofInput) → (is_empty (missing_input_reasons input) ≡ true) ↔ IsComplete input
unfolding missing_input_reasons
missing_iff input = (to, from)
  where
    pushed : is_empty (missing_input_reasons input) ≡ is_empty (missing_pushed input)
    pushed = is_empty-unique (missing_pushed input)

    observed_iff :
        (is_empty (flat_map missing_of_remote input.remotes) ≡ true) ↔ All IsObserved input.remotes
    observed_iff = (
      λ h.
          All-map _ IsObserved input.remotes (λ r. (missing_of_remote_iff r).0)
            ((is_empty-flat_map_iff missing_of_remote input.remotes).0 h),
      λ h.
          (is_empty-flat_map_iff missing_of_remote input.remotes).1
            (All-map IsObserved _ input.remotes (λ r. (missing_of_remote_iff r).1) h),
    )

    to : is_empty (missing_input_reasons input) ≡ true → IsComplete input
    to h = record {
      manifest = ground (arith, pushed);
      policy = ground (arith, pushed);
      source_lock = ground (arith, pushed);
      adapter = ground (arith, pushed);
      adapter_version = ground (arith, pushed);
      census = ground (arith, pushed);
      tracked = (is_empty_iff _).0 (ground (arith, pushed));
      cut = ground (arith, pushed);
      fresh = ground (arith, pushed);
      witnesses = ground (arith, pushed);
      some_remote = ground (arith, pushed);
      observed = observed_iff.0 (ground (arith, pushed));
    }

    from : IsComplete input → is_empty (missing_input_reasons input) ≡ true
    from h = ground (arith, pushed, observed_iff.1 h.observed)

-- Whether the input passes the tests in front of the arithmetic.
abbrev pub passes_contract : ProofInput → Bool
passes_contract input =
    is_empty (unsupported_reasons input)
    && is_empty (missing_input_reasons input)
    && not (any out_of_range input.remotes)

ranges_iff : (rs : List RemoteObservation) → (any out_of_range rs ≡ false) ↔ All IsInRange rs
ranges_iff rs = (
  λ h. All-map _ IsInRange rs (λ r. (out_of_range_iff r).0) ((any-false_iff out_of_range rs).0 h),
  λ h. (any-false_iff out_of_range rs).1 (All-map IsInRange _ rs (λ r. (out_of_range_iff r).1) h),
)

pub passes_contract_iff : (input : ProofInput) → (passes_contract input ≡ true) ↔ IsAdmissible input
passes_contract_iff input = (
  λ h.
      let u = (unsupported_iff input).0 (ground arith) in
      record {
        family = u.0;
        supported = u.1;
        complete = (missing_iff input).0 (ground arith);
        in_range = (ranges_iff input.remotes).0 (ground arith);
      },
  λ h. ground (
    arith,
    (unsupported_iff input).1 (h.family, h.supported),
    (missing_iff input).1 h.complete,
    (ranges_iff input.remotes).1 h.in_range,
  ),
)

-- An input that meets the contract is judged by the arithmetic of `judge` on all its remotes: Gate A
-- refuses no admissible input.
pub evaluate_gate_a-admissible :
    (input : ProofInput)
    → IsAdmissible input
    → evaluate_gate_a input ≡ judge input (reconcile_all input.remotes input.pending)
unfolding evaluate_gate_a
evaluate_gate_a-admissible input h = ground (arith, (passes_contract_iff input).1 h)

refused_tests :
    (input : ProofInput)
    → passes_contract input ≡ false
    → ((evaluate_gate_a input).outcome ≢ GateAOutcome.pass)
      × ((evaluate_gate_a input).outcome ≢ GateAOutcome.fail)
      × ((evaluate_gate_a input).critical ≡ false)
      × ((evaluate_gate_a input).per_remote ≡ [])
unfolding evaluate_gate_a
refused_tests input h = (ground arith, ground arith, ground arith, ground arith)

-- An input that does not meet the contract neither passes nor fails, raises no critical flag, and is
-- answered without a measurement.
pub evaluate_gate_a-refused :
    (input : ProofInput)
    → ¬ IsAdmissible input
    → ((evaluate_gate_a input).outcome ≢ GateAOutcome.pass)
      × ((evaluate_gate_a input).outcome ≢ GateAOutcome.fail)
      × ((evaluate_gate_a input).critical ≡ false)
      × ((evaluate_gate_a input).per_remote ≡ [])
evaluate_gate_a-refused input h = elim (Bool-cases (passes_contract input)) [
  | inl e ↦ absurd (h ((passes_contract_iff input).0 e))
  | inr e ↦ refused_tests input e
]
