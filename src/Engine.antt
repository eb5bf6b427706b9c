-- ===== src/Engine.antt =====
-- packages/invariant-core/src/engine.ts and outcome.ts: the canonical ERC20 rule, which runs the two
-- gates in order. The digest of the input is an argument of the rule.
pub mod Combine
use Prim.Native.String.{String}
use ictt_sentinel.Base.{
  ℕ, Bool, true, false, not, List, [], ◌∷◌, ◌++◌, Option, none, some, map, filter, length, is_empty,
  flat_map, if◌then◌else◌,
}
use ictt_sentinel.Base.Int.{ℤ, ◌-ℤ◌, sum_ℤ}
use ictt_sentinel.Base.Text.{Text, units, text_le}
use ictt_sentinel.Base.Decimal.{decimal_ℤ}
use ictt_sentinel.Base.Sets.{unique, sort, text_Eq}
use ictt_sentinel.Inputs.{ProofInput, PinnedBlock}
use ictt_sentinel.Domain.{Verdict}
use ictt_sentinel.Reason.{ReasonCode}
use ictt_sentinel.Reason.Codes.{code_Eq}
use ictt_sentinel.GateA.{GateAResult, GateAOutcome, evaluate_gate_a, keep_some, is_over_age}
use ictt_sentinel.GateB.{GateBResult, GateBOutcome, evaluate_gate_b}

-- `PROOF_RESULTS`
pub data ProofResult : Type 0 where
  pass fail unknown unsupported : ProofResult

pub data MeasurementUnit : Type 0 where
  remote_base_units home_base_units : MeasurementUnit

pub record Measurement : Type 0 where
  pub expected : ℤ
  pub observed : ℤ
  pub delta : ℤ
  pub unit : MeasurementUnit

pub record PendingBreakdown : Type 0 where
  pub home_to_remote : ℤ
  pub remote_to_home : ℤ
  pub total : ℤ
  pub count : ℕ
  pub over_age_count : ℕ

pub record EvidenceRefs : Type 0 where
  pub pinned_blocks : List Text
  pub witness_groups : ℕ
  pub required_witness_groups : ℕ
  pub source_lock_commit_sha : Option Text
  pub adapter_id : Option Text
  pub adapter_version : Option ℕ

pub record RuleOutput : Type 0 where
  pub rule_id : String
  pub rule_version : Text
  pub result : ProofResult
  pub verdict_candidate : Verdict
  pub reasons : List ReasonCode
  pub measurement : Option Measurement
  pub pending : Option PendingBreakdown
  pub evidence : EvidenceRefs
  pub assumptions : List String
  pub exclusions : List String
  pub input_digest : Text

-- `verdictFor` of outcome.ts
unfoldable pub verdict_for : ProofResult → Bool → Verdict
verdict_for pass proven = Verdict.ok
verdict_for fail proven = if proven then Verdict.critical else Verdict.warn
verdict_for unknown proven = Verdict.unknown
verdict_for unsupported proven = Verdict.unknown

-- `isGreen` of outcome.ts
unfoldable pub is_green : RuleOutput → Bool
is_green o = elim o.result [
  | pass ↦ elim o.verdict_candidate [ Verdict.ok ↦ true | _ ↦ false ]
  | _ ↦ false
]

unfoldable pub combine_outcomes : GateAOutcome → GateBOutcome → ProofResult
combine_outcomes GateAOutcome.unsupported b = unsupported
combine_outcomes GateAOutcome.unknown b = unknown
combine_outcomes GateAOutcome.fail b = fail
combine_outcomes GateAOutcome.pass GateBOutcome.fail = fail
combine_outcomes GateAOutcome.pass GateBOutcome.unknown = unknown
combine_outcomes GateAOutcome.pass GateBOutcome.pass = pass

-- `combine`
unfoldable pub combine : GateAResult → GateBResult → ProofResult
unfolding combine_outcomes
combine a b = combine_outcomes a.outcome b.outcome

abbrev pub gate_a_is_pass : GateAOutcome → Bool
gate_a_is_pass GateAOutcome.pass = true
gate_a_is_pass _ = false

abbrev pub gate_a_is_unsupported : GateAOutcome → Bool
gate_a_is_unsupported GateAOutcome.unsupported = true
gate_a_is_unsupported _ = false

-- `pendingBreakdown`
abbrev pub pending_breakdown : ProofInput → GateAResult → PendingBreakdown
pending_breakdown input gate_a = record {
  home_to_remote = sum_ℤ (λ r. r.pending_home_to_remote) gate_a.per_remote;
  remote_to_home = sum_ℤ (λ r. r.pending_remote_to_home) gate_a.per_remote;
  total = gate_a.total_pending;
  count = length input.pending;
  over_age_count = length (filter (is_over_age input) input.pending);
}

abbrev pub measurement_of : GateAResult → Option Measurement
measurement_of gate_a =
    if not (gate_a_is_unsupported gate_a.outcome)
    then (if not (is_empty gate_a.per_remote)
        then some (record {
          expected = gate_a.total_pending;
          observed = gate_a.total_delta;
          delta = gate_a.total_delta -ℤ gate_a.total_pending;
          unit = remote_base_units;
        })
        else none)
    else none

abbrev pub assumptions : List String
assumptions =
    "Both getTransferredBalance and remote totalSupply are in remote base units, verified from the pinned source; no rescaling is applied before the subtraction."
    ∷ "Canonical ERC20 remotes are initialised with a zero reserve imbalance, so no initial-collateral term participates."
    ∷ "Provider quorum is counted over independent provider groups and is not a cryptographic or Byzantine guarantee."
    ∷ "Observed escrow is on-chain coverage at a pinned block; it is not legal recoverability and not absolute solvency."
    ∷ []

abbrev pub exclusions : List String
exclusions =
    "Native token remotes, custom ERC20 remotes, rebase, fee-on-transfer and blacklist wrappers."
    ∷ "Multi-hop and remote-to-remote routes; they are never flattened into a single hop."
    ∷ "Any claim about independent ICM/BLS verification; the assurance mode here is accepted state."
    ∷ []

pub record CanonicalErc20Evaluation : Type 0 where
  pub output : RuleOutput
  pub gate_a : GateAResult
  pub gate_b : GateBResult

-- `${p.blockchainId}@${p.blockNumber.toString(10)}:${p.blockHash}`
unfoldable pub pin_text : PinnedBlock → Text
unfolding decimal_ℤ
pin_text p =
    p.blockchain_id ++ (units "@" ++ (decimal_ℤ p.block_number ++ (units ":" ++ p.block_hash)))

-- `pinRefs`
unfoldable pub pin_refs : ProofInput → List Text
unfolding pin_text
pin_refs input = sort text_le (
    unique (
      map pin_text (
        flat_map (λ r. keep_some r.home_pin ++ keep_some r.remote_pin) input.remotes
        ++ keep_some input.home_escrow.home_pin)))

-- `digest input` is `hash(canonicalInputString(input))`.
module _ (digest : ProofInput → Text) where
  unfoldable pub evaluate_canonical_erc20 : ProofInput → CanonicalErc20Evaluation
  unfolding combine verdict_for pin_refs
  evaluate_canonical_erc20 input =
      let gate_a = evaluate_gate_a input in
      let gate_b = evaluate_gate_b input (gate_a_is_pass gate_a.outcome) in
      let result = combine gate_a gate_b in
      record {
        output = record {
          rule_id = "ACC-ERC20-CANONICAL";
          rule_version = input.provenance.rule_version;
          result = result;
          verdict_candidate = verdict_for result gate_a.critical;
          reasons =
              unique
                (gate_a.reasons ++ (if gate_a_is_pass gate_a.outcome then gate_b.reasons else []));
          measurement = measurement_of gate_a;
          pending =
              if not (is_empty gate_a.per_remote)
              then some (pending_breakdown input gate_a)
              else none;
          evidence = record {
            pinned_blocks = pin_refs input;
            witness_groups = input.freshness.independent_witness_groups;
            required_witness_groups = input.freshness.required_witness_groups;
            source_lock_commit_sha = input.provenance.source_lock_commit_sha;
            adapter_id = input.provenance.adapter_id;
            adapter_version = input.provenance.adapter_version;
          };
          assumptions = assumptions;
          exclusions = exclusions;
          input_digest = digest input;
        };
        gate_a = gate_a;
        gate_b = gate_b;
      }
