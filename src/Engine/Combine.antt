-- ===== src/Engine/Combine.antt =====
-- What the verdict candidate of the canonical ERC20 rule says of its input.
use ictt_sentinel.Base.{◌≡◌, ◌↔◌, true, List, arith, All}
use ictt_sentinel.Base.Int.{ℤ}
use ictt_sentinel.Base.Text.{Text}
use ictt_sentinel.Inputs.{ProofInput}
use ictt_sentinel.GateA.{evaluate_gate_a}
use ictt_sentinel.GateA.Contract.{IsAdmissible}
use ictt_sentinel.GateA.Outcome.{IsSound, Reconciles, evaluate_gate_a-pass_iff}
use ictt_sentinel.GateA.Breach.{HasBreach, evaluate_gate_a-critical_iff, evaluate_gate_a-fail_iff}
use ictt_sentinel.GateB.{RemoteLiability, GateBOutcome, evaluate_gate_b}
use ictt_sentinel.GateB.Coverage.{Covers, evaluate_gate_b-pass_iff}
use ictt_sentinel.Domain.{Verdict}
use ictt_sentinel.Engine.{gate_a_is_pass, evaluate_canonical_erc20, is_green}

-- The accounting of the route reconciles: what Gate A checks.
pub record IsReconciled (input : ProofInput) : Type 0 where
  pub admissible : IsAdmissible input
  pub sound : All IsSound input.effects
  pub balanced : All (Reconciles input.pending) input.remotes

IsReconciled-iff :
    (input : ProofInput)
    → (gate_a_is_pass (evaluate_gate_a input).outcome ≡ true) ↔ IsReconciled input
IsReconciled-iff input = (
  λ h.
      let t = (evaluate_gate_a-pass_iff input).0 (ground arith) in
      record { admissible = t.0; sound = t.1; balanced = t.2 },
  λ h. rw ((evaluate_gate_a-pass_iff input).1 (h.admissible, h.sound, h.balanced)),
)

module _ (digest : ProofInput → Text) where
  -- The rule is green exactly when the accounting of every remote reconciles and the escrow covers
  -- the rounded-up liabilities: `isGreen` of the rule's output, for every input and digest function.
  pub is_green-evaluate_iff :
      (input : ProofInput)
      → (is_green (evaluate_canonical_erc20 digest input).output ≡ true) ↔ (
          IsReconciled input
          × ((escrow : ℤ) × (ls : List RemoteLiability) × Covers input true escrow ls))
  unfolding is_green evaluate_canonical_erc20
  is_green-evaluate_iff input = (
    λ h.
        let a = (IsReconciled-iff input).0 (ground arith) in
        (a, (evaluate_gate_b-pass_iff input true).0 (ground (arith, (IsReconciled-iff input).1 a))),
    λ h.
        ground (arith, (IsReconciled-iff input).1 h.0, (evaluate_gate_b-pass_iff input true).1 h.1),
  )

  -- The rule proposes CRITICAL exactly when the input contract of Gate A holds and the evidence shows
  -- a breach; a shortfall of the escrow alone never does.
  pub evaluate-critical_iff :
      (input : ProofInput)
      → ((evaluate_canonical_erc20 digest input).output.verdict_candidate ≡ Verdict.critical)
        ↔ (IsAdmissible input × HasBreach input)
  unfolding evaluate_canonical_erc20
  evaluate-critical_iff input = (
    λ h. (evaluate_gate_a-critical_iff input).0 (ground arith),
    λ h.
        ground
          (arith, (evaluate_gate_a-critical_iff input).1 h, (evaluate_gate_a-fail_iff input).1),
  )

  -- The rule proposes WARN exactly when the accounting reconciles and Gate B fails.
  pub evaluate-warn_iff :
      (input : ProofInput)
      → ((evaluate_canonical_erc20 digest input).output.verdict_candidate ≡ Verdict.warn)
        ↔ (IsReconciled input × ((evaluate_gate_b input true).outcome ≡ GateBOutcome.fail))
  unfolding evaluate_canonical_erc20
  evaluate-warn_iff input = (
    λ h. (
      (IsReconciled-iff input).0 (ground (arith, (evaluate_gate_a-fail_iff input).0)),
      ground (arith, (evaluate_gate_a-fail_iff input).0),
    ),
    λ h. ground (arith, (IsReconciled-iff input).1 h.0, (evaluate_gate_a-fail_iff input).1),
  )
