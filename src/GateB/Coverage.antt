-- ===== src/GateB/Coverage.antt =====
-- What the verdict of Gate B says of the escrow.
use ictt_sentinel.Base.{
  ◌≡◌, ◌≢◌, refl, ap, ◌∙◌, ◌↔◌, Bool, true, List, [], ◌∷◌, Option, none, some, arith, length,
  is_empty_iff,
}
use ictt_sentinel.Base.Int.{ℤ, pos, ◌≤ℤ◌, sum_ℤ, int_laws, -ℤ_parts}
use ictt_sentinel.Inputs.{
  ProofInput, RemoteObservation, PinnedBlock, complete_from_deployment_block,
}
use ictt_sentinel.GateB.{
  RemoteLiability, GateBOutcome, Liabilities, all_of, stopped, liabilities, cover, cover_observed,
  evaluate_gate_b, GateBResult, unknown_for,
}
use ictt_sentinel.GateB.Loop.{
  AreLiabilitiesOf, some_inj, liabilities_sound, liabilities_complete, totals_bounds,
}

-- Everything that Gate B needs in order to pass.
pub record Covers (input : ProofInput) (passed : Bool) (escrow : ℤ) (ls : List RemoteLiability)
    : Type 0 where
  pub reconciled : passed ≡ true
  pub tracked : input.untracked_remotes ≡ []
  pub census : input.census ≡ complete_from_deployment_block
  pub observed : input.home_escrow.escrow_balance ≡ some escrow
  pub pinned : input.home_escrow.home_pin ≢ none
  pub each_remote : AreLiabilitiesOf input.remotes ls
  pub covered : sum_ℤ (λ l. l.ceil_home_units) ls ≤ℤ escrow

evaluate-past :
    (input : ProofInput) (passed : Bool)
    → passed ≡ true
    → input.untracked_remotes ≡ []
    → input.census ≡ complete_from_deployment_block
    → evaluate_gate_b input passed
      ≡ cover_observed input.home_escrow.escrow_balance input.home_escrow.home_pin input.remotes
unfolding evaluate_gate_b
evaluate-past input passed h k l = ground arith

evaluate-guards :
    (input : ProofInput) (passed : Bool)
    → (evaluate_gate_b input passed).outcome ≡ GateBOutcome.pass
    → (passed ≡ true)
      × (input.untracked_remotes ≡ [])
      × (input.census ≡ complete_from_deployment_block)
      × ((cover_observed input.home_escrow.escrow_balance input.home_escrow.home_pin
            input.remotes).outcome
          ≡ GateBOutcome.pass)
unfolding evaluate_gate_b
evaluate-guards input passed h =
    (ground arith, (is_empty_iff _).0 (ground arith), ground arith, ground arith)

cover_iff :
    (escrow : ℤ) (ls : List RemoteLiability)
    → ((cover escrow ls).outcome ≡ GateBOutcome.pass)
      ↔ (sum_ℤ (λ l. l.ceil_home_units) ls ≤ℤ escrow)
unfolding cover
cover_iff escrow ls = (
  λ h. ground (arith, -ℤ_parts escrow (sum_ℤ (λ l. l.ceil_home_units) ls)),
  λ h. ground (arith, -ℤ_parts escrow (sum_ℤ (λ l. l.ceil_home_units) ls)),
)

cover_inv :
    (o : Option ℤ) (pin : Option PinnedBlock) (rs : List RemoteObservation)
    → (cover_observed o pin rs).outcome ≡ GateBOutcome.pass
    → (escrow : ℤ) × (ls : List RemoteLiability) × (o ≡ some escrow)
      × (pin ≢ none)
      × AreLiabilitiesOf rs ls
      × (sum_ℤ (λ l. l.ceil_home_units) ls ≤ℤ escrow)
unfolding cover_observed
cover_inv none pin rs h = cc
cover_inv (some escrow) none rs h = cc
cover_inv (some escrow) (some pin) rs h = go (liabilities rs) refl h
  where
    go :
        (found : Liabilities)
        → liabilities rs ≡ found
        → (elim found as (λ x. GateBResult) [
          | all_of ls ↦ cover escrow ls
          | stopped reason ↦ unknown_for reason
        ]).outcome
          ≡ GateBOutcome.pass
        → (e : ℤ) × (ls : List RemoteLiability) × (some escrow ≡ some e)
          × (some pin ≢ none)
          × AreLiabilitiesOf rs ls
          × (sum_ℤ (λ l. l.ceil_home_units) ls ≤ℤ e)
    go (all_of ls) e k =
        (escrow, ls, refl, (λ q. cc), liabilities_sound rs ls e, (cover_iff escrow ls).0 k)
    go (stopped reason) e k = cc

cover_of :
    (o : Option ℤ) (pin : Option PinnedBlock) (rs : List RemoteObservation)
    (ls : List RemoteLiability) {escrow : ℤ}
    → o ≡ some escrow
    → pin ≢ none
    → AreLiabilitiesOf rs ls
    → cover_observed o pin rs ≡ cover escrow ls
unfolding cover_observed
cover_of none pin rs ls h p a = cc
cover_of (some e) none rs ls h p a = absurd (p refl)
cover_of (some e) (some pin) rs ls {escrow} h p a =
    ap
      (λ found. elim found as (λ x. GateBResult) [
        | all_of ks ↦ cover e ks
        | stopped reason ↦ unknown_for reason
      ])
      (liabilities_complete rs ls a)
    ∙ ap (λ x. cover x ls) (some_inj h)

evaluate-covered :
    (input : ProofInput) (passed : Bool) (escrow : ℤ) (ls : List RemoteLiability)
    → Covers input passed escrow ls
    → evaluate_gate_b input passed ≡ cover escrow ls
evaluate-covered input passed escrow ls c =
    evaluate-past input passed c.reconciled c.tracked c.census
    ∙ cover_of input.home_escrow.escrow_balance input.home_escrow.home_pin input.remotes ls
        c.observed c.pinned c.each_remote

-- Gate B passes exactly when Gate A did, the census is complete with no untracked remote, the escrow
-- was observed at a pin, and it covers the sum of the rounded-up liabilities of all remotes.
pub evaluate_gate_b-pass_iff :
    (input : ProofInput) (passed : Bool)
    → ((evaluate_gate_b input passed).outcome ≡ GateBOutcome.pass)
      ↔ ((escrow : ℤ) × (ls : List RemoteLiability) × Covers input passed escrow ls)
evaluate_gate_b-pass_iff input passed = (to, from)
  where
    to :
        (evaluate_gate_b input passed).outcome ≡ GateBOutcome.pass
        → (escrow : ℤ) × (ls : List RemoteLiability) × Covers input passed escrow ls
    to h =
        let g = evaluate-guards input passed h in
        let (escrow, ls, o, p, a, c) =
          cover_inv input.home_escrow.escrow_balance input.home_escrow.home_pin input.remotes g.3 in
        (
          escrow,
          ls,
          record {
            reconciled = g.0;
            tracked = g.1;
            census = g.2;
            observed = o;
            pinned = p;
            each_remote = a;
            covered = c;
          },
        )

    from :
        (escrow : ℤ) × (ls : List RemoteLiability) × Covers input passed escrow ls
        → (evaluate_gate_b input passed).outcome ≡ GateBOutcome.pass
    from (escrow, ls, c) =
        ap (λ x. x.outcome) (evaluate-covered input passed escrow ls c)
        ∙ (cover_iff escrow ls).1 c.covered

length-liabilities :
    (rs : List RemoteObservation) (ls : List RemoteLiability)
    → AreLiabilitiesOf rs ls
    → length ls ≡ length rs
length-liabilities [] [] h = refl
length-liabilities [] (l ∷ ls) h = elim h [ ]
length-liabilities (r ∷ rs) [] h = elim h [ ]
length-liabilities (r ∷ rs) (l ∷ ls) h = omega (arith, length-liabilities rs ls h.1)

cover_bounds :
    (rs : List RemoteObservation) (escrow : ℤ) (ls : List RemoteLiability)
    → AreLiabilitiesOf rs ls
    → sum_ℤ (λ l. l.ceil_home_units) ls ≤ℤ escrow
    → ((cover escrow ls).floor_liability ≤ℤ (cover escrow ls).escrow_balance)
      × (pos 0 ≤ℤ (cover escrow ls).total_dust)
      × ((cover escrow ls).total_dust ≤ℤ pos (length rs))
unfolding cover
cover_bounds rs escrow ls a c =
    let b = totals_bounds rs ls a in
    (
      omega (int_laws, b.1, c),
      omega (int_laws, b.1),
      omega (int_laws, b.2, length-liabilities rs ls a),
    )

-- When Gate B passes, the escrow also covers what the protocol would release, the sum of the
-- rounded-down liabilities, and the reported dust lies between 0 and the number of remotes.
pub evaluate_gate_b-pass_bounds :
    (input : ProofInput) (passed : Bool)
    → (evaluate_gate_b input passed).outcome ≡ GateBOutcome.pass
    → ((evaluate_gate_b input passed).floor_liability
        ≤ℤ (evaluate_gate_b input passed).escrow_balance)
      × (pos 0 ≤ℤ (evaluate_gate_b input passed).total_dust)
      × ((evaluate_gate_b input passed).total_dust ≤ℤ pos (length input.remotes))
evaluate_gate_b-pass_bounds input passed h =
    let (escrow, ls, c) = (evaluate_gate_b-pass_iff input passed).0 h in
    rw (evaluate-covered input passed escrow ls c)
      (cover_bounds input.remotes escrow ls c.each_remote c.covered)
