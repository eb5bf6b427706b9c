-- ===== src/Examples/Gates.antt =====
-- The theorems on the two gates and the rule, at the inputs of Data.
use mathlib.Core.List.Permᴰ
use ictt_sentinel.Base.{◌≡◌, refl, ◌↔◌, true, List, [], ◌∷◌, Memᴰ, Permᴰ, arith, All}
use ictt_sentinel.Base.Int.{ℤ, pos, ◌+ℤ◌, ◌-ℤ◌, ◌%ℤ◌, ◌/ℤ◌, sum_ℤ}
use ictt_sentinel.Inputs.{ProofInput, RemoteObservation, PendingEnvelope}
use ictt_sentinel.Examples.Data.{healthy_input, breached_input, fixed_digest, effect, envelope}
use ictt_sentinel.GateA.{
  GateAOutcome, evaluate_gate_a, mine, unsupported_reasons, missing_input_reasons,
}
use ictt_sentinel.GateA.Contract.{IsAdmissible, passes_contract_iff}
use ictt_sentinel.GateA.Outcome.{IsSound, Reconciles, evaluate_gate_a-pass_iff}
use ictt_sentinel.GateA.Breach.{HasBreach, evaluate_gate_a-critical_iff}
use ictt_sentinel.GateA.Ledger.{Route, Step, Reach, Observes, evaluate_gate_a-healthy_pass}
use ictt_sentinel.GateB.{RemoteLiability, GateBOutcome, to_home_units, evaluate_gate_b}
use ictt_sentinel.GateB.Coverage.{Covers, evaluate_gate_b-pass_iff}
use ictt_sentinel.Engine.{evaluate_canonical_erc20, is_green}
use ictt_sentinel.Engine.Combine.{IsReconciled, is_green-evaluate_iff}
use ictt_sentinel.Base.Text.{units, text_eq}
use ictt_sentinel.Base.Sets.{unique}

healthy-IsAdmissible : IsAdmissible healthy_input
unfolding unsupported_reasons unique text_eq missing_input_reasons
healthy-IsAdmissible = (passes_contract_iff healthy_input).0 refl

effect-IsSound : All IsSound (effect ∷ [])
effect-IsSound =
    (record { single = refl; authorised = refl; caused = λ e. cc; on_route = refl }, tt)

abbrev first : PendingEnvelope
first = envelope (units "k1") (pos 70)

abbrev second : PendingEnvelope
second = envelope (units "k2") (pos 30)

abbrev sent : Route
sent = record { balance = pos 70; supply = pos 0; flights = first ∷ [] }

abbrev minted : Route
minted = record { balance = pos 70; supply = pos 70; flights = [] }

abbrev flying : Route
flying = record { balance = pos 100; supply = pos 70; flights = second ∷ [] }

flying_reached : Reach flying
unfolding ◌+ℤ◌
flying_reached =
    Reach.next
      (Reach.next (Reach.next Reach.start (Step.send first refl (omega arith) refl))
        (Step.mint first refl (Permᴰ.refl (first ∷ [])) refl refl))
      (Step.send second refl (omega arith) refl)

view :
    (r : RemoteObservation)
    → Memᴰ r healthy_input.remotes
    → (t : Route) × Observes r t × Permᴰ (mine r healthy_input.pending) t.flights
unfolding text_eq
view r (Memᴰ.head e) =
    rw e (flying, record { reached = flying_reached; balance = refl; supply = refl }, Permᴰ.refl _)
view r (Memᴰ.tail m) = elim m [ ]

viewed : (r : RemoteObservation) → Memᴰ r healthy_input.remotes → (t : Route) × Observes r t
viewed r m = let v = view r m in (v.0, v.1)

-- With a supply above the balance the contract still holds; without a remote it does not.
breached-IsAdmissible : IsAdmissible breached_input
unfolding unsupported_reasons unique text_eq missing_input_reasons
breached-IsAdmissible = (passes_contract_iff breached_input).0 refl

abbrev empty_input : ProofInput
empty_input = record healthy_input { remotes = [] }

empty_refused : ¬ IsAdmissible empty_input
empty_refused a = a.complete.some_remote refl

is_green-evaluate_iff_example :
    (is_green (evaluate_canonical_erc20 fixed_digest healthy_input).output ≡ true) ↔ (
      IsReconciled healthy_input
      × ((escrow : ℤ) × (ls : List RemoteLiability) × Covers healthy_input true escrow ls))
is_green-evaluate_iff_example = is_green-evaluate_iff fixed_digest healthy_input

evaluate_gate_a-pass_iff_example : ((evaluate_gate_a healthy_input).outcome ≡ GateAOutcome.pass) ↔ (
    IsAdmissible healthy_input
    × All IsSound healthy_input.effects
    × All (Reconciles healthy_input.pending) healthy_input.remotes)
evaluate_gate_a-pass_iff_example = evaluate_gate_a-pass_iff healthy_input

evaluate_gate_a-critical_iff_example :
    ((evaluate_gate_a breached_input).critical ≡ true)
    ↔ (IsAdmissible breached_input × HasBreach breached_input)
evaluate_gate_a-critical_iff_example = evaluate_gate_a-critical_iff breached_input

evaluate_gate_a-healthy_pass_example : (evaluate_gate_a healthy_input).outcome ≡ GateAOutcome.pass
evaluate_gate_a-healthy_pass_example =
    evaluate_gate_a-healthy_pass healthy_input healthy-IsAdmissible effect-IsSound view

evaluate_gate_b-pass_iff_example :
    ((evaluate_gate_b healthy_input true).outcome ≡ GateBOutcome.pass)
    ↔ ((escrow : ℤ) × (ls : List RemoteLiability) × Covers healthy_input true escrow ls)
evaluate_gate_b-pass_iff_example = evaluate_gate_b-pass_iff healthy_input true

healthy_covered : (evaluate_gate_b healthy_input true).outcome ≡ GateBOutcome.pass
unfolding evaluate_gate_b to_home_units ◌-ℤ◌ sum_ℤ ◌+ℤ◌ ◌%ℤ◌ ◌/ℤ◌
healthy_covered = refl

-- 7 remote units at 2 to 1 lie between 3 and 4 home units.
