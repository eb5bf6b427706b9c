-- ===== src/Verdict/Exit.antt =====
-- Exit codes and the green light.
use ictt_sentinel.Base.{◌≡◌, ap, ◌≢◌, ◌↔◌, true, false, [], arith, map}
use ictt_sentinel.Verdict.{
  ClaimMode, AggregationInput, GlobalVerdict, aggregate, weakest_claim, exit_code_of, exit_code_for,
  is_overall_green,
}
use ictt_sentinel.Verdict.Status.{IsClean, aggregate-ok_iff}

-- The exit code tells the four statuses apart, and is 0 for OK alone.
pub exit_code_for_inj :
    (v w : GlobalVerdict)
    → exit_code_for v ≡ exit_code_for w
    → v.protocol_status ≡ w.protocol_status
unfolding exit_code_for
exit_code_for_inj v w h = ground arith

-- What is shown green has the exit code 0, and was clean: `isOverallGreen` holds of an aggregate
-- only where every control is complete, fresh and passing, at least one rule contributed, and the
-- weakest claim is neither UNSUPPORTED nor INDETERMINATE.
pub is_overall_green-aggregate_iff :
    (input : AggregationInput)
    → (is_overall_green (aggregate input) ≡ true) ↔ (
        IsClean input
        × (weakest_claim (map (λ c. c.claim_mode) input.contributions) ≢ ClaimMode.unsupported)
        × (weakest_claim (map (λ c. c.claim_mode) input.contributions) ≢ ClaimMode.indeterminate))
unfolding is_overall_green aggregate
is_overall_green-aggregate_iff input = (
  λ h. ((aggregate-ok_iff input).0 (ground arith), ground arith, ground arith),
  λ h. ground (arith, (aggregate-ok_iff input).1 h.0, h.0),
)

-- An evaluation to which no rule contributed is answered OK, with exit code 0, though it is not
-- green: for every input with no contribution that is otherwise complete.
pub aggregate-no_contribution :
    (input : AggregationInput)
    → input.contributions ≡ []
    → IsClean input
    → (exit_code_for (aggregate input) ≡ 0) × (is_overall_green (aggregate input) ≡ false)
unfolding exit_code_for is_overall_green aggregate
aggregate-no_contribution input h k =
    (ap exit_code_of ((aggregate-ok_iff input).1 k), ground (arith, (aggregate-ok_iff input).1 k))
