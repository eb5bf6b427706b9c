-- ===== src/Examples/Verdicts.antt =====
-- The theorems on the aggregation, on passing, failing and breached rules.
use mathlib.Core.List.{Perm}
use ictt_sentinel.Base.{◌≡◌, ◌≢◌, refl, ◌↔◌, true, false, List, [], ◌∷◌, Permᴰ, All}
use ictt_sentinel.Base.Text.{units}
use ictt_sentinel.Examples.Data.{rule, verdict_input}
use ictt_sentinel.Verdict.{RuleContribution, ClaimMode, RuleResult, ProtocolStatus, aggregate}
use ictt_sentinel.Verdict.Status.{IsClean, aggregate-ok_iff}
use ictt_sentinel.Verdict.Order.{aggregate-perm}
use ictt_sentinel.Domain.{Verdict, Judgement, Requirement, combine_verdicts}
use ictt_sentinel.Domain.Lattice.{combine_verdicts-ok_iff}

abbrev passing : RuleContribution
passing = rule (units "ACC") RuleResult.pass false

abbrev breached : RuleContribution
breached = rule (units "CFG") RuleResult.fail true

aggregate-ok_iff_example :
    ((aggregate (verdict_input (passing ∷ []))).protocol_status ≡ ProtocolStatus.ok)
    ↔ IsClean (verdict_input (passing ∷ []))
aggregate-ok_iff_example = aggregate-ok_iff (verdict_input (passing ∷ []))

swapped : Perm (passing ∷ breached ∷ []) (breached ∷ passing ∷ [])
swapped = ∣ Permᴰ.swap refl refl ∣₁

aggregate-perm_example :
    aggregate (verdict_input (passing ∷ breached ∷ []))
    ≡ aggregate (verdict_input (breached ∷ passing ∷ []))
aggregate-perm_example = aggregate-perm (verdict_input []) swapped

nothing-IsClean : IsClean (verdict_input [])
nothing-IsClean = record {
  all_passing = tt;
  none_missing = refl;
  not_expired = refl;
  no_fault = refl;
  data_complete = refl;
  coverage_complete = refl;
}

abbrev modes : List ClaimMode
modes = ClaimMode.exact ∷ ClaimMode.indeterminate ∷ []

abbrev green : Judgement
green = record { verdict = Verdict.ok; requirement = Requirement.required }

abbrev blind : Judgement
blind = record { verdict = Verdict.unknown; requirement = Requirement.optional }

combine_verdicts-ok_iff_example :
    (combine_verdicts (green ∷ blind ∷ []) ≡ Verdict.ok)
    ↔ ((green ∷ blind ∷ [] ≢ []) × All (λ j. j.verdict ≡ Verdict.ok) (green ∷ blind ∷ []))
combine_verdicts-ok_iff_example = combine_verdicts-ok_iff (green ∷ blind ∷ [])
