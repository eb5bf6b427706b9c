-- ===== src/Verdict/Order.antt =====
-- The order in which contributions arrive does not change the aggregate.
use Prim.Native.Char.{IsScalar}
use text.Mathlib.TextEquality.{IsScalar-prop}
use mathlib.Core.HLevel.{prop→set}
use mathlib.Core.Path.{subst}
use mathlib.Core.Logic.{∥∥₁_elim}
use mathlib.Core.List.{Perm, append_assoc}
use mathlib.Core.List.Permᴰ
use ictt_sentinel.Base.{ℕ, ◌≡◌, sym, ◌∙◌, List, ◌++◌, Permᴰ, flat_map}
use ictt_sentinel.Base.Perm.{any-perm, filter-perm}
use ictt_sentinel.Base.Sets.{unique-perm, sort-eq_of_perm, text_le-IsOrder}
use ictt_sentinel.Reason.{ReasonCode}
use ictt_sentinel.Reason.Codes.{code_Eq, code_le-IsOrder}
use ictt_sentinel.Verdict.{
  RuleContribution, AggregationInput, GlobalVerdict, aggregate, status_of, collected_reasons,
  blocks, deviates, assumptions, exclusions,
}
use ictt_sentinel.Verdict.Status.{status_of-tests, status_of_tests}
use ictt_sentinel.Verdict.Claim.{weakest_claim-perm}

abbrev all_reasons : List RuleContribution → List ReasonCode
all_reasons = flat_map (λ c. c.reasons)

all_reasons-perm :
    {xs ys : List RuleContribution} → Permᴰ xs ys → Permᴰ (all_reasons xs) (all_reasons ys)
all_reasons-perm Permᴰ.nil = Permᴰ.nil
all_reasons-perm (Permᴰ.cons {b} e h) = rw e (Permᴰ.append_left b.reasons (all_reasons-perm h))
all_reasons-perm (Permᴰ.swap {a} {b} {l = l} e f) =
    rw (← e, ← f)
      (subst (λ r. Permᴰ r (b.reasons ++ (a.reasons ++ all_reasons l)))
        (append_assoc a.reasons b.reasons (all_reasons l))
        (subst (λ r. Permᴰ ((a.reasons ++ b.reasons) ++ all_reasons l) r)
          (append_assoc b.reasons a.reasons (all_reasons l))
          (Permᴰ.append_right (all_reasons l) (Permᴰ.append_comm a.reasons b.reasons))))
all_reasons-perm (Permᴰ.trans h k) = Permᴰ.trans (all_reasons-perm h) (all_reasons-perm k)

module _ (input : AggregationInput) {xs ys : List RuleContribution} (p : Permᴰ xs ys) where
  status_of-perm :
      status_of (record input { contributions = xs })
      ≡ status_of (record input { contributions = ys })
  unfolding status_of_tests
  status_of-perm =
      status_of-tests (record input { contributions = xs })
      ∙ (rw (any-perm (λ c. c.critical) p, any-perm blocks p, any-perm deviates p))
      ∙ sym (status_of-tests (record input { contributions = ys }))

  collected_reasons-perm :
      Permᴰ
        (collected_reasons (record input { contributions = xs }))
        (collected_reasons (record input { contributions = ys }))
  unfolding collected_reasons
  collected_reasons-perm = unique-perm (Permᴰ.append_right _ (all_reasons-perm p))

  aggregate-permᴰ :
      aggregate (record input { contributions = xs })
      ≡ aggregate (record input { contributions = ys })
  unfolding aggregate
  aggregate-permᴰ = λ i. record {
    protocol_status = status_of-perm i;
    data_status = input.data_status;
    claim_mode = weakest_claim-perm (Permᴰ.map (λ c. c.claim_mode) p) i;
    coverage = input.coverage;
    reason_codes = sort-eq_of_perm code_le-IsOrder collected_reasons-perm i;
    critical_rule_ids =
        sort-eq_of_perm text_le-IsOrder
          (Permᴰ.map (λ c. c.rule_id) (filter-perm (λ c. c.critical) p)) i;
    unknown_rule_ids =
        sort-eq_of_perm text_le-IsOrder (Permᴰ.map (λ c. c.rule_id) (filter-perm blocks p)) i;
    assumptions = assumptions;
    exclusions = exclusions;
    runbook = "docs/RUNBOOK.md#verdict-triage";
  }

IsScalar-set : (n : ℕ) → IsSet (IsScalar n)
IsScalar-set n = prop→set (IsScalar-prop n)

GlobalVerdict-set : IsSet GlobalVerdict
GlobalVerdict-set = hlevel IsScalar-set

-- The whole aggregate, its sorted lists of reasons and rule ids included, is the same for any two
-- inputs that differ only in the order of their contributions.
pub aggregate-perm :
    (input : AggregationInput) {xs ys : List RuleContribution}
    → Perm xs ys
    → aggregate (record input { contributions = xs })
      ≡ aggregate (record input { contributions = ys })
aggregate-perm input p = ∥∥₁_elim p (GlobalVerdict-set _ _) (λ q. aggregate-permᴰ input q)
