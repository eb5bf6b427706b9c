-- ===== src/Message/Derive/Verdicts.antt =====
-- What a verdict of the derivation says about the facts.
use ictt_sentinel.Base.{
  ℕ, ◌<◌, ◌≡◌, ◌≢◌, ◌↔◌, ◌⊎◌, refl, sym, ◌∙◌, inl, inr, true, false, ◌||◌, List, [], ◌∷◌, arith,
  if◌then◌else◌, is_empty, length, ltb, any, ◌≤◌,
}
use ictt_sentinel.Domain.{Verdict}
use ictt_sentinel.Message.Keys.{RawFactRef}
use ictt_sentinel.Message.Inputs.{TransitionKind}
use ictt_sentinel.Message.States.{MessageState, state_verdict, is_terminal, is_healthy_state}
use ictt_sentinel.Message.Aggregate.{MessageAggregate, Entry, has, is_kind}
use ictt_sentinel.Message.Derive.{
  EvaluationContext, lifecycle_state, distinct_effects, state_of, derive_state,
}

-- The facts assert an execution, and nothing that outranks it.
pub record HasExecuted (a : MessageAggregate) : Type 0 where
  pub supported : has a TransitionKind.unsupported ≡ false
  pub canonical : has a TransitionKind.orphaned ≡ false
  pub running : has a TransitionKind.paused_version ≡ false
  pub receivable : has a TransitionKind.unreceivable_by_version_policy ≡ false
  pub executed :
      has a TransitionKind.execution_succeeded || has a TransitionKind.execution_retried ≡ true

not_empty :
    (a : MessageAggregate) (kind : TransitionKind) → has a kind ≡ true → is_empty a.facts ≡ false
unfolding has
not_empty a kind h = nonempty a.facts h
  where
    nonempty : (es : List Entry) → any (is_kind kind) es ≡ true → is_empty es ≡ false
    nonempty [] k = cc
    nonempty (e ∷ es) k = refl

lifecycle-ok :
    (a : MessageAggregate) → state_verdict (lifecycle_state a) ≡ Verdict.ok → HasExecuted a
unfolding lifecycle_state state_verdict
lifecycle-ok a h = record {
  supported = ground arith;
  canonical = ground arith;
  running = ground arith;
  receivable = ground arith;
  executed = ground arith;
}

lifecycle-of_executed :
    (a : MessageAggregate)
    → HasExecuted a
    → (lifecycle_state a ≡ MessageState.executed_success)
      ⊎ (lifecycle_state a ≡ MessageState.retried_success)
unfolding lifecycle_state
lifecycle-of_executed a x = ground (
  arith,
  x.supported,
  x.canonical,
  x.running,
  x.receivable,
  x.executed,
  not_empty a TransitionKind.execution_succeeded,
  not_empty a TransitionKind.execution_retried,
)

state-ok_iff :
    (a : MessageAggregate) (context : EvaluationContext)
    → (state_verdict (state_of a context) ≡ Verdict.ok) ↔ HasExecuted a
unfolding state_of state_verdict is_terminal
state-ok_iff a context = (λ h. lifecycle-ok a (unstale h), λ x. closed (lifecycle-of_executed a x))
  where
    unstale :
        state_verdict (state_of a context) ≡ Verdict.ok
        → state_verdict (lifecycle_state a) ≡ Verdict.ok
    unstale h = ground arith

    closed :
        (lifecycle_state a ≡ MessageState.executed_success)
          ⊎ (lifecycle_state a ≡ MessageState.retried_success)
        → state_verdict (state_of a context) ≡ Verdict.ok
    closed (inl e) = rw e refl
    closed (inr e) = rw e refl

-- The verdict of `deriveState` on the distinct effects and the verdict of the state.
abbrev capped : List RawFactRef → Verdict → Verdict
capped xs v = if ltb 0 (length (if ltb 1 (length xs) then xs else [])) then Verdict.critical else v

capped-cases :
    (xs : List RawFactRef) (v : Verdict)
    → (length xs ≤ 1 × (capped xs v ≡ v))
      ⊎ ((1 < length xs)
          × (capped xs v ≡ Verdict.critical)
          × ((if ltb 1 (length xs) then xs else []) ≡ xs))
capped-cases [] v = inl (omega arith, refl)
capped-cases (x ∷ []) v = inl (omega arith, refl)
capped-cases (x ∷ y ∷ xs) v = inr (omega arith, ground arith, ground arith)

too_many : (n : ℕ) → n ≤ 1 → ¬ (1 < n)
too_many n h = omega arith

never_critical : (s : MessageState) → state_verdict s ≢ Verdict.critical
unfolding state_verdict
never_critical s h = ground arith

-- The test of the code for OK.
pub few_effects_iff :
    (a : MessageAggregate) (context : EvaluationContext)
    → ((derive_state a context).verdict ≡ Verdict.ok)
      ↔ (HasExecuted a × (length (distinct_effects a) ≤ 1))
unfolding derive_state
few_effects_iff a context = (
  λ h. elim (capped-cases (distinct_effects a) (state_verdict (state_of a context))) [
    | inl (le, e) ↦ ((state-ok_iff a context).0 (sym e ∙ h), le)
    | inr (lt, e, _) ↦ cc
  ],
  λ h. elim (capped-cases (distinct_effects a) (state_verdict (state_of a context))) [
    | inl (le, e) ↦ e ∙ (state-ok_iff a context).1 h.0
    | inr (lt, _, _) ↦ absurd (too_many _ h.1 lt)
  ],
)

-- The test of the code.
pub many_effects_iff :
    (a : MessageAggregate) (context : EvaluationContext)
    → (((derive_state a context).verdict ≡ Verdict.critical) ↔ (1 < length (distinct_effects a)))
      × (1 < length (distinct_effects a)
          → (derive_state a context).duplicate_effect_facts ≡ distinct_effects a)
unfolding derive_state
many_effects_iff a context =
    elim (capped-cases (distinct_effects a) (state_verdict (state_of a context))) [
      | inl (le, e) ↦ (
        (
          λ h. absurd (never_critical (state_of a context) (sym e ∙ h)),
          λ h. absurd (too_many _ le h),
        ),
        λ h. absurd (too_many _ le h),
      )
      | inr (lt, e, d) ↦ (((λ _. lt), λ _. e), λ _. d)
    ]

-- Delivery is not execution: without an execution fact the state of a message is never healthy.
pub derive_state-delivered_not_healthy :
    (a : MessageAggregate) (context : EvaluationContext)
    → has a TransitionKind.execution_succeeded ≡ false
    → has a TransitionKind.execution_retried ≡ false
    → is_healthy_state (derive_state a context).state ≡ false
unfolding derive_state is_healthy_state state_of lifecycle_state
derive_state-delivered_not_healthy a context h k = ground (arith, h, k)
