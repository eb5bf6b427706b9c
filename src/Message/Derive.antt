-- ===== src/Message/Derive.antt =====
-- packages/state-machine/src/derive.ts: the semantic state of a set of facts.
use ictt_sentinel.Base.{
  ℕ, ◌+◌, zero, suc, Bool, true, false, not, ◌&&◌, ◌||◌, List, [], ◌∷◌, map, Option, none, some,
  ltb, length, is_empty, if◌then◌else◌, filter,
}
use ictt_sentinel.Base.Int.{ℤ, ltb_ℤ, ◌-ℤ◌}
use ictt_sentinel.Base.Text.{Text, text_eq, text_le}
use ictt_sentinel.Base.Sets.{sort, unique, text_Eq}
use ictt_sentinel.Base.Keyed.{by_key, text_lt, has_key}
use ictt_sentinel.Domain.{Verdict, warn, critical}
use ictt_sentinel.Message.Keys.{RawFactRef, raw_fact_ref_of}
use ictt_sentinel.Message.Inputs.{
  TransitionInput, TransitionKind, is_source_effect, is_destination_effect,
}
use ictt_sentinel.Message.States.{MessageState, is_terminal, state_verdict, stale}
use ictt_sentinel.Message.Aggregate.{MessageAggregate, Entry, has, facts_of_kind, supporting_facts}
pub mod Credits
pub mod Facts
pub mod Order
pub mod Verdicts

pub record EvaluationContext : Type 0 where
  pub evaluated_at : ℤ
  pub stale_after_ms : ℤ

pub record EconomicEffect : Type 0 where
  pub count : ℕ
  pub source_fact : Option RawFactRef
  pub destination_fact : Option RawFactRef

pub record DerivedMessage : Type 0 where
  pub state : MessageState
  pub verdict : Verdict
  pub effect : EconomicEffect
  pub duplicate_effect_facts : List RawFactRef
  pub send_attempts : ℕ
  pub execution_attempts : ℕ
  pub envelope_ids : List Text
  pub receipt_observed : Bool
  pub unsupported_reasons : List Text
  pub supporting_facts : List RawFactRef

abbrev pub carries_effect : TransitionInput → Bool
carries_effect f = elim f.carries_economic_effect [
  | some false ↦ false
  | some true ↦ true
  | none ↦ true
]

-- One step of the loop of `latestObservedAt`.
abbrev pub later : Option ℤ → Option ℤ → Option ℤ
later latest none = latest
later none (some t) = some t
later (some l) (some t) = if ltb_ℤ l t then some t else some l

abbrev pub latest_from : Option ℤ → List Entry → Option ℤ
latest_from latest [] = latest
latest_from latest (e ∷ es) = latest_from (later latest e.1.observed_at) es

unfoldable pub lifecycle_state : MessageAggregate → MessageState
unfolding has
lifecycle_state aggregate =
    if is_empty aggregate.facts
    then MessageState.unclassifiable
    else if has aggregate TransitionKind.unsupported
    then MessageState.unclassifiable
    else if has aggregate TransitionKind.orphaned
    then MessageState.orphaned
    else if has aggregate TransitionKind.paused_version
    then MessageState.paused_version
    else if has aggregate TransitionKind.unreceivable_by_version_policy
    then MessageState.unreceivable_by_version_policy
    else if has aggregate TransitionKind.execution_retried
    then MessageState.retried_success
    else if has aggregate TransitionKind.execution_succeeded
    then MessageState.executed_success
    else if has aggregate TransitionKind.execution_failed
    then (if has aggregate TransitionKind.send_retry
          || has aggregate TransitionKind.envelope_resigned
        then MessageState.retry_pending
        else MessageState.executed_failed)
    else if has aggregate TransitionKind.delivered
    then MessageState.delivered
    else if has aggregate TransitionKind.icm_sent || has aggregate TransitionKind.send_retry
    then MessageState.icm_sent
    else if has aggregate TransitionKind.source_accounted
    then MessageState.source_accounted
    else if has aggregate TransitionKind.intent_observed
    then MessageState.intent_observed
    else if has aggregate TransitionKind.source_application_emitted
    then MessageState.source_application_emitted
    else if has aggregate TransitionKind.receipt_observed
    then MessageState.receipt_observed
    else MessageState.unclassifiable

abbrev pub ref_of : TransitionInput → Text
ref_of f = raw_fact_ref_of f.fact

abbrev pub first_fact : List RawFactRef → Option RawFactRef
first_fact [] = none
first_fact (x ∷ xs) = some x

-- `map.set(ref, f)`: the value of a key that is there is replaced in its place.
abbrev pub set_fact : List TransitionInput → TransitionInput → List TransitionInput
set_fact [] f = f ∷ []
set_fact (g ∷ gs) f =
    let rest = set_fact gs f in if text_eq (ref_of g) (ref_of f) then f ∷ gs else g ∷ rest

-- `new Map(facts.map((f) => [rawFactRefOf(f.fact), f])).values()`
abbrev pub set_facts : List TransitionInput → List TransitionInput → List TransitionInput
set_facts out [] = out
set_facts out (f ∷ fs) = set_facts (set_fact out f) fs

abbrev pub effects_of : (TransitionKind → Bool) → MessageAggregate → List TransitionInput
effects_of kinds aggregate =
    filter (λ f. kinds f.kind && carries_effect f) (map (λ e. e.1) aggregate.facts)

-- The comparator `a < b ? -1 : 1` on references.
abbrev pub sorted_facts : List TransitionInput → List RawFactRef
sorted_facts fs = map (λ f. f.fact) (sort (by_key ref_of text_lt) fs)

unfoldable pub distinct_effects : MessageAggregate → List RawFactRef
unfolding sort
distinct_effects aggregate =
    sorted_facts (set_facts [] (effects_of is_destination_effect aggregate))

unfoldable pub economic_effect_of : MessageAggregate → EconomicEffect × List RawFactRef
unfolding distinct_effects sort
economic_effect_of aggregate =
    let distinct = distinct_effects aggregate in
    (
      record {
        count = if is_empty distinct then 0 else 1;
        source_fact = first_fact (sorted_facts (effects_of is_source_effect aggregate));
        destination_fact = first_fact distinct;
      },
      if ltb 1 (length distinct) then distinct else [],
    )

-- `latestObservedAt` against the evaluation time.
abbrev pub is_expired : EvaluationContext → Option ℤ → Bool
is_expired context none = false
is_expired context (some observed_at) =
    ltb_ℤ context.stale_after_ms (context.evaluated_at -ℤ observed_at)

abbrev pub is_warn : Verdict → Bool
is_warn warn = true
is_warn _ = false

abbrev pub present : List (Option Text) → List Text
present [] = []
present (none ∷ xs) = present xs
present (some x ∷ xs) = x ∷ present xs

-- `[...new Set(...)].sort()` of an optional field.
unfoldable pub collect : (TransitionInput → Option Text) → MessageAggregate → List Text
unfolding sort unique
collect field aggregate = sort text_le (unique (present (map (λ e. field e.1) aggregate.facts)))

unfoldable pub state_of : MessageAggregate → EvaluationContext → MessageState
unfolding lifecycle_state is_terminal state_verdict
state_of aggregate context =
    let base = lifecycle_state aggregate in
    if not (is_terminal base)
      && is_warn (state_verdict base)
      && is_expired context (latest_from none aggregate.facts)
    then stale
    else base

unfoldable pub derive_state : MessageAggregate → EvaluationContext → DerivedMessage
unfolding state_of economic_effect_of state_verdict facts_of_kind has supporting_facts collect
derive_state aggregate context =
    let state = state_of aggregate context in
    let (effect, duplicates) = economic_effect_of aggregate in
    record {
      state = state;
      verdict = if ltb 0 (length duplicates) then critical else state_verdict state;
      effect = effect;
      duplicate_effect_facts = duplicates;
      send_attempts =
          length (facts_of_kind aggregate TransitionKind.icm_sent)
          + length (facts_of_kind aggregate TransitionKind.send_retry);
      execution_attempts =
          length (facts_of_kind aggregate TransitionKind.execution_succeeded)
          + length (facts_of_kind aggregate TransitionKind.execution_failed)
          + length (facts_of_kind aggregate TransitionKind.execution_retried);
      envelope_ids = collect (λ f. f.envelope_id) aggregate;
      receipt_observed = has aggregate TransitionKind.receipt_observed;
      unsupported_reasons = collect (λ f. f.unsupported_reason) aggregate;
      supporting_facts = supporting_facts aggregate;
    }
