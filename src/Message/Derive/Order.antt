-- ===== src/Message/Derive/Order.antt =====
-- The derived message does not depend on the order of the facts.
use ictt_sentinel.Base.{◌≡◌, refl, sym, ap, ◌∙◌, Bool, List, [], ◌∷◌, map, Permᴰ, Option, none, All}
use ictt_sentinel.Base.Text.{Text}
use ictt_sentinel.Base.Perm.{any-perm, filter-perm, is_empty-perm}
use ictt_sentinel.Base.Sets.{sort-eq_of_perm, unique-perm, text_Eq, text_le-IsOrder}
use ictt_sentinel.Base.Keyed.{
  IsDistinct, IsDistinct-IsKeyed, IsKeyed, sort-eq_of_keyed, text_le-IsKeyOrder, text_lt-IsKeyOrder,
}
use ictt_sentinel.Message.Keys.{MessageKey}
use ictt_sentinel.Message.Inputs.{
  TransitionInput, TransitionKind, is_source_effect, is_destination_effect,
}
use ictt_sentinel.Message.Aggregate.{
  MessageAggregate, entry_key, ok, is_kind, has, facts_of_kind, supporting_facts, reduce_all,
}
use ictt_sentinel.Message.Aggregate.Entries.{IsWellFormed, IsFor, input_ref}
use ictt_sentinel.Message.Aggregate.Fold.{reduce_all-perm}
use ictt_sentinel.Message.Derive.{
  EvaluationContext, lifecycle_state, ref_of, set_facts, effects_of, sorted_facts, distinct_effects,
  economic_effect_of, collect, state_of, derive_state,
}
use ictt_sentinel.Message.Derive.Facts.{
  map-perm, IsDistinct-filter, latest-perm, Apart, set_facts-distinct, present-perm,
  inputs-IsDistinct,
}

module _ (a b : MessageAggregate) (v : IsWellFormed a.facts) (w : IsWellFormed b.facts)
    (h : Permᴰ a.facts b.facts) where
  has-perm : (kind : TransitionKind) → has a kind ≡ has b kind
  unfolding has
  has-perm kind = any-perm (is_kind kind) h

  lifecycle-perm : lifecycle_state a ≡ lifecycle_state b
  unfolding lifecycle_state
  lifecycle-perm =
      rw
        (
          is_empty-perm h,
          has-perm TransitionKind.unsupported,
          has-perm TransitionKind.orphaned,
          has-perm TransitionKind.paused_version,
          has-perm TransitionKind.unreceivable_by_version_policy,
          has-perm TransitionKind.execution_retried,
          has-perm TransitionKind.execution_succeeded,
          has-perm TransitionKind.execution_failed,
          has-perm TransitionKind.send_retry,
          has-perm TransitionKind.envelope_resigned,
          has-perm TransitionKind.delivered,
          has-perm TransitionKind.icm_sent,
          has-perm TransitionKind.source_accounted,
          has-perm TransitionKind.intent_observed,
          has-perm TransitionKind.source_application_emitted,
          has-perm TransitionKind.receipt_observed,
        )
        refl

  collect-perm : (field : TransitionInput → Option Text) → collect field a ≡ collect field b
  unfolding collect
  collect-perm field =
      sort-eq_of_perm text_le-IsOrder (unique-perm (present-perm (map-perm (λ e. field e.1) h)))

  kinds-perm : (kind : TransitionKind) → facts_of_kind a kind ≡ facts_of_kind b kind
  unfolding facts_of_kind
  kinds-perm kind = ap (map (λ e. e.1)) (
      sort-eq_of_keyed entry_key text_le-IsKeyOrder (filter-perm (is_kind kind) h) (
        IsDistinct-IsKeyed entry_key _
          (IsDistinct-filter entry_key (is_kind kind) b.facts w.distinct)))

  supporting-perm : supporting_facts a ≡ supporting_facts b
  unfolding supporting_facts
  supporting-perm = ap (map (λ e. e.1.fact)) (
      sort-eq_of_keyed entry_key text_le-IsKeyOrder h
        (IsDistinct-IsKeyed entry_key b.facts w.distinct))

  effects-IsDistinct :
      (c : MessageAggregate)
      → IsWellFormed c.facts
      → (kinds : TransitionKind → Bool) → IsDistinct ref_of (effects_of kinds c)
  effects-IsDistinct c u kinds =
      IsDistinct-filter ref_of _ _ (inputs-IsDistinct c.facts u.keyed u.distinct)

  effects-perm :
      (kinds : TransitionKind → Bool)
      → sorted_facts (effects_of kinds a) ≡ sorted_facts (effects_of kinds b)
  effects-perm kinds = ap (map (λ f. f.fact)) (
      sort-eq_of_keyed ref_of text_lt-IsKeyOrder (filter-perm _ (map-perm (λ e. e.1) h))
        (IsDistinct-IsKeyed ref_of _ (effects-IsDistinct b w kinds)))

  distinct-perm : distinct_effects a ≡ distinct_effects b
  unfolding distinct_effects
  distinct-perm =
      ap sorted_facts (kept a v)
      ∙ effects-perm is_destination_effect
      ∙ sym (ap sorted_facts (kept b w))
    where
      apart : (fs : List TransitionInput) → Apart [] fs
      apart [] = tt
      apart (f ∷ fs) = (refl, apart fs)

      kept :
          (c : MessageAggregate)
          → IsWellFormed c.facts
          → set_facts [] (effects_of is_destination_effect c) ≡ effects_of is_destination_effect c
      kept c u = set_facts-distinct [] _ (apart _) (effects-IsDistinct c u is_destination_effect)

  economic-perm : economic_effect_of a ≡ economic_effect_of b
  unfolding economic_effect_of
  economic-perm = rw (distinct-perm, effects-perm is_source_effect) refl

  state-perm : (context : EvaluationContext) → state_of a context ≡ state_of b context
  unfolding state_of
  state-perm context = rw (lifecycle-perm, latest-perm h none) refl

  derive-perm : (context : EvaluationContext) → derive_state a context ≡ derive_state b context
  unfolding derive_state
  derive-perm context =
      rw
        (
          state-perm context,
          ap (λ t. t.0) economic-perm,
          ap (λ t. t.1) economic-perm,
          supporting-perm,
          has-perm TransitionKind.receipt_observed,
          collect-perm (λ f. f.envelope_id),
          collect-perm (λ f. f.unsupported_reason),
          kinds-perm TransitionKind.icm_sent,
          kinds-perm TransitionKind.send_retry,
          kinds-perm TransitionKind.execution_succeeded,
          kinds-perm TransitionKind.execution_failed,
          kinds-perm TransitionKind.execution_retried,
        )
        refl

-- Order independence of the derivation: two orders of one batch, all of it for this message and
-- with at most one input per raw fact, are both accepted and derive the same message, in every
-- field.
pub derive_state-perm :
    (key : MessageKey) (context : EvaluationContext) {is js : List TransitionInput}
    → Permᴰ is js
    → All (IsFor key) is
    → IsKeyed input_ref js
    → (a b : MessageAggregate) × (reduce_all key is ≡ ok a)
      × (reduce_all key js ≡ ok b)
      × (derive_state a context ≡ derive_state b context)
derive_state-perm key context p h k =
    let (a, b, ea, eb, v, w, q) = reduce_all-perm key p h k in
    (a, b, ea, eb, derive-perm a b v w q context)
