-- ===== src/Message/Aggregate/Grouped.antt =====
-- packages/state-machine/src/aggregate.ts, groupByMessage: one aggregate for each message, and what each
-- of them holds.
use ictt_sentinel.Base.{
  ◌≡◌, refl, sym, ◌∙◌, inl, inr, true, false, List, [], ◌∷◌, filter, All, arith, Bool-cases,
  if◌then◌else◌,
}
use ictt_sentinel.Base.Text.{Text, text_eq, text_eq_iff, text_eq_refl}
use ictt_sentinel.Message.Keys.{message_key_of}
use ictt_sentinel.Message.Inputs.{TransitionInput}
use ictt_sentinel.Message.Aggregate.{
  MessageAggregate, Entry, Reduced, ok, threw, reduce, add_fact, empty_aggregate,
}

-- `out.set(id, reduce(...))`, where the reduction returns.
abbrev pub set_reduced :
    (MessageAggregate → List (Text × MessageAggregate))
    → Reduced MessageAggregate
    → Reduced (List (Text × MessageAggregate))
set_reduced set (ok a) = ok (set a)
set_reduced set (threw e) = threw e

abbrev pub kept_before :
    Text × MessageAggregate
    → Reduced (List (Text × MessageAggregate))
    → Reduced (List (Text × MessageAggregate))
kept_before e (ok es) = ok (e ∷ es)
kept_before e (threw t) = threw t

-- The body of the loop of `groupByMessage`, on the map in the order of insertion.
unfoldable pub group_input :
    List (Text × MessageAggregate) → TransitionInput → Reduced (List (Text × MessageAggregate))
unfolding reduce empty_aggregate
group_input [] input =
    set_reduced (λ a. (message_key_of input.message, a) ∷ [])
      (reduce (empty_aggregate input.message) input)
group_input (e ∷ es) input =
    let rest = group_input es input in
    if text_eq e.0 (message_key_of input.message)
    then set_reduced (λ a. (e.0, a) ∷ es) (reduce e.1 input)
    else kept_before e rest

unfoldable pub group_from_map :
    List (Text × MessageAggregate) → List TransitionInput → Reduced (List (Text × MessageAggregate))
unfolding group_input
group_from_map out [] = ok out
group_from_map out (i ∷ is) = elim (group_input out i) [
  | ok next ↦ group_from_map next is
  | threw e ↦ threw e
]

-- `groupByMessage`
unfoldable pub group_by_message : List TransitionInput → Reduced (List (Text × MessageAggregate))
unfolding group_from_map
group_by_message inputs = group_from_map [] inputs

-- Every aggregate stands under the key of its message.
abbrev pub IsFiled : List (Text × MessageAggregate) → Type 0
IsFiled out = All (λ e. message_key_of e.1.key ≡ e.0) out

-- The facts of the message in the map.
abbrev pub facts_at : Text → List (Text × MessageAggregate) → List Entry
facts_at k [] = []
facts_at k (e ∷ es) = let rest = facts_at k es in if text_eq e.0 k then e.1.facts else rest

-- The inputs of the message.
abbrev pub of_message : Text → List TransitionInput → List TransitionInput
of_message k = filter (λ i. text_eq (message_key_of i.message) k)

-- The facts as the inputs leave them, one by one.
unfoldable pub facts_from : List Entry → List TransitionInput → List Entry
facts_from facts [] = facts
facts_from facts (i ∷ is) = facts_from (add_fact facts i) is

-- What one round does to the map.
record IsRound (out next : List (Text × MessageAggregate)) (i : TransitionInput) : Type 0 where
  filed : IsFiled next
  facts :
      (k : Text)
      → facts_at k next ≡ (
          if text_eq (message_key_of i.message) k
          then add_fact (facts_at k out) i
          else facts_at k out)

group_input-IsRound :
    (out : List (Text × MessageAggregate)) (i : TransitionInput)
    → IsFiled out
    → (next : List (Text × MessageAggregate)) × (group_input out i ≡ ok next) × IsRound out next i
unfolding group_input reduce empty_aggregate
group_input-IsRound [] i h = (
  (message_key_of i.message, record { key = i.message; facts = add_fact [] i }) ∷ [],
  rw (text_eq_refl (message_key_of i.message)) refl,
  record { filed = (refl, tt); facts = λ k. refl },
)
group_input-IsRound (e ∷ es) i h = elim (Bool-cases (text_eq e.0 (message_key_of i.message))) [
  | inl t ↦ (
    (e.0, record { key = e.1.key; facts = add_fact e.1.facts i }) ∷ es,
    rw
        (
          t,
          (text_eq_iff (message_key_of i.message) (message_key_of e.1.key)).1
              (sym ((text_eq_iff e.0 _).0 t) ∙ sym h.0),
        )
        refl,
    record {
      filed = h;
      facts = λ k. same_entry k ((text_eq_iff e.0 (message_key_of i.message)).0 t);
    },
  )
  | inr t ↦
      let (next, q, r) = group_input-IsRound es i h.1 in
      (
        e ∷ next,
        rw (t, q) refl,
        record { filed = (h.0, r.filed); facts = λ k. other_entry next k t (r.facts k) },
      )
]
  where
    same_entry :
        (k : Text)
        → e.0 ≡ message_key_of i.message
        → (if text_eq e.0 k then add_fact e.1.facts i else facts_at k es) ≡ (
            if text_eq (message_key_of i.message) k
            then add_fact (facts_at k (e ∷ es)) i
            else facts_at k (e ∷ es))
    same_entry k p = elim (Bool-cases (text_eq (message_key_of i.message) k)) [
      | inl u ↦ rw (p, u) refl
      | inr u ↦ rw (p, u) refl
    ]

    other_entry :
        (next : List (Text × MessageAggregate)) (k : Text)
        → text_eq e.0 (message_key_of i.message) ≡ false
        → facts_at k next ≡ (
            if text_eq (message_key_of i.message) k
            then add_fact (facts_at k es) i
            else facts_at k es)
        → facts_at k (e ∷ next) ≡ (
            if text_eq (message_key_of i.message) k
            then add_fact (facts_at k (e ∷ es)) i
            else facts_at k (e ∷ es))
    other_entry next k t r = elim (Bool-cases (text_eq e.0 k)) [
      | inl u ↦ rw (u, differs k t u) refl
      | inr u ↦ rw u r
    ]
      where
        differs :
            (j : Text)
            → text_eq e.0 (message_key_of i.message) ≡ false
            → text_eq e.0 j ≡ true
            → text_eq (message_key_of i.message) j ≡ false
        differs j a b = ground (
          arith,
          a,
          b,
          text_eq_iff e.0 j,
          text_eq_iff (message_key_of i.message) j,
          text_eq_iff e.0 (message_key_of i.message),
        )

group_from_map-IsFiled :
    (is : List TransitionInput) (out : List (Text × MessageAggregate))
    → IsFiled out
    → (all : List (Text × MessageAggregate)) × (group_from_map out is ≡ ok all)
      × IsFiled all
      × ((k : Text) → facts_at k all ≡ facts_from (facts_at k out) (of_message k is))
unfolding group_from_map facts_from
group_from_map-IsFiled [] out h = (out, refl, h, λ k. refl)
group_from_map-IsFiled (i ∷ is) out h =
    let (next, q, r) = group_input-IsRound out i h in
    let (all, p, f, g) = group_from_map-IsFiled is next r.filed in
    (all, rw (group_from_map, q) p, f, λ k. g k ∙ step next r k)
  where
    step :
        (next : List (Text × MessageAggregate))
        → IsRound out next i
        → (k : Text)
        → facts_from (facts_at k next) (of_message k is)
          ≡ facts_from (facts_at k out) (of_message k (i ∷ is))
    step next r k = elim (Bool-cases (text_eq (message_key_of i.message) k)) [
      | inl u ↦ rw (r.facts k, u) refl
      | inr u ↦ rw (r.facts k, u) refl
    ]

-- Grouping loose inputs never throws; every aggregate stands under the key of its message, and holds
-- what the inputs of that message, and no other, leave when they are folded in their order.
pub group_by_message-IsFiled :
    (inputs : List TransitionInput)
    → (out : List (Text × MessageAggregate)) × (group_by_message inputs ≡ ok out)
      × IsFiled out
      × ((k : Text) → facts_at k out ≡ facts_from [] (of_message k inputs))
unfolding group_by_message
group_by_message-IsFiled inputs = group_from_map-IsFiled inputs [] tt
