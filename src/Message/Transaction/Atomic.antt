-- ===== src/Message/Transaction/Atomic.antt =====
-- A transaction is reduced whole or not at all.
use ictt_sentinel.Base.{
  ◌≡◌, ◌⊎◌, refl, sym, ap, ◌∙◌, inl, inr, Bool, true, false, not, List, [], ◌∷◌, map, arith,
  Bool-cases, filter, All, is_empty, ◌↔◌, filter-dropped, filter-kept, Memᴰ,
}
use ictt_sentinel.Base.Text.{Text, text_eq, text_eq_iff}
use ictt_sentinel.Base.Sets.{unique, without, ◌===◌, text_Eq}
use ictt_sentinel.Message.Keys.{transaction_key_of}
use ictt_sentinel.Message.Inputs.{TransitionInput}
use ictt_sentinel.Message.Aggregate.{
  MessageAggregate, Reduced, ok, threw, message_key_mismatch, add_fact, partial_transaction,
  mixed_transaction, reduce_from,
}
use ictt_sentinel.Message.Aggregate.Entries.{IsFor}
use ictt_sentinel.Message.Aggregate.Fold.{reduce_idem, reduce-for}
use ictt_sentinel.Message.Aggregate.Grouped.{facts_from}
use ictt_sentinel.Message.Transaction.{
  TransactionBatch, is_addressed, reduce_keys, reduce_transaction,
}

-- All the inputs are of the first one's transaction.
abbrev pub IsOneTransaction : List TransitionInput → Type 0
IsOneTransaction [] = Unit
IsOneTransaction (i ∷ is) = All (λ j. transaction_key_of j.fact ≡ transaction_key_of i.fact) is

-- The keys that are not the first.
others : Text → List TransitionInput → List Text
others k is = without k (unique (map (λ i. transaction_key_of i.fact) is))

filter_twice : {A : Type 0} (p : A → Bool) (xs : List A) → filter p (filter p xs) ≡ filter p xs
filter_twice p [] = refl
filter_twice p (x ∷ xs) = ground (arith, filter_twice p xs)

others-none_iff :
    (k : Text) (is : List TransitionInput)
    → (is_empty (others k is) ≡ true) ↔ All (λ j. transaction_key_of j.fact ≡ k) is
unfolding others unique
others-none_iff k [] = (λ _. tt, λ _. refl)
others-none_iff k (i ∷ is) = elim (Bool-cases (text_eq (transaction_key_of i.fact) k)) [
  | inl e ↦
      let p = (text_eq_iff (transaction_key_of i.fact) k).0 e in
      (
        λ h. (p, (others-none_iff k is).0 (sym (same p) ∙ h)),
        λ h. same p ∙ (others-none_iff k is).1 h.1,
      )
  | inr e ↦
      (λ h. cc (sym (kept e) ∙ h), λ h. cc (e, (text_eq_iff (transaction_key_of i.fact) k).1 h.0))
]
  where
    same : transaction_key_of i.fact ≡ k → is_empty (others k (i ∷ is)) ≡ is_empty (others k is)
    same p =
        ap is_empty (
          filter-dropped (λ x. not (x === k)) (transaction_key_of i.fact)
            (without (transaction_key_of i.fact) (unique (map (λ i. transaction_key_of i.fact) is)))
            (ap not ((text_eq_iff (transaction_key_of i.fact) k).1 p)))
        ∙ ap
            (λ x.
              is_empty (without k (without x (unique (map (λ i. transaction_key_of i.fact) is)))))
            p
        ∙ ap is_empty
            (filter_twice (λ x. not (x === k)) (unique (map (λ i. transaction_key_of i.fact) is)))

    kept : text_eq (transaction_key_of i.fact) k ≡ false → is_empty (others k (i ∷ is)) ≡ false
    kept e = ap is_empty (
        filter-kept (λ x. not (x === k)) (transaction_key_of i.fact)
          (without (transaction_key_of i.fact) (unique (map (λ i. transaction_key_of i.fact) is)))
          (ap not e))

-- The inputs with the message id of the aggregate.
abbrev pub addressed : MessageAggregate → List TransitionInput → List TransitionInput
addressed a inputs = filter (λ i. text_eq i.message.message_id a.key.message_id) inputs

-- What folding the inputs gives: all their facts, or the error of one that is of another message.
abbrev IsFolded : MessageAggregate → List TransitionInput → Reduced MessageAggregate → Type 0
IsFolded a inputs run =
    (All (IsFor a.key) inputs
      × (run ≡ ok (record { key = a.key; facts = facts_from a.facts inputs })))
    ⊎ ((i : TransitionInput) × Memᴰ i inputs
        × (¬ IsFor a.key i)
        × (run ≡ threw (message_key_mismatch a.key i.message)))

reduce_from-IsFolded :
    (a : MessageAggregate) (inputs : List TransitionInput)
    → IsFolded a inputs (reduce_from a inputs)
unfolding reduce_from facts_from
reduce_from-IsFolded a [] = inl (tt, refl)
reduce_from-IsFolded a (i ∷ is) = elim (reduce_idem a i) [
  | inl (_, _, _, f) ↦
      rw (reduce_from, reduce-for a i f)
        (later f (reduce_from (record { key = a.key; facts = add_fact a.facts i }) is)
          (reduce_from-IsFolded (record { key = a.key; facts = add_fact a.facts i }) is))
  | inr (e, f) ↦ rw (reduce_from, e) (inr (i, Memᴰ.head refl, f, refl))
]
  where
    later :
        (f : IsFor a.key i) (run : Reduced MessageAggregate)
        → IsFolded (record { key = a.key; facts = add_fact a.facts i }) is run
        → IsFolded a (i ∷ is) run
    later f run (inl h) = inl ((f, h.0), h.1)
    later f run (inr h) = inr (h.0, Memᴰ.tail h.1, h.2, h.3)

one_key :
    (a : MessageAggregate) (batch : TransactionBatch) (k : Text)
    → ((batch.complete ≡ true)
        × (reduce_keys a batch (k ∷ []) ≡ reduce_from a (filter (is_addressed a) batch.inputs)))
      ⊎ ((batch.complete ≡ false) × (reduce_keys a batch (k ∷ []) ≡ threw (partial_transaction k)))
unfolding reduce_keys
one_key a batch k = elim (Bool-cases batch.complete) [
  | inl e ↦ inl (e, rw e refl)
  | inr e ↦ inr (e, rw e refl)
]

several_keys :
    (a : MessageAggregate) (batch : TransactionBatch) (k l : Text) (ks : List Text)
    → reduce_keys a batch (k ∷ l ∷ ks) ≡ threw (mixed_transaction (k ∷ l ∷ ks))
unfolding reduce_keys
several_keys a batch k l ks = ground arith

-- What a run on a batch with an input may be, the first input's transaction key being `k`.
abbrev pub IsAtomic :
    MessageAggregate → List TransitionInput → Bool → Text → Reduced MessageAggregate → Type 0
IsAtomic a inputs complete k run =
    ((complete ≡ true)
      × IsOneTransaction inputs
      × All (IsFor a.key) (addressed a inputs)
      × (run ≡ ok (record { key = a.key; facts = facts_from a.facts (addressed a inputs) })))
    ⊎ ((complete ≡ true)
        × IsOneTransaction inputs
        × ((i : TransitionInput) × Memᴰ i (addressed a inputs)
            × (¬ IsFor a.key i)
            × (run ≡ threw (message_key_mismatch a.key i.message))))
    ⊎ ((complete ≡ false) × IsOneTransaction inputs × (run ≡ threw (partial_transaction k)))
    ⊎ ((keys : List Text) × (¬ IsOneTransaction inputs) × (run ≡ threw (mixed_transaction keys)))

-- A batch with an input has one of four outcomes. It is complete and of one transaction, all its inputs
-- with the aggregate's message id are of its message, and the facts of all of these are added; or it is
-- complete and of one transaction, but an input with that message id is of another message, and the
-- mismatch is thrown; or it is of one transaction but incomplete, and that is thrown; or its inputs
-- are of several transactions, and that is thrown.
pub reduce_transaction-IsAtomic :
    (a : MessageAggregate) (i : TransitionInput) (is : List TransitionInput) (complete : Bool)
    → IsAtomic a
        (i ∷ is)
        complete
        (transaction_key_of i.fact)
        (reduce_transaction a (record { inputs = i ∷ is; complete = complete }))
unfolding reduce_transaction unique others
reduce_transaction-IsAtomic a i is complete = split (others (transaction_key_of i.fact) is) refl
  where
    batch : TransactionBatch
    batch = record { inputs = i ∷ is; complete = complete }

    one : others (transaction_key_of i.fact) is ≡ [] → IsOneTransaction (i ∷ is)
    one e = (others-none_iff (transaction_key_of i.fact) is).0 (ap is_empty e)

    run :
        {ks : List Text}
        → others (transaction_key_of i.fact) is ≡ ks
        → reduce_transaction a batch ≡ reduce_keys a batch (transaction_key_of i.fact ∷ ks)
    run e = ap (λ r. reduce_keys a batch (transaction_key_of i.fact ∷ r)) e

    folded :
        complete ≡ true
        → IsOneTransaction (i ∷ is)
        → reduce_transaction a batch ≡ reduce_from a (addressed a (i ∷ is))
        → IsFolded a (addressed a (i ∷ is)) (reduce_from a (addressed a (i ∷ is)))
        → IsAtomic a (i ∷ is) complete (transaction_key_of i.fact) (reduce_transaction a batch)
    folded c o r (inl h) = inl (c, o, h.0, r ∙ h.1)
    folded c o r (inr h) = inr (inl (c, o, (h.0, h.1, h.2, r ∙ h.3)))

    split :
        (ks : List Text)
        → others (transaction_key_of i.fact) is ≡ ks
        → IsAtomic a
            (i ∷ is)
            complete
            (transaction_key_of i.fact)
            (reduce_transaction a (record { inputs = i ∷ is; complete = complete }))
    split [] e = elim (one_key a batch (transaction_key_of i.fact)) [
      | inl (c, r) ↦ folded c (one e) (run e ∙ r) (reduce_from-IsFolded a (addressed a (i ∷ is)))
      | inr (c, r) ↦ inr (inr (inl (c, one e, run e ∙ r)))
    ]
    split (k ∷ ks) e = inr (
        inr (
          inr (
            transaction_key_of i.fact ∷ k ∷ ks,
            (λ one. cc ((others-none_iff (transaction_key_of i.fact) is).1 one, ap is_empty e)),
            run e ∙ several_keys a batch (transaction_key_of i.fact) k ks,
          )))
