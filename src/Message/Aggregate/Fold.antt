-- ===== src/Message/Aggregate/Fold.antt =====
-- Folding a batch of inputs into an aggregate.
use mathlib.Core.List.Permᴰ
use ictt_sentinel.Base.{◌≡◌, refl, ap, ◌⊎◌, inl, inr, List, [], ◌∷◌, Memᴰ, Permᴰ, Bool-cases, All}
use ictt_sentinel.Base.Text.{text_eq, text_eq_iff}
use ictt_sentinel.Base.Perm.{All-perm}
use ictt_sentinel.Base.Keyed.{IsKeyed, mem-perm}
use ictt_sentinel.Message.Keys.{MessageKey, message_key_of}
use ictt_sentinel.Message.Inputs.{TransitionInput}
use ictt_sentinel.Message.Aggregate.{
  Entry, MessageAggregate, ok, threw, message_key_mismatch, empty_aggregate, add_fact, reduce,
  reduce_from, reduce_all,
}
use ictt_sentinel.Message.Aggregate.Entries.{
  input_ref, IsFor, IsWellFormed, perm_of_eq, add-perm, add_swap, add_fact_idem,
  add_fact-IsWellFormed,
}

abbrev add_all : List Entry → List TransitionInput → List Entry
add_all facts [] = facts
add_all facts (i ∷ is) = add_all (add_fact facts i) is

pub reduce-for :
    (a : MessageAggregate) (i : TransitionInput)
    → IsFor a.key i
    → reduce a i ≡ ok (record { key = a.key; facts = add_fact a.facts i })
unfolding reduce
reduce-for a i h = rw ((text_eq_iff (message_key_of i.message) (message_key_of a.key)).1 h) refl

-- A batch for the aggregate's own message never throws, and adds its facts.
reduce_from-ok :
    (a : MessageAggregate) (inputs : List TransitionInput)
    → All (IsFor a.key) inputs
    → reduce_from a inputs ≡ ok (record { key = a.key; facts = add_all a.facts inputs })
unfolding reduce_from
reduce_from-ok a [] h = refl
reduce_from-ok a (i ∷ is) h =
    rw (reduce_from, reduce-for a i h.0)
      (reduce_from-ok (record { key = a.key; facts = add_fact a.facts i }) is h.1)

add_all-perm_facts :
    (is : List TransitionInput) {f g : List Entry} → Permᴰ f g → Permᴰ (add_all f is) (add_all g is)
add_all-perm_facts [] h = h
add_all-perm_facts (i ∷ is) h = add_all-perm_facts is (add-perm i h)

-- Folding permuted batches into permuted facts gives permuted facts.
add_all-perm :
    {is js : List TransitionInput}
    → Permᴰ is js
    → {f g : List Entry} → Permᴰ f g
    → IsKeyed input_ref js
    → Permᴰ (add_all f is) (add_all g js)
add_all-perm Permᴰ.nil h k = h
add_all-perm (Permᴰ.cons {b} e p) {f} h k =
    add_all-perm p (Permᴰ.trans (perm_of_eq (ap (add_fact f) e)) (add-perm b h))
      (λ x y m n. k x y (Memᴰ.tail m) (Memᴰ.tail n))
add_all-perm (Permᴰ.swap {a} {b} {a'} {b'} {l = l} e q) {f} h k = add_all-perm_facts l (
    Permᴰ.trans (add_swap f a b (k a b (Memᴰ.tail (Memᴰ.head e)) (Memᴰ.head q))) (
      Permᴰ.trans (perm_of_eq (λ i. add_fact (add_fact f (q i)) (e i)))
        (add-perm b' (add-perm a' h))))
add_all-perm (Permᴰ.trans p q) h k =
    Permᴰ.trans (add_all-perm p h (λ x y m n. k x y (mem-perm q m) (mem-perm q n)))
      (add_all-perm q (Permᴰ.refl _) k)

add_all-IsWellFormed :
    (f : List Entry) (is : List TransitionInput) → IsWellFormed f → IsWellFormed (add_all f is)
add_all-IsWellFormed f [] w = w
add_all-IsWellFormed f (i ∷ is) w =
    add_all-IsWellFormed (add_fact f i) is (add_fact-IsWellFormed f i w)

-- Redelivery is harmless: once an aggregate accepted an input, `reduce` returns the aggregate
-- unchanged on the same input, and it refuses exactly the inputs of other messages.
pub reduce_idem :
    (a : MessageAggregate) (i : TransitionInput)
    → ((b : MessageAggregate) × (reduce a i ≡ ok b) × (reduce b i ≡ ok b) × IsFor a.key i)
      ⊎ ((reduce a i ≡ threw (message_key_mismatch a.key i.message)) × (¬ IsFor a.key i))
unfolding reduce
reduce_idem a i = elim (Bool-cases (text_eq (message_key_of i.message) (message_key_of a.key))) [
  | inl e ↦ inl (
    record { key = a.key; facts = add_fact a.facts i },
    rw e refl,
    rw e (λ j. ok (record { key = a.key; facts = add_fact_idem a.facts i j })),
    (text_eq_iff _ _).0 e,
  )
  | inr e ↦
      inr (
        rw e refl,
        λ h. cc (e, (text_eq_iff (message_key_of i.message) (message_key_of a.key)).1 h),
      )
]

-- Order independence of ingestion: two orders of one batch, all of it for this message and with at
-- most one input per raw fact, are both accepted, and leave well-formed aggregates for the message
-- with the same facts.
pub reduce_all-perm :
    (key : MessageKey) {is js : List TransitionInput}
    → Permᴰ is js
    → All (IsFor key) is
    → IsKeyed input_ref js
    → (a b : MessageAggregate) × (reduce_all key is ≡ ok a)
      × (reduce_all key js ≡ ok b)
      × IsWellFormed a.facts
      × IsWellFormed b.facts
      × Permᴰ a.facts b.facts
unfolding reduce_all empty_aggregate
reduce_all-perm key {is} {js} p h k = (
  record { key = key; facts = add_all [] is },
  record { key = key; facts = add_all [] js },
  reduce_from-ok (empty_aggregate key) is h,
  reduce_from-ok (empty_aggregate key) js (All-perm (IsFor key) p h),
  add_all-IsWellFormed [] is empty_lem,
  add_all-IsWellFormed [] js empty_lem,
  add_all-perm p Permᴰ.nil k,
)
  where
    empty_lem : IsWellFormed []
    empty_lem = record { keyed = tt; distinct = tt }
