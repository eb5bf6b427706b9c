-- ===== src/Message/Transaction/Batches.antt =====
-- What the batches of groupByTransaction hold.
use mathlib.Core.List.Permᴰ
use ictt_sentinel.Base.{
  ◌≡◌, refl, sym, List, [], ◌∷◌, ◌++◌, map, Permᴰ, flat_map, inl, inr, Bool-cases, All, All-append,
}
use ictt_sentinel.Base.Members.{append_nil, append_assoc, perm-middle_list}
use ictt_sentinel.Base.Perm.{All-perm}
use ictt_sentinel.Base.Text.{Text, text_eq, text_eq_iff}
use ictt_sentinel.Base.Sets.{sort, sort-perm}
use ictt_sentinel.Base.Keyed.{by_key, text_lt}
use ictt_sentinel.Base.Grouped.{group_from, add_entry}
use ictt_sentinel.Message.Keys.{transaction_key_of}
use ictt_sentinel.Message.Inputs.{TransitionInput}
use ictt_sentinel.Message.Transaction.{group_by_transaction, logged_before}

-- A batch under its key.
abbrev Batch : Type 0
Batch = Text × List TransitionInput

abbrev pub batched : List Batch → List TransitionInput
batched = flat_map (λ e. e.1)

-- Every input of the batch is of the transaction that the batch stands under.
abbrev pub IsOne : Batch → Type 0
IsOne e = All (λ i. transaction_key_of i.fact ≡ e.0) e.1

abbrev grouped : List Batch → List TransitionInput → List Batch
grouped = group_from (λ i. transaction_key_of i.fact) (λ i. i)

abbrev added : List Batch → TransitionInput → List Batch
added = add_entry (λ i. transaction_key_of i.fact) (λ i. i)

batched-perm : {xs ys : List Batch} → Permᴰ xs ys → Permᴰ (batched xs) (batched ys)
batched-perm Permᴰ.nil = Permᴰ.nil
batched-perm (Permᴰ.cons {a} e h) = rw (← e) (Permᴰ.append_left a.1 (batched-perm h))
batched-perm (Permᴰ.swap {a} {b} {l = l} e f) = rw (← e, ← f) (perm-middle_list a.1 b.1 (batched l))
batched-perm (Permᴰ.trans h k) = Permᴰ.trans (batched-perm h) (batched-perm k)

added-perm : (m : List Batch) (i : TransitionInput) → Permᴰ (batched (added m i)) (i ∷ batched m)
unfolding add_entry
added-perm [] i = Permᴰ.refl _
added-perm (e ∷ es) i = elim (Bool-cases (text_eq e.0 (transaction_key_of i.fact))) [
  | inl t ↦ rw (t, append_assoc e.1 (i ∷ []) (batched es)) (Permᴰ.middle i e.1 (batched es))
  | inr t ↦
      rw t (Permᴰ.trans (Permᴰ.append_left e.1 (added-perm es i)) (Permᴰ.middle i e.1 (batched es)))
]

added-IsOne : (m : List Batch) (i : TransitionInput) → All IsOne m → All IsOne (added m i)
unfolding add_entry
added-IsOne [] i h = ((refl, tt), tt)
added-IsOne (e ∷ es) i h = elim (Bool-cases (text_eq e.0 (transaction_key_of i.fact))) [
  | inl t ↦ rw t (All-append _ e.1 (i ∷ []) h.0 (sym ((text_eq_iff _ _).0 t), tt), h.1)
  | inr t ↦ rw t (h.0, added-IsOne es i h.1)
]

grouped-perm :
    (is : List TransitionInput) (m : List Batch) → Permᴰ (batched (grouped m is)) (batched m ++ is)
unfolding group_from
grouped-perm [] m = rw (append_nil (batched m)) (Permᴰ.refl _)
grouped-perm (i ∷ is) m = Permᴰ.trans (grouped-perm is (added m i)) (
    Permᴰ.trans (Permᴰ.append_right is (added-perm m i))
      (Permᴰ.symm (Permᴰ.middle i (batched m) is)))

grouped-IsOne :
    (is : List TransitionInput) (m : List Batch) → All IsOne m → All IsOne (grouped m is)
unfolding group_from
grouped-IsOne [] m h = h
grouped-IsOne (i ∷ is) m h = grouped-IsOne is (added m i) (added-IsOne m i h)

sorted-perm :
    (m : List Batch) → Permᴰ (batched (map (λ e. (e.0, sort logged_before e.1)) m)) (batched m)
sorted-perm [] = Permᴰ.nil
sorted-perm (e ∷ es) =
    Permᴰ.trans (Permᴰ.append_left _ (sorted-perm es))
      (Permᴰ.append_right (batched es) (sort-perm logged_before e.1))

sorted-IsOne :
    (m : List Batch) → All IsOne m → All IsOne (map (λ e. (e.0, sort logged_before e.1)) m)
sorted-IsOne [] h = tt
sorted-IsOne (e ∷ es) h =
    (All-perm _ (Permᴰ.symm (sort-perm logged_before e.1)) h.0, sorted-IsOne es h.1)

-- The batches of a list of inputs hold every input as often as it is given, each in the batch of its
-- own transaction.
pub group_by_transaction-IsOne :
    (inputs : List TransitionInput)
    → Permᴰ (batched (group_by_transaction inputs)) inputs × All IsOne (group_by_transaction inputs)
unfolding group_by_transaction
group_by_transaction-IsOne inputs =
    let o = sort-perm (by_key (λ (e : Batch). e.0) text_lt) (grouped [] inputs) in
    (
      Permᴰ.trans (sorted-perm (sort (by_key (λ e. e.0) text_lt) (grouped [] inputs)))
          (Permᴰ.trans (batched-perm o) (grouped-perm inputs [])),
      sorted-IsOne _ (All-perm IsOne (Permᴰ.symm o) (grouped-IsOne inputs [] tt)),
    )
