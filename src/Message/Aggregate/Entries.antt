-- ===== src/Message/Aggregate/Entries.antt =====
-- One input against the facts of an aggregate.
use mathlib.Core.List.Permᴰ
use ictt_sentinel.Base.{
  ◌≡◌, refl, sym, ap, ◌∙◌, inl, inr, true, false, ◌||◌, List, [], ◌∷◌, ◌++◌, Permᴰ, arith,
  Bool-cases, any-append, All, All-append,
}
use ictt_sentinel.Base.Text.{Text, text_eq, text_eq_iff, text_eq_refl}
use ictt_sentinel.Base.Perm.{any-perm}
use ictt_sentinel.Base.Keyed.{has_key, IsDistinct}
use ictt_sentinel.Message.Keys.{MessageKey, message_key_of, raw_fact_ref_of}
use ictt_sentinel.Message.Inputs.{TransitionInput}
use ictt_sentinel.Message.Aggregate.{Entry, entry_key, add_fact}

-- The reference of an input.
abbrev pub input_ref : TransitionInput → Text
input_ref i = raw_fact_ref_of i.fact

-- The input is for the message with this key.
abbrev pub IsFor : MessageKey → TransitionInput → Type 0
IsFor key i = message_key_of i.message ≡ message_key_of key

-- Every entry stands under the reference of its input, and no reference stands twice.
pub record IsWellFormed (facts : List Entry) : Type 0 where
  pub keyed : All (λ e. e.0 ≡ input_ref e.1) facts
  pub distinct : IsDistinct entry_key facts

pub add-present :
    (f : List Entry) (i : TransitionInput)
    → has_key entry_key (input_ref i) f ≡ true
    → add_fact f i ≡ f
unfolding add_fact
add-present f i h = rw h refl

pub add-absent :
    (f : List Entry) (i : TransitionInput)
    → has_key entry_key (input_ref i) f ≡ false
    → add_fact f i ≡ f ++ (input_ref i, i) ∷ []
unfolding add_fact
add-absent f i h = rw h refl

has_end :
    (f : List Entry) (i : TransitionInput) (k : Text)
    → has_key entry_key k (f ++ (input_ref i, i) ∷ [])
      ≡ (has_key entry_key k f || text_eq (input_ref i) k)
has_end f i k = any-append (λ e. text_eq (entry_key e) k) f ((input_ref i, i) ∷ []) ∙ ground arith

has-add_other :
    (f : List Entry) (i : TransitionInput) (k : Text)
    → text_eq (input_ref i) k ≡ false
    → has_key entry_key k (add_fact f i) ≡ has_key entry_key k f
has-add_other f i k h = elim (Bool-cases (has_key entry_key (input_ref i) f)) [
  | inl e ↦ rw (add-present f i e) refl
  | inr e ↦ ap (has_key entry_key k) (add-absent f i e) ∙ has_end f i k ∙ ground (arith, h)
]

pub has-add_self :
    (f : List Entry) (i : TransitionInput) → has_key entry_key (input_ref i) (add_fact f i) ≡ true
has-add_self f i = elim (Bool-cases (has_key entry_key (input_ref i) f)) [
  | inl e ↦ ap (has_key entry_key (input_ref i)) (add-present f i e) ∙ e
  | inr e ↦
      ap (has_key entry_key (input_ref i)) (add-absent f i e)
      ∙ has_end f i (input_ref i)
      ∙ ground (arith, text_eq_refl (input_ref i))
]

module _ {ℓ} {A : Type ℓ} where
  perm-append : {f g : List A} (t : List A) → Permᴰ f g → Permᴰ (f ++ t) (g ++ t)
  perm-append t Permᴰ.nil = Permᴰ.refl t
  perm-append t (Permᴰ.cons e h) = Permᴰ.cons e (perm-append t h)
  perm-append t (Permᴰ.swap e f) = Permᴰ.swap e f
  perm-append t (Permᴰ.trans h k) = Permᴰ.trans (perm-append t h) (perm-append t k)

  perm-ends : (f : List A) (x y : A) → Permᴰ ((f ++ x ∷ []) ++ y ∷ []) ((f ++ y ∷ []) ++ x ∷ [])
  perm-ends [] x y = Permᴰ.swap refl refl
  perm-ends (z ∷ f) x y = Permᴰ.cons refl (perm-ends f x y)

  pub perm_of_eq : {f g : List A} → f ≡ g → Permᴰ f g
  perm_of_eq {f} e = rw (← e) (Permᴰ.refl f)

pub add-perm :
    {f g : List Entry} (i : TransitionInput) → Permᴰ f g → Permᴰ (add_fact f i) (add_fact g i)
add-perm {f} {g} i h = elim (Bool-cases (has_key entry_key (input_ref i) g)) [
  | inl e ↦ rw (add-present f i (same ∙ e), add-present g i e) h
  | inr e ↦ rw (add-absent f i (same ∙ e), add-absent g i e) (perm-append ((input_ref i, i) ∷ []) h)
]
  where
    same : has_key entry_key (input_ref i) f ≡ has_key entry_key (input_ref i) g
    same = any-perm (λ e. text_eq (entry_key e) (input_ref i)) h

add_twice :
    (f : List Entry) (x y : TransitionInput)
    → x ≡ y
    → add_fact (add_fact f x) y ≡ add_fact (add_fact f y) x
add_twice f x y e = λ i. add_fact (add_fact f (e i)) (sym e i)

-- Two inputs may be added in either order.
pub add_swap :
    (f : List Entry) (x y : TransitionInput)
    → (input_ref x ≡ input_ref y → x ≡ y)
    → Permᴰ (add_fact (add_fact f x) y) (add_fact (add_fact f y) x)
add_swap f x y k = elim (Bool-cases (text_eq (input_ref x) (input_ref y))) [
  | inl e ↦ perm_of_eq (add_twice f x y (k ((text_eq_iff _ _).0 e)))
  | inr e ↦ apart e
]
  where
    present_twice :
        (u v : TransitionInput)
        → text_eq (input_ref u) (input_ref v) ≡ false
        → has_key entry_key (input_ref v) f ≡ true
        → add_fact (add_fact f u) v ≡ add_fact (add_fact f v) u
    present_twice u v e p =
        add-present (add_fact f u) v (has-add_other f u (input_ref v) e ∙ p)
        ∙ ap (λ g. add_fact g u) (sym (add-present f v p))

    flip : text_eq (input_ref x) (input_ref y) ≡ false → text_eq (input_ref y) (input_ref x) ≡ false
    flip e = elim (Bool-cases (text_eq (input_ref y) (input_ref x))) [
      | inl p ↦ cc (e, (text_eq_iff (input_ref x) (input_ref y)).1 (sym ((text_eq_iff _ _).0 p)))
      | inr p ↦ p
    ]

    apart :
        text_eq (input_ref x) (input_ref y) ≡ false
        → Permᴰ (add_fact (add_fact f x) y) (add_fact (add_fact f y) x)
    apart e = elim (Bool-cases (has_key entry_key (input_ref y) f)) [
      | inl p ↦ perm_of_eq (present_twice x y e p)
      | inr p ↦ elim (Bool-cases (has_key entry_key (input_ref x) f)) [
        | inl q ↦ perm_of_eq (sym (present_twice y x (flip e) q))
        | inr q ↦
            rw
              (
                add-absent (add_fact f x) y (has-add_other f x (input_ref y) e ∙ p),
                add-absent (add_fact f y) x (has-add_other f y (input_ref x) (flip e) ∙ q),
                add-absent f x q,
                add-absent f y p,
              )
              (perm-ends f (input_ref x, x) (input_ref y, y))
      ]
    ]

-- One input is taken in once: adding it again, at any later time, changes nothing.
pub add_fact_idem :
    (f : List Entry) (i : TransitionInput) → add_fact (add_fact f i) i ≡ add_fact f i
add_fact_idem f i = add-present (add_fact f i) i (has-add_self f i)

IsDistinct-end :
    (f : List Entry) (e : Entry)
    → has_key entry_key e.0 f ≡ false
    → IsDistinct entry_key f
    → IsDistinct entry_key (f ++ e ∷ [])
IsDistinct-end [] e h d = (refl, tt)
IsDistinct-end (x ∷ f) e h d = (
  any-append (λ u. text_eq (entry_key u) (entry_key x)) f (e ∷ []) ∙ ground (arith, d.0, flip, h),
  IsDistinct-end f e (ground (arith, h)) d.1,
)
  where
    flip : text_eq e.0 x.0 ≡ true → text_eq x.0 e.0 ≡ true
    flip p = (text_eq_iff _ _).1 (sym ((text_eq_iff _ _).0 p))

pub add_fact-IsWellFormed :
    (f : List Entry) (i : TransitionInput) → IsWellFormed f → IsWellFormed (add_fact f i)
add_fact-IsWellFormed f i w = elim (Bool-cases (has_key entry_key (input_ref i) f)) [
  | inl e ↦ rw (add-present f i e) w
  | inr e ↦ rw (add-absent f i e) (record {
    keyed = All-append (λ e. e.0 ≡ input_ref e.1) f ((input_ref i, i) ∷ []) w.keyed (refl, tt);
    distinct = IsDistinct-end f (input_ref i, i) e w.distinct;
  })
]
