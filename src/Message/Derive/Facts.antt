-- ===== src/Message/Derive/Facts.antt =====
-- Lists of facts under permutation, and facts with distinct references.
use mathlib.Core.List.Permᴰ
use ictt_sentinel.Base.{
  ◌≡◌, refl, sym, ap, ◌∙◌, inl, inr, Bool, true, false, ◌||◌, List, [], ◌∷◌, ◌++◌, map, Permᴰ,
  Option, none, some, arith, Bool-cases, any-append, filter, All,
}
use ictt_sentinel.Base.Int.{ℤ}
use ictt_sentinel.Base.Text.{Text, text_eq, text_eq_iff}
use ictt_sentinel.Base.Sets.{text_Eq}
use ictt_sentinel.Base.Keyed.{has_key, IsDistinct}
use ictt_sentinel.Message.Inputs.{TransitionInput}
use ictt_sentinel.Message.Aggregate.{Entry, entry_key}
use ictt_sentinel.Message.Aggregate.Entries.{input_ref}
use ictt_sentinel.Message.Derive.{later, latest_from, ref_of, set_fact, set_facts, present}

module _ {ℓ κ} {A : Type ℓ} {B : Type κ} (f : A → B) where
  pub map-perm : {xs ys : List A} → Permᴰ xs ys → Permᴰ (map f xs) (map f ys)
  map-perm Permᴰ.nil = Permᴰ.nil
  map-perm (Permᴰ.cons e h) = Permᴰ.cons (ap f e) (map-perm h)
  map-perm (Permᴰ.swap e g) = Permᴰ.swap (ap f e) (ap f g)
  map-perm (Permᴰ.trans h k) = Permᴰ.trans (map-perm h) (map-perm k)

module _ {ℓ} {A : Type ℓ} (key : A → Text) where
  pub has_key-filter :
      (p : A → Bool) (k : Text) (xs : List A)
      → has_key key k xs ≡ false
      → has_key key k (filter p xs) ≡ false
  has_key-filter p k [] h = refl
  has_key-filter p k (x ∷ xs) h = ground (arith, h, has_key-filter p k xs)

  pub IsDistinct-filter :
      (p : A → Bool) (xs : List A) → IsDistinct key xs → IsDistinct key (filter p xs)
  IsDistinct-filter p [] d = tt
  IsDistinct-filter p (x ∷ xs) d = elim (Bool-cases (p x)) [
    | inl e ↦ rw e (has_key-filter p (key x) xs d.0, IsDistinct-filter p xs d.1)
    | inr e ↦ rw e (IsDistinct-filter p xs d.1)
  ]

pub later_comm : (l x y : Option ℤ) → later (later l x) y ≡ later (later l y) x
later_comm l x y = ground arith

pub latest-perm :
    {es fs : List Entry} → Permᴰ es fs → (l : Option ℤ) → latest_from l es ≡ latest_from l fs
latest-perm Permᴰ.nil l = refl
latest-perm (Permᴰ.cons {a} {b} {l₂ = t} e h) l =
    latest-perm h (later l a.1.observed_at) ∙ ap (λ u. latest_from (later l u.1.observed_at) t) e
latest-perm (Permᴰ.swap {a} {b} {l = t} e f) l =
    ap (λ m. latest_from m t) (later_comm l a.1.observed_at b.1.observed_at) ∙ λ i.
    latest_from (later (later l ((f i).1.observed_at)) ((e i).1.observed_at)) t
latest-perm (Permᴰ.trans h k) l = latest-perm h l ∙ latest-perm k l

pub text_eq_sym : (s t : Text) → text_eq s t ≡ true → text_eq t s ≡ true
text_eq_sym s t h = (text_eq_iff t s).1 (sym ((text_eq_iff s t).0 h))

pub set_fact-absent :
    (out : List TransitionInput) (f : TransitionInput)
    → has_key ref_of (ref_of f) out ≡ false
    → set_fact out f ≡ out ++ f ∷ []
set_fact-absent [] f h = refl
set_fact-absent (g ∷ gs) f h =
    rw (left_false (text_eq (ref_of g) (ref_of f)) _ h)
      (ap (λ t. g ∷ t) (set_fact-absent gs f (ground (arith, h))))
  where
    left_false : (x y : Bool) → x || y ≡ false → x ≡ false
    left_false true y k = k
    left_false false y k = refl

-- No reference of one list is in the other.
abbrev pub Apart : List TransitionInput → List TransitionInput → Type 0
Apart out fs = All (λ f. has_key ref_of (ref_of f) out ≡ false) fs

-- Collecting facts with distinct references keeps them all, in order.
pub set_facts-distinct :
    (out fs : List TransitionInput)
    → Apart out fs
    → IsDistinct ref_of fs
    → set_facts out fs ≡ out ++ fs
set_facts-distinct out [] k d = append_nil out
  where
    append_nil : (xs : List TransitionInput) → xs ≡ xs ++ []
    append_nil [] = refl
    append_nil (x ∷ xs) = ap (λ t. x ∷ t) (append_nil xs)
set_facts-distinct out (f ∷ fs) k d =
    ap (λ o. set_facts o fs) (set_fact-absent out f k.0)
    ∙ set_facts-distinct (out ++ f ∷ []) fs (apart_end fs k.1 d.0) d.1
    ∙ append_cons out
  where
    append_cons : (xs : List TransitionInput) → (xs ++ f ∷ []) ++ fs ≡ xs ++ f ∷ fs
    append_cons [] = refl
    append_cons (x ∷ xs) = ap (λ t. x ∷ t) (append_cons xs)

    apart_end :
        (gs : List TransitionInput)
        → Apart out gs
        → has_key ref_of (ref_of f) gs ≡ false
        → Apart (out ++ f ∷ []) gs
    apart_end [] q e = tt
    apart_end (g ∷ gs) q e = (
      any-append (λ x. text_eq (ref_of x) (ref_of g)) out (f ∷ [])
          ∙ ground (arith, q.0, e, text_eq_sym (ref_of f) (ref_of g)),
      apart_end gs q.1 (ground (arith, e)),
    )

pub present-perm : {xs ys : List (Option Text)} → Permᴰ xs ys → Permᴰ (present xs) (present ys)
present-perm Permᴰ.nil = Permᴰ.nil
present-perm (Permᴰ.cons {a = none} {b} {l₂ = t} e h) = rw (← e) (present-perm h)
present-perm (Permᴰ.cons {a = some x} e h) = rw (← e) (Permᴰ.cons refl (present-perm h))
present-perm (Permᴰ.swap {a = none} {b = none} e f) = rw (← e, ← f) (Permᴰ.refl _)
present-perm (Permᴰ.swap {a = none} {b = some y} e f) = rw (← e, ← f) (Permᴰ.refl _)
present-perm (Permᴰ.swap {a = some x} {b = none} e f) = rw (← e, ← f) (Permᴰ.refl _)
present-perm (Permᴰ.swap {a = some x} {b = some y} e f) = rw (← e, ← f) (Permᴰ.swap refl refl)
present-perm (Permᴰ.trans h k) = Permᴰ.trans (present-perm h) (present-perm k)

-- The inputs of a well-formed aggregate have distinct references.
pub inputs-IsDistinct :
    (es : List Entry)
    → All (λ e. e.0 ≡ input_ref e.1) es
    → IsDistinct entry_key es
    → IsDistinct ref_of (map (λ e. e.1) es)
inputs-IsDistinct [] k d = tt
inputs-IsDistinct (e ∷ es) k d = (fresh es k.1 d.0, inputs-IsDistinct es k.1 d.1)
  where
    fresh :
        (fs : List Entry)
        → All (λ e. e.0 ≡ input_ref e.1) fs
        → has_key entry_key e.0 fs ≡ false
        → has_key ref_of (ref_of e.1) (map (λ e. e.1) fs) ≡ false
    fresh [] q h = refl
    fresh (g ∷ fs) q h = rw (← q.0, ← k.0) (ground (arith, h, fresh fs q.1))
