-- ===== src/Base/Perm.antt =====
-- What a permutation of a list leaves as it was.
use Prim.Native.Nat.{suc}
use mathlib.Core.Path.{◌≡◌, refl, ap, ◌∙◌}
use mathlib.Core.Bool.{Bool, true, false}
use mathlib.Core.List.{List, ◌∷◌, Permᴰ}
use mathlib.Core.List.Permᴰ
use native.Mathlib.Omega.{arith}
use ictt_sentinel.Base.Tests.{if◌then◌else◌}
use ictt_sentinel.Base.Lists.{length, any, filter, is_empty, All}

module _ {ℓ} {A : Type ℓ} where
  pub any-perm : (p : A → Bool) {xs ys : List A} → Permᴰ xs ys → any p xs ≡ any p ys
  any-perm p Permᴰ.nil = refl
  any-perm p (Permᴰ.cons e h) = rw (e, any-perm p h)
  any-perm p (Permᴰ.swap e f) = rw (e, f) (ground arith)
  any-perm p (Permᴰ.trans h k) = any-perm p h ∙ any-perm p k

  pub length-perm : {xs ys : List A} → Permᴰ xs ys → length xs ≡ length ys
  length-perm Permᴰ.nil = refl
  length-perm (Permᴰ.cons e h) = ap suc (length-perm h)
  length-perm (Permᴰ.swap e f) = refl
  length-perm (Permᴰ.trans h k) = length-perm h ∙ length-perm k

  pub is_empty-perm : {xs ys : List A} → Permᴰ xs ys → is_empty xs ≡ is_empty ys
  is_empty-perm Permᴰ.nil = refl
  is_empty-perm (Permᴰ.cons e h) = refl
  is_empty-perm (Permᴰ.swap e f) = refl
  is_empty-perm (Permᴰ.trans h k) = is_empty-perm h ∙ is_empty-perm k

  pub filter-perm :
      (p : A → Bool) {xs ys : List A} → Permᴰ xs ys → Permᴰ (filter p xs) (filter p ys)
  filter-perm p Permᴰ.nil = Permᴰ.nil
  filter-perm p (Permᴰ.cons {a} {b} e h) = rw e (head_lem (p b) b (filter-perm p h))
    where
      head_lem :
          (t : Bool) (x : A) {us vs : List A}
          → Permᴰ us vs
          → Permᴰ (if t then x ∷ us else us) (if t then x ∷ vs else vs)
      head_lem true x k = Permᴰ.cons refl k
      head_lem false x k = k
  filter-perm p (Permᴰ.swap {a} {b} {a'} {b'} {l} e f) =
      rw (e, f) (pair_lem (p b') (p a') (filter p l))
    where
      pair_lem :
          (s t : Bool) (us : List A)
          → Permᴰ
              (if s then b' ∷ (if t then a' ∷ us else us) else (if t then a' ∷ us else us))
              (if t then a' ∷ (if s then b' ∷ us else us) else (if s then b' ∷ us else us))
      pair_lem true true us = Permᴰ.swap refl refl
      pair_lem true false us = Permᴰ.refl _
      pair_lem false true us = Permᴰ.refl _
      pair_lem false false us = Permᴰ.refl _
  filter-perm p (Permᴰ.trans h k) = Permᴰ.trans (filter-perm p h) (filter-perm p k)

  pub All-perm {κ} : (P : A → Type κ) {xs ys : List A} → Permᴰ xs ys → All P xs → All P ys
  All-perm P Permᴰ.nil h = tt
  All-perm P (Permᴰ.cons e k) h = (rw e at h.0, All-perm P k h.1)
  All-perm P (Permᴰ.swap e f) (h, rest) = (rw f at (rest.0), (rw e at h, rest.1))
  All-perm P (Permᴰ.trans k l) h = All-perm P l (All-perm P k h)
