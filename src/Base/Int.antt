-- ===== src/Base/Int.antt =====
-- Signed integers over the native numbers, under the library's names (its ℤ stands on the unary ℕ).
-- Sums and orders go through the two parts of an integer, which are numbers that `omega` reads.
use native.Mathlib.Nat.{add-zero, zero-div, div-zero, zero-mod}
use ictt_sentinel.Base.{
  ℕ, suc, ◌+◌, ◌-◌, ◌*◌, ◌/◌, ◌%◌, ◌≤◌, ◌<◌, ◌==◌, List, [], ◌∷◌, ◌∙◌, Permᴰ, All, ◌↔◌, true, ◌≡◌,
  refl, ap, ◌⊎◌, Bool, arith, ltb, leb, if◌then◌else◌,
}

-- `negsuc n` is -(n + 1).
pub data ℤ : Type 0 where
  pos : ℕ → ℤ
  negsuc : ℕ → ℤ

abbrev pub pos_part : ℤ → ℕ
pos_part (pos n) = n
pos_part (negsuc n) = 0

abbrev pub neg_part : ℤ → ℕ
neg_part (pos n) = 0
neg_part (negsuc n) = suc n

-- a - b, as an integer.
abbrev pub sub_ℕ : ℕ → ℕ → ℤ
sub_ℕ a b = if leb b a then pos (a - b) else negsuc (b - a - 1)

infixl 65 ◌+ℤ◌ ◌-ℤ◌
infixl 70 ◌*ℤ◌ ◌/ℤ◌ ◌%ℤ◌
infix 50 ◌≤ℤ◌ ◌<ℤ◌
unfoldable pub ◌+ℤ◌ : ℤ → ℤ → ℤ
a +ℤ b = sub_ℕ (pos_part a + pos_part b) (neg_part a + neg_part b)

unfoldable pub ◌-ℤ◌ : ℤ → ℤ → ℤ
a -ℤ b = sub_ℕ (pos_part a + neg_part b) (neg_part a + pos_part b)

unfoldable pub ◌*ℤ◌ : ℤ → ℤ → ℤ
a *ℤ b =
    sub_ℕ (pos_part a * pos_part b + neg_part a * neg_part b)
      (pos_part a * neg_part b + neg_part a * pos_part b)

abbrev pub ◌≤ℤ◌ : ℤ → ℤ → Type 0
a ≤ℤ b = pos_part a + neg_part b ≤ pos_part b + neg_part a

abbrev pub ◌<ℤ◌ : ℤ → ℤ → Type 0
a <ℤ b = pos_part a + neg_part b < pos_part b + neg_part a

abbrev pub leb_ℤ : ℤ → ℤ → Bool
leb_ℤ a b = leb (pos_part a + neg_part b) (pos_part b + neg_part a)

abbrev pub eqb_ℤ : ℤ → ℤ → Bool
eqb_ℤ a b = pos_part a + neg_part b == pos_part b + neg_part a

abbrev pub ltb_ℤ : ℤ → ℤ → Bool
ltb_ℤ a b = ltb (pos_part a + neg_part b) (pos_part b + neg_part a)

-- With the operations unfolded `ground` splits on the signs.
pub +ℤ_comm : (a b : ℤ) → a +ℤ b ≡ b +ℤ a
unfolding ◌+ℤ◌
+ℤ_comm a b = ground arith

pub +ℤ_assoc : (a b c : ℤ) → a +ℤ b +ℤ c ≡ a +ℤ (b +ℤ c)
unfolding ◌+ℤ◌
+ℤ_assoc a b c = ground arith

pub ≤ℤ_total : (a b : ℤ) → (a ≤ℤ b) ⊎ (b ≤ℤ a)
≤ℤ_total a b = omega arith

-- One lemma for each operation lets `omega` work with the operations shut, at any depth.
pub +ℤ_parts :
    (a b : ℤ)
    → pos_part (a +ℤ b) + neg_part a + neg_part b ≡ neg_part (a +ℤ b) + pos_part a + pos_part b
unfolding ◌+ℤ◌
+ℤ_parts a b = ground arith

pub -ℤ_parts :
    (a b : ℤ)
    → pos_part (a -ℤ b) + neg_part a + pos_part b ≡ neg_part (a -ℤ b) + pos_part a + neg_part b
unfolding ◌-ℤ◌
-ℤ_parts a b = ground arith

pub eq_of_parts : (a b : ℤ) → pos_part a + neg_part b ≡ pos_part b + neg_part a → a ≡ b
eq_of_parts a b h = ground arith

pub eq_parts : {a b : ℤ} → a ≡ b → (pos_part a ≡ pos_part b) × (neg_part a ≡ neg_part b)
eq_parts e = (ap pos_part e, ap neg_part e)

pub ruleset int_laws = (arith, +ℤ_parts, -ℤ_parts, eq_of_parts)

pub +ℤ_mono : (a b c d : ℤ) → a ≤ℤ b → c ≤ℤ d → a +ℤ c ≤ℤ b +ℤ d
+ℤ_mono a b c d h k = omega int_laws

-- `reduce((acc, x) => acc + f(x), 0n)`
unfoldable pub sum_ℤ {ℓ} : {A : Type ℓ} → (A → ℤ) → List A → ℤ
sum_ℤ f [] = pos 0
sum_ℤ f (x ∷ xs) = f x +ℤ sum_ℤ f xs

-- `a / b` on bigints truncates towards zero.
unfoldable pub ◌/ℤ◌ : ℤ → ℤ → ℤ
a /ℤ b =
    sub_ℕ (pos_part a / pos_part b + neg_part a / neg_part b)
      (pos_part a / neg_part b + neg_part a / pos_part b)

-- `a % b` on bigints takes the sign of `a`.
unfoldable pub ◌%ℤ◌ : ℤ → ℤ → ℤ
a %ℤ b = sub_ℕ (pos_part a % (pos_part b + neg_part b)) (neg_part a % (pos_part b + neg_part b))

pub sum_ℤ-perm {ℓ} :
    {A : Type ℓ} (f : A → ℤ) {xs ys : List A} → Permᴰ xs ys → sum_ℤ f xs ≡ sum_ℤ f ys
unfolding sum_ℤ
sum_ℤ-perm f Permᴰ.nil = refl
sum_ℤ-perm f (Permᴰ.cons {b} e h) = rw (e, sum_ℤ-perm f h)
sum_ℤ-perm f (Permᴰ.swap {a} {b} {l = l} e g) = rw (← e, ← g) (omega int_laws)
sum_ℤ-perm f (Permᴰ.trans h k) = sum_ℤ-perm f h ∙ sum_ℤ-perm f k

pub sum_ℤ-nonneg {ℓ} :
    {A : Type ℓ} (f : A → ℤ) (xs : List A) → All (λ x. pos 0 ≤ℤ f x) xs → pos 0 ≤ℤ sum_ℤ f xs
unfolding sum_ℤ
sum_ℤ-nonneg f [] h = omega arith
sum_ℤ-nonneg f (x ∷ xs) h = omega (int_laws, h.0, sum_ℤ-nonneg f xs h.1)

pub sum_ℤ_mono {ℓ} :
    {A : Type ℓ} (f g : A → ℤ) (xs : List A) → All (λ x. f x ≤ℤ g x) xs → sum_ℤ f xs ≤ℤ sum_ℤ g xs
unfolding sum_ℤ
sum_ℤ_mono f g [] h = omega arith
sum_ℤ_mono f g (x ∷ xs) h = omega (int_laws, h.0, sum_ℤ_mono f g xs h.1)

pub sum_ℤ-eq {ℓ} :
    {A : Type ℓ} (f g : A → ℤ) (xs : List A) → All (λ x. f x ≡ g x) xs → sum_ℤ f xs ≡ sum_ℤ g xs
unfolding sum_ℤ
sum_ℤ-eq f g [] h = refl
sum_ℤ-eq f g (x ∷ xs) h = rw (h.0, sum_ℤ-eq f g xs h.1)

pub eqb_ℤ_iff : (a b : ℤ) → (eqb_ℤ a b ≡ true) ↔ (a ≡ b)
eqb_ℤ_iff a b = (λ h. ground arith, λ h. ground arith)

-- The operations on integers that are not negative.
pub *ℤ_pos : (x y : ℕ) → pos x *ℤ pos y ≡ pos (x * y)
unfolding ◌*ℤ◌
*ℤ_pos x y = ground arith

pub /ℤ_pos : (x y : ℕ) → pos x /ℤ pos y ≡ pos (x / y)
unfolding ◌/ℤ◌
/ℤ_pos x y = ground (arith, zero-div y, div-zero x)

pub %ℤ_pos : (x y : ℕ) → pos x %ℤ pos y ≡ pos (x % y)
unfolding ◌%ℤ◌
%ℤ_pos x y = rw (add-zero) (ground (arith, zero-mod y))

pub +ℤ_pos : (x y : ℕ) → pos x +ℤ pos y ≡ pos (x + y)
unfolding ◌+ℤ◌
+ℤ_pos x y = ground arith
