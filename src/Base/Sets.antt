-- ===== src/Base/Sets.antt =====
-- Equality tests as instances, `Set` in insertion order, and sorting. A `Set` is the list of its
-- members in the order of their first insertion.
use mathlib.Core.List.Permᴰ
use mathlib.Core.Path.{subst}
use ictt_sentinel.Base.{
  ℕ, ◌≡◌, refl, sym, ap, ◌∙◌, ◌↔◌, ◌⊎◌, inl, inr, Bool, true, false, not, List, [], ◌∷◌, Permᴰ,
  arith, if◌then◌else◌, Bool-cases, any, filter, filter_comm, filter-kept, filter-dropped, is_empty,
  any-filter, ==_iff, ◌==◌ as nat_beq,
}
use ictt_sentinel.Base.Text.{
  Text, text_eq, text_eq_iff, text_le, text_le_total, text_le_antisymm, text_le_trans,
}
use ictt_sentinel.Base.Perm.{filter-perm}

pub record Eq {ℓ} (A : Type ℓ) : Type ℓ where
  pub beq : A → A → Bool
  pub beq_iff : (a b : A) → (beq a b ≡ true) ↔ (a ≡ b)

infix 50 ◌===◌
abbrev pub ◌===◌ {ℓ} : {A : Type ℓ} ⦃e : Eq A⦄ → A → A → Bool
◌===◌ ⦃e⦄ = e.beq

instance abbrev pub nat_eq : Eq ℕ
nat_eq = record { beq = nat_beq; beq_iff = ==_iff }

instance abbrev pub text_Eq : Eq Text
text_Eq = record { beq = text_eq; beq_iff = text_eq_iff }

-- A test whose truth is a total order.
pub record IsOrder {ℓ} {A : Type ℓ} (le : A → A → Bool) : Type ℓ where
  pub total : (a b : A) → (le a b ≡ true) ⊎ (le b a ≡ true)
  pub antisymm : (a b : A) → le a b ≡ true → le b a ≡ true → a ≡ b
  pub trans : (a b c : A) → le a b ≡ true → le b c ≡ true → le a c ≡ true

pub text_le-IsOrder : IsOrder text_le
text_le-IsOrder = record {
  total = text_le_total;
  antisymm = text_le_antisymm;
  trans = text_le_trans;
}

module _ {ℓ} {A : Type ℓ} where
  -- `[...xs].sort(cmp)`, with `le a b` for `cmp(a, b) <= 0`
  unfoldable pub sort_insert : (A → A → Bool) → A → List A → List A
  sort_insert le x [] = x ∷ []
  sort_insert le x (y ∷ ys) =
      let rest = sort_insert le x ys in if le x y then x ∷ y ∷ ys else y ∷ rest

  unfoldable pub sort : (A → A → Bool) → List A → List A
  unfolding sort_insert
  sort le [] = []
  sort le (x ∷ xs) = sort_insert le x (sort le xs)

  pub sort_insert-perm :
      (le : A → A → Bool) (x : A) (xs : List A) → Permᴰ (sort_insert le x xs) (x ∷ xs)
  unfolding sort_insert
  sort_insert-perm le x [] = Permᴰ.refl _
  sort_insert-perm le x (y ∷ ys) = elim (Bool-cases (le x y)) [
    | inl e ↦ rw e (Permᴰ.refl _)
    | inr e ↦ rw e (Permᴰ.trans (Permᴰ.cons refl (sort_insert-perm le x ys)) (Permᴰ.swap refl refl))
  ]

  pub sort-perm : (le : A → A → Bool) (xs : List A) → Permᴰ (sort le xs) xs
  unfolding sort
  sort-perm le [] = Permᴰ.nil
  sort-perm le (x ∷ xs) =
      Permᴰ.trans (sort_insert-perm le x (sort le xs)) (Permᴰ.cons refl (sort-perm le xs))

  module _ {le : A → A → Bool} (o : IsOrder le) where
    -- Two insertions may be made in either order.
    sort_insert_comm :
        (x y : A) (zs : List A)
        → sort_insert le x (sort_insert le y zs) ≡ sort_insert le y (sort_insert le x zs)
    unfolding sort_insert
    sort_insert_comm x y [] = ground (arith, o.total x y, o.antisymm x y)
    sort_insert_comm x y (z ∷ zs) =
        ground (
          arith,
          o.total x y,
          o.antisymm x y,
          o.trans x y z,
          o.trans y x z,
          sort_insert_comm x y zs,
        )

    -- The sorted list does not depend on the order of its input.
    pub sort-eq_of_perm : {xs ys : List A} → Permᴰ xs ys → sort le xs ≡ sort le ys
    unfolding sort
    sort-eq_of_perm Permᴰ.nil = refl
    sort-eq_of_perm (Permᴰ.cons e h) = rw (e, sort-eq_of_perm h)
    sort-eq_of_perm (Permᴰ.swap {a} {b} {l = l} e f) =
        rw (← e, ← f) (sort_insert_comm a b (sort le l))
    sort-eq_of_perm (Permᴰ.trans h k) = sort-eq_of_perm h ∙ sort-eq_of_perm k

module _ {ℓ} {A : Type ℓ} ⦃e : Eq A⦄ where
  abbrev pub contains : List A → A → Bool
  contains xs a = any (λ x. x === a) xs

  abbrev pub without : A → List A → List A
  without a = filter (λ x. not (x === a))

  -- `new Set(xs)`
  unfoldable pub unique : List A → List A
  unique [] = []
  unique (x ∷ xs) = x ∷ without x (unique xs)

  without_comm : (a b : A) (xs : List A) → without a (without b xs) ≡ without b (without a xs)
  without_comm a b xs = filter_comm (λ x. not (x === a)) (λ x. not (x === b)) xs

  without_self : (a : A) (xs : List A) → without a (a ∷ xs) ≡ without a xs
  without_self a xs = filter-dropped (λ x. not (x === a)) a xs (rw ((e.beq_iff a a).1 refl))

  without_other :
      (a b : A) (xs : List A) → (b === a) ≡ false → without a (b ∷ xs) ≡ b ∷ without a xs
  without_other a b xs h = filter-kept (λ x. not (x === a)) b xs (rw h)

  beq_sym : (a b : A) → (a === b) ≡ false → (b === a) ≡ false
  beq_sym a b h = elim (Bool-cases (b === a)) [
    | inl p ↦ cc ((e.beq_iff a b).1 (sym ((e.beq_iff b a).0 p)))
    | inr p ↦ p
  ]

  unique_swap : (x y : A) (zs : List A) → Permᴰ (unique (x ∷ y ∷ zs)) (unique (y ∷ x ∷ zs))
  unfolding unique
  unique_swap x y zs = elim (Bool-cases (y === x)) [
    | inl p ↦
        subst (λ z. Permᴰ (unique (x ∷ z ∷ zs)) (unique (z ∷ x ∷ zs))) (sym ((e.beq_iff y x).0 p))
          (Permᴰ.refl (unique (x ∷ x ∷ zs)))
    | inr p ↦ rw (without_other x y (without y (unique zs)) p) (
        rw (without_other y x (without x (unique zs)) (beq_sym y x p))
          (rw (without_comm x y (unique zs)) (Permᴰ.swap refl refl)))
  ]

  pub unique-perm : {xs ys : List A} → Permᴰ xs ys → Permᴰ (unique xs) (unique ys)
  unfolding unique
  unique-perm Permᴰ.nil = Permᴰ.nil
  unique-perm (Permᴰ.cons {b} p h) = rw p (Permᴰ.cons refl (filter-perm _ (unique-perm h)))
  unique-perm (Permᴰ.swap {a} {b} {b' = b'} {l = l} p q) =
      subst (λ z. Permᴰ (unique (a ∷ b ∷ l)) (unique (z ∷ b' ∷ l))) q
        (subst (λ z. Permᴰ (unique (a ∷ b ∷ l)) (unique (b ∷ z ∷ l))) p (unique_swap a b l))
  unique-perm (Permᴰ.trans h k) = Permᴰ.trans (unique-perm h) (unique-perm k)

  contains-without :
      (x a : A) (xs : List A) → (x === a) ≡ false → contains (without x xs) a ≡ contains xs a
  contains-without x a xs h =
      any-filter (λ y. not (y === x)) (λ y. y === a) xs
        λ y p. elim (Bool-cases (y === x)) [
          | inl q ↦ cc (h, ap (λ z. z === a) ((e.beq_iff y x).0 q))
          | inr q ↦ rw q
        ]

  pub contains-unique : (xs : List A) (a : A) → contains (unique xs) a ≡ contains xs a
  unfolding unique
  contains-unique [] a = refl
  contains-unique (x ∷ xs) a = elim (Bool-cases (x === a)) [
    | inl p ↦ rw p
    | inr p ↦ rw p (contains-without x a (unique xs) p ∙ contains-unique xs a)
  ]

  pub is_empty-unique : (xs : List A) → is_empty (unique xs) ≡ is_empty xs
  unfolding unique
  is_empty-unique [] = refl
  is_empty-unique (x ∷ xs) = refl
