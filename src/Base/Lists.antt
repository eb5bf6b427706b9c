-- ===== src/Base/Lists.antt =====
-- Lists measured by native numbers, Boolean filters, and predicates on all or some of the elements.
use Prim.Native.Nat.{ℕ, suc, ◌+◌}
use mathlib.Core.Path.{◌≡◌, refl}
use mathlib.Core.Logic.{◌↔◌, inl, inr}
use mathlib.Core.Bool.{Bool, true, false, ◌&&◌, ◌||◌, not}
use mathlib.Core.List.{List, [], ◌∷◌, ◌++◌, Memᴰ}
use native.Mathlib.Omega.{arith}
use ictt_sentinel.Base.Tests.{if◌then◌else◌, Bool-cases}

module _ {ℓ} {A : Type ℓ} where
  abbrev pub length : List A → ℕ
  length [] = 0
  length (x ∷ xs) = suc (length xs)

  -- `xs.length === 0`
  abbrev pub is_empty : List A → Bool
  is_empty [] = true
  is_empty (x ∷ xs) = false

  -- `xs.some(p)`
  abbrev pub any : (A → Bool) → List A → Bool
  any p [] = false
  any p (x ∷ xs) = p x || any p xs

  -- `xs.filter(p)`
  abbrev pub filter : (A → Bool) → List A → List A
  filter p [] = []
  filter p (x ∷ xs) = let rest = filter p xs in if p x then x ∷ rest else rest

  -- `if (test) out.push(x)`
  abbrev pub when : Bool → A → List A
  when test x = if test then x ∷ [] else []

  -- `for (const x of xs) out.push(...f(x))`
  abbrev pub flat_map {κ} : {B : Type κ} → (A → List B) → List A → List B
  flat_map f [] = []
  flat_map f (x ∷ xs) = f x ++ flat_map f xs

  abbrev pub All {κ} : (A → Type κ) → List A → Type κ
  All P [] = Unit
  All P (x ∷ xs) = P x × All P xs

module _ {ℓ} {A : Type ℓ} where
  pub length-append : (xs ys : List A) → length (xs ++ ys) ≡ length xs + length ys
  length-append [] ys = omega arith
  length-append (x ∷ xs) ys = omega (arith, length-append xs ys)

  pub All-mem {κ} : (P : A → Type κ) {a : A} {xs : List A} → All P xs → Memᴰ a xs → P a
  All-mem P h (Memᴰ.head e) = rw e h.0
  All-mem P h (Memᴰ.tail m) = All-mem P h.1 m

  pub All-of_mem {κ} : (P : A → Type κ) (xs : List A) → ((a : A) → Memᴰ a xs → P a) → All P xs
  All-of_mem P [] h = tt
  All-of_mem P (x ∷ xs) h = (h x (Memᴰ.head refl), All-of_mem P xs (λ a m. h a (Memᴰ.tail m)))

  pub All-append {κ} : (P : A → Type κ) (xs ys : List A) → All P xs → All P ys → All P (xs ++ ys)
  All-append P [] ys h k = k
  All-append P (x ∷ xs) ys h k = (h.0, All-append P xs ys h.1 k)

  pub any-of_mem : (p : A → Bool) {a : A} {xs : List A} → Memᴰ a xs → p a ≡ true → any p xs ≡ true
  any-of_mem p (Memᴰ.head e) h = rw (← e) (rw h)
  any-of_mem p (Memᴰ.tail m) h = ground (arith, any-of_mem p m h)

  pub any-witness :
      (p : A → Bool) (xs : List A) → any p xs ≡ true → (a : A) × Memᴰ a xs × (p a ≡ true)
  any-witness p [] h = cc
  any-witness p (x ∷ xs) h = elim (Bool-cases (p x)) [
    | inl e ↦ (x, Memᴰ.head refl, e)
    | inr e ↦ let (a, m, q) = any-witness p xs (ground arith) in (a, Memᴰ.tail m, q)
  ]

  pub any-false_iff : (p : A → Bool) (xs : List A) → (any p xs ≡ false) ↔ All (λ x. p x ≡ false) xs
  any-false_iff p [] = (λ _. tt, λ _. refl)
  any-false_iff p (x ∷ xs) = (
    λ h. (ground arith, (any-false_iff p xs).0 (ground arith)),
    λ h. ground (arith, (any-false_iff p xs).1 h.1),
  )

  pub is_empty-filter : (p : A → Bool) (xs : List A) → is_empty (filter p xs) ≡ not (any p xs)
  is_empty-filter p [] = refl
  is_empty-filter p (x ∷ xs) = ground (arith, is_empty-filter p xs)

  pub filter-kept :
      (p : A → Bool) (x : A) (xs : List A) → p x ≡ true → filter p (x ∷ xs) ≡ x ∷ filter p xs
  filter-kept p x xs h = rw h

  pub filter-dropped :
      (p : A → Bool) (x : A) (xs : List A) → p x ≡ false → filter p (x ∷ xs) ≡ filter p xs
  filter-dropped p x xs h = rw h

  pub All-filter {κ} :
      (P : A → Type κ) (p : A → Bool) (xs : List A)
      → ((a : A) → Memᴰ a xs → p a ≡ true → P a)
      → All P (filter p xs)
  All-filter P p [] h = tt
  All-filter P p (x ∷ xs) h = elim (Bool-cases (p x)) [
    | inl e ↦ rw e (h x (Memᴰ.head refl) e, All-filter P p xs (λ a m. h a (Memᴰ.tail m)))
    | inr e ↦ rw e (All-filter P p xs (λ a m. h a (Memᴰ.tail m)))
  ]

  pub mem-filter_of :
      (p : A → Bool) {a : A} {xs : List A} → Memᴰ a xs → p a ≡ true → Memᴰ a (filter p xs)
  mem-filter_of p {a} {xs = x ∷ xs} (Memᴰ.head e) h =
      rw (filter-kept p x xs (rw (← e) h)) (Memᴰ.head e)
  mem-filter_of p {a} {xs = x ∷ xs} (Memᴰ.tail m) h = elim (Bool-cases (p x)) [
    | inl e ↦ rw e (Memᴰ.tail (mem-filter_of p m h))
    | inr e ↦ rw e (mem-filter_of p m h)
  ]
  mem-filter_of p {xs = []} m h = elim m [ ]

  pub filter_comm : (p q : A → Bool) (xs : List A) → filter p (filter q xs) ≡ filter q (filter p xs)
  filter_comm p q [] = refl
  filter_comm p q (x ∷ xs) = ground (arith, filter_comm p q xs)

  -- A filter that keeps whatever passes `q` does not change whether something passes `q`.
  pub any-filter :
      (p q : A → Bool) (xs : List A)
      → ((x : A) → q x ≡ true → p x ≡ true)
      → any q (filter p xs) ≡ any q xs
  any-filter p q [] h = refl
  any-filter p q (x ∷ xs) h = ground (arith, any-filter p q xs h, h x)

  pub is_empty-append : (xs ys : List A) → is_empty (xs ++ ys) ≡ (is_empty xs && is_empty ys)
  is_empty-append [] ys = refl
  is_empty-append (x ∷ xs) ys = refl

  pub is_empty_iff : (xs : List A) → (is_empty xs ≡ true) ↔ (xs ≡ [])
  is_empty_iff [] = (λ _. refl, λ _. refl)
  is_empty_iff (x ∷ xs) = (λ h. cc, λ h. cc)

  pub is_empty-flat_map_iff {κ} :
      {B : Type κ} (f : A → List B) (xs : List A)
      → (is_empty (flat_map f xs) ≡ true) ↔ All (λ x. is_empty (f x) ≡ true) xs
  is_empty-flat_map_iff {B = B} f [] = (λ _. tt, λ _. refl)
  is_empty-flat_map_iff {B = B} f (x ∷ xs) = (
    λ h. (first (f x) h, (is_empty-flat_map_iff f xs).0 (rest (f x) h)),
    λ h. both (f x) h.0 ((is_empty-flat_map_iff f xs).1 h.1),
  )
    where
      first : (ys : List B) → is_empty (ys ++ flat_map f xs) ≡ true → is_empty ys ≡ true
      first [] h = refl
      first (y ∷ ys) h = h

      rest : (ys : List B) → is_empty (ys ++ flat_map f xs) ≡ true → is_empty (flat_map f xs) ≡ true
      rest [] h = h
      rest (y ∷ ys) h = cc

      both :
          (ys : List B)
          → is_empty ys ≡ true
          → is_empty (flat_map f xs) ≡ true
          → is_empty (ys ++ flat_map f xs) ≡ true
      both [] h k = k
      both (y ∷ ys) h k = h

  -- Predicates that hold together, one way.
  pub All-map {κ μ} :
      (P : A → Type κ) (Q : A → Type μ) (xs : List A) → ((a : A) → P a → Q a) → All P xs → All Q xs
  All-map P Q [] f h = tt
  All-map P Q (x ∷ xs) f h = (f x h.0, All-map P Q xs f h.1)

  pub All-zip {κ μ} :
      (P : A → Type κ) (Q : A → Type μ) (xs : List A)
      → All P xs
      → All Q xs
      → All (λ a. P a × Q a) xs
  All-zip P Q [] h k = tt
  All-zip P Q (x ∷ xs) h k = ((h.0, k.0), All-zip P Q xs h.1 k.1)

  pub All-append_split {κ} :
      (P : A → Type κ) (xs ys : List A) → All P (xs ++ ys) → All P xs × All P ys
  All-append_split P [] ys h = (tt, h)
  All-append_split P (x ∷ xs) ys h = let t = All-append_split P xs ys h.1 in ((h.0, t.0), t.1)

module _ {ℓ κ μ} {A : Type ℓ} {B : Type κ} (P : B → Type μ) (f : A → List B) where
  pub All-flat_map_iff : (xs : List A) → All P (flat_map f xs) ↔ All (λ x. All P (f x)) xs
  All-flat_map_iff [] = (λ _. tt, λ _. tt)
  All-flat_map_iff (x ∷ xs) = (
    λ h. let t = All-append_split P (f x) (flat_map f xs) h in (t.0, (All-flat_map_iff xs).0 t.1),
    λ h. All-append P (f x) (flat_map f xs) h.0 ((All-flat_map_iff xs).1 h.1),
  )

module _ {ℓ} {B : Type ℓ} where
  pub any-append : (p : B → Bool) (xs ys : List B) → any p (xs ++ ys) ≡ (any p xs || any p ys)
  any-append p [] ys = refl
  any-append p (x ∷ xs) ys = ground (arith, any-append p xs ys)

module _ {ℓ κ} {A : Type ℓ} {B : Type κ} where
  pub any-flat_map :
      (p : B → Bool) (f : A → List B) (xs : List A)
      → any p (flat_map f xs) ≡ any (λ x. any p (f x)) xs
  any-flat_map p f [] = refl
  any-flat_map p f (x ∷ xs) = rw (any-append p (f x) (flat_map f xs), any-flat_map p f xs)

  pub is_empty-flat_map :
      (f : A → List B) (xs : List A)
      → is_empty (flat_map f xs) ≡ not (any (λ x. not (is_empty (f x))) xs)
  is_empty-flat_map f [] = refl
  is_empty-flat_map f (x ∷ xs) =
      ground (arith, is_empty-append (f x) (flat_map f xs), is_empty-flat_map f xs)
