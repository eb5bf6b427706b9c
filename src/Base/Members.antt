-- ===== src/Base/Members.antt =====
-- Membership in lists that are built by the list operations, and rearranging their concatenations.
use mathlib.Core.List.Permᴰ
use mathlib.Core.Path.{subst}
use ictt_sentinel.Base.{
  ◌≡◌, refl, sym, ap, ◌∙◌, ◌⊎◌, inl, inr, Bool, true, false, not, List, [], ◌∷◌, ◌++◌, Memᴰ, Permᴰ,
  filter, flat_map, map, Bool-cases,
}

module _ {ℓ} {A : Type ℓ} where
  pub append_nil : (xs : List A) → xs ++ [] ≡ xs
  append_nil [] = refl
  append_nil (x ∷ xs) = ap (λ t. x ∷ t) (append_nil xs)

  pub append_assoc : (xs ys zs : List A) → xs ++ ys ++ zs ≡ xs ++ (ys ++ zs)
  append_assoc [] ys zs = refl
  append_assoc (x ∷ xs) ys zs = ap (λ t. x ∷ t) (append_assoc xs ys zs)

  pub mem-append_split : {a : A} (xs ys : List A) → Memᴰ a (xs ++ ys) → Memᴰ a xs ⊎ Memᴰ a ys
  mem-append_split [] ys m = inr m
  mem-append_split (x ∷ xs) ys (Memᴰ.head e) = inl (Memᴰ.head e)
  mem-append_split (x ∷ xs) ys (Memᴰ.tail m) = elim (mem-append_split xs ys m) [
    | inl k ↦ inl (Memᴰ.tail k)
    | inr k ↦ inr k
  ]

  pub mem-append_left : {a : A} {xs : List A} (ys : List A) → Memᴰ a xs → Memᴰ a (xs ++ ys)
  mem-append_left ys (Memᴰ.head e) = Memᴰ.head e
  mem-append_left ys (Memᴰ.tail m) = Memᴰ.tail (mem-append_left ys m)

  pub mem-append_right : {a : A} (xs : List A) {ys : List A} → Memᴰ a ys → Memᴰ a (xs ++ ys)
  mem-append_right [] m = m
  mem-append_right (x ∷ xs) m = Memᴰ.tail (mem-append_right xs m)

  -- A kept element is the head, kept by the test, or stands further on.
  pub mem-filter_cons :
      (p : A → Bool) {a : A} (x : A) (xs : List A)
      → Memᴰ a (filter p (x ∷ xs))
      → ((a ≡ x) × (p x ≡ true)) ⊎ Memᴰ a (filter p xs)
  mem-filter_cons p {a} x xs m = known (p x) refl m
    where
      known :
          (b : Bool)
          → p x ≡ b
          → Memᴰ a (filter p (x ∷ xs))
          → ((a ≡ x) × (p x ≡ true)) ⊎ Memᴰ a (filter p xs)
      known true e k = split (subst (Memᴰ a) (rw e refl) k)
        where
          split : Memᴰ a (x ∷ filter p xs) → ((a ≡ x) × (p x ≡ true)) ⊎ Memᴰ a (filter p xs)
          split (Memᴰ.head q) = inl (q, e)
          split (Memᴰ.tail q) = inr q
      known false e k = inr (subst (Memᴰ a) (rw e refl) k)

  pub mem-filter :
      (p : A → Bool) {a : A} (xs : List A) → Memᴰ a (filter p xs) → Memᴰ a xs × (p a ≡ true)
  mem-filter p [] m = elim m [ ]
  mem-filter p (x ∷ xs) m = elim (mem-filter_cons p x xs m) [
    | inl k ↦ (Memᴰ.head k.0, rw k.0 k.1)
    | inr k ↦ let r = mem-filter p xs k in (Memᴰ.tail r.0, r.1)
  ]

  -- A list may be brought to the front.
  pub perm-middle_list : (xs zs ys : List A) → Permᴰ (xs ++ (zs ++ ys)) (zs ++ (xs ++ ys))
  perm-middle_list xs [] ys = Permᴰ.refl _
  perm-middle_list xs (z ∷ zs) ys =
      Permᴰ.trans (Permᴰ.middle z xs (zs ++ ys)) (Permᴰ.cons refl (perm-middle_list xs zs ys))

module _ {ℓ κ} {A : Type ℓ} {B : Type κ} (f : A → List B) where
  pub mem-flat_map :
      {b : B} (xs : List A) → Memᴰ b (flat_map f xs) → (a : A) × Memᴰ a xs × Memᴰ b (f a)
  mem-flat_map [] m = elim m [ ]
  mem-flat_map (x ∷ xs) m = elim (mem-append_split (f x) (flat_map f xs) m) [
    | inl k ↦ (x, Memᴰ.head refl, k)
    | inr k ↦ let r = mem-flat_map xs k in (r.0, Memᴰ.tail r.1, r.2)
  ]

  pub mem-flat_map_of :
      {a : A} {b : B} {xs : List A} → Memᴰ a xs → Memᴰ b (f a) → Memᴰ b (flat_map f xs)
  mem-flat_map_of {b = b} (Memᴰ.head e) m = mem-append_left _ (subst (λ y. Memᴰ b (f y)) e m)
  mem-flat_map_of {xs = x ∷ xs} (Memᴰ.tail n) m = mem-append_right (f x) (mem-flat_map_of n m)

  pub flat_map-append : (xs ys : List A) → flat_map f (xs ++ ys) ≡ flat_map f xs ++ flat_map f ys
  flat_map-append [] ys = refl
  flat_map-append (x ∷ xs) ys =
      ap (λ t. f x ++ t) (flat_map-append xs ys) ∙ sym (append_assoc (f x) _ _)

  -- The elements that a test drops, then those that it keeps.
  pub perm-flat_map_filter :
      (p : A → Bool) (xs : List A)
      → Permᴰ (flat_map f (filter (λ x. not (p x)) xs) ++ flat_map f (filter p xs)) (flat_map f xs)
  perm-flat_map_filter p [] = Permᴰ.nil
  perm-flat_map_filter p (x ∷ xs) = elim (Bool-cases (p x)) [
    | inl e ↦ rw e (
        Permᴰ.trans (perm-middle_list _ (f x) _)
          (Permᴰ.append_left (f x) (perm-flat_map_filter p xs)))
    | inr e ↦
        rw
          (
            e,
            append_assoc (f x) (flat_map f (filter (λ y. not (p y)) xs)) (flat_map f (filter p xs)),
          )
          (Permᴰ.append_left (f x) (perm-flat_map_filter p xs))
  ]

pub map-append {ℓ κ} :
    {A : Type ℓ} {B : Type κ} (f : A → B) (xs ys : List A) → map f (xs ++ ys) ≡ map f xs ++ map f ys
map-append f [] ys = refl
map-append f (x ∷ xs) ys = ap (λ t. f x ∷ t) (map-append f xs ys)

-- The elements of a mapped list.
pub mem-map {ℓ κ} :
    {A : Type ℓ} {B : Type κ} (f : A → B) {a : A} {xs : List A} → Memᴰ a xs → Memᴰ (f a) (map f xs)
mem-map f (Memᴰ.head e) = Memᴰ.head (ap f e)
mem-map f (Memᴰ.tail m) = Memᴰ.tail (mem-map f m)

pub mem-of_map {ℓ κ} :
    {A : Type ℓ} {B : Type κ} (f : A → B) {b : B} (xs : List A)
    → Memᴰ b (map f xs)
    → (a : A) × Memᴰ a xs × (b ≡ f a)
mem-of_map f [] m = elim m [ ]
mem-of_map f (x ∷ xs) (Memᴰ.head e) = (x, Memᴰ.head refl, e)
mem-of_map f (x ∷ xs) (Memᴰ.tail m) = let r = mem-of_map f xs m in (r.0, Memᴰ.tail r.1, r.2)
