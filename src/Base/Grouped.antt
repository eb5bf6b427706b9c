-- ===== src/Base/Grouped.antt =====
-- Grouping the elements of a list by a key, in a `Map` from the key to a list, in order of insertion.
use ictt_sentinel.Base.{
  ◌≡◌, sym, ap, ◌∙◌, ◌⊎◌, inl, inr, List, [], ◌∷◌, ◌++◌, map, All, Bool-cases, if◌then◌else◌,
}
use ictt_sentinel.Base.Text.{Text, text_eq, text_eq_iff}
use ictt_sentinel.Base.Members.{append_nil, append_assoc}

module _ {ℓ κ} {A : Type ℓ} {B : Type κ} (key : A → Text) (value : A → B) where
  -- `map.set(key(x), [...(map.get(key(x)) ?? []), value(x)])`
  unfoldable pub add_entry : List (Text × List B) → A → List (Text × List B)
  add_entry [] x = (key x, value x ∷ []) ∷ []
  add_entry (e ∷ es) x =
      let rest = add_entry es x in
      if text_eq e.0 (key x) then (e.0, e.1 ++ value x ∷ []) ∷ es else e ∷ rest

  unfoldable pub group_from : List (Text × List B) → List A → List (Text × List B)
  unfolding add_entry
  group_from m [] = m
  group_from m (x ∷ xs) = group_from (add_entry m x) xs

  -- All elements have the key.
  abbrev pub AllHave : Text → List A → Type 0
  AllHave k xs = All (λ x. key x ≡ k) xs

  pub group_from-one :
      (k : Text) (g : List B) (xs : List A)
      → AllHave k xs
      → group_from ((k, g) ∷ []) xs ≡ (k, g ++ map value xs) ∷ []
  unfolding group_from add_entry
  group_from-one k g [] h = ap (λ t. (k, t) ∷ []) (sym (append_nil g))
  group_from-one k g (x ∷ xs) h = rw ((text_eq_iff k (key x)).1 (sym h.0)) (
      group_from-one k (g ++ value x ∷ []) xs h.1
      ∙ ap (λ t. (k, t) ∷ []) (append_assoc g (value x ∷ []) (map value xs)))

  -- The map has two entries or more.
  abbrev pub IsMany : List (Text × List B) → Type 0
  IsMany [] = ⊥
  IsMany (e ∷ []) = ⊥
  IsMany (e ∷ f ∷ es) = Unit

  add_entry-IsMany : (m : List (Text × List B)) (x : A) → IsMany m → IsMany (add_entry m x)
  unfolding add_entry
  add_entry-IsMany (e ∷ f ∷ es) x h = elim (Bool-cases (text_eq e.0 (key x))) [
    | inl t ↦ rw t tt
    | inr t ↦ elim (Bool-cases (text_eq f.0 (key x))) [
      | inl u ↦ rw (t, u) tt
      | inr u ↦ rw (t, u) tt
    ]
  ]
  add_entry-IsMany (e ∷ []) x h = absurd h
  add_entry-IsMany [] x h = absurd h

  pub group_from-IsMany :
      (xs : List A) (m : List (Text × List B)) → IsMany m → IsMany (group_from m xs)
  unfolding group_from
  group_from-IsMany [] m h = h
  group_from-IsMany (x ∷ xs) m h = group_from-IsMany xs (add_entry m x) (add_entry-IsMany m x h)

  -- All elements have one key, or the map has two entries.
  pub group_from-cases :
      (k : Text) (g : List B) (xs : List A) → AllHave k xs ⊎ IsMany (group_from ((k, g) ∷ []) xs)
  unfolding group_from add_entry
  group_from-cases k g [] = inl tt
  group_from-cases k g (x ∷ xs) = elim (Bool-cases (text_eq k (key x))) [
    | inl e ↦ elim (group_from-cases k (g ++ value x ∷ []) xs) [
      | inl a ↦ inl (sym ((text_eq_iff _ _).0 e), a)
      | inr m ↦ inr (rw e m)
    ]
    | inr e ↦ inr (rw e (group_from-IsMany xs _ tt))
  ]
