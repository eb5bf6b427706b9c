-- ===== src/Base/Keyed.antt =====
-- Lists of entries under text keys: a `Map` in insertion order, and sorting by key.
use ictt_sentinel.Base.{
  ◌≡◌, refl, sym, ap, ◌∙◌, ◌⊎◌, inl, inr, Bool, true, false, not, List, [], ◌∷◌, Memᴰ, Permᴰ, arith,
  any, any-of_mem,
}
use ictt_sentinel.Base.Text.{
  Text, text_eq, text_eq_iff, text_le, text_le_total, text_le_antisymm, text_le_trans,
}
use ictt_sentinel.Base.Sets.{sort, sort_insert}

-- `a < b`
abbrev pub text_lt : Text → Text → Bool
text_lt a b = not (text_le b a)

-- An order of keys: total between different keys.
pub record IsKeyOrder (le : Text → Text → Bool) : Type 0 where
  pub total : (a b : Text) → (a ≡ b) ⊎ ((le a b ≡ true) ⊎ (le b a ≡ true))
  pub antisymm : (a b : Text) → le a b ≡ true → le b a ≡ true → a ≡ b
  pub trans : (a b c : Text) → le a b ≡ true → le b c ≡ true → le a c ≡ true

pub text_le-IsKeyOrder : IsKeyOrder text_le
text_le-IsKeyOrder = record {
  total = λ a b. inr (text_le_total a b);
  antisymm = text_le_antisymm;
  trans = text_le_trans;
}

pub text_lt-IsKeyOrder : IsKeyOrder text_lt
text_lt-IsKeyOrder = record {
  total = λ a b. ground (arith, text_le_total a b, text_le_antisymm a b);
  antisymm = λ a b h k. ground (arith, text_le_total a b);
  trans = λ a b c h k. ground (
    arith,
    text_le_trans c a b,
    text_le_total a b,
    text_le_total b c,
    text_le_antisymm a b,
    text_le_antisymm b c,
    text_le_trans b c a,
  );
}

module _ {ℓ} {A : Type ℓ} where
  pub mem-perm : {a : A} {xs ys : List A} → Permᴰ xs ys → Memᴰ a xs → Memᴰ a ys
  mem-perm Permᴰ.nil m = m
  mem-perm (Permᴰ.cons e h) (Memᴰ.head p) = Memᴰ.head (p ∙ e)
  mem-perm (Permᴰ.cons e h) (Memᴰ.tail m) = Memᴰ.tail (mem-perm h m)
  mem-perm (Permᴰ.swap e f) (Memᴰ.head p) = Memᴰ.tail (Memᴰ.head (p ∙ e))
  mem-perm (Permᴰ.swap e f) (Memᴰ.tail (Memᴰ.head p)) = Memᴰ.head (p ∙ f)
  mem-perm (Permᴰ.swap e f) (Memᴰ.tail (Memᴰ.tail m)) = Memᴰ.tail (Memᴰ.tail m)
  mem-perm (Permᴰ.trans h k) m = mem-perm k (mem-perm h m)

module _ {ℓ} {A : Type ℓ} (key : A → Text) where
  -- `map.has(k)`
  abbrev pub has_key : Text → List A → Bool
  has_key k es = any (λ e. text_eq (key e) k) es

  -- Equal keys come from equal elements.
  abbrev pub IsKeyed : List A → Type ℓ
  IsKeyed xs = (a b : A) → Memᴰ a xs → Memᴰ b xs → key a ≡ key b → a ≡ b

  -- No key occurs twice.
  abbrev pub IsDistinct : List A → Type 0
  IsDistinct [] = Unit
  IsDistinct (e ∷ es) = (has_key (key e) es ≡ false) × IsDistinct es

  pub IsDistinct-IsKeyed : (xs : List A) → IsDistinct xs → IsKeyed xs
  IsDistinct-IsKeyed [] h a b m n e = elim m [ ]
  IsDistinct-IsKeyed (x ∷ xs) h a b (Memᴰ.head p) (Memᴰ.head q) e = p ∙ sym q
  IsDistinct-IsKeyed (x ∷ xs) h a b (Memᴰ.head p) (Memᴰ.tail n) e =
      cc (h.0, any-of_mem (λ e. text_eq (key e) (key x)) n ((text_eq_iff _ _).1 (sym e ∙ ap key p)))
  IsDistinct-IsKeyed (x ∷ xs) h a b (Memᴰ.tail m) (Memᴰ.head q) e =
      cc (h.0, any-of_mem (λ e. text_eq (key e) (key x)) m ((text_eq_iff _ _).1 (e ∙ ap key q)))
  IsDistinct-IsKeyed (x ∷ xs) h a b (Memᴰ.tail m) (Memᴰ.tail n) e =
      IsDistinct-IsKeyed xs h.1 a b m n e

  abbrev pub by_key : (Text → Text → Bool) → A → A → Bool
  by_key le a b = le (key a) (key b)

  module _ {le : Text → Text → Bool} (o : IsKeyOrder le) where
    insert_comm :
        (x y : A)
        → (key x ≡ key y → x ≡ y)
        → (zs : List A)
        → sort_insert (by_key le) x (sort_insert (by_key le) y zs)
          ≡ sort_insert (by_key le) y (sort_insert (by_key le) x zs)
    unfolding sort_insert
    insert_comm x y k [] = elim (o.total (key x) (key y)) [
      | inl e ↦ rw (k e) refl
      | inr t ↦ ground (arith, t, o.antisymm (key x) (key y), k)
    ]
    insert_comm x y k (z ∷ zs) = elim (o.total (key x) (key y)) [
      | inl e ↦ insert_self (k e)
      | inr t ↦ ground (
        arith,
        t,
        o.antisymm (key x) (key y),
        k,
        o.trans (key x) (key y) (key z),
        o.trans (key y) (key x) (key z),
        insert_comm x y k zs,
      )
    ]
      where
        insert_self :
            x ≡ y
            → sort_insert (by_key le) x (sort_insert (by_key le) y (z ∷ zs))
              ≡ sort_insert (by_key le) y (sort_insert (by_key le) x (z ∷ zs))
        insert_self e =
            λ i. sort_insert (by_key le) (e i) (sort_insert (by_key le) (sym e i) (z ∷ zs))

    -- Sorting by key forgets the order of a list whose keys tell its elements apart.
    pub sort-eq_of_keyed :
        {xs ys : List A} → Permᴰ xs ys → IsKeyed ys → sort (by_key le) xs ≡ sort (by_key le) ys
    unfolding sort
    sort-eq_of_keyed Permᴰ.nil k = refl
    sort-eq_of_keyed (Permᴰ.cons e h) k =
        rw (e, sort-eq_of_keyed h (λ a b m n. k a b (Memᴰ.tail m) (Memᴰ.tail n)))
    sort-eq_of_keyed (Permᴰ.swap {a} {b} {l = l} e f) k =
        rw (← e, ← f)
          (insert_comm a b (k a b (Memᴰ.tail (Memᴰ.head e)) (Memᴰ.head f)) (sort (by_key le) l))
    sort-eq_of_keyed (Permᴰ.trans h h2) k =
        sort-eq_of_keyed h (λ a b m n. k a b (mem-perm h2 m) (mem-perm h2 n))
        ∙ sort-eq_of_keyed h2 k
