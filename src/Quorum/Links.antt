-- ===== src/Quorum/Links.antt =====
-- Links between items, and groups that are apart.
use mathlib.Core.Path.{subst}
use ictt_sentinel.Base.{
  flat_map, ◌≡◌, refl, sym, ◌∙◌, inl, inr, Bool, true, false, not, ◌||◌, List, [], ◌∷◌, ◌++◌, map,
  Memᴰ, filter, any, any-append, All, ◌⊎◌, arith, Bool-cases,
}
use ictt_sentinel.Base.Members.{append_nil, append_assoc, mem-filter, mem-filter_cons}
use ictt_sentinel.Base.Text.{Text, text_eq, text_eq_iff}
use ictt_sentinel.Base.Sets.{contains, text_Eq}
use ictt_sentinel.Quorum.{add_all, Component, touches, alone, merge_into}

pub contains_eq :
    (set : List Text) (x d : Text)
    → contains set x ≡ true
    → text_eq x d ≡ true
    → contains set d ≡ true
contains_eq set x d h e = subst (λ y. contains set y ≡ true) ((text_eq_iff x d).0 e) h

pub contains-add_all :
    (set xs : List Text) (d : Text)
    → contains (add_all set xs) d ≡ (contains set d || contains xs d)
unfolding add_all
contains-add_all set [] d = ground arith
contains-add_all set (x ∷ xs) d = elim (Bool-cases (contains set x)) [
  | inl e ↦ rw e (contains-add_all set xs d ∙ ground (arith, contains_eq set x d e))
  | inr e ↦ rw e (
      contains-add_all (set ++ x ∷ []) xs d
      ∙ ground (arith, any-append (λ y. text_eq y d) set (x ∷ [])))
]

pub text_eq_comm : (s t : Text) → text_eq s t ≡ text_eq t s
text_eq_comm s t = ground (arith, text_eq_iff s t, text_eq_iff t s)

module _ {ℓ} {A : Type ℓ} (trust_domain provider_group : A → Text) where
  -- The items share a trust domain or a provider group.
  abbrev pub linked : A → A → Bool
  linked a b =
      text_eq (trust_domain a) (trust_domain b) || text_eq (provider_group a) (provider_group b)

  pub linked_comm : (a b : A) → linked a b ≡ linked b a
  linked_comm a b = ground (
    arith,
    text_eq_comm (trust_domain a) (trust_domain b),
    text_eq_comm (provider_group a) (provider_group b),
  )

  -- No item of the first list is linked to an item of the second.
  abbrev pub AreUnlinked : List A → List A → Type ℓ
  AreUnlinked xs ys = (a b : A) → Memᴰ a xs → Memᴰ b ys → linked a b ≡ false

  -- No two of the groups are linked.
  abbrev pub AreApart : List (List A) → Type ℓ
  AreApart [] = Unit
  AreApart (g ∷ gs) = All (AreUnlinked g) gs × AreApart gs

  -- Linked through items of the list, in any number of steps.
  pub data Connected (xs : List A) (a : A) : A → Type ℓ where
    here : Memᴰ a xs → Connected xs a a
    next : {b c : A} → Connected xs a b → Memᴰ c xs → linked b c ≡ true → Connected xs a c

  -- The sets of the component are those of its items.
  pub record IsExact (c : Component A) : Type 0 where
    pub domains : (d : Text) → contains c.domains d ≡ any (λ i. text_eq (trust_domain i) d) c.items
    pub providers :
        (p : Text) → contains c.providers p ≡ any (λ i. text_eq (provider_group i) p) c.items

  pub touches-IsExact :
      (x : A) (c : Component A)
      → IsExact c
      → touches trust_domain provider_group x c ≡ any (λ i. linked i x) c.items
  touches-IsExact x c e =
      rw (e.domains (trust_domain x), e.providers (provider_group x)) (either c.items)
    where
      either :
          (is : List A)
          → (any (λ i. text_eq (trust_domain i) (trust_domain x)) is
              || any (λ i. text_eq (provider_group i) (provider_group x)) is)
            ≡ any (λ i. linked i x) is
      either [] = refl
      either (i ∷ is) = ground (arith, either is)

  pub alone-IsExact : (x : A) → IsExact (alone trust_domain provider_group x)
  alone-IsExact x = record { domains = λ d. refl; providers = λ p. refl }

  pub merge_into-items :
      (cs : List (Component A)) (m : Component A)
      → (merge_into trust_domain provider_group m cs).items ≡ m.items ++ flat_map (λ c. c.items) cs
  unfolding merge_into
  merge_into-items [] m = sym (append_nil m.items)
  merge_into-items (c ∷ cs) m = merge_into-items cs _ ∙ append_assoc m.items c.items _

  pub merge_into-IsExact :
      (cs : List (Component A)) (m : Component A)
      → IsExact m
      → All IsExact cs
      → IsExact (merge_into trust_domain provider_group m cs)
  unfolding merge_into
  merge_into-IsExact [] m e es = e
  merge_into-IsExact (c ∷ cs) m e es =
      merge_into-IsExact cs _
        (record {
          domains = λ d.
              contains-add_all m.domains c.domains d
              ∙ rw
                  (
                    e.domains d,
                    es.0.domains d,
                    any-append (λ i. text_eq (trust_domain i) d) m.items c.items,
                  )
                  refl;
          providers = λ d.
              contains-add_all m.providers c.providers d
              ∙ rw
                  (
                    e.providers d,
                    es.0.providers d,
                    any-append (λ i. text_eq (provider_group i) d) m.items c.items,
                  )
                  refl;
        })
        es.1

  pub AreUnlinked-comm : (xs ys : List A) → AreUnlinked xs ys → AreUnlinked ys xs
  AreUnlinked-comm xs ys h a b m n = linked_comm a b ∙ h b a n m

  abbrev pub items_of : List (Component A) → List (List A)
  items_of cs = map (λ c. c.items) cs

  -- A group that is unlinked to all is unlinked to each of the components.
  pub unlinked-mem :
      (g : List A) (cs : List (Component A)) (c : Component A)
      → All (AreUnlinked g) (items_of cs)
      → Memᴰ c cs
      → AreUnlinked g c.items
  unlinked-mem g (x ∷ cs) c h (Memᴰ.head e) = subst (λ y. AreUnlinked g y.items) (sym e) h.0
  unlinked-mem g (x ∷ cs) c h (Memᴰ.tail m) = unlinked-mem g cs c h.1 m
  unlinked-mem g [] c h m = elim m [ ]

  -- Items of components that the test keeps, and of the others, are not linked.
  pub AreApart-split :
      (p : Component A → Bool) (cs : List (Component A)) (c j : Component A)
      → AreApart (items_of cs)
      → Memᴰ c (filter (λ x. not (p x)) cs)
      → Memᴰ j (filter p cs)
      → AreUnlinked c.items j.items
  AreApart-split p [] c j h m n = elim m [ ]
  AreApart-split p (x ∷ cs) c j h m n =
      both (AreApart-split p cs c j h.1) (mem-filter_cons (λ y. not (p y)) x cs m)
        (mem-filter_cons p x cs n)
    where
      both :
          (Memᴰ c (filter (λ y. not (p y)) cs) → Memᴰ j (filter p cs) → AreUnlinked c.items j.items)
          → ((c ≡ x) × (not (p x) ≡ true)) ⊎ Memᴰ c (filter (λ y. not (p y)) cs)
          → ((j ≡ x) × (p x ≡ true)) ⊎ Memᴰ j (filter p cs)
          → AreUnlinked c.items j.items
      both ih (inl k) (inl l) = absurd (clash (p x) k.1 l.1)
        where
          clash : (b : Bool) → not b ≡ true → ¬ (b ≡ true)
          clash b s t = ground arith
      both ih (inl k) (inr l) =
          subst (λ y. AreUnlinked y.items j.items) (sym k.0)
            (unlinked-mem x.items cs j h.0 (mem-filter p cs l).0)
      both ih (inr k) (inl l) = AreUnlinked-comm j.items c.items (
          subst (λ y. AreUnlinked y.items c.items) (sym l.0)
            (unlinked-mem x.items cs c h.0 (mem-filter (λ y. not (p y)) cs k).0))
      both ih (inr k) (inr l) = ih k l

  pub AreApart-filter :
      (p : Component A → Bool) (cs : List (Component A))
      → AreApart (items_of cs)
      → AreApart (items_of (filter p cs))
  AreApart-filter p [] h = tt
  AreApart-filter p (c ∷ cs) h = elim (Bool-cases (p c)) [
    | inl e ↦ rw e (fewer cs h.0, AreApart-filter p cs h.1)
    | inr e ↦ rw e (AreApart-filter p cs h.1)
  ]
    where
      fewer :
          (ds : List (Component A))
          → All (AreUnlinked c.items) (items_of ds)
          → All (AreUnlinked c.items) (items_of (filter p ds))
      fewer [] k = tt
      fewer (d ∷ ds) k = elim (Bool-cases (p d)) [
        | inl e ↦ rw e (k.0, fewer ds k.1)
        | inr e ↦ rw e (fewer ds k.1)
      ]

  pub AreApart-snoc :
      (cs : List (Component A)) (m : Component A)
      → AreApart (items_of cs)
      → ((c : Component A) → Memᴰ c cs → AreUnlinked c.items m.items)
      → AreApart (items_of (cs ++ m ∷ []))
  AreApart-snoc [] m h k = (tt, tt)
  AreApart-snoc (c ∷ cs) m h k = (also cs h.0, AreApart-snoc cs m h.1 (λ d q. k d (Memᴰ.tail q)))
    where
      also :
          (ds : List (Component A))
          → All (AreUnlinked c.items) (items_of ds)
          → All (AreUnlinked c.items) (items_of (ds ++ m ∷ []))
      also [] u = (k c (Memᴰ.head refl), tt)
      also (d ∷ ds) u = (u.0, also ds u.1)
