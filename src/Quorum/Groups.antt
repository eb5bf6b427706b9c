-- ===== src/Quorum/Groups.antt =====
-- The groups against the relation: linked items are in one group, and the items of one group are
-- connected by links.
use mathlib.Core.Path.{subst}
use ictt_sentinel.Base.{
  flat_map, ◌≡◌, sym, ◌∙◌, Bool, true, false, not, List, ◌∷◌, Memᴰ, filter, any-witness,
  any-false_iff, All, All-mem, All-filter, All-append, arith,
}
use ictt_sentinel.Base.Members.{mem-filter, mem-flat_map}
use ictt_sentinel.Base.Text.{Text}
use ictt_sentinel.Base.Sets.{text_Eq}
use ictt_sentinel.Quorum.{Component, touches, alone, merge_into, place}
use ictt_sentinel.Quorum.Links.{
  linked, linked_comm, AreUnlinked, AreApart, Connected, IsExact, touches-IsExact, alone-IsExact,
  merge_into-items, merge_into-IsExact, items_of, AreApart-split, AreApart-filter, AreApart-snoc,
}

module _ {ℓ} {A : Type ℓ} (trust_domain provider_group : A → Text) where
  -- What the loop keeps of its components, between the items of `xs`.
  pub record IsPartition (xs : List A) (cs : List (Component A)) : Type ℓ where
    pub exact : All (IsExact trust_domain provider_group) cs
    pub apart : AreApart trust_domain provider_group (items_of trust_domain provider_group cs)
    pub connected :
        All
          (λ c.
            (a b : A)
            → Memᴰ a c.items
            → Memᴰ b c.items
            → Connected trust_domain provider_group xs a b)
          cs

  untouched :
      (x : A) (c : Component A)
      → IsExact trust_domain provider_group c
      → touches trust_domain provider_group x c ≡ false
      → (a : A) → Memᴰ a c.items
      → linked trust_domain provider_group a x ≡ false
  untouched x c e t a n =
      All-mem (λ i. linked trust_domain provider_group i x ≡ false)
        ((any-false_iff (λ i. linked trust_domain provider_group i x) c.items).0
          (sym (touches-IsExact trust_domain provider_group x c e) ∙ t))
        n

  place-IsExact :
      (xs : List A) (cs : List (Component A)) (x : A)
      → IsPartition xs cs
      → All (IsExact trust_domain provider_group) (place trust_domain provider_group cs x)
  unfolding place
  place-IsExact xs cs x h =
      All-append (IsExact trust_domain provider_group) _ _
        (All-filter (IsExact trust_domain provider_group) _ cs
          (λ a m _. All-mem (IsExact trust_domain provider_group) h.exact m))
        (
          merge_into-IsExact trust_domain provider_group _ _
              (alone-IsExact trust_domain provider_group x)
              (All-filter (IsExact trust_domain provider_group) _ cs
                (λ a m _. All-mem (IsExact trust_domain provider_group) h.exact m)),
          tt,
        )

  place-apart :
      (xs : List A) (cs : List (Component A)) (x : A)
      → IsPartition xs cs
      → AreApart trust_domain provider_group
          (items_of trust_domain provider_group (place trust_domain provider_group cs x))
  unfolding place
  place-apart xs cs x h =
      AreApart-snoc trust_domain provider_group _ _
        (AreApart-filter trust_domain provider_group _ cs h.apart) from_rest
    where
      joined : Component A → Bool
      joined = touches trust_domain provider_group x

      from_rest :
          (c : Component A)
          → Memᴰ c (filter (λ d. not (joined d)) cs)
          → AreUnlinked trust_domain provider_group c.items
              (merge_into trust_domain provider_group
                (alone trust_domain provider_group x)
                (filter joined cs)).items
      from_rest c m a b q r = reached (
          subst (Memᴰ b)
            (merge_into-items trust_domain provider_group (filter joined cs)
              (alone trust_domain provider_group x))
            r)
        where
          own : Memᴰ c cs × (not (joined c) ≡ true)
          own = mem-filter (λ d. not (joined d)) cs m

          reached :
              Memᴰ b (x ∷ flat_map (λ d. d.items) (filter joined cs))
              → linked trust_domain provider_group a b ≡ false
          reached (Memᴰ.head e) =
              subst (λ y. linked trust_domain provider_group a y ≡ false) (sym e)
                (untouched x c (All-mem (IsExact trust_domain provider_group) h.exact own.0)
                  (ground (arith, own.1)) a q)
          reached (Memᴰ.tail k) =
              let (j, mj, kb) = mem-flat_map (λ d. d.items) (filter joined cs) k in
              AreApart-split trust_domain provider_group joined cs c j h.apart m mj a b q kb

  Connected-start :
      {xs : List A} {a b : A} → Connected trust_domain provider_group xs a b → Memᴰ a xs
  Connected-start (Connected.here m) = m
  Connected-start (Connected.next k m l) = Connected-start k

  Connected-end : {xs : List A} {a b : A} → Connected trust_domain provider_group xs a b → Memᴰ b xs
  Connected-end (Connected.here m) = m
  Connected-end (Connected.next k m l) = m

  Connected-trans :
      {xs : List A} {a b c : A}
      → Connected trust_domain provider_group xs a b
      → Connected trust_domain provider_group xs b c
      → Connected trust_domain provider_group xs a c
  Connected-trans k (Connected.here m) = k
  Connected-trans k (Connected.next q m l) = Connected.next (Connected-trans k q) m l

  Connected-comm :
      {xs : List A} {a b : A}
      → Connected trust_domain provider_group xs a b
      → Connected trust_domain provider_group xs b a
  Connected-comm (Connected.here m) = Connected.here m
  Connected-comm (Connected.next {b = b} {c} k m l) =
      Connected-trans
        (Connected.next (Connected.here m) (Connected-end k)
          (linked_comm trust_domain provider_group c b ∙ l))
        (Connected-comm k)

  -- Every item of the merged component is connected to the item that is placed.
  merged-Connected :
      (xs : List A) (cs : List (Component A)) (x a : A)
      → IsPartition xs cs
      → Memᴰ x xs
      → Memᴰ a (x ∷ flat_map (λ d. d.items) (filter (touches trust_domain provider_group x) cs))
      → Connected trust_domain provider_group xs a x
  merged-Connected xs cs x a h mx (Memᴰ.head e) =
      subst (λ y. Connected trust_domain provider_group xs y x) (sym e) (Connected.here mx)
  merged-Connected xs cs x a h mx (Memᴰ.tail k) =
      let joined = touches trust_domain provider_group x in
      let (c, mc, ka) = mem-flat_map (λ d. d.items) (filter joined cs) k in
      let (own, t) = mem-filter joined cs mc in
      let (i, mi, l) =
        any-witness (λ y. linked trust_domain provider_group y x) c.items
          (sym (
              touches-IsExact trust_domain provider_group x c
                (All-mem (IsExact trust_domain provider_group) h.exact own))
            ∙ t) in
      Connected.next
        (All-mem
          (λ d.
            (p q : A)
            → Memᴰ p d.items
            → Memᴰ q d.items
            → Connected trust_domain provider_group xs p q)
          h.connected own a i ka mi)
        mx l

  place-Connected :
      (xs : List A) (cs : List (Component A)) (x : A)
      → IsPartition xs cs
      → Memᴰ x xs
      → All
          (λ c.
            (a b : A)
            → Memᴰ a c.items
            → Memᴰ b c.items
            → Connected trust_domain provider_group xs a b)
          (place trust_domain provider_group cs x)
  unfolding place
  place-Connected xs cs x h mx =
      All-append _ _ _ (All-filter _ _ cs (λ c m _. All-mem _ h.connected m))
        (λ a b p q. Connected-trans (to_item a p) (Connected-comm (to_item b q)), tt)
    where
      to_item :
          (a : A)
          → Memᴰ a
              (merge_into trust_domain provider_group
                (alone trust_domain provider_group x)
                (filter (touches trust_domain provider_group x) cs)).items
          → Connected trust_domain provider_group xs a x
      to_item a m = merged-Connected xs cs x a h mx (
          subst (Memᴰ a)
            (merge_into-items trust_domain provider_group
              (filter (touches trust_domain provider_group x) cs)
              (alone trust_domain provider_group x))
            m)

  pub place-IsPartition :
      (xs : List A) (cs : List (Component A)) (x : A)
      → IsPartition xs cs
      → Memᴰ x xs
      → IsPartition xs (place trust_domain provider_group cs x)
  place-IsPartition xs cs x h m = record {
    exact = place-IsExact xs cs x h;
    apart = place-apart xs cs x h;
    connected = place-Connected xs cs x h m;
  }
