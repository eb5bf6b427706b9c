-- ===== src/Quorum/Partition.antt =====
-- The groups are the connected components of the items.
use mathlib.Core.List.Permᴰ
use ictt_sentinel.Base.{
  ◌≡◌, refl, ap, not, List, [], ◌∷◌, ◌++◌, map, Memᴰ, Permᴰ, filter, flat_map, All, All-append,
  All-filter, All-mem, ◌≢◌,
}
use ictt_sentinel.Base.Members.{append_nil, flat_map-append, perm-flat_map_filter}
use ictt_sentinel.Base.Text.{Text}
use ictt_sentinel.Quorum.{
  Component, touches, alone, merge_into, place, place_all, independence_groups,
}
use ictt_sentinel.Quorum.Groups.{IsPartition, place-IsPartition}
use ictt_sentinel.Quorum.Links.{AreApart, Connected, merge_into-items}

module _ {ℓ} {A : Type ℓ} (trust_domain provider_group : A → Text) where
  place_all-IsPartition :
      (xs ys : List A) (cs : List (Component A))
      → ((y : A) → Memᴰ y ys → Memᴰ y xs)
      → IsPartition trust_domain provider_group xs cs
      → IsPartition trust_domain provider_group xs (place_all trust_domain provider_group cs ys)
  unfolding place_all
  place_all-IsPartition xs [] cs m h = h
  place_all-IsPartition xs (y ∷ ys) cs m h =
      place_all-IsPartition xs ys _ (λ z k. m z (Memᴰ.tail k))
        (place-IsPartition trust_domain provider_group xs cs y h (m y (Memᴰ.head refl)))

  place-perm :
      (cs : List (Component A)) (x : A)
      → Permᴰ
          (flat_map (λ c. c.items) (place trust_domain provider_group cs x))
          (x ∷ flat_map (λ c. c.items) cs)
  unfolding place
  place-perm cs x =
      rw
        (
          flat_map-append (λ c. c.items)
              (filter (λ c. not (touches trust_domain provider_group x c)) cs)
              (merge_into trust_domain provider_group (alone trust_domain provider_group x)
                  (filter (touches trust_domain provider_group x) cs)
                ∷ []),
          merge_into-items trust_domain provider_group
              (filter (touches trust_domain provider_group x) cs)
              (alone trust_domain provider_group x),
          append_nil (flat_map (λ c. c.items) (filter (touches trust_domain provider_group x) cs)),
        )
        (Permᴰ.trans (Permᴰ.middle x _ _) (
          Permᴰ.cons refl
            (perm-flat_map_filter (λ c. c.items) (touches trust_domain provider_group x) cs)))

  place_all-perm :
      (ys : List A) (cs : List (Component A))
      → Permᴰ
          (flat_map (λ c. c.items) (place_all trust_domain provider_group cs ys))
          (flat_map (λ c. c.items) cs ++ ys)
  unfolding place_all
  place_all-perm [] cs = rw (append_nil (flat_map (λ c. c.items) cs)) (Permᴰ.refl _)
  place_all-perm (y ∷ ys) cs =
      Permᴰ.trans (place_all-perm ys (place trust_domain provider_group cs y)) (
        Permᴰ.trans (Permᴰ.append_right ys (place-perm cs y))
          (Permᴰ.symm (Permᴰ.middle y (flat_map (λ c. c.items) cs) ys)))

  flat_map-items :
      (cs : List (Component A))
      → flat_map (λ g. g) (map (λ c. c.items) cs) ≡ flat_map (λ c. c.items) cs
  flat_map-items [] = refl
  flat_map-items (c ∷ cs) = ap (λ t. c.items ++ t) (flat_map-items cs)

  items-Connected :
      (xs : List A) (cs : List (Component A))
      → All
          (λ c.
            (a b : A)
            → Memᴰ a c.items
            → Memᴰ b c.items
            → Connected trust_domain provider_group xs a b)
          cs
      → All
          (λ g. (a b : A) → Memᴰ a g → Memᴰ b g → Connected trust_domain provider_group xs a b)
          (map (λ c. c.items) cs)
  items-Connected xs [] h = tt
  items-Connected xs (c ∷ cs) h = (h.0, items-Connected xs cs h.1)

  -- The groups of independence partition the items into the connected components of the relation that
  -- shares a trust domain or a provider group: they hold every item as often as it is given, items of
  -- different groups share neither, and the items of one group are connected by items that share one.
  pub independence_groups-AreApart :
      (xs : List A)
      → Permᴰ (flat_map (λ g. g) (independence_groups trust_domain provider_group xs)) xs
        × AreApart trust_domain provider_group (independence_groups trust_domain provider_group xs)
        × All
            (λ g. (a b : A) → Memᴰ a g → Memᴰ b g → Connected trust_domain provider_group xs a b)
            (independence_groups trust_domain provider_group xs)
  unfolding independence_groups
  independence_groups-AreApart xs =
      let h =
        place_all-IsPartition xs xs [] (λ y m. m)
          (record { exact = tt; apart = tt; connected = tt }) in
      (
        rw (flat_map-items (place_all trust_domain provider_group [] xs)) (place_all-perm xs []),
        h.apart,
        items-Connected xs _ h.connected,
      )

  place-inhabited :
      (cs : List (Component A)) (x : A)
      → All (λ c. c.items ≢ []) cs
      → All (λ c. c.items ≢ []) (place trust_domain provider_group cs x)
  unfolding place
  place-inhabited cs x h = All-append _ _ _ (All-filter _ _ cs (λ c m _. All-mem _ h m)) (
    λ e. cc (
      e,
      merge_into-items trust_domain provider_group
          (filter (touches trust_domain provider_group x) cs) (alone trust_domain provider_group x),
    ),
    tt,
  )

  place_all-inhabited :
      (xs : List A) (cs : List (Component A))
      → All (λ c. c.items ≢ []) cs
      → All (λ c. c.items ≢ []) (place_all trust_domain provider_group cs xs)
  unfolding place_all
  place_all-inhabited [] cs h = h
  place_all-inhabited (x ∷ xs) cs h = place_all-inhabited xs _ (place-inhabited cs x h)

  -- No group is empty.
  pub independence_groups-inhabited :
      (xs : List A) → All (λ g. g ≢ []) (independence_groups trust_domain provider_group xs)
  unfolding independence_groups
  independence_groups-inhabited xs = each _ (place_all-inhabited xs [] tt)
    where
      each :
          (cs : List (Component A))
          → All (λ c. c.items ≢ []) cs
          → All (λ g. g ≢ []) (map (λ c. c.items) cs)
      each [] h = tt
      each (c ∷ cs) h = (h.0, each cs h.1)
