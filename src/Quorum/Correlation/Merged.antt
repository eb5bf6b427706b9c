-- ===== src/Quorum/Correlation/Merged.antt =====
-- Endpoints that are merged count as one witness.
use mathlib.Core.List.Permᴰ
use mathlib.Core.Path.{subst}
use ictt_sentinel.Base.{
  ◌≡◌, refl, sym, ap, ◌∙◌, inl, inr, Bool, true, ◌||◌, List, [], ◌∷◌, map, Memᴰ, Option, none, some,
  All-mem, arith, Bool-cases,
}
use ictt_sentinel.Base.Text.{Text, text_eq, text_eq_refl}
use ictt_sentinel.Base.Keyed.{mem-perm}
use ictt_sentinel.Base.Members.{mem-map, mem-flat_map}
use ictt_sentinel.Quorum.Links.{linked, AreApart, AreUnlinked}
use ictt_sentinel.Quorum.Partition.{independence_groups-AreApart}
use ictt_sentinel.Quorum.Correlation.{
  Claim, set_domain, get_domain, winner_of, renamed, rename_known, merge_domains, merge_all,
  domains_from, claim_of, collapsed_claims, collapsed_independence_groups, or_own,
}

-- Renaming every domain renames what is read.
get_domain-map :
    (f : Text → Text) (id : Text) (ds : List (Text × Text)) (d : Text)
    → get_domain id ds ≡ some d
    → get_domain id (map (λ e. (e.0, f e.1)) ds) ≡ some (f d)
unfolding get_domain
get_domain-map f id [] d h = cc
get_domain-map f id (e ∷ es) d h = elim (Bool-cases (text_eq e.0 id)) [
  | inl t ↦ rw t (ap some (ap f (read e.1 d (ground (arith, t, h)))))
  | inr t ↦ rw t (get_domain-map f id es d (ground (arith, t, h)))
]
  where
    read : (x y : Text) → some x ≡ some y → x ≡ y
    read x y k = cc

-- The two endpoints are known, under one domain.
abbrev AreOne : List (Text × Text) → Text → Text → Type 0
AreOne ds l r = (d : Text) × (get_domain l ds ≡ some d) × (get_domain r ds ≡ some d)

-- The endpoint is known.
abbrev IsKnown : List (Text × Text) → Text → Type 0
IsKnown ds id = (d : Text) × (get_domain id ds ≡ some d)

merge_domains-IsKnown :
    (ds : List (Text × Text)) (m : Text × Text) (id : Text)
    → IsKnown ds id
    → IsKnown (merge_domains ds m) id
unfolding merge_domains
merge_domains-IsKnown ds m id h = known (get_domain m.0 ds) (get_domain m.1 ds)
  where
    known : (a b : Option Text) → IsKnown (rename_known ds a b) id
    known none b = h
    known (some a) none = h
    known (some a) (some b) = (renamed a b h.0, get_domain-map (renamed a b) id ds h.0 h.1)

merge_domains-AreOne :
    (ds : List (Text × Text)) (m : Text × Text) (l r : Text)
    → AreOne ds l r
    → AreOne (merge_domains ds m) l r
unfolding merge_domains
merge_domains-AreOne ds m l r h = known (get_domain m.0 ds) (get_domain m.1 ds)
  where
    known : (a b : Option Text) → AreOne (rename_known ds a b) l r
    known none b = h
    known (some a) none = h
    known (some a) (some b) = (
      renamed a b h.0,
      get_domain-map (renamed a b) l ds h.0 h.1,
      get_domain-map (renamed a b) r ds h.0 h.2,
    )

merged :
    (ds : List (Text × Text)) (m : Text × Text)
    → IsKnown ds m.0
    → IsKnown ds m.1
    → AreOne (merge_domains ds m) m.0 m.1
unfolding merge_domains
merged ds m h k =
    rw (h.1, k.1)
      (
        winner_of h.0 k.0,
        get_domain-map (renamed h.0 k.0) m.0 ds h.0 h.1 ∙ ap some (first h.0 k.0),
        get_domain-map (renamed h.0 k.0) m.1 ds k.0 k.1 ∙ ap some (second h.0 k.0),
      )
  where
    first : (a b : Text) → renamed a b a ≡ winner_of a b
    first a b = rw (text_eq_refl a) refl

    second : (a b : Text) → renamed a b b ≡ winner_of a b
    second a b = ground (arith, text_eq_refl b)

merge_all-AreOne :
    (ms : List (Text × Text)) (ds : List (Text × Text)) (l r : Text)
    → AreOne ds l r
    → AreOne (merge_all ds ms) l r
unfolding merge_all
merge_all-AreOne [] ds l r h = h
merge_all-AreOne (m ∷ ms) ds l r h =
    merge_all-AreOne ms (merge_domains ds m) l r (merge_domains-AreOne ds m l r h)

merge_all-merged :
    (ms : List (Text × Text)) (ds : List (Text × Text)) (l r : Text)
    → Memᴰ (l, r) ms
    → IsKnown ds l
    → IsKnown ds r
    → AreOne (merge_all ds ms) l r
unfolding merge_all
merge_all-merged (m ∷ ms) ds l r (Memᴰ.head e) h k =
    merge_all-AreOne ms (merge_domains ds m) l r
      (subst (λ x. AreOne (merge_domains ds x) l r) e (merged ds (l, r) h k))
merge_all-merged (m ∷ ms) ds l r (Memᴰ.tail q) h k =
    merge_all-merged ms (merge_domains ds m) l r q (merge_domains-IsKnown ds m l h)
      (merge_domains-IsKnown ds m r k)
merge_all-merged [] ds l r q h k = elim q [ ]

set_domain-same :
    (ds : List (Text × Text)) (id d : Text) → get_domain id (set_domain ds id d) ≡ some d
unfolding get_domain set_domain
set_domain-same [] id d = rw (text_eq_refl id) refl
set_domain-same (e ∷ es) id d = elim (Bool-cases (text_eq e.0 id)) [
  | inl t ↦ rw (t, t) refl
  | inr t ↦ rw (t, t) (set_domain-same es id d)
]

set_domain-IsKnown :
    (ds : List (Text × Text)) (id d k : Text) → IsKnown ds k → IsKnown (set_domain ds id d) k
unfolding get_domain set_domain
set_domain-IsKnown [] id d k h = cc (h.1)
set_domain-IsKnown (e ∷ es) id d k h = elim (Bool-cases (text_eq e.0 id)) [
  | inl t ↦ elim (Bool-cases (text_eq e.0 k)) [
    | inl u ↦ (d, rw (t, u) refl)
    | inr u ↦ (h.0, rw (t, u) (ground (arith, u, h.1)))
  ]
  | inr t ↦ elim (Bool-cases (text_eq e.0 k)) [
    | inl u ↦ (e.1, rw (t, u) refl)
    | inr u ↦
        let r = set_domain-IsKnown es id d k (h.0, ground (arith, u, h.1)) in (r.0, rw (t, u) r.1)
  ]
]

-- Two groups with linked members are one.
AreApart-linked :
    {A : Type 0} (trust_domain provider_group : A → Text) (gs : List (List A)) (g h : List A)
    (a b : A)
    → AreApart trust_domain provider_group gs
    → Memᴰ g gs
    → Memᴰ h gs
    → Memᴰ a g
    → Memᴰ b h
    → linked trust_domain provider_group a b ≡ true
    → linked trust_domain provider_group b a ≡ true
    → g ≡ h
AreApart-linked t p (x ∷ gs) g h a b s (Memᴰ.head e) (Memᴰ.head f) ma mb l l' = e ∙ sym f
AreApart-linked t p (x ∷ gs) g h a b s (Memᴰ.head e) (Memᴰ.tail n) ma mb l l' =
    cc (l, All-mem (AreUnlinked t p x) s.0 n a b (subst (Memᴰ a) e ma) mb)
AreApart-linked t p (x ∷ gs) g h a b s (Memᴰ.tail m) (Memᴰ.head f) ma mb l l' =
    cc (l', All-mem (AreUnlinked t p x) s.0 m b a (subst (Memᴰ b) f mb) ma)
AreApart-linked t p (x ∷ gs) g h a b s (Memᴰ.tail m) (Memᴰ.tail n) ma mb l l' =
    AreApart-linked t p gs g h a b s.1 m n ma mb l l'
AreApart-linked t p [] g h a b s m n ma mb l l' = elim m [ ]

-- Items under one domain are linked.
one_domain :
    (x y : Option Text) (d s t : Text) (q : Bool)
    → x ≡ some d
    → y ≡ some d
    → (text_eq (or_own x s) (or_own y t) || q) ≡ true
one_domain x y d s t q e f = rw (e, f, text_eq_refl d) refl

module _ {A : Type 0} (identify trust_domain provider_group : A → Text) where
  domains_from-kept :
      (xs : List A) (ds : List (Text × Text)) (k : Text)
      → IsKnown ds k
      → IsKnown (domains_from identify trust_domain provider_group ds xs) k
  unfolding domains_from
  domains_from-kept [] ds k h = h
  domains_from-kept (x ∷ xs) ds k h =
      domains_from-kept xs _ k (set_domain-IsKnown ds (identify x) (trust_domain x) k h)

  domains_from-IsKnown :
      (xs : List A) (ds : List (Text × Text)) (a : A)
      → Memᴰ a xs
      → IsKnown (domains_from identify trust_domain provider_group ds xs) (identify a)
  unfolding domains_from
  domains_from-IsKnown (x ∷ xs) ds a (Memᴰ.head e) = domains_from-kept xs _ (identify a) (
      subst (λ y. IsKnown (set_domain ds (identify x) (trust_domain x)) (identify y)) (sym e)
        (trust_domain x, set_domain-same ds (identify x) (trust_domain x)))
  domains_from-IsKnown (x ∷ xs) ds a (Memᴰ.tail m) = domains_from-IsKnown xs _ a m
  domains_from-IsKnown [] ds a m = elim m [ ]

  -- Endpoints that are merged stand in one group, whatever else is merged before or after them and
  -- whatever their declared domains are: they count as one witness.
  pub collapsed_independence_groups-merged :
      (items : List A) (merges : List (Text × Text)) (a b : A)
      → Memᴰ a items
      → Memᴰ b items
      → Memᴰ (identify a, identify b) merges
      → (g : List A) × Memᴰ g
          (collapsed_independence_groups identify trust_domain provider_group items merges)
        × Memᴰ a g
        × Memᴰ b g
  unfolding collapsed_independence_groups collapsed_claims
  collapsed_independence_groups-merged items merges a b ma mb mm =
      let ds = merge_all (domains_from identify trust_domain provider_group [] items) merges in
      let claim = claim_of identify trust_domain provider_group ds in
      let claims = map claim items in
      let (d, da, db) =
        merge_all-merged merges _ (identify a) (identify b) mm (domains_from-IsKnown items [] a ma)
          (domains_from-IsKnown items [] b mb) in
      let (p, s, _) =
        independence_groups-AreApart (λ (c : Claim A). c.trust_domain) (λ c. c.provider_group)
          claims in
      let (g, mg, ag) = mem-flat_map (λ x. x) _ (mem-perm (Permᴰ.symm p) (mem-map claim ma)) in
      let (h, mh, bh) = mem-flat_map (λ x. x) _ (mem-perm (Permᴰ.symm p) (mem-map claim mb)) in
      let e =
        AreApart-linked (λ (c : Claim A). c.trust_domain) (λ c. c.provider_group) _ g h (claim a)
          (claim b) s mg mh ag bh (one_domain _ _ d (trust_domain a) (trust_domain b) _ da db)
          (one_domain _ _ d (trust_domain b) (trust_domain a) _ db da) in
      (
        map (λ c. c.item) g,
        mem-map (map (λ c. c.item)) mg,
        mem-map (λ c. c.item) ag,
        mem-map (λ c. c.item) (subst (Memᴰ (claim b)) (sym e) bh),
      )
