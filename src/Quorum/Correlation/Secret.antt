-- ===== src/Quorum/Correlation/Secret.antt =====
-- Endpoints that use one secret are found to be one, and are counted as one.
use mathlib.Core.List.Permᴰ
use mathlib.Core.Path.{subst}
use ictt_sentinel.Base.{
  ◌≡◌, refl, sym, ◌∙◌, ◌⊎◌, inl, inr, Bool, true, false, List, [], ◌∷◌, map, Memᴰ, some, flat_map,
  mem-filter_of,
}
use ictt_sentinel.Base.Text.{Text, text_eq, text_eq_refl}
use ictt_sentinel.Base.Keyed.{mem-perm}
use ictt_sentinel.Base.Members.{mem-append_left, mem-append_right, mem-map, mem-flat_map_of}
use ictt_sentinel.Base.Sets.{sort-perm}
use ictt_sentinel.Quorum.Links.{text_eq_comm}
use ictt_sentinel.Quorum.Correlation.{
  EndpointCorrelationInput, CorrelationFinding, CorrelationSignal, strongest_signal, finding_of,
  compare_pair, compare_pairs, correlate_endpoints, collapsed_independence_groups,
}
use ictt_sentinel.Quorum.Correlation.Merged.{collapsed_independence_groups-merged}

module _ (collate_le : Text → Text → Bool) (hash : Text → Text) where
  -- The finding on a pair with one secret.
  abbrev SharesSecret : EndpointCorrelationInput → EndpointCorrelationInput → Type 0
  SharesSecret a b =
      (text_eq a.trust_domain b.trust_domain ≡ false) × (text_eq a.secret_ref b.secret_ref ≡ true)

  compare_pair-SharesSecret :
      (a b : EndpointCorrelationInput)
      → SharesSecret a b
      → compare_pair collate_le hash a b
        ≡ finding_of collate_le hash a b (some (CorrelationSignal.same_secret_ref, a.secret_ref))
  unfolding compare_pair strongest_signal
  compare_pair-SharesSecret a b h = rw (h.0, h.1) refl

  -- The pair is compared, one way or the other.
  compare_pairs-mem :
      (xs : List EndpointCorrelationInput) (a b : EndpointCorrelationInput)
      (f g : CorrelationFinding)
      → Memᴰ a xs
      → Memᴰ b xs
      → text_eq a.trust_domain b.trust_domain ≡ false
      → Memᴰ f (compare_pair collate_le hash a b)
      → Memᴰ g (compare_pair collate_le hash b a)
      → Memᴰ f (compare_pairs collate_le hash xs) ⊎ Memᴰ g (compare_pairs collate_le hash xs)
  unfolding compare_pairs
  compare_pairs-mem (x ∷ xs) a b f g (Memᴰ.head p) (Memᴰ.head q) d mf mg =
      cc (d, text_eq_refl x.trust_domain, p, q)
  compare_pairs-mem (x ∷ xs) a b f g (Memᴰ.head p) (Memᴰ.tail n) d mf mg = inl (
      mem-append_left _
        (mem-flat_map_of _ n (subst (λ y. Memᴰ f (compare_pair collate_le hash y b)) p mf)))
  compare_pairs-mem (x ∷ xs) a b f g (Memᴰ.tail m) (Memᴰ.head q) d mf mg = inr (
      mem-append_left _
        (mem-flat_map_of _ m (subst (λ y. Memᴰ g (compare_pair collate_le hash y a)) q mg)))
  compare_pairs-mem (x ∷ xs) a b f g (Memᴰ.tail m) (Memᴰ.tail n) d mf mg =
      elim (compare_pairs-mem xs a b f g m n d mf mg) [
        | inl k ↦ inl (mem-append_right (flat_map (compare_pair collate_le hash x) xs) k)
        | inr k ↦ inr (mem-append_right (flat_map (compare_pair collate_le hash x) xs) k)
      ]
  compare_pairs-mem [] a b f g m n d mf mg = elim m [ ]

  -- Endpoints with one secret are merged.
  correlate_endpoints-SharesSecret :
      (inputs : List EndpointCorrelationInput) (a b : EndpointCorrelationInput)
      → Memᴰ a inputs
      → Memᴰ b inputs
      → SharesSecret a b
      → Memᴰ (a.endpoint_id, b.endpoint_id) (correlate_endpoints collate_le inputs hash).merges
        ⊎ Memᴰ (b.endpoint_id, a.endpoint_id) (correlate_endpoints collate_le inputs hash).merges
  unfolding correlate_endpoints
  correlate_endpoints-SharesSecret inputs a b ma mb h =
      let sorted = Permᴰ.symm (sort-perm (λ x y. collate_le x.endpoint_id y.endpoint_id) inputs) in
      let back : SharesSecret b a = (text_eq_comm _ _ ∙ h.0, text_eq_comm _ _ ∙ h.1) in
      elim (compare_pairs-mem _ a b _ _ (mem-perm sorted ma) (mem-perm sorted mb) h.0
        (subst (Memᴰ _) (sym (compare_pair-SharesSecret a b h)) (Memᴰ.head refl))
        (subst (Memᴰ _) (sym (compare_pair-SharesSecret b a back)) (Memᴰ.head refl))) [
          | inl m ↦ inl (mem-map (λ f. f.endpoint_ids) (mem-filter_of (λ f. f.conclusive) m refl))
          | inr m ↦ inr (mem-map (λ f. f.endpoint_ids) (mem-filter_of (λ f. f.conclusive) m refl))
        ]

-- Two endpoints that are declared under different trust domains but use one secret stand in one group
-- once the merges that correlateEndpoints finds are applied: they count as one witness.
pub correlate_endpoints-one_group :
    {A : Type 0} (view : A → EndpointCorrelationInput) (provider_group : A → Text)
    (collate_le : Text → Text → Bool) (hash : Text → Text) (items : List A) (a b : A)
    → Memᴰ a items
    → Memᴰ b items
    → text_eq (view a).trust_domain (view b).trust_domain ≡ false
    → text_eq (view a).secret_ref (view b).secret_ref ≡ true
    → (g : List A) × Memᴰ g (
        collapsed_independence_groups
          (λ x. (view x).endpoint_id)
          (λ x. (view x).trust_domain)
          provider_group
          items
          (correlate_endpoints collate_le (map view items) hash).merges)
      × Memᴰ a g
      × Memᴰ b g
correlate_endpoints-one_group view provider_group collate_le hash items a b ma mb d s =
    elim (correlate_endpoints-SharesSecret collate_le hash (map view items) (view a) (view b)
      (mem-map view ma) (mem-map view mb) (d, s)) [
        | inl m ↦ collapsed_independence_groups-merged _ _ provider_group items _ a b ma mb m
        | inr m ↦
            let (g, mg, bg, ag) =
              collapsed_independence_groups-merged _ _ provider_group items _ b a mb ma m in
            (g, mg, ag, bg)
      ]
