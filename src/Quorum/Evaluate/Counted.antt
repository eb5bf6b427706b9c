-- ===== src/Quorum/Evaluate/Counted.antt =====
-- How many witnesses count as independent, and the height that they are asked about.
use ictt_sentinel.Base.{
  ◌≡◌, ◌≢◌, refl, sym, ap, ◌∙◌, inl, inr, Bool, false, not, List, [], ◌∷◌, Memᴰ, some, filter,
  flat_map, length, length-append, is_empty_iff, is_empty, All, arith, Bool-cases, ltb,
}
use ictt_sentinel.Base.Int.{ℤ, pos, ltb_ℤ, ◌≤ℤ◌}
use ictt_sentinel.Base.Members.{mem-filter}
use ictt_sentinel.Base.Perm.{length-perm, is_empty-perm}
use ictt_sentinel.Base.Sets.{sort, sort-perm}
use ictt_sentinel.Base.Text.{Text}
use ictt_sentinel.Quorum.{independence_groups}
use ictt_sentinel.Quorum.Partition.{independence_groups-inhabited}
use ictt_sentinel.Quorum.Evaluate.{
  evaluate_quorum, judge_admissible, judge_heads, judge_hashes, lowest_head, leading_head,
  independent_witnesses, first_of, by_endpoint, sort_key, is_lagging, has_hash,
}
use ictt_sentinel.Quorum.Witness.{
  WitnessObservation, ExpectedIdentity, QuorumPolicy, RejectedWitness,
}
use ictt_sentinel.Quorum.Evaluate.Agreed.{voters}

module _ (collate_le : Text → Text → Bool) where
  -- The groups of the witnesses, in the order in which the code takes them.
  abbrev pub failure_domains : List WitnessObservation → List (List WitnessObservation)
  failure_domains vs =
      independence_groups (λ o. o.trust_domain) (λ o. o.provider_group)
        (sort (λ a b. collate_le (sort_key collate_le a) (sort_key collate_le b)) vs)

  one_first : (os : List WitnessObservation) → os ≢ [] → length (first_of collate_le os) ≡ 1
  one_first [] h = absurd (h refl)
  one_first (o ∷ os) h = refl

  one_each :
      (gs : List (List WitnessObservation))
      → All (λ g. g ≢ []) gs
      → length (flat_map (λ g. first_of collate_le (sort (by_endpoint collate_le) g)) gs)
        ≡ length gs
  one_each [] h = refl
  one_each (g ∷ gs) h =
      length-append (first_of collate_le (sort (by_endpoint collate_le) g)) _
      ∙ rw
          (one_first _ (λ e. h.0 (
            (is_empty_iff g).0
              (sym (is_empty-perm (sort-perm (by_endpoint collate_le) g)) ∙ ap is_empty e))))
          (omega (arith, one_each gs h.1))

  -- One witness counts for each group of linked ones, so several endpoints behind one provider or one
  -- trust domain count once.
  pub independent_witnesses-length :
      (vs : List WitnessObservation)
      → length (independent_witnesses collate_le vs) ≡ length (failure_domains vs)
  unfolding independent_witnesses
  independent_witnesses-length vs =
      length-perm (sort-perm _ _)
      ∙ one_each (failure_domains vs) (independence_groups-inhabited _ _ _)

lowest_head-start : (os : List WitnessObservation) (m : ℤ) → lowest_head m os ≤ℤ m
unfolding lowest_head
lowest_head-start [] m = omega arith
lowest_head-start (o ∷ os) m = elim (Bool-cases (ltb_ℤ o.head_block_number m)) [
  | inl e ↦ ground (arith, lowest_head-start os o.head_block_number)
  | inr e ↦ ground (arith, lowest_head-start os m)
]

lowest_head-mem :
    (os : List WitnessObservation) (m : ℤ) (o : WitnessObservation)
    → Memᴰ o os
    → lowest_head m os ≤ℤ o.head_block_number
unfolding lowest_head
lowest_head-mem (x ∷ os) m o (Memᴰ.head e) = elim (Bool-cases (ltb_ℤ x.head_block_number m)) [
  | inl t ↦ rw (t, e) (lowest_head-start os x.head_block_number)
  | inr t ↦ rw (t, e) (below _ m x.head_block_number (lowest_head-start os m) t)
]
  where
    below : (a b c : ℤ) → a ≤ℤ b → ltb_ℤ c b ≡ false → a ≤ℤ c
    below a b c h k = ground (arith, h, k)
lowest_head-mem (x ∷ os) m o (Memᴰ.tail k) = lowest_head-mem os _ o k
lowest_head-mem [] m o k = elim k [ ]

module _ (to_lower_case : Text → Text) (collate_le : Text → Text → Bool) where
  judge_hashes-height :
      (policy : QuorumPolicy) (height : ℤ) (rejected : List RejectedWitness) (degraded : List Text)
      (m : List (Text × List WitnessObservation)) (x : ℤ)
      → (judge_hashes to_lower_case collate_le policy height rejected degraded m).height ≡ some x
      → x ≡ height
  unfolding judge_hashes
  judge_hashes-height policy height rejected degraded [] x h = cc
  judge_hashes-height policy height rejected degraded (e ∷ []) x h =
      elim (Bool-cases (
        ltb (length (independent_witnesses collate_le e.1)) policy.min_independent_trust_domains)) [
          | inl t ↦ ground (arith, t, h)
          | inr t ↦ ground (arith, t, h)
        ]
  judge_hashes-height policy height rejected degraded (e ∷ f ∷ es) x h = cc

  judge_heads-height :
      (policy : QuorumPolicy) (rejected : List RejectedWitness) (degraded : List Text)
      (ws : List WitnessObservation) (x : ℤ) (o : WitnessObservation)
      → (judge_heads to_lower_case collate_le policy rejected degraded ws).height ≡ some x
      → Memᴰ o ws
      → x ≤ℤ o.head_block_number
  unfolding judge_heads
  judge_heads-height policy rejected degraded [] x o h m = elim m [ ]
  judge_heads-height policy rejected degraded (w ∷ ws) x o h m =
      rw (judge_hashes-height policy _ _ _ _ x h) (reached m)
    where
      reached : Memᴰ o (w ∷ ws) → lowest_head w.head_block_number ws ≤ℤ o.head_block_number
      reached (Memᴰ.head e) = rw e (lowest_head-start ws w.head_block_number)
      reached (Memᴰ.tail k) = lowest_head-mem ws w.head_block_number o k

  -- Whatever the outcome, a height that is reported has been reached by every counted witness.
  pub evaluate_quorum-height :
      (observations : List WitnessObservation) (expected : ExpectedIdentity) (policy : QuorumPolicy)
      (now_ms x : ℤ) (o : WitnessObservation)
      → (evaluate_quorum to_lower_case collate_le observations expected policy now_ms).height
        ≡ some x
      → Memᴰ o (voters to_lower_case collate_le observations expected policy now_ms)
      → x ≤ℤ o.head_block_number
  unfolding evaluate_quorum
  evaluate_quorum-height observations expected policy now_ms x o h m = known _ _ h m
    where
      known :
          (rejected : List RejectedWitness) (admissible : List WitnessObservation)
          → (judge_admissible to_lower_case collate_le policy rejected admissible).height ≡ some x
          → Memᴰ o (
              filter has_hash (
                filter
                  (λ w. not (is_lagging policy (leading_head (pos 0) admissible) w))
                  admissible))
          → x ≤ℤ o.head_block_number
      known rejected [] k n = elim n [ ]
      known rejected (w ∷ ws) k n =
          judge_heads-height policy _ _ _ x o k
            (mem-filter has_hash
              (filter (λ v. not (is_lagging policy (leading_head (pos 0) (w ∷ ws)) v)) (w ∷ ws))
              n).0
