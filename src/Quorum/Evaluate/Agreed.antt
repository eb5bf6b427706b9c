-- ===== src/Quorum/Evaluate/Agreed.antt =====
-- When a quorum is agreed, and on what.
use mathlib.Core.Path.{subst}
use ictt_sentinel.Base.{
  ◌≤◌, ◌≡◌, ◌≢◌, refl, sym, ap, ◌∙◌, ◌↔◌, inl, inr, Bool, true, not, List, [], ◌∷◌, map, Memᴰ,
  Option, none, some, filter, length, All, arith,
}
use ictt_sentinel.Base.Int.{ℤ, pos, ◌≤ℤ◌, ◌-ℤ◌, eqb_ℤ_iff}
use ictt_sentinel.Base.Members.{mem-filter}
use ictt_sentinel.Base.Grouped.{group_from, group_from-one, group_from-cases, IsMany, add_entry}
use ictt_sentinel.Base.Text.{Text, text_eq_iff}
use ictt_sentinel.Quorum.Evaluate.{
  evaluate_quorum, judge_admissible, judge_heads, judge_hashes, by_hash, hash_key,
  independent_witnesses, leading_head, is_admissible, inadmissible, is_lagging, has_hash,
  same_lower, is_int,
}
use ictt_sentinel.Quorum.Witness.{
  WitnessObservation, ExpectedIdentity, QuorumPolicy, QuorumOutcome, RejectedWitness,
}

module _ (to_lower_case : Text → Text) where
  -- Every observation reports the hash.
  abbrev pub AllReport : Text → List WitnessObservation → Type 0
  AllReport h os = All (λ o. hash_key to_lower_case o ≡ h) os

module _ (to_lower_case : Text → Text) (collate_le : Text → Text → Bool) where
  -- The witnesses that reported a hash reported the same, and enough of them are independent.
  pub record Agrees (policy : QuorumPolicy) (h : Text) (vs : List WitnessObservation) : Type 0 where
    pub some_witness : vs ≢ []
    pub same_hash : AllReport to_lower_case h vs
    pub enough : policy.min_independent_trust_domains ≤ length (independent_witnesses collate_le vs)

  judge_hashes-IsMany :
      (policy : QuorumPolicy) (height : ℤ) (rejected : List RejectedWitness) (degraded : List Text)
      (m : List (Text × List WitnessObservation))
      → IsMany (hash_key to_lower_case) (λ o. o) m
      → (judge_hashes to_lower_case collate_le policy height rejected degraded m).outcome
        ≡ QuorumOutcome.disagreement
  unfolding judge_hashes
  judge_hashes-IsMany policy height rejected degraded (e ∷ f ∷ es) h = refl
  judge_hashes-IsMany policy height rejected degraded (e ∷ []) h = absurd h
  judge_hashes-IsMany policy height rejected degraded [] h = absurd h

  -- The answer on one hash.
  one-agreed_iff :
      (policy : QuorumPolicy) (height : ℤ) (rejected : List RejectedWitness) (degraded : List Text)
      (k : Text) (vs : List WitnessObservation)
      → ((judge_hashes to_lower_case collate_le policy height rejected degraded
            ((k, vs) ∷ [])).outcome
          ≡ QuorumOutcome.agreed)
        ↔ (policy.min_independent_trust_domains ≤ length (independent_witnesses collate_le vs))
  unfolding judge_hashes
  one-agreed_iff policy height rejected degraded k vs = (λ h. ground arith, λ h. ground arith)

  map_id : {A : Type 0} (xs : List A) → map (λ x. x) xs ≡ xs
  map_id [] = refl
  map_id (x ∷ xs) = ap (λ t. x ∷ t) (map_id xs)

  one_group :
      (v : WitnessObservation) (vs : List WitnessObservation)
      → AllReport to_lower_case (hash_key to_lower_case v) vs
      → group_from (hash_key to_lower_case) (λ o. o) ((hash_key to_lower_case v, v ∷ []) ∷ []) vs
        ≡ (hash_key to_lower_case v, v ∷ vs) ∷ []
  one_group v vs a =
      group_from-one (hash_key to_lower_case) (λ o. o) (hash_key to_lower_case v) (v ∷ []) vs a
      ∙ ap (λ t. (hash_key to_lower_case v, v ∷ t) ∷ []) (map_id vs)

  judge_hashes-agreed_iff :
      (policy : QuorumPolicy) (height : ℤ) (rejected : List RejectedWitness) (degraded : List Text)
      (vs : List WitnessObservation)
      → ((judge_hashes to_lower_case collate_le policy height rejected degraded
            (by_hash to_lower_case vs)).outcome
          ≡ QuorumOutcome.agreed)
        ↔ ((h : Text) × Agrees policy h vs)
  unfolding by_hash group_from add_entry judge_hashes
  judge_hashes-agreed_iff policy height rejected degraded [] =
      (λ h. cc, λ h. absurd (h.1.some_witness refl))
  judge_hashes-agreed_iff policy height rejected degraded (v ∷ vs) = (to, from)
    where
      k : Text
      k = hash_key to_lower_case v

      to :
          (judge_hashes to_lower_case collate_le policy height rejected degraded
              (group_from (hash_key to_lower_case) (λ o. o) ((k, v ∷ []) ∷ []) vs)).outcome
            ≡ QuorumOutcome.agreed
          → (h : Text) × Agrees policy h (v ∷ vs)
      to t = elim (group_from-cases (hash_key to_lower_case) (λ o. o) k (v ∷ []) vs) [
        | inl a ↦ (
          k,
          record {
            some_witness = λ q. cc;
            same_hash = (refl, a);
            enough = (one-agreed_iff policy height rejected degraded k (v ∷ vs)).0 (
                subst
                  (λ m.
                    (judge_hashes to_lower_case collate_le policy height rejected degraded
                      m).outcome
                    ≡ QuorumOutcome.agreed)
                  (one_group v vs a) t);
          },
        )
        | inr m ↦ cc (t, judge_hashes-IsMany policy height rejected degraded _ m)
      ]

      from :
          (h : Text) × Agrees policy h (v ∷ vs)
          → (judge_hashes to_lower_case collate_le policy height rejected degraded
              (group_from (hash_key to_lower_case) (λ o. o) ((k, v ∷ []) ∷ []) vs)).outcome
            ≡ QuorumOutcome.agreed
      from t =
          let a = subst (λ x. AllReport to_lower_case x vs) (sym t.1.same_hash.0) t.1.same_hash.1 in
          subst
            (λ m.
              (judge_hashes to_lower_case collate_le policy height rejected degraded m).outcome
              ≡ QuorumOutcome.agreed)
            (sym (one_group v vs a))
            ((one-agreed_iff policy height rejected degraded k (v ∷ vs)).1 t.1.enough)

  judge_heads-agreed_iff :
      (policy : QuorumPolicy) (rejected : List RejectedWitness) (degraded : List Text)
      (ws : List WitnessObservation)
      → ((judge_heads to_lower_case collate_le policy rejected degraded ws).outcome
          ≡ QuorumOutcome.agreed)
        ↔ ((h : Text) × Agrees policy h (filter has_hash ws))
  unfolding judge_heads
  judge_heads-agreed_iff policy rejected degraded [] =
      (λ h. cc, λ h. absurd (h.1.some_witness refl))
  judge_heads-agreed_iff policy rejected degraded (o ∷ os) =
      judge_hashes-agreed_iff policy _ _ _ (filter has_hash (o ∷ os))

  -- The witnesses that are counted: admissible, near the leading head, and with a hash.
  abbrev pub voters :
      List WitnessObservation → ExpectedIdentity → QuorumPolicy → ℤ → List WitnessObservation
  voters observations expected policy now_ms =
      let admissible = filter (is_admissible to_lower_case expected policy now_ms) observations in
      filter has_hash
        (filter (λ w. not (is_lagging policy (leading_head (pos 0) admissible) w)) admissible)

  -- A quorum is agreed exactly when some admissible witness near the leading head reported a hash, all
  -- such witnesses that reported one reported the same, and at least the required number of them are
  -- independent. There is no majority rule: one other hash is enough to prevent it.
  pub evaluate_quorum-agreed_iff :
      (observations : List WitnessObservation) (expected : ExpectedIdentity) (policy : QuorumPolicy)
      (now_ms : ℤ)
      → ((evaluate_quorum to_lower_case collate_le observations expected policy now_ms).outcome
          ≡ QuorumOutcome.agreed)
        ↔ ((h : Text) × Agrees policy h (voters observations expected policy now_ms))
  unfolding evaluate_quorum
  evaluate_quorum-agreed_iff observations expected policy now_ms = known _ _
    where
      known :
          (rejected : List RejectedWitness) (admissible : List WitnessObservation)
          → ((judge_admissible to_lower_case collate_le policy rejected admissible).outcome
              ≡ QuorumOutcome.agreed)
            ↔ ((h : Text) × Agrees policy h (
                  filter has_hash (
                    filter
                      (λ w. not (is_lagging policy (leading_head (pos 0) admissible) w))
                      admissible)))
      known rejected [] = (λ h. cc, λ h. absurd (h.1.some_witness refl))
      known rejected (o ∷ os) =
          judge_heads-agreed_iff policy _ _
            (filter (λ w. not (is_lagging policy (leading_head (pos 0) (o ∷ os)) w)) (o ∷ os))

  -- The endpoint serves the expected chain, its observation is fresh, and it reported a hash.
  pub record IsWitness (expected : ExpectedIdentity) (policy : QuorumPolicy) (now_ms : ℤ)
      (o : WitnessObservation) : Type 0 where
    pub chain :
        (b : Text) × (o.blockchain_id ≡ some b)
        × (to_lower_case b ≡ to_lower_case expected.blockchain_id)
    pub genesis :
        (g : Text)
        → expected.genesis_hash ≡ some g
        → (h : Text) × (o.genesis_hash ≡ some h) × (to_lower_case h ≡ to_lower_case g)
    pub evm_chain : o.evm_chain_id ≡ some expected.evm_chain_id
    pub network : o.network_id ≡ some expected.network_id
    pub fresh : now_ms -ℤ o.observed_at_ms ≤ℤ policy.max_observation_age_ms
    pub hash : o.hash_at_height ≢ none

  same_lower-some :
      (a : Option Text) (b : Text)
      → same_lower to_lower_case a (some b) ≡ true
      → (x : Text) × (a ≡ some x) × (to_lower_case x ≡ to_lower_case b)
  same_lower-some none b h = cc
  same_lower-some (some a) b h = (a, refl, (text_eq_iff _ _).0 h)

  is_int-some : (a : Option ℤ) (b : ℤ) → is_int a b ≡ true → a ≡ some b
  is_int-some none b h = cc
  is_int-some (some a) b h = ap some ((eqb_ℤ_iff a b).0 h)

  admitted :
      (expected : ExpectedIdentity) (policy : QuorumPolicy) (now_ms : ℤ) (o : WitnessObservation)
      → is_admissible to_lower_case expected policy now_ms o ≡ true
      → has_hash o ≡ true
      → IsWitness expected policy now_ms o
  unfolding inadmissible
  admitted expected policy now_ms o a h = record {
    chain = same_lower-some o.blockchain_id expected.blockchain_id (ground arith);
    genesis = λ g e. same_lower-some o.genesis_hash g (ground (arith, e));
    evm_chain = is_int-some o.evm_chain_id expected.evm_chain_id (ground arith);
    network = is_int-some o.network_id expected.network_id (ground arith);
    fresh = ground arith;
    hash = ground arith;
  }

  -- Every counted witness serves the expected chain, is fresh, and reported a hash.
  pub voters-IsWitness :
      (observations : List WitnessObservation) (expected : ExpectedIdentity) (policy : QuorumPolicy)
      (now_ms : ℤ) (o : WitnessObservation)
      → Memᴰ o (voters observations expected policy now_ms)
      → Memᴰ o observations × IsWitness expected policy now_ms o
  voters-IsWitness observations expected policy now_ms o m =
      let (m1, h) = mem-filter has_hash _ m in
      let (m2, _) = mem-filter _ _ m1 in
      let (m3, a) =
        mem-filter (is_admissible to_lower_case expected policy now_ms) observations m2 in
      (m3, admitted expected policy now_ms o a h)
