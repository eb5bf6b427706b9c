-- ===== src/Quorum/Evaluate.antt =====
-- packages/rpc-quorum/src/quorum.ts. `toLowerCase` and `localeCompare` are parameters; numbers are
-- printed in decimal.
pub mod Agreed
pub mod Counted
use ictt_sentinel.Base.{
  ℕ, ◌≡◌, Bool, true, false, not, ◌&&◌, ◌||◌, List, [], ◌∷◌, ◌++◌, map, Option, none, some, filter,
  flat_map, length, is_empty, is_none, ltb, if◌then◌else◌,
}
use ictt_sentinel.Base.Int.{ℤ, pos, ltb_ℤ, eqb_ℤ, ◌-ℤ◌}
use ictt_sentinel.Base.Text.{Text, units, text_eq, text_le}
use ictt_sentinel.Base.Sets.{sort}
use ictt_sentinel.Base.Grouped.{group_from}
use ictt_sentinel.Base.Decimal.{decimal, decimal_ℤ}
use ictt_sentinel.Quorum.{independence_groups}
use ictt_sentinel.Quorum.Witness.{
  ArchiveDepth, WitnessObservation, ExpectedIdentity, QuorumPolicy, WitnessRejection,
  RejectedWitness, QuorumOutcome, QuorumResult,
}

-- What the loop over the observations rejects, one observation at a time.
abbrev pub rejection : WitnessObservation → WitnessRejection → Text → RejectedWitness
rejection o reason detail = record {
  endpoint_id = o.endpoint_id;
  trust_domain = o.trust_domain;
  reason = reason;
  detail = detail;
}

-- `a !== b` on `bigint | undefined`
abbrev pub is_int : Option ℤ → ℤ → Bool
is_int none b = false
is_int (some a) b = eqb_ℤ a b

abbrev pub rejected_as :
    WitnessObservation → Option (WitnessRejection × Text) → List RejectedWitness
rejected_as o none = []
rejected_as o (some r) = rejection o r.0 r.1 ∷ []

module _ (to_lower_case : Text → Text) where
  -- `lower(a) === lower(b)`
  abbrev pub same_lower : Option Text → Option Text → Bool
  same_lower none none = true
  same_lower none (some b) = false
  same_lower (some a) none = false
  same_lower (some a) (some b) = text_eq (to_lower_case a) (to_lower_case b)

  -- The reason why an observation is not admissible, with its detail.
  unfoldable pub inadmissible :
      ExpectedIdentity → QuorumPolicy → ℤ → WitnessObservation → Option (WitnessRejection × Text)
  inadmissible expected policy now_ms o =
      if is_none o.blockchain_id || is_none o.evm_chain_id || is_none o.network_id
      then some (
        WitnessRejection.missing_identity,
        units "the endpoint did not establish a full chain identity",
      )
      else if not (same_lower o.blockchain_id (some expected.blockchain_id))
      then some (
        WitnessRejection.wrong_blockchain_id,
        units "the endpoint serves a different Avalanche blockchain",
      )
      else if not (is_none expected.genesis_hash)
          && not (same_lower o.genesis_hash expected.genesis_hash)
      then some (
        WitnessRejection.wrong_genesis_hash,
        units "the endpoint does not match the configured genesis anchor",
      )
      else if not (is_int o.evm_chain_id expected.evm_chain_id)
      then some (
        WitnessRejection.wrong_evm_chain_id,
        units "the endpoint serves a different EVM chain id",
      )
      else if not (is_int o.network_id expected.network_id)
      then some (
        WitnessRejection.wrong_network_id,
        units "the endpoint serves a different Avalanche network",
      )
      else if ltb_ℤ policy.max_observation_age_ms (now_ms -ℤ o.observed_at_ms)
      then some (
        WitnessRejection.stale_observation,
        units "the observation is older than the freshness policy allows",
      )
      else none

  abbrev pub is_admissible : ExpectedIdentity → QuorumPolicy → ℤ → WitnessObservation → Bool
  is_admissible expected policy now_ms o = is_none (inadmissible expected policy now_ms o)

-- `leadingHead`: the reduction with the greater head, from `m`.
unfoldable pub leading_head : ℤ → List WitnessObservation → ℤ
leading_head m [] = m
leading_head m (o ∷ os) =
    leading_head (if ltb_ℤ m o.head_block_number then o.head_block_number else m) os

-- The reduction with the lesser head, from `m`.
unfoldable pub lowest_head : ℤ → List WitnessObservation → ℤ
lowest_head m [] = m
lowest_head m (o ∷ os) =
    lowest_head (if ltb_ℤ o.head_block_number m then o.head_block_number else m) os

abbrev pub is_lagging : QuorumPolicy → ℤ → WitnessObservation → Bool
is_lagging policy lead o = ltb_ℤ policy.max_head_lag_blocks (lead -ℤ o.head_block_number)

abbrev pub lagging_detail : ℤ → WitnessObservation → RejectedWitness
lagging_detail lead o = rejection o WitnessRejection.head_lagging (
    units "head is "
    ++ decimal_ℤ (lead -ℤ o.head_block_number)
    ++ units " blocks behind the leading witness")

abbrev pub no_hash_detail : WitnessObservation → RejectedWitness
no_hash_detail o =
    rejection o WitnessRejection.no_hash_at_height
      (units "the endpoint did not return a block hash at the common height")

module _ (to_lower_case : Text → Text) where
  -- `o.hashAtHeight?.toLowerCase() ?? ''`
  abbrev pub key_of : Option Text → Text
  key_of none = []
  key_of (some h) = to_lower_case h

  abbrev pub hash_key : WitnessObservation → Text
  hash_key o = key_of o.hash_at_height

  -- `byHash`
  unfoldable pub by_hash : List WitnessObservation → List (Text × List WitnessObservation)
  unfolding group_from
  by_hash os = group_from hash_key (λ o. o) [] os

module _ (collate_le : Text → Text → Bool) where
  abbrev pub sort_key : WitnessObservation → Text
  sort_key o = o.trust_domain ++ 0 ∷ (o.provider_group ++ 0 ∷ o.endpoint_id)

  abbrev pub by_endpoint : WitnessObservation → WitnessObservation → Bool
  by_endpoint a b = collate_le a.endpoint_id b.endpoint_id

  abbrev pub first_of : List WitnessObservation → List WitnessObservation
  first_of [] = []
  first_of (o ∷ os) = o ∷ []

  -- `independentWitnesses`
  unfoldable pub independent_witnesses : List WitnessObservation → List WitnessObservation
  independent_witnesses observations = sort by_endpoint (
      flat_map (λ group. first_of (sort by_endpoint group))
        (independence_groups (λ o. o.trust_domain) (λ o. o.provider_group)
          (sort (λ a b. collate_le (sort_key a) (sort_key b)) observations)))

-- A result without a height and without agreeing witnesses.
abbrev pub no_quorum : QuorumOutcome → List RejectedWitness → Text → List Text → QuorumResult
no_quorum outcome rejected reason degraded = record {
  outcome = outcome;
  height = none;
  block_hash = none;
  agreeing_trust_domains = [];
  agreeing_provider_groups = [];
  agreeing_endpoint_ids = [];
  rejected = rejected;
  reasons = reason ∷ [];
  degraded = degraded;
}

-- A result with one hash, witnessed by the independent witnesses.
abbrev pub one_hash :
    QuorumOutcome
    → ℤ
    → Text
    → List WitnessObservation
    → List RejectedWitness
    → List Text
    → List Text
    → QuorumResult
one_hash outcome height hash independent rejected reasons degraded = record {
  outcome = outcome;
  height = some height;
  block_hash = some hash;
  agreeing_trust_domains = sort text_le (map (λ o. o.trust_domain) independent);
  agreeing_provider_groups = sort text_le (map (λ o. o.provider_group) independent);
  agreeing_endpoint_ids = map (λ o. o.endpoint_id) independent;
  rejected = rejected;
  reasons = reasons;
  degraded = degraded;
}

abbrev pub has_hash : WitnessObservation → Bool
has_hash o = not (is_none o.hash_at_height)

-- The texts of the reasons.
abbrev pub disagreement_text : ℕ → ℤ → Text
disagreement_text size height =
    units "witnesses report "
    ++ decimal size
    ++ units " different hashes at height "
    ++ decimal_ℤ height
    ++ units "; no hash is selected, because picking one would invent agreement"

abbrev pub insufficient_text : ℕ → ℕ → ℕ → Text
insufficient_text group independent required =
    decimal group
    ++ units " endpoint(s) agreed but only "
    ++ decimal independent
    ++ units " witness(es) are independent by provider group and trust domain; policy requires "
    ++ decimal required
    ++ units ". Multiple URLs or identities behind one provider count as one witness."

module _ (to_lower_case : Text → Text) (collate_le : Text → Text → Bool) where
  -- What follows `byHash`.
  unfoldable pub judge_hashes :
      QuorumPolicy
      → ℤ
      → List RejectedWitness
      → List Text
      → List (Text × List WitnessObservation)
      → QuorumResult
  judge_hashes policy height rejected degraded [] =
      no_quorum QuorumOutcome.no_common_height rejected
        (units "no witness supplied a hash at the common height") degraded
  judge_hashes policy height rejected degraded (e ∷ []) =
      let independent = independent_witnesses collate_le e.1 in
      if ltb (length independent) policy.min_independent_trust_domains
      then one_hash QuorumOutcome.insufficient_witnesses height e.0 independent rejected
          (insufficient_text (length e.1) (length independent) policy.min_independent_trust_domains
            ∷ [])
          degraded
      else one_hash QuorumOutcome.agreed height e.0 independent rejected [] degraded
  judge_hashes policy height rejected degraded (e ∷ f ∷ es) =
      record (no_quorum QuorumOutcome.disagreement rejected
        (disagreement_text (length (e ∷ f ∷ es)) height) degraded) { height = some height }

  -- What follows the head-lag filter.
  unfoldable pub judge_heads :
      QuorumPolicy → List RejectedWitness → List Text → List WitnessObservation → QuorumResult
  unfolding judge_hashes by_hash lowest_head
  judge_heads policy rejected degraded [] =
      no_quorum QuorumOutcome.insufficient_witnesses rejected
        (units "every witness was outside the head-lag policy") degraded
  judge_heads policy rejected degraded (o ∷ os) =
      let silent = filter (λ w. not (has_hash w)) (o ∷ os) in
      judge_hashes policy (lowest_head o.head_block_number os)
        (rejected ++ map no_hash_detail silent)
        (degraded
          ++ map {B = Text} (λ w. w.endpoint_id ++ units ": no hash at the common height") silent)
        (by_hash to_lower_case (filter has_hash (o ∷ os)))

  -- What follows the loop over the observations.
  unfoldable pub judge_admissible :
      QuorumPolicy → List RejectedWitness → List WitnessObservation → QuorumResult
  unfolding judge_heads leading_head
  judge_admissible policy rejected admissible =
      if is_empty admissible
      then no_quorum QuorumOutcome.insufficient_witnesses rejected
          (units "no endpoint established the expected chain identity within the freshness window")
          []
      else (let lead = leading_head (pos 0) admissible in
          let lagging = filter (is_lagging policy lead) admissible in
          judge_heads policy (rejected ++ map (lagging_detail lead) lagging)
            (map {B = Text} (λ w. w.endpoint_id ++ units ": head lagging") lagging)
            (filter (λ w. not (is_lagging policy lead w)) admissible))

  -- `evaluateQuorum`
  unfoldable pub evaluate_quorum :
      List WitnessObservation → ExpectedIdentity → QuorumPolicy → ℤ → QuorumResult
  unfolding judge_admissible inadmissible
  evaluate_quorum observations expected policy now_ms =
      judge_admissible policy
        (flat_map (λ o. rejected_as o (inadmissible to_lower_case expected policy now_ms o))
          observations)
        (filter (is_admissible to_lower_case expected policy now_ms) observations)

-- `AcceptedRecord`
pub record AcceptedRecord : Type 0 where
  pub block_number : ℤ
  pub block_hash : Text

-- `assertNoIntegrityConflict`: whether it returns.
unfoldable pub assert_no_integrity_conflict :
    (Text → Text) → Option AcceptedRecord → ℤ → Text → Bool
assert_no_integrity_conflict to_lower_case none block_number block_hash = true
assert_no_integrity_conflict to_lower_case (some recorded) block_number block_hash =
    if not (eqb_ℤ recorded.block_number block_number)
    then true
    else text_eq (to_lower_case recorded.block_hash) (to_lower_case block_hash)
