-- ===== src/Examples/Quorums.antt =====
-- The theorems on witnesses and on agreement, at three endpoints of which two share a provider, and at
-- two groups that answer for a range.
use ictt_sentinel.Base.{
  ◌≡◌, refl, ◌↔◌, false, List, [], ◌∷◌, Memᴰ, Permᴰ, none, some, All, flat_map, true, map,
}
use ictt_sentinel.Base.Int.{ℤ, pos, ◌-ℤ◌}
use ictt_sentinel.Base.Text.{Text, units, text_eq, text_le}
use ictt_sentinel.Quorum.{independence_groups}
use ictt_sentinel.Quorum.Links.{AreApart, Connected}
use ictt_sentinel.Quorum.Partition.{independence_groups-AreApart}
use ictt_sentinel.Quorum.Correlation.{
  collapsed_independence_groups, EndpointCorrelationInput, correlate_endpoints,
}
use ictt_sentinel.Quorum.Correlation.Secret.{correlate_endpoints-one_group}
use ictt_sentinel.Quorum.Witness.{
  WitnessObservation, ArchiveDepth, ExpectedIdentity, QuorumPolicy, QuorumOutcome,
}
use ictt_sentinel.Quorum.Evaluate.{evaluate_quorum, inadmissible, leading_head}
use ictt_sentinel.Quorum.Evaluate.Agreed.{
  Agrees, voters, IsWitness, evaluate_quorum-agreed_iff, voters-IsWitness,
}
use ictt_sentinel.Replay.Range.{RangeResult}
use ictt_sentinel.Replay.Range.Witnesses.{AgreementPolicy, Agreement, agree, witnesses_of}
use ictt_sentinel.Replay.Range.Agreement.{Agrees as AgreesOnRange, agree-agreed_iff}

abbrev same : Text → Text
same t = t

abbrev witness : Text → Text → Text → ℤ → WitnessObservation
witness endpoint domain provider head = record {
  endpoint_id = endpoint;
  trust_domain = domain;
  provider_group = provider;
  blockchain_id = some (units "b");
  genesis_hash = none;
  evm_chain_id = some (pos 1);
  network_id = some (pos 2);
  head_block_number = head;
  hash_at_height = some (units "h");
  observed_at_ms = pos 10;
  archive_depth = ArchiveDepth.full;
}

abbrev three : List WitnessObservation
three =
    witness (units "e1") (units "d1") (units "p1") (pos 7)
    ∷ witness (units "e2") (units "d2") (units "p1") (pos 8)
    ∷ witness (units "e3") (units "d3") (units "p3") (pos 6)
    ∷ []

abbrev served : ExpectedIdentity
served = record {
  blockchain_id = units "b";
  genesis_hash = none;
  evm_chain_id = pos 1;
  network_id = pos 2;
}

abbrev two_needed : QuorumPolicy
two_needed = record {
  min_independent_trust_domains = 2;
  max_head_lag_blocks = pos 5;
  max_observation_age_ms = pos 100;
}

independence_groups-AreApart_example :
    Permᴰ
      (flat_map (λ g. g) (independence_groups (λ o. o.trust_domain) (λ o. o.provider_group) three))
      three
    × AreApart
        (λ o. o.trust_domain)
        (λ o. o.provider_group)
        (independence_groups (λ o. o.trust_domain) (λ o. o.provider_group) three)
    × All
        (λ g.
          (a b : WitnessObservation)
          → Memᴰ a g
          → Memᴰ b g
          → Connected (λ o. o.trust_domain) (λ o. o.provider_group) three a b)
        (independence_groups (λ o. o.trust_domain) (λ o. o.provider_group) three)
independence_groups-AreApart_example =
    independence_groups-AreApart (λ o. o.trust_domain) (λ o. o.provider_group) three

evaluate_quorum-agreed_iff_example :
    ((evaluate_quorum same text_le three served two_needed (pos 20)).outcome ≡ QuorumOutcome.agreed)
    ↔ ((h : Text) × Agrees same text_le two_needed h
          (voters same text_le three served two_needed (pos 20)))
evaluate_quorum-agreed_iff_example =
    evaluate_quorum-agreed_iff same text_le three served two_needed (pos 20)

-- The first of the three is counted.
counted :
    Memᴰ
      (witness (units "e1") (units "d1") (units "p1") (pos 7))
      (voters same text_le three served two_needed (pos 20))
unfolding inadmissible text_eq leading_head ◌-ℤ◌
counted = Memᴰ.head refl

voters-IsWitness_example :
    Memᴰ (witness (units "e1") (units "d1") (units "p1") (pos 7)) three
    × IsWitness same text_le served two_needed
        (pos 20)
        (witness (units "e1") (units "d1") (units "p1") (pos 7))
voters-IsWitness_example = voters-IsWitness same text_le three served two_needed (pos 20) _ counted

abbrev answer : Text → RangeResult
answer group = record {
  provider_group = group;
  range = record { from_block = pos 1; to_block = pos 2 };
  start_block_hash = units "s";
  end_block_hash = units "f";
  log_count = 0;
  digest = units "g";
  via_archive = false;
  blocks = [];
  logs = [];
}

abbrev answers : List RangeResult
answers = answer (units "p2") ∷ answer (units "p1") ∷ []

abbrev two_groups : AgreementPolicy
two_groups = record { required_independent_groups = 2; archive_fallback_declared = false }

agree-agreed_iff_example :
    (agree answers two_groups
      ≡ Agreement.agreed (units "g") (answer (units "p1") ∷ answer (units "p2") ∷ []))
    ↔ (AgreesOnRange two_groups (units "g") answers
        × (witnesses_of answers ≡ answer (units "p1") ∷ answer (units "p2") ∷ []))
agree-agreed_iff_example =
    agree-agreed_iff answers two_groups (units "g") (answer (units "p1") ∷ answer (units "p2") ∷ [])

abbrev keyed : Text → Text → Text → EndpointCorrelationInput
keyed id domain secret = record {
  endpoint_id = id;
  trust_domain = domain;
  secret_ref = secret;
  hostname = none;
  addresses = [];
  cnames = [];
}

abbrev keyed_three : List EndpointCorrelationInput
keyed_three =
    keyed (units "e1") (units "d1") (units "S")
    ∷ keyed (units "e2") (units "d2") (units "T")
    ∷ keyed (units "e3") (units "d3") (units "S")
    ∷ []

other_domains : text_eq (units "d1") (units "d3") ≡ false
unfolding text_eq
other_domains = refl

one_secret : text_eq (units "S") (units "S") ≡ true
unfolding text_eq
one_secret = refl

correlate_endpoints-one_group_example :
    (g : List EndpointCorrelationInput) × Memᴰ g (
      collapsed_independence_groups
        (λ x. x.endpoint_id)
        (λ x. x.trust_domain)
        (λ x. x.endpoint_id)
        keyed_three
        (correlate_endpoints text_le (map (λ x. x) keyed_three) same).merges)
    × Memᴰ (keyed (units "e1") (units "d1") (units "S")) g
    × Memᴰ (keyed (units "e3") (units "d3") (units "S")) g
correlate_endpoints-one_group_example =
    correlate_endpoints-one_group (λ x. x) (λ x. x.endpoint_id) text_le same keyed_three
      (keyed (units "e1") (units "d1") (units "S")) (keyed (units "e3") (units "d3") (units "S"))
      (Memᴰ.head refl) (Memᴰ.tail (Memᴰ.tail (Memᴰ.head refl))) other_domains one_secret
