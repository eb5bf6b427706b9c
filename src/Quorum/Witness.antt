-- ===== src/Quorum/Witness.antt =====
-- packages/rpc-quorum/src/quorum.ts: the observations of the witnesses, the policy and the result.
use ictt_sentinel.Base.{ℕ, List, Option}
use ictt_sentinel.Base.Int.{ℤ}
use ictt_sentinel.Base.Text.{Text}

pub data ArchiveDepth : Type 0 where
  full pruned unknown : ArchiveDepth

pub record WitnessObservation : Type 0 where
  pub endpoint_id : Text
  pub trust_domain : Text
  pub provider_group : Text
  pub blockchain_id : Option Text
  pub genesis_hash : Option Text
  pub evm_chain_id : Option ℤ
  pub network_id : Option ℤ
  pub head_block_number : ℤ
  pub hash_at_height : Option Text
  pub observed_at_ms : ℤ
  pub archive_depth : ArchiveDepth

pub record ExpectedIdentity : Type 0 where
  pub blockchain_id : Text
  pub genesis_hash : Option Text
  pub evm_chain_id : ℤ
  pub network_id : ℤ

pub record QuorumPolicy : Type 0 where
  pub min_independent_trust_domains : ℕ
  pub max_head_lag_blocks : ℤ
  pub max_observation_age_ms : ℤ

-- `WITNESS_REJECTIONS`
pub data WitnessRejection : Type 0 where
  wrong_blockchain_id wrong_genesis_hash wrong_evm_chain_id wrong_network_id missing_identity
        stale_observation head_lagging head_in_future no_hash_at_height :
      WitnessRejection

pub record RejectedWitness : Type 0 where
  pub endpoint_id : Text
  pub trust_domain : Text
  pub reason : WitnessRejection
  pub detail : Text

pub data QuorumOutcome : Type 0 where
  agreed insufficient_witnesses disagreement no_common_height : QuorumOutcome

pub record QuorumResult : Type 0 where
  pub outcome : QuorumOutcome
  pub height : Option ℤ
  pub block_hash : Option Text
  pub agreeing_trust_domains : List Text
  pub agreeing_provider_groups : List Text
  pub agreeing_endpoint_ids : List Text
  pub rejected : List RejectedWitness
  pub reasons : List Text
  pub degraded : List Text
