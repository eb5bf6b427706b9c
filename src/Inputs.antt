-- ===== src/Inputs.antt =====
-- packages/invariant-core/src/inputs.ts: the proof input contract. A `bigint` is an integer, a
-- `number` that counts something is a natural number, and `T | null` is an option.
use ictt_sentinel.Base.{ℕ, ◌^◌, ◌-◌, Bool, true, false, List, Option}
use ictt_sentinel.Base.Int.{ℤ, pos}
use ictt_sentinel.Base.Text.{Text}

pub record PinnedBlock : Type 0 where
  pub blockchain_id : Text
  pub block_number : ℤ
  pub block_hash : Text

-- `CENSUS_STATES`
pub data CensusState : Type 0 where
  complete_from_deployment_block partial unknown : CensusState

-- `CUT_STATES`
pub data CutState : Type 0 where
  closed open_cut gap : CutState

pub record ProvenanceInput : Type 0 where
  pub manifest_hash : Option Text
  pub policy_hash : Option Text
  pub source_lock_commit_sha : Option Text
  pub adapter_id : Option Text
  pub adapter_version : Option ℕ
  pub rule_version : Text

pub record TokenScaleInput : Type 0 where
  pub token_multiplier : ℤ
  pub multiply_on_remote : Bool
  pub home_decimals : ℕ
  pub remote_decimals : ℕ
  pub established : Bool

pub record RemoteObservation : Type 0 where
  pub remote_blockchain_id : Text
  pub remote_address : Text
  pub transferred_balance : Option ℤ
  pub remote_total_supply : Option ℤ
  pub scale : TokenScaleInput
  pub home_pin : Option PinnedBlock
  pub remote_pin : Option PinnedBlock
  pub fingerprint_recognised : Bool
  pub token_behaviour_canonical : Bool
  pub route_single_hop : Bool
  pub initial_reserve_imbalance : ℤ

pub data Direction : Type 0 where
  home_to_remote remote_to_home : Direction

pub record PendingEnvelope : Type 0 where
  pub message_key : Text
  pub direction : Direction
  pub amount : ℤ
  pub age_seconds : ℕ
  pub remote_blockchain_id : Text
  pub remote_address : Text

pub record CreditedEffect : Type 0 where
  pub message_key : Text
  pub remote_blockchain_id : Text
  pub remote_address : Text
  pub amount : ℤ
  pub has_unique_authorised_source : Bool
  pub route_matches_source : Bool
  pub duplicate_effect : Bool
  pub causal_source_fact : Option Text

pub record FreshnessInput : Type 0 where
  pub fresh : Bool
  pub independent_witness_groups : ℕ
  pub required_witness_groups : ℕ

pub record HomeEscrowInput : Type 0 where
  pub escrow_balance : Option ℤ
  pub home_pin : Option PinnedBlock
  pub accepted_collateral_home_units : ℤ

pub record ProofInput : Type 0 where
  pub deployment_id : Text
  pub family : Text
  pub provenance : ProvenanceInput
  pub census : CensusState
  pub untracked_remotes : List Text
  pub cut : CutState
  pub freshness : FreshnessInput
  pub remotes : List RemoteObservation
  pub pending : List PendingEnvelope
  pub effects : List CreditedEffect
  pub home_escrow : HomeEscrowInput
  pub pending_age_limit_seconds : ℕ

-- `MAX_UINT256` of packages/domain/src/amount.ts
abbrev pub max_uint256 : ℤ
max_uint256 = pos (2 ^ 256 - 1)

abbrev pub census_is_complete : CensusState → Bool
census_is_complete complete_from_deployment_block = true
census_is_complete _ = false

abbrev pub cut_is_closed : CutState → Bool
cut_is_closed closed = true
cut_is_closed _ = false
