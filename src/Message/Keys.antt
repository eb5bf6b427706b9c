-- ===== src/Message/Keys.antt =====
-- packages/state-machine/src/keys.ts: the identity of a message and of a raw fact.
use ictt_sentinel.Base.{ℕ, ◌≡◌, Bool, List, [], ◌∷◌, ◌++◌}
use ictt_sentinel.Base.Int.{ℤ}
use ictt_sentinel.Base.Text.{Text, text_eq}
use ictt_sentinel.Base.Decimal.{decimal, decimal_ℤ}
pub mod Injective

pub record MessageKey : Type 0 where
  pub source_blockchain_id : Text
  pub destination_blockchain_id : Text
  pub teleporter_messenger_address : Text
  pub registry_protocol_version : ℕ
  pub message_id : Text

pub record FactPosition : Type 0 where
  pub blockchain_id : Text
  pub block_number : ℤ
  pub block_hash : Text

pub record RawFactRef : Type 0 where
  pub evm_chain_id : ℤ
  pub block_hash : Text
  pub tx_hash : Text
  pub log_index : ℕ

-- `SEP`, the code unit of "|"
abbrev pub sep : ℕ
sep = 124

-- `parts.join(SEP)`
abbrev pub join : List Text → Text
join [] = []
join (t ∷ []) = t
join (t ∷ u ∷ us) = t ++ sep ∷ join (u ∷ us)

unfoldable pub message_key_of : MessageKey → Text
unfolding decimal
message_key_of k = join (
    k.source_blockchain_id
    ∷ k.destination_blockchain_id
    ∷ k.teleporter_messenger_address
    ∷ decimal k.registry_protocol_version
    ∷ k.message_id
    ∷ [])

unfoldable pub raw_fact_ref_of : RawFactRef → Text
unfolding decimal decimal_ℤ
raw_fact_ref_of r =
    join (decimal_ℤ r.evm_chain_id ∷ r.block_hash ∷ r.tx_hash ∷ decimal r.log_index ∷ [])

unfoldable pub same_message : MessageKey → MessageKey → Bool
unfolding message_key_of text_eq
same_message a b = text_eq (message_key_of a) (message_key_of b)

unfoldable pub same_raw_fact : RawFactRef → RawFactRef → Bool
unfolding raw_fact_ref_of text_eq
same_raw_fact a b = text_eq (raw_fact_ref_of a) (raw_fact_ref_of b)

unfoldable pub transaction_key_of : RawFactRef → Text
unfolding decimal_ℤ
transaction_key_of r = join (decimal_ℤ r.evm_chain_id ∷ r.block_hash ∷ r.tx_hash ∷ [])
