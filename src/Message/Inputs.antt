-- ===== src/Message/Inputs.antt =====
-- packages/state-machine/src/inputs.ts: the transition inputs. A `Date` is its time in milliseconds.
use ictt_sentinel.Base.{ℕ, Bool, true, false, Option}
use ictt_sentinel.Base.Int.{ℤ}
use ictt_sentinel.Base.Text.{Text}
use ictt_sentinel.Message.Keys.{MessageKey, RawFactRef, FactPosition}

pub data TransitionKind : Type 0 where
  source_application_emitted intent_observed source_accounted icm_sent send_retry envelope_resigned
        delivered execution_succeeded execution_failed execution_retried receipt_observed
        unreceivable_by_version_policy paused_version orphaned unsupported :
      TransitionKind

pub record TransitionInput : Type 0 where
  pub kind : TransitionKind
  pub message : MessageKey
  pub fact : RawFactRef
  pub position : FactPosition
  pub envelope_id : Option Text
  pub carries_economic_effect : Option Bool
  pub unsupported_reason : Option Text
  pub observed_at : Option ℤ
  pub adapter_id : Text
  pub adapter_version : ℕ

abbrev pub kind_index : TransitionKind → ℕ
kind_index source_application_emitted = 0
kind_index intent_observed = 1
kind_index source_accounted = 2
kind_index icm_sent = 3
kind_index send_retry = 4
kind_index envelope_resigned = 5
kind_index delivered = 6
kind_index execution_succeeded = 7
kind_index execution_failed = 8
kind_index execution_retried = 9
kind_index receipt_observed = 10
kind_index unreceivable_by_version_policy = 11
kind_index paused_version = 12
kind_index orphaned = 13
kind_index unsupported = 14

-- `SOURCE_EFFECT_KINDS.has(kind)`
abbrev pub is_source_effect : TransitionKind → Bool
is_source_effect source_accounted = true
is_source_effect _ = false

-- `DESTINATION_EFFECT_KINDS.has(kind)`
abbrev pub is_destination_effect : TransitionKind → Bool
is_destination_effect execution_succeeded = true
is_destination_effect execution_retried = true
is_destination_effect _ = false

-- `assertsExecution`
unfoldable pub asserts_execution : TransitionKind → Bool
asserts_execution execution_succeeded = true
asserts_execution execution_retried = true
asserts_execution _ = false
