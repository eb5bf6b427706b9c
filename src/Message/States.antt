-- ===== src/Message/States.antt =====
-- packages/state-machine/src/states.ts: the semantic message states.
use ictt_sentinel.Base.{Bool, true, false}
use ictt_sentinel.Domain.{Verdict, ok, warn, unknown}

pub data MessageState : Type 0 where
  source_application_emitted intent_observed source_accounted icm_sent delivered executed_success
        executed_failed retry_pending retried_success receipt_observed
        unreceivable_by_version_policy paused_version stale orphaned unclassifiable :
      MessageState

unfoldable pub is_terminal : MessageState → Bool
is_terminal executed_success = true
is_terminal retried_success = true
is_terminal orphaned = true
is_terminal _ = false

unfoldable pub is_healthy_state : MessageState → Bool
is_healthy_state executed_success = true
is_healthy_state retried_success = true
is_healthy_state _ = false

unfoldable pub state_verdict : MessageState → Verdict
state_verdict executed_success = ok
state_verdict retried_success = ok
state_verdict executed_failed = warn
state_verdict retry_pending = warn
state_verdict source_application_emitted = warn
state_verdict intent_observed = warn
state_verdict source_accounted = warn
state_verdict icm_sent = warn
state_verdict delivered = warn
state_verdict receipt_observed = warn
state_verdict unreceivable_by_version_policy = unknown
state_verdict paused_version = unknown
state_verdict stale = unknown
state_verdict orphaned = unknown
state_verdict unclassifiable = unknown
