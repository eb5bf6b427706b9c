-- ===== src/Alerts/Delivery.antt =====
-- packages/alerts/src/notify.ts, and the settlement of one outbox row of apps/agent/src/alerting.ts: one
-- attempt for each target, and what becomes of the row. The transport, the environment of secrets and
-- the redaction of error messages are parameters.
pub mod Settled
use ictt_sentinel.Base.{
  ℕ, ◌≡◌, Bool, true, false, not, ◌&&◌, ◌||◌, List, [], ◌∷◌, ◌++◌, map, Option, none, some, any,
  is_empty, is_none, ltb, if◌then◌else◌, ◌*◌, ◌^◌, leb,
}
use ictt_sentinel.Base.Int.{ℤ, pos, ◌+ℤ◌}
use ictt_sentinel.Base.Text.{Text, units}
use ictt_sentinel.Base.Decimal.{decimal}
use ictt_sentinel.Domain.{Verdict}
use ictt_sentinel.Alerts.{AlertState, is_state}
use ictt_sentinel.Alerts.Outbox.{OutboxStatus}
use ictt_sentinel.Alerts.Target.{AlertTarget, Url, check_target_url, meets_threshold}

-- `NotificationPayload` of packages/alerts/src/sanitize.ts, its nested records flattened.
pub record NotificationPayload : Type 0 where
  pub dedup_key : Text
  pub deployment_id : Text
  pub rule_id : Text
  pub state : AlertState
  pub severity : Verdict
  pub occurrences : ℕ
  pub reason_codes : List Text
  pub summary : Text
  pub observed_at : Text
  pub expires_at : Text
  pub fresh : Bool
  pub content_hash : Text
  pub schema_version : Text
  pub retrieve_path : Text

pub data DeliveryOutcome : Type 0 where
  delivered rejected error skipped : DeliveryOutcome

pub record DeliveryReport : Type 0 where
  pub target_id : Text
  pub outcome : DeliveryOutcome
  pub reason : Text
  pub http_status : Option ℕ

-- What the transport answers: a status and whether it is a success, or an error with its message.
pub data Posted : Type 0 where
  responded : ℕ → Bool → Posted
  threw : Text → Posted

pub record DispatchResult : Type 0 where
  pub verdict : Verdict
  pub reports : List DeliveryReport
  pub degraded : Bool

-- A report without a status.
abbrev pub unsent : AlertTarget → DeliveryOutcome → Text → DeliveryReport
unsent target outcome reason = record {
  target_id = target.target_id;
  outcome = outcome;
  reason = reason;
  http_status = none;
}

abbrev pub is_delivery : DeliveryOutcome → DeliveryReport → Bool
is_delivery delivered r = elim r.outcome [
  | delivered ↦ true
  | rejected ↦ false
  | error ↦ false
  | skipped ↦ false
]
is_delivery rejected r = elim r.outcome [
  | delivered ↦ false
  | rejected ↦ true
  | error ↦ false
  | skipped ↦ false
]
is_delivery error r = elim r.outcome [
  | delivered ↦ false
  | rejected ↦ false
  | error ↦ true
  | skipped ↦ false
]
is_delivery skipped r = elim r.outcome [
  | delivered ↦ false
  | rejected ↦ false
  | error ↦ false
  | skipped ↦ true
]

module _ (parse : Text → Option Url) (redacted : Text → Text)
    (post : Text → NotificationPayload → Posted) where
  -- The report of the attempt.
  abbrev pub attempted : AlertTarget → Posted → DeliveryReport
  attempted target (responded status success) = record {
    target_id = target.target_id;
    outcome = if success then DeliveryOutcome.delivered else DeliveryOutcome.rejected;
    reason = if success then units "delivered" else units "target returned " ++ decimal status;
    http_status = some status;
  }
  attempted target (threw message) = unsent target DeliveryOutcome.error (redacted message)

  abbrev pub checked : AlertTarget → NotificationPayload → Text → Option Text → DeliveryReport
  checked target payload url none = attempted target (post url payload)
  checked target payload url (some reason) = unsent target DeliveryOutcome.rejected reason

  abbrev pub unset : AlertTarget → DeliveryReport
  unset target =
      unsent target DeliveryOutcome.error
        (units "target secret " ++ target.secret_ref ++ units " is not set")

  -- `deliver` to the URL that the secret resolved to.
  abbrev pub deliver_to : AlertTarget → NotificationPayload → Option Text → DeliveryReport
  deliver_to target payload none = unset target
  deliver_to target payload (some []) = unset target
  deliver_to target payload (some (c ∷ url)) =
      checked target payload (c ∷ url) (check_target_url parse (c ∷ url))

  unfoldable pub deliver : AlertTarget → NotificationPayload → Option Text → DeliveryReport
  unfolding check_target_url meets_threshold
  deliver target payload url =
      if not (is_state payload.state AlertState.recovered)
        && not (meets_threshold target payload.severity)
      then unsent target DeliveryOutcome.skipped (units "below target severity threshold")
      else deliver_to target payload url

  -- `dispatch`
  unfoldable pub dispatch :
      Verdict → List AlertTarget → (Text → Option Text) → NotificationPayload → DispatchResult
  unfolding deliver
  dispatch verdict targets resolve payload =
      let reports = map (λ target. deliver target payload (resolve target.secret_ref)) targets in
      record {
        verdict = verdict;
        reports = reports;
        degraded =
            any (λ r. is_delivery DeliveryOutcome.error r || is_delivery DeliveryOutcome.rejected r)
              reports;
      }

-- `status` of `drainOutbox`, for a row that was decoded.
unfoldable pub settled_status : ℕ → ℕ → List DeliveryReport → OutboxStatus
settled_status max_attempts attempts reports =
    if any (is_delivery DeliveryOutcome.delivered) reports
      || (not (any (λ r. not (is_delivery DeliveryOutcome.skipped r)) reports)
          && not (is_empty reports))
    then OutboxStatus.sent
    else if ltb attempts max_attempts
    then OutboxStatus.pending
    else OutboxStatus.abandoned

-- `Math.min(row.attempts, 10)`
abbrev pub capped : ℕ → ℕ
capped attempts = if leb attempts 10 then attempts else 10

-- `nextAttemptAt`
unfoldable pub next_attempt : ℤ → ℕ → ℕ → ℤ
next_attempt now backoff_ms attempts = now +ℤ pos (backoff_ms * 2 ^ capped attempts)
