-- ===== src/Alerts/Raise.antt =====
-- apps/agent/src/alerting.ts: folding one signal into the outbox. The payload is what `sanitize`
-- returns, a parameter that may refuse.
pub mod Decided
pub mod Keys
pub mod Incident
pub mod Paging
use ictt_sentinel.Base.{
  ℕ, ◌≡◌, Bool, true, false, not, ◌&&◌, List, [], ◌∷◌, Option, none, some, is_none, if◌then◌else◌,
}
use ictt_sentinel.Base.Int.{ℤ}
use ictt_sentinel.Base.Text.{Text}
use ictt_sentinel.Domain.{Verdict}
use ictt_sentinel.Alerts.{
  AlertIdentity, AlertState, AlertRecord, dedup_key, incident_key, is_escalation, open_alert,
  observe, recover, should_notify,
}
use ictt_sentinel.Alerts.Outbox.{
  AlertOutboxRow, OutboxStatus, AlertKeys, IncidentContext, FoldDecision, FoldResult, fold_alert,
  existing_row, incident_rows, first_of,
}

pub record AlertSignal : Type 0 where
  pub deployment_id : Text
  pub evaluation_id : Option Text
  pub rule_id : Text
  pub reason_code : Text
  pub previous_verdict : Option Verdict
  pub verdict : Verdict
  pub evidence_hash : Text
  pub evidence_schema_version : Text
  pub reason_codes : List Text
  pub observed_at : Text
  pub expires_at : Text
  pub fresh : Bool

pub record RaiseResult : Type 0 where
  pub dedup_key : Text
  pub incident_key : Text
  pub written : Bool
  pub created : Bool
  pub notified : Bool
  pub closed_incident_rows : ℕ

-- `AlertContext` of packages/alerts/src/sanitize.ts
pub record AlertContext : Type 0 where
  pub dedup_key : Text
  pub deployment_id : Text
  pub rule_id : Text
  pub state : AlertState
  pub severity : Verdict
  pub occurrences : ℕ
  pub reason_codes : List Text
  pub observed_at : Text
  pub expires_at : Text
  pub fresh : Bool
  pub evidence_hash : Text
  pub evidence_schema_version : Text

-- `identityOf`
abbrev pub identity_of : AlertSignal → AlertIdentity
identity_of signal = record {
  deployment_id = signal.deployment_id;
  rule_id = signal.rule_id;
  reason_code = signal.reason_code;
  from_verdict = signal.previous_verdict;
  to_verdict = signal.verdict;
  evidence_digest = signal.evidence_hash;
}

abbrev pub keys_of : (Text → Text) → AlertSignal → AlertKeys
keys_of sha256 signal = record {
  incident_key = incident_key sha256 (identity_of signal);
  dedup_key = dedup_key sha256 (identity_of signal);
}

abbrev pub or_verdict : Option Verdict → Verdict → Verdict
or_verdict none v = v
or_verdict (some w) v = w

abbrev pub context_of : AlertSignal → Text → AlertRecord → AlertContext
context_of signal key after = record {
  dedup_key = key;
  deployment_id = signal.deployment_id;
  rule_id = signal.rule_id;
  state = after.state;
  severity = after.current_verdict;
  occurrences = after.occurrences;
  reason_codes = signal.reason_codes;
  observed_at = signal.observed_at;
  expires_at = signal.expires_at;
  fresh = signal.fresh;
  evidence_hash = signal.evidence_hash;
  evidence_schema_version = signal.evidence_schema_version;
}

abbrev pub recovered_of : AlertSignal → ℤ → Option AlertRecord → Option AlertRecord
recovered_of signal now none = none
recovered_of signal now (some before) = recover before signal.verdict now

abbrev pub seen_again : (Text → Text) → AlertSignal → ℤ → Option AlertRecord → AlertRecord
seen_again sha256 signal now none =
    open_alert sha256 (record { identity = identity_of signal; observed_at = now })
seen_again sha256 signal now (some before) =
    observe before (record { identity = identity_of signal; observed_at = now })

abbrev pub or_seen : Option AlertRecord → AlertRecord → AlertRecord
or_seen none after = after
or_seen (some recovered) after = recovered

-- `after`
unfoldable pub after_of : (Text → Text) → AlertSignal → ℤ → Option AlertRecord → AlertRecord
after_of sha256 signal now before =
    or_seen (recovered_of signal now before) (seen_again sha256 signal now before)

-- `before === null && !isEscalation(...)`
abbrev pub is_silent : AlertSignal → Option AlertRecord → Bool
is_silent signal before =
    is_none before && not (is_escalation signal.previous_verdict signal.verdict)

module _ {P : Type 0} where
  -- `toRecord`
  abbrev pub to_record : AlertIdentity → AlertOutboxRow P → AlertRecord
  to_record identity row = record {
    dedup_key = row.dedup_key;
    identity = identity;
    state = row.lifecycle_state;
    first_seen_at = row.first_seen_at;
    last_seen_at = row.last_seen_at;
    occurrences = row.occurrences;
    current_verdict = or_verdict row.verdict_to identity.to_verdict;
    acknowledged_by = row.acknowledged_by;
    acknowledged_at = row.acknowledged_at;
    recovered_at = row.recovered_at;
  }

  -- `before`
  abbrev pub before_of :
      AlertIdentity → Option (AlertOutboxRow P) → Option (AlertOutboxRow P) → Option AlertRecord
  before_of identity (some row) open_incident = some (to_record identity row)
  before_of identity none (some row) = some (to_record identity row)
  before_of identity none none = none

  abbrev pub or_id : Option (AlertOutboxRow P) → Text → Text
  or_id none id = id
  or_id (some r) id = r.outbox_id

  abbrev pub or_sent : Option (AlertOutboxRow P) → OutboxStatus
  or_sent none = OutboxStatus.sent
  or_sent (some r) = r.status

  abbrev pub attempts_so_far : Option (AlertOutboxRow P) → ℕ
  attempts_so_far none = 0
  attempts_so_far (some r) = r.attempts

  -- `row`
  abbrev pub row_of :
      (Text → Text)
      → (Text → Text)
      → AlertSignal
      → ℤ
      → Option (AlertOutboxRow P)
      → AlertRecord
      → Bool
      → P
      → AlertOutboxRow P
  row_of sha256 outbox_id_for signal now existing after notify payload = record {
    outbox_id = or_id existing (outbox_id_for (keys_of sha256 signal).dedup_key);
    deployment_id = signal.deployment_id;
    incident_key = (keys_of sha256 signal).incident_key;
    evaluation_id = signal.evaluation_id;
    dedup_key = (keys_of sha256 signal).dedup_key;
    payload = payload;
    status = if notify then OutboxStatus.pending else or_sent existing;
    attempts = attempts_so_far existing;
    rule_id = some signal.rule_id;
    reason_code = some signal.reason_code;
    verdict_from = some signal.previous_verdict;
    verdict_to = some after.current_verdict;
    evidence_digest = some signal.evidence_hash;
    lifecycle_state = after.state;
    occurrences = after.occurrences;
    first_seen_at = after.first_seen_at;
    last_seen_at = after.last_seen_at;
    acknowledged_by = after.acknowledged_by;
    acknowledged_at = after.acknowledged_at;
    recovered_at = after.recovered_at;
    next_attempt_at = now;
  }

  abbrev pub decide_with : Bool → (P → AlertOutboxRow P) → Option P → Option (FoldDecision P)
  decide_with close row none = none
  decide_with close row (some payload) =
      some (record { row = some (row payload); close_incident = close })

  -- The fold that `raiseAlert` gives to `foldAlert`, once `before` is known.
  unfoldable pub decide_from :
      (Text → Text)
      → (Text → Text)
      → (AlertContext → Option P)
      → AlertSignal
      → ℤ
      → Option (AlertOutboxRow P)
      → Option AlertRecord
      → Option (FoldDecision P)
  unfolding after_of
  decide_from sha256 outbox_id_for sanitize signal now existing before =
      if is_silent signal before
      then some (record { row = none; close_incident = false })
      else decide_with (not (is_none (recovered_of signal now before)))
          (row_of sha256 outbox_id_for signal now existing (after_of sha256 signal now before)
            (should_notify before (after_of sha256 signal now before)))
          (sanitize (
            context_of signal (keys_of sha256 signal).dedup_key
              (after_of sha256 signal now before)))

  unfoldable pub decide :
      (Text → Text)
      → (Text → Text)
      → (AlertContext → Option P)
      → AlertSignal
      → ℤ
      → IncidentContext P
      → Option (FoldDecision P)
  unfolding decide_from
  decide sha256 outbox_id_for sanitize signal now c =
      decide_from sha256 outbox_id_for sanitize signal now c.existing
        (before_of (identity_of signal) c.existing c.open_incident)

  abbrev pub raised :
      (Text → Text)
      → AlertSignal
      → Bool
      → Option (FoldResult P)
      → Option (List (AlertOutboxRow P) × RaiseResult)
  raised sha256 signal notify none = none
  raised sha256 signal notify (some result) = some (
    result.table,
    record {
      dedup_key = (keys_of sha256 signal).dedup_key;
      incident_key = (keys_of sha256 signal).incident_key;
      written = not (is_none result.row);
      created = result.created;
      notified = not (is_none result.row) && notify;
      closed_incident_rows = result.closed;
    },
  )

  -- `before`, as the fold sees it in the table.
  unfoldable pub before_in :
      (Text → Text) → AlertSignal → List (AlertOutboxRow P) → Option AlertRecord
  before_in sha256 signal table =
      before_of (identity_of signal) (existing_row (keys_of sha256 signal) table)
        (first_of (incident_rows (keys_of sha256 signal).incident_key table))

  -- `raiseAlert`: the table after it, with its result, or nothing where `sanitize` throws.
  unfoldable pub raise_alert :
      (Text → Text)
      → (Text → Text)
      → (AlertContext → Option P)
      → ℤ
      → AlertSignal
      → ℤ
      → List (AlertOutboxRow P)
      → Option (List (AlertOutboxRow P) × RaiseResult)
  unfolding decide fold_alert before_in after_of
  raise_alert sha256 outbox_id_for sanitize db_now signal now table =
      raised sha256 signal
        (should_notify (before_in sha256 signal table)
          (after_of sha256 signal now (before_in sha256 signal table)))
        (fold_alert db_now (keys_of sha256 signal) (decide sha256 outbox_id_for sanitize signal now)
          table)
