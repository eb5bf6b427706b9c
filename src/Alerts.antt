-- ===== src/Alerts.antt =====
-- packages/alerts/src/dedup.ts and lifecycle.ts: the identity of an alert and its lifecycle. The
-- digest is a parameter, and a `Date` is its count of milliseconds.
pub mod Lifecycle
pub mod Outbox
pub mod Raise
pub mod Target
pub mod Delivery
use ictt_sentinel.Base.{
  ℕ, suc, ◌+◌, ◌≡◌, Bool, true, false, not, ◌&&◌, List, [], ◌∷◌, ◌++◌, Option, none, some,
  if◌then◌else◌,
}
use ictt_sentinel.Base.Int.{ℤ, pos, negsuc, ltb_ℤ}
use ictt_sentinel.Base.Text.{Text, units}
use ictt_sentinel.Domain.{Verdict, ok, warn, unknown, critical}

-- `Verdict | 'NONE'` is `Option Verdict`.
pub record AlertIdentity : Type 0 where
  pub deployment_id : Text
  pub rule_id : Text
  pub reason_code : Text
  pub from_verdict : Option Verdict
  pub to_verdict : Verdict
  pub evidence_digest : Text

abbrev pub verdict_text : Verdict → Text
verdict_text ok = units "OK"
verdict_text warn = units "WARN"
verdict_text unknown = units "UNKNOWN"
verdict_text critical = units "CRITICAL"

abbrev pub from_text : Option Verdict → Text
from_text none = units "NONE"
from_text (some v) = verdict_text v

-- `xs.join('|')`
abbrev pub join_bar : List Text → Text
join_bar [] = []
join_bar (x ∷ []) = x
join_bar (x ∷ y ∷ ys) = x ++ 124 ∷ join_bar (y ∷ ys)

-- `DOMAIN`
abbrev pub alert_domain : Text
alert_domain = units "ictt-sentinel/alert/v1"

-- `dedupKey`; `sha256` takes the concatenation of the updates.
abbrev pub dedup_key : (Text → Text) → AlertIdentity → Text
dedup_key sha256 id = sha256 (
    alert_domain
    ++ 10
      ∷ join_bar (
          id.deployment_id
          ∷ id.rule_id
          ∷ id.reason_code
          ∷ (from_text id.from_verdict ++ units "->" ++ verdict_text id.to_verdict)
          ∷ id.evidence_digest
          ∷ []))

-- `incidentKey`
abbrev pub incident_key : (Text → Text) → AlertIdentity → Text
incident_key sha256 id = sha256 (
    alert_domain
    ++ units "/incident"
    ++ 10 ∷ join_bar (id.deployment_id ∷ id.rule_id ∷ id.reason_code ∷ []))

-- `SEVERITY`
abbrev pub severity : Option Verdict → ℤ
severity none = negsuc 0
severity (some ok) = pos 0
severity (some warn) = pos 1
severity (some unknown) = pos 2
severity (some critical) = pos 3

-- `isEscalation`
abbrev pub is_escalation : Option Verdict → Verdict → Bool
is_escalation from to = ltb_ℤ (severity from) (severity (some to))

abbrev pub is_ok : Verdict → Bool
is_ok ok = true
is_ok _ = false

abbrev pub is_verdict : Option Verdict → Bool
is_verdict none = false
is_verdict (some _) = true

-- `isRecovery`
abbrev pub is_recovery : Option Verdict → Verdict → Bool
is_recovery from to = is_verdict from && ltb_ℤ (severity (some to)) (severity from) && is_ok to

-- `ALERT_STATES`
pub data AlertState : Type 0 where
  first_seen repeated escalated acknowledged recovered : AlertState

pub record AlertRecord : Type 0 where
  pub dedup_key : Text
  pub identity : AlertIdentity
  pub state : AlertState
  pub first_seen_at : ℤ
  pub last_seen_at : ℤ
  pub occurrences : ℕ
  pub current_verdict : Verdict
  pub acknowledged_by : Option Text
  pub acknowledged_at : Option ℤ
  pub recovered_at : Option ℤ

pub record Observation : Type 0 where
  pub identity : AlertIdentity
  pub observed_at : ℤ

-- `open`
unfoldable pub open_alert : (Text → Text) → Observation → AlertRecord
open_alert sha256 o = record {
  dedup_key = dedup_key sha256 o.identity;
  identity = o.identity;
  state = AlertState.first_seen;
  first_seen_at = o.observed_at;
  last_seen_at = o.observed_at;
  occurrences = 1;
  current_verdict = o.identity.to_verdict;
  acknowledged_by = none;
  acknowledged_at = none;
  recovered_at = none;
}

-- `existing.state === 'first_seen' ? 'repeated' : existing.state`
abbrev pub repeat_state : AlertState → AlertState
repeat_state AlertState.first_seen = AlertState.repeated
repeat_state s = s

abbrev pub is_worse : AlertRecord → Observation → Bool
is_worse a o = is_escalation (some a.current_verdict) o.identity.to_verdict

unfoldable pub observe : AlertRecord → Observation → AlertRecord
observe a o = record a {
  state = if is_worse a o then AlertState.escalated else repeat_state a.state;
  last_seen_at = o.observed_at;
  occurrences = suc a.occurrences;
  current_verdict = if is_worse a o then o.identity.to_verdict else a.current_verdict;
}

abbrev pub acknowledged_state : AlertState → AlertState
acknowledged_state AlertState.recovered = AlertState.recovered
acknowledged_state _ = AlertState.acknowledged

unfoldable pub acknowledge : AlertRecord → Text → ℤ → AlertRecord
acknowledge a by at = record a {
  state = acknowledged_state a.state;
  acknowledged_by = some by;
  acknowledged_at = some at;
}

abbrev pub recovered_as : AlertRecord → Verdict → ℤ → AlertRecord
recovered_as a to at = record a {
  state = AlertState.recovered;
  current_verdict = to;
  last_seen_at = at;
  recovered_at = some at;
}

unfoldable pub recover : AlertRecord → Verdict → ℤ → Option AlertRecord
recover a to at =
    if is_recovery (some a.current_verdict) to then some (recovered_as a to at) else none

abbrev pub is_state : AlertState → AlertState → Bool
is_state AlertState.first_seen AlertState.first_seen = true
is_state AlertState.repeated AlertState.repeated = true
is_state AlertState.escalated AlertState.escalated = true
is_state AlertState.acknowledged AlertState.acknowledged = true
is_state AlertState.recovered AlertState.recovered = true
is_state _ _ = false

abbrev pub notify_known : AlertRecord → AlertRecord → Bool
notify_known before after =
    if is_state after.state AlertState.recovered && not (is_state before.state AlertState.recovered)
    then true
    else is_state after.state AlertState.escalated
      && not (is_state before.state AlertState.escalated)

abbrev pub notify_since : Option AlertRecord → AlertRecord → Bool
notify_since none after = is_state after.state AlertState.first_seen
notify_since (some before) after = notify_known before after

-- `shouldNotify`
unfoldable pub should_notify : Option AlertRecord → AlertRecord → Bool
should_notify before after =
    if is_state after.state AlertState.acknowledged then false else notify_since before after
