-- ===== src/Alerts/Outbox.antt =====
-- packages/storage-postgres/src/alert-store.ts: the table of alert rows, and the fold of one incident
-- into it. A transaction holds the lock of its incident, so it is one function of the table; rows of
-- one `last_seen_at` are taken in the table's order. The tables of deliveries and tenants are left out.
use ictt_sentinel.Base.{
  ℕ, Bool, true, false, not, ◌&&◌, List, [], ◌∷◌, ◌++◌, Option, none, some, filter, length,
  is_empty, if◌then◌else◌,
}
use ictt_sentinel.Base.Int.{ℤ, leb_ℤ}
use ictt_sentinel.Base.Text.{Text, text_eq}
use ictt_sentinel.Base.Sets.{sort}
use ictt_sentinel.Domain.{Verdict}
use ictt_sentinel.Alerts.{AlertState, is_state}

pub data OutboxStatus : Type 0 where
  pending sent failed abandoned cancelled : OutboxStatus

-- The payload is the client's.
pub record AlertOutboxRow (Payload : Type 0) : Type 0 where
  pub outbox_id : Text
  pub deployment_id : Text
  pub incident_key : Text
  pub evaluation_id : Option Text
  pub dedup_key : Text
  pub payload : Payload
  pub status : OutboxStatus
  pub attempts : ℕ
  pub rule_id : Option Text
  pub reason_code : Option Text
  pub verdict_from : Option (Option Verdict)
  pub verdict_to : Option Verdict
  pub evidence_digest : Option Text
  pub lifecycle_state : AlertState
  pub occurrences : ℕ
  pub first_seen_at : ℤ
  pub last_seen_at : ℤ
  pub acknowledged_by : Option Text
  pub acknowledged_at : Option ℤ
  pub recovered_at : Option ℤ
  pub next_attempt_at : ℤ

pub record AlertKeys : Type 0 where
  pub incident_key : Text
  pub dedup_key : Text

module _ {P : Type 0} where
  -- `incident_key = $1 and lifecycle_state <> 'recovered'`
  abbrev pub is_open_in : Text → AlertOutboxRow P → Bool
  is_open_in key r =
      text_eq r.incident_key key && not (is_state r.lifecycle_state AlertState.recovered)

  abbrev pub is_keyed : Text → AlertOutboxRow P → Bool
  is_keyed key r = text_eq r.dedup_key key

  -- `order by last_seen_at desc`
  abbrev pub seen_later : AlertOutboxRow P → AlertOutboxRow P → Bool
  seen_later a b = leb_ℤ b.last_seen_at a.last_seen_at

  abbrev pub first_of : List (AlertOutboxRow P) → Option (AlertOutboxRow P)
  first_of [] = none
  first_of (r ∷ rs) = some r

  -- `a ?? b`
  abbrev pub or_else :
      Option (AlertOutboxRow P) → Option (AlertOutboxRow P) → Option (AlertOutboxRow P)
  or_else none b = b
  or_else (some a) b = some a

  unfoldable pub incident_rows : Text → List (AlertOutboxRow P) → List (AlertOutboxRow P)
  incident_rows key table = sort seen_later (filter (is_open_in key) table)

  -- `readByDedupKey`
  abbrev pub read_by_dedup_key : Text → List (AlertOutboxRow P) → Option (AlertOutboxRow P)
  read_by_dedup_key key table = first_of (filter (is_keyed key) table)

  unfoldable pub existing_row : AlertKeys → List (AlertOutboxRow P) → Option (AlertOutboxRow P)
  existing_row keys table =
      or_else (first_of (filter (is_keyed keys.dedup_key) (incident_rows keys.incident_key table)))
        (read_by_dedup_key keys.dedup_key table)

module _ (P : Type 0) where
  pub record IncidentContext : Type 0 where
    pub existing : Option (AlertOutboxRow P)
    pub open_incident : Option (AlertOutboxRow P)

  pub record FoldDecision : Type 0 where
    pub row : Option (AlertOutboxRow P)
    pub close_incident : Bool

  -- The table after the transaction comes with the result.
  pub record FoldResult : Type 0 where
    pub table : List (AlertOutboxRow P)
    pub row : Option (AlertOutboxRow P)
    pub created : Bool
    pub closed : ℕ

-- `case when status = 'pending' then 'cancelled' else status end`
abbrev pub cancelled_status : OutboxStatus → OutboxStatus
cancelled_status OutboxStatus.pending = OutboxStatus.cancelled
cancelled_status s = s

-- `coalesce(recovered_at, now())`
abbrev pub coalesce : Option ℤ → ℤ → ℤ
coalesce none at = at
coalesce (some t) at = t

module _ {P : Type 0} where
  -- The row as the update of a closed incident leaves it.
  abbrev pub closed_row : ℤ → AlertOutboxRow P → AlertOutboxRow P
  closed_row db_now r = record r {
    lifecycle_state = AlertState.recovered;
    recovered_at = some (coalesce r.recovered_at db_now);
    status = cancelled_status r.status;
  }

  -- `update alert_outbox set ... where p`
  unfoldable pub update_where :
      (AlertOutboxRow P → Bool)
      → (AlertOutboxRow P → AlertOutboxRow P)
      → List (AlertOutboxRow P)
      → List (AlertOutboxRow P)
  update_where p f [] = []
  update_where p f (r ∷ rs) = (if p r then f r else r) ∷ update_where p f rs

  unfoldable pub close_incident : ℤ → Text → List (AlertOutboxRow P) → List (AlertOutboxRow P)
  unfolding update_where
  close_incident db_now key table = update_where (is_open_in key) (closed_row db_now) table

  -- The columns that the update of an existing row sets.
  abbrev pub overwrite : AlertOutboxRow P → AlertOutboxRow P → AlertOutboxRow P
  overwrite next r = record r {
    payload = next.payload;
    status = next.status;
    attempts = next.attempts;
    rule_id = next.rule_id;
    reason_code = next.reason_code;
    verdict_from = next.verdict_from;
    verdict_to = next.verdict_to;
    evidence_digest = next.evidence_digest;
    lifecycle_state = next.lifecycle_state;
    occurrences = next.occurrences;
    last_seen_at = next.last_seen_at;
    acknowledged_by = next.acknowledged_by;
    acknowledged_at = next.acknowledged_at;
    recovered_at = next.recovered_at;
    next_attempt_at = next.next_attempt_at;
  }

  -- The insertion or the update at the end of the transaction.
  unfoldable pub write_row :
      Option (AlertOutboxRow P)
      → Option (AlertOutboxRow P)
      → ℕ
      → List (AlertOutboxRow P)
      → FoldResult P
  unfolding update_where
  write_row existing none closed table = record {
    table = table;
    row = none;
    created = false;
    closed = closed;
  }
  write_row none (some next) closed table = record {
    table = table ++ next ∷ [];
    row = some next;
    created = true;
    closed = closed;
  }
  write_row (some r) (some next) closed table = record {
    table = update_where (is_keyed next.dedup_key) (overwrite next) table;
    row = some next;
    created = false;
    closed = closed;
  }

  -- `foldAlert` with a decision that was taken.
  unfoldable pub apply_decision :
      ℤ → AlertKeys → List (AlertOutboxRow P) → FoldDecision P → FoldResult P
  unfolding close_incident write_row existing_row incident_rows
  apply_decision db_now keys table decision =
      let closing =
        decision.close_incident && not (is_empty (incident_rows keys.incident_key table)) in
      write_row (existing_row keys table) decision.row
        (if closing then length (incident_rows keys.incident_key table) else 0)
        (if closing then close_incident db_now keys.incident_key table else table)

  -- A fold that throws rolls the transaction back.
  abbrev pub commit :
      ℤ → AlertKeys → List (AlertOutboxRow P) → Option (FoldDecision P) → Option (FoldResult P)
  commit db_now keys table none = none
  commit db_now keys table (some decision) = some (apply_decision db_now keys table decision)

  -- `foldAlert`
  unfoldable pub fold_alert :
      ℤ
      → AlertKeys
      → (IncidentContext P → Option (FoldDecision P))
      → List (AlertOutboxRow P)
      → Option (FoldResult P)
  unfolding apply_decision existing_row incident_rows
  fold_alert db_now keys fold table = commit db_now keys table (
      fold record {
        existing = existing_row keys table;
        open_incident = first_of (incident_rows keys.incident_key table);
      })

  -- `acknowledgeAlert`: the table, and how many rows were muted.
  unfoldable pub acknowledge_alert :
      Text → Text → ℤ → List (AlertOutboxRow P) → List (AlertOutboxRow P) × ℕ
  unfolding update_where
  acknowledge_alert key by at table = (
    update_where (is_open_in key)
        (λ r. record r {
          lifecycle_state = AlertState.acknowledged;
          acknowledged_by = some by;
          acknowledged_at = some at;
        })
        table,
    length (filter (is_open_in key) table),
  )

  -- `settleAlert`, without the rows of deliveries.
  unfoldable pub settle_alert :
      Text → OutboxStatus → ℕ → ℤ → List (AlertOutboxRow P) → List (AlertOutboxRow P)
  unfolding update_where
  settle_alert id status attempts next_attempt_at table =
      update_where (λ r. text_eq r.outbox_id id)
        (λ r. record r { status = status; attempts = attempts; next_attempt_at = next_attempt_at })
        table
