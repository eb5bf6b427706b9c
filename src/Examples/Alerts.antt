-- ===== src/Examples/Alerts.antt =====
-- The theorems on alerts, at a breach that opens an incident, worsens and recovers.
use ictt_sentinel.Base.{
  inr, ◌≡◌, ◌≢◌, refl, ◌↔◌, true, false, suc, List, [], ◌∷◌, ◌++◌, Option, none, some,
}
use ictt_sentinel.Base.Int.{ℤ, pos}
use ictt_sentinel.Base.Text.{Text, units, text_eq}
use ictt_sentinel.Base.Sets.{sort, sort_insert}
use ictt_sentinel.Domain.{Verdict, ok, warn, critical}
use ictt_sentinel.Alerts.{
  AlertIdentity, AlertState, AlertRecord, Observation, open_alert, observe, acknowledge, recover,
  recovered_as, should_notify,
}
use ictt_sentinel.Alerts.Lifecycle.{
  Event, Step, Reach, Reach-history, Reach-recovered_iff, worst_since, sightings, is_muted,
}
use ictt_sentinel.Alerts.Outbox.{
  AlertOutboxRow, incident_rows, existing_row, close_incident, update_where, write_row,
  apply_decision, fold_alert,
}
use ictt_sentinel.Alerts.Raise.{
  AlertSignal, AlertContext, RaiseResult, raise_alert, row_of, keys_of, before_in, after_of,
  to_record, identity_of, decide, decide_from,
}
use ictt_sentinel.Alerts.Raise.Keys.{HasOneRowPerKey, raise_alert-HasOneRowPerKey}
use ictt_sentinel.Alerts.Raise.Incident.{has_open, raise_alert-closed}
use ictt_sentinel.Alerts.Raise.Paging.{IsOrdinary, Changes, raise_alert-notified_iff}

-- The digest of the examples returns its input.
abbrev plain : Text → Text
plain t = t

abbrev keep_hash : AlertContext → Option Text
keep_hash c = some c.evidence_hash

abbrev identity : Option Verdict → Verdict → AlertIdentity
identity from to = record {
  deployment_id = units "d";
  rule_id = units "r";
  reason_code = units "c";
  from_verdict = from;
  to_verdict = to;
  evidence_digest = units "e";
}

abbrev seen_at : Verdict → ℤ → Observation
seen_at v t = record { identity = identity none v; observed_at = t }

-- Opened on WARN, worsened to CRITICAL, muted, and recovered.
history :
    Reach plain
      (seen_at warn (pos 1))
      (Event.cleared ok (pos 4)
        ∷ Event.muted (units "op") (pos 3)
        ∷ Event.seen (seen_at critical (pos 2))
        ∷ [])
      (recovered_as
        (acknowledge
          (observe (open_alert plain (seen_at warn (pos 1))) (seen_at critical (pos 2)))
          (units "op")
          (pos 3))
        ok
        (pos 4))
unfolding open_alert observe acknowledge recover
history =
    Reach.next
      (Reach.next (Reach.next Reach.opened (Step.seen (seen_at critical (pos 2))))
        (Step.muted (units "op") (pos 3)))
      (Step.cleared ok (pos 4) refl)

abbrev last_record : AlertRecord
last_record =
    recovered_as
      (acknowledge (observe (open_alert plain (seen_at warn (pos 1))) (seen_at critical (pos 2)))
        (units "op") (pos 3))
      ok (pos 4)

abbrev last_events : List Event
last_events =
    Event.cleared ok (pos 4)
    ∷ Event.muted (units "op") (pos 3)
    ∷ Event.seen (seen_at critical (pos 2))
    ∷ []

Reach-history_example :
    (last_record.current_verdict ≡ worst_since warn last_events)
    × (last_record.occurrences ≡ suc (sightings last_events))
    × ((last_record.acknowledged_by ≢ none) ↔ (is_muted last_events ≡ true))
Reach-history_example = Reach-history history

Reach-recovered_iff_example :
    (last_record.state ≡ AlertState.recovered) ↔ (last_record.current_verdict ≡ ok)
Reach-recovered_iff_example = Reach-recovered_iff (λ e. cc) history

abbrev signal : Option Verdict → Verdict → AlertSignal
signal from to = record {
  deployment_id = units "d";
  evaluation_id = none;
  rule_id = units "r";
  reason_code = units "c";
  previous_verdict = from;
  verdict = to;
  evidence_hash = units "e";
  evidence_schema_version = units "1";
  reason_codes = [];
  observed_at = units "t";
  expires_at = units "u";
  fresh = true;
}

-- The row of the incident that a WARN opens.
abbrev warned : AlertOutboxRow Text
warned =
    row_of plain plain (signal none warn) (pos 1) none
      (open_alert plain (record { identity = identity none warn; observed_at = pos 1 })) true
      (units "e")

abbrev opened : RaiseResult
opened = record {
  dedup_key = (keys_of plain (signal none warn)).dedup_key;
  incident_key = (keys_of plain (signal none warn)).incident_key;
  written = true;
  created = true;
  notified = true;
  closed_incident_rows = 0;
}

abbrev no_rows : List (AlertOutboxRow Text)
no_rows = []

opened_lem :
    raise_alert plain plain keep_hash (pos 1) (signal none warn) (pos 1) []
    ≡ some (warned ∷ [], opened)
unfolding raise_alert fold_alert decide decide_from before_in after_of existing_row incident_rows
    sort apply_decision write_row should_notify open_alert
opened_lem = refl

raise_alert-HasOneRowPerKey_example : HasOneRowPerKey (warned ∷ [])
raise_alert-HasOneRowPerKey_example =
    raise_alert-HasOneRowPerKey plain plain keep_hash (pos 1) (signal none warn) (pos 1) []
      (warned ∷ []) opened opened_lem tt

-- It is not an OK.
opened-IsOrdinary : IsOrdinary (signal none warn) (before_in plain (signal none warn) no_rows)
unfolding before_in existing_row incident_rows sort
opened-IsOrdinary = inr (λ e. cc (e))

raise_alert-notified_iff_example :
    (opened.notified ≡ true)
    ↔ Changes (signal none warn) (before_in plain (signal none warn) no_rows)
raise_alert-notified_iff_example =
    raise_alert-notified_iff plain plain keep_hash (pos 1) (signal none warn) (pos 1) []
      (warned ∷ []) opened opened_lem opened-IsOrdinary

-- The OK that follows it.
abbrev healed : AlertSignal
healed = signal (some warn) ok

abbrev healed_record : AlertRecord
healed_record = to_record (identity_of healed) warned

abbrev healed_rows : List (AlertOutboxRow Text)
healed_rows =
    close_incident (pos 2) (keys_of plain healed).incident_key (warned ∷ [])
    ++ row_of plain plain healed (pos 2) none (recovered_as healed_record ok (pos 2)) true
        (units "e")
      ∷ []

abbrev healed_result : RaiseResult
healed_result = record {
  dedup_key = (keys_of plain healed).dedup_key;
  incident_key = (keys_of plain healed).incident_key;
  written = true;
  created = true;
  notified = true;
  closed_incident_rows = 1;
}

before_healed : before_in plain healed (warned ∷ []) ≡ some healed_record
unfolding before_in existing_row incident_rows sort sort_insert text_eq open_alert
before_healed = refl

healed_lem :
    raise_alert plain plain keep_hash (pos 2) healed (pos 2) (warned ∷ [])
    ≡ some (healed_rows, healed_result)
unfolding raise_alert fold_alert decide decide_from before_in after_of existing_row incident_rows
    sort sort_insert text_eq apply_decision write_row should_notify open_alert recover
    close_incident update_where
healed_lem = refl

raise_alert-closed_example : has_open (keys_of plain healed).incident_key healed_rows ≡ false
unfolding open_alert
raise_alert-closed_example =
    raise_alert-closed plain plain keep_hash (pos 2) healed (pos 2) (warned ∷ []) healed_rows
      healed_result healed_record before_healed refl healed_lem
