-- ===== src/Examples/Deliveries.antt =====
-- The theorems on deliveries, at one target that accepts and one that is below its threshold.
use ictt_sentinel.Base.{◌≤◌, ◌<◌, ◌≡◌, ◌≢◌, ◌↔◌, true, [], ◌∷◌, Option, none, some}
use ictt_sentinel.Base.Text.{Text, units, text_eq}
use ictt_sentinel.Domain.{Verdict}
use ictt_sentinel.Alerts.{AlertState}
use ictt_sentinel.Alerts.Outbox.{OutboxStatus}
use ictt_sentinel.Alerts.Target.{
  AlertTarget, TargetKind, MinSeverity, Url, check_target_url, meets_threshold, is_private_host,
  is_private_address,
}
use ictt_sentinel.Alerts.Delivery.{
  NotificationPayload, DeliveryReport, DeliveryOutcome, Posted, deliver, settled_status,
}
use ictt_sentinel.Alerts.Delivery.Settled.{IsSafe, IsSettled, settled_status_iff, deliver-IsSafe}

abbrev hook : Text
hook = units "https://hooks.example/x"

-- The parser of the examples knows one URL.
abbrev parse_hook : Text → Option Url
parse_hook raw = some (record {
  protocol = units "https:";
  username = [];
  password = [];
  hostname = units "hooks.example";
  port = [];
})

abbrev accepts : Text → NotificationPayload → Posted
accepts url payload = Posted.responded 200 true

abbrev redact_all : Text → Text
redact_all t = []

abbrev pager : AlertTarget
pager = record {
  target_id = units "pager";
  kind = TargetKind.pagerduty;
  secret_ref = units "PAGER_URL";
  min_severity = MinSeverity.critical;
}

abbrev page : NotificationPayload
page = record {
  dedup_key = units "k";
  deployment_id = units "d";
  rule_id = units "r";
  state = AlertState.first_seen;
  severity = Verdict.critical;
  occurrences = 1;
  reason_codes = [];
  summary = [];
  observed_at = [];
  expires_at = [];
  fresh = true;
  content_hash = [];
  schema_version = [];
  retrieve_path = [];
}

posted : (deliver parse_hook redact_all accepts pager page (some hook)).http_status ≢ none
unfolding deliver check_target_url meets_threshold is_private_host is_private_address text_eq
posted e = cc

deliver-IsSafe_example :
    (raw : Text) × (some hook ≡ some raw) × ((u : Url) × (parse_hook raw ≡ some u) × IsSafe u)
deliver-IsSafe_example = deliver-IsSafe parse_hook redact_all accepts pager page (some hook) posted

abbrev accepted : DeliveryReport
accepted = record {
  target_id = units "pager";
  outcome = DeliveryOutcome.delivered;
  reason = [];
  http_status = some 200;
}

settled_status_iff_example :
    ((settled_status 5 1 (accepted ∷ []) ≡ OutboxStatus.sent) ↔ IsSettled (accepted ∷ []))
    × ((settled_status 5 1 (accepted ∷ []) ≡ OutboxStatus.pending)
        ↔ ((¬ IsSettled (accepted ∷ [])) × (1 < 5)))
    × ((settled_status 5 1 (accepted ∷ []) ≡ OutboxStatus.abandoned)
        ↔ ((¬ IsSettled (accepted ∷ [])) × (5 ≤ 1)))
settled_status_iff_example = settled_status_iff 5 1 (accepted ∷ [])
