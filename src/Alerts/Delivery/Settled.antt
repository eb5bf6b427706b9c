-- ===== src/Alerts/Delivery/Settled.antt =====
-- Which URLs are posted to, and what becomes of a row.
use mathlib.Core.Path.{ap}
use ictt_sentinel.Base.{
  ℕ, ◌≤◌, ◌<◌, ◌≡◌, ◌≢◌, refl, ◌↔◌, ◌⊎◌, inl, inr, Bool, true, false, not, ◌&&◌, ◌||◌, List, [],
  ◌∷◌, Memᴰ, Option, none, some, any, any-witness, any-of_mem, any-false_iff, All, All-map,
  is_empty, is_empty_iff, arith, Bool-cases, Option-cases,
}
use ictt_sentinel.Base.Text.{Text, units, text_eq_iff}
use ictt_sentinel.Alerts.Outbox.{OutboxStatus}
use ictt_sentinel.Alerts.Target.{AlertTarget, Url, check_target_url, check_url}
use ictt_sentinel.Alerts.Target.Hosts.{IsUnlisted, is_private_host-IsUnlisted}
use ictt_sentinel.Alerts.Delivery.{
  NotificationPayload, DeliveryReport, DeliveryOutcome, Posted, deliver, is_delivery,
  settled_status,
}

-- The URL is secure, without credentials, on the default port, and its host is unlisted.
pub record IsSafe (url : Url) : Type 0 where
  pub secure : url.protocol ≡ units "https:"
  pub no_user : url.username ≡ []
  pub no_password : url.password ≡ []
  pub unlisted : IsUnlisted url.hostname
  pub default_port : (url.port ≡ []) ⊎ (url.port ≡ units "443")

check_url-IsSafe : (o : Option Url) → check_url o ≡ none → (url : Url) × (o ≡ some url) × IsSafe url
check_url-IsSafe none h = cc
check_url-IsSafe (some url) h = (
  url,
  refl,
  record {
    secure = (text_eq_iff _ _).0 (ground (arith, h));
    no_user = (is_empty_iff url.username).0 (ground (arith, h));
    no_password = (is_empty_iff url.password).0 (ground (arith, h));
    unlisted = is_private_host-IsUnlisted url.hostname (ground (arith, h));
    default_port =
        ground (arith, h, (is_empty_iff url.port).0, (text_eq_iff url.port (units "443")).0);
  },
)

is_delivery_iff :
    (o : DeliveryOutcome) (r : DeliveryReport) → (is_delivery o r ≡ true) ↔ (r.outcome ≡ o)
is_delivery_iff DeliveryOutcome.delivered r = (λ h. ground arith, λ h. ground arith)
is_delivery_iff DeliveryOutcome.rejected r = (λ h. ground arith, λ h. ground arith)
is_delivery_iff DeliveryOutcome.error r = (λ h. ground arith, λ h. ground arith)
is_delivery_iff DeliveryOutcome.skipped r = (λ h. ground arith, λ h. ground arith)

-- Some report has the outcome.
any_delivery_iff :
    (o : DeliveryOutcome) (reports : List DeliveryReport)
    → (any (is_delivery o) reports ≡ true)
      ↔ ((r : DeliveryReport) × Memᴰ r reports × (r.outcome ≡ o))
any_delivery_iff o reports = (
  λ h. let (r, m, e) = any-witness (is_delivery o) reports h in (r, m, (is_delivery_iff o r).0 e),
  λ h. any-of_mem (is_delivery o) h.1 ((is_delivery_iff o h.0).1 h.2),
)

-- All reports have the outcome.
all_delivery_iff :
    (o : DeliveryOutcome) (reports : List DeliveryReport)
    → (any (λ r. not (is_delivery o r)) reports ≡ false) ↔ All (λ r. r.outcome ≡ o) reports
all_delivery_iff o reports = (
  λ h.
      All-map _ _ reports (λ r e. (is_delivery_iff o r).0 (ground (arith, e)))
        ((any-false_iff (λ r. not (is_delivery o r)) reports).0 h),
  λ h.
      (any-false_iff (λ r. not (is_delivery o r)) reports).1
        (All-map _ _ reports (λ r e. not_of (is_delivery o r) ((is_delivery_iff o r).1 e)) h),
)
  where
    not_of : (b : Bool) → b ≡ true → not b ≡ false
    not_of b e = ground (arith, e)

-- Some target accepted the notification, or there are targets and each of them skipped it.
abbrev pub IsSettled : List DeliveryReport → Type 0
IsSettled reports =
    ((r : DeliveryReport) × Memᴰ r reports × (r.outcome ≡ DeliveryOutcome.delivered))
    ⊎ ((reports ≢ []) × All (λ r. r.outcome ≡ DeliveryOutcome.skipped) reports)

abbrev is_settled : List DeliveryReport → Bool
is_settled reports =
    any (is_delivery DeliveryOutcome.delivered) reports
    || (not (any (λ r. not (is_delivery DeliveryOutcome.skipped r)) reports)
        && not (is_empty reports))

IsSettled-iff : (reports : List DeliveryReport) → (is_settled reports ≡ true) ↔ IsSettled reports
IsSettled-iff reports = (
  λ h. elim (Bool-cases (any (is_delivery DeliveryOutcome.delivered) reports)) [
    | inl e ↦ inl ((any_delivery_iff DeliveryOutcome.delivered reports).0 e)
    | inr e ↦ inr (
      (λ k. no_reports (ap is_empty k) (ground (arith, h, e))),
      (all_delivery_iff DeliveryOutcome.skipped reports).0 (ground (arith, h, e)),
    )
  ],
  λ h. elim h [
    | inl k ↦ ground (arith, (any_delivery_iff DeliveryOutcome.delivered reports).1 k)
    | inr k ↦ ground (
      arith,
      (all_delivery_iff DeliveryOutcome.skipped reports).1 k.1,
      not_empty (is_empty_iff reports).0 k.0,
    )
  ],
)
  where
    no_reports : is_empty reports ≡ true → ¬ (is_empty reports ≡ false)
    no_reports a b = cc

    not_empty : (is_empty reports ≡ true → reports ≡ []) → reports ≢ [] → is_empty reports ≡ false
    not_empty f n = ground (arith, f, n)

-- A row is settled as sent exactly when some target accepted it, or there are targets and each of them
-- skipped it; otherwise it is tried again exactly while the attempts are below the budget, and abandoned
-- exactly when they are not: there is no other answer.
pub settled_status_iff :
    (max_attempts attempts : ℕ) (reports : List DeliveryReport)
    → ((settled_status max_attempts attempts reports ≡ OutboxStatus.sent) ↔ IsSettled reports)
      × ((settled_status max_attempts attempts reports ≡ OutboxStatus.pending)
          ↔ ((¬ IsSettled reports) × (attempts < max_attempts)))
      × ((settled_status max_attempts attempts reports ≡ OutboxStatus.abandoned)
          ↔ ((¬ IsSettled reports) × (max_attempts ≤ attempts)))
unfolding settled_status
settled_status_iff max_attempts attempts reports = elim (Bool-cases (is_settled reports)) [
  | inl e ↦ rw e (
    ((λ _. (IsSettled-iff reports).0 e), λ _. refl),
    ((λ h. cc h), λ h. absurd (h.0 ((IsSettled-iff reports).0 e))),
    ((λ h. cc h), λ h. absurd (h.0 ((IsSettled-iff reports).0 e))),
  )
  | inr e ↦
      let unsettled : ¬ IsSettled reports = λ k. cc (e, (IsSettled-iff reports).1 k) in
      rw e (
        ((λ h. ground (arith, h)), λ h. absurd (unsettled h)),
        ((λ h. (unsettled, ground (arith, h))), λ h. ground (arith, h.1)),
        ((λ h. (unsettled, ground (arith, h))), λ h. ground (arith, h.1)),
      )
]

-- A notification is posted only to a URL that parses to one over https on the default port, without
-- credentials, whose host is not one of the listed loopback, private, link-local and metadata forms: a
-- report that carries a status comes from such a URL. Other spellings of such hosts are not excluded.
pub deliver-IsSafe :
    (parse : Text → Option Url) (redacted : Text → Text)
    (post : Text → NotificationPayload → Posted) (target : AlertTarget)
    (payload : NotificationPayload) (url : Option Text)
    → (deliver parse redacted post target payload url).http_status ≢ none
    → (raw : Text) × (url ≡ some raw) × ((u : Url) × (parse raw ≡ some u) × IsSafe u)
unfolding deliver check_target_url
deliver-IsSafe parse redacted post target payload none h = absurd (h (ground arith))
deliver-IsSafe parse redacted post target payload (some []) h = absurd (h (ground arith))
deliver-IsSafe parse redacted post target payload (some (c ∷ url)) h =
    elim (Option-cases (check_url (parse (c ∷ url)))) [
      | inl e ↦ (c ∷ url, refl, check_url-IsSafe (parse (c ∷ url)) e)
      | inr k ↦ absurd (h (ground (arith, k.1)))
    ]
