-- ===== src/Alerts/Raise/Paging.antt =====
-- Which raised signals page.
use mathlib.Core.Path.{ap}
use ictt_sentinel.Base.{
  ℕ, ◌<◌, ◌≡◌, ◌≢◌, refl, sym, ◌∙◌, ◌↔◌, ◌⊎◌, inl, inr, true, false, not, ◌&&◌, List, Option, none,
  some, is_none, arith, Bool-cases,
}
use ictt_sentinel.Base.Int.{ℤ}
use ictt_sentinel.Base.Text.{Text}
use ictt_sentinel.Domain.{Verdict, rank}
use ictt_sentinel.Alerts.{
  AlertState, AlertRecord, is_recovery, recovered_as, should_notify, is_escalation, open_alert,
  recover,
}
use ictt_sentinel.Alerts.Lifecycle.{should_notify-observe_iff}
use ictt_sentinel.Alerts.Outbox.{
  AlertOutboxRow, FoldDecision, apply_decision, write_row, existing_row,
}
use ictt_sentinel.Alerts.Raise.{
  AlertSignal, AlertContext, decide_from, RaiseResult, raise_alert, before_in, after_of, keys_of,
  is_silent, recovered_of, identity_of,
}
use ictt_sentinel.Alerts.Raise.Decided.{
  raise_alert-decided, decide_from-silent, decide_from-IsDecided, recovered_of-recovery,
}

-- What pages, in terms of the record that the signal is folded into: an escalation that opens an
-- incident, a recovery of an alert that is not closed yet, and a worse verdict on an alert that is not
-- escalated yet.
abbrev Pages : AlertSignal → Option AlertRecord → Type 0
Pages signal none = is_escalation signal.previous_verdict signal.verdict ≡ true
Pages signal (some b) =
    ((b.state ≢ AlertState.recovered)
      × (is_recovery (some b.current_verdict) signal.verdict ≡ true))
    ⊎ ((b.state ≢ AlertState.escalated)
        × (is_escalation (some b.current_verdict) signal.verdict ≡ true))

not_both : (v w : Verdict) → is_recovery (some v) w ≡ true → is_escalation (some v) w ≡ false
not_both v w h = ground arith

recovered_as-notify_iff :
    (b : AlertRecord) (v : Verdict) (now : ℤ)
    → (should_notify (some b) (recovered_as b v now) ≡ true) ↔ (b.state ≢ AlertState.recovered)
unfolding should_notify
recovered_as-notify_iff b v now = (λ h. ground arith, λ h. ground arith)

recovered_of-not_recovery :
    (signal : AlertSignal) (now : ℤ) (b : AlertRecord)
    → is_recovery (some b.current_verdict) signal.verdict ≡ false
    → recovered_of signal now (some b) ≡ none
unfolding recover
recovered_of-not_recovery signal now b h = rw h refl

should_notify-after_iff :
    (sha256 : Text → Text) (signal : AlertSignal) (now : ℤ) (b : AlertRecord)
    → (should_notify (some b) (after_of sha256 signal now (some b)) ≡ true) ↔ Pages signal (some b)
unfolding after_of
should_notify-after_iff sha256 signal now b =
    elim (Bool-cases (is_recovery (some b.current_verdict) signal.verdict)) [
      | inl e ↦
          let f = recovered_of-recovery signal now b e in
          let t = recovered_as-notify_iff b signal.verdict now in
          rw f (
            λ h. inl (t.0 h, e),
            λ h. elim h [ inl k ↦ t.1 k.0 | inr k ↦ cc (k.1, not_both _ _ e) ],
          )
      | inr e ↦
          let f = recovered_of-not_recovery signal now b e in
          let t =
            should_notify-observe_iff b
              (record { identity = identity_of signal; observed_at = now }) in
          rw f (
            λ h. inr ((t.0 h).1, (t.0 h).0),
            λ h. elim h [ inl k ↦ cc (e, k.1) | inr k ↦ t.1 (k.1, k.0) ],
          )
    ]

opened-notifies :
    (sha256 : Text → Text) (signal : AlertSignal) (now : ℤ)
    → should_notify none (after_of sha256 signal now none) ≡ true
unfolding should_notify after_of open_alert
opened-notifies sha256 signal now = refl

write_row-row :
    {P : Type 0} (existing next : Option (AlertOutboxRow P)) (closed : ℕ)
    (rs : List (AlertOutboxRow P))
    → (write_row existing next closed rs).row ≡ next
unfolding write_row
write_row-row existing none closed rs = refl
write_row-row none (some r) closed rs = refl
write_row-row (some q) (some r) closed rs = refl

-- What the code answers, in terms of the states too.
raise_alert-Pages_iff :
    {P : Type 0} (sha256 outbox_id_for : Text → Text) (sanitize : AlertContext → Option P)
    (db_now : ℤ) (signal : AlertSignal) (now : ℤ) (rs ts : List (AlertOutboxRow P))
    (res : RaiseResult)
    → raise_alert sha256 outbox_id_for sanitize db_now signal now rs ≡ some (ts, res)
    → (res.notified ≡ true) ↔ Pages signal (before_in sha256 signal rs)
unfolding apply_decision
raise_alert-Pages_iff {P = P} sha256 outbox_id_for sanitize db_now signal now rs ts res h =
    let (d, e, _, n) =
      raise_alert-decided sha256 outbox_id_for sanitize db_now signal now rs ts res h in
    known (before_in sha256 signal rs) d e (
      n
      ∙ ap
          (λ x.
            not (is_none x)
            && should_notify (before_in sha256 signal rs)
                (after_of sha256 signal now (before_in sha256 signal rs)))
          (write_row-row (existing_row (keys_of sha256 signal) rs) d.row _ _))
  where
    written :
        (before : Option AlertRecord) (d : FoldDecision P)
        → is_silent signal before ≡ false
        → decide_from sha256 outbox_id_for sanitize signal now
            (existing_row (keys_of sha256 signal) rs)
            before
          ≡ some d
        → is_none d.row ≡ false
    written before d q e =
        let (r, f, _, _) =
          (decide_from-IsDecided sha256 outbox_id_for sanitize signal now
            (existing_row (keys_of sha256 signal) rs) before d q e).writes in
        ap is_none f

    known :
        (before : Option AlertRecord) (d : FoldDecision P)
        → decide_from sha256 outbox_id_for sanitize signal now
            (existing_row (keys_of sha256 signal) rs)
            before
          ≡ some d
        → res.notified
          ≡ (not (is_none d.row) && should_notify before (after_of sha256 signal now before))
        → (res.notified ≡ true) ↔ Pages signal before
    known none d e n = elim (Bool-cases (is_escalation signal.previous_verdict signal.verdict)) [
      | inl t ↦ (
        λ _. t,
        λ _. n ∙ rw (written none d (rw t refl) e, opened-notifies sha256 signal now) refl,
      )
      | inr t ↦ (
        λ h. cc (
          n,
          h,
          ap (λ x. is_none x.row)
              (decide_from-silent sha256 outbox_id_for sanitize signal now
                (existing_row (keys_of sha256 signal) rs) none d (rw t refl) e),
        ),
        λ h. cc (t, h),
      )
    ]
    known (some b) d e n =
        let f =
          n
          ∙ ap (λ x. not x && should_notify (some b) (after_of sha256 signal now (some b)))
              (written (some b) d refl e) in
        let t = should_notify-after_iff sha256 signal now b in
        (λ h. t.0 (sym f ∙ h), λ h. f ∙ t.1 h)

-- The verdict is worse than the earlier one; any verdict is worse than none.
abbrev pub Worsens : Option Verdict → Verdict → Type 0
Worsens none w = Unit
Worsens (some v) w = rank v < rank w

-- The signal is not the first one of a deployment that is OK, and the record that it is folded into is
-- neither closed with its breach still on it, nor escalated already and worsened again.
abbrev pub IsOrdinary : AlertSignal → Option AlertRecord → Type 0
IsOrdinary signal none = (signal.previous_verdict ≢ none) ⊎ (signal.verdict ≢ Verdict.ok)
IsOrdinary signal (some b) =
    (b.state ≡ AlertState.recovered → b.current_verdict ≡ Verdict.ok)
    × (b.state ≡ AlertState.escalated → ¬ Worsens (some b.current_verdict) signal.verdict)

-- The incident opens or worsens, or the OK after a breach ends it.
abbrev pub Changes : AlertSignal → Option AlertRecord → Type 0
Changes signal none = Worsens signal.previous_verdict signal.verdict
Changes signal (some b) =
    Worsens (some b.current_verdict) signal.verdict
    ⊎ ((b.current_verdict ≢ Verdict.ok) × (signal.verdict ≡ Verdict.ok))

is_escalation_iff :
    (from : Option Verdict) (to : Verdict) → (is_escalation from to ≡ true) ↔ Worsens from to
is_escalation_iff none to = (λ _. tt, λ _. ground arith)
is_escalation_iff (some v) to = (λ h. ground (arith, h), λ h. ground (arith, h))

is_recovery_iff :
    (v w : Verdict) → (is_recovery (some v) w ≡ true) ↔ ((v ≢ Verdict.ok) × (w ≡ Verdict.ok))
is_recovery_iff v w = (λ h. (ground (arith, h), ground (arith, h)), λ h. ground (arith, h.0, h.1))

Pages-iff :
    (signal : AlertSignal) (before : Option AlertRecord)
    → IsOrdinary signal before
    → Pages signal before ↔ Changes signal before
Pages-iff signal none o = is_escalation_iff signal.previous_verdict signal.verdict
Pages-iff signal (some b) o = (
  λ h. elim h [
    | inl k ↦ inr ((is_recovery_iff b.current_verdict signal.verdict).0 k.1)
    | inr k ↦ inl ((is_escalation_iff (some b.current_verdict) signal.verdict).0 k.1)
  ],
  λ h. elim h [
    | inl k ↦
        inr
          ((λ e. absurd (o.1 e k)), (is_escalation_iff (some b.current_verdict) signal.verdict).1 k)
    | inr k ↦ inl ((λ e. k.0 (o.0 e)), (is_recovery_iff b.current_verdict signal.verdict).1 k)
  ],
)

-- Where the signal is not the first one of a deployment that is OK, and the record that it is folded
-- into is neither closed with its breach still on it nor escalated already and worsened again, a raised
-- signal pages exactly when the incident changes: without a record, when its verdict is worse than
-- the previous one; with one, when its verdict is worse than that of the record, or is the OK that
-- ends its breach. A repeat does not page.
pub raise_alert-notified_iff :
    {P : Type 0} (sha256 outbox_id_for : Text → Text) (sanitize : AlertContext → Option P)
    (db_now : ℤ) (signal : AlertSignal) (now : ℤ) (rs ts : List (AlertOutboxRow P))
    (res : RaiseResult)
    → raise_alert sha256 outbox_id_for sanitize db_now signal now rs ≡ some (ts, res)
    → IsOrdinary signal (before_in sha256 signal rs)
    → (res.notified ≡ true) ↔ Changes signal (before_in sha256 signal rs)
raise_alert-notified_iff sha256 outbox_id_for sanitize db_now signal now rs ts res h o =
    let p = raise_alert-Pages_iff sha256 outbox_id_for sanitize db_now signal now rs ts res h in
    let q = Pages-iff signal (before_in sha256 signal rs) o in (λ k. q.0 (p.0 k), λ k. p.1 (q.1 k))
