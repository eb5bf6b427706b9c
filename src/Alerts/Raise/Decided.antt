-- ===== src/Alerts/Raise/Decided.antt =====
-- What the fold of a raised signal decides.
use mathlib.Core.Path.{subst, ap}
use ictt_sentinel.Base.{
  ◌≡◌, refl, sym, Bool, true, false, not, ◌&&◌, List, Option, none, some, is_none, arith,
}
use ictt_sentinel.Base.Int.{ℤ}
use ictt_sentinel.Base.Text.{Text}
use ictt_sentinel.Alerts.{
  AlertState, AlertRecord, is_recovery, recover, recovered_as, should_notify,
}
use ictt_sentinel.Alerts.Outbox.{
  AlertOutboxRow, FoldDecision, existing_row, apply_decision, fold_alert, commit,
}
use ictt_sentinel.Alerts.Raise.{
  AlertSignal, AlertContext, RaiseResult, raise_alert, decide, decide_from, before_in, after_of,
  keys_of, is_silent, recovered_of, row_of, context_of, raised, decide_with,
}

pub some_inj {ℓ} : {A : Type ℓ} {a b : A} → some a ≡ some b → a ≡ b
some_inj h = cc

pub recovered_of-recovery :
    (signal : AlertSignal) (now : ℤ) (b : AlertRecord)
    → is_recovery (some b.current_verdict) signal.verdict ≡ true
    → recovered_of signal now (some b) ≡ some (recovered_as b signal.verdict now)
unfolding recover
recovered_of-recovery signal now b h = rw h refl

module _ {P : Type 0} where
  -- The decision to write a row fixes its key and its state.
  pub record IsDecided (close : Bool) (key : Text) (state : AlertState) (d : FoldDecision P)
      : Type 0 where
    pub closes : d.close_incident ≡ close
    pub writes :
        (r : AlertOutboxRow P) × (d.row ≡ some r)
        × (r.dedup_key ≡ key)
        × (r.lifecycle_state ≡ state)

  pub decide_from-IsDecided :
      (sha256 outbox_id_for : Text → Text) (sanitize : AlertContext → Option P)
      (signal : AlertSignal) (now : ℤ) (existing : Option (AlertOutboxRow P))
      (before : Option AlertRecord) (d : FoldDecision P)
      → is_silent signal before ≡ false
      → decide_from sha256 outbox_id_for sanitize signal now existing before ≡ some d
      → IsDecided
          (not (is_none (recovered_of signal now before)))
          (keys_of sha256 signal).dedup_key
          (after_of sha256 signal now before).state
          d
  unfolding decide_from
  decide_from-IsDecided sha256 outbox_id_for sanitize signal now existing before d e h =
      known
        (sanitize
          (context_of signal (keys_of sha256 signal).dedup_key (after_of sha256 signal now before)))
        (ground (arith, e, h))
    where
      known :
          (o : Option P)
          → decide_with
              (not (is_none (recovered_of signal now before)))
              (row_of sha256 outbox_id_for signal now existing
                (after_of sha256 signal now before)
                (should_notify before (after_of sha256 signal now before)))
              o
            ≡ some d
          → IsDecided
              (not (is_none (recovered_of signal now before)))
              (keys_of sha256 signal).dedup_key
              (after_of sha256 signal now before).state
              d
      known none k = cc
      known (some p) k =
          subst (IsDecided _ _ _) (some_inj k)
            (record { closes = refl; writes = (_, refl, refl, refl) })

  -- What a raised signal amounts to: the decision of the fold, applied to the table.
  pub raise_alert-decided :
      (sha256 outbox_id_for : Text → Text) (sanitize : AlertContext → Option P) (db_now : ℤ)
      (signal : AlertSignal) (now : ℤ) (rs ts : List (AlertOutboxRow P)) (res : RaiseResult)
      → raise_alert sha256 outbox_id_for sanitize db_now signal now rs ≡ some (ts, res)
      → (d : FoldDecision P) × (decide_from sha256 outbox_id_for sanitize signal now
            (existing_row (keys_of sha256 signal) rs)
            (before_in sha256 signal rs)
          ≡ some d)
        × (ts ≡ (apply_decision db_now (keys_of sha256 signal) rs d).table)
        × (res.notified ≡ (
            not (is_none (apply_decision db_now (keys_of sha256 signal) rs d).row)
            && should_notify
                (before_in sha256 signal rs)
                (after_of sha256 signal now (before_in sha256 signal rs))))
  unfolding raise_alert fold_alert decide before_in
  raise_alert-decided sha256 outbox_id_for sanitize db_now signal now rs ts res h =
      known
        (decide_from sha256 outbox_id_for sanitize signal now
          (existing_row (keys_of sha256 signal) rs) (before_in sha256 signal rs))
        h
    where
      known :
          (o : Option (FoldDecision P))
          → raised sha256 signal
              (should_notify
                (before_in sha256 signal rs)
                (after_of sha256 signal now (before_in sha256 signal rs)))
              (commit db_now (keys_of sha256 signal) rs o)
            ≡ some (ts, res)
          → (d : FoldDecision P) × (o ≡ some d)
            × (ts ≡ (apply_decision db_now (keys_of sha256 signal) rs d).table)
            × (res.notified ≡ (
                not (is_none (apply_decision db_now (keys_of sha256 signal) rs d).row)
                && should_notify
                    (before_in sha256 signal rs)
                    (after_of sha256 signal now (before_in sha256 signal rs))))
      known none k = cc
      known (some d) k =
          (d, refl, ap (λ x. x.0) (sym (some_inj k)), ap (λ x. x.1.notified) (sym (some_inj k)))

  pub decide_from-silent :
      (sha256 outbox_id_for : Text → Text) (sanitize : AlertContext → Option P)
      (signal : AlertSignal) (now : ℤ) (existing : Option (AlertOutboxRow P))
      (before : Option AlertRecord) (d : FoldDecision P)
      → is_silent signal before ≡ true
      → decide_from sha256 outbox_id_for sanitize signal now existing before ≡ some d
      → d ≡ record { row = none; close_incident = false }
  unfolding decide_from
  decide_from-silent sha256 outbox_id_for sanitize signal now existing before d e h =
      sym (some_inj (ground (arith, e, h)))
