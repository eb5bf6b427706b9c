-- ===== src/Alerts/Raise/Incident.antt =====
-- A recovery closes the rows of its incident.
use mathlib.Core.Path.{subst, ap}
use ictt_sentinel.Base.{
  ℕ, ◌≡◌, refl, sym, ◌∙◌, inl, inr, Bool, true, false, not, ◌&&◌, List, [], ◌∷◌, Option, none, some,
  is_none, arith, Bool-cases, any, any-append, is_empty, filter, length, is_empty-filter,
  if◌then◌else◌,
}
use ictt_sentinel.Base.Int.{ℤ}
use ictt_sentinel.Base.Text.{Text}
use ictt_sentinel.Base.Sets.{sort-perm}
use ictt_sentinel.Base.Perm.{is_empty-perm}
use ictt_sentinel.Alerts.{AlertState, AlertRecord, is_recovery}
use ictt_sentinel.Alerts.Outbox.{
  AlertOutboxRow, AlertKeys, FoldDecision, existing_row, incident_rows, update_where,
  close_incident, write_row, apply_decision, is_open_in, is_keyed, overwrite, seen_later,
}
use ictt_sentinel.Alerts.Raise.{
  AlertSignal, AlertContext, RaiseResult, raise_alert, decide_from, before_in, after_of, keys_of,
  seen_again, or_seen,
}
use ictt_sentinel.Alerts.Raise.Decided.{
  recovered_of-recovery, decide_from-IsDecided, raise_alert-decided,
}
use ictt_sentinel.Alerts.Raise.Keys.{after_close}

module _ {P : Type 0} where
  -- A closed incident has no open row left.
  after_close-IsClosed :
      (db_now : ℤ) (key : Text) (rs : List (AlertOutboxRow P))
      → any (is_open_in key) (close_incident db_now key rs) ≡ false
  unfolding close_incident update_where
  after_close-IsClosed db_now key [] = refl
  after_close-IsClosed db_now key (r ∷ rs) = ground (arith, after_close-IsClosed db_now key rs)

  -- The table has an open row of the incident.
  abbrev pub has_open : Text → List (AlertOutboxRow P) → Bool
  has_open key table = any (is_open_in key) table

  update_where-closed :
      (key : Text) (p : AlertOutboxRow P → Bool) (next : AlertOutboxRow P)
      (rs : List (AlertOutboxRow P))
      → next.lifecycle_state ≡ AlertState.recovered
      → has_open key rs ≡ false
      → has_open key (update_where p (overwrite next) rs) ≡ false
  unfolding update_where
  update_where-closed key p next [] s h = refl
  update_where-closed key p next (r ∷ rs) s h =
      let rest = update_where-closed key p next rs s (ground arith) in
      elim (Bool-cases (p r)) [ inl e ↦ ground (arith, e, s, rest) | inr e ↦ ground (arith, rest) ]

  write_row-closed :
      (key : Text) (existing : Option (AlertOutboxRow P)) (next : AlertOutboxRow P) (closed : ℕ)
      (rs : List (AlertOutboxRow P))
      → next.lifecycle_state ≡ AlertState.recovered
      → has_open key rs ≡ false
      → has_open key (write_row existing (some next) closed rs).table ≡ false
  unfolding write_row
  write_row-closed key none next closed rs s h =
      ground (arith, any-append (is_open_in key) rs (next ∷ []), s, h)
  write_row-closed key (some r) next closed rs s h =
      update_where-closed key (is_keyed next.dedup_key) next rs s h

  after_close-closed :
      (db_now : ℤ) (keys : AlertKeys) (rs : List (AlertOutboxRow P)) (d : FoldDecision P)
      → d.close_incident ≡ true
      → has_open keys.incident_key (after_close db_now keys rs d) ≡ false
  unfolding incident_rows
  after_close-closed db_now keys rs d c = ground (
    arith,
    c,
    is_empty-perm (sort-perm seen_later (filter (is_open_in keys.incident_key) rs)),
    is_empty-filter (is_open_in keys.incident_key) rs,
    after_close-IsClosed db_now keys.incident_key rs,
  )

  -- A recovery closes its incident: if the row that the signal is folded into (the one with its dedup
  -- key, or else the newest open one of the incident) is worse than OK and the signal is OK, no row of
  -- the incident is open afterwards.
  pub raise_alert-closed :
      (sha256 outbox_id_for : Text → Text) (sanitize : AlertContext → Option P) (db_now : ℤ)
      (signal : AlertSignal) (now : ℤ) (rs ts : List (AlertOutboxRow P)) (res : RaiseResult)
      (b : AlertRecord)
      → before_in sha256 signal rs ≡ some b
      → is_recovery (some b.current_verdict) signal.verdict ≡ true
      → raise_alert sha256 outbox_id_for sanitize db_now signal now rs ≡ some (ts, res)
      → has_open (keys_of sha256 signal).incident_key ts ≡ false
  unfolding apply_decision after_of
  raise_alert-closed sha256 outbox_id_for sanitize db_now signal now rs ts res b eb er h =
      let (d, e, f, _) =
        raise_alert-decided sha256 outbox_id_for sanitize db_now signal now rs ts res h in
      let w =
        decide_from-IsDecided sha256 outbox_id_for sanitize signal now
          (existing_row (keys_of sha256 signal) rs) (some b) d refl
          (subst
            (λ x.
              decide_from sha256 outbox_id_for sanitize signal now
                (existing_row (keys_of sha256 signal) rs) x
              ≡ some d)
            eb e) in
      let (r, g, _, s) = w.writes in
      let shut = ap (λ x. not (is_none x)) (recovered_of-recovery signal now b er) in
      let state =
        ap (λ x. (or_seen x (seen_again sha256 signal now (some b))).state)
          (recovered_of-recovery signal now b er) in
      subst (λ t. has_open (keys_of sha256 signal).incident_key t ≡ false) (sym f)
        (subst
          (λ x.
            has_open (keys_of sha256 signal).incident_key
              (write_row (existing_row (keys_of sha256 signal) rs) x (closed_count d)
                (after_close db_now (keys_of sha256 signal) rs d)).table
            ≡ false)
          (sym g)
          (write_row-closed (keys_of sha256 signal).incident_key
            (existing_row (keys_of sha256 signal) rs) r (closed_count d)
            (after_close db_now (keys_of sha256 signal) rs d) (s ∙ state)
            (after_close-closed db_now (keys_of sha256 signal) rs d (w.closes ∙ shut))))
    where
      closed_count : FoldDecision P → ℕ
      closed_count d =
          if d.close_incident
            && not (is_empty (incident_rows (keys_of sha256 signal).incident_key rs))
          then length (incident_rows (keys_of sha256 signal).incident_key rs)
          else 0
