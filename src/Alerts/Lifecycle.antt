-- ===== src/Alerts/Lifecycle.antt =====
-- What holds of every alert that the lifecycle reaches.
use mathlib.Core.Path.{subst, ap}
use ictt_sentinel.Base.{
  ℕ, suc, ◌≡◌, ◌≢◌, refl, sym, ◌∙◌, ◌↔◌, Bool, true, false, List, [], ◌∷◌, none, some, arith, ltb,
  if◌then◌else◌,
}
use ictt_sentinel.Base.Int.{ℤ}
use ictt_sentinel.Base.Text.{Text}
use ictt_sentinel.Domain.{Verdict, ok, warn, unknown, critical, rank}
use ictt_sentinel.Alerts.{
  AlertRecord, AlertState, Observation, open_alert, observe, acknowledge, recover, should_notify,
  is_worse, is_escalation, recovered_as, is_recovery,
}

-- What can happen to an alert that is open or closed.
pub data Event : Type 0 where
  seen : Observation → Event
  muted : Text → ℤ → Event
  cleared : Verdict → ℤ → Event

-- One event takes the first record to the second. A `recover` that answers `null` is no event.
pub data Step (a : AlertRecord) : Event → AlertRecord → Type 0 where
  seen : (o : Observation) → Step a (Event.seen o) (observe a o)
  muted : (by : Text) (at : ℤ) → Step a (Event.muted by at) (acknowledge a by at)
  cleared :
      {b : AlertRecord} (to : Verdict) (at : ℤ)
      → recover a to at ≡ some b
      → Step a (Event.cleared to at) b

-- The record is reached from the opening observation by the events, the last one first.
pub data Reach (sha256 : Text → Text) (o : Observation) : List Event → AlertRecord → Type 0 where
  opened : Reach sha256 o [] (open_alert sha256 o)
  next :
      {es : List Event} {e : Event} {a b : AlertRecord}
      → Reach sha256 o es a
      → Step a e b
      → Reach sha256 o (e ∷ es) b

-- The observations among the events.
unfoldable pub sightings : List Event → ℕ
sightings [] = 0
sightings (Event.seen o ∷ es) = suc (sightings es)
sightings (Event.muted by at ∷ es) = sightings es
sightings (Event.cleared to at ∷ es) = sightings es

-- Whether a human muted the alert.
unfoldable pub is_muted : List Event → Bool
is_muted [] = false
is_muted (Event.seen o ∷ es) = is_muted es
is_muted (Event.muted by at ∷ es) = true
is_muted (Event.cleared to at ∷ es) = is_muted es

-- The worse of two verdicts.
abbrev pub worse : Verdict → Verdict → Verdict
worse v w = if ltb (rank v) (rank w) then w else v

-- The worst verdict since the alert was opened or last cleared, the opening verdict included.
unfoldable pub worst_since : Verdict → List Event → Verdict
worst_since v [] = v
worst_since v (Event.seen o ∷ es) = worse (worst_since v es) o.identity.to_verdict
worst_since v (Event.muted by at ∷ es) = worst_since v es
worst_since v (Event.cleared to at ∷ es) = ok

recover-some :
    (a b : AlertRecord) (to : Verdict) (at : ℤ)
    → recover a to at ≡ some b
    → (is_recovery (some a.current_verdict) to ≡ true) × (b ≡ recovered_as a to at)
unfolding recover
recover-some a b to at h = (ground (arith, h), ground (arith, h))

is_recovery-IsOk : (v to : Verdict) → is_recovery (some v) to ≡ true → (to ≡ ok) × (v ≢ ok)
is_recovery-IsOk v to h = (ground arith, ground arith)

worse_lem : (v w : Verdict) → (if is_escalation (some v) w then w else v) ≡ worse v w
worse_lem ok w = ground arith
worse_lem warn w = ground arith
worse_lem unknown w = ground arith
worse_lem critical w = ground arith

-- The lifecycle keeps the history of the alert: after any events its verdict is the worst one since it
-- was opened or last cleared, its count is one more than the observations folded in, and it names
-- somebody who muted it exactly when somebody did.
pub Reach-history :
    {sha256 : Text → Text} {o : Observation} {es : List Event} {a : AlertRecord}
    → Reach sha256 o es a
    → (a.current_verdict ≡ worst_since o.identity.to_verdict es)
      × (a.occurrences ≡ suc (sightings es))
      × ((a.acknowledged_by ≢ none) ↔ (is_muted es ≡ true))
unfolding open_alert worst_since sightings is_muted observe acknowledge
Reach-history Reach.opened = (refl, refl, (λ h. absurd (h refl), λ h. cc))
Reach-history (Reach.next {a = a} r (Step.seen x)) =
    let h = Reach-history r in
    (
      worse_lem a.current_verdict x.identity.to_verdict
          ∙ ap (λ v. worse v x.identity.to_verdict) h.0,
      ap suc h.1,
      h.2,
    )
Reach-history (Reach.next r (Step.muted by at)) =
    let h = Reach-history r in (h.0, h.1, (λ _. refl, λ _ k. cc))
Reach-history (Reach.next {es = es} {a = a} {b} r (Step.cleared to at e)) =
    let h = Reach-history r in
    let (q, f) = recover-some a b to at e in
    (
      ap (λ x. x.current_verdict) f ∙ (is_recovery-IsOk a.current_verdict to q).0,
      ap (λ x. x.occurrences) f ∙ h.1,
      subst (λ x. (x.acknowledged_by ≢ none) ↔ (is_muted es ≡ true)) (sym f) h.2,
    )

-- An alert that was opened on a verdict other than OK is closed exactly when its verdict is OK: a
-- repeat, an acknowledgement or a worse observation neither closes a breach nor reopens a closed one
-- without a worse verdict.
pub Reach-recovered_iff :
    {sha256 : Text → Text} {o : Observation} {es : List Event} {a : AlertRecord}
    → o.identity.to_verdict ≢ ok
    → Reach sha256 o es a
    → (a.state ≡ AlertState.recovered) ↔ (a.current_verdict ≡ ok)
unfolding open_alert observe acknowledge
Reach-recovered_iff n Reach.opened = (λ h. cc, λ h. absurd (n h))
Reach-recovered_iff n (Reach.next {a = a} r (Step.seen x)) =
    let h = Reach-recovered_iff n r in (λ k. ground (arith, h.0), λ k. ground (arith, h.1))
Reach-recovered_iff n (Reach.next {a = a} r (Step.muted by at)) =
    let h = Reach-recovered_iff n r in (λ k. ground (arith, h.0), λ k. ground (arith, h.1))
Reach-recovered_iff n (Reach.next {a = a} {b} r (Step.cleared to at e)) =
    let (q, f) = recover-some a b to at e in
    (
      λ _. ap (λ x. x.current_verdict) f ∙ (is_recovery-IsOk a.current_verdict to q).0,
      λ _. ap (λ x. x.state) f,
    )

-- Folding in an observation pages exactly when it is worse than the alert's verdict and the alert is
-- not escalated yet.
pub should_notify-observe_iff :
    (a : AlertRecord) (o : Observation)
    → (should_notify (some a) (observe a o) ≡ true)
      ↔ ((is_worse a o ≡ true) × (a.state ≢ AlertState.escalated))
unfolding should_notify observe
should_notify-observe_iff a o = (λ h. (ground arith, ground arith), λ h. ground arith)
