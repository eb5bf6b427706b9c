-- ===== src/Freshness.antt =====
-- apps/agent/src/freshness.ts: the age of an evaluation degrades its verdict.
use ictt_sentinel.Base.{
  ◌≡◌, ◌≢◌, ◌↔◌, ◌/◌, ◌≤◌, Bool, true, false, not, ◌||◌, List, [], ◌∷◌, arith, if◌then◌else◌,
  Bool-cases, inl, inr, refl,
}
use ictt_sentinel.Base.Int.{ℤ, pos, negsuc, ◌-ℤ◌, ◌+ℤ◌, ◌*ℤ◌, ◌<ℤ◌, ◌≤ℤ◌, ltb_ℤ}
use ictt_sentinel.Domain.{Verdict, ok, warn, unknown, critical, rank}

-- `STALE_REASON` and `EXPIRED_REASON`
pub data FreshnessReason : Type 0 where
  stale_evaluation evaluation_expired : FreshnessReason

pub record FreshnessPolicy : Type 0 where
  pub max_age_seconds : ℤ
  pub expires_after_seconds : ℤ

pub record FreshnessResult : Type 0 where
  pub verdict : Verdict
  pub stale : Bool
  pub reportable : Bool
  pub age_seconds : ℤ
  pub reason_codes : List FreshnessReason

-- `Math.floor(ms / 1000)`
abbrev pub floor_seconds : ℤ → ℤ
floor_seconds (pos n) = pos (n / 1000)
floor_seconds (negsuc n) = negsuc (n / 1000)

-- `degraded`
abbrev pub degraded : Verdict → Verdict
degraded critical = critical
degraded ok = unknown
degraded warn = unknown
degraded unknown = unknown

-- The age of an evaluation, and the two tests on it.
abbrev pub is_beyond : ℤ → ℤ → Bool
is_beyond limit age = ltb_ℤ age (pos 0) || ltb_ℤ limit age

abbrev pub reasons_of : Bool → List FreshnessReason
reasons_of true = stale_evaluation ∷ evaluation_expired ∷ []
reasons_of false = stale_evaluation ∷ []

-- The two answers, of an evaluation that is not stale and of one that is.
abbrev pub aged : Verdict → FreshnessPolicy → ℤ → FreshnessResult
aged verdict policy age =
    if is_beyond policy.max_age_seconds age
    then record {
      verdict = degraded verdict;
      stale = true;
      reportable = not (is_beyond policy.expires_after_seconds age);
      age_seconds = age;
      reason_codes = reasons_of (is_beyond policy.expires_after_seconds age);
    }
    else record {
      verdict = verdict;
      stale = false;
      reportable = true;
      age_seconds = age;
      reason_codes = [];
    }

-- `applyFreshness`
unfoldable pub apply_freshness : Verdict → ℤ → ℤ → FreshnessPolicy → FreshnessResult
apply_freshness verdict observed_at_ms now_ms policy =
    aged verdict policy (floor_seconds (now_ms -ℤ observed_at_ms))

-- Not from the future, and not a whole second older than the limit.
abbrev pub IsWithin : ℤ → ℤ → Type 0
IsWithin limit ms = (pos 0 ≤ℤ ms) × (ms <ℤ (limit +ℤ pos 1) *ℤ pos 1000)

is_beyond_iff : (limit ms : ℤ) → (is_beyond limit (floor_seconds ms) ≡ false) ↔ IsWithin limit ms
unfolding ◌+ℤ◌ ◌*ℤ◌
is_beyond_iff (pos l) (pos n) = (λ h. ground arith, λ h. ground arith)
is_beyond_iff (negsuc l) (pos n) = (λ h. ground arith, λ h. ground arith)
is_beyond_iff (pos l) (negsuc n) = (λ h. ground arith, λ h. ground arith)
is_beyond_iff (negsuc l) (negsuc n) = (λ h. ground arith, λ h. ground arith)

degraded-ok : (v : Verdict) → degraded v ≢ ok
degraded-ok ok e = cc e
degraded-ok warn e = cc e
degraded-ok unknown e = cc e
degraded-ok critical e = cc e

is_beyond_mono : (l m age : ℤ) → l ≤ℤ m → is_beyond l age ≡ false → is_beyond m age ≡ false
is_beyond_mono l m age h e = ground arith

-- A stored OK is reported as OK exactly while it is within the limit: an observation from the future and
-- one that is older degrade it, and no other verdict becomes OK by waiting.
pub apply_freshness-ok_iff :
    (verdict : Verdict) (observed_at_ms now_ms : ℤ) (policy : FreshnessPolicy)
    → ((apply_freshness verdict observed_at_ms now_ms policy).verdict ≡ ok)
      ↔ ((verdict ≡ ok) × IsWithin policy.max_age_seconds (now_ms -ℤ observed_at_ms))
unfolding apply_freshness
apply_freshness-ok_iff verdict observed now policy =
    elim (Bool-cases (is_beyond policy.max_age_seconds (floor_seconds (now -ℤ observed)))) [
      | inl e ↦ rw e (
        λ h. elim (degraded-ok verdict h) [ ],
        λ h. cc (e, (is_beyond_iff policy.max_age_seconds (now -ℤ observed)).1 h.1),
      )
      | inr e ↦
          rw e (λ h. (h, (is_beyond_iff policy.max_age_seconds (now -ℤ observed)).0 e), λ h. h.0)
    ]

-- Where the policy expires an evaluation no earlier than it makes it stale, an evaluation may be reported
-- exactly while it is within the expiry.
pub apply_freshness-reportable_iff :
    (verdict : Verdict) (observed_at_ms now_ms : ℤ) (policy : FreshnessPolicy)
    → policy.max_age_seconds ≤ℤ policy.expires_after_seconds
    → ((apply_freshness verdict observed_at_ms now_ms policy).reportable ≡ true)
      ↔ IsWithin policy.expires_after_seconds (now_ms -ℤ observed_at_ms)
unfolding apply_freshness
apply_freshness-reportable_iff verdict observed now policy ordered =
    let age = floor_seconds (now -ℤ observed) in
    let within = is_beyond_iff policy.expires_after_seconds (now -ℤ observed) in
    elim (Bool-cases (is_beyond policy.max_age_seconds age)) [
      | inl e ↦ rw e (λ h. within.0 (ground (arith, h)), λ h. ground (arith, within.1 h))
      | inr e ↦
          rw e (λ h. within.0 (is_beyond_mono policy.max_age_seconds _ age ordered e), λ h. refl)
    ]

-- Age never makes a verdict less severe, and it leaves a breach a breach.
pub apply_freshness-rank :
    (verdict : Verdict) (observed_at_ms now_ms : ℤ) (policy : FreshnessPolicy)
    → (rank verdict ≤ rank (apply_freshness verdict observed_at_ms now_ms policy).verdict)
      × (((apply_freshness verdict observed_at_ms now_ms policy).verdict ≡ critical)
          ↔ (verdict ≡ critical))
unfolding apply_freshness
apply_freshness-rank verdict observed now policy =
    elim (Bool-cases (is_beyond policy.max_age_seconds (floor_seconds (now -ℤ observed)))) [
      | inl e ↦ rw e (severe verdict)
      | inr e ↦ rw e (omega arith, (λ h. h, λ h. h))
    ]
  where
    severe :
        (v : Verdict) → (rank v ≤ rank (degraded v)) × ((degraded v ≡ critical) ↔ (v ≡ critical))
    severe ok = (omega arith, (λ h. cc h, λ h. cc h))
    severe warn = (omega arith, (λ h. cc h, λ h. cc h))
    severe unknown = (omega arith, (λ h. h, λ h. h))
    severe critical = (omega arith, (λ h. h, λ h. h))
