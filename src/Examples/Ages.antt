-- ===== src/Examples/Ages.antt =====
-- The theorems on the age of an evaluation, at one that is seven seconds old.
use ictt_sentinel.Base.{◌≡◌, ◌↔◌, true, arith}
use ictt_sentinel.Base.Int.{pos, ◌-ℤ◌, ◌≤ℤ◌}
use ictt_sentinel.Domain.{Verdict}
use ictt_sentinel.Freshness.{
  FreshnessPolicy, apply_freshness, IsWithin, apply_freshness-ok_iff,
  apply_freshness-reportable_iff,
}

abbrev minute : FreshnessPolicy
minute = record { max_age_seconds = pos 60; expires_after_seconds = pos 600 }

apply_freshness-ok_iff_example :
    ((apply_freshness Verdict.ok (pos 1000) (pos 8000) minute).verdict ≡ Verdict.ok)
    ↔ ((Verdict.ok ≡ Verdict.ok) × IsWithin (pos 60) (pos 8000 -ℤ pos 1000))
apply_freshness-ok_iff_example = apply_freshness-ok_iff Verdict.ok (pos 1000) (pos 8000) minute

ordered : pos 60 ≤ℤ pos 600
ordered = omega arith

apply_freshness-reportable_iff_example :
    ((apply_freshness Verdict.warn (pos 1000) (pos 8000) minute).reportable ≡ true)
    ↔ IsWithin (pos 600) (pos 8000 -ℤ pos 1000)
apply_freshness-reportable_iff_example =
    apply_freshness-reportable_iff Verdict.warn (pos 1000) (pos 8000) minute ordered
