-- ===== src/Drift/Assessed.antt =====
-- What the assessment of a baseline says of its observations.
use ictt_sentinel.Base.{
  ◌≡◌, ◌≢◌, refl, sym, ap, ◌∙◌, ◌↔◌, ◌⊎◌, Bool, true, false, not, ◌&&◌, ◌||◌, List, [], ◌∷◌, Memᴰ,
  arith, any, is_empty, is_empty_iff, any-witness, any-of_mem, any-false_iff, All, All-map,
}
use ictt_sentinel.Drift.{
  DriftObservation, DriftStatus, is_drift, is_unknown, is_candidate, is_critical_control,
  assess_drift,
}

-- A required control of a critical kind has drifted.
abbrev pub IsBreach : DriftObservation → Type 0
IsBreach o =
    (o.required ≡ true) × (o.status ≡ DriftStatus.drift) × (is_critical_control o.control ≡ true)

breach_test : DriftObservation → Bool
breach_test o = o.required && (is_drift o && is_critical_control o.control)

breach_test-IsBreach : (o : DriftObservation) → breach_test o ≡ true → IsBreach o
unfolding breach_test
breach_test-IsBreach o h = (ground arith, ground arith, ground arith)

critical-lem : (os : List DriftObservation) → (assess_drift os).critical ≡ any breach_test os
unfolding assess_drift breach_test
critical-lem [] = refl
critical-lem (o ∷ os) = ground (arith, critical-lem os)

-- The result is critical exactly when some required control of a critical kind has drifted: neither
-- a candidate, nor an unknown, nor an optional control raises it.
pub assess_drift-critical_iff :
    (os : List DriftObservation)
    → ((assess_drift os).critical ≡ true) ↔ ((o : DriftObservation) × Memᴰ o os × IsBreach o)
unfolding breach_test
assess_drift-critical_iff os = (
  λ h.
      let (o, m, t) = any-witness breach_test os (sym (critical-lem os) ∙ h) in
      (o, m, breach_test-IsBreach o t),
  λ h. critical-lem os ∙ any-of_mem breach_test h.1 (tested h.0 h.2),
)
  where
    tested : (o : DriftObservation) → IsBreach o → breach_test o ≡ true
    tested o b = ground (arith, b.0, b.1, b.2)

-- The observation does not stand in the way: it is optional, or a match, or a candidate.
abbrev pub IsTolerated : DriftObservation → Type 0
IsTolerated o =
    o.required ≡ true → (o.status ≡ DriftStatus.matched) ⊎ (o.status ≡ DriftStatus.candidate)

blocked_test : DriftObservation → Bool
blocked_test o = o.required && (is_drift o || is_unknown o)

blocked_test-IsTolerated : (o : DriftObservation) → (blocked_test o ≡ false) ↔ IsTolerated o
unfolding blocked_test
blocked_test-IsTolerated o = (λ h k. ground (arith, h, k), λ h. ground (arith, h))

established-lem :
    (os : List DriftObservation)
    → (assess_drift os).all_required_established ≡ not (any blocked_test os)
unfolding assess_drift blocked_test
established-lem [] = refl
established-lem (o ∷ os) = ground (arith, established-lem os)

-- All required controls count as established exactly when each of them is a match or a candidate: a
-- required control that is only a candidate for review does not hold this flag back.
pub assess_drift-established_iff :
    (os : List DriftObservation)
    → ((assess_drift os).all_required_established ≡ true) ↔ All IsTolerated os
assess_drift-established_iff os = (
  λ h.
      All-map _ IsTolerated os (λ o. (blocked_test-IsTolerated o).0)
        ((any-false_iff blocked_test os).0 (ground (arith, established-lem os, h))),
  λ h.
      established-lem os
      ∙ ap not (
          (any-false_iff blocked_test os).1
            (All-map IsTolerated _ os (λ o. (blocked_test-IsTolerated o).1) h)),
)

noisy_test : DriftObservation → Bool
noisy_test o = is_candidate o || blocked_test o

silent-lem :
    (os : List DriftObservation) → is_empty (assess_drift os).reasons ≡ not (any noisy_test os)
unfolding assess_drift noisy_test blocked_test
silent-lem [] = refl
silent-lem (o ∷ os) = ground (arith, silent-lem os)

IsQuiet-iff :
    (o : DriftObservation)
    → (noisy_test o ≡ false)
      ↔ ((o.status ≢ DriftStatus.candidate) × (o.required ≡ true → o.status ≡ DriftStatus.matched))
unfolding noisy_test blocked_test
IsQuiet-iff o =
    (λ h. (λ e. ground (arith, h, e), λ k. ground (arith, h, k)), λ h. ground (arith, h.0, h.1))

-- No reason is given exactly when every required control is a match and no observation at all is a
-- candidate.
pub assess_drift-silent_iff :
    (os : List DriftObservation)
    → ((assess_drift os).reasons ≡ [])
      ↔ All
          (λ o.
            (o.status ≢ DriftStatus.candidate)
            × (o.required ≡ true → o.status ≡ DriftStatus.matched))
          os
assess_drift-silent_iff os = (
  λ h.
      All-map _ _ os (λ o. (IsQuiet-iff o).0)
        ((any-false_iff noisy_test os).0 (flip (sym (silent-lem os) ∙ (is_empty_iff _).1 h))),
  λ h. (is_empty_iff _).0 (
      silent-lem os
      ∙ ap not ((any-false_iff noisy_test os).1 (All-map _ _ os (λ o. (IsQuiet-iff o).1) h))),
)
  where
    flip : {b : Bool} → not b ≡ true → b ≡ false
    flip h = ground arith
