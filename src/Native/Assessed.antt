-- ===== src/Native/Assessed.antt =====
-- When the native rule claims sufficiency, when it is critical, and what it ignores.
use mathlib.Core.Path.{subst}
use ictt_sentinel.Base.{
  ◌≡◌, ◌≢◌, refl, ap, sym, ◌∙◌, ◌↔◌, ◌⊎◌, inl, inr, ◌≤◌, Bool, true, false, not, ◌&&◌, [], Option,
  none, some, arith, Bool-cases, is_empty_iff,
}
use ictt_sentinel.Base.Int.{ℤ, ◌≤ℤ◌, ◌<ℤ◌, ◌-ℤ◌, ltb_ℤ}
use ictt_sentinel.Inputs.{max_uint256}
use ictt_sentinel.Native.{
  NativeInput, MinterCensus, NativeAssessment, assess_native, judge_bound, against_coverage,
  assess_minter_census, created_of, burned_of, all_present, fee_reasons, lower_exceeds,
}

-- Nobody outside the roster can mint, and all five sources say so for every epoch.
pub record IsExclusive (c : MinterCensus) : Type 0 where
  pub roster : c.manifest_roster_provided ≡ true
  pub genesis : c.genesis_chain_config_read ≡ true
  pub activation : c.activation_rules_known ≡ true
  pub history : c.role_history_complete_from_activation ≡ true
  pub roles : c.all_candidate_roles_read ≡ true
  pub epochs : c.epochs_expected ≤ c.epochs_covered
  pub no_extra_holder : c.unexpected_role_holders ≡ []
  pub no_unauthorised_mint : c.unauthorised_mint_observed ≡ false

-- A minter beyond the roster, or a mint without a role behind it.
abbrev pub HasMinterBreach : MinterCensus → Type 0
HasMinterBreach c = (c.unexpected_role_holders ≢ []) ⊎ (c.unauthorised_mint_observed ≡ true)

-- The four components were read from a known contract, fresh, under the pinned fee semantics, and
-- what was created fits a uint256.
pub record IsMeasured (i : NativeInput) : Type 0 where
  pub recognised : i.components.fingerprint_recognised ≡ true
  pub minted : i.components.total_minted ≢ none
  pub imbalance : i.components.initial_reserve_imbalance ≢ none
  pub fees : i.components.burned_tx_fees_address_balance ≢ none
  pub transfers : i.components.burned_for_transfer_address_balance ≢ none
  pub fresh : i.components.components_fresh ≡ true
  pub rewards : i.fee_reporting.reported_reward_already_in_total_minted ≡ true
  pub bounded : created_of i.components ≤ℤ max_uint256

-- The reported upper bound on the supply.
abbrev pub upper_bound : NativeInput → ℤ
upper_bound i = created_of i.components -ℤ burned_of i.components

established_iff : (c : MinterCensus) → ((assess_minter_census c).established ≡ true) ↔ IsExclusive c
unfolding assess_minter_census
established_iff c = (
  λ h. ground (arith, (is_empty_iff c.unexpected_role_holders).0),
  λ h. ground (arith, (is_empty_iff c.unexpected_role_holders).1),
)

critical_iff : (c : MinterCensus) → ((assess_minter_census c).critical ≡ true) ↔ HasMinterBreach c
unfolding assess_minter_census
critical_iff c = (
  λ h. ground (arith, (is_empty_iff c.unexpected_role_holders).1),
  λ h. ground (arith, (is_empty_iff c.unexpected_role_holders).0),
)

abbrev is_measured : NativeInput → Bool
is_measured i =
    i.components.fingerprint_recognised
    && all_present i.components
    && i.components.components_fresh
    && i.fee_reporting.reported_reward_already_in_total_minted
    && not (ltb_ℤ max_uint256 (created_of i.components))

IsMeasured-iff : (i : NativeInput) → (is_measured i ≡ true) ↔ IsMeasured i
IsMeasured-iff i = (λ h. ground arith, λ h. ground arith)

assess_native-of_measured :
    (i : NativeInput)
    → is_measured i ≡ true
    → assess_native i
      ≡ against_coverage i
          (fee_reasons i)
          (created_of i.components)
          (burned_of i.components)
          i.eligible_home_coverage
unfolding assess_native
assess_native-of_measured i h = ground arith

assess_native-of_unmeasured :
    (i : NativeInput)
    → is_measured i ≡ false
    → ((assess_native i).assessment ≡ NativeAssessment.unknown)
      × ((assess_native i).critical ≡ (assess_minter_census i.census).critical)
unfolding assess_native
assess_native-of_unmeasured i h = (ground arith, ground arith)

established_not_breached :
    (c : MinterCensus)
    → (assess_minter_census c).established ≡ true
    → (assess_minter_census c).critical ≡ false
unfolding assess_minter_census
established_not_breached c h = ground arith

judge_bound-sufficient_iff :
    (i : NativeInput) (u b a : ℤ)
    → ((judge_bound i (fee_reasons i) u b a).assessment ≡ NativeAssessment.sufficient)
      ↔ (((assess_minter_census i.census).established ≡ true) × (u -ℤ b ≤ℤ a))
unfolding judge_bound
judge_bound-sufficient_iff i u b a = (λ h. ground arith, λ h. ground arith)

some_inj : {a b : ℤ} → some a ≡ some b → a ≡ b
some_inj h = cc

lower_exceeds_iff :
    (o : Option ℤ) (a : ℤ) → (lower_exceeds o a ≡ true) ↔ ((l : ℤ) × (o ≡ some l) × (a <ℤ l))
lower_exceeds_iff none a = (λ h. cc, λ h. cc (h.1))
lower_exceeds_iff (some l) a =
    (λ h. (l, refl, ground (arith, h)), λ h. above (subst (λ x. a <ℤ x) (sym (some_inj h.1)) h.2))
  where
    above : a <ℤ l → ltb_ℤ a l ≡ true
    above k = ground (arith, k)

judge_bound-critical_iff :
    (i : NativeInput) (u b a : ℤ)
    → ((judge_bound i (fee_reasons i) u b a).critical ≡ true) ↔ (
        ((assess_minter_census i.census).critical ≡ true)
        ⊎ (((assess_minter_census i.census).established ≡ true)
            × (a <ℤ u -ℤ b)
            × (lower_exceeds i.trustworthy_supply_lower_bound a ≡ true)))
unfolding judge_bound
judge_bound-critical_iff i u b a = (
  λ h. ground (arith, established_not_breached i.census),
  λ h. ground (arith, established_not_breached i.census),
)

-- Coverage was read, and satisfies `P`.
abbrev CoverageIs : Option ℤ → (ℤ → Type 0) → Type 0
CoverageIs o P = (a : ℤ) × (o ≡ some a) × P a

CoverageIs-some : (P : ℤ → Type 0) (a : ℤ) → CoverageIs (some a) P → P a
CoverageIs-some P a h = subst P (sym (some_inj h.1)) h.2

against_coverage-sufficient_iff :
    (i : NativeInput) (u b : ℤ) (o : Option ℤ)
    → ((against_coverage i (fee_reasons i) u b o).assessment ≡ NativeAssessment.sufficient)
      ↔ (((assess_minter_census i.census).established ≡ true) × CoverageIs o (λ a. u -ℤ b ≤ℤ a))
against_coverage-sufficient_iff i u b none = (λ h. cc, λ h. cc (h.1.1))
against_coverage-sufficient_iff i u b (some a) = (
  λ h. let t = (judge_bound-sufficient_iff i u b a).0 h in (t.0, (a, refl, t.1)),
  λ h. (judge_bound-sufficient_iff i u b a).1 (h.0, CoverageIs-some (λ x. u -ℤ b ≤ℤ x) a h.1),
)

-- A lower bound on the supply was established, and exceeds the coverage, which the reported upper
-- bound exceeds too.
abbrev pub HasShortfall : NativeInput → ℤ → Type 0
HasShortfall i a =
    (a <ℤ upper_bound i) × ((l : ℤ) × (i.trustworthy_supply_lower_bound ≡ some l) × (a <ℤ l))

against_coverage-critical_iff :
    (i : NativeInput) (o : Option ℤ)
    → ((against_coverage i
          (fee_reasons i)
          (created_of i.components)
          (burned_of i.components)
          o).critical
        ≡ true)
      ↔ (((assess_minter_census i.census).critical ≡ true)
          ⊎ (((assess_minter_census i.census).established ≡ true) × CoverageIs o (HasShortfall i)))
against_coverage-critical_iff i none = (λ h. inl h, λ h. elim h [ inl k ↦ k | inr k ↦ cc (k.1.1) ])
against_coverage-critical_iff i (some a) = (to, from)
  where
    to :
        (judge_bound i
            (fee_reasons i)
            (created_of i.components)
            (burned_of i.components)
            a).critical
          ≡ true
        → ((assess_minter_census i.census).critical ≡ true)
          ⊎ (((assess_minter_census i.census).established ≡ true)
              × CoverageIs (some a) (HasShortfall i))
    to h =
        elim ((judge_bound-critical_iff i (created_of i.components) (burned_of i.components) a).0
          h) [ inl k ↦ inl k | inr k ↦ inr (k.0, (a, refl, (k.1, (lower_exceeds_iff _ a).0 k.2))) ]

    from :
        ((assess_minter_census i.census).critical ≡ true)
          ⊎ (((assess_minter_census i.census).established ≡ true)
              × CoverageIs (some a) (HasShortfall i))
        → (judge_bound i
            (fee_reasons i)
            (created_of i.components)
            (burned_of i.components)
            a).critical
          ≡ true
    from (inl k) = (judge_bound-critical_iff i _ _ a).1 (inl k)
    from (inr k) =
        let s = CoverageIs-some (HasShortfall i) a k.1 in
        (judge_bound-critical_iff i _ _ a).1 (inr (k.0, s.0, (lower_exceeds_iff _ a).1 s.1))

sufficient_iff :
    (i : NativeInput)
    → ((assess_native i).assessment ≡ NativeAssessment.sufficient) ↔ (
        IsMeasured i
        × IsExclusive i.census
        × ((a : ℤ) × (i.eligible_home_coverage ≡ some a) × (upper_bound i ≤ℤ a)))
sufficient_iff i = elim (Bool-cases (is_measured i)) [
  | inl e ↦ (
    λ h.
        let t =
          (against_coverage-sufficient_iff i _ _ _).0
            (ap (λ r. r.assessment) (sym (assess_native-of_measured i e)) ∙ h) in
        ((IsMeasured-iff i).0 e, (established_iff i.census).0 t.0, t.1),
    λ h.
        ap (λ r. r.assessment) (assess_native-of_measured i e)
        ∙ (against_coverage-sufficient_iff i _ _ _).1 ((established_iff i.census).1 h.1, h.2),
  )
  | inr e ↦
      (λ h. cc ((assess_native-of_unmeasured i e).0, h), λ h. cc (e, (IsMeasured-iff i).1 h.0))
]

-- Where no burned-fee delta was seen reported twice, the native rule claims sufficiency exactly when the
-- bound was measured, nobody outside the roster can mint, and the reported upper bound does not exceed
-- the coverage that was read.
pub assess_native-sufficient_iff :
    (i : NativeInput)
    → i.fee_reporting.duplicate_report_observed ≡ false
    → ((assess_native i).assessment ≡ NativeAssessment.sufficient) ↔ (
        IsMeasured i
        × IsExclusive i.census
        × ((a : ℤ) × (i.eligible_home_coverage ≡ some a) × (upper_bound i ≤ℤ a)))
assess_native-sufficient_iff i _ = sufficient_iff i

-- The native rule is critical exactly when the census shows a minter beyond the roster or a mint
-- without a role, or when the bound was measured, nobody outside the roster can mint, and both the
-- reported upper bound and an established lower bound on the supply exceed the coverage that was read:
-- the upper bound alone never makes it critical.
pub assess_native-critical_iff :
    (i : NativeInput)
    → ((assess_native i).critical ≡ true) ↔ (
        HasMinterBreach i.census
        ⊎ (IsMeasured i
            × IsExclusive i.census
            × ((a : ℤ) × (i.eligible_home_coverage ≡ some a) × HasShortfall i a)))
assess_native-critical_iff i = elim (Bool-cases (is_measured i)) [
  | inl e ↦ (
    λ h.
        elim ((against_coverage-critical_iff i _).0
          (ap (λ r. r.critical) (sym (assess_native-of_measured i e)) ∙ h)) [
            | inl k ↦ inl ((critical_iff i.census).0 k)
            | inr k ↦ inr ((IsMeasured-iff i).0 e, (established_iff i.census).0 k.0, k.1)
          ],
    λ h.
        ap (λ r. r.critical) (assess_native-of_measured i e)
        ∙ (against_coverage-critical_iff i _).1 (elim h [
          | inl k ↦ inl ((critical_iff i.census).1 k)
          | inr k ↦ inr ((established_iff i.census).1 k.1, k.2)
        ]),
  )
  | inr e ↦ (
    λ h. inl ((critical_iff i.census).0 (sym ((assess_native-of_unmeasured i e).1) ∙ h)),
    λ h.
        (assess_native-of_unmeasured i e).1
        ∙ elim h [ inl k ↦ (critical_iff i.census).1 k | inr k ↦ cc (e, (IsMeasured-iff i).1 k.0) ],
  )
]

-- The same input, but the burned-fee delta was seen reported twice.
abbrev pub with_duplicate_report : NativeInput → NativeInput
with_duplicate_report i = record i {
  fee_reporting = record i.fee_reporting { duplicate_report_observed = true };
}

against_coverage-with_duplicate_report :
    (i : NativeInput) (u b : ℤ) (o : Option ℤ)
    → ((against_coverage
          (with_duplicate_report i)
          (fee_reasons (with_duplicate_report i))
          u
          b
          o).assessment
        ≡ (against_coverage i (fee_reasons i) u b o).assessment)
      × ((against_coverage
            (with_duplicate_report i)
            (fee_reasons (with_duplicate_report i))
            u
            b
            o).critical
          ≡ (against_coverage i (fee_reasons i) u b o).critical)
unfolding judge_bound
against_coverage-with_duplicate_report i u b none = (refl, refl)
against_coverage-with_duplicate_report i u b (some a) = (ground arith, ground arith)

-- A burned-fee delta that is reported twice changes neither the assessment nor the critical flag: a
-- sufficient answer stays sufficient.
pub assess_native-with_duplicate_report :
    (i : NativeInput)
    → ((assess_native (with_duplicate_report i)).assessment ≡ (assess_native i).assessment)
      × ((assess_native (with_duplicate_report i)).critical ≡ (assess_native i).critical)
assess_native-with_duplicate_report i = elim (Bool-cases (is_measured i)) [
  | inl e ↦
      let c =
        against_coverage-with_duplicate_report i (created_of i.components) (burned_of i.components)
          i.eligible_home_coverage in
      rw (assess_native-of_measured i e, assess_native-of_measured (with_duplicate_report i) e) c
  | inr e ↦ (
    (assess_native-of_unmeasured (with_duplicate_report i) e).0
        ∙ sym ((assess_native-of_unmeasured i e).0),
    (assess_native-of_unmeasured (with_duplicate_report i) e).1
        ∙ sym ((assess_native-of_unmeasured i e).1),
  )
]
