-- ===== src/Verdict/Status.antt =====
-- When `aggregate` answers each protocol status.
use ictt_sentinel.Base.{
  ℕ, ◌≤◌, ◌≡◌, refl, ◌↔◌, ◌≢◌, Bool, true, false, not, List, [], ◌∷◌, Memᴰ, arith, any, filter,
  is_empty, All, if◌then◌else◌, ◌||◌, any-witness, any-of_mem, is_empty-filter, map,
}
use ictt_sentinel.Verdict.{
  ProtocolStatus, DataStatus, CoverageState, RuleResult, RuleContribution, AggregationInput,
  aggregate, status_of, blocks, deviates, data_is_complete, coverage_is_complete,
}

is_empty-map {ℓ κ} :
    {A : Type ℓ} {B : Type κ} (f : A → B) (xs : List A) → is_empty (map f xs) ≡ is_empty xs
is_empty-map f [] = refl
is_empty-map f (x ∷ xs) = refl

is_empty-eq-nil {ℓ} : {A : Type ℓ} (xs : List A) → (is_empty xs ≡ true) ↔ (xs ≡ [])
is_empty-eq-nil [] = (λ _. refl, λ _. refl)
is_empty-eq-nil (x ∷ xs) = (λ h. cc, λ h. cc)

-- A contribution that stands in the way of no status: not a breach, not an unestablished required
-- rule, and not a failure.
pub record IsPassing (c : RuleContribution) : Type 0 where
  pub no_breach : c.critical ≡ false
  pub established :
      c.required ≡ true → (c.result ≢ RuleResult.unknown) × (c.result ≢ RuleResult.unsupported)
  pub no_failure : c.result ≢ RuleResult.fail

-- Every control complete, fresh and passing.
pub record IsClean (input : AggregationInput) : Type 0 where
  pub all_passing : All IsPassing input.contributions
  pub none_missing : input.missing_required_evaluations ≡ []
  pub not_expired : input.previous_ok_expired ≡ false
  pub no_fault : input.evaluation_faults ≡ []
  pub data_complete : input.data_status ≡ DataStatus.complete
  pub coverage_complete : input.coverage ≡ CoverageState.complete

IsPassing-iff :
    (c : RuleContribution)
    → IsPassing c ↔ ((c.critical ≡ false) × (blocks c ≡ false) × (deviates c ≡ false))
IsPassing-iff c = (λ p. ground arith, λ p. ground arith)

IsPassing-all :
    (cs : List RuleContribution)
    → All IsPassing cs
      ↔ ((any (λ c. c.critical) cs ≡ false) × (any blocks cs ≡ false) × (any deviates cs ≡ false))
IsPassing-all [] = (λ _. (refl, refl, refl), λ _. tt)
IsPassing-all (c ∷ cs) = (
  λ h. ground (arith, (IsPassing-iff c).0 h.0, (IsPassing-all cs).0 h.1),
  λ h. ((IsPassing-iff c).1 (ground arith), (IsPassing-all cs).1 (ground arith)),
)

-- The tests of `aggregate`, on the contributions instead of on the lists of rule ids.
unfoldable pub status_of_tests : AggregationInput → ProtocolStatus
status_of_tests input =
    if any (λ c. c.critical) input.contributions
    then ProtocolStatus.critical
    else if any blocks input.contributions
        || not (is_empty input.missing_required_evaluations)
        || input.previous_ok_expired
        || not (is_empty input.evaluation_faults)
        || not (data_is_complete input.data_status)
        || not (coverage_is_complete input.coverage)
    then ProtocolStatus.unknown
    else if any deviates input.contributions
    then ProtocolStatus.warn
    else ProtocolStatus.ok

not-not : (b : Bool) → not (not b) ≡ b
not-not true = refl
not-not false = refl

pub status_of-tests : (input : AggregationInput) → status_of input ≡ status_of_tests input
unfolding status_of status_of_tests
status_of-tests input = rw (
  is_empty-map (λ c. c.rule_id) (filter (λ c. c.critical) input.contributions),
  is_empty-filter (λ c. c.critical) input.contributions,
  is_empty-map (λ c. c.rule_id) (filter blocks input.contributions),
  is_empty-filter blocks input.contributions,
  not-not (any (λ c. c.critical) input.contributions),
  not-not (any blocks input.contributions),
)

pub protocol_status-aggregate :
    (input : AggregationInput) → (aggregate input).protocol_status ≡ status_of_tests input
unfolding aggregate
protocol_status-aggregate input = status_of-tests input

-- `aggregate` answers OK exactly when no contribution is a breach, an unestablished required rule or
-- a failure, nothing required is missing or expired, no fault was raised, and both the data and the
-- coverage are complete.
pub aggregate-ok_iff :
    (input : AggregationInput)
    → ((aggregate input).protocol_status ≡ ProtocolStatus.ok) ↔ IsClean input
unfolding status_of_tests
aggregate-ok_iff input = (to, from)
  where
    to : (aggregate input).protocol_status ≡ ProtocolStatus.ok → IsClean input
    to h = record {
      all_passing =
          (IsPassing-all input.contributions).1 (ground (arith, protocol_status-aggregate input));
      none_missing = (is_empty-eq-nil _).0 (ground (arith, protocol_status-aggregate input));
      not_expired = ground (arith, protocol_status-aggregate input);
      no_fault = (is_empty-eq-nil _).0 (ground (arith, protocol_status-aggregate input));
      data_complete = ground (arith, protocol_status-aggregate input);
      coverage_complete = ground (arith, protocol_status-aggregate input);
    }

    from : IsClean input → (aggregate input).protocol_status ≡ ProtocolStatus.ok
    from h = ground (
      arith,
      protocol_status-aggregate input,
      (IsPassing-all input.contributions).0 h.all_passing,
    )

-- A proven breach is never downgraded: `aggregate` answers CRITICAL exactly when some contribution
-- is a breach, whatever else the input holds.
pub aggregate-critical_iff :
    (input : AggregationInput)
    → ((aggregate input).protocol_status ≡ ProtocolStatus.critical)
      ↔ ((c : RuleContribution) × Memᴰ c input.contributions × (c.critical ≡ true))
unfolding status_of_tests
aggregate-critical_iff input = (
  λ h. any-witness _ input.contributions (ground (arith, protocol_status-aggregate input)),
  λ h. ground (arith, protocol_status-aggregate input, any-of_mem (λ c. c.critical) h.1 h.2),
)

-- The severity by which the domain ranks the four statuses.
pub severity : ProtocolStatus → ℕ
severity ProtocolStatus.ok = 0
severity ProtocolStatus.warn = 1
severity ProtocolStatus.unknown = 2
severity ProtocolStatus.critical = 3

-- Fail-closed: with one more contribution, whatever it says, the status is at least as severe.
pub severity-aggregate_mono :
    (input : AggregationInput) (c : RuleContribution)
    → severity (aggregate input).protocol_status
      ≤ severity
          (aggregate (record input { contributions = c ∷ input.contributions })).protocol_status
unfolding status_of_tests severity
severity-aggregate_mono input c = ground (
  arith,
  protocol_status-aggregate input,
  protocol_status-aggregate (record input { contributions = c ∷ input.contributions }),
)
