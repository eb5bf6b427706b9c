-- ===== src/GateA/Breach.antt =====
-- When Gate A reports a proven breach.
use ictt_sentinel.Base.{
  ◌≡◌, refl, sym, ap, ◌∙◌, ◌↔◌, ◌⊎◌, inl, inr, Bool, true, false, not, List, Memᴰ, Option, none,
  some, arith, any, is_empty, is_empty-filter, any-witness, any-of_mem, any-flat_map,
  is_empty-flat_map, Bool-cases,
}
use ictt_sentinel.Base.Int.{ℤ, pos, ◌<ℤ◌, ltb_ℤ, -ℤ_parts}
use ictt_sentinel.Inputs.{ProofInput, RemoteObservation, PendingEnvelope, CreditedEffect}
use ictt_sentinel.GateA.{
  GateAOutcome, RemoteReconciliation, evaluate_gate_a, judge, reconcile, reconcile_known,
  reconcile_all, keep_some, reconcile_remote, effect_reasons, effect_reasons_of,
}
use ictt_sentinel.GateA.Contract.{
  IsAdmissible, passes_contract, passes_contract_iff, evaluate_gate_a-admissible,
  evaluate_gate_a-refused,
}
use ictt_sentinel.GateA.Outcome.{IsSound, effect_iff}

-- The remote represents more than the home chain accounts for: S > D.
abbrev pub Exceeds : RemoteObservation → Type 0
Exceeds r =
    (d : ℤ) × (s : ℤ) × (r.transferred_balance ≡ some d)
    × (r.remote_total_supply ≡ some s)
    × (d <ℤ s)

-- Evidence of a breach: an unsound credited effect, or an excess representation.
abbrev pub HasBreach : ProofInput → Type 0
HasBreach input =
    ((e : CreditedEffect) × Memᴰ e input.effects × ¬ IsSound e)
    ⊎ ((r : RemoteObservation) × Memᴰ r input.remotes × Exceeds r)

is_negative : RemoteReconciliation → Bool
is_negative r = ltb_ℤ r.delta (pos 0)

judge-critical :
    (input : ProofInput) (rs : List RemoteReconciliation)
    → ((judge input rs).critical ≡ true)
      ↔ ((is_empty (effect_reasons input) ≡ false) ⊎ (any is_negative rs ≡ true))
unfolding judge is_negative
judge-critical input rs = (
  λ h. ground (arith, is_empty-filter is_negative rs),
  λ h. ground (arith, is_empty-filter is_negative rs),
)

judge-fail :
    (input : ProofInput) (rs : List RemoteReconciliation)
    → ((judge input rs).outcome ≡ GateAOutcome.fail) ↔ ((judge input rs).critical ≡ true)
unfolding judge
judge-fail input rs = (λ h. ground arith, λ h. ground arith)

some_inj : {a b : ℤ} → some a ≡ some b → a ≡ b
some_inj h = cc

negative_iff :
    (r : RemoteObservation) (pending : List PendingEnvelope)
    → (any is_negative (keep_some (reconcile_remote r pending)) ≡ true) ↔ Exceeds r
unfolding is_negative reconcile
negative_iff r pending = known r.transferred_balance r.remote_total_supply
  where
    known :
        (o q : Option ℤ)
        → (any is_negative (keep_some (reconcile_known r o q pending)) ≡ true)
          ↔ ((d : ℤ) × (s : ℤ) × (o ≡ some d) × (q ≡ some s) × (d <ℤ s))
    known none q = (λ h. cc, λ h. cc)
    known (some d) none = (λ h. cc, λ h. cc)
    known (some d) (some s) = (
      λ h. (d, s, refl, refl, ground (arith, -ℤ_parts d s)),
      λ h. ground (arith, -ℤ_parts d s, some_inj h.2, some_inj h.3, h.4),
    )

effects_breach :
    (input : ProofInput)
    → (is_empty (effect_reasons input) ≡ false)
      ↔ ((e : CreditedEffect) × Memᴰ e input.effects × ¬ IsSound e)
unfolding effect_reasons
effects_breach input = (to, from)
  where
    tested :
        is_empty (effect_reasons input)
        ≡ not (any (λ e. not (is_empty (effect_reasons_of e))) input.effects)
    tested = is_empty-flat_map effect_reasons_of input.effects

    to :
        is_empty (effect_reasons input) ≡ false
        → (e : CreditedEffect) × Memᴰ e input.effects × ¬ IsSound e
    to h =
        let (e, m, t) =
          any-witness (λ e. not (is_empty (effect_reasons_of e))) input.effects
            (ground (arith, tested)) in
        (e, m, λ k. ground (arith, (effect_iff e).1 k))

    from :
        (e : CreditedEffect) × Memᴰ e input.effects × ¬ IsSound e
        → is_empty (effect_reasons input) ≡ false
    from (e, m, bad) = elim (Bool-cases (is_empty (effect_reasons_of e))) [
      | inl t ↦ absurd (bad ((effect_iff e).0 t))
      | inr t ↦
          ground (arith, tested, any-of_mem (λ e. not (is_empty (effect_reasons_of e))) m (rw t))
    ]

excess_iff :
    (rs : List RemoteObservation) (pending : List PendingEnvelope)
    → (any is_negative (reconcile_all rs pending) ≡ true)
      ↔ ((r : RemoteObservation) × Memᴰ r rs × Exceeds r)
unfolding reconcile_all
excess_iff rs pending = (to, from)
  where
    tested :
        any is_negative (reconcile_all rs pending)
        ≡ any (λ r. any is_negative (keep_some (reconcile_remote r pending))) rs
    tested = any-flat_map is_negative (λ r. keep_some (reconcile_remote r pending)) rs

    to :
        any is_negative (reconcile_all rs pending) ≡ true
        → (r : RemoteObservation) × Memᴰ r rs × Exceeds r
    to h = let (r, m, t) = any-witness _ rs (sym tested ∙ h) in (r, m, (negative_iff r pending).0 t)

    from :
        (r : RemoteObservation) × Memᴰ r rs × Exceeds r
        → any is_negative (reconcile_all rs pending) ≡ true
    from (r, m, e) = tested ∙ any-of_mem _ m ((negative_iff r pending).1 e)

-- Gate A raises its critical flag exactly when the input contract holds and the evidence shows a
-- breach: a credited effect that is not sound, or a remote whose supply exceeds its transferred
-- balance.
pub evaluate_gate_a-critical_iff :
    (input : ProofInput)
    → ((evaluate_gate_a input).critical ≡ true) ↔ (IsAdmissible input × HasBreach input)
evaluate_gate_a-critical_iff input = (to, from)
  where
    rs : List RemoteReconciliation
    rs = reconcile_all input.remotes input.pending

    to : (evaluate_gate_a input).critical ≡ true → IsAdmissible input × HasBreach input
    to h = elim (Bool-cases (passes_contract input)) [
      | inl e ↦
          let a = (passes_contract_iff input).0 e in
          (
            a,
            elim ((judge-critical input rs).0
                (ap (λ x. x.critical) (sym (evaluate_gate_a-admissible input a)) ∙ h)) [
                  | inl t ↦ inl ((effects_breach input).0 t)
                  | inr t ↦ inr ((excess_iff input.remotes input.pending).0 t)
                ],
          )
      | inr e ↦
          cc (h, (evaluate_gate_a-refused input (λ a. cc (e, (passes_contract_iff input).1 a))).2)
    ]

    from : IsAdmissible input × HasBreach input → (evaluate_gate_a input).critical ≡ true
    from (a, b) =
        ap (λ x. x.critical) (evaluate_gate_a-admissible input a)
        ∙ (judge-critical input rs).1 (elim b [
          | inl e ↦ inl ((effects_breach input).1 e)
          | inr r ↦ inr ((excess_iff input.remotes input.pending).1 r)
        ])

-- The outcome is FAIL exactly when the critical flag is raised, for every input.
pub evaluate_gate_a-fail_iff :
    (input : ProofInput)
    → ((evaluate_gate_a input).outcome ≡ GateAOutcome.fail)
      ↔ ((evaluate_gate_a input).critical ≡ true)
unfolding evaluate_gate_a
evaluate_gate_a-fail_iff input = (
  λ h. ground (arith, (judge-fail input (reconcile_all input.remotes input.pending)).0),
  λ h. ground (arith, (judge-fail input (reconcile_all input.remotes input.pending)).1),
)
