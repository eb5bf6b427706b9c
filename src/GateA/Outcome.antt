-- ===== src/GateA/Outcome.antt =====
-- When Gate A passes, and when it reports a proven breach.
use mathlib.Core.Path.{subst₂}
use ictt_sentinel.Base.{
  ◌≡◌, ◌≢◌, refl, sym, ap, ◌∙◌, ◌↔◌, inl, inr, true, false, not, List, [], ◌∷◌, Option, none, some,
  arith, any, filter, is_empty, is_empty-filter, All, All-map, All-flat_map_iff,
  is_empty-flat_map_iff, Bool-cases,
}
use ictt_sentinel.Base.Int.{
  ℤ, pos, ◌≤ℤ◌, ◌+ℤ◌, ◌-ℤ◌, sum_ℤ, ltb_ℤ, eqb_ℤ_iff, int_laws, eq_parts, -ℤ_parts,
}
use ictt_sentinel.Inputs.{
  ProofInput, RemoteObservation, PendingEnvelope, CreditedEffect, Direction, home_to_remote,
  remote_to_home,
}
use ictt_sentinel.GateA.{
  GateAOutcome, RemoteReconciliation, evaluate_gate_a, judge, reconcile, reconcile_known,
  reconcile_all, keep_some, reconcile_remote, effect_reasons, effect_reasons_of, mine,
  is_home_to_remote, is_remote_to_home, pending_sum,
}
use ictt_sentinel.GateA.Contract.{
  IsAdmissible, passes_contract, passes_contract_iff, evaluate_gate_a-admissible,
  evaluate_gate_a-refused,
}

-- A credited effect with one authorised source on its own route, credited once.
pub record IsSound (e : CreditedEffect) : Type 0 where
  pub single : e.duplicate_effect ≡ false
  pub authorised : e.has_unique_authorised_source ≡ true
  pub caused : e.causal_source_fact ≢ none
  pub on_route : e.route_matches_source ≡ true

-- What is in flight on the remote's route, in both directions.
abbrev pub in_flight : RemoteObservation → List PendingEnvelope → ℤ
in_flight r pending = sum_ℤ (λ p. p.amount) (mine r pending)

-- The equation of Gate A for one remote: D = S + pending, and S does not exceed D.
abbrev pub Reconciles : List PendingEnvelope → RemoteObservation → Type 0
Reconciles pending r =
    (d s : ℤ)
    → r.transferred_balance ≡ some d
    → r.remote_total_supply ≡ some s
    → (s ≤ℤ d) × (d ≡ s +ℤ in_flight r pending)

-- The directions partition the envelopes of a route.
pub pending_sum_both :
    (ps : List PendingEnvelope)
    → sum_ℤ (λ p. p.amount) (filter is_home_to_remote ps)
        +ℤ sum_ℤ (λ p. p.amount) (filter is_remote_to_home ps)
      ≡ sum_ℤ (λ p. p.amount) ps
unfolding sum_ℤ
pending_sum_both [] = omega int_laws
pending_sum_both (p ∷ ps) = cons_lem p.direction refl (pending_sum_both ps)
  where
    h2r : ℤ
    h2r = sum_ℤ (λ e. e.amount) (filter is_home_to_remote ps)

    r2h : ℤ
    r2h = sum_ℤ (λ e. e.amount) (filter is_remote_to_home ps)

    cons_lem :
        (way : Direction)
        → p.direction ≡ way
        → h2r +ℤ r2h ≡ sum_ℤ (λ e. e.amount) ps
        → sum_ℤ (λ e. e.amount) (filter is_home_to_remote (p ∷ ps))
            +ℤ sum_ℤ (λ e. e.amount) (filter is_remote_to_home (p ∷ ps))
          ≡ p.amount +ℤ sum_ℤ (λ e. e.amount) ps
    cons_lem home_to_remote e ih = rw e (omega (int_laws, eq_parts ih))
    cons_lem remote_to_home e ih = rw e (omega (int_laws, eq_parts ih))

pub effect_iff : (e : CreditedEffect) → (is_empty (effect_reasons_of e) ≡ true) ↔ IsSound e
effect_iff e = (λ h. ground arith, λ h. ground arith)

effects_iff :
    (input : ProofInput) → (is_empty (effect_reasons input) ≡ true) ↔ All IsSound input.effects
unfolding effect_reasons
effects_iff input = (
  λ h.
      All-map _ IsSound input.effects (λ e. (effect_iff e).0)
        ((is_empty-flat_map_iff effect_reasons_of input.effects).0 h),
  λ h.
      (is_empty-flat_map_iff effect_reasons_of input.effects).1
        (All-map IsSound _ input.effects (λ e. (effect_iff e).1) h),
)

-- The reconciliation is not negative, and exact.
some_inj : {a b : ℤ} → some a ≡ some b → a ≡ b
some_inj h = cc

abbrev IsBalanced : RemoteReconciliation → Type 0
IsBalanced r = (ltb_ℤ r.delta (pos 0) ≡ false) × (r.reconciled ≡ true)

IsBalanced-iff :
    (rs : List RemoteReconciliation)
    → ((any (λ r. ltb_ℤ r.delta (pos 0)) rs ≡ false) × (any (λ r. not r.reconciled) rs ≡ false))
      ↔ All IsBalanced rs
IsBalanced-iff [] = (λ _. tt, λ _. (refl, refl))
IsBalanced-iff (r ∷ rs) = (
  λ h. ((ground arith, ground arith), (IsBalanced-iff rs).0 (ground arith, ground arith)),
  λ h. (
    ground (arith, ((IsBalanced-iff rs).1 h.1).0, h.0),
    ground (arith, ((IsBalanced-iff rs).1 h.1).1, h.0),
  ),
)

judge-pass_iff :
    (input : ProofInput) (rs : List RemoteReconciliation)
    → ((judge input rs).outcome ≡ GateAOutcome.pass)
      ↔ ((is_empty (effect_reasons input) ≡ true) × All IsBalanced rs)
unfolding judge
judge-pass_iff input rs = (
  λ h. (
    ground arith,
    (IsBalanced-iff rs).0 (
      ground (arith, empty_negative, empty_mismatched),
      ground (arith, empty_negative, empty_mismatched),
    ),
  ),
  λ h. ground (arith, empty_negative, empty_mismatched, (IsBalanced-iff rs).1 h.1),
)
  where
    empty_negative :
        is_empty (filter (λ r. ltb_ℤ r.delta (pos 0)) rs)
        ≡ not (any (λ r. ltb_ℤ r.delta (pos 0)) rs)
    empty_negative = is_empty-filter (λ r. ltb_ℤ r.delta (pos 0)) rs

    empty_mismatched :
        is_empty (filter (λ r. not r.reconciled) rs) ≡ not (any (λ r. not r.reconciled) rs)
    empty_mismatched = is_empty-filter (λ r. not r.reconciled) rs

reconcile-IsBalanced_iff :
    (r : RemoteObservation) (d s : ℤ) (pending : List PendingEnvelope)
    → IsBalanced (reconcile r d s pending) ↔ ((s ≤ℤ d) × (d ≡ s +ℤ in_flight r pending))
unfolding reconcile
reconcile-IsBalanced_iff r d s pending = (to, from)
  where
    both :
        pending_sum is_home_to_remote r pending +ℤ pending_sum is_remote_to_home r pending
        ≡ in_flight r pending
    both = pending_sum_both (mine r pending)

    to : IsBalanced (reconcile r d s pending) → (s ≤ℤ d) × (d ≡ s +ℤ in_flight r pending)
    to h = (
      ground (arith, -ℤ_parts d s),
      omega (
        int_laws,
        eq_parts both,
        eq_parts (
            (eqb_ℤ_iff (d -ℤ s) (
                pending_sum is_home_to_remote r pending
                +ℤ pending_sum is_remote_to_home r pending)).0
              h.1),
      ),
    )

    from : (s ≤ℤ d) × (d ≡ s +ℤ in_flight r pending) → IsBalanced (reconcile r d s pending)
    from h = (
      ground (arith, -ℤ_parts d s),
      (eqb_ℤ_iff (d -ℤ s)
            (pending_sum is_home_to_remote r pending +ℤ pending_sum is_remote_to_home r pending)).1
          (omega (int_laws, eq_parts both, eq_parts h.1)),
    )

remote_iff :
    (r : RemoteObservation) (pending : List PendingEnvelope)
    → All IsBalanced (keep_some (reconcile_remote r pending)) ↔ Reconciles pending r
remote_iff r pending = known r.transferred_balance r.remote_total_supply
  where
    known :
        (o q : Option ℤ)
        → All IsBalanced (keep_some (reconcile_known r o q pending))
          ↔ ((d s : ℤ) → o ≡ some d → q ≡ some s → (s ≤ℤ d) × (d ≡ s +ℤ in_flight r pending))
    known none q = (λ h d s e f. cc, λ h. tt)
    known (some d) none = (λ h d' s e f. cc, λ h. tt)
    known (some d) (some s) = (
      λ h d' s' e f.
          subst₂ (λ u v. (v ≤ℤ u) × (u ≡ v +ℤ in_flight r pending)) (some_inj e) (some_inj f)
            ((reconcile-IsBalanced_iff r d s pending).0 h.0),
      λ h. ((reconcile-IsBalanced_iff r d s pending).1 (h d s refl refl), tt),
    )

remotes_iff :
    (rs : List RemoteObservation) (pending : List PendingEnvelope)
    → All IsBalanced (reconcile_all rs pending) ↔ All (Reconciles pending) rs
unfolding reconcile_all
remotes_iff rs pending = (
  λ h.
      All-map _ _ rs (λ r. (remote_iff r pending).0)
        ((All-flat_map_iff IsBalanced (λ r. keep_some (reconcile_remote r pending)) rs).0 h),
  λ h.
      (All-flat_map_iff IsBalanced (λ r. keep_some (reconcile_remote r pending)) rs).1
        (All-map _ _ rs (λ r. (remote_iff r pending).1) h),
)

-- Gate A passes exactly when the input contract holds, every credited effect is sound, and on every
-- remote the transferred balance is the remote supply plus what is in flight on its route, and not
-- below that supply.
pub evaluate_gate_a-pass_iff :
    (input : ProofInput)
    → ((evaluate_gate_a input).outcome ≡ GateAOutcome.pass) ↔ (
        IsAdmissible input
        × All IsSound input.effects
        × All (Reconciles input.pending) input.remotes)
evaluate_gate_a-pass_iff input = (to, from)
  where
    to :
        (evaluate_gate_a input).outcome ≡ GateAOutcome.pass
        → IsAdmissible input
          × All IsSound input.effects
          × All (Reconciles input.pending) input.remotes
    to h = elim (Bool-cases (passes_contract input)) [
      | inl e ↦
          let a = (passes_contract_iff input).0 e in
          let t =
            (judge-pass_iff input (reconcile_all input.remotes input.pending)).0
              (ap (λ x. x.outcome) (sym (evaluate_gate_a-admissible input a)) ∙ h) in
          (a, (effects_iff input).0 t.0, (remotes_iff input.remotes input.pending).0 t.1)
      | inr e ↦
          absurd
            ((evaluate_gate_a-refused input (λ a. cc (e, (passes_contract_iff input).1 a))).0 h)
    ]

    from :
        IsAdmissible input
          × All IsSound input.effects
          × All (Reconciles input.pending) input.remotes
        → (evaluate_gate_a input).outcome ≡ GateAOutcome.pass
    from h =
        ap (λ x. x.outcome) (evaluate_gate_a-admissible input h.0)
        ∙ (judge-pass_iff input (reconcile_all input.remotes input.pending)).1
            ((effects_iff input).1 h.1, (remotes_iff input.remotes input.pending).1 h.2)
