-- ===== src/GateA/Ledger.antt =====
-- The bridge route that Gate A's equation describes, as the head comment of gate-a.ts states it: a
-- step relation on the two ledgers and the envelopes in flight. Gate A is judged against it.
use ictt_sentinel.Base.{
  ◌≡◌, refl, sym, ◌∙◌, false, List, [], ◌∷◌, Memᴰ, Permᴰ, some, arith, All, All-mem, All-of_mem,
  Bool-cases, inl, inr,
}
use ictt_sentinel.Base.Int.{
  ℤ, pos, ◌≤ℤ◌, ◌+ℤ◌, ◌-ℤ◌, sum_ℤ, sum_ℤ-perm, sum_ℤ-nonneg, int_laws, eq_parts,
}
use ictt_sentinel.Base.Perm.{All-perm}
use ictt_sentinel.Inputs.{
  ProofInput, RemoteObservation, PendingEnvelope, home_to_remote, remote_to_home,
}
use ictt_sentinel.GateA.{GateAOutcome, evaluate_gate_a, mine}
use ictt_sentinel.GateA.Contract.{IsAdmissible}
use ictt_sentinel.GateA.Outcome.{IsSound, Reconciles, evaluate_gate_a-pass_iff}
use ictt_sentinel.GateA.Breach.{evaluate_gate_a-critical_iff}

-- `balance` is D, `supply` is S; `flights` are the envelopes that are not yet closed.
pub record Route : Type 0 where
  pub balance : ℤ
  pub supply : ℤ
  pub flights : List PendingEnvelope

abbrev pub idle : Route
idle = record { balance = pos 0; supply = pos 0; flights = [] }

-- `_prepareSend`, `_mint`, `_burn` and `_deductSenderBalance`.
pub data Step (t u : Route) : Type 0 where
  send :
      (e : PendingEnvelope)
      → e.direction ≡ home_to_remote
      → pos 0 ≤ℤ e.amount
      → u ≡ record t { balance = t.balance +ℤ e.amount; flights = e ∷ t.flights }
      → Step t u
  mint :
      (e : PendingEnvelope)
      → e.direction ≡ home_to_remote
      → Permᴰ t.flights (e ∷ u.flights)
      → u.balance ≡ t.balance
      → u.supply ≡ t.supply +ℤ e.amount
      → Step t u
  burn :
      (e : PendingEnvelope)
      → e.direction ≡ remote_to_home
      → pos 0 ≤ℤ e.amount
      → u ≡ record t { supply = t.supply -ℤ e.amount; flights = e ∷ t.flights }
      → Step t u
  release :
      (e : PendingEnvelope)
      → e.direction ≡ remote_to_home
      → Permᴰ t.flights (e ∷ u.flights)
      → u.supply ≡ t.supply
      → u.balance ≡ t.balance -ℤ e.amount
      → Step t u

pub data Reach : Route → Type 0 where
  start : Reach idle
  next : {t u : Route} → Reach t → Step t u → Reach u

amounts : List PendingEnvelope → ℤ
amounts = sum_ℤ (λ e. e.amount)

-- D = S + everything in flight, and nothing in flight is negative.
record Inv (t : Route) : Type 0 where
  exact : t.balance ≡ t.supply +ℤ amounts t.flights
  nonneg : All (λ e. pos 0 ≤ℤ e.amount) t.flights

amounts-cons :
    (e : PendingEnvelope) (es : List PendingEnvelope) → amounts (e ∷ es) ≡ e.amount +ℤ amounts es
unfolding amounts sum_ℤ
amounts-cons e es = refl

amounts-perm : {es fs : List PendingEnvelope} → Permᴰ es fs → amounts es ≡ amounts fs
unfolding amounts
amounts-perm p = sum_ℤ-perm (λ e. e.amount) p

Step-Inv : (t u : Route) → Step t u → Inv t → Inv u
Step-Inv t u (send e way nn same) inv = rw same (record {
  exact = omega (int_laws, eq_parts inv.exact, eq_parts (amounts-cons e t.flights));
  nonneg = (nn, inv.nonneg);
})
Step-Inv t u (mint e way p kept grown) inv = record {
  exact = omega (
    int_laws,
    eq_parts inv.exact,
    eq_parts (amounts-perm p),
    eq_parts (amounts-cons e u.flights),
    eq_parts kept,
    eq_parts grown,
  );
  nonneg = (All-perm _ p inv.nonneg).1;
}
Step-Inv t u (burn e way nn same) inv = rw same (record {
  exact = omega (int_laws, eq_parts inv.exact, eq_parts (amounts-cons e t.flights));
  nonneg = (nn, inv.nonneg);
})
Step-Inv t u (release e way p kept shrunk) inv = record {
  exact = omega (
    int_laws,
    eq_parts inv.exact,
    eq_parts (amounts-perm p),
    eq_parts (amounts-cons e u.flights),
    eq_parts kept,
    eq_parts shrunk,
  );
  nonneg = (All-perm _ p inv.nonneg).1;
}

Reach-Inv : {t : Route} → Reach t → Inv t
unfolding amounts sum_ℤ
Reach-Inv start = record { exact = omega int_laws; nonneg = tt }
Reach-Inv (next r s) = Step-Inv _ _ s (Reach-Inv r)

-- The two balances of the remote are those of a route that the protocol can reach.
pub record Observes (r : RemoteObservation) (t : Route) : Type 0 where
  pub reached : Reach t
  pub balance : r.transferred_balance ≡ some t.balance
  pub supply : r.remote_total_supply ≡ some t.supply

some_inj : {a b : ℤ} → some a ≡ some b → a ≡ b
some_inj h = cc

-- On a reachable route the supply never exceeds the balance.
supply-le : (t : Route) → Reach t → t.supply ≤ℤ t.balance
unfolding amounts
supply-le t h =
    let inv = Reach-Inv h in
    omega (int_laws, eq_parts inv.exact, sum_ℤ-nonneg (λ e. e.amount) t.flights inv.nonneg)

-- Gate A never fails a healthy bridge: if every remote shows the balances of a reachable route and
-- every credited effect is sound, the critical flag stays down, whatever envelopes the input lists
-- as pending and however incomplete the rest of the input is.
pub evaluate_gate_a-healthy_not_critical :
    (input : ProofInput)
    → ((r : RemoteObservation) → Memᴰ r input.remotes → (t : Route) × Observes r t)
    → All IsSound input.effects
    → (evaluate_gate_a input).critical ≡ false
evaluate_gate_a-healthy_not_critical input views sound =
    elim (Bool-cases (evaluate_gate_a input).critical) [
      | inl h ↦ elim ((evaluate_gate_a-critical_iff input).0 h).1 [
        | inl (e, m, bad) ↦ absurd (bad (All-mem IsSound sound m))
        | inr (r, m, (d, s, hd, hs, less)) ↦
            let (t, o) = views r m in
            absurd (
              omega (
                arith,
                supply-le t o.reached,
                eq_parts (some_inj (sym hd ∙ o.balance)),
                eq_parts (some_inj (sym hs ∙ o.supply)),
              ))
      ]
      | inr h ↦ h
    ]

-- Gate A passes a healthy bridge once the evidence is complete: if the input contract holds, every
-- credited effect is sound, and every remote shows the balances of a reachable route whose envelopes
-- in flight are, in some order, the pending ones of the remote.
pub evaluate_gate_a-healthy_pass :
    (input : ProofInput)
    → IsAdmissible input
    → All IsSound input.effects
    → ((r : RemoteObservation)
        → Memᴰ r input.remotes
        → (t : Route) × Observes r t × Permᴰ (mine r input.pending) t.flights)
    → (evaluate_gate_a input).outcome ≡ GateAOutcome.pass
unfolding amounts
evaluate_gate_a-healthy_pass input adm sound views =
    (evaluate_gate_a-pass_iff input).1 (adm, sound, All-of_mem _ input.remotes reconciles)
  where
    reconciles : (r : RemoteObservation) → Memᴰ r input.remotes → Reconciles input.pending r
    reconciles r m d s hd hs =
        let (t, o, p) = views r m in
        let inv = Reach-Inv o.reached in
        let ed : d ≡ t.balance = some_inj (sym hd ∙ o.balance) in
        let es : s ≡ t.supply = some_inj (sym hs ∙ o.supply) in
        (
          omega (int_laws, supply-le t o.reached, eq_parts ed, eq_parts es),
          omega (int_laws, eq_parts inv.exact, eq_parts ed, eq_parts es, eq_parts (amounts-perm p)),
        )
