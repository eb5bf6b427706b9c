-- ===== src/GateB/Loop.antt =====
-- The liabilities that the loop of Gate B accumulates.
use mathlib.Core.Path.{subst}
use ictt_sentinel.Base.{◌≡◌, refl, ap, ◌∙◌, List, [], ◌∷◌, Option, none, some, arith, length}
use ictt_sentinel.Base.Int.{ℤ, pos, ◌≤ℤ◌, ◌+ℤ◌, ◌-ℤ◌, sum_ℤ, int_laws}
use ictt_sentinel.Inputs.{RemoteObservation}
use ictt_sentinel.Reason.{acc_a06_arithmetic_out_of_range}
use ictt_sentinel.GateB.{
  RemoteLiability, ScaleOutcome, scaled, refused, to_home_units, Liabilities, all_of, stopped,
  and_then, liability_of, liability_step, liabilities,
}
use ictt_sentinel.GateB.Rounding.{to_home_units-IsRounding}

-- `l` is the liability that the remote's observed balance implies.
abbrev pub IsLiabilityOf : RemoteObservation → RemoteLiability → Type 0
IsLiabilityOf r l =
    (r.transferred_balance ≡ some l.remote_units)
    × (to_home_units l.remote_units r.scale.token_multiplier r.scale.multiply_on_remote
        ≡ scaled l.floor_home_units l.ceil_home_units)
    × (l.dust ≡ l.ceil_home_units -ℤ l.floor_home_units)
    × (l.remote_blockchain_id ≡ r.remote_blockchain_id)
    × (l.remote_address ≡ r.remote_address)

-- One liability for each remote, in order.
abbrev pub AreLiabilitiesOf : List RemoteObservation → List RemoteLiability → Type 0
AreLiabilitiesOf [] [] = Unit
AreLiabilitiesOf [] (_ ∷ _) = ⊥
AreLiabilitiesOf (_ ∷ _) [] = ⊥
AreLiabilitiesOf (r ∷ rs) (l ∷ ls) = IsLiabilityOf r l × AreLiabilitiesOf rs ls

pub some_inj : {a b : ℤ} → some a ≡ some b → a ≡ b
some_inj h = cc

pub all_of_inj : {ks ls : List RemoteLiability} → all_of ks ≡ all_of ls → ks ≡ ls
all_of_inj h = cc

module _ (r : RemoteObservation) (rs : List RemoteObservation) (ls : List RemoteLiability) where
  -- A round that does not stop the loop adds the liability of its remote.
  pub scaled_round :
      (units : ℤ) (out : ScaleOutcome) (rest : Liabilities)
      → r.transferred_balance ≡ some units
      → to_home_units units r.scale.token_multiplier r.scale.multiply_on_remote ≡ out
      → ((ks : List RemoteLiability) → rest ≡ all_of ks → AreLiabilitiesOf rs ks)
      → elim out [
        | scaled floor ceil ↦ and_then (liability_of r units floor ceil) rest
        | refused reason ↦ stopped acc_a06_arithmetic_out_of_range
      ]
        ≡ all_of ls
      → AreLiabilitiesOf (r ∷ rs) ls
  scaled_round units (scaled floor ceil) (all_of ks) e t ih h =
      subst (AreLiabilitiesOf (r ∷ rs)) (all_of_inj h) ((e, t, refl, refl, refl), ih ks refl)
  scaled_round units (scaled floor ceil) (stopped reason) e t ih h = cc
  scaled_round units (refused why) rest e t ih h = cc

  pub round :
      (o : Option ℤ)
      → r.transferred_balance ≡ o
      → ((ks : List RemoteLiability) → liabilities rs ≡ all_of ks → AreLiabilitiesOf rs ks)
      → liability_step r o (liabilities rs) ≡ all_of ls
      → AreLiabilitiesOf (r ∷ rs) ls
  round none e ih h = cc
  round (some units) e ih h = scaled_round units _ (liabilities rs) e refl ih h

pub liabilities_sound :
    (rs : List RemoteObservation) (ls : List RemoteLiability)
    → liabilities rs ≡ all_of ls
    → AreLiabilitiesOf rs ls
unfolding liabilities
liabilities_sound [] [] h = tt
liabilities_sound [] (l ∷ ls) h = cc
liabilities_sound (r ∷ rs) ls h = round r rs ls r.transferred_balance refl (liabilities_sound rs) h

abbrev pub after_scaling : RemoteObservation → ℤ → Liabilities → ScaleOutcome → Liabilities
after_scaling r units rest out = elim out [
  | scaled floor ceil ↦ and_then (liability_of r units floor ceil) rest
  | refused reason ↦ stopped acc_a06_arithmetic_out_of_range
]

pub liabilities_complete :
    (rs : List RemoteObservation) (ls : List RemoteLiability)
    → AreLiabilitiesOf rs ls
    → liabilities rs ≡ all_of ls
unfolding liabilities
liabilities_complete [] [] h = refl
liabilities_complete [] (l ∷ ls) h = elim h [ ]
liabilities_complete (r ∷ rs) [] h = elim h [ ]
liabilities_complete (r ∷ rs) (l ∷ ls) ((e, t, d, i, a), h) =
    ap (λ o. liability_step r o (liabilities rs)) e
    ∙ ap (after_scaling r l.remote_units (liabilities rs)) t
    ∙ ap (and_then (liability_of r l.remote_units l.floor_home_units l.ceil_home_units))
        (liabilities_complete rs ls h)
    ∙ ap (λ k. all_of (k ∷ ls)) same
  where
    same : liability_of r l.remote_units l.floor_home_units l.ceil_home_units ≡ l
    same = ground arith

-- The floors, and the ceilings less one each, lie between the exact liabilities.
pub totals_bounds :
    (rs : List RemoteObservation) (ls : List RemoteLiability)
    → AreLiabilitiesOf rs ls
    → (pos 0 ≤ℤ sum_ℤ (λ l. l.floor_home_units) ls)
      × (sum_ℤ (λ l. l.floor_home_units) ls ≤ℤ sum_ℤ (λ l. l.ceil_home_units) ls)
      × (sum_ℤ (λ l. l.ceil_home_units) ls ≤ℤ sum_ℤ (λ l. l.floor_home_units) ls +ℤ pos (length ls))
unfolding sum_ℤ
totals_bounds [] [] h = (omega arith, omega arith, omega int_laws)
totals_bounds [] (l ∷ ls) h = elim h [ ]
totals_bounds (r ∷ rs) [] h = elim h [ ]
totals_bounds (r ∷ rs) (l ∷ ls) ((e, t, d, i, a), h) =
    let b = to_home_units-IsRounding _ _ _ _ _ t in
    let ih = totals_bounds rs ls h in
    (
      omega (int_laws, b.nonneg, ih.0),
      omega (int_laws, b.ordered, ih.1),
      omega (int_laws, b.near, ih.2),
    )
