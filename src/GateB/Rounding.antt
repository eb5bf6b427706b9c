-- ===== src/GateB/Rounding.antt =====
-- The two roundings of a liability, and that they are those of the ported `TokenScalingUtils`.
use native.Mathlib.Nat.{div-add-mod', mod-lt}
use mathlib.Core.Path.{subst₂}
use ictt_sentinel.Base.{
  ℕ, zero, suc, ◌+◌, ◌*◌, ◌/◌, ◌%◌, ◌≤◌, ◌<◌, ◌≡◌, ◌≢◌, refl, sym, ◌∙◌, ◌==◌, ==_iff, Bool-cases,
  inl, inr, Bool, true, false, arith, if◌then◌else◌,
}
use ictt_sentinel.Base.Int.{ℤ, pos, negsuc, +ℤ_pos, *ℤ_pos, /ℤ_pos, %ℤ_pos, ◌≤ℤ◌, ◌+ℤ◌, ◌*ℤ◌}
use ictt_sentinel.Inputs.{max_uint256}
use ictt_sentinel.Scaling.{
  ScalingResult, ScalingFailure, ok, failed, remove_token_scale, derive_collateral_needed,
}
use ictt_sentinel.GateB.{ScaleOutcome, ScaleFailure, scaled, refused, to_home_units}

-- The failures of the two files under one name.
pub as_scaling_failure : ScaleFailure → ScalingFailure
as_scaling_failure ScaleFailure.overflow = ScalingFailure.overflow
as_scaling_failure ScaleFailure.division_by_zero = ScalingFailure.division_by_zero
as_scaling_failure ScaleFailure.negative = ScalingFailure.negative

pub floor_of : ScaleOutcome → ScalingResult ℤ
floor_of (scaled floor ceil) = ok floor
floor_of (refused reason) = failed (as_scaling_failure reason)

pub ceil_of : ScaleOutcome → ScalingResult ℤ
ceil_of (scaled floor ceil) = ok ceil
ceil_of (refused reason) = failed (as_scaling_failure reason)

-- The duplicated port agrees: the floor of `toHomeUnits`, or its refusal, is what `removeTokenScale`
-- of the adapters answers, for all integers and both directions of scaling.
pub floor-to_home_units :
    (amount multiplier : ℤ) (multiply_on_remote : Bool)
    → floor_of (to_home_units amount multiplier multiply_on_remote)
      ≡ remove_token_scale multiplier multiply_on_remote amount
unfolding floor_of as_scaling_failure to_home_units remove_token_scale
floor-to_home_units amount multiplier true = ground arith
floor-to_home_units amount multiplier false = ground arith

div_bounds : (x y : ℕ) → 0 < y → (x / y * y ≤ x) × (x < x / y * y + y)
div_bounds x y h = omega (arith, div-add-mod' x y, mod-lt x h)

-- The exact value, times the multiplier where the scale divides, lies between the two roundings.
pub record IsRounding (amount multiplier : ℤ) (multiply_on_remote : Bool) (floor ceil : ℤ)
    : Type 0 where
  pub nonneg : pos 0 ≤ℤ floor
  pub ordered : floor ≤ℤ ceil
  pub near : ceil ≤ℤ floor +ℤ pos 1
  pub below : multiply_on_remote ≡ true → floor *ℤ multiplier ≤ℤ amount
  pub above : multiply_on_remote ≡ true → amount ≤ℤ ceil *ℤ multiplier
  pub exact : multiply_on_remote ≡ false → (floor ≡ amount *ℤ multiplier) × (ceil ≡ floor)

ceil_div : ℕ → ℕ → ℕ
ceil_div x y = if x % y == 0 then x / y else x / y + 1

ceil_div_bounds :
    (x y : ℕ) → 0 < y → (x / y ≤ ceil_div x y) × (ceil_div x y ≤ x / y + 1) × (x ≤ ceil_div x y * y)
unfolding ceil_div
ceil_div_bounds x y h = elim (Bool-cases (x % y == 0)) [
  | inl e ↦ rw e (omega arith, omega arith, omega (arith, div-add-mod' x y, (==_iff (x % y) 0).0 e))
  | inr e ↦ rw e (omega arith, omega arith, omega (arith, div-add-mod' x y, mod-lt x h))
]

IsRounding-div :
    (x y : ℕ) → 0 < y → IsRounding (pos x) (pos y) true (pos (x / y)) (pos (ceil_div x y))
IsRounding-div x y h = record {
  nonneg = omega arith;
  ordered = omega (arith, ceil_div_bounds x y h);
  near = rw (+ℤ_pos (x / y) 1) (omega (arith, ceil_div_bounds x y h));
  below = λ _. rw (*ℤ_pos (x / y) y) (omega (arith, div_bounds x y h));
  above = λ _. rw (*ℤ_pos (ceil_div x y) y) (omega (arith, ceil_div_bounds x y h));
  exact = λ e. cc;
}

IsRounding-mul : (x y : ℕ) → IsRounding (pos x) (pos y) false (pos (x * y)) (pos (x * y))
IsRounding-mul x y = record {
  nonneg = omega arith;
  ordered = omega arith;
  near = rw (+ℤ_pos (x * y) 1) (omega arith);
  below = λ h. cc;
  above = λ h. cc;
  exact = λ h. (sym (*ℤ_pos x y), refl);
}

-- What `toHomeUnits` computes where it does not refuse.
to_home_units_div :
    (x y : ℕ)
    → 0 < y
    → to_home_units (pos x) (pos y) true ≡ scaled (pos (x / y)) (pos (ceil_div x y))
unfolding to_home_units ceil_div
to_home_units_div x y h = ground (arith, /ℤ_pos x y, %ℤ_pos x y, +ℤ_pos (x / y) 1)

to_home_units_mul :
    (x y : ℕ) (floor ceil : ℤ)
    → to_home_units (pos x) (pos y) false ≡ scaled floor ceil
    → (floor ≡ pos (x * y)) × (ceil ≡ pos (x * y))
unfolding to_home_units
to_home_units_mul x y floor ceil h = (ground (arith, *ℤ_pos x y), ground (arith, *ℤ_pos x y))

scaled_inj : {a b c d : ℤ} → scaled a b ≡ scaled c d → (a ≡ c) × (b ≡ d)
scaled_inj h = (cc, cc)

-- Whatever `toHomeUnits` answers brackets the exact amount: the floor is not negative, the ceiling
-- is at most one above it, a division lies between the two, and a multiplication is exact.
pub to_home_units-IsRounding :
    (amount multiplier : ℤ) (multiply_on_remote : Bool) (floor ceil : ℤ)
    → to_home_units amount multiplier multiply_on_remote ≡ scaled floor ceil
    → IsRounding amount multiplier multiply_on_remote floor ceil
unfolding to_home_units
to_home_units-IsRounding (negsuc x) m b floor ceil h = absurd (ground arith)
to_home_units-IsRounding (pos x) (negsuc y) b floor ceil h = absurd (ground arith)
to_home_units-IsRounding (pos x) (pos zero) true floor ceil h = absurd (ground arith)
to_home_units-IsRounding (pos x) (pos (suc y)) true floor ceil h =
    let e = scaled_inj (sym (to_home_units_div x (suc y) (omega arith)) ∙ h) in
    subst₂ (IsRounding (pos x) (pos (suc y)) true) e.0 e.1 (IsRounding-div x (suc y) (omega arith))
to_home_units-IsRounding (pos x) (pos y) false floor ceil h =
    let e = to_home_units_mul x y floor ceil h in
    subst₂ (IsRounding (pos x) (pos y) false) (sym e.0) (sym e.1) (IsRounding-mul x y)

rounded_le : (x y : ℕ) → 0 < y → x % y ≢ 0 → x / y + 1 ≤ x
rounded_le x zero h k = elim h [ ]
rounded_le x (suc y) h k = grind (arith, div-add-mod' x (suc y))

-- The ceiling is the collateral that `deriveCollateralNeeded` of the adapters asks for the same
-- amount, for every amount in the uint256 range.
pub ceil-to_home_units :
    (amount multiplier : ℤ) (multiply_on_remote : Bool)
    → amount ≤ℤ max_uint256
    → ceil_of (to_home_units amount multiplier multiply_on_remote)
      ≡ derive_collateral_needed multiplier multiply_on_remote amount
unfolding ceil_of as_scaling_failure to_home_units derive_collateral_needed remove_token_scale
ceil-to_home_units amount multiplier false h = ground arith
ceil-to_home_units (negsuc x) m true h = ground arith
ceil-to_home_units (pos x) (negsuc y) true h = ground arith
ceil-to_home_units (pos x) (pos zero) true h = ground arith
ceil-to_home_units (pos x) (pos (suc y)) true h = ground (
  arith,
  /ℤ_pos x (suc y),
  %ℤ_pos x (suc y),
  +ℤ_pos (x / suc y) 1,
  rounded_le x (suc y) (omega arith),
)
