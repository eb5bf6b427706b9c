-- ===== src/Scaling/RoundTrip.antt =====
-- A transfer scaled to the remote and back, and the collateral of a remote.
use native.Mathlib.Nat.{div-add-mod', mod-lt, mul-div_cancel}
use ictt_sentinel.Base.{
  ℕ, zero, suc, ◌+◌, ◌*◌, ◌/◌, ◌%◌, ◌≤◌, ◌<◌, ◌≡◌, refl, ◌⊎◌, inl, inr, Bool, true, false, arith,
  if◌then◌else◌, ltb, ◌==◌, ==_iff, Bool-cases,
}
use ictt_sentinel.Base.Int.{pos, pos_part, ltb_ℤ, *ℤ_pos, /ℤ_pos, %ℤ_pos, +ℤ_pos}
use ictt_sentinel.Inputs.{max_uint256}
use ictt_sentinel.Scaling.{
  ok, failed, overflow, scale_tokens, apply_token_scale, remove_token_scale,
  derive_collateral_needed, round_up,
}

pub max_lem : (x : ℕ) → (ltb_ℤ max_uint256 (pos x) ≡ false) → x ≤ pos_part max_uint256
max_lem x h = ground arith

multiplied :
    (y x : ℕ)
    → x * y ≤ pos_part max_uint256
    → (mr : Bool) → scale_tokens (pos y) mr (pos x) mr ≡ ok (pos (x * y))
unfolding scale_tokens
multiplied y x h true = rw (*ℤ_pos x y) (ground (arith, h))
multiplied y x h false = rw (*ℤ_pos x y) (ground (arith, h))

divided_home : (y x : ℕ) → 0 < y → scale_tokens (pos y) true (pos x) false ≡ ok (pos (x / y))
unfolding scale_tokens
divided_home y x h = rw (/ℤ_pos x y) (ground (arith, h))

divided_remote : (y x : ℕ) → 0 < y → scale_tokens (pos y) false (pos x) true ≡ ok (pos (x / y))
unfolding scale_tokens
divided_remote y x h = rw (/ℤ_pos x y) (ground (arith, h))

overflows :
    (y x : ℕ)
    → pos_part max_uint256 < x * y
    → apply_token_scale (pos y) true (pos x) ≡ failed overflow
unfolding apply_token_scale scale_tokens
overflows y x h = rw (*ℤ_pos x y) (ground (arith, h))

quotient_bounds : (x y : ℕ) → 0 < y → (x / y * y ≤ x) × (x < x / y * y + y)
quotient_bounds x y h = omega (arith, div-add-mod' x y, mod-lt x h)

mul_cancel : (x y : ℕ) → 0 < y → x * y / y ≡ x
mul_cancel x y h = mul-div_cancel x h

-- Scaling to the remote and back: with a positive multiplier, an amount that fits in a uint256
-- either overflows on the way out, which only multiplication does, or comes back as at most the
-- amount, short of it by less than one multiplier; where the remote multiplies, it comes back whole.
pub remove_token_scale-apply :
    (x y : ℕ) (multiply_on_remote : Bool)
    → 0 < y
    → x ≤ pos_part max_uint256
    → ((apply_token_scale (pos y) multiply_on_remote (pos x) ≡ failed overflow)
        × (multiply_on_remote ≡ true)
        × (pos_part max_uint256 < x * y))
      ⊎ ((r : ℕ) × (b : ℕ) × (apply_token_scale (pos y) multiply_on_remote (pos x) ≡ ok (pos r))
          × (remove_token_scale (pos y) multiply_on_remote (pos r) ≡ ok (pos b))
          × (b ≤ x)
          × (x < b + y)
          × (multiply_on_remote ≡ true → b ≡ x))
unfolding apply_token_scale remove_token_scale
remove_token_scale-apply x y true h k = elim (Bool-cases (ltb (pos_part max_uint256) (x * y))) [
  | inl e ↦ inl (overflows y x (ground (arith, e)), refl, ground (arith, e))
  | inr e ↦ inr (
    x * y,
    x * y / y,
    multiplied y x (ground (arith, e)) true,
    divided_home y (x * y) h,
    omega (arith, mul_cancel x y h),
    omega (arith, mul_cancel x y h),
    λ _. mul_cancel x y h,
  )
]
remove_token_scale-apply x y false h k =
    let q = quotient_bounds x y h in
    inr (
      x / y,
      x / y * y,
      divided_remote y x h,
      multiplied y (x / y) (omega (arith, q, k)) false,
      q.0,
      q.1,
      λ e. cc,
    )

==_no : (n : ℕ) → (n == 0) ≡ false → 0 < n
==_no n e = ground (arith, e)

round_up_lem :
    (x y : ℕ)
    → 0 < y
    → x ≤ pos_part max_uint256
    → round_up (pos y) true (pos x) (pos (x / y))
      ≡ ok (pos (if x % y == 0 then x / y else x / y + 1))
round_up_lem x y h k = elim (Bool-cases (x % y == 0)) [
  | inl e ↦ rw (%ℤ_pos x y) (rw e (ground (arith, h, e)))
  | inr e ↦
      rw (%ℤ_pos x y, +ℤ_pos (x / y) 1) (rw e (ground (arith, h, k, e, small (==_no (x % y) e))))
]
  where
    grows : (q m : ℕ) → 0 < m → q ≤ q * m
    grows q zero p = omega (arith, p)
    grows q (suc m) p = omega arith

    small : 0 < x % y → x / y + 1 ≤ pos_part max_uint256
    small p = omega (arith, grows (x / y) y h, div-add-mod' x y, k, p)

-- Collateral covers the imbalance and no more: with a positive multiplier, where the remote
-- multiplies, the collateral for an imbalance that fits in a uint256 is derived without overflow,
-- and is the least number of home units that is worth the imbalance in remote units.
pub derive_collateral_needed-least :
    (x y : ℕ)
    → 0 < y
    → x ≤ pos_part max_uint256
    → (c : ℕ) × (derive_collateral_needed (pos y) true (pos x) ≡ ok (pos c))
      × (x ≤ c * y)
      × (c * y < x + y)
unfolding derive_collateral_needed remove_token_scale
derive_collateral_needed-least x y h k = (
  (if x % y == 0 then x / y else x / y + 1),
  rw (derive_collateral_needed, remove_token_scale, divided_home y x h) (round_up_lem x y h k),
  (bounds (Bool-cases (x % y == 0))).0,
  (bounds (Bool-cases (x % y == 0))).1,
)
  where
    bounds :
        ((x % y == 0) ≡ true) ⊎ ((x % y == 0) ≡ false)
        → (x ≤ (if x % y == 0 then x / y else x / y + 1) * y)
          × ((if x % y == 0 then x / y else x / y + 1) * y < x + y)
    bounds (inl e) = rw e (
      omega (arith, div-add-mod' x y, (==_iff (x % y) 0).0 e),
      omega (arith, quotient_bounds x y h, h),
    )
    bounds (inr e) = rw e (omega (arith, quotient_bounds x y h), upper (==_no (x % y) e))
      where
        upper : 0 < x % y → (x / y + 1) * y < x + y
        upper p = omega (arith, div-add-mod' x y, p)
