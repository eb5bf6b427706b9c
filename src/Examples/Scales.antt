-- ===== src/Examples/Scales.antt =====
-- The theorems on scaling, at two remote units for a home unit and the reverse.
use ictt_sentinel.Base.{ℕ, ◌≤◌, ◌<◌, ◌≡◌, ◌⊎◌, ◌+◌, ◌*◌, true, false, arith}
use ictt_sentinel.Base.Int.{pos, pos_part}
use ictt_sentinel.Inputs.{max_uint256}
use ictt_sentinel.Scaling.{
  ok, failed, overflow, apply_token_scale, remove_token_scale, derive_collateral_needed,
}
use ictt_sentinel.Scaling.RoundTrip.{remove_token_scale-apply, derive_collateral_needed-least}

positive : 0 < 2
positive = omega arith

fits : 7 ≤ pos_part max_uint256
fits = omega arith

remove_token_scale-apply_example :
    ((apply_token_scale (pos 2) false (pos 7) ≡ failed overflow)
      × (false ≡ true)
      × (pos_part max_uint256 < 7 * 2))
    ⊎ ((r : ℕ) × (b : ℕ) × (apply_token_scale (pos 2) false (pos 7) ≡ ok (pos r))
        × (remove_token_scale (pos 2) false (pos r) ≡ ok (pos b))
        × (b ≤ 7)
        × (7 < b + 2)
        × (false ≡ true → b ≡ 7))
remove_token_scale-apply_example = remove_token_scale-apply 7 2 false positive fits

derive_collateral_needed-least_example :
    (c : ℕ) × (derive_collateral_needed (pos 2) true (pos 7) ≡ ok (pos c))
    × (7 ≤ c * 2)
    × (c * 2 < 7 + 2)
derive_collateral_needed-least_example = derive_collateral_needed-least 7 2 positive fits
