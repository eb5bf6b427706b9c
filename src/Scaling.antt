-- ===== src/Scaling.antt =====
-- packages/ictt-adapters/src/scaling.ts: the port of `TokenScalingUtils`.
pub mod RoundTrip
use ictt_sentinel.Base.{ℕ, ◌^◌, Bool, true, false, ◌||◌, not, if◌then◌else◌}
use ictt_sentinel.Base.Int.{ℤ, pos, pos_part, ◌+ℤ◌, ◌-ℤ◌, ◌*ℤ◌, ◌/ℤ◌, ◌%ℤ◌, ltb_ℤ, eqb_ℤ}
use ictt_sentinel.Inputs.{max_uint256}

-- `MAX_TOKEN_DECIMALS`
abbrev pub max_token_decimals : ℤ
max_token_decimals = pos 18

pub data ScalingFailure : Type 0 where
  overflow division_by_zero negative decimals_out_of_range decimals_exceed_maximum : ScalingFailure

pub data ScalingResult {ℓ} (A : Type ℓ) : Type ℓ where
  ok : A → ScalingResult A
  failed : ScalingFailure → ScalingResult A

-- `a === b` on booleans
abbrev pub same_bool : Bool → Bool → Bool
same_bool true b = b
same_bool false b = not b

unfoldable pub scale_tokens : ℤ → Bool → ℤ → Bool → ScalingResult ℤ
scale_tokens token_multiplier multiply_on_remote amount is_send_to_remote =
    if ltb_ℤ amount (pos 0) || ltb_ℤ token_multiplier (pos 0)
    then failed negative
    else if same_bool multiply_on_remote is_send_to_remote
    then (let product = amount *ℤ token_multiplier in
        if ltb_ℤ max_uint256 product then failed overflow else ok product)
    else if eqb_ℤ token_multiplier (pos 0)
    then failed division_by_zero
    else ok (amount /ℤ token_multiplier)

unfoldable pub apply_token_scale : ℤ → Bool → ℤ → ScalingResult ℤ
unfolding scale_tokens
apply_token_scale token_multiplier multiply_on_remote home_token_amount =
    scale_tokens token_multiplier multiply_on_remote home_token_amount true

unfoldable pub remove_token_scale : ℤ → Bool → ℤ → ScalingResult ℤ
unfolding scale_tokens
remove_token_scale token_multiplier multiply_on_remote remote_token_amount =
    scale_tokens token_multiplier multiply_on_remote remote_token_amount false

pub record TokenMultiplierValues : Type 0 where
  pub token_multiplier : ℤ
  pub multiply_on_remote : Bool

unfoldable pub derive_token_multiplier_values : ℤ → ℤ → ScalingResult TokenMultiplierValues
derive_token_multiplier_values home_token_decimals remote_token_decimals =
    if ltb_ℤ home_token_decimals (pos 0) || ltb_ℤ (pos 255) home_token_decimals
    then failed decimals_out_of_range
    else if ltb_ℤ remote_token_decimals (pos 0) || ltb_ℤ (pos 255) remote_token_decimals
    then failed decimals_out_of_range
    else if ltb_ℤ max_token_decimals remote_token_decimals
    then failed decimals_exceed_maximum
    else (let multiply_on_remote = ltb_ℤ home_token_decimals remote_token_decimals in
        let exponent =
          if multiply_on_remote
          then remote_token_decimals -ℤ home_token_decimals
          else home_token_decimals -ℤ remote_token_decimals in
        ok (record {
          token_multiplier = pos (10 ^ pos_part exponent);
          multiply_on_remote = multiply_on_remote;
        }))

-- The rounding step of `deriveCollateralNeeded`, on a quotient that was computed.
abbrev pub round_up : ℤ → Bool → ℤ → ℤ → ScalingResult ℤ
round_up token_multiplier multiply_on_remote initial_reserve_imbalance value =
    if multiply_on_remote
    then (if eqb_ℤ token_multiplier (pos 0)
        then failed division_by_zero
        else if not (eqb_ℤ (initial_reserve_imbalance %ℤ token_multiplier) (pos 0))
        then (let rounded = value +ℤ pos 1 in
            if ltb_ℤ max_uint256 rounded then failed overflow else ok rounded)
        else ok value)
    else ok value

unfoldable pub derive_collateral_needed : ℤ → Bool → ℤ → ScalingResult ℤ
unfolding remove_token_scale
derive_collateral_needed token_multiplier multiply_on_remote initial_reserve_imbalance =
    elim (remove_token_scale token_multiplier multiply_on_remote initial_reserve_imbalance) [
      | ok value ↦ round_up token_multiplier multiply_on_remote initial_reserve_imbalance value
      | failed reason ↦ failed reason
    ]
