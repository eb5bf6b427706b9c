-- ===== src/GateB.antt =====
-- packages/invariant-core/src/gate-b.ts: physical coverage of the conservative liability.
pub mod Rounding
pub mod Loop
pub mod Coverage
use ictt_sentinel.Base.{
  ℕ, Bool, true, false, not, ◌||◌, List, [], ◌∷◌, Option, none, some, is_empty, if◌then◌else◌,
}
use ictt_sentinel.Base.Int.{ℤ, pos, ◌+ℤ◌, ◌-ℤ◌, ◌*ℤ◌, ◌/ℤ◌, ◌%ℤ◌, leb_ℤ, ltb_ℤ, eqb_ℤ, sum_ℤ}
use ictt_sentinel.Base.Text.{Text}
use ictt_sentinel.Inputs.{
  ProofInput, RemoteObservation, PinnedBlock, max_uint256, census_is_complete,
}
use ictt_sentinel.Reason.{
  ReasonCode, acc_a06_arithmetic_out_of_range, acc_b00_coverage_sufficient,
  acc_b01_coverage_shortfall, acc_b02_untracked_remote_liability, acc_b03_gate_a_not_passed,
  acc_i03_census_incomplete, acc_i07_missing_observation,
}

pub record RemoteLiability : Type 0 where
  pub remote_blockchain_id : Text
  pub remote_address : Text
  pub remote_units : ℤ
  pub floor_home_units : ℤ
  pub ceil_home_units : ℤ
  pub dust : ℤ

pub data GateBOutcome : Type 0 where
  pass fail unknown : GateBOutcome

pub record GateBResult : Type 0 where
  pub outcome : GateBOutcome
  pub reasons : List ReasonCode
  pub escrow_balance : ℤ
  pub floor_liability : ℤ
  pub conservative_liability : ℤ
  pub total_dust : ℤ
  pub surplus : ℤ
  pub per_remote : List RemoteLiability

pub data ScaleFailure : Type 0 where
  overflow division_by_zero negative : ScaleFailure

pub data ScaleOutcome : Type 0 where
  scaled : (floor ceil : ℤ) → ScaleOutcome
  refused : ScaleFailure → ScaleOutcome

unfoldable pub to_home_units : ℤ → ℤ → Bool → ScaleOutcome
to_home_units remote_amount token_multiplier multiply_on_remote =
    if ltb_ℤ remote_amount (pos 0) || ltb_ℤ token_multiplier (pos 0)
    then refused negative
    else if not multiply_on_remote
    then (let product = remote_amount *ℤ token_multiplier in
        if ltb_ℤ max_uint256 product then refused overflow else scaled product product)
    else if eqb_ℤ token_multiplier (pos 0)
    then refused division_by_zero
    else (let floor = remote_amount /ℤ token_multiplier in
        let ceil =
          if eqb_ℤ (remote_amount %ℤ token_multiplier) (pos 0) then floor else floor +ℤ pos 1 in
        scaled floor ceil)

-- `{ outcome: 'unknown', reasons: [reason], ...empty }`
abbrev pub unknown_for : ReasonCode → GateBResult
unknown_for reason = record {
  outcome = unknown;
  reasons = reason ∷ [];
  escrow_balance = pos 0;
  floor_liability = pos 0;
  conservative_liability = pos 0;
  total_dust = pos 0;
  surplus = pos 0;
  per_remote = [];
}

-- What the loop over the remotes ends with: the liabilities, or the reason of its early return.
pub data Liabilities : Type 0 where
  all_of : List RemoteLiability → Liabilities
  stopped : ReasonCode → Liabilities

abbrev pub and_then : RemoteLiability → Liabilities → Liabilities
and_then l (all_of ls) = all_of (l ∷ ls)
and_then l (stopped reason) = stopped reason

abbrev pub liability_of : RemoteObservation → ℤ → ℤ → ℤ → RemoteLiability
liability_of r remote_units floor ceil = record {
  remote_blockchain_id = r.remote_blockchain_id;
  remote_address = r.remote_address;
  remote_units = remote_units;
  floor_home_units = floor;
  ceil_home_units = ceil;
  dust = ceil -ℤ floor;
}

-- One round of the loop; `rest` is what the later rounds give.
abbrev pub liability_step : RemoteObservation → Option ℤ → Liabilities → Liabilities
liability_step r none rest = stopped acc_i07_missing_observation
liability_step r (some units) rest =
    elim (to_home_units units r.scale.token_multiplier r.scale.multiply_on_remote) [
      | scaled floor ceil ↦ and_then (liability_of r units floor ceil) rest
      | refused reason ↦ stopped acc_a06_arithmetic_out_of_range
    ]

-- The loop over `input.remotes`.
unfoldable pub liabilities : List RemoteObservation → Liabilities
liabilities [] = all_of []
liabilities (r ∷ rs) = liability_step r r.transferred_balance (liabilities rs)

-- The totals, and the lower-bound test.
unfoldable pub cover : ℤ → List RemoteLiability → GateBResult
cover escrow per_remote =
    let floor_liability = sum_ℤ (λ r. r.floor_home_units) per_remote in
    let conservative_liability = sum_ℤ (λ r. r.ceil_home_units) per_remote in
    let surplus = escrow -ℤ conservative_liability in
    let covered = leb_ℤ (pos 0) surplus in
    record {
      outcome = if covered then pass else fail;
      reasons = (if covered then acc_b00_coverage_sufficient else acc_b01_coverage_shortfall) ∷ [];
      escrow_balance = escrow;
      floor_liability = floor_liability;
      conservative_liability = conservative_liability;
      total_dust = conservative_liability -ℤ floor_liability;
      surplus = surplus;
      per_remote = per_remote;
    }

-- The part behind the guards, once the escrow and its pin are looked at.
unfoldable pub cover_observed : Option ℤ → Option PinnedBlock → List RemoteObservation → GateBResult
unfolding cover liabilities
cover_observed none pin remotes = unknown_for acc_i07_missing_observation
cover_observed (some escrow) none remotes = unknown_for acc_i07_missing_observation
cover_observed (some escrow) (some pin) remotes = elim (liabilities remotes) [
  | all_of ls ↦ cover escrow ls
  | stopped reason ↦ unknown_for reason
]

unfoldable pub evaluate_gate_b : ProofInput → Bool → GateBResult
unfolding cover_observed
evaluate_gate_b input gate_a_passed =
    if not gate_a_passed
    then unknown_for acc_b03_gate_a_not_passed
    else if not (is_empty input.untracked_remotes)
    then unknown_for acc_b02_untracked_remote_liability
    else if not (census_is_complete input.census)
    then unknown_for acc_i03_census_incomplete
    else cover_observed input.home_escrow.escrow_balance input.home_escrow.home_pin input.remotes
