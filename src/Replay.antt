-- ===== src/Replay.antt =====
-- packages/replay/src: the planning of block ranges (plan.ts), the gaps of what was committed
-- (range.ts) and the completeness of a replay (completeness.ts). The reasons are those of reasons.ts.
use ictt_sentinel.Base.{
  ℕ, zero, suc, ◌+◌, Bool, true, false, not, ◌&&◌, List, [], ◌∷◌, ◌++◌, Option, none, some, any,
  is_empty, ltb, when, if◌then◌else◌,
}
use ictt_sentinel.Base.Int.{ℤ, pos, pos_part, ◌+ℤ◌, ◌-ℤ◌, ◌/ℤ◌, ltb_ℤ, leb_ℤ, eqb_ℤ}
use ictt_sentinel.Base.Sets.{sort}
use ictt_sentinel.Domain.{Verdict}
pub mod Plan
pub mod Gaps
pub mod Range

-- `REPLAY_REASONS`
pub data ReplayReason : Type 0 where
  silent_truncation missing_block missing_log pruned_history empty_response_ambiguity
        provider_divergence insufficient_witnesses retry_budget_exhausted range_indivisible
        stale_collection archive_fallback_unavailable remote_history_unavailable
        noncanonical_block_rejected :
      ReplayReason

unfoldable pub is_retryable : ReplayReason → Bool
is_retryable silent_truncation = true
is_retryable missing_block = true
is_retryable missing_log = true
is_retryable pruned_history = false
is_retryable empty_response_ambiguity = true
is_retryable provider_divergence = false
is_retryable insufficient_witnesses = false
is_retryable retry_budget_exhausted = false
is_retryable range_indivisible = false
is_retryable stale_collection = true
is_retryable archive_fallback_unavailable = false
is_retryable remote_history_unavailable = false
is_retryable noncanonical_block_rejected = false

pub record BlockRange : Type 0 where
  pub from_block : ℤ
  pub to_block : ℤ

unfoldable pub span_of : BlockRange → ℤ
span_of r = r.to_block -ℤ r.from_block +ℤ pos 1

pub record PlanInput : Type 0 where
  pub start_block : ℤ
  pub agreed_head : ℤ
  pub max_range_blocks : ℤ
  pub retry_budget : ℕ

-- The loop of `planRanges`, on fuel.
unfoldable pub plan_from : ℕ → ℤ → ℤ → ℤ → List BlockRange
plan_from zero from agreed_head width = []
plan_from (suc fuel) from agreed_head width =
    let rest = plan_from fuel (from +ℤ width) agreed_head width in
    let to = from +ℤ width -ℤ pos 1 in
    if leb_ℤ from agreed_head
    then record { from_block = from; to_block = if ltb_ℤ agreed_head to then agreed_head else to }
      ∷ rest
    else []

-- `none` is the `RangeError`; one round of the loop for each height is enough fuel.
unfoldable pub plan_ranges : PlanInput → Option (List BlockRange)
unfolding plan_from
plan_ranges input =
    if ltb_ℤ input.max_range_blocks (pos 1)
    then none
    else if ltb_ℤ input.agreed_head input.start_block
    then some []
    else some (
        plan_from (pos_part (input.agreed_head -ℤ input.start_block) + 1) input.start_block
          input.agreed_head input.max_range_blocks)

unfoldable pub split_range : BlockRange → Option (BlockRange × BlockRange)
unfolding span_of
split_range r =
    let half = span_of r /ℤ pos 2 in
    if leb_ℤ (span_of r) (pos 1)
    then none
    else some (
      record { from_block = r.from_block; to_block = r.from_block +ℤ half -ℤ pos 1 },
      record { from_block = r.from_block +ℤ half; to_block = r.to_block },
    )

pub record AttemptState : Type 0 where
  pub range : BlockRange
  pub attempts : ℕ
  pub retry_budget : ℕ

pub data NextStep : Type 0 where
  retry : BlockRange → ℕ → NextStep
  split : BlockRange → BlockRange → NextStep
  give_up : ReplayReason → NextStep

unfoldable pub next_step : AttemptState → ReplayReason → NextStep
unfolding split_range span_of is_retryable
next_step state reason =
    if not (is_retryable reason)
    then give_up reason
    else if ltb (state.attempts + 1) state.retry_budget
    then retry state.range (state.attempts + 1)
    else elim (split_range state.range) [
      | some (first, second) ↦ split first second
      | none ↦ give_up (
          if eqb_ℤ (span_of state.range) (pos 1)
          then ReplayReason.range_indivisible
          else ReplayReason.retry_budget_exhausted)
    ]

-- The loop of `findRangeGaps` from a cursor, and the gap after it.
unfoldable pub gaps_from : ℤ → List BlockRange → ℤ → List BlockRange
gaps_from cursor [] to = when (leb_ℤ cursor to) (record { from_block = cursor; to_block = to })
gaps_from cursor (r ∷ rs) to =
    when (ltb_ℤ cursor r.from_block)
      (record { from_block = cursor; to_block = r.from_block -ℤ pos 1 })
    ++ gaps_from (if leb_ℤ cursor r.to_block then r.to_block +ℤ pos 1 else cursor) rs to

-- The comparator `a.fromBlock < b.fromBlock ? -1 : 1`
abbrev pub starts_before : BlockRange → BlockRange → Bool
starts_before a b = ltb_ℤ a.from_block b.from_block

unfoldable pub find_range_gaps : List BlockRange → BlockRange → List BlockRange
unfolding gaps_from sort
find_range_gaps covered window =
    gaps_from window.from_block (sort starts_before covered) window.to_block

unfoldable pub is_gap_closed : BlockRange → List BlockRange → Bool
unfolding find_range_gaps
is_gap_closed gap committed = is_empty (find_range_gaps committed gap)

-- `REPLAY_STATUSES`
pub data ReplayStatus : Type 0 where
  pending complete gap stale divergent blocked : ReplayStatus

pub record CompletenessInput : Type 0 where
  pub window : BlockRange
  pub committed : List BlockRange
  pub last_success_at : Option ℤ
  pub freshness_ttl_ms : ℤ
  pub open_reasons : List ReplayReason
  pub now : ℤ

pub record CompletenessResult : Type 0 where
  pub status : ReplayStatus
  pub verdict : Verdict
  pub gaps : List BlockRange
  pub reasons : List ReplayReason
  pub age_ms : Option ℤ

abbrev pub is_divergence : ReplayReason → Bool
is_divergence provider_divergence = true
is_divergence _ = false

-- `BLOCKING_REASONS.has(r)`
abbrev pub is_blocking : ReplayReason → Bool
is_blocking pruned_history = true
is_blocking retry_budget_exhausted = true
is_blocking range_indivisible = true
is_blocking archive_fallback_unavailable = true
is_blocking remote_history_unavailable = true
is_blocking noncanonical_block_rejected = true
is_blocking insufficient_witnesses = true
is_blocking _ = false

abbrev pub age_of : ℤ → Option ℤ → Option ℤ
age_of now none = none
age_of now (some t) = some (now -ℤ t)

-- The branches behind the one for a gap.
abbrev pub assess_age : CompletenessInput → List BlockRange → Option ℤ → CompletenessResult
assess_age input gaps none = record {
  status = pending;
  verdict = Verdict.unknown;
  gaps = gaps;
  reasons = input.open_reasons;
  age_ms = none;
}
assess_age input gaps (some age) =
    if ltb_ℤ input.freshness_ttl_ms age
    then record {
      status = stale;
      verdict = Verdict.unknown;
      gaps = gaps;
      reasons = input.open_reasons ++ stale_collection ∷ [];
      age_ms = some age;
    }
    else record {
      status = complete;
      verdict = Verdict.ok;
      gaps = gaps;
      reasons = input.open_reasons;
      age_ms = some age;
    }

abbrev pub refused_as : CompletenessInput → ReplayStatus → List BlockRange → CompletenessResult
refused_as input status gaps = record {
  status = status;
  verdict = Verdict.unknown;
  gaps = gaps;
  reasons = input.open_reasons;
  age_ms = age_of input.now input.last_success_at;
}

unfoldable pub assess_completeness : CompletenessInput → CompletenessResult
unfolding find_range_gaps
assess_completeness input =
    let gaps = find_range_gaps input.committed input.window in
    if any is_divergence input.open_reasons
    then refused_as input divergent gaps
    else if any is_blocking input.open_reasons
    then refused_as input blocked gaps
    else if not (is_empty gaps)
    then refused_as input gap gaps
    else assess_age input gaps (age_of input.now input.last_success_at)
