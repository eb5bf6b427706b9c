-- ===== src/Replay/Range/Witnesses.antt =====
-- packages/replay/src/agreement.ts: the groups that answered, their digests and the agreement.
use ictt_sentinel.Base.{
  ℕ, Bool, not, ◌&&◌, List, [], ◌∷◌, map, any, filter, length, ltb, if◌then◌else◌, flat_map,
}
use ictt_sentinel.Base.Grouped.{group_from}
use ictt_sentinel.Base.Text.{Text, text_eq, text_le}
use ictt_sentinel.Base.Sets.{sort, unique, text_Eq}
use ictt_sentinel.Replay.{ReplayReason}
use ictt_sentinel.Replay.Range.{RangeResult}

pub record AgreementPolicy : Type 0 where
  pub required_independent_groups : ℕ
  pub archive_fallback_declared : Bool

pub data Agreement : Type 0 where
  agreed : Text → List RangeResult → Agreement
  blocked : ReplayReason → List (Text × List Text) → Agreement

-- `byDigest`
unfoldable pub by_digest : List RangeResult → List (Text × List Text)
unfolding group_from
by_digest rs = group_from (λ r. r.digest) (λ r. r.provider_group) [] rs

-- `new Set(results.map(r => r.providerGroup))`
unfoldable pub independent_groups : List RangeResult → List Text
independent_groups results = unique (map (λ r. r.provider_group) results)

abbrev pub first_result : List RangeResult → List RangeResult
first_result [] = []
first_result (r ∷ rs) = r ∷ []

-- `witnesses`
unfoldable pub witnesses_of : List RangeResult → List RangeResult
unfolding independent_groups
witnesses_of results =
    flat_map (λ g. first_result (filter (λ r. text_eq r.provider_group g) results))
      (sort text_le (independent_groups results))

-- The tests on `byDigest` and what follows them.
abbrev pub judge_digests : AgreementPolicy → List RangeResult → List (Text × List Text) → Agreement
judge_digests policy results [] = Agreement.blocked ReplayReason.insufficient_witnesses []
judge_digests policy results (e ∷ []) =
    if ltb (length (independent_groups results)) policy.required_independent_groups
    then Agreement.blocked ReplayReason.insufficient_witnesses (e ∷ [])
    else Agreement.agreed e.0 (witnesses_of results)
judge_digests policy results (e ∷ f ∷ es) =
    Agreement.blocked ReplayReason.provider_divergence (e ∷ f ∷ es)

unfoldable pub agree : List RangeResult → AgreementPolicy → Agreement
unfolding by_digest witnesses_of independent_groups
agree results policy =
    if any (λ r. r.via_archive) results && not policy.archive_fallback_declared
    then Agreement.blocked ReplayReason.archive_fallback_unavailable (by_digest results)
    else judge_digests policy results (by_digest results)
