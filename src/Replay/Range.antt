-- ===== src/Replay/Range.antt =====
-- packages/replay/src/range.ts and agreement.ts: what one provider group answered for a range, and what
-- the groups agree on. The facts are those of packages/storage-postgres/src/ledger.ts, less the times
-- of observation; the digest is a parameter.
pub mod Witnesses
pub mod Agreement
use ictt_sentinel.Base.{
  ℕ, suc, ◌+◌, ◌≡◌, Bool, true, false, not, ◌&&◌, ◌||◌, List, [], ◌∷◌, ◌++◌, map, Option, none,
  some, any, filter, flat_map, length, is_empty, leb, ltb, ◌==◌, if◌then◌else◌,
}
use ictt_sentinel.Base.Int.{ℤ, eqb_ℤ, ltb_ℤ}
use ictt_sentinel.Base.Text.{Text, units, text_eq, text_le}
use ictt_sentinel.Base.Sets.{sort, contains, unique, text_Eq}
use ictt_sentinel.Base.Grouped.{group_from}
use ictt_sentinel.Base.Decimal.{decimal, decimal_ℤ}
use ictt_sentinel.Replay.{BlockRange, ReplayReason}

pub data ObservedClass : Type 0 where
  accepted candidate : ObservedClass

pub record BlockFact : Type 0 where
  pub chain_key : Text
  pub block_hash : Text
  pub block_number : ℤ
  pub parent_hash : Text
  pub block_timestamp : ℤ
  pub observed_class : ObservedClass

pub record LogFact : Type 0 where
  pub chain_key : Text
  pub block_hash : Text
  pub tx_hash : Text
  pub log_index : ℕ
  pub block_number : ℤ
  pub tx_index : ℕ
  pub address : Text
  pub topics : List Text
  pub data_bytes : Text

pub record RangeObservation : Type 0 where
  pub provider_group : Text
  pub range : BlockRange
  pub start_block_hash : Text
  pub end_block_hash : Text
  pub log_count : ℕ
  pub logs : List LogFact
  pub blocks : List BlockFact
  pub complete : Bool
  pub via_archive : Bool

pub record RangeResult : Type 0 where
  pub provider_group : Text
  pub range : BlockRange
  pub start_block_hash : Text
  pub end_block_hash : Text
  pub log_count : ℕ
  pub digest : Text
  pub via_archive : Bool
  pub blocks : List BlockFact
  pub logs : List LogFact

pub data RangeOutcome : Type 0 where
  answered : RangeResult → RangeOutcome
  failed : ReplayReason → Text → RangeOutcome

-- `xs.join(separator)`
abbrev pub join_with : ℕ → List Text → Text
join_with separator [] = []
join_with separator (x ∷ []) = x
join_with separator (x ∷ y ∷ ys) = x ++ separator ∷ join_with separator (y ∷ ys)

-- The comparison of `canonicalLogDigest`, as `cmp(a, b) <= 0`.
abbrev pub log_le : LogFact → LogFact → Bool
log_le a b =
    if not (eqb_ℤ a.block_number b.block_number)
    then ltb_ℤ a.block_number b.block_number
    else if not (a.tx_index == b.tx_index)
    then ltb a.tx_index b.tx_index
    else leb a.log_index b.log_index

abbrev pub log_text : LogFact → Text
log_text l =
    join_with 124 (
      l.chain_key
      ∷ l.block_hash
      ∷ l.tx_hash
      ∷ decimal l.log_index
      ∷ decimal_ℤ l.block_number
      ∷ decimal l.tx_index
      ∷ l.address
      ∷ join_with 44 l.topics
      ∷ l.data_bytes
      ∷ [])
    ++ 10 ∷ []

-- The comparison of `canonicalBlockDigest`, as `cmp(a, b) <= 0`.
abbrev pub block_le : BlockFact → BlockFact → Bool
block_le a b =
    if eqb_ℤ a.block_number b.block_number
    then text_le a.block_hash b.block_hash
    else ltb_ℤ a.block_number b.block_number

abbrev pub class_text : ObservedClass → Text
class_text accepted = units "accepted"
class_text candidate = units "candidate"

abbrev pub block_text : BlockFact → Text
block_text b =
    b.chain_key
    ++ 124
      ∷ (decimal_ℤ b.block_number
          ++ 124 ∷ (b.block_hash ++ 124 ∷ (class_text b.observed_class ++ 10 ∷ [])))

module _ (sha256 : Text → Text) where
  -- `canonicalLogDigest`
  unfoldable pub canonical_log_digest : List LogFact → Text
  canonical_log_digest logs = sha256 (flat_map log_text (sort log_le logs))

  -- `canonicalBlockDigest`
  unfoldable pub canonical_block_digest : List BlockFact → Text
  canonical_block_digest blocks = sha256 (flat_map block_text (sort block_le blocks))

  -- `rangeDigest`
  unfoldable pub range_digest : RangeObservation → Text
  unfolding canonical_log_digest canonical_block_digest
  range_digest o = sha256 (
      join_with 124 (
        decimal_ℤ o.range.from_block
        ∷ decimal_ℤ o.range.to_block
        ∷ o.start_block_hash
        ∷ o.end_block_hash
        ∷ decimal o.log_count
        ∷ canonical_log_digest o.logs
        ∷ canonical_block_digest o.blocks
        ∷ []))

abbrev pub log_key : LogFact → Text
log_key l = l.chain_key ++ 124 ∷ l.block_hash

-- Some index does not follow the one before it.
unfoldable pub jumps_after : ℕ → List ℕ → Bool
jumps_after previous [] = false
jumps_after previous (current ∷ rest) = not (current == suc previous) || jumps_after current rest

abbrev pub has_jump : List ℕ → Bool
has_jump [] = false
has_jump (first ∷ rest) = jumps_after first rest

-- `findLogIndexHole`
unfoldable pub find_log_index_hole : List LogFact → Bool
unfolding group_from jumps_after
find_log_index_hole logs =
    any (λ e. has_jump (sort leb e.1)) (group_from log_key (λ l. l.log_index) [] logs)

abbrev pub is_accepted : BlockFact → Bool
is_accepted b = elim b.observed_class [ accepted ↦ true | candidate ↦ false ]

abbrev pub has_block : RangeObservation → LogFact → Bool
has_block o l = contains (unique (map (λ b. b.block_hash) o.blocks)) l.block_hash

-- `classifyObservation`
unfoldable pub classify_observation : (Text → Text) → RangeObservation → RangeOutcome
unfolding find_log_index_hole range_digest
classify_observation sha256 o =
    if not (length o.logs == o.log_count)
    then fail ReplayReason.silent_truncation
    else if any (λ b. not (is_accepted b)) o.blocks
    then fail ReplayReason.noncanonical_block_rejected
    else if any (λ l. not (has_block o l)) o.logs
    then fail ReplayReason.missing_block
    else if not o.complete
    then fail (
        if is_empty o.logs
        then ReplayReason.empty_response_ambiguity
        else ReplayReason.silent_truncation)
    else if find_log_index_hole o.logs
    then fail ReplayReason.missing_log
    else RangeOutcome.answered (record {
      provider_group = o.provider_group;
      range = o.range;
      start_block_hash = o.start_block_hash;
      end_block_hash = o.end_block_hash;
      log_count = o.log_count;
      digest = range_digest sha256 o;
      via_archive = o.via_archive;
      blocks = o.blocks;
      logs = o.logs;
    })
  where
    fail : ReplayReason → RangeOutcome
    fail reason = RangeOutcome.failed reason o.provider_group
