-- ===== src/Message/Watermark.antt =====
-- packages/state-machine/src/watermark.ts: the causally closed multi-chain cut. The map of cuts is a
-- function from chain to cut.
use ictt_sentinel.Base.{
  ℕ, Bool, true, false, not, ◌&&◌, ◌||◌, List, [], ◌∷◌, ◌++◌, map, Option, none, some, ltb, length,
  is_empty, if◌then◌else◌, filter, flat_map,
}
use ictt_sentinel.Base.Int.{ℤ, ltb_ℤ}
use ictt_sentinel.Base.Text.{Text, text_eq, text_le}
use ictt_sentinel.Base.Sets.{sort, unique, text_Eq}
use ictt_sentinel.Base.Keyed.{text_lt}
use ictt_sentinel.Message.Keys.{FactPosition, message_key_of}
use ictt_sentinel.Message.Inputs.{
  TransitionInput, TransitionKind, is_source_effect, is_destination_effect, kind_index,
}
use ictt_sentinel.Message.Aggregate.{MessageAggregate, Entry, is_kind}
pub mod Closed

pub record ChainCut : Type 0 where
  pub blockchain_id : Text
  pub block_number : ℤ
  pub block_hash : Text

pub data CutOutcome : Type 0 where
  closed open_cut gap : CutOutcome

pub data EdgeReason : Type 0 where
  source_fact_outside_cut source_fact_not_observed : EdgeReason

pub record OpenEdge : Type 0 where
  pub message_key : Text
  pub blockchain_id : Text
  pub reason : EdgeReason

pub record CutAssessment : Type 0 where
  pub outcome : CutOutcome
  pub chains_without_cut : List Text
  pub open_edges : List OpenEdge
  pub closed_messages : List Text

abbrev pub Cuts : Type 0
Cuts = Text → Option ChainCut

-- `cuts.has(chain)`
abbrev pub has_cut : Cuts → Text → Bool
has_cut cuts chain = elim (cuts chain) [ none ↦ false | some _ ↦ true ]

abbrev pub within : FactPosition → Option ChainCut → Option Bool
within position none = none
within position (some cut) = some (not (ltb_ℤ cut.block_number position.block_number))

unfoldable pub in_cut : FactPosition → Cuts → Option Bool
in_cut position cuts = within position (cuts position.blockchain_id)

-- `inCut(position, cuts) === true`
unfoldable pub is_inside : Cuts → Entry → Bool
unfolding in_cut
is_inside cuts e = elim (in_cut e.1.position cuts) [
  | some true ↦ true
  | some false ↦ false
  | none ↦ false
]

abbrev pub is_source_fact : Entry → Bool
is_source_fact e = is_source_effect e.1.kind || is_kind TransitionKind.icm_sent e

abbrev pub destination_in_cut : Cuts → MessageAggregate → List Entry
destination_in_cut cuts a = filter (λ e. is_destination_effect e.1.kind && is_inside cuts e) a.facts

abbrev pub source_facts : MessageAggregate → List Entry
source_facts a = filter is_source_fact a.facts

abbrev pub outside_cut : Cuts → MessageAggregate → List Entry
outside_cut cuts a = filter (λ e. not (is_inside cuts e)) (source_facts a)

-- The chains of the facts of an aggregate that no cut was pinned for.
unfoldable pub uncut_chains : Cuts → MessageAggregate → List Text
uncut_chains cuts a =
    map (λ e. e.1.position.blockchain_id)
      (filter (λ e. not (has_cut cuts e.1.position.blockchain_id)) a.facts)

-- The edges that one turn of the loop pushes.
unfoldable pub edges_of : Cuts → MessageAggregate → List OpenEdge
unfolding is_inside message_key_of
edges_of cuts a =
    if is_empty (destination_in_cut cuts a)
    then []
    else if is_empty (source_facts a)
    then record {
      message_key = message_key_of a.key;
      blockchain_id = a.key.source_blockchain_id;
      reason = source_fact_not_observed;
    }
      ∷ []
    else map
        (λ e. record {
          message_key = message_key_of a.key;
          blockchain_id = e.1.position.blockchain_id;
          reason = source_fact_outside_cut;
        })
        (outside_cut cuts a)

-- The message key that one turn of the loop pushes as closed.
unfoldable pub closed_key : Cuts → MessageAggregate → List Text
unfolding is_inside message_key_of
closed_key cuts a =
    if is_empty (destination_in_cut cuts a)
    then []
    else if is_empty (source_facts a)
    then []
    else if is_empty (outside_cut cuts a)
    then message_key_of a.key ∷ []
    else []

-- `cmp(a, b) < 0` of the comparator of `openEdges`
abbrev pub edge_lt : OpenEdge → OpenEdge → Bool
edge_lt a b =
    if text_eq a.message_key b.message_key
    then text_lt a.blockchain_id b.blockchain_id
    else text_lt a.message_key b.message_key

unfoldable pub assess_cut : List MessageAggregate → Cuts → CutAssessment
unfolding uncut_chains edges_of closed_key sort unique
assess_cut aggregates cuts =
    let chains_without_cut = unique (flat_map (uncut_chains cuts) aggregates) in
    let open_edges = flat_map (edges_of cuts) aggregates in
    record {
      outcome =
          if ltb 0 (length chains_without_cut)
          then gap
          else if ltb 0 (length open_edges)
          then open_cut
          else closed;
      chains_without_cut = sort text_le chains_without_cut;
      open_edges = sort edge_lt open_edges;
      closed_messages = sort text_le (flat_map (closed_key cuts) aggregates);
    }

unfoldable pub cut_permits_evaluation : CutAssessment → Bool
cut_permits_evaluation assessment = elim assessment.outcome [
  | closed ↦ true
  | open_cut ↦ false
  | gap ↦ false
]
