-- ===== src/Message/Aggregate.antt =====
-- packages/state-machine/src/aggregate.ts: the facts known about one message.
use ictt_sentinel.Base.{
  ℕ, Bool, true, false, not, List, [], ◌∷◌, ◌++◌, map, Option, none, some, ◌==◌, if◌then◌else◌, any,
  filter,
}
use ictt_sentinel.Base.Text.{Text, text_eq, text_le}
use ictt_sentinel.Base.Sets.{sort}
use ictt_sentinel.Base.Keyed.{has_key, by_key}
use ictt_sentinel.Message.Keys.{MessageKey, RawFactRef, message_key_of, raw_fact_ref_of}
use ictt_sentinel.Message.Inputs.{TransitionKind, TransitionInput, kind_index}
pub mod Grouped
pub mod Entries
pub mod Fold

-- An entry of `facts`: the reference it stands under and the input.
abbrev pub Entry : Type 0
Entry = Text × TransitionInput

-- `facts` is the `Map` in insertion order.
pub record MessageAggregate : Type 0 where
  pub key : MessageKey
  pub facts : List Entry

-- What the reducers throw.
pub data ReduceError : Type 0 where
  message_key_mismatch : MessageKey → MessageKey → ReduceError
  partial_transaction : Text → ReduceError
  mixed_transaction : List Text → ReduceError

pub data Reduced {ℓ} (A : Type ℓ) : Type ℓ where
  ok : A → Reduced A
  threw : ReduceError → Reduced A

abbrev pub entry_key : Entry → Text
entry_key e = e.0

unfoldable pub empty_aggregate : MessageKey → MessageAggregate
empty_aggregate key = record { key = key; facts = [] }

-- The body of `reduce` behind its guard, on the facts.
unfoldable pub add_fact : List Entry → TransitionInput → List Entry
add_fact facts input =
    let id = raw_fact_ref_of input.fact in
    if has_key entry_key id facts then facts else facts ++ (id, input) ∷ []

unfoldable pub reduce : MessageAggregate → TransitionInput → Reduced MessageAggregate
unfolding add_fact
reduce aggregate input =
    if not (text_eq (message_key_of input.message) (message_key_of aggregate.key))
    then threw (message_key_mismatch aggregate.key input.message)
    else ok (record { key = aggregate.key; facts = add_fact aggregate.facts input })

-- `inputs.reduce(reduce, aggregate)`
unfoldable pub reduce_from : MessageAggregate → List TransitionInput → Reduced MessageAggregate
unfolding reduce
reduce_from aggregate [] = ok aggregate
reduce_from aggregate (input ∷ inputs) = elim (reduce aggregate input) [
  | ok next ↦ reduce_from next inputs
  | threw e ↦ threw e
]

unfoldable pub reduce_all : MessageKey → List TransitionInput → Reduced MessageAggregate
unfolding reduce_from empty_aggregate
reduce_all key inputs = reduce_from (empty_aggregate key) inputs

abbrev pub is_kind : TransitionKind → Entry → Bool
is_kind kind e = kind_index e.1.kind == kind_index kind

unfoldable pub facts_of_kind : MessageAggregate → TransitionKind → List TransitionInput
unfolding sort
facts_of_kind aggregate kind =
    map (λ e. e.1) (sort (by_key entry_key text_le) (filter (is_kind kind) aggregate.facts))

unfoldable pub has : MessageAggregate → TransitionKind → Bool
has aggregate kind = any (is_kind kind) aggregate.facts

unfoldable pub supporting_facts : MessageAggregate → List RawFactRef
unfolding sort
supporting_facts aggregate = map (λ e. e.1.fact) (sort (by_key entry_key text_le) aggregate.facts)
