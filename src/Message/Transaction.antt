-- ===== src/Message/Transaction.antt =====
-- packages/state-machine/src/transaction.ts: folding a whole transaction or nothing of it.
use ictt_sentinel.Base.{
  ℕ, Bool, true, false, not, List, [], ◌∷◌, map, ltb, length, if◌then◌else◌, filter, leb,
}
use ictt_sentinel.Base.Text.{Text, text_eq}
use ictt_sentinel.Base.Sets.{unique, text_Eq, sort}
use ictt_sentinel.Base.Keyed.{by_key, text_lt}
use ictt_sentinel.Base.Grouped.{group_from}
use ictt_sentinel.Message.Keys.{transaction_key_of}
use ictt_sentinel.Message.Inputs.{TransitionInput}
use ictt_sentinel.Message.Aggregate.{
  MessageAggregate, Reduced, ok, threw, partial_transaction, mixed_transaction, reduce_from,
}
pub mod Atomic
pub mod Batches

pub record TransactionBatch : Type 0 where
  pub inputs : List TransitionInput
  pub complete : Bool

-- `i.message.messageId === aggregate.key.messageId`
abbrev pub is_addressed : MessageAggregate → TransitionInput → Bool
is_addressed aggregate i = text_eq i.message.message_id aggregate.key.message_id

-- The code behind the test for an empty batch; `keys` has no member only there.
unfoldable pub reduce_keys :
    MessageAggregate → TransactionBatch → List Text → Reduced MessageAggregate
unfolding reduce_from
reduce_keys aggregate batch [] = ok aggregate
reduce_keys aggregate batch (tx_key ∷ keys) =
    if ltb 1 (length (tx_key ∷ keys))
    then threw (mixed_transaction (tx_key ∷ keys))
    else if not batch.complete
    then threw (partial_transaction tx_key)
    else reduce_from aggregate (filter (is_addressed aggregate) batch.inputs)

unfoldable pub reduce_transaction : MessageAggregate → TransactionBatch → Reduced MessageAggregate
unfolding reduce_keys transaction_key_of unique
reduce_transaction aggregate batch = elim batch.inputs [
  | [] ↦ ok aggregate
  | i ∷ is ↦
      reduce_keys aggregate batch (unique (map (λ i. transaction_key_of i.fact) batch.inputs))
]

abbrev pub logged_before : TransitionInput → TransitionInput → Bool
logged_before x y = leb x.fact.log_index y.fact.log_index

-- `groupByTransaction`
unfoldable pub group_by_transaction : List TransitionInput → List (Text × List TransitionInput)
unfolding group_from
group_by_transaction inputs =
    map (λ e. (e.0, sort logged_before e.1))
      (sort (by_key (λ e. e.0) text_lt)
        (group_from (λ i. transaction_key_of i.fact) (λ i. i) [] inputs))
