-- ===== src/Examples/Messages.antt =====
-- The theorems on the message lifecycle, on a send and an execution of one message.
use ictt_sentinel.Base.{
  Memᴰ, ◌≡◌, ◌≢◌, refl, ◌↔◌, true, false, List, [], ◌∷◌, Permᴰ, none, some, All, All-map, any,
  any-false_iff, ◌==◌, ==_iff,
}
use ictt_sentinel.Base.Int.{ℤ, pos}
use ictt_sentinel.Base.Text.{Text, units, text_eq}
use ictt_sentinel.Base.Keyed.{IsKeyed, IsDistinct-IsKeyed}
use ictt_sentinel.Domain.{Verdict}
use ictt_sentinel.Message.Keys.{
  RawFactRef, MessageKey, sep, same_message, raw_fact_ref_of, transaction_key_of,
}
use ictt_sentinel.Message.Keys.Injective.{IsPlain, NoSep, same_message_iff}
use ictt_sentinel.Message.Inputs.{TransitionInput, TransitionKind}
use ictt_sentinel.Message.Aggregate.{Entry, MessageAggregate, ok, reduce_all, has}
use ictt_sentinel.Message.Aggregate.Entries.{IsFor, IsWellFormed, input_ref}
use ictt_sentinel.Message.Aggregate.Fold.{reduce_all-perm}
use ictt_sentinel.Message.Derive.{EvaluationContext, derive_state}
use ictt_sentinel.Message.Derive.Order.{derive_state-perm}
use ictt_sentinel.Message.Derive.Verdicts.{HasExecuted}
use ictt_sentinel.Message.Watermark.{Cuts, assess_cut, cut_permits_evaluation}
use ictt_sentinel.Message.Watermark.Closed.{
  HasCuts, IsPaired, IsClosed, cut_permits_evaluation-IsClosed_iff,
}
use ictt_sentinel.Message.Derive.Credits.{
  IsCredit, HasDoubleCredit, derive_state-ok_iff, derive_state-critical_iff,
}
use ictt_sentinel.Message.Transaction.{reduce_transaction}
use ictt_sentinel.Message.Aggregate.Grouped.{
  group_by_message, IsFiled, facts_at, facts_from, of_message, group_by_message-IsFiled,
}
use ictt_sentinel.Message.Transaction.Atomic.{IsAtomic, reduce_transaction-IsAtomic}

abbrev key : MessageKey
key = record {
  source_blockchain_id = units "home";
  destination_blockchain_id = units "L1";
  teleporter_messenger_address = units "0xt";
  registry_protocol_version = 1;
  message_id = units "m1";
}

abbrev input : TransitionKind → ℤ → Text → TransitionInput
input kind chain tx = record {
  kind = kind;
  message = key;
  fact = record { evm_chain_id = chain; block_hash = units "0xb"; tx_hash = tx; log_index = 0 };
  position = record {
    blockchain_id = units "home";
    block_number = pos 4;
    block_hash = units "0xb";
  };
  envelope_id = none;
  carries_economic_effect = none;
  unsupported_reason = none;
  observed_at = some (pos 10);
  adapter_id = units "ictt";
  adapter_version = 1;
}

abbrev sending : TransitionInput
sending = input TransitionKind.source_accounted (pos 1) (units "0x1")

abbrev executing : TransitionInput
executing = input TransitionKind.execution_succeeded (pos 2) (units "0x2")

abbrev delivering : TransitionInput
delivering = input TransitionKind.delivered (pos 2) (units "0x3")

-- A second execution, of another transaction.
abbrev again : TransitionInput
again = input TransitionKind.execution_succeeded (pos 2) (units "0x4")

abbrev context : EvaluationContext
context = record { evaluated_at = pos 20; stale_after_ms = pos 60 }

abbrev aggregate_of : List TransitionInput → MessageAggregate
aggregate_of is = record { key = key; facts = entries is }
  where
    entries : List TransitionInput → List (Text × TransitionInput)
    entries [] = []
    entries (i ∷ rest) = (raw_fact_ref_of i.fact, i) ∷ entries rest

abbrev cuts : Cuts
cuts _ =
    some (record { blockchain_id = units "home"; block_number = pos 9; block_hash = units "0xc" })

plain_text : (t : Text) → any (λ c. c == sep) t ≡ false → NoSep t
plain_text t h =
    All-map (λ c. (c == sep) ≡ false) (λ c. c ≢ sep) t (λ c e. λ p. cc (e, (==_iff c sep).1 p))
      ((any-false_iff (λ c. c == sep) t).0 h)

plain : IsPlain key
plain = record {
  source = plain_text key.source_blockchain_id refl;
  destination = plain_text key.destination_blockchain_id refl;
  messenger = plain_text key.teleporter_messenger_address refl;
  message = plain_text key.message_id refl;
}

swap_lem : Permᴰ (sending ∷ executing ∷ []) (executing ∷ sending ∷ [])
swap_lem = Permᴰ.swap refl refl

addressed : All (IsFor key) (sending ∷ executing ∷ [])
addressed = (refl, (refl, tt))

keyed : IsKeyed input_ref (executing ∷ sending ∷ [])
unfolding text_eq raw_fact_ref_of
keyed = IsDistinct-IsKeyed input_ref (executing ∷ sending ∷ []) (refl, (refl, tt))

same_message_iff_example : (same_message key key ≡ true) ↔ (key ≡ key)
same_message_iff_example = same_message_iff key key plain plain

reduce_all-perm_example :
    (a b : MessageAggregate) × (reduce_all key (sending ∷ executing ∷ []) ≡ ok a)
    × (reduce_all key (executing ∷ sending ∷ []) ≡ ok b)
    × IsWellFormed a.facts
    × IsWellFormed b.facts
    × Permᴰ a.facts b.facts
reduce_all-perm_example = reduce_all-perm key swap_lem addressed keyed

derive_state-perm_example :
    (a b : MessageAggregate) × (reduce_all key (sending ∷ executing ∷ []) ≡ ok a)
    × (reduce_all key (executing ∷ sending ∷ []) ≡ ok b)
    × (derive_state a context ≡ derive_state b context)
derive_state-perm_example = derive_state-perm key context swap_lem addressed keyed

derive_state-ok_iff_example :
    ((derive_state (aggregate_of (sending ∷ executing ∷ [])) context).verdict ≡ Verdict.ok) ↔ (
      HasExecuted (aggregate_of (sending ∷ executing ∷ []))
      × (¬ HasDoubleCredit (aggregate_of (sending ∷ executing ∷ []))))
derive_state-ok_iff_example = derive_state-ok_iff (aggregate_of (sending ∷ executing ∷ [])) context

derive_state-critical_iff_example :
    (((derive_state (aggregate_of (executing ∷ again ∷ [])) context).verdict ≡ Verdict.critical)
      ↔ HasDoubleCredit (aggregate_of (executing ∷ again ∷ [])))
    × (HasDoubleCredit (aggregate_of (executing ∷ again ∷ []))
        → (e : Entry) → Memᴰ e (aggregate_of (executing ∷ again ∷ [])).facts
        → IsCredit e.1
        → (r : RawFactRef) × Memᴰ r
            (derive_state (aggregate_of (executing ∷ again ∷ [])) context).duplicate_effect_facts
          × (raw_fact_ref_of r ≡ raw_fact_ref_of e.1.fact))
derive_state-critical_iff_example =
    derive_state-critical_iff (aggregate_of (executing ∷ again ∷ [])) context

no_kind :
    (has (aggregate_of (sending ∷ delivering ∷ [])) TransitionKind.execution_succeeded ≡ false)
    × (has (aggregate_of (sending ∷ delivering ∷ [])) TransitionKind.execution_retried ≡ false)
unfolding has
no_kind = (refl, refl)

abbrev sent : TransitionInput
sent = input TransitionKind.icm_sent (pos 1) (units "0x1")

abbrev settled : MessageAggregate
settled = aggregate_of (sending ∷ sent ∷ executing ∷ [])

-- Both the accounting and the send were observed.
settled-IsPaired : All IsPaired (settled ∷ [])
settled-IsPaired = (
  (
    (λ _. ((raw_fact_ref_of sent.fact, sent), Memᴰ.tail (Memᴰ.head refl), refl)),
    λ _. ((raw_fact_ref_of sending.fact, sending), Memᴰ.head refl, refl),
  ),
  tt,
)

cut_permits_evaluation-IsClosed_iff_example :
    (cut_permits_evaluation (assess_cut (settled ∷ []) cuts) ≡ true)
    ↔ (All (HasCuts cuts) (settled ∷ []) × All (IsClosed cuts) (settled ∷ []))
cut_permits_evaluation-IsClosed_iff_example =
    cut_permits_evaluation-IsClosed_iff (settled ∷ []) cuts settled-IsPaired

reduce_transaction-IsAtomic_example :
    IsAtomic (aggregate_of []) (sending ∷ executing ∷ []) true (transaction_key_of sending.fact) (
      reduce_transaction
        (aggregate_of [])
        (record { inputs = sending ∷ executing ∷ []; complete = true }))
reduce_transaction-IsAtomic_example =
    reduce_transaction-IsAtomic (aggregate_of []) sending (executing ∷ []) true

abbrev two_inputs : List TransitionInput
two_inputs = sending ∷ executing ∷ []

group_by_message-IsFiled_example :
    (out : List (Text × MessageAggregate)) × (group_by_message two_inputs ≡ ok out)
    × IsFiled out
    × ((k : Text) → facts_at k out ≡ facts_from [] (of_message k two_inputs))
group_by_message-IsFiled_example = group_by_message-IsFiled two_inputs
