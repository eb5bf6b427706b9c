-- ===== src/Message/Keys/Injective.antt =====
-- The canonical serialisation of a message key loses nothing.
use ictt_sentinel.Base.{ℕ, ◌≡◌, ◌≢◌, refl, sym, ap, ◌↔◌, true, [], ◌∷◌, ◌++◌, arith, All, All-map}
use ictt_sentinel.Base.Text.{Text, text_eq_iff}
use ictt_sentinel.Base.Decimal.{decimal, decimal_inj, decimal-digits, IsDigit}
use ictt_sentinel.Message.Keys.{MessageKey, sep, message_key_of, same_message}

-- The text does not contain the separator.
abbrev pub NoSep : Text → Type 0
NoSep = All (λ c. c ≢ sep)

-- The components that are strings hold no separator.
pub record IsPlain (k : MessageKey) : Type 0 where
  pub source : NoSep k.source_blockchain_id
  pub destination : NoSep k.destination_blockchain_id
  pub messenger : NoSep k.teleporter_messenger_address
  pub message : NoSep k.message_id

head_inj : {x y : ℕ} {xs ys : Text} → x ∷ xs ≡ y ∷ ys → (x ≡ y) × (xs ≡ ys)
head_inj h = (cc, cc)

-- A text without separators is read back from in front of one.
pub split_sep :
    (s t u v : Text) → NoSep s → NoSep t → s ++ sep ∷ u ≡ t ++ sep ∷ v → (s ≡ t) × (u ≡ v)
split_sep [] [] u v h k e = (refl, (head_inj e).1)
split_sep [] (y ∷ t) u v h k e = absurd (k.0 (sym (head_inj e).0))
split_sep (x ∷ s) [] u v h k e = absurd (h.0 (head_inj e).0)
split_sep (x ∷ s) (y ∷ t) u v h k e =
    let (p, q) = head_inj e in let (r, w) = split_sep s t u v h.1 k.1 q in (cc, w)

decimal-NoSep : (n : ℕ) → NoSep (decimal n)
decimal-NoSep n =
    All-map IsDigit (λ c. c ≢ sep) (decimal n) (λ c d. ground arith) (decimal-digits n)

components :
    (a b : MessageKey) → IsPlain a → IsPlain b → message_key_of a ≡ message_key_of b → a ≡ b
unfolding message_key_of
components a b p q h =
    let s1 = split_sep a.source_blockchain_id b.source_blockchain_id _ _ p.source q.source h in
    let s2 =
      split_sep a.destination_blockchain_id b.destination_blockchain_id _ _ p.destination
        q.destination s1.1 in
    let s3 =
      split_sep a.teleporter_messenger_address b.teleporter_messenger_address _ _ p.messenger
        q.messenger s2.1 in
    let s4 =
      split_sep (decimal a.registry_protocol_version) (decimal b.registry_protocol_version)
        a.message_id b.message_id (decimal-NoSep a.registry_protocol_version)
        (decimal-NoSep b.registry_protocol_version) s3.1 in
    λ i. record {
      source_blockchain_id = s1.0 i;
      destination_blockchain_id = s2.0 i;
      teleporter_messenger_address = s3.0 i;
      registry_protocol_version =
          decimal_inj a.registry_protocol_version b.registry_protocol_version s4.0 i;
      message_id = s4.1 i;
    }

-- Two message keys without "|" in their components are the same message only if all five components
-- agree: `sameMessage` decides equality of keys.
pub same_message_iff :
    (a b : MessageKey) → IsPlain a → IsPlain b → (same_message a b ≡ true) ↔ (a ≡ b)
unfolding same_message
same_message_iff a b p q =
    (λ h. parts ((text_eq_iff _ _).0 h), λ e. (text_eq_iff _ _).1 (ap message_key_of e))
  where
    parts : message_key_of a ≡ message_key_of b → a ≡ b
    parts h = components a b p q h
