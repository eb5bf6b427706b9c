-- ===== src/Message/Watermark/Closed.antt =====
-- When a cut permits an evaluation.
use mathlib.Core.Path.{subst}
use ictt_sentinel.Base.{
  ◌≡◌, ◌↔◌, refl, sym, ap, ◌∙◌, ◌⊎◌, inl, inr, Bool, true, false, not, ◌||◌, ◌&&◌, List, [], ◌∷◌,
  map, Memᴰ, arith, Bool-cases, is_empty, is_empty-filter, length, ltb, any, any-false_iff,
  any-of_mem, any-witness, All, All-map, All-mem, All-of_mem, flat_map, filter,
  is_empty-flat_map_iff, Option, none, some,
}
use ictt_sentinel.Base.Int.{◌≤ℤ◌}
use ictt_sentinel.Base.Sets.{unique, is_empty-unique, text_Eq}
use ictt_sentinel.Message.Inputs.{TransitionKind, is_destination_effect}
use ictt_sentinel.Message.Aggregate.{MessageAggregate, Entry}
use ictt_sentinel.Message.Watermark.{
  ChainCut, within, in_cut, Cuts, has_cut, is_inside, is_source_fact, uncut_chains, edges_of,
  assess_cut, cut_permits_evaluation, source_facts, outside_cut, source_fact_outside_cut, OpenEdge,
}
use ictt_sentinel.Message.Keys.{message_key_of}

-- A destination effect inside the cut has a source fact, and all the source facts are inside the cut.
abbrev HasCause : Cuts → MessageAggregate → Type 0
HasCause cuts a =
    (e : Entry)
    → Memᴰ e a.facts
    → is_destination_effect e.1.kind ≡ true
    → is_inside cuts e ≡ true
    → ((s : Entry) × Memᴰ s a.facts × (is_source_fact s ≡ true))
      × ((s : Entry) → Memᴰ s a.facts → is_source_fact s ≡ true → is_inside cuts s ≡ true)

-- Every chain of a fact has a cut.
abbrev pub HasCuts : Cuts → MessageAggregate → Type 0
HasCuts cuts a = All (λ e. has_cut cuts e.1.position.blockchain_id ≡ true) a.facts

any-filter_and :
    {A : Type 0} (p q : A → Bool) (xs : List A) → any p (filter q xs) ≡ any (λ x. q x && p x) xs
any-filter_and p q [] = refl
any-filter_and p q (x ∷ xs) = ground (arith, any-filter_and p q xs)

is_empty-map : {A B : Type 0} (f : A → B) (xs : List A) → is_empty (map f xs) ≡ is_empty xs
is_empty-map f [] = refl
is_empty-map f (x ∷ xs) = refl

ltb-length : {A : Type 0} (xs : List A) → ltb 0 (length xs) ≡ not (is_empty xs)
ltb-length [] = refl
ltb-length (x ∷ xs) = ground arith

permits-lem :
    (aggregates : List MessageAggregate) (cuts : Cuts)
    → cut_permits_evaluation (assess_cut aggregates cuts) ≡ (
        is_empty (flat_map (uncut_chains cuts) aggregates)
        && is_empty (flat_map (edges_of cuts) aggregates))
unfolding cut_permits_evaluation assess_cut
permits-lem aggregates cuts = ground (
  arith,
  ltb-length (unique (flat_map (uncut_chains cuts) aggregates)),
  ltb-length (flat_map (edges_of cuts) aggregates),
  is_empty-unique (flat_map (uncut_chains cuts) aggregates),
)

uncut_iff :
    (cuts : Cuts) (a : MessageAggregate) → (is_empty (uncut_chains cuts a) ≡ true) ↔ HasCuts cuts a
unfolding uncut_chains
uncut_iff cuts a = (
  λ h. All-of_mem _ a.facts λ e m. flip (
      All-mem (λ u. not (has_cut cuts u.1.position.blockchain_id) ≡ false)
        ((any-false_iff (λ u. not (has_cut cuts u.1.position.blockchain_id)) a.facts).0
          (none_lem h))
        m),
  λ h. some_lem (
      (any-false_iff (λ u. not (has_cut cuts u.1.position.blockchain_id)) a.facts).1 (
        All-of_mem _ a.facts
          λ e m. ap not (All-mem (λ u. has_cut cuts u.1.position.blockchain_id ≡ true) h m))),
)
  where
    emptied :
        is_empty (uncut_chains cuts a)
        ≡ not (any (λ u. not (has_cut cuts u.1.position.blockchain_id)) a.facts)
    emptied = is_empty-map _ _ ∙ is_empty-filter _ a.facts

    flip : {b : Bool} → not b ≡ false → b ≡ true
    flip h = ground arith

    none_lem :
        is_empty (uncut_chains cuts a) ≡ true
        → any (λ u. not (has_cut cuts u.1.position.blockchain_id)) a.facts ≡ false
    none_lem h = ground (arith, emptied, h)

    some_lem :
        any (λ u. not (has_cut cuts u.1.position.blockchain_id)) a.facts ≡ false
        → is_empty (uncut_chains cuts a) ≡ true
    some_lem h = emptied ∙ ap not h

has_effect : Cuts → MessageAggregate → Bool
has_effect cuts a = any (λ e. is_destination_effect e.1.kind && is_inside cuts e) a.facts

has_source : MessageAggregate → Bool
has_source a = any is_source_fact a.facts

has_outside : Cuts → MessageAggregate → Bool
has_outside cuts a = any (λ e. is_source_fact e && not (is_inside cuts e)) a.facts

edges_empty :
    (cuts : Cuts) (a : MessageAggregate)
    → is_empty (edges_of cuts a)
      ≡ (not (has_effect cuts a) || (has_source a && not (has_outside cuts a)))
unfolding edges_of has_effect has_source has_outside
edges_empty cuts a = ground (
  arith,
  is_empty-filter (λ e. is_destination_effect e.1.kind && is_inside cuts e) a.facts,
  is_empty-filter is_source_fact a.facts,
  is_empty-filter (λ e. not (is_inside cuts e)) (source_facts a),
  any-filter_and (λ e. not (is_inside cuts e)) is_source_fact a.facts,
  is_empty-map {B = OpenEdge}
      (λ e. record {
        message_key = message_key_of a.key;
        blockchain_id = e.1.position.blockchain_id;
        reason = source_fact_outside_cut;
      })
      (outside_cut cuts a),
)

both : (x : Bool) {y : Bool} → x && y ≡ true → (x ≡ true) × (y ≡ true)
both x h = (ground arith, ground arith)

edges_iff :
    (cuts : Cuts) (a : MessageAggregate) → (is_empty (edges_of cuts a) ≡ true) ↔ HasCause cuts a
unfolding has_effect has_source has_outside
edges_iff cuts a = (
  λ h e m d i.
      let D =
        any-of_mem (λ e. is_destination_effect e.1.kind && is_inside cuts e) m
          (ground (arith, d, i)) in
      let c = caused D (sym (edges_empty cuts a) ∙ h) in
      (
        any-witness is_source_fact a.facts c.0,
        λ s n t.
            inside
              (All-mem (λ e. is_source_fact e && not (is_inside cuts e) ≡ false)
                ((any-false_iff _ a.facts).0 c.1) n)
              t,
      ),
  λ h. edges_empty cuts a ∙ elim (Bool-cases (has_effect cuts a)) [
    | inl e ↦
        let (d, m, q) =
          any-witness (λ e. is_destination_effect e.1.kind && is_inside cuts e) a.facts e in
        let (s, all) =
          h d m (both (is_destination_effect d.1.kind) q).0
            (both (is_destination_effect d.1.kind) q).1 in
        settled (any-of_mem is_source_fact s.1 s.2) (
          (any-false_iff (λ e. is_source_fact e && not (is_inside cuts e)) a.facts).1
            (All-of_mem _ a.facts λ u n. covered (all u n)))
    | inr e ↦ rw e refl
  ],
)
  where
    caused :
        has_effect cuts a ≡ true
        → (not (has_effect cuts a) || (has_source a && not (has_outside cuts a))) ≡ true
        → (has_source a ≡ true) × (has_outside cuts a ≡ false)
    caused e h = (ground (arith, e, h), ground (arith, e, h))

    inside : {x y : Bool} → x && not y ≡ false → x ≡ true → y ≡ true
    inside h k = ground arith

    covered : {x y : Bool} → (x ≡ true → y ≡ true) → x && not y ≡ false
    covered h = ground (arith, h)

    settled :
        has_source a ≡ true
        → has_outside cuts a ≡ false
        → (not (has_effect cuts a) || (has_source a && not (has_outside cuts a))) ≡ true
    settled h k = ground (arith, h, k)

-- What the code tests: some source fact, either accounting or send, and all of them inside the cut.
permits_iff :
    (aggregates : List MessageAggregate) (cuts : Cuts)
    → (cut_permits_evaluation (assess_cut aggregates cuts) ≡ true)
      ↔ (All (HasCuts cuts) aggregates × All (HasCause cuts) aggregates)
permits_iff aggregates cuts = (
  λ h.
      let p =
        both (is_empty (flat_map (uncut_chains cuts) aggregates))
          (sym (permits-lem aggregates cuts) ∙ h) in
      (
        All-map _ (HasCuts cuts) aggregates (λ a. (uncut_iff cuts a).0)
            ((is_empty-flat_map_iff (uncut_chains cuts) aggregates).0 p.0),
        All-map _ (HasCause cuts) aggregates (λ a. (edges_iff cuts a).0)
            ((is_empty-flat_map_iff (edges_of cuts) aggregates).0 p.1),
      ),
  λ h.
      permits-lem aggregates cuts
      ∙ join_lem
          ((is_empty-flat_map_iff (uncut_chains cuts) aggregates).1
            (All-map (HasCuts cuts) _ aggregates (λ a. (uncut_iff cuts a).1) h.0))
          ((is_empty-flat_map_iff (edges_of cuts) aggregates).1
            (All-map (HasCause cuts) _ aggregates (λ a. (edges_iff cuts a).1) h.1)),
)
  where
    join_lem : {x y : Bool} → x ≡ true → y ≡ true → x && y ≡ true
    join_lem h k = rw (h, k) refl

-- The chain of the fact has a cut, which is not below the fact's block.
abbrev pub IsInside : Cuts → Entry → Type 0
IsInside cuts e =
    (c : ChainCut) × (cuts e.1.position.blockchain_id ≡ some c)
    × (e.1.position.block_number ≤ℤ c.block_number)

is_inside_iff : (cuts : Cuts) (e : Entry) → (is_inside cuts e ≡ true) ↔ IsInside cuts e
unfolding is_inside in_cut
is_inside_iff cuts e = known (cuts e.1.position.blockchain_id)
  where
    some_inj : {a b : ChainCut} → some a ≡ some b → a ≡ b
    some_inj h = cc

    at_most :
        (c : ChainCut)
        → e.1.position.block_number ≤ℤ c.block_number
        → elim (within e.1.position (some c)) [
          | some true ↦ true
          | some false ↦ false
          | none ↦ false
        ]
          ≡ true
    at_most c h = ground (arith, h)

    known :
        (o : Option ChainCut)
        → (elim (within e.1.position o) [ some true ↦ true | some false ↦ false | none ↦ false ]
            ≡ true)
          ↔ ((c : ChainCut) × (o ≡ some c) × (e.1.position.block_number ≤ℤ c.block_number))
    known none = (λ h. cc, λ h. cc (h.1))
    known (some c) = (
      λ h. (c, refl, ground (arith, h)),
      λ h.
          at_most c
            (subst (λ x. e.1.position.block_number ≤ℤ x.block_number) (sym (some_inj h.1)) h.2),
    )

-- The source accounting.
abbrev pub IsAccounting : Entry → Type 0
IsAccounting e = e.1.kind ≡ TransitionKind.source_accounted

-- The send.
abbrev pub IsSend : Entry → Type 0
IsSend e = e.1.kind ≡ TransitionKind.icm_sent

-- The source accounting was observed exactly when the send was.
abbrev pub IsPaired : MessageAggregate → Type 0
IsPaired a =
    ((e : Entry) × Memᴰ e a.facts × IsAccounting e) ↔ ((e : Entry) × Memᴰ e a.facts × IsSend e)

-- A destination effect inside the cut has a source accounting and a send, and all of its source
-- accountings and sends are inside the cut.
abbrev pub IsClosed : Cuts → MessageAggregate → Type 0
IsClosed cuts a =
    (e : Entry)
    → Memᴰ e a.facts
    → is_destination_effect e.1.kind ≡ true
    → IsInside cuts e
    → ((s : Entry) × Memᴰ s a.facts × IsAccounting s)
      × ((s : Entry) × Memᴰ s a.facts × IsSend s)
      × ((s : Entry) → Memᴰ s a.facts → IsAccounting s ⊎ IsSend s → IsInside cuts s)

is_source_fact_iff : (e : Entry) → (is_source_fact e ≡ true) ↔ (IsAccounting e ⊎ IsSend e)
is_source_fact_iff e = (λ h. ground (arith, h), λ h. ground (arith, h))

HasCause-IsClosed :
    (cuts : Cuts) (a : MessageAggregate) → IsPaired a → HasCause cuts a ↔ IsClosed cuts a
HasCause-IsClosed cuts a p = (
  λ h e m d i.
      let ((s, n, t), all) = h e m d ((is_inside_iff cuts e).1 i) in
      let (x, y) = both_seen ((is_source_fact_iff s).0 t) n in
      (x, y, λ u k q. (is_inside_iff cuts u).0 (all u k ((is_source_fact_iff u).1 q))),
  λ h e m d i.
      let ((s, n, t), _, all) = h e m d ((is_inside_iff cuts e).0 i) in
      (
        (s, n, (is_source_fact_iff s).1 (inl t)),
        λ u k q. (is_inside_iff cuts u).1 (all u k ((is_source_fact_iff u).0 q)),
      ),
)
  where
    both_seen :
        {s : Entry}
        → IsAccounting s ⊎ IsSend s
        → Memᴰ s a.facts
        → ((u : Entry) × Memᴰ u a.facts × IsAccounting u)
          × ((u : Entry) × Memᴰ u a.facts × IsSend u)
    both_seen {s} (inl q) n = ((s, n, q), p.0 (s, n, q))
    both_seen {s} (inr q) n = (p.1 (s, n, q), (s, n, q))

-- Where each message has either both or neither of a source accounting and a send observed, the
-- evaluation is permitted exactly when, for every message, each chain of a fact has a cut, and a
-- destination effect inside the cut has its source accounting and its send observed, with all of them
-- inside the cut.
pub cut_permits_evaluation-IsClosed_iff :
    (aggregates : List MessageAggregate) (cuts : Cuts)
    → All IsPaired aggregates
    → (cut_permits_evaluation (assess_cut aggregates cuts) ≡ true)
      ↔ (All (HasCuts cuts) aggregates × All (IsClosed cuts) aggregates)
cut_permits_evaluation-IsClosed_iff aggregates cuts p = (
  λ h.
      let t = (permits_iff aggregates cuts).0 h in
      (
        t.0,
        All-of_mem _ aggregates λ a m.
            (HasCause-IsClosed cuts a (All-mem IsPaired p m)).0 (All-mem (HasCause cuts) t.1 m),
      ),
  λ h. (permits_iff aggregates cuts).1 (
    h.0,
    All-of_mem _ aggregates
        λ a m. (HasCause-IsClosed cuts a (All-mem IsPaired p m)).1 (All-mem (IsClosed cuts) h.1 m),
  ),
)
