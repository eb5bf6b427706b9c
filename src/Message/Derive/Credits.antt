-- ===== src/Message/Derive/Credits.antt =====
-- Two different credits of one message.
use mathlib.Core.List.Permᴰ
use mathlib.Core.Path.{subst}
use ictt_sentinel.Base.{
  ℕ, suc, ◌<◌, ◌≤◌, ◌≡◌, ◌≢◌, ◌↔◌, ◌⊎◌, refl, sym, ap, ◌∙◌, inl, inr, Bool, true, false, ◌&&◌, ◌||◌,
  List, [], ◌∷◌, map, Memᴰ, some, arith, Bool-cases, length, any-witness, any-of_mem, mem-filter_of,
}
use ictt_sentinel.Base.Text.{Text, text_eq, text_eq_iff, text_eq_refl}
use ictt_sentinel.Base.Sets.{sort-perm}
use ictt_sentinel.Base.Keyed.{by_key, text_lt, has_key, IsDistinct, mem-perm}
use ictt_sentinel.Base.Members.{mem-map, mem-of_map, mem-filter}
use ictt_sentinel.Base.Perm.{length-perm}
use ictt_sentinel.Domain.{Verdict}
use ictt_sentinel.Message.Keys.{RawFactRef, raw_fact_ref_of}
use ictt_sentinel.Message.Inputs.{TransitionInput, TransitionKind, is_destination_effect}
use ictt_sentinel.Message.Aggregate.{MessageAggregate, Entry}
use ictt_sentinel.Message.Derive.{
  EvaluationContext, ref_of, set_fact, set_facts, carries_effect, effects_of, distinct_effects,
  derive_state,
}
use ictt_sentinel.Message.Derive.Verdicts.{HasExecuted, few_effects_iff, many_effects_iff}

-- The input is an execution that does not say that it carries no economic effect.
abbrev pub IsCredit : TransitionInput → Type 0
IsCredit f =
    ((f.kind ≡ TransitionKind.execution_succeeded) ⊎ (f.kind ≡ TransitionKind.execution_retried))
    × (f.carries_economic_effect ≢ some false)

is_credit : TransitionInput → Bool
is_credit f = is_destination_effect f.kind && carries_effect f

IsCredit-iff : (f : TransitionInput) → (is_credit f ≡ true) ↔ IsCredit f
unfolding is_credit
IsCredit-iff f = (λ h. ground (arith, h), λ h. ground (arith, h.0, h.1))

set_fact-has_key :
    (r : Text) (gs : List TransitionInput) (f : TransitionInput)
    → has_key ref_of r (set_fact gs f) ≡ (has_key ref_of r gs || text_eq (ref_of f) r)
set_fact-has_key r [] f = ground arith
set_fact-has_key r (g ∷ gs) f = elim (Bool-cases (text_eq (ref_of g) (ref_of f))) [
  | inl e ↦ rw e (ground (arith, ap (λ t. text_eq t r) ((text_eq_iff (ref_of g) (ref_of f)).0 e)))
  | inr e ↦ rw e (ground (arith, set_fact-has_key r gs f))
]

set_facts-has_key :
    (r : Text) (fs out : List TransitionInput)
    → has_key ref_of r (set_facts out fs) ≡ (has_key ref_of r out || has_key ref_of r fs)
set_facts-has_key r [] out = ground arith
set_facts-has_key r (f ∷ fs) out =
    set_facts-has_key r fs (set_fact out f) ∙ ground (arith, set_fact-has_key r out f)

set_fact-IsDistinct :
    (gs : List TransitionInput) (f : TransitionInput)
    → IsDistinct ref_of gs
    → IsDistinct ref_of (set_fact gs f)
set_fact-IsDistinct [] f d = (refl, tt)
set_fact-IsDistinct (g ∷ gs) f d = elim (Bool-cases (text_eq (ref_of g) (ref_of f))) [
  | inl e ↦
      rw e
        (ap (λ t. has_key ref_of t gs) (sym ((text_eq_iff (ref_of g) (ref_of f)).0 e)) ∙ d.0, d.1)
  | inr e ↦ rw e (
    set_fact-has_key (ref_of g) gs f
        ∙ ground
            (arith, d.0, e, text_eq_iff (ref_of f) (ref_of g), text_eq_iff (ref_of g) (ref_of f)),
    set_fact-IsDistinct gs f d.1,
  )
]

set_facts-IsDistinct :
    (fs out : List TransitionInput) → IsDistinct ref_of out → IsDistinct ref_of (set_facts out fs)
set_facts-IsDistinct [] out d = d
set_facts-IsDistinct (f ∷ fs) out d =
    set_facts-IsDistinct fs (set_fact out f) (set_fact-IsDistinct out f d)

length-map : {A B : Type 0} (f : A → B) (xs : List A) → length (map f xs) ≡ length xs
length-map f [] = refl
length-map f (x ∷ xs) = ap suc (length-map f xs)

-- Two references stand in the list.
abbrev HasTwo : List TransitionInput → Type 0
HasTwo xs = (r s : Text) × (r ≢ s) × (has_key ref_of r xs ≡ true) × (has_key ref_of s xs ≡ true)

too_few : (n : ℕ) → n ≤ 1 → ¬ (1 < n)
too_few n h = omega arith

only_one : (x : TransitionInput) (r : Text) → has_key ref_of r (x ∷ []) ≡ true → ref_of x ≡ r
only_one x r h = (text_eq_iff (ref_of x) r).0 (ground (arith, h))

HasTwo-iff : (xs : List TransitionInput) → IsDistinct ref_of xs → (1 < length xs) ↔ HasTwo xs
HasTwo-iff [] d = (λ h. absurd (too_few 0 (omega arith) h), λ h. cc (h.3))
HasTwo-iff (x ∷ []) d = (
  λ h. absurd (too_few 1 (omega arith) h),
  λ h. absurd (h.2 (sym (only_one x h.0 h.3) ∙ only_one x h.1 h.4)),
)
HasTwo-iff (x ∷ y ∷ xs) d = (
  λ _. (
    ref_of x,
    ref_of y,
    (λ e. cc (second d.0, (text_eq_iff (ref_of y) (ref_of x)).1 (sym e))),
    ground (arith, text_eq_refl (ref_of x)),
    ground (arith, text_eq_refl (ref_of y)),
  ),
  λ _. omega arith,
)
  where
    second : has_key ref_of (ref_of x) (y ∷ xs) ≡ false → text_eq (ref_of y) (ref_of x) ≡ false
    second h = ground (arith, h)

-- The credits among the facts.
abbrev credits : MessageAggregate → List TransitionInput
credits a = effects_of is_destination_effect a

credits-has_key_iff :
    (a : MessageAggregate) (r : Text)
    → (has_key ref_of r (credits a) ≡ true)
      ↔ ((e : Entry) × Memᴰ e a.facts × IsCredit e.1 × (ref_of e.1 ≡ r))
unfolding is_credit
credits-has_key_iff a r = (
  λ h.
      let (f, m, q) = any-witness (λ x. text_eq (ref_of x) r) (credits a) h in
      let (n, c) = mem-filter is_credit (map (λ e. e.1) a.facts) m in
      let (e, k, p) = mem-of_map (λ e. e.1) a.facts n in
      (
        e,
        k,
        subst IsCredit p ((IsCredit-iff f).0 c),
        sym (ap ref_of p) ∙ (text_eq_iff (ref_of f) r).0 q,
      ),
  λ h.
      any-of_mem (λ x. text_eq (ref_of x) r)
        (mem-filter_of is_credit (mem-map (λ e. e.1) h.1) ((IsCredit-iff h.0.1).1 h.2))
        ((text_eq_iff (ref_of h.0.1) r).1 h.3),
)

reported :
    (a : MessageAggregate) (e : Entry)
    → Memᴰ e a.facts
    → IsCredit e.1
    → (r : RawFactRef) × Memᴰ r (distinct_effects a) × (raw_fact_ref_of r ≡ ref_of e.1)
unfolding distinct_effects is_credit
reported a e m c =
    let h =
      set_facts-has_key (ref_of e.1) (credits a) []
      ∙ (credits-has_key_iff a (ref_of e.1)).1 (e, m, c, refl) in
    let (f, n, q) =
      any-witness (λ x. text_eq (ref_of x) (ref_of e.1)) (set_facts [] (credits a)) h in
    (
      f.fact,
      mem-map (λ x. x.fact) (mem-perm (Permᴰ.symm (sort-perm (by_key ref_of text_lt) _)) n),
      (text_eq_iff (ref_of f) (ref_of e.1)).0 q,
    )

length-distinct_effects :
    (a : MessageAggregate) → length (distinct_effects a) ≡ length (set_facts [] (credits a))
unfolding distinct_effects
length-distinct_effects a =
    length-map (λ x. x.fact) _
    ∙ length-perm (sort-perm (by_key ref_of text_lt) (set_facts [] (credits a)))

-- Two different credits.
abbrev pub HasDoubleCredit : MessageAggregate → Type 0
HasDoubleCredit a =
    (e f : Entry) × Memᴰ e a.facts
    × Memᴰ f a.facts
    × IsCredit e.1
    × IsCredit f.1
    × (raw_fact_ref_of e.1.fact ≢ raw_fact_ref_of f.1.fact)

HasDoubleCredit-iff : (a : MessageAggregate) → (1 < length (distinct_effects a)) ↔ HasDoubleCredit a
HasDoubleCredit-iff a = (
  λ h.
      let (r, s, d, p, q) = (two.0 (subst (λ n. 1 < n) (length-distinct_effects a) h)) in
      let (e, m, c, x) = (credits-has_key_iff a r).0 (sym (kept r) ∙ p) in
      let (f, n, k, y) = (credits-has_key_iff a s).0 (sym (kept s) ∙ q) in
      (e, f, m, n, c, k, (λ same. d (sym x ∙ same ∙ y))),
  λ (e, f, m, n, c, k, d).
      subst (λ n. 1 < n) (sym (length-distinct_effects a))
        (two.1 (
          ref_of e.1,
          ref_of f.1,
          d,
          kept (ref_of e.1) ∙ (credits-has_key_iff a (ref_of e.1)).1 (e, m, c, refl),
          kept (ref_of f.1) ∙ (credits-has_key_iff a (ref_of f.1)).1 (f, n, k, refl),
        )),
)
  where
    two : (1 < length (set_facts [] (credits a))) ↔ HasTwo (set_facts [] (credits a))
    two = HasTwo-iff (set_facts [] (credits a)) (set_facts-IsDistinct (credits a) [] tt)

    kept : (r : Text) → has_key ref_of r (set_facts [] (credits a)) ≡ has_key ref_of r (credits a)
    kept r = set_facts-has_key r (credits a) []

-- A double credit is never absorbed: the derived verdict is CRITICAL exactly when the facts hold two
-- executions with economic effect under different references, whether they succeeded at once or on a
-- retry; and then every such execution is among the reported duplicates.
pub derive_state-critical_iff :
    (a : MessageAggregate) (context : EvaluationContext)
    → (((derive_state a context).verdict ≡ Verdict.critical) ↔ HasDoubleCredit a)
      × (HasDoubleCredit a
          → (e : Entry) → Memᴰ e a.facts
          → IsCredit e.1
          → (r : RawFactRef) × Memᴰ r (derive_state a context).duplicate_effect_facts
            × (raw_fact_ref_of r ≡ raw_fact_ref_of e.1.fact))
derive_state-critical_iff a context =
    let (verdict, all) = many_effects_iff a context in
    let two = HasDoubleCredit-iff a in
    (
      ((λ h. two.0 (verdict.0 h)), λ h. verdict.1 (two.1 h)),
      λ h e m c. let (r, n, q) = reported a e m c in (r, subst (Memᴰ r) (sym (all (two.1 h))) n, q),
    )

-- No quiet pass: the derived verdict is OK exactly when the facts hold an execution, no unsupported,
-- orphaned, paused or refused one, and no two executions with economic effect under different
-- references.
pub derive_state-ok_iff :
    (a : MessageAggregate) (context : EvaluationContext)
    → ((derive_state a context).verdict ≡ Verdict.ok) ↔ (HasExecuted a × (¬ HasDoubleCredit a))
derive_state-ok_iff a context =
    let few = few_effects_iff a context in
    let two = HasDoubleCredit-iff a in
    (
      λ h. let (x, le) = few.0 h in (x, λ d. too_few (length (distinct_effects a)) le (two.1 d)),
      λ h. few.1 (h.0, at_most (length (distinct_effects a)) (λ m. h.1 (two.0 m))),
    )
  where
    at_most : (n : ℕ) → ¬ (1 < n) → n ≤ 1
    at_most n h = omega (arith, h)
