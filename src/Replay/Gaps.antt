-- ===== src/Replay/Gaps.antt =====
-- What it means that no gap is found.
use ictt_sentinel.Base.{
  ◌≡◌, refl, sym, ap, ◌∙◌, inl, inr, true, false, List, [], ◌∷◌, Memᴰ, Option, none, some, arith,
  any, any-false_iff, All, All-zip, is_empty, is_empty_iff, Bool-cases, if◌then◌else◌,
}
use ictt_sentinel.Base.Int.{ℤ, pos, ◌≤ℤ◌, ◌<ℤ◌, ◌+ℤ◌, ◌-ℤ◌, ltb_ℤ, leb_ℤ, int_laws}
use ictt_sentinel.Base.Sets.{sort, sort_insert, sort-perm}
use ictt_sentinel.Base.Keyed.{mem-perm}
use ictt_sentinel.Domain.{Verdict}
use ictt_sentinel.Replay.{
  BlockRange, gaps_from, find_range_gaps, starts_before, is_gap_closed, CompletenessInput,
  assess_completeness, is_divergence, is_blocking, age_of, assess_age, refused_as, divergent,
  blocked, gap,
}

-- The height lies in one of the ranges.
abbrev pub IsCovered : List BlockRange → ℤ → Type 0
IsCovered rs h = (r : BlockRange) × Memᴰ r rs × (r.from_block ≤ℤ h) × (h ≤ℤ r.to_block)

IsCovered-from :
    (rs : List BlockRange) (cursor to h : ℤ)
    → is_empty (gaps_from cursor rs to) ≡ true
    → cursor ≤ℤ h
    → h ≤ℤ to
    → IsCovered rs h
unfolding gaps_from
IsCovered-from [] cursor to h e a b = absurd (outside cursor to h (ground (arith, e)) a b)
  where
    outside : (x y z : ℤ) → leb_ℤ x y ≡ false → x ≤ℤ z → ¬ (z ≤ℤ y)
    outside x y z k m n = ground (arith, k, m, n)
IsCovered-from (r ∷ rs) cursor to h e a b = elim (Bool-cases (leb_ℤ h r.to_block)) [
  | inl k ↦ (r, Memᴰ.head refl, omega (arith, no_gap (ground (arith, e)), a), le_of h r.to_block k)
  | inr k ↦
      let (s, m, p, q) =
        IsCovered-from rs (if leb_ℤ cursor r.to_block then r.to_block +ℤ pos 1 else cursor) to h
          (rest e) (advance k) b in
      (s, Memᴰ.tail m, p, q)
]
  where
    le_of : (x y : ℤ) → leb_ℤ x y ≡ true → x ≤ℤ y
    le_of x y k = ground (arith, k)

    no_gap : ltb_ℤ cursor r.from_block ≡ false → r.from_block ≤ℤ cursor
    no_gap k = ground (arith, k)

    rest :
        is_empty (gaps_from cursor (r ∷ rs) to) ≡ true
        → is_empty
            (gaps_from (if leb_ℤ cursor r.to_block then r.to_block +ℤ pos 1 else cursor) rs to)
          ≡ true
    rest k = ground (arith, k)

    above : leb_ℤ h r.to_block ≡ false → r.to_block +ℤ pos 1 ≤ℤ h
    above k = omega (int_laws, lt_of h r.to_block k)
      where
        lt_of : (x y : ℤ) → leb_ℤ x y ≡ false → y <ℤ x
        lt_of x y q = ground (arith, q)

    advance :
        leb_ℤ h r.to_block ≡ false
        → (if leb_ℤ cursor r.to_block then r.to_block +ℤ pos 1 else cursor) ≤ℤ h
    advance k = elim (Bool-cases (leb_ℤ cursor r.to_block)) [
      | inl t ↦ rw t (above k)
      | inr t ↦ rw t a
    ]

-- No gap, no missing height: if `findRangeGaps` reports nothing, every height of the window lies in
-- one of the covered ranges, in whatever order they are given and however they overlap.
pub find_range_gaps-IsCovered :
    (covered : List BlockRange) (window : BlockRange) (h : ℤ)
    → find_range_gaps covered window ≡ []
    → window.from_block ≤ℤ h
    → h ≤ℤ window.to_block
    → IsCovered covered h
unfolding find_range_gaps
find_range_gaps-IsCovered covered window h e a b =
    let (r, m, p, q) =
      IsCovered-from (sort starts_before covered) window.from_block window.to_block h
        ((is_empty_iff _).1 e) a b in
    (r, mem-perm (sort-perm starts_before covered) m, p, q)

-- A green replay is complete and fresh: if `assessCompleteness` answers OK, no open reason is a
-- divergence or blocks, every height of the window was committed, and the last success is not older
-- than its time to live.
pub assess_completeness-ok :
    (input : CompletenessInput)
    → (assess_completeness input).verdict ≡ Verdict.ok
    → All (λ r. (is_divergence r ≡ false) × (is_blocking r ≡ false)) input.open_reasons
      × ((h : ℤ)
          → input.window.from_block ≤ℤ h
          → h ≤ℤ input.window.to_block
          → IsCovered input.committed h)
      × ((t : ℤ) × (input.last_success_at ≡ some t) × (input.now -ℤ t ≤ℤ input.freshness_ttl_ms))
unfolding assess_completeness
assess_completeness-ok input h = elim (Bool-cases (any is_divergence input.open_reasons)) [
  | inl e ↦ absurd (never_ok (ap (λ r. r.verdict) (sym (diverged e)) ∙ h))
  | inr e ↦ elim (Bool-cases (any is_blocking input.open_reasons)) [
    | inl k ↦ absurd (never_ok (ap (λ r. r.verdict) (sym (is_blocked e k)) ∙ h))
    | inr k ↦ elim (Bool-cases (is_empty (find_range_gaps input.committed input.window))) [
      | inl g ↦ (
        All-zip (λ r. is_divergence r ≡ false) (λ r. is_blocking r ≡ false) input.open_reasons
            ((any-false_iff is_divergence input.open_reasons).0 e)
            ((any-false_iff is_blocking input.open_reasons).0 k),
        λ x a b.
            find_range_gaps-IsCovered input.committed input.window x ((is_empty_iff _).0 g) a b,
        aged input.last_success_at (ap (λ r. r.verdict) (sym (aged_branch e k g)) ∙ h),
      )
      | inr g ↦ absurd (never_ok (ap (λ r. r.verdict) (sym (gapped e k g)) ∙ h))
    ]
  ]
]
  where
    gaps : List BlockRange
    gaps = find_range_gaps input.committed input.window

    never_ok : ¬ (Verdict.unknown ≡ Verdict.ok)
    never_ok e = cc

    diverged :
        any is_divergence input.open_reasons ≡ true
        → assess_completeness input ≡ refused_as input divergent gaps
    diverged e = rw e refl

    is_blocked :
        any is_divergence input.open_reasons ≡ false
        → any is_blocking input.open_reasons ≡ true
        → assess_completeness input ≡ refused_as input blocked gaps
    is_blocked e k = rw e (rw k refl)

    gapped :
        any is_divergence input.open_reasons ≡ false
        → any is_blocking input.open_reasons ≡ false
        → is_empty gaps ≡ false
        → assess_completeness input ≡ refused_as input gap gaps
    gapped e k g = rw e (rw k (rw g refl))

    aged_branch :
        any is_divergence input.open_reasons ≡ false
        → any is_blocking input.open_reasons ≡ false
        → is_empty gaps ≡ true
        → assess_completeness input ≡ assess_age input gaps (age_of input.now input.last_success_at)
    aged_branch e k g = rw e (rw k (rw g refl))

    aged :
        (l : Option ℤ)
        → (assess_age input gaps (age_of input.now l)).verdict ≡ Verdict.ok
        → (t : ℤ) × (l ≡ some t) × (input.now -ℤ t ≤ℤ input.freshness_ttl_ms)
    aged none e = absurd (never_ok e)
    aged (some t) e = (t, refl, within (input.now -ℤ t) (ground (arith, e)))
      where
        within : (x : ℤ) → ltb_ℤ input.freshness_ttl_ms x ≡ false → x ≤ℤ input.freshness_ttl_ms
        within x k = ground (arith, k)

-- A later range keeps an earlier gap open: a window that is not empty is closed by the one range that
-- commits it in full, but counts as open again once a range is committed as well that starts later
-- than the height after the window.
pub is_gap_closed-later :
    (window later : BlockRange)
    → window.from_block ≤ℤ window.to_block
    → window.to_block +ℤ pos 1 <ℤ later.from_block
    → (is_gap_closed window (window ∷ []) ≡ true)
      × (is_gap_closed window (window ∷ later ∷ []) ≡ false)
unfolding is_gap_closed find_range_gaps sort sort_insert gaps_from
is_gap_closed-later window later h k = (ground (arith, tests), ground (arith, tests))
  where
    irrefl : (x : ℤ) → ltb_ℤ x x ≡ false
    irrefl x = ground arith

    leb_of : (x y : ℤ) → x ≤ℤ y → leb_ℤ x y ≡ true
    leb_of x y p = ground (arith, p)

    leb_not : (x y : ℤ) → y <ℤ x → leb_ℤ x y ≡ false
    leb_not x y p = ground (arith, p)

    ltb_of : (x y : ℤ) → x <ℤ y → ltb_ℤ x y ≡ true
    ltb_of x y p = ground (arith, p)

    tests :
        (ltb_ℤ window.from_block window.from_block ≡ false)
        × (leb_ℤ window.from_block window.to_block ≡ true)
        × (leb_ℤ (window.to_block +ℤ pos 1) window.to_block ≡ false)
        × (ltb_ℤ window.from_block later.from_block ≡ true)
        × (ltb_ℤ (window.to_block +ℤ pos 1) later.from_block ≡ true)
    tests = (
      irrefl window.from_block,
      leb_of window.from_block window.to_block h,
      leb_not (window.to_block +ℤ pos 1) window.to_block (omega int_laws),
      ltb_of window.from_block later.from_block (omega (int_laws, h, k)),
      ltb_of (window.to_block +ℤ pos 1) later.from_block k,
    )
