-- ===== src/Replay/Plan.antt =====
-- A plan covers its window block by block, and a split halves a range.
use mathlib.Core.Path.{subst}
use ictt_sentinel.Base.{
  ℕ, zero, suc, ◌+◌, ◌≡◌, refl, ◌⊎◌, inl, inr, true, false, List, [], ◌∷◌, none, some, arith,
  Bool-cases,
}
use ictt_sentinel.Base.Int.{
  ℤ, pos, negsuc, /ℤ_pos, pos_part, ◌≤ℤ◌, ◌<ℤ◌, ◌+ℤ◌, ◌-ℤ◌, ◌/ℤ◌, ltb_ℤ, leb_ℤ, int_laws,
  eq_of_parts,
}
use ictt_sentinel.Replay.{BlockRange, PlanInput, plan_from, plan_ranges, span_of, split_range}

-- The ranges run from `from` to `head` in ascending order, each starts one block after the one
-- before it ends, and none is wider than `width`.
abbrev pub Tiles : ℤ → ℤ → ℤ → List BlockRange → Type 0
Tiles width from head [] = head <ℤ from
Tiles width from head (r ∷ rs) =
    (r.from_block ≡ from)
    × (from ≤ℤ r.to_block)
    × (r.to_block ≤ℤ head)
    × (r.to_block <ℤ from +ℤ width)
    × Tiles width (r.to_block +ℤ pos 1) head rs

leb_true : (x y : ℤ) → leb_ℤ x y ≡ true → x ≤ℤ y
leb_true x y h = ground (arith, h)

leb_false : (x y : ℤ) → leb_ℤ x y ≡ false → y <ℤ x
leb_false x y h = ground (arith, h)

ltb_true : (x y : ℤ) → ltb_ℤ x y ≡ true → x <ℤ y
ltb_true x y h = ground (arith, h)

ltb_false : (x y : ℤ) → ltb_ℤ x y ≡ false → y ≤ℤ x
ltb_false x y h = ground (arith, h)

leb_of_lt : (x y : ℤ) → y <ℤ x → leb_ℤ x y ≡ false
leb_of_lt x y h = ground (arith, h)

plan_from-past :
    (fuel : ℕ) (from head width : ℤ) → head <ℤ from → plan_from fuel from head width ≡ []
unfolding plan_from
plan_from-past zero from head width h = refl
plan_from-past (suc fuel) from head width h = rw (leb_of_lt from head h) refl

plan_from-Tiles :
    (fuel : ℕ) (from head width : ℤ)
    → pos 1 ≤ℤ width
    → head <ℤ from +ℤ pos fuel
    → Tiles width from head (plan_from fuel from head width)
unfolding plan_from
plan_from-Tiles zero from head width w h = omega (int_laws, h)
plan_from-Tiles (suc fuel) from head width w h = elim (Bool-cases (leb_ℤ from head)) [
  | inl e ↦ rw e (elim (Bool-cases (ltb_ℤ head (from +ℤ width -ℤ pos 1))) [
    | inl k ↦ rw k (
      refl,
      leb_true from head e,
      omega arith,
      omega (int_laws, ltb_true head (from +ℤ width -ℤ pos 1) k),
      rw
          (plan_from-past fuel (from +ℤ width) head width
            (omega (int_laws, ltb_true head (from +ℤ width -ℤ pos 1) k)))
          (omega int_laws),
    )
    | inr k ↦ rw k (
      refl,
      omega (int_laws, w),
      ltb_false head (from +ℤ width -ℤ pos 1) k,
      omega int_laws,
      subst (λ x. Tiles width x head (plan_from fuel (from +ℤ width) head width))
          (eq_of_parts _ _ (omega int_laws))
          (plan_from-Tiles fuel (from +ℤ width) head width w (omega (int_laws, w, h))),
    )
  ])
  | inr e ↦ rw e (leb_false from head e)
]

-- No height falls between two chunks: for a width of at least one and a window that is not empty,
-- the plan is produced, and its ranges tile the window from the start to the head within the width.
pub plan_ranges-Tiles :
    (input : PlanInput)
    → pos 1 ≤ℤ input.max_range_blocks
    → input.start_block ≤ℤ input.agreed_head
    → (rs : List BlockRange) × (plan_ranges input ≡ some rs)
      × Tiles input.max_range_blocks input.start_block input.agreed_head rs
unfolding plan_ranges
plan_ranges-Tiles input w h = (
  plan_from (pos_part (input.agreed_head -ℤ input.start_block) + 1) input.start_block
      input.agreed_head input.max_range_blocks,
  rw (le_ltb input.max_range_blocks (pos 1) w, le_ltb input.agreed_head input.start_block h) refl,
  plan_from-Tiles _ input.start_block input.agreed_head input.max_range_blocks w (omega int_laws),
)
  where
    le_ltb : (x y : ℤ) → y ≤ℤ x → ltb_ℤ x y ≡ false
    le_ltb x y p = ground (arith, p)

half_bounds : (x : ℤ) → pos 1 <ℤ x → (pos 1 ≤ℤ x /ℤ pos 2) × (x /ℤ pos 2 <ℤ x)
half_bounds (pos n) h = rw (/ℤ_pos n 2) (omega (arith, h), omega (arith, h))
half_bounds (negsuc n) h = absurd (negative n h)
  where
    negative : (k : ℕ) → ¬ (pos 1 <ℤ negsuc k)
    negative k = omega arith

-- A split makes the work smaller and loses nothing: a range of at least two blocks is split into two
-- that are not empty, meet without a gap, and have the bounds of the range; any other is not split.
pub split_range-halves :
    (r : BlockRange)
    → ((span_of r ≤ℤ pos 1) × (split_range r ≡ none))
      ⊎ ((a b : BlockRange) × (split_range r ≡ some (a, b))
          × (a.from_block ≡ r.from_block)
          × (b.to_block ≡ r.to_block)
          × (b.from_block ≡ a.to_block +ℤ pos 1)
          × (a.from_block ≤ℤ a.to_block)
          × (b.from_block ≤ℤ b.to_block))
unfolding split_range span_of
split_range-halves r = elim (Bool-cases (leb_ℤ (span_of r) (pos 1))) [
  | inl e ↦ inl (leb_true (span_of r) (pos 1) e, rw e refl)
  | inr e ↦
      let bounds = half_bounds (span_of r) (leb_false (span_of r) (pos 1) e) in
      inr (
        record {
          from_block = r.from_block;
          to_block = r.from_block +ℤ span_of r /ℤ pos 2 -ℤ pos 1;
        },
        record { from_block = r.from_block +ℤ span_of r /ℤ pos 2; to_block = r.to_block },
        rw e refl,
        refl,
        refl,
        eq_of_parts _ _ (omega int_laws),
        omega (int_laws, bounds.0),
        omega (int_laws, bounds.1),
      )
]
