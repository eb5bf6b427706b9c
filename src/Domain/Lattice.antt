-- ===== src/Domain/Lattice.antt =====
-- The combined verdict is the highest of the lattice.
use ictt_sentinel.Base.{
  ℕ, ◌≤◌, ◌≡◌, ◌≢◌, refl, sym, ap, ◌∙◌, ◌↔◌, ◌⊎◌, inl, inr, List, [], ◌∷◌, Memᴰ, arith, All,
  All-map, All-mem, ltb, if◌then◌else◌, Bool-cases,
}
use ictt_sentinel.Domain.{Judgement, ok, rank, rank_of, by_rank, highest_from, combine_verdicts}

highest_from-bound :
    (h : ℕ) (js : List Judgement)
    → (h ≤ highest_from h js) × All (λ j. rank_of j ≤ highest_from h js) js
unfolding highest_from
highest_from-bound h [] = (omega arith, tt)
highest_from-bound h (j ∷ js) =
    let next = if ltb h (rank_of j) then rank_of j else h in
    let ih = highest_from-bound next js in (ground (arith, ih.0), (ground (arith, ih.0), ih.1))

rank_of_le : (j : Judgement) → rank_of j ≤ 3
rank_of_le j = ground arith

highest_from-le : (h : ℕ) (js : List Judgement) → h ≤ 3 → highest_from h js ≤ 3
unfolding highest_from
highest_from-le h [] k = k
highest_from-le h (j ∷ js) k =
    highest_from-le (if ltb h (rank_of j) then rank_of j else h) js (ground (arith, rank_of_le j))

highest_from-attained :
    (h : ℕ) (js : List Judgement)
    → (highest_from h js ≡ h) ⊎ ((j : Judgement) × Memᴰ j js × (highest_from h js ≡ rank_of j))
unfolding highest_from
highest_from-attained h [] = inl refl
highest_from-attained h (j ∷ js) = elim (Bool-cases (ltb h (rank_of j))) [
  | inl e ↦ rw e (elim (highest_from-attained (rank_of j) js) [
    | inl p ↦ inr (j, Memᴰ.head refl, p)
    | inr (k, m, p) ↦ inr (k, Memᴰ.tail m, p)
  ])
  | inr e ↦ rw e (elim (highest_from-attained h js) [
    | inl p ↦ inl p
    | inr (k, m, p) ↦ inr (k, Memᴰ.tail m, p)
  ])
]

rank-by_rank : (n : ℕ) → n ≤ 3 → rank (by_rank n) ≡ n
rank-by_rank n h = ground arith

rank-combine :
    (j : Judgement) (js : List Judgement)
    → rank (combine_verdicts (j ∷ js)) ≡ highest_from 0 (j ∷ js)
unfolding combine_verdicts
rank-combine j js = rank-by_rank _ (highest_from-le 0 (j ∷ js) (omega arith))

combine-of_zero :
    (j : Judgement) (js : List Judgement)
    → highest_from 0 (j ∷ js) ≡ 0
    → combine_verdicts (j ∷ js) ≡ ok
unfolding combine_verdicts
combine-of_zero j js e = ap by_rank e

empty_unknown : combine_verdicts [] ≢ ok
unfolding combine_verdicts
empty_unknown h = cc

ok_of_rank : (j : Judgement) → rank_of j ≤ 0 → j.verdict ≡ ok
ok_of_rank j h = ground arith

rank_of_ok : (j : Judgement) → j.verdict ≡ ok → rank_of j ≡ 0
rank_of_ok j h = ground arith

-- The combined verdict of a non-empty list ranks at least as high as every judgement, where an
-- optional UNKNOWN counts as WARN, and, unless it is OK, it has the rank of one of them.
pub combine_verdicts-highest :
    (j : Judgement) (js : List Judgement)
    → All (λ k. rank_of k ≤ rank (combine_verdicts (j ∷ js))) (j ∷ js)
      × ((combine_verdicts (j ∷ js) ≡ ok)
          ⊎ ((k : Judgement) × Memᴰ k (j ∷ js) × (rank (combine_verdicts (j ∷ js)) ≡ rank_of k)))
combine_verdicts-highest j js = (
  All-map (λ k. rank_of k ≤ highest_from 0 (j ∷ js)) _ (j ∷ js)
      (λ k le. omega (arith, le, rank-combine j js)) (highest_from-bound 0 (j ∷ js)).1,
  elim (highest_from-attained 0 (j ∷ js)) [
    | inl e ↦ inl (combine-of_zero j js e)
    | inr (k, m, e) ↦ inr (k, m, rank-combine j js ∙ e)
  ],
)

-- Healthy only on evidence: the combined verdict is OK exactly when there is a judgement and all
-- judgements are OK.
pub combine_verdicts-ok_iff :
    (js : List Judgement) → (combine_verdicts js ≡ ok) ↔ ((js ≢ []) × All (λ j. j.verdict ≡ ok) js)
combine_verdicts-ok_iff [] = (λ h. absurd (empty_unknown h), λ h. absurd (h.0 refl))
combine_verdicts-ok_iff (j ∷ js) = (
  λ h. (
    (λ e. cc),
    All-map _ (λ k. k.verdict ≡ ok) (j ∷ js) (λ k le. ok_of_rank k (omega (arith, le, rank_zero h)))
        (highest_from-bound 0 (j ∷ js)).1,
  ),
  λ h. elim (highest_from-attained 0 (j ∷ js)) [
    | inl e ↦ combine-of_zero j js e
    | inr (k, m, e) ↦ combine-of_zero j js (e ∙ rank_of_ok k (All-mem (λ i. i.verdict ≡ ok) h.1 m))
  ],
)
  where
    rank_zero : combine_verdicts (j ∷ js) ≡ ok → highest_from 0 (j ∷ js) ≡ 0
    rank_zero h = sym (rank-combine j js) ∙ ap rank h
