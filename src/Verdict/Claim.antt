-- ===== src/Verdict/Claim.antt =====
-- The claim mode of an aggregate: `weakestClaim`.
use ictt_sentinel.Base.{
  ◌≤◌, ◌≡◌, refl, sym, ap, ◌∙◌, List, [], ◌∷◌, Memᴰ, arith, All, Permᴰ, ltb, Bool-cases, ◌⊎◌, inl,
  inr,
}
use ictt_sentinel.Verdict.{ClaimMode, exact, claim_rank, worse_claim, worst_from, weakest_claim}

worse_claim_comm :
    (w a b : ClaimMode) → worse_claim (worse_claim w a) b ≡ worse_claim (worse_claim w b) a
worse_claim_comm w a b = ground arith

worst_from-perm :
    (w : ClaimMode) {xs ys : List ClaimMode} → Permᴰ xs ys → worst_from w xs ≡ worst_from w ys
worst_from-perm w Permᴰ.nil = refl
worst_from-perm w (Permᴰ.cons {b} {l₁} {l₂} e h) = rw e (worst_from-perm (worse_claim w b) h)
worst_from-perm w (Permᴰ.swap {a} {b} {l = l} e f) =
    rw (← e, ← f) (ap (λ v. worst_from v l) (worse_claim_comm w a b))
worst_from-perm w (Permᴰ.trans h k) = worst_from-perm w h ∙ worst_from-perm w k

worse_claim_self : (m : ClaimMode) → worse_claim m m ≡ worse_claim exact m
worse_claim_self m = ground arith

weakest_claim-first :
    (m : ClaimMode) (ms : List ClaimMode) → weakest_claim (m ∷ ms) ≡ worst_from m ms
unfolding weakest_claim
weakest_claim-first m ms = ap (λ v. worst_from v ms) (same m)
  where
    same : (c : ClaimMode) → worse_claim c c ≡ c
    same c = ground arith

weakest_claim-cons :
    (m : ClaimMode) (ms : List ClaimMode) → weakest_claim (m ∷ ms) ≡ worst_from exact (m ∷ ms)
unfolding weakest_claim
weakest_claim-cons m ms = ap (λ v. worst_from v ms) (worse_claim_self m)

-- The order of the contributions does not matter.
pub weakest_claim-perm :
    {xs ys : List ClaimMode} → Permᴰ xs ys → weakest_claim xs ≡ weakest_claim ys
weakest_claim-perm Permᴰ.nil = refl
weakest_claim-perm (Permᴰ.cons {a} {b} {l₁} {l₂} e h) =
    weakest_claim-cons a l₁ ∙ worst_from-perm exact (Permᴰ.cons e h) ∙ sym (weakest_claim-cons b l₂)
weakest_claim-perm (Permᴰ.swap {a} {b} {a'} {b'} {l} e f) =
    weakest_claim-cons a (b ∷ l)
    ∙ worst_from-perm exact (Permᴰ.swap {l = l} e f)
    ∙ sym (weakest_claim-cons a' (b' ∷ l))
weakest_claim-perm (Permᴰ.trans h k) = weakest_claim-perm h ∙ weakest_claim-perm k

worst_from-bound :
    (w : ClaimMode) (ms : List ClaimMode)
    → (claim_rank w ≤ claim_rank (worst_from w ms))
      × All (λ m. claim_rank m ≤ claim_rank (worst_from w ms)) ms
worst_from-bound w [] = (omega arith, tt)
worst_from-bound w (m ∷ ms) =
    let ih = worst_from-bound (worse_claim w m) ms in
    (omega (arith, ih.0, keeps w m), (omega (arith, ih.0, takes w m), ih.1))
  where
    keeps : (u v : ClaimMode) → claim_rank u ≤ claim_rank (worse_claim u v)
    keeps u v = ground arith

    takes : (u v : ClaimMode) → claim_rank v ≤ claim_rank (worse_claim u v)
    takes u v = ground arith

-- No contribution claims less than the aggregate: each claim is at least as strong as the one
-- that `weakestClaim` returns, for every list of modes.
pub weakest_claim-bound :
    (ms : List ClaimMode) → All (λ m. claim_rank m ≤ claim_rank (weakest_claim ms)) ms
unfolding weakest_claim
weakest_claim-bound [] = tt
weakest_claim-bound (m ∷ ms) = (worst_from-bound m (m ∷ ms)).1

takes_one : (w m : ClaimMode) → (worse_claim w m ≡ w) ⊎ (worse_claim w m ≡ m)
takes_one w m = elim (Bool-cases (ltb (claim_rank w) (claim_rank m))) [
  | inl h ↦ inr (rw h)
  | inr h ↦ inl (rw h)
]

mem-skip : {c w m : ClaimMode} {ms : List ClaimMode} → Memᴰ c (w ∷ ms) → Memᴰ c (w ∷ m ∷ ms)
mem-skip (Memᴰ.head e) = Memᴰ.head e
mem-skip (Memᴰ.tail h) = Memᴰ.tail (Memᴰ.tail h)

worst_from-mem : (w : ClaimMode) (ms : List ClaimMode) → Memᴰ (worst_from w ms) (w ∷ ms)
worst_from-mem w [] = Memᴰ.head refl
worst_from-mem w (m ∷ ms) = elim (takes_one w m) [
  | inl h ↦ rw h (mem-skip (worst_from-mem w ms))
  | inr h ↦ rw h (Memᴰ.tail (worst_from-mem m ms))
]

-- The claim of a non-empty aggregate is that of one of its contributions.
pub weakest_claim-mem :
    (m : ClaimMode) (ms : List ClaimMode) → Memᴰ (weakest_claim (m ∷ ms)) (m ∷ ms)
weakest_claim-mem m ms = rw (weakest_claim-first m ms) (worst_from-mem m ms)
