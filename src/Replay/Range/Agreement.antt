-- ===== src/Replay/Range/Agreement.antt =====
-- When the provider groups agree on a range.
use mathlib.Core.Path.{subst}
use ictt_sentinel.Base.{
  ℕ, ◌≤◌, ◌≡◌, ◌≢◌, refl, sym, ap, ◌∙◌, ◌↔◌, inl, inr, true, false, List, [], ◌∷◌, map, Option,
  none, some, any, filter, length, All, arith, Bool-cases, flat_map, any-false_iff, any-of_mem,
  All-of_mem, Memᴰ, is_empty,
}
use ictt_sentinel.Base.Grouped.{group_from, group_from-one, group_from-cases, IsMany, add_entry}
use ictt_sentinel.Base.Text.{Text, text_eq, text_eq_iff, text_eq_refl, text_le}
use ictt_sentinel.Base.Sets.{
  sort, sort-perm, unique, contains, contains-unique, is_empty-unique, text_Eq,
}
use ictt_sentinel.Base.Perm.{is_empty-perm}
use ictt_sentinel.Base.Keyed.{mem-perm}
use ictt_sentinel.Base.Members.{map-append}
use ictt_sentinel.Replay.Range.{RangeResult}
use ictt_sentinel.Replay.Range.Witnesses.{
  AgreementPolicy, Agreement, by_digest, independent_groups, first_result, witnesses_of,
  judge_digests, agree,
}

-- Enough groups answered, all with the digest, and no archive was used that is not declared.
pub record Agrees (policy : AgreementPolicy) (digest : Text) (results : List RangeResult)
    : Type 0 where
  pub some_result : results ≢ []
  pub same_digest : All (λ r. r.digest ≡ digest) results
  pub enough : policy.required_independent_groups ≤ length (independent_groups results)
  pub declared : policy.archive_fallback_declared ≡ false → All (λ r. r.via_archive ≡ false) results

judge_digests-one :
    (policy : AgreementPolicy) (results : List RangeResult) (k d : Text) (gs : List Text)
    (ws : List RangeResult)
    → (judge_digests policy results ((k, gs) ∷ []) ≡ Agreement.agreed d ws) ↔ (
        (policy.required_independent_groups ≤ length (independent_groups results))
        × (k ≡ d)
        × (witnesses_of results ≡ ws))
judge_digests-one policy results k d gs ws =
    (λ h. (ground (arith, h), ground (arith, h), ground (arith, h)), λ h. ground (arith, h))

judge_digests-IsMany :
    (policy : AgreementPolicy) (results : List RangeResult) (m : List (Text × List Text)) (d : Text)
    (ws : List RangeResult)
    → IsMany (λ (r : RangeResult). r.digest) (λ r. r.provider_group) m
    → judge_digests policy results m ≢ Agreement.agreed d ws
judge_digests-IsMany policy results (e ∷ f ∷ es) d ws h k = cc
judge_digests-IsMany policy results (e ∷ []) d ws h k = absurd h
judge_digests-IsMany policy results [] d ws h k = absurd h

-- The digests alone, without the test of the archive.
digests-agreed_iff :
    (policy : AgreementPolicy) (all results : List RangeResult) (d : Text) (ws : List RangeResult)
    → (judge_digests policy all (by_digest results) ≡ Agreement.agreed d ws) ↔ (
        (results ≢ [])
        × All (λ r. r.digest ≡ d) results
        × (policy.required_independent_groups ≤ length (independent_groups all))
        × (witnesses_of all ≡ ws))
unfolding by_digest group_from add_entry
digests-agreed_iff policy all [] d ws = (λ h. cc, λ h. absurd (h.0 refl))
digests-agreed_iff policy all (r ∷ rs) d ws = (to, from)
  where
    rest : List (Text × List Text)
    rest =
        group_from (λ x. x.digest) (λ x. x.provider_group) ((r.digest, r.provider_group ∷ []) ∷ [])
          rs

    one :
        All (λ x. x.digest ≡ r.digest) rs
        → rest ≡ (r.digest, r.provider_group ∷ map (λ x. x.provider_group) rs) ∷ []
    one a =
        group_from-one (λ x. x.digest) (λ x. x.provider_group) r.digest (r.provider_group ∷ []) rs a

    to :
        judge_digests policy all rest ≡ Agreement.agreed d ws
        → ((r ∷ rs) ≢ [])
          × All (λ x. x.digest ≡ d) (r ∷ rs)
          × (policy.required_independent_groups ≤ length (independent_groups all))
          × (witnesses_of all ≡ ws)
    to h =
        elim (group_from-cases (λ (x : RangeResult). x.digest) (λ x. x.provider_group) r.digest
          (r.provider_group ∷ []) rs) [
            | inl a ↦
                let t =
                  (judge_digests-one policy all r.digest d _ ws).0
                    (sym (ap (judge_digests policy all) (one a)) ∙ h) in
                ((λ e. cc), subst (λ x. All (λ y. y.digest ≡ x) (r ∷ rs)) t.1 (refl, a), t.0, t.2)
            | inr m ↦ absurd (judge_digests-IsMany policy all rest d ws m h)
          ]

    from :
        ((r ∷ rs) ≢ [])
          × All (λ x. x.digest ≡ d) (r ∷ rs)
          × (policy.required_independent_groups ≤ length (independent_groups all))
          × (witnesses_of all ≡ ws)
        → judge_digests policy all rest ≡ Agreement.agreed d ws
    from h =
        ap (judge_digests policy all)
          (one (subst (λ x. All (λ y. y.digest ≡ x) rs) (sym h.1.0) h.1.1))
        ∙ (judge_digests-one policy all r.digest d _ ws).1 (h.2, h.1.0, h.3)

-- The provider groups agree on a range exactly when there is an answer, all answers have the digest, at
-- least the required number of different groups answered, and no undeclared archive was used; the
-- witnesses are then those of `witnesses_of`. There is no majority rule.
pub agree-agreed_iff :
    (results : List RangeResult) (policy : AgreementPolicy) (d : Text) (ws : List RangeResult)
    → (agree results policy ≡ Agreement.agreed d ws)
      ↔ (Agrees policy d results × (witnesses_of results ≡ ws))
unfolding agree
agree-agreed_iff results policy d ws = (to, from)
  where
    to :
        agree results policy ≡ Agreement.agreed d ws
        → Agrees policy d results × (witnesses_of results ≡ ws)
    to h =
        let t = (digests-agreed_iff policy results results d ws).0 (ground (arith, h)) in
        (
          record {
            some_result = t.0;
            same_digest = t.1;
            enough = t.2;
            declared = λ e. (any-false_iff (λ r. r.via_archive) results).0 (ground (arith, h, e));
          },
          t.3,
        )

    from :
        Agrees policy d results × (witnesses_of results ≡ ws)
        → agree results policy ≡ Agreement.agreed d ws
    from h = elim (Bool-cases policy.archive_fallback_declared) [
      | inl e ↦ ground (
        arith,
        e,
        (digests-agreed_iff policy results results d ws).1
            (h.0.some_result, h.0.same_digest, h.0.enough, h.1),
      )
      | inr e ↦ ground (
        arith,
        e,
        (any-false_iff (λ r. r.via_archive) results).1 (h.0.declared e),
        (digests-agreed_iff policy results results d ws).1
            (h.0.some_result, h.0.same_digest, h.0.enough, h.1),
      )
    ]

pub record WitnessProvenance : Type 0 where
  pub digest : Text
  pub provider_groups : List Text
  pub required_independent_groups : ℕ
  pub start_block_hash : Text
  pub end_block_hash : Text

-- `provenanceOf` of an agreement on the digest by the witnesses; nothing where it throws.
unfoldable pub provenance_of : Text → List RangeResult → AgreementPolicy → Option WitnessProvenance
provenance_of digest [] policy = none
provenance_of digest (first ∷ rest) policy = some (record {
  digest = digest;
  provider_groups = map (λ w. w.provider_group) (first ∷ rest);
  required_independent_groups = policy.required_independent_groups;
  start_block_hash = first.start_block_hash;
  end_block_hash = first.end_block_hash;
})

-- The first result of the group carries its name.
first_of_group :
    (results : List RangeResult) (g : Text)
    → any (λ r. text_eq r.provider_group g) results ≡ true
    → map (λ w. w.provider_group) (first_result (filter (λ r. text_eq r.provider_group g) results))
      ≡ g ∷ []
first_of_group [] g h = cc
first_of_group (r ∷ rs) g h = elim (Bool-cases (text_eq r.provider_group g)) [
  | inl e ↦ rw e (ap (λ x. x ∷ []) ((text_eq_iff r.provider_group g).0 e))
  | inr e ↦ rw e (first_of_group rs g (ground (arith, e, h)))
]

groups_of :
    (results : List RangeResult) (gs : List Text)
    → All (λ g. any (λ r. text_eq r.provider_group g) results ≡ true) gs
    → map
        (λ w. w.provider_group)
        (flat_map (λ g. first_result (filter (λ r. text_eq r.provider_group g) results)) gs)
      ≡ gs
groups_of results [] h = refl
groups_of results (g ∷ gs) h =
    map-append (λ w. w.provider_group)
      (first_result (filter (λ r. text_eq r.provider_group g) results)) _
    ∙ rw (first_of_group results g h.0) (ap (λ t. g ∷ t) (groups_of results gs h.1))

named :
    (results : List RangeResult) (g : Text)
    → contains (map (λ r. r.provider_group) results) g
      ≡ any (λ r. text_eq r.provider_group g) results
named [] g = refl
named (r ∷ rs) g = ground (arith, named rs g)

-- The witnesses of an agreed range are one for each group that answered, in the order of their names.
witnesses_of-groups :
    (results : List RangeResult)
    → map (λ w. w.provider_group) (witnesses_of results) ≡ sort text_le (independent_groups results)
unfolding witnesses_of independent_groups
witnesses_of-groups results = groups_of results _ (All-of_mem _ _ answered)
  where
    answered :
        (g : Text)
        → Memᴰ g (sort text_le (unique (map (λ r. r.provider_group) results)))
        → any (λ r. text_eq r.provider_group g) results ≡ true
    answered g m =
        sym (named results g)
        ∙ (sym (contains-unique (map (λ r. r.provider_group) results) g)
            ∙ any-of_mem (λ x. text_eq x g) (mem-perm (sort-perm text_le _) m) (text_eq_refl g))

-- The provenance of an agreed range exists, and names every group that answered, once and in order.
pub agree-provenance :
    (results : List RangeResult) (policy : AgreementPolicy) (d : Text) (ws : List RangeResult)
    → agree results policy ≡ Agreement.agreed d ws
    → (p : WitnessProvenance) × (provenance_of d ws policy ≡ some p)
      × (p.provider_groups ≡ sort text_le (independent_groups results))
unfolding provenance_of independent_groups
agree-provenance results policy d ws h =
    let (a, w) = (agree-agreed_iff results policy d ws).0 h in
    known ws (ap (map (λ x. x.provider_group)) (sym w) ∙ witnesses_of-groups results)
      (some_group results a.some_result)
  where
    some_group :
        (rs : List RangeResult)
        → rs ≢ []
        → is_empty (sort text_le (unique (map (λ r. r.provider_group) rs))) ≡ false
    some_group [] n = absurd (n refl)
    some_group (r ∷ rs) n =
        is_empty-perm (sort-perm text_le (unique (map (λ x. x.provider_group) (r ∷ rs))))
        ∙ is_empty-unique (map (λ x. x.provider_group) (r ∷ rs))

    known :
        (vs : List RangeResult)
        → map (λ x. x.provider_group) vs
          ≡ sort text_le (unique (map (λ r. r.provider_group) results))
        → is_empty (sort text_le (unique (map (λ r. r.provider_group) results))) ≡ false
        → (p : WitnessProvenance) × (provenance_of d vs policy ≡ some p)
          × (p.provider_groups ≡ sort text_le (unique (map (λ r. r.provider_group) results)))
    known [] e n = cc (ap is_empty e, n)
    known (v ∷ vs) e n = (_, refl, e)
