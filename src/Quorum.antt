-- ===== src/Quorum.antt =====
-- packages/rpc-quorum/src/independence.ts and quorum.ts: which witnesses are independent, and what they
-- agree on.
pub mod Witness
pub mod Links
pub mod Groups
pub mod Partition
pub mod Evaluate
pub mod Correlation
use ictt_sentinel.Base.{
  ◌≡◌, Bool, true, false, not, ◌&&◌, ◌||◌, List, [], ◌∷◌, ◌++◌, map, Option, none, some, filter,
  any, if◌then◌else◌,
}
use ictt_sentinel.Base.Text.{Text, text_eq}
use ictt_sentinel.Base.Sets.{contains, text_Eq}

-- `for (const x of xs) set.add(x)`
unfoldable pub add_all : List Text → List Text → List Text
add_all set [] = set
add_all set (x ∷ xs) = add_all (if contains set x then set else set ++ x ∷ []) xs

-- An element of `components`.
pub record Component {ℓ} (A : Type ℓ) : Type ℓ where
  pub domains : List Text
  pub providers : List Text
  pub items : List A

-- The two fields of `IndependenceClaim`, read from any item.
module _ {ℓ} {A : Type ℓ} (trust_domain provider_group : A → Text) where
  -- `c.domains.has(item.trustDomain) || c.providers.has(item.providerGroup)`
  abbrev pub touches : A → Component A → Bool
  touches item c =
      contains c.domains (trust_domain item) || contains c.providers (provider_group item)

  abbrev pub alone : A → Component A
  alone item = record {
    domains = trust_domain item ∷ [];
    providers = provider_group item ∷ [];
    items = item ∷ [];
  }

  -- The loop over `joined`.
  unfoldable pub merge_into : Component A → List (Component A) → Component A
  unfolding add_all
  merge_into merged [] = merged
  merge_into merged (c ∷ cs) =
      merge_into
        (record {
          domains = add_all merged.domains c.domains;
          providers = add_all merged.providers c.providers;
          items = merged.items ++ c.items;
        })
        cs

  -- The body of the loop over `items`; the components that are joined are spliced out.
  unfoldable pub place : List (Component A) → A → List (Component A)
  unfolding merge_into
  place cs item =
      filter (λ c. not (touches item c)) cs
      ++ merge_into (alone item) (filter (touches item) cs) ∷ []

  unfoldable pub place_all : List (Component A) → List A → List (Component A)
  unfolding place
  place_all cs [] = cs
  place_all cs (x ∷ xs) = place_all (place cs x) xs

  -- `independenceGroups`
  unfoldable pub independence_groups : List A → List (List A)
  unfolding place_all
  independence_groups xs = map (λ c. c.items) (place_all [] xs)
