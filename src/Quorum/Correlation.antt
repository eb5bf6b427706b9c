-- ===== src/Quorum/Correlation.antt =====
-- packages/rpc-quorum/src/independence.ts: endpoints that turn out to be one, and the groups once they
-- are counted as one. `localeCompare` and the digest are parameters.
pub mod Merged
pub mod Secret
use ictt_sentinel.Base.{
  ℕ, zero, suc, ◌≡◌, Bool, true, false, not, ◌&&◌, ◌||◌, List, [], ◌∷◌, ◌++◌, map, Option, none,
  some, filter, flat_map, if◌then◌else◌,
}
use ictt_sentinel.Base.Text.{Text, units, text_eq, text_le}
use ictt_sentinel.Base.Keyed.{text_lt}
use ictt_sentinel.Base.Sets.{sort, contains, text_Eq}
use ictt_sentinel.Quorum.{independence_groups}

-- `map.set(id, domain)`
unfoldable pub set_domain : List (Text × Text) → Text → Text → List (Text × Text)
set_domain [] id domain = (id, domain) ∷ []
set_domain (e ∷ es) id domain =
    let rest = set_domain es id domain in if text_eq e.0 id then (e.0, domain) ∷ es else e ∷ rest

-- `map.get(id)`
unfoldable pub get_domain : Text → List (Text × Text) → Option Text
get_domain id [] = none
get_domain id (e ∷ es) = let rest = get_domain id es in if text_eq e.0 id then some e.1 else rest

-- `a < b ? a : b`
abbrev pub winner_of : Text → Text → Text
winner_of a b = if text_lt a b then a else b

-- What the inner loop makes of one domain.
abbrev pub renamed : Text → Text → Text → Text
renamed a b domain = if text_eq domain a || text_eq domain b then winner_of a b else domain

abbrev pub rename_known : List (Text × Text) → Option Text → Option Text → List (Text × Text)
rename_known domains none b = domains
rename_known domains (some a) none = domains
rename_known domains (some a) (some b) = map (λ e. (e.0, renamed a b e.1)) domains

-- The body of the loop over the merges.
unfoldable pub merge_domains : List (Text × Text) → Text × Text → List (Text × Text)
unfolding get_domain
merge_domains domains pair =
    rename_known domains (get_domain pair.0 domains) (get_domain pair.1 domains)

unfoldable pub merge_all : List (Text × Text) → List (Text × Text) → List (Text × Text)
unfolding merge_domains
merge_all domains [] = domains
merge_all domains (m ∷ ms) = merge_all (merge_domains domains m) ms

-- The item with its collapsed domain.
pub record Claim (A : Type 0) : Type 0 where
  pub item : A
  pub trust_domain : Text
  pub provider_group : Text

abbrev pub or_own : Option Text → Text → Text
or_own none own = own
or_own (some d) own = d

module _ {A : Type 0} (identify trust_domain provider_group : A → Text) where
  -- `new Map(items.map(...))`
  unfoldable pub domains_from : List (Text × Text) → List A → List (Text × Text)
  unfolding set_domain
  domains_from m [] = m
  domains_from m (x ∷ xs) = domains_from (set_domain m (identify x) (trust_domain x)) xs

  abbrev pub claim_of : List (Text × Text) → A → Claim A
  claim_of domains x = record {
    item = x;
    trust_domain = or_own (get_domain (identify x) domains) (trust_domain x);
    provider_group = provider_group x;
  }

  unfoldable pub collapsed_claims : List A → List (Text × Text) → List (Claim A)
  unfolding domains_from merge_all get_domain
  collapsed_claims items merges = map (claim_of (merge_all (domains_from [] items) merges)) items

  -- `collapsedIndependenceGroups`
  unfoldable pub collapsed_independence_groups : List A → List (Text × Text) → List (List A)
  unfolding collapsed_claims independence_groups
  collapsed_independence_groups items merges = map (map (λ c. c.item)) (
      independence_groups (λ c. c.trust_domain) (λ c. c.provider_group)
        (collapsed_claims items merges))

pub record EndpointCorrelationInput : Type 0 where
  pub endpoint_id : Text
  pub trust_domain : Text
  pub secret_ref : Text
  pub hostname : Option Text
  pub addresses : List Text
  pub cnames : List Text

pub data CorrelationSignal : Type 0 where
  same_secret_ref same_hostname shared_address shared_cname : CorrelationSignal

pub record CorrelationFinding : Type 0 where
  pub signal : CorrelationSignal
  pub conclusive : Bool
  pub endpoint_ids : Text × Text
  pub trust_domains : Text × Text
  pub shared_digest : Text

pub record CorrelationResult : Type 0 where
  pub findings : List CorrelationFinding
  pub merges : List (Text × Text)

-- `CONCLUSIVE_SIGNALS.includes(signal)`
abbrev pub is_conclusive : CorrelationSignal → Bool
is_conclusive same_secret_ref = true
is_conclusive same_hostname = true
is_conclusive shared_address = false
is_conclusive shared_cname = false

abbrev pub signal_text : CorrelationSignal → Text
signal_text same_secret_ref = units "same-secret-ref"
signal_text same_hostname = units "same-hostname"
signal_text shared_address = units "shared-address"
signal_text shared_cname = units "shared-cname"

abbrev pub first_text : List Text → Option Text
first_text [] = none
first_text (t ∷ ts) = some t

abbrev pub same_host : Option Text → Option Text → Option Text
same_host none b = none
same_host (some a) none = none
same_host (some a) (some b) = if text_eq a b then some a else none

-- `s.slice(0, n)`
abbrev pub slice_to : ℕ → Text → Text
slice_to zero t = []
slice_to (suc n) [] = []
slice_to (suc n) (c ∷ t) = c ∷ slice_to n t

module _ (collate_le : Text → Text → Bool) where
  -- `overlap`
  unfoldable pub overlap : List Text → List Text → Option Text
  overlap a b = first_text (sort collate_le (filter (contains b) a))

  -- The answer on one signal, or else what follows.
  abbrev pub signalled :
      CorrelationSignal
      → Option Text
      → Option (CorrelationSignal × Text)
      → Option (CorrelationSignal × Text)
  signalled signal none rest = rest
  signalled signal (some value) rest = some (signal, value)

  -- `strongestSignal`
  unfoldable pub strongest_signal :
      EndpointCorrelationInput → EndpointCorrelationInput → Option (CorrelationSignal × Text)
  unfolding overlap
  strongest_signal a b =
      if text_eq a.secret_ref b.secret_ref
      then some (same_secret_ref, a.secret_ref)
      else signalled same_hostname (same_host a.hostname b.hostname) (
          signalled shared_address (overlap a.addresses b.addresses)
            (signalled shared_cname (overlap a.cnames b.cnames) none))

  abbrev pub finding_of :
      (Text → Text)
      → EndpointCorrelationInput
      → EndpointCorrelationInput
      → Option (CorrelationSignal × Text)
      → List CorrelationFinding
  finding_of hash a b none = []
  finding_of hash a b (some m) =
      record {
        signal = m.0;
        conclusive = is_conclusive m.0;
        endpoint_ids = (a.endpoint_id, b.endpoint_id);
        trust_domains = (a.trust_domain, b.trust_domain);
        shared_digest = slice_to 16 (hash (signal_text m.0 ++ 124 ∷ m.1));
      }
      ∷ []

  -- The body of the loop over the pairs.
  unfoldable pub compare_pair :
      (Text → Text) → EndpointCorrelationInput → EndpointCorrelationInput → List CorrelationFinding
  unfolding strongest_signal
  compare_pair hash a b =
      if text_eq a.trust_domain b.trust_domain
      then []
      else finding_of hash a b (strongest_signal a b)

  unfoldable pub compare_pairs :
      (Text → Text) → List EndpointCorrelationInput → List CorrelationFinding
  unfolding compare_pair
  compare_pairs hash [] = []
  compare_pairs hash (a ∷ rest) = flat_map (compare_pair hash a) rest ++ compare_pairs hash rest

  -- `correlateEndpoints`; the merges are the pairs of the conclusive findings.
  unfoldable pub correlate_endpoints :
      List EndpointCorrelationInput → (Text → Text) → CorrelationResult
  unfolding compare_pairs
  correlate_endpoints inputs hash =
      let findings =
        compare_pairs hash (sort (λ a b. collate_le a.endpoint_id b.endpoint_id) inputs) in
      record {
        findings = findings;
        merges = map (λ f. f.endpoint_ids) (filter (λ f. f.conclusive) findings);
      }
