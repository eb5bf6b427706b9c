-- ===== src/Alerts/Target/Hosts.antt =====
-- Which hosts the check of a target refuses.
use ictt_sentinel.Base.{
  ℕ, ◌≡◌, ◌≢◌, refl, ap, ◌||◌, Bool, true, false, List, [], ◌∷◌, ◌++◌, Memᴰ, All, All-mem, All-map,
  arith,
}
use ictt_sentinel.Base.Text.{Text, units, text_eq}
use ictt_sentinel.Alerts.Target.{is_private_host, is_private_address, is_hex, ends, starts, literal}

-- The dotted prefixes of the IPv4 ranges for this host, loopback, private use and link-local addresses,
-- which hold the address of the cloud metadata, and of the names of metadata services.
abbrev pub listed_prefixes : List Text
listed_prefixes =
    units "127."
    ∷ units "0."
    ∷ units "10."
    ∷ units "192.168."
    ∷ units "169.254."
    ∷ units "172.16."
    ∷ units "172.17."
    ∷ units "172.18."
    ∷ units "172.19."
    ∷ units "172.20."
    ∷ units "172.21."
    ∷ units "172.22."
    ∷ units "172.23."
    ∷ units "172.24."
    ∷ units "172.25."
    ∷ units "172.26."
    ∷ units "172.27."
    ∷ units "172.28."
    ∷ units "172.29."
    ∷ units "172.30."
    ∷ units "172.31."
    ∷ units "[fe80:"
    ∷ units "metadata."
    ∷ []

abbrev pub hex_digits : Text
hex_digits = units "0123456789abcdef"

-- The host is none of the forms that are listed, as the parser of URLs writes them, in lower case.
pub record IsUnlisted (host : Text) : Type 0 where
  pub not_local : host ≢ units "localhost"
  pub not_loopback : host ≢ units "[::1]"
  pub no_prefix : All (λ p. (rest : Text) → host ≢ p ++ rest) listed_prefixes
  pub not_multicast_dns : (name : Text) → host ≢ name ++ units ".local"
  pub not_unique_local :
      (x y : ℕ) (rest : Text)
      → Memᴰ x hex_digits
      → Memᴰ y hex_digits
      → (host ≢ units "[fc" ++ x ∷ y ∷ units ":" ++ rest)
        × (host ≢ units "[fd" ++ x ∷ y ∷ units ":" ++ rest)

refuses_prefix : All (λ p. (rest : Text) → is_private_host (p ++ rest) ≡ true) listed_prefixes
unfolding is_private_host is_private_address
refuses_prefix = ground arith

refuses_suffix : (name : Text) → is_private_host (name ++ units ".local") ≡ true
unfolding is_private_host
refuses_suffix name =
    second (is_private_address (name ++ units ".local")) _
      (starts (literal (units "metadata.")) (name ++ units ".local")) (ends_local name)
  where
    second : (x y z : Bool) → y ≡ true → (x || y || z) ≡ true
    second x y z h = ground arith

    ends_local : (t : Text) → ends (literal (units ".local")) (t ++ units ".local") ≡ true
    ends_local [] = refl
    ends_local (c ∷ t) = ground (arith, ends_local t)

is_hex-of_mem : (x : ℕ) → Memᴰ x hex_digits → is_hex x ≡ true
is_hex-of_mem x m = All-mem (λ c. is_hex c ≡ true) digits m
  where
    digits : All (λ c. is_hex c ≡ true) hex_digits
    digits = ground arith

refuses_unique_local :
    (x y : ℕ) (rest : Text)
    → is_hex x ≡ true
    → is_hex y ≡ true
    → (is_private_host (units "[fc" ++ x ∷ y ∷ units ":" ++ rest) ≡ true)
      × (is_private_host (units "[fd" ++ x ∷ y ∷ units ":" ++ rest) ≡ true)
unfolding is_private_host is_private_address
refuses_unique_local x y rest h k = (ground (arith, h, k), ground (arith, h, k))

refused : (t u : Text) → is_private_host t ≡ false → is_private_host u ≡ true → t ≢ u
refused t u h k e = cc (h, k, ap is_private_host e)

-- What the patterns let through is unlisted.
pub is_private_host-IsUnlisted : (host : Text) → is_private_host host ≡ false → IsUnlisted host
unfolding is_private_host is_private_address text_eq
is_private_host-IsUnlisted host h = record {
  not_local = refused host (units "localhost") h refl;
  not_loopback = refused host (units "[::1]") h refl;
  no_prefix =
      All-map (λ p. (rest : Text) → is_private_host (p ++ rest) ≡ true)
        (λ p. (rest : Text) → host ≢ p ++ rest) listed_prefixes
        (λ p r rest. refused host (p ++ rest) h (r rest)) refuses_prefix;
  not_multicast_dns = λ name. refused host (name ++ units ".local") h (refuses_suffix name);
  not_unique_local = λ x y rest m n.
      let r = refuses_unique_local x y rest (is_hex-of_mem x m) (is_hex-of_mem y n) in
      (refused host _ h r.0, refused host _ h r.1);
}
