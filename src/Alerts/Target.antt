-- ===== src/Alerts/Target.antt =====
-- packages/alerts/src/target.ts: the targets of notifications, and the check of their URL. Parsing a URL
-- is a parameter.
pub mod Hosts
use ictt_sentinel.Base.{
  ℕ, ◌+◌, Bool, true, false, not, ◌&&◌, ◌||◌, List, [], ◌∷◌, ◌++◌, map, Option, none, some,
  is_empty, leb, ◌==◌, if◌then◌else◌,
}
use ictt_sentinel.Base.Text.{Text, units, text_eq}
use ictt_sentinel.Domain.{Verdict, rank}

pub data TargetKind : Type 0 where
  slack pagerduty generic_webhook : TargetKind

pub data MinSeverity : Type 0 where
  warn unknown critical : MinSeverity

pub record AlertTarget : Type 0 where
  pub target_id : Text
  pub kind : TargetKind
  pub secret_ref : Text
  pub min_severity : MinSeverity

-- The fields of a parsed `URL` that are read.
pub record Url : Type 0 where
  pub protocol : Text
  pub username : Text
  pub password : Text
  pub hostname : Text
  pub port : Text

abbrev lower_unit : ℕ → ℕ
lower_unit c = if leb 65 c && leb c 90 then c + 32 else c

-- One code unit of a pattern, without regard to case.
abbrev unit_is : ℕ → ℕ → Bool
unit_is p c = lower_unit c == p

abbrev between : ℕ → ℕ → ℕ → Bool
between low high c = leb low c && leb c high

abbrev pub is_hex : ℕ → Bool
is_hex c = between 48 57 c || between 97 102 (lower_unit c)

-- `^` followed by the code units of the pattern.
abbrev pub starts : List (ℕ → Bool) → Text → Bool
starts [] t = true
starts (p ∷ ps) [] = false
starts (p ∷ ps) (c ∷ t) = p c && starts ps t

-- `^`, the code units of the pattern, and `$`.
abbrev pub is_exactly : List (ℕ → Bool) → Text → Bool
is_exactly [] t = is_empty t
is_exactly (p ∷ ps) [] = false
is_exactly (p ∷ ps) (c ∷ t) = p c && is_exactly ps t

-- The pattern stands at the end of the text.
abbrev pub ends : List (ℕ → Bool) → Text → Bool
ends ps [] = is_exactly ps []
ends ps (c ∷ t) = is_exactly ps (c ∷ t) || ends ps t

abbrev pub literal : Text → List (ℕ → Bool)
literal t = map unit_is t

-- `\[?` in front of the pattern.
abbrev starts_bracketed : List (ℕ → Bool) → Text → Bool
starts_bracketed ps t = starts ps t || starts (unit_is 91 ∷ ps) t

-- `/^172\.(1[6-9]|2\d|3[01])\./`
abbrev is_172_private : Text → Bool
is_172_private t =
    starts (literal (units "172.1") ++ between 54 57 ∷ unit_is 46 ∷ []) t
    || starts (literal (units "172.2") ++ between 48 57 ∷ unit_is 46 ∷ []) t
    || starts (literal (units "172.3") ++ between 48 49 ∷ unit_is 46 ∷ []) t

-- `/^\[?::1\]?$/`
abbrev is_loopback_6 : Text → Bool
is_loopback_6 t =
    text_eq t (units "::1")
    || text_eq t (units "[::1")
    || text_eq t (units "::1]")
    || text_eq t (units "[::1]")

-- The patterns on addresses, and that on `localhost`.
unfoldable pub is_private_address : Text → Bool
is_private_address t =
    is_exactly (literal (units "localhost")) t
    || starts (literal (units "127.")) t
    || starts (literal (units "0.")) t
    || starts (literal (units "10.")) t
    || starts (literal (units "192.168.")) t
    || is_172_private t
    || starts (literal (units "169.254.")) t
    || is_loopback_6 t
    || starts_bracketed (unit_is 102 ∷ unit_is 100 ∷ is_hex ∷ is_hex ∷ unit_is 58 ∷ []) t
    || starts_bracketed (unit_is 102 ∷ unit_is 99 ∷ is_hex ∷ is_hex ∷ unit_is 58 ∷ []) t
    || starts_bracketed (literal (units "fe80:")) t

-- `PRIVATE_PATTERNS.some(rx => rx.test(hostname))`
unfoldable pub is_private_host : Text → Bool
unfolding is_private_address
is_private_host t =
    is_private_address t
    || ends (literal (units ".local")) t
    || starts (literal (units "metadata.")) t

-- The check of a URL that was parsed: nothing, or the reason of the refusal.
abbrev pub check_url : Option Url → Option Text
check_url none = some (units "target is not a valid URL")
check_url (some url) =
    if not (text_eq url.protocol (units "https:"))
    then some (units "target must use https")
    else if not (is_empty url.username) || not (is_empty url.password)
    then some (units "credentials must not be embedded in the target URL")
    else if is_private_host url.hostname
    then some (units "target resolves to a private, link-local or metadata host")
    else if not (is_empty url.port) && not (text_eq url.port (units "443"))
    then some (units "target must use the default https port")
    else none

-- `checkTargetUrl`
unfoldable pub check_target_url : (Text → Option Url) → Text → Option Text
unfolding is_private_host
check_target_url parse raw = check_url (parse raw)

abbrev pub min_rank : MinSeverity → ℕ
min_rank MinSeverity.warn = 1
min_rank MinSeverity.unknown = 2
min_rank MinSeverity.critical = 3

-- `meetsThreshold`
unfoldable pub meets_threshold : AlertTarget → Verdict → Bool
meets_threshold target verdict = leb (min_rank target.min_severity) (rank verdict)
