-- ===== src/Drift.antt =====
-- packages/invariant-core/src/drift.ts: the comparison of what runs with the approved baseline.
use ictt_sentinel.Base.{
  Bool, true, false, not, ◌&&◌, List, [], ◌∷◌, ◌++◌, Option, any, filter, is_empty, when,
  if◌then◌else◌,
}
use ictt_sentinel.Base.Text.{Text}
use ictt_sentinel.Reason.{
  ReasonCode, cfg_d01_baseline_drift, cfg_d02_unapproved_candidate, cfg_d03_control_unresolved,
}
pub mod Assessed

-- `DRIFT_CONTROLS`
pub data DriftControl : Type 0 where
  runtime_vs_manifest proxy_implementation_slot proxy_beacon_slot proxy_admin_slot
        implementation_code_hash contract_address contract_role contract_linkage chain_identity
        chain_genesis token_decimals token_scaling minter_allowlist registrar_allowlist
        teleporter_registry teleporter_messenger teleporter_family teleporter_version
        registered_remote_census admin_upgrade_authority :
      DriftControl

-- `DRIFT_STATUSES`
pub data DriftStatus : Type 0 where
  matched drift candidate unknown : DriftStatus

pub record DriftObservation : Type 0 where
  pub control : DriftControl
  pub status : DriftStatus
  pub expected : Option Text
  pub observed : Option Text
  pub required : Bool

pub record DriftResult : Type 0 where
  pub confirmed_drift : List DriftObservation
  pub candidates : List DriftObservation
  pub unresolved : List DriftObservation
  pub reasons : List ReasonCode
  pub critical : Bool
  pub all_required_established : Bool

-- `CRITICAL_CONTROLS.has(control)`
unfoldable pub is_critical_control : DriftControl → Bool
is_critical_control proxy_implementation_slot = true
is_critical_control proxy_beacon_slot = true
is_critical_control proxy_admin_slot = true
is_critical_control implementation_code_hash = true
is_critical_control contract_address = true
is_critical_control contract_linkage = true
is_critical_control chain_identity = true
is_critical_control chain_genesis = true
is_critical_control token_decimals = true
is_critical_control token_scaling = true
is_critical_control minter_allowlist = true
is_critical_control admin_upgrade_authority = true
is_critical_control _ = false

abbrev pub is_drift : DriftObservation → Bool
is_drift o = elim o.status [ drift ↦ true | _ ↦ false ]

abbrev pub is_unknown : DriftObservation → Bool
is_unknown o = elim o.status [ unknown ↦ true | _ ↦ false ]

abbrev pub is_candidate : DriftObservation → Bool
is_candidate o = elim o.status [ candidate ↦ true | _ ↦ false ]

unfoldable pub assess_drift : List DriftObservation → DriftResult
unfolding is_critical_control
assess_drift observations =
    let required = filter (λ o. o.required) observations in
    let confirmed_drift = filter is_drift required in
    let unresolved = filter is_unknown required in
    let candidates = filter is_candidate observations in
    record {
      confirmed_drift = confirmed_drift;
      candidates = candidates;
      unresolved = unresolved;
      reasons =
          when (not (is_empty confirmed_drift)) cfg_d01_baseline_drift
          ++ (when (not (is_empty candidates)) cfg_d02_unapproved_candidate
              ++ when (not (is_empty unresolved)) cfg_d03_control_unresolved);
      critical = any (λ o. is_critical_control o.control) confirmed_drift;
      all_required_established = is_empty confirmed_drift && is_empty unresolved;
    }

unfoldable pub classify_discovered_remote : Bool → DriftStatus
classify_discovered_remote approved_in_manifest =
    if approved_in_manifest then matched else candidate
