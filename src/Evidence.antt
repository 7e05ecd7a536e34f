-- ===== src/Evidence.antt =====
-- cnserverops/evidence.py: observations of a field with where they come from, and how they are fused.
-- The boot id, a file that is read, is left out.
pub mod Fused
mod Tests
use cnserver_ops.Prelude.{
  String, ℕ, Bool, true, false, not, ◌||◌, ◌&&◌, List, [], ◌∷◌, ◌++◌, map, Option, none, some, ◌==◌,
  truthy, contains, if◌then◌else◌, leb, ltb, is_empty, length,
}
use cnserver_ops.Text.{upper, strip, squeeze}

pub data Freshness : Type 0 where
  current_boot live_sensor static_fru bmc_current_confirmed bmc_freshness_unknown : Freshness
  stale_suspected conflicting : Freshness

pub data Confidence : Type 0 where
  high medium low unknown : Confidence

pub data BmcAuthState : Type 0 where
  available default_available password_change_required provisioned unavailable : BmcAuthState

pub data CapabilityAccess : Type 0 where
  available_local available_bmc available_local_with_bmc_corroboration : CapabilityAccess
  blocked_by_auth not_supported : CapabilityAccess

unfoldable pub classify_bmc_auth_state : Bool → Option ℕ → Bool → String → BmcAuthState
unfolding upper strip
classify_bmc_auth_state credential_supplied http_status change_required kind =
    if change_required
    then password_change_required
    else if credential_supplied && is_success http_status
    then (if upper (strip kind) == "DEFAULT" then default_available else provisioned)
    else unavailable
  where
    is_success : Option ℕ → Bool
    is_success none = false
    is_success (some s) = leb 200 s && ltb s 300

abbrev pub bmc_auth_is_usable : BmcAuthState → Bool
bmc_auth_is_usable available = true
bmc_auth_is_usable default_available = true
bmc_auth_is_usable provisioned = true
bmc_auth_is_usable _ = false

pub record FieldObservation : Type 0 where
  pub value : String
  pub source : String
  pub freshness : Freshness
  pub confidence : Confidence
  pub current_local : Bool
  pub bmc_derived : Bool

-- `_key`.
abbrev pub key_of : String → String
key_of value = squeeze (upper (strip value))

unfoldable pub select : (FieldObservation → Bool) → List FieldObservation → List FieldObservation
select test [] = []
select test (o ∷ os) = let rest = select test os in if test o then o ∷ rest else rest

-- `preferred = current or static or bmc`, and its first element.
abbrev pub first_of : List FieldObservation → Option FieldObservation → Option FieldObservation
first_of [] next = next
first_of (o ∷ os) next = some o

-- `len({…}) > 1`.
abbrev pub disagree : List String → Bool
disagree [] = false
disagree (k ∷ ks) = some_other k ks
  where
    some_other : String → List String → Bool
    some_other k [] = false
    some_other k (j ∷ js) = not (k == j) || some_other k js

abbrev pub disjoint : List String → List String → Bool
disjoint [] ks = true
disjoint (j ∷ js) ks = not (contains j ks) && disjoint js ks

pub record FusedField : Type 0 where
  pub value : String
  pub source : String
  pub freshness : Freshness
  pub confidence : Confidence
  pub observations : List FieldObservation
  pub local_conflict : Bool
  pub bmc_conflict : Bool
  pub reason_codes : List String
  pub bmc_value_authoritative_for_mutation : Bool

abbrev pub is_usable : FieldObservation → Bool
is_usable o = truthy (strip o.value)

abbrev pub is_current : FieldObservation → Bool
is_current o = o.current_local

abbrev pub is_static : FieldObservation → Bool
is_static o = not o.current_local && not o.bmc_derived

abbrev pub is_bmc : FieldObservation → Bool
is_bmc o = o.bmc_derived

abbrev pub keys : List FieldObservation → List String
keys os = map (λ o. key_of o.value) os

-- The dict for the selected observation and the two conflicts.
fused : Option FieldObservation → List FieldObservation → Bool → Bool → Bool → FusedField
fused selected usable local_conflict bmc_conflict authoritative = record {
  value = value_of selected;
  source = source_of selected;
  freshness = if local_conflict then conflicting else freshness_of selected;
  confidence = if local_conflict then low else confidence_of selected;
  observations = usable;
  local_conflict = local_conflict;
  bmc_conflict = bmc_conflict;
  reason_codes =
      (if local_conflict then "LOCAL_EVIDENCE_CONFLICT" ∷ [] else [])
      ++ (if bmc_conflict then "BMC_INVENTORY_CONFLICT" ∷ "POSSIBLE_STALE_BMC_DATA" ∷ [] else []);
  bmc_value_authoritative_for_mutation = authoritative;
}
  where
    value_of : Option FieldObservation → String
    value_of none = ""
    value_of (some o) = o.value

    source_of : Option FieldObservation → String
    source_of none = "NONE"
    source_of (some o) = o.source

    freshness_of : Option FieldObservation → Freshness
    freshness_of none = conflicting
    freshness_of (some o) = o.freshness

    confidence_of : Option FieldObservation → Confidence
    confidence_of none = unknown
    confidence_of (some o) = o.confidence

-- The field, from the usable observations of the three kinds.
unfoldable pub combine :
    List FieldObservation
    → List FieldObservation
    → List FieldObservation
    → List FieldObservation
    → FusedField
unfolding fused
combine usable current static bmc =
    let trusted = keys (current ++ static) in
    let bmc_conflict =
      not (is_empty trusted) && not (is_empty (keys bmc)) && disjoint trusted (keys bmc) in
    fused (first_of current (first_of static (first_of bmc none))) usable (disagree trusted)
      bmc_conflict (not (is_empty bmc) && not bmc_conflict && is_empty trusted)

unfoldable pub fuse_field : List FieldObservation → FusedField
unfolding combine select
fuse_field observations =
    let usable = select is_usable observations in
    combine usable (select is_current usable) (select is_static usable) (select is_bmc usable)

pub record Capability : Type 0 where
  pub status : CapabilityAccess
  pub selected_mechanism : String
  pub blocked_by_auth : Bool
  pub overall_run_blocked : Bool

abbrev capability : CapabilityAccess → String → Bool → Capability
capability access mechanism blocked = record {
  status = access;
  selected_mechanism = mechanism;
  blocked_by_auth = blocked;
  overall_run_blocked = false;
}

unfoldable pub resolve_capability_access : BmcAuthState → String → String → Bool → Capability
resolve_capability_access auth local_mechanism bmc_mechanism corroboration =
    if truthy local_mechanism
    then capability
        (if bmc_auth_is_usable auth && corroboration
          then available_local_with_bmc_corroboration
          else available_local)
        local_mechanism false
    else if truthy bmc_mechanism && bmc_auth_is_usable auth
    then capability available_bmc bmc_mechanism false
    else if truthy bmc_mechanism
    then capability CapabilityAccess.blocked_by_auth "" true
    else capability not_supported "" false
