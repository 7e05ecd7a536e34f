-- ===== src/Hardware.antt =====
-- cnserverops/hardware_tests.py and cnserverops/diagnostic_framework.py: the plan of the tests, the
-- assessment of a sensor snapshot and the coverage of the diagnostics. The tools that were found are
-- given.
pub mod Planned
mod Tests
use Prim.Native.Char.{code}
use cnserver_ops.Prelude.{
  String, ℕ, Bool, true, false, not, ◌||◌, ◌&&◌, List, [], ◌∷◌, ◌++◌, map, Option, none, some, ◌==◌,
  ◌<>◌, truthy, contains, if◌then◌else◌, is_empty,
}
use cnserver_ops.Text.{upper, lower, drop_prefix}

pub data TestStatus : Type 0 where
  pass pass_with_warnings fail not_supported blocked not_run : TestStatus

pub record HardwareTestSpec : Type 0 where
  pub test_id : String
  pub category : String
  pub required_tools : List String
  pub required_capabilities : List String
  pub workload : Bool
  pub destructive : Bool

pub record PlannedTest : Type 0 where
  pub spec : HardwareTestSpec
  pub plan_status : TestStatus
  pub reason_codes : List String

-- The names that a mapping does not have, or has as false.
unfoldable pub missing : (String → Bool) → List String → List String
missing has [] = []
missing has (x ∷ xs) = let rest = missing has xs in if has x then rest else x ∷ rest

abbrev prefixed : String → List String → List String
prefixed code names = map (λ name. code <> name) names

-- Whether a tool was found, a capability was detected, and workloads are allowed.
unfoldable pub plan_one : (String → Bool) → (String → Bool) → Bool → HardwareTestSpec → PlannedTest
unfolding missing
plan_one tools capabilities allow_workloads spec =
    let no_tools = missing tools spec.required_tools in
    let undetected = missing capabilities spec.required_capabilities in
    if spec.destructive
    then planned blocked ("DESTRUCTIVE_TEST_PROHIBITED" ∷ [])
    else if not (is_empty no_tools)
    then planned not_supported (prefixed "MISSING_TOOL:" no_tools)
    else if not (is_empty undetected)
    then planned not_supported (prefixed "CAPABILITY_NOT_DETECTED:" undetected)
    else if spec.workload && not allow_workloads
    then planned blocked ("WORKLOAD_GATE_CLOSED" ∷ [])
    else planned not_run ("READY" ∷ [])
  where
    planned : TestStatus → List String → PlannedTest
    planned status reasons = record { spec = spec; plan_status = status; reason_codes = reasons }

unfoldable pub plan :
    (String → Bool) → (String → Bool) → Bool → List HardwareTestSpec → List PlannedTest
unfolding plan_one
plan tools capabilities allow_workloads specs =
    map (plan_one tools capabilities allow_workloads) specs

pub record SensorRow : Type 0 where
  pub sensor : String
  pub status : String

abbrev pub is_healthy : SensorRow → Bool
is_healthy r = contains (lower r.status) ("ok" ∷ "ns" ∷ "na" ∷ "unavailable" ∷ [])

critical_rows : List SensorRow → List SensorRow
critical_rows [] = []
critical_rows (r ∷ rs) = let rest = critical_rows rs in if is_healthy r then rest else r ∷ rest

is_prefix : Option String → Bool
is_prefix none = false
is_prefix (some rest) = true

-- `"FAN" in text`.
has_fan : String → Bool
unfolding is_prefix drop_prefix
has_fan String.[] = false
has_fan (String.◌∷◌ c s) = is_prefix (drop_prefix "FAN" (String.◌∷◌ c s)) || has_fan s

any_fan : List SensorRow → Bool
unfolding has_fan
any_fan [] = false
any_fan (r ∷ rs) = has_fan (upper r.sensor) || any_fan rs

pub record SensorResult : Type 0 where
  pub status : TestStatus
  pub reason_codes : List String
  pub critical : List SensorRow

-- The expected fans of the profile, none without a profile.
unfoldable pub assess_sensor_snapshot : List SensorRow → List String → SensorResult
unfolding critical_rows any_fan missing upper lower
assess_sensor_snapshot rows expected_fans =
    let critical = critical_rows rows in
    let observed = map (λ r. upper r.sensor) rows in
    let absent = missing (λ fan. contains (upper fan) observed) expected_fans in
    let reasons =
      (if is_empty critical then [] else "SENSOR_NON_OK" ∷ [])
      ++ (if is_empty absent then [] else "PROFILE_EXPECTED_FAN_MISSING" ∷ []) in
    let warnings =
      if is_empty expected_fans && any_fan rows
      then "FAN_POPULATION_PROFILE_UNAVAILABLE" ∷ []
      else [] in
    record {
      status =
          if not (is_empty critical) || not (is_empty reasons)
          then fail
          else if not (is_empty warnings)
          then pass_with_warnings
          else pass;
      reason_codes = reasons ++ warnings;
      critical = critical;
    }

pub record DiagnosticRequirement : Type 0 where
  pub category : String
  pub required : Bool

abbrev requirement : String → Bool → DiagnosticRequirement
requirement category required = record { category = category; required = required }

-- `ASUS_DIAGNOSTIC_REQUIREMENTS`, without the preferred sources.
abbrev pub asus_diagnostic_requirements : List DiagnosticRequirement
asus_diagnostic_requirements =
    requirement "identity_manifest" true
    ∷ requirement "dmi" true
    ∷ requirement "fru" true
    ∷ requirement "firmware_inventory" true
    ∷ requirement "sensors" true
    ∷ requirement "preclean_sel" true
    ∷ requirement "bmc_logs" false
    ∷ requirement "linux_hardware" true
    ∷ requirement "storage_health" false
    ∷ requirement "test_results" true
    ∷ requirement "firmware_task_evidence" false
    ∷ requirement "system_diagnostics_artifact" false
    ∷ requirement "checksum_manifest" true
    ∷ []

pub record Diagnostic : Type 0 where
  pub category : String
  pub sha256 : String

-- `categories`: of the artifacts that have a checksum.
unfoldable pub categories : List Diagnostic → List String
categories [] = []
categories (a ∷ rest) =
    let known = categories rest in if truthy a.sha256 then a.category ∷ known else known

pub record Coverage : Type 0 where
  pub status : String
  pub missing_required : List String
  pub missing_optional : List String

unfoldable pub lacking : Bool → List String → List DiagnosticRequirement → List String
lacking kind present [] = []
lacking kind present (r ∷ rs) =
    let rest = lacking kind present rs in
    if is_kind kind r.required && not (contains r.category present) then r.category ∷ rest else rest
  where
    is_kind : Bool → Bool → Bool
    is_kind true required = required
    is_kind false required = not required

unfoldable pub evaluate_diagnostic_coverage :
    List Diagnostic → List DiagnosticRequirement → Coverage
unfolding categories lacking
evaluate_diagnostic_coverage artifacts requirements =
    let present = categories artifacts in
    record {
      status = if is_empty (lacking true present requirements) then "COMPLETE" else "INCOMPLETE";
      missing_required = lacking true present requirements;
      missing_optional = lacking false present requirements;
    }
