-- ===== src/Hardware/Tests.antt =====
-- Runs of the planning of cnserverops/hardware_tests.py and of the coverage of
-- cnserverops/diagnostic_framework.py.
use cnserver_ops.Prelude.{String, Bool, true, false, [], ◌∷◌, ◌==◌, ◌≡◌, ◌↔◌, refl}
use cnserver_ops.Hardware.{
  HardwareTestSpec, not_run, pass_with_warnings, plan_one, assess_sensor_snapshot,
  evaluate_diagnostic_coverage, asus_diagnostic_requirements,
}
use cnserver_ops.Hardware.Planned.{IsReady, Outcome, plan_one_iff}

abbrev cpu_stress : HardwareTestSpec
cpu_stress = record {
  test_id = "cpu.stress";
  category = "CPU";
  required_tools = "stress-ng" ∷ [];
  required_capabilities = [];
  workload = true;
  destructive = false;
}

abbrev found : String → Bool
found tool = tool == "stress-ng"

no_capability : String → Bool
no_capability c = false

shut_sample :
    (plan_one found no_capability false cpu_stress).reason_codes ≡ "WORKLOAD_GATE_CLOSED" ∷ []
unfolding plan_one
shut_sample = refl

missing_sample :
    (plan_one no_capability no_capability true cpu_stress).reason_codes
    ≡ "MISSING_TOOL:stress-ng" ∷ []
unfolding plan_one no_capability
missing_sample = refl

plan_one_iff_example :
    (((plan_one found no_capability true cpu_stress).plan_status ≡ not_run)
      ↔ IsReady found no_capability true cpu_stress)
    × Outcome found no_capability true cpu_stress
        (plan_one found no_capability true cpu_stress).plan_status
        (plan_one found no_capability true cpu_stress).reason_codes
plan_one_iff_example = plan_one_iff found no_capability true cpu_stress

fan_sample :
    (assess_sensor_snapshot (record { sensor = "Fan1"; status = "ok" } ∷ []) []).status
    ≡ pass_with_warnings
unfolding assess_sensor_snapshot
fan_sample = refl

no_fan_sample :
    (assess_sensor_snapshot
      (record { sensor = "Fan1"; status = "ok" } ∷ [])
      ("fan2" ∷ [])).reason_codes
    ≡ "PROFILE_EXPECTED_FAN_MISSING" ∷ []
unfolding assess_sensor_snapshot
no_fan_sample = refl

coverage_sample :
    (evaluate_diagnostic_coverage
      (record { category = "dmi"; sha256 = "" } ∷ [])
      asus_diagnostic_requirements).status
    ≡ "INCOMPLETE"
unfolding evaluate_diagnostic_coverage
coverage_sample = refl
