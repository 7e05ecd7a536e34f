-- ===== src/Lifecycle/Tests.antt =====
-- Runs of the checkpoint code, and its theorems on a sample checkpoint.
use cnserver_ops.Prelude.{
  List, ◌-◌, ◌+◌, ◌≤◌, true, false, [], ◌∷◌, none, ◌≡◌, ◌≢◌, ◌⊎◌, ◌↔◌, refl, ok, contains,
}
use cnserver_ops.Text.{upper}
use cnserver_ops.Lifecycle.Checkpoint.{Pending, CommandResult, is_run_id}
use cnserver_ops.Lifecycle.Build.{PlanItem, ExecutionItem, Execution, BuildRequest, build_pending}
use cnserver_ops.Lifecycle.Disjoint.{build_pending-Disjoint}
use cnserver_ops.Lifecycle.Retries.{done, next, Requests_bounded}
use cnserver_ops.Lifecycle.Resume.{validate_iff}
use cnserver_ops.Lifecycle.{
  Requested, saved, ran, reboot_request_failed, retry_limit_exceeded, announced, answered,
  request_controlled_reboot, validate_pending_for_resume, load_pending,
}
use cnserver_ops.Samples.{machine}

abbrev build_request : BuildRequest
build_request = record {
  run_id = "run-00000001";
  run_directory = "runs/RUN-00000001";
  identity = machine;
  runner_id = "SSD-01";
  workflow_mode = "production";
  profile_id = "";
  profile_total_seconds = 0;
  extended_diagnostics = false;
  bmc_auth_changed = false;
}

-- The BMC is done, the BIOS waits for its activation, and the NIC remains.
abbrev plan : List PlanItem
plan =
    record { component = "BMC"; status = "UPDATE_REQUIRED"; before = "1"; target = "2" }
    ∷ record { component = "bios"; status = "UPDATE_REQUIRED"; before = "3"; target = "4" }
    ∷ record { component = "NIC"; status = "UPDATE_REQUIRED"; before = "5"; target = "6" }
    ∷ []

abbrev execution : Execution
execution = record {
  components =
      record { component = "BMC"; status = "success" }
      ∷ record { component = "BIOS"; status = "reboot_required" }
      ∷ [];
  pending_component = "";
  status = "REBOOT_REQUIRED";
  task_id = "T1";
  firmware_task_identity = "";
  mutation_started = true;
}

abbrev checkpoint : Pending
checkpoint = record {
  created_at_utc = "t0";
  updated_at_utc = "t0";
  run_id = "RUN-00000001";
  run_directory = "runs/RUN-00000001";
  workflow_mode = "PRODUCTION";
  profile_id = "STANDARD";
  profile_total_seconds = 0;
  extended_diagnostics = false;
  server_id = "SERVER-AB12";
  system_serial = "S1";
  fingerprint_sha256 = "ab12";
  runner_id = "SSD-01";
  boot_id_before = "boot-1";
  components =
      record { component = "BMC"; before = "1"; target = "2"; plan_status = "UPDATE_REQUIRED" }
      ∷ record { component = "BIOS"; before = "3"; target = "4"; plan_status = "UPDATE_REQUIRED" }
      ∷ record { component = "NIC"; before = "5"; target = "6"; plan_status = "UPDATE_REQUIRED" }
      ∷ [];
  activation_pending_components = "BIOS" ∷ [];
  completed_pre_reboot_components = "BMC" ∷ [];
  remaining_components = "NIC" ∷ [];
  execution_status = "REBOOT_REQUIRED";
  firmware_task_identity = "T1";
  mutation_started = true;
  bmc_auth_changed = false;
  reboot = record {
    requested = false;
    requested_at_utc = "";
    status = "NOT_REQUESTED";
    retry_count = 0;
    result = none;
  };
}

builds : build_pending build_request plan execution "t0" "t0" ≡ ok checkpoint
unfolding build_pending is_run_id cnserver_ops.Text.drop_prefix upper cnserver_ops.Text.all_chars
    cnserver_ops.Text.count_chars cnserver_ops.Lifecycle.Build.components_of
    cnserver_ops.Lifecycle.Build.activation_pending cnserver_ops.Lifecycle.Build.rebooting
    cnserver_ops.Lifecycle.Build.sorted_set cnserver_ops.Lifecycle.Build.remaining_of
    cnserver_ops.Lifecycle.Build.insert cnserver_ops.Lifecycle.Build.completed_names
    cnserver_ops.Lifecycle.Build.executed_status
builds = refl

build_pending-Disjoint_example :
    (contains "NIC" checkpoint.activation_pending_components ≡ false)
    × (contains "NIC" checkpoint.completed_pre_reboot_components ≡ false)
    × (checkpoint.reboot.retry_count ≡ 0)
build_pending-Disjoint_example =
    build_pending-Disjoint build_request plan execution "t0" "t0" checkpoint "NIC" builds refl

abbrev denied : CommandResult
denied = record { status = "FAIL"; exit_code_is_zero = false }

abbrev first_request : Requested
first_request = record {
  status = reboot_request_failed;
  pending = answered (announced checkpoint "t1") denied "t2";
  effects =
      saved (announced checkpoint "t1")
      ∷ ran
      ∷ saved (answered (announced checkpoint "t1") denied "t2")
      ∷ [];
}

requests : request_controlled_reboot (λ p. denied) checkpoint "t1" "t2" ≡ ok first_request
unfolding request_controlled_reboot is_run_id cnserver_ops.Text.drop_prefix
    cnserver_ops.Text.all_chars cnserver_ops.Text.count_chars cnserver_ops.Lifecycle.passed upper
requests = refl

Requests_bounded_example : 1 + 0 ≤ 3 - 0
Requests_bounded_example =
    Requests_bounded
      (next first_request (λ p. denied) "t1" "t2" requests (done first_request.pending))

validate_iff_example : (validate_pending_for_resume checkpoint machine "ssd-01" false ≡ ok tt) ↔ (
    (machine.resumable ≡ true)
    × ((checkpoint.server_id ≢ "") × (checkpoint.server_id ≡ machine.server_id))
    × ((checkpoint.fingerprint_sha256 ≢ "")
        × (checkpoint.fingerprint_sha256 ≡ machine.fingerprint_sha256))
    × ((upper checkpoint.runner_id ≢ "") × (upper checkpoint.runner_id ≡ upper "ssd-01"))
    × ((false ≡ false)
        ⊎ ((checkpoint.boot_id_before ≡ "")
            ⊎ ((machine.boot_id ≡ "") ⊎ (checkpoint.boot_id_before ≢ machine.boot_id)))))
validate_iff_example = validate_iff checkpoint machine "ssd-01" false
