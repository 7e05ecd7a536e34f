-- ===== src/Executor/Tests.antt =====
-- Runs of the executor, and its theorems on a sample update.
use cnserver_ops.Prelude.{
  String, ◌≤◌, true, false, List, [], ◌∷◌, Option, none, ◌≡◌, refl, ap, put, inl, Result, ok,
}
use cnserver_ops.Safety.{
  Instant, require, check_bindings, bindings, check_expiry, mismatch, serial_of,
}
use cnserver_ops.Firmware.Metadata.{FirmwarePackageMetadata, is_sha256}
use cnserver_ops.Firmware.Applicability.{applicable}
use cnserver_ops.Firmware.Repository.{Cache, verify, object_path}
use cnserver_ops.Executor.Tasks.{
  UpdateTask, UpdateTaskState, FirmwarePreview, UpdateResult, update_result, mutation_started,
  verified, version_matches,
}
use cnserver_ops.Executor.Calls.{
  Call, preview_called, start_called, poll_called, read_called, Adapter, ExecutionError, raised,
  gate_error, call, report,
}
use cnserver_ops.Executor.Effort.{starts, polls}
use cnserver_ops.Executor.Once.{execute_at_most_once, resume_task_never_starts}
use cnserver_ops.Executor.Proven.{IsInstalled}
use cnserver_ops.Executor.Success.{IsRequested, execute_success}
use cnserver_ops.Executor.{
  Request, execute, resume_task, check_request, install, begin, check_preview, follow, conclude,
  finish, poll_loop, settle,
}
use cnserver_ops.Text.{lower, upper, all_chars, count_chars, z_to_offset}
use cnserver_ops.Samples.{machine, approval, bmc_image}

abbrev no_clock : String → Option Instant
no_clock s = none

abbrev digest : String
digest = "abababababababababababababababababababababababababababababababab"

-- Files are their own checksums here.
abbrev same : String → String
same b = b

abbrev cache : Cache String
cache = record { objects = put digest digest (λ k. none); metadata = λ k. none }

abbrev request : Request
request = record {
  identity = machine;
  metadata = bmc_image;
  applicability = record {
    status = applicable;
    reason_codes = [];
    package_sha256 = digest;
    current_version = "1.2.30";
    target_version = "1.2.37";
    catalog_id = "ASUS-2024";
    evidence = [];
  };
  mutation_gate = record approval { package_sha256 = digest };
  run_id = "RUN-00000001";
}

abbrev preview : FirmwarePreview
preview = record {
  accepted = true;
  mechanism = "REDFISH";
  component = "BMC";
  current_version = "1.2.30";
  target_version = "1.2.37";
  reboot_required = false;
  reported_version_aliases = [];
}

abbrev running : UpdateTask
running = record { task_id = "T1"; state = UpdateTaskState.running; detail = "" }

abbrev done : UpdateTask
done = record { task_id = "T1"; state = UpdateTaskState.completed; detail = "" }

-- The task is seen complete at the first poll.
abbrev adapter : Adapter
adapter = record {
  preview = λ path m log. ok preview;
  start = λ path m log. ok running;
  poll = λ id log. ok done;
  read_installed_version = λ component log. ok "1.2.37";
}

abbrev success : UpdateResult
success =
    update_result "SUCCESS" "VERSION_VERIFIED" bmc_image preview done (running ∷ done ∷ []) "1.2.37"

updates :
    execute adapter none no_clock same cache 2 request 5 []
    ≡ (ok success, read_called "BMC" ∷ poll_called "T1" ∷ start_called ∷ preview_called ∷ [])
unfolding execute check_request lower verify object_path is_sha256 require check_bindings bindings
    upper check_expiry install call begin check_preview report follow mutation_started verified
    version_matches conclude finish poll_loop settle mismatch serial_of all_chars count_chars
    z_to_offset
updates = refl

-- A task that completes at the last poll that is allowed is reported as timed out by `execute`,
completes_at_last_poll :
    (execute adapter none no_clock same cache 1 request 5 []).0
    ≡ ok (
        update_result "FAILED" "UPDATE_TASK_TIMEOUT" bmc_image preview done
          (running ∷ done ∷ [])
          "")
unfolding execute check_request lower verify object_path is_sha256 require check_bindings bindings
    upper check_expiry install call begin check_preview report follow mutation_started verified
    version_matches conclude finish poll_loop settle mismatch serial_of all_chars count_chars
    z_to_offset
completes_at_last_poll = refl

-- and as a success by `resume_task`.
resumes_at_last_poll :
    (resume_task adapter none same cache 1 bmc_image "T1" []).0
    ≡ ok (
        update_result "SUCCESS" "VERSION_VERIFIED" bmc_image preview done
          (record {
            task_id = "T1";
            state = UpdateTaskState.running;
            detail = "RESUMED_DURABLE_TASK";
          }
            ∷ done
            ∷ [])
          "1.2.37")
unfolding resume_task cnserver_ops.Executor.check_resume verify object_path
    cnserver_ops.Firmware.Metadata.is_sha256 cnserver_ops.Executor.Calls.call
    cnserver_ops.Executor.reattach cnserver_ops.Executor.Calls.report
    cnserver_ops.Executor.resume_loop cnserver_ops.Executor.resume_settle
    cnserver_ops.Executor.conclude cnserver_ops.Executor.Tasks.verified
    cnserver_ops.Executor.Tasks.version_matches
resumes_at_last_poll = refl

execute_success_example :
    IsRequested no_clock same cache request 5 × IsInstalled adapter bmc_image success
execute_success_example =
    execute_success no_clock same cache adapter none 2 request 5 [] success
      (ap (λ (z : Result ExecutionError UpdateResult × List Call). z.0) updates) (inl refl)

execute_at_most_once_example :
    let log' = (execute adapter none no_clock same cache 2 request 5 []).1 in
    (starts log' ≤ 1) × (polls log' ≤ 2)
execute_at_most_once_example = execute_at_most_once adapter none same cache 2 no_clock request 5 []

resume_task_never_starts_example :
    let log' = (resume_task adapter none same cache 1 bmc_image "T1" []).1 in
    (starts log' ≤ 0) × (polls log' ≤ 1)
resume_task_never_starts_example =
    resume_task_never_starts adapter none same cache 1 bmc_image "T1" []
