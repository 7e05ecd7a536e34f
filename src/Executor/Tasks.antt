-- ===== src/Executor/Tasks.antt =====
-- The tasks, previews and results of cnserverops/firmware_executor.py.
use cnserver_ops.Prelude.{
  String, Bool, true, false, not, ◌||◌, ◌&&◌, List, Option, none, some, ◌==◌, truthy, contains,
  starts_with, if◌then◌else◌,
}
use cnserver_ops.Firmware.Metadata.{FirmwarePackageMetadata}

pub data UpdateTaskState : Type 0 where
  new queued running completed completed_with_warning failed cancelled timed_out : UpdateTaskState
  bmc_restarting reboot_required unknown : UpdateTaskState

-- The evidence of a preview is read for its list `reported_version_aliases` only.
pub record FirmwarePreview : Type 0 where
  pub accepted : Bool
  pub mechanism : String
  pub component : String
  pub current_version : String
  pub target_version : String
  pub reboot_required : Bool
  pub reported_version_aliases : List String

pub record UpdateTask : Type 0 where
  pub task_id : String
  pub state : UpdateTaskState
  pub detail : String

unfoldable pub version_matches : String → String → List String → Bool
version_matches installed target aliases = installed == target || contains installed aliases

-- The states at which both loops break.
abbrev pub is_terminal : UpdateTaskState → Bool
is_terminal UpdateTaskState.completed = true
is_terminal UpdateTaskState.completed_with_warning = true
is_terminal UpdateTaskState.failed = true
is_terminal UpdateTaskState.cancelled = true
is_terminal UpdateTaskState.timed_out = true
is_terminal UpdateTaskState.reboot_required = true
is_terminal _ = false

-- The dict that `_result` returns; `mutation_attempted` is always true.
pub record UpdateResult : Type 0 where
  pub status : String
  pub reason_code : String
  pub component : String
  pub target_version : String
  pub installed_version : String
  pub package_sha256 : String
  pub preview : FirmwarePreview
  pub task_id : String
  pub task_history : List UpdateTask
  pub mutation_started : Bool

-- An identity that the adapter made up stands for a request that the BMC rejected, but for the mark.
unfoldable pub mutation_started : UpdateTask → Bool
mutation_started task =
    truthy task.task_id
    && (starts_with task.detail "MUTATION_STARTED:"
        || (not (starts_with task.task_id "REDFISH-") && not (starts_with task.task_id "ASUS-")))

-- `_result`.
abbrev pub update_result :
    String
    → String
    → FirmwarePackageMetadata
    → FirmwarePreview
    → UpdateTask
    → List UpdateTask
    → String
    → UpdateResult
update_result status reason m preview task history installed = record {
  status = status;
  reason_code = reason;
  component = m.component;
  target_version = m.version;
  installed_version = installed;
  package_sha256 = m.sha256;
  preview = preview;
  task_id = task.task_id;
  task_history = history;
  mutation_started = mutation_started task;
}

-- The status and reason of `execute` for a state in which no version is read back.
abbrev pub failure : UpdateTaskState → Option (String × String)
failure UpdateTaskState.completed = none
failure UpdateTaskState.completed_with_warning = none
failure UpdateTaskState.failed = some ("FAILED", "FIRMWARE_UPDATE_FAILED")
failure UpdateTaskState.cancelled = some ("FAILED", "UPDATE_TASK_CANCELLED")
failure UpdateTaskState.timed_out = some ("FAILED", "UPDATE_TASK_TIMEOUT")
failure UpdateTaskState.reboot_required = some ("REBOOT_REQUIRED", "REBOOT_REQUIRED")
failure _ = some ("FAILED", "UPDATE_TASK_UNKNOWN")

-- The same for `resume_task`, which has no case for the states that do not end its loop.
abbrev pub resumed_failure : UpdateTaskState → Option (String × String)
resumed_failure UpdateTaskState.reboot_required = some ("REBOOT_REQUIRED", "REBOOT_REQUIRED")
resumed_failure UpdateTaskState.failed = some ("FAILED", "FIRMWARE_UPDATE_FAILED")
resumed_failure UpdateTaskState.cancelled = some ("FAILED", "UPDATE_TASK_CANCELLED")
resumed_failure UpdateTaskState.timed_out = some ("FAILED", "UPDATE_TASK_TIMED_OUT")
resumed_failure _ = none

abbrev pub has_warning : UpdateTaskState → Bool
has_warning UpdateTaskState.completed_with_warning = true
has_warning _ = false

-- The result once the installed version is read back.
unfoldable pub verified :
    FirmwarePackageMetadata → FirmwarePreview → UpdateTask → List UpdateTask → String → UpdateResult
verified m preview task history installed =
    if not (version_matches installed m.version preview.reported_version_aliases)
    then update_result "FAILED" "POST_UPDATE_VERSION_MISMATCH" m preview task history installed
    else if has_warning task.state
    then update_result "SUCCESS_WITH_WARNING" "VERSION_VERIFIED_WITH_TASK_WARNING" m preview task
        history installed
    else update_result "SUCCESS" "VERSION_VERIFIED" m preview task history installed
