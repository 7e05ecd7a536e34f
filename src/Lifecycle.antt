-- ===== src/Lifecycle.antt =====
-- cnserverops/firmware_lifecycle.py: the checkpoint of a firmware run across a reboot.
pub mod Checkpoint
pub mod Build
pub mod Disjoint
pub mod Retries
pub mod Resume
mod Tests
use cnserver_ops.Prelude.{
  String, ℕ, ◌+◌, Bool, true, false, not, ◌||◌, ◌&&◌, List, [], ◌∷◌, Option, none, some, ◌==◌, leb,
  eqb, truthy, or_text, contains, Result, ok, err, ◌>>=◌, ◌>>◌, raise_if, if◌then◌else◌,
}
use cnserver_ops.Text.{upper}
use cnserver_ops.Identity.{Identity}
use cnserver_ops.State.{JsonFile, object}
use Checkpoint.{LifecycleError, Pending, Reboot, CommandResult, is_run_id, is_workflow}
use Checkpoint.{
  run_id_invalid, not_resumable, server_mismatch, fingerprint_mismatch, runner_mismatch,
  boot_unchanged,
}

-- `load_pending`, for a file that may be missing or hold anything; None stands for what it rejects.
unfoldable pub load_pending : Option (JsonFile Pending) → Option Pending
load_pending (some (object p)) =
    if is_run_id (upper p.run_id) && is_workflow (upper p.workflow_mode) then some p else none
load_pending _ = none

-- `not expected or expected != observed`.
abbrev differs : String → String → Bool
differs expected observed = not (truthy expected) || not (expected == observed)

unfoldable pub validate_pending_for_resume :
    Pending → Identity → String → Bool → Result LifecycleError (Unit {0})
validate_pending_for_resume p i runner_id require_new_boot = do
  raise_if (not i.resumable) not_resumable
  raise_if (differs p.server_id i.server_id) server_mismatch
  raise_if (differs p.fingerprint_sha256 i.fingerprint_sha256) fingerprint_mismatch
  raise_if (differs (upper p.runner_id) (upper runner_id)) runner_mismatch
  raise_if
      (require_new_boot
        && truthy p.boot_id_before
        && truthy i.boot_id
        && p.boot_id_before == i.boot_id)
      boot_unchanged

-- What a reboot request does outside: it writes the checkpoint, and runs the command.
pub data Effect : Type 0 where
  saved : Pending → Effect
  ran : Effect

pub data RequestStatus : Type 0 where
  reboot_requested reboot_request_failed retry_limit_exceeded : RequestStatus

-- What a request returns, with its effects in order.
pub record Requested : Type 0 where
  pub status : RequestStatus
  pub pending : Pending
  pub effects : List Effect

unfoldable pub passed : CommandResult → Bool
passed r = contains (upper r.status) ("PASS" ∷ "OK" ∷ "COMPLETED" ∷ []) || r.exit_code_is_zero

unfoldable pub announced : Pending → String → Pending
announced p now = record p {
  reboot = record p.reboot {
    requested = true;
    requested_at_utc = now;
    status = "REQUESTED";
    retry_count = p.reboot.retry_count + 1;
  };
  updated_at_utc = now;
}

unfoldable pub answered : Pending → CommandResult → String → Pending
answered p r now = record p {
  reboot = record p.reboot { status = if passed r then "REQUESTED" else "FAILED"; result = some r };
  updated_at_utc = now;
}

-- `run` is the command executor: its answer may depend on the checkpoint that stands on the disk.
unfoldable pub request_controlled_reboot :
    (Pending → CommandResult) → Pending → String → String → Result LifecycleError Requested
request_controlled_reboot run p now later = do
  raise_if (not (is_run_id p.run_id)) run_id_invalid
  if leb 3 p.reboot.retry_count
      then ok (record { status = retry_limit_exceeded; pending = p; effects = [] })
      else let first = announced p now in
        let r = run first in
        let second = answered first r later in
        ok (record {
          status = if passed r then reboot_requested else reboot_request_failed;
          pending = second;
          effects = saved first ∷ ran ∷ saved second ∷ [];
        })
