-- ===== src/Executor/Calls.antt =====
-- The calls that leave the executor: the adapter and the progress callback.
use cnserver_ops.Prelude.{String, List, ◌∷◌, Option, none, some, Result, ok, err}
use cnserver_ops.Exec.{Exec, pure}
use cnserver_ops.Safety.{Blocked}
use cnserver_ops.Firmware.Metadata.{FirmwarePackageMetadata, RepositoryError}
use cnserver_ops.Executor.Tasks.{UpdateTask, FirmwarePreview}

pub data ExecutionError : Type 0 where
  not_approved foreign_object preview_rejected preview_conflicts no_task_identity : ExecutionError
  task_id_missing durable_preview_rejected : ExecutionError
  repository_error : RepositoryError → ExecutionError
  gate_error : Blocked → ExecutionError
  raised : String → ExecutionError  -- what the adapter or the callback raises

abbrev pub from_repository {ℓ} : {A : Type ℓ} → Result RepositoryError A → Result ExecutionError A
from_repository (ok a) = ok a
from_repository (err e) = err (repository_error e)

abbrev pub from_gate : Result Blocked (Unit {0}) → Result ExecutionError (Unit {0})
from_gate (ok a) = ok a
from_gate (err e) = err (gate_error e)

-- What the callback is told: the phase, and the task or the terminal status.
pub record Progress : Type 0 where
  pub phase : String
  pub task : Option UpdateTask
  pub status : String

pub data Call : Type 0 where
  preview_called start_called : Call
  poll_called read_called : String → Call
  progress_called : Progress → Call

-- `FirmwareUpdateAdapter`: each method may raise, and may answer by what was called before.
pub record Adapter : Type 0 where
  pub preview : String → FirmwarePackageMetadata → List Call → Result ExecutionError FirmwarePreview
  pub start : String → FirmwarePackageMetadata → List Call → Result ExecutionError UpdateTask
  pub poll : String → List Call → Result ExecutionError UpdateTask
  pub read_installed_version : String → List Call → Result ExecutionError String

-- One call: it is logged, whether it returns or raises.
unfoldable pub call :
    {A : Type 0} → Call → (List Call → Result ExecutionError A) → Exec (List Call) ExecutionError A
call c method log = (method log, c ∷ log)

abbrev pub Callback : Type 0
Callback = Progress → List Call → Result ExecutionError (Unit {0})

unfoldable pub report : Option Callback → Progress → Exec (List Call) ExecutionError (Unit {0})
unfolding call
report none p = pure tt
report (some callback) p = call (progress_called p) (callback p)
