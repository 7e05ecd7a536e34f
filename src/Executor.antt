-- ===== src/Executor.antt =====
-- cnserverops/firmware_executor.py: one firmware update, from the approved package to the proof of the
-- installed version. The state is the log of the calls that leave the executor, newest first; the
-- adapter's answers depend on it.
pub mod Tasks
pub mod Calls
pub mod Effort
pub mod Bounded
pub mod Once
pub mod Proven
pub mod Success
mod Tests
use cnserver_ops.Prelude.{
  String, ℕ, zero, suc, Bool, true, false, not, ◌||◌, List, [], ◌∷◌, ◌++◌, Option, none, some, ◌==◌,
  truthy, Result, ok, err, raise_if, if◌then◌else◌,
}
use cnserver_ops.Prelude
use cnserver_ops.Text.{upper, lower}
use cnserver_ops.Identity.{Identity}
use cnserver_ops.Safety
use cnserver_ops.Safety.{MutationGate, Instant}
use cnserver_ops.Firmware.Metadata.{FirmwarePackageMetadata}
use cnserver_ops.Firmware.Applicability.{ApplicabilityDecision, approved_for_executor}
use cnserver_ops.Firmware.Repository.{Cache, verify}
use cnserver_ops.Exec.{Exec, pure, raise, gets, lift, modify, after, ◌>>=◌, ◌>>◌}
use Tasks.{
  UpdateTaskState, UpdateTask, FirmwarePreview, UpdateResult, is_terminal, update_result, failure,
  verified, version_matches, resumed_failure,
}
use Calls.{
  ExecutionError, not_approved, foreign_object, from_repository, from_gate, preview_rejected,
  preview_conflicts, no_task_identity, task_id_missing, durable_preview_rejected, Call,
  preview_called, start_called, poll_called, read_called, Adapter, call, Progress, Callback, report,
}

-- The keyword arguments of `execute` that are data.
pub record Request : Type 0 where
  pub identity : Identity
  pub metadata : FirmwarePackageMetadata
  pub applicability : ApplicabilityDecision
  pub mutation_gate : MutationGate
  pub run_id : String

abbrev pub operation : Request → Safety.Operation
operation q = record {
  run_id = q.run_id;
  component = q.metadata.component;
  target_version = q.metadata.version;
  package_sha256 = q.metadata.sha256;
}

module _ (fromisoformat : String → Option Instant) {B : Type 0} (sha256 : B → String) where
  -- What `execute` checks before the adapter is called; the path of the package.
  unfoldable pub check_request : Cache B → Request → ℕ → Result ExecutionError String
  check_request cache q now =
      Prelude.◌>>◌ (raise_if (not (approved_for_executor q.applicability)) not_approved) (
        Prelude.◌>>◌
          (raise_if (not (q.applicability.package_sha256 == lower q.metadata.sha256))
            foreign_object)
          (Prelude.◌>>=◌ (from_repository (verify sha256 q.metadata.sha256 cache)) λ package_path.
            Prelude.◌>>◌
              (from_gate (
                Safety.require fromisoformat q.mutation_gate "FIRMWARE_APPLY" q.identity
                  (operation q) now))
              (ok package_path)))

unfoldable pub check_preview :
    FirmwarePackageMetadata → FirmwarePreview → Result ExecutionError (Unit {0})
check_preview m preview = Prelude.◌>>◌ (raise_if (not preview.accepted) preview_rejected) (
    raise_if
      (not (preview.target_version == m.version)
        || not (upper preview.component == upper m.component))
      preview_conflicts)

module _ (adapter : Adapter) (callback : Option Callback) where
  -- The loop of `execute`, `true` where it broke at a terminal state.
  unfoldable pub poll_loop :
      ℕ
      → UpdateTask
      → List UpdateTask
      → Exec (List Call) ExecutionError (Bool × UpdateTask × List UpdateTask)
  poll_loop zero task history = pure (false, task, history)
  poll_loop (suc n) task history = if is_terminal task.state then pure (true, task, history) else do
    polled ← call (poll_called task.task_id) (adapter.poll task.task_id)
    report callback (record { phase = "TASK_POLLED"; task = some polled; status = "" })
    poll_loop n polled (history ++ (polled ∷ []))

  -- After the loop: the result by the state of the task, with the version read back where it completed.
  unfoldable pub conclude :
      Option (String × String)
      → FirmwarePackageMetadata
      → FirmwarePreview
      → UpdateTask
      → List UpdateTask
      → Exec (List Call) ExecutionError UpdateResult
  conclude (some (status, reason)) m preview task history =
      pure (update_result status reason m preview task history "")
  conclude none m preview task history = do
    installed ← call (read_called m.component) (adapter.read_installed_version m.component)
    pure (verified m preview task history installed)

  unfoldable pub settle :
      FirmwarePackageMetadata
      → FirmwarePreview
      → (Bool × UpdateTask × List UpdateTask)
      → Exec (List Call) ExecutionError UpdateResult
  settle m preview (false, task, history) =
      pure (update_result "FAILED" "UPDATE_TASK_TIMEOUT" m preview task history "")
  settle m preview (true, task, history) = conclude (failure task.state) m preview task history

  -- After the loop of `execute`.
  unfoldable pub finish :
      FirmwarePackageMetadata
      → FirmwarePreview
      → (Bool × UpdateTask × List UpdateTask)
      → Exec (List Call) ExecutionError UpdateResult
  finish m preview ended = do
    result ← settle m preview ended
    report callback (record { phase = "TASK_TERMINAL"; task = none; status = result.status })
    pure result

  -- After the start.
  unfoldable pub follow :
      ℕ
      → FirmwarePackageMetadata
      → FirmwarePreview
      → UpdateTask
      → Exec (List Call) ExecutionError UpdateResult
  follow max_polls m preview task = do
    report callback (record { phase = "TASK_STARTED"; task = some task; status = "" })
    lift (raise_if (not (truthy task.task_id)) no_task_identity)
    ended ← poll_loop max_polls task (task ∷ [])
    finish m preview ended

  -- After the preview.
  unfoldable pub begin :
      ℕ
      → FirmwarePackageMetadata
      → String
      → FirmwarePreview
      → Exec (List Call) ExecutionError UpdateResult
  begin max_polls m package_path preview = do
    lift (check_preview m preview)
    report callback (record { phase = "ADAPTER_STARTING"; task = none; status = "" })
    task ← call start_called (adapter.start package_path m)
    follow max_polls m preview task

  -- `execute` once the request is checked.
  unfoldable pub install :
      ℕ → FirmwarePackageMetadata → String → Exec (List Call) ExecutionError UpdateResult
  install max_polls m package_path = do
    preview ← call preview_called (adapter.preview package_path m)
    begin max_polls m package_path preview

  -- The loop of `resume_task`, which polls before it looks.
  unfoldable pub resume_loop :
      ℕ
      → String
      → UpdateTask
      → List UpdateTask
      → Exec (List Call) ExecutionError (Bool × UpdateTask × List UpdateTask)
  resume_loop zero task_id task history = pure (false, task, history)
  resume_loop (suc n) task_id task history = do
    polled ← call (poll_called task_id) (adapter.poll task_id)
    report callback (record { phase = "TASK_RESUMED_POLLED"; task = some polled; status = "" })
    if is_terminal polled.state
        then pure (true, polled, history ++ (polled ∷ []))
        else resume_loop n task_id polled (history ++ (polled ∷ []))

  unfoldable pub resume_settle :
      FirmwarePackageMetadata
      → FirmwarePreview
      → (Bool × UpdateTask × List UpdateTask)
      → Exec (List Call) ExecutionError UpdateResult
  resume_settle m preview (false, task, history) =
      pure (update_result "FAILED" "UPDATE_TASK_TIMEOUT" m preview task history "")
  resume_settle m preview (true, task, history) =
      conclude (resumed_failure task.state) m preview task history

  abbrev pub resumed : String → UpdateTask
  resumed task_id = record {
    task_id = task_id;
    state = UpdateTaskState.running;
    detail = "RESUMED_DURABLE_TASK";
  }

  -- After the preview of `resume_task`.
  unfoldable pub reattach :
      ℕ
      → FirmwarePackageMetadata
      → String
      → FirmwarePreview
      → Exec (List Call) ExecutionError UpdateResult
  reattach max_polls m task_id preview = do
    lift (raise_if (not preview.accepted) durable_preview_rejected)
    report callback (record { phase = "TASK_RESUMED"; task = some (resumed task_id); status = "" })
    ended ← resume_loop max_polls task_id (resumed task_id) (resumed task_id ∷ [])
    resume_settle m preview ended

  unfoldable pub check_resume :
      {B : Type 0}
      → (B → String)
      → Cache B
      → FirmwarePackageMetadata
      → String
      → Result ExecutionError String
  check_resume sha256 cache m task_id =
      Prelude.◌>>◌ (raise_if (not (truthy task_id)) task_id_missing)
        (from_repository (verify sha256 m.sha256 cache))

  unfoldable pub resume_task :
      {B : Type 0}
      → (B → String)
      → Cache B
      → ℕ
      → FirmwarePackageMetadata
      → String
      → Exec (List Call) ExecutionError UpdateResult
  resume_task sha256 cache max_polls m task_id = do
    package_path ← lift (check_resume sha256 cache m task_id)
    preview ← call preview_called (adapter.preview package_path m)
    reattach max_polls m task_id preview

  unfoldable pub execute :
      (String → Option Instant)
      → {B : Type 0} → (B → String)
      → Cache B
      → ℕ
      → Request
      → ℕ
      → Exec (List Call) ExecutionError UpdateResult
  execute fromisoformat sha256 cache max_polls q now = do
    package_path ← lift (check_request fromisoformat sha256 cache q now)
    install max_polls q.metadata package_path
