-- ===== src/Orchestrator/Persist.antt =====
-- `_default_next` as text, the history entry of a stage, and the two writes that end each operation.
use cnserver_ops.Prelude.{String, List, Option, none, some, if◌then◌else◌}
use cnserver_ops.Exec.{Exec, lift, modify, ◌>>=◌, ◌>>◌}
use cnserver_ops.Identity.{Identity}
use cnserver_ops.State
use cnserver_ops.State.{
  JsonFile, object, other_value, malformed, SavedState, Details, fields, decided, Note,
}
use cnserver_ops.Models.{RunRecord}
use cnserver_ops.Orchestrator.Stages.{Stage, stage_value, same_stage}
use cnserver_ops.Orchestrator.Store.{
  WorkflowError, HistoryEntry, Context, Disk, Session, from_state, write_run, write_workflow_state,
  run_dir,
}

abbrev pub expected_text : Option Stage → String
expected_text none = ""
expected_text (some s) = stage_value s

abbrev pub history_entry : Stage → List (String × String) → HistoryEntry
history_entry next result = record {
  stage = stage_value next;
  status = if same_stage next Stage.blocked then "BLOCKED" else "PASS";
  details = result;
}

-- The arguments of `write_state` for a stage of a run.
unfoldable pub note : RunRecord → Stage → Details → String → String → Note
note run stage details expected_next_stage task = record {
  phase = stage_value stage;
  details = details;
  run_id = run.run_id;
  runner_id = run.runner_id;
  runtime_version = run.runtime_version;
  expected_next_stage = expected_next_stage;
  firmware_task_identity = task;
}

-- Both files of a run, run.json first; the second write is refused for an identity that is not
-- resumable, and then the first stays.
unfoldable pub persist :
    String → Context → Identity → Note → String → Exec Disk WorkflowError (Unit {0})
persist dir context i n utc_now = do
  modify (write_run dir context)
  saved ← lift (from_state (State.write_state i n utc_now))
  modify (write_workflow_state dir saved)

-- A call on the files, from a session.
unfoldable pub with_disk :
    Exec Disk WorkflowError (Unit {0}) → Exec Session WorkflowError (Unit {0})
with_disk m s = let (r, d) = m s.disk in (r, record s { disk = d })

-- The end of `transition` and of `finalize`: the caller's context is changed, then the files.
unfoldable pub store_context :
    Context → String → Identity → Note → String → Exec Session WorkflowError (Unit {0})
store_context context run_id i n utc_now = do
  modify (λ s. record s { context = context })
  dir ← lift (run_dir run_id)
  with_disk (persist dir context i n utc_now)
