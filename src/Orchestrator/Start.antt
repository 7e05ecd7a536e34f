-- ===== src/Orchestrator/Start.antt =====
-- `ProductionOrchestrator.start` and `resume`.
use cnserver_ops.Prelude.{
  String, not, ◌||◌, [], ◌∷◌, Option, none, some, ◌==◌, truthy, or_text, Result, ok, err, raise_if,
  if◌then◌else◌,
}
use cnserver_ops.Prelude
use cnserver_ops.Exec.{Exec, pure, lift, gets, ◌>>=◌, ◌>>◌}
use cnserver_ops.Identity.{Identity}
use cnserver_ops.State
use cnserver_ops.State.{
  JsonFile, object, other_value, malformed, SavedState, Details, fields, decided, Note,
}
use cnserver_ops.Models
use cnserver_ops.Models.{ServerRecord, RunRecord, RunDict}
use cnserver_ops.Orchestrator.Stages.{Stage, stage_value}
use cnserver_ops.Orchestrator.Routes.{Platform, select_vendor_route}
use cnserver_ops.Orchestrator.Store.{
  WorkflowError, untrusted_identity, identity_disagrees, not_an_object, malformed_json,
  file_not_found, Context, Disk, from_model, from_state, run_dir, make_dir,
}
use cnserver_ops.Models.{ServerRecord, RunRecord}
use cnserver_ops.Orchestrator.Persist.{note, persist}

-- The keyword arguments of `start`.
pub record StartRequest : Type 0 where
  pub platform : Platform
  pub identity : Identity
  pub runner_id : String
  pub continuation_of_run_id : String
  pub workflow_mode : String
  pub test_profile : String

unfoldable pub first_context : StartRequest → ServerRecord → RunRecord → Context
first_context q server run = record {
  server = server;
  run = Models.to_dict run;
  platform = q.platform;
  route = select_vendor_route q.platform;
  stage_history =
      record {
        stage = "IDENTITY";
        status = "PASS";
        details = ("details", "trusted identity established") ∷ [];
      }
      ∷ [];
  final_decision = none;
}

unfoldable pub start_arguments : String → StartRequest → Models.StartArguments
start_arguments runtime_version q = record {
  runner_id = q.runner_id;
  runtime_version = runtime_version;
  boot_id = q.identity.boot_id;
  continuation_of_run_id = q.continuation_of_run_id;
  workflow_mode = q.workflow_mode;
  test_profile = q.test_profile;
}

-- The records of a new run, before anything is written.
unfoldable pub check_start :
    String → StartRequest → String → String → Result WorkflowError (ServerRecord × RunRecord)
unfolding start_arguments
check_start runtime_version q new_run_id utc_now =
    if not q.identity.resumable || not (truthy q.identity.fingerprint_sha256)
    then err (
        untrusted_identity
          (or_text q.identity.resume_block_reason "trusted machine identity is required"))
    else from_model (
        Prelude.◌>>=◌ (Models.from_identity q.identity) λ server.
          Prelude.◌>>=◌ (Models.start server (start_arguments runtime_version q) new_run_id utc_now)
            λ run. ok (server, run))

-- The new directory and its two files.
unfoldable pub create :
    StartRequest → String → ServerRecord × RunRecord → Exec Disk WorkflowError Context
unfolding first_context
create q utc_now (server, run) = do
  dir ← lift (run_dir run.run_id)
  make_dir dir
  persist dir (first_context q server run) q.identity
      (note run Stage.identity (fields []) (stage_value Stage.capability_discovery) "") utc_now
  pure (first_context q server run)

unfoldable pub start : String → StartRequest → String → String → Exec Disk WorkflowError Context
start runtime_version q new_run_id utc_now = do
  records ← lift (check_start runtime_version q new_run_id utc_now)
  create q utc_now records

abbrev pub load_json : Option (JsonFile Context) → Result WorkflowError Context
load_json none = err file_not_found
load_json (some (object c)) = ok c
load_json (some other_value) = err not_an_object
load_json (some malformed) = err malformed_json

-- `resume` reads the files and changes nothing.
unfoldable pub resume : String → Identity → String → Exec Disk WorkflowError Context
resume run_id i runner_id = do
  dir ← lift (run_dir run_id)
  found ← gets (λ d. d.run_json dir)
  context ← lift (load_json found)
  file ← gets (λ d. d.workflow_state dir)
  state ← lift (from_state (State.load_state file))
  lift (from_state (State.assert_workflow_resume_allowed state i (some run_id) (some runner_id)))
  lift (
      raise_if (not (context.run.server_fingerprint_sha256 == i.fingerprint_sha256))
        identity_disagrees)
  pure context
