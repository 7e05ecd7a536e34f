-- ===== src/Orchestrator/Checks.antt =====
-- The checks of a transition and the call of the adapter: what comes before any change of the run.
use cnserver_ops.Prelude.{
  ◌>>=◌, ◌>>◌, String, ℕ, not, List, Option, none, some, ◌==◌, or_text, get_text, contains, Result,
  ok, err, raise_if, if◌then◌else◌,
}
use cnserver_ops.Identity.{Identity}
use cnserver_ops.Safety
use cnserver_ops.Safety.{Blocked, Instant, MutationGate, Operation}
use cnserver_ops.Models
use cnserver_ops.Models.{ServerRecord, RunRecord, RunDict}
use cnserver_ops.Orchestrator.Stages.{
  Stage, workflow_stage, transitions, contains_stage, mutation_action,
}
use cnserver_ops.Orchestrator.Routes.{VendorRoute}
use cnserver_ops.Orchestrator.Store.{
  WorkflowError, unknown_stage, invalid_transition, route_denies, route_not_validated, Context,
  from_model, from_gate,
}

-- The arguments of `transition`. The adapter stands for vendor code: it executes one stage and
-- returns evidence or raises.
pub record Transition : Type 0 where
  pub identity : Identity
  pub next_stage : Stage
  pub adapter : Option (Stage → Context → Result WorkflowError (List (String × String)))
  pub mutation_gate : MutationGate
  pub details : List (String × String)
  pub firmware_task_identity : String

abbrev pub read_stage : RunRecord → Result WorkflowError Stage
read_stage run = elim (workflow_stage run.current_stage) [
  | none ↦ err (unknown_stage run.current_stage)
  | some s ↦ ok s
]

unfoldable pub operation : RunRecord → String → List (String × String) → Operation
operation run action details = record {
  run_id = run.run_id;
  component = or_text (get_text "component" details) (if action == "LOG_CLEAR" then "SEL" else "");
  target_version = get_text "target_version" details;
  package_sha256 = get_text "package_sha256" details;
}

abbrev pub check_route : VendorRoute → String → Result WorkflowError (Unit {0})
check_route route action =
    if not route.mutation_supported
    then err (route_denies action)
    else if not (contains action route.allowed_mutation_actions)
    then err (route_not_validated action)
    else ok tt

abbrev pub stage_result : Transition → Context → Result WorkflowError (List (String × String))
stage_result t context = elim t.adapter [
  | none ↦ ok t.details
  | some execute ↦ execute t.next_stage context
]

module _ (fromisoformat : String → Option Instant) where
  -- The checks that a stage which changes the server must pass first.
  unfoldable pub authorize :
      Option String → Transition → RunRecord → VendorRoute → ℕ → Result WorkflowError (Unit {0})
  authorize none t run route now = ok tt
  authorize (some action) t run route now = do
    from_gate (
        Safety.require fromisoformat t.mutation_gate action t.identity
          (operation run action t.details) now)
    check_route route action

  -- `run` before the move, and the evidence for the new stage.
  unfoldable pub check_transition :
      Transition → Context → ℕ → Result WorkflowError (RunRecord × List (String × String))
  check_transition t context now = do
    run ← from_model (Models.from_dict context.run)
    current ← read_stage run
    raise_if (not (contains_stage t.next_stage (transitions current)))
        (invalid_transition current t.next_stage)
    authorize (mutation_action t.next_stage) t run context.route now
    result ← stage_result t context
    ok (run, result)
