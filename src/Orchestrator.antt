-- ===== src/Orchestrator.antt =====
-- cnserverops/orchestrator.py: the workflow of one production run. The clock, the new RUN_ID and the
-- vendor adapter are arguments. `transition` and `finalize` change the caller's context in place, so
-- the context is part of the session that they act on.
pub mod Stages
pub mod Routes
pub mod Store
pub mod Persist
pub mod Start
pub mod Checks
pub mod Effect
pub mod Closing
pub mod Durable
pub mod Gated
pub mod Trace
pub mod Moves
pub mod Beginning
pub mod History
mod Tests
use cnserver_ops.Prelude.{
  String, ℕ, Bool, true, false, not, ◌||◌, ◌&&◌, List, [], ◌∷◌, ◌++◌, Option, none, some, ◌==◌,
  truthy, or_text, get_text, get_or, lookup, put, contains, map, Result, ok, err, raise_if,
  if◌then◌else◌,
}
use cnserver_ops.Prelude
use cnserver_ops.Exec.{Exec, pure, lift, gets, modify, ◌>>=◌, ◌>>◌}
use cnserver_ops.Identity.{Identity}
use cnserver_ops.Disposition.{Reason, Decision, FinalDisposition, decide_final_disposition}
use cnserver_ops.Safety
use cnserver_ops.Safety.{Blocked, Instant, MutationGate, Operation}
use cnserver_ops.State
use cnserver_ops.State.{
  JsonFile, object, other_value, malformed, SavedState, Details, fields, decided, Note,
}
use cnserver_ops.Models
use cnserver_ops.Models.{ServerRecord, RunRecord, RunDict}
use Stages.{
  Stage, stage_value, workflow_stage, transitions, contains_stage, same_stage, mutation_action,
  default_next,
}
use Routes.{Platform, VendorRoute, select_vendor_route}
use Store.{
  WorkflowError, untrusted_identity, identity_disagrees, not_finalizable, not_an_object,
  malformed_json, file_not_found, unknown_stage, invalid_transition, route_denies,
  route_not_validated, blocked_by_gate, HistoryEntry, Context, Disk, Session, from_model,
  from_state, from_gate, run_dir, write_run, write_workflow_state, make_dir,
}
use Persist.{expected_text, history_entry, note, store_context}
use Checks.{Transition, check_transition}

-- The context after `run` has moved to `next` with evidence `result`.
abbrev pub moved_context : Context → RunRecord → Stage → List (String × String) → Context
moved_context context run next result = record context {
  run = Models.to_dict (record run { current_stage = stage_value next });
  stage_history = context.stage_history ++ (history_entry next result ∷ []);
}

-- The rest of `transition`, where the checks have passed.
unfoldable pub move :
    Transition → String → RunRecord × List (String × String) → Exec Session WorkflowError (Unit {0})
move t utc_now (run, result) = do
  context ← gets (λ s. moved_context s.context run t.next_stage result)
  store_context context run.run_id t.identity
      (note run t.next_stage (fields result) (expected_text (default_next t.next_stage))
        t.firmware_task_identity)
      utc_now

unfoldable pub transition :
    (String → Option Instant) → Transition → ℕ → String → Exec Session WorkflowError (Unit {0})
transition fromisoformat t now utc_now = do
  context ← gets (λ s. s.context)
  checked ← lift (check_transition fromisoformat t context now)
  move t utc_now checked

unfoldable pub decided_run : RunRecord → Decision → String → RunRecord
decided_run run decision utc_now = record run {
  final_disposition = some decision.disposition;
  reason_codes = map (λ (r : Reason). r.code) decision.reasons;
  collection_status =
      if run.current_stage == stage_value Stage.blocked then Models.partial else Models.pass;
  completed_at_utc = utc_now;
  current_stage = stage_value Stage.complete;
}

unfoldable pub closed_context : Context → RunRecord → List Reason → String → Context
unfolding decided_run
closed_context context run reasons utc_now =
    let decision = decide_final_disposition reasons in
    record context {
      run = Models.to_dict (decided_run run decision utc_now);
      final_decision = some decision;
    }

-- The rest of `finalize`, where the run may be closed.
unfoldable pub close :
    List Reason → Identity → String → RunRecord → Exec Session WorkflowError (Unit {0})
close reasons i utc_now run = do
  let decision = decide_final_disposition reasons
  context ← gets (λ s. closed_context s.context run reasons utc_now)
  store_context context run.run_id i (note run Stage.complete (decided decision) "" "") utc_now

-- The guard of `finalize` on the run that was read.
abbrev pub may_close : RunRecord → Result WorkflowError RunRecord
may_close run =
    if run.current_stage == stage_value Stage.finalize
      || run.current_stage == stage_value Stage.blocked
    then ok run
    else err not_finalizable

abbrev pub check_finalize : Context → Result WorkflowError RunRecord
check_finalize context = Prelude.◌>>=◌ (from_model (Models.from_dict context.run)) may_close

unfoldable pub finalize : List Reason → Identity → String → Exec Session WorkflowError (Unit {0})
finalize reasons i utc_now = do
  context ← gets (λ s. s.context)
  run ← lift (check_finalize context)
  close reasons i utc_now run
