-- ===== src/Orchestrator/Tests.antt =====
-- A run on the sample machine, and the workflow's theorems on it.
use cnserver_ops.Prelude.{
  String, false, List, [], ◌∷◌, ◌++◌, Option, none, Result, ok, ◌≡◌, refl, ap,
}
use cnserver_ops.Disposition
use cnserver_ops.Disposition.{Reason, Decision, FinalDisposition, decide_final_disposition}
use cnserver_ops.Safety
use cnserver_ops.Safety.{Blocked, Instant, MutationGate, Operation}
use cnserver_ops.State
use cnserver_ops.State.{
  JsonFile, object, other_value, malformed, SavedState, Details, fields, decided, Note,
}
use cnserver_ops.Models
use cnserver_ops.Models.{ServerRecord, RunRecord, RunDict}
use cnserver_ops.Orchestrator.Stages.{
  Stage, stage_value, workflow_stage, transitions, contains_stage, mutation_action,
}
use cnserver_ops.Orchestrator.Routes.{select_vendor_route}
use cnserver_ops.Orchestrator.Store.{
  WorkflowError, HistoryEntry, Context, Disk, Session, run_dir, make_dir,
}
use cnserver_ops.Orchestrator.Persist.{history_entry, persist, with_disk, store_context}
use cnserver_ops.Orchestrator.Start.{StartRequest, start, resume, check_start, create}
use cnserver_ops.Orchestrator.Checks.{Transition, check_transition, authorize, operation}
use cnserver_ops.Orchestrator.{transition, finalize, move, close, closed_context}
use cnserver_ops.Orchestrator.Start.{first_context}
use cnserver_ops.Orchestrator.Durable.{resume-transition, resume-finalize}
use cnserver_ops.Orchestrator.Gated.{IsApproved, transition-IsApproved}
use cnserver_ops.Orchestrator.Trace.{Call, Reached, started, moved, IsTraced}
use cnserver_ops.Orchestrator.History.{EndsWith, Reached-IsTraced, log_clean_after_preservation}
use cnserver_ops.Text.{upper, strip}
use cnserver_ops.Samples.{machine, approval}

abbrev no_clock : String → Option Instant
no_clock s = none

abbrev empty : Disk
empty = record { has_dir = λ j. false; run_json = λ j. none; workflow_state = λ j. none }

abbrev request : StartRequest
request = record {
  platform = record { platform_id = "ASUS_RS720"; vendor = "Asus" };
  identity = machine;
  runner_id = "ssd-01";
  continuation_of_run_id = "";
  workflow_mode = "";
  test_profile = "standard";
}

abbrev server0 : ServerRecord
server0 = record {
  fingerprint_sha256 = "ab12";
  vendor = "ASUS";
  model = "RS720-E11";
  system_serial = "S1";
  server_id = "SERVER-AB12";
  dmi_uuid = "";
  board_serial = "B1";
  chassis_serial = "";
  confidence = "high";
  anchors = ("dmi_board_serial", "B1") ∷ [];
}

abbrev run0 : RunRecord
run0 = record {
  run_id = "RUN-00000001";
  runner_id = "SSD-01";
  runtime_version = "3.8";
  server_fingerprint_sha256 = "ab12";
  vendor = "ASUS";
  model = "RS720-E11";
  system_serial = "S1";
  started_at_utc = "T0";
  workflow_mode = "PRODUCTION";
  test_profile = "STANDARD";
  boot_id = "boot-1";
  continuation_of_run_id = "";
  completed_at_utc = "";
  current_stage = "IDENTITY";
  collection_status = Models.in_progress;
  export_status = Models.not_started;
  central_sync_status = Models.pending_upload;
  final_disposition = none;
  reason_codes = [];
  warnings = [];
}

abbrev s0 : Session
s0 = record {
  context = first_context request server0 run0;
  disk = (start "3.8" request "RUN-00000001" "T0" empty).1;
}

starts :
    start "3.8" request "RUN-00000001" "T0" empty
    ≡ (ok (first_context request server0 run0), s0.disk)
unfolding start check_start create run_dir make_dir persist first_context Models.from_identity
    Models.start Models.validate_runner_id upper strip State.write_state State.assert_resume_allowed
starts = refl

abbrev to : Stage → Transition
to next = record {
  identity = machine;
  next_stage = next;
  adapter = none;
  mutation_gate = approval;
  details = ("package_sha256", "BEEF") ∷ [];
  firmware_task_identity = "";
}

abbrev entry : Stage → HistoryEntry
entry next = history_entry next (("package_sha256", "BEEF") ∷ [])

-- The context of the run at `next`, after `entries`.
abbrev at : Stage → List HistoryEntry → Context
at next entries = record (first_context request server0 run0) {
  run = Models.to_dict (record run0 { current_stage = stage_value next });
  stage_history = s0.context.stage_history ++ entries;
}

abbrev s1 : Session
s1 = record {
  context = at Stage.capability_discovery (entry Stage.capability_discovery ∷ []);
  disk = (transition no_clock (to Stage.capability_discovery) 5 "T1" s0).1.disk;
}

moves1 : transition no_clock (to Stage.capability_discovery) 5 "T1" s0 ≡ (ok tt, s1)
unfolding first_context Models.to_dict Models.status_value stage_value transition check_transition
    move store_context run_dir persist State.write_state State.assert_resume_allowed
    Models.from_dict Models.read_disposition Models.operation_status workflow_stage contains_stage
    transitions authorize mutation_action with_disk
moves1 = refl

abbrev s2 : Session
s2 = record {
  context = at Stage.inventory (entry Stage.capability_discovery ∷ entry Stage.inventory ∷ []);
  disk = (transition no_clock (to Stage.inventory) 5 "T1" s1).1.disk;
}

moves2 : transition no_clock (to Stage.inventory) 5 "T1" s1 ≡ (ok tt, s2)
unfolding first_context Models.to_dict Models.status_value stage_value transition check_transition
    move store_context run_dir persist State.write_state State.assert_resume_allowed
    Models.from_dict Models.read_disposition Models.operation_status workflow_stage contains_stage
    transitions authorize mutation_action with_disk
moves2 = refl

abbrev s3 : Session
s3 = record {
  context =
      at Stage.firmware_plan
        (entry Stage.capability_discovery ∷ entry Stage.inventory ∷ entry Stage.firmware_plan ∷ []);
  disk = (transition no_clock (to Stage.firmware_plan) 5 "T1" s2).1.disk;
}

moves3 : transition no_clock (to Stage.firmware_plan) 5 "T1" s2 ≡ (ok tt, s3)
unfolding first_context Models.to_dict Models.status_value stage_value transition check_transition
    move store_context run_dir persist State.write_state State.assert_resume_allowed
    Models.from_dict Models.read_disposition Models.operation_status workflow_stage contains_stage
    transitions authorize mutation_action with_disk
moves3 = refl

abbrev s4 : Session
s4 = record {
  context = at Stage.hardware_tests (
      entry Stage.capability_discovery
      ∷ entry Stage.inventory
      ∷ entry Stage.firmware_plan
      ∷ entry Stage.hardware_tests
      ∷ []);
  disk = (transition no_clock (to Stage.hardware_tests) 5 "T1" s3).1.disk;
}

moves4 : transition no_clock (to Stage.hardware_tests) 5 "T1" s3 ≡ (ok tt, s4)
unfolding first_context Models.to_dict Models.status_value stage_value transition check_transition
    move store_context run_dir persist State.write_state State.assert_resume_allowed
    Models.from_dict Models.read_disposition Models.operation_status workflow_stage contains_stage
    transitions authorize mutation_action with_disk
moves4 = refl

abbrev s5 : Session
s5 = record {
  context = at Stage.diagnostics (
      entry Stage.capability_discovery
      ∷ entry Stage.inventory
      ∷ entry Stage.firmware_plan
      ∷ entry Stage.hardware_tests
      ∷ entry Stage.diagnostics
      ∷ []);
  disk = (transition no_clock (to Stage.diagnostics) 5 "T1" s4).1.disk;
}

moves5 : transition no_clock (to Stage.diagnostics) 5 "T1" s4 ≡ (ok tt, s5)
unfolding first_context Models.to_dict Models.status_value stage_value transition check_transition
    move store_context run_dir persist State.write_state State.assert_resume_allowed
    Models.from_dict Models.read_disposition Models.operation_status workflow_stage contains_stage
    transitions authorize mutation_action with_disk
moves5 = refl

abbrev s6 : Session
s6 = record {
  context = at Stage.pre_clean_logs (
      entry Stage.capability_discovery
      ∷ entry Stage.inventory
      ∷ entry Stage.firmware_plan
      ∷ entry Stage.hardware_tests
      ∷ entry Stage.diagnostics
      ∷ entry Stage.pre_clean_logs
      ∷ []);
  disk = (transition no_clock (to Stage.pre_clean_logs) 5 "T1" s5).1.disk;
}

moves6 : transition no_clock (to Stage.pre_clean_logs) 5 "T1" s5 ≡ (ok tt, s6)
unfolding first_context Models.to_dict Models.status_value stage_value transition check_transition
    move store_context run_dir persist State.write_state State.assert_resume_allowed
    Models.from_dict Models.read_disposition Models.operation_status workflow_stage contains_stage
    transitions authorize mutation_action with_disk
moves6 = refl

abbrev s7 : Session
s7 = record {
  context = at Stage.log_clean (
      entry Stage.capability_discovery
      ∷ entry Stage.inventory
      ∷ entry Stage.firmware_plan
      ∷ entry Stage.hardware_tests
      ∷ entry Stage.diagnostics
      ∷ entry Stage.pre_clean_logs
      ∷ entry Stage.log_clean
      ∷ []);
  disk = (transition no_clock (to Stage.log_clean) 5 "T1" s6).1.disk;
}

moves7 : transition no_clock (to Stage.log_clean) 5 "T1" s6 ≡ (ok tt, s7)
unfolding first_context Models.to_dict Models.status_value stage_value transition check_transition
    move store_context run_dir persist State.write_state State.assert_resume_allowed
    Models.from_dict Models.read_disposition Models.operation_status workflow_stage contains_stage
    transitions authorize mutation_action Safety.require Safety.check_bindings Safety.bindings
    Safety.check_expiry Safety.serial_of upper operation select_vendor_route with_disk
moves7 = refl

abbrev call_to : Stage → Call
call_to next = record { arguments = to next; now = 5 }

abbrev calls7 : List Call
calls7 =
    call_to Stage.log_clean
    ∷ call_to Stage.pre_clean_logs
    ∷ call_to Stage.diagnostics
    ∷ call_to Stage.hardware_tests
    ∷ call_to Stage.firmware_plan
    ∷ call_to Stage.inventory
    ∷ call_to Stage.capability_discovery
    ∷ []

reached7 : Reached no_clock calls7 s7
reached7 =
    moved (to Stage.log_clean) 5 "T1" s7
      (moved (to Stage.pre_clean_logs) 5 "T1" s6
        (moved (to Stage.diagnostics) 5 "T1" s5
          (moved (to Stage.hardware_tests) 5 "T1" s4
            (moved (to Stage.firmware_plan) 5 "T1" s3
              (moved (to Stage.inventory) 5 "T1" s2
                (moved (to Stage.capability_discovery) 5 "T1" s1
                  (started "3.8" request "RUN-00000001" "T0" empty s0.context s0 starts refl)
                  moves1)
                moves2)
              moves3)
            moves4)
          moves5)
        moves6)
      moves7

Reached-IsTraced_example : IsTraced no_clock calls7 s7.context
Reached-IsTraced_example = Reached-IsTraced no_clock reached7

log_clean_after_preservation_example :
    EndsWith no_clock s7.context.run.run_id s7.context.route calls7 s7.context.stage_history
      Stage.pre_clean_logs Stage.log_clean
unfolding stage_value Models.to_dict
log_clean_after_preservation_example = log_clean_after_preservation no_clock reached7 refl

returned :
    (r : Result WorkflowError (Unit {0}) × Session) (s : Session) → r ≡ (ok tt, s) → r.0 ≡ ok tt
returned r s e = ap (λ (x : Result WorkflowError (Unit {0}) × Session). x.0) e

transition-IsApproved_example :
    (run : RunRecord) × (Models.from_dict s6.context.run ≡ ok run)
    × IsApproved no_clock (to Stage.log_clean) "LOG_CLEAR" run s6.context.route 5
unfolding mutation_action
transition-IsApproved_example =
    transition-IsApproved no_clock (to Stage.log_clean) 5 "T1" s6 "LOG_CLEAR" (returned _ s7 moves7)
      refl

resume-transition_example :
    let s' = (transition no_clock (to Stage.capability_discovery) 5 "T1" s0).1 in
    resume s'.context.run.run_id machine s'.context.run.runner_id s'.disk ≡ (ok s'.context, s'.disk)
unfolding first_context Models.to_dict
resume-transition_example =
    resume-transition no_clock (to Stage.capability_discovery) 5 "T1" s0 (returned _ s1 moves1) refl

-- A run that stands at BLOCKED, which `finalize` closes.
abbrev stopped : Session
stopped = record { context = at Stage.blocked (entry Stage.blocked ∷ []); disk = s0.disk }

closes :
    (finalize
      (record { code = "X"; severity = Disposition.ReasonSeverity.fail; detail = "" } ∷ [])
      machine
      "T9"
      stopped).0
    ≡ ok tt
unfolding finalize close closed_context store_context with_disk run_dir persist State.write_state
    State.assert_resume_allowed Models.from_dict Models.read_disposition Models.operation_status
    Models.to_dict Models.status_value stage_value
closes = refl

resume-finalize_example :
    let s' =
      (finalize
        (record { code = "X"; severity = Disposition.ReasonSeverity.fail; detail = "" } ∷ [])
        machine
        "T9"
        stopped).1 in
    resume s'.context.run.run_id machine s'.context.run.runner_id s'.disk ≡ (ok s'.context, s'.disk)
unfolding Models.to_dict
resume-finalize_example =
    resume-finalize
      (record { code = "X"; severity = Disposition.ReasonSeverity.fail; detail = "" } ∷ []) machine
      "T9" stopped closes refl
