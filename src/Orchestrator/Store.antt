-- ===== src/Orchestrator/Store.antt =====
-- The session of a workflow: the caller's context, and the files of the runs. A run lives in two
-- files of its directory, run.json (the context) and workflow-state.json; each is replaced in one step.
use Prim.Native.Char.{code}
use cnserver_ops.Prelude.{
  String, Bool, true, false, not, ◌||◌, ◌&&◌, List, Option, ◌==◌, put, ◌≡◌, refl, Result, ok, err,
  if◌then◌else◌, eqb, starts_with,
}
use cnserver_ops.Exec.{Exec}
use cnserver_ops.Text.{has_char}
use cnserver_ops.Disposition.{Decision}
use cnserver_ops.Safety.{Blocked}
use cnserver_ops.State.{JsonFile, object, SavedState, StateError}
use cnserver_ops.Models.{ModelError, ServerRecord, RunDict}
use cnserver_ops.Orchestrator.Stages.{Stage}
use cnserver_ops.Orchestrator.Routes.{Platform, VendorRoute}

pub data WorkflowError : Type 0 where
  untrusted_identity : String → WorkflowError
  identity_disagrees not_finalizable bad_run_id : WorkflowError
  not_an_object malformed_json file_not_found file_exists : WorkflowError
  unknown_stage : String → WorkflowError
  invalid_transition : Stage → Stage → WorkflowError
  route_denies route_not_validated adapter_failed : String → WorkflowError
  blocked_by_gate : Blocked → WorkflowError
  model_error : ModelError → WorkflowError
  state_error : StateError → WorkflowError

pub record HistoryEntry : Type 0 where
  pub stage : String
  pub status : String
  pub details : List (String × String)

pub record Context : Type 0 where
  pub server : ServerRecord
  pub run : RunDict
  pub platform : Platform
  pub route : VendorRoute
  pub stage_history : List HistoryEntry
  pub final_decision : Option Decision

-- What stands under `primary_root / "runs"`, by RUN_ID.
pub record Disk : Type 0 where
  pub has_dir : String → Bool
  pub run_json : String → Option (JsonFile Context)
  pub workflow_state : String → Option (JsonFile SavedState)

pub record Session : Type 0 where
  pub context : Context
  pub disk : Disk

abbrev pub from_model {ℓ} : {A : Type ℓ} → Result ModelError A → Result WorkflowError A
from_model (ok a) = ok a
from_model (err e) = err (model_error e)

abbrev pub from_state {ℓ} : {A : Type ℓ} → Result StateError A → Result WorkflowError A
from_state (ok a) = ok a
from_state (err e) = err (state_error e)

abbrev pub from_gate : Result Blocked (Unit {0}) → Result WorkflowError (Unit {0})
from_gate (ok a) = ok a
from_gate (err e) = err (blocked_by_gate e)

-- `".." in s`.
has_two_dots : Bool → String → Bool
has_two_dots after_dot String.[] = false
has_two_dots after_dot (String.◌∷◌ c s) =
    (after_dot && eqb (code c) b'.') || has_two_dots (eqb (code c) b'.') s

-- `_run_dir`: the RUN_ID names a directory, or the call raises.
unfoldable pub run_dir : String → Result WorkflowError String
unfolding has_two_dots has_char
run_dir run_id =
    if not (starts_with run_id "RUN-")
      || has_char b'/' run_id
      || has_char 92 run_id
      || has_two_dots false run_id
    then err bad_run_id
    else ok run_id

unfoldable pub write_run : String → Context → Disk → Disk
write_run dir c d = record d { run_json = put dir (object c) d.run_json }

unfoldable pub write_workflow_state : String → SavedState → Disk → Disk
write_workflow_state dir s d = record d { workflow_state = put dir (object s) d.workflow_state }

unfoldable pub make_dir : String → Exec Disk WorkflowError (Unit {0})
make_dir dir d =
    if d.has_dir dir
    then (err file_exists, d)
    else (ok tt, record d { has_dir = λ j. if dir == j then true else d.has_dir j })

pub from_model-ok {ℓ} :
    {A : Type ℓ} (r : Result ModelError A) {a : A} → from_model r ≡ ok a → r ≡ ok a
from_model-ok (ok a) h = cc
from_model-ok (err e) h = cc

pub from_state-ok {ℓ} :
    {A : Type ℓ} (r : Result StateError A) {a : A} → from_state r ≡ ok a → r ≡ ok a
from_state-ok (ok a) h = cc
from_state-ok (err e) h = cc

pub from_gate-ok : (r : Result Blocked (Unit {0})) → from_gate r ≡ ok tt → r ≡ ok tt
from_gate-ok (ok a) h = refl
from_gate-ok (err e) h = cc
