-- ===== src/State.antt =====
-- cnserverops/state.py: the persisted workflow state and the checks that bind a resumed workflow to
-- the same server, run and runner.
pub mod Binding
mod Tests
use cnserver_ops.Prelude.{
  String, ℕ, Bool, true, false, not, ◌||◌, List, Option, none, some, ◌==◌, truthy, or_text,
  contains, [], ◌∷◌, Result, ok, err, ◌>>=◌, ◌>>◌, raise_if,
}
use cnserver_ops.Text.{upper}
use cnserver_ops.Identity.{Identity}
use cnserver_ops.Disposition.{Decision}

pub data StateError : Type 0 where
  unsafe_identity : String → StateError
  foreign_machine foreign_run foreign_runner : StateError
  not_an_object malformed_json : StateError
  no_task_identity task_mismatch : StateError
  unexpected_task_state : String → StateError

-- A text that may hold a JSON object, another JSON value, or no JSON.
pub data JsonFile {ℓ} (A : Type ℓ) : Type ℓ where
  object : A → JsonFile A
  other_value malformed : JsonFile A

-- The details of a stage: texts under text keys, or the decision that closed the run.
pub data Details : Type 0 where
  fields : List (String × String) → Details
  decided : Decision → Details

-- The payload that `write_state` stores.
pub record SavedState : Type 0 where
  pub schema_version : ℕ
  pub updated_at_utc : String
  pub vendor : String
  pub platform_id : String
  pub machine_fingerprint_sha256 : String
  pub server_id : String
  pub boot_id : String
  pub primary_serial : String
  pub model : String
  pub run_id : String
  pub runner_id : String
  pub runtime_version : String
  pub phase : String
  pub current_workflow_stage : String
  pub expected_next_stage : String
  pub firmware_task_identity : String
  pub details : Details

-- `None` for a path that does not exist.
unfoldable pub load_state : Option (JsonFile SavedState) → Result StateError (Option SavedState)
load_state none = ok none
load_state (some (object p)) = ok (some p)
load_state (some other_value) = err not_an_object
load_state (some malformed) = err malformed_json

pub is_foreign : SavedState → Identity → Bool
is_foreign existing i =
    not (truthy existing.machine_fingerprint_sha256)
    || not (existing.machine_fingerprint_sha256 == i.fingerprint_sha256)
    || not (upper existing.vendor == upper i.vendor)
    || not (upper existing.platform_id == upper i.platform_id)

pub check_machine : Option SavedState → Identity → Result StateError (Unit {0})
check_machine none i = ok tt
check_machine (some existing) i = raise_if (is_foreign existing i) foreign_machine

unfoldable pub assert_resume_allowed : Option SavedState → Identity → Result StateError (Unit {0})
unfolding check_machine is_foreign
assert_resume_allowed existing i = do
  raise_if (not i.resumable || not (truthy i.fingerprint_sha256))
      (unsafe_identity (or_text i.resume_block_reason "machine identity is not resumable"))
  check_machine existing i

pub differs : Option String → (String → Bool) → Bool
differs none same = false
differs (some expected) same = not (same expected)

pub check_continuity :
    Option SavedState → Option String → Option String → Result StateError (Unit {0})
check_continuity none run_id runner_id = ok tt
check_continuity (some existing) run_id runner_id = do
  raise_if (differs run_id (λ r. existing.run_id == r)) foreign_run
  raise_if (differs runner_id (λ r. upper existing.runner_id == upper r)) foreign_runner

unfoldable pub assert_workflow_resume_allowed :
    Option SavedState → Identity → Option String → Option String → Result StateError (Unit {0})
unfolding check_continuity differs
assert_workflow_resume_allowed existing i run_id runner_id = do
  assert_resume_allowed existing i
  check_continuity existing run_id runner_id

unfoldable pub assert_firmware_task_continuity :
    SavedState → String → String → Result StateError (Unit {0})
assert_firmware_task_continuity existing observed_identity observed_state = do
  raise_if (not (truthy existing.firmware_task_identity)) no_task_identity
  raise_if
      (not (truthy observed_identity) || not (observed_identity == existing.firmware_task_identity))
      task_mismatch
  raise_if
      (not (contains (upper observed_state) ("COMPLETED" ∷ "REBOOT_REQUIRED" ∷ "RUNNING" ∷ [])))
      (unexpected_task_state (or_text observed_state "missing"))

-- The keyword arguments of `write_state`.
pub record Note : Type 0 where
  pub phase : String
  pub details : Details
  pub run_id : String
  pub runner_id : String
  pub runtime_version : String
  pub expected_next_stage : String
  pub firmware_task_identity : String

pub payload : Identity → Note → String → SavedState
payload i n now = record {
  schema_version = 3;
  updated_at_utc = now;
  vendor = i.vendor;
  platform_id = i.platform_id;
  machine_fingerprint_sha256 = i.fingerprint_sha256;
  server_id = i.server_id;
  boot_id = i.boot_id;
  primary_serial = i.primary_serial;
  model = i.model;
  run_id = n.run_id;
  runner_id = n.runner_id;
  runtime_version = n.runtime_version;
  phase = n.phase;
  current_workflow_stage = n.phase;
  expected_next_stage = n.expected_next_stage;
  firmware_task_identity = n.firmware_task_identity;
  details = n.details;
}

-- The payload that is written, or the refusal. The write itself replaces the file in one step.
unfoldable pub write_state : Identity → Note → String → Result StateError SavedState
unfolding payload
write_state i n now = do assert_resume_allowed none i; ok (payload i n now)
