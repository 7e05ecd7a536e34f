-- ===== src/Lifecycle/Build.antt =====
-- `build_pending`: the checkpoint from a plan and what was executed of it. An item that is no mapping
-- is skipped by the code, and not in these lists.
use cnserver_ops.Prelude.{
  String, ℕ, Bool, false, not, ◌||◌, ◌&&◌, List, [], ◌∷◌, is_empty, Option, none, some, ◌==◌,
  truthy, or_text, contains, Result, ok, ◌>>◌, raise_if, if◌then◌else◌,
}
use Prim.Native.String.{compare}
use text.Mathlib.Text.{is_lt}
use cnserver_ops.Text.{upper}
use cnserver_ops.Identity.{Identity}
use cnserver_ops.Lifecycle.Checkpoint.{
  LifecycleError, run_id_invalid, workflow_invalid, identity_incomplete, runner_id_missing,
  components_missing, activation_component_missing, Component, Pending, is_run_id, is_workflow,
}

pub record PlanItem : Type 0 where
  pub component : String
  pub status : String
  pub before : String
  pub target : String

pub record ExecutionItem : Type 0 where
  pub component : String
  pub status : String

pub record Execution : Type 0 where
  pub components : List ExecutionItem
  pub pending_component : String
  pub status : String
  pub task_id : String
  pub firmware_task_identity : String
  pub mutation_started : Bool

-- The other keyword arguments.
pub record BuildRequest : Type 0 where
  pub run_id : String
  pub run_directory : String
  pub identity : Identity
  pub runner_id : String
  pub workflow_mode : String
  pub profile_id : String
  pub profile_total_seconds : ℕ
  pub extended_diagnostics : Bool
  pub bmc_auth_changed : Bool

abbrev is_kept : PlanItem → Bool
is_kept x =
    truthy (upper x.component)
    && truthy x.target
    && contains (upper x.status)
        ("UPDATE_REQUIRED" ∷ "CURRENT_VERIFIED" ∷ "UPDATED_VERIFIED" ∷ "REBOOT_REQUIRED" ∷ [])

unfoldable pub components_of : List PlanItem → List Component
components_of [] = []
components_of (x ∷ xs) =
    let rest = components_of xs in
    let kept : Component = record {
      component = upper x.component;
      before = x.before;
      target = x.target;
      plan_status = upper x.status;
    } in
    if is_kept x then kept ∷ rest else rest

abbrev or_else : Option String → Option String → Option String
or_else none o = o
or_else (some s) o = some s

-- `executed.get(component)`: the last status that was recorded for it.
unfoldable pub executed_status : List ExecutionItem → String → Option String
executed_status [] c = none
executed_status (x ∷ xs) c =
    or_else (executed_status xs c)
      (if truthy (upper x.component) && upper x.component == c then some (upper x.status) else none)

abbrev pub is_success : Option String → Bool
is_success none = false
is_success (some s) = contains s ("SUCCESS" ∷ "SUCCESS_WITH_WARNING" ∷ "UPDATED_VERIFIED" ∷ [])

unfoldable pub rebooting : List ExecutionItem → List String
rebooting [] = []
rebooting (x ∷ xs) =
    let rest = rebooting xs in
    if truthy (upper x.component) && upper x.status == "REBOOT_REQUIRED"
    then upper x.component ∷ rest
    else rest

unfoldable pub activation_pending : Execution → List String
activation_pending e =
    if is_empty (rebooting e.components)
    then (if truthy (upper e.pending_component) then upper e.pending_component ∷ [] else [])
    else rebooting e.components

-- `sorted(set(…))`, one name at a time.
unfoldable pub insert : String → List String → List String
insert x [] = x ∷ []
insert x (y ∷ ys) =
    let rest = insert x ys in
    if x == y then y ∷ ys else if is_lt (compare x y) then x ∷ y ∷ ys else y ∷ rest

unfoldable pub sorted_set : List String → List String
sorted_set [] = []
sorted_set (x ∷ xs) = insert x (sorted_set xs)

-- The names of the components that were executed with success.
unfoldable pub completed_names : List ExecutionItem → List ExecutionItem → List String
completed_names all [] = []
completed_names all (x ∷ xs) =
    let rest = completed_names all xs in
    if truthy (upper x.component) && is_success (executed_status all (upper x.component))
    then upper x.component ∷ rest
    else rest

abbrev pub is_remaining : List String → List ExecutionItem → Component → Bool
is_remaining activation items c =
    contains c.plan_status ("UPDATE_REQUIRED" ∷ "REBOOT_REQUIRED" ∷ [])
    && not (contains c.component activation)
    && not (is_success (executed_status items c.component))

unfoldable pub remaining_of : List String → List ExecutionItem → List Component → List String
remaining_of activation items [] = []
remaining_of activation items (c ∷ cs) =
    let rest = remaining_of activation items cs in
    if is_remaining activation items c then c.component ∷ rest else rest

unfoldable pub build_pending :
    BuildRequest → List PlanItem → Execution → String → String → Result LifecycleError Pending
build_pending b plan e created updated = do
  raise_if (not (is_run_id (upper b.run_id))) run_id_invalid
  raise_if (not (is_workflow (upper b.workflow_mode))) workflow_invalid
  raise_if (not (truthy b.identity.fingerprint_sha256) || not (truthy b.identity.server_id))
      identity_incomplete
  raise_if (not (truthy b.runner_id)) runner_id_missing
  raise_if (is_empty (components_of plan)) components_missing
  raise_if (is_empty (activation_pending e)) activation_component_missing
  ok (record {
    created_at_utc = created;
    updated_at_utc = updated;
    run_id = upper b.run_id;
    run_directory = b.run_directory;
    workflow_mode = upper b.workflow_mode;
    profile_id = upper (or_text b.profile_id "STANDARD");
    profile_total_seconds = b.profile_total_seconds;
    extended_diagnostics = b.extended_diagnostics;
    server_id = b.identity.server_id;
    system_serial = b.identity.primary_serial;
    fingerprint_sha256 = b.identity.fingerprint_sha256;
    runner_id = b.runner_id;
    boot_id_before = b.identity.boot_id;
    components = components_of plan;
    activation_pending_components = sorted_set (activation_pending e);
    completed_pre_reboot_components = sorted_set (completed_names e.components e.components);
    remaining_components = remaining_of (activation_pending e) e.components (components_of plan);
    execution_status = or_text e.status "REBOOT_REQUIRED";
    firmware_task_identity = or_text e.task_id e.firmware_task_identity;
    mutation_started = e.mutation_started;
    bmc_auth_changed = b.bmc_auth_changed;
    reboot = record {
      requested = false;
      requested_at_utc = "";
      status = "NOT_REQUESTED";
      retry_count = 0;
      result = none;
    };
  })
