-- ===== src/Lifecycle/Checkpoint.antt =====
-- The checkpoint of cnserverops/firmware_lifecycle.py and its parts.
use cnserver_ops.Prelude.{
  String, ℕ, Bool, false, ◌||◌, ◌&&◌, List, [], ◌∷◌, Option, none, some, leb, eqb, contains,
}
use cnserver_ops.Text.{drop_prefix, all_chars, count_chars, is_upper_code, is_digit_code}

pub data LifecycleError : Type 0 where
  run_id_invalid workflow_invalid identity_incomplete runner_id_missing : LifecycleError
  components_missing activation_component_missing not_resumable : LifecycleError
  server_mismatch fingerprint_mismatch runner_mismatch boot_unchanged : LifecycleError

abbrev is_tail : Option String → Bool
is_tail none = false
is_tail (some s) =
    all_chars (λ n. is_upper_code n || is_digit_code n || eqb n b'-') s
    && leb 8 (count_chars s)
    && leb (count_chars s) 96

-- `_RUN_ID.fullmatch`: `^RUN-[A-Z0-9-]{8,96}$`.
unfoldable pub is_run_id : String → Bool
is_run_id s = is_tail (drop_prefix "RUN-" s)

abbrev pub is_workflow : String → Bool
is_workflow s = contains s ("PRODUCTION" ∷ "PRODUCTION_EXTENDED" ∷ "FIRMWARE_ONLY" ∷ [])

pub record Component : Type 0 where
  pub component : String
  pub before : String
  pub target : String
  pub plan_status : String

-- The answer of the command executor; its exit code is compared with zero only.
pub record CommandResult : Type 0 where
  pub status : String
  pub exit_code_is_zero : Bool

pub record Reboot : Type 0 where
  pub requested : Bool
  pub requested_at_utc : String
  pub status : String
  pub retry_count : ℕ
  pub result : Option CommandResult

pub record Pending : Type 0 where
  pub created_at_utc : String
  pub updated_at_utc : String
  pub run_id : String
  pub run_directory : String
  pub workflow_mode : String
  pub profile_id : String
  pub profile_total_seconds : ℕ
  pub extended_diagnostics : Bool
  pub server_id : String
  pub system_serial : String
  pub fingerprint_sha256 : String
  pub runner_id : String
  pub boot_id_before : String
  pub components : List Component
  pub activation_pending_components : List String
  pub completed_pre_reboot_components : List String
  pub remaining_components : List String
  pub execution_status : String
  pub firmware_task_identity : String
  pub mutation_started : Bool
  pub bmc_auth_changed : Bool
  pub reboot : Reboot
