-- ===== src/Logs/Tests.antt =====
-- Runs of the log cleanup of cnserverops/logs.py.
use cnserver_ops.Prelude.{
  String, ◌*◌, Bool, true, false, [], ◌∷◌, Option, none, some, ok, err, ◌≡◌, refl, if◌then◌else◌,
  ◌==◌,
}
use cnserver_ops.Safety.{MutationGate, Instant}
use cnserver_ops.Samples.{machine, approval}
use cnserver_ops.Logs.{
  Completed, Machine, Verification, Cleanup, Manifest, Files, Adapter, not_attested, entry_count,
  is_expected_clear_record, verify_empty, local_adapter, execute_log_cleanup,
}
use cnserver_ops.Logs.Verified.{traced, Extends, verify_empty-Extends}
use cnserver_ops.Logs.Sound.{IsSound, verify_empty-IsSound}
use cnserver_ops.Logs.Guarded.{MayClear, execute_log_cleanup-success}

count_sample : entry_count "SEL Information\nEntries          : 12 \nFree : 1" ≡ some 12
unfolding entry_count
count_sample = refl

no_count_sample : entry_count "Entries : 12 of 20" ≡ none
unfolding entry_count
no_count_sample = refl

marker_sample :
    is_expected_clear_record "  1 | Event Logging | Log area reset/cleared | Asserted\n\n" ≡ true
unfolding is_expected_clear_record
marker_sample = refl

residual_sample : is_expected_clear_record "1 | Log area reset/cleared\n2 | PSU failure" ≡ false
unfolding is_expected_clear_record
residual_sample = refl

-- A log of `n` events: a clear leaves the mark of the clear behind.
abbrev says : String → Option Completed
says text = some (record { returncode = 0; stdout = text })

abbrev bmc : Machine Bool
bmc (tool ∷ log ∷ verb ∷ []) cleared =
    if verb == "clear"
    then (says "Clearing SEL", true)
    else if verb == "info"
    then (says (if cleared then "Entries : 1" else "Entries : 7"), cleared)
    else (says "1 | Log area reset/cleared", cleared)
bmc command cleared = (none, cleared)

abbrev cleared_log : Verification
cleared_log = record {
  empty = true;
  entry_count = 1;
  expected_clear_record = true;
  attempts = 1;
  observed_counts = 1 ∷ [];
}

verified_sample : (verify_empty bmc 3 true).0 ≡ ok cleared_log
unfolding verify_empty
verified_sample = refl

abbrev full_log : Verification
full_log = record {
  empty = false;
  entry_count = 7;
  expected_clear_record = false;
  attempts = 3;
  observed_counts = 7 ∷ 7 ∷ 7 ∷ [];
}

full_sample : (verify_empty bmc 3 false).0 ≡ ok full_log
unfolding verify_empty
full_sample = refl

verify_empty-Extends_example : Extends (2 * 3) [] (verify_empty (traced bmc) 3 (false, [])).1.1
verify_empty-Extends_example = verify_empty-Extends bmc 3 false []

verify_empty-IsSound_example : IsSound bmc 3 cleared_log (verify_empty bmc 3 true).1
verify_empty-IsSound_example = verify_empty-IsSound bmc 3 true cleared_log verified_sample

abbrev no_clock : String → Option Instant
no_clock s = none

abbrev gate : MutationGate
gate = record approval { run_id = ""; component = "SEL"; target_version = ""; package_sha256 = "" }

abbrev manifest : Manifest
manifest = record {
  phase = "PRE_CLEAN_PRESERVED";
  verified_saved = true;
  artifacts = record { category = "sel"; path = "/e/sel.txt"; sha256 = "aa" } ∷ [];
}

abbrev files : Files
files path = some (record { is_symlink = false; size_bytes = 5; sha256 = "aa" })

abbrev adapter : Adapter Bool
adapter = local_adapter bmc 3

abbrev cleaned_log : Cleanup
cleaned_log = record {
  status = "SUCCESS";
  reason_code = "LOG_CLEAR_VERIFIED";
  clear_result = record { returncode = 0; stdout = "Clearing SEL" };
  postclean_verification = record {
    empty = true;
    entry_count = 1;
    expected_clear_record = true;
    attempts = 1;
    observed_counts = 1 ∷ [];
  };
}

cleanup_sample :
    (execute_log_cleanup no_clock machine manifest files ("aa" ∷ []) adapter gate "RUN-1" 5 false).0
    ≡ ok cleaned_log
unfolding execute_log_cleanup cnserver_ops.Safety.require cnserver_ops.Safety.check_bindings
    cnserver_ops.Safety.bindings cnserver_ops.Text.upper cnserver_ops.Safety.check_expiry
    local_adapter
cleanup_sample = refl

unattested_sample :
    execute_log_cleanup no_clock machine manifest files ("bb" ∷ []) adapter gate "RUN-1" 5 false
    ≡ (err not_attested, false)
unfolding execute_log_cleanup
unattested_sample = refl

execute_log_cleanup-success_example :
    MayClear no_clock machine manifest files ("aa" ∷ []) gate "RUN-1" 5
    × (m : Bool) × (adapter.clear false ≡ (ok cleaned_log.clear_result, m))
    × ((adapter.verify_empty m).0 ≡ ok cleaned_log.postclean_verification)
    × (cleaned_log.postclean_verification.empty ≡ true)
execute_log_cleanup-success_example =
    execute_log_cleanup-success no_clock machine manifest files ("aa" ∷ []) gate "RUN-1" 5 adapter
      false cleaned_log cleanup_sample refl
