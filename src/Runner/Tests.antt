-- ===== src/Runner/Tests.antt =====
-- Runs of the functions of cnserverops/runner.py.
use cnserver_ops.Prelude.{String, none, some, Result, ok, err, ◌≡◌, ◌⊎◌, refl}
use cnserver_ops.Json.{Json, Python, get, string, object, end, field}
use cnserver_ops.Models.{validate_runner_id}
use cnserver_ops.Runner.{
  Runner, RunnerIdentityError, storage_mismatch, other_runner, load_runner, bootstrap_runner,
  update_runtime_version,
}
use cnserver_ops.Runner.Bound.{bootstrap_runner-existing}

abbrev py : Python
py = record {
  dumps = λ j. "{}";
  dumps_indented = λ j. "{}";
  loads = λ s. none;
  sha256 = λ s. s;
  repr = λ j. "{}";
  int = λ j. none;
}

abbrev print_of : String
print_of = "ABCDEFABCDEFABCDEFABCDEFABCDEFABCDEFABCDEFABCDEFABCDEFABCDEFABCD"

abbrev stored_print : String
stored_print = "abcdefabcdefabcdefabcdefabcdefabcdefabcdefabcdefabcdefabcdefabcd"

abbrev result_of : Result RunnerIdentityError (Runner × Json) → Runner × Json
result_of (ok r) = r
result_of (err e) = (
  record {
    runner_id = "";
    local_runner_uuid = "";
    storage_fingerprint_sha256 = "";
    runtime_version = "";
    updated_at_utc = "";
  },
  object end,
)

abbrev first : Runner × Json
first = result_of (bootstrap_runner py (λ u. some u) "ssd-01" "1.0" "" print_of "uuid-1" "T1" none)

stored_sample : first.0.storage_fingerprint_sha256 ≡ stored_print
unfolding bootstrap_runner cnserver_ops.Text.upper cnserver_ops.Text.strip
stored_sample = refl

-- The same call again: the fingerprint was stored in lower case and is compared as it is given.
again_sample :
    bootstrap_runner py (λ u. some u) "ssd-01" "1.0" "" print_of "uuid-2" "T2" (some first.1)
    ≡ err storage_mismatch
unfolding bootstrap_runner cnserver_ops.Text.upper cnserver_ops.Text.strip cnserver_ops.Json.str
again_sample = refl

other_sample :
    bootstrap_runner py (λ u. some u) "ssd-02" "1.0" "" "" "uuid-2" "T2" (some first.1)
    ≡ err other_runner
unfolding bootstrap_runner cnserver_ops.Text.upper cnserver_ops.Text.strip cnserver_ops.Json.str
other_sample = refl

known_sample :
    bootstrap_runner py (λ u. some u) " ssd-01" "2.0" "" stored_print "uuid-2" "T2" (some first.1)
    ≡ ok first
unfolding bootstrap_runner cnserver_ops.Text.upper cnserver_ops.Text.strip cnserver_ops.Json.str
known_sample = refl

-- An update writes the whole file back.
updated_sample :
    get "created_at_utc"
      (result_of (update_runtime_version py (λ u. some u) "T3" "ssd-01" "2.0" first.1)).1
    ≡ string "T1"
unfolding update_runtime_version bootstrap_runner get cnserver_ops.Text.upper
    cnserver_ops.Text.strip cnserver_ops.Json.str
updated_sample = refl

bootstrap_runner-existing_example :
    (first.1 ≡ first.1)
    × (load_runner py (λ u. some u) first.1 ≡ ok first.0)
    × (validate_runner_id " ssd-01" ≡ ok "SSD-01")
    × ((stored_print ≡ "")
        ⊎ (first.0.storage_fingerprint_sha256 ≡ "")
        ⊎ (first.0.storage_fingerprint_sha256 ≡ stored_print))
unfolding bootstrap_runner cnserver_ops.Text.upper cnserver_ops.Text.strip
bootstrap_runner-existing_example =
    bootstrap_runner-existing py (λ u. some u) " ssd-01" "2.0" "" stored_print "uuid-2" "T2" first.1
      first.1 first.0 known_sample
