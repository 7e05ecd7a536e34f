-- ===== src/Logs.antt =====
-- cnserverops/logs.py: the cleanup of the event log. The machine that runs a command is a parameter
-- with a state of its own; times and the texts of errors are left out.
mod Parse
pub mod Verified
pub mod Sound
pub mod Guarded
mod Tests
use cnserver_ops.Prelude.{
  String, ℕ, zero, suc, ◌+◌, Bool, true, false, not, ◌||◌, ◌&&◌, List, [], ◌∷◌, ◌++◌, Option, none,
  some, ◌==◌, truthy, contains, Result, ok, err, raise_if, if◌then◌else◌, ltb, eqb, is_empty, map,
  ◌>>=◌, ◌>>◌, get_or, length,
}
use cnserver_ops.Identity.{Identity}
use cnserver_ops.Safety.{MutationGate, Operation, Instant, Blocked, require}
unfoldable pub use Parse.{entry_count, is_expected_clear_record}

pub data LogCleanupError : Type 0 where
  unavailable clear_failed verification_failed no_entry_count : LogCleanupError
  no_evidence unsafe_evidence not_preserved evidence_changed not_attested : LogCleanupError
  gate_blocked : Blocked → LogCleanupError

-- `subprocess.CompletedProcess`; the code of a process that a signal ended is some other number.
pub record Completed : Type 0 where
  pub returncode : ℕ
  pub stdout : String

-- `_run`: none for a command that cannot be run, or not in time.
abbrev pub Machine : Type 0 → Type 0
Machine M = List String → M → Option Completed × M

abbrev pub clear_command : List String
clear_command = "ipmitool" ∷ "sel" ∷ "clear" ∷ []

abbrev pub info_command : List String
info_command = "ipmitool" ∷ "sel" ∷ "info" ∷ []

abbrev pub elist_command : List String
elist_command = "ipmitool" ∷ "sel" ∷ "elist" ∷ []

pub record Verification : Type 0 where
  pub empty : Bool
  pub entry_count : ℕ
  pub expected_clear_record : Bool
  pub attempts : ℕ
  pub observed_counts : List ℕ

-- What the answer to `sel info` says.
unfoldable pub observed : Option Completed → Result LogCleanupError ℕ
unfolding entry_count
observed none = err unavailable
observed (some c) =
    if not (eqb c.returncode 0) then err verification_failed else counted (entry_count c.stdout)
  where
    counted : Option ℕ → Result LogCleanupError ℕ
    counted none = err no_entry_count
    counted (some n) = ok n

-- What the listing says of the one record that is left.
unfoldable pub is_marker : Option Completed → Result LogCleanupError Bool
unfolding is_expected_clear_record
is_marker none = err unavailable
is_marker (some c) = ok (eqb c.returncode 0 && is_expected_clear_record c.stdout)

abbrev last_or : ℕ → List ℕ → ℕ
last_or d [] = d
last_or d (x ∷ xs) = last_or x xs

unfoldable pub found : List ℕ → ℕ → Bool → Verification
found seen n is_marker_only = record {
  empty = true;
  entry_count = n;
  expected_clear_record = is_marker_only;
  attempts = length seen;
  observed_counts = seen;
}

module _ {M : Type 0} (run : Machine M) where
  unfoldable pub clear : M → Result LogCleanupError Completed × M
  clear m = cleared (run clear_command m)
    where
      judged : Completed → Result LogCleanupError Completed
      judged c = if not (eqb c.returncode 0) then err clear_failed else ok c

      cleared : Option Completed × M → Result LogCleanupError Completed × M
      cleared (none, m') = (err unavailable, m')
      cleared (some c, m') = (judged c, m')

  abbrev Verifies : Type 0
  Verifies = Result LogCleanupError Verification × M

  -- The listing of a single record, and the next attempt otherwise.
  unfoldable pub listed : (M → Verifies) → List ℕ → Option Completed × M → Verifies
  unfolding is_marker found
  listed next seen (answer, m) = decided (is_marker answer)
    where
      decided : Result LogCleanupError Bool → Verifies
      decided (err e) = (err e, m)
      decided (ok true) = (ok (found seen 1 true), m)
      decided (ok false) = next m

  unfoldable pub counted : (M → Verifies) → List ℕ → ℕ → M → Verifies
  unfolding found listed
  counted next seen n m =
      if eqb n 0
      then (ok (found seen 0 false), m)
      else if eqb n 1
      then listed next seen (run elist_command m)
      else next m

  -- One attempt, and what follows it.
  unfoldable pub attempt : (List ℕ → M → Verifies) → List ℕ → Option Completed × M → Verifies
  unfolding observed counted
  attempt next seen (answer, m) = judged (observed answer)
    where
      judged : Result LogCleanupError ℕ → Verifies
      judged (err e) = (err e, m)
      judged (ok n) = counted (next (seen ++ (n ∷ []))) (seen ++ (n ∷ [])) n m

  -- The loop of verify_empty: the attempts that are left, and the counts so far.
  unfoldable pub verify_from : ℕ → List ℕ → M → Verifies
  unfolding attempt
  verify_from zero seen m = (
    ok (record {
      empty = false;
      entry_count = last_or 0 seen;
      expected_clear_record = false;
      attempts = length seen;
      observed_counts = seen;
    }),
    m,
  )
  verify_from (suc left) seen m =
      attempt (λ seen' m'. verify_from left seen' m') seen (run info_command m)

  -- `verify_empty` with `verify_attempts`.
  unfoldable pub verify_empty : ℕ → M → Verifies
  unfolding verify_from
  verify_empty verify_attempts m = verify_from verify_attempts [] m

-- `LogCleanupAdapter`.
pub record Adapter (M : Type 0) : Type 0 where
  pub clear : M → Result LogCleanupError Completed × M
  pub verify_empty : M → Result LogCleanupError Verification × M

unfoldable pub local_adapter : {M : Type 0} → Machine M → ℕ → Adapter M
unfolding clear verify_empty
local_adapter run attempts = record { clear = clear run; verify_empty = verify_empty run attempts }

-- One file of the evidence, in the manifest and as given to `preserve_preclean_logs`.
pub record Artifact : Type 0 where
  pub category : String
  pub path : String
  pub sha256 : String

pub record Manifest : Type 0 where
  pub phase : String
  pub verified_saved : Bool
  pub artifacts : List Artifact

-- What is at a path: is it a link, and the digest and the size of the file that it leads to.
pub record Evidence : Type 0 where
  pub is_symlink : Bool
  pub size_bytes : ℕ
  pub sha256 : String

abbrev pub Files : Type 0
Files = String → Option Evidence

preserved : Files → (String × String) → Result LogCleanupError Artifact
preserved files (category, path) = checked (files path)
  where
    checked : Option Evidence → Result LogCleanupError Artifact
    checked none = err unsafe_evidence
    checked (some e) =
        if e.is_symlink || eqb e.size_bytes 0
        then err unsafe_evidence
        else ok (record { category = category; path = path; sha256 = e.sha256 })

preserved_all : Files → List (String × String) → Result LogCleanupError (List Artifact)
unfolding preserved
preserved_all files [] = ok []
preserved_all files (e ∷ es) = do
  first ← preserved files e
  rest ← preserved_all files es
  ok (first ∷ rest)

-- The manifest that is written. The evidence is given in the order of its categories; a path that
-- leads nowhere is unsafe too.
unfoldable pub preserve_preclean_logs :
    Files → List (String × String) → Result LogCleanupError Manifest
unfolding preserved_all
preserve_preclean_logs files evidence = do
  raise_if (is_empty evidence) no_evidence
  records ← preserved_all files evidence
  ok (record { phase = "PRE_CLEAN_PRESERVED"; verified_saved = true; artifacts = records })

unfoldable pub check_artifact : Files → List String → Artifact → Result LogCleanupError (Unit {0})
check_artifact files attested a =
    raise_if (not (unchanged (files a.path))) evidence_changed
    >> raise_if (not (contains a.sha256 attested)) not_attested
  where
    unchanged : Option Evidence → Bool
    unchanged none = false
    unchanged (some e) = e.sha256 == a.sha256

unfoldable pub check_artifacts :
    Files → List String → List Artifact → Result LogCleanupError (Unit {0})
unfolding check_artifact
check_artifacts files attested [] = ok tt
check_artifacts files attested (a ∷ rest) =
    check_artifact files attested a >> check_artifacts files attested rest

pub record Cleanup : Type 0 where
  pub status : String
  pub reason_code : String
  pub clear_result : Completed
  pub postclean_verification : Verification

-- The result, by what the verification said.
abbrev pub cleanup_if : Bool → Completed → Verification → Cleanup
cleanup_if false cleared v = record {
  status = "FAILED";
  reason_code = "LOG_CLEAR_FAILED";
  clear_result = cleared;
  postclean_verification = v;
}
cleanup_if true cleared v = record {
  status = "SUCCESS";
  reason_code = "LOG_CLEAR_VERIFIED";
  clear_result = cleared;
  postclean_verification = v;
}

abbrev pub cleanup_of : Completed → Verification → Cleanup
cleanup_of cleared v = cleanup_if v.empty cleared v

abbrev pub from_gate : Result Blocked (Unit {0}) → Result LogCleanupError (Unit {0})
from_gate (ok u) = ok u
from_gate (err e) = err (gate_blocked e)

-- The context that the gate is given.
abbrev pub sel_operation : String → Operation
sel_operation run_id = record {
  run_id = run_id;
  component = "SEL";
  target_version = "";
  package_sha256 = "";
}

-- The calls of the adapter, where nothing was refused.
unfoldable pub cleaned : {M : Type 0} → Adapter M → M → Result LogCleanupError Cleanup × M
cleaned {M} adapter m = after_clear (adapter.clear m)
  where
    after_verify :
        Completed → Result LogCleanupError Verification × M → Result LogCleanupError Cleanup × M
    after_verify c (err e, m') = (err e, m')
    after_verify c (ok v, m') = (ok (cleanup_of c v), m')

    after_clear : Result LogCleanupError Completed × M → Result LogCleanupError Cleanup × M
    after_clear (err e, m') = (err e, m')
    after_clear (ok c, m') = after_verify c (adapter.verify_empty m')

module _ (fromisoformat : String → Option Instant) where
  -- What is checked before the log is touched.
  unfoldable pub guarded :
      Identity
      → Manifest
      → Files
      → List String
      → MutationGate
      → String
      → ℕ
      → Result LogCleanupError (Unit {0})
  unfolding check_artifacts
  guarded i manifest files attested gate run_id now = do
    raise_if
        (not (manifest.phase == "PRE_CLEAN_PRESERVED")
          || not manifest.verified_saved
          || is_empty manifest.artifacts)
        not_preserved
    check_artifacts files attested manifest.artifacts
    from_gate (require fromisoformat gate "LOG_CLEAR" i (sel_operation run_id) now)

  unfoldable pub execute_log_cleanup :
      {M : Type 0}
      → Identity
      → Manifest
      → Files
      → List String
      → Adapter M
      → MutationGate
      → String
      → ℕ
      → M
      → Result LogCleanupError Cleanup × M
  unfolding guarded cleaned
  execute_log_cleanup {M} i manifest files attested adapter gate run_id now m =
      passed (guarded i manifest files attested gate run_id now)
    where
      passed : Result LogCleanupError (Unit {0}) → Result LogCleanupError Cleanup × M
      passed (err e) = (err e, m)
      passed (ok u) = cleaned adapter m
