-- ===== src/Executor/Proven.antt =====
-- The results of the end of `execute`: `conclude` and `settle`.
use cnserver_ops.Prelude.{
  String, Bool, true, false, not, List, Option, none, some, ◌≡◌, ◌≢◌, ◌⊎◌, refl, ok, arith, eq_iff,
  In, In-of_contains, if◌then◌else◌,
}
use cnserver_ops.Exec.{pure}
use cnserver_ops.Exec.Rules.{Ensures, Ensures-bind, Ensures-pure}
use cnserver_ops.Firmware.Metadata.{FirmwarePackageMetadata}
use cnserver_ops.Executor.Tasks.{
  UpdateTask, FirmwarePreview, UpdateResult, failure, UpdateTaskState, verified, version_matches,
  update_result, has_warning,
}
use cnserver_ops.Executor.Calls.{Call, read_called, Adapter, Callback, call}
use cnserver_ops.Executor.{settle, conclude}

abbrev pub IsSuccess : UpdateResult → Type 0
IsSuccess r = (r.status ≡ "SUCCESS") ⊎ (r.status ≡ "SUCCESS_WITH_WARNING")

-- The version that the adapter read back is the target or one of the preview's aliases of it.
abbrev pub IsInstalled : Adapter → FirmwarePackageMetadata → UpdateResult → Type 0
IsInstalled adapter m r =
    (r.component ≡ m.component)
    × (r.target_version ≡ m.version)
    × (r.package_sha256 ≡ m.sha256)
    × ((r.installed_version ≡ m.version)
        ⊎ In r.installed_version r.preview.reported_version_aliases)
    × (log : List Call) × (adapter.read_installed_version m.component log ≡ ok r.installed_version)

version_matches_sound :
    (installed target : String) (aliases : List String)
    → version_matches installed target aliases ≡ true
    → (installed ≡ target) ⊎ In installed aliases
unfolding version_matches
version_matches_sound installed target aliases h =
    ground (arith, eq_iff installed target, In-of_contains installed aliases)

module _ (adapter : Adapter) (callback : Option Callback) (m : FirmwarePackageMetadata) where
  abbrev pub Proves : UpdateResult → Type 0
  Proves r = IsSuccess r → IsInstalled adapter m r

  failed-Proves :
      (r : UpdateResult) → r.status ≢ "SUCCESS" → r.status ≢ "SUCCESS_WITH_WARNING" → Proves r
  failed-Proves r a b s = ground arith

  module _ (preview : FirmwarePreview) (task : UpdateTask) (history : List UpdateTask)
      (installed : String) (log : List Call)
      (read : adapter.read_installed_version m.component log ≡ ok installed) where
    verdict-Proves :
        (matches warned : Bool)
        → version_matches installed m.version preview.reported_version_aliases ≡ matches
        → Proves (
            if not matches
            then update_result "FAILED" "POST_UPDATE_VERSION_MISMATCH" m preview task history
                installed
            else if warned
            then update_result "SUCCESS_WITH_WARNING" "VERSION_VERIFIED_WITH_TASK_WARNING" m preview
                task history installed
            else update_result "SUCCESS" "VERSION_VERIFIED" m preview task history installed)
    verdict-Proves false warned e s =
        ground (arith, eq_iff "FAILED" "SUCCESS", eq_iff "FAILED" "SUCCESS_WITH_WARNING")
    verdict-Proves true false e s = (refl, refl, refl, version_matches_sound _ _ _ e, log, read)
    verdict-Proves true true e s = (refl, refl, refl, version_matches_sound _ _ _ e, log, read)

    verified-Proves : Proves (verified m preview task history installed)
    unfolding verified
    verified-Proves =
        verdict-Proves (version_matches installed m.version preview.reported_version_aliases)
          (has_warning task.state) refl

  abbrev Fails : Option (String × String) → Type 0
  Fails o =
      (status reason : String)
      → o ≡ some (status, reason)
      → (status ≢ "SUCCESS") × (status ≢ "SUCCESS_WITH_WARNING")

  conclude-Proves :
      (o : Option (String × String)) (preview : FirmwarePreview) (task : UpdateTask)
      (history : List UpdateTask)
      → Fails o
      → Ensures Proves (conclude adapter callback o m preview task history)
  unfolding conclude call
  conclude-Proves none preview task history fails =
      Ensures-bind
        {P = λ installed.
          (log : List Call) × (adapter.read_installed_version m.component log ≡ ok installed)}
        (call (read_called m.component) (adapter.read_installed_version m.component))
        (λ installed. pure (verified m preview task history installed))
        (λ log installed h. (log, h))
        (λ installed (log, h).
          Ensures-pure Proves (verified m preview task history installed)
            (verified-Proves preview task history installed log h))
  conclude-Proves (some (status, reason)) preview task history fails =
      let (a, b) = fails status reason refl in
      Ensures-pure Proves (update_result status reason m preview task history "")
        (failed-Proves (update_result status reason m preview task history "") a b)

  failure-Fails : (t : UpdateTaskState) → Fails (failure t)
  failure-Fails t status reason h = ground (
    arith,
    eq_iff "FAILED" "SUCCESS",
    eq_iff "FAILED" "SUCCESS_WITH_WARNING",
    eq_iff "REBOOT_REQUIRED" "SUCCESS",
    eq_iff "REBOOT_REQUIRED" "SUCCESS_WITH_WARNING",
  )

  pub settle-Proves :
      (preview : FirmwarePreview) (ended : Bool × UpdateTask × List UpdateTask)
      → Ensures Proves (settle adapter callback m preview ended)
  unfolding settle
  settle-Proves preview (false, task, history) =
      let r = update_result "FAILED" "UPDATE_TASK_TIMEOUT" m preview task history "" in
      Ensures-pure Proves r (
        failed-Proves r (ground (arith, eq_iff "FAILED" "SUCCESS"))
          (ground (arith, eq_iff "FAILED" "SUCCESS_WITH_WARNING")))
  settle-Proves preview (true, task, history) =
      conclude-Proves (failure task.state) preview task history (failure-Fails task.state)
