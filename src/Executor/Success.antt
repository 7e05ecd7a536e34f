-- ===== src/Executor/Success.antt =====
-- The checks and the result of a run of `execute`.
use cnserver_ops.Prelude.{
  raise_if-ok, not-false, String, ℕ, Bool, true, not, List, [], ◌∷◌, Option, none, some, ◌==◌, ◌≡◌,
  refl, ap, sym, ◌∙◌, Result, ok, err, arith, eq_iff, raise_if, truthy, >>=-eq-ok,
}
use cnserver_ops.Text.{lower}
use cnserver_ops.Exec.{Exec, pure, lift, ◌>>=◌, after-ok}
use cnserver_ops.Exec.Rules.{Ensures, Ensures-bind, Ensures-pure}
use cnserver_ops.Safety
use cnserver_ops.Safety.{Instant}
use cnserver_ops.Safety.Gate.{IsCovered, require_iff}
use cnserver_ops.Firmware.Metadata.{FirmwarePackageMetadata, RepositoryError}
use cnserver_ops.Firmware.Applicability.{approved_for_executor}
use cnserver_ops.Firmware.Repository.{Cache, verify}
use cnserver_ops.Executor.Tasks.{UpdateTask, FirmwarePreview, UpdateResult}
use cnserver_ops.Executor.Calls.{
  Call, preview_called, start_called, ExecutionError, from_repository, from_gate, Adapter, Callback,
  Progress, call, report, no_task_identity, not_approved, foreign_object,
}
use cnserver_ops.Executor.Proven.{IsSuccess, IsInstalled, Proves, settle-Proves}
use cnserver_ops.Executor.{
  Request, operation, check_request, check_preview, poll_loop, settle, install, execute, finish,
  follow, begin,
}

-- What `execute` checked before it called the adapter.
pub record IsRequested (parse : String → Option Instant) {B : Type 0} (sha256 : B → String)
    (cache : Cache B) (q : Request) (now : ℕ) : Type 0 where
  pub approved : approved_for_executor q.applicability ≡ true
  pub same_object : q.applicability.package_sha256 ≡ lower q.metadata.sha256
  pub package_verified : (path : String) × (verify sha256 q.metadata.sha256 cache ≡ ok path)
  pub covered : IsCovered parse q.mutation_gate "FIRMWARE_APPLY" q.identity (operation q) now

from_repository-ok :
    (r : Result RepositoryError String) {path : String} → from_repository r ≡ ok path → r ≡ ok path
from_repository-ok (ok p) h = ground arith
from_repository-ok (err e) h = cc

from_gate-ok : (r : Result Safety.Blocked (Unit {0})) → from_gate r ≡ ok tt → r ≡ ok tt
from_gate-ok (ok tt) h = refl
from_gate-ok (err e) h = cc

check_request-IsRequested :
    (parse : String → Option Instant) {B : Type 0} (sha256 : B → String) (cache : Cache B)
    (q : Request) (now : ℕ) (path : String)
    → check_request parse sha256 cache q now ≡ ok path
    → IsRequested parse sha256 cache q now
unfolding check_request
check_request-IsRequested parse sha256 cache q now path h =
    let approved_test = not (approved_for_executor q.applicability) in
    let object_test = not (q.applicability.package_sha256 == lower q.metadata.sha256) in
    let (u, h1, g1) = >>=-eq-ok (raise_if approved_test not_approved) _ h in
    let (u2, h2, g2) = >>=-eq-ok (raise_if object_test foreign_object) _ g1 in
    let (p, h3, g3) = >>=-eq-ok (from_repository (verify sha256 q.metadata.sha256 cache)) _ g2 in
    let covered_call =
      Safety.require parse q.mutation_gate "FIRMWARE_APPLY" q.identity (operation q) now in
    let (u4, h4, g4) = >>=-eq-ok (from_gate covered_call) _ g3 in
    let not_refused = raise_if-ok approved_test not_approved h1 in
    let not_foreign = raise_if-ok object_test foreign_object h2 in
    record {
      approved = not-false _ not_refused;
      same_object =
          (eq_iff q.applicability.package_sha256 (lower q.metadata.sha256)).0
            (not-false _ not_foreign);
      package_verified = (p, from_repository-ok _ h3);
      covered =
          (require_iff parse q.mutation_gate "FIRMWARE_APPLY" q.identity (operation q) now).0
            (from_gate-ok covered_call h4);
    }

module _ (adapter : Adapter) (callback : Option Callback) (n : ℕ)
    (m : FirmwarePackageMetadata) where
  Proven : Exec (List Call) ExecutionError UpdateResult → Type 0
  Proven = Ensures (Proves adapter callback m)

  -- A step before the end proves nothing yet, and need not.
  skip :
      {A : Type 0} (first : Exec (List Call) ExecutionError A)
      (rest : A → Exec (List Call) ExecutionError UpdateResult)
      → ((a : A) → Proven (rest a))
      → Proven (first >>= rest)
  unfolding Proven
  skip first rest g = Ensures-bind {P = λ _. Unit {0}} first rest (λ s a h. tt) (λ a _. g a)

  finish-Proves :
      (preview : FirmwarePreview) (ended : Bool × UpdateTask × List UpdateTask)
      → Proven (finish adapter callback m preview ended)
  unfolding finish Proven
  finish-Proves preview ended =
      Ensures-bind {P = Proves adapter callback m} (settle adapter callback m preview ended)
        (λ result.
          report callback (record { phase = "TASK_TERMINAL"; task = none; status = result.status })
          >>= λ _. pure result)
        (settle-Proves adapter callback m preview ended)
        (λ result proves.
          skip
            (report callback
              (record { phase = "TASK_TERMINAL"; task = none; status = result.status }))
            (λ _. pure result) (λ _. Ensures-pure (Proves adapter callback m) result proves))

  follow-Proves :
      (preview : FirmwarePreview) (task : UpdateTask)
      → Proven (follow adapter callback n m preview task)
  unfolding follow
  follow-Proves preview task =
      let loop = poll_loop adapter callback n task (task ∷ []) in
      let check = lift (raise_if (not (truthy task.task_id)) no_task_identity) in
      skip (report callback (record { phase = "TASK_STARTED"; task = some task; status = "" }))
        (λ _. check >>= λ _. loop >>= finish adapter callback m preview)
        (λ _.
          skip check (λ _. loop >>= finish adapter callback m preview)
            (λ _. skip loop (finish adapter callback m preview) (finish-Proves preview)))

  begin-Proves :
      (path : String) (preview : FirmwarePreview) → Proven (begin adapter callback n m path preview)
  unfolding begin
  begin-Proves path preview =
      let p : Progress = record { phase = "ADAPTER_STARTING"; task = none; status = "" } in
      let start = call start_called (adapter.start path m) in
      skip (lift (check_preview m preview))
        (λ _. report callback p >>= λ _. start >>= follow adapter callback n m preview)
        (λ _.
          skip (report callback p) (λ _. start >>= follow adapter callback n m preview)
            (λ _. skip start (follow adapter callback n m preview) (follow-Proves preview)))

  install-Proves : (path : String) → Proven (install adapter callback n m path)
  unfolding install
  install-Proves path =
      skip (call preview_called (adapter.preview path m)) (begin adapter callback n m path)
        (begin-Proves path)

-- Where `execute` reports SUCCESS or SUCCESS_WITH_WARNING, the update was approved, for the very
-- object whose bytes were verified in the repository, and covered by the gate; and the version that
-- the adapter read back is the target version or one of the aliases that the preview named.
pub execute_success :
    (parse : String → Option Instant) {B : Type 0} (sha256 : B → String) (cache : Cache B)
    (adapter : Adapter) (callback : Option Callback) (max_polls : ℕ) (q : Request) (now : ℕ)
    (log : List Call) (r : UpdateResult)
    → (execute adapter callback parse sha256 cache max_polls q now log).0 ≡ ok r
    → IsSuccess r
    → IsRequested parse sha256 cache q now × IsInstalled adapter q.metadata r
unfolding execute Proven
execute_success parse sha256 cache adapter callback max_polls q now log r h s =
    let (path, checked, same) = after-ok _ _ _ h in
    (
      check_request-IsRequested parse sha256 cache q now path checked,
      install-Proves adapter callback max_polls q.metadata path log r
          (sym (ap (λ (z : Result ExecutionError UpdateResult × List Call). z.0) same) ∙ h) s,
    )
