-- ===== src/Executor/Bounded.antt =====
-- The cost of `execute` and `resume_task`, for any weight of the calls.
use cnserver_ops.Prelude.{
  String, ℕ, ◌+◌, ◌≤◌, Bool, true, false, not, List, [], ◌∷◌, Option, none, some, Result, arith,
  truthy, raise_if,
}
use cnserver_ops.Exec.{Exec, pure, lift, ◌>>=◌}
use cnserver_ops.Exec.Rules.{Grows, Grows-lift, Grows-bind, Grows-weaken}
use cnserver_ops.Safety.{Instant}
use cnserver_ops.Firmware.Metadata.{FirmwarePackageMetadata}
use cnserver_ops.Firmware.Repository.{Cache}
use cnserver_ops.Executor.Tasks.{
  UpdateTask, FirmwarePreview, failure, resumed_failure, update_result,
}
use cnserver_ops.Executor.Calls.{
  Call, preview_called, start_called, poll_called, read_called, ExecutionError, no_task_identity,
  durable_preview_rejected, Adapter, Callback, Progress, call, report,
}
use cnserver_ops.Executor.Effort.{
  total, IsFree, repeat, Grows-call, Grows-report, Grows-result, poll_loop-Grows, resume_loop-Grows,
  conclude-Grows,
}
use cnserver_ops.Executor.{
  Request, check_request, check_preview, poll_loop, resume_loop, settle, resume_settle, install,
  execute, resume_task, finish, follow, begin, reattach, check_resume, resumed,
}

module _ (adapter : Adapter) (callback : Option Callback) (weight : Call → ℕ) (b r : ℕ)
    (free : IsFree weight) (per_poll : (x : String) → weight (poll_called x) ≤ b)
    (per_read : (x : String) → weight (read_called x) ≤ r) where
  abbrev Costs : {A : Type 0} → ℕ → Exec (List Call) ExecutionError A → Type 0
  Costs n m = Grows (total weight) n m

  settle-Grows :
      (m : FirmwarePackageMetadata) (preview : FirmwarePreview)
      (ended : Bool × UpdateTask × List UpdateTask)
      → Costs r (settle adapter callback m preview ended)
  unfolding settle
  settle-Grows m preview (false, task, history) =
      Grows-result weight r (update_result "FAILED" "UPDATE_TASK_TIMEOUT" m preview task history "")
  settle-Grows m preview (true, task, history) =
      conclude-Grows adapter callback weight b r free per_poll per_read (failure task.state) m
        preview task history

  resume_settle-Grows :
      (m : FirmwarePackageMetadata) (preview : FirmwarePreview)
      (ended : Bool × UpdateTask × List UpdateTask)
      → Costs r (resume_settle adapter callback m preview ended)
  unfolding resume_settle
  resume_settle-Grows m preview (false, task, history) =
      Grows-result weight r (update_result "FAILED" "UPDATE_TASK_TIMEOUT" m preview task history "")
  resume_settle-Grows m preview (true, task, history) =
      conclude-Grows adapter callback weight b r free per_poll per_read (resumed_failure task.state)
        m preview task history

  told :
      {A : Type 0} (n : ℕ) (p : Progress) (m : Exec (List Call) ExecutionError A)
      → Costs n m
      → Costs n (report callback p >>= λ _. m)
  told n p m g =
      Grows-weaken (total weight) (0 + n) n (report callback p >>= λ _. m) (omega arith) (
        Grows-bind (total weight) 0 n (report callback p) (λ _. m)
          (Grows-report weight free callback p) (λ _. g))

  checked :
      {A B : Type 0} (n : ℕ) (c : Result ExecutionError B)
      (m : B → Exec (List Call) ExecutionError A)
      → ((x : B) → Costs n (m x))
      → Costs n (lift c >>= m)
  checked n c m g =
      Grows-weaken (total weight) (0 + n) n (lift c >>= m) (omega arith)
        (Grows-bind (total weight) 0 n (lift c) m (Grows-lift (total weight) c) g)

  module _ (n : ℕ) (m : FirmwarePackageMetadata) where
    finish-Grows :
        (preview : FirmwarePreview) (ended : Bool × UpdateTask × List UpdateTask)
        → Costs r (finish adapter callback m preview ended)
    unfolding finish
    finish-Grows preview ended =
        Grows-weaken (total weight) (r + 0) r (finish adapter callback m preview ended)
          (omega arith)
          (Grows-bind (total weight) r 0 (settle adapter callback m preview ended) _
            (settle-Grows m preview ended)
            (λ result.
              told 0 (record { phase = "TASK_TERMINAL"; task = none; status = result.status })
                (pure result) (Grows-result weight 0 result)))

    follow-Grows :
        (preview : FirmwarePreview) (task : UpdateTask)
        → Costs (repeat n b + r) (follow adapter callback n m preview task)
    unfolding follow
    follow-Grows preview task =
        told (repeat n b + r) (record { phase = "TASK_STARTED"; task = some task; status = "" })
          (lift (raise_if (not (truthy task.task_id)) no_task_identity) >>= λ _.
            poll_loop adapter callback n task (task ∷ []) >>= finish adapter callback m preview)
          (checked (repeat n b + r) (raise_if (not (truthy task.task_id)) no_task_identity)
            (λ _.
              poll_loop adapter callback n task (task ∷ []) >>= finish adapter callback m preview)
            (λ _.
              Grows-bind (total weight) (repeat n b) r
                (poll_loop adapter callback n task (task ∷ [])) (finish adapter callback m preview)
                (poll_loop-Grows adapter callback weight b r free per_poll per_read n task
                  (task ∷ []))
                (finish-Grows preview)))

    begin-Grows :
        (path : String) (preview : FirmwarePreview)
        → Costs (weight start_called + (repeat n b + r)) (begin adapter callback n m path preview)
    unfolding begin
    begin-Grows path preview =
        let k = weight start_called + (repeat n b + r) in
        let rest =
          call start_called (adapter.start path m) >>= follow adapter callback n m preview in
        checked k (check_preview m preview)
          (λ _.
            report callback (record { phase = "ADAPTER_STARTING"; task = none; status = "" })
            >>= λ _. rest)
          (λ _.
            told k (record { phase = "ADAPTER_STARTING"; task = none; status = "" }) rest
              (Grows-bind (total weight) (weight start_called) (repeat n b + r)
                (call start_called (adapter.start path m)) (follow adapter callback n m preview)
                (Grows-call weight start_called (adapter.start path m)) (follow-Grows preview)))

    pub install-Grows :
        (path : String)
        → Costs
            (weight preview_called + (weight start_called + (repeat n b + r)))
            (install adapter callback n m path)
    unfolding install
    install-Grows path =
        Grows-bind (total weight) (weight preview_called) (weight start_called + (repeat n b + r))
          (call preview_called (adapter.preview path m)) (begin adapter callback n m path)
          (Grows-call weight preview_called (adapter.preview path m)) (begin-Grows path)

    reattach-Grows :
        (task_id : String) (preview : FirmwarePreview)
        → Costs (repeat n b + r) (reattach adapter callback n m task_id preview)
    unfolding reattach
    reattach-Grows task_id preview =
        let k = repeat n b + r in
        let t = resumed adapter callback task_id in
        let p : Progress = record { phase = "TASK_RESUMED"; task = some t; status = "" } in
        let rest =
          resume_loop adapter callback n task_id t (t ∷ [])
          >>= resume_settle adapter callback m preview in
        checked k (raise_if (not preview.accepted) durable_preview_rejected)
          (λ _. report callback p >>= λ _. rest)
          (λ _. told k p rest (
            Grows-bind (total weight) (repeat n b) r
              (resume_loop adapter callback n task_id t (t ∷ []))
              (resume_settle adapter callback m preview)
              (resume_loop-Grows adapter callback weight b r free per_poll per_read n task_id t
                (t ∷ []))
              (resume_settle-Grows m preview)))

    pub resume_task-Grows :
        {B : Type 0} (sha256 : B → String) (cache : Cache B) (task_id : String)
        → Costs
            (weight preview_called + (repeat n b + r))
            (resume_task adapter callback sha256 cache n m task_id)
    unfolding resume_task
    resume_task-Grows sha256 cache task_id =
        checked (weight preview_called + (repeat n b + r))
          (check_resume adapter callback sha256 cache m task_id)
          (λ path.
            call preview_called (adapter.preview path m) >>= reattach adapter callback n m task_id)
          (λ path.
            Grows-bind (total weight) (weight preview_called) (repeat n b + r)
              (call preview_called (adapter.preview path m)) (reattach adapter callback n m task_id)
              (Grows-call weight preview_called (adapter.preview path m)) (reattach-Grows task_id))

  pub execute-Grows :
      (parse : String → Option Instant) {B : Type 0} (sha256 : B → String) (cache : Cache B) (n : ℕ)
      (q : Request) (now : ℕ)
      → Costs
          (weight preview_called + (weight start_called + (repeat n b + r)))
          (execute adapter callback parse sha256 cache n q now)
  unfolding execute
  execute-Grows parse sha256 cache n q now =
      checked (weight preview_called + (weight start_called + (repeat n b + r)))
        (check_request parse sha256 cache q now) (install adapter callback n q.metadata)
        (install-Grows n q.metadata)
