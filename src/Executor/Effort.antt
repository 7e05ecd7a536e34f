-- ===== src/Executor/Effort.antt =====
-- Weights of the calls of the executor, and the cost of its loops.
use cnserver_ops.Prelude.{
  String, ℕ, zero, suc, ◌+◌, ◌≤◌, Bool, true, false, List, [], ◌∷◌, ◌++◌, Option, none, some, ◌≡◌,
  refl, Result, arith,
}
use cnserver_ops.Exec.{Exec, pure, ◌>>=◌}
use cnserver_ops.Exec.Rules.{Grows, Grows-bind, Grows-choice}
use cnserver_ops.Firmware.Metadata.{FirmwarePackageMetadata}
use cnserver_ops.Executor.Tasks.{UpdateTask, FirmwarePreview, UpdateResult, is_terminal, verified}
use cnserver_ops.Executor.Calls.{
  Call, start_called, poll_called, read_called, progress_called, ExecutionError, Adapter, Callback,
  Progress, call, report,
}
use cnserver_ops.Executor.{poll_loop, resume_loop, conclude}

abbrev pub is_start : Call → ℕ
is_start start_called = 1
is_start _ = 0

abbrev pub is_poll : Call → ℕ
is_poll (poll_called _) = 1
is_poll _ = 0

abbrev pub total : (Call → ℕ) → List Call → ℕ
total weight [] = 0
total weight (c ∷ cs) = weight c + total weight cs

abbrev pub starts : List Call → ℕ
starts = total is_start

abbrev pub polls : List Call → ℕ
polls = total is_poll

-- Callbacks are free.
abbrev pub IsFree : (Call → ℕ) → Type 0
IsFree weight = (p : Progress) → weight (progress_called p) ≡ 0

module _ (weight : Call → ℕ) where
  pub Grows-call :
      {A : Type 0} (c : Call) (method : List Call → Result ExecutionError A)
      → Grows (total weight) (weight c) (call c method)
  unfolding call
  Grows-call c method log = omega arith

  pub Grows-report :
      IsFree weight
      → (callback : Option Callback) (p : Progress) → Grows (total weight) 0 (report callback p)
  unfolding report call
  Grows-report free none p log = omega arith
  Grows-report free (some f) p log = let z = free p in omega arith

-- A pure step makes no call.
pub Grows-ended :
    (weight : Call → ℕ) (n : ℕ) (ended : Bool × UpdateTask × List UpdateTask)
    → Grows {E = ExecutionError} (total weight) n (pure ended)
Grows-ended weight n ended log = omega arith

pub Grows-result :
    (weight : Call → ℕ) (n : ℕ) (result : UpdateResult)
    → Grows {E = ExecutionError} (total weight) n (pure result)
Grows-result weight n result log = omega arith

abbrev pub repeat : ℕ → ℕ → ℕ
repeat zero b = 0
repeat (suc n) b = b + repeat n b

pub repeat_one : (n : ℕ) → repeat n 1 ≡ n
repeat_one zero = refl
repeat_one (suc n) = let r = repeat_one n in omega arith

pub repeat_none : (n : ℕ) → repeat n 0 ≡ 0
repeat_none zero = refl
repeat_none (suc n) = let r = repeat_none n in omega arith

module _ (adapter : Adapter) (callback : Option Callback) (weight : Call → ℕ) (b r : ℕ)
    (free : IsFree weight) (per_poll : (x : String) → weight (poll_called x) ≤ b)
    (per_read : (x : String) → weight (read_called x) ≤ r) where
  -- One poll with its report, and what follows.
  poll_step :
      (k : ℕ) (x : String) (p : UpdateTask → Progress)
      (f : UpdateTask → Exec (List Call) ExecutionError (Bool × UpdateTask × List UpdateTask))
      → ((t : UpdateTask) → Grows (total weight) k (f t))
      → Grows
          (total weight)
          (b + k)
          (call (poll_called x) (adapter.poll x) >>= λ t. report callback (p t) >>= λ _. f t)
  poll_step k x p f rest log =
      let step =
        Grows-bind (total weight) (weight (poll_called x)) (0 + k)
          (call (poll_called x) (adapter.poll x)) (λ t. report callback (p t) >>= λ _. f t)
          (Grows-call weight (poll_called x) (adapter.poll x))
          (λ t.
            Grows-bind (total weight) 0 k (report callback (p t)) (λ _. f t)
              (Grows-report weight free callback (p t)) (λ _. rest t))
          log in
      let cost = per_poll x in omega arith

  pub poll_loop-Grows :
      (n : ℕ) (task : UpdateTask) (history : List UpdateTask)
      → Grows (total weight) (repeat n b) (poll_loop adapter callback n task history)
  unfolding poll_loop
  poll_loop-Grows zero task history = Grows-ended weight 0 (false, task, history)
  poll_loop-Grows (suc n) task history =
      Grows-choice (total weight) (b + repeat n b) (is_terminal task.state) _ _
        (Grows-ended weight (b + repeat n b) (true, task, history))
        (poll_step (repeat n b) task.task_id
          (λ t. record { phase = "TASK_POLLED"; task = some t; status = "" }) _
          (λ t. poll_loop-Grows n t (history ++ (t ∷ []))))

  pub resume_loop-Grows :
      (n : ℕ) (x : String) (task : UpdateTask) (history : List UpdateTask)
      → Grows (total weight) (repeat n b) (resume_loop adapter callback n x task history)
  unfolding resume_loop
  resume_loop-Grows zero x task history = Grows-ended weight 0 (false, task, history)
  resume_loop-Grows (suc n) x task history =
      poll_step (repeat n b) x
        (λ t. record { phase = "TASK_RESUMED_POLLED"; task = some t; status = "" }) _
        (λ t.
          Grows-choice (total weight) (repeat n b) (is_terminal t.state) _ _
            (Grows-ended weight (repeat n b) (true, t, history ++ (t ∷ [])))
            (resume_loop-Grows n x t (history ++ (t ∷ []))))

  pub conclude-Grows :
      (o : Option (String × String)) (m : FirmwarePackageMetadata) (preview : FirmwarePreview)
      (task : UpdateTask) (history : List UpdateTask)
      → Grows (total weight) r (conclude adapter callback o m preview task history)
  unfolding conclude
  conclude-Grows none m preview task history log =
      let step =
        Grows-bind (total weight) (weight (read_called m.component)) 0
          (call (read_called m.component) (adapter.read_installed_version m.component))
          (λ installed. pure (verified m preview task history installed))
          (Grows-call weight (read_called m.component) (adapter.read_installed_version m.component))
          (λ installed. Grows-result weight 0 (verified m preview task history installed)) log in
      let cost = per_read m.component in omega arith
  conclude-Grows (some _) m preview task history log = omega arith
