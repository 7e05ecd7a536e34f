-- ===== src/Executor/Once.antt =====
-- The calls of the adapter in `execute` and `resume_task`, by kind.
use cnserver_ops.Prelude.{String, ℕ, ◌+◌, ◌≤◌, List, Option, refl, arith}
use cnserver_ops.Safety.{Instant}
use cnserver_ops.Firmware.Metadata.{FirmwarePackageMetadata}
use cnserver_ops.Firmware.Repository.{Cache}
use cnserver_ops.Executor.Calls.{Call, Adapter, Callback}
use cnserver_ops.Executor.Effort.{starts, polls, is_start, is_poll, repeat_one, repeat_none}
use cnserver_ops.Executor.Bounded.{execute-Grows, resume_task-Grows}
use cnserver_ops.Executor.{Request, execute, resume_task}

module _ (adapter : Adapter) (callback : Option Callback) {B : Type 0} (sha256 : B → String)
    (cache : Cache B) (max_polls : ℕ) where
  -- However the adapter answers, and whether the run returns or raises, `execute` calls the adapter's
  -- start at most once and its poll at most `max_polls` times.
  pub execute_at_most_once :
      (parse : String → Option Instant) (q : Request) (now : ℕ) (log : List Call)
      → let log' = (execute adapter callback parse sha256 cache max_polls q now log).1 in
        (starts log' ≤ starts log + 1) × (polls log' ≤ polls log + max_polls)
  execute_at_most_once parse q now log =
      let none_per = repeat_none max_polls in
      let one_per = repeat_one max_polls in
      let s =
        execute-Grows adapter callback is_start 0 0 (λ p. refl) (λ x. omega arith)
          (λ x. omega arith) parse sha256 cache max_polls q now log in
      let p =
        execute-Grows adapter callback is_poll 1 0 (λ p. refl) (λ x. omega arith) (λ x. omega arith)
          parse sha256 cache max_polls q now log in
      (omega arith, omega arith)

  -- However the adapter answers, and whether the run returns or raises, `resume_task` never calls the
  -- adapter's start, and its poll at most `max_polls` times.
  pub resume_task_never_starts :
      (m : FirmwarePackageMetadata) (task_id : String) (log : List Call)
      → let log' = (resume_task adapter callback sha256 cache max_polls m task_id log).1 in
        (starts log' ≤ starts log) × (polls log' ≤ polls log + max_polls)
  resume_task_never_starts m task_id log =
      let none_per = repeat_none max_polls in
      let one_per = repeat_one max_polls in
      let s =
        resume_task-Grows adapter callback is_start 0 0 (λ p. refl) (λ x. omega arith)
          (λ x. omega arith) max_polls m sha256 cache task_id log in
      let p =
        resume_task-Grows adapter callback is_poll 1 0 (λ p. refl) (λ x. omega arith)
          (λ x. omega arith) max_polls m sha256 cache task_id log in
      (omega arith, omega arith)
