-- ===== src/State/Binding.antt =====
-- Which saved states a workflow may be resumed from.
use cnserver_ops.Prelude.{String, true, some, ◌≡◌, ◌≢◌, ◌↔◌, ◌⊎◌, arith, eq_iff, eq_refl, ok}
use cnserver_ops.Text.{upper}
use cnserver_ops.Identity.{Identity}
use cnserver_ops.State.{
  SavedState, Note, assert_resume_allowed, assert_workflow_resume_allowed,
  assert_firmware_task_continuity, write_state,
}

-- The saved state is of this server, up to the case of vendor and platform.
pub record SameServer (s : SavedState) (i : Identity) : Type 0 where
  pub resumable : i.resumable ≡ true
  pub fingerprinted : i.fingerprint_sha256 ≢ ""
  pub fingerprint : s.machine_fingerprint_sha256 ≡ i.fingerprint_sha256
  pub vendor : upper s.vendor ≡ upper i.vendor
  pub platform_id : upper s.platform_id ≡ upper i.platform_id

module _ (s : SavedState) (i : Identity) where
  SameServer-assert : assert_resume_allowed (some s) i ≡ ok tt → SameServer s i
  unfolding assert_resume_allowed
  SameServer-assert h = ground (
    arith,
    eq_iff i.fingerprint_sha256 "",
    eq_iff s.machine_fingerprint_sha256 "",
    eq_iff s.machine_fingerprint_sha256 i.fingerprint_sha256,
    eq_iff (upper s.vendor) (upper i.vendor),
    eq_iff (upper s.platform_id) (upper i.platform_id),
  )

  assert-SameServer : SameServer s i → assert_resume_allowed (some s) i ≡ ok tt
  unfolding assert_resume_allowed
  assert-SameServer h = ground (
    arith,
    eq_iff i.fingerprint_sha256 "",
    eq_iff s.machine_fingerprint_sha256 "",
    eq_iff s.machine_fingerprint_sha256 i.fingerprint_sha256,
    eq_iff (upper s.vendor) (upper i.vendor),
    eq_iff (upper s.platform_id) (upper i.platform_id),
  )

  module _ (run_id runner_id : String) where
    abbrev Continuous : Type 0
    Continuous = SameServer s i × (s.run_id ≡ run_id) × (upper s.runner_id ≡ upper runner_id)

    machine_checked :
        assert_workflow_resume_allowed (some s) i (some run_id) (some runner_id) ≡ ok tt
        → assert_resume_allowed (some s) i ≡ ok tt
    unfolding assert_workflow_resume_allowed
    machine_checked h = ground arith

    resume_sound :
        assert_workflow_resume_allowed (some s) i (some run_id) (some runner_id) ≡ ok tt
        → Continuous
    unfolding assert_workflow_resume_allowed
    resume_sound h =
        let m = machine_checked h in
        (
          SameServer-assert m,
          ground (arith, m, eq_iff s.run_id run_id, eq_iff (upper s.runner_id) (upper runner_id)),
          ground (arith, m, eq_iff s.run_id run_id, eq_iff (upper s.runner_id) (upper runner_id)),
        )

    resume_complete :
        Continuous
        → assert_workflow_resume_allowed (some s) i (some run_id) (some runner_id) ≡ ok tt
    unfolding assert_workflow_resume_allowed
    resume_complete h = ground (
      arith,
      assert-SameServer h.0,
      h.1,
      h.2,
      eq_iff s.run_id run_id,
      eq_iff (upper s.runner_id) (upper runner_id),
    )

    -- A saved state may be resumed exactly on the server it was saved on (resumable, fingerprinted,
    -- the same fingerprint, and vendor and platform up to case), under the same RUN_ID and, up to
    -- case, the same RUNNER_ID.
    pub resume_iff :
        (assert_workflow_resume_allowed (some s) i (some run_id) (some runner_id) ≡ ok tt)
        ↔ (SameServer s i × (s.run_id ≡ run_id) × (upper s.runner_id ≡ upper runner_id))
    resume_iff = (resume_sound, resume_complete)

-- The identity that wrote a state may resume it under the RUN_ID and RUNNER_ID that it wrote.
pub resume-write_state :
    (i : Identity) (n : Note) (now : String) (s : SavedState)
    → write_state i n now ≡ ok s
    → assert_workflow_resume_allowed (some s) i (some n.run_id) (some n.runner_id) ≡ ok tt
unfolding write_state assert_workflow_resume_allowed assert_resume_allowed
resume-write_state i n now s h = ground (
  arith,
  eq_refl n.run_id,
  eq_refl (upper n.runner_id),
  eq_refl i.fingerprint_sha256,
  eq_refl (upper i.vendor),
  eq_refl (upper i.platform_id),
)

-- A reboot is continued only by the firmware task that was recorded, seen in a state from which it
-- can go on: the check returns exactly then.
pub task_continuity_iff :
    (s : SavedState) (task state : String)
    → (assert_firmware_task_continuity s task state ≡ ok tt) ↔ (
        (task ≢ "")
        × (task ≡ s.firmware_task_identity)
        × ((upper state ≡ "COMPLETED")
            ⊎ ((upper state ≡ "REBOOT_REQUIRED") ⊎ (upper state ≡ "RUNNING"))))
unfolding assert_firmware_task_continuity
task_continuity_iff s task state = ground (
  arith,
  eq_iff s.firmware_task_identity "",
  eq_iff task "",
  eq_iff task s.firmware_task_identity,
  eq_iff (upper state) "COMPLETED",
  eq_iff (upper state) "REBOOT_REQUIRED",
  eq_iff (upper state) "RUNNING",
)
