-- ===== src/State/Tests.antt =====
-- Saved states of the sample machine, resumed and refused.
use cnserver_ops.Prelude.{some, ◌≡◌, ◌↔◌, refl, ok, err, []}
use cnserver_ops.Text.{upper}
use cnserver_ops.State.{
  SavedState, Note, fields, foreign_machine, payload, write_state, assert_resume_allowed,
  assert_workflow_resume_allowed,
}
use cnserver_ops.State.Binding.{SameServer, resume_iff, resume-write_state}
use cnserver_ops.Samples.{machine}

abbrev at_reboot : Note
at_reboot = record {
  phase = "REBOOT_PENDING";
  details = fields [];
  run_id = "RUN-00000001";
  runner_id = "SSD-01";
  runtime_version = "3.8";
  expected_next_stage = "";
  firmware_task_identity = "task-7";
}

abbrev saved : SavedState
saved = payload machine at_reboot "T0"

writes : write_state machine at_reboot "T0" ≡ ok saved
unfolding write_state assert_resume_allowed
writes = refl

other_machine :
    assert_resume_allowed (some saved) (record machine { fingerprint_sha256 = "cd34" })
    ≡ err foreign_machine
unfolding assert_resume_allowed payload
other_machine = refl

resume_iff_example :
    (assert_workflow_resume_allowed (some saved) machine (some "RUN-00000001") (some "ssd-01")
      ≡ ok tt)
    ↔ (SameServer saved machine
        × (saved.run_id ≡ "RUN-00000001")
        × (upper saved.runner_id ≡ upper "ssd-01"))
resume_iff_example = resume_iff saved machine "RUN-00000001" "ssd-01"

resume-write_state_example :
    assert_workflow_resume_allowed (some saved) machine (some "RUN-00000001") (some "SSD-01")
    ≡ ok tt
resume-write_state_example = resume-write_state machine at_reboot "T0" saved writes
