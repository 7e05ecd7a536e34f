-- ===== src/Lifecycle/Resume.antt =====
-- The condition under which `validate_pending_for_resume` returns.
use cnserver_ops.Prelude.{String, Bool, true, false, ◌≡◌, ◌≢◌, ◌⊎◌, ◌↔◌, ok, arith, eq_iff}
use cnserver_ops.Text.{upper}
use cnserver_ops.Identity.{Identity}
use cnserver_ops.Lifecycle.Checkpoint.{Pending}
use cnserver_ops.Lifecycle.{validate_pending_for_resume}

-- A checkpoint is continued exactly by a resumable identity with its server, its fingerprint and, up
-- to case, its runner, none of them empty, and, where a new boot is asked for, not under the boot that
-- wrote it, as far as both boots are known.
pub validate_iff :
    (p : Pending) (i : Identity) (runner_id : String) (require_new_boot : Bool)
    → (validate_pending_for_resume p i runner_id require_new_boot ≡ ok tt) ↔ (
        (i.resumable ≡ true)
        × ((p.server_id ≢ "") × (p.server_id ≡ i.server_id))
        × ((p.fingerprint_sha256 ≢ "") × (p.fingerprint_sha256 ≡ i.fingerprint_sha256))
        × ((upper p.runner_id ≢ "") × (upper p.runner_id ≡ upper runner_id))
        × ((require_new_boot ≡ false)
            ⊎ ((p.boot_id_before ≡ "") ⊎ ((i.boot_id ≡ "") ⊎ (p.boot_id_before ≢ i.boot_id)))))
unfolding validate_pending_for_resume
validate_iff p i runner_id require_new_boot = ground (
  arith,
  eq_iff p.server_id "",
  eq_iff p.server_id i.server_id,
  eq_iff p.fingerprint_sha256 "",
  eq_iff p.fingerprint_sha256 i.fingerprint_sha256,
  eq_iff (upper p.runner_id) "",
  eq_iff (upper p.runner_id) (upper runner_id),
  eq_iff p.boot_id_before "",
  eq_iff i.boot_id "",
  eq_iff p.boot_id_before i.boot_id,
)
