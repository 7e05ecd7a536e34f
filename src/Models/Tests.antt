-- ===== src/Models/Tests.antt =====
-- Runner identifiers, and the JSON form of a sample run.
use cnserver_ops.Prelude.{some, ◌≡◌, refl, ok, err, [], ◌∷◌}
use cnserver_ops.Text.{upper, strip}
use cnserver_ops.Disposition.{FinalDisposition}
use cnserver_ops.Models
use cnserver_ops.Models.{RunRecord, validate_runner_id, bad_runner_id, from_dict, to_dict}
use cnserver_ops.Models.RoundTrip.{from_dict-to_dict}

accepted : validate_runner_id " ssd-01 " ≡ ok "SSD-01"
unfolding validate_runner_id upper strip
accepted = refl

too_short : validate_runner_id "s1" ≡ err bad_runner_id
unfolding validate_runner_id upper strip
too_short = refl

abbrev failed_run : RunRecord
failed_run = record {
  run_id = "RUN-00000001";
  runner_id = "SSD-01";
  runtime_version = "3.8";
  server_fingerprint_sha256 = "ab12";
  vendor = "ASUS";
  model = "RS720-E11";
  system_serial = "S1";
  started_at_utc = "T0";
  workflow_mode = "PRODUCTION";
  test_profile = "STANDARD";
  boot_id = "";
  continuation_of_run_id = "";
  completed_at_utc = "T9";
  current_stage = "COMPLETE";
  collection_status = Models.partial;
  export_status = Models.synced;
  central_sync_status = Models.pending_upload;
  final_disposition = some FinalDisposition.fail;
  reason_codes = "SENSOR_CRITICAL" ∷ [];
  warnings = [];
}

from_dict-to_dict_example : from_dict (to_dict failed_run) ≡ ok failed_run
from_dict-to_dict_example = from_dict-to_dict failed_run
