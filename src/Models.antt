-- ===== src/Models.antt =====
-- cnserverops/models.py: the durable server and run records. `utc_now` and `new_run_id` are read by
-- the caller and passed in.
mod Status
pub mod RoundTrip
mod Tests
use Prim.Native.Char.{code}
use cnserver_ops.Prelude.{
  String, ℕ, Bool, true, false, not, ◌||◌, ◌&&◌, List, Option, none, some, ◌==◌, truthy, or_text,
  get_text, get_or, [], ◌∷◌, ◌<>◌, Result, ok, err, ◌>>=◌, ◌>>◌, raise_if, if◌then◌else◌, leb, eqb,
  map,
}
use cnserver_ops.Text.{upper, strip, all_chars, count_chars, is_upper_code, is_digit_code}
use cnserver_ops.Identity.{Identity}
use cnserver_ops.Disposition.{FinalDisposition}
pub use Status.{ModelError, bad_runner_id, no_fingerprint, bad_status, bad_disposition}
pub use Status.{OperationStatus, not_started, in_progress, pass, partial, fail}
pub use Status.{pending_upload, synced, blocked, operation_status-value, final_disposition-value}
unfoldable pub use Status.{status_value, operation_status, disposition_value, final_disposition}

abbrev runner_head : ℕ → Bool
runner_head n = is_upper_code n || is_digit_code n

abbrev runner_tail : ℕ → Bool
runner_tail n = runner_head n || eqb n b'.' || eqb n b'_' || eqb n b'-'

-- `_RUNNER_ID.fullmatch`: `^[A-Z0-9][A-Z0-9._-]{2,63}$`.
pub matches_runner_id : String → Bool
matches_runner_id String.[] = false
matches_runner_id (String.◌∷◌ c s) =
    runner_head (code c)
    && all_chars runner_tail s
    && leb 2 (count_chars s)
    && leb (count_chars s) 63

unfoldable pub validate_runner_id : String → Result ModelError String
unfolding matches_runner_id all_chars count_chars
validate_runner_id value =
    let normalized = upper (strip value) in
    if matches_runner_id normalized then ok normalized else err bad_runner_id

pub record ServerRecord : Type 0 where
  pub fingerprint_sha256 : String
  pub vendor : String
  pub model : String
  pub system_serial : String
  pub server_id : String
  pub dmi_uuid : String
  pub board_serial : String
  pub chassis_serial : String
  pub confidence : String
  pub anchors : List (String × String)

unfoldable pub from_identity : Identity → Result ModelError ServerRecord
from_identity i = do
  raise_if (not (truthy i.fingerprint_sha256)) no_fingerprint
  ok (record {
    fingerprint_sha256 = i.fingerprint_sha256;
    vendor = upper (or_text i.vendor "UNKNOWN");
    model = i.model;
    system_serial = i.primary_serial;
    server_id = or_text i.server_id ("SERVER-" <> upper i.fingerprint_sha256);
    dmi_uuid = i.dmi_uuid;
    board_serial =
        or_text (get_text "dmi_board_serial" i.anchors) (get_text "fru_board_serial" i.anchors);
    chassis_serial =
        or_text (get_text "dmi_chassis_serial" i.anchors) (get_text "fru_chassis_serial" i.anchors);
    confidence = or_text i.confidence "low";
    anchors = i.anchors;
  })

pub record RunRecord : Type 0 where
  pub run_id : String
  pub runner_id : String
  pub runtime_version : String
  pub server_fingerprint_sha256 : String
  pub vendor : String
  pub model : String
  pub system_serial : String
  pub started_at_utc : String
  pub workflow_mode : String
  pub test_profile : String
  pub boot_id : String
  pub continuation_of_run_id : String
  pub completed_at_utc : String
  pub current_stage : String
  pub collection_status : OperationStatus
  pub export_status : OperationStatus
  pub central_sync_status : OperationStatus
  pub final_disposition : Option FinalDisposition
  pub reason_codes : List String
  pub warnings : List String

-- The keyword arguments of `RunRecord.start`.
pub record StartArguments : Type 0 where
  pub runner_id : String
  pub runtime_version : String
  pub boot_id : String
  pub continuation_of_run_id : String
  pub workflow_mode : String
  pub test_profile : String

unfoldable pub start : ServerRecord → StartArguments → String → String → Result ModelError RunRecord
start server a new_run_id utc_now = do
  runner_id ← validate_runner_id a.runner_id
  ok (record {
    run_id = new_run_id;
    runner_id = runner_id;
    runtime_version = a.runtime_version;
    server_fingerprint_sha256 = server.fingerprint_sha256;
    vendor = server.vendor;
    model = server.model;
    system_serial = server.system_serial;
    started_at_utc = utc_now;
    workflow_mode = upper (or_text a.workflow_mode "PRODUCTION");
    test_profile = upper (or_text a.test_profile "STANDARD");
    boot_id = a.boot_id;
    continuation_of_run_id = a.continuation_of_run_id;
    completed_at_utc = "";
    current_stage = "IDENTITY";
    collection_status = in_progress;
    export_status = not_started;
    central_sync_status = pending_upload;
    final_disposition = none;
    reason_codes = [];
    warnings = [];
  })

-- The JSON form. The keys that `from_dict` supplies by `setdefault` may be missing.
pub record RunDict : Type 0 where
  pub run_id : String
  pub runner_id : String
  pub runtime_version : String
  pub server_fingerprint_sha256 : String
  pub vendor : String
  pub model : String
  pub system_serial : String
  pub started_at_utc : String
  pub workflow_mode : Option String
  pub test_profile : Option String
  pub boot_id : Option String
  pub continuation_of_run_id : Option String
  pub completed_at_utc : String
  pub current_stage : String
  pub collection_status : String
  pub export_status : String
  pub central_sync_status : String
  pub final_disposition : Option String
  pub reason_codes : List String
  pub warnings : List String

-- `FinalDisposition(disposition) if disposition else None`.
unfoldable pub read_disposition : Option String → Result ModelError (Option FinalDisposition)
read_disposition none = ok none
read_disposition (some s) = if truthy s then (do d ← final_disposition s; ok (some d)) else ok none

unfoldable pub from_dict : RunDict → Result ModelError RunRecord
from_dict d = do
  collection ← operation_status d.collection_status
  export ← operation_status d.export_status
  sync ← operation_status d.central_sync_status
  disposition ← read_disposition d.final_disposition
  ok (record {
    run_id = d.run_id;
    runner_id = d.runner_id;
    runtime_version = d.runtime_version;
    server_fingerprint_sha256 = d.server_fingerprint_sha256;
    vendor = d.vendor;
    model = d.model;
    system_serial = d.system_serial;
    started_at_utc = d.started_at_utc;
    workflow_mode = get_or d.workflow_mode "PRODUCTION";
    test_profile = get_or d.test_profile "STANDARD";
    boot_id = get_or d.boot_id "";
    continuation_of_run_id = get_or d.continuation_of_run_id "";
    completed_at_utc = d.completed_at_utc;
    current_stage = d.current_stage;
    collection_status = collection;
    export_status = export;
    central_sync_status = sync;
    final_disposition = disposition;
    reason_codes = d.reason_codes;
    warnings = d.warnings;
  })

abbrev pub disposition_text : Option FinalDisposition → Option String
disposition_text none = none
disposition_text (some d) = some (disposition_value d)

unfoldable pub to_dict : RunRecord → RunDict
to_dict r = record {
  run_id = r.run_id;
  runner_id = r.runner_id;
  runtime_version = r.runtime_version;
  server_fingerprint_sha256 = r.server_fingerprint_sha256;
  vendor = r.vendor;
  model = r.model;
  system_serial = r.system_serial;
  started_at_utc = r.started_at_utc;
  workflow_mode = some r.workflow_mode;
  test_profile = some r.test_profile;
  boot_id = some r.boot_id;
  continuation_of_run_id = some r.continuation_of_run_id;
  completed_at_utc = r.completed_at_utc;
  current_stage = r.current_stage;
  collection_status = status_value r.collection_status;
  export_status = status_value r.export_status;
  central_sync_status = status_value r.central_sync_status;
  final_disposition = disposition_text r.final_disposition;
  reason_codes = r.reason_codes;
  warnings = r.warnings;
}
