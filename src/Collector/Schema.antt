-- ===== src/Collector/Schema.antt =====
-- The tables of cnserverops/collector.py, and the errors that it raises.
use cnserver_ops.Prelude.{String, Bool, ◌&&◌, Option, Result, ok, err, eqb}
use cnserver_ops.Text.{all_chars, count_chars, is_lower_hex_code}
use cnserver_ops.Json.{Json}

pub record Runner : Type 0 where
  pub runtime_version : String
  pub local_runner_uuid : String
  pub storage_fingerprint_sha256 : String
  pub first_seen_utc : String
  pub last_seen_utc : String

pub record Server : Type 0 where
  pub server_id : String
  pub vendor : String
  pub model : String
  pub system_serial : String
  pub board_serial : String
  pub chassis_serial : String
  pub confidence : String
  pub identity_json : String
  pub first_seen_utc : String
  pub last_seen_utc : String

pub record Run : Type 0 where
  pub server_fingerprint_sha256 : String
  pub runner_id : String
  pub runtime_version : String
  pub boot_id : String
  pub continuation_of_run_id : String
  pub started_at_utc : String
  pub workflow_mode : String
  pub test_profile : String
  pub completed_at_utc : String
  pub current_stage : String
  pub collection_status : String
  pub export_status : String
  pub central_sync_status : String
  pub final_disposition : Json
  pub reason_codes_json : String
  pub result_json : String

pub record Event : Type 0 where
  pub run_id : String
  pub event_type : String
  pub payload_sha256 : String
  pub payload_json : String
  pub received_at_utc : String

pub record Artifact : Type 0 where
  pub uri : String
  pub size_bytes : String
  pub metadata_json : String

pub record Tables : Type 0 where
  pub runners : String → Option Runner
  pub servers : String → Option Server
  pub runs : String → Option Run
  pub events : String → Option Event
  pub artifacts : String → String → String → Option Artifact

-- The exceptions by what they say; the last four are `IdempotencyConflict`.
pub data CollectorError : Type 0 where
  sensitive incomplete no_run not_started no_server bad_runner bad_fingerprint other_server :
      CollectorError
  bad_digest no_artifact bad_mapping bad_number bad_binding : CollectorError
  runner_mismatch runner_collision reused_id foreign_run : CollectorError

-- A call whose exception becomes one of these.
abbrev pub checked {ℓ κ} :
    {E : Type ℓ} {A : Type κ} → CollectorError → Result E A → Result CollectorError A
checked e (ok a) = ok a
checked e (err x) = err e

-- 64 lower-case hexadecimal digits.
unfoldable pub is_sha256 : String → Bool
unfolding all_chars count_chars
is_sha256 s = eqb (count_chars s) 64 && all_chars is_lower_hex_code s
