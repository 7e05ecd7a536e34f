-- ===== src/Delivery/Tests.antt =====
-- A queue that is drained against the collector (cnserverops/sync.py, cnserverops/collector.py).
use cnserver_ops.Prelude.{
  String, [], ◌∷◌, none, some, Option, List, true, false, ◌≡◌, refl, ◌<>◌, All, map,
}
use cnserver_ops.Json.{Json, Python, null, string, object, end, field}
use cnserver_ops.Sync.{Row, Local, Paths, pending_upload, synced, initialize}
use cnserver_ops.Sync.Drain.{Client, drain}
use cnserver_ops.Delivery.{Central, collector_client}
use cnserver_ops.Delivery.Received.{HasEvent}
use cnserver_ops.Delivery.History.{
  Operation, submitted, set_aside, drained, from_elsewhere, interrupted, run,
}
use cnserver_ops.Delivery.Reached.{reached, run-synced}

abbrev start_event : Json
start_event = object (
    field "event_id" (string "E1") (
      field "event_type" (string "RUN_STARTED") (
        field "run"
          (object (
            field "run_id" (string "RUN-1") (
              field "runner_id" (string "SSD-01")
                (field "server_fingerprint_sha256" (string "f1") end))))
          (field "server" (object (field "fingerprint_sha256" (string "f1") end)) end))))

-- A `json` that knows one event by its id.
abbrev id_text : Json → String
id_text (object (field k (string v) fs)) = v
id_text _ = "{}"

abbrev py : Python
py = record {
  dumps = id_text;
  dumps_indented = id_text;
  loads = λ s. some start_event;
  sha256 = λ s. "sha:" <> s;
  repr = id_text;
  int = λ j. none;
}

abbrev row : Row
row = record {
  event_id = "E1";
  run_id = "RUN-1";
  event_type = "RUN_STARTED";
  payload_json = "E1";
  payload_sha256 = "sha:E1";
  authoritative_record = "run.json";
  authoritative_sha256 = "sha:run";
  status = pending_upload;
  attempts = 0;
  last_error = "";
  created_at_utc = "T1";
}

abbrev local : Local
local = record { queue = row ∷ []; files = λ p. some "RUN-1" }

abbrev central : Central
central = record {
  tables = record {
    runners = λ k. none;
    servers = λ k. none;
    runs = λ k. none;
    events = λ k. none;
    artifacts = λ i d k. none;
  };
  ticks = 0;
}

abbrev client : Client Central
client = collector_client py (λ n. "T2") (λ e. "CollectorError")

synced_sample : map (λ r. r.status) (drain py client 10 local central).queue ≡ synced ∷ []
unfolding drain cnserver_ops.Sync.limited initialize collector_client
    cnserver_ops.Secrets.is_sensitive cnserver_ops.Text.strip
synced_sample = refl

abbrev paths : Paths
paths = record { resolve = λ p. some p; is_symlink = λ p. false; is_file = λ p. true }

abbrev operations : List Operation
operations =
    submitted "T1" start_event "run.json"
    ∷ interrupted "E1"
    ∷ from_elsewhere null
    ∷ set_aside "E2" "BAD_EVENT"
    ∷ drained 10
    ∷ []

abbrev files : String → Option String
files p = some "RUN-1"

statuses_sample :
    map
      (λ r. r.status)
      (reached py paths (λ n. "T2") (λ e. "CollectorError") operations files central).local.queue
    ≡ synced ∷ []
unfolding run drain cnserver_ops.Sync.limited initialize cnserver_ops.Sync.quarantine
    cnserver_ops.Sync.enqueue collector_client cnserver_ops.Secrets.is_sensitive
statuses_sample = refl

run-synced_example :
    All
      (λ r.
        r.status ≡ synced
        → HasEvent
            (reached py paths
              (λ n. "T2")
              (λ e. "CollectorError")
              operations
              files
              central).central.tables
            r.event_id
            r.payload_sha256)
      (reached py paths (λ n. "T2") (λ e. "CollectorError") operations files central).local.queue
run-synced_example =
    run-synced py paths (λ n. "T2") (λ e. "CollectorError") operations files central
      (refl, (tt, (tt, (tt, (tt, tt)))))
