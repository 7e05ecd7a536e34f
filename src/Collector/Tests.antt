-- ===== src/Collector/Tests.antt =====
-- Runs of the central collector of cnserverops/collector.py.
use cnserver_ops.Prelude.{String, [], ◌∷◌, none, some, Result, ok, err, ◌≡◌, refl, ◌<>◌}
use cnserver_ops.Json.{
  Json, Python, null, boolean, number, string, array, object, nil, item, end, field, Fields, get,
  str_or,
}
use cnserver_ops.Collector.{
  Tables, CollectorError, Event, Response, reused_id, not_started, ingest_event,
}
use cnserver_ops.Collector.Again.{ingest_event-again, ingest_all}
use cnserver_ops.Collector.Kept.{ingest_event-Keeps, Keeps}
use cnserver_ops.Collector.Linked.{ingest_event-IsLinked, IsLinked}

-- A `json` that names each value by its event id, enough for these runs.
abbrev id_text : Json → String
id_text (object (field k (string v) fs)) = v
id_text _ = "{}"

abbrev py : Python
py = record {
  dumps = id_text;
  dumps_indented = id_text;
  loads = λ s. some (object (field "event_id" (string s) end));
  sha256 = λ s. "sha:" <> s;
  repr = id_text;
  int = λ j. some "0";
}

abbrev run_fields : Fields
run_fields =
    field "run_id" (string "RUN-1")
      (field "runner_id" (string "SSD-01") (field "server_fingerprint_sha256" (string "f1") end))

abbrev start_event : Json
start_event = object (
    field "event_id" (string "E1") (
      field "event_type" (string "RUN_STARTED") (
        field "run" (object run_fields)
          (field "server" (object (field "fingerprint_sha256" (string "f1") end)) end))))

abbrev empty : Tables
empty = record {
  runners = λ k. none;
  servers = λ k. none;
  runs = λ k. none;
  events = λ k. none;
  artifacts = λ i d k. none;
}

abbrev tables_of : Result CollectorError (Response × Tables) → Tables
tables_of (ok (r, t)) = t
tables_of (err e) = empty

abbrev after_start : Tables
after_start = tables_of (ingest_event py "T1" start_event empty)

started_once :
    ingest_event py "T1" start_event empty
    ≡ ok (record { status = "ACCEPTED"; event_id = "E1"; run_id = "RUN-1" }, after_start)
unfolding ingest_event cnserver_ops.Secrets.is_sensitive cnserver_ops.Text.strip
started_once = refl

empty-IsLinked : IsLinked empty
empty-IsLinked id run h = cc

ingest_event-IsLinked_example : IsLinked after_start
ingest_event-IsLinked_example =
    ingest_event-IsLinked py "T1" start_event empty after_start started_once empty-IsLinked

abbrev done_event : Json
done_event = object (
    field "event_id" (string "E2")
      (field "event_type" (string "RUN_COMPLETED") (field "run" (object run_fields) end)))

abbrev after_done : Tables
after_done = tables_of (ingest_event py "T2" done_event after_start)

completed_once :
    ingest_event py "T2" done_event after_start
    ≡ ok (record { status = "ACCEPTED"; event_id = "E2"; run_id = "RUN-1" }, after_done)
unfolding ingest_event cnserver_ops.Secrets.is_sensitive cnserver_ops.Text.strip
completed_once = refl

ingest_event-Keeps_example :
    ((id : String) (row : Event)
      → after_start.events id ≡ some row
      → after_done.events id ≡ some row)
    × ((id : String) → Keeps (after_start.runs id) (after_done.runs id))
ingest_event-Keeps_example =
    ingest_event-Keeps py "T2" done_event after_start after_done completed_once

ingest_event-again_example :
    ingest_event py "T4" start_event
      (ingest_all py (("T2", done_event) ∷ ("T3", null) ∷ []) after_start)
    ≡ ok (
      record { status = "DUPLICATE_ACCEPTED"; event_id = "E1"; run_id = "RUN-1" },
      ingest_all py (("T2", done_event) ∷ ("T3", null) ∷ []) after_start,
    )
unfolding str_or cnserver_ops.Json.str get
ingest_event-again_example =
    ingest_event-again py "T1" "T4" start_event (("T2", done_event) ∷ ("T3", null) ∷ []) empty
      after_start started_once

-- An event id that was used for other content, and a completion without a start.
reused_sample :
    ingest_event (record py { sha256 = λ s. "other:" <> s }) "T3" start_event after_start
    ≡ err reused_id
unfolding ingest_event cnserver_ops.Secrets.is_sensitive cnserver_ops.Text.strip
reused_sample = refl

unstarted_sample : ingest_event py "T3" done_event empty ≡ err not_started
unfolding ingest_event cnserver_ops.Secrets.is_sensitive
unstarted_sample = refl
