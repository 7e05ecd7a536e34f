-- ===== src/Collector.antt =====
-- cnserverops/collector.py: the central collector. Its tables are functions of their keys. A statement
-- that fails rolls its transaction back, so a call that raises has no table to return; the clock's
-- time is an argument, one for the two readings of a completion.
mod Schema
pub mod Ingest
pub mod Kept
pub mod Again
pub mod Linked
pub mod Artifacts
mod Tests
use cnserver_ops.Prelude.{
  String, ℕ, suc, ◌+◌, Bool, true, false, not, ◌||◌, ◌&&◌, List, [], ◌∷◌, Option, none, some, ◌==◌,
  ◌<>◌, truthy, Result, ok, err, ◌>>=◌, ◌>>◌, raise_if, if◌then◌else◌, put, or_text, eqb, contains,
}
use cnserver_ops.Text.{upper, lower, all_chars, count_chars, is_lower_hex_code}
use cnserver_ops.Json.{
  Json, Python, null, array, nil, object, end, str, str_or, get, is_mapping, is_truthy, json_or,
  patched, Fields,
}
use cnserver_ops.Models.{validate_runner_id}
use cnserver_ops.Secrets.{assert_no_sensitive_fields}
pub use Schema.{Runner, Server, Run, Event, Artifact, Tables}
pub use Schema.{CollectorError, sensitive, incomplete, no_run, not_started, no_server, bad_runner}
pub use Schema.{bad_fingerprint, other_server, bad_digest, no_artifact, bad_mapping, bad_number}
pub use Schema.{bad_binding}
pub use Schema.{runner_mismatch, runner_collision, reused_id, foreign_run, checked}
unfoldable pub use Schema.{is_sha256}

pub record Response : Type 0 where
  pub status : String
  pub event_id : String
  pub run_id : String

-- One text that is given and one that is stored, both non-empty, differ.
abbrev pub changed : String → String → Bool
changed given stored = truthy given && truthy stored && not (given == stored)

-- `INSERT OR IGNORE INTO runs`.
abbrev pub kept_run : Option Run → Run → Run
kept_run none new = new
kept_run (some old) new = old

-- The runner and the fingerprint that the checks before the first statement give.
pub record Binding : Type 0 where
  pub runner_id : String
  pub uuid : String
  pub storage : String
  pub fingerprint : String

-- A value that sqlite3 binds to no parameter.
abbrev pub is_unbindable : Json → Bool
is_unbindable (array items) = true
is_unbindable (object fields) = true
is_unbindable _ = false

module _ (py : Python) (now : String) where
  -- `str(value.get(key) or default)`.
  abbrev pub text_at : String → Json → String → String
  text_at key j d = str_or py (get key j) d

  unfoldable pub check_runner : String → String → Option Runner → Result CollectorError (Unit {0})
  check_runner uuid storage none = ok tt
  check_runner uuid storage (some old) =
      raise_if (changed uuid old.local_runner_uuid) runner_collision
      >> raise_if (changed storage old.storage_fingerprint_sha256) runner_collision

  -- `INSERT … ON CONFLICT(runner_id) DO UPDATE`.
  pub upserted_runner : String → String → String → Option Runner → Runner
  upserted_runner version uuid storage none = record {
    runtime_version = version;
    local_runner_uuid = uuid;
    storage_fingerprint_sha256 = storage;
    first_seen_utc = now;
    last_seen_utc = now;
  }
  upserted_runner version uuid storage (some old) = record {
    runtime_version = version;
    local_runner_uuid = if uuid == "" then old.local_runner_uuid else uuid;
    storage_fingerprint_sha256 = if storage == "" then old.storage_fingerprint_sha256 else storage;
    first_seen_utc = old.first_seen_utc;
    last_seen_utc = now;
  }

  abbrev first_seen : Option Server → String
  first_seen none = now
  first_seen (some old) = old.first_seen_utc

  -- `INSERT … ON CONFLICT(fingerprint_sha256) DO UPDATE`.
  pub upserted_server : String → Json → Option Server → Server
  unfolding str_or get upper
  upserted_server fingerprint server old = record {
    server_id = text_at "server_id" server ("SERVER-" <> upper fingerprint);
    vendor = text_at "vendor" server "UNKNOWN";
    model = text_at "model" server "";
    system_serial = text_at "system_serial" server "";
    board_serial = text_at "board_serial" server "";
    chassis_serial = text_at "chassis_serial" server "";
    confidence = text_at "confidence" server "low";
    identity_json = py.dumps server;
    first_seen_utc = first_seen old;
    last_seen_utc = now;
  }

  pub inserted_run : String → String → Json → Run
  unfolding str_or get json_or
  inserted_run fingerprint runner_id run = record {
    server_fingerprint_sha256 = fingerprint;
    runner_id = runner_id;
    runtime_version = text_at "runtime_version" run "";
    boot_id = text_at "boot_id" run "";
    continuation_of_run_id = text_at "continuation_of_run_id" run "";
    started_at_utc = text_at "started_at_utc" run now;
    workflow_mode = text_at "workflow_mode" run "PRODUCTION";
    test_profile = text_at "test_profile" run "STANDARD";
    completed_at_utc = "";
    current_stage = text_at "current_stage" run "IDENTITY";
    collection_status = text_at "collection_status" run "IN_PROGRESS";
    export_status = text_at "export_status" run "NOT_STARTED";
    central_sync_status = "SYNCED";
    final_disposition = null;
    reason_codes_json = py.dumps (json_or (get "reason_codes" run) (array nil));
    result_json = "{}";
  }

  unfoldable pub check_run : String → String → Option Run → Result CollectorError (Unit {0})
  check_run fingerprint runner_id none = ok tt
  check_run fingerprint runner_id (some old) =
      raise_if
        (not (old.server_fingerprint_sha256 == fingerprint) || not (old.runner_id == runner_id))
        foreign_run

  unfoldable pub binding_of : Json → Result CollectorError Binding
  unfolding str_or get validate_runner_id lower is_sha256
  binding_of event =
      let run = get "run" event in
      let details = get "runner" event in
      do
        raise_if (not (is_mapping (get "server" event))) no_server
        runner_id ← checked bad_runner (validate_runner_id (text_at "runner_id" run ""))
        supplied ← checked bad_runner (validate_runner_id (text_at "runner_id" details runner_id))
        raise_if (not (supplied == runner_id)) runner_mismatch
        let storage = lower (text_at "storage_fingerprint_sha256" details "")
        let fingerprint = text_at "fingerprint_sha256" (get "server" event) ""
        raise_if (truthy storage && not (is_sha256 storage)) bad_fingerprint
        raise_if
            (not (truthy fingerprint)
              || not (fingerprint == text_at "server_fingerprint_sha256" run ""))
            other_server
        ok (record {
          runner_id = runner_id;
          uuid = text_at "local_runner_uuid" details "";
          storage = storage;
          fingerprint = fingerprint;
        })

  abbrev pub run_id_of : Json → String
  run_id_of event = str py (get "run_id" (get "run" event))

  -- The statements of `_upsert_started`, where none is refused.
  unfoldable pub started : Json → Binding → Tables → Tables
  unfolding upserted_runner upserted_server inserted_run get str
  started event b t = record t {
    runners =
        put b.runner_id
          (upserted_runner (text_at "runtime_version" (get "run" event) "") b.uuid b.storage
            (t.runners b.runner_id))
          t.runners;
    servers =
        put b.fingerprint
          (upserted_server b.fingerprint (get "server" event) (t.servers b.fingerprint)) t.servers;
    runs =
        put (run_id_of event)
          (kept_run (t.runs (run_id_of event))
            (inserted_run b.fingerprint b.runner_id (get "run" event)))
          t.runs;
  }

  unfoldable pub upsert_started : Json → Tables → Result CollectorError Tables
  unfolding binding_of started check_runner check_run
  upsert_started event t = do
    b ← binding_of event
    check_runner b.uuid b.storage (t.runners b.runner_id)
    check_run b.fingerprint b.runner_id (t.runs (run_id_of event))
    ok (started event b t)

  -- `_update_progress` and `_complete_run`, on the run that was found.
  pub progressed : Json → Run → Run
  unfolding str_or get
  progressed run old = record old {
    current_stage = text_at "current_stage" run "";
    collection_status = text_at "collection_status" run "";
    export_status = text_at "export_status" run "";
    central_sync_status = "SYNCED";
  }

  pub completed : Json → Json → Run → Run
  unfolding str_or get json_or
  completed run result old = record old {
    completed_at_utc = text_at "completed_at_utc" run now;
    current_stage = text_at "current_stage" run "COMPLETE";
    collection_status = text_at "collection_status" run "";
    export_status = text_at "export_status" run "";
    central_sync_status = "SYNCED";
    final_disposition = get "final_disposition" run;
    reason_codes_json = py.dumps (json_or (get "reason_codes" run) (array nil));
    result_json = py.dumps result;
  }

  -- What the event does to the tables, by its type. A result that is no mapping is refused, as `dict`
  -- does where it is not a list of pairs.
  unfoldable pub apply_event : String → Json → Tables → Result CollectorError Tables
  unfolding upsert_started progressed completed get str json_or
  apply_event event_type event t =
      if event_type == "RUN_STARTED"
      then upsert_started event t
      else on_run (t.runs (run_id_of event))
    where
      on_run : Option Run → Result CollectorError Tables
      on_run none = err not_started
      on_run (some old) =
          let result = json_or (get "result" event) (object end) in
          if event_type == "RUN_COMPLETED"
          then (raise_if (not (is_mapping result)) bad_mapping
              >> (raise_if (is_unbindable (get "final_disposition" (get "run" event))) bad_binding
                  >> ok (record t {
                    runs = put (run_id_of event) (completed (get "run" event) result old) t.runs;
                  })))
          else ok
              (record t { runs = put (run_id_of event) (progressed (get "run" event) old) t.runs })

  unfoldable pub new_event : String → Json → Event
  unfolding get str
  new_event event_type event = record {
    run_id = run_id_of event;
    event_type = event_type;
    payload_sha256 = py.sha256 (py.dumps event);
    payload_json = py.dumps event;
    received_at_utc = now;
  }

  unfoldable pub check_event : Json → Result CollectorError (Unit {0})
  unfolding assert_no_sensitive_fields str_or get
  check_event event =
      checked sensitive (assert_no_sensitive_fields event)
      >> raise_if
          (not (truthy (text_at "event_id" event ""))
            || not (
                contains (text_at "event_type" event "")
                  ("RUN_STARTED" ∷ "RUN_PROGRESS" ∷ "RUN_COMPLETED" ∷ [])))
          incomplete
      >> raise_if
          (not (is_mapping (get "run" event)) || not (is_truthy (get "run_id" (get "run" event))))
          no_run

  -- The transaction, by the row that has the event's id.
  unfoldable pub ingest_once :
      Json → Tables → Option Event → Result CollectorError (Response × Tables)
  unfolding apply_event new_event get str str_or
  ingest_once event t (some old) =
      if not (old.payload_sha256 == py.sha256 (py.dumps event))
      then err reused_id
      else ok (
        record {
          status = "DUPLICATE_ACCEPTED";
          event_id = text_at "event_id" event "";
          run_id = run_id_of event;
        },
        t,
      )
  ingest_once event t none = do
    t' ← apply_event (text_at "event_type" event "") event t
    ok (
      record {
        status = "ACCEPTED";
        event_id = text_at "event_id" event "";
        run_id = run_id_of event;
      },
      record t' {
        events =
            put (text_at "event_id" event "") (new_event (text_at "event_type" event "") event)
              t'.events;
      },
    )

  unfoldable pub ingest_event : Json → Tables → Result CollectorError (Response × Tables)
  unfolding check_event ingest_once
  ingest_event event t =
      check_event event >> ingest_once event t (t.events (text_at "event_id" event ""))
