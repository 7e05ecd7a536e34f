-- ===== src/Sync/Tests.antt =====
-- Runs of the store-and-forward queue of cnserverops/sync.py.
use cnserver_ops.Prelude.{
  arith, String, ℕ, ◌+◌, true, false, List, [], ◌∷◌, ◌++◌, none, some, Result, ok, err, ◌≡◌, refl,
  ◌<>◌, map, All, inr, if◌then◌else◌, ◌==◌,
}
use cnserver_ops.Json.{Json, Python, null, string, object, end, field, Fields, get, str_or}
use cnserver_ops.Sync.{
  Row, Local, Paths, Receipt, SyncQueueError, QueueStatus, pending_upload, in_flight, synced,
  quarantined, find_row, enqueue, initialize, quarantine, status_for_run, different_content,
  bad_reason, counts,
}
use cnserver_ops.Sync.Once.{enqueue-again}
use cnserver_ops.Sync.Drain.{Client, drain}
use cnserver_ops.Sync.Drain.Settled.{drain-IsOpen, IsOpen}
use cnserver_ops.Sync.Keys.{ids}
use cnserver_ops.Sync.Drain.Progress.{IsAccepting, Uploaded, waiting, drain-Uploaded}
use cnserver_ops.Sync.Drain.Kept.{drain-queued, queued, IsFinal}
use cnserver_ops.Sync.Drain.Sent.{noting, IsSent, drain-untouched}

abbrev id_text : Json → String
id_text (object (field k (string v) fs)) = v
id_text _ = "{}"

abbrev run_object : String → Json
run_object run_id = object (field "run_id" (string run_id) end)

abbrev event : String → Json
event id = object (
    field "event_id" (string id)
      (field "event_type" (string "RUN_STARTED") (field "run" (run_object "RUN-1") end)))

abbrev py : Python
py = record {
  dumps = id_text;
  dumps_indented = id_text;
  loads = λ s. some (if s == "RUN-1" then run_object "RUN-1" else event s);
  sha256 = λ s. "sha:" <> s;
  repr = id_text;
  int = λ j. none;
}

abbrev paths : Paths
paths = record { resolve = λ p. some p; is_symlink = λ p. false; is_file = λ p. true }

abbrev new_queue : Local
new_queue = record { queue = []; files = λ p. some "RUN-1" }

abbrev rows_of : Result SyncQueueError (Receipt × List Row) → List Row
rows_of (ok (r, rows)) = rows
rows_of (err e) = []

abbrev one_event : Local
one_event = record new_queue {
  queue = rows_of (enqueue py paths "T1" (event "E1") "run.json" new_queue);
}

enqueued :
    enqueue py paths "T1" (event "E1") "run.json" new_queue
    ≡ ok (record { status = "PENDING_UPLOAD"; event_id = "E1" }, one_event.queue)
unfolding enqueue
enqueued = refl

enqueue-again_example :
    enqueue py paths "T2" (event "E1") "run.json" one_event
    ≡ ok (record { status = "ALREADY_QUEUED"; event_id = "E1" }, initialize one_event.queue)
unfolding cnserver_ops.Sync.checked_record cnserver_ops.Sync.is_incomplete cnserver_ops.Json.str
enqueue-again_example =
    enqueue-again py paths "T1" "T2" (event "E1") (event "E1") "run.json" "run.json" new_queue
      enqueued refl refl refl

-- A collector that accepts, and one that is not there.
abbrev accepting : Client ℕ
accepting e n = (ok (object (field "status" (string "ACCEPTED") end)), n + 1)

abbrev absent : Client ℕ
absent e n = (err "URLError: refused", n + 1)

drained_sample : map (λ r. r.status) (drain py accepting 100 one_event 0).queue ≡ synced ∷ []
unfolding drain cnserver_ops.Sync.limited initialize enqueue
drained_sample = refl

postponed_sample : map (λ r. r.status) (drain py absent 100 one_event 0).queue ≡ pending_upload ∷ []
unfolding drain cnserver_ops.Sync.limited initialize enqueue
postponed_sample = refl

pending_status : status_for_run "RUN-1" (drain py absent 100 one_event 0).queue ≡ "PENDING_UPLOAD"
unfolding status_for_run drain cnserver_ops.Sync.limited enqueue
pending_status = refl

drain-IsOpen_example : All IsOpen (drain py absent 100 one_event 0).queue
drain-IsOpen_example = drain-IsOpen py absent 100 one_event 0

drain-queued_example :
    map queued (drain py absent 100 one_event 0).queue ≡ map queued one_event.queue
drain-queued_example = drain-queued py absent 100 one_event 0

abbrev retained_rows : Result SyncQueueError (String × List Row) → List Row
retained_rows (ok (r, rows)) = rows
retained_rows (err e) = []

abbrev retained : Local
retained = record one_event { queue = retained_rows (quarantine "E1" "bad_schema" one_event.queue) }

-- A retained event, and another one that waits.
abbrev mixed : Local
mixed = record retained { queue = rows_of (enqueue py paths "T2" (event "E2") "run.json" retained) }

mixed-IsFinal : All (IsFinal "E1") mixed.queue
unfolding quarantine enqueue
mixed-IsFinal = (λ h. inr refl, (λ h. cc, tt))

drain-untouched_example :
    (find_row "E1" (drain py accepting 100 mixed 0).queue ≡ find_row "E1" mixed.queue)
    × (sent : List Json) × ((drain py (noting accepting) 100 mixed (0, [])).collector.1
        ≡ sent ++ [])
    × All (IsSent py "E1" mixed.queue) sent
drain-untouched_example = drain-untouched py accepting "E1" 100 mixed 0 [] mixed-IsFinal

retained_status : status_for_run "RUN-1" retained.queue ≡ "SYNCED_WITH_QUARANTINED"
unfolding status_for_run quarantine enqueue
retained_status = refl

bad_reason_sample : quarantine "E1" "no reason!" one_event.queue ≡ err bad_reason
unfolding quarantine
bad_reason_sample = refl

accepting-IsAccepting : IsAccepting py accepting
unfolding str_or get cnserver_ops.Json.str
accepting-IsAccepting e n = (object (field "status" (string "ACCEPTED") end), n + 1, refl, refl)

drain-Uploaded_example :
    All
      (Uploaded (ids (waiting py accepting one_event.queue)))
      (drain py accepting 100 one_event 0).queue
unfolding enqueue cnserver_ops.Sync.select
drain-Uploaded_example =
    drain-Uploaded py accepting accepting-IsAccepting 100 one_event 0 ((event "E1", refl), tt)
      (omega arith)
