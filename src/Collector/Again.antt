-- ===== src/Collector/Again.antt =====
-- CentralCollector.ingest_event of cnserverops/collector.py on an event that was accepted before.
use cnserver_ops.Prelude.{String, List, [], ◌∷◌, some, Result, ok, err, ◌≡◌, inl, inr, Result-cases}
use cnserver_ops.Json.{Json, Python}
use cnserver_ops.Collector.{
  Event, Tables, CollectorError, Response, text_at, run_id_of, ingest_event,
}
use cnserver_ops.Collector.Ingest.{ingest_event-Accepted, ingest_event-stored, ingest_event-present}
use cnserver_ops.Collector.Kept.{ingest_event-Keeps}

-- A call that raises leaves the tables as they are.
abbrev after_ingest : Tables → Result CollectorError (Response × Tables) → Tables
after_ingest t (ok (response, t')) = t'
after_ingest t (err e) = t

-- The tables after these calls of `ingest_event`, each at its time, the first one first.
unfoldable pub ingest_all : Python → List (String × Json) → Tables → Tables
ingest_all py [] t = t
ingest_all py ((now, event) ∷ calls) t =
    ingest_all py calls (after_ingest t (ingest_event py now event t))

after_ingest-events :
    (py : Python) (now : String) (event : Json) (t : Tables) (id : String) (row : Event)
    → t.events id ≡ some row
    → (after_ingest t (ingest_event py now event t)).events id ≡ some row
after_ingest-events py now event t id row h = elim (Result-cases (ingest_event py now event t)) [
  | inl ((response, t'), e) ↦ rw e ((ingest_event-Keeps py now event t t' e).0 id row h)
  | inr (raised, e) ↦ rw e h
]

ingest_all-events :
    (py : Python) (calls : List (String × Json)) (t : Tables) (id : String) (row : Event)
    → t.events id ≡ some row
    → (ingest_all py calls t).events id ≡ some row
unfolding ingest_all
ingest_all-events py [] t id row h = h
ingest_all-events py ((now, event) ∷ calls) t id row h =
    ingest_all-events py calls (after_ingest t (ingest_event py now event t)) id row
      (after_ingest-events py now event t id row h)

-- an event that was accepted is accepted again after any further calls of ingest_event, with whatever
-- events and whether they are accepted or raise: the answer is DUPLICATE_ACCEPTED and no table
-- changes.
pub ingest_event-again :
    (py : Python) (now later : String) (event : Json) (calls : List (String × Json)) (t t' : Tables)
    {response : Response}
    → ingest_event py now event t ≡ ok (response, t')
    → ingest_event py later event (ingest_all py calls t')
      ≡ ok (
        record {
          status = "DUPLICATE_ACCEPTED";
          event_id = text_at py now "event_id" event "";
          run_id = run_id_of py now event;
        },
        ingest_all py calls t',
      )
ingest_event-again py now later event calls t t' h =
    let (row, found, same) = ingest_event-stored py now event t t' h in
    ingest_event-present py now later event (ingest_all py calls t') row
      (ingest_event-Accepted py now event t t' h).0
      (ingest_all-events py calls t' (text_at py now "event_id" event "") row found) same
