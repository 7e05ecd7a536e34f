-- ===== src/Delivery.antt =====
-- The queue of a runner and the central collector together: the client that StoreForwardQueue.drain
-- (cnserverops/sync.py) calls is CentralCollector.ingest_event (cnserverops/collector.py).
pub mod Received
pub mod History
pub mod Consistent
pub mod Enqueued
pub mod Reached
mod Tests
use cnserver_ops.Prelude.{String, ℕ, ◌+◌, Result, ok, err}
use cnserver_ops.Json.{Json, Python, string, object, field, end}
use cnserver_ops.Collector.{Tables, CollectorError, Response, ingest_event}
use cnserver_ops.Sync.Drain.{Client}

-- The collector's tables, and how often its clock was read.
pub record Central : Type 0 where
  pub tables : Tables
  pub ticks : ℕ

-- The dict that `ingest_event` returns.
unfoldable pub response_json : Response → Json
response_json r = object (
    field "status" (string r.status)
      (field "event_id" (string r.event_id) (field "run_id" (string r.run_id) end)))

module _ (py : Python) (clock : ℕ → String) (message : CollectorError → String) where
  pub answered : Central → Result CollectorError (Response × Tables) → Result String Json × Central
  unfolding response_json
  answered c (err e) = (err (message e), record c { ticks = c.ticks + 1 })
  answered c (ok (response, t)) =
      (ok (response_json response), record { tables = t; ticks = c.ticks + 1 })

  -- The collector as the client of a queue.
  unfoldable pub collector_client : Client Central
  unfolding answered ingest_event
  collector_client event c = answered c (ingest_event py (clock c.ticks) event c.tables)
