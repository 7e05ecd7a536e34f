-- ===== src/Delivery/Reached.antt =====
-- Every sequence of operations on the queue and the collector (cnserverops/sync.py,
-- cnserverops/collector.py).
use cnserver_ops.Prelude.{
  String, ℕ, List, [], ◌∷◌, Option, ◌==◌, ◌≡◌, refl, sym, ◌∙◌, All, Result-cases, inl, inr,
}
use cnserver_ops.Json.{Json, Python}
use cnserver_ops.Collector.{CollectorError, ingest_event}
use cnserver_ops.Collector.Kept.{ingest_event-Keeps}
use cnserver_ops.Sync.{Local, Paths, initialize, synced}
use cnserver_ops.Sync.Drain.{Client, attempting, drain}
use cnserver_ops.Sync.Drain.Kept.{drain-queued}
use cnserver_ops.Sync.Keys.{All-weaken}
use cnserver_ops.Delivery.{Central, collector_client}
use cnserver_ops.Delivery.Received.{IsEvent, Received, Grown, HasEvent, drain-Received}
use cnserver_ops.Delivery.History.{
  System, Operation, submitted, set_aside, drained, from_elsewhere, interrupted, IsReadBack,
  perform, run, empty_queue,
}
use cnserver_ops.Delivery.Consistent.{
  IsConsistent, update-IsConsistent, initialize-IsConsistent, Grown-IsConsistent, All-both,
  All-queued,
}
use cnserver_ops.Delivery.Enqueued.{enqueue-IsConsistent, quarantine-IsConsistent}

module _ (py : Python) (paths : Paths) (clock : ℕ → String)
    (message : CollectorError → String) where
  abbrev client : Client Central
  client = collector_client py clock message

  elsewhere-Grown : (event : Json) (c : Central) → Grown c.tables (client event c).1.tables
  unfolding collector_client
  elsewhere-Grown event c = elim (Result-cases (ingest_event py (clock c.ticks) event c.tables)) [
    | inl ((response, t), e) ↦ rw e (ingest_event-Keeps py (clock c.ticks) event c.tables t e).0
    | inr (raised, e) ↦ rw e (λ id row h. h)
  ]

  drain-IsConsistent :
      (limit : ℕ) (s : Local) (c : Central)
      → IsConsistent py s.queue c.tables
      → IsConsistent py
          (drain py client limit s c).queue
          (drain py client limit s c).collector.tables
  drain-IsConsistent limit s c h = record {
    digest = h.digest;
    events =
        All-queued py h.digest s.queue (drain py client limit s c).queue
          (sym (drain-queued py client limit s c)) h.events;
    received = drain-Received py clock message h.digest limit s c h.events h.received;
  }

  perform-IsConsistent :
      (o : Operation) (s : System)
      → IsReadBack py o
      → IsConsistent py s.local.queue s.central.tables
      → IsConsistent py
          (perform py paths clock message o s).local.queue
          (perform py paths clock message o s).central.tables
  unfolding perform
  perform-IsConsistent (submitted now event record_path) s loads c =
      enqueue-IsConsistent py paths now event record_path s.local s.central.tables loads c
  perform-IsConsistent (set_aside event_id reason_code) s loads c =
      quarantine-IsConsistent py event_id reason_code s.local.queue s.central.tables c
  perform-IsConsistent (drained limit) s loads c = drain-IsConsistent limit s.local s.central c
  perform-IsConsistent (from_elsewhere event) s loads c =
      Grown-IsConsistent py s.local.queue s.central.tables _ (elsewhere-Grown event s.central) c
  perform-IsConsistent (interrupted event_id) s loads c =
      update-IsConsistent py (λ r. r.event_id == event_id) attempting (initialize s.local.queue)
        s.central.tables (λ r. refl) (λ r. refl)
        (initialize-IsConsistent py s.local.queue s.central.tables c)

  run-IsConsistent :
      (os : List Operation) (s : System)
      → All (IsReadBack py) os
      → IsConsistent py s.local.queue s.central.tables
      → IsConsistent py
          (run py paths clock message os s).local.queue
          (run py paths clock message os s).central.tables
  unfolding run
  run-IsConsistent [] s reads c = c
  run-IsConsistent (o ∷ os) s reads c =
      run-IsConsistent os (perform py paths clock message o s) reads.1
        (perform-IsConsistent o s reads.0 c)

  empty-IsConsistent : (c : Central) → IsConsistent py [] c.tables
  empty-IsConsistent c = record { digest = λ id. ""; events = tt; received = tt }

  -- The runner and the collector after these operations, from an empty queue.
  abbrev pub reached : List Operation → (String → Option String) → Central → System
  reached os files c = run py paths clock message os (empty_queue files c)

  -- from an empty queue and any state of the collector, after any sequence of calls of enqueue, quarantine
  -- and drain, of events that the collector gets from elsewhere and of processes that end in the middle of
  -- an upload: if `json.loads` reads back the events that were enqueued, the collector holds the event of
  -- every row that is SYNCED, under its id and with its digest.
  pub run-synced :
      (os : List Operation) (files : String → Option String) (c : Central)
      → All (IsReadBack py) os
      → All
          (λ r.
            r.status ≡ synced
            → HasEvent (reached os files c).central.tables r.event_id r.payload_sha256)
          (reached os files c).local.queue
  run-synced os files c reads =
      let final = run-IsConsistent os (empty_queue files c) reads (empty-IsConsistent c) in
      All-weaken _ _ _
        (λ r both e.
          let (stored, found, same) = both.1 e in (stored, found, same ∙ sym both.0.stored_is))
        (All-both (IsEvent py final.digest)
          (Received final.digest (reached os files c).central.tables) _ final.events final.received)
