-- ===== src/Delivery/History.antt =====
-- What happens to the queue of a runner and to the collector, as a sequence: the operations of
-- StoreForwardQueue (cnserverops/sync.py), events from elsewhere at CentralCollector
-- (cnserverops/collector.py), and processes that end in the middle of an upload.
use cnserver_ops.Prelude.{String, ℕ, List, [], ◌∷◌, Option, some, Result, ok, err, ◌≡◌}
use cnserver_ops.Json.{Json, Python}
use cnserver_ops.Collector.{CollectorError}
use cnserver_ops.Sync.{
  Row, Local, Paths, Receipt, SyncQueueError, initialize, enqueue, quarantine, no_event,
}
use cnserver_ops.Sync.Drain.{Drained, attempting, on_event, drain}
use cnserver_ops.Delivery.{Central, collector_client}

-- The queue of a runner and the collector.
pub record System : Type 0 where
  pub local : Local
  pub central : Central

-- What happens: a call of the queue, an event from elsewhere at the collector, or a process that ends
-- after it has marked the row IN_FLIGHT.
pub data Operation : Type 0 where
  submitted : (now : String) (event : Json) (record_path : String) → Operation
  set_aside : (event_id reason_code : String) → Operation
  drained : (limit : ℕ) → Operation
  from_elsewhere : (event : Json) → Operation
  interrupted : (event_id : String) → Operation

-- The event that a call enqueues is read back by `json.loads` as it was written.
abbrev pub IsReadBack : Python → Operation → Type 0
IsReadBack py (submitted now event record_path) = py.loads (py.dumps event) ≡ some event
IsReadBack py (set_aside event_id reason_code) = Unit {0}
IsReadBack py (drained limit) = Unit {0}
IsReadBack py (from_elsewhere event) = Unit {0}
IsReadBack py (interrupted event_id) = Unit {0}

-- The table after `enqueue`, which has opened it before it can raise.
unfoldable pub after_enqueue : List Row → Result SyncQueueError (Receipt × List Row) → List Row
after_enqueue rows (ok (receipt, rows')) = rows'
after_enqueue rows (err error) = initialize rows

-- The table after `quarantine`, which opens it once the reason is accepted.
unfoldable pub after_quarantine : List Row → Result SyncQueueError (String × List Row) → List Row
after_quarantine rows (ok (run_id, rows')) = rows'
after_quarantine rows (err no_event) = initialize rows
after_quarantine rows (err error) = rows

module _ (py : Python) (paths : Paths) (clock : ℕ → String)
    (message : CollectorError → String) where
  abbrev drained_to : Drained Central → System
  drained_to d = record {
    local = record { queue = d.queue; files = d.files };
    central = d.collector;
  }

  unfoldable pub perform : Operation → System → System
  unfolding after_enqueue after_quarantine
  perform (submitted now event record_path) s = record s {
    local = record s.local {
      queue = after_enqueue s.local.queue (enqueue py paths now event record_path s.local);
    };
  }
  perform (set_aside event_id reason_code) s = record s {
    local = record s.local {
      queue = after_quarantine s.local.queue (quarantine event_id reason_code s.local.queue);
    };
  }
  perform (drained limit) s =
      drained_to (drain py (collector_client py clock message) limit s.local s.central)
  perform (from_elsewhere event) s = record s {
    central = (collector_client py clock message event s.central).1;
  }
  perform (interrupted event_id) s = record s {
    local = record s.local { queue = on_event event_id attempting (initialize s.local.queue) };
  }

  unfoldable pub run : List Operation → System → System
  unfolding perform
  run [] s = s
  run (o ∷ os) s = run os (perform o s)

-- An empty queue.
abbrev pub empty_queue : (String → Option String) → Central → System
empty_queue files c = record { local = record { queue = []; files = files }; central = c }
