-- ===== src/Sync/Drain.antt =====
-- StoreForwardQueue.drain of cnserverops/sync.py. The collector's client is a parameter: it answers
-- or raises, as its own state says, and an exception is the text `Type: message` that is stored.
pub mod Settled
pub mod Kept
pub mod Progress
pub mod Sent
use cnserver_ops.Prelude.{
  String, ℕ, zero, suc, ◌+◌, Bool, true, false, not, ◌||◌, List, [], ◌∷◌, Option, none, some, ◌==◌,
  ◌<>◌, Result, ok, err, if◌then◌else◌, or_text, contains,
}
use cnserver_ops.Json.{Json, Python, str_or, get, subscript}
use cnserver_ops.Sync.{
  Row, Local, pending_upload, in_flight, synced, is_status, update, initialize, select, by_time,
  limited, mark_authoritative_synced,
}

abbrev pub Client : Type 0 → Type 0
Client C = Json → C → Result String Json × C

pub record Report : Type 0 where
  pub attempted : ℕ
  pub synced : ℕ
  pub pending : ℕ

pub record Drained (C : Type 0) : Type 0 where
  pub queue : List Row
  pub files : String → Option String
  pub collector : C
  pub report : Report

-- `text[:n]`.
unfoldable pub take_chars : ℕ → String → String
take_chars zero s = ""
take_chars (suc n) String.[] = ""
take_chars (suc n) (String.◌∷◌ c s) = String.◌∷◌ c (take_chars n s)

abbrev pub attempting : Row → Row
attempting r = record r { status = in_flight; attempts = r.attempts + 1 }

abbrev pub delivered : Row → Row
delivered r = record r { status = synced; last_error = "" }

abbrev pub postponed : String → Row → Row
postponed error r = record r { status = pending_upload; last_error = error }

abbrev pub on_event : String → (Row → Row) → List Row → List Row
on_event id change rows = update (λ r. r.event_id == id) change rows

module _ {C : Type 0} (py : Python) (client : Client C) where
  -- The status that the collector answered, or why it did not accept.
  unfoldable pub judged : Json → Result String (Unit {0})
  unfolding str_or get
  judged response =
      let status = str_or py (get "status" response) "" in
      if not (contains status ("ACCEPTED" ∷ "DUPLICATE_ACCEPTED" ∷ []))
      then err ("SyncQueueError: Collector rejected event: " <> or_text status "unknown response")
      else ok tt

  -- The `try` around the call of the client.
  unfoldable pub deliver : Option Json → C → Result String (Unit {0}) × C
  unfolding judged
  deliver none c = (err "JSONDecodeError", c)
  deliver (some event) c = answered (client event c)
    where
      answered : Result String Json × C → Result String (Unit {0}) × C
      answered (err error, c') = (err error, c')
      answered (ok response, c') = (judged response, c')

  unfoldable pub run_id_of : Option Json → Option Json
  unfolding subscript
  run_id_of none = none
  run_id_of (some event) = of_run (subscript "run" event)
    where
      of_run : Option Json → Option Json
      of_run none = none
      of_run (some run) = subscript "run_id" run

  -- The `try` around the receipt in the authoritative record.
  unfoldable pub receipt :
      Option Json → List Row → (String → Option String) → Result String (String → Option String)
  unfolding run_id_of mark_authoritative_synced
  receipt payload rows files = marked (run_id_of payload)
    where
      marked : Option Json → Result String (String → Option String)
      marked none = err "KeyError"
      marked (some run_id) = mark_authoritative_synced py run_id rows files

  unfoldable pub confirmed :
      String
      → List Row
      → Result String (String → Option String)
      → C
      → Report
      → (String → Option String)
      → Drained C
  confirmed id rows (ok files) c report old = record {
    queue = rows;
    files = files;
    collector = c;
    report = record report { synced = report.synced + 1 };
  }
  confirmed id rows (err error) c report old = record {
    queue =
        on_event id (postponed (take_chars 500 ("local sync receipt update failed: " <> error)))
          rows;
    files = old;
    collector = c;
    report = record report { pending = report.pending + 1 };
  }

  unfoldable pub settled :
      String
      → Option Json
      → List Row
      → (String → Option String)
      → Report
      → Result String (Unit {0}) × C
      → Drained C
  unfolding confirmed receipt take_chars
  settled id payload rows files report (err error, c) = record {
    queue = on_event id (postponed (take_chars 500 error)) rows;
    files = files;
    collector = c;
    report = record report { pending = report.pending + 1 };
  }
  settled id payload rows files report (ok u, c) =
      let rows' = on_event id delivered rows in
      confirmed id rows' (receipt payload rows' files) c report files

  -- One turn of the loop.
  unfoldable pub attempt : Row → Drained C → Drained C
  unfolding settled deliver take_chars
  attempt r s =
      settled r.event_id (py.loads r.payload_json) (on_event r.event_id attempting s.queue) s.files
        (record s.report { attempted = s.report.attempted + 1 })
        (deliver (py.loads r.payload_json) s.collector)

  unfoldable pub attempts : List Row → Drained C → Drained C
  attempts [] s = s
  attempts (r ∷ rs) s = attempts rs (attempt r s)

  abbrev pub pending_rows : ℕ → List Row → List Row
  pending_rows limit rows =
      limited limit (by_time (select (λ r. is_status pending_upload r.status) rows))

  abbrev pub begun : Local → C → Drained C
  begun s c = record {
    queue = initialize s.queue;
    files = s.files;
    collector = c;
    report = record { attempted = 0; synced = 0; pending = 0 };
  }

  unfoldable pub drain : ℕ → Local → C → Drained C
  unfolding attempts attempt
  drain limit s c = attempts (pending_rows limit (initialize s.queue)) (begun s c)
