-- ===== src/Delivery/Received.antt =====
-- What StoreForwardQueue.drain (cnserverops/sync.py) records as uploaded, against the tables of
-- CentralCollector (cnserverops/collector.py).
use cnserver_ops.Prelude.{
  String, ℕ, ◌+◌, Bool, false, List, [], ◌∷◌, Option, some, Result, ok, err, ◌==◌, ◌≡◌, refl, inl,
  inr, All, Result-cases, eq_iff, map, if◌then◌else◌,
}
use cnserver_ops.Json.{Json, Python, get, str_or}
use cnserver_ops.Collector.{Event, Tables, CollectorError, ingest_event}
use cnserver_ops.Collector.Ingest.{ingest_event-stored}
use cnserver_ops.Collector.Kept.{ingest_event-Keeps}
use cnserver_ops.Sync.{Row, Local, pending_upload, in_flight, synced, is_status, initialize}
use cnserver_ops.Sync.Keys.{All-update, All-select, All-by_time, All-limited, All-weaken}
use cnserver_ops.Sync.Drain.{
  Drained, Report, attempting, delivered, postponed, on_event, deliver, receipt, confirmed, settled,
  attempt, attempts, pending_rows, begun, drain,
}
use cnserver_ops.Delivery.{Central, collector_client}

-- A row as `enqueue` makes it, whose payload `json.loads` reads back, in a table that has one digest
-- for each event id.
pub record IsEvent (py : Python) (digest : String → String) (r : Row) : Type 0 where
  pub event : Json
  pub payload_is : py.loads r.payload_json ≡ some event
  pub id_is : r.event_id ≡ str_or py (get "event_id" event) ""
  pub stored_is : r.payload_sha256 ≡ digest r.event_id
  pub digest_is : digest r.event_id ≡ py.sha256 (py.dumps event)

-- The collector has an event with this id and this digest.
abbrev pub HasEvent : Tables → String → String → Type 0
HasEvent t id digest = (e : Event) × (t.events id ≡ some e) × (e.payload_sha256 ≡ digest)

abbrev pub Received : (String → String) → Tables → Row → Type 0
Received digest t r = r.status ≡ synced → HasEvent t r.event_id (digest r.event_id)

abbrev pub Grown : Tables → Tables → Type 0
Grown t t' = (id : String) (row : Event) → t.events id ≡ some row → t'.events id ≡ some row

pub Received-Grown :
    (digest : String → String) (t t' : Tables)
    → Grown t t'
    → (rs : List Row) → All (Received digest t) rs
    → All (Received digest t') rs
Received-Grown digest t t' grown rs h =
    All-weaken (Received digest t) (Received digest t') rs
      (λ r p e. let (row, found, same) = p e in (row, grown r.event_id row found, same)) h

-- An update that does not end in SYNCED.
unsent-Received :
    (digest : String → String) (t : Tables) (id : String) (change : Row → Row) (rs : List Row)
    → ((r : Row) → is_status synced (change r).status ≡ false)
    → All (Received digest t) rs
    → All (Received digest t) (on_event id change rs)
unsent-Received digest t id change rs unsent h =
    All-update (Received digest t) (Received digest t) (λ r. r.event_id == id) change
      (λ r p hit e. let u = unsent r in cc (rw e at u)) (λ r p miss. p) rs h

delivered-Received :
    (digest : String → String) (t : Tables) (id : String) (rs : List Row)
    → HasEvent t id (digest id)
    → All (Received digest t) rs
    → All (Received digest t) (on_event id delivered rs)
delivered-Received digest t id rs there h =
    All-update (Received digest t) (Received digest t) (λ r. r.event_id == id) delivered
      (λ r p hit e. rw ((eq_iff r.event_id id).0 hit) there) (λ r p miss. p) rs h

update-IsEvent :
    (py : Python) (digest : String → String) (test : Row → Bool) (change : Row → Row)
    (rs : List Row)
    → ((r : Row) → IsEvent py digest r → IsEvent py digest (change r))
    → All (IsEvent py digest) rs
    → All (IsEvent py digest) (map (λ r. if test r then change r else r) rs)
update-IsEvent py digest test change rs same h =
    All-update (IsEvent py digest) (IsEvent py digest) test change (λ r p hit. same r p)
      (λ r p miss. p) rs h

module _ (py : Python) (clock : ℕ → String) (message : CollectorError → String)
    (digest : String → String) where
  -- A turn only adds events, and if it counts as delivered, the event is there.
  deliver-answered :
      (event : Json) (c : Central)
      → Grown c.tables (deliver py (collector_client py clock message) (some event) c).1.tables
        × ((deliver py (collector_client py clock message) (some event) c).0 ≡ ok tt
            → HasEvent
                (deliver py (collector_client py clock message) (some event) c).1.tables
                (str_or py (get "event_id" event) "")
                (py.sha256 (py.dumps event)))
  unfolding deliver collector_client
  deliver-answered event c = elim (Result-cases (ingest_event py (clock c.ticks) event c.tables)) [
    | inl ((response, t), e) ↦ rw e (
      (ingest_event-Keeps py (clock c.ticks) event c.tables t e).0,
      λ h. ingest_event-stored py (clock c.ticks) event c.tables t e,
    )
    | inr (raised, e) ↦ rw e (λ id row h. h, λ h. cc)
  ]

  confirmed-Received :
      (id : String) (rs : List Row) (answer : Result String (String → Option String)) (c : Central)
      (report : Report) (old : String → Option String)
      → All (Received digest c.tables) rs
      → All
          (Received digest
            (confirmed py
              (collector_client py clock message)
              id
              rs
              answer
              c
              report
              old).collector.tables)
          (confirmed py (collector_client py clock message) id rs answer c report old).queue
  unfolding confirmed
  confirmed-Received id rs (ok files) c report old h = h
  confirmed-Received id rs (err error) c report old h =
      unsent-Received digest c.tables id (postponed _) rs (λ r. refl) h

  settled-Received :
      (id : String) (payload : Option Json) (rs : List Row) (files : String → Option String)
      (report : Report) (answer : Result String (Unit {0}) × Central)
      → (answer.0 ≡ ok tt → HasEvent answer.1.tables id (digest id))
      → All (Received digest answer.1.tables) rs
      → All
          (Received digest
            (settled py
              (collector_client py clock message)
              id
              payload
              rs
              files
              report
              answer).collector.tables)
          (settled py (collector_client py clock message) id payload rs files report answer).queue
  unfolding settled
  settled-Received id payload rs files report (err error, c) there h =
      unsent-Received digest c.tables id (postponed _) rs (λ r. refl) h
  settled-Received id payload rs files report (ok u, c) there h =
      confirmed-Received id (on_event id delivered rs)
        (receipt py (collector_client py clock message) payload (on_event id delivered rs) files) c
        report files (delivered-Received digest c.tables id rs (there refl) h)

  attempt-Received :
      (r : Row) (s : Drained Central)
      → IsEvent py digest r
      → All (Received digest s.collector.tables) s.queue
      → All
          (Received digest (attempt py (collector_client py clock message) r s).collector.tables)
          (attempt py (collector_client py clock message) r s).queue
  unfolding attempt
  attempt-Received r s is_event h =
      let (grown, there) = deliver-answered is_event.event s.collector in
      rw is_event.payload_is (
        settled-Received r.event_id (some is_event.event) (on_event r.event_id attempting s.queue)
          s.files (record s.report { attempted = s.report.attempted + 1 })
          (deliver py (collector_client py clock message) (some is_event.event) s.collector)
          (λ accepted. rw (is_event.digest_is, is_event.id_is) (there accepted))
          (Received-Grown digest s.collector.tables
            (deliver py (collector_client py clock message) (some is_event.event)
              s.collector).1.tables
            grown (on_event r.event_id attempting s.queue)
            (unsent-Received digest s.collector.tables r.event_id attempting s.queue (λ q. refl)
              h)))

  attempts-Received :
      (rs : List Row) (s : Drained Central)
      → All (IsEvent py digest) rs
      → All (Received digest s.collector.tables) s.queue
      → All
          (Received digest (attempts py (collector_client py clock message) rs s).collector.tables)
          (attempts py (collector_client py clock message) rs s).queue
  unfolding attempts
  attempts-Received [] s events h = h
  attempts-Received (r ∷ rs) s events h =
      attempts-Received rs (attempt py (collector_client py clock message) r s) events.1
        (attempt-Received r s events.0 h)

  chosen-IsEvent :
      (limit : ℕ) (rs : List Row)
      → All (IsEvent py digest) rs
      → All (IsEvent py digest) (pending_rows py (collector_client py clock message) limit rs)
  chosen-IsEvent limit rs h = All-limited (IsEvent py digest) limit _ (
      All-by_time (IsEvent py digest) _ (
        All-weaken _ (IsEvent py digest) _ (λ r both. both.0)
          (All-select (IsEvent py digest) (λ r. is_status pending_upload r.status) rs h)))

  initialize-IsEvent :
      (rs : List Row) → All (IsEvent py digest) rs → All (IsEvent py digest) (initialize rs)
  unfolding initialize
  initialize-IsEvent rs h =
      update-IsEvent py digest (λ r. is_status in_flight r.status) _ rs
        (λ r e. record {
          event = e.event;
          payload_is = e.payload_is;
          id_is = e.id_is;
          stored_is = e.stored_is;
          digest_is = e.digest_is;
        })
        h

  initialize-Received :
      (t : Tables) (rs : List Row)
      → All (Received digest t) rs
      → All (Received digest t) (initialize rs)
  unfolding initialize
  initialize-Received t rs h =
      All-update (Received digest t) (Received digest t) (λ r. is_status in_flight r.status) _
        (λ r p hit e. cc) (λ r p miss. p) rs h

  -- What is SYNCED stays received, whichever events the collector refuses.
  pub drain-Received :
      (limit : ℕ) (s : Local) (c : Central)
      → All (IsEvent py digest) s.queue
      → All (Received digest c.tables) s.queue
      → All
          (Received digest
            (drain py (collector_client py clock message) limit s c).collector.tables)
          (drain py (collector_client py clock message) limit s c).queue
  unfolding drain
  drain-Received limit s c events h =
      attempts-Received
        (pending_rows py (collector_client py clock message) limit (initialize s.queue))
        (begun py (collector_client py clock message) s c)
        (chosen-IsEvent limit (initialize s.queue) (initialize-IsEvent s.queue events))
        (initialize-Received c.tables s.queue h)
