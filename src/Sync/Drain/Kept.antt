-- ===== src/Sync/Drain/Kept.antt =====
-- What StoreForwardQueue.drain (cnserverops/sync.py) keeps of the table: its events, and the rows that
-- it is not to retry.
use cnserver_ops.Prelude.{
  String, ℕ, ◌+◌, true, false, List, [], ◌∷◌, Option, Result, ok, err, ◌==◌, ◌≡◌, refl, ◌⊎◌, inl,
  inr, All, ◌∙◌, map, Bool-cases,
}
use cnserver_ops.Json.{Json, Python}
use cnserver_ops.Sync.{
  Row, Local, pending_upload, in_flight, synced, quarantined, is_status, find_row, initialize,
}
use cnserver_ops.Sync.Keys.{
  All-update, map-update, find_row-update, All-select, All-weaken, All-by_time, All-limited,
}
use cnserver_ops.Sync.Drain.{
  Client, Drained, Report, attempting, delivered, postponed, on_event, deliver, receipt, confirmed,
  settled, attempt, attempts, pending_rows, begun, drain,
}

-- What a row says of its event: all but how far its upload has come.
pub record Queued : Type 0 where
  pub event_id : String
  pub run_id : String
  pub event_type : String
  pub payload_json : String
  pub payload_sha256 : String
  pub authoritative_record : String
  pub authoritative_sha256 : String
  pub created_at_utc : String

abbrev pub queued : Row → Queued
queued r = record {
  event_id = r.event_id;
  run_id = r.run_id;
  event_type = r.event_type;
  payload_json = r.payload_json;
  payload_sha256 = r.payload_sha256;
  authoritative_record = r.authoritative_record;
  authoritative_sha256 = r.authoritative_sha256;
  created_at_utc = r.created_at_utc;
}

pub queued-initialize : (rs : List Row) → map queued (initialize rs) ≡ map queued rs
unfolding initialize
queued-initialize rs = map-update queued (λ r. is_status in_flight r.status) _ (λ r. refl) rs

queued-on_event :
    (id : String) (change : Row → Row) (rs : List Row)
    → ((r : Row) → queued (change r) ≡ queued r)
    → map queued (on_event id change rs) ≡ map queued rs
queued-on_event id change rs same = map-update queued (λ r. r.event_id == id) change same rs

abbrev IsOther : String → Row → Type 0
IsOther id r = (r.event_id == id) ≡ false

-- The rows of the event `key` are not to be sent again.
abbrev pub IsFinal : String → Row → Type 0
IsFinal key r = (r.event_id == key) ≡ true → (r.status ≡ synced) ⊎ (r.status ≡ quarantined)

final-in_flight :
    (key : String) (r : Row)
    → IsFinal key r
    → is_status in_flight r.status ≡ true
    → (r.event_id == key) ≡ false
final-in_flight key r h e = elim (Bool-cases (r.event_id == key)) [
  | inl yes_it ↦ elim (h yes_it) [ inl f ↦ cc (rw f at e) | inr f ↦ cc (rw f at e) ]
  | inr no_it ↦ no_it
]

pub final-pending :
    (key : String) (r : Row)
    → IsFinal key r
    → is_status pending_upload r.status ≡ true
    → (r.event_id == key) ≡ false
final-pending key r h e = elim (Bool-cases (r.event_id == key)) [
  | inl yes_it ↦ elim (h yes_it) [ inl f ↦ cc (rw f at e) | inr f ↦ cc (rw f at e) ]
  | inr no_it ↦ no_it
]

initialize-other :
    (key : String) (rs : List Row)
    → All (IsFinal key) rs
    → find_row key (initialize rs) ≡ find_row key rs
unfolding initialize find_row
initialize-other key [] h = refl
initialize-other key (r ∷ rs) h =
    let rest = initialize-other key rs h.1 in
    elim (Bool-cases (is_status in_flight r.status)) [
      | inl stuck ↦ let other = final-in_flight key r h.0 stuck in rw (stuck, other, rest)
      | inr moved ↦ rw (moved, rest)
    ]

pub initialize-IsFinal :
    (key : String) (rs : List Row) → All (IsFinal key) rs → All (IsFinal key) (initialize rs)
unfolding initialize
initialize-IsFinal key rs h =
    All-update (IsFinal key) (IsFinal key) (λ r. is_status in_flight r.status) _
      (λ r final stuck hit. cc (final-in_flight key r final stuck)) (λ r final moved. final) rs h

module _ {C : Type 0} (py : Python) (client : Client C) where
  confirmed-queued :
      (id : String) (rs : List Row) (answer : Result String (String → Option String)) (c : C)
      (report : Report) (old : String → Option String)
      → map queued (confirmed py client id rs answer c report old).queue ≡ map queued rs
  unfolding confirmed
  confirmed-queued id rs (ok files) c report old = refl
  confirmed-queued id rs (err error) c report old = queued-on_event id (postponed _) rs (λ r. refl)

  settled-queued :
      (id : String) (payload : Option Json) (rs : List Row) (files : String → Option String)
      (report : Report) (answer : Result String (Unit {0}) × C)
      → map queued (settled py client id payload rs files report answer).queue ≡ map queued rs
  unfolding settled
  settled-queued id payload rs files report (err error, c) =
      queued-on_event id (postponed _) rs (λ r. refl)
  settled-queued id payload rs files report (ok u, c) =
      confirmed-queued id (on_event id delivered rs)
        (receipt py client payload (on_event id delivered rs) files) c report files
      ∙ queued-on_event id delivered rs (λ r. refl)

  attempts-queued :
      (rs : List Row) (s : Drained C)
      → map queued (attempts py client rs s).queue ≡ map queued s.queue
  unfolding attempts attempt
  attempts-queued [] s = refl
  attempts-queued (r ∷ rs) s =
      attempts-queued rs (attempt py client r s)
      ∙ settled-queued r.event_id (py.loads r.payload_json) (on_event r.event_id attempting s.queue)
          s.files (record s.report { attempted = s.report.attempted + 1 })
          (deliver py client (py.loads r.payload_json) s.collector)
      ∙ queued-on_event r.event_id attempting s.queue (λ r. refl)

  -- drain keeps the events of the queue as they are: none is lost, added, reordered or changed in its
  -- payload, its digest or its record, whatever the collector answers.
  pub drain-queued :
      (limit : ℕ) (s : Local) (c : C)
      → map queued (drain py client limit s c).queue ≡ map queued s.queue
  unfolding drain
  drain-queued limit s c =
      attempts-queued (pending_rows py client limit (initialize s.queue)) (begun py client s c)
      ∙ queued-initialize s.queue

  confirmed-other :
      (key id : String) (rs : List Row) (answer : Result String (String → Option String)) (c : C)
      (report : Report) (old : String → Option String)
      → (id == key) ≡ false
      → find_row key (confirmed py client id rs answer c report old).queue ≡ find_row key rs
  unfolding confirmed
  confirmed-other key id rs (ok files) c report old h = refl
  confirmed-other key id rs (err error) c report old h =
      find_row-update key id (postponed _) rs (λ r. refl) h

  settled-other :
      (key id : String) (payload : Option Json) (rs : List Row) (files : String → Option String)
      (report : Report) (answer : Result String (Unit {0}) × C)
      → (id == key) ≡ false
      → find_row key (settled py client id payload rs files report answer).queue ≡ find_row key rs
  unfolding settled
  settled-other key id payload rs files report (err error, c) h =
      find_row-update key id (postponed _) rs (λ r. refl) h
  settled-other key id payload rs files report (ok u, c) h =
      confirmed-other key id (on_event id delivered rs)
        (receipt py client payload (on_event id delivered rs) files) c report files h
      ∙ find_row-update key id delivered rs (λ r. refl) h

  attempts-other :
      (key : String) (rs : List Row) (s : Drained C)
      → All (IsOther key) rs
      → find_row key (attempts py client rs s).queue ≡ find_row key s.queue
  unfolding attempts attempt
  attempts-other key [] s h = refl
  attempts-other key (r ∷ rs) s h =
      attempts-other key rs (attempt py client r s) h.1
      ∙ settled-other key r.event_id (py.loads r.payload_json)
          (on_event r.event_id attempting s.queue) s.files
          (record s.report { attempted = s.report.attempted + 1 })
          (deliver py client (py.loads r.payload_json) s.collector) h.0
      ∙ find_row-update key r.event_id attempting s.queue (λ r. refl) h.0

  chosen-IsOther :
      (key : String) (limit : ℕ) (rs : List Row)
      → All (IsFinal key) rs
      → All (IsOther key) (pending_rows py client limit rs)
  chosen-IsOther key limit rs h = All-limited (IsOther key) limit _ (
      All-by_time (IsOther key) _ (
        All-weaken _ (IsOther key) _ (λ r both. final-pending key r both.0 both.1)
          (All-select (IsFinal key) (λ r. is_status pending_upload r.status) rs h)))

  -- The row of an event that is SYNCED or QUARANTINED is the same after drain.
  pub drain-final :
      (key : String) (limit : ℕ) (s : Local) (c : C)
      → All (IsFinal key) s.queue
      → find_row key (drain py client limit s c).queue ≡ find_row key s.queue
  unfolding drain
  drain-final key limit s c h =
      attempts-other key (pending_rows py client limit (initialize s.queue)) (begun py client s c)
        (chosen-IsOther key limit (initialize s.queue) (initialize-IsFinal key s.queue h))
      ∙ initialize-other key s.queue h
