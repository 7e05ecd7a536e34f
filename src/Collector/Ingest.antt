-- ===== src/Collector/Ingest.antt =====
-- CentralCollector.ingest_event of cnserverops/collector.py: what a call that returned has done.
use cnserver_ops.Prelude.{
  String, none, some, ◌==◌, ok, ◌≡◌, refl, inl, inr, sym, ap, ◌∙◌, eq_iff, eq_refl, Bool-cases,
  Option-cases, >>=-eq-ok, ok_injective, put,
}
use cnserver_ops.Json.{Json, Python}
use cnserver_ops.Collector.{
  Event, Tables, Response, text_at, run_id_of, check_event, apply_event, new_event, ingest_once,
  ingest_event,
}

-- What an accepted event has done to the tables: nothing, where its id is there with its digest, or
-- its statements and a new row.
pub data Accepted (py : Python) (now : String) (event : Json) (t t' : Tables) : Type 0 where
  again :
      (old : Event)
      → t.events (text_at py now "event_id" event "") ≡ some old
      → old.payload_sha256 ≡ py.sha256 (py.dumps event)
      → t' ≡ t
      → Accepted py now event t t'
  stored :
      (u : Tables)
      → t.events (text_at py now "event_id" event "") ≡ none
      → apply_event py now (text_at py now "event_type" event "") event t ≡ ok u
      → t' ≡ (record u {
        events =
            put
              (text_at py now "event_id" event "")
              (new_event py now (text_at py now "event_type" event "") event)
              u.events;
      })
      → Accepted py now event t t'

once-Accepted :
    (py : Python) (now : String) (event : Json) (t t' : Tables) {response : Response}
    → ingest_once py now event t (t.events (text_at py now "event_id" event "")) ≡ ok (response, t')
    → Accepted py now event t t'
unfolding ingest_once
once-Accepted py now event t t' h =
    elim (Option-cases (t.events (text_at py now "event_id" event ""))) [
      | inl missing ↦
          let h1 = rw missing at h in
          let (u, applied, h2) =
            >>=-eq-ok (apply_event py now (text_at py now "event_type" event "") event t) _ h1 in
          stored u missing applied (sym (ap (λ p. p.1) (ok_injective h2)))
      | inr (old, found) ↦
          let h1 = rw found at h in
          elim (Bool-cases (old.payload_sha256 == py.sha256 (py.dumps event))) [
            | inl same ↦
                let h2 = rw same at h1 in
                again old found ((eq_iff old.payload_sha256 (py.sha256 (py.dumps event))).0 same)
                  (sym (ap (λ p. p.1) (ok_injective h2)))
            | inr differ ↦ cc (rw differ at h1)
          ]
    ]

pub ingest_event-Accepted :
    (py : Python) (now : String) (event : Json) (t t' : Tables) {response : Response}
    → ingest_event py now event t ≡ ok (response, t')
    → (check_event py now event ≡ ok tt) × Accepted py now event t t'
unfolding ingest_event
ingest_event-Accepted py now event t t' h =
    let (u, passed, h1) = >>=-eq-ok (check_event py now event) _ h in
    (passed, once-Accepted py now event t t' h1)

-- The row that an accepted event has in the table.
pub ingest_event-stored :
    (py : Python) (now : String) (event : Json) (t t' : Tables) {response : Response}
    → ingest_event py now event t ≡ ok (response, t')
    → (row : Event) × (t'.events (text_at py now "event_id" event "") ≡ some row)
      × (row.payload_sha256 ≡ py.sha256 (py.dumps event))
unfolding new_event
ingest_event-stored py now event t t' h = elim ((ingest_event-Accepted py now event t t' h).1) [
  | again old found same e ↦
      (old, ap (λ (x : Tables). x.events (text_at py now "event_id" event "")) e ∙ found, same)
  | stored u missing applied e ↦ (
    new_event py now (text_at py now "event_type" event "") event,
    rw (e, eq_refl (text_at py now "event_id" event "")),
    refl,
  )
]

-- While the row of an event is there, with its digest, ingesting the event changes nothing.
pub ingest_event-present :
    (py : Python) (now later : String) (event : Json) (t : Tables) (row : Event)
    → check_event py now event ≡ ok tt
    → t.events (text_at py now "event_id" event "") ≡ some row
    → row.payload_sha256 ≡ py.sha256 (py.dumps event)
    → ingest_event py later event t
      ≡ ok (
        record {
          status = "DUPLICATE_ACCEPTED";
          event_id = text_at py now "event_id" event "";
          run_id = run_id_of py now event;
        },
        t,
      )
unfolding ingest_event ingest_once check_event
ingest_event-present py now later event t row passed found same =
    rw (passed, found, same, eq_refl (py.sha256 (py.dumps event)))
