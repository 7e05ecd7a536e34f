-- ===== src/Delivery/Enqueued.antt =====
-- StoreForwardQueue.enqueue and quarantine (cnserverops/sync.py) against what the collector holds.
use cnserver_ops.Prelude.{
  String, false, not, List, some, Result, ok, err, ◌==◌, ◌≡◌, refl, sym, ap, Bool-cases,
  Option-cases, Result-cases, inl, inr, >>=-eq-ok, ok_injective, raise_if, ◌>>◌, ◌||◌, truthy,
}
use cnserver_ops.Json.{Json, Python, get, str_or}
use cnserver_ops.Text.{upper, strip}
use cnserver_ops.Collector.{Tables}
use cnserver_ops.Sync.{
  Row, Local, Paths, Receipt, SyncQueueError, initialize, enqueue, quarantine, checked_record,
  is_incomplete, new_row, insert_once, find_row, is_status, synced, no_event, incomplete_event,
  bad_reason, machine_readable, no_record, different_content, record_mismatch,
}
use cnserver_ops.Delivery.History.{after_enqueue, after_quarantine}
use cnserver_ops.Delivery.Consistent.{
  IsConsistent, update-IsConsistent, initialize-IsConsistent, append-IsConsistent, absent-apart,
}

insert_once-IsConsistent :
    (py : Python) (row : Row) (event : Json) (rows rows' : List Row) (t : Tables)
    {receipt : Receipt}
    → py.loads row.payload_json ≡ some event
    → row.event_id ≡ str_or py (get "event_id" event) ""
    → row.payload_sha256 ≡ py.sha256 (py.dumps event)
    → is_status synced row.status ≡ false
    → insert_once row rows ≡ ok (receipt, rows')
    → IsConsistent py rows t
    → IsConsistent py rows' t
unfolding insert_once
insert_once-IsConsistent py row event rows rows' t loads id sha unsent h c =
    elim (Option-cases (find_row row.event_id rows)) [
      | inr (old, e) ↦
          let h1 = (rw e at h) in
          elim (Bool-cases (not (old.payload_sha256 == row.payload_sha256))) [
            | inl hit ↦ cc (rw hit at h1)
            | inr miss ↦ rw (sym (ap (λ x. x.1) (ok_injective (rw miss at h1)))) c
          ]
      | inl e ↦ rw (sym (ap (λ x. x.1) (ok_injective (rw e at h)))) (
          append-IsConsistent py row event rows t (absent-apart row.event_id rows e) loads id sha
            unsent c)
    ]

-- What `enqueue` does once it has the record.
abbrev inserted :
    Python
    → String
    → Json
    → List Row
    → (String × String)
    → Result SyncQueueError (Receipt × List Row)
inserted py now event rows file =
    raise_if (is_incomplete py event) incomplete_event
    >> insert_once (new_row py now event file) (initialize rows)

pub enqueue-IsConsistent :
    (py : Python) (paths : Paths) (now : String) (event : Json) (path : String) (s : Local)
    (t : Tables)
    → py.loads (py.dumps event) ≡ some event
    → IsConsistent py s.queue t
    → IsConsistent py (after_enqueue s.queue (enqueue py paths now event path s)) t
unfolding after_enqueue enqueue new_row
enqueue-IsConsistent py paths now event path s t loads c =
    let opened = initialize-IsConsistent py s.queue t c in
    elim (Result-cases (enqueue py paths now event path s)) [
      | inr (error, e) ↦ rw e opened
      | inl ((receipt, rows), e) ↦ rw e (
          let (file, checked, e1) =
            >>=-eq-ok (checked_record paths s.files path) (inserted py now event s.queue) e in
          let (u, complete, e2) =
            >>=-eq-ok (raise_if (is_incomplete py event) incomplete_event)
              (λ u. insert_once (new_row py now event file) (initialize s.queue)) e1 in
          insert_once-IsConsistent py (new_row py now event file) event (initialize s.queue) rows t
            loads refl refl refl e2 opened)
    ]

present-IsConsistent :
    (py : Python) (event_id reason_code : String) (rows rows' : List Row) (t : Tables)
    {run_id : String}
    → quarantine event_id reason_code rows ≡ ok (run_id, rows')
    → IsConsistent py rows t
    → IsConsistent py rows' t
unfolding quarantine
present-IsConsistent py event_id reason_code rows rows' t h c =
    let (u, ready, e1) =
      >>=-eq-ok
        (raise_if
          (not (truthy (upper (strip reason_code)))
            || not (machine_readable false (upper (strip reason_code))))
          bad_reason)
        _ h in
    elim (Option-cases (find_row event_id (initialize rows))) [
      | inl e ↦ cc (rw e at e1)
      | inr (r, e) ↦ rw (sym (ap (λ x. x.1) (ok_injective (rw e at e1)))) (
          update-IsConsistent py _ _ (initialize rows) t (λ r. refl) (λ r. refl)
            (initialize-IsConsistent py rows t c))
    ]

pub quarantine-IsConsistent :
    (py : Python) (event_id reason_code : String) (rows : List Row) (t : Tables)
    → IsConsistent py rows t
    → IsConsistent py (after_quarantine rows (quarantine event_id reason_code rows)) t
unfolding after_quarantine
quarantine-IsConsistent py event_id reason_code rows t c =
    elim (Result-cases (quarantine event_id reason_code rows)) [
      | inl ((run_id, rows'), e) ↦
          rw e (present-IsConsistent py event_id reason_code rows rows' t e c)
      | inr (error, e) ↦ rw e (refused error)
    ]
  where
    refused : (error : SyncQueueError) → IsConsistent py (after_quarantine rows (err error)) t
    refused no_event = initialize-IsConsistent py rows t c
    refused no_record = c
    refused incomplete_event = c
    refused different_content = c
    refused bad_reason = c
    refused record_mismatch = c
