-- ===== src/Sync/Drain/Progress.antt =====
-- StoreForwardQueue.drain of cnserverops/sync.py against a collector that accepts.
use cnserver_ops.Prelude.{
  String, ℕ, ◌+◌, true, false, List, [], ◌∷◌, Option, some, Result, ok, err, ◌==◌, ◌<>◌, ◌≡◌, refl,
  ◌⊎◌, inl, inr, arith, eq_iff, All, In, contains, length, ◌≤◌,
}
use cnserver_ops.Json.{Json, Python, get, str_or}
use cnserver_ops.Sync.{
  Row, Local, synced, is_status, pending_upload, initialize, in_flight, select, by_time,
}
use cnserver_ops.Sync.Keys.{
  All-update, All-weaken, All-select, All-by_time, All-limited, limited-all, ids, length-by_time,
  In-by_time,
}
use cnserver_ops.Sync.Drain.{
  Client, Drained, Report, attempting, delivered, postponed, take_chars, on_event, judged, deliver,
  receipt, confirmed, settled, attempt, attempts, pending_rows, begun, drain,
}

-- The event was uploaded, or it was and only its receipt could not be written.
abbrev pub IsUploaded : Row → Type 0
IsUploaded r =
    (r.status ≡ synced)
    ⊎ ((e : String) × (r.last_error ≡ take_chars 500 ("local sync receipt update failed: " <> e)))

abbrev pub IsReadable : Python → Row → Type 0
IsReadable py r = (event : Json) × (py.loads r.payload_json ≡ some event)

abbrev pub Uploaded : List String → Row → Type 0
Uploaded ids r = In r.event_id ids → IsUploaded r

-- A client whose answer is always that the event was accepted, now or before.
abbrev pub IsAccepting : {C : Type 0} → Python → Client C → Type 0
IsAccepting {C} py client =
    (event : Json) (c : C)
    → (response : Json) × (c' : C) × (client event c ≡ (ok response, c'))
      × (contains (str_or py (get "status" response) "") ("ACCEPTED" ∷ "DUPLICATE_ACCEPTED" ∷ [])
          ≡ true)

-- During the turn of `id` its own rows are open.
abbrev Others : String → List String → Row → Type 0
Others id ids r = ((r.event_id == id) ≡ false) → Uploaded ids r

upload-Uploaded :
    (id : String) (ids : List String) (change : Row → Row) (rs : List Row)
    → ((r : Row) → IsUploaded (change r))
    → ((r : Row) → (change r).event_id ≡ r.event_id)
    → All (Others id ids) rs
    → All (Uploaded (id ∷ ids)) (on_event id change rs)
upload-Uploaded id ids change rs good same h =
    All-update (Others id ids) (Uploaded (id ∷ ids)) (λ r. r.event_id == id) change
      (λ r p hit there. good r) other rs h
  where
    other : (r : Row) → Others id ids r → (r.event_id == id) ≡ false → Uploaded (id ∷ ids) r
    other r p miss (inl e) = cc ((eq_iff r.event_id id).1 e)
    other r p miss (inr there) = p miss there

module _ {C : Type 0} (py : Python) (client : Client C) where
  confirmed-Uploaded :
      (id : String) (ids : List String) (rs : List Row)
      (answer : Result String (String → Option String)) (c : C) (report : Report)
      (old : String → Option String)
      → All (Uploaded (id ∷ ids)) rs
      → All (Uploaded (id ∷ ids)) (confirmed py client id rs answer c report old).queue
  unfolding confirmed
  confirmed-Uploaded id ids rs (ok files) c report old h = h
  confirmed-Uploaded id ids rs (err error) c report old h =
      upload-Uploaded id ids (postponed _) rs (λ r. inr (error, refl)) (λ r. refl)
        (All-weaken (Uploaded (id ∷ ids)) (Others id ids) rs (λ r p miss there. p (inr there)) h)

  settled-Uploaded :
      (id : String) (ids : List String) (payload : Option Json) (rs : List Row)
      (files : String → Option String) (report : Report) (answer : Result String (Unit {0}) × C)
      → answer.0 ≡ ok tt
      → All (Others id ids) rs
      → All (Uploaded (id ∷ ids)) (settled py client id payload rs files report answer).queue
  unfolding settled
  settled-Uploaded id ids payload rs files report (err error, c) accepted h = cc
  settled-Uploaded id ids payload rs files report (ok u, c) accepted h =
      confirmed-Uploaded id ids (on_event id delivered rs)
        (receipt py client payload (on_event id delivered rs) files) c report files
        (upload-Uploaded id ids delivered rs (λ r. inl refl) (λ r. refl) h)

  deliver-accepted :
      IsAccepting py client → (event : Json) (c : C) → (deliver py client (some event) c).0 ≡ ok tt
  unfolding deliver judged
  deliver-accepted accepts event c =
      let (response, c', answered, good) = accepts event c in rw (answered, good) refl

  attempting-Others :
      (id : String) (ids : List String) (rs : List Row)
      → All (Uploaded ids) rs
      → All (Others id ids) (on_event id attempting rs)
  attempting-Others id ids rs h =
      All-update (Uploaded ids) (Others id ids) (λ r. r.event_id == id) attempting
        (λ r p hit miss. cc) (λ r p miss e. p) rs h

  abbrev ids_of : List Row → List String → List String
  ids_of [] ids = ids
  ids_of (r ∷ rs) ids = ids_of rs (r.event_id ∷ ids)

  attempts-Uploaded :
      IsAccepting py client
      → (rs : List Row) (ids : List String) (s : Drained C) → All (IsReadable py) rs
      → All (Uploaded ids) s.queue
      → All (Uploaded (ids_of rs ids)) (attempts py client rs s).queue
  unfolding attempts attempt
  attempts-Uploaded accepts [] ids s readable h = h
  attempts-Uploaded accepts (r ∷ rs) ids s readable h =
      let (event, loads) = readable.0 in
      attempts-Uploaded accepts rs (r.event_id ∷ ids) (attempt py client r s) readable.1 (
        settled-Uploaded r.event_id ids (py.loads r.payload_json)
          (on_event r.event_id attempting s.queue) s.files
          (record s.report { attempted = s.report.attempted + 1 })
          (deliver py client (py.loads r.payload_json) s.collector)
          (rw loads (deliver-accepted accepts event s.collector))
          (attempting-Others r.event_id ids s.queue h))

  In-ids_of :
      (id : String) (rs : List Row) (before : List String)
      → In id (ids rs) ⊎ In id before
      → In id (ids_of rs before)
  In-ids_of id [] before (inr there) = there
  In-ids_of id [] before (inl there) = absurd there
  In-ids_of id (r ∷ rs) before (inl (inl e)) = In-ids_of id rs (r.event_id ∷ before) (inr (inl e))
  In-ids_of id (r ∷ rs) before (inl (inr there)) = In-ids_of id rs (r.event_id ∷ before) (inl there)
  In-ids_of id (r ∷ rs) before (inr there) = In-ids_of id rs (r.event_id ∷ before) (inr (inr there))

  -- The rows that wait for their upload, those of an interrupted process included.
  abbrev pub waiting : List Row → List Row
  waiting rs = select (λ r. is_status pending_upload r.status) (initialize rs)

  initialize-IsReadable :
      (rs : List Row) → All (IsReadable py) rs → All (IsReadable py) (initialize rs)
  unfolding initialize
  initialize-IsReadable rs h =
      All-update (IsReadable py) (IsReadable py) (λ r. is_status in_flight r.status) _
        (λ r p hit. p) (λ r p miss. p) rs h

  chosen-IsReadable :
      (limit : ℕ) (rs : List Row)
      → All (IsReadable py) rs
      → All (IsReadable py) (pending_rows py client limit (initialize rs))
  chosen-IsReadable limit rs h = All-limited (IsReadable py) limit _ (
      All-by_time (IsReadable py) _ (
        All-weaken _ (IsReadable py) _ (λ r both. both.0)
          (All-select (IsReadable py) (λ r. is_status pending_upload r.status) (initialize rs)
            (initialize-IsReadable rs h))))

  no_ids : (rs : List Row) → All (Uploaded []) rs
  no_ids [] = tt
  no_ids (r ∷ rs) = ((λ there. absurd there), no_ids rs)

  -- if the collector accepts whatever it is sent, the payloads can be read and the limit is not below
  -- the number of waiting rows, then after drain every row whose event waited is SYNCED, or it was
  -- uploaded and only its receipt in the authoritative record failed.
  pub drain-Uploaded :
      IsAccepting py client
      → (limit : ℕ) (s : Local) (c : C) → All (IsReadable py) s.queue
      → length (waiting s.queue) ≤ limit
      → All (Uploaded (ids (waiting s.queue))) (drain py client limit s c).queue
  unfolding drain
  drain-Uploaded accepts limit s c readable enough =
      let n = length-by_time (waiting s.queue) in
      let everything = limited-all limit (by_time (waiting s.queue)) (omega arith) in
      let done =
        attempts-Uploaded accepts (pending_rows py client limit (initialize s.queue)) []
          (begun py client s c) (chosen-IsReadable limit s.queue readable)
          (no_ids (initialize s.queue)) in
      All-weaken _ (Uploaded (ids (waiting s.queue))) _
        (λ r p there. p (
          In-ids_of r.event_id (pending_rows py client limit (initialize s.queue)) []
            (inl (rw everything (In-by_time r.event_id (waiting s.queue) there)))))
        done
