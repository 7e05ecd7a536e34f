-- ===== src/Sync/Drain/Sent.antt =====
-- Which events StoreForwardQueue.drain (cnserverops/sync.py) sends to its client.
use cnserver_ops.Prelude.{
  String, ℕ, ◌+◌, true, false, List, [], ◌∷◌, ◌++◌, Option, some, Result, ok, err, ◌==◌, ◌≡◌, refl,
  ap, ◌∙◌, ◌⊎◌, inl, inr, All, Option-cases, Result-cases, Bool-cases,
}
use cnserver_ops.Json.{Json, Python}
use cnserver_ops.Sync.{
  Row, Local, QueueStatus, pending_upload, in_flight, synced, quarantined, is_status, find_row,
  initialize,
}
use cnserver_ops.Sync.Keys.{All-select, All-weaken, All-by_time, All-limited}
use cnserver_ops.Sync.Drain.{
  Client, Drained, Report, attempting, delivered, on_event, deliver, receipt, confirmed, settled,
  attempt, attempts, pending_rows, begun, drain,
}
use cnserver_ops.Sync.Drain.Kept.{IsFinal, final-pending, initialize-IsFinal, drain-final}

-- A client whose events are noted, the last one first.
abbrev pub noting : {C : Type 0} → Client C → Client (C × List Json)
noting client event (c, log) = let (answer, c') = client event c in (answer, (c', event ∷ log))

-- A row with this event and payload is there, and waits or was interrupted.
abbrev pub Waits : String → String → List Row → Type 0
Waits id payload [] = ⊥
Waits id payload (r ∷ rs) =
    ((r.event_id ≡ id)
      × (r.payload_json ≡ payload)
      × ((r.status ≡ pending_upload) ⊎ (r.status ≡ in_flight)))
    ⊎ Waits id payload rs

-- An event that is the payload of a row that waits, which is not one of `key`.
abbrev pub IsSent : Python → String → List Row → Json → Type 0
IsSent py key rows event =
    (id payload : String) × Waits id payload rows
    × ((id == key) ≡ false)
    × (py.loads payload ≡ some event)

abbrev WaitsIn : List Row → Row → Type 0
WaitsIn rows r = is_status pending_upload r.status ≡ true → Waits r.event_id r.payload_json rows

pending-status : (s : QueueStatus) → is_status pending_upload s ≡ true → s ≡ pending_upload
pending-status pending_upload h = refl
pending-status in_flight h = cc
pending-status synced h = cc
pending-status quarantined h = cc

stuck-status : (s : QueueStatus) → is_status in_flight s ≡ true → s ≡ in_flight
stuck-status in_flight h = refl
stuck-status pending_upload h = cc
stuck-status synced h = cc
stuck-status quarantined h = cc

initialize-WaitsIn : (rs : List Row) → All (WaitsIn rs) (initialize rs)
unfolding initialize
initialize-WaitsIn [] = tt
initialize-WaitsIn (r ∷ rs) =
    let rest =
      All-weaken (WaitsIn rs) (WaitsIn (r ∷ rs)) (initialize rs) (λ q w e. inr (w e))
        (initialize-WaitsIn rs) in
    elim (Bool-cases (is_status in_flight r.status)) [
      | inl stuck ↦ rw stuck (λ e. inl (refl, refl, inr (stuck-status r.status stuck)), rest)
      | inr moved ↦ rw moved (λ e. inl (refl, refl, inl (pending-status r.status e)), rest)
    ]

module _ {C : Type 0} (py : Python) (client : Client C) where
  abbrev noted : Client (C × List Json)
  noted = noting client

  confirmed-collector :
      (id : String) (rs : List Row) (answer : Result String (String → Option String))
      (c : C × List Json) (report : Report) (old : String → Option String)
      → (confirmed py noted id rs answer c report old).collector ≡ c
  unfolding confirmed
  confirmed-collector id rs (ok files) c report old = refl
  confirmed-collector id rs (err error) c report old = refl

  settled-collector :
      (id : String) (payload : Option Json) (rs : List Row) (files : String → Option String)
      (report : Report) (answer : Result String (Unit {0}) × (C × List Json))
      → (settled py noted id payload rs files report answer).collector ≡ answer.1
  unfolding settled
  settled-collector id payload rs files report (err error, c) = refl
  settled-collector id payload rs files report (ok u, c) =
      confirmed-collector id (on_event id delivered rs)
        (receipt py noted payload (on_event id delivered rs) files) c report files

  deliver-noted :
      (event : Json) (c : C × List Json) → (deliver py noted (some event) c).1.1 ≡ event ∷ c.1
  unfolding deliver
  deliver-noted event (c, log) = elim (Result-cases (client event c).0) [
    | inl (response, e) ↦ rw e refl
    | inr (raised, e) ↦ rw e refl
  ]

  attempt-noted :
      (r : Row) (s : Drained (C × List Json))
      → (attempt py noted r s).collector
        ≡ (deliver py noted (py.loads r.payload_json) s.collector).1
  unfolding attempt
  attempt-noted r s =
      settled-collector r.event_id (py.loads r.payload_json)
        (on_event r.event_id attempting s.queue) s.files
        (record s.report { attempted = s.report.attempted + 1 })
        (deliver py noted (py.loads r.payload_json) s.collector)

  -- The rows of a drain that may be sent.
  abbrev IsChosen : String → List Row → Row → Type 0
  IsChosen key rows r = Waits r.event_id r.payload_json rows × ((r.event_id == key) ≡ false)

  -- The log grew by events that may be sent.
  abbrev Grew : String → List Row → List Json → List Json → Type 0
  Grew key rows log log' = (sent : List Json) × (log' ≡ sent ++ log) × All (IsSent py key rows) sent

  attempt-Grew :
      (key : String) (rows : List Row) (r : Row) (s : Drained (C × List Json))
      → IsChosen key rows r
      → (attempt py noted r s).collector.1 ≡ s.collector.1
        ⊎ ((event : Json) × IsSent py key rows event
            × ((attempt py noted r s).collector.1 ≡ event ∷ s.collector.1))
  attempt-Grew key rows r s chosen = elim (Option-cases (py.loads r.payload_json)) [
    | inl e ↦ inl (ap (λ c. c.1) (attempt-noted r s) ∙ rw e (unfold deliver in refl))
    | inr (event, e) ↦ inr (
      event,
      (r.event_id, r.payload_json, chosen.0, chosen.1, e),
      ap (λ c. c.1) (attempt-noted r s) ∙ rw e (deliver-noted event s.collector),
    )
  ]

  grown_once :
      (key : String) (rows : List Row) (event : Json) (log log' log'' : List Json)
      → IsSent py key rows event
      → log' ≡ event ∷ log
      → Grew key rows log' log''
      → Grew key rows log log''
  grown_once key rows event log log' log'' is_sent e (sent, f, all_sent) = (
    sent ++ (event ∷ []),
    f ∙ ap (λ l. sent ++ l) e ∙ append_last sent event log,
    all_last sent event all_sent is_sent,
  )
    where
      append_last :
          (xs : List Json) (x : Json) (ys : List Json) → xs ++ (x ∷ ys) ≡ (xs ++ (x ∷ [])) ++ ys
      append_last [] x ys = refl
      append_last (z ∷ xs) x ys = rw (append_last xs x ys)

      all_last :
          (xs : List Json) (x : Json)
          → All (IsSent py key rows) xs
          → IsSent py key rows x
          → All (IsSent py key rows) (xs ++ (x ∷ []))
      all_last [] x h p = (p, tt)
      all_last (z ∷ xs) x h p = (h.0, all_last xs x h.1 p)

  attempts-Grew :
      (key : String) (rows rs : List Row) (s : Drained (C × List Json))
      → All (IsChosen key rows) rs
      → Grew key rows s.collector.1 (attempts py noted rs s).collector.1
  unfolding attempts
  attempts-Grew key rows [] s h = ([], refl, tt)
  attempts-Grew key rows (r ∷ rs) s h =
      let later = attempts-Grew key rows rs (attempt py noted r s) h.1 in
      elim (attempt-Grew key rows r s h.0) [
        | inl same ↦ (later.0, later.1 ∙ ap (λ l. later.0 ++ l) same, later.2)
        | inr (event, is_sent, e) ↦
            grown_once key rows event s.collector.1 (attempt py noted r s).collector.1
              (attempts py noted rs (attempt py noted r s)).collector.1 is_sent e later
      ]

  both_All : (P Q : Row → Type 0) (rs : List Row) → All P rs → All Q rs → All (λ r. P r × Q r) rs
  both_All P Q [] h k = tt
  both_All P Q (r ∷ rs) h k = ((h.0, k.0), both_All P Q rs h.1 k.1)

  pending_rows-IsChosen :
      (key : String) (limit : ℕ) (rows : List Row)
      → All (IsFinal key) rows
      → All (IsChosen key rows) (pending_rows py noted limit (initialize rows))
  pending_rows-IsChosen key limit rows h = All-limited (IsChosen key rows) limit _ (
      All-by_time (IsChosen key rows) _ (
        All-weaken _ (IsChosen key rows) _
          (λ r both. (both.0.0 both.1, final-pending key r both.0.1 both.1))
          (All-select (λ r. WaitsIn rows r × IsFinal key r) (λ r. is_status pending_upload r.status)
            (initialize rows)
            (both_All (WaitsIn rows) (IsFinal key) (initialize rows) (initialize-WaitsIn rows)
              (initialize-IsFinal key rows h)))))

  -- where every row of this event id is SYNCED or QUARANTINED, drain leaves the row that is found under
  -- the id as it is; and each event that it sends to its client, as a client that notes them shows, is
  -- the payload of a row with another id that was waiting for its upload or interrupted in it.
  pub drain-untouched :
      (key : String) (limit : ℕ) (s : Local) (c : C) (log : List Json)
      → All (IsFinal key) s.queue
      → (find_row key (drain py client limit s c).queue ≡ find_row key s.queue)
        × (sent : List Json) × ((drain py (noting client) limit s (c, log)).collector.1
            ≡ sent ++ log)
        × All (IsSent py key s.queue) sent
  unfolding drain
  drain-untouched key limit s c log h =
      let (sent, grew, all_sent) =
        attempts-Grew key s.queue (pending_rows py noted limit (initialize s.queue))
          (begun py noted s (c, log)) (pending_rows-IsChosen key limit s.queue h) in
      (drain-final py client key limit s c h, sent, grew, all_sent)
