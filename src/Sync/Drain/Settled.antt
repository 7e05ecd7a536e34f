-- ===== src/Sync/Drain/Settled.antt =====
-- What a run of StoreForwardQueue.drain (cnserverops/sync.py) leaves of the rows, and its report.
use cnserver_ops.Prelude.{
  String, ℕ, ◌+◌, ◌≤◌, true, false, List, [], ◌∷◌, Option, Result, ok, err, ◌==◌, ◌≡◌, refl, ◌⊎◌,
  inl, inr, arith, All, length, if◌then◌else◌,
}
use cnserver_ops.Json.{Json, Python}
use cnserver_ops.Sync.{
  Row, Local, QueueStatus, pending_upload, in_flight, synced, quarantined, is_status, initialize,
  select, by_time,
}
use cnserver_ops.Sync.Keys.{All-update, length-limited}
use cnserver_ops.Sync.Drain.{
  Client, Drained, Report, attempting, delivered, postponed, on_event, deliver, receipt, confirmed,
  settled, attempt, attempts, pending_rows, begun, drain,
}

abbrev pub IsOpen : Row → Type 0
IsOpen r = is_status in_flight r.status ≡ false

-- During the turn of `id` its rows may be in flight.
abbrev OpenBut : String → Row → Type 0
OpenBut id r = ((r.event_id == id) ≡ true) ⊎ IsOpen r

attempting-OpenBut :
    (id : String) (rs : List Row) → All IsOpen rs → All (OpenBut id) (on_event id attempting rs)
attempting-OpenBut id rs h =
    All-update IsOpen (OpenBut id) (λ r. r.event_id == id) attempting (λ r p e. inl e)
      (λ r p e. inr p) rs h

closing-IsOpen :
    (id : String) (change : Row → Row) (rs : List Row)
    → ((r : Row) → IsOpen (change r))
    → All (OpenBut id) rs
    → All IsOpen (on_event id change rs)
closing-IsOpen id change rs open_after h =
    All-update (OpenBut id) IsOpen (λ r. r.event_id == id) change (λ r p e. open_after r) other rs h
  where
    other : (r : Row) → OpenBut id r → (r.event_id == id) ≡ false → IsOpen r
    other r (inl e) f = cc
    other r (inr p) f = p

again-IsOpen :
    (id : String) (change : Row → Row) (rs : List Row)
    → ((r : Row) → IsOpen (change r))
    → All IsOpen rs
    → All IsOpen (on_event id change rs)
again-IsOpen id change rs open_after h =
    All-update IsOpen IsOpen (λ r. r.event_id == id) change (λ r p e. open_after r) (λ r p e. p) rs
      h

initialize-IsOpen : (rs : List Row) → All IsOpen (initialize rs)
unfolding initialize
initialize-IsOpen [] = tt
initialize-IsOpen (r ∷ rs) = (reopened r.status refl, initialize-IsOpen rs)
  where
    reopened :
        (s : QueueStatus)
        → r.status ≡ s
        → IsOpen (
            if is_status in_flight s
            then record r { status = pending_upload; last_error = "previous upload interrupted" }
            else r)
    reopened in_flight e = refl
    reopened pending_upload e = rw e
    reopened synced e = rw e
    reopened quarantined e = rw e

module _ {C : Type 0} (py : Python) (client : Client C) where
  confirmed-IsOpen :
      (id : String) (rs : List Row) (answer : Result String (String → Option String)) (c : C)
      (report : Report) (old : String → Option String)
      → All IsOpen rs
      → All IsOpen (confirmed py client id rs answer c report old).queue
  unfolding confirmed
  confirmed-IsOpen id rs (ok files) c report old h = h
  confirmed-IsOpen id rs (err error) c report old h = again-IsOpen id (postponed _) rs (λ r. refl) h

  settled-IsOpen :
      (id : String) (payload : Option Json) (rs : List Row) (files : String → Option String)
      (report : Report) (answer : Result String (Unit {0}) × C)
      → All (OpenBut id) rs
      → All IsOpen (settled py client id payload rs files report answer).queue
  unfolding settled
  settled-IsOpen id payload rs files report (err error, c) h =
      closing-IsOpen id (postponed _) rs (λ r. refl) h
  settled-IsOpen id payload rs files report (ok u, c) h =
      confirmed-IsOpen id _ (receipt py client payload _ files) c report files
        (closing-IsOpen id delivered rs (λ r. refl) h)

  attempts-IsOpen :
      (rs : List Row) (s : Drained C)
      → All IsOpen s.queue
      → All IsOpen (attempts py client rs s).queue
  unfolding attempts attempt
  attempts-IsOpen [] s h = h
  attempts-IsOpen (r ∷ rs) s h = attempts-IsOpen rs (attempt py client r s) (
      settled-IsOpen r.event_id (py.loads r.payload_json) (on_event r.event_id attempting s.queue)
        s.files (record s.report { attempted = s.report.attempted + 1 })
        (deliver py client (py.loads r.payload_json) s.collector)
        (attempting-OpenBut r.event_id s.queue h))

  -- after drain no row is IN_FLIGHT, whatever the collector answers and whether the receipts can be
  -- written; this is also so where an earlier process was interrupted during an upload.
  pub drain-IsOpen : (limit : ℕ) (s : Local) (c : C) → All IsOpen (drain py client limit s c).queue
  unfolding drain
  drain-IsOpen limit s c =
      attempts-IsOpen (pending_rows py client limit (initialize s.queue)) _
        (initialize-IsOpen s.queue)

  -- Every row that was tried is counted as synced or as pending.
  abbrev Balanced : Report → Type 0
  Balanced r = r.attempted ≡ r.synced + r.pending

  confirmed-Balanced :
      (id : String) (rs : List Row) (answer : Result String (String → Option String)) (c : C)
      (report : Report) (old : String → Option String)
      → report.attempted ≡ report.synced + report.pending + 1
      → Balanced (confirmed py client id rs answer c report old).report
        × ((confirmed py client id rs answer c report old).report.attempted ≡ report.attempted)
  unfolding confirmed
  confirmed-Balanced id rs (ok files) c report old h = (omega arith, refl)
  confirmed-Balanced id rs (err error) c report old h = (omega arith, refl)

  settled-Balanced :
      (id : String) (payload : Option Json) (rs : List Row) (files : String → Option String)
      (report : Report) (answer : Result String (Unit {0}) × C)
      → report.attempted ≡ report.synced + report.pending + 1
      → Balanced (settled py client id payload rs files report answer).report
        × ((settled py client id payload rs files report answer).report.attempted
            ≡ report.attempted)
  unfolding settled
  settled-Balanced id payload rs files report (err error, c) h = (omega arith, refl)
  settled-Balanced id payload rs files report (ok u, c) h =
      confirmed-Balanced id _ (receipt py client payload _ files) c report files h

  attempts-Balanced :
      (rs : List Row) (s : Drained C)
      → Balanced s.report
      → Balanced (attempts py client rs s).report
        × ((attempts py client rs s).report.attempted ≡ s.report.attempted + length rs)
  unfolding attempts attempt
  attempts-Balanced [] s h = (h, omega arith)
  attempts-Balanced (r ∷ rs) s h =
      let (one, count) =
        settled-Balanced r.event_id (py.loads r.payload_json)
          (on_event r.event_id attempting s.queue) s.files
          (record s.report { attempted = s.report.attempted + 1 })
          (deliver py client (py.loads r.payload_json) s.collector) (omega arith) in
      let (all_of, total) = attempts-Balanced rs (attempt py client r s) one in
      (all_of, omega (arith, total, count))

  -- the report of drain counts each row that it tried once, as synced or as pending, and at most
  -- `limit` rows are tried, whatever the collector answers.
  pub drain_accounts :
      (limit : ℕ) (s : Local) (c : C)
      → ((drain py client limit s c).report.attempted
          ≡ (drain py client limit s c).report.synced + (drain py client limit s c).report.pending)
        × ((drain py client limit s c).report.attempted ≤ limit)
  unfolding drain
  drain_accounts limit s c =
      let (balanced, total) =
        attempts-Balanced (pending_rows py client limit (initialize s.queue)) (begun py client s c)
          refl in
      let few =
        length-limited limit
          (by_time (select (λ r. is_status pending_upload r.status) (initialize s.queue))) in
      (balanced, omega arith)
