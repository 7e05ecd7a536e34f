-- ===== src/Sync/Rows.antt =====
-- The rows of the table `queue` of cnserverops/sync.py, and the statements that select and update them.
use Prim.Native.String.{compare}
use text.Mathlib.Text.{is_lt}
use cnserver_ops.Prelude.{
  String, ℕ, zero, suc, Bool, true, false, List, [], ◌∷◌, map, Option, none, some, ◌==◌,
  if◌then◌else◌,
}

pub data QueueStatus : Type 0 where
  pending_upload in_flight synced quarantined : QueueStatus

-- The text in the column `status`.
unfoldable pub status_text : QueueStatus → String
status_text pending_upload = "PENDING_UPLOAD"
status_text in_flight = "IN_FLIGHT"
status_text synced = "SYNCED"
status_text quarantined = "QUARANTINED"

-- `status='…'`.
abbrev pub is_status : QueueStatus → QueueStatus → Bool
is_status pending_upload pending_upload = true
is_status in_flight in_flight = true
is_status synced synced = true
is_status quarantined quarantined = true
is_status _ _ = false

pub record Row : Type 0 where
  pub event_id : String
  pub run_id : String
  pub event_type : String
  pub payload_json : String
  pub payload_sha256 : String
  pub authoritative_record : String
  pub authoritative_sha256 : String
  pub status : QueueStatus
  pub attempts : ℕ
  pub last_error : String
  pub created_at_utc : String

pub data SyncQueueError : Type 0 where
  no_record incomplete_event different_content bad_reason no_event record_mismatch : SyncQueueError

-- `WHERE event_id=?`.
unfoldable pub find_row : String → List Row → Option Row
find_row id [] = none
find_row id (r ∷ rs) = let rest = find_row id rs in if r.event_id == id then some r else rest

unfoldable pub select : (Row → Bool) → List Row → List Row
select test [] = []
select test (r ∷ rs) = let rest = select test rs in if test r then r ∷ rest else rest

-- `UPDATE queue SET … WHERE …`.
abbrev pub update : (Row → Bool) → (Row → Row) → List Row → List Row
update test change rs = map (λ r. if test r then change r else r) rs

unfoldable pub insert_row : Row → List Row → List Row
insert_row r [] = r ∷ []
insert_row r (q ∷ qs) =
    let rest = insert_row r qs in
    if is_lt (compare q.created_at_utc r.created_at_utc) then q ∷ rest else r ∷ q ∷ qs

-- `ORDER BY created_at_utc`, rows of the same time in the order of their insertion.
unfoldable pub by_time : List Row → List Row
unfolding insert_row
by_time [] = []
by_time (r ∷ rs) = insert_row r (by_time rs)

-- `LIMIT ?`.
unfoldable pub limited : ℕ → List Row → List Row
limited zero rs = []
limited (suc n) [] = []
limited (suc n) (r ∷ rs) = r ∷ limited n rs
