-- ===== src/Sync.antt =====
-- cnserverops/sync.py: the store-and-forward queue. The table `queue` is the list of its rows in the
-- order of their insertion; its column `updated_at_utc`, which no statement reads, is left out.
mod Rows
pub mod Drain
pub mod Keys
pub mod Once
mod Tests
use Prim.Native.Char.{Char, code}
use cnserver_ops.Prelude.{
  String, ℕ, suc, ◌+◌, Bool, true, false, not, ◌||◌, ◌&&◌, List, [], ◌∷◌, ◌++◌, map, Option, none,
  some, ◌==◌, ◌<>◌, truthy, Result, ok, err, ◌>>=◌, ◌>>◌, raise_if, if◌then◌else◌, put, or_text,
  eqb, leb, is_empty,
}
use cnserver_ops.Text.{upper, strip, is_upper_code, is_digit_code}
use cnserver_ops.Json.{
  Json, Python, string, str, str_or, get, set, is_mapping, is_truthy, subscript,
}
pub use Rows.{QueueStatus, pending_upload, in_flight, synced, quarantined, is_status, update}
pub use Rows.{SyncQueueError, no_record, incomplete_event, different_content, bad_reason, no_event}
pub use Rows.{record_mismatch, Row}
unfoldable pub use Rows.{status_text, find_row, select, insert_row, by_time, limited}

-- What the operating system says of a path: `resolve(strict=True)` where it does not raise,
-- `is_symlink`, and `is_file` of what it resolves to.
pub record Paths : Type 0 where
  pub resolve : String → Option String
  pub is_symlink : String → Bool
  pub is_file : String → Bool

-- The table and the texts of the files.
pub record Local : Type 0 where
  pub queue : List Row
  pub files : String → Option String

-- The update at the end of `initialize`.
abbrev interrupted : Row → Row
interrupted r = record r { status = pending_upload; last_error = "previous upload interrupted" }

unfoldable pub initialize : List Row → List Row
initialize rows = update (λ r. is_status in_flight r.status) interrupted rows

unfoldable pub checked_record :
    Paths → (String → Option String) → String → Result SyncQueueError (String × String)
checked_record paths files record_path = resolved (paths.resolve record_path)
  where
    content : String → Option String → Result SyncQueueError (String × String)
    content path none = err no_record
    content path (some text) = ok (path, text)

    resolved : Option String → Result SyncQueueError (String × String)
    resolved none = err no_record
    resolved (some path) =
        if paths.is_symlink record_path || not (paths.is_file path)
        then err no_record
        else content path (files path)

pub record Receipt : Type 0 where
  pub status : String
  pub event_id : String

unfoldable pub new_row : Python → String → Json → (String × String) → Row
unfolding str_or get str
new_row py now event (path, text) = record {
  event_id = str_or py (get "event_id" event) "";
  run_id = str py (get "run_id" (get "run" event));
  event_type = str_or py (get "event_type" event) "";
  payload_json = py.dumps event;
  payload_sha256 = py.sha256 (py.dumps event);
  authoritative_record = path;
  authoritative_sha256 = py.sha256 text;
  status = pending_upload;
  attempts = 0;
  last_error = "";
  created_at_utc = now;
}

-- The transaction of `enqueue`.
unfoldable pub insert_once : Row → List Row → Result SyncQueueError (Receipt × List Row)
unfolding find_row
insert_once row rows = stored (find_row row.event_id rows)
  where
    stored : Option Row → Result SyncQueueError (Receipt × List Row)
    stored (some r) =
        if not (r.payload_sha256 == row.payload_sha256)
        then err different_content
        else ok (record { status = "ALREADY_QUEUED"; event_id = row.event_id }, rows)
    stored none =
        ok (record { status = "PENDING_UPLOAD"; event_id = row.event_id }, rows ++ (row ∷ []))

unfoldable pub is_incomplete : Python → Json → Bool
unfolding str_or get
is_incomplete py event =
    not (truthy (str_or py (get "event_id" event) ""))
    || not (truthy (str_or py (get "event_type" event) ""))
    || not (is_mapping (get "run" event))
    || not (is_truthy (get "run_id" (get "run" event)))

-- What enqueue raises leaves the table as `initialize` made it.
unfoldable pub enqueue :
    Python → Paths → String → Json → String → Local → Result SyncQueueError (Receipt × List Row)
unfolding initialize checked_record insert_once is_incomplete new_row
enqueue py paths now event record_path s = do
  record_file ← checked_record paths s.files record_path
  raise_if (is_incomplete py event) incomplete_event
  insert_once (new_row py now event record_file) (initialize s.queue)

-- `normalized.replace("_", "").isalnum()`, over ASCII: some letter or digit, and no other character.
is_alnum_code : ℕ → Bool
is_alnum_code n = is_upper_code n || is_digit_code n

unfoldable pub machine_readable : Bool → String → Bool
unfolding is_alnum_code
machine_readable seen String.[] = seen
machine_readable seen (String.◌∷◌ c s) =
    if eqb (code c) b'_'
    then machine_readable seen s
    else is_alnum_code (code c) && machine_readable true s

abbrev retained : String → Row → Row
retained reason r = record r { status = quarantined; last_error = reason }

unfoldable pub quarantine : String → String → List Row → Result SyncQueueError (String × List Row)
unfolding initialize machine_readable upper strip find_row
quarantine event_id reason_code rows =
    let normalized = upper (strip reason_code) in
    raise_if (not (truthy normalized) || not (machine_readable false normalized)) bad_reason
    >> present normalized (find_row event_id (initialize rows))
  where
    present : String → Option Row → Result SyncQueueError (String × List Row)
    present reason none = err no_event
    present reason (some r) =
        ok (r.run_id, update (λ q. q.event_id == event_id) (retained reason) (initialize rows))

abbrev every : (QueueStatus → Bool) → List Row → Bool
every test [] = true
every test (r ∷ rs) = test r.status && every test rs

abbrev is_settled : QueueStatus → Bool
is_settled s = is_status synced s || is_status quarantined s

unfoldable pub status_for_run : String → List Row → String
unfolding initialize select
status_for_run run_id rows =
    let mine = select (λ r. r.run_id == run_id) (initialize rows) in
    if is_empty mine
    then "NOT_QUEUED"
    else if every (is_status synced) mine
    then "SYNCED"
    else if every is_settled mine
    then "SYNCED_WITH_QUARANTINED"
    else "PENDING_UPLOAD"

count_status : QueueStatus → List Row → ℕ
count_status s [] = 0
count_status s (r ∷ rs) =
    let rest = count_status s rs in if is_status s r.status then suc rest else rest

-- The count of a status, 0 where the source's dict has no entry for it.
unfoldable pub counts : List Row → QueueStatus → ℕ
unfolding initialize count_status
counts rows s = count_status s (initialize rows)

last_record : List Row → Option String
last_record [] = none
last_record (r ∷ []) = some r.authoritative_record
last_record (r ∷ q ∷ qs) = last_record (q ∷ qs)

is_text : String → Json → Bool
is_text s (string t) = s == t
is_text s _ = false

-- The run object that `_mark_authoritative_synced` writes in, and the payload with it.
mark_payload : Python → Json → Json → Option Json
unfolding str_or get set is_text
mark_payload py run_id payload =
    if is_mapping (get "run" payload)
    then checked (get "run" payload) (set "run" (marked (get "run" payload)) payload)
    else checked payload (marked payload)
  where
    marked : Json → Json
    marked run = set "central_sync_status" (string "SYNCED") run

    checked : Json → Json → Option Json
    checked run written =
        if not (is_mapping run) || not (is_text (str_or py (get "run_id" run) "") run_id)
        then none
        else some written

-- The error texts of what may be raised before the check of the source: no such file, or no JSON.
unfoldable pub mark_authoritative_synced :
    Python → Json → List Row → (String → Option String) → Result String (String → Option String)
unfolding select by_time last_record mark_payload str
mark_authoritative_synced py run_id rows files =
    let mine = by_time (select (λ r. r.run_id == str py run_id) rows) in
    if is_empty mine || not (every (is_status synced) mine)
    then ok files
    else at_path (last_record mine)
  where
    write : String → Option Json → Result String (String → Option String)
    write path none = err "SyncQueueError: Authoritative run record does not match queued RUN_ID"
    write path (some payload) = ok (put path (py.dumps_indented payload <> "\n") files)

    parse : String → Option Json → Result String (String → Option String)
    parse path none = err "JSONDecodeError"
    parse path (some payload) = write path (mark_payload py run_id payload)

    read : String → Option String → Result String (String → Option String)
    read path none = err "OSError"
    read path (some text) = parse path (py.loads text)

    at_path : Option String → Result String (String → Option String)
    at_path none = ok files
    at_path (some path) = read path (files path)
