-- ===== src/Sync/Once.antt =====
-- StoreForwardQueue.enqueue of cnserverops/sync.py, called again.
use cnserver_ops.Prelude.{
  String, false, not, List, [], ◌∷◌, ◌++◌, Option, none, some, Result, ok, err, ◌==◌, ◌≡◌, refl,
  inl, inr, if◌then◌else◌, ◌∙◌, eq_iff, eq_refl, Bool-cases, sym, ap, Option-cases, >>=-eq-ok,
  ok_injective, raise_if,
}
use cnserver_ops.Json.{Json, Python, get, str_or}
use cnserver_ops.Sync.{
  Row, Local, Paths, Receipt, SyncQueueError, initialize, find_row, enqueue, checked_record,
  insert_once, is_incomplete, new_row, different_content, is_status, in_flight,
}

-- The digest that is stored for an event.
digest_at : String → List Row → Option String
digest_at id [] = none
digest_at id (r ∷ rs) =
    let rest = digest_at id rs in if r.event_id == id then some r.payload_sha256 else rest

digest_at-initialize :
    (id : String) (rs : List Row) → digest_at id (initialize rs) ≡ digest_at id rs
unfolding digest_at initialize
digest_at-initialize id [] = refl
digest_at-initialize id (r ∷ rs) =
    let rest = digest_at-initialize id rs in
    elim (Bool-cases (is_status in_flight r.status)) [
      | inl stuck ↦ rw (stuck, rest)
      | inr moved ↦ rw (moved, rest)
    ]

digest_at-find_row :
    (id : String) (rs : List Row) (r : Row)
    → find_row id rs ≡ some r
    → digest_at id rs ≡ some r.payload_sha256
unfolding digest_at find_row
digest_at-find_row id [] r h = cc
digest_at-find_row id (p ∷ ps) r h = elim (Bool-cases (p.event_id == id)) [
  | inl hit ↦ let e = rw hit at h in rw hit (ap some (ap (λ x. get_digest x) e))
  | inr miss ↦ let e = rw miss at h in rw (miss, digest_at-find_row id ps r e)
]
  where
    get_digest : Option Row → String
    get_digest none = ""
    get_digest (some q) = q.payload_sha256

digest_at-missing : (id : String) (rs : List Row) → find_row id rs ≡ none → digest_at id rs ≡ none
unfolding digest_at find_row
digest_at-missing id [] h = refl
digest_at-missing id (p ∷ ps) h = elim (Bool-cases (p.event_id == id)) [
  | inl hit ↦ cc (rw hit at h)
  | inr miss ↦ let e = rw miss at h in rw (miss, digest_at-missing id ps e)
]

digest_at-append :
    (row : Row) (rs : List Row)
    → digest_at row.event_id rs ≡ none
    → digest_at row.event_id (rs ++ (row ∷ [])) ≡ some row.payload_sha256
unfolding digest_at
digest_at-append row [] h = rw (eq_refl row.event_id)
digest_at-append row (p ∷ ps) h = elim (Bool-cases (p.event_id == row.event_id)) [
  | inl hit ↦ cc (rw hit at h)
  | inr miss ↦ let e = rw miss at h in rw (miss, digest_at-append row ps e)
]

abbrev text_of : Option String → String
text_of none = ""
text_of (some s) = s

answer_of : Row → List Row → String → Result SyncQueueError (Receipt × List Row)
answer_of row rows digest =
    if not (digest == row.payload_sha256)
    then err different_content
    else ok (record { status = "ALREADY_QUEUED"; event_id = row.event_id }, rows)

-- An entry of the table decides what enqueue answers.
insert_once-known :
    (row : Row) (rows : List Row) (digest : String)
    → digest_at row.event_id rows ≡ some digest
    → insert_once row rows ≡ answer_of row rows digest
unfolding insert_once answer_of
insert_once-known row rows digest h = elim (Option-cases (find_row row.event_id rows)) [
  | inl missing ↦ cc (digest_at-missing row.event_id rows missing)
  | inr (r, found) ↦
      let e = digest_at-find_row row.event_id rows r found in
      let same : r.payload_sha256 ≡ digest = ap text_of (sym e ∙ h) in rw (found, same)
]

insert_once-digest :
    (row : Row) (rows : List Row) {receipt : Receipt} {rows' : List Row}
    → insert_once row rows ≡ ok (receipt, rows')
    → digest_at row.event_id rows' ≡ some row.payload_sha256
unfolding insert_once
insert_once-digest row rows {rows'} h = elim (Option-cases (find_row row.event_id rows)) [
  | inl missing ↦
      let e : rows ++ (row ∷ []) ≡ rows' = ap (λ p. p.1) (ok_injective (rw missing at h)) in
      rw (← e) (digest_at-append row rows (digest_at-missing row.event_id rows missing))
  | inr (r, found) ↦
      let stored = rw found at h in
      elim (Bool-cases (r.payload_sha256 == row.payload_sha256)) [
        | inl same ↦
            let e : rows ≡ rows' = ap (λ p. p.1) (ok_injective (rw same at stored)) in
            rw (← e) (
              digest_at-find_row row.event_id rows r found
              ∙ ap some ((eq_iff r.payload_sha256 row.payload_sha256).0 same))
        | inr differ ↦ cc (rw differ at stored)
      ]
]

-- once an event was queued, a complete event with the same id, its record in place, is not queued
-- again: with the same content the answer is ALREADY_QUEUED and the table is the one that `initialize`
-- leaves, and with a different digest the call raises.
pub enqueue-again :
    (py : Python) (paths : Paths) (now later : String) (event other : Json) (path path' : String)
    (s : Local) {receipt : Receipt} {rows : List Row} {found : String × String}
    → enqueue py paths now event path s ≡ ok (receipt, rows)
    → checked_record paths s.files path' ≡ ok found
    → is_incomplete py other ≡ false
    → str_or py (get "event_id" other) "" ≡ str_or py (get "event_id" event) ""
    → enqueue py paths later other path' (record s { queue = rows }) ≡ (
        if not (py.sha256 (py.dumps event) == py.sha256 (py.dumps other))
        then err different_content
        else ok (
          record { status = "ALREADY_QUEUED"; event_id = str_or py (get "event_id" other) "" },
          initialize rows,
        ))
unfolding enqueue new_row answer_of
enqueue-again py paths now later event other path path' s {rows} {found} h there complete same =
    let (f, checked, h1) = >>=-eq-ok (checked_record paths s.files path) _ h in
    let (u, guarded, h2) = >>=-eq-ok (raise_if (is_incomplete py event) _) _ h1 in
    let known = insert_once-digest (new_row py now event f) (initialize s.queue) h2 in
    let listed =
      ap (λ id. digest_at id (initialize rows)) same
      ∙ digest_at-initialize (str_or py (get "event_id" event) "") rows
      ∙ known in
    rw (there, complete)
      (insert_once-known (new_row py later other found) (initialize rows) _ listed)
