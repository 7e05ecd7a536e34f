-- ===== src/Delivery/Consistent.antt =====
-- One digest for each event id, and the events of the rows that are SYNCED at the collector: kept where
-- the queue (cnserverops/sync.py) is opened, updated and appended to.
use cnserver_ops.Prelude.{
  String, Bool, false, List, [], ◌∷◌, ◌++◌, map, none, some, ◌==◌, ◌≡◌, refl, sym, ap, ◌∙◌, All,
  eq_refl, Bool-cases, inl, inr, if◌then◌else◌,
}
use cnserver_ops.Json.{Json, Python, get, str_or}
use cnserver_ops.Collector.{Tables}
use cnserver_ops.Sync.{Row, initialize, find_row, update, is_status, synced, in_flight}
use cnserver_ops.Sync.Drain.Kept.{Queued, queued}
use cnserver_ops.Sync.Keys.{All-update, All-weaken}
use cnserver_ops.Delivery.Received.{IsEvent, Received, Grown, Received-Grown}

-- The rows agree in what drain keeps of them.
head_or : Queued → List Queued → Queued
head_or d [] = d
head_or d (q ∷ qs) = q

tail_of : List Queued → List Queued
tail_of [] = []
tail_of (q ∷ qs) = qs

IsEvent-queued :
    (py : Python) (digest : String → String) (r q : Row)
    → queued r ≡ queued q
    → IsEvent py digest r
    → IsEvent py digest q
IsEvent-queued py digest r q same e = record {
  event = e.event;
  payload_is = ap (λ (x : Queued). py.loads x.payload_json) (sym same) ∙ e.payload_is;
  id_is = ap (λ (x : Queued). x.event_id) (sym same) ∙ e.id_is;
  stored_is =
      ap (λ (x : Queued). x.payload_sha256) (sym same)
      ∙ e.stored_is
      ∙ ap (λ (x : Queued). digest x.event_id) same;
  digest_is = ap (λ (x : Queued). digest x.event_id) (sym same) ∙ e.digest_is;
}

pub All-queued :
    (py : Python) (digest : String → String) (rs qs : List Row)
    → map queued rs ≡ map queued qs
    → All (IsEvent py digest) rs
    → All (IsEvent py digest) qs
unfolding head_or tail_of
All-queued py digest rs [] same h = tt
All-queued py digest [] (q ∷ qs) same h = cc
All-queued py digest (r ∷ rs) (q ∷ qs) same h = (
  IsEvent-queued py digest r q (ap (head_or (queued r)) same) h.0,
  All-queued py digest rs qs (ap tail_of same) h.1,
)

-- What every state has: one digest for each event id, and the collector holds what is SYNCED.
pub record IsConsistent (py : Python) (rows : List Row) (t : Tables) : Type 0 where
  pub digest : String → String
  pub events : All (IsEvent py digest) rows
  pub received : All (Received digest t) rows

-- An update that keeps the event and does not end in SYNCED.
pub update-IsConsistent :
    (py : Python) (test : Row → Bool) (change : Row → Row) (rows : List Row) (t : Tables)
    → ((r : Row) → queued (change r) ≡ queued r)
    → ((r : Row) → is_status synced (change r).status ≡ false)
    → IsConsistent py rows t
    → IsConsistent py (update test change rows) t
update-IsConsistent py test change rows t same unsent c = record {
  digest = c.digest;
  events =
      All-update (IsEvent py c.digest) (IsEvent py c.digest) test change
        (λ r e hit. IsEvent-queued py c.digest r (change r) (sym (same r)) e) (λ r e miss. e) rows
        c.events;
  received =
      All-update (Received c.digest t) (Received c.digest t) test change
        (λ r p hit e. let u = unsent r in cc (rw e at u)) (λ r p miss. p) rows c.received;
}

pub initialize-IsConsistent :
    (py : Python) (rows : List Row) (t : Tables)
    → IsConsistent py rows t
    → IsConsistent py (initialize rows) t
unfolding initialize
initialize-IsConsistent py rows t c =
    update-IsConsistent py (λ r. is_status in_flight r.status) _ rows t (λ r. refl) (λ r. refl) c

pub Grown-IsConsistent :
    (py : Python) (rows : List Row) (t t' : Tables)
    → Grown t t'
    → IsConsistent py rows t
    → IsConsistent py rows t'
Grown-IsConsistent py rows t t' grown c = record {
  digest = c.digest;
  events = c.events;
  received = Received-Grown c.digest t t' grown rows c.received;
}

-- A new row under an id that no row has.
with_digest : String → String → (String → String) → String → String
with_digest id new digest j = if j == id then new else digest j

pub absent-apart :
    (id : String) (rows : List Row)
    → find_row id rows ≡ none
    → All (λ r. (r.event_id == id) ≡ false) rows
unfolding find_row
absent-apart id [] h = tt
absent-apart id (r ∷ rs) h = elim (Bool-cases (r.event_id == id)) [
  | inl hit ↦ cc (rw hit at h)
  | inr miss ↦ (miss, absent-apart id rs (rw miss at h))
]

All-append-one :
    (P : Row → Type 0) (rows : List Row) (row : Row)
    → All P rows
    → P row
    → All P (rows ++ (row ∷ []))
All-append-one P [] row h p = (p, tt)
All-append-one P (r ∷ rs) row h p = (h.0, All-append-one P rs row h.1 p)

pub All-both :
    (P Q : Row → Type 0) (rows : List Row) → All P rows → All Q rows → All (λ r. P r × Q r) rows
All-both P Q [] h k = tt
All-both P Q (r ∷ rs) h k = ((h.0, k.0), All-both P Q rs h.1 k.1)

with_digest-other :
    (id new : String) (digest : String → String) (r : Row)
    → (r.event_id == id) ≡ false
    → with_digest id new digest r.event_id ≡ digest r.event_id
unfolding with_digest
with_digest-other id new digest r miss = rw miss refl

with_digest-same : (id new : String) (digest : String → String) → with_digest id new digest id ≡ new
unfolding with_digest
with_digest-same id new digest = rw (eq_refl id) refl

pub append-IsConsistent :
    (py : Python) (row : Row) (event : Json) (rows : List Row) (t : Tables)
    → All (λ r. (r.event_id == row.event_id) ≡ false) rows
    → py.loads row.payload_json ≡ some event
    → row.event_id ≡ str_or py (get "event_id" event) ""
    → row.payload_sha256 ≡ py.sha256 (py.dumps event)
    → is_status synced row.status ≡ false
    → IsConsistent py rows t
    → IsConsistent py (rows ++ (row ∷ [])) t
append-IsConsistent py row event rows t apart loads id sha unsent c =
    let digest = with_digest row.event_id row.payload_sha256 c.digest in
    let new = with_digest-same row.event_id row.payload_sha256 c.digest in
    record {
      digest = digest;
      events =
          All-append-one (IsEvent py digest) rows row
            (All-weaken _ (IsEvent py digest) rows
              (λ r both.
                let other = with_digest-other row.event_id row.payload_sha256 c.digest r both.0 in
                record {
                  event = both.1.event;
                  payload_is = both.1.payload_is;
                  id_is = both.1.id_is;
                  stored_is = both.1.stored_is ∙ sym other;
                  digest_is = other ∙ both.1.digest_is;
                })
              (All-both (λ r. (r.event_id == row.event_id) ≡ false) (IsEvent py c.digest) rows apart
                c.events))
            (record {
              event = event;
              payload_is = loads;
              id_is = id;
              stored_is = sym new;
              digest_is = new ∙ sha;
            });
      received =
          All-append-one (Received digest t) rows row
            (All-weaken _ (Received digest t) rows
              (λ r both e.
                let other = with_digest-other row.event_id row.payload_sha256 c.digest r both.0 in
                let (stored, found, same) = both.1 e in (stored, found, same ∙ sym other))
              (All-both (λ r. (r.event_id == row.event_id) ≡ false) (Received c.digest t) rows apart
                c.received))
            (λ e. cc (rw e at unsent));
    }
