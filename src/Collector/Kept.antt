-- ===== src/Collector/Kept.antt =====
-- The tables of cnserverops/collector.py over the events that are ingested: rows that stay, and the
-- references from runs to servers and runners.
use cnserver_ops.Prelude.{
  String, not, Option, none, some, ◌==◌, ok, ◌≡◌, refl, inl, inr, sym, ap, ◌∙◌, eq_iff, Bool-cases,
  Option-cases, >>=-eq-ok, ok_injective, raise_if, put,
}
use cnserver_ops.Json.{Json, Python, get, json_or, is_mapping, object, end}
use cnserver_ops.Collector.{
  Event, Run, Tables, Response, Binding, text_at, run_id_of, apply_event, ingest_event,
  upsert_started, binding_of, started, check_runner, check_run, progressed, completed, inserted_run,
  kept_run, bad_mapping, bad_binding, is_unbindable,
}
use cnserver_ops.Collector.Ingest.{Accepted, again, stored, ingest_event-Accepted}

-- What the row of a run says of who made it.
pub record Origin : Type 0 where
  pub server_fingerprint_sha256 : String
  pub runner_id : String
  pub runtime_version : String
  pub boot_id : String
  pub continuation_of_run_id : String
  pub started_at_utc : String
  pub workflow_mode : String
  pub test_profile : String

abbrev pub origin : Run → Origin
origin r = record {
  server_fingerprint_sha256 = r.server_fingerprint_sha256;
  runner_id = r.runner_id;
  runtime_version = r.runtime_version;
  boot_id = r.boot_id;
  continuation_of_run_id = r.continuation_of_run_id;
  started_at_utc = r.started_at_utc;
  workflow_mode = r.workflow_mode;
  test_profile = r.test_profile;
}

-- The statements of an event that was not refused.
pub data Applied (py : Python) (now : String) (event : Json) (t u : Tables) : Type 0 where
  of_start :
      (b : Binding)
      → check_runner py now b.uuid b.storage (t.runners b.runner_id) ≡ ok tt
      → check_run py now b.fingerprint b.runner_id (t.runs (run_id_of py now event)) ≡ ok tt
      → u ≡ started py now event b t
      → Applied py now event t u
  of_change :
      (old new : Run)
      → t.runs (run_id_of py now event) ≡ some old
      → origin new ≡ origin old
      → u ≡ (record t { runs = put (run_id_of py now event) new t.runs })
      → Applied py now event t u

upsert_started-Applied :
    (py : Python) (now : String) (event : Json) (t u : Tables)
    → upsert_started py now event t ≡ ok u
    → Applied py now event t u
unfolding upsert_started
upsert_started-Applied py now event t u h =
    let (b, bound, h1) = >>=-eq-ok (binding_of py now event) _ h in
    let (x, runner, h2) =
      >>=-eq-ok (check_runner py now b.uuid b.storage (t.runners b.runner_id)) _ h1 in
    let (y, run, h3) =
      >>=-eq-ok (check_run py now b.fingerprint b.runner_id (t.runs (run_id_of py now event))) _
        h2 in
    of_start b runner run (sym (ok_injective h3))

pub apply_event-Applied :
    (py : Python) (now : String) (event_type : String) (event : Json) (t u : Tables)
    → apply_event py now event_type event t ≡ ok u
    → Applied py now event t u
unfolding apply_event progressed completed
apply_event-Applied py now event_type event t u h =
    elim (Bool-cases (event_type == "RUN_STARTED")) [
      | inl start ↦ upsert_started-Applied py now event t u (rw start at h)
      | inr other ↦
          let h1 = rw other at h in
          elim (Option-cases (t.runs (run_id_of py now event))) [
            | inl missing ↦ cc (rw missing at h1)
            | inr (old, found) ↦
                let h2 = rw found at h1 in
                elim (Bool-cases (event_type == "RUN_COMPLETED")) [
                  | inl complete ↦
                      let (x, guard, h3) =
                        >>=-eq-ok
                          (raise_if (not (is_mapping (json_or (get "result" event) (object end))))
                            bad_mapping)
                          _ (rw complete at h2) in
                      let (y, bound, h4) =
                        >>=-eq-ok
                          (raise_if (is_unbindable (get "final_disposition" (get "run" event)))
                            bad_binding)
                          _ h3 in
                      of_change old
                        (completed py now (get "run" event)
                          (json_or (get "result" event) (object end)) old)
                        found refl (sym (ok_injective h4))
                  | inr progress ↦
                      of_change old (progressed py now (get "run" event) old) found refl
                        (sym (ok_injective (rw progress at h2)))
                ]
          ]
    ]

Applied-events :
    (py : Python) (now : String) (event : Json) (t u : Tables)
    → Applied py now event t u
    → u.events ≡ t.events
unfolding started
Applied-events py now event t u (of_start b x y e) = ap (λ (v : Tables). v.events) e
Applied-events py now event t u (of_change old new x y e) = ap (λ (v : Tables). v.events) e

-- What a row of `runs` may become.
abbrev pub Keeps : Option Run → Option Run → Type 0
Keeps before after =
    (old : Run) → before ≡ some old → (new : Run) × (after ≡ some new) × (origin new ≡ origin old)

kept-put :
    (key id : String) (new : Run) (runs : String → Option Run)
    → Keeps (runs key) (some new)
    → Keeps (runs id) (put key new runs id)
kept-put key id new runs keep old h = elim (Bool-cases (key == id)) [
  | inl hit ↦
      let e = (eq_iff key id).0 hit in
      let (n, after, same) = keep old (ap runs e ∙ h) in (n, rw hit after, same)
  | inr miss ↦ (old, rw miss h, refl)
]

abbrev run_origin : Run → Option Run → Origin
run_origin d none = origin d
run_origin d (some x) = origin x

kept_run-Keeps : (o : Option Run) (new : Run) → Keeps o (some (kept_run o new))
kept_run-Keeps none new old h = cc
kept_run-Keeps (some r) new old h = (r, refl, ap (run_origin r) h)

Applied-Keeps :
    (py : Python) (now : String) (event : Json) (t u : Tables)
    → Applied py now event t u
    → (id : String) → Keeps (t.runs id) (u.runs id)
unfolding started
Applied-Keeps py now event t u (of_start b x y e) id = rw e (
    kept-put (run_id_of py now event) id
      (kept_run (t.runs (run_id_of py now event))
        (inserted_run py now b.fingerprint b.runner_id (get "run" event)))
      t.runs
      (kept_run-Keeps (t.runs (run_id_of py now event))
        (inserted_run py now b.fingerprint b.runner_id (get "run" event))))
Applied-Keeps py now event t u (of_change old new found same e) id = rw e (
    kept-put (run_id_of py now event) id new t.runs
      (λ o h. (new, refl, same ∙ ap (run_origin old) (sym found ∙ h))))

put-new :
    (key id : String) (new row : Event) (events : String → Option Event)
    → events key ≡ none
    → events id ≡ some row
    → put key new events id ≡ some row
put-new key id new row events free h = elim (Bool-cases (key == id)) [
  | inl hit ↦ let e = (eq_iff key id).0 hit in cc (ap events e)
  | inr miss ↦ rw miss h
]

Accepted-events :
    (py : Python) (now : String) (event : Json) (t t' : Tables)
    → Accepted py now event t t'
    → (id : String) (row : Event) → t.events id ≡ some row
    → t'.events id ≡ some row
Accepted-events py now event t t' (again old found same e) id row h = rw e h
Accepted-events py now event t t' (stored u free applied e) id row h =
    let same =
      Applied-events py now event t u
        (apply_event-Applied py now (text_at py now "event_type" event "") event t u applied) in
    rw (e, same) (put-new (text_at py now "event_id" event "") id _ row t.events free h)

Accepted-Keeps :
    (py : Python) (now : String) (event : Json) (t t' : Tables)
    → Accepted py now event t t'
    → (id : String) → Keeps (t.runs id) (t'.runs id)
Accepted-Keeps py now event t t' (again old found same e) id = λ r h. (r, rw e h, refl)
Accepted-Keeps py now event t t' (stored u free applied e) id = rw e (
    Applied-Keeps py now event t u
      (apply_event-Applied py now (text_at py now "event_type" event "") event t u applied) id)

-- no accepted event changes a row of `events`, and the row of a run keeps its server, its runner and
-- what else its start said; so a run never moves to another server or runner.
pub ingest_event-Keeps :
    (py : Python) (now : String) (event : Json) (t t' : Tables) {response : Response}
    → ingest_event py now event t ≡ ok (response, t')
    → ((id : String) (row : Event) → t.events id ≡ some row → t'.events id ≡ some row)
      × ((id : String) → Keeps (t.runs id) (t'.runs id))
ingest_event-Keeps py now event t t' h =
    let accepted = (ingest_event-Accepted py now event t t' h).1 in
    (Accepted-events py now event t t' accepted, Accepted-Keeps py now event t t' accepted)
