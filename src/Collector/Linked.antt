-- ===== src/Collector/Linked.antt =====
-- The references from the runs to the servers and the runners in cnserverops/collector.py.
use cnserver_ops.Prelude.{
  String, Option, none, some, ◌==◌, ok, ◌≡◌, inl, inr, ap, ◌∙◌, eq_refl, Bool-cases, Option-cases,
  put,
}
use cnserver_ops.Json.{Json, Python}
use cnserver_ops.Collector.{
  Run, Tables, Response, Binding, text_at, run_id_of, ingest_event, started, inserted_run,
}
use cnserver_ops.Collector.Ingest.{again, stored, ingest_event-Accepted}
use cnserver_ops.Collector.Kept.{Applied, of_start, of_change, apply_event-Applied, Origin}

abbrev pub Has {ℓ} : {A : Type ℓ} → (String → Option A) → String → Type ℓ
Has {A} f k = (a : A) × (f k ≡ some a)

Has-put {ℓ} :
    {A : Type ℓ} (k j : String) (v : A) (f : String → Option A) → Has f j → Has (put k v f) j
Has-put k j v f (a, h) = elim (Bool-cases (k == j)) [
  | inl hit ↦ (v, rw hit)
  | inr miss ↦ (a, rw miss h)
]

Has-new {ℓ} : {A : Type ℓ} (k : String) (v : A) (f : String → Option A) → Has (put k v f) k
Has-new k v f = (v, rw (eq_refl k))

-- The row of a run names a server and a runner that are there.
abbrev pub Linked : Tables → String → String → Type 0
Linked t fingerprint runner_id = Has t.servers fingerprint × Has t.runners runner_id

abbrev pub IsLinked : Tables → Type 0
IsLinked t =
    (id : String) (run : Run)
    → t.runs id ≡ some run
    → Linked t run.server_fingerprint_sha256 run.runner_id

abbrev run_of : Run → Option Run → Run
run_of d none = d
run_of d (some r) = r

started-Linked :
    (py : Python) (now : String) (event : Json) (b : Binding) (t : Tables) (f r : String)
    → Linked t f r
    → Linked (started py now event b t) f r
unfolding started
started-Linked py now event b t f r (server, runner) =
    (Has-put b.fingerprint f _ t.servers server, Has-put b.runner_id r _ t.runners runner)

started-IsLinked :
    (py : Python) (now : String) (event : Json) (b : Binding) (t : Tables)
    → IsLinked t
    → IsLinked (started py now event b t)
unfolding started inserted_run
started-IsLinked py now event b t linked id run h =
    elim (Bool-cases (run_id_of py now event == id)) [
      | inr miss ↦
          started-Linked py now event b t run.server_fingerprint_sha256 run.runner_id
            (linked id run (rw miss at h))
      | inl hit ↦
          let h1 = rw hit at h in
          elim (Option-cases (t.runs (run_id_of py now event))) [
            | inl free ↦
                let h2 = ap (run_of run) (rw free at h1) in
                rw (← h2) (Has-new b.fingerprint _ t.servers, Has-new b.runner_id _ t.runners)
            | inr (old, found) ↦
                let h2 = ap (run_of run) (rw found at h1) in
                started-Linked py now event b t run.server_fingerprint_sha256 run.runner_id
                  (linked (run_id_of py now event) run (found ∙ ap some h2))
          ]
    ]

Applied-IsLinked :
    (py : Python) (now : String) (event : Json) (t u : Tables)
    → Applied py now event t u
    → IsLinked t
    → IsLinked u
Applied-IsLinked py now event t u (of_start b x y e) linked =
    rw e (started-IsLinked py now event b t linked)
Applied-IsLinked py now event t u (of_change old new found same e) linked = rw e changed
  where
    changed : IsLinked (record t { runs = put (run_id_of py now event) new t.runs })
    changed id run h = elim (Bool-cases (run_id_of py now event == id)) [
      | inr miss ↦ linked id run (rw miss at h)
      | inl hit ↦
          let is_new : new ≡ run = ap (run_of run) (rw hit at h) in
          let fingerprint = ap (λ (o : Origin). o.server_fingerprint_sha256) same in
          let runner = ap (λ (o : Origin). o.runner_id) same in
          rw (← is_new, fingerprint, runner) (linked (run_id_of py now event) old found)
    ]

-- ingesting an event keeps the references of the database: while every run names a server and a
-- runner that are there, so it is after each accepted event.
pub ingest_event-IsLinked :
    (py : Python) (now : String) (event : Json) (t t' : Tables) {response : Response}
    → ingest_event py now event t ≡ ok (response, t')
    → IsLinked t
    → IsLinked t'
ingest_event-IsLinked py now event t t' h linked =
    elim ((ingest_event-Accepted py now event t t' h).1) [
      | again old found same e ↦ rw e linked
      | stored u free applied e ↦
          let kept =
            Applied-IsLinked py now event t u
              (apply_event-Applied py now (text_at py now "event_type" event "") event t u applied)
              linked in
          rw e kept
    ]
