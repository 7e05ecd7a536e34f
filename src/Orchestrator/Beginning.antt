-- ===== src/Orchestrator/Beginning.antt =====
-- The history that `start` begins.
use cnserver_ops.Prelude.{
  String, not, ◌||◌, [], Option, truthy, Result, ok, err, ◌≡◌, refl, sym, ap, ◌∙◌, inl, inr,
  Bool-cases, Result-cases, ok_injective,
}
use cnserver_ops.Exec.{after}
use cnserver_ops.Safety.{Instant}
use cnserver_ops.State
use cnserver_ops.State.{
  JsonFile, object, other_value, malformed, SavedState, Details, fields, decided, Note,
}
use cnserver_ops.Models
use cnserver_ops.Models.RoundTrip.{start-Fresh}
use cnserver_ops.Models.{ServerRecord, RunRecord, RunDict}
use cnserver_ops.Orchestrator.Stages.{Stage, stage_value}
use cnserver_ops.Orchestrator.Store.{WorkflowError, Context, Disk, make_dir}
use cnserver_ops.Orchestrator.Persist.{note, persist}
use cnserver_ops.Orchestrator.Start.{
  StartRequest, start, start_arguments, check_start, create, first_context,
}
use cnserver_ops.Orchestrator.Effect.{run_dir-cases}
use cnserver_ops.Orchestrator.Trace.{begin, IsTraced}

module _ (parse : String → Option Instant) where
  -- The context that `start` returns, from the records of the run.
  context_of_create :
      (q : StartRequest) (utc_now : String) (server : ServerRecord) (run : RunRecord) (d : Disk)
      (c : Context)
      → (create q utc_now (server, run) d).0 ≡ ok c
      → c ≡ first_context q server run
  unfolding create persist make_dir
  context_of_create q utc_now server run d c h = elim (run_dir-cases run.run_id) [
    | inr e ↦ cc (rw e at h)
    | inl e ↦
        let h1 = rw e at h in
        elim (Bool-cases (d.has_dir run.run_id)) [
          | inl e1 ↦ cc (rw e1 at h1)
          | inr e1 ↦
              let h2 = rw e1 at h1 in
              elim (Result-cases (
                State.write_state q.identity
                  (note run Stage.identity (fields []) (stage_value Stage.capability_discovery) "")
                  utc_now)) [
                    | inr (x, e2) ↦ cc (rw e2 at h2)
                    | inl (saved, e2) ↦ sym (ok_injective (rw e2 at h2))
                  ]
        ]
  ]

  check_start-identity :
      (version : String) (q : StartRequest) (new_run_id utc_now : String) (server : ServerRecord)
      (run : RunRecord)
      → check_start version q new_run_id utc_now ≡ ok (server, run)
      → run.current_stage ≡ "IDENTITY"
  unfolding check_start
  check_start-identity version q new_run_id utc_now server run h =
      elim (Bool-cases (not q.identity.resumable || not (truthy q.identity.fingerprint_sha256))) [
        | inl e ↦ cc (rw e at h)
        | inr e ↦
            let h1 = rw e at h in
            elim (Result-cases (Models.from_identity q.identity)) [
              | inr (x, e1) ↦ cc (rw e1 at h1)
              | inl (found, e1) ↦
                  let h2 = rw e1 at h1 in
                  elim (Result-cases
                    (Models.start found (start_arguments version q) new_run_id utc_now)) [
                      | inr (x, e2) ↦ cc (rw e2 at h2)
                      | inl (r, e2) ↦
                          let same = ok_injective (rw e2 at h2) in
                          ap (λ (x : ServerRecord × RunRecord). x.1.current_stage) (sym same)
                          ∙ (start-Fresh found (start_arguments version q) new_run_id utc_now r
                              e2).current_stage
                    ]
            ]
      ]

  IsTraced-created :
      (version : String) (q : StartRequest) (new_run_id utc_now : String) (d : Disk) (c : Context)
      (r : Result WorkflowError (ServerRecord × RunRecord))
      → check_start version q new_run_id utc_now ≡ r
      → (after r (create q utc_now) d).0 ≡ ok c
      → IsTraced parse [] c
  unfolding first_context Models.to_dict stage_value
  IsTraced-created version q new_run_id utc_now d c (ok (server, run)) e h =
      rw (context_of_create q utc_now server run d c h) (record {
        last = Stage.identity;
        trace = begin _ refl;
        at = inl (check_start-identity version q new_run_id utc_now server run e);
      })
  IsTraced-created version q new_run_id utc_now d c (err x) e h = cc

  pub IsTraced-started :
      (version : String) (q : StartRequest) (new_run_id utc_now : String) (d : Disk) (c : Context)
      → (start version q new_run_id utc_now d).0 ≡ ok c
      → IsTraced parse [] c
  unfolding start
  IsTraced-started version q new_run_id utc_now d c h =
      IsTraced-created version q new_run_id utc_now d c (check_start version q new_run_id utc_now)
        refl h
