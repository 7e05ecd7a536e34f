-- ===== src/Orchestrator/Durable.antt =====
-- `resume` after `transition` and `finalize` of cnserverops/orchestrator.py.
use cnserver_ops.Prelude.{String, ℕ, List, Option, some, ok, ◌≡◌, refl, ◌∙◌, eq_refl}
use cnserver_ops.Identity.{Identity}
use cnserver_ops.Disposition.{Reason}
use cnserver_ops.Safety.{Instant}
use cnserver_ops.State
use cnserver_ops.State.{
  JsonFile, object, other_value, malformed, SavedState, Details, fields, decided, Note,
}
use cnserver_ops.State.Binding.{resume-write_state}
use cnserver_ops.Models
use cnserver_ops.Models.RoundTrip.{from_dict-Kept}
use cnserver_ops.Models.{ServerRecord, RunRecord, RunDict}
use cnserver_ops.Orchestrator.Store.{
  Context, Disk, Session, run_dir, write_run, write_workflow_state,
}
use cnserver_ops.Orchestrator.Persist.{note}
use cnserver_ops.Orchestrator.Start.{resume}
use cnserver_ops.Orchestrator.Checks.{Transition}
use cnserver_ops.Orchestrator.{transition, finalize, closed_context}
use cnserver_ops.Orchestrator.Effect.{written, store_context-Stored, transition-Done}
use cnserver_ops.Orchestrator.Closing.{finalize-Closed}

-- A context and its saved state, as `store_context` leaves them, are resumed by the identity and the
-- runner that stored them.
resume-written :
    (run_id : String) (c : Context) (i : Identity) (n : Note) (now : String) (d : Disk)
    (saved : SavedState)
    → run_dir run_id ≡ ok run_id
    → State.write_state i n now ≡ ok saved
    → n.run_id ≡ run_id
    → c.run.server_fingerprint_sha256 ≡ i.fingerprint_sha256
    → resume run_id i n.runner_id (written run_id c saved d) ≡ (ok c, written run_id c saved d)
unfolding resume write_run write_workflow_state State.load_state
resume-written run_id c i n now d saved dir w same fp =
    let allowed : State.assert_workflow_resume_allowed (some saved) i (some run_id)
          (some n.runner_id)
        ≡ ok tt =
      rw (← same) (resume-write_state i n now saved w) in
    simp (dir, eq_refl, allowed, fp)

-- After a transition that returned, on the machine that the run belongs to, `resume` with the run's
-- own RUN_ID and RUNNER_ID gives back exactly the context that the caller holds, and changes nothing.
pub resume-transition :
    (parse : String → Option Instant) (t : Transition) (now : ℕ) (utc_now : String) (s : Session)
    → (transition parse t now utc_now s).0 ≡ ok tt
    → s.context.run.server_fingerprint_sha256 ≡ t.identity.fingerprint_sha256
    → let s' = (transition parse t now utc_now s).1 in
      resume s'.context.run.run_id t.identity s'.context.run.runner_id s'.disk
      ≡ (ok s'.context, s'.disk)
unfolding Models.to_dict note
resume-transition parse t now utc_now s h fp =
    let d = transition-Done parse t now utc_now s h in
    let q = store_context-Stored _ _ _ _ _ s d.returned in
    let kept = from_dict-Kept s.context.run d.run d.checked.run_read in
    rw (d.session_is ∙ q.session_is)
      (resume-written _ _ _ _ _ s.disk q.saved q.dir_is q.state_is refl (kept.fingerprint ∙ fp))

-- So it is after a `finalize` that returned: the closed run, its decision included, is what `resume`
-- reads on the machine that the run belongs to.
pub resume-finalize :
    (reasons : List Reason) (i : Identity) (utc_now : String) (s : Session)
    → (finalize reasons i utc_now s).0 ≡ ok tt
    → s.context.run.server_fingerprint_sha256 ≡ i.fingerprint_sha256
    → let s' = (finalize reasons i utc_now s).1 in
      resume s'.context.run.run_id i s'.context.run.runner_id s'.disk ≡ (ok s'.context, s'.disk)
unfolding Models.to_dict note closed_context
resume-finalize reasons i utc_now s h fp =
    let d = finalize-Closed reasons i utc_now s h in
    let q = d.stored_is in
    let kept = from_dict-Kept s.context.run d.run d.run_read in
    rw (d.session_is ∙ q.session_is)
      (resume-written _ _ _ _ _ s.disk q.saved q.dir_is q.state_is refl (kept.fingerprint ∙ fp))
