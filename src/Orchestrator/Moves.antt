-- ===== src/Orchestrator/Moves.antt =====
-- The history after `transition` and `finalize`, from the history before.
use cnserver_ops.Prelude.{
  String, ℕ, true, List, ◌∷◌, Option, ok, ◌≡◌, refl, sym, ap, ◌∙◌, arith, ◌⊎◌, inl, inr,
  Option-cases,
}
use mathlib.Core.Path.{subst}
use cnserver_ops.Identity.{Identity}
use cnserver_ops.Disposition.{Reason}
use cnserver_ops.Safety.{Instant}
use cnserver_ops.Models
use cnserver_ops.Models.RoundTrip.{from_dict-Kept}
use cnserver_ops.Models.{ServerRecord, RunRecord, RunDict}
use cnserver_ops.Orchestrator.Stages.{
  Stage, stage_value, workflow_stage, transitions, contains_stage, mutation_action,
  workflow_stage-value, stage_value_injective,
}
use cnserver_ops.Orchestrator.Store.{Context, Session}
use cnserver_ops.Orchestrator.Persist.{history_entry}
use cnserver_ops.Orchestrator.Checks.{Transition, read_stage}
use cnserver_ops.Orchestrator.{closed_context}
use cnserver_ops.Orchestrator.Effect.{store_context-Stored, Done, Checked}
use cnserver_ops.Orchestrator.Closing.{Closed}
use cnserver_ops.Orchestrator.Gated.{authorize-IsApproved}
use cnserver_ops.Orchestrator.Trace.{Call, MayEnter, Trace, step, IsTraced}

module _ (parse : String → Option Instant) where
  -- The text of a stage is read as that stage.
  read_stage-value :
      (run : RunRecord) (a b : Stage)
      → run.current_stage ≡ stage_value a
      → read_stage run ≡ ok b
      → b ≡ a
  read_stage-value run a b e h = ground (arith, ap workflow_stage e ∙ workflow_stage-value a)

  no_way_on : (b : Stage) → contains_stage b (transitions Stage.complete) ≡ true → ⊥
  unfolding contains_stage transitions
  no_way_on b h = cc

  MayEnter-Checked :
      {t : Transition} {c : Context} {now : ℕ} {run : RunRecord} {result : List (String × String)}
      → Checked parse t c now run result
      → MayEnter parse run.run_id c.route (record { arguments = t; now = now })
  MayEnter-Checked {t} {c} {now} {run} h = elim (Option-cases (mutation_action t.next_stage)) [
    | inl e ↦ inl e
    | inr (action, e) ↦ inr (
      action,
      e,
      run,
      refl,
      authorize-IsApproved parse t action run c.route now (rw e at h.authorized),
    )
  ]

  -- The stage that a transition starts from is the last one of the history.
  last_is_current :
      {calls : List Call} {t : Transition} {c : Context} {now : ℕ} {run : RunRecord}
      {result : List (String × String)}
      → (p : IsTraced parse calls c) → Checked parse t c now run result
      → contains_stage t.next_stage (transitions p.last) ≡ true
  last_is_current {calls} {t} {c} {now} {run} p k =
      let kept = (from_dict-Kept c.run run k.run_read).current_stage in
      elim p.at [
        | inl e ↦ rw (← read_stage-value run p.last k.current (kept ∙ e) k.stage_read) k.edge
        | inr (e, f) ↦ absurd (
            no_way_on t.next_stage
              (rw (← read_stage-value run Stage.complete k.current (kept ∙ e) k.stage_read) k.edge))
      ]

  pub IsTraced-moved :
      {calls : List Call} {s s' : Session} {t : Transition} {now : ℕ} {utc_now : String}
      → IsTraced parse calls s.context
      → Done parse t now utc_now s s'
      → IsTraced parse (record { arguments = t; now = now } ∷ calls) s'.context
  unfolding Models.to_dict
  IsTraced-moved {calls} {s} {s'} {t} {now} p d =
      let q = store_context-Stored _ _ _ _ _ s d.returned in
      let same = (from_dict-Kept s.context.run d.run d.checked.run_read).run_id in
      rw (d.session_is ∙ q.session_is) (record {
        last = t.next_stage;
        trace =
            step (record { arguments = t; now = now }) t.next_stage
              (history_entry t.next_stage d.result) _
              (subst (λ id. Trace parse id s.context.route calls s.context.stage_history p.last)
                (sym same) p.trace)
              refl (last_is_current p d.checked) refl (MayEnter-Checked d.checked) refl;
        at = inl refl;
      })

  closing_stage :
      {calls : List Call} (c : Context) (run : RunRecord) (p : IsTraced parse calls c) (z : Stage)
      → Models.from_dict c.run ≡ ok run
      → run.current_stage ≡ stage_value z
      → (p.last ≡ z) ⊎ (Stage.complete ≡ z)
  closing_stage c run p z r e =
      let kept = (from_dict-Kept c.run run r).current_stage in
      elim p.at [
        | inl f ↦ inl (stage_value_injective p.last z (sym f ∙ sym kept ∙ e))
        | inr (f, g) ↦ inr (stage_value_injective Stage.complete z (sym f ∙ sym kept ∙ e))
      ]

  closed_last :
      {calls : List Call} (c : Context) (run : RunRecord) (p : IsTraced parse calls c)
      → Models.from_dict c.run ≡ ok run
      → (run.current_stage ≡ stage_value Stage.finalize)
        ⊎ (run.current_stage ≡ stage_value Stage.blocked)
      → (p.last ≡ Stage.finalize) ⊎ (p.last ≡ Stage.blocked)
  closed_last c run p r (inl e) = ground (arith, closing_stage c run p Stage.finalize r e)
  closed_last c run p r (inr e) = ground (arith, closing_stage c run p Stage.blocked r e)

  pub IsTraced-Closed :
      {calls : List Call} {s s' : Session} {reasons : List Reason} {i : Identity} {utc_now : String}
      → IsTraced parse calls s.context
      → Closed reasons i utc_now s s'
      → IsTraced parse calls s'.context
  unfolding Models.to_dict closed_context
  IsTraced-Closed {calls} {s} p d =
      let same = (from_dict-Kept s.context.run d.run d.run_read).run_id in
      rw (d.session_is ∙ d.stored_is.session_is) (record {
        last = p.last;
        trace =
            subst (λ id. Trace parse id s.context.route calls s.context.stage_history p.last)
              (sym same) p.trace;
        at = inr (refl, closed_last s.context d.run p d.run_read d.may_close);
      })
