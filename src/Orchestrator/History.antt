-- ===== src/Orchestrator/History.antt =====
-- The history of a run: which stages it has been through, in which order and under which approvals.
use cnserver_ops.Prelude.{
  String, true, List, [], ◌∷◌, ◌++◌, Option, Result, ◌≡◌, ◌≢◌, refl, sym, ap, ◌∙◌, arith, inl, inr,
}
use mathlib.Core.Path.{subst}
use cnserver_ops.Safety.{Instant}
use cnserver_ops.Orchestrator.Stages.{
  Stage, stage_value, transitions, contains_stage, stage_value_injective,
}
use cnserver_ops.Orchestrator.Routes.{VendorRoute}
use cnserver_ops.Orchestrator.Store.{WorkflowError, HistoryEntry, Context, Disk, Session}
use cnserver_ops.Orchestrator.Effect.{Done, transition-Done}
use cnserver_ops.Orchestrator.Closing.{Closed, finalize-Closed}
use cnserver_ops.Orchestrator.Trace.{
  Call, MayEnter, Trace, begin, step, Reached, started, moved, closed, IsTraced,
}
use cnserver_ops.Orchestrator.Moves.{IsTraced-moved, IsTraced-Closed}
use cnserver_ops.Orchestrator.Beginning.{IsTraced-started}

module _ (parse : String → Option Instant) where
  -- Whatever operations (start, transition, finalize), each of which returned, led to a session, the
  -- stage history of its run is a path of the transition graph from IDENTITY with one step for each call
  -- of transition, in their order. The call that entered FIRMWARE_APPLY or LOG_CLEAN was given a gate
  -- that covers this action, on the call's identity and details, for the run that the session has, and
  -- the run's vendor route supports and lists the action. The run stands at its last stage or, closed, at
  -- COMPLETE after FINALIZE or BLOCKED.
  pub Reached-IsTraced :
      {calls : List Call} {s : Session} → Reached parse calls s → IsTraced parse calls s.context
  Reached-IsTraced (started version q new_run_id utc_now d c s e f) = rw f (
      IsTraced-started parse version q new_run_id utc_now d c
        (ap (λ (r : Result WorkflowError Context × Disk). r.0) e))
  Reached-IsTraced (moved {calls} {s} t now utc_now s' p e) =
      IsTraced-moved parse (Reached-IsTraced p) (
        subst (λ z. Done parse t now utc_now s z)
          (ap (λ (r : Result WorkflowError (Unit {0}) × Session). r.1) e)
          (transition-Done parse t now utc_now s
            (ap (λ (r : Result WorkflowError (Unit {0}) × Session). r.0) e)))
  Reached-IsTraced (closed {calls} {s} reasons i utc_now s' p e) =
      IsTraced-Closed parse (Reached-IsTraced p) (
        subst (λ z. Closed reasons i utc_now s z)
          (ap (λ (r : Result WorkflowError (Unit {0}) × Session). r.1) e)
          (finalize-Closed reasons i utc_now s
            (ap (λ (r : Result WorkflowError (Unit {0}) × Session). r.0) e)))

  -- A history that ends with an entry of `a` and one of `b`, which the newest call made.
  pub record EndsWith (run_id : String) (route : VendorRoute) (calls : List Call)
      (h : List HistoryEntry) (a b : Stage) : Type 0 where
    pub before : List HistoryEntry
    pub previous : HistoryEntry
    pub newest : HistoryEntry
    pub history_is : h ≡ before ++ (previous ∷ newest ∷ [])
    pub previous_is : previous.stage ≡ stage_value a
    pub newest_is : newest.stage ≡ stage_value b
    pub call : Call
    pub earlier : List Call
    pub calls_are : calls ≡ call ∷ earlier
    pub call_is : call.arguments.next_stage ≡ b
    pub permitted : MayEnter parse run_id route call

  append_append :
      (xs : List HistoryEntry) (x y : HistoryEntry)
      → (xs ++ (x ∷ [])) ++ (y ∷ []) ≡ xs ++ (x ∷ y ∷ [])
  append_append [] x y = refl
  append_append (z ∷ xs) x y = rw (append_append xs x y)

  last_entry :
      {run_id : String} {route : VendorRoute} {calls : List Call} {h : List HistoryEntry}
      {a : Stage}
      → Trace parse run_id route calls h a
      → (h0 : List HistoryEntry) × (e : HistoryEntry) × (h ≡ h0 ++ (e ∷ []))
        × (e.stage ≡ stage_value a)
  last_entry (begin e f) = ([], e, refl, f)
  last_entry (step {calls} {h} {a} call b e h' t n edge f m eq) = (h, e, eq, f)

  -- The stage before a stage other than the first.
  step_before :
      {run_id : String} {route : VendorRoute} {calls : List Call} {h : List HistoryEntry}
      {b : Stage}
      → Trace parse run_id route calls h b
      → b ≢ Stage.identity
      → (a : Stage) × (contains_stage b (transitions a) ≡ true) × EndsWith run_id route calls h a b
  step_before (begin e f) n = absurd (n refl)
  step_before (step {calls} {h} {a} call b e h' t n edge f m eq) not_first =
      let (h0, e0, eq0, f0) = last_entry t in
      (
        a,
        edge,
        record {
          before = h0;
          previous = e0;
          newest = e;
          history_is = eq ∙ ap (λ z. z ++ (e ∷ [])) eq0 ∙ append_append h0 e0 e;
          previous_is = f0;
          newest_is = f;
          call = call;
          earlier = calls;
          calls_are = refl;
          call_is = n;
          permitted = m;
        },
      )

  only_before_log_clean :
      (a : Stage) → contains_stage Stage.log_clean (transitions a) ≡ true → a ≡ Stage.pre_clean_logs
  unfolding contains_stage transitions
  only_before_log_clean a h = ground arith

  -- The history of a reached session that stands at LOG_CLEAN ends with an entry of PRE_CLEAN_LOGS and,
  -- directly after it, one of LOG_CLEAN; the last call of transition is the one that entered LOG_CLEAN,
  -- and its gate and the run's vendor route cover the clearing for this run.
  pub log_clean_after_preservation :
      {calls : List Call} {s : Session}
      → Reached parse calls s
      → s.context.run.current_stage ≡ stage_value Stage.log_clean
      → EndsWith s.context.run.run_id s.context.route calls s.context.stage_history
          Stage.pre_clean_logs Stage.log_clean
  log_clean_after_preservation {calls} {s} r at_clean =
      let p = Reached-IsTraced r in
      let here : p.last ≡ Stage.log_clean = elim p.at [
        | inl f ↦ stage_value_injective p.last Stage.log_clean (sym f ∙ at_clean)
        | inr (f, g) ↦ cc (stage_value_injective Stage.complete Stage.log_clean (sym f ∙ at_clean))
      ] in
      let t =
        subst
          (λ z. Trace parse s.context.run.run_id s.context.route calls s.context.stage_history z)
          here p.trace in
      let (a, edge, ends) = step_before t (λ same. cc) in
      subst
        (λ z.
          EndsWith s.context.run.run_id s.context.route calls s.context.stage_history z
            Stage.log_clean)
        (only_before_log_clean a edge) ends
