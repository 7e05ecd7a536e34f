-- ===== src/Orchestrator/Closing.antt =====
-- What a `finalize` that returned has done.
use cnserver_ops.Prelude.{
  String, List, Result, ok, err, ◌≡◌, refl, arith, eq_iff, ◌⊎◌, inl, inr, Result-cases,
}
use cnserver_ops.Exec.{after}
use cnserver_ops.Identity.{Identity}
use cnserver_ops.Disposition.{Reason, decide_final_disposition}
use cnserver_ops.State.{decided}
use cnserver_ops.Models
use cnserver_ops.Models.{ServerRecord, RunRecord, RunDict}
use cnserver_ops.Orchestrator.Stages.{Stage, stage_value}
use cnserver_ops.Orchestrator.Store.{WorkflowError, Context, Session}
use cnserver_ops.Orchestrator.Persist.{note}
use cnserver_ops.Orchestrator.{finalize, close, closed_context, may_close, check_finalize}
use cnserver_ops.Orchestrator.Effect.{stored, Stored, store_context-Stored}

pub record Closed (reasons : List Reason) (i : Identity) (utc_now : String) (s s' : Session)
    : Type 0 where
  pub run : RunRecord
  pub run_read : Models.from_dict s.context.run ≡ ok run
  pub may_close :
      (run.current_stage ≡ stage_value Stage.finalize)
      ⊎ (run.current_stage ≡ stage_value Stage.blocked)
  pub stored_is :
      Stored
        (closed_context s.context run reasons utc_now)
        run.run_id
        i
        (note run Stage.complete (decided (decide_final_disposition reasons)) "" "")
        utc_now
        s
  pub session_is :
      s'
      ≡ (stored
          (closed_context s.context run reasons utc_now)
          run.run_id
          i
          (note run Stage.complete (decided (decide_final_disposition reasons)) "" "")
          utc_now
          s).1

may_close-ok :
    (c : Context) (r run : RunRecord)
    → Models.from_dict c.run ≡ ok r
    → may_close r ≡ ok run
    → (Models.from_dict c.run ≡ ok run)
      × ((run.current_stage ≡ stage_value Stage.finalize)
          ⊎ (run.current_stage ≡ stage_value Stage.blocked))
may_close-ok c r run e h = ground (
  arith,
  eq_iff r.current_stage (stage_value Stage.finalize),
  eq_iff r.current_stage (stage_value Stage.blocked),
)

check_finalize-ok :
    (c : Context) (run : RunRecord)
    → check_finalize c ≡ ok run
    → (Models.from_dict c.run ≡ ok run)
      × ((run.current_stage ≡ stage_value Stage.finalize)
          ⊎ (run.current_stage ≡ stage_value Stage.blocked))
check_finalize-ok c run h = elim (Result-cases (Models.from_dict c.run)) [
  | inr (x, e) ↦ cc (rw e at h)
  | inl (r, e) ↦ may_close-ok c r run e (rw e at h)
]

pub finalize-Closed :
    (reasons : List Reason) (i : Identity) (utc_now : String) (s : Session)
    → (finalize reasons i utc_now s).0 ≡ ok tt
    → Closed reasons i utc_now s (finalize reasons i utc_now s).1
unfolding finalize close
finalize-Closed reasons i utc_now s h = go (check_finalize s.context) refl h
  where
    go :
        (r : Result WorkflowError RunRecord)
        → check_finalize s.context ≡ r
        → (after r (close reasons i utc_now) s).0 ≡ ok tt
        → Closed reasons i utc_now s (after r (close reasons i utc_now) s).1
    go (ok run) e h = record {
      run = run;
      run_read = (check_finalize-ok s.context run e).0;
      may_close = (check_finalize-ok s.context run e).1;
      stored_is = store_context-Stored _ _ _ _ _ s h;
      session_is = refl;
    }
    go (err x) e h = cc
