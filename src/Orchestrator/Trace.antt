-- ===== src/Orchestrator/Trace.antt =====
-- The history of a run as a path of the transition graph, and the sessions that operations reach.
use cnserver_ops.Prelude.{String, ℕ, true, List, [], ◌∷◌, ◌++◌, Option, none, some, ok, ◌≡◌, ◌⊎◌}
use cnserver_ops.Identity.{Identity}
use cnserver_ops.Disposition.{Reason}
use cnserver_ops.Safety.{Instant}
use cnserver_ops.Models.{RunRecord}
use cnserver_ops.Orchestrator.Stages.{
  Stage, stage_value, transitions, contains_stage, mutation_action,
}
use cnserver_ops.Orchestrator.Routes.{VendorRoute}
use cnserver_ops.Orchestrator.Store.{HistoryEntry, Context, Disk, Session}
use cnserver_ops.Orchestrator.Start.{StartRequest, start}
use cnserver_ops.Orchestrator.Checks.{Transition}
use cnserver_ops.Orchestrator.{transition, finalize}
use cnserver_ops.Orchestrator.Gated.{IsApproved}

-- The arguments of a transition and the time of its gate's check.
pub record Call : Type 0 where
  pub arguments : Transition
  pub now : ℕ

module _ (parse : String → Option Instant) where
  -- The stage of this call may be entered: it changes nothing, or the gate that the call was given covers
  -- its action on this run, by the route of the run.
  abbrev pub MayEnter : String → VendorRoute → Call → Type 0
  MayEnter run_id route call =
      (mutation_action call.arguments.next_stage ≡ none)
      ⊎ ((action : String) × (mutation_action call.arguments.next_stage ≡ some action)
          × (run : RunRecord) × (run.run_id ≡ run_id)
          × IsApproved parse call.arguments action run route call.now)

  -- `Trace run_id route calls h a`: the history `h` is a path of the transition graph from IDENTITY to
  -- `a`, oldest entry first, whose steps are the calls, newest first.
  pub data Trace (run_id : String) (route : VendorRoute)
      : List Call → List HistoryEntry → Stage → Type 0 where
    begin :
        (e : HistoryEntry)
        → e.stage ≡ stage_value Stage.identity
        → Trace run_id route [] (e ∷ []) Stage.identity
    step :
        {calls : List Call} {h : List HistoryEntry} {a : Stage} (call : Call) (b : Stage)
        (e : HistoryEntry) (h' : List HistoryEntry)
        → Trace run_id route calls h a
        → call.arguments.next_stage ≡ b
        → contains_stage b (transitions a) ≡ true
        → e.stage ≡ stage_value b
        → MayEnter run_id route call
        → h' ≡ h ++ (e ∷ [])
        → Trace run_id route (call ∷ calls) h' b

  -- The sessions that the three operations reach, each where it returned, with the calls of `transition`,
  -- newest first.
  pub data Reached : List Call → Session → Type 0 where
    started :
        (version : String) (q : StartRequest) (new_run_id utc_now : String) (d : Disk) (c : Context)
        (s : Session)
        → start version q new_run_id utc_now d ≡ (ok c, s.disk)
        → s.context ≡ c
        → Reached [] s
    moved :
        {calls : List Call} {s : Session} (t : Transition) (now : ℕ) (utc_now : String)
        (s' : Session)
        → Reached calls s
        → transition parse t now utc_now s ≡ (ok tt, s')
        → Reached (record { arguments = t; now = now } ∷ calls) s'
    closed :
        {calls : List Call} {s : Session} (reasons : List Reason) (i : Identity) (utc_now : String)
        (s' : Session)
        → Reached calls s
        → finalize reasons i utc_now s ≡ (ok tt, s')
        → Reached calls s'

  -- The run stands at the last stage of its history, or was closed after FINALIZE or BLOCKED.
  pub record IsTraced (calls : List Call) (c : Context) : Type 0 where
    pub last : Stage
    pub trace : Trace c.run.run_id c.route calls c.stage_history last
    pub at :
        (c.run.current_stage ≡ stage_value last)
        ⊎ ((c.run.current_stage ≡ stage_value Stage.complete)
            × ((last ≡ Stage.finalize) ⊎ (last ≡ Stage.blocked)))
