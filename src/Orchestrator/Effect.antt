-- ===== src/Orchestrator/Effect.antt =====
-- What the calls of a transition returned, where it returned.
use cnserver_ops.Prelude.{
  String, ℕ, true, List, Option, Result, ok, err, ◌≡◌, refl, ap, arith, ◌⊎◌, inl, inr, Bool-cases,
  Result-cases, ok_injective,
}
use mathlib.Core.Path.{subst}
use cnserver_ops.Exec.{after}
use cnserver_ops.Identity.{Identity}
use cnserver_ops.Safety.{Instant}
use cnserver_ops.State
use cnserver_ops.State.{
  JsonFile, object, other_value, malformed, SavedState, Details, fields, decided, Note,
}
use cnserver_ops.Models
use cnserver_ops.Models.{ServerRecord, RunRecord, RunDict}
use cnserver_ops.Orchestrator.Stages.{
  Stage, transitions, contains_stage, mutation_action, default_next,
}
use cnserver_ops.Orchestrator.Store.{
  WorkflowError, bad_run_id, Context, Disk, Session, run_dir, write_run, write_workflow_state,
}
use cnserver_ops.Orchestrator.Persist.{expected_text, note, persist, with_disk, store_context}
use cnserver_ops.Orchestrator.Checks.{
  Transition, check_transition, authorize, stage_result, read_stage,
}
use cnserver_ops.Orchestrator.{transition, move, moved_context}

-- The files of a run after its two writes.
abbrev pub written : String → Context → SavedState → Disk → Disk
written dir context saved d = write_workflow_state dir saved (write_run dir context d)

pub run_dir-cases : (r : String) → (run_dir r ≡ ok r) ⊎ (run_dir r ≡ err bad_run_id)
unfolding run_dir
run_dir-cases r = ground arith

persist_ok :
    (dir : String) (c : Context) (i : Identity) (n : Note) (now : String) (d : Disk)
    → (persist dir c i n now d).0 ≡ ok tt
    → (saved : SavedState) × (State.write_state i n now ≡ ok saved)
      × ((persist dir c i n now d).1 ≡ written dir c saved d)
unfolding persist
persist_ok dir c i n now d h = elim (Result-cases (State.write_state i n now)) [
  | inl (saved, e) ↦ (saved, e, rw (e, persist))
  | inr (x, e) ↦ cc (rw (e, persist) at h)
]

module _ (c : Context) (run_id : String) (i : Identity) (n : Note) (now : String)
    (s : Session) where
  abbrev pub stored : Result WorkflowError (Unit {0}) × Session
  stored = store_context c run_id i n now s

  -- Where the end of an operation returned, both files hold the run.
  pub record Stored : Type 0 where
    pub saved : SavedState
    pub dir_is : run_dir run_id ≡ ok run_id
    pub state_is : State.write_state i n now ≡ ok saved
    pub session_is : stored.1 ≡ record { context = c; disk = written run_id c saved s.disk }

  pub store_context-Stored : stored.0 ≡ ok tt → Stored
  unfolding store_context with_disk
  store_context-Stored h = elim (run_dir-cases run_id) [
    | inl e ↦
        let (saved, w, q) = persist_ok run_id c i n now s.disk (rw (e, store_context) at h) in
        record {
          saved = saved;
          dir_is = e;
          state_is = w;
          session_is = rw (e, store_context) (ap (λ d. record { context = c; disk = d }) q);
        }
    | inr e ↦ cc (rw (e, store_context) at h)
  ]

-- The facts behind a passed check.
pub record Checked (parse : String → Option Instant) (t : Transition) (context : Context) (now : ℕ)
    (run : RunRecord) (result : List (String × String)) : Type 0 where
  pub current : Stage
  pub run_read : Models.from_dict context.run ≡ ok run
  pub stage_read : read_stage run ≡ ok current
  pub edge : contains_stage t.next_stage (transitions current) ≡ true
  pub authorized : authorize parse (mutation_action t.next_stage) t run context.route now ≡ ok tt
  pub evidence : stage_result t context ≡ ok result

module _ (parse : String → Option Instant) (t : Transition) (c : Context) (now : ℕ) where
  pub check_transition-Checked :
      (run : RunRecord) (result : List (String × String))
      → check_transition parse t c now ≡ ok (run, result)
      → Checked parse t c now run result
  unfolding check_transition
  check_transition-Checked run result h = elim (Result-cases (Models.from_dict c.run)) [
    | inr (x, e) ↦ cc (rw e at h)
    | inl (r, e) ↦
        let h1 = rw e at h in
        elim (Result-cases (read_stage r)) [
          | inr (x, e2) ↦ cc (rw e2 at h1)
          | inl (current, e2) ↦
              let h2 = rw e2 at h1 in
              elim (Bool-cases (contains_stage t.next_stage (transitions current))) [
                | inr e3 ↦ cc (rw e3 at h2)
                | inl e3 ↦
                    let h3 = rw e3 at h2 in
                    elim (Result-cases
                      (authorize parse (mutation_action t.next_stage) t r c.route now)) [
                        | inr (x, e4) ↦ cc (rw e4 at h3)
                        | inl (u, e4) ↦
                            let h4 = rw e4 at h3 in
                            elim (Result-cases (stage_result t c)) [
                              | inr (x, e5) ↦ cc (rw e5 at h4)
                              | inl (found, e5) ↦
                                  subst
                                    (λ (p : RunRecord × List (String × String)).
                                      Checked parse t c now p.0 p.1)
                                    (ok_injective (rw e5 at h4))
                                    (record {
                                      current = current;
                                      run_read = e;
                                      stage_read = e2;
                                      edge = e3;
                                      authorized = e4;
                                      evidence = e5;
                                    })
                            ]
                      ]
              ]
        ]
  ]

-- The end of a transition whose checks gave `run` and `result`.
abbrev pub ending :
    Transition
    → String
    → Session
    → RunRecord
    → List (String × String)
    → Result WorkflowError (Unit {0}) × Session
ending t utc_now s run result =
    stored (moved_context s.context run t.next_stage result) run.run_id t.identity
      (note run t.next_stage (fields result) (expected_text (default_next t.next_stage))
        t.firmware_task_identity)
      utc_now s

-- What a transition that returned has done: the checks passed, and the moved run is stored.
pub record Done (parse : String → Option Instant) (t : Transition) (now : ℕ) (utc_now : String)
    (s s' : Session) : Type 0 where
  pub run : RunRecord
  pub result : List (String × String)
  pub checked : Checked parse t s.context now run result
  pub returned : (ending t utc_now s run result).0 ≡ ok tt
  pub session_is : s' ≡ (ending t utc_now s run result).1

Done-of_checked :
    (parse : String → Option Instant) (t : Transition) (now : ℕ) (utc_now : String) (s : Session)
    (r : Result WorkflowError (RunRecord × List (String × String)))
    → check_transition parse t s.context now ≡ r
    → (after r (move t utc_now) s).0 ≡ ok tt
    → Done parse t now utc_now s (after r (move t utc_now) s).1
unfolding move
Done-of_checked parse t now utc_now s (ok (run, result)) e h = record {
  run = run;
  result = result;
  checked = check_transition-Checked parse t s.context now run result e;
  returned = h;
  session_is = refl;
}
Done-of_checked parse t now utc_now s (err x) e h = cc

pub transition-Done :
    (parse : String → Option Instant) (t : Transition) (now : ℕ) (utc_now : String) (s : Session)
    → (transition parse t now utc_now s).0 ≡ ok tt
    → Done parse t now utc_now s (transition parse t now utc_now s).1
unfolding transition
transition-Done parse t now utc_now s h =
    Done-of_checked parse t now utc_now s (check_transition parse t s.context now) refl h
