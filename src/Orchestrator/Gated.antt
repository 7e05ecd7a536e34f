-- ===== src/Orchestrator/Gated.antt =====
-- The stages that change the server, and the approval that `transition` asks for.
use cnserver_ops.Prelude.{
  String, ℕ, true, Option, some, contains, In, In-of_contains, ok, err, ◌≡◌, arith, inl, inr,
  Result-cases,
}
use cnserver_ops.Safety
use cnserver_ops.Safety.{Blocked, Instant, MutationGate, Operation}
use cnserver_ops.Safety.Gate.{IsCovered, require_iff}
use cnserver_ops.Models
use cnserver_ops.Models.{ServerRecord, RunRecord, RunDict}
use cnserver_ops.Orchestrator.Stages.{mutation_action}
use cnserver_ops.Orchestrator.Routes.{VendorRoute}
use cnserver_ops.Orchestrator.Store.{WorkflowError, Session}
use cnserver_ops.Orchestrator.Checks.{
  Transition, check_transition, authorize, operation, check_route,
}
use cnserver_ops.Orchestrator.{transition}
use cnserver_ops.Orchestrator.Effect.{transition-Done}

-- What lets a stage be entered by `t`: it changes nothing, or the gate covers its action on this machine
-- and the route of the vendor has it.
pub record IsApproved (parse : String → Option Instant) (t : Transition) (action : String)
    (run : RunRecord) (route : VendorRoute) (now : ℕ) : Type 0 where
  pub covered :
      IsCovered parse t.mutation_gate action t.identity (operation run action t.details) now
  pub supported : route.mutation_supported ≡ true
  pub validated : In action route.allowed_mutation_actions

module _ (parse : String → Option Instant) (t : Transition) (action : String) (run : RunRecord)
    (route : VendorRoute) (now : ℕ) where
  check_route-ok :
      check_route route action ≡ ok tt
      → (route.mutation_supported ≡ true) × (contains action route.allowed_mutation_actions ≡ true)
  check_route-ok h = ground arith

  pub authorize-IsApproved :
      authorize parse (some action) t run route now ≡ ok tt
      → IsApproved parse t action run route now
  unfolding authorize
  authorize-IsApproved h =
      elim (Result-cases (
        Safety.require parse t.mutation_gate action t.identity (operation run action t.details)
          now)) [
            | inr (x, e) ↦ cc (rw (e, authorize) at h)
            | inl (u, e) ↦
                let route_ok = check_route-ok (rw (e, authorize) at h) in
                record {
                  covered =
                      (require_iff parse t.mutation_gate action t.identity
                          (operation run action t.details) now).0
                        e;
                  supported = route_ok.0;
                  validated = In-of_contains action route.allowed_mutation_actions route_ok.1;
                }
          ]

-- A transition into a stage with a mutation action (FIRMWARE_APPLY, LOG_CLEAN) returns only where the
-- gate covers that action on the identity, for this RUN and the component, version and package of the
-- details, and the run's vendor route supports and lists the action.
pub transition-IsApproved :
    (parse : String → Option Instant) (t : Transition) (now : ℕ) (utc_now : String) (s : Session)
    (action : String)
    → (transition parse t now utc_now s).0 ≡ ok tt
    → mutation_action t.next_stage ≡ some action
    → (run : RunRecord) × (Models.from_dict s.context.run ≡ ok run)
      × IsApproved parse t action run s.context.route now
transition-IsApproved parse t now utc_now s action h m =
    let d = transition-Done parse t now utc_now s h in
    (
      d.run,
      d.checked.run_read,
      authorize-IsApproved parse t action d.run s.context.route now (rw m at d.checked.authorized),
    )

-- A refused check leaves the caller's context and the files as they were.
pub transition_refused :
    (parse : String → Option Instant) (t : Transition) (now : ℕ) (utc_now : String) (s : Session)
    (x : WorkflowError)
    → check_transition parse t s.context now ≡ err x
    → transition parse t now utc_now s ≡ (err x, s)
unfolding transition
transition_refused parse t now utc_now s x e = rw e
