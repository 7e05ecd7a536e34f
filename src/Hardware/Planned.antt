-- ===== src/Hardware/Planned.antt =====
-- Which tests of cnserverops/hardware_tests.py a plan lets run, and when the diagnostics of
-- cnserverops/diagnostic_framework.py are complete.
use cnserver_ops.Prelude.{
  String, Bool, true, false, not, ◌&&◌, List, [], ◌∷◌, ◌≡◌, ◌↔◌, ◌⊎◌, inl, inr, refl, arith, All,
  In, is_empty, Bool-cases,
}
use cnserver_ops.Hardware.{
  HardwareTestSpec, TestStatus, not_run, blocked, not_supported, missing, plan_one,
}

pub missing-nil :
    (has : String → Bool) (xs : List String)
    → is_empty (missing has xs) ≡ true
    → All (λ x. has x ≡ true) xs
unfolding missing
missing-nil has [] h = tt
missing-nil has (x ∷ xs) h = elim (Bool-cases (has x)) [
  | inl there ↦ (there, missing-nil has xs (rw there at h))
  | inr absent ↦ cc (rw absent at h)
]

pub nil-missing :
    (has : String → Bool) (xs : List String)
    → All (λ x. has x ≡ true) xs
    → is_empty (missing has xs) ≡ true
unfolding missing
nil-missing has [] h = refl
nil-missing has (x ∷ xs) h = let there = h.0 in rw there (nil-missing has xs h.1)

-- A test that may run: it destroys nothing, what it needs is there, and its load is allowed.
pub record IsReady (tools capabilities : String → Bool) (allow_workloads : Bool)
    (spec : HardwareTestSpec) : Type 0 where
  pub harmless : spec.destructive ≡ false
  pub has_tools : All (λ t. tools t ≡ true) spec.required_tools
  pub has_capabilities : All (λ c. capabilities c ≡ true) spec.required_capabilities
  pub load_allowed : (spec.workload ≡ false) ⊎ (allow_workloads ≡ true)

-- Some name is required, and not there.
abbrev pub Lacks : (String → Bool) → List String → Type 0
Lacks has names = (name : String) × In name names × (has name ≡ false)

missing-Lacks :
    (has : String → Bool) (xs : List String) → is_empty (missing has xs) ≡ false → Lacks has xs
unfolding missing
missing-Lacks has [] h = cc
missing-Lacks has (x ∷ xs) h = elim (Bool-cases (has x)) [
  | inl there ↦
      let (name, i, absent) = missing-Lacks has xs (rw there at h) in (name, inr i, absent)
  | inr absent ↦ (x, inl refl, absent)
]

-- Why a test with this outcome of the plan does not run, or that it is ready.
pub data Outcome (tools capabilities : String → Bool) (allow_workloads : Bool)
    (spec : HardwareTestSpec) (status : TestStatus) (reasons : List String) : Type 0 where
  ready :
      status ≡ not_run
      → reasons ≡ "READY" ∷ []
      → IsReady tools capabilities allow_workloads spec
      → Outcome tools capabilities allow_workloads spec status reasons
  destroys :
      status ≡ blocked
      → reasons ≡ "DESTRUCTIVE_TEST_PROHIBITED" ∷ []
      → spec.destructive ≡ true
      → Outcome tools capabilities allow_workloads spec status reasons
  lacks_tool :
      status ≡ not_supported
      → spec.destructive ≡ false
      → Lacks tools spec.required_tools
      → Outcome tools capabilities allow_workloads spec status reasons
  lacks_capability :
      status ≡ not_supported
      → spec.destructive ≡ false
      → All (λ t. tools t ≡ true) spec.required_tools
      → Lacks capabilities spec.required_capabilities
      → Outcome tools capabilities allow_workloads spec status reasons
  shut :
      status ≡ blocked
      → reasons ≡ "WORKLOAD_GATE_CLOSED" ∷ []
      → spec.workload ≡ true
      → allow_workloads ≡ false
      → spec.destructive ≡ false
      → All (λ t. tools t ≡ true) spec.required_tools
      → All (λ c. capabilities c ≡ true) spec.required_capabilities
      → Outcome tools capabilities allow_workloads spec status reasons

module _ (tools capabilities : String → Bool) (allow_workloads : Bool)
    (spec : HardwareTestSpec) where
  plan_one-Outcome :
      Outcome tools capabilities allow_workloads spec
        (plan_one tools capabilities allow_workloads spec).plan_status
        (plan_one tools capabilities allow_workloads spec).reason_codes
  unfolding plan_one
  plan_one-Outcome = elim (Bool-cases spec.destructive) [
    | inl d ↦ destroys (rw d refl) (rw d refl) d
    | inr harmless ↦ elim (Bool-cases (is_empty (missing tools spec.required_tools))) [
      | inr no_tool ↦
          lacks_tool (rw (harmless, no_tool) refl) harmless
            (missing-Lacks tools spec.required_tools no_tool)
      | inl tooled ↦
          let tools_there = missing-nil tools spec.required_tools tooled in
          elim (Bool-cases (is_empty (missing capabilities spec.required_capabilities))) [
            | inr undetected ↦
                lacks_capability (rw (harmless, tooled, undetected) refl) harmless tools_there
                  (missing-Lacks capabilities spec.required_capabilities undetected)
            | inl detected ↦
                let there = missing-nil capabilities spec.required_capabilities detected in
                elim (Bool-cases (spec.workload && not allow_workloads)) [
                  | inl is_shut ↦
                      shut (rw (harmless, tooled, detected, is_shut) refl)
                        (rw (harmless, tooled, detected, is_shut) refl) (ground arith)
                        (ground arith) harmless tools_there there
                  | inr is_open ↦
                      ready (rw (harmless, tooled, detected, is_open) refl)
                        (rw (harmless, tooled, detected, is_open) refl)
                        (record {
                          harmless = harmless;
                          has_tools = tools_there;
                          has_capabilities = there;
                          load_allowed = ground arith;
                        })
                ]
          ]
    ]
  ]

  plan_one-IsReady :
      (plan_one tools capabilities allow_workloads spec).plan_status ≡ not_run
      → IsReady tools capabilities allow_workloads spec
  plan_one-IsReady h = elim plan_one-Outcome [
    | ready s r is_ready ↦ is_ready
    | destroys s r d ↦ cc
    | lacks_tool s d l ↦ cc
    | lacks_capability s d t l ↦ cc
    | shut s r w a d t c ↦ cc
  ]

  IsReady-plan_one :
      IsReady tools capabilities allow_workloads spec
      → (plan_one tools capabilities allow_workloads spec).plan_status ≡ not_run
  unfolding plan_one
  IsReady-plan_one r =
      let harmless = r.harmless in
      let tooled = nil-missing tools spec.required_tools r.has_tools in
      let detected = nil-missing capabilities spec.required_capabilities r.has_capabilities in
      let load = r.load_allowed in
      let open_gate : (spec.workload && not allow_workloads) ≡ false = ground arith in
      rw (harmless, tooled, detected, open_gate) refl

  -- the plan lets a test run exactly if it destroys nothing, each tool that it needs was found and each
  -- capability detected, and workloads are allowed where it is one. Every other test is blocked or not
  -- supported: a destructive one is blocked, with this reason; another one is not supported where a
  -- tool is missing or else a capability; what is left is a workload that is not allowed, and blocked
  -- with this reason.
  pub plan_one_iff :
      (((plan_one tools capabilities allow_workloads spec).plan_status ≡ not_run)
        ↔ IsReady tools capabilities allow_workloads spec)
      × Outcome tools capabilities allow_workloads spec
          (plan_one tools capabilities allow_workloads spec).plan_status
          (plan_one tools capabilities allow_workloads spec).reason_codes
  plan_one_iff = ((plan_one-IsReady, IsReady-plan_one), plan_one-Outcome)
