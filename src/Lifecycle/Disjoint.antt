-- ===== src/Lifecycle/Disjoint.antt =====
-- The three sets of components in a checkpoint of `build_pending`.
use cnserver_ops.Prelude.{
  String, true, false, not, ◌||◌, List, [], ◌∷◌, is_empty, ◌==◌, ◌≡◌, ◌⊎◌, inl, inr, ap, contains,
  truthy, ok, arith, eq_iff, Bool-cases, >>=-eq-ok, ok_injective, raise_if, sym, ◌∙◌,
}
use cnserver_ops.Text.{upper}
use cnserver_ops.Lifecycle.Checkpoint.{
  Component, Pending, is_run_id, is_workflow, run_id_invalid, workflow_invalid, identity_incomplete,
  runner_id_missing, components_missing, activation_component_missing,
}
use cnserver_ops.Lifecycle.Build.{
  PlanItem, ExecutionItem, Execution, BuildRequest, components_of, executed_status, is_success,
  activation_pending, insert, sorted_set, completed_names, remaining_of, is_remaining,
  build_pending,
}

contains-insert :
    (z x : String) (ys : List String)
    → contains z (insert x ys) ≡ true
    → (z ≡ x) ⊎ (contains z ys ≡ true)
unfolding insert
contains-insert z x [] h = ground (arith, eq_iff z x)
contains-insert z x (y ∷ ys) h = ground (arith, eq_iff z x, contains-insert z x ys)

contains-sorted_set :
    (z : String) (xs : List String) → contains z (sorted_set xs) ≡ true → contains z xs ≡ true
unfolding sorted_set
contains-sorted_set z [] h = h
contains-sorted_set z (x ∷ xs) h =
    ground (arith, eq_iff z x, contains-insert z x (sorted_set xs) h, contains-sorted_set z xs)

contains-completed_names :
    (all xs : List ExecutionItem) (z : String)
    → contains z (completed_names all xs) ≡ true
    → is_success (executed_status all z) ≡ true
unfolding completed_names
contains-completed_names all [] z h = cc
contains-completed_names all (x ∷ xs) z h =
    ground (arith, eq_iff z (upper x.component), contains-completed_names all xs z)

contains-remaining_of :
    (activation : List String) (items : List ExecutionItem) (cs : List Component) (z : String)
    → contains z (remaining_of activation items cs) ≡ true
    → (contains z activation ≡ false) × (is_success (executed_status items z) ≡ false)
unfolding remaining_of
contains-remaining_of activation items [] z h = cc
contains-remaining_of activation items (c ∷ cs) z h =
    let earlier = contains-remaining_of activation items cs z in
    elim (Bool-cases (is_remaining activation items c)) [
      | inr dropped ↦ earlier (rw dropped at h)
      | inl kept ↦
          let here = rw kept at h in
          elim (Bool-cases (z == c.component)) [
            | inr other ↦ earlier (rw other at here)
            | inl same ↦ rw ((eq_iff z c.component).0 same) (ground arith, ground arith)
          ]
    ]

sorted_set-absent :
    (z : String) (xs : List String) → contains z xs ≡ false → contains z (sorted_set xs) ≡ false
sorted_set-absent z xs h = elim (Bool-cases (contains z (sorted_set xs))) [
  | inl there ↦ let found = contains-sorted_set z xs there in cc
  | inr absent ↦ absent
]

completed_names-absent :
    (items : List ExecutionItem) (z : String)
    → is_success (executed_status items z) ≡ false
    → contains z (completed_names items items) ≡ false
completed_names-absent items z h = elim (Bool-cases (contains z (completed_names items items))) [
  | inl there ↦ let found = contains-completed_names items items z there in cc
  | inr absent ↦ absent
]

-- In a checkpoint that was built, a remaining component is neither waiting for its activation nor
-- among the completed ones, and no reboot request is counted.
pub build_pending-Disjoint :
    (b : BuildRequest) (plan : List PlanItem) (e : Execution) (created updated : String)
    (p : Pending) (z : String)
    → build_pending b plan e created updated ≡ ok p
    → contains z p.remaining_components ≡ true
    → (contains z p.activation_pending_components ≡ false)
      × (contains z p.completed_pre_reboot_components ≡ false)
      × (p.reboot.retry_count ≡ 0)
unfolding build_pending
build_pending-Disjoint b plan e created updated p z h r =
    let (u1, _, h1) = >>=-eq-ok (raise_if (not (is_run_id (upper b.run_id))) run_id_invalid) _ h in
    let (u2, _, h2) =
      >>=-eq-ok (raise_if (not (is_workflow (upper b.workflow_mode))) workflow_invalid) _ h1 in
    let (u3, _, h3) =
      >>=-eq-ok
        (raise_if (not (truthy b.identity.fingerprint_sha256) || not (truthy b.identity.server_id))
          identity_incomplete)
        _ h2 in
    let (u4, _, h4) = >>=-eq-ok (raise_if (not (truthy b.runner_id)) runner_id_missing) _ h3 in
    let (u5, _, h5) =
      >>=-eq-ok (raise_if (is_empty (components_of plan)) components_missing) _ h4 in
    let (u6, _, h6) =
      >>=-eq-ok (raise_if (is_empty (activation_pending e)) activation_component_missing) _ h5 in
    let same = ok_injective h6 in
    let (not_activation, not_done) =
      contains-remaining_of (activation_pending e) e.components (components_of plan) z
        (ap (λ (p : Pending). contains z p.remaining_components) same ∙ r) in
    (
      sym (ap (λ (p : Pending). contains z p.activation_pending_components) same)
          ∙ sorted_set-absent z (activation_pending e) not_activation,
      sym (ap (λ (p : Pending). contains z p.completed_pre_reboot_components) same)
          ∙ sorted_set-absent z (completed_names e.components e.components)
              (completed_names-absent e.components z not_done),
      sym (ap (λ (p : Pending). p.reboot.retry_count) same),
    )
