-- ===== src/Handoff/Ready.antt =====
-- The readiness that `evaluate_handoff` reports.
use cnserver_ops.Prelude.{
  String, true, List, [], ◌∷◌, ◌++◌, All, is_empty, Option, none, some, ◌≡◌, ◌⊎◌, inl, inr, refl,
  arith, In, lookup, Bool-cases,
}
use cnserver_ops.Handoff.Policy.{HandoffPolicy, Finding, is_pass, has_production}
use cnserver_ops.Handoff.Waived.{
  IsAcceptable, IsHandedOver, IsWaived, read-IsAcceptable, board-IsClear, reviews_before,
  optional-All,
}
use cnserver_ops.Handoff.{
  StatusValue, Evaluation, Overall, HandoffStatus, missing_or_unready, unready, all_optional,
  is_waived, overall_of, handoff_of, conclude, evaluate_handoff, board, add_reviews, read_statuses,
  required_capabilities,
}

-- A capability is there, in a passing state.
abbrev pub IsPassing : String → List Finding → Type 0
IsPassing name statuses = (s : String) × (lookup name statuses ≡ some s) × (is_pass s ≡ true)

unready-empty :
    (name : String) (o : Option String) (rest : List Finding)
    → is_empty (unready name o rest) ≡ true
    → ((s : String) × (o ≡ some s) × (is_pass s ≡ true)) × (is_empty rest ≡ true)
unready-empty name none rest h = cc
unready-empty name (some s) rest h = elim (Bool-cases (is_pass s)) [
  | inl p ↦ ((s, refl, p), rw p at h)
  | inr p ↦ cc (rw p at h)
]

missing_empty-IsPassing :
    (names : List String) (statuses : List Finding)
    → is_empty (missing_or_unready names statuses) ≡ true
    → (name : String) → In name names
    → IsPassing name statuses
unfolding missing_or_unready
missing_empty-IsPassing [] statuses h name i = absurd i
missing_empty-IsPassing (n ∷ names) statuses h name i =
    let (here, rest) = unready-empty n (lookup n statuses) (missing_or_unready names statuses) h in
    elim i [
      | inl same ↦ rw same here
      | inr later ↦ missing_empty-IsPassing names statuses rest name later
    ]

In-left : (name : String) (xs ys : List String) → In name xs → In name (xs ++ ys)
In-left name [] ys i = absurd i
In-left name (x ∷ xs) ys (inl same) = inl same
In-left name (x ∷ xs) ys (inr later) = inr (In-left name xs ys later)

In-right : (name : String) (xs ys : List String) → In name ys → In name (xs ++ ys)
In-right name [] ys i = i
In-right name (x ∷ xs) ys i = inr (In-right name xs ys i)

-- A name that the policy asks for in this mode.
abbrev pub IsRequired : HandoffPolicy → String → String → Type 0
IsRequired policy mode name =
    In name policy.required_pass
    ⊎ ((has_production mode ≡ true) × In name policy.required_for_production)

IsRequired-In :
    (policy : HandoffPolicy) (mode name : String)
    → IsRequired policy mode name
    → In name (required_capabilities policy mode)
unfolding required_capabilities
IsRequired-In policy mode name (inl i) = elim (Bool-cases (has_production mode)) [
  | inl production ↦ rw production (In-left name policy.required_pass _ i)
  | inr other_mode ↦ rw other_mode i
]
IsRequired-In policy mode name (inr (production, i)) =
    rw production (In-right name policy.required_pass policy.required_for_production i)

-- What readiness rests on: the arguments of the evaluation, and what it reports.
pub record IsReady (policy : HandoffPolicy) (component_statuses : List (String × StatusValue))
    (mode : String) (bmc_handoff : Option String) (e : Evaluation) : Type 0 where
  pub acceptable : All (IsAcceptable policy bmc_handoff) component_statuses
  pub handed_over : IsHandedOver policy bmc_handoff
  pub required_there :
      (name : String) → IsRequired policy mode name → IsPassing name e.component_statuses
  pub no_failure : is_empty e.failures ≡ true
  pub required_pass : (name : String) → In name e.required → IsPassing name e.component_statuses
  pub reviews_waived :
      (is_empty e.reviews ≡ true)
      ⊎ ((policy.allow_optional_review_for_ready ≡ true) × (all_optional policy e.reviews ≡ true))
  pub overall_passes : e.overall ≡ Overall.pass

ready-parts :
    (policy : HandoffPolicy) (failures missing reviews : List Finding)
    → handoff_of policy failures missing reviews ≡ HandoffStatus.ready_for_handoff
    → (is_empty failures ≡ true)
      × (is_empty missing ≡ true)
      × ((is_empty reviews ≡ true)
          ⊎ ((policy.allow_optional_review_for_ready ≡ true)
              × (all_optional policy reviews ≡ true)))
      × (overall_of policy failures missing reviews ≡ Overall.pass)
unfolding handoff_of is_waived overall_of
ready-parts policy failures missing reviews h =
    (ground arith, ground arith, ground arith, ground arith)

-- A server is reported ready for its handoff only where each status that was given, the summary keys
-- apart, does not fail, and passes unless the policy waives its state or the BMC handoff replaces it;
-- the BMC handoff, where the authentication was changed, passes or is waived; every capability that the
-- policy requires in this mode is there in a passing state; no failure is reported, each reported
-- review is waived, and the overall result is PASS.
pub evaluate_handoff-IsReady :
    (component_statuses : List (String × StatusValue)) (mode : String) (policy : HandoffPolicy)
    (bmc_handoff : Option String)
    → (evaluate_handoff component_statuses mode policy bmc_handoff).handoff_status
      ≡ HandoffStatus.ready_for_handoff
    → IsReady policy component_statuses mode bmc_handoff
        (evaluate_handoff component_statuses mode policy bmc_handoff)
unfolding evaluate_handoff conclude
evaluate_handoff-IsReady component_statuses mode policy bmc_handoff h =
    let required = required_capabilities policy mode in
    let b = board (read_statuses component_statuses) bmc_handoff in
    let missing = missing_or_unready required b.statuses in
    let (f, m, r, o) =
      ready-parts policy b.failures missing (add_reviews missing b.failures b.reviews) h in
    let (clear, over) = board-IsClear policy (read_statuses component_statuses) bmc_handoff f (
      reviews_before (IsWaived policy) missing b.failures b.reviews m
        (optional-All policy (add_reviews missing b.failures b.reviews) r)) in
    record {
      acceptable = read-IsAcceptable policy bmc_handoff component_statuses clear;
      handed_over = over;
      required_there = λ name i.
          missing_empty-IsPassing required b.statuses m name (IsRequired-In policy mode name i);
      no_failure = f;
      required_pass = missing_empty-IsPassing required b.statuses m;
      reviews_waived = r;
      overall_passes = o;
    }
