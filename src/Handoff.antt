-- ===== src/Handoff.antt =====
-- cnserverops/handoff.py: whether a server may be handed over, from the states of its capabilities.
pub mod Policy
pub mod Waived
pub mod Ready
mod Tests
use cnserver_ops.Prelude.{
  String, ℕ, Bool, true, false, not, ◌||◌, ◌&&◌, List, [], ◌∷◌, ◌++◌, is_empty, Option, none, some,
  ◌==◌, contains, lookup, get_or, if◌then◌else◌,
}
use Policy.{
  HandoffPolicy, normalized_status, is_pass, is_fail, is_review, Finding, same_finding, is_derived,
  has_production,
}

-- A value of `component_statuses`: a text, or report data of another kind.
pub data StatusValue : Type 0 where
  text : String → StatusValue
  other : StatusValue

-- The dict `statuses`.
unfoldable pub read_statuses : List (String × StatusValue) → List Finding
read_statuses [] = []
read_statuses ((key, other) ∷ rest) = read_statuses rest
read_statuses ((key, text value) ∷ rest) =
    let others = read_statuses rest in
    if is_derived key then others else (key, normalized_status value) ∷ others

unfoldable pub required_capabilities : HandoffPolicy → String → List String
required_capabilities policy mode =
    if has_production mode
    then policy.required_pass ++ policy.required_for_production
    else policy.required_pass

unfoldable pub failures_of : List Finding → List Finding
failures_of [] = []
failures_of (f ∷ fs) = let rest = failures_of fs in if is_fail f.1 then f ∷ rest else rest

unfoldable pub reviews_of : List Finding → List Finding
reviews_of [] = []
reviews_of (f ∷ fs) =
    let rest = reviews_of fs in
    if is_fail f.1 then rest else if is_review f.1 || not (is_pass f.1) then f ∷ rest else rest

unfoldable pub without_capability : String → List Finding → List Finding
without_capability name [] = []
without_capability name (f ∷ fs) =
    let rest = without_capability name fs in if f.0 == name then rest else f ∷ rest

abbrev pub contains_finding : Finding → List Finding → Bool
contains_finding f [] = false
contains_finding f (g ∷ gs) = same_finding f g || contains_finding f gs

-- The three lists that the evaluation goes on with.
pub record Board : Type 0 where
  pub statuses : List Finding
  pub failures : List Finding
  pub reviews : List Finding

unfoldable pub board_of : List Finding → Board
board_of statuses = record {
  statuses = statuses;
  failures = failures_of statuses;
  reviews = reviews_of statuses;
}

-- `statuses[name] = status`.
unfoldable pub assign : String → String → List Finding → List Finding
assign name status [] = (name, status) ∷ []
assign name status (f ∷ fs) =
    let rest = assign name status fs in if f.0 == name then (name, status) ∷ fs else f ∷ rest

-- `if bmc_auth_changed:` with the normalized state of the BMC handoff.
unfoldable pub with_bmc_handoff : String → Board → Board
with_bmc_handoff status b =
    let f : Finding = ("bmc_auth_handoff", status) in
    record {
      statuses = assign "bmc_auth_handoff" status b.statuses;
      failures =
          if not (is_pass status) && is_fail status then b.failures ++ (f ∷ []) else b.failures;
      reviews =
          if not (is_pass status)
          then (if is_fail status then b.reviews else b.reviews ++ (f ∷ []))
          else without_capability "bmc_auth_handoff" b.reviews;
    }

-- `statuses.get(name) not in PASS_STATES`, with the finding for it.
abbrev pub unready : String → Option String → List Finding → List Finding
unready name none rest = (name, "MISSING") ∷ rest
unready name (some status) rest = if is_pass status then rest else (name, status) ∷ rest

unfoldable pub missing_or_unready : List String → List Finding → List Finding
missing_or_unready [] statuses = []
missing_or_unready (name ∷ names) statuses =
    unready name (lookup name statuses) (missing_or_unready names statuses)

unfoldable pub add_reviews : List Finding → List Finding → List Finding → List Finding
add_reviews [] failures reviews = reviews
add_reviews (f ∷ fs) failures reviews = add_reviews fs failures (
    if contains_finding f failures || contains_finding f reviews
    then reviews
    else reviews ++ (f ∷ []))

unfoldable pub all_optional : HandoffPolicy → List Finding → Bool
all_optional policy [] = true
all_optional policy (f ∷ fs) =
    contains f.1 (get_or (lookup f.0 policy.optional_review_states) []) && all_optional policy fs

pub data Overall : Type 0 where
  pass review fail : Overall

pub data HandoffStatus : Type 0 where
  ready_for_handoff review_required not_ready : HandoffStatus

-- The parts of the returned dict that are decided; the others repeat the arguments.
pub record Evaluation : Type 0 where
  pub overall : Overall
  pub handoff_status : HandoffStatus
  pub component_statuses : List Finding
  pub failures : List Finding
  pub reviews : List Finding
  pub required : List String

-- `optional_only and policy.allow_optional_review_for_ready`, for these reviews.
unfoldable pub is_waived : HandoffPolicy → List Finding → List Finding → Bool
is_waived policy missing reviews =
    not (is_empty reviews)
    && is_empty missing
    && all_optional policy reviews
    && policy.allow_optional_review_for_ready

unfoldable pub overall_of : HandoffPolicy → List Finding → List Finding → List Finding → Overall
overall_of policy failures missing reviews =
    if is_waived policy missing reviews && is_empty failures && is_empty missing
    then pass
    else if not (is_empty failures)
    then fail
    else if not (is_empty reviews)
    then review
    else pass

unfoldable pub handoff_of :
    HandoffPolicy → List Finding → List Finding → List Finding → HandoffStatus
handoff_of policy failures missing reviews =
    if not (is_empty failures) || not (is_empty missing)
    then (if not (is_empty failures) then not_ready else review_required)
    else if is_empty reviews || is_waived policy missing reviews
    then ready_for_handoff
    else review_required

unfoldable pub conclude : HandoffPolicy → List String → Board → Evaluation
conclude policy required b =
    let missing = missing_or_unready required b.statuses in
    let reviews = add_reviews missing b.failures b.reviews in
    record {
      overall = overall_of policy b.failures missing reviews;
      handoff_status = handoff_of policy b.failures missing reviews;
      component_statuses = b.statuses;
      failures = b.failures;
      reviews = reviews;
      required = required;
    }

abbrev pub board : List Finding → Option String → Board
board statuses none = board_of statuses
board statuses (some status) = with_bmc_handoff (normalized_status status) (board_of statuses)

-- `bmc_handoff` is the state of the BMC handoff where the BMC authentication was changed.
unfoldable pub evaluate_handoff :
    List (String × StatusValue) → String → HandoffPolicy → Option String → Evaluation
evaluate_handoff component_statuses mode policy bmc_handoff =
    conclude policy (required_capabilities policy mode)
      (board (read_statuses component_statuses) bmc_handoff)
