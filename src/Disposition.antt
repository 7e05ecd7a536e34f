-- ===== src/Disposition.antt =====
-- cnserverops/disposition.py, and the enum FinalDisposition of cnserverops/models.py.
pub mod Severity
mod Tests
use cnserver_ops.Prelude.{
  String, ℕ, Bool, true, false, not, ◌||◌, ◌&&◌, List, [], ◌∷◌, ◌==◌, if◌then◌else◌,
}

pub data FinalDisposition : Type 0 where
  pass pass_with_warnings review fail blocked : FinalDisposition

pub data ReasonSeverity : Type 0 where
  warning review fail blocked : ReasonSeverity

pub record Reason : Type 0 where
  pub code : String
  pub severity : ReasonSeverity
  pub detail : String

pub record Decision : Type 0 where
  pub disposition : FinalDisposition
  pub reasons : List Reason
  pub central_sync_is_non_blocking : Bool

abbrev pub same_severity : ReasonSeverity → ReasonSeverity → Bool
same_severity warning warning = true
same_severity review review = true
same_severity fail fail = true
same_severity blocked blocked = true
same_severity _ _ = false

-- `severity in severities`.
pub has_severity : ReasonSeverity → List Reason → Bool
has_severity s [] = false
has_severity s (r ∷ rs) = same_severity s r.severity || has_severity s rs

non_blocking : List Reason → Bool
non_blocking [] = true
non_blocking (r ∷ rs) = not (r.code == "CENTRAL_SYNC_REQUIRED_BY_POLICY") && non_blocking rs

pub worst : List Reason → FinalDisposition
worst rs =
    if has_severity blocked rs
    then blocked
    else if has_severity fail rs
    then fail
    else if has_severity review rs
    then review
    else if has_severity warning rs
    then pass_with_warnings
    else pass

unfoldable pub decide_final_disposition : List Reason → Decision
unfolding worst non_blocking has_severity
decide_final_disposition reasons = record {
  disposition = worst reasons;
  reasons = reasons;
  central_sync_is_non_blocking = non_blocking reasons;
}
