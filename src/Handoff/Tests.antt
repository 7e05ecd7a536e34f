-- ===== src/Handoff/Tests.antt =====
-- Runs of the handoff evaluation, and its theorem on a healthy server.
use cnserver_ops.Prelude.{String, true, List, [], ◌∷◌, none, some, ◌≡◌, refl}
use cnserver_ops.Text.{upper, lower, strip, spaces_to_underscores}
use cnserver_ops.Handoff.Policy.{
  HandoffPolicy, default_policy, normalized_status, is_pass, is_fail, is_review, is_derived,
  has_production,
}
use cnserver_ops.Handoff.{
  StatusValue, text, other, HandoffStatus, evaluate_handoff, read_statuses, required_capabilities,
  failures_of, reviews_of, without_capability, board_of, assign, with_bmc_handoff,
  missing_or_unready, add_reviews, all_optional, is_waived, overall_of, handoff_of, conclude,
}
use cnserver_ops.Handoff.Ready.{IsReady, evaluate_handoff-IsReady}

abbrev healthy : List (String × StatusValue)
healthy =
    ("collection", text "PASS")
    ∷ ("serial_inventory", text "pass")
    ∷ ("identity", text "PASS")
    ∷ ("storage", text "PASS")
    ∷ ("nic", text "PASS")
    ∷ ("sensors", text "PASS")
    ∷ ("cpu", text "PASS")
    ∷ ("ram", text "PASS")
    ∷ ("overall", text "REVIEW")
    ∷ ("sel_entries", other)
    ∷ []

ready :
    (evaluate_handoff healthy "PRODUCTION" default_policy none).handoff_status
    ≡ HandoffStatus.ready_for_handoff
unfolding evaluate_handoff read_statuses required_capabilities failures_of reviews_of
    without_capability board_of assign with_bmc_handoff missing_or_unready add_reviews all_optional
    is_waived overall_of handoff_of conclude normalized_status is_pass is_fail is_review is_derived
    has_production upper lower strip spaces_to_underscores
ready = refl

without_ram :
    (evaluate_handoff
      (("ram", text "not tested") ∷ healthy)
      "PRODUCTION"
      default_policy
      none).handoff_status
    ≡ HandoffStatus.review_required
unfolding evaluate_handoff read_statuses required_capabilities failures_of reviews_of
    without_capability board_of assign with_bmc_handoff missing_or_unready add_reviews all_optional
    is_waived overall_of handoff_of conclude normalized_status is_pass is_fail is_review is_derived
    has_production upper lower strip spaces_to_underscores
without_ram = refl

failing_disk :
    (evaluate_handoff
      (("disk", text "Hardware Failure") ∷ healthy)
      "PRODUCTION"
      default_policy
      none).handoff_status
    ≡ HandoffStatus.not_ready
unfolding evaluate_handoff read_statuses required_capabilities failures_of reviews_of
    without_capability board_of assign with_bmc_handoff missing_or_unready add_reviews all_optional
    is_waived overall_of handoff_of conclude normalized_status is_pass is_fail is_review is_derived
    has_production upper lower strip spaces_to_underscores
failing_disk = refl

open_bmc :
    (evaluate_handoff healthy "PRODUCTION" default_policy (some "PENDING")).handoff_status
    ≡ HandoffStatus.review_required
unfolding evaluate_handoff read_statuses required_capabilities failures_of reviews_of
    without_capability board_of assign with_bmc_handoff missing_or_unready add_reviews all_optional
    is_waived overall_of handoff_of conclude normalized_status is_pass is_fail is_review is_derived
    has_production upper lower strip spaces_to_underscores
open_bmc = refl

-- A policy that names the BMC handoff among its optional capabilities lets the server go.
abbrev lax : HandoffPolicy
lax = record default_policy {
  optional_review_states = ("bmc_auth_handoff", "PENDING" ∷ []) ∷ [];
  allow_optional_review_for_ready = true;
}

lax_bmc :
    (evaluate_handoff healthy "PRODUCTION" lax (some "PENDING")).handoff_status
    ≡ HandoffStatus.ready_for_handoff
unfolding evaluate_handoff read_statuses required_capabilities failures_of reviews_of
    without_capability board_of assign with_bmc_handoff missing_or_unready add_reviews all_optional
    is_waived overall_of handoff_of conclude normalized_status is_pass is_fail is_review is_derived
    has_production upper lower strip spaces_to_underscores
lax_bmc = refl

evaluate_handoff-IsReady_example :
    IsReady default_policy healthy "PRODUCTION" none
      (evaluate_handoff healthy "PRODUCTION" default_policy none)
evaluate_handoff-IsReady_example =
    evaluate_handoff-IsReady healthy "PRODUCTION" default_policy none ready
