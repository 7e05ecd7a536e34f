-- ===== src/Handoff/Policy.antt =====
-- The states, their classes, and the policy of cnserverops/handoff.py.
use cnserver_ops.Prelude.{String, Bool, false, not, ◌&&◌, List, [], ◌∷◌, ◌==◌, contains, or_text}
use cnserver_ops.Text.{upper, lower, strip, spaces_to_underscores}

-- A capability with its normalized state.
abbrev pub Finding : Type 0
Finding = String × String

abbrev pub same_finding : Finding → Finding → Bool
same_finding (a, b) (c, d) = a == c && b == d

unfoldable pub normalized_status : String → String
normalized_status value = spaces_to_underscores (upper (strip (or_text value "UNKNOWN")))

unfoldable pub is_pass : String → Bool
is_pass s = contains s (
    "PASS" ∷ "SUCCESS" ∷ "CURRENT" ∷ "UPDATED_VERIFIED" ∷ "NOT_PRESENT" ∷ "NOT_REQUIRED" ∷ "ONLINE"
    ∷ "SYNCED" ∷ "LOCAL_COMPLETE" ∷ [])

unfoldable pub is_fail : String → Bool
is_fail s =
    contains s
      ("FAIL" ∷ "FAILED" ∷ "BLOCKED" ∷ "NOT_READY" ∷ "HARDWARE_FAILURE" ∷ "UPDATE_REQUIRED" ∷ [])

unfoldable pub is_review : String → Bool
is_review s = contains s (
    "REVIEW" ∷ "BLOCKED_BY_AUTH" ∷ "UNVERIFIED" ∷ "NOT_SUPPORTED" ∷ "UNSUPPORTED"
    ∷ "EXECUTION_FAILED" ∷ "NOT_TESTED" ∷ "PARTIAL" ∷ "PENDING_UPLOAD" ∷ "UPLOAD_FAILED" ∷ [])

-- `_DERIVED_STATUS_FIELDS`, by key.
unfoldable pub is_derived : String → Bool
is_derived key = contains (lower (strip key)) ("overall" ∷ "handoff_status" ∷ "readiness" ∷ [])

-- The modes for which the production capabilities are required.
unfoldable pub has_production : String → Bool
has_production mode =
    not
      (contains (normalized_status mode) ("DRY_RUN" ∷ "SERIAL_COLLECTION" ∷ "INVENTORY_ONLY" ∷ []))

pub record HandoffPolicy : Type 0 where
  pub required_pass : List String
  pub required_for_production : List String
  pub optional_review_states : List (String × List String)
  pub allow_optional_review_for_ready : Bool

-- The defaults of `HandoffPolicy`.
abbrev pub default_policy : HandoffPolicy
default_policy = record {
  required_pass =
      "collection" ∷ "serial_inventory" ∷ "identity" ∷ "storage" ∷ "nic" ∷ "sensors" ∷ [];
  required_for_production = "cpu" ∷ "ram" ∷ [];
  optional_review_states =
      (
        "firmware_update",
        "BLOCKED_BY_AUTH" ∷ "UNVERIFIED" ∷ "NOT_SUPPORTED" ∷ "NOT_PRESENT" ∷ "CURRENT" ∷ [],
      )
      ∷ (
        "system_diagnostics",
        "BLOCKED_BY_AUTH" ∷ "UNVERIFIED" ∷ "NOT_SUPPORTED" ∷ "UNSUPPORTED" ∷ "PLATFORM_UNSUPPORTED"
            ∷ "EXECUTION_FAILED" ∷ [],
      )
      ∷ ("bmc_soft_reset", "UNVERIFIED" ∷ "NOT_SUPPORTED" ∷ "NOT_PERFORMED" ∷ [])
      ∷ (
        "bmc_access_state",
        "BMC_AUTH_AVAILABLE" ∷ "BMC_AUTH_PROVISIONED" ∷ "BMC_AUTH_UNAVAILABLE"
            ∷ "BMC_AUTH_REQUIRES_PASSWORD_CHANGE" ∷ [],
      )
      ∷ ("runner_storage_smart", "UNAVAILABLE" ∷ "UNKNOWN_USB_BRIDGE" ∷ "NOT_PERFORMED" ∷ [])
      ∷ ("central_link", "OFFLINE" ∷ "PENDING_UPLOAD" ∷ "UPLOAD_FAILED" ∷ [])
      ∷ [];
  allow_optional_review_for_ready = false;
}
