-- ===== src/Models/Status.antt =====
-- The enums OperationStatus and FinalDisposition as texts and back.
use cnserver_ops.Prelude.{String, ◌==◌, if◌then◌else◌, Result, ok, err, ◌≡◌, refl}
use cnserver_ops.Disposition.{FinalDisposition}

pub data ModelError : Type 0 where
  bad_runner_id no_fingerprint : ModelError
  bad_status bad_disposition : String → ModelError

pub data OperationStatus : Type 0 where
  not_started in_progress pass partial fail pending_upload synced blocked : OperationStatus

-- `status.value`.
unfoldable pub status_value : OperationStatus → String
status_value not_started = "NOT_STARTED"
status_value in_progress = "IN_PROGRESS"
status_value pass = "PASS"
status_value partial = "PARTIAL"
status_value fail = "FAIL"
status_value pending_upload = "PENDING_UPLOAD"
status_value synced = "SYNCED"
status_value blocked = "BLOCKED"

-- `OperationStatus(value)`: a ValueError for any other text.
unfoldable pub operation_status : String → Result ModelError OperationStatus
operation_status s =
    if s == "NOT_STARTED"
    then ok not_started
    else if s == "IN_PROGRESS"
    then ok in_progress
    else if s == "PASS"
    then ok pass
    else if s == "PARTIAL"
    then ok partial
    else if s == "FAIL"
    then ok fail
    else if s == "PENDING_UPLOAD"
    then ok pending_upload
    else if s == "SYNCED"
    then ok synced
    else if s == "BLOCKED"
    then ok blocked
    else err (bad_status s)

unfoldable pub disposition_value : FinalDisposition → String
disposition_value FinalDisposition.pass = "PASS"
disposition_value FinalDisposition.pass_with_warnings = "PASS_WITH_WARNINGS"
disposition_value FinalDisposition.review = "REVIEW"
disposition_value FinalDisposition.fail = "FAIL"
disposition_value FinalDisposition.blocked = "BLOCKED"

-- `FinalDisposition(value)`.
unfoldable pub final_disposition : String → Result ModelError FinalDisposition
final_disposition s =
    if s == "PASS"
    then ok FinalDisposition.pass
    else if s == "PASS_WITH_WARNINGS"
    then ok FinalDisposition.pass_with_warnings
    else if s == "REVIEW"
    then ok FinalDisposition.review
    else if s == "FAIL"
    then ok FinalDisposition.fail
    else if s == "BLOCKED"
    then ok FinalDisposition.blocked
    else err (bad_disposition s)

pub operation_status-value : (t : OperationStatus) → operation_status (status_value t) ≡ ok t
unfolding operation_status status_value
operation_status-value not_started = refl
operation_status-value _ = refl

pub final_disposition-value :
    (d : FinalDisposition) → final_disposition (disposition_value d) ≡ ok d
unfolding final_disposition disposition_value
final_disposition-value FinalDisposition.pass = refl
final_disposition-value _ = refl
