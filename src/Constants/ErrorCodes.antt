-- ===== src/Constants/ErrorCodes.antt =====
-- ERROR_CODES of src/utils/constants.ts.
use tms_api.Prelude.{String}

abbrev pub forbidden : String
forbidden = "FORBIDDEN"

abbrev pub unauthorized : String
unauthorized = "UNAUTHORIZED"

abbrev pub not_found : String
not_found = "NOT_FOUND"

abbrev pub conflict : String
conflict = "CONFLICT"

abbrev pub validation_error : String
validation_error = "VALIDATION_ERROR"

abbrev pub internal_error : String
internal_error = "INTERNAL_ERROR"

abbrev pub self_approval_forbidden : String
self_approval_forbidden = "SELF_APPROVAL_FORBIDDEN"

abbrev pub immutable_timesheet : String
immutable_timesheet = "IMMUTABLE_TIMESHEET"

abbrev pub invalid_transition : String
invalid_transition = "INVALID_TRANSITION"

abbrev pub max_hours_exceeded : String
max_hours_exceeded = "MAX_HOURS_EXCEEDED"

abbrev pub backdating_not_allowed : String
backdating_not_allowed = "BACKDATING_NOT_ALLOWED"

abbrev pub description_required : String
description_required = "DESCRIPTION_REQUIRED"

abbrev pub copy_week_disabled : String
copy_week_disabled = "COPY_WEEK_DISABLED"

abbrev pub not_direct_report : String
not_direct_report = "NOT_DIRECT_REPORT"

abbrev pub employee_not_assigned : String
employee_not_assigned = "EMPLOYEE_NOT_ASSIGNED"
