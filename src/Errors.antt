-- ===== src/Errors.antt =====
-- src/types/errors.ts and src/middleware/errorHandler.ts: what a service throws, and the response
-- that the central error handler makes of it.
use Prim.Native.String.{◌++◌}
use tms_api.Prelude.{ℕ, String}
use tms_api.Constants.HttpStatus
use tms_api.Constants.ErrorCodes

-- The fields of `class AppError`; `isOperational` is always true.
pub record AppError : Type 0 where
  pub message : String
  pub status_code : ℕ
  pub code : String

-- A thrown value: one of the application's errors, or any other (of Prisma, of the driver, …).
pub data Thrown : Type 0 where
  app : AppError → Thrown
  unexpected : Thrown

abbrev pub app_error : String → ℕ → String → Thrown
app_error message status_code code =
    app (record { message = message; status_code = status_code; code = code })

abbrev pub validation_error : String → Thrown
validation_error message = app_error message HttpStatus.bad_request ErrorCodes.validation_error

abbrev pub unauthorized_error : String → Thrown
unauthorized_error message = app_error message HttpStatus.unauthorized ErrorCodes.unauthorized

abbrev pub forbidden_error : String → String → Thrown
forbidden_error message code = app_error message HttpStatus.forbidden code

abbrev pub not_found_error : String → Thrown
not_found_error resource =
    app_error (resource ++ " not found") HttpStatus.not_found ErrorCodes.not_found

abbrev pub conflict_error : String → Thrown
conflict_error message = app_error message HttpStatus.conflict ErrorCodes.conflict

abbrev pub immutable_timesheet_error : Thrown
immutable_timesheet_error =
    app_error "Timesheet cannot be modified after submission" HttpStatus.forbidden
      ErrorCodes.immutable_timesheet

abbrev pub invalid_transition_error : String → String → Thrown
invalid_transition_error from to =
    app_error ("Cannot transition timesheet from " ++ from ++ " to " ++ to) HttpStatus.bad_request
      ErrorCodes.invalid_transition

-- The JSON body and the status of an error response.
pub record ErrorResponse : Type 0 where
  pub status : ℕ
  pub error : String
  pub code : String

pub error_handler : Thrown → ErrorResponse
error_handler (app e) = record { status = e.status_code; error = e.message; code = e.code }
error_handler unexpected = record {
  status = HttpStatus.internal_server_error;
  error = "An unexpected error occurred";
  code = ErrorCodes.internal_error;
}
