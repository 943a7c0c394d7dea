-- ===== src/Http/Server.antt =====
-- What happens to a call: src/middleware/authenticate.ts, rbac.ts and validate.ts, the controller,
-- and the error handler. The public calls of src/routes/auth.routes.ts begin with `validate`.
use Prim.Native.Char.{code}
use text.Mathlib.Text.{◌==◌ as str_eq, starts_with}
use tms_api.Prelude.{
  ℕ, String, Bool, true, false, not, Option, none, some, List, [], ◌∷◌, any, ◌==◌, if◌then◌else◌,
}
use tms_api.Constants.HttpStatus
use tms_api.Constants.ErrorCodes
use tms_api.Errors.{
  ErrorResponse, error_handler, unauthorized_error, forbidden_error, validation_error, unexpected,
}
use tms_api.Prisma.{Client}
use tms_api.Runtime.{Runtime}
use tms_api.Database.{Database, UserRole, employee, manager, admin}
use tms_api.Database.Action.{Action, Result, ok, thrown, ◌>>=◌, ◌>>◌, throw, throw_if, or_throw}
use tms_api.Service.{JwtPayload}
use tms_api.Auth.{
  AuthContext, RegisterDto, LoginDto, AuthResult, register_user, login_user, refresh_access_token,
}
use tms_api.Http.Schemas.{register_schema, login_schema}
use tms_api.Http.Routes.{Call, roles_of, is_valid, success_status, dispatch}

-- The runtime, the libraries of the auth service, and zod: its test of email addresses, and the
-- text of a failed validation.
pub record Server : Type 0 where
  pub runtime : Runtime
  pub auth : AuthContext
  pub is_email : String → Bool
  pub zod_messages : Call → String
  pub auth_messages : String

-- The calls of src/routes/auth.routes.ts without `authenticate`; `refresh` has the cookie's value.
pub data PublicCall : Type 0 where
  register : RegisterDto → PublicCall
  login : LoginDto → PublicCall
  refresh : Option String → PublicCall

-- A call of either kind; a protected one with its `Authorization` header.
pub data Event : Type 0 where
  protected : Option String → Call → Event
  public : PublicCall → Event

abbrev pub public_status : PublicCall → ℕ
public_status (register dto) = HttpStatus.created
public_status _ = HttpStatus.ok

-- A response, without the data of a success.
pub data Response : Type 0 where
  success : ℕ → Response
  failure : ErrorResponse → Response

-- The text up to the first space, and after it.
abbrev pub word : String → String
word String.[] = ""
word (String.◌∷◌ ch text) = if code ch == 32 then "" else String.◌∷◌ ch (word text)

abbrev pub after_word : String → String
after_word String.[] = ""
after_word (String.◌∷◌ ch text) = if code ch == 32 then text else after_word text

-- `authHeader.split(' ')[1]` of a header that starts with `Bearer `.
abbrev pub bearer_token : Option String → Option String
bearer_token none = none
bearer_token (some header) =
    if starts_with header "Bearer " then some (word (after_word header)) else none

-- `!secret` does not hold.
abbrev pub filled : Option String → Option String
filled none = none
filled (some text) = if str_eq text "" then none else some text

abbrev pub same_role : UserRole → UserRole → Bool
same_role employee employee = true
same_role manager manager = true
same_role admin admin = true
same_role _ _ = false

-- `roles.includes(req.user.role)`, where the route has the guard.
abbrev pub may_call : Option (List UserRole) → UserRole → Bool
may_call none role = true
may_call (some roles) role = any (same_role role) roles

-- An error that `jwt.verify` throws is none of the application's.
unfoldable pub authenticate : AuthContext → Option String → Action JwtPayload
authenticate ctx header = do
  token ← or_throw (bearer_token header) (unauthorized_error "No token provided")
  secret ← or_throw (filled ctx.env.jwt_secret) unexpected
  or_throw (ctx.jwt.verify ctx.now token secret) unexpected

unfoldable pub require_role : Option (List UserRole) → JwtPayload → Action (Unit {0})
require_role roles user =
    throw_if (not (may_call roles user.role))
      (forbidden_error "Insufficient permissions" ErrorCodes.forbidden)

-- What the client is answered.
abbrev pub answer : {A : Type 0} → ℕ → Result A → Response
answer status (ok a) = success status
answer status (thrown e) = failure (error_handler e)

module _ (c : Client) (s : Server) where
  -- The middleware of a protected route, in the order of the routes, and its controller.
  unfoldable pub run : Option String → Call → Action (Unit {0})
  run header call = do
    user ← authenticate s.auth header
    require_role (roles_of call) user
    throw_if (not (is_valid s.is_email call)) (validation_error (s.zod_messages call))
    dispatch c s.runtime s.auth user call

  unfoldable pub respond : Option String → Call → Database → Response × Database
  respond header call db =
      let (result, new) = run header call db in (answer (success_status call) result, new)

  -- The public routes of src/routes/auth.routes.ts with their controllers.
  unfoldable pub run_public : PublicCall → Action AuthResult
  run_public (register dto) = do
    throw_if (not (register_schema s.is_email dto)) (validation_error s.auth_messages)
    register_user c s.auth dto
  run_public (login dto) = do
    throw_if (not (login_schema s.is_email dto)) (validation_error s.auth_messages)
    login_user c s.auth dto
  run_public (refresh none) = throw (unauthorized_error "No refresh token")
  run_public (refresh (some token)) =
      if str_eq token ""
      then throw (unauthorized_error "No refresh token")
      else refresh_access_token c s.auth token

  unfoldable pub respond_public : PublicCall → Database → Response × Database
  respond_public call db =
      let (result, new) = run_public call db in (answer (public_status call) result, new)

  unfoldable pub respond_event : Event → Database → Response × Database
  respond_event (protected header call) db = respond header call db
  respond_event (public call) db = respond_public call db

-- The database after a history of calls, each with the clock and the environment that it finds.
unfoldable pub serve_calls : Client → List (Server × Event) → Database → Database
serve_calls c [] db = db
serve_calls c ((s, event) ∷ rest) db = serve_calls c rest (respond_event c s event db).1
