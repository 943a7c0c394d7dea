-- ===== src/Auth.antt =====
-- src/services/auth.service.ts: registration, login, rotation of the refresh token, logout.
pub mod Tokens
pub mod Registration
pub mod Rotation
pub mod Lockout
use text.Mathlib.Text.{◌==◌ as str_eq}
use tms_api.Prelude.{
  any, [], ◌∷◌, Bool, ℕ, String, Bool, true, false, not, ◌||◌, Option, none, some, is_some, ◌==◌,
  if◌then◌else◌,
}
use tms_api.Errors.{unauthorized_error, conflict_error, unexpected}
use tms_api.Prisma.{Client}
use tms_api.Dates.{Date}
use tms_api.Database.{User, UserRole, admin, organisation, org_setting, user}
use tms_api.Database.Action.{
  Action, ◌>>=◌, ◌>>◌, pure, throw, throw_if, or_throw, transaction, find_first, create, update,
}
use tms_api.Organisation.{default_settings}
use tms_api.Database.Constraints.{too_long}
use tms_api.Service.{JwtPayload}

-- bcryptjs, at the source's number of rounds. `seen` is the part of a text that it reads.
pub record Bcrypt : Type 0 where
  pub seen : String → String
  pub hash : String → String
  pub compare : String → String → Bool

-- jsonwebtoken: `sign now payload secret expires_in`, and `verify now token secret`, where `none`
-- is a thrown error (a bad signature, an expired token, …).
pub record Jwt : Type 0 where
  pub sign : Date → JwtPayload → String → String → String
  pub verify : Date → String → String → Option JwtPayload

-- `process.env`, with the source's defaults for the two lifetimes.
pub record Env : Type 0 where
  pub jwt_secret : Option String
  pub jwt_refresh_secret : Option String
  pub jwt_expires_in : String
  pub jwt_refresh_expires_in : String

-- What the service works with: the libraries, the environment, and the time of the call.
pub record AuthContext : Type 0 where
  pub bcrypt : Bcrypt
  pub jwt : Jwt
  pub env : Env
  pub now : Date
  -- equality of texts in the database, by its collation utf8mb4_unicode_ci
  pub same_text : String → String → Bool

pub record RegisterDto : Type 0 where
  pub organisation_name : String
  pub name : String
  pub email : String
  pub password : String

pub record LoginDto : Type 0 where
  pub email : String
  pub password : String

pub record AuthUser : Type 0 where
  pub user_id : ℕ
  pub org_id : ℕ
  pub role : UserRole
  pub name : String
  pub email : String

pub record AuthResult : Type 0 where
  pub access_token : String
  pub refresh_token : String
  pub user : AuthUser

abbrev pub payload_of : User → JwtPayload
payload_of u = record { user_id = u.id; org_id = u.organisation_id; role = u.role }

abbrev pub auth_user : User → AuthUser
auth_user u = record {
  user_id = u.id;
  org_id = u.organisation_id;
  role = u.role;
  name = u.name;
  email = u.email;
}

-- The refresh token's hash, where `!user?.refreshToken` does not hold.
abbrev pub stored_token : Option User → Option (User × String)
stored_token none = none
stored_token (some u) = elim u.refresh_token [
  | none ↦ none
  | some text ↦ if str_eq text "" then none else some (u, text)
]

-- The account that may log in: `!user || user.status === 'inactive'` does not hold.
abbrev pub usable : Option User → Option User
usable none = none
usable (some u) = if str_eq u.status "inactive" then none else some u

module _ (ctx : AuthContext) where
  -- Both signers fail where their secret is not set.
  unfoldable pub sign_access_token : JwtPayload → Action String
  sign_access_token payload = do
    secret ← or_throw ctx.env.jwt_secret unexpected
    pure (ctx.jwt.sign ctx.now payload secret ctx.env.jwt_expires_in)

  unfoldable pub sign_refresh_token : JwtPayload → Action String
  sign_refresh_token payload = do
    secret ← or_throw ctx.env.jwt_refresh_secret unexpected
    pure (ctx.jwt.sign ctx.now payload secret ctx.env.jwt_refresh_expires_in)

  -- `jwt.verify` in its `try`.
  abbrev pub verify_refresh : String → Option JwtPayload
  verify_refresh token = elim ctx.env.jwt_refresh_secret [
    | none ↦ none
    | some secret ↦ ctx.jwt.verify ctx.now token secret
  ]

module _ (c : Client) (ctx : AuthContext) where
  -- The end of the three operations: two new tokens, and the hash of one stored.
  unfoldable pub issue_tokens : User → Action AuthResult
  issue_tokens u = do
    access ← sign_access_token ctx (payload_of u)
    refresh ← sign_refresh_token ctx (payload_of u)
    update c user (λ v. v.id == u.id)
        (λ v. record v { refresh_token = some (ctx.bcrypt.hash refresh) })
    pure (record { access_token = access; refresh_token = refresh; user = auth_user u })

  -- The transaction of `registerUser`: the organisation, its settings, and its first admin.
  unfoldable pub create_organisation : RegisterDto → Action User
  create_organisation dto = transaction (do
    throw_if (any too_long (dto.organisation_name ∷ dto.name ∷ dto.email ∷ [])) unexpected
    org ← create c organisation (λ id. record { id = id; name = dto.organisation_name })
    create c org_setting (default_settings org.id)
    create c user (λ id. record {
      id = id;
      organisation_id = org.id;
      name = dto.name;
      email = dto.email;
      password_hash = ctx.bcrypt.hash dto.password;
      role = admin;
      department = none;
      status = "active";
      refresh_token = none;
    }))

  unfoldable pub register_user : RegisterDto → Action AuthResult
  register_user dto = do
    existing ← find_first c user (λ u. ctx.same_text u.email dto.email)
    throw_if (is_some existing) (conflict_error "Email address is already registered")
    u ← create_organisation dto
    issue_tokens u

  unfoldable pub login_user : LoginDto → Action AuthResult
  login_user dto = do
    found ← find_first c user (λ u. ctx.same_text u.email dto.email)
    u ← or_throw (usable found) (unauthorized_error "Invalid email or password")
    throw_if (not (ctx.bcrypt.compare dto.password u.password_hash))
        (unauthorized_error "Invalid email or password")
    issue_tokens u

  -- A mismatch wipes the stored token before the throw.
  unfoldable pub revoke : ℕ → Action AuthResult
  revoke user_id = do
    update c user (λ v. v.id == user_id) (λ v. record v { refresh_token = none })
    throw (unauthorized_error "Refresh token mismatch")

  unfoldable pub refresh_access_token : String → Action AuthResult
  refresh_access_token token = do
    payload ←
        or_throw (verify_refresh ctx token) (unauthorized_error "Invalid or expired refresh token")
    found ← find_first c user (λ u. u.id == payload.user_id)
    (u, stored) ← or_throw (stored_token found) (unauthorized_error "Refresh token revoked")
    if ctx.bcrypt.compare token stored then issue_tokens u else revoke payload.user_id

  unfoldable pub logout_user : ℕ → Action User
  logout_user user_id =
      update c user (λ u. u.id == user_id) (λ u. record u { refresh_token = none })
