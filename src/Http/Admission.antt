-- ===== src/Http/Admission.antt =====
-- Which calls reach a controller, and how the others are answered.
use tms_api.Prelude.{
  ap, ◌∙◌, ◌≡◌, ◌⊎◌, inl, inr, refl, String, true, false, Option, none, some, Option-cases,
  Bool-cases,
}
use tms_api.Errors.{
  Thrown, error_handler, unauthorized_error, forbidden_error, validation_error, unexpected,
}
use tms_api.Constants.ErrorCodes
use tms_api.Prisma.{Client}
use tms_api.Database.{Database}
use tms_api.Database.Action.{Result, ok, thrown, or_throw}
use tms_api.Database.Runs.{
  bind-ok, bind-thrown, then-ok, then-thrown, or_throw-some, or_throw-none, throw_if-true,
  throw_if-false,
}
use tms_api.Service.{JwtPayload}
use tms_api.Http.Routes.{Call, roles_of, is_valid, success_status, dispatch}
use tms_api.Http.Server.{
  Server, failure, bearer_token, filled, may_call, answer, authenticate, require_role, run, respond,
}

-- The token of a header verifies as a user's.
pub record IsVerified (s : Server) (header : Option String) (user : JwtPayload) : Type 0 where
  pub token : String
  pub is_token : bearer_token header ≡ some token
  pub secret : String
  pub is_secret : filled s.auth.env.jwt_secret ≡ some secret
  pub verified : s.auth.jwt.verify s.auth.now token secret ≡ some user

-- The errors of the middleware.
pub data Refusal (s : Server) (header : Option String) (call : Call) : Thrown → Type 0 where
  no_token :
      bearer_token header ≡ none → Refusal s header call (unauthorized_error "No token provided")
  no_secret : filled s.auth.env.jwt_secret ≡ none → Refusal s header call unexpected
  not_verified :
      (token secret : String)
      → bearer_token header ≡ some token
      → filled s.auth.env.jwt_secret ≡ some secret
      → s.auth.jwt.verify s.auth.now token secret ≡ none
      → Refusal s header call unexpected
  wrong_role :
      (user : JwtPayload)
      → IsVerified s header user
      → may_call (roles_of call) user.role ≡ false
      → Refusal s header call (forbidden_error "Insufficient permissions" ErrorCodes.forbidden)
  bad_body :
      (user : JwtPayload)
      → IsVerified s header user
      → may_call (roles_of call) user.role ≡ true
      → is_valid s.is_email call ≡ false
      → Refusal s header call (validation_error (s.zod_messages call))

-- The call passes the middleware as a call of `user`.
abbrev pub IsAdmitted : Server → Option String → Call → JwtPayload → Type 0
IsAdmitted s header call user =
    IsVerified s header user
    × (may_call (roles_of call) user.role ≡ true)
    × (is_valid s.is_email call ≡ true)

module _ (c : Client) (s : Server) (header : Option String) (call : Call) (db : Database) where
  abbrev pub Refused : Type 0
  Refused =
      (e : Thrown) × Refusal s header call e
      × (respond c s header call db ≡ (failure (error_handler e), db))

  abbrev pub Admitted : Type 0
  Admitted =
      (user : JwtPayload) × IsAdmitted s header call user
      × (let (result, new) = dispatch c s.runtime s.auth user call db in
          respond c s header call db ≡ (answer (success_status call) result, new))

  is_answered :
      (result : Result (Unit {0})) (new : Database)
      → run c s header call db ≡ (result, new)
      → respond c s header call db ≡ (answer (success_status call) result, new)
  unfolding respond
  is_answered result new e = ap (λ r. (answer (success_status call) r.0, r.1)) e

  refuse :
      (e : Thrown)
      → Refusal s header call e
      → run c s header call db ≡ (thrown e, db)
      → Refused ⊎ Admitted
  refuse e why h = inl (e, why, is_answered (thrown e) db h)

  verified_call :
      (user : JwtPayload)
      → IsVerified s header user
      → authenticate s.auth header db ≡ (ok user, db)
      → Refused ⊎ Admitted
  unfolding run require_role
  verified_call user v authentic = elim (Bool-cases (may_call (roles_of call) user.role)) [
    | inr wrong ↦
        refuse _ (wrong_role user v wrong)
          (bind-ok _ _ user authentic ∙ then-thrown _ _ _ (throw_if-true db _ _ (rw wrong refl)))
    | inl right ↦ elim (Bool-cases (is_valid s.is_email call)) [
      | inr bad ↦ refuse _ (bad_body user v right bad) (
          bind-ok _ _ user authentic
          ∙ then-ok _ _ tt (throw_if-false db _ _ (rw right refl))
          ∙ then-thrown _ _ _ (throw_if-true db _ _ (rw bad refl)))
      | inl good ↦ inr (
        user,
        (v, right, good),
        is_answered _ _ (
            bind-ok _ _ user authentic
            ∙ then-ok _ _ tt (throw_if-false db _ _ (rw right refl))
            ∙ then-ok _ _ tt (throw_if-false db _ _ (rw good refl))),
      )
    ]
  ]

  -- A protected call is refused, with the error response of the middleware that refuses it and
  -- nothing written; or its token verifies as a user's, whose role the route lists, its body is
  -- valid, and the controller's result for that user is the answer.
  pub respond-Refused-Admitted : Refused ⊎ Admitted
  unfolding run authenticate
  respond-Refused-Admitted = elim (Option-cases (bearer_token header)) [
    | inl e ↦ refuse _ (no_token e) (bind-thrown _ _ _ (bind-thrown _ _ _ (or_throw-none db _ _ e)))
    | inr (token, is_token) ↦ elim (Option-cases (filled s.auth.env.jwt_secret)) [
      | inl e ↦ refuse _ (no_secret e) (
          bind-thrown _ _ _ (
            bind-ok _ _ token (or_throw-some db _ _ token is_token)
            ∙ bind-thrown _ _ _ (or_throw-none db _ _ e)))
      | inr (secret, is_secret) ↦
          let known : authenticate s.auth header db
              ≡ or_throw (s.auth.jwt.verify s.auth.now token secret) unexpected db =
            bind-ok _ _ token (or_throw-some db _ _ token is_token)
            ∙ bind-ok _ _ secret (or_throw-some db _ _ secret is_secret) in
          elim (Option-cases (s.auth.jwt.verify s.auth.now token secret)) [
            | inl e ↦
                refuse _ (not_verified token secret is_token is_secret e)
                  (bind-thrown _ _ _ (known ∙ or_throw-none db _ _ e))
            | inr (user, verified) ↦
                verified_call user
                  (record {
                    token = token;
                    is_token = is_token;
                    secret = secret;
                    is_secret = is_secret;
                    verified = verified;
                  })
                  (known ∙ or_throw-some db _ _ user verified)
          ]
    ]
  ]
