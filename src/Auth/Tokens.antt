-- ===== src/Auth/Tokens.antt =====
-- What the libraries promise, and what issuing and storing tokens write.
use tms_api.Prelude.{
  ℕ, ◌≡◌, ◌↔◌, String, true, false, Option, none, some, List, first, change, ◌==◌,
}
use text.Mathlib.Text.{◌==◌ as str_eq}
use tms_api.Prisma.{in_memory}
use tms_api.Database.{Database, User, user}
use tms_api.Service.{JwtPayload}
use tms_api.Database.Triple.{
  After, After-seq, After-seq_then, After-given, After-update, After-pure,
}
use tms_api.Auth.{
  Bcrypt, AuthContext, AuthResult, payload_of, auth_user, sign_access_token, sign_refresh_token,
  issue_tokens,
}

-- bcryptjs: a text matches a hash where the parts that bcrypt reads agree (its documentation: the
-- first 72 bytes). No hash is empty.
pub record IsBcrypt (b : Bcrypt) : Type 0 where
  pub matches : (x y : String) → (b.compare x (b.hash y) ≡ true) ↔ (b.seen x ≡ b.seen y)
  pub not_empty : (y : String) → str_eq (b.hash y) "" ≡ false

-- Both secrets are set.
pub record HasSecrets (ctx : AuthContext) : Type 0 where
  pub access : String
  pub is_access : ctx.env.jwt_secret ≡ some access
  pub refresh : String
  pub is_refresh : ctx.env.jwt_refresh_secret ≡ some refresh

abbrev pub with_users : Database → List User → Database
with_users db rows = record db { users = record { rows = rows; next_id = db.users.next_id } }

abbrev pub set_token : Option String → User → User
set_token token u = record u { refresh_token = token }

-- The database after `refreshToken` is written for one account.
abbrev pub tokened : ℕ → Option String → Database → Database
tokened id token db = with_users db (change (λ u. u.id == id) (set_token token) db.users.rows)

-- The answer of the three operations that issue tokens.
abbrev pub issued : (ctx : AuthContext) → HasSecrets ctx → User → AuthResult
issued ctx secrets u = record {
  access_token = ctx.jwt.sign ctx.now (payload_of u) secrets.access ctx.env.jwt_expires_in;
  refresh_token =
      ctx.jwt.sign ctx.now (payload_of u) secrets.refresh ctx.env.jwt_refresh_expires_in;
  user = auth_user u;
}

After-sign_access :
    {I : Database → Type 0} {Q : String → Database → Type 0} (ctx : AuthContext)
    (secrets : HasSecrets ctx) (p : JwtPayload) {db : Database}
    → Q (ctx.jwt.sign ctx.now p secrets.access ctx.env.jwt_expires_in) db
    → After I Q (sign_access_token ctx p) db
unfolding sign_access_token
After-sign_access ctx secrets p h =
    After-given _ _ _ secrets.access secrets.is_access (After-pure _ h)

After-sign_refresh :
    {I : Database → Type 0} {Q : String → Database → Type 0} (ctx : AuthContext)
    (secrets : HasSecrets ctx) (p : JwtPayload) {db : Database}
    → Q (ctx.jwt.sign ctx.now p secrets.refresh ctx.env.jwt_refresh_expires_in) db
    → After I Q (sign_refresh_token ctx p) db
unfolding sign_refresh_token
After-sign_refresh ctx secrets p h =
    After-given _ _ _ secrets.refresh secrets.is_refresh (After-pure _ h)

pub After-issue_tokens :
    {I : Database → Type 0} {Q : AuthResult → Database → Type 0} (ctx : AuthContext)
    (secrets : HasSecrets ctx) (u : User) {db : Database}
    → (first (λ v. v.id == u.id) db.users.rows ≡ none → I db)
    → (let r = issued ctx secrets u in
        Q r (tokened u.id (some (ctx.bcrypt.hash r.refresh_token)) db))
    → After I Q (issue_tokens in_memory ctx u) db
unfolding issue_tokens
After-issue_tokens ctx secrets u missing h = After-seq _ _ (
    After-sign_access ctx secrets (payload_of u) (
      After-seq _ _ (
        After-sign_refresh ctx secrets (payload_of u)
          (After-seq_then _ _ (After-update user _ _ missing λ r _. After-pure _ h)))))
