-- ===== src/Auth/Lockout.antt =====
-- After `logoutUser` and after `deactivateUser` an account has no refresh token, and an inactive
-- account has no login.
use tms_api.Prelude.{
  ℕ, ◌≡◌, refl, ap, ◌∙◌, String, true, none, some, some-none, first, change, ◌==◌, ==_refl,
  if◌then◌else◌,
}
use tms_api.Errors.{unauthorized_error}
use tms_api.Prisma.{Client, IsLawful, in_memory, in_memory-eq}
use tms_api.Prisma.Rows.{first-change_found}
use tms_api.Prisma.Keys.{IsKeyed}
use tms_api.Database.{Database, User, UserRole, user}
use tms_api.Database.Action.{calls, find_first, thrown}
use tms_api.Database.Triple.{After, After-update, After-weaken}
use tms_api.Service.{JwtPayload}
use tms_api.Users.{deactivate_user, deactivated}
use tms_api.Users.Scope.{deactivate_user-IsDeactivated}
use tms_api.Auth.{
  AuthContext, LoginDto, stored_token, usable, verify_refresh, refresh_access_token, login_user,
  logout_user,
}
use tms_api.Auth.Tokens.{set_token}
use tms_api.Auth.Rotation.{first-tokened}

-- The refresh token is refused, and nothing is written.
abbrev pub Refuses : Client → AuthContext → String → Database → Type 0
Refuses c ctx token db =
    refresh_access_token c ctx token db ≡ (thrown (unauthorized_error "Refresh token revoked"), db)

-- The login is refused, and nothing is written.
abbrev pub RefusesLogin : Client → AuthContext → LoginDto → Database → Type 0
RefusesLogin c ctx dto db =
    login_user c ctx dto db ≡ (thrown (unauthorized_error "Invalid email or password"), db)

no_stored_token : (u : User) → u.refresh_token ≡ none → stored_token (some u) ≡ none
no_stored_token u gone = simp gone

is_unusable : (u : User) → u.status ≡ "inactive" → usable (some u) ≡ none
is_unusable u is_inactive = simp is_inactive

pub no_token-Refuses :
    (ctx : AuthContext) (token : String) (payload : JwtPayload) (db : Database) (u : User)
    → verify_refresh ctx token ≡ some payload
    → first (λ v. v.id == payload.user_id) db.users.rows ≡ some u
    → u.refresh_token ≡ none
    → Refuses in_memory ctx token db
unfolding refresh_access_token calls find_first
no_token-Refuses ctx token payload db u verified found gone =
    simp (verified, found, no_stored_token u gone, find_first)

pub inactive-RefusesLogin :
    (ctx : AuthContext) (dto : LoginDto) (db : Database) (u : User)
    → first (λ v. ctx.same_text v.email dto.email) db.users.rows ≡ some u
    → u.status ≡ "inactive"
    → RefusesLogin in_memory ctx dto db
unfolding login_user calls find_first
inactive-RefusesLogin ctx dto db u found is_inactive =
    simp (found, is_unusable u is_inactive, find_first)

found_changed :
    (ctx : AuthContext) (email : String) (id : ℕ) (db : Database) (u : User)
    → first (λ v. ctx.same_text v.email email) db.users.rows ≡ some u
    → u.id ≡ id
    → first (λ v. ctx.same_text v.email email) (change (λ v. v.id == id) deactivated db.users.rows)
      ≡ some (deactivated u)
found_changed ctx email id db u by_email is_u =
    let hit : (u.id == id) ≡ true = rw is_u (==_refl id) in
    first-change_found (λ (v : User). ctx.same_text v.email email) (λ v. v.id == id) deactivated
      db.users.rows u (λ s. refl) by_email
    ∙ ap (λ b. some (if b then deactivated u else u)) hit

module _ (c : Client) (ctx : AuthContext) (lawful : IsLawful c) (token : String)
    (payload : JwtPayload) (verified : verify_refresh ctx token ≡ some payload) (db : Database)
    (u : User) where
  -- Logging an existing account out does not throw, and after it every refresh token of the account
  -- is refused, also one that still verifies.
  pub logout_user-Refuses :
      first (λ v. v.id == payload.user_id) db.users.rows ≡ some u
      → After (λ _. ⊥) (λ _ new. Refuses c ctx token new) (logout_user c ctx payload.user_id) db
  unfolding logout_user
  logout_user-Refuses found = rw (in_memory-eq lawful) (
      After-update user _ _ (λ missing. absurd (some-none found missing))
        (λ r _.
          no_token-Refuses ctx token payload _ (set_token none u) verified
            (first-tokened payload.user_id payload.user_id none db u refl found) refl))

  -- With distinct user ids: after an account is deactivated, every refresh token of it is refused,
  -- also one that still verifies, and so is every login with its email address. A call that throws
  -- has written nothing.
  pub deactivate_user-Refuses :
      (dto : LoginDto) (org_id requesting_id : ℕ) (role : UserRole)
      → IsKeyed (λ (v : User). v.id) db.users
      → first (λ v. ctx.same_text v.email dto.email) db.users.rows ≡ some u
      → u.id ≡ payload.user_id
      → After
          (λ new. new ≡ db)
          (λ _ new. Refuses c ctx token new × RefusesLogin c ctx dto new)
          (deactivate_user c payload.user_id org_id requesting_id role)
          db
  deactivate_user-Refuses dto org_id requesting_id role keys by_email is_u =
      After-weaken
        (λ _ new d. rw (in_memory-eq lawful) (
          no_token-Refuses ctx token payload new (deactivated d.u) verified d.row refl,
          inactive-RefusesLogin ctx dto new (deactivated u)
              (rw d.rows (found_changed ctx dto.email payload.user_id db u by_email is_u)) refl,
        ))
        (deactivate_user-IsDeactivated c lawful payload.user_id org_id requesting_id role db keys)
