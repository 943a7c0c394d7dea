-- ===== src/Auth/Rotation.antt =====
-- Which refresh tokens `refreshAccessToken` accepts, and what it stores.
use tms_api.Prelude.{
  ℕ, ◌≡◌, ◌≢◌, refl, String, true, false, Option, none, some, some-none, inl, inr, Bool-cases,
  first, arith, ◌==◌, ==_refl,
}
use text.Mathlib.Text.{◌==◌ as str_eq}
use tms_api.Prisma.{Client, IsLawful, in_memory, in_memory-eq}
use tms_api.Prisma.Rows.{first-change, first_sound}
use tms_api.Database.{Database, User, user}
use tms_api.Database.Triple.{
  After, After-given, After-find_first, After-update, After-seq_then, After-throw,
}
use tms_api.Service.{JwtPayload}
use tms_api.Auth.{
  Bcrypt, AuthContext, AuthResult, auth_user, stored_token, verify_refresh, refresh_access_token,
  revoke,
}
use tms_api.Auth.Tokens.{IsBcrypt, HasSecrets, set_token, tokened, After-issue_tokens}

-- The row of an account after its token is written.
pub first-tokened :
    (key id : ℕ) (token : Option String) (db : Database) (u : User)
    → key ≡ id
    → first (λ v. v.id == id) db.users.rows ≡ some u
    → first (λ v. v.id == id) (tokened key token db).users.rows ≡ some (set_token token u)
first-tokened key id token db u same e =
    rw (same, first-change (λ (v : User). v.id) (set_token token) (λ v. refl) id id db.users.rows)
      (rw (==_refl id, e) refl)

pub found_id :
    (id : ℕ) (db : Database) (u : User) → first (λ v. v.id == id) db.users.rows ≡ some u → u.id ≡ id
found_id id db u e =
    let h : (u.id == id) ≡ true = first_sound _ db.users.rows u e in ground (arith, h)

-- The account holds the hash of the token `issued_last`.
abbrev pub Holds : AuthContext → String → ℕ → Database → User → Type 0
Holds ctx issued_last id db u =
    (first (λ v. v.id == id) db.users.rows ≡ some u)
    × (u.refresh_token ≡ some (ctx.bcrypt.hash issued_last))

stored_token-some :
    (u : User) (text : String)
    → u.refresh_token ≡ some text
    → str_eq text "" ≡ false
    → stored_token (some u) ≡ some (u, text)
stored_token-some u text is_text filled = simp (is_text, filled)

stored-Holds :
    (ctx : AuthContext) (issued_last : String) (id : ℕ) (db : Database) (u : User)
    → IsBcrypt ctx.bcrypt
    → Holds ctx issued_last id db u
    → stored_token (first (λ v. v.id == id) db.users.rows) ≡ some (u, ctx.bcrypt.hash issued_last)
stored-Holds ctx issued_last id db u bcrypt (found, holds) =
    rw found
      (stored_token-some u (ctx.bcrypt.hash issued_last) holds (bcrypt.not_empty issued_last))

mismatch :
    (b : Bcrypt)
    → IsBcrypt b
    → (x y : String) → b.seen x ≢ b.seen y
    → b.compare x (b.hash y) ≡ false
mismatch b bcrypt x y other = elim (Bool-cases (b.compare x (b.hash y))) [
  | inl hit ↦ absurd (other ((bcrypt.matches x y).0 hit))
  | inr miss ↦ miss
]

wiped :
    (ctx : AuthContext) (id : ℕ) (u : User) (db : Database)
    → first (λ v. v.id == id) db.users.rows ≡ some u
    → After
        (λ new. first (λ v. v.id == id) new.users.rows ≡ some (set_token none u))
        {A = AuthResult}
        (λ _ _. ⊥)
        (revoke in_memory ctx id)
        db
unfolding revoke
wiped ctx id u db found = After-seq_then _ _ (
    After-update user _ _ (λ missing. absurd (some-none found missing))
      (λ r _. After-throw _ (first-tokened id id none db u refl found)))

module _ (c : Client) (ctx : AuthContext) (lawful : IsLawful c) (bcrypt : IsBcrypt ctx.bcrypt)
    (token issued_last : String) (payload : JwtPayload) (u : User) (db : Database)
    (verified : verify_refresh ctx token ≡ some payload)
    (holds : Holds ctx issued_last payload.user_id db u) where
  -- A refresh token that verifies is accepted where bcrypt does not tell it from the one issued
  -- last: the call returns new tokens for the account, and the account holds the new one.
  pub refresh_access_token-accepts :
      HasSecrets ctx
      → ctx.bcrypt.seen token ≡ ctx.bcrypt.seen issued_last
      → After
          (λ _. ⊥)
          (λ r new.
            (r.user ≡ auth_user u)
            × Holds ctx r.refresh_token payload.user_id new
                (set_token (some (ctx.bcrypt.hash r.refresh_token)) u))
          (refresh_access_token c ctx token)
          db
  unfolding refresh_access_token
  refresh_access_token-accepts secrets same = rw (in_memory-eq lawful) (
      After-given _ _ _ payload verified (
        After-find_first user _ _ (
          After-given _ _ _ _ (stored-Holds ctx issued_last payload.user_id db u bcrypt holds) (
            rw ((bcrypt.matches token issued_last).1 same) (
              After-issue_tokens ctx secrets u
                (λ missing.
                  some-none holds.0 (rw (found_id payload.user_id db u holds.0) at missing))
                (
                  refl,
                  (
                    first-tokened u.id payload.user_id _ db u
                        (found_id payload.user_id db u holds.0) holds.0,
                    refl,
                  ),
                ))))))

  -- A refresh token that verifies, and that bcrypt tells from the one issued last, is refused, and
  -- the account's stored token is wiped.
  pub refresh_access_token-wipes :
      ctx.bcrypt.seen token ≢ ctx.bcrypt.seen issued_last
      → After
          (λ new. first (λ v. v.id == payload.user_id) new.users.rows ≡ some (set_token none u))
          (λ _ _. ⊥)
          (refresh_access_token c ctx token)
          db
  unfolding refresh_access_token
  refresh_access_token-wipes other = rw (in_memory-eq lawful) (
      After-given _ _ _ payload verified (
        After-find_first user _ _ (
          After-given _ _ _ _ (stored-Holds ctx issued_last payload.user_id db u bcrypt holds) (
            rw (mismatch ctx.bcrypt bcrypt token issued_last other)
              (wiped ctx payload.user_id u db holds.0)))))
