-- ===== src/Auth/Registration.antt =====
-- A registered account can log in.
use mathlib.Core.Bool.{true≢false}
use text.Mathlib.Text.{◌==◌ as str_eq}
use tms_api.Prelude.{
  any, ◌⊎◌, inl, inr, Bool-cases, ap, ◌≡◌, refl, sym, ◌∙◌, String, true, false, Option, none, some,
  is_some, List, [], ◌∷◌, ◌++◌, first, change, ◌==◌, ==_refl, if◌then◌else◌,
}
use tms_api.Prisma.{Client, IsLawful, in_memory, in_memory-eq}
use tms_api.Prisma.Rows.{first-change_found, first-append, first-append-ne-none, first-found}
use tms_api.Database.{Database, User, admin, user, organisation, org_setting}
use tms_api.Database.Triple.{
  After, After-given, After-find_first, After-create, After-throw_if, After-seq, After-seq_then,
  After-commit, After-rollback,
}
use tms_api.Database.Constraints.{too_long}
use tms_api.Auth.{
  AuthContext, RegisterDto, LoginDto, auth_user, usable, create_organisation, register_user,
  login_user,
}
use tms_api.Auth.Tokens.{IsBcrypt, HasSecrets, set_token, After-issue_tokens}

-- An account of the email address can log in with the password.
abbrev pub CanLogIn : AuthContext → LoginDto → Database → User → Type 0
CanLogIn ctx dto db u =
    (first (λ v. ctx.same_text v.email dto.email) db.users.rows ≡ some u)
    × (str_eq u.status "inactive" ≡ false)
    × (u.password_hash ≡ ctx.bcrypt.hash dto.password)

usable-some : (u : User) → str_eq u.status "inactive" ≡ false → usable (some u) ≡ some u
usable-some u active = rw active refl

is_some-none : {A : Type 0} (o : Option A) → is_some o ≡ false → o ≡ none
is_some-none none h = refl
is_some-none (some a) h = absurd (true≢false h)

module _ (ctx : AuthContext) (bcrypt : IsBcrypt ctx.bcrypt) (secrets : HasSecrets ctx)
    (reflexive : (text : String) → ctx.same_text text text ≡ true) where
  login_user-CanLogIn :
      (dto : LoginDto) (db : Database) (u : User)
      → CanLogIn ctx dto db u
      → After (λ _. ⊥) (λ r _. r.user ≡ auth_user u) (login_user in_memory ctx dto) db
  unfolding login_user
  login_user-CanLogIn dto db u (found, active, password) =
      let accepted : ctx.bcrypt.compare dto.password (ctx.bcrypt.hash dto.password) ≡ true =
        (bcrypt.matches dto.password dto.password).1 refl in
      After-find_first user _ _ (
        After-given _ _ _ u (rw found (usable-some u active)) (
          After-throw_if _ _ _ (λ fails. true≢false (sym fails ∙ rw (password, accepted) refl))
            (λ _.
              After-issue_tokens ctx secrets u
                (λ missing. first-found _ _ db.users.rows u found (==_refl u.id) missing) refl)))

  -- The row of the new account, after its token is stored.
  found_new :
      (email : String) (token : Option String) (rows : List User) (u : User)
      → is_some (first (λ v. ctx.same_text v.email email) rows) ≡ false
      → ctx.same_text u.email email ≡ true
      → first
          (λ v. ctx.same_text v.email email)
          (change (λ v. v.id == u.id) (set_token token) (rows ++ u ∷ []))
        ≡ some (set_token token u)
  found_new email token rows u unused own =
      let appended : first (λ v. ctx.same_text v.email email) (rows ++ u ∷ []) ≡ some u =
        rw (first-append (λ (v : User). ctx.same_text v.email email) rows (u ∷ []))
          (rw (is_some-none _ unused, own) refl) in
      first-change_found (λ (v : User). ctx.same_text v.email email) (λ v. v.id == u.id)
        (set_token token) (rows ++ u ∷ []) u (λ s. refl) appended
      ∙ ap (λ b. some (if b then set_token token u else u)) (==_refl u.id)

  -- Where the database compares every text as equal to itself: registration fails only where an
  -- account has the email address, as the database compares them, or the name of the organisation,
  -- the user's name or the address has more than 191 characters; it then writes nothing. Otherwise
  -- the new account, an admin of a new organisation, can log in with the email address and the
  -- password it was registered with.
  pub register_user-login_user :
      (c : Client)
      → IsLawful c
      → (dto : RegisterDto) (db : Database)
      → After
          (λ new.
            ((is_some (first (λ v. ctx.same_text v.email dto.email) db.users.rows) ≡ true)
              ⊎ (any too_long (dto.organisation_name ∷ dto.name ∷ dto.email ∷ []) ≡ true))
            × (new ≡ db))
          (λ r new.
            (r.user.role ≡ admin)
            × (r.user.org_id ≡ db.organisations.next_id)
            × After
                (λ _. ⊥)
                (λ again _. again.user ≡ r.user)
                (login_user c ctx (record { email = dto.email; password = dto.password }))
                new)
          (register_user c ctx dto)
          db
  unfolding register_user create_organisation
  register_user-login_user c lawful dto db =
      let long = any too_long (dto.organisation_name ∷ dto.name ∷ dto.email ∷ []) in
      rw (in_memory-eq lawful) (
        After-find_first user _ _ (
          After-throw_if _ _ _ (λ used. (inl used, refl))
            λ unused. After-seq _ _ (elim (Bool-cases long) [
              | inl bad ↦
                  After-rollback _ (inr bad, refl)
                    (After-throw_if _ _ _ (λ _. (inr bad, refl))
                      λ fits. absurd (true≢false (sym bad ∙ fits)))
              | inr fits ↦ After-commit _ (
                  After-throw_if _ _ _ (λ bad. absurd (true≢false (sym bad ∙ fits)))
                    λ _. After-seq _ _ (
                      After-create organisation _ (
                        After-seq_then _ _ (
                          After-create org_setting _ (
                            After-create user _ (
                              After-issue_tokens ctx secrets _
                                (λ missing. absurd (
                                  first-append-ne-none _ db.users.rows _ (==_refl db.users.next_id)
                                    missing))
                                (
                                  refl,
                                  refl,
                                  login_user-CanLogIn _ _ _ (
                                    found_new dto.email _ db.users.rows _ unused
                                        (reflexive dto.email),
                                    refl,
                                    refl,
                                  ),
                                )))))))
            ])))
