-- ===== src/Tests/Sessions.antt =====
-- Witnesses on accounts and their tokens, with a small bcrypt and a small jsonwebtoken.
use text.Mathlib.Text.{◌==◌ as str_eq}
use text.Mathlib.TextEquality.{eq_iff}
use mathlib.Core.Bool.{true≢false}
use tms_api.Prelude.{
  any, ◌⊎◌, sym, ◌≡◌, refl, String, true, some, none, is_some, inl, inr, Bool-cases, first,
  if◌then◌else◌, [], ◌∷◌, ◌==◌, arith,
}
use tms_api.Prisma.{in_memory, in_memory-IsLawful}
use tms_api.Database.{Database, User, employee, manager, admin}
use tms_api.Database.Triple.{After}
use tms_api.Users.{deactivate_user}
use tms_api.Auth.{
  Bcrypt, Jwt, AuthContext, RegisterDto, auth_user, refresh_access_token, logout_user,
  register_user, login_user,
}
use tms_api.Auth.Tokens.{IsBcrypt, HasSecrets, set_token}
use tms_api.Auth.Rotation.{Holds, refresh_access_token-accepts, refresh_access_token-wipes}
use tms_api.Auth.Registration.{register_user-login_user}
use tms_api.Auth.Lockout.{Refuses, RefusesLogin, logout_user-Refuses, deactivate_user-Refuses}
use tms_api.Database.Constraints.{too_long}
use tms_api.Tests.Data.{date, account, database}

abbrev only_old : String → String
only_old text = if str_eq text "old" then "a" else "b"

abbrev bcrypt : Bcrypt
bcrypt = record {
  seen = only_old;
  hash = only_old;
  compare = λ text hash. str_eq (only_old text) hash;
}

bcrypt-IsBcrypt : IsBcrypt bcrypt
bcrypt-IsBcrypt = record {
  matches = λ x y. eq_iff (only_old x) (only_old y);
  not_empty = λ y. elim (Bool-cases (str_eq y "old")) [ inl e ↦ rw e refl | inr e ↦ rw e refl ];
}

abbrev jwt : Jwt
jwt = record {
  sign = λ now payload secret expires. "token";
  verify = λ now token secret. some (record { user_id = 1; org_id = 1; role = employee });
}

abbrev pub context : AuthContext
context = record {
  bcrypt = bcrypt;
  jwt = jwt;
  env = record {
    jwt_secret = some "s";
    jwt_refresh_secret = some "r";
    jwt_expires_in = "15m";
    jwt_refresh_expires_in = "7d";
  };
  now = date 703;
  same_text = str_eq;
}

secrets : HasSecrets context
secrets = record { access = "s"; is_access = refl; refresh = "r"; is_refresh = refl }

abbrev logged_in : User
logged_in = record (account 1 employee) { refresh_token = some "b"; email = "a@b" }

abbrev sessions : Database
sessions = record database {
  users = record { rows = logged_in ∷ account 2 manager ∷ []; next_id = 3 };
}

refresh_access_token-accepts_example :
    After
      (λ _. ⊥)
      (λ r new.
        (r.user ≡ auth_user logged_in)
        × Holds context r.refresh_token 1 new
            (set_token (some (only_old r.refresh_token)) logged_in))
      (refresh_access_token in_memory context "token")
      sessions
refresh_access_token-accepts_example =
    refresh_access_token-accepts in_memory context in_memory-IsLawful bcrypt-IsBcrypt "token"
      "token" (record { user_id = 1; org_id = 1; role = employee }) logged_in sessions refl
      (refl, refl) secrets refl

refresh_access_token-wipes_example :
    After
      (λ new. first (λ v. v.id == 1) new.users.rows ≡ some (set_token none logged_in))
      (λ _ _. ⊥)
      (refresh_access_token in_memory context "old")
      sessions
refresh_access_token-wipes_example =
    refresh_access_token-wipes in_memory context in_memory-IsLawful bcrypt-IsBcrypt "old" "token"
      (record { user_id = 1; org_id = 1; role = employee }) logged_in sessions refl (refl, refl)
      (λ e. true≢false (sym ((eq_iff "a" "b").1 e)))

logout_user-Refuses_example :
    After
      (λ _. ⊥)
      (λ _ new. Refuses in_memory context "token" new)
      (logout_user in_memory context 1)
      sessions
logout_user-Refuses_example =
    logout_user-Refuses in_memory context in_memory-IsLawful "token"
      (record { user_id = 1; org_id = 1; role = employee }) refl sessions logged_in refl

deactivate_user-Refuses_example :
    After
      (λ new. new ≡ sessions)
      (λ _ new.
        Refuses in_memory context "token" new
        × RefusesLogin in_memory context (record { email = "a@b"; password = "p" }) new)
      (deactivate_user in_memory 1 1 2 manager)
      sessions
deactivate_user-Refuses_example =
    deactivate_user-Refuses in_memory context in_memory-IsLawful "token"
      (record { user_id = 1; org_id = 1; role = employee }) refl sessions logged_in
      (record { email = "a@b"; password = "p" }) 1 2 manager
      (record { below = ground arith; distinct = ground arith }) refl refl

register_user-login_user_example :
    let dto : RegisterDto = record {
      organisation_name = "org";
      name = "n";
      email = "c@d";
      password = "p";
    } in
    After
      (λ new.
        ((is_some (first (λ v. str_eq v.email dto.email) sessions.users.rows) ≡ true)
          ⊎ (any too_long (dto.organisation_name ∷ dto.name ∷ dto.email ∷ []) ≡ true))
        × (new ≡ sessions))
      (λ r new.
        (r.user.role ≡ admin)
        × (r.user.org_id ≡ sessions.organisations.next_id)
        × After
            (λ _. ⊥)
            (λ again _. again.user ≡ r.user)
            (login_user in_memory context (record { email = "c@d"; password = "p" }))
            new)
      (register_user in_memory context dto)
      sessions
register_user-login_user_example =
    register_user-login_user context bcrypt-IsBcrypt secrets (λ text. (eq_iff text text).1 refl)
      in_memory in_memory-IsLawful
      (record { organisation_name = "org"; name = "n"; email = "c@d"; password = "p" }) sessions
