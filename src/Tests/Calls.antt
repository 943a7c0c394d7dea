-- ===== src/Tests/Calls.antt =====
-- Witnesses on the whole interface: calls with their headers, and a history of them.
use mathlib.Core.Option.{some-injective}
use tms_api.Timesheets.Effects.Entries.{entries_of}
use tms_api.Prelude.{
  map, ◌≡◌, ◌≢◌, sym, ap, refl, Option, String, true, some, none, List, [], ◌∷◌, arith,
}
use tms_api.Prisma.{in_memory, in_memory-IsLawful}
use tms_api.Database.{draft, submitted, manager, admin}
use tms_api.Service.{JwtPayload, approve, create_entry}
use tms_api.Http.Routes.{timesheets, mark_all_read, create_user}
use tms_api.Http.Server.{Server, Event, protected, public, login, serve_calls}
use tms_api.Http.Admission.{IsVerified}
use tms_api.Http.History.{IsServed, serve_calls-IsServed}
use tms_api.Http.Tenants.{Holds, serve_calls-Holds}
use tms_api.Tests.Data.{sheet, runtime, filled, filled-IsSound, new_hours}
use tms_api.Http.Privileges.{serve_calls-GrantsNone}
use tms_api.Users.Roles.{GrantsNone}
use tms_api.Tests.Sessions.{context}
use tms_api.Tests.Administration.{new_user}

abbrev server : Server
server = record {
  runtime = runtime;
  auth = context;
  is_email = λ text. true;
  zod_messages = λ call. "";
  auth_messages = "";
}

-- The calls, all of one server and time.
abbrev at : Server → List Event → List (Server × Event)
at s events = map (λ e. (s, e)) events

abbrev calls : List Event
calls =
    public (login (record { email = "a@b"; password = "p" }))
    ∷ protected (some "Bearer token") (timesheets (create_entry 1 new_hours))
    ∷ protected none mark_all_read
    ∷ []

serve_calls-IsServed_example : IsServed (serve_calls in_memory (at server calls) (filled draft))
serve_calls-IsServed_example =
    serve_calls-IsServed in_memory in_memory-IsLawful (at server calls) (filled draft)
      (record { sound = filled-IsSound draft; in_bounds = ground arith })

-- Every token is one of another organisation.
abbrev outsiders : Server
outsiders = record server {
  auth = record context {
    jwt = record {
      sign = λ now payload secret expires. "token";
      verify = λ now token secret. some (record { user_id = 1; org_id = 2; role = admin });
    };
  };
}

outsiders_org :
    (header : Option String) (user : JwtPayload)
    → IsVerified outsiders header user
    → user.org_id ≡ 2
outsiders_org header user v = sym (ap (λ u. u.org_id) (some-injective _ _ v.verified))

serve_calls-Holds_example :
    Holds 1
      (sheet draft)
      (entries_of 1 (filled draft).time_entries.rows)
      (serve_calls in_memory (at outsiders calls) (filled draft))
serve_calls-Holds_example =
    serve_calls-Holds in_memory in_memory-IsLawful (at outsiders calls) (filled draft)
      (record { sound = filled-IsSound draft; in_bounds = ground arith }) 1 (sheet draft) refl
      (
        tt,
        (
          (λ user v. grind (arith, outsiders_org _ user v)),
          ((λ user v. grind (arith, outsiders_org _ user v)), tt),
        ),
      )

-- Every token is a manager's.
abbrev managed : Server
managed = record server {
  auth = record context {
    jwt = record {
      sign = λ now payload secret expires. "token";
      verify = λ now token secret. some (record { user_id = 2; org_id = 1; role = manager });
    };
  };
}

abbrev hirings : List Event
hirings =
    public (login (record { email = "a@b"; password = "p" }))
    ∷ protected (some "Bearer token") (create_user new_user)
    ∷ protected (some "Bearer token") (timesheets (approve 1))
    ∷ []

managed_role :
    (header : Option String) (user : JwtPayload)
    → IsVerified managed header user
    → user.role ≢ admin
managed_role header user v is_admin =
    let is_manager : manager ≡ user.role = ap (λ u. u.role) (some-injective _ _ v.verified) in cc

serve_calls-GrantsNone_example :
    GrantsNone (filled submitted) (serve_calls in_memory (at managed hirings) (filled submitted))
serve_calls-GrantsNone_example =
    serve_calls-GrantsNone in_memory in_memory-IsLawful (at managed hirings) (filled submitted)
      (tt, (managed_role _, (managed_role _, tt)))
