-- ===== src/Service.antt =====
-- The requests that change timesheets, as the controllers pass them to the services
-- (src/controllers/timesheets.controller.ts and src/controllers/approvals.controller.ts).
pub mod Invariant
pub mod EntryChanges
pub mod Copies
pub mod Totals
pub mod Evolution
pub mod Lifecycle
pub mod OnePerWeek
pub mod Copying
use tms_api.Prelude.{ℕ, String, Bool, Option, List, [], ◌∷◌}
use tms_api.Prisma.{Client}
use tms_api.Runtime.{Runtime}
use tms_api.Database.{Database, UserRole}
use tms_api.Database.Action.{Action, ◌>>◌, pure}
use tms_api.Timesheets.Sheets.{
  create_timesheet, update_timesheet, delete_timesheet, submit_timesheet,
}
use tms_api.Timesheets.CopyWeek
use tms_api.Timesheets.Entries
use tms_api.Timesheets.Entries.{CreateEntryDto, UpdateEntryDto}
use tms_api.Approvals.{approve_timesheet, reject_timesheet}

-- `req.user`, the payload of the access token.
pub record JwtPayload : Type 0 where
  pub user_id : ℕ
  pub org_id : ℕ
  pub role : UserRole

pub data Request : Type 0 where
  create : String → Request
  update : ℕ → Option String → Request
  remove : ℕ → Request
  submit : ℕ → Request
  copy_previous_week : String → Bool → Request
  create_entry : ℕ → CreateEntryDto → Request
  update_entry : ℕ → ℕ → UpdateEntryDto → Request
  delete_entry : ℕ → ℕ → Request
  approve : ℕ → Request
  reject : ℕ → String → Request

module _ (c : Client) (rt : Runtime) where
  unfoldable pub handle : JwtPayload → Request → Action (Unit {0})
  handle user (create text) = create_timesheet c rt user.user_id user.org_id text >> pure tt
  handle user (update id text) = update_timesheet c rt id user.user_id user.org_id text >> pure tt
  handle user (remove id) = delete_timesheet c id user.user_id user.org_id
  handle user (submit id) = submit_timesheet c id user.user_id user.org_id >> pure tt
  handle user (copy_previous_week text force) =
      CopyWeek.copy_previous_week c rt user.user_id user.org_id text user.role force >> pure tt
  handle user (create_entry id dto) =
      Entries.create_entry c rt id user.user_id user.org_id dto user.role >> pure tt
  handle user (update_entry id eid dto) =
      Entries.update_entry c id eid user.user_id user.org_id dto user.role >> pure tt
  handle user (delete_entry id eid) = Entries.delete_entry c id eid user.user_id user.org_id
  handle user (approve id) = approve_timesheet c rt id user.user_id user.org_id user.role >> pure tt
  handle user (reject id reason) =
      reject_timesheet c rt id user.user_id user.org_id reason user.role >> pure tt

  -- The database after a history of requests; a request that throws is answered with its error.
  unfoldable pub serve : List (JwtPayload × Request) → Database → Database
  serve [] db = db
  serve ((user, request) ∷ rest) db = serve rest (handle user request db).1
