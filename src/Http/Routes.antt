-- ===== src/Http/Routes.antt =====
-- src/routes: the calls that change state, who may make them, what bodies they take, and the
-- controllers' functions behind them. A call is its path and method with the parsed parameters.
use tms_api.Prelude.{ℕ, String, Bool, true, Option, none, some, List, [], ◌∷◌}
use tms_api.Constants.HttpStatus
use tms_api.Prisma.{Client}
use tms_api.Runtime.{Runtime}
use tms_api.Database.{UserRole, manager, admin}
use tms_api.Database.Action.{Action, ◌>>◌, pure}
use tms_api.Team.{assign_managers}
use tms_api.Service
use tms_api.Service.{JwtPayload, Request, handle}
use tms_api.Users
use tms_api.Users.{CreateUserDto, UpdateUserDto}
use tms_api.Projects
use tms_api.Projects.{CreateProjectDto, UpdateProjectDto}
use tms_api.Organisation
use tms_api.Organisation.{UpdateSettingsDto, CreateHolidayDto}
use tms_api.Auth.{AuthContext, logout_user}
use tms_api.Http.Schemas.{
  create_timesheet_schema, update_timesheet_schema, create_time_entry_schema,
  update_time_entry_schema, reject_timesheet_schema, create_project_schema, update_project_schema,
  create_user_schema, update_user_schema, create_holiday_schema, update_settings_schema,
  set_user_managers_schema,
}

-- The calls behind `authenticate`: /timesheets and /approvals as a `Request`, then /users,
-- /projects, /settings, /holidays, /notifications, /team and /auth/logout.
pub data Call : Type 0 where
  timesheets : Request → Call
  create_user : CreateUserDto → Call
  update_user : ℕ → UpdateUserDto → Call
  remove_user : ℕ → Call
  create_project : CreateProjectDto → Call
  update_project : ℕ → UpdateProjectDto → Call
  remove_project : ℕ → Call
  update_settings : UpdateSettingsDto → Call
  create_holiday : CreateHolidayDto → Call
  remove_holiday : ℕ → Call
  mark_read : ℕ → Call
  mark_all_read : Call
  set_user_managers : ℕ → List ℕ → Call
  logout : Call

abbrev managers_up : Option (List UserRole)
managers_up = some (manager ∷ admin ∷ [])

abbrev admins : Option (List UserRole)
admins = some (admin ∷ [])

-- The roles that `requireRole` lists; `none` where the route has no such guard.
abbrev pub roles_of : Call → Option (List UserRole)
roles_of (timesheets (Service.approve id)) = managers_up
roles_of (timesheets (Service.reject id reason)) = managers_up
roles_of (timesheets _) = none
roles_of (create_user dto) = managers_up
roles_of (update_user id dto) = managers_up
roles_of (remove_user id) = managers_up
roles_of (create_project dto) = managers_up
roles_of (update_project id dto) = managers_up
roles_of (remove_project id) = managers_up
roles_of (update_settings dto) = admins
roles_of (create_holiday dto) = admins
roles_of (remove_holiday id) = admins
roles_of (mark_read id) = none
roles_of mark_all_read = none
roles_of (set_user_managers id manager_ids) = admins
roles_of logout = none

-- The bodies that `validate` accepts on the routes of timesheets and approvals.
abbrev pub is_valid_request : Request → Bool
is_valid_request (Service.create text) = create_timesheet_schema text
is_valid_request (Service.update id text) = update_timesheet_schema text
is_valid_request (Service.create_entry id dto) = create_time_entry_schema dto
is_valid_request (Service.update_entry id eid dto) = update_time_entry_schema dto
is_valid_request (Service.reject id reason) = reject_timesheet_schema reason
is_valid_request _ = true

-- And on the others.
abbrev pub is_valid : (String → Bool) → Call → Bool
is_valid is_email (timesheets request) = is_valid_request request
is_valid is_email (create_user dto) = create_user_schema is_email dto
is_valid is_email (update_user id dto) = update_user_schema dto
is_valid is_email (create_project dto) = create_project_schema dto
is_valid is_email (update_project id dto) = update_project_schema dto
is_valid is_email (update_settings dto) = update_settings_schema dto
is_valid is_email (create_holiday dto) = create_holiday_schema dto
is_valid is_email (set_user_managers id manager_ids) = set_user_managers_schema manager_ids
is_valid is_email _ = true

-- `HTTP_STATUS.CREATED` for the calls that create, `HTTP_STATUS.OK` for the others.
abbrev pub success_status : Call → ℕ
success_status (timesheets (Service.create text)) = HttpStatus.created
success_status (timesheets (Service.copy_previous_week text force)) = HttpStatus.created
success_status (timesheets (Service.create_entry id dto)) = HttpStatus.created
success_status (create_user dto) = HttpStatus.created
success_status (create_project dto) = HttpStatus.created
success_status (create_holiday dto) = HttpStatus.created
success_status _ = HttpStatus.ok

module _ (c : Client) (rt : Runtime) (ctx : AuthContext) where
  -- The controllers.
  unfoldable pub dispatch : JwtPayload → Call → Action (Unit {0})
  dispatch user (timesheets request) = handle c rt user request
  dispatch user (create_user dto) =
      Users.create_user c rt ctx.bcrypt.hash user.org_id dto user.user_id user.role >> pure tt
  dispatch user (update_user id dto) =
      Users.update_user c rt id user.org_id dto user.user_id user.role >> pure tt
  dispatch user (remove_user id) = Users.deactivate_user c id user.org_id user.user_id user.role
  dispatch user (create_project dto) =
      Projects.create_project c user.org_id dto user.user_id user.role >> pure tt
  dispatch user (update_project id dto) =
      Projects.update_project c id user.org_id dto user.user_id user.role >> pure tt
  dispatch user (remove_project id) = Projects.delete_project c id user.org_id
  dispatch user (update_settings dto) = Organisation.update_settings c user.org_id dto >> pure tt
  dispatch user (create_holiday dto) = Organisation.create_holiday c rt user.org_id dto >> pure tt
  dispatch user (remove_holiday id) = Organisation.delete_holiday c id user.org_id
  dispatch user (mark_read id) = Organisation.mark_as_read c id user.user_id >> pure tt
  dispatch user mark_all_read = Organisation.mark_all_as_read c user.user_id
  dispatch user (set_user_managers id manager_ids) = assign_managers c rt id manager_ids user.org_id
  dispatch user logout = logout_user c ctx user.user_id >> pure tt
