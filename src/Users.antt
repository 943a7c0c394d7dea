-- ===== src/Users.antt =====
-- src/services/users.service.ts: the accounts of an organisation, by its managers and admins.
pub mod Scope
pub mod Keeps
pub mod Roles
use text.Mathlib.Text.{◌==◌ as str_eq}
use tms_api.Prelude.{
  any, ◌||◌, [], ◌∷◌, ℕ, String, Bool, true, false, not, ◌&&◌, Option, none, some, is_some,
  or_default, given_or, List, [], ◌∷◌, map, includes, is_empty, ◌==◌, if◌then◌else◌,
}
use tms_api.Constants.ErrorCodes
use tms_api.Errors.{unexpected, forbidden_error, conflict_error, not_found_error}
use tms_api.Prisma.{Client}
use tms_api.Runtime.{Runtime}
use tms_api.Database.{User, UserRole, employee, manager, admin, user, project_manager}
use tms_api.Database.Action.{
  Action, ◌>>=◌, ◌>>◌, pure, throw_if, or_throw, when, current, find_first, find_many, create,
  update,
}
use tms_api.Database.Constraints.{project_in, too_long, given_too_long}
use tms_api.Pages.{ℤ, Page, find_page}
use tms_api.Team.{
  get_direct_report_ids, remove_all_managed_employees, assign_managers, assign_projects_to_employee,
  missing_from,
}

pub record CreateUserDto : Type 0 where
  pub name : String
  pub email : String
  pub password : String
  pub role : Option UserRole
  pub department : Option String
  pub manager_ids : Option (List ℕ)
  pub project_ids : Option (List ℕ)

pub record UpdateUserDto : Type 0 where
  pub name : Option String
  pub role : Option UserRole
  pub department : Option String
  pub status : Option String
  pub manager_ids : Option (List ℕ)
  pub project_ids : Option (List ℕ)

abbrev pub is_manager_role : UserRole → Bool
is_manager_role manager = true
is_manager_role _ = false

abbrev pub is_employee_role : UserRole → Bool
is_employee_role employee = true
is_employee_role _ = false

-- `dto.role && dto.role !== UserRole.EMPLOYEE`
abbrev pub raises_role : Option UserRole → Bool
raises_role none = false
raises_role (some role) = not (is_employee_role role)

-- `ids?.length`
abbrev pub has_ids : Option (List ℕ) → Bool
has_ids none = false
has_ids (some ids) = not (is_empty ids)

-- The columns that `updateUser` writes: those that the request names.
abbrev pub apply_update : UpdateUserDto → User → User
apply_update dto u = record u {
  name = or_default dto.name u.name;
  role = or_default dto.role u.role;
  department = given_or dto.department u.department;
  status = or_default dto.status u.status;
}

abbrev pub deactivated : User → User
deactivated u = record u { status = "inactive"; refresh_token = none }

-- `if (ids !== undefined) ...`
abbrev pub given_ids : Option (List ℕ) → (List ℕ → Action (Unit {0})) → Action (Unit {0})
given_ids none act = pure tt
given_ids (some ids) act = act ids

module _ (c : Client) where
  -- A manager sees only the direct reports, an admin all users of the organisation. `sort` is the
  -- database's order by creation.
  unfoldable pub list_users :
      (List User → List User) → ℕ → ℕ → UserRole → ℤ → ℤ → Action (Page User)
  list_users sort org_id requesting_id manager page limit = do
    ids ← get_direct_report_ids c requesting_id org_id
    find_page c user sort (λ u. u.organisation_id == org_id && includes ids u.id) page limit
  list_users sort org_id requesting_id _ page limit =
      find_page c user sort (λ u. u.organisation_id == org_id) page limit

  unfoldable pub assert_can_manage_user : ℕ → UserRole → ℕ → ℕ → Action (Unit {0})
  assert_can_manage_user requesting_id admin target_id org_id = pure tt
  assert_can_manage_user requesting_id _ target_id org_id = do
    ids ← get_direct_report_ids c requesting_id org_id
    throw_if (not (includes ids target_id))
        (forbidden_error "You can only manage your direct reports" ErrorCodes.not_direct_report)

  -- Both callers' test that a manager assigns only the projects they manage.
  unfoldable pub assert_manages_projects : ℕ → UserRole → List ℕ → ℕ → Action (Unit {0})
  assert_manages_projects requesting_id role project_ids org_id = when (is_manager_role role) (do
    db ← current
    rows ←
        find_many c project_manager
          (λ r. r.manager_id == requesting_id && project_in c org_id db r.project_id)
    throw_if (not (is_empty (missing_from (map (λ r. r.project_id) rows) project_ids)))
        (forbidden_error "Managers can only assign projects they manage" ErrorCodes.forbidden))

  unfoldable pub deactivate_user : ℕ → ℕ → ℕ → UserRole → Action (Unit {0})
  deactivate_user id org_id requesting_id role = do
    found ← find_first c user (λ u. u.id == id && u.organisation_id == org_id)
    or_throw found (not_found_error "User")
    assert_can_manage_user requesting_id role id org_id
    update c user (λ u. u.id == id) deactivated
    pure tt

module _ (c : Client) (rt : Runtime) where
  -- `managerIds` as `createUser` assigns them: a manager who names none is the manager.
  unfoldable pub assign_new_managers : ℕ → ℕ → ℕ → UserRole → Option (List ℕ) → Action (Unit {0})
  assign_new_managers id org_id requesting_id manager ids =
      assign_managers c rt id (if has_ids ids then or_default ids [] else requesting_id ∷ []) org_id
  assign_new_managers id org_id requesting_id _ ids =
      when (has_ids ids) (assign_managers c rt id (or_default ids []) org_id)

  -- `hash` is `bcrypt.hash` with the source's number of rounds. The user is written first; a
  -- later error leaves it there.
  unfoldable pub create_user : (String → String) → ℕ → CreateUserDto → ℕ → UserRole → Action User
  create_user hash org_id dto requesting_id role = do
    throw_if (is_manager_role role && raises_role dto.role)
        (forbidden_error "Managers can only create employees" ErrorCodes.forbidden)
    existing ← find_first c user (λ u. rt.same_text u.email dto.email)
    throw_if (is_some existing) (conflict_error "Email address is already in use")
    throw_if (any too_long (dto.name ∷ dto.email ∷ []) || given_too_long dto.department) unexpected
    u ← create c user (λ id. record {
      id = id;
      organisation_id = org_id;
      name = dto.name;
      email = dto.email;
      password_hash = hash dto.password;
      role = or_default dto.role employee;
      department = dto.department;
      status = "active";
      refresh_token = none;
    })
    assign_new_managers u.id org_id requesting_id role dto.manager_ids
    when (has_ids dto.project_ids) (do
      assert_manages_projects c requesting_id role (or_default dto.project_ids []) org_id
      assign_projects_to_employee c rt u.id (or_default dto.project_ids []) org_id)
    pure u

  unfoldable pub update_user : ℕ → ℕ → UpdateUserDto → ℕ → UserRole → Action User
  update_user id org_id dto requesting_id role = do
    found ← find_first c user (λ u. u.id == id && u.organisation_id == org_id)
    u ← or_throw found (not_found_error "User")
    assert_can_manage_user c requesting_id role id org_id
    throw_if (is_manager_role role && raises_role dto.role)
        (forbidden_error "Managers can only assign the Employee role" ErrorCodes.forbidden)
    throw_if (given_too_long dto.name || given_too_long dto.department) unexpected
    updated ← update c user (λ v. v.id == id) (apply_update dto)
    when (is_employee_role (or_default dto.role u.role) && not (is_employee_role u.role))
        (remove_all_managed_employees c id)
    given_ids dto.manager_ids (λ ids. assign_managers c rt id ids org_id)
    given_ids dto.project_ids (λ ids. do
      assert_manages_projects c requesting_id role ids org_id
      assign_projects_to_employee c rt id ids org_id)
    pure updated
