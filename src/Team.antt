-- ===== src/Team.antt =====
-- src/services/team.service.ts: managers, direct reports and project assignments.
pub mod Guards
pub mod Agreement
pub mod Views
pub mod Assignment
use Prim.Native.String
use text.Mathlib.Text.{◌==◌ as str_eq}
use tms_api.Prelude.{
  ℕ, String, Bool, true, false, not, ◌&&◌, none, some, List, [], ◌∷◌, map, keep, includes, is_empty,
  ◌==◌,
}
use tms_api.Constants.ErrorCodes
use tms_api.Errors.{validation_error, forbidden_error}
use tms_api.Prisma.{Client}
use tms_api.Runtime.{Runtime}
use tms_api.Database.{
  Database, User, UserRole, employee, manager_employee, project_employee, user, project,
}
use tms_api.Database.Action.{
  Action, ◌>>=◌, ◌>>◌, pure, current, throw_if, or_throw, when, transaction, find_first, find_many,
  delete_many,
}
use tms_api.Database.Constraints.{
  user_in, project_in, create_manager_employees, create_project_employees,
}

-- `list.join(', ')`
abbrev pub join : List String → String
join [] = ""
join (s ∷ []) = s
join (s ∷ t ∷ rest) = String.◌++◌ s (String.◌++◌ ", " (join (t ∷ rest)))

-- `role: { in: [MANAGER, ADMIN] }`
abbrev pub may_manage : UserRole → Bool
may_manage employee = false
may_manage _ = true

-- `ids.filter((id) => !validIds.has(id))`
abbrev pub missing_from : List ℕ → List ℕ → List ℕ
missing_from valid_ids ids = keep (λ id. not (includes valid_ids id)) ids

module _ (c : Client) where
  unfoldable pub get_direct_report_ids : ℕ → ℕ → Action (List ℕ)
  get_direct_report_ids manager_id org_id = do
    db ← current
    assignments ←
        find_many c manager_employee
          (λ a. a.manager_id == manager_id && user_in c org_id db a.manager_id)
    pure (map (λ a. a.employee_id) assignments)

  unfoldable pub get_manager_ids : ℕ → ℕ → Action (List ℕ)
  get_manager_ids employee_id org_id = do
    db ← current
    assignments ←
        find_many c manager_employee
          (λ a. a.employee_id == employee_id && user_in c org_id db a.employee_id)
    pure (map (λ a. a.manager_id) assignments)

  -- The users of the given ids: a required relation, which the database's foreign key fills.
  abbrev pub related_users : Database → List ℕ → List User
  related_users db [] = []
  related_users db (id ∷ ids) = elim (c.find_first (λ u. u.id == id) db.users) [
    | none ↦ related_users db ids
    | some u ↦ u ∷ related_users db ids
  ]

  unfoldable pub get_team_members : ℕ → ℕ → Action (List User)
  get_team_members manager_id org_id = do
    db ← current
    assignments ←
        find_many c manager_employee
          (λ a. a.manager_id == manager_id && user_in c org_id db a.manager_id)
    pure (related_users db (map (λ a. a.employee_id) assignments))

  unfoldable pub get_managers_of_user : ℕ → ℕ → Action (List User)
  get_managers_of_user employee_id org_id = do
    db ← current
    assignments ←
        find_many c manager_employee
          (λ a. a.employee_id == employee_id && user_in c org_id db a.employee_id)
    pure (related_users db (map (λ a. a.manager_id) assignments))

  unfoldable pub get_assigned_project_ids : ℕ → ℕ → Action (List ℕ)
  get_assigned_project_ids employee_id org_id = do
    db ← current
    rows ←
        find_many c project_employee
          (λ r. r.employee_id == employee_id && project_in c org_id db r.project_id)
    pure (map (λ r. r.project_id) rows)

  unfoldable pub remove_all_managed_employees : ℕ → Action (Unit {0})
  remove_all_managed_employees manager_id =
      delete_many c manager_employee (λ a. a.manager_id == manager_id)

  unfoldable pub assert_is_direct_report : ℕ → ℕ → ℕ → Action (Unit {0})
  assert_is_direct_report manager_id employee_id org_id = do
    db ← current
    assignment ← find_first c manager_employee (λ a.
        a.manager_id == manager_id
        && a.employee_id == employee_id
        && user_in c org_id db a.manager_id)
    or_throw assignment (
        forbidden_error "You can only manage timesheets of your direct reports"
          ErrorCodes.not_direct_report)
    pure tt

module _ (c : Client) (rt : Runtime) where
  abbrev pub invalid_ids : String → List ℕ → String → String
  invalid_ids kind ids must =
      String.◌++◌ ("Invalid ")
        (String.◌++◌ kind (String.◌++◌ " IDs: " (String.◌++◌ (join (map rt.show_id ids)) must)))

  unfoldable pub assign_managers : ℕ → List ℕ → ℕ → Action (Unit {0})
  unfolding create_manager_employees
  assign_managers employee_id manager_ids org_id = do
    throw_if (includes manager_ids employee_id)
        (validation_error "A user cannot be assigned as their own manager")
    when (not (is_empty manager_ids)) (do
      valid_managers ← find_many c user (λ u.
          includes manager_ids u.id
          && u.organisation_id == org_id
          && may_manage u.role
          && str_eq u.status "active")
      let invalid = missing_from (map (λ u. u.id) valid_managers) manager_ids
      throw_if (not (is_empty invalid)) (
          validation_error (
            invalid_ids "manager" invalid
              ". Must be active users with MANAGER or ADMIN role in the same organisation.")))
    transaction (do
      delete_many c manager_employee (λ a. a.employee_id == employee_id)
      when (not (is_empty manager_ids))
          (create_manager_employees c (map (λ manager_id. (manager_id, employee_id)) manager_ids)))

  unfoldable pub assign_employees_to_project : ℕ → List ℕ → ℕ → Action (Unit {0})
  unfolding create_project_employees
  assign_employees_to_project project_id employee_ids org_id = do
    when (not (is_empty employee_ids)) (do
      valid_employees ← find_many c user (λ u.
          includes employee_ids u.id && u.organisation_id == org_id && str_eq u.status "active")
      let invalid = missing_from (map (λ u. u.id) valid_employees) employee_ids
      throw_if (not (is_empty invalid)) (
          validation_error
            (invalid_ids "employee" invalid ". Must be active users in the same organisation.")))
    transaction (do
      delete_many c project_employee (λ r. r.project_id == project_id)
      when (not (is_empty employee_ids)) (
          create_project_employees c (map (λ employee_id. (project_id, employee_id)) employee_ids)))

  unfoldable pub assign_projects_to_employee : ℕ → List ℕ → ℕ → Action (Unit {0})
  unfolding create_project_employees
  assign_projects_to_employee employee_id project_ids org_id = do
    when (not (is_empty project_ids)) (do
      valid_projects ← find_many c project (λ p.
          includes project_ids p.id && p.organisation_id == org_id && str_eq p.status "active")
      let invalid = missing_from (map (λ p. p.id) valid_projects) project_ids
      throw_if (not (is_empty invalid)) (
          validation_error
            (invalid_ids "project" invalid ". Must be active projects in the same organisation.")))
    transaction (do
      delete_many c project_employee (λ r. r.employee_id == employee_id)
      when (not (is_empty project_ids))
          (create_project_employees c (map (λ project_id. (project_id, employee_id)) project_ids)))
