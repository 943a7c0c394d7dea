-- ===== src/Projects.antt =====
-- src/services/projects.service.ts: the projects of an organisation and who works on them.
pub mod Deletion
pub mod Members
use Prim.Native.String
use text.Mathlib.Text.{◌==◌ as str_eq}
use tms_api.Prelude.{
  ℕ, String, Bool, false, not, ◌&&◌, Option, none, some, is_some, or_default, List, [], ◌∷◌, map,
  keep, is_empty, any, ◌==◌,
}
use tms_api.Constants.ErrorCodes
use tms_api.Errors.{unexpected, forbidden_error, conflict_error, not_found_error}
use tms_api.Prisma.{Client}
use tms_api.Database.{
  Project, UserRole, employee, manager, project, project_manager, project_employee,
}
use tms_api.Database.Action.{
  Action, ◌>>=◌, ◌>>◌, pure, throw_if, or_throw, when, transaction, find_first, find_many, create,
  update, delete_many,
}
use tms_api.Database.Constraints.{
  too_long, given_too_long, create_project_managers, create_project_employees, delete_project_row,
}
use tms_api.Pages.{ℤ, Page, find_page}
use tms_api.Team.{get_direct_report_ids, missing_from}
use tms_api.Users.{is_manager_role, given_ids, has_ids}

pub record CreateProjectDto : Type 0 where
  pub code : String
  pub name : String
  pub client : String
  pub budget_hours : Option ℕ
  pub status : Option String
  pub manager_ids : Option (List ℕ)
  pub employee_ids : Option (List ℕ)

pub record UpdateProjectDto : Type 0 where
  pub code : Option String
  pub name : Option String
  pub client : Option String
  pub budget_hours : Option ℕ
  pub status : Option String
  pub manager_ids : Option (List ℕ)
  pub employee_ids : Option (List ℕ)

-- `managerCreateList`
abbrev pub manager_create_list : ℕ → UserRole → Option (List ℕ) → List ℕ
manager_create_list creating_id manager ids =
    creating_id ∷ keep (λ id. not (id == creating_id)) (or_default ids [])
manager_create_list creating_id _ ids = or_default ids []

-- `dto.code && dto.code !== project.code`
abbrev pub new_code : Option String → String → Bool
new_code none old = false
new_code (some code) old = not (str_eq code "") && not (str_eq code old)

abbrev pub apply_update : UpdateProjectDto → Project → Project
apply_update dto p = record p {
  code = or_default dto.code p.code;
  name = or_default dto.name p.name;
  client = or_default dto.client p.client;
  budget_hours = or_default dto.budget_hours p.budget_hours;
  status = or_default dto.status p.status;
}

module _ (c : Client) where
  -- An employee sees only the projects that they are assigned to. `sort` is the database's order by
  -- creation.
  unfoldable pub list_projects :
      (List Project → List Project) → ℕ → ℕ → UserRole → ℤ → ℤ → Action (Page Project)
  list_projects sort org_id user_id employee page limit = do
    rows ← find_many c project_employee (λ r. r.employee_id == user_id)
    find_page c project sort
        (λ p. p.organisation_id == org_id && any (λ r. r.project_id == p.id) rows) page limit
  list_projects sort org_id user_id _ page limit =
      find_page c project sort (λ p. p.organisation_id == org_id) page limit

  -- A manager may only assign direct reports.
  unfoldable pub assert_assigns_reports : ℕ → UserRole → List ℕ → ℕ → Action (Unit {0})
  assert_assigns_reports requesting_id role employee_ids org_id = when (is_manager_role role) (do
    ids ← get_direct_report_ids c requesting_id org_id
    throw_if (not (is_empty (missing_from ids employee_ids))) (
        forbidden_error "Managers can only assign their direct reports to projects"
          ErrorCodes.forbidden))

  -- One `create` with its nested rows, which Prisma runs as a transaction.
  unfoldable pub create_project : ℕ → CreateProjectDto → ℕ → UserRole → Action Project
  create_project org_id dto creating_id role = do
    existing ← find_first c project (λ p. p.organisation_id == org_id && str_eq p.code dto.code)
    throw_if (is_some existing) (
        conflict_error (
          String.◌++◌ "Project code \""
            (String.◌++◌ dto.code "\" already exists in this organisation")))
    when (has_ids dto.employee_ids)
        (assert_assigns_reports creating_id role (or_default dto.employee_ids []) org_id)
    transaction (do
      throw_if (any too_long (dto.code ∷ dto.name ∷ dto.client ∷ [])) unexpected
      p ← create c project (λ id. record {
        id = id;
        organisation_id = org_id;
        code = dto.code;
        name = dto.name;
        client = dto.client;
        budget_hours = or_default dto.budget_hours 0;
        used_hours = 0;
        status = or_default dto.status "active";
      })
      create_project_managers c
          (map (λ id. (p.id, id)) (manager_create_list creating_id role dto.manager_ids))
      create_project_employees c (map (λ id. (p.id, id)) (or_default dto.employee_ids []))
      pure p)

  unfoldable pub update_project : ℕ → ℕ → UpdateProjectDto → ℕ → UserRole → Action (Option Project)
  update_project id org_id dto requesting_id role = do
    found ← find_first c project (λ p. p.id == id && p.organisation_id == org_id)
    old ← or_throw found (not_found_error "Project")
    other ← find_first c project (λ p.
        p.organisation_id == org_id && (str_eq p.code (or_default dto.code "") && not (p.id == id)))
    throw_if (new_code dto.code old.code && is_some other) (
        conflict_error (
          String.◌++◌ "Project code \"" (String.◌++◌ (or_default dto.code "") "\" already exists")))
    given_ids dto.employee_ids (λ ids. assert_assigns_reports requesting_id role ids org_id)
    transaction (do
      throw_if (any given_too_long (dto.code ∷ dto.name ∷ dto.client ∷ [])) unexpected
      update c project (λ p. p.id == id) (apply_update dto)
      given_ids dto.manager_ids (λ ids. do
        delete_many c project_manager (λ r. r.project_id == id)
        when (not (is_empty ids)) (create_project_managers c (map (λ m. (id, m)) ids)))
      given_ids dto.employee_ids (λ ids. do
        delete_many c project_employee (λ r. r.project_id == id)
        when (not (is_empty ids)) (create_project_employees c (map (λ e. (id, e)) ids)))
      find_first c project (λ p. p.id == id))

  unfoldable pub delete_project : ℕ → ℕ → Action (Unit {0})
  delete_project id org_id = do
    found ← find_first c project (λ p. p.id == id && p.organisation_id == org_id)
    or_throw found (not_found_error "Project")
    delete_project_row c id
