-- ===== src/Database/Constraints.antt =====
-- The constraints of src/prisma/schema.prisma that the database enforces: foreign keys, unique
-- keys and cascades. A violation is an error of Prisma, and undoes the query.
use tms_api.Prelude.{
  ℕ, suc, String, Option, none, some, ltb, Bool, true, false, not, ◌&&◌, ◌||◌, List, [], ◌∷◌, map,
  any, all, is_some, is_empty, ◌==◌,
}
use tms_api.Errors.{unexpected}
use tms_api.Prisma.{Client}
use tms_api.Database.Models.{
  Database, project, manager_employee, project_manager, project_employee, timesheet, time_entry,
}
use tms_api.Database.Action.{
  Action, ◌>>=◌, ◌>>◌, current, throw_if, find_many, create_many, delete, delete_many,
}

-- The number of characters.
abbrev pub char_count : String → ℕ
char_count String.[] = 0
char_count (String.◌∷◌ ch text) = suc (char_count text)

-- A text that `VARCHAR(191)`, the type of the columns of texts but for the descriptions of days, does
-- not hold: the database refuses the write.
abbrev pub too_long : String → Bool
too_long text = ltb 191 (char_count text)

abbrev pub given_too_long : Option String → Bool
given_too_long none = false
given_too_long (some text) = too_long text

-- Whether a key of a unique index is taken by an old row or by an earlier new one.
abbrev pub clash : List (ℕ × ℕ) → List (ℕ × ℕ) → Bool
clash old [] = false
clash old (k ∷ ks) = any (λ o. o.0 == k.0 && o.1 == k.1) old || clash (k ∷ old) ks

module _ (c : Client) where
  abbrev pub user_exists : Database → ℕ → Bool
  user_exists db id = is_some (c.find_first (λ u. u.id == id) db.users)

  abbrev pub organisation_exists : Database → ℕ → Bool
  organisation_exists db id = is_some (c.find_first (λ o. o.id == id) db.organisations)

  abbrev pub project_exists : Database → ℕ → Bool
  project_exists db id = is_some (c.find_first (λ p. p.id == id) db.projects)

  -- A filter `{ organisationId: orgId }` over the relation to a user or a project.
  abbrev pub user_in : ℕ → Database → ℕ → Bool
  user_in org_id db id =
      is_some (c.find_first (λ u. u.id == id && u.organisation_id == org_id) db.users)

  abbrev pub project_in : ℕ → Database → ℕ → Bool
  project_in org_id db id =
      is_some (c.find_first (λ p. p.id == id && p.organisation_id == org_id) db.projects)

  -- model ManagerEmployee: two foreign keys and `@@unique([managerId, employeeId])`.
  unfoldable pub create_manager_employees : List (ℕ × ℕ) → Action (Unit {0})
  create_manager_employees pairs = do
    db ← current
    old ← find_many c manager_employee (λ _. true)
    throw_if (clash (map (λ r. (r.manager_id, r.employee_id)) old) pairs) unexpected
    throw_if (not (all (λ k. user_exists db k.0 && user_exists db k.1) pairs)) unexpected
    create_many c manager_employee
        (map (λ k id. record { id = id; manager_id = k.0; employee_id = k.1 }) pairs)

  -- model ProjectManager: two foreign keys and `@@unique([projectId, managerId])`.
  unfoldable pub create_project_managers : List (ℕ × ℕ) → Action (Unit {0})
  create_project_managers pairs = do
    db ← current
    old ← find_many c project_manager (λ _. true)
    throw_if (clash (map (λ r. (r.project_id, r.manager_id)) old) pairs) unexpected
    throw_if (not (all (λ k. project_exists db k.0 && user_exists db k.1) pairs)) unexpected
    create_many c project_manager
        (map (λ k id. record { id = id; project_id = k.0; manager_id = k.1 }) pairs)

  -- model ProjectEmployee: two foreign keys and `@@unique([projectId, employeeId])`.
  unfoldable pub create_project_employees : List (ℕ × ℕ) → Action (Unit {0})
  create_project_employees pairs = do
    db ← current
    old ← find_many c project_employee (λ _. true)
    throw_if (clash (map (λ r. (r.project_id, r.employee_id)) old) pairs) unexpected
    throw_if (not (all (λ k. project_exists db k.0 && user_exists db k.1) pairs)) unexpected
    create_many c project_employee
        (map (λ k id. record { id = id; project_id = k.0; employee_id = k.1 }) pairs)

  -- The time entries of a deleted timesheet go with it (`onDelete: Cascade`).
  unfoldable pub delete_timesheet_row : ℕ → Action (Unit {0})
  delete_timesheet_row id = do
    delete c timesheet (λ t. t.id == id)
    delete_many c time_entry (λ e. e.timesheet_id == id)

  -- So do the manager and employee assignments of a deleted project; but a project with time
  -- entries cannot be deleted.
  unfoldable pub delete_project_row : ℕ → Action (Unit {0})
  delete_project_row id = do
    entries ← find_many c time_entry (λ e. e.project_id == id)
    throw_if (not (is_empty entries)) unexpected
    delete c project (λ p. p.id == id)
    delete_many c project_manager (λ r. r.project_id == id)
    delete_many c project_employee (λ r. r.project_id == id)
