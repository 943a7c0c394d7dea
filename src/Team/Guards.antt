-- ===== src/Team/Guards.antt =====
-- What the guards of the team service let through. Each lemma reduces a call to what follows it.
use tms_api.Prelude.{ℕ, ◌≡◌, Bool, ◌&&◌, some, List, keep, map, first, ◌==◌}
use tms_api.Prisma.{in_memory}
use tms_api.Database.{
  Database, ManagerEmployee, ProjectEmployee, manager_employee, project_employee,
}
use tms_api.Database.Constraints.{user_in, project_in}
use tms_api.Database.Triple.{
  After, After-current, After-find_first, After-find_many, After-found, After-pure, After-seq_then,
}
use tms_api.Team.{assert_is_direct_report, get_assigned_project_ids}

-- The test of `assertIsDirectReport`'s query.
abbrev pub reports_to : ℕ → ℕ → ℕ → Database → ManagerEmployee → Bool
reports_to manager_id employee_id org_id db a =
    a.manager_id == manager_id
    && a.employee_id == employee_id
    && user_in in_memory org_id db a.manager_id

-- The direct reports of a manager of the organisation.
abbrev pub reports_of : ℕ → ℕ → Database → List ℕ
reports_of manager_id org_id db =
    map (λ (a : ManagerEmployee). a.employee_id)
      (keep (λ a. a.manager_id == manager_id && user_in in_memory org_id db a.manager_id)
        db.manager_employees.rows)

module _ {I : Database → Type 0} {db : Database} where
  pub After-assert_is_direct_report :
      {Q : Unit {0} → Database → Type 0} (manager_id employee_id org_id : ℕ)
      → I db
      → ((a : ManagerEmployee)
          → first (reports_to manager_id employee_id org_id db) db.manager_employees.rows ≡ some a
          → Q tt db)
      → After I Q (assert_is_direct_report in_memory manager_id employee_id org_id) db
  unfolding assert_is_direct_report
  After-assert_is_direct_report manager_id employee_id org_id i h = After-current _ (
      After-find_first manager_employee _ _
        (After-seq_then _ _ (After-found _ _ (λ _. i) λ a e. After-pure tt (h a e))))

  pub After-get_assigned_project_ids :
      {Q : List ℕ → Database → Type 0} (employee_id org_id : ℕ)
      → Q
          (map
            (λ (r : ProjectEmployee). r.project_id)
            (keep
              (λ r. r.employee_id == employee_id && project_in in_memory org_id db r.project_id)
              db.project_employees.rows))
          db
      → After I Q (get_assigned_project_ids in_memory employee_id org_id) db
  unfolding get_assigned_project_ids
  After-get_assigned_project_ids employee_id org_id h =
      After-current _ (After-find_many project_employee _ _ (After-pure _ h))
