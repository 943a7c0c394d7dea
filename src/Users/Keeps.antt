-- ===== src/Users/Keeps.antt =====
-- What the guards and the assignments of the users and team services keep, for a relation that does
-- not mention the tables of assignments.
use tms_api.Prelude.{ℕ, Option, none, some, List}
use tms_api.Prisma.{in_memory}
use tms_api.Runtime.{Runtime}
use tms_api.Database.{
  Database, UserRole, employee, manager, admin, manager_employee, project_manager, project_employee,
}
use tms_api.Database.Action.{Action}
use tms_api.Database.Constraints.{
  create_manager_employees, create_project_managers, create_project_employees,
}
use tms_api.Team.{get_direct_report_ids, assign_managers, assign_projects_to_employee}
use tms_api.Users.{given_ids, assert_can_manage_user, assert_manages_projects, assign_new_managers}
use tms_api.Database.Keeps.{
  Keeps, IsOutside, Keeps-pure, Keeps-transaction, Keeps-bind, Keeps-then, Keeps-throw_if,
  Keeps-when, Keeps-current, Keeps-find_many, Keeps-create_many, Keeps-delete_many,
}

pub record TeamOutside (R : Database → Database → Type 0) : Type 0 where
  pub managers : IsOutside R manager_employee
  pub project_managers : IsOutside R project_manager
  pub project_employees : IsOutside R project_employee

module _ {R : Database → Database → Type 0} where
  pub Keeps-get_direct_report_ids :
      (manager_id org_id : ℕ) → Keeps R (get_direct_report_ids in_memory manager_id org_id)
  unfolding get_direct_report_ids
  Keeps-get_direct_report_ids manager_id org_id =
      Keeps-bind _ _ Keeps-current λ db. Keeps-bind _ _ (Keeps-find_many _ _) λ rows. Keeps-pure _

  pub Keeps-given_ids :
      (ids : Option (List ℕ)) (act : List ℕ → Action (Unit {0}))
      → ((given : List ℕ) → Keeps R (act given))
      → Keeps R (given_ids ids act)
  Keeps-given_ids none act k = Keeps-pure tt
  Keeps-given_ids (some ids) act k = k ids

  pub Keeps-assert_can_manage :
      (requesting_id : ℕ) (role : UserRole) (target_id org_id : ℕ)
      → Keeps R (assert_can_manage_user in_memory requesting_id role target_id org_id)
  unfolding assert_can_manage_user
  Keeps-assert_can_manage requesting_id admin target_id org_id = Keeps-pure tt
  Keeps-assert_can_manage requesting_id employee target_id org_id =
      Keeps-bind _ _ (Keeps-get_direct_report_ids _ _) λ ids. Keeps-throw_if _ _
  Keeps-assert_can_manage requesting_id manager target_id org_id =
      Keeps-bind _ _ (Keeps-get_direct_report_ids _ _) λ ids. Keeps-throw_if _ _

  pub Keeps-assert_manages_projects :
      (requesting_id : ℕ) (role : UserRole) (ids : List ℕ) (org_id : ℕ)
      → Keeps R (assert_manages_projects in_memory requesting_id role ids org_id)
  unfolding assert_manages_projects
  Keeps-assert_manages_projects requesting_id role ids org_id = Keeps-when _ _ (
      Keeps-bind _ _ Keeps-current
        λ db. Keeps-bind _ _ (Keeps-find_many _ _) λ rows. Keeps-throw_if _ _)

  module _ (outs : TeamOutside R) where
    pub Keeps-create_manager_employees :
        (pairs : List (ℕ × ℕ)) → Keeps R (create_manager_employees in_memory pairs)
    unfolding create_manager_employees
    Keeps-create_manager_employees pairs = Keeps-bind _ _ Keeps-current λ db.
        Keeps-bind _ _ (Keeps-find_many _ _) λ old.
          Keeps-then _ _ (Keeps-throw_if _ _)
            (Keeps-then _ _ (Keeps-throw_if _ _) (Keeps-create_many _ outs.managers _))

    pub Keeps-create_project_managers :
        (pairs : List (ℕ × ℕ)) → Keeps R (create_project_managers in_memory pairs)
    unfolding create_project_managers
    Keeps-create_project_managers pairs = Keeps-bind _ _ Keeps-current λ db.
        Keeps-bind _ _ (Keeps-find_many _ _) λ old.
          Keeps-then _ _ (Keeps-throw_if _ _)
            (Keeps-then _ _ (Keeps-throw_if _ _) (Keeps-create_many _ outs.project_managers _))

    pub Keeps-create_project_employees :
        (pairs : List (ℕ × ℕ)) → Keeps R (create_project_employees in_memory pairs)
    unfolding create_project_employees
    Keeps-create_project_employees pairs = Keeps-bind _ _ Keeps-current λ db.
        Keeps-bind _ _ (Keeps-find_many _ _) λ old.
          Keeps-then _ _ (Keeps-throw_if _ _)
            (Keeps-then _ _ (Keeps-throw_if _ _) (Keeps-create_many _ outs.project_employees _))

    module _ (rt : Runtime) where
      pub Keeps-assign_managers :
          (id : ℕ) (ids : List ℕ) (org_id : ℕ)
          → Keeps R (assign_managers in_memory rt id ids org_id)
      unfolding assign_managers
      Keeps-assign_managers id ids org_id = Keeps-then _ _ (Keeps-throw_if _ _) (
          Keeps-then _ _
            (Keeps-when _ _ (Keeps-bind _ _ (Keeps-find_many _ _) λ rows. Keeps-throw_if _ _))
            (Keeps-transaction _ (
              Keeps-then _ _ (Keeps-delete_many _ outs.managers _)
                (Keeps-when _ _ (Keeps-create_manager_employees _)))))

      pub Keeps-assign_projects :
          (id : ℕ) (ids : List ℕ) (org_id : ℕ)
          → Keeps R (assign_projects_to_employee in_memory rt id ids org_id)
      unfolding assign_projects_to_employee
      Keeps-assign_projects id ids org_id =
          Keeps-then _ _
            (Keeps-when _ _ (Keeps-bind _ _ (Keeps-find_many _ _) λ rows. Keeps-throw_if _ _))
            (Keeps-transaction _ (
              Keeps-then _ _ (Keeps-delete_many _ outs.project_employees _)
                (Keeps-when _ _ (Keeps-create_project_employees _))))

      pub Keeps-assign_new_managers :
          (id org_id requesting_id : ℕ) (role : UserRole) (ids : Option (List ℕ))
          → Keeps R (assign_new_managers in_memory rt id org_id requesting_id role ids)
      unfolding assign_new_managers
      Keeps-assign_new_managers id org_id requesting_id manager ids =
          Keeps-assign_managers id _ org_id
      Keeps-assign_new_managers id org_id requesting_id employee ids =
          Keeps-when _ _ (Keeps-assign_managers id _ org_id)
      Keeps-assign_new_managers id org_id requesting_id admin ids =
          Keeps-when _ _ (Keeps-assign_managers id _ org_id)
