-- ===== src/Http/Outside.antt =====
-- The calls on users leave the timesheets and their entries alone.
use tms_api.Prelude.{ℕ, String}
use tms_api.Prisma.{in_memory}
use tms_api.Runtime.{Runtime}
use tms_api.Database.{UserRole, user, manager_employee, project_manager, project_employee}
use tms_api.Team.{remove_all_managed_employees}
use tms_api.Users.{CreateUserDto, UpdateUserDto, create_user, update_user}
use tms_api.Database.Keeps.{
  Keeps, IsOutside, Keeps-pure, Keeps-or_throw, Keeps-bind, Keeps-then, Keeps-throw_if, Keeps-when,
  Keeps-find_first, Keeps-create, Keeps-update, Keeps-delete_many,
}
use tms_api.Http.Frame.{IsFrame}
use tms_api.Users.Keeps.{
  TeamOutside, Keeps-given_ids, Keeps-assert_can_manage, Keeps-assert_manages_projects,
  Keeps-assign_managers, Keeps-assign_projects, Keeps-assign_new_managers,
}

pub manager_employee-IsOutside : IsOutside IsFrame manager_employee
manager_employee-IsOutside t old db h = record {
  sheets = h.sheets;
  entries = h.entries;
  projects = h.projects;
}

pub project_manager-IsOutside : IsOutside IsFrame project_manager
project_manager-IsOutside t old db h = record {
  sheets = h.sheets;
  entries = h.entries;
  projects = h.projects;
}

pub project_employee-IsOutside : IsOutside IsFrame project_employee
project_employee-IsOutside t old db h = record {
  sheets = h.sheets;
  entries = h.entries;
  projects = h.projects;
}

pub user-IsOutside : IsOutside IsFrame user
user-IsOutside t old db h = record { sheets = h.sheets; entries = h.entries; projects = h.projects }

-- The frame does not mention the assignments.
pub IsFrame-outside : TeamOutside IsFrame
IsFrame-outside = record {
  managers = manager_employee-IsOutside;
  project_managers = project_manager-IsOutside;
  project_employees = project_employee-IsOutside;
}

module _ (rt : Runtime) where
  pub Keeps-create_user :
      (hash : String → String) (org_id : ℕ) (dto : CreateUserDto) (requesting_id : ℕ)
      (role : UserRole)
      → Keeps IsFrame (create_user in_memory rt hash org_id dto requesting_id role)
  unfolding create_user
  Keeps-create_user hash org_id dto requesting_id role = Keeps-then _ _ (Keeps-throw_if _ _) (
      Keeps-bind _ _ (Keeps-find_first _ _) λ existing. Keeps-then _ _ (Keeps-throw_if _ _) (
        Keeps-then _ _ (Keeps-throw_if _ _) (
          Keeps-bind _ _ (Keeps-create _ user-IsOutside _) λ u.
            Keeps-then _ _
              (Keeps-assign_new_managers IsFrame-outside rt u.id org_id requesting_id role
                dto.manager_ids)
              (Keeps-then _ _
                (Keeps-when _ _ (
                  Keeps-then _ _ (Keeps-assert_manages_projects requesting_id role _ org_id)
                    (Keeps-assign_projects IsFrame-outside rt u.id _ org_id)))
                (Keeps-pure u)))))

  pub Keeps-update_user :
      (id org_id : ℕ) (dto : UpdateUserDto) (requesting_id : ℕ) (role : UserRole)
      → Keeps IsFrame (update_user in_memory rt id org_id dto requesting_id role)
  unfolding update_user remove_all_managed_employees
  Keeps-update_user id org_id dto requesting_id role =
      Keeps-bind _ _ (Keeps-find_first _ _) λ found. Keeps-bind _ _ (Keeps-or_throw _ _) λ u.
        Keeps-then _ _ (Keeps-assert_can_manage requesting_id role id org_id) (
          Keeps-then _ _ (Keeps-throw_if _ _) (
            Keeps-then _ _ (Keeps-throw_if _ _) (
              Keeps-bind _ _ (Keeps-update _ user-IsOutside _ _) λ updated.
                Keeps-then _ _ (Keeps-when _ _ (Keeps-delete_many _ manager_employee-IsOutside _)) (
                  Keeps-then _ _
                    (Keeps-given_ids dto.manager_ids _
                      λ ids. Keeps-assign_managers IsFrame-outside rt id ids org_id)
                    (Keeps-then _ _
                      (Keeps-given_ids dto.project_ids _ λ ids.
                        Keeps-then _ _ (Keeps-assert_manages_projects requesting_id role ids org_id)
                          (Keeps-assign_projects IsFrame-outside rt id ids org_id))
                      (Keeps-pure updated))))))
