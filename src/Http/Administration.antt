-- ===== src/Http/Administration.antt =====
-- What the calls on projects, settings, holidays, notifications and sessions keep; the timesheets
-- and their entries among it.
use tms_api.Prelude.{◌≡◌, ◌==◌, ℕ, refl, String, Option, none, some}
use tms_api.Prisma.{in_memory}
use tms_api.Runtime.{Runtime}
use tms_api.Database.{
  Database, Project, user, project, UserRole, User, OrgSettings, organisation, org_setting, holiday,
  notification,
}
use tms_api.Projects.{CreateProjectDto, UpdateProjectDto, create_project, update_project}
use tms_api.Organisation.{
  UpdateSettingsDto, CreateHolidayDto, save_settings, update_settings, create_holiday,
  delete_holiday, mark_as_read, mark_all_as_read,
}
use tms_api.Auth.{
  AuthContext, RegisterDto, LoginDto, sign_access_token, sign_refresh_token, issue_tokens,
  create_organisation, register_user, login_user, revoke, refresh_access_token, logout_user,
}
use tms_api.Http.Frame.{Keeps-create_project_row, Keeps-update_project_row, IsFrame}
use tms_api.Database.Action.{create, update}
use tms_api.Database.Keeps.{
  Keeps, Keeps-if, IsOutside, Keeps-pure, Keeps-throw, Keeps-or_throw, Keeps-transaction,
  Keeps-bind, Keeps-then, Keeps-throw_if, Keeps-when, Keeps-current, Keeps-find_first, Keeps-create,
  Keeps-update, Keeps-update_many, Keeps-delete, Keeps-delete_many,
}
use tms_api.Http.Outside.{user-IsOutside, IsFrame-outside}
use tms_api.Projects.Members.{Keeps-assert_assigns_reports}
use tms_api.Users.{deactivate_user}
use tms_api.Users.Keeps.{
  Keeps-assert_can_manage, TeamOutside, Keeps-create_project_managers,
  Keeps-create_project_employees, Keeps-given_ids,
}

organisation-IsOutside : IsOutside IsFrame organisation
organisation-IsOutside t old db h = record {
  sheets = h.sheets;
  entries = h.entries;
  projects = h.projects;
}

org_setting-IsOutside : IsOutside IsFrame org_setting
org_setting-IsOutside t old db h = record {
  sheets = h.sheets;
  entries = h.entries;
  projects = h.projects;
}

holiday-IsOutside : IsOutside IsFrame holiday
holiday-IsOutside t old db h = record {
  sheets = h.sheets;
  entries = h.entries;
  projects = h.projects;
}

notification-IsOutside : IsOutside IsFrame notification
notification-IsOutside t old db h = record {
  sheets = h.sheets;
  entries = h.entries;
  projects = h.projects;
}

-- A relation that does not mention settings, holidays, notifications and assignments, and that new
-- projects, changes of a project, and changes of an account that leave its role alone keep.
pub record AdminOutside (R : Database → Database → Type 0) : Type 0 where
  pub settings : IsOutside R org_setting
  pub holidays : IsOutside R holiday
  pub notifications : IsOutside R notification
  pub team : TeamOutside R
  pub new_project : (mk : ℕ → Project) → Keeps R (create in_memory project mk)
  pub changed_project :
      (key : ℕ) (f : Project → Project)
      → ((p : Project) → (f p).id ≡ p.id)
      → Keeps R (update in_memory project (λ p. p.id == key) f)
  pub changed_user :
      (key : ℕ) (f : User → User)
      → ((u : User) → ((f u).id ≡ u.id) × ((f u).role ≡ u.role))
      → Keeps R (update in_memory user (λ u. u.id == key) f)

module _ {R : Database → Database → Type 0} (outs : AdminOutside R) where
  pub Keeps-create_project :
      (org_id : ℕ) (dto : CreateProjectDto) (creating_id : ℕ) (role : UserRole)
      → Keeps R (create_project in_memory org_id dto creating_id role)
  unfolding create_project
  Keeps-create_project org_id dto creating_id role =
      Keeps-bind _ _ (Keeps-find_first _ _) λ existing. Keeps-then _ _ (Keeps-throw_if _ _) (
        Keeps-then _ _ (Keeps-when _ _ (Keeps-assert_assigns_reports creating_id role _ org_id)) (
          Keeps-transaction _ (
            Keeps-then _ _ (Keeps-throw_if _ _) (
              Keeps-bind _ _ (outs.new_project _) λ p.
                Keeps-then _ _ (Keeps-create_project_managers outs.team _)
                  (Keeps-then _ _ (Keeps-create_project_employees outs.team _) (Keeps-pure p))))))

  pub Keeps-update_project :
      (id org_id : ℕ) (dto : UpdateProjectDto) (requesting_id : ℕ) (role : UserRole)
      → Keeps R (update_project in_memory id org_id dto requesting_id role)
  unfolding update_project
  Keeps-update_project id org_id dto requesting_id role =
      Keeps-bind _ _ (Keeps-find_first _ _) λ found. Keeps-bind _ _ (Keeps-or_throw _ _) λ old.
        Keeps-bind _ _ (Keeps-find_first _ _) λ other. Keeps-then _ _ (Keeps-throw_if _ _) (
          Keeps-then _ _
            (Keeps-given_ids dto.employee_ids _
              λ ids. Keeps-assert_assigns_reports requesting_id role ids org_id)
            (Keeps-transaction _ (
              Keeps-then _ _ (Keeps-throw_if _ _) (
                Keeps-then _ _ (outs.changed_project id _ (λ p. refl)) (
                  Keeps-then _ _
                    (Keeps-given_ids dto.manager_ids _ λ ids.
                      Keeps-then _ _ (Keeps-delete_many _ outs.team.project_managers _)
                        (Keeps-when _ _ (Keeps-create_project_managers outs.team _)))
                    (Keeps-then _ _
                      (Keeps-given_ids dto.employee_ids _ λ ids.
                        Keeps-then _ _ (Keeps-delete_many _ outs.team.project_employees _)
                          (Keeps-when _ _ (Keeps-create_project_employees outs.team _)))
                      (Keeps-find_first _ _)))))))

  Keeps-save_settings :
      (org_id : ℕ) (dto : UpdateSettingsDto) (found : Option OrgSettings)
      → Keeps R (save_settings in_memory org_id dto found)
  unfolding save_settings
  Keeps-save_settings org_id dto none =
      Keeps-bind _ _ Keeps-current
        λ db. Keeps-then _ _ (Keeps-throw_if _ _) (Keeps-create _ outs.settings _)
  Keeps-save_settings org_id dto (some old) =
      Keeps-then _ _ (Keeps-throw_if _ _) (Keeps-update _ outs.settings _ _)

  pub Keeps-update_settings :
      (org_id : ℕ) (dto : UpdateSettingsDto) → Keeps R (update_settings in_memory org_id dto)
  unfolding update_settings
  Keeps-update_settings org_id dto =
      Keeps-bind _ _ (Keeps-find_first _ _) λ found. Keeps-save_settings org_id dto found

  pub Keeps-create_holiday :
      (rt : Runtime) (org_id : ℕ) (dto : CreateHolidayDto)
      → Keeps R (create_holiday in_memory rt org_id dto)
  unfolding create_holiday
  Keeps-create_holiday rt org_id dto =
      Keeps-bind _ _ (Keeps-or_throw _ _)
        λ date. Keeps-then _ _ (Keeps-throw_if _ _) (Keeps-create _ outs.holidays _)

  pub Keeps-delete_holiday : (id org_id : ℕ) → Keeps R (delete_holiday in_memory id org_id)
  unfolding delete_holiday
  Keeps-delete_holiday id org_id =
      Keeps-bind _ _ (Keeps-find_first _ _)
        λ found. Keeps-then _ _ (Keeps-or_throw _ _) (Keeps-delete _ outs.holidays _)

  pub Keeps-mark_as_read : (id user_id : ℕ) → Keeps R (mark_as_read in_memory id user_id)
  unfolding mark_as_read
  Keeps-mark_as_read id user_id =
      Keeps-bind _ _ (Keeps-find_first _ _)
        λ found. Keeps-then _ _ (Keeps-or_throw _ _) (Keeps-update _ outs.notifications _ _)

  pub Keeps-mark_all_as_read : (user_id : ℕ) → Keeps R (mark_all_as_read in_memory user_id)
  unfolding mark_all_as_read
  Keeps-mark_all_as_read user_id = Keeps-update_many _ outs.notifications _ _

  pub Keeps-deactivate_user :
      (id org_id requesting_id : ℕ) (role : UserRole)
      → Keeps R (deactivate_user in_memory id org_id requesting_id role)
  unfolding deactivate_user
  Keeps-deactivate_user id org_id requesting_id role =
      Keeps-bind _ _ (Keeps-find_first _ _) λ found. Keeps-then _ _ (Keeps-or_throw _ _) (
        Keeps-then _ _ (Keeps-assert_can_manage requesting_id role id org_id)
          (Keeps-then _ _ (outs.changed_user _ _ (λ u. (refl, refl))) (Keeps-pure tt)))

  module _ (ctx : AuthContext) where
    pub Keeps-logout_user : (user_id : ℕ) → Keeps R (logout_user in_memory ctx user_id)
    unfolding logout_user
    Keeps-logout_user user_id = outs.changed_user _ _ (λ u. (refl, refl))

    Keeps-issue_tokens : (u : User) → Keeps R (issue_tokens in_memory ctx u)
    unfolding issue_tokens sign_access_token sign_refresh_token
    Keeps-issue_tokens u =
        Keeps-bind _ _ (Keeps-bind _ _ (Keeps-or_throw _ _) λ secret. Keeps-pure _) λ access.
          Keeps-bind _ _ (Keeps-bind _ _ (Keeps-or_throw _ _) λ secret. Keeps-pure _)
            λ refresh. Keeps-then _ _ (outs.changed_user _ _ (λ u. (refl, refl))) (Keeps-pure _)

    pub Keeps-login_user : (dto : LoginDto) → Keeps R (login_user in_memory ctx dto)
    unfolding login_user
    Keeps-login_user dto = Keeps-bind _ _ (Keeps-find_first _ _) λ found.
        Keeps-bind _ _ (Keeps-or_throw _ _)
          λ u. Keeps-then _ _ (Keeps-throw_if _ _) (Keeps-issue_tokens u)

    pub Keeps-refresh_access_token :
        (token : String) → Keeps R (refresh_access_token in_memory ctx token)
    unfolding refresh_access_token revoke
    Keeps-refresh_access_token token = Keeps-bind _ _ (Keeps-or_throw _ _) λ payload.
        Keeps-bind _ _ (Keeps-find_first _ _) λ found. Keeps-bind _ _ (Keeps-or_throw _ _) λ stored.
          Keeps-if _ _ _ (Keeps-issue_tokens stored.0)
            (Keeps-then _ _ (outs.changed_user _ _ (λ u. (refl, refl))) (Keeps-throw _))

pub IsFrame-admin : AdminOutside IsFrame
IsFrame-admin = record {
  settings = org_setting-IsOutside;
  holidays = holiday-IsOutside;
  notifications = notification-IsOutside;
  team = IsFrame-outside;
  new_project = Keeps-create_project_row;
  changed_project = Keeps-update_project_row;
  changed_user = λ key f same. Keeps-update _ user-IsOutside _ f;
}

module _ (ctx : AuthContext) where
  pub Keeps-register_user : (dto : RegisterDto) → Keeps IsFrame (register_user in_memory ctx dto)
  unfolding register_user create_organisation
  Keeps-register_user dto = Keeps-bind _ _ (Keeps-find_first _ _) λ existing.
      Keeps-then _ _ (Keeps-throw_if _ _) (
        Keeps-bind _ _
          (Keeps-transaction _ (
            Keeps-then _ _ (Keeps-throw_if _ _) (
              Keeps-bind _ _ (Keeps-create _ organisation-IsOutside _) λ org.
                Keeps-then _ _ (Keeps-create _ org_setting-IsOutside _)
                  (Keeps-create _ user-IsOutside _))))
          λ u. Keeps-issue_tokens IsFrame-admin ctx u)
