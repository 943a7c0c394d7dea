-- ===== src/Http/Lists.antt =====
-- The handlers `list` of src/controllers/users.controller.ts and projects.controller.ts, and `list`
-- of approvals.controller.ts: who is shown what.
pub mod Stats
use text.Mathlib.Text.{◌==◌ as str_eq}
use tms_api.Prelude.{
  ℕ, ◌*◌, ◌≤◌, ◌≡◌, refl, sym, ap, Bool, true, none, some, suc, ◌&&◌, ◌||◌, Option, List, keep, map,
  sum, any, includes, length, ◌==◌, inl, inr, Bool-cases,
}
use tms_api.Prisma.{Client, IsLawful, in_memory, in_memory-eq}
use tms_api.Runtime.{Runtime}
use tms_api.Database.{
  Database, UserRole, employee, manager, admin, User, Project, Timesheet, ManagerEmployee, user,
  project, project_employee, timesheet, manager_employee,
}
use tms_api.Database.Action.{Action}
use tms_api.Database.Triple.{
  After, After-seq, After-pure, After-find_many, After-count, After-current, After-weaken,
}
use tms_api.Dates.{Date, get_day, get_week_start}
use tms_api.Database.Constraints.{user_in}
use tms_api.Pages.{
  Page, page_rows, page_of, limit_of, find_page, read_pages, IsPageOf, find_page-IsPageOf, ℤ, pos,
  IsPaged-read_pages,
}
use tms_api.Timesheets.Sheets.{is_submitted}
use tms_api.Team.Guards.{reports_of}
use tms_api.Users.{list_users}
use tms_api.Users.Scope.{After-reports}
use tms_api.Projects.{list_projects}
use tms_api.Approvals.{
  ApprovalStats, is_approved, is_since, this_monday, build_team_filter, count_members,
  list_pending_approvals, get_approval_stats,
}
use tms_api.Reports.Totals.{length-map}
use tms_api.Service.{JwtPayload}

module _ (c : Client) (user : JwtPayload) where
  unfoldable pub list_users_handler :
      (List User → List User) → Option ℤ → Option ℤ → Action (Page User)
  list_users_handler sort page limit =
      list_users c sort user.org_id user.user_id user.role (page_of page) (limit_of limit)

  unfoldable pub list_projects_handler :
      (List Project → List Project) → Option ℤ → Option ℤ → Action (Page Project)
  list_projects_handler sort page limit =
      list_projects c sort user.org_id user.user_id user.role (page_of page) (limit_of limit)

  unfoldable pub list_approvals_handler :
      (List Timesheet → List Timesheet) → Option ℤ → Option ℤ → Action (Page Timesheet)
  list_approvals_handler sort page limit =
      list_pending_approvals c sort user.org_id user.user_id user.role (page_of page)
        (limit_of limit)

-- A manager is shown the direct reports of the organisation, others all its users.
abbrev pub is_shown_user : Database → ℕ → ℕ → UserRole → User → Bool
is_shown_user db org_id requesting_id manager u =
    u.organisation_id == org_id && includes (reports_of requesting_id org_id db) u.id
is_shown_user db org_id requesting_id _ u = u.organisation_id == org_id

-- An employee is shown the projects that they are assigned to, others all of the organisation's.
abbrev pub is_shown_project : Database → ℕ → ℕ → UserRole → Project → Bool
is_shown_project db org_id user_id employee p =
    p.organisation_id == org_id
    && any (λ r. r.project_id == p.id)
        (keep (λ r. r.employee_id == user_id) db.project_employees.rows)
is_shown_project db org_id user_id _ p = p.organisation_id == org_id

-- An admin reviews every timesheet of the organisation, another user those of direct reports.
abbrev pub is_reviewed : Database → ℕ → ℕ → UserRole → Timesheet → Bool
is_reviewed db org_id user_id admin t = true
is_reviewed db org_id user_id _ t = includes (reports_of user_id org_id db) t.user_id

abbrev pub is_pending : Database → ℕ → ℕ → UserRole → Timesheet → Bool
is_pending db org_id user_id role t =
    t.organisation_id == org_id && (is_submitted t.status && is_reviewed db org_id user_id role t)

module _ (org_id user_id : ℕ) (db : Database) where
  users-IsPageOf :
      (role : UserRole) (sort : List User → List User) (page limit : ℤ)
      → let rows = keep (is_shown_user db org_id user_id role) db.users.rows in
        IsPageOf
          (sort rows)
          (length rows)
          page
          limit
          db
          (list_users in_memory sort org_id user_id role page limit)
  unfolding list_users
  users-IsPageOf employee sort page limit = find_page-IsPageOf user sort _ page limit
  users-IsPageOf admin sort page limit = find_page-IsPageOf user sort _ page limit
  users-IsPageOf manager sort page limit =
      After-seq _ _ (After-reports user_id org_id (find_page-IsPageOf user sort _ page limit))

  projects-IsPageOf :
      (role : UserRole) (sort : List Project → List Project) (page limit : ℤ)
      → let rows = keep (is_shown_project db org_id user_id role) db.projects.rows in
        IsPageOf
          (sort rows)
          (length rows)
          page
          limit
          db
          (list_projects in_memory sort org_id user_id role page limit)
  unfolding list_projects
  projects-IsPageOf admin sort page limit = find_page-IsPageOf project sort _ page limit
  projects-IsPageOf manager sort page limit = find_page-IsPageOf project sort _ page limit
  projects-IsPageOf employee sort page limit =
      After-find_many project_employee _ _ (find_page-IsPageOf project sort _ page limit)

  pub pending-IsPageOf :
      (role : UserRole) (sort : List Timesheet → List Timesheet) (page limit : ℤ)
      → let rows = keep (is_pending db org_id user_id role) db.timesheets.rows in
        IsPageOf
          (sort rows)
          (length rows)
          page
          limit
          db
          (list_pending_approvals in_memory sort org_id user_id role page limit)
  unfolding list_pending_approvals build_team_filter
  pending-IsPageOf admin sort page limit =
      After-seq _ _ (After-pure _ (find_page-IsPageOf timesheet sort _ page limit))
  pending-IsPageOf manager sort page limit = After-seq _ _ (
      After-seq _ _ (
        After-reports user_id org_id
          (After-pure _ (find_page-IsPageOf timesheet sort _ page limit))))
  pending-IsPageOf employee sort page limit = After-seq _ _ (
      After-seq _ _ (
        After-reports user_id org_id
          (After-pure _ (find_page-IsPageOf timesheet sort _ page limit))))

-- The rows that the caller is shown.
abbrev pub shown_users : JwtPayload → Database → List User
shown_users who db = keep (is_shown_user db who.org_id who.user_id who.role) db.users.rows

abbrev pub shown_projects : JwtPayload → Database → List Project
shown_projects who db = keep (is_shown_project db who.org_id who.user_id who.role) db.projects.rows

-- Where the query's limit makes a page of `m` rows, so not where it is negative, and the database
-- has the rows in one order for all the pages' queries: if the first `n` pages have room for all
-- rows, reading the pages of the users one after the other never throws, writes nothing and gives
-- exactly the organisation's users, for a manager its direct reports alone; and reading those of the
-- projects gives exactly the organisation's projects, for an employee those assigned to them alone.
pub list_handlers-pages :
    (c : Client)
    → IsLawful c
    → (who : JwtPayload) (by_user : Option ℤ → List User → List User)
      (by_project : Option ℤ → List Project → List Project) (asked : Option ℤ) (m n : ℕ)
      (db : Database)
    → limit_of asked ≡ pos m
    → ((page : Option ℤ)
        → (by_user page (shown_users who db) ≡ by_user none (shown_users who db))
          × (by_project page (shown_projects who db) ≡ by_project none (shown_projects who db)))
    → length (by_user none (shown_users who db)) ≤ n * m
    → length (by_project none (shown_projects who db)) ≤ n * m
    → After
        (λ _. ⊥)
        (λ all new. (new ≡ db) × (all ≡ by_user none (shown_users who db)))
        (read_pages (λ page limit. list_users_handler c who (by_user page) page limit) asked 0 n)
        db
      × After
          (λ _. ⊥)
          (λ all new. (new ≡ db) × (all ≡ by_project none (shown_projects who db)))
          (read_pages
            (λ page limit. list_projects_handler c who (by_project page) page limit)
            asked
            0
            n)
          db
unfolding list_users_handler list_projects_handler
list_handlers-pages c lawful who by_user by_project asked m n db is_m alike h k =
    rw (in_memory-eq lawful) (
      IsPaged-read_pages (λ page limit. list_users_handler in_memory who (by_user page) page limit)
          (by_user none (shown_users who db)) (length (shown_users who db)) db asked m is_m
          (λ k.
            rw (← (alike (some (pos (suc k)))).0)
              (users-IsPageOf who.org_id who.user_id db who.role _ _ _))
          n h,
      IsPaged-read_pages
          (λ page limit. list_projects_handler in_memory who (by_project page) page limit)
          (by_project none (shown_projects who db)) (length (shown_projects who db)) db asked m is_m
          (λ k.
            rw (← (alike (some (pos (suc k)))).1)
              (projects-IsPageOf who.org_id who.user_id db who.role _ _ _))
          n k,
    )
