-- ===== src/Reports.antt =====
-- `generateReport` of src/services/reports.service.ts: whose timesheets a report may hold, and its
-- aggregates. The columns that it selects of users and projects are left out, and so is the order.
pub mod Scope
pub mod Totals
pub mod Monthly
use tms_api.Prelude.{
  ℕ, ◌+◌, ◌-◌, ◌*◌, ◌/◌, String, Bool, true, false, not, ◌&&◌, Option, none, some, is_some,
  or_default, List, [], ◌∷◌, ◌++◌, map, keep, includes, length, ltb, ◌==◌, if◌then◌else◌,
}
use tms_api.Constants.ErrorCodes
use tms_api.Dates.{Date, before}
use tms_api.Errors.{forbidden_error, unexpected}
use tms_api.Prisma.{Client}
use tms_api.Runtime.{Runtime}
use tms_api.Database.{
  UserRole, employee, manager, admin, TimesheetStatus, draft, submitted, approved, rejected,
  Timesheet, TimeEntry, timesheet, time_entry,
}
use tms_api.Database.Action.{Action, ◌>>=◌, ◌>>◌, pure, throw_if, or_throw, find_many}
use tms_api.Team.{get_direct_report_ids}

pub record ReportFilters : Type 0 where
  pub date_from : String
  pub date_to : String
  pub user_id : Option ℕ
  pub status : Option TimesheetStatus
  pub project_id : Option ℕ

pub record Aggregates : Type 0 where
  pub total_hours : ℕ
  pub billable_hours : ℕ
  pub non_billable_hours : ℕ
  pub utilization : ℕ
  pub timesheet_count : ℕ

-- Each timesheet with the entries that are included.
pub record Report : Type 0 where
  pub timesheets : List (Timesheet × List TimeEntry)
  pub aggregates : Aggregates

-- An id that the query gave: 0 is falsy.
abbrev pub given : Option ℕ → Option ℕ
given none = none
given (some id) = if id == 0 then none else some id

-- `filters.userId && test(filters.userId)`
abbrev pub given_and : Option ℕ → (ℕ → Bool) → Bool
given_and none test = false
given_and (some id) test = test id

-- `filters.userId ? { userId: filters.userId } : userScope`
abbrev pub user_where : Option ℕ → (ℕ → Bool) → ℕ → Bool
user_where none scope user_id = scope user_id
user_where (some id) scope user_id = user_id == id

abbrev pub same_status : TimesheetStatus → TimesheetStatus → Bool
same_status draft draft = true
same_status submitted submitted = true
same_status approved approved = true
same_status rejected rejected = true
same_status _ _ = false

-- `filters.status ? { status: filters.status } : {}`
abbrev pub status_where : Option TimesheetStatus → TimesheetStatus → Bool
status_where none status = true
status_where (some wanted) status = same_status status wanted

-- The entries of the wanted project, or all.
abbrev pub project_where : Option ℕ → TimeEntry → Bool
project_where none e = true
project_where (some id) e = e.project_id == id

-- `gte: from, lte: to`
abbrev pub within : Date → Date → Date → Bool
within from to date = not (before date from) && not (before to date)

abbrev pub sum_hours : (Timesheet → ℕ) → ℕ → List Timesheet → ℕ
sum_hours hours sum [] = sum
sum_hours hours sum (t ∷ ts) = sum_hours hours (sum + hours t) ts

-- `Math.round((part / whole) * 100)`, which rounds a half up.
abbrev pub percentage : ℕ → ℕ → ℕ
percentage part whole = (200 * part + whole) / (2 * whole)

abbrev pub aggregates_of : List Timesheet → Aggregates
aggregates_of ts =
    let total_hours = sum_hours (λ t. t.total_hours) 0 ts in
    let billable_hours = sum_hours (λ t. t.billable_hours) 0 ts in
    record {
      total_hours = total_hours;
      billable_hours = billable_hours;
      non_billable_hours = total_hours - billable_hours;
      utilization = if ltb 0 total_hours then percentage billable_hours total_hours else 0;
      timesheet_count = length ts;
    }

module _ (c : Client) where
  -- `userScope`, as a test on user ids, after the permission check.
  unfoldable pub user_scope : ℕ → Option ℕ → ℕ → UserRole → Action (ℕ → Bool)
  user_scope org_id user_id requesting_id employee = do
    throw_if (given_and user_id (λ id. not (id == requesting_id)))
        (forbidden_error "Insufficient permissions" ErrorCodes.forbidden)
    pure (λ id. id == requesting_id)
  user_scope org_id user_id requesting_id manager = do
    direct_report_ids ← get_direct_report_ids c requesting_id org_id
    let allowed_ids = direct_report_ids ++ requesting_id ∷ []
    throw_if (given_and user_id (λ id. not (includes allowed_ids id)))
        (forbidden_error "You can only view reports for your direct reports" ErrorCodes.forbidden)
    pure (λ id. includes allowed_ids id)
  user_scope org_id user_id requesting_id admin = pure (λ id. true)

  unfoldable pub generate_report : Runtime → ℕ → ReportFilters → ℕ → UserRole → Action Report
  generate_report rt org_id filters requesting_id role = do
    scope ← user_scope org_id (given filters.user_id) requesting_id role
    from ← or_throw (rt.parse_date filters.date_from) unexpected
    to ← or_throw (rt.parse_date filters.date_to) unexpected
    sheets ← find_many c timesheet (λ t.
        t.organisation_id == org_id
        && within from to t.week_start_date
        && user_where (given filters.user_id) scope t.user_id
        && status_where filters.status t.status)
    entries ← find_many c time_entry (project_where (given filters.project_id))
    pure (record {
      timesheets = map (λ t. (t, keep (λ e. e.timesheet_id == t.id) entries)) sheets;
      aggregates = aggregates_of sheets;
    })
