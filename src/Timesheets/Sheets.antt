-- ===== src/Timesheets/Sheets.antt =====
-- Reading, creating, changing, deleting and submitting a timesheet, and the recalculation of its totals
-- (src/services/timesheets.service.ts, lines 15 to 135).
use tms_api.Prelude.{
  ℕ, ◌+◌, String, Bool, true, false, not, ◌&&◌, ◌||◌, Option, none, some, List, [], ◌∷◌, keep, map,
  first, is_some, or_default, ◌==◌, if◌then◌else◌,
}
use tms_api.Constants.HttpStatus
use tms_api.Constants.ErrorCodes
use tms_api.Dates.{Date, get_week_start, get_week_end, is_in_past}
use tms_api.Errors.{
  app_error, not_found_error, conflict_error, immutable_timesheet_error, invalid_transition_error,
  unexpected,
}
use tms_api.Prisma.{Client}
use tms_api.Runtime.{Runtime}
use tms_api.Database.{
  TimesheetStatus, draft, submitted, approved, rejected, OrgSettings, Timesheet, TimeEntry, Project,
  org_setting, timesheet, time_entry,
}
use tms_api.Database.Action.{
  Action, ◌>>=◌, ◌>>◌, pure, current, throw_if, or_throw, find_first, find_many, create, update,
}
use tms_api.Database.Constraints.{delete_timesheet_row}

abbrev pub is_draft : TimesheetStatus → Bool
is_draft draft = true
is_draft _ = false

abbrev pub is_rejected : TimesheetStatus → Bool
is_rejected rejected = true
is_rejected _ = false

abbrev pub is_submitted : TimesheetStatus → Bool
is_submitted submitted = true
is_submitted _ = false

-- `allowedFrom.includes(status)`, and the test of the entry operations.
abbrev pub is_open : TimesheetStatus → Bool
is_open status = is_draft status || is_rejected status

-- The text of the enum's constant.
abbrev pub status_text : TimesheetStatus → String
status_text draft = "DRAFT"
status_text submitted = "SUBMITTED"
status_text approved = "APPROVED"
status_text rejected = "REJECTED"

abbrev pub same_date : Date → Date → Bool
same_date a b = a.day == b.day && a.ms == b.ms

-- `where: { id, userId, organisationId: orgId }`
abbrev pub owned : ℕ → ℕ → ℕ → Timesheet → Bool
owned id user_id org_id t = t.id == id && (t.user_id == user_id && t.organisation_id == org_id)

-- `where: { userId, organisationId: orgId, weekStartDate }`
abbrev pub same_week : ℕ → ℕ → Date → Timesheet → Bool
same_week user_id org_id week_start_date t =
    t.user_id == user_id
    && (t.organisation_id == org_id && same_date t.week_start_date week_start_date)

-- `entries.reduce((sum, e) => sum + e.totalHours, acc)`
abbrev pub reduce_hours : ℕ → List TimeEntry → ℕ
reduce_hours acc [] = acc
reduce_hours acc (e ∷ es) = reduce_hours (acc + e.total_hours) es

abbrev pub billable_only : List TimeEntry → List TimeEntry
billable_only es = keep (λ e. e.billable) es

-- `settings?.workWeekStart ?? 'monday'`
abbrev pub start_day : Option OrgSettings → String
start_day none = "monday"
start_day (some s) = s.work_week_start

-- `settings?.allowBackdated`
abbrev pub allows_backdated : Option OrgSettings → Bool
allows_backdated none = false
allows_backdated (some s) = s.allow_backdated

abbrev pub new_timesheet : ℕ → ℕ → Date → ℕ → ℕ → ℕ → Timesheet
new_timesheet user_id org_id week_start_date total_hours billable_hours id = record {
  id = id;
  organisation_id = org_id;
  user_id = user_id;
  week_start_date = week_start_date;
  week_end_date = get_week_end week_start_date;
  status = draft;
  total_hours = total_hours;
  billable_hours = billable_hours;
  approved_by_id = none;
  approved_at = none;
  rejected_reason = none;
}

-- `dto.weekStartDate ? new Date(dto.weekStartDate) : …`; Prisma refuses an Invalid Date.
abbrev pub given_date : Runtime → Option String → Action (Option Date)
given_date rt none = pure none
given_date rt (some text) = do date ← or_throw (rt.parse_date text) unexpected; pure (some date)

-- `include: { project: true }`
abbrev pub with_projects : List Project → List TimeEntry → List (TimeEntry × Option Project)
with_projects projects es = map (λ e. (e, first (λ p. p.id == e.project_id) projects)) es

module _ (c : Client) where
  unfoldable pub recalculate_timesheet_totals : ℕ → Action (Unit {0})
  recalculate_timesheet_totals timesheet_id = do
    entries ← find_many c time_entry (λ e. e.timesheet_id == timesheet_id)
    let total_hours = reduce_hours 0 entries
    let billable_hours = reduce_hours 0 (billable_only entries)
    update c timesheet (λ t. t.id == timesheet_id)
        (λ t. record t { total_hours = total_hours; billable_hours = billable_hours })
    pure tt

  -- The entries are `sort`ed by their creation in the database, each with its project.
  unfoldable pub get_timesheet_by_id :
      (List TimeEntry → List TimeEntry)
      → ℕ
      → ℕ
      → ℕ
      → Action (Timesheet × List (TimeEntry × Option Project))
  get_timesheet_by_id sort id user_id org_id = do
    db ← current
    found ← find_first c timesheet (owned id user_id org_id)
    t ← or_throw found (not_found_error "Timesheet")
    entries ← find_many c time_entry (λ e. e.timesheet_id == t.id)
    pure (t, with_projects db.projects.rows (sort entries))

  unfoldable pub delete_timesheet : ℕ → ℕ → ℕ → Action (Unit {0})
  delete_timesheet id user_id org_id = do
    found ← find_first c timesheet (owned id user_id org_id)
    t ← or_throw found (not_found_error "Timesheet")
    throw_if (not (is_draft t.status)) immutable_timesheet_error
    delete_timesheet_row c id

  unfoldable pub submit_timesheet : ℕ → ℕ → ℕ → Action Timesheet
  submit_timesheet id user_id org_id = do
    found ← find_first c timesheet (owned id user_id org_id)
    t ← or_throw found (not_found_error "Timesheet")
    throw_if (not (is_open t.status))
        (invalid_transition_error (status_text t.status) (status_text submitted))
    update c timesheet (λ s. s.id == id)
        (λ s. record s {
          status = submitted;
          rejected_reason = if is_rejected t.status then none else s.rejected_reason;
        })

module _ (c : Client) (rt : Runtime) where
  unfoldable pub create_timesheet : ℕ → ℕ → String → Action Timesheet
  create_timesheet user_id org_id week_start_text = do
    settings ← find_first c org_setting (λ s. s.organisation_id == org_id)
    input_date ← or_throw (rt.parse_date week_start_text) unexpected
    let week_start_date = get_week_start input_date (start_day settings)
    throw_if (not (allows_backdated settings) && is_in_past rt.now week_start_date) (
        app_error "Backdated timesheets are not allowed" HttpStatus.bad_request
          ErrorCodes.backdating_not_allowed)
    existing ← find_first c timesheet (same_week user_id org_id week_start_date)
    throw_if (is_some existing) (conflict_error "A timesheet already exists for this week")
    create c timesheet (new_timesheet user_id org_id week_start_date 0 0)

  -- `dto.weekStartDate` is stored as it comes; `data` is empty where it is not given.
  unfoldable pub update_timesheet : ℕ → ℕ → ℕ → Option String → Action Timesheet
  update_timesheet id user_id org_id week_start_text = do
    found ← find_first c timesheet (owned id user_id org_id)
    t ← or_throw found (not_found_error "Timesheet")
    throw_if (not (is_draft t.status)) immutable_timesheet_error
    new_date ← given_date rt week_start_text
    update c timesheet (λ s. s.id == id)
        (λ s. record s { week_start_date = or_default new_date s.week_start_date })
