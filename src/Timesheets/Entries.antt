-- ===== src/Timesheets/Entries.antt =====
-- The time entry operations of src/services/timesheets.service.ts. The seven days' columns of a
-- request body are grouped as one `DayDto` a day; a field that the body leaves out is `none`.
use Prim.Native.Char.{code}
use Prim.Native.String
use tms_api.Prelude.{
  ℕ, ◌+◌, String, Bool, true, false, not, ◌&&◌, ◌||◌, Option, none, some, List, any, is_some,
  or_default, ltb, leb, ◌==◌,
}
use tms_api.Constants.HttpStatus
use tms_api.Constants.ErrorCodes
use tms_api.Errors.{app_error, not_found_error, immutable_timesheet_error, unexpected}
use tms_api.Prisma.{Client}
use tms_api.Runtime.{Runtime}
use tms_api.Database.{
  UserRole, OrgSettings, Timesheet, TimeEntry, Week, DayCell, map_week, days, org_setting,
  timesheet, time_entry, project, project_employee,
}
use tms_api.Database.Action.{
  Action, ◌>>=◌, ◌>>◌, pure, current, throw_if, or_throw, when, find_first, find_many, create,
  update, delete,
}
use tms_api.Database.Constraints.{project_exists}
use tms_api.Timesheets.Sheets.{is_open, owned, recalculate_timesheet_totals}
use tms_api.Timesheets.CopyWeek.{is_employee}

pub record DayDto : Type 0 where
  pub hours : Option ℕ
  pub desc : Option String
  pub time_off : Option ℕ

pub record CreateEntryDto : Type 0 where
  pub project_id : ℕ
  pub billable : Option Bool
  pub week : Week DayDto

pub record UpdateEntryDto : Type 0 where
  pub project_id : Option ℕ
  pub billable : Option Bool
  pub week : Week DayDto

-- The white space that `trim` takes off.
abbrev pub is_wide_white : ℕ → Bool
is_wide_white c =
    (leb 0x2000 c && leb c 0x200a)
    || (c == 0x1680
        || (c == 0x2028 || (c == 0x2029 || (c == 0x202f || (c == 0x205f || c == 0x3000)))))

abbrev pub is_white : ℕ → Bool
is_white c = (leb 9 c && leb c 13) || (c == 32 || (c == 160 || (c == 0xfeff || is_wide_white c)))

-- `!text.trim()`
abbrev pub is_blank : String → Bool
is_blank String.[] = true
is_blank (String.◌∷◌ ch text) = is_white (code ch) && is_blank text

-- `!desc?.trim()`
abbrev pub lacks_text : Option String → Bool
lacks_text none = true
lacks_text (some text) = is_blank text

-- `(hours ?? 0) > 0 && !desc?.trim()`
abbrev pub undescribed : DayDto → Bool
undescribed d = ltb 0 (or_default d.hours 0) && lacks_text d.desc

-- `settings?.mandatoryDesc`
abbrev pub wants_desc : Option OrgSettings → Bool
wants_desc none = false
wants_desc (some s) = s.mandatory_desc

-- `settings?.maxHoursPerDay ?? 24`, in minutes.
abbrev pub max_per_day : Option OrgSettings → ℕ
max_per_day none = 1440
max_per_day (some s) = s.max_hours_per_day

unfoldable pub calc_entry_total : Week (Option ℕ) → ℕ
calc_entry_total data_ =
    or_default data_.mon 0
    + or_default data_.tue 0
    + or_default data_.wed 0
    + or_default data_.thu 0
    + or_default data_.fri 0
    + or_default data_.sat 0
    + or_default data_.sun 0

-- `hours !== undefined && hours > maxPerDay`
abbrev pub exceeds : ℕ → DayDto → Bool
exceeds most d = ltb most (or_default d.hours 0)

-- The columns of a new entry: one that is left out takes its default.
abbrev pub new_cell : DayDto → DayCell
new_cell d = record {
  hours = or_default d.hours 0;
  desc = d.desc;
  time_off = or_default d.time_off 0;
}

-- `'monDesc' in dto ? dto.monDesc : entry.monDesc`
abbrev pub merge_desc : Option String → Option String → Option String
merge_desc none old = old
merge_desc (some text) old = some text

-- One day of `merged`.
abbrev pub merge_cell : DayDto → DayCell → DayCell
merge_cell d cell = record {
  hours = or_default d.hours cell.hours;
  desc = merge_desc d.desc cell.desc;
  time_off = or_default d.time_off cell.time_off;
}

abbrev pub merge_week : Week DayDto → Week DayCell → Week DayCell
merge_week d w = record {
  mon = merge_cell d.mon w.mon;
  tue = merge_cell d.tue w.tue;
  wed = merge_cell d.wed w.wed;
  thu = merge_cell d.thu w.thu;
  fri = merge_cell d.fri w.fri;
  sat = merge_cell d.sat w.sat;
  sun = merge_cell d.sun w.sun;
}

module _ (c : Client) where
  -- `where: { projectId, employeeId: userId }`, for an employee.
  unfoldable pub assert_assigned : UserRole → ℕ → ℕ → Action (Unit {0})
  assert_assigned role project_id user_id = when (is_employee role) (do
    assignment ←
        find_first c project_employee (λ r. r.project_id == project_id && r.employee_id == user_id)
    or_throw assignment (
        app_error "You are not assigned to this project" HttpStatus.forbidden
          ErrorCodes.employee_not_assigned)
    pure tt)

  -- The ownership and status checks that every change of an entry begins with.
  unfoldable pub open_timesheet : ℕ → ℕ → ℕ → Action Timesheet
  open_timesheet timesheet_id user_id org_id = do
    found ← find_first c timesheet (owned timesheet_id user_id org_id)
    t ← or_throw found (not_found_error "Timesheet")
    throw_if (not (is_open t.status)) immutable_timesheet_error
    pure t

  unfoldable pub list_entries : ℕ → ℕ → ℕ → Action (List TimeEntry)
  list_entries timesheet_id user_id org_id = do
    found ← find_first c timesheet (owned timesheet_id user_id org_id)
    or_throw found (not_found_error "Timesheet")
    find_many c time_entry (λ e. e.timesheet_id == timesheet_id)

  unfoldable pub update_entry : ℕ → ℕ → ℕ → ℕ → UpdateEntryDto → UserRole → Action TimeEntry
  update_entry timesheet_id entry_id user_id org_id dto role = do
    open_timesheet timesheet_id user_id org_id
    found ← find_first c time_entry (λ e. e.id == entry_id && e.timesheet_id == timesheet_id)
    entry ← or_throw found (not_found_error "TimeEntry")
    when (is_some dto.project_id) (assert_assigned role (or_default dto.project_id 0) user_id)
    let merged = merge_week dto.week entry.week
    let total_hours = calc_entry_total (map_week (λ cell. some cell.hours) merged)
    db ← current
    throw_if (is_some dto.project_id && not (project_exists c db (or_default dto.project_id 0)))
        unexpected
    updated ←
        update c time_entry (λ e. e.id == entry_id)
          (λ e. record e {
            project_id = or_default dto.project_id e.project_id;
            billable = or_default dto.billable e.billable;
            week = merged;
            total_hours = total_hours;
          })
    recalculate_timesheet_totals c timesheet_id
    pure updated

  unfoldable pub delete_entry : ℕ → ℕ → ℕ → ℕ → Action (Unit {0})
  delete_entry timesheet_id entry_id user_id org_id = do
    open_timesheet timesheet_id user_id org_id
    found ← find_first c time_entry (λ e. e.id == entry_id && e.timesheet_id == timesheet_id)
    or_throw found (not_found_error "TimeEntry")
    delete c time_entry (λ e. e.id == entry_id)
    recalculate_timesheet_totals c timesheet_id

module _ (c : Client) (rt : Runtime) where
  -- The checks of a new entry that the organisation's settings ask for.
  unfoldable pub max_hours_message : ℕ → String
  max_hours_message most =
      String.◌++◌ "Cannot log more than " (String.◌++◌ (rt.show_hours most) " hours per day")

  unfoldable pub create_entry : ℕ → ℕ → ℕ → CreateEntryDto → UserRole → Action TimeEntry
  create_entry timesheet_id user_id org_id dto role = do
    open_timesheet c timesheet_id user_id org_id
    settings ← find_first c org_setting (λ s. s.organisation_id == org_id)
    throw_if (wants_desc settings && any undescribed (days dto.week)) (
        app_error "Description is required for each day with logged hours" HttpStatus.bad_request
          ErrorCodes.description_required)
    project_found ←
        find_first c project (λ p. p.id == dto.project_id && p.organisation_id == org_id)
    or_throw project_found (not_found_error "Project")
    assert_assigned c role dto.project_id user_id
    let total_hours = calc_entry_total (map_week (λ d. d.hours) dto.week)
    throw_if (any (exceeds (max_per_day settings)) (days dto.week)) (
        app_error (max_hours_message (max_per_day settings)) HttpStatus.bad_request
          ErrorCodes.max_hours_exceeded)
    entry ← create c time_entry (λ id. record {
      id = id;
      timesheet_id = timesheet_id;
      project_id = dto.project_id;
      billable = or_default dto.billable true;
      week = map_week new_cell dto.week;
      total_hours = total_hours;
    })
    recalculate_timesheet_totals c timesheet_id
    pure entry
