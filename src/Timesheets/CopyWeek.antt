-- ===== src/Timesheets/CopyWeek.antt =====
-- `copyPreviousWeek` of src/services/timesheets.service.ts.
use Prim.Native.String.{◌++◌}
use tms_api.Prelude.{
  ℕ, ◌-◌, ◌*◌, ◌+◌, String, Bool, true, false, not, ◌&&◌, Option, none, some, List, map, keep,
  includes, is_some, is_empty, length, ◌==◌,
}
use tms_api.Constants.HttpStatus
use tms_api.Constants.ErrorCodes
use tms_api.Dates.{Date, get_week_start}
use tms_api.Errors.{app_error, not_found_error, conflict_error, unexpected}
use tms_api.Prisma.{Client}
use tms_api.Runtime.{Runtime}
use tms_api.Database.{
  UserRole, employee, TimesheetStatus, draft, submitted, approved, rejected, OrgSettings, Timesheet,
  TimeEntry, map_week, org_setting, timesheet, time_entry,
}
use tms_api.Database.Action.{
  Action, ◌>>=◌, ◌>>◌, pure, throw_if, or_throw, when, transaction, find_first, find_last_by,
  find_many, create, create_many, update, delete_many,
}
use tms_api.Team.{get_assigned_project_ids}
use tms_api.Timesheets.Sheets.{
  is_draft, start_day, same_week, reduce_hours, billable_only, new_timesheet,
}

-- `status: { in: [APPROVED, SUBMITTED] }`
abbrev pub is_sent : TimesheetStatus → Bool
is_sent approved = true
is_sent submitted = true
is_sent _ = false

-- `existing.status.toLowerCase()`
abbrev pub status_lower : TimesheetStatus → String
status_lower draft = "draft"
status_lower submitted = "submitted"
status_lower approved = "approved"
status_lower rejected = "rejected"

abbrev pub is_employee : UserRole → Bool
is_employee employee = true
is_employee _ = false

abbrev pub existing_status : Option Timesheet → String
existing_status none = ""
existing_status (some t) = status_lower t.status

-- `!settings?.allowCopyWeek`
abbrev pub forbids_copy : Option OrgSettings → Bool
forbids_copy none = true
forbids_copy (some s) = not s.allow_copy_week

-- `existing && existing.status !== DRAFT`
abbrev pub is_sealed : Option Timesheet → Bool
is_sealed none = false
is_sealed (some t) = not (is_draft t.status)

-- The order of `orderBy: { weekStartDate: 'desc' }`.
abbrev pub date_key : Date → ℕ
date_key d = d.day * 86400000 + d.ms

-- The columns that a copied entry takes over; time off is left at the column's default.
abbrev pub copy_entry : ℕ → TimeEntry → ℕ → TimeEntry
copy_entry timesheet_id e id = record {
  id = id;
  timesheet_id = timesheet_id;
  project_id = e.project_id;
  billable = e.billable;
  week = map_week (λ cell. record { hours = cell.hours; desc = cell.desc; time_off = 0 }) e.week;
  total_hours = e.total_hours;
}

module _ (c : Client) where
  -- For an employee, the entries of projects that are no longer assigned are left out.
  unfoldable pub entries_to_copy : ℕ → ℕ → UserRole → List TimeEntry → Action (List TimeEntry)
  entries_to_copy user_id org_id employee entries = do
    assigned_ids ← get_assigned_project_ids c user_id org_id
    pure (keep (λ e. includes assigned_ids e.project_id) entries)
  entries_to_copy user_id org_id _ entries = pure entries

  unfoldable pub write_entries : ℕ → List TimeEntry → Action (Unit {0})
  write_entries timesheet_id entries =
      when (not (is_empty entries))
        (create_many c time_entry (map (copy_entry timesheet_id) entries))

  -- The two transactions at the end.
  unfoldable pub overwrite_draft : ℕ → List TimeEntry → Action Timesheet
  overwrite_draft existing_id entries = transaction (do
    delete_many c time_entry (λ e. e.timesheet_id == existing_id)
    write_entries existing_id entries
    update c timesheet (λ t. t.id == existing_id)
        (λ t. record t {
          total_hours = reduce_hours 0 entries;
          billable_hours = reduce_hours 0 (billable_only entries);
        }))

  unfoldable pub create_copy : ℕ → ℕ → Date → List TimeEntry → Action Timesheet
  create_copy user_id org_id week_start_date entries = transaction (do
    t ← create c timesheet (
        new_timesheet user_id org_id week_start_date (reduce_hours 0 entries)
          (reduce_hours 0 (billable_only entries)))
    write_entries t.id entries
    pure t)

  unfoldable pub save_copy : ℕ → ℕ → Date → Option Timesheet → List TimeEntry → Action Timesheet
  save_copy user_id org_id week_start_date none entries =
      create_copy user_id org_id week_start_date entries
  save_copy user_id org_id week_start_date (some existing) entries =
      overwrite_draft existing.id entries

module _ (c : Client) (rt : Runtime) where
  -- The timesheet that was written, and `skippedCount`.
  unfoldable pub copy_previous_week : ℕ → ℕ → String → UserRole → Bool → Action (Timesheet × ℕ)
  copy_previous_week user_id org_id target_week_start role force = do
    settings ← find_first c org_setting (λ s. s.organisation_id == org_id)
    throw_if (forbids_copy settings) (
        app_error "Copy Previous Week feature is disabled" HttpStatus.bad_request
          ErrorCodes.copy_week_disabled)
    found ←
        find_last_by c timesheet (λ t. date_key t.week_start_date)
          (λ t. t.user_id == user_id && (t.organisation_id == org_id && is_sent t.status))
    previous ← or_throw found (not_found_error "Previous submitted or approved timesheet")
    previous_entries ← find_many c time_entry (λ e. e.timesheet_id == previous.id)
    input_date ← or_throw (rt.parse_date target_week_start) unexpected
    let week_start_date = get_week_start input_date (start_day settings)
    existing ← find_first c timesheet (same_week user_id org_id week_start_date)
    throw_if (is_some existing && not force)
        (conflict_error "A timesheet already exists for the target week")
    throw_if (is_sealed existing && force) (
        app_error ("Cannot overwrite a " ++ existing_status existing ++ " timesheet")
          HttpStatus.forbidden ErrorCodes.immutable_timesheet)
    entries ← entries_to_copy c user_id org_id role previous_entries
    t ← save_copy c user_id org_id week_start_date existing entries
    pure (t, length previous_entries - length entries)
