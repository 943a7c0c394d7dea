-- ===== src/Approvals.antt =====
-- src/services/approvals.service.ts: approving and rejecting a submitted timesheet.
pub mod Guards
pub mod Effects
pub mod Credit
pub mod Returns
use Prim.Native.String.{◌++◌}
use package.text.Mathlib.Text.{◌==◌ as str_eq}
use tms_api.Prelude.{
  ℕ, ◌+◌, ◌-◌, ◌||◌, map, sum, if◌then◌else◌, String, Bool, true, false, not, ◌&&◌, Option, none,
  some, List, [], ◌∷◌, includes, ◌==◌,
}
use tms_api.Constants.ErrorCodes
use tms_api.Errors.{unexpected, not_found_error, forbidden_error, invalid_transition_error}
use tms_api.Prisma.{Client}
use tms_api.Dates.{Date, get_day, before}
use tms_api.Pages.{ℤ, Page, find_page}
use tms_api.Runtime.{Runtime}
use tms_api.Database.{
  Database, UserRole, manager, admin, TimesheetStatus, approved, user, manager_employee, rejected,
  Timesheet, TimeEntry, timesheet, time_entry, project, notification,
}
use tms_api.Database.Action.{
  Action, ◌>>=◌, ◌>>◌, pure, throw_if, or_throw, when, current, find_first, find_many, count,
  create, update,
}
use tms_api.Database.Constraints.{user_in, too_long}
use tms_api.Team.{get_direct_report_ids, assert_is_direct_report}
use tms_api.Timesheets.Sheets.{is_submitted, status_text}

abbrev pub is_manager : UserRole → Bool
is_manager manager = true
is_manager _ = false

-- What `buildTeamFilter` leaves of the timesheets: `none` is no filter.
abbrev pub in_team : Option (List ℕ) → Timesheet → Bool
in_team none t = true
in_team (some ids) t = includes ids t.user_id

abbrev pub is_approved : TimesheetStatus → Bool
is_approved approved = true
is_approved _ = false

-- The start of the current week, a Monday.
abbrev pub this_monday : Date → Date
this_monday now =
    let day_of_week = get_day now in
    record { day = if day_of_week == 0 then now.day - 6 else now.day + 1 - day_of_week; ms = 0 }

-- `{ gte: start }`, which no missing date passes.
abbrev pub is_since : Date → Option Date → Bool
is_since start none = false
is_since start (some date) = not (before date start)

pub record ApprovalStats : Type 0 where
  pub pending_count : ℕ
  pub approved_this_week : ℕ
  pub team_hours : ℕ
  pub team_members : ℕ

abbrev pub rejection_message : Runtime → Date → String → String
rejection_message rt week_start_date reason =
    "Your timesheet for week starting "
    ++ rt.iso_date week_start_date
    ++ " was rejected. Reason: "
    ++ reason

module _ (c : Client) where
  -- How many active users an admin has, and how many direct reports another user.
  unfoldable pub count_members : Database → ℕ → ℕ → UserRole → Action ℕ
  count_members db org_id user_id admin =
      count c user (λ u. u.organisation_id == org_id && str_eq u.status "active")
  count_members db org_id user_id _ =
      count c manager_employee (λ a. a.manager_id == user_id && user_in c org_id db a.manager_id)

  unfoldable pub build_team_filter : ℕ → UserRole → ℕ → Action (Option (List ℕ))
  build_team_filter user_id admin org_id = pure none
  build_team_filter user_id _ org_id = do
    ids ← get_direct_report_ids c user_id org_id
    pure (some ids)

  -- `sort` is the database's order by the last update.
  unfoldable pub list_pending_approvals :
      (List Timesheet → List Timesheet) → ℕ → ℕ → UserRole → ℤ → ℤ → Action (Page Timesheet)
  list_pending_approvals sort org_id user_id role page limit = do
    team ← build_team_filter user_id role org_id
    find_page c timesheet sort
        (λ t. t.organisation_id == org_id && (is_submitted t.status && in_team team t)) page limit

  -- `aggregate` with `_sum` is the sum over the rows that the test finds, 0 for none.
  unfoldable pub get_approval_stats : Runtime → ℕ → ℕ → UserRole → Action ApprovalStats
  get_approval_stats rt org_id user_id role = do
    team ← build_team_filter user_id role org_id
    db ← current
    pending ←
        count c timesheet
          (λ t. t.organisation_id == org_id && (is_submitted t.status && in_team team t))
    this_week ← count c timesheet (λ t.
        t.organisation_id == org_id
        && (is_approved t.status
            && (is_since (this_monday rt.now) t.approved_at && in_team team t)))
    sheets ← find_many c timesheet (λ t.
        t.organisation_id == org_id
        && ((is_submitted t.status || is_approved t.status) && in_team team t))
    members ← count_members db org_id user_id role
    pure (record {
      pending_count = pending;
      approved_this_week = this_week;
      team_hours = sum (map (λ t. t.total_hours) sheets);
      team_members = members;
    })

  -- The guards that `approveTimesheet` and `rejectTimesheet` share, up to their texts.
  unfoldable pub submitted_timesheet :
      String → TimesheetStatus → ℕ → ℕ → ℕ → UserRole → Action Timesheet
  submitted_timesheet self_message target timesheet_id approving_user_id org_id role = do
    found ← find_first c timesheet (λ t. t.id == timesheet_id && t.organisation_id == org_id)
    t ← or_throw found (not_found_error "Timesheet")
    throw_if (t.user_id == approving_user_id)
        (forbidden_error self_message ErrorCodes.self_approval_forbidden)
    when (is_manager role) (assert_is_direct_report c approving_user_id t.user_id org_id)
    throw_if (not (is_submitted t.status))
        (invalid_transition_error (status_text t.status) (status_text target))
    pure t

  -- The loop over the entries: `usedHours: { increment: entry.totalHours }`.
  unfoldable pub add_used_hours : List TimeEntry → Action (Unit {0})
  add_used_hours [] = pure tt
  add_used_hours (entry ∷ entries) = do
    update c project (λ p. p.id == entry.project_id)
        (λ p. record p { used_hours = p.used_hours + entry.total_hours })
    add_used_hours entries

  -- The message is within its column: the approval's always, the rejection's where it is tested.
  unfoldable pub notify : ℕ → String → String → Action (Unit {0})
  notify user_id type message = do
    create c notification
        (λ id. record { id = id; user_id = user_id; type = type; message = message; read = false })
    pure tt

module _ (c : Client) (rt : Runtime) where
  unfoldable pub approve_timesheet : ℕ → ℕ → ℕ → UserRole → Action Timesheet
  approve_timesheet timesheet_id approving_user_id org_id role = do
    t ←
        submitted_timesheet c "Managers cannot approve their own timesheets" approved timesheet_id
          approving_user_id org_id role
    done ←
        update c timesheet (λ s. s.id == timesheet_id)
          (λ s. record s {
            status = approved;
            approved_by_id = some approving_user_id;
            approved_at = some rt.now;
          })
    entries ← find_many c time_entry (λ e. e.timesheet_id == timesheet_id)
    add_used_hours c entries
    notify c t.user_id "approved" (
        "Your timesheet for week starting "
        ++ rt.iso_date t.week_start_date
        ++ " has been approved.")
    pure done

  -- A reason or a message that its column does not hold is refused; the message after the status is
  -- written.
  unfoldable pub reject_timesheet : ℕ → ℕ → ℕ → String → UserRole → Action Timesheet
  reject_timesheet timesheet_id approving_user_id org_id reason role = do
    t ←
        submitted_timesheet c "Managers cannot reject their own timesheets" rejected timesheet_id
          approving_user_id org_id role
    throw_if (too_long reason) unexpected
    done ←
        update c timesheet (λ s. s.id == timesheet_id)
          (λ s. record s { status = rejected; rejected_reason = some reason })
    throw_if (too_long (rejection_message rt t.week_start_date reason)) unexpected
    notify c t.user_id "rejected" (rejection_message rt t.week_start_date reason)
    pure done
