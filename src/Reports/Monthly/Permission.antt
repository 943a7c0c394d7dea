-- ===== src/Reports/Monthly/Permission.antt =====
-- Who may have a monthly sheet, and that it adds up.
use tms_api.Prelude.{ℕ, ◌+◌, ◌-◌, ◌*◌, ◌≤◌, ◌≡◌, keep, length, All}
use tms_api.Database.{Database}
use tms_api.Reports.Monthly.{Calendar, MonthlyTimesheetData, Counters}
use tms_api.Reports.Monthly.Hours.{HasHours, hours_on}
use tms_api.Reports.Monthly.Sums.{IsDayRow, is_working, total_of}

-- The rows and the totals of a sheet.
pub record IsSheet (cal : Calendar) (year month : ℕ) (r : MonthlyTimesheetData) : Type 0 where
  pub a_row_each : length r.days ≡ cal.days_in year month
  pub rows : All IsDayRow r.days
  pub hours : r.total_hours ≡ total_of (λ d. d.time) is_working r.days
  pub overtime : r.total_overtime ≡ total_of (λ d. d.overtime) is_working r.days
  pub holidays : r.holiday_count ≡ length (keep (λ d. d.is_holiday) r.days)
  pub leaves : r.leave_count ≡ length (keep (λ d. d.is_leave) r.days)
  pub at_most : r.total_hours ≤ 480 * length (keep is_working r.days)

abbrev uncounted : Counters
uncounted = record { total_hours = 0; total_overtime = 0; holiday_count = 0; leave_count = 0 }

-- The rows show the hours of the user's entries on the days of the month, and none on holidays and
-- on days of leave.
abbrev pub ShowsHours : Calendar → Database → ℕ → ℕ → ℕ → ℕ → MonthlyTimesheetData → Type 0
ShowsHours cal db org_id user_id year month r =
    HasHours
      (λ d. hours_on db org_id user_id (record { day = cal.first_day year month + d - 1; ms = 0 }))
      1 r.days
