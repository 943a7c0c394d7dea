-- ===== src/Reports/Monthly/Sums.antt =====
-- The rows and the totals of a monthly sheet.
use tms_api.Prelude.{
  ℕ, zero, suc, ◌+◌, ◌-◌, ◌*◌, ◌≤◌, ◌≡◌, refl, ap, Bool, not, ◌&&◌, ◌||◌, Option, List, [], ◌∷◌,
  map, keep, length, sum, All, arith, if◌then◌else◌, inl, inr, Bool-cases,
}
use tms_api.Dates.{Date, get_day}
use tms_api.Database.{Timesheet, TimeEntry, Project, Holiday}
use tms_api.Reports.Monthly.{
  holiday_on, gather_sheets, nothing_yet, Calendar, MonthlyDayRow, Counters, Gathered, day_row,
  count_day, month_days,
}

-- A day that is no holiday, no leave and no weekend.
abbrev pub is_working : MonthlyDayRow → Bool
is_working r = not r.is_holiday && not r.is_leave && not r.is_weekend

-- What a row says: at most 8 regular hours, and on a day that is neither holiday nor leave the
-- regular hours and the overtime are all hours.
abbrev pub IsDayRow : MonthlyDayRow → Type 0
IsDayRow r =
    (r.time ≤ 480)
    × ((if r.is_holiday || r.is_leave then r.total_time else r.time + r.overtime) ≡ r.total_time)

abbrev pub total_of : (MonthlyDayRow → ℕ) → (MonthlyDayRow → Bool) → List MonthlyDayRow → ℕ
total_of value test rows = sum (map value (keep test rows))

-- The counters are the sums and counts over the rows.
pub record IsCounted (start : Counters) (rows : List MonthlyDayRow) (end : Counters) : Type 0 where
  pub hours : end.total_hours ≡ start.total_hours + total_of (λ r. r.time) is_working rows
  pub overtime :
      end.total_overtime ≡ start.total_overtime + total_of (λ r. r.overtime) is_working rows
  pub holidays : end.holiday_count ≡ start.holiday_count + length (keep (λ r. r.is_holiday) rows)
  pub leaves : end.leave_count ≡ start.leave_count + length (keep (λ r. r.is_leave) rows)

day_row-IsDayRow :
    (cal : Calendar) (month d w : ℕ) (found : Option Holiday) (g : Gathered)
    → IsDayRow (day_row cal month d w found g)
day_row-IsDayRow cal month d w found g = ground arith

step-IsCounted :
    (cal : Calendar) (month d w : ℕ) (found : Option Holiday) (g : Gathered) (n : Counters)
    (rows : List MonthlyDayRow) (end : Counters)
    → (let row = day_row cal month d w found g in
        IsCounted (count_day cal found g row.is_weekend n) rows end → IsCounted n (row ∷ rows) end)
step-IsCounted cal month d w found g n rows end h = record {
  hours = ground (arith, h.hours);
  overtime = ground (arith, h.overtime);
  holidays = ground (arith, h.holidays);
  leaves = ground (arith, h.leaves);
}

module _ (cal : Calendar) (projects : List Project) (holidays : List Holiday)
    (sheets : List Timesheet) (entries : List TimeEntry) (year month : ℕ) where
  pub month_days-IsCounted :
      (left d : ℕ) (n : Counters)
      → let (rows, end) = month_days cal projects holidays sheets entries year month d left n in
        IsCounted n rows end × All IsDayRow rows × (length rows ≡ left)
  unfolding month_days
  month_days-IsCounted zero d n = (
    record {
      hours = omega arith;
      overtime = omega arith;
      holidays = omega arith;
      leaves = omega arith;
    },
    tt,
    refl,
  )
  month_days-IsCounted (suc left) d n =
      let date : Date = record { day = cal.first_day year month + d - 1; ms = 0 } in
      let found = holiday_on cal holidays year month d in
      let g = gather_sheets cal projects date entries sheets (nothing_yet cal) in
      let row = day_row cal month d (get_day date) found g in
      let (counted, rows, number) =
        month_days-IsCounted left (suc d) (count_day cal found g row.is_weekend n) in
      (
        step-IsCounted cal month d (get_day date) found g n _ _ counted,
        (day_row-IsDayRow cal month d (get_day date) found g, rows),
        ap suc number,
      )

-- At most 8 regular hours a working day.
pub total_of-le :
    (rows : List MonthlyDayRow)
    → All IsDayRow rows
    → total_of (λ r. r.time) is_working rows ≤ 480 * length (keep is_working rows)
total_of-le [] h = omega arith
total_of-le (r ∷ rows) h = elim (Bool-cases (is_working r)) [
  | inl yes_working ↦ rw yes_working (omega (arith, h.0.0, total_of-le rows h.1))
  | inr no_working ↦ rw no_working (total_of-le rows h.1)
]
