-- ===== src/Reports/Monthly.antt =====
-- `generateMonthlyTimesheetData` of src/services/reports.service.ts. Hours are minutes, so the
-- regular 8 hours of a day are 480.
pub mod Sums
pub mod Hours
pub mod Permission
pub mod Columns
use Prim.Native.String
use text.Mathlib.Text.{◌==◌ as str_eq, find?}
use tms_api.Prelude.{
  ℕ, zero, suc, ◌+◌, ◌-◌, ◌%◌, min, String, Bool, true, false, not, ◌&&◌, ◌||◌, Option, none, some,
  is_some, or_default, List, [], ◌∷◌, ◌++◌, any, keep, first, includes, ltb, leb, ◌==◌,
  if◌then◌else◌,
}
use tms_api.Constants.ErrorCodes
use tms_api.Dates.{Date, get_day}
use tms_api.Errors.{forbidden_error, not_found_error}
use tms_api.Prisma.{Client}
use tms_api.Database.{
  UserRole, employee, manager, admin, User, Timesheet, TimeEntry, Project, Holiday, Week, user,
  timesheet, time_entry, project, holiday,
}
use tms_api.Database.Action.{
  Action, ◌>>=◌, ◌>>◌, pure, throw_if, or_throw, find_first, find_many, when,
}
use tms_api.Team.{get_direct_report_ids, join}
use tms_api.Reports.{within}

-- What JavaScript gives: the day number of a month's first day (`new Date(year, month - 1, 1)`),
-- the number of its days (`new Date(year, month, 0).getDate()`), the year, month and day of a date,
-- `toLowerCase`, and `String(n)`.
pub record Calendar : Type 0 where
  pub first_day : ℕ → ℕ → ℕ
  pub days_in : ℕ → ℕ → ℕ
  pub year_of : Date → ℕ
  pub month_of : Date → ℕ
  pub day_of : Date → ℕ
  pub to_lower : String → String
  pub show : ℕ → String

pub record MonthlyDayRow : Type 0 where
  pub date : String
  pub day : String
  pub project : String
  pub task : String
  pub time : ℕ
  pub overtime : ℕ
  pub total_time : ℕ
  pub time_off_hours : ℕ
  pub is_holiday : Bool
  pub holiday_name : Option String
  pub is_leave : Bool
  pub is_weekend : Bool

pub record MonthlyTimesheetData : Type 0 where
  pub employee_name : String
  pub employee_id : ℕ
  pub department : String
  pub month : String
  pub month_full : String
  pub days : List MonthlyDayRow
  pub total_hours : ℕ
  pub total_overtime : ℕ
  pub holiday_count : ℕ
  pub leave_count : ℕ

abbrev pub day_names : List String
day_names = "Sunday" ∷ "Monday" ∷ "Tuesday" ∷ "Wednesday" ∷ "Thursday" ∷ "Friday" ∷ "Saturday" ∷ []

abbrev pub month_short : List String
month_short =
    "Jan" ∷ "Feb" ∷ "Mar" ∷ "Apr" ∷ "May" ∷ "Jun" ∷ "Jul" ∷ "Aug" ∷ "Sep" ∷ "Oct" ∷ "Nov" ∷ "Dec"
    ∷ []

abbrev pub month_full : List String
month_full =
    "January" ∷ "February" ∷ "March" ∷ "April" ∷ "May" ∷ "June" ∷ "July" ∷ "August" ∷ "September"
    ∷ "October" ∷ "November" ∷ "December" ∷ []

-- `names[i]` in a text, where a missing element reads `undefined`.
abbrev pub name_at : List String → ℕ → String
name_at [] i = "undefined"
name_at (name ∷ names) zero = name
name_at (name ∷ names) (suc i) = name_at names i

-- `names[month - 1]`
abbrev pub month_name : List String → ℕ → String
month_name names zero = "undefined"
month_name names (suc i) = name_at names i

abbrev pub text_length : String → ℕ
text_length String.[] = 0
text_length (String.◌∷◌ ch text) = suc (text_length text)

abbrev pub zeros : ℕ → String → String
zeros zero text = text
zeros (suc n) text = String.◌++◌ "0" (zeros n text)

-- `text.padStart(width, '0')`
abbrev pub pad_start : ℕ → String → String
pad_start width text = zeros (width - text_length text) text

-- `text.slice(n)`
abbrev pub slice : ℕ → String → String
slice zero text = text
slice (suc n) String.[] = ""
slice (suc n) (String.◌∷◌ ch text) = slice n text

-- `getDayKeyForDate`: the index of the weekday column. `Math.round` takes a week start after noon
-- for the next day's.
abbrev pub get_day_key_for_date : Date → Date → Option ℕ
get_day_key_for_date date week_start =
    let start = if leb week_start.ms 43200000 then week_start.day else suc week_start.day in
    if leb start date.day && leb (date.day - start) 6 then some (date.day - start) else none

-- `DAY_KEYS[diff]`
abbrev pub column : {A : Type 0} → ℕ → Week A → A
column i w =
    if i == 0
    then w.mon
    else if i == 1
    then w.tue
    else if i == 2
    then w.wed
    else if i == 3
    then w.thu
    else if i == 4
    then w.fri
    else if i == 5
    then w.sat
    else w.sun

-- The four counters beside the rows.
pub record Counters : Type 0 where
  pub total_hours : ℕ
  pub total_overtime : ℕ
  pub holiday_count : ℕ
  pub leave_count : ℕ

-- What the loops gather for one day.
pub record Gathered : Type 0 where
  pub hours : ℕ
  pub time_off : ℕ
  pub projects : List String
  pub tasks : List String
  pub leave : Bool

-- `if (text && !texts.includes(text)) texts.push(text)`
abbrev pub push_new : String → List String → List String
push_new text texts =
    if str_eq text "" || any (λ t. str_eq t text) texts then texts else texts ++ text ∷ []

module _ (cal : Calendar) where
  -- The holiday on a day: the map's last entry for it. A recurring one matches in any year.
  abbrev pub holiday_on : List Holiday → ℕ → ℕ → ℕ → Option Holiday
  holiday_on [] year month day = none
  holiday_on (h ∷ hs) year month day =
      let later = holiday_on hs year month day in
      let same_day = cal.month_of h.date == month && cal.day_of h.date == day in
      let here = if same_day && (h.recurring || cal.year_of h.date == year) then some h else none in
      if is_some later then later else here

  -- The convention for leave rows.
  abbrev pub mentions_leave : String → Bool
  mentions_leave text = is_some (find? (cal.to_lower text) "leave")

  abbrev pub name_of : Option Project → String
  name_of none = ""
  name_of (some p) = p.name

  abbrev pub code_of : Option Project → String
  code_of none = ""
  code_of (some p) = p.code

  -- One entry, on the weekday with the given index; `p` is its project.
  abbrev pub gather_entry : ℕ → Option Project → TimeEntry → Gathered → Gathered
  gather_entry i p e g =
      let cell = column i e.week in
      let worked = ltb 0 cell.hours in
      let off = ltb 0 cell.time_off in
      record {
        hours = if worked then g.hours + cell.hours else g.hours;
        time_off = if off then g.time_off + cell.time_off else g.time_off;
        projects = if worked then push_new (name_of p) g.projects else g.projects;
        tasks = if worked then push_new (or_default cell.desc "") g.tasks else g.tasks;
        leave =
            g.leave
            || (worked && (mentions_leave (name_of p) || mentions_leave (code_of p)))
            || off;
      }

  module _ (projects : List Project) where
    abbrev pub gather_entries : ℕ → List TimeEntry → Gathered → Gathered
    gather_entries i [] g = g
    gather_entries i (e ∷ es) g =
        gather_entries i es (gather_entry i (first (λ p. p.id == e.project_id) projects) e g)

    abbrev pub gather_sheet : Date → Timesheet → List TimeEntry → Gathered → Gathered
    gather_sheet date t entries g = elim (get_day_key_for_date date t.week_start_date) [
      | none ↦ g
      | some i ↦ gather_entries i (keep (λ e. e.timesheet_id == t.id) entries) g
    ]

    abbrev pub gather_sheets : Date → List TimeEntry → List Timesheet → Gathered → Gathered
    gather_sheets date entries [] g = g
    gather_sheets date entries (t ∷ ts) g =
        gather_sheets date entries ts (gather_sheet date t entries g)

  abbrev pub nothing_yet : Gathered
  nothing_yet = record { hours = 0; time_off = 0; projects = []; tasks = []; leave = false }

  -- `days.push({ … })`
  abbrev pub day_row : ℕ → ℕ → ℕ → Option Holiday → Gathered → MonthlyDayRow
  day_row month d day_of_week found g = record {
    date = String.◌++◌ (pad_start 2 (cal.show d)) (String.◌++◌ "-" (month_name month_short month));
    day = name_at day_names day_of_week;
    project = join g.projects;
    task = join g.tasks;
    time = if is_some found || g.leave then 0 else min g.hours 480;
    overtime = if ltb 480 g.hours then g.hours - 480 else 0;
    total_time = if is_some found || g.leave then 0 else g.hours;
    time_off_hours = g.time_off;
    is_holiday = is_some found;
    holiday_name = elim found [ none ↦ none | some h ↦ some h.name ];
    is_leave = g.leave;
    is_weekend = day_of_week == 0 || day_of_week == 6;
  }

  abbrev pub count_day : Option Holiday → Gathered → Bool → Counters → Counters
  count_day found g is_weekend n =
      let is_working = not (is_some found) && not g.leave && not is_weekend in
      record {
        total_hours = if is_working then n.total_hours + min g.hours 480 else n.total_hours;
        total_overtime =
            if is_working
            then n.total_overtime + (if ltb 480 g.hours then g.hours - 480 else 0)
            else n.total_overtime;
        holiday_count = if is_some found then suc n.holiday_count else n.holiday_count;
        leave_count = if g.leave then suc n.leave_count else n.leave_count;
      }

  -- The rows of `left` days from the day `d` on, and the counters after them.
  module _ (projects : List Project) (holidays : List Holiday) (sheets : List Timesheet)
      (entries : List TimeEntry) (year month : ℕ) where
    unfoldable pub month_days : ℕ → ℕ → Counters → List MonthlyDayRow × Counters
    month_days d zero n = ([], n)
    month_days d (suc left) n =
        let date : Date = record { day = cal.first_day year month + d - 1; ms = 0 } in
        let day_of_week = get_day date in
        let found = holiday_on holidays year month d in
        let g = gather_sheets projects date entries sheets nothing_yet in
        let row = day_row month d day_of_week found g in
        let (rows, counted) = month_days (suc d) left (count_day found g row.is_weekend n) in
        (row ∷ rows, counted)

  module _ (c : Client) where
    -- The permission check.
    unfoldable pub assert_may_view : ℕ → ℕ → ℕ → UserRole → Action (Unit {0})
    assert_may_view org_id target_id requesting_id employee =
        throw_if (not (target_id == requesting_id))
          (forbidden_error "Insufficient permissions" ErrorCodes.forbidden)
    assert_may_view org_id target_id requesting_id manager =
        when (not (target_id == requesting_id)) (do
          direct_report_ids ← get_direct_report_ids c requesting_id org_id
          throw_if (not (includes direct_report_ids target_id)) (
              forbidden_error "You can only view reports for your direct reports"
                ErrorCodes.forbidden))
    assert_may_view org_id target_id requesting_id admin = pure tt

    unfoldable pub generate_monthly_timesheet_data :
        ℕ → ℕ → ℕ → ℕ → ℕ → UserRole → Action MonthlyTimesheetData
    generate_monthly_timesheet_data org_id target_id year month requesting_id role = do
      assert_may_view org_id target_id requesting_id role
      found ← find_first c user (λ u. u.id == target_id && u.organisation_id == org_id)
      target ← or_throw found (not_found_error "User")
      let first_day = cal.first_day year month
      let days_in_month = cal.days_in year month
      sheets ← find_many c timesheet (λ t.
          t.user_id == target_id
          && t.organisation_id == org_id
          && within (record { day = first_day - 7; ms = 0 })
              (record { day = first_day + days_in_month + 5; ms = 0 }) t.week_start_date)
      entries ← find_many c time_entry (λ e. true)
      projects ← find_many c project (λ p. true)
      holidays ← find_many c holiday (λ h. h.organisation_id == org_id)
      let (rows, n) =
          month_days projects holidays sheets entries year month 1 days_in_month
            (record { total_hours = 0; total_overtime = 0; holiday_count = 0; leave_count = 0 })
      pure (record {
        employee_name = target.name;
        employee_id = target.id;
        department = or_default target.department "";
        month =
            String.◌++◌ (month_name month_short month) (String.◌++◌ "'" (slice 2 (cal.show year)));
        month_full = String.◌++◌ (month_name month_full month) (String.◌++◌ " " (cal.show year));
        days = rows;
        total_hours = n.total_hours;
        total_overtime = n.total_overtime;
        holiday_count = n.holiday_count;
        leave_count = n.leave_count;
      })
