-- ===== src/Database/Rows.antt =====
-- The models of src/prisma/schema.prisma. A `TimeEntry` has three columns for each weekday; they
-- are grouped as one `DayCell` a day.
use tms_api.Prelude.{ℕ, String, Bool, Option, List, [], ◌∷◌}
use tms_api.Dates.{Date}

pub data UserRole : Type 0 where
  employee manager admin : UserRole

pub data TimesheetStatus : Type 0 where
  draft submitted approved rejected : TimesheetStatus

pub record Organisation : Type 0 where
  pub id : ℕ
  pub name : String

pub record OrgSettings : Type 0 where
  pub id : ℕ
  pub organisation_id : ℕ
  pub work_week_start : String
  pub standard_hours : ℕ
  pub time_format : String
  pub time_increment : ℕ
  pub max_hours_per_day : ℕ
  pub max_hours_per_week : ℕ
  pub require_approval : Bool
  pub allow_backdated : Bool
  pub enable_overtime : Bool
  pub mandatory_desc : Bool
  pub allow_copy_week : Bool
  pub daily_reminder_time : Option String
  pub weekly_deadline : Option String
  pub payroll_type : Option String
  pub pm_type : Option String

pub record User : Type 0 where
  pub id : ℕ
  pub organisation_id : ℕ
  pub name : String
  pub email : String
  pub password_hash : String
  pub role : UserRole
  pub department : Option String
  pub status : String
  pub refresh_token : Option String

pub record ManagerEmployee : Type 0 where
  pub id : ℕ
  pub manager_id : ℕ
  pub employee_id : ℕ

pub record Project : Type 0 where
  pub id : ℕ
  pub organisation_id : ℕ
  pub code : String
  pub name : String
  pub client : String
  pub budget_hours : ℕ
  pub used_hours : ℕ
  pub status : String

pub record ProjectManager : Type 0 where
  pub id : ℕ
  pub project_id : ℕ
  pub manager_id : ℕ

pub record ProjectEmployee : Type 0 where
  pub id : ℕ
  pub project_id : ℕ
  pub employee_id : ℕ

pub record Timesheet : Type 0 where
  pub id : ℕ
  pub organisation_id : ℕ
  pub user_id : ℕ
  pub week_start_date : Date
  pub week_end_date : Date
  pub status : TimesheetStatus
  pub total_hours : ℕ
  pub billable_hours : ℕ
  pub approved_by_id : Option ℕ
  pub approved_at : Option Date
  pub rejected_reason : Option String

-- One value for each day of the week.
pub record Week (A : Type 0) : Type 0 where
  pub mon : A
  pub tue : A
  pub wed : A
  pub thu : A
  pub fri : A
  pub sat : A
  pub sun : A

abbrev pub map_week : {A B : Type 0} → (A → B) → Week A → Week B
map_week f w = record {
  mon = f w.mon;
  tue = f w.tue;
  wed = f w.wed;
  thu = f w.thu;
  fri = f w.fri;
  sat = f w.sat;
  sun = f w.sun;
}

abbrev pub days : {A : Type 0} → Week A → List A
days w = w.mon ∷ w.tue ∷ w.wed ∷ w.thu ∷ w.fri ∷ w.sat ∷ w.sun ∷ []

-- `monHours`, `monDesc`, `monTimeOff`, and so for the other days.
pub record DayCell : Type 0 where
  pub hours : ℕ
  pub desc : Option String
  pub time_off : ℕ

pub record TimeEntry : Type 0 where
  pub id : ℕ
  pub timesheet_id : ℕ
  pub project_id : ℕ
  pub billable : Bool
  pub week : Week DayCell
  pub total_hours : ℕ

pub record Holiday : Type 0 where
  pub id : ℕ
  pub organisation_id : ℕ
  pub name : String
  pub date : Date
  pub recurring : Bool

pub record Notification : Type 0 where
  pub id : ℕ
  pub user_id : ℕ
  pub type : String
  pub message : String
  pub read : Bool
