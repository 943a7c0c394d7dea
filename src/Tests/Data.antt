-- ===== src/Tests/Data.antt =====
-- The test data: a server's runtime, and databases before and after a submission and an approval.
use text.Mathlib.Text.{◌==◌ as str_eq}
use tms_api.Prelude.{false, ℕ, refl, true, false, none, some, List, [], ◌∷◌, if◌then◌else◌, arith}
use tms_api.Prisma.{Table}
use tms_api.Dates.{Date}
use tms_api.Runtime.{Runtime}
use tms_api.Database.{
  Database, OrgSettings, User, UserRole, employee, manager, Timesheet, TimesheetStatus, TimeEntry,
  DayCell,
}
use tms_api.Timesheets.Entries.{DayDto, CreateEntryDto}
use tms_api.Service.{JwtPayload, Request, create, submit, create_entry, approve, reject}
use tms_api.Service.Invariant.{IsSound}

abbrev pub date : ℕ → Date
date day = record { day = day; ms = 0 }

-- Day 700 is a Monday.
abbrev pub runtime : Runtime
runtime = record {
  now = record { day = 703; ms = 36000000 };
  parse_date = λ text.
      if str_eq text "thursday"
      then some (date 703)
      else if str_eq text "next"
      then some (date 710)
      else none;
  iso_date = λ d. "thursday";
  same_text = str_eq;
  show_hours = λ n. "24";
  show_id = λ n. "1";
}

abbrev pub empty : {R : Type 0} → Table R
empty = record { rows = []; next_id = 1 }

abbrev pub settings : OrgSettings
settings = record {
  id = 1;
  organisation_id = 1;
  work_week_start = "monday";
  standard_hours = 480;
  time_format = "decimal";
  time_increment = 30;
  max_hours_per_day = 600;
  max_hours_per_week = 3600;
  require_approval = true;
  allow_backdated = true;
  enable_overtime = false;
  mandatory_desc = false;
  allow_copy_week = true;
  daily_reminder_time = none;
  weekly_deadline = none;
  payroll_type = none;
  pm_type = none;
}

abbrev pub account : ℕ → UserRole → User
account id role = record {
  id = id;
  organisation_id = 1;
  name = "";
  email = "";
  password_hash = "";
  role = role;
  department = none;
  status = "active";
  refresh_token = none;
}

abbrev pub database : Database
database = record {
  organisations = empty;
  org_settings = record { rows = settings ∷ []; next_id = 2 };
  users = record { rows = account 1 employee ∷ account 2 manager ∷ []; next_id = 3 };
  manager_employees = record {
    rows = record { id = 1; manager_id = 2; employee_id = 1 } ∷ [];
    next_id = 2;
  };
  projects = record {
    rows =
        record {
          id = 1;
          organisation_id = 1;
          code = "P";
          name = "Project";
          client = "Client";
          budget_hours = 6000;
          used_hours = 60;
          status = "active";
        }
        ∷ [];
    next_id = 2;
  };
  project_managers = empty;
  project_employees = record {
    rows = record { id = 1; project_id = 1; employee_id = 1 } ∷ [];
    next_id = 2;
  };
  timesheets = empty;
  time_entries = empty;
  holidays = empty;
  notifications = empty;
}

-- Timesheet 1 with one entry of 8 hours.
abbrev pub sheet : TimesheetStatus → Timesheet
sheet status = record {
  id = 1;
  organisation_id = 1;
  user_id = 1;
  week_start_date = date 700;
  week_end_date = record { day = 706; ms = 86399999 };
  status = status;
  total_hours = 480;
  billable_hours = 480;
  approved_by_id = none;
  approved_at = none;
  rejected_reason = none;
}

abbrev pub no_hours : DayCell
no_hours = record { hours = 0; desc = none; time_off = 0 }

abbrev pub entry : TimeEntry
entry = record {
  id = 1;
  timesheet_id = 1;
  project_id = 1;
  billable = true;
  week = record {
    mon = record { hours = 480; desc = none; time_off = 0 };
    tue = no_hours;
    wed = no_hours;
    thu = no_hours;
    fri = no_hours;
    sat = no_hours;
    sun = no_hours;
  };
  total_hours = 480;
}

abbrev pub filled : TimesheetStatus → Database
filled status = record database {
  timesheets = record { rows = sheet status ∷ []; next_id = 2 };
  time_entries = record { rows = entry ∷ []; next_id = 2 };
}

pub database-IsSound : IsSound database
database-IsSound = record {
  sheet_keys = record { below = tt; distinct = tt };
  entry_keys = record { below = tt; distinct = tt };
  attached = tt;
  linked = tt;
  totals = tt;
}

pub filled-IsSound : (status : TimesheetStatus) → IsSound (filled status)
filled-IsSound status = record {
  sheet_keys = record { below = (omega arith, tt); distinct = (tt, tt) };
  entry_keys = record { below = (omega arith, tt); distinct = (tt, tt) };
  attached = (omega arith, tt);
  linked = (refl, tt);
  totals = ((refl, refl), tt);
}

-- The payloads of the employee and the manager.
abbrev pub worker : JwtPayload
worker = record { user_id = 1; org_id = 1; role = employee }

abbrev pub boss : JwtPayload
boss = record { user_id = 2; org_id = 1; role = manager }

abbrev pub no_day : DayDto
no_day = record { hours = none; desc = none; time_off = none }

abbrev pub new_hours : CreateEntryDto
new_hours = record {
  project_id = 1;
  billable = some true;
  week = record {
    mon = no_day;
    tue = record { hours = some 300; desc = some "tests"; time_off = none };
    wed = no_day;
    thu = no_day;
    fri = no_day;
    sat = no_day;
    sun = no_day;
  };
}

-- A week's work, submitted and approved, and a late attempt to reject it.
abbrev pub history : List (JwtPayload × Request)
history =
    (worker, create "thursday")
    ∷ (worker, create_entry 1 new_hours)
    ∷ (worker, submit 1)
    ∷ (boss, approve 1)
    ∷ (boss, reject 1 "late")
    ∷ []

abbrev pub noted : Database
noted = record database {
  notifications = record {
    rows =
        record { id = 1; user_id = 1; type = "approved"; message = "one"; read = false }
        ∷ record { id = 2; user_id = 2; type = "reminder"; message = "two"; read = false }
        ∷ [];
    next_id = 3;
  };
}
