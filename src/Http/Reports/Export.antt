-- ===== src/Http/Reports/Export.antt =====
-- An exported report from its query to its file.
use mathlib.Core.List
use tms_api.Prelude.{String, Option, none, some, List, [], ◌∷◌, map, ◌==◌, first, or_default}
use tms_api.Runtime.{Runtime}
use tms_api.Database.{Database, User, Timesheet}
use tms_api.Timesheets.Sheets.{status_text}
use tms_api.Reports.{ReportFilters, aggregates_of}
use tms_api.Exports.Contents.{summary_values}
use tms_api.Http.Reports.{ReportQuery}

-- The filters of a query with its dates.
abbrev pub filters_of : ReportQuery → String → String → ReportFilters
filters_of query date_from date_to = record {
  date_from = date_from;
  date_to = date_to;
  user_id = query.user_id;
  status = query.status;
  project_id = query.project_id;
}

-- A column of the user who was found.
abbrev pub of_owner : Option User → (User → String) → String
of_owner none field = ""
of_owner (some u) field = field u

-- The line of a timesheet, under the headings Employee, Email, Department, Week Start, Week End,
-- Total Hours, Billable Hours and Status.
abbrev pub line_of : Runtime → Timesheet → Option User → List String
line_of rt t owner =
    of_owner owner (λ u. u.name)
    ∷ of_owner owner (λ u. u.email)
    ∷ of_owner owner (λ u. or_default u.department "")
    ∷ rt.iso_date t.week_start_date
    ∷ rt.iso_date t.week_end_date
    ∷ rt.show_hours t.total_hours
    ∷ rt.show_hours t.billable_hours
    ∷ status_text t.status
    ∷ []

-- With the timesheet's user.
abbrev pub own_line : Runtime → Database → Timesheet → List String
own_line rt db t = line_of rt t (first (λ (u : User). u.id == t.user_id) db.users.rows)

-- The table that a CSV file of these timesheets is to hold.
abbrev pub table_of : Runtime → Database → List Timesheet → List (List String)
table_of rt db sheets =
    ("Employee" ∷ "Email" ∷ "Department" ∷ "Week Start" ∷ "Week End" ∷ "Total Hours"
      ∷ "Billable Hours" ∷ "Status" ∷ [])
    ∷ List.◌++◌ (map (own_line rt db) sheets) (summary_values rt (aggregates_of sheets))
