-- ===== src/Http/Reports.antt =====
-- src/controllers/reports.controller.ts: reports, their exports, and the monthly sheet. What
-- `parseInt` makes of a parameter is `none` where it is missing or NaN.
pub mod Export
pub mod Monthly
use text.Mathlib.Text.{◌==◌ as str_eq}
use tms_api.Prelude.{
  ℕ, String, Option, none, some, or_default, List, [], ◌∷◌, map, ◌==◌, if◌then◌else◌,
}
use tms_api.Errors.{validation_error}
use tms_api.Prisma.{Client}
use tms_api.Runtime.{Runtime}
use tms_api.Database.{Database, TimesheetStatus, User, Timesheet, TimeEntry}
use tms_api.Database.Action.{Action, ◌>>=◌, ◌>>◌, pure, throw, or_throw, current}
use tms_api.Timesheets.Sheets.{status_text}
use tms_api.Service.{JwtPayload}
use tms_api.Reports.{Aggregates, Report, generate_report}
use tms_api.Reports.Monthly.{Calendar, generate_monthly_timesheet_data}
use tms_api.Exports.{TimesheetRow, generate_csv}
use tms_api.Exports.Worksheet.{Command}
use tms_api.Exports.Excel.{generate_excel}
use tms_api.Exports.Pdf.{PdfCommand, generate_pdf}
use tms_api.Exports.MonthlySheet.{generate_monthly_timesheet_excel}
use tms_api.Http.Server.{filled}

-- The query of a report or an export; a status is one of the enum's.
pub record ReportQuery : Type 0 where
  pub format : Option String
  pub date_from : Option String
  pub date_to : Option String
  pub user_id : Option ℕ
  pub status : Option TimesheetStatus
  pub project_id : Option ℕ

pub record MonthlyQuery : Type 0 where
  pub user_id : Option ℕ
  pub year : Option ℕ
  pub month : Option ℕ

-- What exceljs and pdfkit answer while they draw.
pub record Drawing : Type 0 where
  pub row_count : List Command → ℕ
  pub y_after : List PdfCommand → ℕ

-- What an export sends: the text of a CSV file, or what is drawn.
pub data Attachment : Type 0 where
  csv_file : String → Attachment
  excel_file : List Command → Attachment
  pdf_file : List PdfCommand → Attachment

-- `include: { user: { select: ... } }`, of the user found.
abbrev pub row_with : Timesheet → Option User → TimesheetRow
row_with t none = record {
  name = none;
  email = none;
  department = none;
  week_start_date = t.week_start_date;
  week_end_date = t.week_end_date;
  total_hours = t.total_hours;
  billable_hours = t.billable_hours;
  status = status_text t.status;
}
row_with t (some u) = record {
  name = some u.name;
  email = some u.email;
  department = u.department;
  week_start_date = t.week_start_date;
  week_end_date = t.week_end_date;
  total_hours = t.total_hours;
  billable_hours = t.billable_hours;
  status = status_text t.status;
}

module _ (c : Client) (rt : Runtime) where
  abbrev pub row_of : Database → Timesheet → TimesheetRow
  row_of db t = row_with t (c.find_first (λ u. u.id == t.user_id) db.users)

  -- Both handlers' call of `generateReport`, after their test of the dates.
  unfoldable pub requested_report : String → JwtPayload → ReportQuery → Action Report
  requested_report message user query = do
    date_from ← or_throw (filled query.date_from) (validation_error message)
    date_to ← or_throw (filled query.date_to) (validation_error message)
    generate_report c rt user.org_id
        (record {
          date_from = date_from;
          date_to = date_to;
          user_id = query.user_id;
          status = query.status;
          project_id = query.project_id;
        })
        user.user_id user.role

  unfoldable pub generate : JwtPayload → ReportQuery → Action Report
  generate = requested_report "dateFrom and dateTo are required query parameters"

  -- `if (format === 'csv') ... else throw`
  unfoldable pub export_as :
      Drawing → Option String → List TimesheetRow → Aggregates → Action Attachment
  export_as drawing format rows a =
      if str_eq (or_default format "") "csv"
      then pure (csv_file (generate_csv rt rows a))
      else if str_eq (or_default format "") "excel"
      then pure (excel_file (generate_excel rt drawing.row_count rows a))
      else if str_eq (or_default format "") "pdf"
      then pure (pdf_file (generate_pdf rt drawing.y_after rows a))
      else throw (validation_error "Invalid format. Supported: csv, excel, pdf")

  unfoldable pub export_report : Drawing → JwtPayload → ReportQuery → Action Attachment
  export_report drawing user query = do
    report ← requested_report "dateFrom and dateTo are required" user query
    db ← current
    export_as drawing query.format (map (λ p. row_of db p.0) report.timesheets) report.aggregates

  unfoldable pub export_monthly_timesheet : Calendar → JwtPayload → MonthlyQuery → Action Attachment
  export_monthly_timesheet cal user query = do
    year ← or_throw query.year (validation_error "year and month are required query parameters")
    month ← or_throw query.month (validation_error "year and month are required query parameters")
    data_ ←
        generate_monthly_timesheet_data cal c user.org_id (or_default query.user_id user.user_id)
          year month user.user_id user.role
    pure (excel_file (generate_monthly_timesheet_excel cal data_))
