-- ===== src/Http/Reports/Monthly.antt =====
-- The monthly sheet from its query to its cells.
use tms_api.Prelude.{ℕ, ◌≡◌, List}
use tms_api.Runtime.{Runtime}
use tms_api.Database.{Database}
use tms_api.Reports.Monthly.{Calendar, MonthlyTimesheetData}
use tms_api.Reports.Monthly.Permission.{ShowsHours, IsSheet}
use tms_api.Exports.Worksheet.{Command}
use tms_api.Exports.MonthlySheet.Whole.{IsDrawn}
use tms_api.Http.Reports.{Attachment, excel_file}

-- The file draws the sheet of the month for the user `target_id`.
pub record IsMonthlyFile (cal : Calendar) (db : Database) (org_id target_id year month : ℕ)
    (file : Attachment) : Type 0 where
  pub sheet : MonthlyTimesheetData
  pub calls : List Command
  pub is_file : file ≡ excel_file calls
  pub of_target : sheet.employee_id ≡ target_id
  pub shows_hours : ShowsHours cal db org_id target_id year month sheet
  pub is_sheet : IsSheet cal year month sheet
  pub is_drawn : IsDrawn sheet calls
