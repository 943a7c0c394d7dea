-- ===== src/Exports/Excel.antt =====
-- `generateExcel` of src/utils/exportHelpers.ts. Where the rows end is asked of exceljs
-- (`sheet.rowCount`): it is the parameter `row_count`.
use Prim.Native.String
use tms_api.Prelude.{ℕ, ◌+◌, String, true, none, some, or_default, List, [], ◌∷◌, ◌++◌, map}
use tms_api.Runtime.{Runtime}
use tms_api.Reports.{Aggregates}
use tms_api.Exports.{TimesheetRow}
use tms_api.Exports.Worksheet.{
  Value, text, hours, Font, Command, set_columns, set_value, set_font, set_fill, add_row,
}

abbrev pub report_columns : List (String × ℕ)
report_columns =
    ("Employee", 20)
    ∷ ("Email", 25)
    ∷ ("Department", 15)
    ∷ ("Week Start", 12)
    ∷ ("Week End", 12)
    ∷ ("Total Hours", 12)
    ∷ ("Billable Hours", 14)
    ∷ ("Status", 12)
    ∷ []

-- `headerRow.font` and `headerRow.fill` style the whole row: column 0 stands for it.
abbrev pub report_header : List Command
report_header =
    set_columns report_columns
    ∷ set_font 1 0 (record { bold = true; size = none; color = some "FFFFFFFF" })
    ∷ set_fill 1 0 "FF2C5F7C"
    ∷ []

abbrev pub bold_only : Font
bold_only = record { bold = true; size = none; color = none }

module _ (rt : Runtime) where
  abbrev pub excel_row : TimesheetRow → List Value
  excel_row ts =
      text (or_default ts.name "")
      ∷ text (or_default ts.email "")
      ∷ text (or_default ts.department "")
      ∷ text (rt.iso_date ts.week_start_date)
      ∷ text (rt.iso_date ts.week_end_date)
      ∷ hours ts.total_hours
      ∷ hours ts.billable_hours
      ∷ text ts.status
      ∷ []

  abbrev pub excel_summary : ℕ → Aggregates → List Command
  excel_summary gap a =
      set_value gap 1 (text "Summary")
      ∷ set_font gap 1 bold_only
      ∷ set_value (gap + 1) 1 (text "Total Hours")
      ∷ set_value (gap + 1) 2 (hours a.total_hours)
      ∷ set_value (gap + 2) 1 (text "Billable Hours")
      ∷ set_value (gap + 2) 2 (hours a.billable_hours)
      ∷ set_value (gap + 3) 1 (text "Non-Billable Hours")
      ∷ set_value (gap + 3) 2 (hours a.non_billable_hours)
      ∷ set_value (gap + 4) 1 (text "Utilization %")
      ∷ set_value (gap + 4) 2 (text (String.◌++◌ (rt.show_id a.utilization) "%"))
      ∷ []

  unfoldable pub generate_excel : (List Command → ℕ) → List TimesheetRow → Aggregates → List Command
  generate_excel row_count timesheets a =
      let table = report_header ++ map (λ ts. add_row (excel_row ts)) timesheets in
      table ++ excel_summary (row_count table + 2) a
