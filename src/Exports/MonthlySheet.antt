-- ===== src/Exports/MonthlySheet.antt =====
-- `generateMonthlyTimesheetExcel` of src/utils/exportHelpers.ts.
pub mod Cells
pub mod Whole
use Prim.Native.String
use package.text.Mathlib.Text.{◌==◌ as str_eq}
use tms_api.Prelude.{
  ℕ, suc, ◌+◌, String, Bool, true, false, Option, none, some, or_default, List, [], ◌∷◌, ◌++◌, leb,
  ◌==◌, if◌then◌else◌,
}
use tms_api.Reports.Monthly.{Calendar, MonthlyDayRow, MonthlyTimesheetData, pad_start}
use tms_api.Exports.Worksheet.{
  Value, text, hours, count, Font, Command, set_width, set_value, set_font, set_fill, set_border,
  set_alignment, set_middle, merge_cells,
}

abbrev pub orange_header : String
orange_header = "FFE8A44C"

abbrev pub holiday_red : String
holiday_red = "FFFF4444"

abbrev pub holiday_bg : String
holiday_bg = "FFFFE0E0"

abbrev pub leave_yellow : String
leave_yellow = "FFFFFF00"

abbrev pub leave_bg : String
leave_bg = "FFFFFFCC"

abbrev pub weekend_bg : String
weekend_bg = "FFF0F0F0"

-- `{ bold: true, size: 10 }` and `{ size: 10 }`
abbrev pub bold_font : Font
bold_font = record { bold = true; size = some 10; color = none }

abbrev pub plain_font : Font
plain_font = record { bold = false; size = some 10; color = none }

abbrev pub colored_font : String → Font
colored_font argb = record { bold = true; size = some 10; color = some argb }

-- `for (let col = 1; col <= 7; col++) { ... }`
abbrev pub for_columns : (ℕ → List Command) → List Command
for_columns body = body 1 ++ (body 2 ++ (body 3 ++ (body 4 ++ (body 5 ++ (body 6 ++ body 7)))))

-- `n || ''`
abbrev pub or_blank : ℕ → Value
or_blank n = if n == 0 then text "" else hours n

abbrev pub labelled : ℕ → ℕ → String → Font → List Command
labelled row col label font = set_value row col (text label) ∷ set_font row col font ∷ []

abbrev pub widths : List Command
widths =
    set_width 1 10
    ∷ set_width 2 12
    ∷ set_width 3 28
    ∷ set_width 4 40
    ∷ set_width 5 10
    ∷ set_width 6 10
    ∷ set_width 7 12
    ∷ []

abbrev pub column_header : ℕ → String → List Command
column_header col label =
    set_value 4 col (text label)
    ∷ set_font 4 col (colored_font "FFFFFFFF")
    ∷ set_fill 4 col orange_header
    ∷ set_border 4 col
    ∷ set_alignment 4 col (if leb 5 col then "center" else "left")
    ∷ set_middle 4 col
    ∷ []

abbrev pub column_headers : List Command
column_headers =
    column_header 1 "Date"
    ++ (column_header 2 "Day"
        ++ (column_header 3 "Project / BD Lead /Others activity"
            ++ (column_header 4 "Task"
                ++ (column_header 5 "Time"
                    ++ (column_header 6 "Over time" ++ column_header 7 "Total Time")))))

-- The task column of a day.
abbrev pub task_text : MonthlyDayRow → String
task_text day =
    if day.is_holiday
    then String.◌++◌ "Holiday - " (or_default day.holiday_name "Holiday")
    else if day.is_leave
    then "Leave"
    else day.task

abbrev pub bg_color : MonthlyDayRow → Option String
bg_color day =
    if day.is_holiday
    then some holiday_bg
    else if day.is_leave
    then some leave_bg
    else if day.is_weekend
    then some weekend_bg
    else none

abbrev pub fill_if : ℕ → ℕ → Option String → List Command
fill_if row col none = []
fill_if row col (some argb) = set_fill row col argb ∷ []

-- The calls for one day's row.
abbrev pub day_values : ℕ → MonthlyDayRow → List Command
day_values row day =
    set_value row 1 (text day.date)
    ∷ set_value row 2 (text day.day)
    ∷ set_value row 3 (text day.project)
    ∷ set_value row 4 (text (task_text day))
    ∷ set_value row 5 (if day.is_leave then or_blank day.time_off_hours else or_blank day.time)
    ∷ set_alignment row 5 "center"
    ∷ set_value row 6 (or_blank day.overtime)
    ∷ set_alignment row 6 "center"
    ∷ set_value row 7 (or_blank day.total_time)
    ∷ set_alignment row 7 "center"
    ∷ []

abbrev pub cell_style : ℕ → Option String → ℕ → List Command
cell_style row color col = set_border row col ∷ set_font row col plain_font ∷ fill_if row col color

abbrev pub task_style : ℕ → MonthlyDayRow → List Command
task_style row day =
    if day.is_holiday
    then set_font row 4 (colored_font holiday_red) ∷ []
    else if day.is_leave
    then set_font row 4 bold_font ∷ set_fill row 4 leave_yellow ∷ []
    else []

abbrev pub day_commands : ℕ → MonthlyDayRow → List Command
day_commands row day =
    day_values row day ++ (for_columns (cell_style row (bg_color day)) ++ task_style row day)

-- The loop over the days, from the row `rowNum` on.
abbrev pub day_rows : ℕ → List MonthlyDayRow → List Command
day_rows row [] = []
day_rows row (day ∷ days) = day_commands row day ++ day_rows (suc row) days

-- `rowNum` after it.
abbrev pub next_row : ℕ → List MonthlyDayRow → ℕ
next_row row [] = row
next_row row (day ∷ days) = next_row (suc row) days

abbrev pub total_row : ℕ → MonthlyTimesheetData → List Command
total_row row r =
    labelled row 1 "Total Working Hours" bold_font
    ++ (merge_cells row 1 4
        ∷ set_value row 5 (hours r.total_hours)
        ∷ set_alignment row 5 "center"
        ∷ set_value row 6 (hours r.total_overtime)
        ∷ set_alignment row 6 "center"
        ∷ set_value row 7 (hours (r.total_hours + r.total_overtime))
        ∷ set_alignment row 7 "center"
        ∷ for_columns (λ col.
          set_border row col ∷ set_font row col bold_font ∷ set_fill row col orange_header ∷ []))

-- The rows that count the holidays and the leaves.
abbrev pub count_row : ℕ → String → String → ℕ → List Command
count_row row label argb n =
    merge_cells row 1 6
    ∷ set_value row 1 (text label)
    ∷ set_font row 1 bold_font
    ∷ set_fill row 1 argb
    ∷ set_value row 7 (count n)
    ∷ set_alignment row 7 "center"
    ∷ set_fill row 7 argb
    ∷ for_columns (λ col. set_border row col ∷ [])

module _ (cal : Calendar) where
  abbrev pub heading : MonthlyTimesheetData → List Command
  heading r =
      labelled 1 1 "Name -" bold_font
      ++ (labelled 1 2 r.employee_name bold_font
          ++ (labelled 1 4 "Emp Code" bold_font
              ++ (labelled 1 5 (String.◌++◌ "EMP" (pad_start 4 (cal.show r.employee_id))) plain_font
                  ++ (labelled 1 6 "Process" bold_font
                      ++ (labelled 1 7
                            (if str_eq r.department "" then "Fullsteam" else r.department)
                            plain_font
                          ++ (labelled 2 1 "Month -" bold_font
                              ++ labelled 2 2 r.month bold_font))))))

  unfoldable pub generate_monthly_timesheet_excel : MonthlyTimesheetData → List Command
  generate_monthly_timesheet_excel r =
      let last = next_row 5 r.days in
      widths
      ++ (heading r
          ++ (column_headers
              ++ (day_rows 5 r.days
                  ++ (total_row last r
                      ++ (count_row (suc last) "Holiday" holiday_bg r.holiday_count
                          ++ count_row (suc (suc last)) "Leave" leave_bg r.leave_count)))))
