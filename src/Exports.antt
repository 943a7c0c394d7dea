-- ===== src/Exports.antt =====
-- `generateCSV` of src/utils/exportHelpers.ts.
pub mod Reader
pub mod RoundTrip
pub mod Contents
pub mod Worksheet
pub mod MonthlySheet
pub mod Excel
pub mod Pdf
pub mod Layout
use Prim.Native.Char.{code}
use Prim.Native.String
use Prim.Native.String.{◌++◌}
use tms_api.Prelude.{
  ℕ, String, Bool, true, false, ◌||◌, Option, none, some, or_default, List, [], ◌∷◌, map, ◌==◌,
  if◌then◌else◌,
}
use tms_api.Dates.{Date}
use tms_api.Runtime.{Runtime}
use tms_api.Reports.{Aggregates}
use mathlib.Core.List

-- A row of the export; the fields of `user` are `none` where it is missing.
pub record TimesheetRow : Type 0 where
  pub name : Option String
  pub email : Option String
  pub department : Option String
  pub week_start_date : Date
  pub week_end_date : Date
  pub total_hours : ℕ
  pub billable_hours : ℕ
  pub status : String

-- `val.includes(ch)`, for the character with code `k`.
abbrev pub has_char : ℕ → String → Bool
has_char k String.[] = false
has_char k (String.◌∷◌ ch text) = code ch == k || has_char k text

-- `val.replace(/"/g, '""')`
abbrev pub double_quotes : String → String
double_quotes String.[] = ""
double_quotes (String.◌∷◌ ch text) =
    if code ch == 34
    then String.◌∷◌ ch (String.◌∷◌ ch (double_quotes text))
    else String.◌∷◌ ch (double_quotes text)

unfoldable pub escape_csv : String → String
escape_csv val =
    if has_char 44 val || has_char 34 val || has_char 10 val
    then "\"" ++ (double_quotes val ++ "\"")
    else val

-- `texts.join(sep)`
abbrev pub join_by : String → List String → String
join_by sep [] = ""
join_by sep (text ∷ []) = text
join_by sep (text ∷ next ∷ rest) = text ++ (sep ++ join_by sep (next ∷ rest))

abbrev pub headers : List String
headers =
    "Employee" ∷ "Email" ∷ "Department" ∷ "Week Start" ∷ "Week End" ∷ "Total Hours"
    ∷ "Billable Hours" ∷ "Status" ∷ []

module _ (rt : Runtime) where
  abbrev pub csv_row : TimesheetRow → List String
  csv_row ts =
      escape_csv (or_default ts.name "")
      ∷ escape_csv (or_default ts.email "")
      ∷ escape_csv (or_default ts.department "")
      ∷ rt.iso_date ts.week_start_date
      ∷ rt.iso_date ts.week_end_date
      ∷ rt.show_hours ts.total_hours
      ∷ rt.show_hours ts.billable_hours
      ∷ ts.status
      ∷ []

  abbrev pub summary_rows : Aggregates → List (List String)
  summary_rows a =
      []
      ∷ ("Summary" ∷ [])
      ∷ ("Total Hours" ∷ rt.show_hours a.total_hours ∷ [])
      ∷ ("Billable Hours" ∷ rt.show_hours a.billable_hours ∷ [])
      ∷ ("Non-Billable Hours" ∷ rt.show_hours a.non_billable_hours ∷ [])
      ∷ ("Utilization %" ∷ (rt.show_id a.utilization ++ "%") ∷ [])
      ∷ ("Timesheet Count" ∷ rt.show_id a.timesheet_count ∷ [])
      ∷ []

  unfoldable pub generate_csv : List TimesheetRow → Aggregates → String
  generate_csv timesheets a = join_by "\n" (
      join_by "," headers
      ∷ List.◌++◌ (map (λ ts. join_by "," (csv_row ts)) timesheets)
          (map (join_by ",") (summary_rows a)))
