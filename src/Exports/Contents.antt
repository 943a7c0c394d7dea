-- ===== src/Exports/Contents.antt =====
-- What an export says, and that a reader finds it there.
use Prim.Native.String.{◌++◌}
use Prim.Native.String.append
use mathlib.Core.List
use tms_api.Prelude.{
  ap, ℕ, ◌≡◌, refl, sym, ◌∙◌, String, true, ◌||◌, Option, some, or_default, List, [], ◌∷◌, map, All,
  All-append, arith,
}
use tms_api.Dates.{Date}
use tms_api.Runtime.{Runtime}
use tms_api.Reports.{Aggregates}
use tms_api.Exports.{TimesheetRow, has_char, escape_csv, join_by, headers, csv_row, generate_csv}
use tms_api.Exports.Reader.{read, start}
use tms_api.Exports.RoundTrip.{
  is_plain, Table, AllRead, AllRowsRead, lines, contents, table-Reads, plain-Reads,
  escape_csv-Reads,
}

-- What the conversions of dates and numbers promise: no comma, quote or line break.
pub record IsPlainRuntime (rt : Runtime) : Type 0 where
  pub dates : (d : Date) → is_plain (rt.iso_date d) ≡ true
  pub hours : (n : ℕ) → is_plain (rt.show_hours n) ≡ true
  pub numbers : (n : ℕ) → is_plain (rt.show_id n) ≡ true

has_char-append : (k : ℕ) (v w : String) → has_char k (v ++ w) ≡ (has_char k v || has_char k w)
has_char-append k String.[] w = ap (has_char k) (append.nil w)
has_char-append k (String.◌∷◌ ch v) w =
    rw (append.cons ch v w) (ground (arith, has_char-append k v w))

percent-plain : (v : String) → is_plain v ≡ true → is_plain (v ++ "%") ≡ true
percent-plain v h =
    rw (has_char-append 44 v "%", has_char-append 34 v "%", has_char-append 10 v "%")
      (ground (arith, h))

module _ (rt : Runtime) where
  -- The values of a row and of the summary; an empty line is one empty field.
  abbrev pub row_values : TimesheetRow → List String
  row_values ts =
      or_default ts.name ""
      ∷ or_default ts.email ""
      ∷ or_default ts.department ""
      ∷ rt.iso_date ts.week_start_date
      ∷ rt.iso_date ts.week_end_date
      ∷ rt.show_hours ts.total_hours
      ∷ rt.show_hours ts.billable_hours
      ∷ ts.status
      ∷ []

  abbrev pub summary_values : Aggregates → List (List String)
  summary_values a =
      ("" ∷ [])
      ∷ ("Summary" ∷ [])
      ∷ ("Total Hours" ∷ rt.show_hours a.total_hours ∷ [])
      ∷ ("Billable Hours" ∷ rt.show_hours a.billable_hours ∷ [])
      ∷ ("Non-Billable Hours" ∷ rt.show_hours a.non_billable_hours ∷ [])
      ∷ ("Utilization %" ∷ (rt.show_id a.utilization ++ "%") ∷ [])
      ∷ ("Timesheet Count" ∷ rt.show_id a.timesheet_count ∷ [])
      ∷ []

  abbrev as_is : String → String × String
  as_is text = (text, text)

  abbrev escaped : Option String → String × String
  escaped field = (escape_csv (or_default field ""), or_default field "")

  abbrev row_cells : TimesheetRow → (String × String) × List (String × String)
  row_cells ts = (
    escaped ts.name,
    escaped ts.email
        ∷ escaped ts.department
        ∷ as_is (rt.iso_date ts.week_start_date)
        ∷ as_is (rt.iso_date ts.week_end_date)
        ∷ as_is (rt.show_hours ts.total_hours)
        ∷ as_is (rt.show_hours ts.billable_hours)
        ∷ as_is ts.status
        ∷ [],
  )

  abbrev header_cells : (String × String) × List (String × String)
  header_cells = (
    as_is "Employee",
    as_is "Email"
        ∷ as_is "Department"
        ∷ as_is "Week Start"
        ∷ as_is "Week End"
        ∷ as_is "Total Hours"
        ∷ as_is "Billable Hours"
        ∷ as_is "Status"
        ∷ [],
  )

  abbrev summary_cells : Aggregates → Table
  summary_cells a =
      (as_is "", [])
      ∷ (as_is "Summary", [])
      ∷ (as_is "Total Hours", as_is (rt.show_hours a.total_hours) ∷ [])
      ∷ (as_is "Billable Hours", as_is (rt.show_hours a.billable_hours) ∷ [])
      ∷ (as_is "Non-Billable Hours", as_is (rt.show_hours a.non_billable_hours) ∷ [])
      ∷ (as_is "Utilization %", as_is (rt.show_id a.utilization ++ "%") ∷ [])
      ∷ (as_is "Timesheet Count", as_is (rt.show_id a.timesheet_count) ∷ [])
      ∷ []

  lines-rows :
      (rows : List TimesheetRow) (rest : Table)
      → lines (List.◌++◌ (map row_cells rows) rest)
        ≡ List.◌++◌ (map (λ ts. join_by "," (csv_row rt ts)) rows) (lines rest)
  lines-rows [] rest = refl
  lines-rows (ts ∷ rows) rest = ap (λ l. join_by "," (csv_row rt ts) ∷ l) (lines-rows rows rest)

  contents-rows :
      (rows : List TimesheetRow) (rest : Table)
      → contents (List.◌++◌ (map row_cells rows) rest)
        ≡ List.◌++◌ (map row_values rows) (contents rest)
  contents-rows [] rest = refl
  contents-rows (ts ∷ rows) rest = ap (λ l. row_values ts ∷ l) (contents-rows rows rest)

  module _ (kept : IsPlainRuntime rt) where
    headers-read : AllRead (header_cells.0 ∷ header_cells.1)
    headers-read = (
      plain-Reads "Employee" refl,
      (
        plain-Reads "Email" refl,
        (
          plain-Reads "Department" refl,
          (
            plain-Reads "Week Start" refl,
            (
              plain-Reads "Week End" refl,
              (
                plain-Reads "Total Hours" refl,
                (plain-Reads "Billable Hours" refl, (plain-Reads "Status" refl, tt)),
              ),
            ),
          ),
        ),
      ),
    )

    rows-read :
        (rows : List TimesheetRow)
        → All (λ ts. is_plain ts.status ≡ true) rows
        → AllRowsRead (map row_cells rows)
    rows-read [] h = tt
    rows-read (ts ∷ rows) h = (
      (
        escape_csv-Reads _,
        (
          escape_csv-Reads _,
          (
            escape_csv-Reads _,
            (
              plain-Reads _ (kept.dates _),
              (
                plain-Reads _ (kept.dates _),
                (
                  plain-Reads _ (kept.hours _),
                  (plain-Reads _ (kept.hours _), (plain-Reads _ h.0, tt)),
                ),
              ),
            ),
          ),
        ),
      ),
      rows-read rows h.1,
    )

    summary-read : (a : Aggregates) → AllRowsRead (summary_cells a)
    summary-read a = (
      (plain-Reads "" refl, tt),
      (
        (plain-Reads "Summary" refl, tt),
        (
          (plain-Reads "Total Hours" refl, (plain-Reads _ (kept.hours _), tt)),
          (
            (plain-Reads "Billable Hours" refl, (plain-Reads _ (kept.hours _), tt)),
            (
              (plain-Reads "Non-Billable Hours" refl, (plain-Reads _ (kept.hours _), tt)),
              (
                (
                  plain-Reads "Utilization %" refl,
                  (plain-Reads _ (percent-plain (rt.show_id a.utilization) (kept.numbers _)), tt),
                ),
                ((plain-Reads "Timesheet Count" refl, (plain-Reads _ (kept.numbers _), tt)), tt),
              ),
            ),
          ),
        ),
      ),
    )

    -- A reader of CSV texts finds in an export exactly the headers, a row for each timesheet with the
    -- employee's name, email address and department as they are stored, whatever commas, quotes and
    -- line breaks they hold, and the summary; the status texts are plain.
    pub read-generate_csv :
        (rows : List TimesheetRow) (a : Aggregates)
        → All (λ ts. is_plain ts.status ≡ true) rows
        → read start (generate_csv rt rows a)
          ≡ some (headers ∷ List.◌++◌ (map row_values rows) (summary_values a))
    unfolding generate_csv
    read-generate_csv rows a h =
        ap (λ l. read start (join_by "\n" (join_by "," headers ∷ l)))
          (sym (lines-rows rows (summary_cells a)))
        ∙ table-Reads header_cells (List.◌++◌ (map row_cells rows) (summary_cells a))
            (headers-read, All-append _ (map row_cells rows) _ (rows-read rows h) (summary-read a))
        ∙ ap (λ l. some (headers ∷ l)) (contents-rows rows (summary_cells a))
