-- ===== src/Exports/Pdf.antt =====
-- `generatePDF` of src/utils/exportHelpers.ts: the calls on a pdfkit document, in order. Where the
-- flow of the text stands (`doc.y`) is asked of pdfkit: it is the parameter `y_after`. Points are
-- natural numbers.
use Prim.Native.String
use tms_api.Prelude.{ℕ, ◌+◌, String, or_default, List, [], ◌∷◌, ◌++◌, ltb, if◌then◌else◌}
use tms_api.Runtime.{Runtime}
use tms_api.Reports.{Aggregates}
use tms_api.Exports.{TimesheetRow}

pub data PdfCommand : Type 0 where
  font_size : ℕ → PdfCommand
  font : String → PdfCommand
  centered : String → PdfCommand
  paragraph : String → PdfCommand
  move_down : String → PdfCommand
  text_at : String → ℕ → ℕ → ℕ → PdfCommand
  line : ℕ → ℕ → ℕ → ℕ → PdfCommand
  add_page : PdfCommand

-- `cols`: a label, its x and its width.
abbrev pub cols : List (String × ℕ × ℕ)
cols =
    ("Employee", 40, 120)
    ∷ ("Week Start", 160, 80)
    ∷ ("Week End", 240, 80)
    ∷ ("Total Hrs", 320, 60)
    ∷ ("Billable Hrs", 380, 70)
    ∷ ("Status", 450, 70)
    ∷ []

abbrev pub column_labels : ℕ → List (String × ℕ × ℕ) → List PdfCommand
column_labels y [] = []
column_labels y ((label, x, width) ∷ rest) = text_at label x y width ∷ column_labels y rest

module _ (rt : Runtime) where
  abbrev pub pdf_summary : Aggregates → List PdfCommand
  pdf_summary a =
      font_size 18
      ∷ font "Helvetica-Bold"
      ∷ centered "Highspring India TMS — Report"
      ∷ move_down "0.5"
      ∷ font_size 11
      ∷ font "Helvetica-Bold"
      ∷ paragraph "Summary"
      ∷ font_size 10
      ∷ font "Helvetica"
      ∷ paragraph (String.◌++◌ "Total Hours: " (rt.show_hours a.total_hours))
      ∷ paragraph (String.◌++◌ "Billable Hours: " (rt.show_hours a.billable_hours))
      ∷ paragraph (String.◌++◌ "Non-Billable Hours: " (rt.show_hours a.non_billable_hours))
      ∷ paragraph (String.◌++◌ "Utilization: " (String.◌++◌ (rt.show_id a.utilization) "%"))
      ∷ paragraph (String.◌++◌ "Timesheets: " (rt.show_id a.timesheet_count))
      ∷ move_down "1"
      ∷ []

  -- The six texts of a row.
  abbrev pub pdf_row : ℕ → TimesheetRow → List PdfCommand
  pdf_row y ts =
      text_at (or_default ts.name "") 40 y 120
      ∷ text_at (rt.iso_date ts.week_start_date) 160 y 80
      ∷ text_at (rt.iso_date ts.week_end_date) 240 y 80
      ∷ text_at (rt.show_hours ts.total_hours) 320 y 60
      ∷ text_at (rt.show_hours ts.billable_hours) 380 y 70
      ∷ text_at ts.status 450 y 70
      ∷ []

  -- The loop over the rows, from `y` on; a row that would stand below 550 begins a new page.
  abbrev pub pdf_rows : ℕ → List TimesheetRow → List PdfCommand
  pdf_rows y [] = []
  pdf_rows y (ts ∷ rest) =
      let is_full = ltb 550 y in
      let top = if is_full then 40 else y in
      (if is_full then add_page ∷ [] else []) ++ (pdf_row top ts ++ pdf_rows (top + 14) rest)

  unfoldable pub generate_pdf :
      (List PdfCommand → ℕ) → List TimesheetRow → Aggregates → List PdfCommand
  generate_pdf y_after timesheets a =
      let summary = pdf_summary a in
      let table_top = y_after summary in
      summary
      ++ (font_size 9
          ∷ font "Helvetica-Bold"
          ∷ (column_labels table_top cols
              ++ (line 40 (table_top + 14) 520 (table_top + 14)
                  ∷ font "Helvetica"
                  ∷ font_size 9
                  ∷ pdf_rows (table_top + 18) timesheets)))
