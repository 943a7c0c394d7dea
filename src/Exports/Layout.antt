-- ===== src/Exports/Layout.antt =====
-- Where the texts of a PDF export stand.
use tms_api.Prelude.{
  ℕ, suc, ◌+◌, ◌≤◌, ◌<◌, ◌≡◌, ◌⊎◌, refl, String, or_default, List, [], ◌∷◌, ◌++◌, ltb, arith, inl,
  inr, Bool-cases,
}
use tms_api.Runtime.{Runtime}
use tms_api.Reports.{Aggregates}
use tms_api.Exports.{TimesheetRow}
use tms_api.Exports.Pdf.{
  PdfCommand, text_at, add_page, font_size, font, centered, paragraph, move_down, line, pdf_summary,
  pdf_rows, generate_pdf,
}

-- A text with its page, its x and its y.
abbrev pub Placed : Type 0
Placed = ℕ × ℕ × ℕ × String

-- All the texts that are drawn at a position, in order.
abbrev pub placed : ℕ → List PdfCommand → List Placed
placed page [] = []
placed page (text_at s x y width ∷ calls) = (page, x, y, s) ∷ placed page calls
placed page (add_page ∷ calls) = placed (suc page) calls
placed page (font_size n ∷ calls) = placed page calls
placed page (font name ∷ calls) = placed page calls
placed page (centered s ∷ calls) = placed page calls
placed page (paragraph s ∷ calls) = placed page calls
placed page (move_down s ∷ calls) = placed page calls
placed page (line a b c d ∷ calls) = placed page calls

-- Six texts side by side, in the six columns.
abbrev pub side_by_side : ℕ → ℕ → String → String → String → String → String → String → List Placed
side_by_side page y a b c d e f =
    (page, 40, y, a)
    ∷ (page, 160, y, b)
    ∷ (page, 240, y, c)
    ∷ (page, 320, y, d)
    ∷ (page, 380, y, e)
    ∷ (page, 450, y, f)
    ∷ []

module _ (rt : Runtime) where
  abbrev pub shown : ℕ → ℕ → TimesheetRow → List Placed
  shown page y ts =
      side_by_side page y (or_default ts.name "") (rt.iso_date ts.week_start_date)
        (rt.iso_date ts.week_end_date) (rt.show_hours ts.total_hours)
        (rt.show_hours ts.billable_hours) ts.status

  -- The texts are the rows' and no other, the first row at the height `y` of the page, and each 14
  -- points below the one before; a row that would stand below 550 is the first of the next page.
  abbrev pub IsLaidOut : ℕ → ℕ → List TimesheetRow → List Placed → Type 0
  IsLaidOut page y [] texts = texts ≡ []
  IsLaidOut page y (ts ∷ rows) texts =
      (p : ℕ) × (top : ℕ) × (rest : List Placed) × (texts ≡ shown p top ts ++ rest)
      × (top ≤ 550)
      × (((p ≡ page) × (top ≡ y)) ⊎ ((p ≡ suc page) × (top ≡ 40) × (550 < y)))
      × IsLaidOut p (top + 14) rows rest

  rows-IsLaidOut :
      (rows : List TimesheetRow) (page y : ℕ)
      → IsLaidOut page y rows (placed page (pdf_rows rt y rows))
  rows-IsLaidOut [] page y = refl
  rows-IsLaidOut (ts ∷ rows) page y = elim (Bool-cases (ltb 550 y)) [
    | inl full ↦ rw full (
      suc page,
      40,
      placed (suc page) (pdf_rows rt 54 rows),
      refl,
      omega arith,
      inr (refl, refl, ground (arith, full)),
      rows-IsLaidOut rows (suc page) 54,
    )
    | inr room ↦ rw room (
      page,
      y,
      placed page (pdf_rows rt (y + 14) rows),
      refl,
      ground (arith, room),
      inl (refl, refl),
      rows-IsLaidOut rows page (y + 14),
    )
  ]

-- The texts that a PDF export draws at a position are the six headings of the table side by side,
-- and then for every row, once and in order, the name, the two dates, the hours, the billable hours
-- and the status, side by side under their headings: each row 14 points below the one before, and
-- none below 550, where a new page begins at 40.
pub generate_pdf-IsLaidOut :
    (rt : Runtime) (y_after : List PdfCommand → ℕ) (rows : List TimesheetRow) (a : Aggregates)
    → let table_top = y_after (pdf_summary rt a) in
      (rest : List Placed) × (placed 0 (generate_pdf rt y_after rows a)
        ≡ side_by_side 0 table_top "Employee" "Week Start" "Week End" "Total Hrs" "Billable Hrs"
            "Status"
          ++ rest)
      × IsLaidOut rt 0 (table_top + 18) rows rest
unfolding generate_pdf
generate_pdf-IsLaidOut rt y_after rows a = (
  placed 0 (pdf_rows rt (y_after (pdf_summary rt a) + 18) rows),
  refl,
  rows-IsLaidOut rt rows 0 (y_after (pdf_summary rt a) + 18),
)
