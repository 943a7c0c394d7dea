-- ===== src/Exports/MonthlySheet/Cells.antt =====
-- What stands in the cells of a monthly sheet.
use mathlib.Core.Option.{some-injective}
use tms_api.Prelude.{
  ℕ, zero, suc, ◌+◌, ◌≤◌, ◌<◌, ◌≡◌, ◌≢◌, refl, sym, ◌∙◌, String, Bool, true, false, not, ◌&&◌,
  Option, none, some, List, [], ◌∷◌, ◌++◌, length, leb, ltb, all, All, arith, ◌==◌, if◌then◌else◌,
}
use tms_api.Reports.Monthly.{MonthlyDayRow}
use tms_api.Exports.Worksheet.{
  Value, text, Command, set_value, set_font, set_fill, set_border, set_alignment, set_middle,
  merge_cells, last_put, last_put-append, or_else-none, value_at, fill_at, put_value, put_fill,
}
use tms_api.Exports.MonthlySheet.{
  leave_yellow, or_blank, task_text, bg_color, for_columns, day_values, cell_style, task_style,
  day_commands, day_rows,
}

-- What the columns of a day's row show.
abbrev pub day_cell : MonthlyDayRow → ℕ → Option Value
day_cell day col =
    if col == 1
    then some (text day.date)
    else if col == 2
    then some (text day.day)
    else if col == 3
    then some (text day.project)
    else if col == 4
    then some (text (task_text day))
    else if col == 5
    then some (if day.is_leave then or_blank day.time_off_hours else or_blank day.time)
    else if col == 6
    then some (or_blank day.overtime)
    else if col == 7
    then some (or_blank day.total_time)
    else none

-- And its background: that of a holiday, a leave or a weekend, with the task of a leave marked.
abbrev pub day_fill : MonthlyDayRow → ℕ → Option String
day_fill day col =
    if not (leb 1 col && leb col 7)
    then none
    else if col == 4 && (day.is_leave && not day.is_holiday)
    then some leave_yellow
    else bg_color day

values-day_cell :
    (k row col : ℕ) (day : MonthlyDayRow)
    → value_at row col (day_values k day) ≡ (if k == row then day_cell day col else none)
values-day_cell k row col day = ground arith

style-none :
    (k row col : ℕ) (o : Option String) → value_at row col (for_columns (cell_style k o)) ≡ none
style-none k row col none = refl
style-none k row col (some argb) = refl

task-none : (k row col : ℕ) (day : MonthlyDayRow) → value_at row col (task_style k day) ≡ none
task-none k row col day = ground arith

style-fill :
    (k row col : ℕ) (o : Option String)
    → fill_at row col (for_columns (cell_style k o))
      ≡ (if k == row && (leb 1 col && leb col 7) then o else none)
style-fill k row col none = ground arith
style-fill k row col (some argb) = ground arith

task-fill :
    (k row col : ℕ) (day : MonthlyDayRow)
    → fill_at row col (task_style k day) ≡ (
        if k == row && (col == 4 && (day.is_leave && not day.is_holiday))
        then some leave_yellow
        else none)
task-fill k row col day = ground arith

values-fill : (k row col : ℕ) (day : MonthlyDayRow) → fill_at row col (day_values k day) ≡ none
values-fill k row col day = refl

pub day-value :
    (k row col : ℕ) (day : MonthlyDayRow)
    → value_at row col (day_commands k day) ≡ (if k == row then day_cell day col else none)
day-value k row col day =
    rw
      (
        last_put-append (put_value row col) (day_values k day)
            (for_columns (cell_style k (bg_color day)) ++ task_style k day),
        last_put-append (put_value row col) (for_columns (cell_style k (bg_color day)))
            (task_style k day),
        task-none k row col day,
        style-none k row col (bg_color day),
      )
      (values-day_cell k row col day)

pub day-fill :
    (k row col : ℕ) (day : MonthlyDayRow)
    → fill_at row col (day_commands k day) ≡ (if k == row then day_fill day col else none)
day-fill k row col day =
    rw
      (
        last_put-append (put_fill row col) (day_values k day)
            (for_columns (cell_style k (bg_color day)) ++ task_style k day),
        last_put-append (put_fill row col) (for_columns (cell_style k (bg_color day)))
            (task_style k day),
        task-fill k row col day,
        style-fill k row col (bg_color day),
        values-fill k row col day,
      )
      (ground arith)

-- The `i`th element.
abbrev pub nth {ℓ} : {A : Type ℓ} → List A → ℕ → Option A
nth [] i = none
nth (x ∷ xs) zero = some x
nth (x ∷ xs) (suc i) = nth xs i

-- The row that a call is about; 0 where it is about none.
abbrev pub row_number : Command → ℕ
row_number (set_value r c v) = r
row_number (set_font r c f) = r
row_number (set_fill r c v) = r
row_number (set_border r c) = r
row_number (set_alignment r c v) = r
row_number (set_middle r c) = r
row_number (merge_cells r a b) = r
row_number _ = 0

abbrev pub IsAbout : ℕ → Command → Type 0
IsAbout k call = row_number call ≡ k

abbrev pub is_above : Command → Bool
is_above call = ltb (row_number call) 5

-- A reading of a cell, `value_at` or `fill_at`, with what it finds in the row of a day.
module _ {A : Type 0} (put : ℕ → ℕ → Command → Option A) (cell : MonthlyDayRow → ℕ → Option A)
    (in_row : (row col : ℕ) (call : Command) → row_number call ≢ row → put row col call ≡ none)
    (of_day : (k row col : ℕ) (day : MonthlyDayRow)
      → last_put (put row col) (day_commands k day)
        ≡ (if k == row then cell day col else none)) where
  pub above-none :
      (row col : ℕ) (calls : List Command)
      → all is_above calls ≡ true
      → 5 ≤ row
      → last_put (put row col) calls ≡ none
  above-none row col [] h far = refl
  above-none row col (call ∷ calls) h far =
      let is : (ltb (row_number call) 5 && all is_above calls) ≡ true = h in
      rw (above-none row col calls (ground (arith, is)) far)
        (in_row row col call (ground (arith, is)))

  pub elsewhere-none :
      (k row col : ℕ) (calls : List Command)
      → All (IsAbout k) calls
      → k ≢ row
      → last_put (put row col) calls ≡ none
  elsewhere-none k row col [] h ne = refl
  elsewhere-none k row col (call ∷ calls) h ne =
      rw (elsewhere-none k row col calls h.1 ne) (in_row row col call (λ e. ne (sym h.0 ∙ e)))

  pub before-none :
      (start row col : ℕ) (days : List MonthlyDayRow)
      → row < start
      → last_put (put row col) (day_rows start days) ≡ none
  before-none start row col [] h = refl
  before-none start row col (day ∷ days) h =
      rw
        (
          last_put-append (put row col) (day_commands start day) (day_rows (suc start) days),
          before-none (suc start) row col days (omega arith),
          of_day start row col day,
        )
        (ground arith)

  pub after-none :
      (start row col : ℕ) (days : List MonthlyDayRow)
      → start + length days ≤ row
      → last_put (put row col) (day_rows start days) ≡ none
  after-none start row col [] h = refl
  after-none start row col (day ∷ days) h =
      rw
        (
          last_put-append (put row col) (day_commands start day) (day_rows (suc start) days),
          after-none (suc start) row col days (omega arith),
          of_day start row col day,
        )
        (ground arith)

  pub days-cell :
      (start i row col : ℕ) (days : List MonthlyDayRow) (day : MonthlyDayRow)
      → nth days i ≡ some day
      → row ≡ start + i
      → last_put (put row col) (day_rows start days) ≡ cell day col
  days-cell start i row col [] day is at = cc
  days-cell start zero row col (d ∷ days) day is at =
      let same : (start == row) ≡ true = ground (arith, at) in
      rw
        (
          last_put-append (put row col) (day_commands start d) (day_rows (suc start) days),
          before-none (suc start) row col days (omega arith),
          of_day start row col d,
          some-injective _ _ is,
          same,
        )
        refl
  days-cell start (suc i) row col (d ∷ days) day is at =
      let other : (start == row) ≡ false = ground (arith, at) in
      rw
        (
          last_put-append (put row col) (day_commands start d) (day_rows (suc start) days),
          days-cell (suc start) i row col days day is (omega arith),
          of_day start row col d,
          other,
        )
        (or_else-none (cell day col))
