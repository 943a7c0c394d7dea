-- ===== src/Exports/MonthlySheet/Whole.antt =====
-- The whole monthly sheet, read by its cells.
use tms_api.Prelude.{
  ℕ, zero, suc, ◌+◌, ◌≤◌, ◌<◌, ◌≡◌, ◌≢◌, refl, sym, ◌∙◌, String, true, Option, none, some, List, [],
  ◌∷◌, ◌++◌, length, all, All, arith, ◌==◌, if◌then◌else◌,
}
use tms_api.Reports.Monthly.{Calendar, MonthlyDayRow, MonthlyTimesheetData}
use tms_api.Exports.Worksheet.{
  hours, count, Command, set_value, set_font, set_fill, set_border, set_alignment, set_middle,
  merge_cells, set_columns, set_width, add_row, or_else, or_else-none, last_put, last_put-append,
  value_at, fill_at, put_value, put_fill,
}
use tms_api.Exports.MonthlySheet.{
  holiday_bg, leave_bg, widths, heading, column_headers, day_commands, day_rows, next_row,
  total_row, count_row, generate_monthly_timesheet_excel,
}
use tms_api.Exports.MonthlySheet.Cells.{
  day_cell, day_fill, nth, row_number, IsAbout, is_above, above-none, elsewhere-none, after-none,
  days-cell, day-value, day-fill,
}

next_row-length : (row : ℕ) (days : List MonthlyDayRow) → next_row row days ≡ row + length days
next_row-length row [] = omega arith
next_row-length row (day ∷ days) = omega (arith, next_row-length (suc row) days)

value-row : (row col : ℕ) (call : Command) → row_number call ≢ row → put_value row col call ≡ none
value-row row col (set_value r c v) ne = ground (arith, ne)
value-row row col (set_columns l) ne = refl
value-row row col (set_width l w) ne = refl
value-row row col (set_font r c v) ne = refl
value-row row col (set_fill r c v) ne = refl
value-row row col (set_border r c) ne = refl
value-row row col (set_alignment r c v) ne = refl
value-row row col (set_middle r c) ne = refl
value-row row col (merge_cells r a b) ne = refl
value-row row col (add_row l) ne = refl

fill-row : (row col : ℕ) (call : Command) → row_number call ≢ row → put_fill row col call ≡ none
fill-row row col (set_fill r c v) ne = ground (arith, ne)
fill-row row col (set_columns l) ne = refl
fill-row row col (set_width l w) ne = refl
fill-row row col (set_font r c v) ne = refl
fill-row row col (set_value r c v) ne = refl
fill-row row col (set_border r c) ne = refl
fill-row row col (set_alignment r c v) ne = refl
fill-row row col (set_middle r c) ne = refl
fill-row row col (merge_cells r a b) ne = refl
fill-row row col (add_row l) ne = refl

total-IsAbout : (k : ℕ) (r : MonthlyTimesheetData) → All (IsAbout k) (total_row k r)
total-IsAbout k r = omega arith

count-IsAbout : (k : ℕ) (label argb : String) (n : ℕ) → All (IsAbout k) (count_row k label argb n)
count-IsAbout k label argb n = omega arith

self : (k : ℕ) → (k == k) ≡ true
self k = ground arith

-- The rows below the days.
abbrev total_at : MonthlyTimesheetData → ℕ
total_at r = 5 + length r.days

module _ {A : Type 0} (put : ℕ → ℕ → Command → Option A) (cell : MonthlyDayRow → ℕ → Option A)
    (in_row : (row col : ℕ) (call : Command) → row_number call ≢ row → put row col call ≡ none)
    (of_day : (k row col : ℕ) (day : MonthlyDayRow)
      → last_put (put row col) (day_commands k day) ≡ (if k == row then cell day col else none))
    (cal : Calendar) (r : MonthlyTimesheetData) (row col : ℕ) (low : 5 ≤ row) where
  abbrev found : List Command → Option A
  found = last_put (put row col)

  below : (xs ys : List Command) → all is_above xs ≡ true → found (xs ++ ys) ≡ found ys
  below xs ys above =
      last_put-append (put row col) xs ys
      ∙ rw (above-none put cell in_row of_day row col xs above low) (or_else-none (found ys))

  -- From row 5 on, what is found is found in the rows of the days or below them.
  parts :
      found (generate_monthly_timesheet_excel cal r)
      ≡ or_else
          (or_else
            (or_else
              (found (count_row (suc (suc (next_row 5 r.days))) "Leave" leave_bg r.leave_count))
              (found (count_row (suc (next_row 5 r.days)) "Holiday" holiday_bg r.holiday_count)))
            (found (total_row (next_row 5 r.days) r)))
          (found (day_rows 5 r.days))
  unfolding generate_monthly_timesheet_excel
  parts =
      let last = next_row 5 r.days in
      let holidays = count_row (suc last) "Holiday" holiday_bg r.holiday_count in
      let leaves = count_row (suc (suc last)) "Leave" leave_bg r.leave_count in
      let rows = day_rows 5 r.days ++ (total_row last r ++ (holidays ++ leaves)) in
      below widths (heading cal r ++ (column_headers ++ rows)) refl
      ∙ below (heading cal r) (column_headers ++ rows) refl
      ∙ below column_headers rows refl
      ∙ last_put-append (put row col) (day_rows 5 r.days) (total_row last r ++ (holidays ++ leaves))
      ∙ rw
          (
            last_put-append (put row col) (total_row last r) (holidays ++ leaves),
            last_put-append (put row col) holidays leaves,
          )
          refl

  no_total : row ≢ total_at r → found (total_row (next_row 5 r.days) r) ≡ none
  no_total ne =
      elsewhere-none put cell in_row of_day (next_row 5 r.days) row col
        (total_row (next_row 5 r.days) r) (total-IsAbout _ r)
        (λ e. ne (sym e ∙ next_row-length 5 r.days))

  no_count :
      (k : ℕ) (label argb : String) (n : ℕ) → k ≢ row → found (count_row k label argb n) ≡ none
  no_count k label argb n ne =
      elsewhere-none put cell in_row of_day k row col (count_row k label argb n)
        (count-IsAbout k label argb n) ne

  -- The row of the `i`th day.
  day_row-cell :
      (i : ℕ) (day : MonthlyDayRow)
      → nth r.days i ≡ some day
      → row ≡ 5 + i
      → i < length r.days
      → found (generate_monthly_timesheet_excel cal r) ≡ cell day col
  day_row-cell i day is at inside =
      let e = next_row-length 5 r.days in
      parts
      ∙ rw
          (
            no_count (suc (suc (next_row 5 r.days))) "Leave" leave_bg r.leave_count
                (omega (arith, e)),
            no_count (suc (next_row 5 r.days)) "Holiday" holiday_bg r.holiday_count
                (omega (arith, e)),
            no_total (omega arith),
          )
          (days-cell put cell in_row of_day 5 i row col r.days day is at)

  -- The rows of the totals and of the counts.
  total_row-found :
      row ≡ total_at r
      → found (generate_monthly_timesheet_excel cal r) ≡ or_else (found (total_row row r)) none
  total_row-found at =
      let e : next_row 5 r.days ≡ row = omega (arith, next_row-length 5 r.days) in
      parts
      ∙ rw
          (
            e,
            no_count (suc (suc row)) "Leave" leave_bg r.leave_count (omega arith),
            no_count (suc row) "Holiday" holiday_bg r.holiday_count (omega arith),
            after-none put cell in_row of_day 5 row col r.days (omega arith),
          )
          refl

  holiday_row-found :
      row ≡ suc (total_at r)
      → found (generate_monthly_timesheet_excel cal r)
        ≡ or_else (found (count_row row "Holiday" holiday_bg r.holiday_count)) none
  holiday_row-found at =
      let e : suc (next_row 5 r.days) ≡ row = omega (arith, next_row-length 5 r.days) in
      parts
      ∙ rw
          (
            e,
            no_count (suc row) "Leave" leave_bg r.leave_count (omega arith),
            no_total (omega arith),
            after-none put cell in_row of_day 5 row col r.days (omega arith),
          )
          (or_else-none (or_else (found (count_row row "Holiday" holiday_bg r.holiday_count)) none))

  leave_row-found :
      row ≡ suc (suc (total_at r))
      → found (generate_monthly_timesheet_excel cal r)
        ≡ or_else (found (count_row row "Leave" leave_bg r.leave_count)) none
  leave_row-found at =
      let e : suc (suc (next_row 5 r.days)) ≡ row = omega (arith, next_row-length 5 r.days) in
      parts
      ∙ rw
          (
            e,
            no_count (suc (next_row 5 r.days)) "Holiday" holiday_bg r.holiday_count (omega arith),
            no_total (omega arith),
            after-none put cell in_row of_day 5 row col r.days (omega arith),
          )
          (or_else-none
              (or_else (or_else (found (count_row row "Leave" leave_bg r.leave_count)) none) none)
            ∙ or_else-none (or_else (found (count_row row "Leave" leave_bg r.leave_count)) none))

nth-lt : {A : Type 0} (xs : List A) (i : ℕ) (x : A) → nth xs i ≡ some x → i < length xs
nth-lt [] i x h = cc
nth-lt (y ∷ xs) zero x h = omega arith
nth-lt (y ∷ xs) (suc i) x h = omega (arith, nth-lt xs i x h)

-- The day rows show their days in the right colours; below them stand the totals and the counts.
pub record IsDrawn (r : MonthlyTimesheetData) (calls : List Command) : Type 0 where
  pub cells :
      (i col : ℕ) (day : MonthlyDayRow)
      → nth r.days i ≡ some day
      → value_at (5 + i) col calls ≡ day_cell day col
  pub fills :
      (i col : ℕ) (day : MonthlyDayRow)
      → nth r.days i ≡ some day
      → fill_at (5 + i) col calls ≡ day_fill day col
  pub regular : value_at (total_at r) 5 calls ≡ some (hours r.total_hours)
  pub overtime : value_at (total_at r) 6 calls ≡ some (hours r.total_overtime)
  pub all_hours : value_at (total_at r) 7 calls ≡ some (hours (r.total_hours + r.total_overtime))
  pub holidays : value_at (suc (total_at r)) 7 calls ≡ some (count r.holiday_count)
  pub leaves : value_at (suc (suc (total_at r))) 7 calls ≡ some (count r.leave_count)

pub generate_monthly_timesheet_excel-IsDrawn :
    (cal : Calendar) (r : MonthlyTimesheetData) → IsDrawn r (generate_monthly_timesheet_excel cal r)
generate_monthly_timesheet_excel-IsDrawn cal r = record {
  cells = λ i col day is.
      day_row-cell put_value day_cell value-row day-value cal r (5 + i) col (omega arith) i day is
        refl (nth-lt r.days i day is);
  fills = λ i col day is.
      day_row-cell put_fill day_fill fill-row day-fill cal r (5 + i) col (omega arith) i day is refl
        (nth-lt r.days i day is);
  regular =
      total_row-found put_value day_cell value-row day-value cal r (total_at r) 5 (omega arith) refl
      ∙ rw (self (total_at r)) refl;
  overtime =
      total_row-found put_value day_cell value-row day-value cal r (total_at r) 6 (omega arith) refl
      ∙ rw (self (total_at r)) refl;
  all_hours =
      total_row-found put_value day_cell value-row day-value cal r (total_at r) 7 (omega arith) refl
      ∙ rw (self (total_at r)) refl;
  holidays =
      holiday_row-found put_value day_cell value-row day-value cal r (suc (total_at r)) 7
        (omega arith) refl
      ∙ rw (self (suc (total_at r))) refl;
  leaves =
      leave_row-found put_value day_cell value-row day-value cal r (suc (suc (total_at r))) 7
        (omega arith) refl
      ∙ rw (self (suc (suc (total_at r)))) refl;
}
