-- ===== src/Exports/Worksheet.antt =====
-- What `generateExcel` and `generateMonthlyTimesheetExcel` of src/utils/exportHelpers.ts ask of
-- exceljs: the calls on a worksheet, in order. What exceljs makes of them is no code of this
-- repository; `value_at` and `fill_at` read off what was last put into a cell.
use tms_api.Prelude.{
  ℕ, String, Bool, ◌&&◌, Option, none, some, List, [], ◌∷◌, ◌++◌, ◌==◌, if◌then◌else◌, ◌≡◌, refl,
  sym,
}

-- The value of a cell.
pub data Value : Type 0 where
  text : String → Value
  hours : ℕ → Value
  count : ℕ → Value

-- `{ bold, size, color: { argb } }`
pub record Font : Type 0 where
  pub bold : Bool
  pub size : Option ℕ
  pub color : Option String

-- A call. Rows and columns count from 1: column 1 is A. The border is always `thinBorder`, and a
-- fill is a solid pattern of a colour.
pub data Command : Type 0 where
  set_columns : List (String × ℕ) → Command
  set_width : ℕ → ℕ → Command
  set_value : ℕ → ℕ → Value → Command
  set_font : ℕ → ℕ → Font → Command
  set_fill : ℕ → ℕ → String → Command
  set_border : ℕ → ℕ → Command
  set_alignment : ℕ → ℕ → String → Command
  set_middle : ℕ → ℕ → Command
  merge_cells : ℕ → ℕ → ℕ → Command
  add_row : List Value → Command

abbrev pub or_else {ℓ} : {A : Type ℓ} → Option A → Option A → Option A
or_else none other = other
or_else (some a) other = some a

-- What a single call puts into the cell.
abbrev pub put_value : ℕ → ℕ → Command → Option Value
put_value row col (set_value r c v) = if r == row && c == col then some v else none
put_value row col _ = none

abbrev pub put_fill : ℕ → ℕ → Command → Option String
put_fill row col (set_fill r c v) = if r == row && c == col then some v else none
put_fill row col _ = none

-- The last thing that the calls put somewhere.
abbrev pub last_put {ℓ} : {A : Type ℓ} → (Command → Option A) → List Command → Option A
last_put put [] = none
last_put put (call ∷ calls) = or_else (last_put put calls) (put call)

abbrev pub value_at : ℕ → ℕ → List Command → Option Value
value_at row col = last_put (put_value row col)

abbrev pub fill_at : ℕ → ℕ → List Command → Option String
fill_at row col = last_put (put_fill row col)

pub or_else-none {ℓ} : {A : Type ℓ} (o : Option A) → or_else o none ≡ o
or_else-none none = refl
or_else-none (some a) = refl

or_else-or_else {ℓ} :
    {A : Type ℓ} (x y z : Option A) → or_else (or_else x y) z ≡ or_else x (or_else y z)
or_else-or_else none y z = refl
or_else-or_else (some a) y z = refl

pub last_put-append {ℓ} :
    {A : Type ℓ} (put : Command → Option A) (xs ys : List Command)
    → last_put put (xs ++ ys) ≡ or_else (last_put put ys) (last_put put xs)
last_put-append put [] ys = sym (or_else-none (last_put put ys))
last_put-append put (x ∷ xs) ys =
    rw (last_put-append put xs ys) (or_else-or_else (last_put put ys) (last_put put xs) (put x))
