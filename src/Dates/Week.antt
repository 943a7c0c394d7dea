-- ===== src/Dates/Week.antt =====
-- The week calculations of src/utils/dateHelpers.ts: each week has one start.
use text.Mathlib.Text.{◌==◌ as str_eq}
use tms_api.Prelude.{ℕ, ◌≤◌, ◌≡◌, ◌↔◌, String, arith, if◌then◌else◌}
use tms_api.Dates.{Date, get_day, get_week_start, get_week_end}

-- The weekday of a week's first day.
abbrev pub first_day : String → ℕ
first_day week_start = if str_eq week_start "monday" then 1 else 0

-- From day 6 on, the week start is a midnight that falls on the organisation's first day of the
-- week, and the date lies between the week start and the week end.
pub get_week_start-covers :
    (d : Date) (week_start : String)
    → 6 ≤ d.day
    → let s = get_week_start d week_start in
      (get_day s ≡ first_day week_start)
      × (s.ms ≡ 0)
      × (s.day ≤ d.day)
      × (d.day ≤ (get_week_end s).day)
unfolding get_week_start get_week_end
get_week_start-covers d week_start h = ground arith

-- From day 6 on, two dates have the same week start exactly when the second lies between the first
-- one's week start and week end.
pub get_week_start-eq_iff :
    (d e : Date) (week_start : String)
    → 6 ≤ d.day
    → 6 ≤ e.day
    → let s = get_week_start d week_start in
      (get_week_start e week_start ≡ s) ↔ ((s.day ≤ e.day) × (e.day ≤ (get_week_end s).day))
unfolding get_week_start get_week_end
get_week_start-eq_iff d e week_start h k = ground arith
