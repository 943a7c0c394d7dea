-- ===== src/Dates.antt =====
-- src/utils/dateHelpers.ts. A `Date` is read as the local calendar shows it: a day number and the
-- milliseconds since that day's midnight. Day 0 is Monday, 20 December of the year -1, twelve days
-- before the first day that a YYYY-MM-DD text names, so no week start of such a day is truncated.
pub mod Week
use text.Mathlib.Text.{◌==◌ as str_eq}
use tms_api.Prelude.{ℕ, ◌+◌, ◌-◌, ◌%◌, String, Bool, ◌&&◌, ◌||◌, ltb, ◌==◌, if◌then◌else◌}

pub record Date : Type 0 where
  pub day : ℕ
  pub ms : ℕ

-- `date.getDay()`: 0 is Sunday.
abbrev pub get_day : Date → ℕ
get_day d = (d.day + 1) % 7

-- `d.setHours(0, 0, 0, 0)`
abbrev pub midnight : Date → Date
midnight d = record { day = d.day; ms = 0 }

-- `a < b`
abbrev pub before : Date → Date → Bool
before a b = ltb a.day b.day || (a.day == b.day && ltb a.ms b.ms)

-- `(day === 0 ? -6 : 1 - day)` and `-day` are taken off the day number.
unfoldable pub get_week_start : Date → String → Date
get_week_start date week_start =
    let d = midnight date in
    let day = get_day d in
    if str_eq week_start "monday"
    then (if day == 0 then record d { day = d.day - 6 } else record d { day = d.day + 1 - day })
    else record d { day = d.day - day }

unfoldable pub get_week_end : Date → Date
get_week_end week_start = record { day = week_start.day + 6; ms = 86399999 }

-- `isInPast(date)`, at the time `now`.
unfoldable pub is_in_past : Date → Date → Bool
is_in_past now date = before date (midnight now)
