-- ===== src/Reports/Monthly/Columns.antt =====
-- Which weekday's column `getDayKeyForDate` reads for a date. Day 0 is a Monday.
use tms_api.Prelude.{◌+◌, ◌-◌, ◌%◌, ◌≤◌, ◌≡◌, some, arith}
use tms_api.Dates.{Date}
use tms_api.Reports.Monthly.{get_day_key_for_date}

-- For a date in the seven days from a week start at midnight, the column read is the one that is as
-- far from Monday's as the date's weekday is from the week's first: the date's own column where the
-- week starts on a Monday, and the next weekday's where it starts on a Sunday.
pub get_day_key_for_date-weekday :
    (date week_start : Date)
    → week_start.ms ≡ 0
    → week_start.day ≤ date.day
    → date.day ≤ week_start.day + 6
    → get_day_key_for_date date week_start ≡ some ((date.day % 7 + 7 - week_start.day % 7) % 7)
get_day_key_for_date-weekday date week_start midnight from to = ground (arith, midnight, from, to)
