-- ===== src/Tests/Reporting.antt =====
-- Witnesses on reports.
use tms_api.Prelude.{arith, ◌≡◌, refl, false, true, none, some, [], ◌∷◌, map, keep}
use tms_api.Prisma.{in_memory, in_memory-IsLawful}
use tms_api.Database.{manager, submitted}
use tms_api.Database.Triple.{After}
use tms_api.Reports.{ReportFilters, aggregates_of, given, generate_report}
use tms_api.Reports.Scope.{may_see, is_permitted, is_reported, generate_report-is_reported}
use tms_api.Reports.Totals.{AddsUp, generate_report-AddsUp}
use tms_api.Exports.{TimesheetRow, headers, generate_csv}
use tms_api.Exports.Reader.{read, start}
use tms_api.Exports.Contents.{IsPlainRuntime, row_values, summary_values, read-generate_csv}
use tms_api.Reports.Monthly.{Calendar, get_day_key_for_date}
use tms_api.Reports.Monthly.Columns.{get_day_key_for_date-weekday}
use tms_api.Tests.Data.{date, runtime, filled, filled-IsSound}

abbrev filters : ReportFilters
filters = record {
  date_from = "thursday";
  date_to = "next";
  user_id = some 1;
  status = some submitted;
  project_id = none;
}

generate_report-is_reported_example :
    After
      (λ new.
        (new ≡ filled submitted)
        × (is_permitted (given (some 1)) (may_see (filled submitted) 1 2 manager) ≡ false))
      (λ r new.
        (new ≡ filled submitted)
        × (is_permitted (given (some 1)) (may_see (filled submitted) 1 2 manager) ≡ true)
        × (map (λ p. p.0) r.timesheets
            ≡ keep
                (is_reported (filled submitted) 1 (date 703) (date 710) filters 2 manager)
                (filled submitted).timesheets.rows)
        × (r.aggregates ≡ aggregates_of (map (λ p. p.0) r.timesheets)))
      (generate_report in_memory runtime 1 filters 2 manager)
      (filled submitted)
generate_report-is_reported_example =
    generate_report-is_reported in_memory runtime in_memory-IsLawful 1 filters 2 manager
      (filled submitted) (date 703) (date 710) refl refl

generate_report-AddsUp_example :
    After
      (λ new. new ≡ filled submitted)
      (λ r _. AddsUp r)
      (generate_report in_memory runtime 1 filters 2 manager)
      (filled submitted)
generate_report-AddsUp_example =
    generate_report-AddsUp in_memory runtime in_memory-IsLawful 1 filters 2 manager
      (filled submitted) (filled-IsSound submitted)

pub runtime-IsPlainRuntime : IsPlainRuntime runtime
runtime-IsPlainRuntime = record { dates = λ d. refl; hours = λ n. refl; numbers = λ n. refl }

abbrev pub doe : TimesheetRow
doe = record {
  name = some "Doe, \"Jo\"";
  email = some "a@b";
  department = none;
  week_start_date = date 700;
  week_end_date = date 706;
  total_hours = 480;
  billable_hours = 480;
  status = "SUBMITTED";
}

read-generate_csv_example :
    read start (generate_csv runtime (doe ∷ []) (aggregates_of []))
    ≡ some (headers ∷ row_values runtime doe ∷ summary_values runtime (aggregates_of []))
read-generate_csv_example =
    read-generate_csv runtime runtime-IsPlainRuntime (doe ∷ []) (aggregates_of []) (refl, tt)

-- January of a year whose first day is day 700.
abbrev pub calendar : Calendar
calendar = record {
  first_day = λ year month. 700;
  days_in = λ year month. 31;
  year_of = λ d. 2024;
  month_of = λ d. 1;
  day_of = λ d. 1;
  to_lower = λ text. text;
  show = λ n. "1";
}

get_day_key_for_date-weekday_example : get_day_key_for_date (date 703) (date 699) ≡ some 4
get_day_key_for_date-weekday_example =
    get_day_key_for_date-weekday (date 703) (date 699) refl (omega arith) (omega arith)
