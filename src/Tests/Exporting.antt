-- ===== src/Tests/Exporting.antt =====
-- Witnesses on exports.
use tms_api.Prelude.{◌≡◌, none, some, [], ◌∷◌, ◌++◌, List}
use tms_api.Reports.{aggregates_of}
use tms_api.Http.Reports.{ReportQuery, MonthlyQuery, Drawing}
use tms_api.Exports.Pdf.{generate_pdf}
use tms_api.Exports.Layout.{Placed, placed, side_by_side, IsLaidOut, generate_pdf-IsLaidOut}
use tms_api.Tests.Data.{runtime}
use tms_api.Tests.Reporting.{doe}

abbrev drawing : Drawing
drawing = record { row_count = λ calls. 2; y_after = λ calls. 200 }

abbrev query : ReportQuery
query = record {
  format = some "csv";
  date_from = some "thursday";
  date_to = some "next";
  user_id = none;
  status = none;
  project_id = none;
}

abbrev monthly_query : MonthlyQuery
monthly_query = record { user_id = some 1; year = some 2024; month = some 1 }

generate_pdf-IsLaidOut_example :
    (rest : List Placed) × (placed 0
        (generate_pdf runtime (λ calls. 200) (doe ∷ []) (aggregates_of []))
      ≡ side_by_side 0 200 "Employee" "Week Start" "Week End" "Total Hrs" "Billable Hrs" "Status"
        ++ rest)
    × IsLaidOut runtime 0 218 (doe ∷ []) rest
generate_pdf-IsLaidOut_example =
    generate_pdf-IsLaidOut runtime (λ calls. 200) (doe ∷ []) (aggregates_of [])
