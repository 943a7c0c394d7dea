-- ===== src/Tests/Witnesses.antt =====
-- The theorems at work on the test data.
use tms_api.Prelude.{◌≡◌, refl, some, first, ◌==◌, arith, ◌≤◌, ◌↔◌}
use tms_api.Prisma.{in_memory, in_memory-IsLawful}
use tms_api.Dates.{get_week_start, get_week_end, get_day}
use tms_api.Dates.Week
use tms_api.Database.{Timesheet, submitted, approved}
use tms_api.Timesheets.Effects.Entries.{entries_of}
use tms_api.Service.{serve, handle, approve}
use tms_api.Service.Invariant.{IsSound}
use tms_api.Service.Totals
use tms_api.Service.Evolution.{EvolvesIn}
use tms_api.Service.Lifecycle
use tms_api.Database.{draft, manager}
use tms_api.Database.Triple.{After}
use tms_api.Approvals.{approve_timesheet}
use tms_api.Approvals.Returns.{Returns}
use tms_api.Projects.{delete_project}
use tms_api.Projects.Deletion.{delete_project-IsSound}
use tms_api.Prelude.{includes, false}
use tms_api.Database.Action.{ok}
use tms_api.Team.{get_direct_report_ids, assert_is_direct_report}
use tms_api.Team.Guards.{reports_of}
use tms_api.Team.Agreement.{is_ok, assert_is_direct_report-reports_of}
use tms_api.Timesheets.CopyWeek.{copy_previous_week}
use tms_api.Service.Copying.{IsCopied, copy_previous_week-IsCopied}
use tms_api.Organisation.{mark_all_as_read}
use tms_api.Organisation.Notifications.{IsRead, mark_all_as_read-IsRead}
use tms_api.Tests.Data.{noted}
use tms_api.Timesheets.Sheets.{submit_timesheet}
use tms_api.Timesheets.Effects.Sheets.{submit_row}
use tms_api.Timesheets.Submission.{Reads, submit_timesheet-returns}
use tms_api.Approvals.Credit
use tms_api.Approvals.Credit.{IsApproved}
use tms_api.Prelude.{[], ◌∷◌}
use tms_api.Timesheets.Entries.{create_entry}
use tms_api.Timesheets.Limits
use tms_api.Timesheets.Limits.{IsCreated}
use tms_api.Team.{assign_managers}
use tms_api.Team.Assignment
use tms_api.Team.Assignment.{IsAssigned}
use tms_api.Service.{create}
use tms_api.Service.OnePerWeek
use tms_api.Service.OnePerWeek.{OnePerWeek as IsOnePerWeek}
use tms_api.Database.{employee}
use tms_api.Tests.Data.{new_hours, worker}
use tms_api.Tests.Data.{
  date, runtime, database, filled, sheet, database-IsSound, filled-IsSound, boss, history,
}

serve-IsSound_example : IsSound (serve in_memory runtime history database)
serve-IsSound_example =
    Totals.serve-IsSound in_memory runtime in_memory-IsLawful history database database-IsSound

handle-Evolves_example :
    EvolvesIn 2 1
      (sheet submitted)
      1
      (entries_of 1 (filled submitted).time_entries.rows)
      (handle in_memory runtime boss (approve 1) (filled submitted)).1
handle-Evolves_example =
    Lifecycle.handle-Evolves in_memory runtime in_memory-IsLawful boss (approve 1)
      (filled submitted) (filled-IsSound submitted) 1 (sheet submitted) refl

serve-approved_example :
    let after = serve in_memory runtime history (filled approved) in
    (first (λ (s : Timesheet). s.id == 1) after.timesheets.rows ≡ some (sheet approved))
    × (entries_of 1 after.time_entries.rows ≡ entries_of 1 (filled approved).time_entries.rows)
serve-approved_example =
    Lifecycle.serve-approved in_memory runtime in_memory-IsLawful history (filled approved)
      (filled-IsSound approved) 1 (sheet approved) refl refl

get_week_start-covers_example :
    let s = get_week_start (date 703) "monday" in
    (get_day s ≡ Week.first_day "monday")
    × (s.ms ≡ 0)
    × (s.day ≤ 703)
    × (703 ≤ (get_week_end s).day)
get_week_start-covers_example = Week.get_week_start-covers (date 703) "monday" (omega arith)

get_week_start-eq_iff_example :
    let s = get_week_start (date 703) "monday" in
    (get_week_start (date 706) "monday" ≡ s) ↔ ((s.day ≤ 706) × (706 ≤ (get_week_end s).day))
get_week_start-eq_iff_example =
    Week.get_week_start-eq_iff (date 703) (date 706) "monday" (omega arith) (omega arith)

approve_timesheet-IsApproved_example :
    After
      (λ new. new ≡ filled submitted)
      (λ _ new. IsApproved runtime 1 2 1 manager (filled submitted) new)
      (approve_timesheet in_memory runtime 1 2 1 manager)
      (filled submitted)
approve_timesheet-IsApproved_example =
    Credit.approve_timesheet-IsApproved in_memory runtime in_memory-IsLawful 1 2 1 manager
      (filled submitted) (filled-IsSound submitted).sheet_keys (filled-IsSound submitted).linked

handle-OnePerWeek_example :
    IsOnePerWeek
      (handle in_memory runtime worker (create "thursday") (filled draft)).1.timesheets.rows
handle-OnePerWeek_example =
    OnePerWeek.handle-OnePerWeek in_memory runtime in_memory-IsLawful worker (create "thursday")
      (filled draft) (filled-IsSound draft) refl (tt, tt)

create_entry-IsCreated_example :
    After
      (λ new. new ≡ filled draft)
      (λ e new. IsCreated 1 1 1 new_hours employee (filled draft) new e)
      (create_entry in_memory runtime 1 1 1 new_hours employee)
      (filled draft)
create_entry-IsCreated_example =
    Limits.create_entry-IsCreated in_memory runtime in_memory-IsLawful 1 1 1 new_hours employee
      (filled draft) (filled-IsSound draft).sheet_keys

assign_managers-IsAssigned_example :
    After
      (λ new. new ≡ database)
      (λ _ new. IsAssigned 1 1 (2 ∷ []) database new)
      (assign_managers in_memory runtime 1 (2 ∷ []) 1)
      database
assign_managers-IsAssigned_example =
    Assignment.assign_managers-IsAssigned in_memory runtime in_memory-IsLawful 1 (2 ∷ []) 1 database

delete_project-IsSound_example : IsSound (delete_project in_memory 1 1 (filled submitted)).1
delete_project-IsSound_example =
    delete_project-IsSound in_memory in_memory-IsLawful 1 1 (filled submitted)
      (filled-IsSound submitted)

assert_is_direct_report-reports_of_example :
    (get_direct_report_ids in_memory 2 1 database ≡ (ok (reports_of 2 1 database), database))
    × (is_ok (assert_is_direct_report in_memory 2 1 1 database).0
        ≡ includes (reports_of 2 1 database) 1)
    × ((assert_is_direct_report in_memory 2 1 1 database).1 ≡ database)
assert_is_direct_report-reports_of_example =
    assert_is_direct_report-reports_of in_memory in_memory-IsLawful 2 1 1 database

copy_previous_week-IsCopied_example :
    After
      (λ new. new ≡ filled approved)
      (λ r new. IsCopied 1 1 employee false (filled approved) new r.1)
      (copy_previous_week in_memory runtime 1 1 "next" employee false)
      (filled approved)
copy_previous_week-IsCopied_example =
    copy_previous_week-IsCopied in_memory runtime in_memory-IsLawful 1 1 "next" employee false
      (filled approved) (filled-IsSound approved)

mark_all_as_read-IsRead_example : IsRead 1 noted (mark_all_as_read in_memory 1 noted).1
mark_all_as_read-IsRead_example = mark_all_as_read-IsRead in_memory in_memory-IsLawful 1 noted

submit_timesheet-returns_example :
    After
      (λ _. ⊥)
      (λ _ new.
        (first (λ s. s.id == 1) new.timesheets.rows ≡ some (submit_row (sheet draft) (sheet draft)))
        × Reads in_memory (λ es. es) 1 1 1 (submit_row (sheet draft) (sheet draft)) new)
      (submit_timesheet in_memory 1 1 1)
      (filled draft)
submit_timesheet-returns_example =
    submit_timesheet-returns in_memory in_memory-IsLawful (λ es. es) 1 1 1 (filled draft)
      (sheet draft) (filled-IsSound draft).sheet_keys refl refl
