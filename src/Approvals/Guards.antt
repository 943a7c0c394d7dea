-- ===== src/Approvals/Guards.antt =====
-- What the guards of the approvals service let through.
use mathlib.Core.Bool.{false≢true}
use tms_api.Prelude.{
  sym, ◌∙◌, ℕ, ◌≡◌, ◌≢◌, true, false, not, ◌&&◌, String, some, first, arith, ◌==◌,
}
use tms_api.Prisma.{in_memory}
use tms_api.Database.{
  Database, UserRole, TimesheetStatus, submitted, Timesheet, ManagerEmployee, timesheet,
}
use tms_api.Database.Triple.{
  After, After-find_first, After-or_throw, After-throw_if, After-when, After-pure, After-seq_then,
}
use tms_api.Team.Guards.{reports_to, After-assert_is_direct_report}
use tms_api.Errors.{invalid_transition_error}
use tms_api.Timesheets.Sheets.{is_submitted, status_text}
use tms_api.Approvals.{submitted_timesheet, is_manager}

-- What is known of a timesheet that has passed the guards.
pub record IsReviewable (timesheet_id approver org_id : ℕ) (role : UserRole) (db : Database)
    (t : Timesheet) : Type 0 where
  pub found :
      first (λ s. s.id == timesheet_id && s.organisation_id == org_id) db.timesheets.rows ≡ some t
  pub not_own : t.user_id ≢ approver
  pub reports :
      is_manager role ≡ true
      → (a : ManagerEmployee) × (first
            (reports_to approver t.user_id org_id db)
            db.manager_employees.rows
          ≡ some a)
  pub is_sent : t.status ≡ submitted

submitted_status :
    (status : TimesheetStatus) → not (is_submitted status) ≡ false → status ≡ submitted
submitted_status status h = ground arith

pub After-submitted_timesheet :
    {I : Database → Type 0} {db : Database} {Q : Timesheet → Database → Type 0} (message : String)
    (target : TimesheetStatus) (timesheet_id approver org_id : ℕ) (role : UserRole)
    → I db
    → ((t : Timesheet) → IsReviewable timesheet_id approver org_id role db t → Q t db)
    → After I Q (submitted_timesheet in_memory message target timesheet_id approver org_id role) db
unfolding submitted_timesheet
After-submitted_timesheet {I} {db} {Q} message target timesheet_id approver org_id role i h =
    After-find_first timesheet _ _ (
      After-or_throw _ _ _ (λ _. i)
        λ t found.
          After-throw_if _ _ _ (λ _. i)
            λ other.
              let ends =
                λ (reports : is_manager role ≡ true
                    → (a : ManagerEmployee) × (first (reports_to approver t.user_id org_id db)
                          db.manager_employees.rows
                        ≡ some a)).
                  After-throw_if _
                    (invalid_transition_error (status_text t.status) (status_text target)) _
                    (λ _. i)
                    λ sent. After-pure {I = I} {R = Q} t (
                      h t (record {
                        found = found;
                        not_own = ground (arith, other);
                        reports = reports;
                        is_sent = submitted_status t.status sent;
                      })) in
              After-seq_then _ _ (
                After-when _ _
                  (λ yes_manager.
                    After-assert_is_direct_report approver t.user_id org_id i
                      λ a e. ends (λ _. (a, e)))
                  (λ no_manager.
                    ends (λ yes_manager. absurd (false≢true (sym no_manager ∙ yes_manager))))))
