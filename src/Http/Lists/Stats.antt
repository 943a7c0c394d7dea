-- ===== src/Http/Lists/Stats.antt =====
-- `getApprovalStats` of src/services/approvals.service.ts agrees with the list of approvals.
use text.Mathlib.Text.{◌==◌ as str_eq}
use tms_api.Prelude.{
  ℕ, ◌≡◌, refl, sym, ap, Bool, true, ◌&&◌, ◌||◌, List, keep, map, sum, includes, length, ◌==◌, inl,
  inr, Bool-cases,
}
use tms_api.Prisma.{Client, IsLawful, in_memory, in_memory-eq}
use tms_api.Runtime.{Runtime}
use tms_api.Database.{
  Database, UserRole, employee, manager, admin, Timesheet, ManagerEmployee, user, timesheet,
  manager_employee,
}
use tms_api.Database.Triple.{
  After, After-seq, After-pure, After-find_many, After-count, After-current, After-weaken,
}
use tms_api.Dates.{Date, get_day, get_week_start}
use tms_api.Database.Constraints.{user_in}
use tms_api.Pages.{IsPaged, page_of, limit_of}
use tms_api.Timesheets.Sheets.{is_submitted}
use tms_api.Team.Guards.{reports_of}
use tms_api.Users.Scope.{After-reports}
use tms_api.Approvals.{
  ApprovalStats, is_approved, is_since, this_monday, build_team_filter, count_members,
  get_approval_stats,
}
use tms_api.Reports.Totals.{length-map}
use tms_api.Service.{JwtPayload}
use tms_api.Http.Lists.{list_approvals_handler, is_pending, is_reviewed, pending-IsPageOf}

-- An admin counts the active users of the organisation, another user the direct reports.
abbrev pub members_of : Database → ℕ → ℕ → UserRole → ℕ
members_of db org_id user_id admin =
    length (keep (λ u. u.organisation_id == org_id && str_eq u.status "active") db.users.rows)
members_of db org_id user_id _ = length (reports_of user_id org_id db)

-- The numbers of the approvals page.
pub record IsCounted (org_id user_id : ℕ) (role : UserRole) (rt : Runtime) (db : Database)
    (s : ApprovalStats) : Type 0 where
  pub this_week :
      s.approved_this_week
      ≡ length (
          keep
            (λ t.
              t.organisation_id == org_id
              && (is_approved t.status
                  && (is_since (get_week_start rt.now "monday") t.approved_at
                      && is_reviewed db org_id user_id role t)))
            db.timesheets.rows)
  pub hours :
      s.team_hours
      ≡ sum (
          map
            (λ t. t.total_hours)
            (keep
              (λ t.
                t.organisation_id == org_id
                && ((is_submitted t.status || is_approved t.status)
                    && is_reviewed db org_id user_id role t))
              db.timesheets.rows))
  pub members : s.team_members ≡ members_of db org_id user_id role

monday : (now : Date) → this_monday now ≡ get_week_start now "monday"
unfolding get_week_start
monday now = elim (Bool-cases (get_day now == 0)) [ inl e ↦ rw e refl | inr e ↦ rw e refl ]

module _ (rt : Runtime) (org_id user_id : ℕ) (db : Database) where
  abbrev StatsOf : UserRole → ApprovalStats → Database → Type 0
  StatsOf role s new =
      (new ≡ db)
      × (s.pending_count ≡ length (keep (is_pending db org_id user_id role) db.timesheets.rows))
      × IsCounted org_id user_id role rt db s

  reports_number :
      length (reports_of user_id org_id db)
      ≡ length (
          keep
            (λ (a : ManagerEmployee).
              a.manager_id == user_id && user_in in_memory org_id db a.manager_id)
            db.manager_employees.rows)
  reports_number = length-map (λ (a : ManagerEmployee). a.employee_id) _

  this_week_number :
      (in_scope : Timesheet → Bool)
      → length (
          keep
            (λ t.
              t.organisation_id == org_id
              && (is_approved t.status
                  && (is_since (this_monday rt.now) t.approved_at && in_scope t)))
            db.timesheets.rows)
        ≡ length (
            keep
              (λ t.
                t.organisation_id == org_id
                && (is_approved t.status
                    && (is_since (get_week_start rt.now "monday") t.approved_at && in_scope t)))
              db.timesheets.rows)
  this_week_number in_scope =
      ap
        (λ start. length (
          keep
            (λ t.
              t.organisation_id == org_id
              && (is_approved t.status && (is_since start t.approved_at && in_scope t)))
            db.timesheets.rows))
        (monday rt.now)

  stats-IsCounted :
      (role : UserRole)
      → After (λ _. ⊥) (StatsOf role) (get_approval_stats in_memory rt org_id user_id role) db
  unfolding get_approval_stats build_team_filter count_members
  stats-IsCounted admin = After-seq _ _ (
      After-pure _ (
        After-current _ (
          After-count timesheet _ _ (
            After-count timesheet _ _ (
              After-find_many timesheet _ _ (
                After-count user _ _ (
                  After-pure _ (
                    refl,
                    refl,
                    record {
                      this_week = this_week_number (λ t. true);
                      hours = refl;
                      members = refl;
                    },
                  ))))))))
  stats-IsCounted manager = After-seq _ _ (
      After-seq _ _ (
        After-reports user_id org_id (
          After-pure _ (
            After-current _ (
              After-count timesheet _ _ (
                After-count timesheet _ _ (
                  After-find_many timesheet _ _ (
                    After-count manager_employee _ _ (
                      After-pure _ (
                        refl,
                        refl,
                        record {
                          this_week =
                              this_week_number
                                (λ t. includes (reports_of user_id org_id db) t.user_id);
                          hours = refl;
                          members = sym reports_number;
                        },
                      ))))))))))
  stats-IsCounted employee = After-seq _ _ (
      After-seq _ _ (
        After-reports user_id org_id (
          After-pure _ (
            After-current _ (
              After-count timesheet _ _ (
                After-count timesheet _ _ (
                  After-find_many timesheet _ _ (
                    After-count manager_employee _ _ (
                      After-pure _ (
                        refl,
                        refl,
                        record {
                          this_week =
                              this_week_number
                                (λ t. includes (reports_of user_id org_id db) t.user_id);
                          hours = refl;
                          members = sym reports_number;
                        },
                      ))))))))))

-- The numbers of the approvals page never fail and write nothing. The pending ones are as many as
-- the list of approvals says on each of its pages (where the query's page and limit are not refused), which hold the submitted timesheets that the caller
-- reviews: an admin those of the organisation, another user those of direct reports. Counted are
-- further those approved since Monday of this week, summed the hours of the submitted and approved
-- ones; and the team is the active users for an admin, the direct reports for another user.
pub get_approval_stats-IsPaged-IsCounted :
    (c : Client) (rt : Runtime)
    → IsLawful c
    → (who : JwtPayload) (sort : List Timesheet → List Timesheet) (db : Database)
    → After
        (λ _. ⊥)
        (λ s new.
          (new ≡ db)
          × IsPaged
              (list_approvals_handler c who sort)
              (sort (keep (is_pending db who.org_id who.user_id who.role) db.timesheets.rows))
              s.pending_count
              db
          × IsCounted who.org_id who.user_id who.role rt db s)
        (get_approval_stats c rt who.org_id who.user_id who.role)
        db
unfolding list_approvals_handler
get_approval_stats-IsPaged-IsCounted c rt lawful who sort db = rw (in_memory-eq lawful) (
    After-weaken
      (λ s new (same, number, counted). (
        same,
        (λ page limit. rw number (
            pending-IsPageOf who.org_id who.user_id db who.role sort (page_of page)
              (limit_of limit))),
        counted,
      ))
      (stats-IsCounted rt who.org_id who.user_id db who.role))
