-- ===== src/Approvals/Effects.antt =====
-- What approving and rejecting a timesheet write.
use tms_api.Prelude.{
  ℕ, suc, ◌+◌, ◌≡◌, refl, String, true, false, none, some, is_some, List, [], ◌∷◌, ◌++◌, All, first,
  change, arith, ◌==◌,
}
use tms_api.Dates.{Date}
use tms_api.Prisma.{in_memory}
use tms_api.Prisma.Rows.{is_some-first-change}
use tms_api.Prisma.Keys.{IsKeyed}
use tms_api.Runtime.{Runtime}
use tms_api.Database.{
  Database, UserRole, Timesheet, TimeEntry, Project, approved, rejected, timesheet, time_entry,
  project, notification,
}
use tms_api.Database.Triple.{
  After-throw_if, After, After-seq, After-seq_then, After-find_many, After-pure, After-update,
  After-create,
}
use tms_api.Timesheets.Effects.Sheets.{with_sheets}
use tms_api.Timesheets.Effects.Entries.{entries_of}
use tms_api.Approvals.{approve_timesheet, reject_timesheet, add_used_hours, notify}
use tms_api.Approvals.Guards.{IsReviewable, After-submitted_timesheet}

abbrev pub approve_row : ℕ → Date → Timesheet → Timesheet
approve_row approver now s = record s {
  status = approved;
  approved_by_id = some approver;
  approved_at = some now;
}

abbrev pub reject_row : String → Timesheet → Timesheet
reject_row reason s = record s { status = rejected; rejected_reason = some reason }

-- `usedHours: { increment: entry.totalHours }` on the entry's project.
abbrev pub credit_row : TimeEntry → Project → Project
credit_row e p = record p { used_hours = p.used_hours + e.total_hours }

abbrev pub credit : List TimeEntry → List Project → List Project
credit [] ps = ps
credit (e ∷ es) ps = credit es (change (λ p. p.id == e.project_id) (credit_row e) ps)

abbrev pub with_projects : Database → List Project → Database
with_projects db ps = record db { projects = record { rows = ps; next_id = db.projects.next_id } }

-- The database with one more notification.
abbrev pub notified : ℕ → String → String → Database → Database
notified user_id type message db = record db {
  notifications = record {
    rows =
        db.notifications.rows
        ++ record {
          id = db.notifications.next_id;
          user_id = user_id;
          type = type;
          message = message;
          read = false;
        }
          ∷ [];
    next_id = suc db.notifications.next_id;
  };
}

-- The foreign key of an entry: its project is in the table.
abbrev pub HasProject : List Project → TimeEntry → Type 0
HasProject ps e = is_some (first (λ (p : Project). p.id == e.project_id) ps) ≡ true

pub HasProject-credit :
    (e : TimeEntry) (ps : List Project) (es : List TimeEntry)
    → All (HasProject ps) es
    → All (HasProject (change (λ p. p.id == e.project_id) (credit_row e) ps)) es
HasProject-credit e ps [] h = tt
HasProject-credit e ps (x ∷ es) h = (
  rw (is_some-first-change (λ p. p.id) (credit_row e) (λ p. refl) x.project_id e.project_id ps) h.0,
  HasProject-credit e ps es h.1,
)

project_found :
    (k : ℕ) (ps : List Project) (P : Type 0)
    → is_some (first (λ (p : Project). p.id == k) ps) ≡ true
    → first (λ (p : Project). p.id == k) ps ≡ none
    → P
project_found k ps P h e = absurd (ground arith)

module _ {I : Database → Type 0} where
  pub After-add_used_hours :
      {Q : Unit {0} → Database → Type 0} (es : List TimeEntry) {db : Database}
      → All (HasProject db.projects.rows) es
      → Q tt (with_projects db (credit es db.projects.rows))
      → After I Q (add_used_hours in_memory es) db
  unfolding add_used_hours
  After-add_used_hours [] linked h = After-pure tt h
  After-add_used_hours (e ∷ es) {db} linked h = After-seq_then _ _ (
      After-update project _ _ (project_found e.project_id db.projects.rows _ linked.0)
        λ p _. After-add_used_hours es (HasProject-credit e db.projects.rows es linked.1) h)

  pub After-notify :
      {Q : Unit {0} → Database → Type 0} (user_id : ℕ) (type message : String) {db : Database}
      → Q tt (notified user_id type message db)
      → After I Q (notify in_memory user_id type message) db
  unfolding notify
  After-notify user_id type message {db} h =
      After-seq_then _ _ (After-create notification _ (After-pure tt h))

  module _ {db : Database} (keys : IsKeyed (λ (s : Timesheet). s.id) db.timesheets) where
    pub After-reject :
        {Q : Timesheet → Database → Type 0} (rt : Runtime) (timesheet_id approver org_id : ℕ)
        (reason : String) (role : UserRole)
        → I db
        → ((t : Timesheet)
            → IsReviewable timesheet_id approver org_id role db t
            → I (
                with_sheets db
                  (change (λ s. s.id == timesheet_id) (reject_row reason) db.timesheets.rows)))
        → ((t : Timesheet)
            → IsReviewable timesheet_id approver org_id role db t
            → (r : Timesheet) (type message : String)
            → Q (reject_row reason r) (
                notified t.user_id type message (
                  with_sheets db
                    (change (λ s. s.id == timesheet_id) (reject_row reason) db.timesheets.rows))))
        → After I Q (reject_timesheet in_memory rt timesheet_id approver org_id reason role) db
    unfolding reject_timesheet
    After-reject rt timesheet_id approver org_id reason role i unsent h = After-seq _ _ (
        After-submitted_timesheet _ _ timesheet_id approver org_id role i λ t ok.
          After-throw_if _ _ _ (λ _. i)
            λ _. After-seq _ _ (
              After-update timesheet _ _ (λ _. i)
                λ r _.
                  After-throw_if _ _ _ (λ _. unsent t ok)
                    λ _. After-seq_then _ _ (After-notify _ _ _ (After-pure _ (h t ok r _ _)))))

    pub After-approve :
        {Q : Timesheet → Database → Type 0} (rt : Runtime) (timesheet_id approver org_id : ℕ)
        (role : UserRole)
        → All (HasProject db.projects.rows) (entries_of timesheet_id db.time_entries.rows)
        → I db
        → ((t : Timesheet)
            → IsReviewable timesheet_id approver org_id role db t
            → (r : Timesheet) (type message : String)
            → Q (approve_row approver rt.now r) (
                notified t.user_id type message (
                  with_projects
                    (with_sheets db (
                      change
                        (λ s. s.id == timesheet_id)
                        (approve_row approver rt.now)
                        db.timesheets.rows))
                    (credit (entries_of timesheet_id db.time_entries.rows) db.projects.rows))))
        → After I Q (approve_timesheet in_memory rt timesheet_id approver org_id role) db
    unfolding approve_timesheet
    After-approve rt timesheet_id approver org_id role linked i h = After-seq _ _ (
        After-submitted_timesheet _ _ timesheet_id approver org_id role i λ t ok. After-seq _ _ (
          After-update timesheet _ _ (λ _. i)
            λ r _. After-find_many time_entry _ _ (
              After-seq_then _ _ (
                After-add_used_hours (entries_of timesheet_id db.time_entries.rows) linked
                  (After-seq_then _ _ (After-notify _ _ _ (After-pure _ (h t ok r _ _))))))))
