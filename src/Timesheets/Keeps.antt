-- ===== src/Timesheets/Keeps.antt =====
-- What the operations on timesheets and their entries keep, for a relation that does not mention the
-- tables they write.
use tms_api.Prelude.{ℕ, String, Bool, Option, none, some, List, [], ◌∷◌}
use tms_api.Prisma.{in_memory}
use tms_api.Runtime.{Runtime}
use tms_api.Dates.{Date}
use tms_api.Database.{
  Database, UserRole, employee, manager, admin, Timesheet, TimeEntry, timesheet, time_entry,
  project, notification, TimesheetStatus,
}
use tms_api.Database.Constraints.{delete_timesheet_row}
use tms_api.Database.Keeps.{
  Keeps, IsOutside, Keeps-pure, Keeps-or_throw, Keeps-transaction, Keeps-bind, Keeps-then,
  Keeps-throw_if, Keeps-when, Keeps-current, Keeps-find_first, Keeps-find_last_by, Keeps-find_many,
  Keeps-create, Keeps-create_many, Keeps-update, Keeps-delete, Keeps-delete_many,
}
use tms_api.Team.{get_assigned_project_ids, assert_is_direct_report}
use tms_api.Timesheets.Sheets.{
  given_date, recalculate_timesheet_totals, delete_timesheet, submit_timesheet, create_timesheet,
  update_timesheet,
}
use tms_api.Timesheets.CopyWeek.{
  entries_to_copy, write_entries, overwrite_draft, create_copy, save_copy, copy_previous_week,
}
use tms_api.Timesheets.Entries.{
  CreateEntryDto, UpdateEntryDto, assert_assigned, open_timesheet, update_entry, delete_entry,
  create_entry,
}
use tms_api.Approvals.{
  submitted_timesheet, add_used_hours, notify, approve_timesheet, reject_timesheet,
}

pub record SheetOutside (R : Database → Database → Type 0) : Type 0 where
  pub sheets : IsOutside R timesheet
  pub entries : IsOutside R time_entry
  pub used_hours : IsOutside R project
  pub notifications : IsOutside R notification

module _ {R : Database → Database → Type 0} (outs : SheetOutside R) where
  Keeps-recalculate : (id : ℕ) → Keeps R (recalculate_timesheet_totals in_memory id)
  unfolding recalculate_timesheet_totals
  Keeps-recalculate id =
      Keeps-bind _ _ (Keeps-find_many _ _)
        λ es. Keeps-then _ _ (Keeps-update _ outs.sheets _ _) (Keeps-pure tt)

  pub Keeps-delete_timesheet :
      (id user_id org_id : ℕ) → Keeps R (delete_timesheet in_memory id user_id org_id)
  unfolding delete_timesheet delete_timesheet_row
  Keeps-delete_timesheet id user_id org_id = Keeps-bind _ _ (Keeps-find_first _ _) λ found.
      Keeps-bind _ _ (Keeps-or_throw _ _) λ t.
        Keeps-then _ _ (Keeps-throw_if _ _)
          (Keeps-then _ _ (Keeps-delete _ outs.sheets _) (Keeps-delete_many _ outs.entries _))

  pub Keeps-submit_timesheet :
      (id user_id org_id : ℕ) → Keeps R (submit_timesheet in_memory id user_id org_id)
  unfolding submit_timesheet
  Keeps-submit_timesheet id user_id org_id = Keeps-bind _ _ (Keeps-find_first _ _) λ found.
      Keeps-bind _ _ (Keeps-or_throw _ _)
        λ t. Keeps-then _ _ (Keeps-throw_if _ _) (Keeps-update _ outs.sheets _ _)

  Keeps-assert_assigned :
      (role : UserRole) (project_id user_id : ℕ)
      → Keeps R (assert_assigned in_memory role project_id user_id)
  unfolding assert_assigned
  Keeps-assert_assigned role project_id user_id = Keeps-when _ _ (
      Keeps-bind _ _ (Keeps-find_first _ _)
        λ found. Keeps-then _ _ (Keeps-or_throw _ _) (Keeps-pure tt))

  Keeps-open_timesheet :
      (id user_id org_id : ℕ) → Keeps R (open_timesheet in_memory id user_id org_id)
  unfolding open_timesheet
  Keeps-open_timesheet id user_id org_id = Keeps-bind _ _ (Keeps-find_first _ _) λ found.
      Keeps-bind _ _ (Keeps-or_throw _ _) λ t. Keeps-then _ _ (Keeps-throw_if _ _) (Keeps-pure t)

  pub Keeps-update_entry :
      (id eid user_id org_id : ℕ) (dto : UpdateEntryDto) (role : UserRole)
      → Keeps R (update_entry in_memory id eid user_id org_id dto role)
  unfolding update_entry
  Keeps-update_entry id eid user_id org_id dto role =
      Keeps-then _ _ (Keeps-open_timesheet id user_id org_id) (
        Keeps-bind _ _ (Keeps-find_first _ _) λ found. Keeps-bind _ _ (Keeps-or_throw _ _) λ e.
          Keeps-then _ _ (Keeps-when _ _ (Keeps-assert_assigned role _ user_id)) (
            Keeps-bind _ _ Keeps-current λ db. Keeps-then _ _ (Keeps-throw_if _ _) (
              Keeps-bind _ _ (Keeps-update _ outs.entries _ _)
                λ updated. Keeps-then _ _ (Keeps-recalculate id) (Keeps-pure updated))))

  pub Keeps-delete_entry :
      (id eid user_id org_id : ℕ) → Keeps R (delete_entry in_memory id eid user_id org_id)
  unfolding delete_entry
  Keeps-delete_entry id eid user_id org_id =
      Keeps-then _ _ (Keeps-open_timesheet id user_id org_id) (
        Keeps-bind _ _ (Keeps-find_first _ _) λ found.
          Keeps-then _ _ (Keeps-or_throw _ _)
            (Keeps-then _ _ (Keeps-delete _ outs.entries _) (Keeps-recalculate id)))

  Keeps-add_used_hours : (es : List TimeEntry) → Keeps R (add_used_hours in_memory es)
  unfolding add_used_hours
  Keeps-add_used_hours [] = Keeps-pure tt
  Keeps-add_used_hours (e ∷ es) =
      Keeps-then _ _ (Keeps-update _ outs.used_hours _ _) (Keeps-add_used_hours es)

  Keeps-notify :
      (user_id : ℕ) (type message : String) → Keeps R (notify in_memory user_id type message)
  unfolding notify
  Keeps-notify user_id type message =
      Keeps-then _ _ (Keeps-create _ outs.notifications _) (Keeps-pure tt)

  Keeps-submitted_timesheet :
      (text : String) (target : TimesheetStatus) (id user_id org_id : ℕ) (role : UserRole)
      → Keeps R (submitted_timesheet in_memory text target id user_id org_id role)
  unfolding submitted_timesheet assert_is_direct_report
  Keeps-submitted_timesheet text target id user_id org_id role =
      Keeps-bind _ _ (Keeps-find_first _ _) λ found. Keeps-bind _ _ (Keeps-or_throw _ _) λ t.
        Keeps-then _ _ (Keeps-throw_if _ _) (
          Keeps-then _ _
            (Keeps-when _ _ (
              Keeps-bind _ _ Keeps-current λ db.
                Keeps-bind _ _ (Keeps-find_first _ _)
                  λ a. Keeps-then _ _ (Keeps-or_throw _ _) (Keeps-pure tt)))
            (Keeps-then _ _ (Keeps-throw_if _ _) (Keeps-pure t)))

  Keeps-entries_to_copy :
      (user_id org_id : ℕ) (role : UserRole) (es : List TimeEntry)
      → Keeps R (entries_to_copy in_memory user_id org_id role es)
  unfolding entries_to_copy get_assigned_project_ids
  Keeps-entries_to_copy user_id org_id employee es =
      Keeps-bind _ _
        (Keeps-bind _ _ Keeps-current
          λ db. Keeps-bind _ _ (Keeps-find_many _ _) λ rows. Keeps-pure _)
        λ ids. Keeps-pure _
  Keeps-entries_to_copy user_id org_id manager es = Keeps-pure es
  Keeps-entries_to_copy user_id org_id admin es = Keeps-pure es

  Keeps-write_entries : (id : ℕ) (es : List TimeEntry) → Keeps R (write_entries in_memory id es)
  unfolding write_entries
  Keeps-write_entries id es = Keeps-when _ _ (Keeps-create_many _ outs.entries _)

  Keeps-save_copy :
      (user_id org_id : ℕ) (week : Date) (existing : Option Timesheet) (es : List TimeEntry)
      → Keeps R (save_copy in_memory user_id org_id week existing es)
  unfolding save_copy overwrite_draft create_copy
  Keeps-save_copy user_id org_id week none es = Keeps-transaction _ (
      Keeps-bind _ _ (Keeps-create _ outs.sheets _)
        λ t. Keeps-then _ _ (Keeps-write_entries t.id es) (Keeps-pure t))
  Keeps-save_copy user_id org_id week (some old) es = Keeps-transaction _ (
      Keeps-then _ _ (Keeps-delete_many _ outs.entries _)
        (Keeps-then _ _ (Keeps-write_entries old.id es) (Keeps-update _ outs.sheets _ _)))

  module _ (rt : Runtime) where
    pub Keeps-create_timesheet :
        (user_id org_id : ℕ) (text : String)
        → Keeps R (create_timesheet in_memory rt user_id org_id text)
    unfolding create_timesheet
    Keeps-create_timesheet user_id org_id text = Keeps-bind _ _ (Keeps-find_first _ _) λ settings.
        Keeps-bind _ _ (Keeps-or_throw _ _) λ date. Keeps-then _ _ (Keeps-throw_if _ _) (
          Keeps-bind _ _ (Keeps-find_first _ _)
            λ existing. Keeps-then _ _ (Keeps-throw_if _ _) (Keeps-create _ outs.sheets _))

    Keeps-given_date : (text : Option String) → Keeps R (given_date rt text)
    Keeps-given_date none = Keeps-pure none
    Keeps-given_date (some text) = Keeps-bind _ _ (Keeps-or_throw _ _) λ date. Keeps-pure _

    pub Keeps-update_timesheet :
        (id user_id org_id : ℕ) (text : Option String)
        → Keeps R (update_timesheet in_memory rt id user_id org_id text)
    unfolding update_timesheet
    Keeps-update_timesheet id user_id org_id text = Keeps-bind _ _ (Keeps-find_first _ _) λ found.
        Keeps-bind _ _ (Keeps-or_throw _ _) λ t.
          Keeps-then _ _ (Keeps-throw_if _ _)
            (Keeps-bind _ _ (Keeps-given_date text) λ date. Keeps-update _ outs.sheets _ _)

    pub Keeps-copy_previous_week :
        (user_id org_id : ℕ) (text : String) (role : UserRole) (force : Bool)
        → Keeps R (copy_previous_week in_memory rt user_id org_id text role force)
    unfolding copy_previous_week
    Keeps-copy_previous_week user_id org_id text role force =
        Keeps-bind _ _ (Keeps-find_first _ _) λ settings. Keeps-then _ _ (Keeps-throw_if _ _) (
          Keeps-bind _ _ (Keeps-find_last_by _ _ _) λ found.
            Keeps-bind _ _ (Keeps-or_throw _ _) λ old. Keeps-bind _ _ (Keeps-find_many _ _) λ es.
              Keeps-bind _ _ (Keeps-or_throw _ _) λ date.
                Keeps-bind _ _ (Keeps-find_first _ _) λ existing.
                  Keeps-then _ _ (Keeps-throw_if _ _) (
                    Keeps-then _ _ (Keeps-throw_if _ _) (
                      Keeps-bind _ _ (Keeps-entries_to_copy user_id org_id role es) λ taken.
                        Keeps-bind _ _ (Keeps-save_copy user_id org_id _ existing taken)
                          λ t. Keeps-pure _)))

    pub Keeps-create_entry :
        (id user_id org_id : ℕ) (dto : CreateEntryDto) (role : UserRole)
        → Keeps R (create_entry in_memory rt id user_id org_id dto role)
    unfolding create_entry
    Keeps-create_entry id user_id org_id dto role =
        Keeps-then _ _ (Keeps-open_timesheet id user_id org_id) (
          Keeps-bind _ _ (Keeps-find_first _ _) λ settings. Keeps-then _ _ (Keeps-throw_if _ _) (
            Keeps-bind _ _ (Keeps-find_first _ _) λ found. Keeps-then _ _ (Keeps-or_throw _ _) (
              Keeps-then _ _ (Keeps-assert_assigned role dto.project_id user_id) (
                Keeps-then _ _ (Keeps-throw_if _ _) (
                  Keeps-bind _ _ (Keeps-create _ outs.entries _)
                    λ e. Keeps-then _ _ (Keeps-recalculate id) (Keeps-pure e))))))

    pub Keeps-approve_timesheet :
        (id user_id org_id : ℕ) (role : UserRole)
        → Keeps R (approve_timesheet in_memory rt id user_id org_id role)
    unfolding approve_timesheet
    Keeps-approve_timesheet id user_id org_id role =
        Keeps-bind _ _ (Keeps-submitted_timesheet _ _ id user_id org_id role) λ t.
          Keeps-bind _ _ (Keeps-update _ outs.sheets _ _) λ done.
            Keeps-bind _ _ (Keeps-find_many _ _) λ es.
              Keeps-then _ _ (Keeps-add_used_hours es)
                (Keeps-then _ _ (Keeps-notify t.user_id _ _) (Keeps-pure done))

    pub Keeps-reject_timesheet :
        (id user_id org_id : ℕ) (reason : String) (role : UserRole)
        → Keeps R (reject_timesheet in_memory rt id user_id org_id reason role)
    unfolding reject_timesheet
    Keeps-reject_timesheet id user_id org_id reason role =
        Keeps-bind _ _ (Keeps-submitted_timesheet _ _ id user_id org_id role) λ t.
          Keeps-then _ _ (Keeps-throw_if _ _) (
            Keeps-bind _ _ (Keeps-update _ outs.sheets _ _) λ done.
              Keeps-then _ _ (Keeps-throw_if _ _)
                (Keeps-then _ _ (Keeps-notify t.user_id _ _) (Keeps-pure done)))
