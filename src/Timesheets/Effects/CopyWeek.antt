-- ===== src/Timesheets/Effects/CopyWeek.antt =====
-- The writes of `copyPreviousWeek`.
use mathlib.Core.List.{append-nil}
use tms_api.Prelude.{
  ℕ, ◌-◌, ◌≡◌, refl, String, Bool, true, false, not, ◌&&◌, Option, none, some, is_some, List, [],
  ◌∷◌, ◌++◌, map, keep, first, change, includes, length, arith, ◌==◌,
}
use tms_api.Dates.{Date, get_week_start}
use tms_api.Prisma.{in_memory, number_from, count_from, last_by}
use tms_api.Runtime.{Runtime}
use tms_api.Database.{
  Database, UserRole, employee, manager, admin, Timesheet, TimeEntry, OrgSettings, ProjectEmployee,
  org_setting, timesheet, time_entry, draft,
}
use tms_api.Database.Action.{pure}
use tms_api.Database.Constraints.{project_in}
use tms_api.Database.Triple.{
  After, After-seq, After-seq_then, After-find_first, After-find_last_by, After-find_many,
  After-or_throw, After-throw_if, After-when, After-pure, After-update, After-create,
  After-create_many, After-delete_many, After-transaction,
}
use tms_api.Team.Guards.{After-get_assigned_project_ids}
use tms_api.Timesheets.Sheets.{
  same_week, start_day, new_timesheet, reduce_hours, billable_only, is_draft,
}
use tms_api.Timesheets.CopyWeek.{
  copy_previous_week, entries_to_copy, save_copy, overwrite_draft, create_copy, write_entries,
  copy_entry, date_key, is_sent, is_sealed, forbids_copy,
}
use tms_api.Timesheets.Effects.Sheets.{with_sheets, add_sheet}
use tms_api.Timesheets.Effects.Entries.{entries_of}

-- The entries that are copied: for an employee, those of projects that are still assigned.
abbrev pub copied : ℕ → ℕ → UserRole → Database → List TimeEntry → List TimeEntry
copied user_id org_id employee db es =
    let assigned_ids =
      map (λ (r : ProjectEmployee). r.project_id)
        (keep (λ r. r.employee_id == user_id && project_in in_memory org_id db r.project_id)
          db.project_employees.rows) in
    keep (λ e. includes assigned_ids e.project_id) es
copied user_id org_id manager db es = es
copied user_id org_id admin db es = es

-- The database with copies of the entries appended under a timesheet.
abbrev pub written : ℕ → List TimeEntry → Database → Database
written id es db = record db {
  time_entries = record {
    rows = db.time_entries.rows ++ number_from db.time_entries.next_id (map (copy_entry id) es);
    next_id = count_from db.time_entries.next_id (map (copy_entry id) es);
  };
}

abbrev pub cleared : ℕ → Database → Database
cleared id db = record db {
  time_entries = record db.time_entries {
    rows = keep (λ e. not (e.timesheet_id == id)) db.time_entries.rows;
  };
}

abbrev pub copy_totals : List TimeEntry → Timesheet → Timesheet
copy_totals es t = record t {
  total_hours = reduce_hours 0 es;
  billable_hours = reduce_hours 0 (billable_only es);
}

abbrev pub overwritten : ℕ → List TimeEntry → Database → Database
overwritten id es db =
    with_sheets (written id es (cleared id db))
      (change (λ t. t.id == id) (copy_totals es) db.timesheets.rows)

abbrev pub copied_sheet : ℕ → ℕ → Date → List TimeEntry → Database → Timesheet
copied_sheet user_id org_id date es db =
    new_timesheet user_id org_id date (reduce_hours 0 es) (reduce_hours 0 (billable_only es))
      db.timesheets.next_id

module _ {I : Database → Type 0} {db : Database} where
  pub After-write_entries :
      {Q : Unit {0} → Database → Type 0} (id : ℕ) (es : List TimeEntry)
      → Q tt (written id es db)
      → After I Q (write_entries in_memory id es) db
  unfolding write_entries
  After-write_entries {Q} id [] h = After-when _ _ (λ e. cc) (λ _. rw append-nil at h)
  After-write_entries id (e ∷ es) h =
      After-when _ _ (λ _. After-create_many time_entry _ h) (λ e. cc)

  pub After-entries_to_copy :
      {Q : List TimeEntry → Database → Type 0} (user_id org_id : ℕ) (role : UserRole)
      (es : List TimeEntry)
      → Q (copied user_id org_id role db es) db
      → After I Q (entries_to_copy in_memory user_id org_id role es) db
  unfolding entries_to_copy
  After-entries_to_copy user_id org_id employee es h =
      After-seq _ _ (After-get_assigned_project_ids user_id org_id (After-pure _ h))
  After-entries_to_copy user_id org_id manager es h = After-pure _ h
  After-entries_to_copy user_id org_id admin es h = After-pure _ h

module _ {I : Database → Type 0} {db : Database} where
  pub After-overwrite_draft :
      {Q : Timesheet → Database → Type 0} (id : ℕ) (es : List TimeEntry)
      → I db
      → ((t : Timesheet) → Q (copy_totals es t) (overwritten id es db))
      → After I Q (overwrite_draft in_memory id es) db
  unfolding overwrite_draft
  After-overwrite_draft id es i h = After-transaction _ i (
      After-seq_then _ _ (
        After-delete_many time_entry _ (
          After-seq_then _ _
            (After-write_entries id es (After-update timesheet _ _ (λ _. tt) λ t _. h t)))))

  pub After-create_copy :
      {Q : Timesheet → Database → Type 0} (user_id org_id : ℕ) (date : Date) (es : List TimeEntry)
      → I db
      → (let t = copied_sheet user_id org_id date es db in Q t (written t.id es (add_sheet db t)))
      → After I Q (create_copy in_memory user_id org_id date es) db
  unfolding create_copy
  After-create_copy user_id org_id date es i h = After-transaction _ i (
      After-seq _ _
        (After-create timesheet _ (After-seq_then _ _ (After-write_entries _ es (After-pure _ h)))))

-- The entries to copy, from the last sent timesheet `previous`.
abbrev pub source : ℕ → ℕ → UserRole → Timesheet → Database → List TimeEntry
source user_id org_id role previous db =
    copied user_id org_id role db (entries_of previous.id db.time_entries.rows)

abbrev pub skipped : ℕ → ℕ → UserRole → Timesheet → Database → ℕ
skipped user_id org_id role previous db =
    length (entries_of previous.id db.time_entries.rows)
    - length (source user_id org_id role previous db)

-- `previous` is a last sent timesheet of the caller, and copying is allowed.
abbrev pub IsPrevious : ℕ → ℕ → Database → Timesheet → Type 0
IsPrevious user_id org_id db previous =
    (forbids_copy (first (λ s. s.organisation_id == org_id) db.org_settings.rows) ≡ false)
    × (last_by (λ t. date_key t.week_start_date)
          (λ t. t.user_id == user_id && (t.organisation_id == org_id && is_sent t.status))
          db.timesheets.rows
        ≡ some previous)

overwrites_draft :
    (t : Timesheet) (force : Bool)
    → (is_some (some t) && not force) ≡ false
    → (is_sealed (some t) && force) ≡ false
    → (t.status ≡ draft) × (force ≡ true)
overwrites_draft t force h k = ground arith

module _ {I : Database → Type 0} {db : Database} (rt : Runtime) (user_id org_id : ℕ)
    (role : UserRole) where
  -- The overwriting call, and the creating one.
  pub After-copy_previous_week :
      {Q : Timesheet × ℕ → Database → Type 0} (text : String) (force : Bool)
      → I db
      → ((previous existing t : Timesheet) (date : Date)
          → IsPrevious user_id org_id db previous
          → first (same_week user_id org_id date) db.timesheets.rows ≡ some existing
          → existing.status ≡ draft
          → force ≡ true
          → Q
              (
                copy_totals (source user_id org_id role previous db) t,
                skipped user_id org_id role previous db,
              )
              (overwritten existing.id (source user_id org_id role previous db) db))
      → ((previous : Timesheet) (input : Date)
          → let date =
              get_week_start input
                (start_day (first (λ s. s.organisation_id == org_id) db.org_settings.rows)) in
            rt.parse_date text ≡ some input
            → IsPrevious user_id org_id db previous
            → first (same_week user_id org_id date) db.timesheets.rows ≡ none
            → let es = source user_id org_id role previous db in
              let t = copied_sheet user_id org_id date es db in
              Q (t, skipped user_id org_id role previous db) (written t.id es (add_sheet db t)))
      → After I Q (copy_previous_week in_memory rt user_id org_id text role force) db
  unfolding copy_previous_week save_copy
  After-copy_previous_week {Q} text force i over fresh = After-find_first org_setting _ _ (
      After-throw_if _ _ _ (λ _. i)
        λ allowed. After-find_last_by timesheet _ _ _ (
          After-or_throw _ _ _ (λ _. i)
            λ previous last. After-find_many time_entry _ _ (
              After-or_throw _ _ _ (λ _. i)
                λ input parsed. After-find_first timesheet _ _ (
                  After-throw_if _ _ _ (λ _. i)
                    λ no_conflict.
                      After-throw_if _ _ _ (λ _. i)
                        λ not_sealed. After-seq _ _ (
                          After-entries_to_copy user_id org_id role _ (
                            After-seq _ _ (
                              saved previous input parsed (allowed, last) _ refl no_conflict
                                not_sealed)))))))
    where
      settings : Option OrgSettings
      settings = first (λ s. s.organisation_id == org_id) db.org_settings.rows

      saved :
          (previous : Timesheet) (input : Date)
          → rt.parse_date text ≡ some input
          → IsPrevious user_id org_id db previous
          → (found : Option Timesheet)
          → first
              (same_week user_id org_id (get_week_start input (start_day settings)))
              db.timesheets.rows
            ≡ found
          → (is_some found && not force) ≡ false
          → (is_sealed found && force) ≡ false
          → After I
              (λ t. After I Q (pure (t, skipped user_id org_id role previous db)))
              (save_copy in_memory user_id org_id
                (get_week_start input (start_day settings))
                found
                (source user_id org_id role previous db))
              db
      saved previous input parsed prev none e c k =
          After-create_copy user_id org_id _ _ i (After-pure _ (fresh previous input parsed prev e))
      saved previous input parsed prev (some t) e c k =
          let (is_draft, forced) = overwrites_draft t force c k in
          After-overwrite_draft t.id _ i
            λ r. After-pure _ (over previous t r _ prev e is_draft forced)
