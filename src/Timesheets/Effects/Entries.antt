-- ===== src/Timesheets/Effects/Entries.antt =====
-- The writes of the time entry operations. Each ends by setting the totals of the timesheet.
use mathlib.Core.Bool.{false≢true}
use tms_api.Prelude.{
  ℕ, suc, ◌≡◌, sym, ◌∙◌, Bool, true, false, not, ◌&&◌, none, some, List, [], ◌∷◌, ◌++◌, keep, first,
  change, any, is_some, or_default, arith, ◌==◌,
}
use tms_api.Prisma.{in_memory}
use tms_api.Prisma.Keys.{IsKeyed, first-key}
use tms_api.Runtime.{Runtime}
use tms_api.Database.{
  Database, UserRole, Timesheet, TimeEntry, Project, ProjectEmployee, days, map_week, timesheet,
  time_entry, org_setting, project, project_employee,
}
use tms_api.Database.Constraints.{project_exists}
use tms_api.Database.Action.{when}
use tms_api.Database.Triple.{
  After, After-seq, After-seq_then, After-throw_if, After-or_throw, After-found, After-when,
  After-find_first, After-find_many, After-current, After-pure, After-delete, After-update,
  After-create,
}
use tms_api.Timesheets.Sheets.{
  owned, is_open, reduce_hours, billable_only, recalculate_timesheet_totals,
}
use tms_api.Timesheets.CopyWeek.{is_employee}
use tms_api.Timesheets.Entries.{
  CreateEntryDto, UpdateEntryDto, wants_desc, undescribed, max_per_day, exceeds, new_cell,
  merge_week, calc_entry_total, assert_assigned, open_timesheet, create_entry, update_entry,
  delete_entry,
}
use tms_api.Timesheets.Effects.Sheets.{with_sheets, IsOwn, open_status}

-- The entries of one timesheet.
abbrev pub entries_of : ℕ → List TimeEntry → List TimeEntry
entries_of id es = keep (λ e. e.timesheet_id == id) es

abbrev pub with_totals : ℕ → List TimeEntry → Timesheet → Timesheet
with_totals id es t = record t {
  total_hours = reduce_hours 0 (entries_of id es);
  billable_hours = reduce_hours 0 (billable_only (entries_of id es));
}

-- The database after the totals of one timesheet are set.
abbrev pub retotaled : ℕ → Database → Database
retotaled id db =
    with_sheets db
      (change (λ t. t.id == id) (with_totals id db.time_entries.rows) db.timesheets.rows)

abbrev pub with_entries : Database → List TimeEntry → Database
with_entries db rows = record db {
  time_entries = record { rows = rows; next_id = db.time_entries.next_id };
}

abbrev pub add_entry : Database → TimeEntry → Database
add_entry db e = record db {
  time_entries = record {
    rows = db.time_entries.rows ++ e ∷ [];
    next_id = suc db.time_entries.next_id;
  };
}

-- A timesheet that the caller owns is the one that its id names.
pub own_key :
    (id user_id org_id : ℕ) (db : Database) (t : Timesheet)
    → IsKeyed (λ (s : Timesheet). s.id) db.timesheets
    → IsOwn id user_id org_id db t
    → first (λ s. s.id == id) db.timesheets.rows ≡ some t
own_key id user_id org_id db t keys own =
    first-key (λ s. s.id) (owned id user_id org_id) id db.timesheets.rows t (λ s e. ground arith)
      keys.distinct own

missing_sheet :
    (id : ℕ) (rows : List Timesheet) (t : Timesheet) (P : Type 0)
    → first (λ s. s.id == id) rows ≡ some t
    → first (λ s. s.id == id) rows ≡ none
    → P
missing_sheet id rows t P e n = absurd (cc)

-- The new entry of `createEntry`.
abbrev pub new_entry : ℕ → CreateEntryDto → ℕ → TimeEntry
new_entry timesheet_id dto id = record {
  id = id;
  timesheet_id = timesheet_id;
  project_id = dto.project_id;
  billable = or_default dto.billable true;
  week = map_week new_cell dto.week;
  total_hours = calc_entry_total (map_week (λ d. d.hours) dto.week);
}

-- The change that `updateEntry` makes.
abbrev pub edit_entry : UpdateEntryDto → TimeEntry → TimeEntry → TimeEntry
edit_entry dto entry e = record e {
  project_id = or_default dto.project_id e.project_id;
  billable = or_default dto.billable e.billable;
  week = merge_week dto.week entry.week;
  total_hours =
      calc_entry_total (map_week (λ cell. some cell.hours) (merge_week dto.week entry.week));
}

-- For an employee: the project is assigned to them.
abbrev pub IsAssigned : UserRole → ℕ → ℕ → Database → Type 0
IsAssigned role project_id user_id db =
    is_employee role ≡ true
    → (r : ProjectEmployee) × (first (λ r. r.project_id == project_id && r.employee_id == user_id)
          db.project_employees.rows
        ≡ some r)

-- The checks that a new entry has passed.
pub record IsAccepted (timesheet_id user_id org_id : ℕ) (dto : CreateEntryDto) (role : UserRole)
    (db : Database) (t : Timesheet) : Type 0 where
  pub own : IsOwn timesheet_id user_id org_id db t
  pub editable : is_open t.status ≡ true
  pub described :
      (wants_desc (first (λ s. s.organisation_id == org_id) db.org_settings.rows)
        && any undescribed (days dto.week))
      ≡ false
  pub in_org :
      (p : Project) × (first
          (λ p. p.id == dto.project_id && p.organisation_id == org_id)
          db.projects.rows
        ≡ some p)
  pub assigned : IsAssigned role dto.project_id user_id db
  pub within :
      any
        (exceeds (max_per_day (first (λ s. s.organisation_id == org_id) db.org_settings.rows)))
        (days dto.week)
      ≡ false

module _ {I : Database → Type 0} {db : Database} where
  pub After-recalculate :
      {Q : Unit {0} → Database → Type 0} (id : ℕ) (t : Timesheet)
      → first (λ s. s.id == id) db.timesheets.rows ≡ some t
      → Q tt (retotaled id db)
      → After I Q (recalculate_timesheet_totals in_memory id) db
  unfolding recalculate_timesheet_totals
  After-recalculate id t e h = After-find_many time_entry _ _ (
      After-seq_then _ _ (
        After-update timesheet _ _ (missing_sheet id db.timesheets.rows t _ e)
          λ r _. After-pure tt h))

  pub After-open_timesheet :
      {Q : Timesheet → Database → Type 0} (id user_id org_id : ℕ)
      → I db
      → ((t : Timesheet) → IsOwn id user_id org_id db t → is_open t.status ≡ true → Q t db)
      → After I Q (open_timesheet in_memory id user_id org_id) db
  unfolding open_timesheet
  After-open_timesheet id user_id org_id i h = After-find_first timesheet _ _ (
      After-or_throw _ _ _ (λ _. i)
        λ t own.
          After-throw_if _ _ _ (λ _. i)
            λ is_ok. After-pure t (h t own (open_status t.status is_ok)))

  pub After-assert_assigned :
      {Q : Unit {0} → Database → Type 0} (role : UserRole) (project_id user_id : ℕ)
      → I db
      → (IsAssigned role project_id user_id db → Q tt db)
      → After I Q (assert_assigned in_memory role project_id user_id) db
  unfolding assert_assigned
  After-assert_assigned role project_id user_id i h =
      After-when _ _
        (λ yes_employee.
          After-find_first project_employee _ _
            (After-seq_then _ _ (After-found _ _ (λ _. i) λ r e. After-pure tt (h (λ _. (r, e))))))
        (λ no_employee. h (λ yes_employee. absurd (false≢true (sym no_employee ∙ yes_employee))))

  pub After-assert_given :
      {Q : Unit {0} → Database → Type 0} (role : UserRole) (given : Bool) (project_id user_id : ℕ)
      → I db
      → ((given ≡ true → IsAssigned role project_id user_id db) → Q tt db)
      → After I Q (when given (assert_assigned in_memory role project_id user_id)) db
  After-assert_given role given project_id user_id i h =
      After-when _ _
        (λ _. After-assert_assigned role project_id user_id i λ assigned. h (λ _. assigned))
        (λ absent. h (λ is_given. absurd (false≢true (sym absent ∙ is_given))))

module _ {I : Database → Type 0} {db : Database}
    (keys : IsKeyed (λ (s : Timesheet). s.id) db.timesheets) where
  pub After-create_entry :
      {Q : TimeEntry → Database → Type 0} (rt : Runtime) (timesheet_id user_id org_id : ℕ)
      (dto : CreateEntryDto) (role : UserRole)
      → I db
      → ((t : Timesheet)
          → IsAccepted timesheet_id user_id org_id dto role db t
          → let e = new_entry timesheet_id dto db.time_entries.next_id in
            Q e (retotaled timesheet_id (add_entry db e)))
      → After I Q (create_entry in_memory rt timesheet_id user_id org_id dto role) db
  unfolding create_entry
  After-create_entry rt timesheet_id user_id org_id dto role i h = After-seq_then _ _ (
      After-open_timesheet timesheet_id user_id org_id i λ t own editable.
        After-find_first org_setting _ _ (
          After-throw_if _ _ _ (λ _. i)
            λ described. After-find_first project _ _ (
              After-seq_then _ _ (
                After-found _ _ (λ _. i)
                  λ p in_org. After-seq_then _ _ (
                    After-assert_assigned role dto.project_id user_id i λ assigned.
                      After-throw_if _ _ _ (λ _. i)
                        λ within. After-seq _ _ (
                          After-create time_entry _ (
                            After-seq_then _ _ (
                              After-recalculate timesheet_id t
                                (own_key timesheet_id user_id org_id db t keys own)
                                (After-pure _ (
                                  h t (record {
                                    own = own;
                                    editable = editable;
                                    described = described;
                                    in_org = (p, in_org);
                                    assigned = assigned;
                                    within = within;
                                  })))))))))))

  pub After-update_entry :
      {Q : TimeEntry → Database → Type 0} (timesheet_id entry_id user_id org_id : ℕ)
      (dto : UpdateEntryDto) (role : UserRole)
      → I db
      → ((t : Timesheet) (entry : TimeEntry)
          → IsOwn timesheet_id user_id org_id db t
          → is_open t.status ≡ true
          → first (λ e. e.id == entry_id && e.timesheet_id == timesheet_id) db.time_entries.rows
            ≡ some entry
          → (is_some dto.project_id ≡ true
              → IsAssigned role (or_default dto.project_id 0) user_id db)
          → (is_some dto.project_id
              && not (project_exists in_memory db (or_default dto.project_id 0)))
            ≡ false
          → (r : TimeEntry)
          → Q (edit_entry dto entry r) (
              retotaled timesheet_id (
                with_entries db
                  (change (λ e. e.id == entry_id) (edit_entry dto entry) db.time_entries.rows))))
      → After I Q (update_entry in_memory timesheet_id entry_id user_id org_id dto role) db
  unfolding update_entry
  After-update_entry timesheet_id entry_id user_id org_id dto role i h = After-seq_then _ _ (
      After-open_timesheet timesheet_id user_id org_id i λ t own editable.
        After-find_first time_entry _ _ (
          After-or_throw _ _ _ (λ _. i)
            λ entry is_entry. After-seq_then _ _ (
              After-assert_given role (is_some dto.project_id) (or_default dto.project_id 0) user_id
                i
                λ assigned. After-current _ (
                  After-throw_if _ _ _ (λ _. i)
                    λ exists. After-seq _ _ (
                      After-update time_entry _ _ (λ _. i)
                        λ r _. After-seq_then _ _ (
                          After-recalculate timesheet_id t
                            (own_key timesheet_id user_id org_id db t keys own)
                            (After-pure _ (h t entry own editable is_entry assigned exists r))))))))

  pub After-delete_entry :
      {Q : Unit {0} → Database → Type 0} (timesheet_id entry_id user_id org_id : ℕ)
      → I db
      → ((t : Timesheet) (entry : TimeEntry)
          → IsOwn timesheet_id user_id org_id db t
          → is_open t.status ≡ true
          → first (λ e. e.id == entry_id && e.timesheet_id == timesheet_id) db.time_entries.rows
            ≡ some entry
          → Q tt (
              retotaled timesheet_id
                (with_entries db (keep (λ e. not (e.id == entry_id)) db.time_entries.rows))))
      → After I Q (delete_entry in_memory timesheet_id entry_id user_id org_id) db
  unfolding delete_entry
  After-delete_entry timesheet_id entry_id user_id org_id i h = After-seq_then _ _ (
      After-open_timesheet timesheet_id user_id org_id i λ t own editable.
        After-find_first time_entry _ _ (
          After-seq_then _ _ (
            After-found _ _ (λ _. i)
              λ entry is_entry. After-seq_then _ _ (
                After-delete time_entry _ (λ _. i)
                  λ _ _.
                    After-recalculate timesheet_id t
                      (own_key timesheet_id user_id org_id db t keys own)
                      (h t entry own editable is_entry)))))
