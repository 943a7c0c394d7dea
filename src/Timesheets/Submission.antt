-- ===== src/Timesheets/Submission.antt =====
-- Submitting a timesheet: which calls return, and what the caller then reads.
use mathlib.Core.Option.{some-injective}
use mathlib.Core.Path.{subst}
use tms_api.Prelude.{
  some-none, ℕ, ◌≡◌, refl, sym, ◌∙◌, true, not, some, List, first, change, arith, ◌==◌, ==_refl,
}
use tms_api.Prisma.{Client, IsLawful, in_memory, in_memory-eq}
use tms_api.Prisma.Rows.{first-change, first-change_found, first_sound}
use tms_api.Prisma.Keys.{IsKeyed}
use tms_api.Database.{Database, Timesheet, TimeEntry, timesheet}
use tms_api.Database.Action.{ok, current, find_first, find_many, pure}
use tms_api.Database.Runs.{bind-ok, or_throw-some}
use tms_api.Database.Triple.{After, After-find_first, After-or_throw, After-throw_if, After-update}
use tms_api.Timesheets.Sheets.{submit_timesheet, is_open, owned, with_projects, get_timesheet_by_id}
use tms_api.Timesheets.Effects.Sheets.{IsOwn, submit_row, with_sheets}
use tms_api.Timesheets.Effects.Entries.{own_key, entries_of}

-- The caller reads the timesheet `id` as `t`, with its entries and their projects.
abbrev pub Reads :
    Client → (List TimeEntry → List TimeEntry) → ℕ → ℕ → ℕ → Timesheet → Database → Type 0
Reads c sort id user_id org_id t db =
    get_timesheet_by_id c sort id user_id org_id db
    ≡ (ok (t, with_projects db.projects.rows (sort (entries_of t.id db.time_entries.rows))), db)

own-Reads :
    (sort : List TimeEntry → List TimeEntry) (id user_id org_id : ℕ) (db : Database) (t : Timesheet)
    → IsOwn id user_id org_id db t
    → Reads in_memory sort id user_id org_id t db
unfolding get_timesheet_by_id current find_first find_many pure
own-Reads sort id user_id org_id db t own =
    bind-ok _ _ db refl
    ∙ bind-ok _ _ (first (owned id user_id org_id) db.timesheets.rows) refl
    ∙ bind-ok _ _ t (or_throw-some db _ _ t own)
    ∙ bind-ok _ _ (entries_of t.id db.time_entries.rows) refl

submitted-IsOwn :
    (id user_id org_id : ℕ) (db : Database) (t : Timesheet)
    → IsOwn id user_id org_id db t
    → first (owned id user_id org_id) (change (λ s. s.id == id) (submit_row t) db.timesheets.rows)
      ≡ some (submit_row t t)
submitted-IsOwn id user_id org_id db t own =
    first-change_found (owned id user_id org_id) (λ s. s.id == id) (submit_row t) db.timesheets.rows
      t (λ s. refl) own
    ∙ rw is_id refl
  where
    is_id : t.id == id ≡ true
    is_id =
        let owns : owned id user_id org_id t ≡ true = first_sound _ db.timesheets.rows t own in
        ground (arith, owns)

-- With distinct timesheet ids, submitting one's own draft or rejected timesheet does not throw, and
-- leaves it submitted, a rejected one without its reason; getTimesheetById then returns it so, with
-- all its entries and their projects.
pub submit_timesheet-returns :
    (c : Client)
    → IsLawful c
    → (sort : List TimeEntry → List TimeEntry) (id user_id org_id : ℕ) (db : Database)
      (t : Timesheet)
    → IsKeyed (λ (s : Timesheet). s.id) db.timesheets
    → IsOwn id user_id org_id db t
    → is_open t.status ≡ true
    → After
        (λ _. ⊥)
        (λ _ new.
          (first (λ s. s.id == id) new.timesheets.rows ≡ some (submit_row t t))
          × Reads c sort id user_id org_id (submit_row t t) new)
        (submit_timesheet c id user_id org_id)
        db
unfolding submit_timesheet
submit_timesheet-returns c lawful sort id user_id org_id db t keys own editable =
    rw (in_memory-eq lawful) (
      After-find_first timesheet _ _ (
        After-or_throw _ _ _ (λ missing. some-none own missing)
          λ s found.
            let same : t ≡ s = some-injective _ _ (sym own ∙ found) in
            let is_editable : is_open s.status ≡ true =
              subst (λ x. is_open x.status ≡ true) same editable in
            After-throw_if (not (is_open s.status)) _ _
              (λ closed. absurd (ground (arith, closed, is_editable)))
              λ _.
                After-update timesheet _ _ (λ missing. some-none key missing)
                  λ r _.
                    subst
                      (λ x.
                        let new =
                          with_sheets db
                            (change (λ r. r.id == id) (submit_row x) db.timesheets.rows) in
                        (first (λ r. r.id == id) new.timesheets.rows ≡ some (submit_row t t))
                        × Reads in_memory sort id user_id org_id (submit_row t t) new)
                      same
                      (
                        submitted_row,
                        own-Reads sort id user_id org_id _ _
                            (submitted-IsOwn id user_id org_id db t own),
                      )))
  where
    key : first (λ s. s.id == id) db.timesheets.rows ≡ some t
    key = own_key id user_id org_id db t keys own

    submitted_row :
        first
          (λ (r : Timesheet). r.id == id)
          (change (λ r. r.id == id) (submit_row t) db.timesheets.rows)
        ≡ some (submit_row t t)
    submitted_row =
        rw
          (first-change (λ (r : Timesheet). r.id) (submit_row t) (λ r. refl) id id
            db.timesheets.rows)
          (rw (==_refl id, key) refl)
