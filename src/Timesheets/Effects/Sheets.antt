-- ===== src/Timesheets/Effects/Sheets.antt =====
-- The writes of the operations on timesheets.
use mathlib.Core.Bool.{true≢false}
use tms_api.Prelude.{
  refl, ℕ, suc, ◌≡◌, true, false, not, ◌&&◌, Option, none, some, String, List, [], ◌∷◌, ◌++◌, keep,
  first, change, is_some, or_default, arith, ◌==◌, if◌then◌else◌,
}
use tms_api.Prisma.{in_memory}
use tms_api.Runtime.{Runtime}
use tms_api.Dates.{Date, get_week_start, is_in_past}
use tms_api.Database.{
  Database, Timesheet, TimesheetStatus, draft, submitted, timesheet, time_entry, org_setting,
}
use tms_api.Database.Constraints.{delete_timesheet_row}
use tms_api.Database.Triple.{
  After, After-seq, After-throw_if, After-or_throw, After-find_first, After-pure, After-seq_then,
  After-delete, After-delete_many, After-update, After-create,
}
use tms_api.Timesheets.Sheets.{
  submit_timesheet, update_timesheet, create_timesheet, delete_timesheet, new_timesheet, given_date,
  owned, is_draft, is_open, is_rejected, same_week, start_day, allows_backdated,
}

-- The database with other timesheets.
abbrev pub with_sheets : Database → List Timesheet → Database
with_sheets db rows = record db {
  timesheets = record { rows = rows; next_id = db.timesheets.next_id };
}

-- The database with one more timesheet.
abbrev pub add_sheet : Database → Timesheet → Database
add_sheet db t = record db {
  timesheets = record { rows = db.timesheets.rows ++ t ∷ []; next_id = suc db.timesheets.next_id };
}

abbrev pub submit_row : Timesheet → Timesheet → Timesheet
submit_row t s = record s {
  status = submitted;
  rejected_reason = if is_rejected t.status then none else s.rejected_reason;
}

abbrev pub redate_row : Option Date → Timesheet → Timesheet
redate_row date s = record s { week_start_date = or_default date s.week_start_date }

-- The database with a timesheet and its entries deleted.
abbrev pub without_sheet : ℕ → Database → Database
without_sheet id db = record db {
  timesheets = record db.timesheets { rows = keep (λ t. not (t.id == id)) db.timesheets.rows };
  time_entries = record db.time_entries {
    rows = keep (λ e. not (e.timesheet_id == id)) db.time_entries.rows;
  };
}

-- The caller's timesheet was found.
abbrev pub IsOwn : ℕ → ℕ → ℕ → Database → Timesheet → Type 0
IsOwn id user_id org_id db t = first (owned id user_id org_id) db.timesheets.rows ≡ some t

draft_status : (s : TimesheetStatus) → not (is_draft s) ≡ false → s ≡ draft
draft_status s h = ground arith

pub open_status : (s : TimesheetStatus) → not (is_open s) ≡ false → is_open s ≡ true
open_status s h = ground arith

module _ {I : Database → Type 0} {db : Database} where
  pub After-submit :
      {Q : Timesheet → Database → Type 0} (id user_id org_id : ℕ)
      → I db
      → ((t : Timesheet)
          → IsOwn id user_id org_id db t
          → is_open t.status ≡ true
          → (r : Timesheet)
          → Q
              (submit_row t r)
              (with_sheets db (change (λ s. s.id == id) (submit_row t) db.timesheets.rows)))
      → After I Q (submit_timesheet in_memory id user_id org_id) db
  unfolding submit_timesheet
  After-submit id user_id org_id i h = After-find_first timesheet _ _ (
      After-or_throw _ _ _ (λ _. i)
        λ t own.
          After-throw_if _ _ _ (λ _. i)
            λ is_ok.
              After-update timesheet _ _ (λ _. i) λ r _. h t own (open_status t.status is_ok) r)

  pub After-given_date :
      {Q : Option Date → Database → Type 0} (rt : Runtime) (text : Option String)
      → I db
      → ((date : Option Date) → (is_some text ≡ false → date ≡ none) → Q date db)
      → After I Q (given_date rt text) db
  After-given_date rt none i h = After-pure none (h none λ _. refl)
  After-given_date rt (some text) i h =
      After-or_throw (rt.parse_date text) _ _ (λ _. i)
        λ date e. After-pure (some date) (h (some date) λ absent. absurd (true≢false absent))

  pub After-update_timesheet :
      {Q : Timesheet → Database → Type 0} (rt : Runtime) (id user_id org_id : ℕ)
      (text : Option String)
      → I db
      → ((t : Timesheet)
          → IsOwn id user_id org_id db t
          → t.status ≡ draft
          → (date : Option Date) → (is_some text ≡ false → date ≡ none)
          → (r : Timesheet)
          → Q
              (redate_row date r)
              (with_sheets db (change (λ s. s.id == id) (redate_row date) db.timesheets.rows)))
      → After I Q (update_timesheet in_memory rt id user_id org_id text) db
  unfolding update_timesheet
  After-update_timesheet rt id user_id org_id text i h = After-find_first timesheet _ _ (
      After-or_throw _ _ _ (λ _. i)
        λ t own.
          After-throw_if _ _ _ (λ _. i)
            λ is_ok. After-seq _ _ (
              After-given_date rt text i λ date untouched.
                After-update timesheet _ _ (λ _. i)
                  λ r _. h t own (draft_status t.status is_ok) date untouched r))

  pub After-create_timesheet :
      {Q : Timesheet → Database → Type 0} (rt : Runtime) (user_id org_id : ℕ) (text : String)
      → I db
      → ((date : Date)
          → let settings = first (λ s. s.organisation_id == org_id) db.org_settings.rows in
            let week_start_date = get_week_start date (start_day settings) in
            rt.parse_date text ≡ some date
            → (not (allows_backdated settings) && is_in_past rt.now week_start_date) ≡ false
            → is_some (first (same_week user_id org_id week_start_date) db.timesheets.rows) ≡ false
            → let t = new_timesheet user_id org_id week_start_date 0 0 db.timesheets.next_id in
              Q t (add_sheet db t))
      → After I Q (create_timesheet in_memory rt user_id org_id text) db
  unfolding create_timesheet
  After-create_timesheet rt user_id org_id text i h = After-find_first org_setting _ _ (
      After-or_throw _ _ _ (λ _. i)
        λ date parsed.
          After-throw_if _ _ _ (λ _. i)
            λ allowed. After-find_first timesheet _ _ (
              After-throw_if _ _ _ (λ _. i)
                λ is_new. After-create timesheet _ (h date parsed allowed is_new)))

  pub After-delete_timesheet :
      {Q : Unit {0} → Database → Type 0} (id user_id org_id : ℕ)
      → I db
      → ((t : Timesheet)
          → IsOwn id user_id org_id db t
          → t.status ≡ draft
          → Q tt (without_sheet id db))
      → After I Q (delete_timesheet in_memory id user_id org_id) db
  unfolding delete_timesheet delete_timesheet_row
  After-delete_timesheet id user_id org_id i h = After-find_first timesheet _ _ (
      After-or_throw _ _ _ (λ _. i)
        λ t own.
          After-throw_if _ _ _ (λ _. i)
            λ is_ok. After-seq_then _ _ (
              After-delete timesheet _ (λ _. i)
                λ _ _. After-delete_many time_entry _ (h t own (draft_status t.status is_ok))))
