-- ===== src/Service/Invariant.antt =====
-- The invariant of the timesheet tables: keys, foreign keys, and server-side totals.
use tms_api.Prelude.{
  ℕ, suc, ◌<◌, ◌≡◌, ◌≢◌, refl, String, Bool, not, List, [], ◌∷◌, All, All-append, All-keep,
  All-change, keep, change, arith, ◌==◌,
}
use tms_api.Dates.{Date}
use tms_api.Prisma.Keys.{IsKeyed, change-IsKeyed, append-IsKeyed, keep-IsKeyed}
use tms_api.Database.{Database, Timesheet, TimeEntry}
use tms_api.Timesheets.Sheets.{reduce_hours, billable_only, new_timesheet}
use tms_api.Timesheets.Effects.Sheets.{with_sheets, add_sheet, without_sheet}
use tms_api.Timesheets.Effects.Entries.{entries_of}
use tms_api.Approvals.Effects.{HasProject, notified}

-- The totals of a timesheet are the sums over its entries.
abbrev pub Matches : List TimeEntry → Timesheet → Type 0
Matches es t =
    (t.total_hours ≡ reduce_hours 0 (entries_of t.id es))
    × (t.billable_hours ≡ reduce_hours 0 (billable_only (entries_of t.id es)))

pub record IsSound (db : Database) : Type 0 where
  pub sheet_keys : IsKeyed (λ (t : Timesheet). t.id) db.timesheets
  pub entry_keys : IsKeyed (λ (e : TimeEntry). e.id) db.time_entries
  pub attached :
      All (λ (e : TimeEntry). e.timesheet_id < db.timesheets.next_id) db.time_entries.rows
  pub linked : All (HasProject db.projects.rows) db.time_entries.rows
  pub totals : All (Matches db.time_entries.rows) db.timesheets.rows

-- `f` leaves alone what the invariant reads of a timesheet.
abbrev pub LeavesTotals : (Timesheet → Timesheet) → Type 0
LeavesTotals f =
    (t : Timesheet)
    → ((f t).id ≡ t.id)
      × ((f t).total_hours ≡ t.total_hours)
      × ((f t).billable_hours ≡ t.billable_hours)

pub change_sheets-IsSound :
    (p : Timesheet → Bool) (f : Timesheet → Timesheet) (db : Database)
    → LeavesTotals f
    → IsSound db
    → IsSound (with_sheets db (change p f db.timesheets.rows))
change_sheets-IsSound p f db leaves h = record {
  sheet_keys = change-IsKeyed _ p f db.timesheets (λ t. (leaves t).0) h.sheet_keys;
  entry_keys = h.entry_keys;
  attached = h.attached;
  linked = h.linked;
  totals = All-change _ p f (λ t q. ground (arith, leaves t)) _ h.totals;
}

-- A new timesheet has no entries yet.
pub entries_of-fresh :
    (n : ℕ) (es : List TimeEntry) → All (λ e. e.timesheet_id < n) es → entries_of n es ≡ []
entries_of-fresh n [] h = refl
entries_of-fresh n (e ∷ es) h = ground (arith, h.0, entries_of-fresh n es h.1)

pub attached_suc :
    (n : ℕ) (es : List TimeEntry)
    → All (λ e. e.timesheet_id < n) es
    → All (λ e. e.timesheet_id < suc n) es
attached_suc n [] h = tt
attached_suc n (e ∷ es) h = (omega (arith, h.0), attached_suc n es h.1)

pub add_sheet-IsSound :
    (user_id org_id : ℕ) (date : Date) (db : Database)
    → IsSound db
    → IsSound (add_sheet db (new_timesheet user_id org_id date 0 0 db.timesheets.next_id))
add_sheet-IsSound user_id org_id date db h = record {
  sheet_keys = append-IsKeyed _ _ db.timesheets refl h.sheet_keys;
  entry_keys = h.entry_keys;
  attached = attached_suc db.timesheets.next_id db.time_entries.rows h.attached;
  linked = h.linked;
  totals = All-append _ db.timesheets.rows _ h.totals (
      simp (entries_of-fresh db.timesheets.next_id db.time_entries.rows h.attached)
        ((refl, refl), tt));
}

-- Deleting a timesheet with its entries leaves the entries of the others.
pub entries_of-delete :
    (j id : ℕ) (es : List TimeEntry)
    → j ≢ id
    → entries_of j (keep (λ e. not (e.timesheet_id == id)) es) ≡ entries_of j es
entries_of-delete j id [] ne = refl
entries_of-delete j id (e ∷ es) ne = ground (arith, entries_of-delete j id es ne)

totals-delete :
    (id : ℕ) (es : List TimeEntry) (rows : List Timesheet)
    → All (Matches es) rows
    → All (Matches (keep (λ e. not (e.timesheet_id == id)) es)) (keep (λ t. not (t.id == id)) rows)
totals-delete id es [] h = tt
totals-delete id es (t ∷ rows) h =
    ground (arith, h.0, entries_of-delete t.id id es, totals-delete id es rows h.1)

pub without_sheet-IsSound : (id : ℕ) (db : Database) → IsSound db → IsSound (without_sheet id db)
without_sheet-IsSound id db h = record {
  sheet_keys = keep-IsKeyed _ _ db.timesheets h.sheet_keys;
  entry_keys = keep-IsKeyed _ _ db.time_entries h.entry_keys;
  attached = All-keep _ _ db.time_entries.rows h.attached;
  linked = All-keep _ _ db.time_entries.rows h.linked;
  totals = totals-delete id db.time_entries.rows db.timesheets.rows h.totals;
}

-- Another timesheet's entries are the same in both lists.
abbrev pub Agree : ℕ → List TimeEntry → List TimeEntry → Type 0
Agree id old new = (j : ℕ) → j ≢ id → entries_of j new ≡ entries_of j old

-- Where the entries of one timesheet have changed, setting its totals restores the invariant.
pub resync :
    (id total billable : ℕ) (old new : List TimeEntry)
    → Agree id old new
    → reduce_hours 0 (entries_of id new) ≡ total
    → reduce_hours 0 (billable_only (entries_of id new)) ≡ billable
    → (rows : List Timesheet) → All (Matches old) rows
    → All (Matches new) (
        change
          (λ t. t.id == id)
          (λ t. record t { total_hours = total; billable_hours = billable })
          rows)
resync id total billable old new agree a b [] h = tt
resync id total billable old new agree a b (t ∷ rows) h =
    ground (arith, a, b, agree t.id, h.0, resync id total billable old new agree a b rows h.1)

pub notified-IsSound :
    (user_id : ℕ) (type message : String) (db : Database)
    → IsSound db
    → IsSound (notified user_id type message db)
notified-IsSound user_id type message db h = record {
  sheet_keys = h.sheet_keys;
  entry_keys = h.entry_keys;
  attached = h.attached;
  linked = h.linked;
  totals = h.totals;
}
