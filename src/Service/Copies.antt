-- ===== src/Service/Copies.antt =====
-- Copying a week keeps the invariant.
use tms_api.Prelude.{
  ℕ, suc, ◌<◌, ◌+◌, ◌≡◌, ◌≢◌, refl, not, List, [], ◌∷◌, ◌++◌, All, All-append, All-keep, keep,
  arith, ◌==◌, sym,
}
use mathlib.Core.List.{map, append-nil}
use tms_api.Prisma.{number_from}
use tms_api.Prisma.Keys.{keep-IsKeyed, change-IsKeyed, append-IsKeyed, number-IsKeyed}
use tms_api.Dates.{Date}
use tms_api.Database.{Database, UserRole, employee, manager, admin, Timesheet, TimeEntry, Project}
use tms_api.Timesheets.Sheets.{reduce_hours, billable_only}
use tms_api.Timesheets.CopyWeek.{copy_entry}
use tms_api.Timesheets.Effects.Sheets.{add_sheet}
use tms_api.Timesheets.Effects.Entries.{entries_of}
use tms_api.Timesheets.Effects.CopyWeek.{written, copy_totals, overwritten, copied_sheet, source}
use tms_api.Approvals.Effects.{HasProject}
use tms_api.Service.Invariant.{
  IsSound, Matches, Agree, resync, entries_of-fresh, entries_of-delete, attached_suc,
}

-- The copies under `id` are the entries of that timesheet, and of no other.
abbrev pub copies : ℕ → ℕ → List TimeEntry → List TimeEntry
copies id n es = number_from n (map (copy_entry id) es)

entries_of-append :
    (j : ℕ) (xs ys : List TimeEntry) → entries_of j (xs ++ ys) ≡ entries_of j xs ++ entries_of j ys
entries_of-append j [] ys = refl
entries_of-append j (x ∷ xs) ys = ground (arith, entries_of-append j xs ys)

entries_of-copies :
    (id n : ℕ) (es : List TimeEntry) → entries_of id (copies id n es) ≡ copies id n es
entries_of-copies id n [] = refl
entries_of-copies id n (e ∷ es) = ground (arith, entries_of-copies id (suc n) es)

entries_of-others : (j id n : ℕ) (es : List TimeEntry) → j ≢ id → entries_of j (copies id n es) ≡ []
entries_of-others j id n [] ne = refl
entries_of-others j id n (e ∷ es) ne = ground (arith, entries_of-others j id (suc n) es ne)

-- They keep their hours.
reduce_hours-copies :
    (id n acc : ℕ) (es : List TimeEntry) → reduce_hours acc (copies id n es) ≡ reduce_hours acc es
reduce_hours-copies id n acc [] = refl
reduce_hours-copies id n acc (e ∷ es) = reduce_hours-copies id (suc n) (acc + e.total_hours) es

billable_hours-copies :
    (id n acc : ℕ) (es : List TimeEntry)
    → reduce_hours acc (billable_only (copies id n es)) ≡ reduce_hours acc (billable_only es)
billable_hours-copies id n acc [] = refl
billable_hours-copies id n acc (e ∷ es) = ground (
  arith,
  billable_hours-copies id (suc n) (acc + e.total_hours) es,
  billable_hours-copies id (suc n) acc es,
)

-- They keep their projects.
attached-copies :
    (id n m : ℕ) (es : List TimeEntry) → id < m → All (λ e. e.timesheet_id < m) (copies id n es)
attached-copies id n m [] h = tt
attached-copies id n m (e ∷ es) h = (h, attached-copies id (suc n) m es h)

linked-copies :
    (id n : ℕ) (ps : List Project) (es : List TimeEntry)
    → All (HasProject ps) es
    → All (HasProject ps) (copies id n es)
linked-copies id n ps [] h = tt
linked-copies id n ps (e ∷ es) h = (h.0, linked-copies id (suc n) ps es h.1)

keys-copies :
    (id : ℕ) (es : List TimeEntry)
    → All (λ (mk : ℕ → TimeEntry). (n : ℕ) → (mk n).id ≡ n) (map (copy_entry id) es)
keys-copies id [] = tt
keys-copies id (e ∷ es) = (λ n. refl, keys-copies id es)

pub linked-source :
    (user_id org_id : ℕ) (role : UserRole) (previous : Timesheet) (db : Database)
    → IsSound db
    → All (HasProject db.projects.rows) (source user_id org_id role previous db)
linked-source user_id org_id employee previous db h =
    All-keep _ _ (entries_of previous.id db.time_entries.rows)
      (All-keep _ _ db.time_entries.rows h.linked)
linked-source user_id org_id manager previous db h = All-keep _ _ db.time_entries.rows h.linked
linked-source user_id org_id admin previous db h = All-keep _ _ db.time_entries.rows h.linked

-- Timesheets with smaller ids keep their entries.
Matches-Agree :
    (id : ℕ) (old new : List TimeEntry)
    → Agree id old new
    → (rows : List Timesheet) → All (λ (t : Timesheet). t.id < id) rows
    → All (Matches old) rows
    → All (Matches new) rows
Matches-Agree id old new agree [] b h = tt
Matches-Agree id old new agree (t ∷ rows) b h =
    (rw (agree t.id (omega (arith, b.0))) h.0, Matches-Agree id old new agree rows b.1 h.1)

pub copies-Agree : (id n : ℕ) (xs es : List TimeEntry) → Agree id xs (xs ++ copies id n es)
copies-Agree id n xs es j ne =
    rw (entries_of-append j xs (copies id n es), entries_of-others j id n es ne)
      (append-nil (entries_of j xs))

-- The entries of `id` after the copies are appended to entries of other timesheets.
pub own_entries :
    (id n : ℕ) (xs es : List TimeEntry)
    → entries_of id xs ≡ []
    → entries_of id (xs ++ copies id n es) ≡ copies id n es
own_entries id n xs es none_yet =
    rw (entries_of-append id xs (copies id n es), none_yet) (entries_of-copies id n es)

own_totals :
    (id n : ℕ) (xs es : List TimeEntry)
    → entries_of id xs ≡ []
    → (reduce_hours 0 (entries_of id (xs ++ copies id n es)) ≡ reduce_hours 0 es)
      × (reduce_hours 0 (billable_only (entries_of id (xs ++ copies id n es)))
          ≡ reduce_hours 0 (billable_only es))
own_totals id n xs es none_yet =
    rw (own_entries id n xs es none_yet)
      (reduce_hours-copies id n 0 es, billable_hours-copies id n 0 es)

pub create_copy-IsSound :
    (user_id org_id : ℕ) (date : Date) (es : List TimeEntry) (db : Database)
    → IsSound db
    → All (HasProject db.projects.rows) es
    → let t = copied_sheet user_id org_id date es db in IsSound (written t.id es (add_sheet db t))
create_copy-IsSound user_id org_id date es db h linked =
    let id = db.timesheets.next_id in
    let n = db.time_entries.next_id in
    let (total, billable) =
      own_totals id n db.time_entries.rows es
        (entries_of-fresh id db.time_entries.rows h.attached) in
    record {
      sheet_keys = append-IsKeyed _ _ db.timesheets refl h.sheet_keys;
      entry_keys = number-IsKeyed _ _ db.time_entries (keys-copies id es) h.entry_keys;
      attached =
          All-append _ db.time_entries.rows _ (attached_suc id db.time_entries.rows h.attached)
            (attached-copies id n (suc id) es (omega arith));
      linked =
          All-append _ db.time_entries.rows _ h.linked
            (linked-copies id n db.projects.rows es linked);
      totals =
          All-append _ db.timesheets.rows _
            (Matches-Agree id _ _ (copies-Agree id n db.time_entries.rows es) db.timesheets.rows
              h.sheet_keys.below h.totals)
            ((sym total, sym billable), tt);
    }

pub entries_of-cleared :
    (id : ℕ) (es : List TimeEntry) → entries_of id (keep (λ e. not (e.timesheet_id == id)) es) ≡ []
entries_of-cleared id [] = refl
entries_of-cleared id (e ∷ es) = ground (arith, entries_of-cleared id es)

pub overwritten-IsSound :
    (id : ℕ) (es : List TimeEntry) (db : Database)
    → IsSound db
    → id < db.timesheets.next_id
    → All (HasProject db.projects.rows) es
    → IsSound (overwritten id es db)
overwritten-IsSound id es db h below linked =
    let n = db.time_entries.next_id in
    let rest : List TimeEntry = keep (λ e. not (e.timesheet_id == id)) db.time_entries.rows in
    let (total, billable) = own_totals id n rest es (entries_of-cleared id db.time_entries.rows) in
    record {
      sheet_keys = change-IsKeyed _ _ (copy_totals es) db.timesheets (λ t. refl) h.sheet_keys;
      entry_keys =
          number-IsKeyed _ _ (record db.time_entries { rows = rest }) (keys-copies id es)
            (keep-IsKeyed _ _ db.time_entries h.entry_keys);
      attached =
          All-append _ rest _ (All-keep _ _ db.time_entries.rows h.attached)
            (attached-copies id n db.timesheets.next_id es below);
      linked =
          All-append _ rest _ (All-keep _ _ db.time_entries.rows h.linked)
            (linked-copies id n db.projects.rows es linked);
      totals =
          resync id _ _ db.time_entries.rows (rest ++ copies id n es)
            (λ j ne.
              rw (copies-Agree id n rest es j ne) (entries_of-delete j id db.time_entries.rows ne))
            total billable db.timesheets.rows h.totals;
    }
