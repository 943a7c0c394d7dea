-- ===== src/Service/EntryChanges.antt =====
-- Operations that change the entries of one timesheet and then set its totals keep the invariant.
use tms_api.Prelude.{
  ℕ, ◌<◌, ◌≡◌, ◌≢◌, refl, Bool, true, not, ◌&&◌, some, List, [], ◌∷◌, ◌++◌, All, All-append,
  All-keep, All-change, All-first, keep, first, change, arith, ◌==◌, Bool-cases, inl, inr,
}
use tms_api.Prisma.{Table}
use tms_api.Prisma.Rows.{first_sound}
use tms_api.Prisma.Keys.{IsKeyed, Distinct, change-IsKeyed, append-IsKeyed, keep-IsKeyed}
use tms_api.Database.{Database, Timesheet, TimeEntry}
use tms_api.Timesheets.Sheets.{owned}
use tms_api.Timesheets.Effects.Sheets.{IsOwn}
use tms_api.Timesheets.Effects.Entries.{with_totals, retotaled, with_entries, add_entry}
use tms_api.Approvals.Effects.{HasProject}
use tms_api.Service.Invariant.{IsSound, Agree, resync}

-- The database with another table of entries, and the totals of one timesheet set.
pub retotaled-IsSound :
    (id : ℕ) (new : Table TimeEntry) (db : Database)
    → IsSound db
    → IsKeyed (λ (e : TimeEntry). e.id) new
    → All (λ e. e.timesheet_id < db.timesheets.next_id) new.rows
    → All (HasProject db.projects.rows) new.rows
    → Agree id db.time_entries.rows new.rows
    → IsSound (retotaled id (record db { time_entries = new }))
retotaled-IsSound id new db h keys attached linked agree = record {
  sheet_keys = change-IsKeyed _ _ (with_totals id new.rows) db.timesheets (λ t. refl) h.sheet_keys;
  entry_keys = keys;
  attached = attached;
  linked = linked;
  totals = resync id _ _ db.time_entries.rows new.rows agree refl refl db.timesheets.rows h.totals;
}

pub append-Agree : (e : TimeEntry) (es : List TimeEntry) → Agree e.timesheet_id es (es ++ e ∷ [])
append-Agree e [] j ne = ground arith
append-Agree e (x ∷ es) j ne = ground (arith, append-Agree e es j ne)

-- The entry that a key names lies under `id`.
abbrev pub LiesUnder : ℕ → ℕ → TimeEntry → Type 0
LiesUnder id key e = e.id ≡ key → e.timesheet_id ≡ id

pub keep-Agree :
    (id key : ℕ) (es : List TimeEntry)
    → All (LiesUnder id key) es
    → Agree id es (keep (λ e. not (e.id == key)) es)
keep-Agree id key [] h j ne = refl
keep-Agree id key (e ∷ es) h j ne = ground (arith, h.0, keep-Agree id key es h.1 j ne)

pub change-Agree :
    (id key : ℕ) (f : TimeEntry → TimeEntry) (es : List TimeEntry)
    → ((e : TimeEntry) → (f e).timesheet_id ≡ e.timesheet_id)
    → All (LiesUnder id key) es
    → Agree id es (change (λ e. e.id == key) f es)
change-Agree id key f [] same h j ne = refl
change-Agree id key f (e ∷ es) same h j ne =
    ground (arith, same e, h.0, change-Agree id key f es same h.1 j ne)

-- Keys are distinct, so one entry found under `id` settles it for all.
others_lie :
    (id key : ℕ) (x : TimeEntry) (es : List TimeEntry)
    → x.id ≡ key
    → All (λ (e : TimeEntry). e.id ≢ x.id) es
    → All (LiesUnder id key) es
others_lie id key x [] e h = tt
others_lie id key x (y ∷ es) e h = (λ k. absurd (h.0 (cc)), others_lie id key x es e h.1)

pub found_lies :
    (id key : ℕ) (es : List TimeEntry) (entry : TimeEntry)
    → Distinct (λ (e : TimeEntry). e.id) es
    → first (λ e. e.id == key && e.timesheet_id == id) es ≡ some entry
    → All (LiesUnder id key) es
found_lies id key [] entry d e = tt
found_lies id key (x ∷ es) entry d e = elim (Bool-cases (x.id == key)) [
  | inl hit ↦ (elim (Bool-cases (x.timesheet_id == id)) [
    | inl under ↦ (λ k. ground (arith, under), others_lie id key x es (ground (arith, hit)) d.0)
    | inr away ↦
        let later : first (λ e. e.id == key && e.timesheet_id == id) es ≡ some entry =
          rw (hit, away) at e in
        let other : entry.id ≢ x.id = All-first (λ (t : TimeEntry). t.id ≢ x.id) _ es d.0 later in
        let same : (entry.id == key && entry.timesheet_id == id) ≡ true =
          first_sound _ es entry later in
        absurd (ground (arith, other, same, hit))
  ])
  | inr miss ↦ (λ k. ground arith, found_lies id key es entry d.1 (rw miss at e))
]

-- A timesheet that was found has an id in use.
pub found_below :
    (p : Timesheet → Bool) (db : Database) (t : Timesheet)
    → IsSound db
    → first p db.timesheets.rows ≡ some t
    → t.id < db.timesheets.next_id
found_below p db t h e =
    All-first (λ (s : Timesheet). s.id < db.timesheets.next_id) p _ h.sheet_keys.below e

pub own_below :
    (id user_id org_id : ℕ) (db : Database) (t : Timesheet)
    → IsSound db
    → IsOwn id user_id org_id db t
    → id < db.timesheets.next_id
own_below id user_id org_id db t h own =
    let below = found_below (owned id user_id org_id) db t h own in
    let same : owned id user_id org_id t ≡ true = first_sound _ db.timesheets.rows t own in
    ground (arith, below, same)

pub add_entry-IsSound :
    (id : ℕ) (e : TimeEntry) (db : Database)
    → IsSound db
    → id < db.timesheets.next_id
    → HasProject db.projects.rows e
    → e.timesheet_id ≡ id
    → e.id ≡ db.time_entries.next_id
    → IsSound (retotaled id (add_entry db e))
add_entry-IsSound id e db h below project under key =
    retotaled-IsSound id _ db h (append-IsKeyed _ e db.time_entries key h.entry_keys)
      (All-append _ db.time_entries.rows _ h.attached (rw under below, tt))
      (All-append _ db.time_entries.rows _ h.linked (project, tt))
      (rw (← under) (append-Agree e db.time_entries.rows))

pub keep_entries-IsSound :
    (id key : ℕ) (entry : TimeEntry) (db : Database)
    → IsSound db
    → first (λ e. e.id == key && e.timesheet_id == id) db.time_entries.rows ≡ some entry
    → IsSound (retotaled id (with_entries db (keep (λ e. not (e.id == key)) db.time_entries.rows)))
keep_entries-IsSound id key entry db h e =
    retotaled-IsSound id _ db h (keep-IsKeyed _ _ db.time_entries h.entry_keys)
      (All-keep _ _ db.time_entries.rows h.attached) (All-keep _ _ db.time_entries.rows h.linked)
      (keep-Agree id key db.time_entries.rows
        (found_lies id key db.time_entries.rows entry h.entry_keys.distinct e))

pub change_entries-IsSound :
    (id key : ℕ) (f : TimeEntry → TimeEntry) (entry : TimeEntry) (db : Database)
    → IsSound db
    → ((e : TimeEntry) → (f e).id ≡ e.id)
    → ((e : TimeEntry) → (f e).timesheet_id ≡ e.timesheet_id)
    → ((e : TimeEntry) → HasProject db.projects.rows e → HasProject db.projects.rows (f e))
    → first (λ e. e.id == key && e.timesheet_id == id) db.time_entries.rows ≡ some entry
    → IsSound (retotaled id (with_entries db (change (λ e. e.id == key) f db.time_entries.rows)))
change_entries-IsSound id key f entry db h same_id same_sheet project e =
    retotaled-IsSound id _ db h (change-IsKeyed _ _ f db.time_entries same_id h.entry_keys)
      (All-change _ _ f (λ x q. rw (same_sheet x) q) db.time_entries.rows h.attached)
      (All-change _ _ f project db.time_entries.rows h.linked)
      (change-Agree id key f db.time_entries.rows same_sheet
        (found_lies id key db.time_entries.rows entry h.entry_keys.distinct e))
