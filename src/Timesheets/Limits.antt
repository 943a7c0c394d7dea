-- ===== src/Timesheets/Limits.antt =====
-- The limits that `createEntry` enforces on a new entry.
use tms_api.Prelude.{
  ℕ, ◌≤◌, ◌++◌, sum, map, ◌≡◌, refl, false, any, List, [], ◌∷◌, All, first, ◌==◌, arith,
}
use tms_api.Prisma.{Client, IsLawful, in_memory-eq}
use tms_api.Prisma.Keys.{IsKeyed}
use tms_api.Runtime.{Runtime}
use tms_api.Database.{Database, UserRole, Timesheet, TimeEntry, DayCell, days}
use tms_api.Database.Triple.{After}
use tms_api.Timesheets.Entries.{
  CreateEntryDto, DayDto, max_per_day, exceeds, new_cell, calc_entry_total, create_entry,
}
use tms_api.Timesheets.Effects.Entries.{IsAccepted, After-create_entry}

-- The day's hours, in a new entry.
within_day : (most : ℕ) (d : DayDto) → exceeds most d ≡ false → (new_cell d).hours ≤ most
within_day most d h = ground (arith, h)

within_days :
    (most : ℕ) (ds : List DayDto)
    → any (exceeds most) ds ≡ false
    → All (λ (d : DayDto). (new_cell d).hours ≤ most) ds
within_days most [] h = tt
within_days most (d ∷ ds) h =
    (within_day most d (ground (arith, h)), within_days most ds (ground (arith, h)))

abbrev pub hours_of : DayCell → ℕ
hours_of cell = cell.hours

-- The entry `e` was created in `timesheet_id`, taking the tables from `old` to `new`.
pub record IsCreated (timesheet_id user_id org_id : ℕ) (dto : CreateEntryDto) (role : UserRole)
    (old new : Database) (e : TimeEntry) : Type 0 where
  pub accepted : (t : Timesheet) × IsAccepted timesheet_id user_id org_id dto role old t
  pub within :
      All
        (λ (cell : DayCell).
          cell.hours ≤ max_per_day (first (λ s. s.organisation_id == org_id) old.org_settings.rows))
        (days e.week)
  pub total : e.total_hours ≡ sum (map hours_of (days e.week))
  pub stored : new.time_entries.rows ≡ old.time_entries.rows ++ e ∷ []

-- With distinct timesheet ids, a call of `createEntry` that throws has written nothing. One that
-- returns has passed the checks: the caller's own draft or rejected timesheet, descriptions where
-- the settings ask for them, a project of the organisation, for an employee an assigned one; it
-- has appended the entry, no day of which is above the organisation's limit, and whose total is
-- the sum of its seven days.
pub create_entry-IsCreated :
    (c : Client) (rt : Runtime)
    → IsLawful c
    → (timesheet_id user_id org_id : ℕ) (dto : CreateEntryDto) (role : UserRole) (db : Database)
    → IsKeyed (λ (s : Timesheet). s.id) db.timesheets
    → After
        (λ new. new ≡ db)
        (λ e new. IsCreated timesheet_id user_id org_id dto role db new e)
        (create_entry c rt timesheet_id user_id org_id dto role)
        db
unfolding calc_entry_total
create_entry-IsCreated c rt lawful timesheet_id user_id org_id dto role db keys =
    rw (in_memory-eq lawful) (
      After-create_entry keys rt timesheet_id user_id org_id dto role refl λ t ok. record {
        accepted = (t, ok);
        within = within_days _ (days dto.week) ok.within;
        total = omega arith;
        stored = refl;
      })
