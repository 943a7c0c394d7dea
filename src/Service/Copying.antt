-- ===== src/Service/Copying.antt =====
-- What copying the previous week does to the target week's entries, and to no others.
use tms_api.Prelude.{
  ℕ, suc, ◌≡◌, ◌⊎◌, inl, inr, Option, refl, ◌∙◌, ap, String, Bool, true, not, some, List, [], ◌∷◌,
  map, keep, first, ◌==◌,
}
use tms_api.Prisma.{Client, IsLawful, in_memory-eq}
use tms_api.Runtime.{Runtime}
use tms_api.Dates.{Date}
use tms_api.Database.{Database, UserRole, Timesheet, TimeEntry, DayCell, days, draft}
use tms_api.Database.Triple.{After}
use tms_api.Timesheets.CopyWeek.{copy_previous_week}
use tms_api.Timesheets.Sheets.{same_week}
use tms_api.Timesheets.Effects.Entries.{entries_of}
use tms_api.Timesheets.Effects.CopyWeek.{IsPrevious, source, skipped, After-copy_previous_week}
use tms_api.Service.Invariant.{IsSound, Agree, entries_of-fresh, entries_of-delete}
use tms_api.Service.Copies.{copies, copies-Agree, own_entries, entries_of-cleared}

-- What a copied entry takes over: the project, whether it is billable, the hours and descriptions
-- of the seven days, and the total.
abbrev pub content : TimeEntry → (ℕ × Bool) × List (ℕ × Option String) × ℕ
content e = (
  (e.project_id, e.billable),
  map (λ (d : DayCell). (d.hours, d.desc)) (days e.week),
  e.total_hours,
)

content-copies : (id n : ℕ) (es : List TimeEntry) → map content (copies id n es) ≡ map content es
content-copies id n [] = refl
content-copies id n (e ∷ es) = ap (λ rest. content e ∷ rest) (content-copies id (suc n) es)

pub record IsCopied (user_id org_id : ℕ) (role : UserRole) (force : Bool) (old new : Database)
    (skipped_count : ℕ) : Type 0 where
  pub previous : Timesheet
  pub is_previous : IsPrevious user_id org_id old previous
  pub count : skipped_count ≡ skipped user_id org_id role previous old
  -- The timesheet that the entries are copied to: a new one, or a draft that is overwritten by force.
  pub target : ℕ
  pub writable :
      (target ≡ old.timesheets.next_id)
      ⊎ ((t : Timesheet) × (date : Date) × (first
              (same_week user_id org_id date)
              old.timesheets.rows
            ≡ some t)
          × (t.id ≡ target)
          × (t.status ≡ draft)
          × (force ≡ true))
  pub contents :
      map content (entries_of target new.time_entries.rows)
      ≡ map content (source user_id org_id role previous old)
  pub others : Agree target old.time_entries.rows new.time_entries.rows

-- On sound tables, a call of `copyPreviousWeek` that throws has written nothing. One that returns
-- leaves the target timesheet, a new one or the caller's own draft with `force` set, with exactly
-- the entries of the caller's last submitted or approved timesheet in order (for an employee those
-- on assigned projects), time off aside, counts the ones left out, and leaves the entries of every
-- other timesheet as they were.
pub copy_previous_week-IsCopied :
    (c : Client) (rt : Runtime)
    → IsLawful c
    → (user_id org_id : ℕ) (text : String) (role : UserRole) (force : Bool) (db : Database)
    → IsSound db
    → After
        (λ new. new ≡ db)
        (λ r new. IsCopied user_id org_id role force db new r.1)
        (copy_previous_week c rt user_id org_id text role force)
        db
copy_previous_week-IsCopied c rt lawful user_id org_id text role force db h =
    rw (in_memory-eq lawful) (
      After-copy_previous_week rt user_id org_id role text force refl
        (λ previous existing t date prev is_existing is_draft forced. record {
          previous = previous;
          is_previous = prev;
          count = refl;
          target = existing.id;
          writable = inr (existing, date, is_existing, refl, is_draft, forced);
          contents =
              ap (map content) (
                own_entries existing.id n (rest existing.id) (taken previous)
                  (entries_of-cleared existing.id db.time_entries.rows))
              ∙ content-copies existing.id n (taken previous);
          others = λ j ne.
              copies-Agree existing.id n (rest existing.id) (taken previous) j ne
              ∙ entries_of-delete j existing.id db.time_entries.rows ne;
        })
        (λ previous input _ prev _. record {
          previous = previous;
          is_previous = prev;
          count = refl;
          target = db.timesheets.next_id;
          writable = inl refl;
          contents =
              ap (map content) (
                own_entries db.timesheets.next_id n db.time_entries.rows (taken previous)
                  (entries_of-fresh db.timesheets.next_id db.time_entries.rows h.attached))
              ∙ content-copies db.timesheets.next_id n (taken previous);
          others = copies-Agree db.timesheets.next_id n db.time_entries.rows (taken previous);
        }))
  where
    n : ℕ
    n = db.time_entries.next_id

    rest : ℕ → List TimeEntry
    rest id = keep (λ e. not (e.timesheet_id == id)) db.time_entries.rows

    taken : Timesheet → List TimeEntry
    taken previous = source user_id org_id role previous db
