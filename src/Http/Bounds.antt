-- ===== src/Http/Bounds.antt =====
-- The bounds that validation puts on time entries, kept by every request on timesheets.
use tms_api.Prelude.{
  ℕ, suc, ◌+◌, ◌≤◌, ◌≡◌, refl, Bool, true, ◌&&◌, Option, none, some, or_default, List, [], ◌∷◌, map,
  All, All-append, All-keep, All-change, All-first, all, keep, arith,
}
use tms_api.Prisma.{in_memory, number_from}
use tms_api.Runtime.{Runtime}
use tms_api.Database.{
  Database, UserRole, employee, manager, admin, DayCell, Week, days, Timesheet, TimeEntry,
}
use tms_api.Database.Action.{Action, ◌>>◌, pure}
use tms_api.Database.Triple.{After, After-then, After-pure}
use tms_api.Timesheets.Entries.{
  DayDto, CreateEntryDto, UpdateEntryDto, new_cell, merge_cell, calc_entry_total,
}
use tms_api.Timesheets.CopyWeek.{copy_entry}
use tms_api.Timesheets.Effects.Sheets.{
  After-submit, After-update_timesheet, After-create_timesheet, After-delete_timesheet,
}
use tms_api.Timesheets.Effects.Entries.{
  entries_of, edit_entry, new_entry, After-create_entry, After-update_entry, After-delete_entry,
}
use tms_api.Timesheets.Effects.CopyWeek.{source, After-copy_previous_week}
use tms_api.Approvals.Effects.{After-approve, After-reject}
use tms_api.Service.{
  JwtPayload, Request, create, update, remove, submit, copy_previous_week, create_entry,
  update_entry, delete_entry, approve, reject, handle,
}
use tms_api.Service.Invariant.{IsSound}
use tms_api.Http.Schemas.{day_schema, is_positive, optional}
use tms_api.Http.Routes.{is_valid_request}

-- At most 24 hours of work and 8 of time off.
abbrev pub IsDay : DayCell → Type 0
IsDay cell = (cell.hours ≤ 1440) × (cell.time_off ≤ 480)

abbrev pub week_total : Week DayCell → ℕ
week_total w =
    w.mon.hours + w.tue.hours + w.wed.hours + w.thu.hours + w.fri.hours + w.sat.hours + w.sun.hours

abbrev pub InBounds : TimeEntry → Type 0
InBounds e = All IsDay (days e.week) × (e.total_hours ≡ week_total e.week)

abbrev pub AllInBounds : Database → Type 0
AllInBounds db = All InBounds db.time_entries.rows

new_cell-IsDay : (d : DayDto) → day_schema d ≡ true → IsDay (new_cell d)
new_cell-IsDay d h = day d.hours d.time_off h
  where
    day :
        (hours time_off : Option ℕ)
        → day_schema (record { hours = hours; desc = d.desc; time_off = time_off }) ≡ true
        → (or_default hours 0 ≤ 1440) × (or_default time_off 0 ≤ 480)
    day none none h = ground arith
    day none (some b) h = ground arith
    day (some a) none h = ground arith
    day (some a) (some b) h = ground arith

merge_cell-IsDay :
    (d : DayDto) (cell : DayCell) → day_schema d ≡ true → IsDay cell → IsDay (merge_cell d cell)
merge_cell-IsDay d cell h old = day d.hours d.time_off h
  where
    day :
        (hours time_off : Option ℕ)
        → day_schema (record { hours = hours; desc = d.desc; time_off = time_off }) ≡ true
        → (or_default hours cell.hours ≤ 1440) × (or_default time_off cell.time_off ≤ 480)
    day none none h = ground (arith, old)
    day none (some b) h = ground (arith, old)
    day (some a) none h = ground (arith, old)
    day (some a) (some b) h = ground (arith, old)

all-All : {A : Type 0} (p : A → Bool) (xs : List A) → all p xs ≡ true → All (λ x. p x ≡ true) xs
all-All p [] h = tt
all-All p (x ∷ xs) h = (ground (arith, h), all-All p xs (ground (arith, h)))

second : (a b : Bool) → (a && b) ≡ true → b ≡ true
second a b h = ground (arith, h)

new_entry-InBounds :
    (id key : ℕ) (dto : CreateEntryDto)
    → is_valid_request (create_entry id dto) ≡ true
    → InBounds (new_entry id dto key)
unfolding calc_entry_total
new_entry-InBounds id key dto valid =
    let (mon, (tue, (wed, (thu, (fri, (sat, (sun, done))))))) =
      all-All day_schema (days dto.week) (second (is_positive dto.project_id) _ valid) in
    (
      (
        new_cell-IsDay dto.week.mon mon,
        (
          new_cell-IsDay dto.week.tue tue,
          (
            new_cell-IsDay dto.week.wed wed,
            (
              new_cell-IsDay dto.week.thu thu,
              (
                new_cell-IsDay dto.week.fri fri,
                (new_cell-IsDay dto.week.sat sat, (new_cell-IsDay dto.week.sun sun, tt)),
              ),
            ),
          ),
        ),
      ),
      refl,
    )

edit_entry-InBounds :
    (id eid : ℕ) (dto : UpdateEntryDto) (entry e : TimeEntry)
    → is_valid_request (update_entry id eid dto) ≡ true
    → InBounds entry
    → InBounds (edit_entry dto entry e)
unfolding calc_entry_total
edit_entry-InBounds id eid dto entry e valid
      ((mon', (tue', (wed', (thu', (fri', (sat', (sun', done'))))))), total) =
    let (mon, (tue, (wed, (thu, (fri, (sat, (sun, done))))))) =
      all-All day_schema (days dto.week) (second (optional is_positive dto.project_id) _ valid) in
    (
      (
        merge_cell-IsDay dto.week.mon entry.week.mon mon mon',
        (
          merge_cell-IsDay dto.week.tue entry.week.tue tue tue',
          (
            merge_cell-IsDay dto.week.wed entry.week.wed wed wed',
            (
              merge_cell-IsDay dto.week.thu entry.week.thu thu thu',
              (
                merge_cell-IsDay dto.week.fri entry.week.fri fri fri',
                (
                  merge_cell-IsDay dto.week.sat entry.week.sat sat sat',
                  (merge_cell-IsDay dto.week.sun entry.week.sun sun sun', tt),
                ),
              ),
            ),
          ),
        ),
      ),
      refl,
    )

without_time_off : {n m : ℕ} → (n ≤ 1440) × (m ≤ 480) → (n ≤ 1440) × (0 ≤ 480)
without_time_off day = (day.0, omega arith)

copies-InBounds :
    (id n : ℕ) (es : List TimeEntry)
    → All InBounds es
    → All InBounds (number_from n (map (copy_entry id) es))
copies-InBounds id n [] h = tt
copies-InBounds id n (e ∷ es)
      ((((mon, (tue, (wed, (thu, (fri, (sat, (sun, done))))))), total), rest)) =
    (
      (
        (
          without_time_off mon,
          (
            without_time_off tue,
            (
              without_time_off wed,
              (
                without_time_off thu,
                (without_time_off fri, (without_time_off sat, (without_time_off sun, tt))),
              ),
            ),
          ),
        ),
        total,
      ),
      copies-InBounds id (suc n) es rest,
    )

source-InBounds :
    (user_id org_id : ℕ) (role : UserRole) (previous : Timesheet) (db : Database)
    → AllInBounds db
    → All InBounds (source user_id org_id role previous db)
source-InBounds user_id org_id employee previous db h =
    All-keep _ _ (entries_of previous.id db.time_entries.rows) (All-keep _ _ db.time_entries.rows h)
source-InBounds user_id org_id manager previous db h = All-keep _ _ db.time_entries.rows h
source-InBounds user_id org_id admin previous db h = All-keep _ _ db.time_entries.rows h

module _ (rt : Runtime) (user : JwtPayload) (db : Database) (sound : IsSound db)
    (h : AllInBounds db) where
  answered :
      {A : Type 0} (m : Action A)
      → After AllInBounds (λ _. AllInBounds) m db
      → After AllInBounds (λ _. AllInBounds) (m >> pure tt) db
  answered m step = After-then _ m _ step λ d q. After-pure tt q

  pub request-InBounds :
      (request : Request)
      → is_valid_request request ≡ true
      → After AllInBounds (λ _. AllInBounds) (handle in_memory rt user request) db
  unfolding handle
  request-InBounds (create text) valid =
      answered _ (After-create_timesheet rt _ _ text h λ date _ _ _. h)
  request-InBounds (update id text) valid =
      answered _ (After-update_timesheet rt id _ _ text h λ t own _ date _ r. h)
  request-InBounds (remove id) valid =
      After-delete_timesheet id _ _ h λ t _ _. All-keep _ _ db.time_entries.rows h
  request-InBounds (submit id) valid = answered _ (After-submit id _ _ h λ t own _ r. h)
  request-InBounds (copy_previous_week text force) valid = answered _ (
      After-copy_previous_week rt user.user_id user.org_id user.role text force h
        (λ previous existing t date prev is_existing _ _.
          All-append _ (keep _ db.time_entries.rows) _ (All-keep _ _ db.time_entries.rows h) (
            copies-InBounds existing.id _ _
              (source-InBounds user.user_id user.org_id user.role previous db h)))
        (λ previous input _ prev _. All-append _ db.time_entries.rows _ h (
          copies-InBounds _ _ _
            (source-InBounds user.user_id user.org_id user.role previous db h))))
  request-InBounds (create_entry id dto) valid = answered _ (
      After-create_entry sound.sheet_keys rt id _ _ dto _ h λ t ok.
        All-append _ db.time_entries.rows _ h
          (new_entry-InBounds id db.time_entries.next_id dto valid, tt))
  request-InBounds (update_entry id eid dto) valid = answered _ (
      After-update_entry sound.sheet_keys id eid _ _ dto _ h λ t entry own _ is_entry _ exists r.
        All-change _ _ (edit_entry dto entry)
          (λ e _.
            edit_entry-InBounds id eid dto entry e valid
              (All-first InBounds _ db.time_entries.rows h is_entry))
          db.time_entries.rows h)
  request-InBounds (delete_entry id eid) valid =
      After-delete_entry sound.sheet_keys id eid _ _ h
        λ t entry own _ is_entry. All-keep _ _ db.time_entries.rows h
  request-InBounds (approve id) valid = answered _ (
      After-approve sound.sheet_keys rt id user.user_id user.org_id user.role
        (All-keep _ _ db.time_entries.rows sound.linked) h λ t ok r type message. h)
  request-InBounds (reject id reason) valid = answered _ (
      After-reject sound.sheet_keys rt id user.user_id user.org_id reason user.role h (λ t ok. h)
        λ t ok r type message. h)
