-- ===== src/Reports/Monthly/Hours.antt =====
-- The hours of a monthly sheet are those of the user's entries.
use tms_api.Prelude.{
  ℕ, zero, suc, ◌+◌, ◌-◌, ◌≤◌, ◌≡◌, refl, sym, ◌∙◌, ap, Bool, true, false, ◌&&◌, ◌||◌, Option, none,
  some, List, [], ◌∷◌, map, keep, sum, arith, ◌==◌, if◌then◌else◌, inl, inr, Bool-cases, ltb, first,
}
use tms_api.Dates.{Date, get_day}
use tms_api.Database.{Timesheet, TimeEntry, Project, Holiday, Database}
use tms_api.Reports.{within}
use tms_api.Reports.Monthly.{
  holiday_on, gather_entry, gather_entries, gather_sheet, gather_sheets, nothing_yet, Calendar,
  MonthlyDayRow, Counters, Gathered, day_row, count_day, month_days, column, get_day_key_for_date,
}

-- The hours of a column of a timesheet's entries.
abbrev pub hours_in : ℕ → ℕ → List TimeEntry → ℕ
hours_in id i entries =
    sum
      (map (λ (e : TimeEntry). (column i e.week).hours) (keep (λ e. e.timesheet_id == id) entries))

-- The hours of a timesheet on a date: those of the date's column, if it has one.
abbrev pub sheet_hours : Date → List TimeEntry → Timesheet → ℕ
sheet_hours date entries t = elim (get_day_key_for_date date t.week_start_date) [
  | none ↦ 0
  | some i ↦ hours_in t.id i entries
]

-- All hours of a user in an organisation on a date.
abbrev pub hours_on : Database → ℕ → ℕ → Date → ℕ
hours_on db org_id user_id date = sum (
    map (sheet_hours date db.time_entries.rows)
      (keep (λ t. t.user_id == user_id && t.organisation_id == org_id) db.timesheets.rows))

-- The rows from the day `d` on: each shows the hours on its day, unless it is a holiday's or of leave.
abbrev pub HasHours : (ℕ → ℕ) → ℕ → List MonthlyDayRow → Type 0
HasHours hours d [] = Unit
HasHours hours d (r ∷ rows) =
    (r.total_time ≡ (if r.is_holiday || r.is_leave then 0 else hours d))
    × HasHours hours (suc d) rows

added : (h old : ℕ) → (if ltb 0 h then old + h else old) ≡ old + h
added h old = ground arith

plus : (n a b rest : ℕ) → n ≡ a + b → n + rest ≡ a + (b + rest)
plus n a b rest e = omega (arith, e)

module _ (cal : Calendar) (projects : List Project) where
  entries-hours :
      (i : ℕ) (es : List TimeEntry) (g : Gathered)
      → (gather_entries cal projects i es g).hours
        ≡ g.hours + sum (map (λ (e : TimeEntry). (column i e.week).hours) es)
  entries-hours i [] g = omega arith
  entries-hours i (e ∷ es) g =
      let next = gather_entry cal i (first (λ p. p.id == e.project_id) projects) e g in
      let here : next.hours ≡ g.hours + (column i e.week).hours =
        added (column i e.week).hours g.hours in
      entries-hours i es next
      ∙ plus next.hours g.hours (column i e.week).hours
          (sum (map (λ (x : TimeEntry). (column i x.week).hours) es)) here

  sheet-hours :
      (date : Date) (t : Timesheet) (entries : List TimeEntry) (g : Gathered)
      → (gather_sheet cal projects date t entries g).hours ≡ g.hours + sheet_hours date entries t
  sheet-hours date t entries g = with_key (get_day_key_for_date date t.week_start_date)
    where
      with_key :
          (key : Option ℕ)
          → let gathered : Gathered = elim key [
            | none ↦ g
            | some i ↦ gather_entries cal projects i (keep (λ e. e.timesheet_id == t.id) entries) g
          ] in
            gathered.hours ≡ g.hours + (elim key [ none ↦ 0 | some i ↦ hours_in t.id i entries ])
      with_key none = omega arith
      with_key (some i) = entries-hours i _ g

  sheets-hours :
      (date : Date) (entries : List TimeEntry) (ts : List Timesheet) (g : Gathered)
      → (gather_sheets cal projects date entries ts g).hours
        ≡ g.hours + sum (map (sheet_hours date entries) ts)
  sheets-hours date entries [] g = omega arith
  sheets-hours date entries (t ∷ ts) g =
      let rest = sheets-hours date entries ts (gather_sheet cal projects date t entries g) in
      let here = sheet-hours date t entries g in omega (arith, rest, here)

keep_all : {A : Type 0} (xs : List A) → keep (λ _. true) xs ≡ xs
keep_all [] = refl
keep_all (x ∷ xs) = ap (λ l. x ∷ l) (keep_all xs)

-- Timesheets without hours may be left out of a sum.
zero_add : (n : ℕ) → 0 + n ≡ n
zero_add n = omega arith

three_tests :
    (a b q : Timesheet → Bool) (f : Timesheet → ℕ) (ts : List Timesheet)
    → ((t : Timesheet) → q t ≡ false → f t ≡ 0)
    → sum (map f (keep (λ t. a t && b t && q t) ts)) ≡ sum (map f (keep (λ t. a t && b t) ts))
three_tests a b q f [] h = refl
three_tests a b q f (t ∷ ts) h = elim (Bool-cases (a t)) [
  | inr out ↦ rw out (three_tests a b q f ts h)
  | inl in_a ↦ elim (Bool-cases (b t)) [
    | inr out ↦ rw (in_a, out) (three_tests a b q f ts h)
    | inl in_b ↦ elim (Bool-cases (q t)) [
      | inl in_q ↦ rw (in_a, in_b, in_q) (ap (λ n. f t + n) (three_tests a b q f ts h))
      | inr out ↦ rw (in_a, in_b, out, h t out) (three_tests a b q f ts h ∙ sym (zero_add _))
    ]
  ]
]

-- A week start outside the range of the query has no column for a date of the month.
no_key :
    (first_day days d : ℕ) (start : Date)
    → 1 ≤ d
    → d ≤ days
    → within
        (record { day = first_day - 7; ms = 0 })
        (record { day = first_day + days + 5; ms = 0 })
        start
      ≡ false
    → get_day_key_for_date (record { day = first_day + d - 1; ms = 0 }) start ≡ none
no_key first_day days d start from to outside = ground (arith, from, to, outside)

shown_hours :
    (cal : Calendar) (month d w : ℕ) (found : Option Holiday) (g : Gathered) (h : ℕ)
    → g.hours ≡ h
    → let row = day_row cal month d w found g in
      row.total_time ≡ (if row.is_holiday || row.is_leave then 0 else h)
shown_hours cal month d w found g h e = rw e refl

module _ (cal : Calendar) (projects : List Project) (holidays : List Holiday)
    (sheets : List Timesheet) (entries : List TimeEntry) (year month : ℕ) (hours : ℕ → ℕ) where
  days-HasHours :
      (left d : ℕ) (n : Counters)
      → ((k : ℕ)
          → d ≤ k
          → suc k ≤ d + left
          → sum (
              map
                (sheet_hours (record { day = cal.first_day year month + k - 1; ms = 0 }) entries)
                sheets)
            ≡ hours k)
      → HasHours hours d (month_days cal projects holidays sheets entries year month d left n).0
  unfolding month_days
  days-HasHours zero d n h = tt
  days-HasHours (suc left) d n h =
      let date : Date = record { day = cal.first_day year month + d - 1; ms = 0 } in
      let found = holiday_on cal holidays year month d in
      let g = gather_sheets cal projects date entries sheets (nothing_yet cal) in
      let row = day_row cal month d (get_day date) found g in
      (
        shown_hours cal month d (get_day date) found g (hours d) (
            sheets-hours cal projects date entries sheets (nothing_yet cal)
            ∙ zero_add _
            ∙ h d (omega arith) (omega arith)),
        days-HasHours left (suc d) (count_day cal found g row.is_weekend n)
            (λ k from to. h k (omega (arith, from)) (omega (arith, to))),
      )

-- With the timesheets and entries that `generateMonthlyTimesheetData` reads.
pub month-HasHours :
    (cal : Calendar) (org_id user_id year month : ℕ) (db : Database) (projects : List Project)
    (holidays : List Holiday) (n : Counters)
    → let first_day = cal.first_day year month in
      let days = cal.days_in year month in
      HasHours
        (λ d. hours_on db org_id user_id (record { day = first_day + d - 1; ms = 0 }))
        1
        (month_days cal projects holidays
          (keep
            (λ t.
              t.user_id == user_id
              && t.organisation_id == org_id
              && within
                  (record { day = first_day - 7; ms = 0 })
                  (record { day = first_day + days + 5; ms = 0 })
                  t.week_start_date)
            db.timesheets.rows)
          (keep (λ _. true) db.time_entries.rows)
          year
          month
          1
          days
          n).0
month-HasHours cal org_id user_id year month db projects holidays n =
    rw (keep_all db.time_entries.rows) (
      days-HasHours cal projects holidays _ db.time_entries.rows year month _
        (cal.days_in year month) 1 n λ k from to. sum_read k from (omega (arith, to)))
  where
    key_hours :
        (date : Date) (t : Timesheet)
        → get_day_key_for_date date t.week_start_date ≡ none
        → sheet_hours date db.time_entries.rows t ≡ 0
    key_hours date t e =
        ap (λ key. elim key [ none ↦ 0 | some i ↦ hours_in t.id i db.time_entries.rows ]) e

    sum_read :
        (k : ℕ)
        → 1 ≤ k
        → k ≤ cal.days_in year month
        → sum (
            map
              (sheet_hours
                (record { day = cal.first_day year month + k - 1; ms = 0 })
                db.time_entries.rows)
              (keep
                (λ t.
                  t.user_id == user_id
                  && t.organisation_id == org_id
                  && within
                      (record { day = cal.first_day year month - 7; ms = 0 })
                      (record {
                        day = cal.first_day year month + cal.days_in year month + 5;
                        ms = 0;
                      })
                      t.week_start_date)
                db.timesheets.rows))
          ≡ hours_on db org_id user_id (record { day = cal.first_day year month + k - 1; ms = 0 })
    sum_read k from to =
        three_tests (λ t. t.user_id == user_id) (λ t. t.organisation_id == org_id)
          (λ t.
            within (record { day = cal.first_day year month - 7; ms = 0 })
              (record { day = cal.first_day year month + cal.days_in year month + 5; ms = 0 })
              t.week_start_date)
          (sheet_hours (record { day = cal.first_day year month + k - 1; ms = 0 })
            db.time_entries.rows)
          db.timesheets.rows
          (λ t out.
            key_hours (record { day = cal.first_day year month + k - 1; ms = 0 }) t
              (no_key (cal.first_day year month) (cal.days_in year month) k t.week_start_date from
                to out))
