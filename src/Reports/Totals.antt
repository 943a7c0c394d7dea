-- ===== src/Reports/Totals.antt =====
-- The aggregates of a report on sound tables.
use native.Mathlib.Nat.{div-lt_iff_lt-mul}
use mathlib.Core.List.{map}
use tms_api.Prelude.{
  ℕ, ◌+◌, ◌<◌, ◌≤◌, ◌≡◌, refl, sym, List, [], ◌∷◌, keep, length, ltb, All, All-keep, arith, inl,
  inr, Bool-cases,
}
use tms_api.Prisma.{Client, IsLawful, in_memory-eq}
use tms_api.Runtime.{Runtime}
use tms_api.Database.{Database, UserRole, Timesheet, TimeEntry, timesheet, time_entry}
use tms_api.Database.Triple.{After, After-seq, After-or_throw, After-find_many, After-pure}
use tms_api.Timesheets.Sheets.{reduce_hours, billable_only}
use tms_api.Timesheets.Effects.Entries.{entries_of}
use tms_api.Service.Invariant.{IsSound, Matches}
use tms_api.Reports.{
  ReportFilters, Report, given, sum_hours, percentage, aggregates_of, generate_report,
}
use tms_api.Reports.Scope.{After-user_scope}

-- Billable hours are part of all hours.
billable-le :
    (es : List TimeEntry) (n m : ℕ) → n ≤ m → reduce_hours n (billable_only es) ≤ reduce_hours m es
billable-le [] n m h = h
billable-le (e ∷ es) n m h = elim (Bool-cases e.billable) [
  | inl paid ↦ rw paid (billable-le es (n + e.total_hours) (m + e.total_hours) (omega (arith, h)))
  | inr unpaid ↦ rw unpaid (billable-le es n (m + e.total_hours) (omega (arith, h)))
]

abbrev WithinTotal : Timesheet → Type 0
WithinTotal t = t.billable_hours ≤ t.total_hours

all-WithinTotal :
    (es : List TimeEntry) (ts : List Timesheet) → All (Matches es) ts → All WithinTotal ts
all-WithinTotal es [] h = tt
all-WithinTotal es (t ∷ ts) h = (
  rw (h.0.0, h.0.1) (billable-le (entries_of t.id es) 0 0 (omega arith)),
  all-WithinTotal es ts h.1,
)

sum-le :
    (ts : List Timesheet) (n m : ℕ)
    → n ≤ m
    → All WithinTotal ts
    → sum_hours (λ t. t.billable_hours) n ts ≤ sum_hours (λ t. t.total_hours) m ts
sum-le [] n m h w = h
sum-le (t ∷ ts) n m h w =
    sum-le ts (n + t.billable_hours) (m + t.total_hours) (omega (arith, h, w.0)) w.1

percentage-le : (part whole : ℕ) → part ≤ whole → 0 < whole → percentage part whole ≤ 100
percentage-le part whole h pos =
    let below : percentage part whole < 101 =
      (div-lt_iff_lt-mul (omega (arith, pos))).1 (omega (arith, h, pos)) in
    omega (arith, below)

-- The parts of a report's aggregates.
pub record AddsUp (r : Report) : Type 0 where
  pub parts :
      r.aggregates.billable_hours + r.aggregates.non_billable_hours ≡ r.aggregates.total_hours
  pub at_most : r.aggregates.utilization ≤ 100
  pub counted : r.aggregates.timesheet_count ≡ length r.timesheets

pub length-map : {A B : Type 0} (f : A → B) (xs : List A) → length (map f xs) ≡ length xs
length-map f [] = refl
length-map f (x ∷ xs) = ground (arith, length-map f xs)

module _ (ts : List Timesheet) (w : All WithinTotal ts) where
  le : (aggregates_of ts).billable_hours ≤ (aggregates_of ts).total_hours
  le = sum-le ts 0 0 (omega arith) w

  aggregates_of-AddsUp :
      (extra : Timesheet → List TimeEntry)
      → AddsUp (record { timesheets = map (λ t. (t, extra t)) ts; aggregates = aggregates_of ts })
  aggregates_of-AddsUp extra = record {
    parts = omega (arith, le);
    at_most = elim (Bool-cases (ltb 0 (aggregates_of ts).total_hours)) [
      | inl pos ↦ rw pos (percentage-le _ _ le (ground (arith, pos)))
      | inr zero ↦ rw zero (omega arith)
    ];
    counted = sym (length-map (λ t. (t, extra t)) ts);
  }

-- On sound tables, the hours of a report add up: the billable and the other hours are all hours, no
-- subtraction falls below 0, the utilization is at most 100 per cent, and every timesheet listed is
-- counted.
pub generate_report-AddsUp :
    (c : Client) (rt : Runtime)
    → IsLawful c
    → (org_id : ℕ) (filters : ReportFilters) (requesting_id : ℕ) (role : UserRole) (db : Database)
    → IsSound db
    → After
        (λ new. new ≡ db)
        (λ r _. AddsUp r)
        (generate_report c rt org_id filters requesting_id role)
        db
unfolding generate_report
generate_report-AddsUp c rt lawful org_id filters requesting_id role db sound =
    rw (in_memory-eq lawful) (
      After-seq _ _ (
        After-user_scope org_id (given filters.user_id) requesting_id role (λ denied. refl)
          λ scope same ok.
            After-or_throw _ _ _ (λ _. refl)
              λ from _.
                After-or_throw _ _ _ (λ _. refl)
                  λ to _. After-find_many timesheet _ _ (
                    After-find_many time_entry _ _ (
                      After-pure _ (
                        aggregates_of-AddsUp (keep _ db.timesheets.rows)
                          (All-keep _ _ db.timesheets.rows
                            (all-WithinTotal db.time_entries.rows db.timesheets.rows sound.totals))
                          _)))))
