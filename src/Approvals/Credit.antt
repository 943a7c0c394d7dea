-- ===== src/Approvals/Credit.antt =====
-- What an approval does: the guards passed, the timesheet's row, and the hours credited to projects.
use mathlib.Core.Option
use tms_api.Prelude.{
  ℕ, ◌+◌, ◌≡◌, ◌≢◌, refl, sym, ◌∙◌, ap, ==_refl, false, true, Option, none, some, List, [], ◌∷◌,
  All, first, change, arith, ◌==◌, if◌then◌else◌, Bool-cases, inl, inr,
}
use tms_api.Prisma.{Client, IsLawful, in_memory-eq}
use tms_api.Prisma.Rows.{first-change}
use tms_api.Prisma.Keys.{IsKeyed, first-key}
use tms_api.Runtime.{Runtime}
use tms_api.Database.{Database, UserRole, Timesheet, TimeEntry, Project}
use tms_api.Database.Triple.{After}
use tms_api.Timesheets.Effects.Entries.{entries_of}
use tms_api.Approvals.{approve_timesheet}
use tms_api.Approvals.Guards.{IsReviewable}
use tms_api.Approvals.Effects.{HasProject, approve_row, credit, credit_row, After-approve}

-- The hours of the entries on one project.
abbrev pub hours_on : ℕ → List TimeEntry → ℕ
hours_on k [] = 0
hours_on k (e ∷ es) = if e.project_id == k then e.total_hours + hours_on k es else hours_on k es

abbrev pub add_hours : ℕ → Project → Project
add_hours hours p = record p { used_hours = p.used_hours + hours }

add_hours-add_hours :
    (a b : ℕ) (o : Option Project)
    → Option.map (add_hours a) (Option.map (add_hours b) o) ≡ Option.map (add_hours (b + a)) o
add_hours-add_hours a b none = refl
add_hours-add_hours a b (some p) = ground arith

add_hours-zero : (o : Option Project) → Option.map (add_hours 0) o ≡ o
add_hours-zero none = refl
add_hours-zero (some p) = ground arith

credited_step :
    (k id hours rest : ℕ) (o : Option Project)
    → Option.map (add_hours rest) (if k == id then Option.map (add_hours hours) o else o)
      ≡ Option.map (add_hours (if id == k then hours + rest else rest)) o
credited_step k id hours rest o = elim (Bool-cases (k == id)) [
  | inl e ↦
      let back : (id == k) ≡ true = ground (arith, e) in
      rw (e, back) (add_hours-add_hours rest hours o)
  | inr e ↦ let back : (id == k) ≡ false = ground (arith, e) in rw (e, back) refl
]

-- The loop over the entries adds to each project the hours of its own entries.
first-credit :
    (k : ℕ) (es : List TimeEntry) (ps : List Project)
    → first (λ (p : Project). p.id == k) (credit es ps)
      ≡ Option.map (add_hours (hours_on k es)) (first (λ (p : Project). p.id == k) ps)
first-credit k [] ps = sym (add_hours-zero _)
first-credit k (e ∷ es) ps =
    first-credit k es (change (λ p. p.id == e.project_id) (credit_row e) ps)
    ∙ ap (Option.map (add_hours (hours_on k es)))
        (first-change (λ (p : Project). p.id) (credit_row e) (λ p. refl) k e.project_id ps)
    ∙ credited_step k e.project_id e.total_hours (hours_on k es)
        (first (λ (p : Project). p.id == k) ps)

-- What holds of the database once the timesheet `id` is approved by `approver`.
pub record IsApproved (rt : Runtime) (id approver org_id : ℕ) (role : UserRole) (old new : Database)
    : Type 0 where
  pub t : Timesheet
  pub reviewable : IsReviewable id approver org_id role old t
  pub row : first (λ s. s.id == id) new.timesheets.rows ≡ some (approve_row approver rt.now t)
  pub others :
      (k : ℕ)
      → k ≢ id
      → first (λ s. s.id == k) new.timesheets.rows ≡ first (λ s. s.id == k) old.timesheets.rows
  pub entries : new.time_entries ≡ old.time_entries
  pub credited :
      (k : ℕ)
      → first (λ p. p.id == k) new.projects.rows
        ≡ Option.map
            (add_hours (hours_on k (entries_of id old.time_entries.rows)))
            (first (λ p. p.id == k) old.projects.rows)

pub found_key :
    {id approver org_id : ℕ} {role : UserRole} {db : Database} {t : Timesheet}
    → IsKeyed (λ (s : Timesheet). s.id) db.timesheets
    → IsReviewable id approver org_id role db t
    → first (λ s. s.id == id) db.timesheets.rows ≡ some t
found_key {id} {db} {t} keys ok =
    first-key (λ s. s.id) _ id db.timesheets.rows t (λ s e. ground (arith, e)) keys.distinct
      ok.found

-- With distinct timesheet ids, and projects for the timesheet's entries: an approval that throws
-- has written nothing; one that returns was of a submitted timesheet of the organisation, of
-- another user than the approver, and of a direct report if the approver is a manager; it approves
-- that timesheet, leaves the others and all entries alone, and adds to the used hours of each
-- project the hours of the timesheet's entries on it.
pub approve_timesheet-IsApproved :
    (c : Client) (rt : Runtime)
    → IsLawful c
    → (id approver org_id : ℕ) (role : UserRole) (db : Database)
    → IsKeyed (λ (s : Timesheet). s.id) db.timesheets
    → All (HasProject db.projects.rows) (entries_of id db.time_entries.rows)
    → After
        (λ new. new ≡ db)
        (λ _ new. IsApproved rt id approver org_id role db new)
        (approve_timesheet c rt id approver org_id role)
        db
approve_timesheet-IsApproved c rt lawful id approver org_id role db keys linked =
    rw (in_memory-eq lawful) (
      After-approve keys rt id approver org_id role linked refl λ t ok r type message. record {
        t = t;
        reviewable = ok;
        row = rw (sheet_changed id) (rw (==_refl id, found_key keys ok) refl);
        others = λ k ne. rw (sheet_changed k) (ground (arith, ne));
        entries = refl;
        credited = λ k. first-credit k (entries_of id db.time_entries.rows) db.projects.rows;
      })
  where
    sheet_changed :
        (k : ℕ)
        → first
            (λ s. s.id == k)
            (change
              (λ (s : Timesheet). s.id == id)
              (approve_row approver rt.now)
              db.timesheets.rows)
          ≡ (if k == id
              then Option.map
                  (approve_row approver rt.now)
                  (first (λ s. s.id == k) db.timesheets.rows)
              else first (λ s. s.id == k) db.timesheets.rows)
    sheet_changed k =
        first-change (λ (s : Timesheet). s.id) (approve_row approver rt.now) (λ s. refl) k id _
