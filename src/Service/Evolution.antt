-- ===== src/Service/Evolution.antt =====
-- What one request can do to a given timesheet and its entries, as a step relation.
use tms_api.Prelude.{
  ℕ, ◌≡◌, ◌≢◌, ◌<◌, ap, All-first, ◌∷◌, refl, sym, ◌∙◌, String, Bool, true, false, not, ◌&&◌,
  Option, none, some, List, [], ◌++◌, keep, first, change, arith, ◌==◌, Bool-cases, inl, inr,
}
use mathlib.Core.Option.{some-injective}
use tms_api.Dates.{Date}
use tms_api.Prisma.Keys.{first-key, IsKeyed}
use tms_api.Prisma.Rows.{first_sound, first-change, first-delete, first-append}
use tms_api.Database.{Database, UserRole, Timesheet, TimeEntry, draft, submitted}
use tms_api.Timesheets.Sheets.{is_open, owned}
use tms_api.Timesheets.Effects.Sheets.{IsOwn, submit_row}
use tms_api.Timesheets.Effects.Entries.{entries_of}
use tms_api.Approvals.Effects.{approve_row, reject_row}
use tms_api.Approvals.Guards.{IsReviewable}
use tms_api.Service.Invariant.{Agree, entries_of-delete}
use tms_api.Service.Copies.{entries_of-cleared}

-- From the timesheet `t` with the entries `es`, a request of the user `actor` of the organisation
-- `org_id` leads to `row`
-- (`none`: deleted) with the entries `rest`.
pub data Evolves (actor org_id : ℕ) (t : Timesheet) (es : List TimeEntry) (row : Option Timesheet)
    (rest : List TimeEntry) : Type 0 where
  untouched : row ≡ some t → rest ≡ es → Evolves actor org_id t es row rest
  edited :
      (s : Timesheet)
      → row ≡ some s
      → is_open t.status ≡ true
      → t.user_id ≡ actor
      → t.organisation_id ≡ org_id
      → s.status ≡ t.status
      → s.user_id ≡ t.user_id
      → s.organisation_id ≡ t.organisation_id
      → Evolves actor org_id t es row rest
  submits :
      row ≡ some (submit_row t t)
      → rest ≡ es
      → is_open t.status ≡ true
      → t.user_id ≡ actor
      → t.organisation_id ≡ org_id
      → Evolves actor org_id t es row rest
  approves :
      (now : Date)
      → row ≡ some (approve_row actor now t)
      → rest ≡ es
      → t.status ≡ submitted
      → t.user_id ≢ actor
      → t.organisation_id ≡ org_id
      → Evolves actor org_id t es row rest
  rejects :
      (reason : String)
      → row ≡ some (reject_row reason t)
      → rest ≡ es
      → t.status ≡ submitted
      → t.user_id ≢ actor
      → t.organisation_id ≡ org_id
      → Evolves actor org_id t es row rest
  deletes :
      row ≡ none
      → rest ≡ []
      → t.status ≡ draft
      → t.user_id ≡ actor
      → t.organisation_id ≡ org_id
      → Evolves actor org_id t es row rest

-- The same, of the timesheet that the key `k` names, in two states of the database.
abbrev pub EvolvesIn : ℕ → ℕ → Timesheet → ℕ → List TimeEntry → Database → Type 0
EvolvesIn actor org_id t k es db =
    Evolves actor org_id t es (first (λ s. s.id == k) db.timesheets.rows)
      (entries_of k db.time_entries.rows)

module _ (k : ℕ) (t : Timesheet) (rows : List Timesheet)
    (is_t : first (λ (s : Timesheet). s.id == k) rows ≡ some t) where
  changed_row :
      (id : ℕ) (f : Timesheet → Timesheet)
      → ((s : Timesheet) → (f s).id ≡ s.id)
      → (k == id) ≡ true
      → first (λ s. s.id == k) (change (λ s. s.id == id) f rows) ≡ some (f t)
  changed_row id f same e =
      rw (first-change (λ (s : Timesheet). s.id) f same k id rows, e, is_t) refl

  other_row :
      (id : ℕ) (f : Timesheet → Timesheet)
      → ((s : Timesheet) → (f s).id ≡ s.id)
      → (k == id) ≡ false
      → first (λ s. s.id == k) (change (λ s. s.id == id) f rows) ≡ some t
  other_row id f same e = rw (first-change (λ (s : Timesheet). s.id) f same k id rows, e, is_t) refl

module _ (actor org_id k : ℕ) (t : Timesheet) (db : Database)
    (keys : IsKeyed (λ (s : Timesheet). s.id) db.timesheets)
    (is_t : first (λ (s : Timesheet). s.id == k) db.timesheets.rows ≡ some t) where
  -- The row that an operation found under `id`, where `k` is that id.
  is_same :
      (p : Timesheet → Bool) (id : ℕ) (s : Timesheet)
      → ((r : Timesheet) → p r ≡ true → r.id ≡ id)
      → first p db.timesheets.rows ≡ some s
      → (k == id) ≡ true
      → s ≡ t
  is_same p id s key found e =
      let same : k ≡ id = ground (arith, e) in
      some-injective _ _ (
        sym (first-key (λ (r : Timesheet). r.id) p id db.timesheets.rows s key keys.distinct found)
        ∙ (rw (← same) is_t))

  own_is : (id : ℕ) (s : Timesheet) → IsOwn id actor org_id db s → (k == id) ≡ true → s ≡ t
  own_is id s own e = is_same (owned id actor org_id) id s (λ r h. ground (arith, h)) own e

  own_sound :
      (id : ℕ) (s : Timesheet)
      → IsOwn id actor org_id db s
      → (s.id ≡ id) × (s.user_id ≡ actor) × (s.organisation_id ≡ org_id)
  own_sound id s own =
      let h : owned id actor org_id s ≡ true = first_sound _ db.timesheets.rows s own in
      ground (arith, h)

  -- An operation of the owner that sets the totals or the date of an open timesheet, and changes
  -- the entries of no other one.
  pub edit-Evolves :
      (id : ℕ) (f : Timesheet → Timesheet) (s : Timesheet) (new : List TimeEntry)
      → ((r : Timesheet)
          → ((f r).id ≡ r.id)
            × ((f r).status ≡ r.status)
            × ((f r).user_id ≡ r.user_id)
            × ((f r).organisation_id ≡ r.organisation_id))
      → IsOwn id actor org_id db s
      → is_open s.status ≡ true
      → Agree id db.time_entries.rows new
      → Evolves actor org_id t
          (entries_of k db.time_entries.rows)
          (first (λ r. r.id == k) (change (λ r. r.id == id) f db.timesheets.rows))
          (entries_of k new)
  edit-Evolves id f s new same own editable agree = elim (Bool-cases (k == id)) [
    | inl e ↦
        let s_is_t : s ≡ t = own_is id s own e in
        let (_, owner, home) = own_sound id s own in
        edited (f t) (changed_row k t db.timesheets.rows is_t id f (λ r. (same r).0) e)
          (rw (← s_is_t) editable) (rw (← s_is_t) owner) (rw (← s_is_t) home) (same t).1 (same t).2
          (same t).3
    | inr e ↦
        untouched (other_row k t db.timesheets.rows is_t id f (λ r. (same r).0) e)
          (agree k (ground (arith, e)))
  ]

  pub submit-Evolves :
      (id : ℕ) (s : Timesheet)
      → IsOwn id actor org_id db s
      → is_open s.status ≡ true
      → Evolves actor org_id t
          (entries_of k db.time_entries.rows)
          (first (λ r. r.id == k) (change (λ r. r.id == id) (submit_row s) db.timesheets.rows))
          (entries_of k db.time_entries.rows)
  submit-Evolves id s own editable = elim (Bool-cases (k == id)) [
    | inl e ↦
        let s_is_t : s ≡ t = own_is id s own e in
        let (_, owner, home) = own_sound id s own in
        submits
          (changed_row k t db.timesheets.rows is_t id (submit_row s) (λ r. refl) e
            ∙ ap (λ r. some (submit_row r t)) s_is_t)
          refl (rw (← s_is_t) editable) (rw (← s_is_t) owner) (rw (← s_is_t) home)
    | inr e ↦ untouched (other_row k t db.timesheets.rows is_t id (submit_row s) (λ r. refl) e) refl
  ]

  review_home :
      (id : ℕ) (s : Timesheet)
      → first (λ r. r.id == id && r.organisation_id == org_id) db.timesheets.rows ≡ some s
      → s.organisation_id ≡ org_id
  review_home id s found =
      let h : (s.id == id && s.organisation_id == org_id) ≡ true =
        first_sound _ db.timesheets.rows s found in
      ground (arith, h)

  -- A review of a submitted timesheet of another user.
  pub review-Evolves :
      (id : ℕ) (f : Timesheet → Timesheet) (s : Timesheet) (role : UserRole)
      → ((r : Timesheet) → (f r).id ≡ r.id)
      → IsReviewable id actor org_id role db s
      → ((row : Option Timesheet)
          → row ≡ some (f t)
          → t.status ≡ submitted
          → t.user_id ≢ actor
          → t.organisation_id ≡ org_id
          → Evolves actor org_id t
              (entries_of k db.time_entries.rows)
              row
              (entries_of k db.time_entries.rows))
      → Evolves actor org_id t
          (entries_of k db.time_entries.rows)
          (first (λ r. r.id == k) (change (λ r. r.id == id) f db.timesheets.rows))
          (entries_of k db.time_entries.rows)
  review-Evolves id f s role same ok step = elim (Bool-cases (k == id)) [
    | inl e ↦
        let s_is_t : s ≡ t = is_same _ id s (λ r h. ground (arith, h)) ok.found e in
        step _ (changed_row k t db.timesheets.rows is_t id f same e) (rw (← s_is_t) ok.is_sent)
          (rw (← s_is_t) ok.not_own) (rw (← s_is_t) (review_home id s ok.found))
    | inr e ↦ untouched (other_row k t db.timesheets.rows is_t id f same e) refl
  ]

  pub delete-Evolves :
      (id : ℕ) (s : Timesheet)
      → IsOwn id actor org_id db s
      → s.status ≡ draft
      → Evolves actor org_id t
          (entries_of k db.time_entries.rows)
          (first (λ r. r.id == k) (keep (λ r. not (r.id == id)) db.timesheets.rows))
          (entries_of k (keep (λ e. not (e.timesheet_id == id)) db.time_entries.rows))
  delete-Evolves id s own is_draft = elim (Bool-cases (k == id)) [
    | inl e ↦
        let s_is_t : s ≡ t = own_is id s own e in
        let (_, owner, home) = own_sound id s own in
        let same : k ≡ id = ground (arith, e) in
        deletes (rw (first-delete (λ (r : Timesheet). r.id) k id db.timesheets.rows, e) refl)
          (rw same (entries_of-cleared id db.time_entries.rows)) (rw (← s_is_t) is_draft)
          (rw (← s_is_t) owner) (rw (← s_is_t) home)
    | inr e ↦
        untouched (rw (first-delete (λ (r : Timesheet). r.id) k id db.timesheets.rows, e) is_t)
          (entries_of-delete k id db.time_entries.rows (ground (arith, e)))
  ]

  -- A timesheet with a new id is another one.
  pub add-Evolves :
      (s : Timesheet) (new : List TimeEntry)
      → Agree db.timesheets.next_id db.time_entries.rows new
      → Evolves actor org_id t
          (entries_of k db.time_entries.rows)
          (first (λ r. r.id == k) (db.timesheets.rows ++ s ∷ []))
          (entries_of k new)
  add-Evolves s new agree =
      let below : t.id < db.timesheets.next_id =
        All-first (λ (r : Timesheet). r.id < db.timesheets.next_id) _ db.timesheets.rows keys.below
          is_t in
      let same : (t.id == k) ≡ true = first_sound _ db.timesheets.rows t is_t in
      untouched
        (rw (first-append (λ (r : Timesheet). r.id == k) db.timesheets.rows (s ∷ []), is_t) refl)
        (agree k (ground (arith, below, same)))
