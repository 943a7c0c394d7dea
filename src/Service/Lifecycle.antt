-- ===== src/Service/Lifecycle.antt =====
-- The life of a timesheet under the requests: each is a step of `Evolves`, and what follows.
use tms_api.Prelude.{
  ℕ, ◌≡◌, ◌∙◌, refl, true, not, some, List, [], ◌∷◌, keep, All-keep, first, arith, ◌==◌,
}
use tms_api.Prisma.{Client, IsLawful, in_memory, in_memory-eq}
use tms_api.Prisma.Rows.{first_sound}
use tms_api.Prisma.Keys.{first-Distinct}
use tms_api.Dates.{Date}
use tms_api.Runtime.{Runtime}
use tms_api.Database.{Database, Timesheet, TimeEntry, TimesheetStatus, draft, approved}
use tms_api.Database.Action.{Action, ◌>>◌, pure}
use tms_api.Database.Triple.{After, After-then, After-pure, After-always}
use tms_api.Timesheets.Sheets.{is_open, owned, same_week}
use tms_api.Timesheets.Effects.Sheets.{
  IsOwn, redate_row, After-submit, After-update_timesheet, After-create_timesheet,
  After-delete_timesheet,
}
use tms_api.Timesheets.Effects.Entries.{
  entries_of, edit_entry, new_entry, After-create_entry, After-update_entry, After-delete_entry,
}
use tms_api.Timesheets.Effects.CopyWeek.{After-copy_previous_week, copy_totals, source}
use tms_api.Approvals.Effects.{approve_row, reject_row, After-approve, After-reject}
use tms_api.Service.{
  JwtPayload, Request, create, update, remove, submit, copy_previous_week, create_entry,
  update_entry, delete_entry, approve, reject, handle, serve,
}
use tms_api.Service.Invariant.{IsSound, entries_of-delete}
use tms_api.Service.EntryChanges.{append-Agree, keep-Agree, change-Agree, found_lies}
use tms_api.Service.Copies.{copies-Agree}
use tms_api.Service.Totals.{step-IsSound}
use tms_api.Service.Evolution.{
  EvolvesIn, untouched, edited, submits, approves, rejects, deletes, edit-Evolves, submit-Evolves,
  review-Evolves, delete-Evolves, add-Evolves,
}

draft-is_open : {s : TimesheetStatus} → s ≡ draft → is_open s ≡ true
draft-is_open e = ground (arith, e)

module _ (rt : Runtime) (user : JwtPayload) (db : Database) (h : IsSound db) (k : ℕ) (t : Timesheet)
    (is_t : first (λ (s : Timesheet). s.id == k) db.timesheets.rows ≡ some t) where
  abbrev AfterStep : {A : Type 0} → Action A → Type 0
  AfterStep m =
      let outcome = EvolvesIn user.user_id user.org_id t k (entries_of k db.time_entries.rows) in
      After outcome (λ _. outcome) m db

  answered : {A : Type 0} (m : Action A) → AfterStep m → AfterStep (m >> pure tt)
  answered m step = After-then _ m _ step λ d q. After-pure tt q

  existing-IsOwn :
      (date : Date) (s : Timesheet)
      → first (same_week user.user_id user.org_id date) db.timesheets.rows ≡ some s
      → IsOwn s.id user.user_id user.org_id db s
  existing-IsOwn date s e =
      let fits : same_week user.user_id user.org_id date s ≡ true =
        first_sound _ db.timesheets.rows s e in
      first-Distinct (λ (r : Timesheet). r.id) _ (owned s.id user.user_id user.org_id)
        db.timesheets.rows s h.sheet_keys.distinct e (ground (arith, fits))
        (λ r q. ground (arith, q))

  same : EvolvesIn user.user_id user.org_id t k (entries_of k db.time_entries.rows) db
  same = untouched is_t refl

  step-Evolves : (request : Request) → AfterStep (handle in_memory rt user request)
  unfolding handle
  step-Evolves (create text) = answered _ (
      After-create_timesheet rt _ user.org_id text same λ date _ _ _.
        add-Evolves user.user_id user.org_id k t db h.sheet_keys is_t _ _ (λ j _. refl))
  step-Evolves (update id text) = answered _ (
      After-update_timesheet rt id _ _ text same λ s own is_draft date _ r.
        edit-Evolves user.user_id user.org_id k t db h.sheet_keys is_t id (redate_row date) s _
          (λ x. (refl, refl, refl, refl)) own (draft-is_open is_draft) (λ j _. refl))
  step-Evolves (remove id) = After-delete_timesheet id _ _ same λ s own is_draft.
      delete-Evolves user.user_id user.org_id k t db h.sheet_keys is_t id s own is_draft
  step-Evolves (submit id) = answered _ (
      After-submit id _ _ same λ s own editable r.
        submit-Evolves user.user_id user.org_id k t db h.sheet_keys is_t id s own editable)
  step-Evolves (copy_previous_week text force) = answered _ (
      After-copy_previous_week rt user.user_id user.org_id user.role text force same
        (λ previous s r date prev is_existing is_draft _.
          edit-Evolves user.user_id user.org_id k t db h.sheet_keys is_t s.id
            (copy_totals (source user.user_id user.org_id user.role previous db)) s _
            (λ x. (refl, refl, refl, refl)) (existing-IsOwn date s is_existing)
            (draft-is_open is_draft)
            (λ j ne.
              copies-Agree s.id db.time_entries.next_id
                (keep (λ e. not (e.timesheet_id == s.id)) db.time_entries.rows)
                (source user.user_id user.org_id user.role previous db) j ne
              ∙ entries_of-delete j s.id db.time_entries.rows ne))
        (λ previous input _ prev _.
          add-Evolves user.user_id user.org_id k t db h.sheet_keys is_t _ _ (
            copies-Agree db.timesheets.next_id db.time_entries.next_id db.time_entries.rows
              (source user.user_id user.org_id user.role previous db))))
  step-Evolves (create_entry id dto) = answered _ (
      After-create_entry h.sheet_keys rt id _ _ dto _ same λ s ok.
        edit-Evolves user.user_id user.org_id k t db h.sheet_keys is_t id _ s _
          (λ x. (refl, refl, refl, refl)) ok.own ok.editable
          (append-Agree (new_entry id dto db.time_entries.next_id) db.time_entries.rows))
  step-Evolves (update_entry id eid dto) = answered _ (
      After-update_entry h.sheet_keys id eid _ _ dto _ same λ s entry own editable is_entry _ _ r.
        edit-Evolves user.user_id user.org_id k t db h.sheet_keys is_t id _ s _
          (λ x. (refl, refl, refl, refl)) own editable
          (change-Agree id eid (edit_entry dto entry) db.time_entries.rows (λ e. refl)
            (found_lies id eid db.time_entries.rows entry h.entry_keys.distinct is_entry)))
  step-Evolves (delete_entry id eid) =
      After-delete_entry h.sheet_keys id eid _ _ same λ s entry own editable is_entry.
        edit-Evolves user.user_id user.org_id k t db h.sheet_keys is_t id _ s _
          (λ x. (refl, refl, refl, refl)) own editable
          (keep-Agree id eid db.time_entries.rows
            (found_lies id eid db.time_entries.rows entry h.entry_keys.distinct is_entry))
  step-Evolves (approve id) = answered _ (
      After-approve h.sheet_keys rt id user.user_id user.org_id user.role
        (All-keep _ _ db.time_entries.rows h.linked) same
        λ s ok r type message.
          review-Evolves user.user_id user.org_id k t db h.sheet_keys is_t id
            (approve_row user.user_id rt.now) s user.role (λ x. refl) ok
            (λ row e sent other home. approves rt.now e refl sent other home))
  step-Evolves (reject id reason) = answered _ (
      After-reject h.sheet_keys rt id user.user_id user.org_id reason user.role same
        (λ s ok.
          review-Evolves user.user_id user.org_id k t db h.sheet_keys is_t id (reject_row reason) s
            user.role (λ x. refl) ok
            (λ row e sent other home. rejects reason e refl sent other home))
        λ s ok r type message.
          review-Evolves user.user_id user.org_id k t db h.sheet_keys is_t id (reject_row reason) s
            user.role (λ x. refl) ok
            (λ row e sent other home. rejects reason e refl sent other home))

-- A request leads a timesheet of sound tables, with its entries, along one step: it is untouched;
-- or it is of the caller's organisation and edited, submitted or (as a draft) deleted by its owner
-- while it is a draft or rejected; or it is of the caller's organisation and, once submitted,
-- approved or rejected by another user, with its entries and hours unchanged.
pub handle-Evolves :
    (c : Client) (rt : Runtime)
    → IsLawful c
    → (user : JwtPayload) (request : Request) (db : Database) → IsSound db
    → (k : ℕ) (t : Timesheet) → first (λ (s : Timesheet). s.id == k) db.timesheets.rows ≡ some t
    → EvolvesIn user.user_id user.org_id t k
        (entries_of k db.time_entries.rows)
        (handle c rt user request db).1
handle-Evolves c rt lawful user request db h k t is_t =
    rw (in_memory-eq lawful) (After-always (step-Evolves rt user db h k t is_t request))

approved_kept :
    (actor org_id : ℕ) (t : Timesheet) (k : ℕ) (es : List TimeEntry) (db : Database)
    → t.status ≡ approved
    → EvolvesIn actor org_id t k es db
    → (first (λ (s : Timesheet). s.id == k) db.timesheets.rows ≡ some t)
      × (entries_of k db.time_entries.rows ≡ es)
approved_kept actor org_id t k es db a (untouched e f) = (e, f)
approved_kept actor org_id t k es db a (edited s e o _ _ _ _ _) = absurd (ground (arith, o, a))
approved_kept actor org_id t k es db a (submits e f o _ _) = absurd (ground (arith, o, a))
approved_kept actor org_id t k es db a (approves now e f o _ _) = absurd (ground (arith, o, a))
approved_kept actor org_id t k es db a (rejects r e f o _ _) = absurd (ground (arith, o, a))
approved_kept actor org_id t k es db a (deletes e f o _ _) = absurd (ground (arith, o, a))

serve-keeps_approved :
    (rt : Runtime) (history : List (JwtPayload × Request)) (db : Database)
    → IsSound db
    → (k : ℕ) (t : Timesheet) → first (λ (s : Timesheet). s.id == k) db.timesheets.rows ≡ some t
    → t.status ≡ approved
    → let after = serve in_memory rt history db in
      (first (λ (s : Timesheet). s.id == k) after.timesheets.rows ≡ some t)
      × (entries_of k after.time_entries.rows ≡ entries_of k db.time_entries.rows)
unfolding serve
serve-keeps_approved rt [] db h k t is_t a = (is_t, refl)
serve-keeps_approved rt ((user, request) ∷ rest) db h k t is_t a =
    let next : Database = (handle in_memory rt user request db).1 in
    let (row, entries) =
      approved_kept user.user_id user.org_id t k _ next a
        (After-always (step-Evolves rt user db h k t is_t request)) in
    let (row_after, entries_after) =
      serve-keeps_approved rt rest next (After-always (step-IsSound rt user db h request)) k t row
        a in
    (row_after, entries_after ∙ entries)

-- An approved timesheet of sound tables is final: after any history of requests by any users, its
-- row and its entries are what they were.
pub serve-approved :
    (c : Client) (rt : Runtime)
    → IsLawful c
    → (history : List (JwtPayload × Request)) (db : Database) → IsSound db
    → (k : ℕ) (t : Timesheet) → first (λ (s : Timesheet). s.id == k) db.timesheets.rows ≡ some t
    → t.status ≡ approved
    → let after = serve c rt history db in
      (first (λ (s : Timesheet). s.id == k) after.timesheets.rows ≡ some t)
      × (entries_of k after.time_entries.rows ≡ entries_of k db.time_entries.rows)
serve-approved c rt lawful history db h k t is_t a =
    rw (in_memory-eq lawful) (serve-keeps_approved rt history db h k t is_t a)
