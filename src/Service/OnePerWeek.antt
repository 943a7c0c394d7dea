-- ===== src/Service/OnePerWeek.antt =====
-- One timesheet for each user and first day of a week, which `createTimesheet` and `copyPreviousWeek` check.
use tms_api.Prelude.{
  ℕ, ◌≡◌, refl, ap, Bool, true, false, none, some, is_some, List, [], ◌∷◌, ◌++◌, All, All-append,
  All-keep, keep, first, change, arith, ◌==◌, Bool-cases, inl, inr,
}
use tms_api.Prisma.{Client, IsLawful, in_memory, in_memory-eq}
use tms_api.Runtime.{Runtime}
use tms_api.Database.{Database, Timesheet}
use tms_api.Database.Action.{Action, ◌>>◌, pure}
use tms_api.Database.Triple.{After, After-then, After-pure, After-always}
use tms_api.Timesheets.Sheets.{same_week}
use tms_api.Timesheets.Effects.Sheets.{
  submit_row, redate_row, After-submit, After-update_timesheet, After-create_timesheet,
  After-delete_timesheet,
}
use tms_api.Timesheets.Effects.Entries.{After-create_entry, After-update_entry, After-delete_entry}
use tms_api.Timesheets.Effects.CopyWeek.{After-copy_previous_week, copy_totals, source}
use tms_api.Approvals.Effects.{approve_row, reject_row, After-approve, After-reject}
use tms_api.Service.{
  JwtPayload, Request, create, update, remove, submit, copy_previous_week, create_entry,
  update_entry, delete_entry, approve, reject, handle,
}
use tms_api.Service.Invariant.{IsSound}

-- `s` is of another user, organisation or first day than `t`.
abbrev pub Apart : Timesheet → Timesheet → Type 0
Apart t s = same_week t.user_id t.organisation_id t.week_start_date s ≡ false

abbrev pub OnePerWeek : List Timesheet → Type 0
OnePerWeek [] = Unit
OnePerWeek (t ∷ rows) = All (Apart t) rows × OnePerWeek rows

-- The request writes the first day of an existing timesheet.
abbrev pub redates : Request → Bool
redates (update id (some text)) = true
redates _ = false

none_found :
    (n : Timesheet) (rows : List Timesheet)
    → is_some (first (same_week n.user_id n.organisation_id n.week_start_date) rows) ≡ false
    → All (λ t. Apart t n) rows
none_found n [] h = tt
none_found n (t ∷ rows) h = ground (arith, none_found n rows)

append-OnePerWeek :
    (n : Timesheet) (rows : List Timesheet)
    → All (λ t. Apart t n) rows
    → OnePerWeek rows
    → OnePerWeek (rows ++ n ∷ [])
append-OnePerWeek n [] a h = (tt, tt)
append-OnePerWeek n (t ∷ rows) a h =
    (All-append (Apart t) rows (n ∷ []) h.0 (a.0, tt), append-OnePerWeek n rows a.1 h.1)

keep-OnePerWeek :
    (p : Timesheet → Bool) (rows : List Timesheet) → OnePerWeek rows → OnePerWeek (keep p rows)
keep-OnePerWeek p [] h = tt
keep-OnePerWeek p (t ∷ rows) h =
    ground (arith, All-keep (Apart t) p rows h.0, keep-OnePerWeek p rows h.1)

-- `f` leaves alone the user, the organisation and the week.
abbrev KeepsWeek : (Timesheet → Timesheet) → Type 0
KeepsWeek f =
    (t : Timesheet)
    → ((f t).user_id ≡ t.user_id)
      × ((f t).organisation_id ≡ t.organisation_id)
      × ((f t).week_start_date ≡ t.week_start_date)

Apart-change :
    (p : Timesheet → Bool) (f : Timesheet → Timesheet) (t : Timesheet)
    → KeepsWeek f
    → (rows : List Timesheet) → All (Apart t) rows
    → All (Apart t) (change p f rows)
Apart-change p f t same [] h = tt
Apart-change p f t same (s ∷ rows) h = (
  elim (Bool-cases (p s)) [
    | inl e ↦ rw (e, (same s).0, (same s).1, (same s).2) h.0
    | inr e ↦ rw e h.0
  ],
  Apart-change p f t same rows h.1,
)

change-OnePerWeek :
    (p : Timesheet → Bool) (f : Timesheet → Timesheet) (rows : List Timesheet)
    → KeepsWeek f
    → OnePerWeek rows
    → OnePerWeek (change p f rows)
change-OnePerWeek p f [] same h = tt
change-OnePerWeek p f (t ∷ rows) same h = (
  elim (Bool-cases (p t)) [
    | inl e ↦ rw (e, (same t).0, (same t).1, (same t).2) (Apart-change p f t same rows h.0)
    | inr e ↦ rw e (Apart-change p f t same rows h.0)
  ],
  change-OnePerWeek p f rows same h.1,
)

abbrev KeepsOne : Database → Type 0
KeepsOne db = OnePerWeek db.timesheets.rows

module _ (rt : Runtime) (user : JwtPayload) (db : Database) (h : IsSound db)
    (one : OnePerWeek db.timesheets.rows) where
  answered :
      {A : Type 0} (m : Action A)
      → After KeepsOne (λ _. KeepsOne) m db
      → After KeepsOne (λ _. KeepsOne) (m >> pure tt) db
  answered m step = After-then _ m _ step λ d q. After-pure tt q

  changed :
      (id : ℕ) (f : Timesheet → Timesheet)
      → KeepsWeek f
      → OnePerWeek (change (λ s. s.id == id) f db.timesheets.rows)
  changed id f same = change-OnePerWeek _ f db.timesheets.rows same one

  added :
      (n : Timesheet)
      → is_some (first (same_week n.user_id n.organisation_id n.week_start_date) db.timesheets.rows)
        ≡ false
      → OnePerWeek (db.timesheets.rows ++ n ∷ [])
  added n e = append-OnePerWeek n db.timesheets.rows (none_found n db.timesheets.rows e) one

  step-OnePerWeek :
      (request : Request)
      → redates request ≡ false
      → After KeepsOne (λ _. KeepsOne) (handle in_memory rt user request) db
  unfolding handle
  step-OnePerWeek (create text) _ =
      answered _
        (After-create_timesheet rt _ user.org_id text one λ date _ _ is_new. added _ is_new)
  step-OnePerWeek (update id none) _ = answered _ (
      After-update_timesheet rt id _ _ none one λ s own _ date untouched r.
        rw (untouched refl) (changed id (redate_row none) λ x. (refl, refl, refl)))
  step-OnePerWeek (update id (some text)) e = absurd (ground (arith, e))
  step-OnePerWeek (remove id) _ =
      After-delete_timesheet id _ _ one λ s own is_draft. keep-OnePerWeek _ db.timesheets.rows one
  step-OnePerWeek (submit id) _ = answered _ (
      After-submit id _ _ one λ s own editable r. changed id (submit_row s) λ x. (refl, refl, refl))
  step-OnePerWeek (copy_previous_week text force) _ = answered _ (
      After-copy_previous_week rt user.user_id user.org_id user.role text force one
        (λ previous s r date prev is_existing is_draft _.
          changed s.id (copy_totals (source user.user_id user.org_id user.role previous db))
            λ x. (refl, refl, refl))
        (λ previous input _ prev is_new. added _ (ap is_some is_new)))
  step-OnePerWeek (create_entry id dto) _ = answered _ (
      After-create_entry h.sheet_keys rt id _ _ dto _ one
        λ s ok. changed id _ λ x. (refl, refl, refl))
  step-OnePerWeek (update_entry id eid dto) _ = answered _ (
      After-update_entry h.sheet_keys id eid _ _ dto _ one
        λ s entry own editable is_entry _ _ r. changed id _ λ x. (refl, refl, refl))
  step-OnePerWeek (delete_entry id eid) _ =
      After-delete_entry h.sheet_keys id eid _ _ one
        λ s entry own editable is_entry. changed id _ λ x. (refl, refl, refl)
  step-OnePerWeek (approve id) _ = answered _ (
      After-approve h.sheet_keys rt id user.user_id user.org_id user.role
        (All-keep _ _ db.time_entries.rows h.linked) one
        λ s ok r type message. changed id (approve_row user.user_id rt.now) λ x. (refl, refl, refl))
  step-OnePerWeek (reject id reason) _ = answered _ (
      After-reject h.sheet_keys rt id user.user_id user.org_id reason user.role one
        (λ s ok. changed id (reject_row reason) λ x. (refl, refl, refl))
        λ s ok r type message. changed id (reject_row reason) λ x. (refl, refl, refl))

-- A request that does not write the first day of an existing timesheet keeps sound tables to at most
-- one timesheet for each user, organisation and first day (`weekStartDate`). Two whose weeks overlap
-- on different first days are not excluded.
pub handle-OnePerWeek :
    (c : Client) (rt : Runtime)
    → IsLawful c
    → (user : JwtPayload) (request : Request) (db : Database) → IsSound db
    → redates request ≡ false
    → OnePerWeek db.timesheets.rows
    → OnePerWeek (handle c rt user request db).1.timesheets.rows
handle-OnePerWeek c rt lawful user request db h keeps one =
    rw (in_memory-eq lawful) (After-always (step-OnePerWeek rt user db h one request keeps))
