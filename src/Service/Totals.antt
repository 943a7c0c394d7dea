-- ===== src/Service/Totals.antt =====
-- Every request, whether it is answered or refused, keeps the invariant of the timesheet tables.
use tms_api.Prelude.{
  ℕ, ◌≡◌, refl, true, false, not, ◌&&◌, Option, none, some, is_some, or_default, List, [], ◌∷◌, All,
  All-keep, first, arith, ◌==◌,
}
use tms_api.Prisma.{Client, IsLawful, in_memory, in_memory-eq}
use tms_api.Runtime.{Runtime}
use tms_api.Database.{Database, TimeEntry, Project}
use tms_api.Database.Constraints.{project_exists}
use tms_api.Database.Action.{Action, ◌>>◌, pure}
use tms_api.Database.Triple.{After, After-then, After-pure, After-always}
use tms_api.Timesheets.Entries.{UpdateEntryDto}
use tms_api.Timesheets.Effects.Sheets.{
  submit_row, redate_row, After-submit, After-update_timesheet, After-create_timesheet,
  After-delete_timesheet,
}
use tms_api.Timesheets.Effects.Entries.{
  entries_of, edit_entry, new_entry, After-create_entry, After-update_entry, After-delete_entry,
}
use tms_api.Timesheets.Effects.CopyWeek.{After-copy_previous_week}
use tms_api.Prisma.Rows.{first-weaken}
use tms_api.Approvals.Effects.{
  HasProject, HasProject-credit, approve_row, reject_row, credit, with_projects, After-approve,
  After-reject,
}
use tms_api.Service.{
  JwtPayload, Request, create, update, remove, submit, copy_previous_week, create_entry,
  update_entry, delete_entry, approve, reject, handle, serve,
}
use tms_api.Service.Invariant.{
  IsSound, change_sheets-IsSound, add_sheet-IsSound, without_sheet-IsSound, notified-IsSound,
}
use tms_api.Service.EntryChanges.{
  own_below, found_below, add_entry-IsSound, keep_entries-IsSound, change_entries-IsSound,
}
use tms_api.Service.Copies.{create_copy-IsSound, overwritten-IsSound, linked-source}

linked-credit :
    (es : List TimeEntry) (ps : List Project) (rows : List TimeEntry)
    → All (HasProject ps) rows
    → All (HasProject (credit es ps)) rows
linked-credit [] ps rows h = h
linked-credit (e ∷ es) ps rows h = linked-credit es _ rows (HasProject-credit e ps rows h)

with_projects-IsSound :
    (es : List TimeEntry) (db : Database)
    → IsSound db
    → IsSound (with_projects db (credit es db.projects.rows))
with_projects-IsSound es db h = record {
  sheet_keys = h.sheet_keys;
  entry_keys = h.entry_keys;
  attached = h.attached;
  linked = linked-credit es db.projects.rows db.time_entries.rows h.linked;
  totals = h.totals;
}

-- An accepted edit moves an entry to a project that exists, or leaves it where it is.
edit-HasProject :
    (dto : UpdateEntryDto) (entry : TimeEntry) (db : Database) (e : TimeEntry)
    → (is_some dto.project_id && not (project_exists in_memory db (or_default dto.project_id 0)))
      ≡ false
    → HasProject db.projects.rows e
    → HasProject db.projects.rows (edit_entry dto entry e)
edit-HasProject dto entry db e ok h = moved dto.project_id ok
  where
    moved :
        (id : Option ℕ)
        → (is_some id && not (project_exists in_memory db (or_default id 0))) ≡ false
        → is_some (first (λ (p : Project). p.id == or_default id e.project_id) db.projects.rows)
          ≡ true
    moved none ok = h
    moved (some k) ok = ground (arith, ok)

entry_project :
    (k org_id : ℕ) (db : Database) (p : Project)
    → first (λ p. p.id == k && p.organisation_id == org_id) db.projects.rows ≡ some p
    → is_some (first (λ (p : Project). p.id == k) db.projects.rows) ≡ true
entry_project k org_id db p e = first-weaken _ _ db.projects.rows (λ q h. ground (arith, h)) p e

module _ (rt : Runtime) (user : JwtPayload) (db : Database) (h : IsSound db) where
  answered :
      {A : Type 0} (m : Action A)
      → After IsSound (λ _. IsSound) m db
      → After IsSound (λ _. IsSound) (m >> pure tt) db
  answered m step = After-then _ m _ step λ d q. After-pure tt q

  pub step-IsSound :
      (request : Request) → After IsSound (λ _. IsSound) (handle in_memory rt user request) db
  unfolding handle
  step-IsSound (create text) =
      answered _ (After-create_timesheet rt _ _ text h λ date _ _ _. add_sheet-IsSound _ _ _ db h)
  step-IsSound (update id text) = answered _ (
      After-update_timesheet rt id _ _ text h λ t own _ date _ r.
        change_sheets-IsSound _ (redate_row date) db (λ s. (refl, refl, refl)) h)
  step-IsSound (remove id) = After-delete_timesheet id _ _ h λ t _ _. without_sheet-IsSound id db h
  step-IsSound (submit id) = answered _ (
      After-submit id _ _ h
        λ t own _ r. change_sheets-IsSound _ (submit_row t) db (λ s. (refl, refl, refl)) h)
  step-IsSound (copy_previous_week text force) = answered _ (
      After-copy_previous_week rt user.user_id user.org_id user.role text force h
        (λ previous existing t date prev is_existing _ _.
          overwritten-IsSound existing.id _ db h (found_below _ db existing h is_existing)
            (linked-source user.user_id user.org_id user.role previous db h))
        (λ previous input _ prev _.
          create_copy-IsSound _ _ _ _ db h
            (linked-source user.user_id user.org_id user.role previous db h)))
  step-IsSound (create_entry id dto) = answered _ (
      After-create_entry h.sheet_keys rt id _ _ dto _ h λ t ok.
        add_entry-IsSound id (new_entry id dto db.time_entries.next_id) db h
          (own_below id _ _ db t h ok.own)
          (entry_project dto.project_id user.org_id db ok.in_org.0 ok.in_org.1) refl refl)
  step-IsSound (update_entry id eid dto) = answered _ (
      After-update_entry h.sheet_keys id eid _ _ dto _ h λ t entry own _ is_entry _ exists r.
        change_entries-IsSound id eid (edit_entry dto entry) entry db h (λ e. refl) (λ e. refl)
          (λ e. edit-HasProject dto entry db e exists) is_entry)
  step-IsSound (delete_entry id eid) =
      After-delete_entry h.sheet_keys id eid _ _ h
        λ t entry own _ is_entry. keep_entries-IsSound id eid entry db h is_entry
  step-IsSound (approve id) = answered _ (
      After-approve h.sheet_keys rt id user.user_id user.org_id user.role
        (All-keep _ _ db.time_entries.rows h.linked) h
        λ t ok r type message. notified-IsSound _ _ _ _ (
          with_projects-IsSound (entries_of id db.time_entries.rows) _ (
            change_sheets-IsSound _ (approve_row user.user_id rt.now) db (λ s. (refl, refl, refl))
              h)))
  step-IsSound (reject id reason) = answered _ (
      After-reject h.sheet_keys rt id user.user_id user.org_id reason user.role h
        (λ t ok. change_sheets-IsSound _ (reject_row reason) db (λ s. (refl, refl, refl)) h)
        λ t ok r type message.
          notified-IsSound _ _ _ _
            (change_sheets-IsSound _ (reject_row reason) db (λ s. (refl, refl, refl)) h))

serve-in_memory :
    (rt : Runtime) (history : List (JwtPayload × Request)) (db : Database)
    → IsSound db
    → IsSound (serve in_memory rt history db)
unfolding serve
serve-in_memory rt [] db h = h
serve-in_memory rt ((user, request) ∷ rest) db h =
    serve-in_memory rt rest _ (After-always (step-IsSound rt user db h request))

-- From tables that satisfy the invariant (distinct ids, every entry under an id in use and on a
-- project that exists, every timesheet's two totals equal to the sums over its entries), any
-- history of requests, answered or refused, ends in tables that satisfy it.
pub serve-IsSound :
    (c : Client) (rt : Runtime)
    → IsLawful c
    → (history : List (JwtPayload × Request)) (db : Database) → IsSound db
    → IsSound (serve c rt history db)
serve-IsSound c rt lawful history db h = rw (in_memory-eq lawful) (serve-in_memory rt history db h)
