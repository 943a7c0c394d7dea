-- ===== src/Http/Tenants.antt =====
-- Organisations are apart: README, business rule 5, for timesheets and their entries.
use tms_api.Prelude.{ℕ, ◌≡◌, ◌≢◌, ◌⊎◌, sym, refl, some, List, [], ◌∷◌, first, All, inl, inr, ◌==◌}
use tms_api.Prisma.{Client, IsLawful, in_memory, in_memory-eq, in_memory-IsLawful}
use tms_api.Database.{Database, Timesheet, TimeEntry}
use tms_api.Database.Action.{Action, ◌>>◌, pure}
use tms_api.Database.Triple.{After-always}
use tms_api.Timesheets.Effects.Entries.{entries_of}
use tms_api.Service.{JwtPayload, Request}
use tms_api.Service.Evolution.{EvolvesIn, untouched, edited, submits, approves, rejects, deletes}
use tms_api.Service.Lifecycle.{handle-Evolves}
use tms_api.Http.Routes.{
  Call, timesheets, create_user, update_user, remove_user, create_project, update_project,
  remove_project, update_settings, create_holiday, remove_holiday, mark_read, mark_all_read,
  set_user_managers, logout, dispatch,
}
use tms_api.Http.Server.{
  Server, Event, protected, public, respond_public, respond_event, serve_calls,
}
use tms_api.Http.Admission.{IsVerified, respond-Refused-Admitted}
use tms_api.Http.Frame.{IsFrame-refl, IsFrame}
use tms_api.Database.Keeps.{Keeps, Keeps-then, Keeps-pure}
use tms_api.Http.Outside.{Keeps-create_user, Keeps-update_user, IsFrame-outside}
use tms_api.Users.Keeps.{Keeps-assign_managers}
use tms_api.Http.Administration.{
  Keeps-deactivate_user, IsFrame-admin, Keeps-create_project, Keeps-update_project,
  Keeps-update_settings, Keeps-create_holiday, Keeps-delete_holiday, Keeps-mark_as_read,
  Keeps-mark_all_as_read, Keeps-logout_user,
}
use tms_api.Http.History.{
  IsServed, SameSheets, delete_project-SameSheets, Keeps-run_public, event-IsServed,
}

-- No token of the call verifies for a user of the organisation `org_id`.
abbrev pub IsForeign : Server → ℕ → Event → Type 0
IsForeign s org_id (protected header call) =
    (user : JwtPayload) → IsVerified s header user → user.org_id ≢ org_id
IsForeign s org_id (public call) = Unit

-- The timesheet `k` is `t`, and its entries are `es`.
pub record Holds (k : ℕ) (t : Timesheet) (es : List TimeEntry) (db : Database) : Type 0 where
  pub row : first (λ (s : Timesheet). s.id == k) db.timesheets.rows ≡ some t
  pub entries : entries_of k db.time_entries.rows ≡ es

kept-SameSheets :
    {A : Type 0} (m : Action A) (db : Database) → Keeps IsFrame m → SameSheets db (m db).1
kept-SameSheets m db k =
    let f = After-always (k.keeps db db (IsFrame-refl db)) in (f.sheets, f.entries)

module _ (s : Server) (user : JwtPayload) (db : Database) where
  quiet : {A : Type 0} (m : Action A) → Keeps IsFrame m → SameSheets db ((m >> pure tt) db).1
  quiet m k = kept-SameSheets _ db (Keeps-then m _ k (Keeps-pure tt))

  -- Only the routes of timesheets and approvals write a timesheet or an entry.
  dispatch-SameSheets :
      (call : Call)
      → ((request : Request) × (call ≡ timesheets request))
        ⊎ SameSheets db (dispatch in_memory s.runtime s.auth user call db).1
  unfolding dispatch
  dispatch-SameSheets (timesheets request) = inl (request, refl)
  dispatch-SameSheets (create_user dto) = inr (quiet _ (Keeps-create_user s.runtime _ _ dto _ _))
  dispatch-SameSheets (update_user id dto) =
      inr (quiet _ (Keeps-update_user s.runtime id _ dto _ _))
  dispatch-SameSheets (remove_user id) =
      inr (kept-SameSheets _ db (Keeps-deactivate_user IsFrame-admin id _ _ _))
  dispatch-SameSheets (create_project dto) =
      inr (quiet _ (Keeps-create_project IsFrame-admin _ dto _ _))
  dispatch-SameSheets (update_project id dto) =
      inr (quiet _ (Keeps-update_project IsFrame-admin id _ dto _ _))
  dispatch-SameSheets (remove_project id) = inr (delete_project-SameSheets id user.org_id db)
  dispatch-SameSheets (update_settings dto) =
      inr (quiet _ (Keeps-update_settings IsFrame-admin _ dto))
  dispatch-SameSheets (create_holiday dto) =
      inr (quiet _ (Keeps-create_holiday IsFrame-admin s.runtime _ dto))
  dispatch-SameSheets (remove_holiday id) =
      inr (kept-SameSheets _ db (Keeps-delete_holiday IsFrame-admin id _))
  dispatch-SameSheets (mark_read id) = inr (quiet _ (Keeps-mark_as_read IsFrame-admin id _))
  dispatch-SameSheets mark_all_read =
      inr (kept-SameSheets _ db (Keeps-mark_all_as_read IsFrame-admin _))
  dispatch-SameSheets (set_user_managers id ids) =
      inr (kept-SameSheets _ db (Keeps-assign_managers IsFrame-outside s.runtime id ids _))
  dispatch-SameSheets logout = inr (quiet _ (Keeps-logout_user IsFrame-admin s.auth _))

foreign-Holds :
    (actor org_id k : ℕ) (t : Timesheet) (es : List TimeEntry) (new : Database)
    → org_id ≢ t.organisation_id
    → EvolvesIn actor org_id t k es new
    → Holds k t es new
foreign-Holds actor org_id k t es new other (untouched e f) = record { row = e; entries = f }
foreign-Holds actor org_id k t es new other (edited _ _ _ _ home _ _ _) = absurd (other (sym home))
foreign-Holds actor org_id k t es new other (submits _ _ _ _ home) = absurd (other (sym home))
foreign-Holds actor org_id k t es new other (approves _ _ _ _ _ home) = absurd (other (sym home))
foreign-Holds actor org_id k t es new other (rejects _ _ _ _ _ home) = absurd (other (sym home))
foreign-Holds actor org_id k t es new other (deletes _ _ _ _ home) = absurd (other (sym home))

same-Holds :
    (k : ℕ) (t : Timesheet) (es : List TimeEntry) (old new : Database)
    → SameSheets old new
    → Holds k t es old
    → Holds k t es new
same-Holds k t es old new (sheets, entries) h = record {
  row = rw sheets h.row;
  entries = rw entries h.entries;
}

module _ (s : Server) (k : ℕ) (t : Timesheet) (es : List TimeEntry) where
  admitted-Holds :
      (user : JwtPayload) (call : Call) (db : Database)
      → IsServed db
      → user.org_id ≢ t.organisation_id
      → Holds k t es db
      → Holds k t es (dispatch in_memory s.runtime s.auth user call db).1
  unfolding dispatch
  admitted-Holds user call db served other h = elim (dispatch-SameSheets s user db call) [
    | inr same ↦ same-Holds k t es db _ same h
    | inl (request, is) ↦ rw is (
        rw (← h.entries) (
          foreign-Holds user.user_id user.org_id k t _ _ other (
            handle-Evolves in_memory s.runtime in_memory-IsLawful user request db served.sound k t
              h.row)))
  ]

  event-Holds :
      (event : Event) (db : Database)
      → IsServed db
      → IsForeign s t.organisation_id event
      → Holds k t es db
      → Holds k t es (respond_event in_memory s event db).1
  unfolding respond_event respond_public
  event-Holds (public call) db served foreign h =
      same-Holds k t es db _ (kept-SameSheets _ db (Keeps-run_public s call)) h
  event-Holds (protected header call) db served foreign h =
      elim (respond-Refused-Admitted in_memory s header call db) [
        | inl (e, why, is) ↦ rw is h
        | inr (user, (v, allowed, valid), is) ↦
            rw is (admitted-Holds user call db served (foreign user v) h)
      ]

serve-Holds :
    (k : ℕ) (t : Timesheet) (es : List TimeEntry) (history : List (Server × Event)) (db : Database)
    → IsServed db
    → All (λ (call : Server × Event). IsForeign call.0 t.organisation_id call.1) history
    → Holds k t es db
    → Holds k t es (serve_calls in_memory history db)
unfolding serve_calls
serve-Holds k t es [] db served foreign h = h
serve-Holds k t es ((s, event) ∷ rest) db served foreign h =
    serve-Holds k t es rest _ (event-IsServed s db served event) foreign.1
      (event-Holds s k t es event db served foreign.0 h)

-- From sound tables, any history of calls, none of which carries a token that verifies for a user
-- of a timesheet's organisation, leaves that timesheet and its entries as they were.
pub serve_calls-Holds :
    (c : Client)
    → IsLawful c
    → (history : List (Server × Event)) (db : Database) → IsServed db
    → (k : ℕ) (t : Timesheet) → first (λ (r : Timesheet). r.id == k) db.timesheets.rows ≡ some t
    → All (λ (call : Server × Event). IsForeign call.0 t.organisation_id call.1) history
    → Holds k t (entries_of k db.time_entries.rows) (serve_calls c history db)
serve_calls-Holds c lawful history db served k t is_t foreign =
    rw (in_memory-eq lawful)
      (serve-Holds k t _ history db served foreign (record { row = is_t; entries = refl }))
