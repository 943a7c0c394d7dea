-- ===== src/Http/History.antt =====
-- The invariants of the whole server: what any history of calls keeps.
use tms_api.Prelude.{ℕ, ◌≡◌, refl, true, none, some, List, [], ◌∷◌, All, inl, inr}
use tms_api.Prisma.{Client, IsLawful, in_memory, in_memory-eq, in_memory-IsLawful}
use tms_api.Database.{Database, TimeEntry, project, project_manager, project_employee, time_entry}
use tms_api.Database.Action.{Action, ◌>>◌, pure}
use tms_api.Database.Constraints.{delete_project_row}
use tms_api.Database.Triple.{
  After-always, After-find_first, After-find_many, After-seq_then, After-found, After-throw_if,
  After-delete, After-delete_many,
}
use tms_api.Approvals.Effects.{HasProject}
use tms_api.Service.{JwtPayload}
use tms_api.Service.Invariant.{IsSound}
use tms_api.Service.Totals.{step-IsSound}
use tms_api.Projects.{delete_project}
use tms_api.Projects.Deletion.{delete_project-IsSound}
use tms_api.Http.Routes.{
  Call, timesheets, create_user, update_user, remove_user, create_project, update_project,
  remove_project, update_settings, create_holiday, remove_holiday, mark_read, mark_all_read,
  set_user_managers, logout, is_valid, dispatch,
}
use tms_api.Http.Server.{
  Server, PublicCall, register, login, refresh, Event, protected, public, run_public,
  respond_public, respond_event, serve_calls,
}
use tms_api.Http.Admission.{respond-Refused-Admitted}
use tms_api.Http.Frame.{IsFrame, IsFrame-refl}
use tms_api.Database.Keeps.{Keeps, Keeps-if, Keeps-then, Keeps-pure, Keeps-throw, Keeps-throw_if}
use tms_api.Http.Outside.{Keeps-create_user, Keeps-update_user, IsFrame-outside}
use tms_api.Users.Keeps.{Keeps-assign_managers}
use tms_api.Http.Administration.{
  Keeps-deactivate_user, IsFrame-admin, Keeps-create_project, Keeps-update_project,
  Keeps-update_settings, Keeps-create_holiday, Keeps-delete_holiday, Keeps-mark_as_read,
  Keeps-mark_all_as_read, Keeps-logout_user, Keeps-register_user, Keeps-login_user,
  Keeps-refresh_access_token,
}
use tms_api.Http.Bounds.{AllInBounds, request-InBounds}

-- The tables of timesheets are sound, and the entries within bounds.
pub record IsServed (db : Database) : Type 0 where
  pub sound : IsSound db
  pub in_bounds : AllInBounds db

linked-frame :
    (old new : Database)
    → IsFrame old new
    → (es : List TimeEntry) → All (HasProject old.projects.rows) es
    → All (HasProject new.projects.rows) es
linked-frame old new f [] h = tt
linked-frame old new f (e ∷ es) h = (f.projects e.project_id h.0, linked-frame old new f es h.1)

frame-IsServed : (old new : Database) → IsFrame old new → IsServed old → IsServed new
frame-IsServed old new f h = record {
  sound = record {
    sheet_keys = rw f.sheets h.sound.sheet_keys;
    entry_keys = rw f.entries h.sound.entry_keys;
    attached = rw (f.sheets, f.entries) h.sound.attached;
    linked = rw f.entries (linked-frame old new f old.time_entries.rows h.sound.linked);
    totals = rw (f.sheets, f.entries) h.sound.totals;
  };
  in_bounds = rw f.entries h.in_bounds;
}

kept-IsServed :
    {A : Type 0} (m : Action A) (db : Database) → Keeps IsFrame m → IsServed db → IsServed (m db).1
kept-IsServed m db k h =
    frame-IsServed db (m db).1 (After-always (k.keeps db db (IsFrame-refl db))) h

-- The tables of timesheets and entries are the same.
abbrev pub SameSheets : Database → Database → Type 0
SameSheets old new = (new.timesheets ≡ old.timesheets) × (new.time_entries ≡ old.time_entries)

-- Deleting a project writes no timesheet and no entry.
pub delete_project-SameSheets :
    (id org_id : ℕ) (db : Database) → SameSheets db (delete_project in_memory id org_id db).1
unfolding delete_project delete_project_row
delete_project-SameSheets id org_id db = After-always {I = SameSheets db} (
    After-find_first project _ _ (
      After-seq_then _ _ (
        After-found _ _ (λ _. (refl, refl))
          λ p found. After-find_many time_entry _ _ (
            After-throw_if _ _ _ (λ _. (refl, refl))
              λ unused. After-seq_then _ _ (
                After-delete project _ (λ _. (refl, refl))
                  λ _ _. After-seq_then _ _ (
                    After-delete_many project_manager _
                      (After-delete_many project_employee _ (refl, refl))))))))

pub Keeps-run_public :
    (s : Server) (call : PublicCall) → Keeps IsFrame (run_public in_memory s call)
unfolding run_public
Keeps-run_public s (register dto) =
    Keeps-then _ _ (Keeps-throw_if _ _) (Keeps-register_user s.auth dto)
Keeps-run_public s (login dto) =
    Keeps-then _ _ (Keeps-throw_if _ _) (Keeps-login_user IsFrame-admin s.auth dto)
Keeps-run_public s (refresh none) = Keeps-throw _
Keeps-run_public s (refresh (some token)) =
    Keeps-if _ _ _ (Keeps-throw _) (Keeps-refresh_access_token IsFrame-admin s.auth token)

module _ (s : Server) (db : Database) (h : IsServed db) where
  quiet : {A : Type 0} (m : Action A) → Keeps IsFrame m → IsServed ((m >> pure tt) db).1
  quiet m k = kept-IsServed _ db (Keeps-then m _ k (Keeps-pure tt)) h

  pub dispatch-IsServed :
      (user : JwtPayload) (call : Call)
      → is_valid s.is_email call ≡ true
      → IsServed (dispatch in_memory s.runtime s.auth user call db).1
  unfolding dispatch
  dispatch-IsServed user (timesheets request) valid = record {
    sound = After-always (step-IsSound s.runtime user db h.sound request);
    in_bounds =
        After-always {I = AllInBounds}
          (request-InBounds s.runtime user db h.sound h.in_bounds request valid);
  }
  dispatch-IsServed user (create_user dto) valid = quiet _ (Keeps-create_user s.runtime _ _ dto _ _)
  dispatch-IsServed user (update_user id dto) valid =
      quiet _ (Keeps-update_user s.runtime id _ dto _ _)
  dispatch-IsServed user (remove_user id) valid =
      kept-IsServed _ db (Keeps-deactivate_user IsFrame-admin id _ _ _) h
  dispatch-IsServed user (create_project dto) valid =
      quiet _ (Keeps-create_project IsFrame-admin _ dto _ _)
  dispatch-IsServed user (update_project id dto) valid =
      quiet _ (Keeps-update_project IsFrame-admin id _ dto _ _)
  dispatch-IsServed user (remove_project id) valid = record {
    sound = delete_project-IsSound in_memory in_memory-IsLawful id user.org_id db h.sound;
    in_bounds = rw ((delete_project-SameSheets id user.org_id db).1) h.in_bounds;
  }
  dispatch-IsServed user (update_settings dto) valid =
      quiet _ (Keeps-update_settings IsFrame-admin _ dto)
  dispatch-IsServed user (create_holiday dto) valid =
      quiet _ (Keeps-create_holiday IsFrame-admin s.runtime _ dto)
  dispatch-IsServed user (remove_holiday id) valid =
      kept-IsServed _ db (Keeps-delete_holiday IsFrame-admin id _) h
  dispatch-IsServed user (mark_read id) valid = quiet _ (Keeps-mark_as_read IsFrame-admin id _)
  dispatch-IsServed user mark_all_read valid =
      kept-IsServed _ db (Keeps-mark_all_as_read IsFrame-admin _) h
  dispatch-IsServed user (set_user_managers id ids) valid =
      kept-IsServed _ db (Keeps-assign_managers IsFrame-outside s.runtime id ids _) h
  dispatch-IsServed user logout valid = quiet _ (Keeps-logout_user IsFrame-admin s.auth _)

  pub event-IsServed : (event : Event) → IsServed (respond_event in_memory s event db).1
  unfolding respond_event respond_public
  event-IsServed (public call) = kept-IsServed _ db (Keeps-run_public s call) h
  event-IsServed (protected header call) =
      elim (respond-Refused-Admitted in_memory s header call db) [
        | inl (e, why, is) ↦ rw is h
        | inr (user, (v, allowed, valid), is) ↦ rw is (dispatch-IsServed user call valid)
      ]

serve-in_memory :
    (history : List (Server × Event)) (db : Database)
    → IsServed db
    → IsServed (serve_calls in_memory history db)
unfolding serve_calls
serve-in_memory [] db h = h
serve-in_memory ((s, event) ∷ rest) db h = serve-in_memory rest _ (event-IsServed s db h event)

-- From sound tables of timesheets whose entries are within bounds, any history of calls of the routes
-- that change state, whatever their tokens and bodies and the
-- server's clock at each, ends in such tables: no day of an entry is
-- above 24 hours of work or 8 of time off, an entry's total is the sum of its week, and the totals
-- of every timesheet are the sums over its entries.
pub serve_calls-IsServed :
    (c : Client)
    → IsLawful c
    → (history : List (Server × Event)) (db : Database) → IsServed db
    → IsServed (serve_calls c history db)
serve_calls-IsServed c lawful history db h = rw (in_memory-eq lawful) (serve-in_memory history db h)
