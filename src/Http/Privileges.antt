-- ===== src/Http/Privileges.antt =====
-- Who may become a manager or an administrator: rbac.ts with the checks of `createUser` and
-- `updateUser`, over all the routes.
use tms_api.Prelude.{
  arith, ℕ, String, ◌≡◌, ◌≢◌, inl, inr, refl, true, none, some, List, [], ◌∷◌, All, first, change,
  ◌==◌, Bool-cases, Option-cases,
}
use tms_api.Prisma.{Client, IsLawful, in_memory, in_memory-eq}
use tms_api.Prisma.Rows.{first-change}
use tms_api.Runtime.{Runtime}
use tms_api.Database.{Database, User, UserRole, employee, manager, admin}
use tms_api.Database.{user as accounts}
use tms_api.Database.Action.{Action, ◌>>◌, pure, update}
use tms_api.Database.Constraints.{delete_project_row}
use tms_api.Database.Triple.{After, After-always, After-then, After-pure, After-update}
use tms_api.Database.Keeps.{
  Keeps, Keeps-if, Keeps-pure, Keeps-throw, Keeps-or_throw, Keeps-bind, Keeps-then, Keeps-throw_if,
  Keeps-find_first, Keeps-find_many, Keeps-create, Keeps-update, Keeps-delete, Keeps-delete_many,
}
use tms_api.Users
use tms_api.Users.{CreateUserDto, UpdateUserDto, deactivate_user}
use tms_api.Users.Keeps.{Keeps-assign_managers}
use tms_api.Users.Roles.{
  GrantsNone, GrantsNone-refl, assignments, raised, still, create-GrantsNone, update-GrantsNone,
}
use tms_api.Service
use tms_api.Timesheets.Keeps.{
  SheetOutside, Keeps-create_timesheet, Keeps-update_timesheet, Keeps-delete_timesheet,
  Keeps-submit_timesheet, Keeps-copy_previous_week, Keeps-create_entry, Keeps-update_entry,
  Keeps-delete_entry, Keeps-approve_timesheet, Keeps-reject_timesheet,
}
use tms_api.Projects.{delete_project}
use tms_api.Service.{JwtPayload, Request, handle}
use tms_api.Http.Administration.{
  AdminOutside, Keeps-create_project, Keeps-update_project, Keeps-update_settings,
  Keeps-create_holiday, Keeps-delete_holiday, Keeps-mark_as_read, Keeps-mark_all_as_read,
  Keeps-deactivate_user, Keeps-logout_user, Keeps-login_user, Keeps-refresh_access_token,
}
use tms_api.Http.Admission.{IsVerified, respond-Refused-Admitted}
use tms_api.Http.Routes.{
  Call, timesheets, create_user, update_user, remove_user, create_project, update_project,
  remove_project, update_settings, create_holiday, remove_holiday, mark_read, mark_all_read,
  set_user_managers, logout, roles_of, dispatch,
}
use tms_api.Http.Server.{
  Server, PublicCall, register, login, refresh, Event, protected, public, may_call, run_public,
  respond_public, respond_event, serve_calls,
}

-- No token of the call verifies for an administrator, and it does not found an organisation.
abbrev pub IsUnprivileged : Server → Event → Type 0
IsUnprivileged s (protected header call) =
    (user : JwtPayload) → IsVerified s header user → user.role ≢ admin
IsUnprivileged s (public (register dto)) = ⊥
IsUnprivileged s (public _) = Unit

GrantsNone-trans :
    (old mid new : Database) → GrantsNone old mid → GrantsNone mid new → GrantsNone old new
GrantsNone-trans old mid new g h = record { kept = λ id. still (h.kept id) (g.kept id) }

sheets : SheetOutside GrantsNone
sheets = record {
  sheets = λ t old db h. record { kept = h.kept };
  entries = λ t old db h. record { kept = h.kept };
  used_hours = λ t old db h. record { kept = h.kept };
  notifications = λ t old db h. record { kept = h.kept };
}

-- A change of an account that leaves its role alone.
raised-changed_user :
    (key k : ℕ) (f : User → User) (rows : List User)
    → ((u : User) → ((f u).id ≡ u.id) × ((f u).role ≡ u.role))
    → raised (first (λ (u : User). u.id == k) (change (λ u. u.id == key) f rows))
      ≡ raised (first (λ (u : User). u.id == k) rows)
raised-changed_user key k f rows same =
    rw (first-change (λ (u : User). u.id) f (λ u. (same u).0) k key rows)
      (elim (Bool-cases (k == key)) [
        | inr e ↦ rw e refl
        | inl e ↦ rw e (elim (Option-cases (first (λ (u : User). u.id == k) rows)) [
          | inl missing ↦ rw missing refl
          | inr (u, found) ↦ rw (found, (same u).1) refl
        ])
      ])

Keeps-changed_user :
    (key : ℕ) (f : User → User)
    → ((u : User) → ((f u).id ≡ u.id) × ((f u).role ≡ u.role))
    → Keeps GrantsNone (update in_memory accounts (λ u. u.id == key) f)
Keeps-changed_user key f same = record {
  keeps = λ old db h.
      After-update accounts _ f (λ _. h)
        (λ r _. record {
          kept = λ k. still (inl (raised-changed_user key k f db.users.rows same)) (h.kept k);
        });
}

administration : AdminOutside GrantsNone
administration = record {
  settings = λ t old db h. record { kept = h.kept };
  holidays = λ t old db h. record { kept = h.kept };
  notifications = λ t old db h. record { kept = h.kept };
  team = assignments;
  new_project = λ mk. Keeps-create _ sheets.used_hours mk;
  changed_project = λ key f same. Keeps-update _ sheets.used_hours _ f;
  changed_user = Keeps-changed_user;
}

Keeps-delete_project : (id org_id : ℕ) → Keeps GrantsNone (delete_project in_memory id org_id)
unfolding delete_project delete_project_row
Keeps-delete_project id org_id = Keeps-bind _ _ (Keeps-find_first _ _) λ found.
    Keeps-then _ _ (Keeps-or_throw _ _) (
      Keeps-bind _ _ (Keeps-find_many _ _) λ es. Keeps-then _ _ (Keeps-throw_if _ _) (
        Keeps-then _ _ (Keeps-delete _ sheets.used_hours _) (
          Keeps-then _ _ (Keeps-delete_many _ assignments.project_managers _)
            (Keeps-delete_many _ assignments.project_employees _))))

Keeps-handle :
    (rt : Runtime) (user : JwtPayload) (request : Request)
    → Keeps GrantsNone (handle in_memory rt user request)
unfolding handle
Keeps-handle rt user (Service.create text) =
    Keeps-then _ _ (Keeps-create_timesheet sheets rt _ _ text) (Keeps-pure tt)
Keeps-handle rt user (Service.update id text) =
    Keeps-then _ _ (Keeps-update_timesheet sheets rt id _ _ text) (Keeps-pure tt)
Keeps-handle rt user (Service.remove id) = Keeps-delete_timesheet sheets id _ _
Keeps-handle rt user (Service.submit id) =
    Keeps-then _ _ (Keeps-submit_timesheet sheets id _ _) (Keeps-pure tt)
Keeps-handle rt user (Service.copy_previous_week text force) =
    Keeps-then _ _ (Keeps-copy_previous_week sheets rt _ _ text _ force) (Keeps-pure tt)
Keeps-handle rt user (Service.create_entry id dto) =
    Keeps-then _ _ (Keeps-create_entry sheets rt id _ _ dto _) (Keeps-pure tt)
Keeps-handle rt user (Service.update_entry id eid dto) =
    Keeps-then _ _ (Keeps-update_entry sheets id eid _ _ dto _) (Keeps-pure tt)
Keeps-handle rt user (Service.delete_entry id eid) = Keeps-delete_entry sheets id eid _ _
Keeps-handle rt user (Service.approve id) =
    Keeps-then _ _ (Keeps-approve_timesheet sheets rt id _ _ _) (Keeps-pure tt)
Keeps-handle rt user (Service.reject id reason) =
    Keeps-then _ _ (Keeps-reject_timesheet sheets rt id _ _ reason _) (Keeps-pure tt)

module _ (rt : Runtime) (id org_id requesting_id : ℕ) (db : Database) where
  ordinary-create_user :
      (role : UserRole)
      → role ≢ admin
      → (hash : String → String) (dto : CreateUserDto)
      → may_call (roles_of (create_user dto)) role ≡ true
      → After
          (GrantsNone db)
          (λ _. GrantsNone db)
          (Users.create_user in_memory rt hash org_id dto requesting_id role)
          db
  ordinary-create_user employee ordinary hash dto allowed = absurd (ground (arith, allowed))
  ordinary-create_user manager ordinary hash dto allowed =
      create-GrantsNone rt id org_id requesting_id db hash dto
  ordinary-create_user admin ordinary hash dto allowed = absurd (ordinary refl)

  ordinary-update_user :
      (role : UserRole)
      → role ≢ admin
      → (dto : UpdateUserDto) → may_call (roles_of (update_user id dto)) role ≡ true
      → After
          (GrantsNone db)
          (λ _. GrantsNone db)
          (Users.update_user in_memory rt id org_id dto requesting_id role)
          db
  ordinary-update_user employee ordinary dto allowed = absurd (ground (arith, allowed))
  ordinary-update_user manager ordinary dto allowed =
      update-GrantsNone rt id org_id requesting_id db dto
  ordinary-update_user admin ordinary dto allowed = absurd (ordinary refl)

module _ (s : Server) (user : JwtPayload) (ordinary : user.role ≢ admin) (db : Database) where
  kept : {A : Type 0} (m : Action A) → Keeps GrantsNone m → GrantsNone db (m db).1
  kept m k = After-always (k.keeps db db (GrantsNone-refl db))

  quiet : {A : Type 0} (m : Action A) → Keeps GrantsNone m → GrantsNone db ((m >> pure tt) db).1
  quiet m k = kept _ (Keeps-then m _ k (Keeps-pure tt))

  dispatch-GrantsNone :
      (call : Call)
      → may_call (roles_of call) user.role ≡ true
      → GrantsNone db (dispatch in_memory s.runtime s.auth user call db).1
  unfolding dispatch
  dispatch-GrantsNone (timesheets request) allowed = kept _ (Keeps-handle s.runtime user request)
  dispatch-GrantsNone (create_user dto) allowed = After-always {I = GrantsNone db} (
      After-then _ _ _ (ordinary-create_user s.runtime 0 _ _ db user.role ordinary _ dto allowed)
        (λ d g. After-pure tt g))
  dispatch-GrantsNone (update_user id dto) allowed = After-always {I = GrantsNone db} (
      After-then _ _ _ (ordinary-update_user s.runtime id _ _ db user.role ordinary dto allowed)
        (λ d g. After-pure tt g))
  dispatch-GrantsNone (remove_user id) allowed =
      kept _ (Keeps-deactivate_user administration id _ _ _)
  dispatch-GrantsNone (create_project dto) allowed =
      quiet _ (Keeps-create_project administration _ dto _ _)
  dispatch-GrantsNone (update_project id dto) allowed =
      quiet _ (Keeps-update_project administration id _ dto _ _)
  dispatch-GrantsNone (remove_project id) allowed = kept _ (Keeps-delete_project id _)
  dispatch-GrantsNone (update_settings dto) allowed =
      quiet _ (Keeps-update_settings administration _ dto)
  dispatch-GrantsNone (create_holiday dto) allowed =
      quiet _ (Keeps-create_holiday administration s.runtime _ dto)
  dispatch-GrantsNone (remove_holiday id) allowed =
      kept _ (Keeps-delete_holiday administration id _)
  dispatch-GrantsNone (mark_read id) allowed = quiet _ (Keeps-mark_as_read administration id _)
  dispatch-GrantsNone mark_all_read allowed = kept _ (Keeps-mark_all_as_read administration _)
  dispatch-GrantsNone (set_user_managers id ids) allowed =
      kept _ (Keeps-assign_managers assignments s.runtime id ids _)
  dispatch-GrantsNone logout allowed = quiet _ (Keeps-logout_user administration s.auth _)

module _ (s : Server) where
  Keeps-run_public :
      (call : PublicCall)
      → IsUnprivileged s (public call)
      → Keeps GrantsNone (run_public in_memory s call)
  unfolding run_public
  Keeps-run_public (register dto) founds = absurd founds
  Keeps-run_public (login dto) _ =
      Keeps-then _ _ (Keeps-throw_if _ _) (Keeps-login_user administration s.auth dto)
  Keeps-run_public (refresh none) _ = Keeps-throw _
  Keeps-run_public (refresh (some token)) _ =
      Keeps-if _ _ _ (Keeps-throw _) (Keeps-refresh_access_token administration s.auth token)

  event-GrantsNone :
      (event : Event) (db : Database)
      → IsUnprivileged s event
      → GrantsNone db (respond_event in_memory s event db).1
  unfolding respond_event respond_public
  event-GrantsNone (public call) db h =
      After-always ((Keeps-run_public call h).keeps db db (GrantsNone-refl db))
  event-GrantsNone (protected header call) db h =
      elim (respond-Refused-Admitted in_memory s header call db) [
        | inl (e, why, is) ↦ rw is (GrantsNone-refl db)
        | inr (user, (v, allowed, valid), is) ↦
            rw is (dispatch-GrantsNone s user (h user v) db call allowed)
      ]

serve-GrantsNone :
    (history : List (Server × Event)) (db : Database)
    → All (λ (call : Server × Event). IsUnprivileged call.0 call.1) history
    → GrantsNone db (serve_calls in_memory history db)
unfolding serve_calls
serve-GrantsNone [] db h = GrantsNone-refl db
serve-GrantsNone ((s, event) ∷ rest) db h =
    GrantsNone-trans db (respond_event in_memory s event db).1 _ (event-GrantsNone s event db h.0)
      (serve-GrantsNone rest _ h.1)

-- Only administrators, and who founds an organisation, give privileges: after any history of calls
-- of the routes that change state, none of which registers an organisation or carries a token that
-- verifies for an administrator, every account that is no employee's had its role at the start.
pub serve_calls-GrantsNone :
    (c : Client)
    → IsLawful c
    → (history : List (Server × Event)) (db : Database)
    → All (λ (call : Server × Event). IsUnprivileged call.0 call.1) history
    → GrantsNone db (serve_calls c history db)
serve_calls-GrantsNone c lawful history db h =
    rw (in_memory-eq lawful) (serve-GrantsNone history db h)
