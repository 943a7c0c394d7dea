-- ===== src/Projects/Members.antt =====
-- Who manages a project and who works on it, as two relations: what `updateProject` does to them.
use mathlib.Core.List.{append-nil}
use tms_api.Prelude.{
  ℕ, suc, ◌≡◌, refl, ap, ◌∙◌, Bool, false, not, ◌&&◌, ◌||◌, Option, none, some, List, [], ◌∷◌, ◌++◌,
  map, keep, change, any, includes, is_empty, arith, ◌==◌, if◌then◌else◌,
}
use tms_api.Prisma.{Client, IsLawful, in_memory, in_memory-eq, number_from}
use tms_api.Database.{
  Database, UserRole, ProjectManager, ProjectEmployee, project, project_manager, project_employee,
}
use tms_api.Database.Action.{◌>>◌, delete_many, when, find_first}
use tms_api.Database.Constraints.{create_project_managers, create_project_employees}
use tms_api.Database.Triple.{
  After, After-then, After-seq_then, After-throw_if, After-when, After-find_many, After-find_first,
  After-or_throw, After-transaction, After-update, After-pure, After-delete_many, After-create_many,
  After-current,
}
use tms_api.Database.Keeps.{Keeps, Keeps-when, Keeps-bind, Keeps-throw_if}
use tms_api.Users.{given_ids}
use tms_api.Users.Keeps.{Keeps-given_ids, Keeps-get_direct_report_ids}
use tms_api.Projects.{UpdateProjectDto, apply_update, update_project, assert_assigns_reports}

-- Whether a row links the project `p` to the user `u`.
abbrev linked : {R : Type 0} → (R → ℕ) → (R → ℕ) → List R → ℕ → ℕ → Bool
linked project_of user_of rows p u = any (λ r. project_of r == p && user_of r == u) rows

-- The two relations that the database holds.
pub record Members : Type 0 where
  pub manages : ℕ → ℕ → Bool
  pub works : ℕ → ℕ → Bool

abbrev pub members : Database → Members
members db = record {
  manages = linked (λ r. r.project_id) (λ r. r.manager_id) db.project_managers.rows;
  works = linked (λ r. r.project_id) (λ r. r.employee_id) db.project_employees.rows;
}

-- A relation where the project `id` has exactly the users given, if any are.
abbrev pub reset : ℕ → Option (List ℕ) → (ℕ → ℕ → Bool) → ℕ → ℕ → Bool
reset id none old p u = old p u
reset id (some ids) old p u = if p == id then includes ids u else old p u

abbrev pub reassign : ℕ → UpdateProjectDto → Members → Members
reassign id dto m = record {
  manages = reset id dto.manager_ids m.manages;
  works = reset id dto.employee_ids m.works;
}

module _ {R : Type 0} (project_of user_of : R → ℕ) (id : ℕ) where
  linked-append :
      (xs ys : List R) (p u : ℕ)
      → linked project_of user_of (xs ++ ys) p u
        ≡ (linked project_of user_of xs p u || linked project_of user_of ys p u)
  linked-append [] ys p u = refl
  linked-append (x ∷ xs) ys p u = ground (arith, linked-append xs ys p u)

  linked-cleared :
      (rows : List R) (p u : ℕ)
      → linked project_of user_of (keep (λ r. not (project_of r == id)) rows) p u
        ≡ (if p == id then false else linked project_of user_of rows p u)
  linked-cleared [] p u = ground arith
  linked-cleared (r ∷ rows) p u = ground (arith, linked-cleared rows p u)

  module _ (mk : ℕ × ℕ → ℕ → R) (of_project : (k : ℕ × ℕ) (n : ℕ) → project_of (mk k n) ≡ k.0)
      (of_user : (k : ℕ × ℕ) (n : ℕ) → user_of (mk k n) ≡ k.1) where
    linked-new :
        (n : ℕ) (ids : List ℕ) (p u : ℕ)
        → linked project_of user_of (number_from n (map mk (map (λ m. (id, m)) ids))) p u
          ≡ ((p == id) && includes ids u)
    linked-new n [] p u = ground arith
    linked-new n (m ∷ ids) p u =
        ground (arith, linked-new (suc n) ids p u, of_project (id, m) n, of_user (id, m) n)

    linked-reset :
        (n : ℕ) (ids : List ℕ) (rows : List R)
        → linked project_of user_of (
            keep (λ r. not (project_of r == id)) rows
            ++ number_from n (map mk (map (λ m. (id, m)) ids)))
          ≡ reset id (some ids) (linked project_of user_of rows)
    linked-reset n ids rows = λ i p u. pointwise p u i
      where
        pointwise :
            (p u : ℕ)
            → linked project_of user_of
                (keep (λ r. not (project_of r == id)) rows
                  ++ number_from n (map mk (map (λ m. (id, m)) ids)))
                p
                u
              ≡ (if p == id then includes ids u else linked project_of user_of rows p u)
        pointwise p u =
            rw
              (
                linked-append (keep (λ r. not (project_of r == id)) rows)
                    (number_from n (map mk (map (λ m. (id, m)) ids))) p u,
                linked-cleared rows p u,
                linked-new n ids p u,
              )
              (ground arith)

abbrev IsReset : ℕ → Option (List ℕ) → (ℕ → ℕ → Bool) → (ℕ → ℕ → Bool) → Type 0
IsReset id ids old new = new ≡ reset id ids old

managers-IsReset :
    (id n : ℕ) (ids : List ℕ) (rows : List ProjectManager)
    → IsReset id
        (some ids)
        (linked (λ (r : ProjectManager). r.project_id) (λ r. r.manager_id) rows)
        (linked
          (λ (r : ProjectManager). r.project_id)
          (λ r. r.manager_id)
          (keep (λ r. not (r.project_id == id)) rows
            ++ number_from n (
                map
                  (λ (k : ℕ × ℕ) id. record { id = id; project_id = k.0; manager_id = k.1 })
                  (map (λ m. (id, m)) ids))))
managers-IsReset id n ids rows =
    linked-reset (λ r. r.project_id) (λ r. r.manager_id) id
      (λ k id. record { id = id; project_id = k.0; manager_id = k.1 }) (λ k n. refl) (λ k n. refl) n
      ids rows

employees-IsReset :
    (id n : ℕ) (ids : List ℕ) (rows : List ProjectEmployee)
    → IsReset id
        (some ids)
        (linked (λ (r : ProjectEmployee). r.project_id) (λ r. r.employee_id) rows)
        (linked
          (λ (r : ProjectEmployee). r.project_id)
          (λ r. r.employee_id)
          (keep (λ r. not (r.project_id == id)) rows
            ++ number_from n (
                map
                  (λ (k : ℕ × ℕ) id. record { id = id; project_id = k.0; employee_id = k.1 })
                  (map (λ m. (id, m)) ids))))
employees-IsReset id n ids rows =
    linked-reset (λ r. r.project_id) (λ r. r.employee_id) id
      (λ k id. record { id = id; project_id = k.0; employee_id = k.1 }) (λ k n. refl) (λ k n. refl)
      n ids rows

-- The step of the transaction that writes the managers, and the one that writes the employees.
module _ (id : ℕ) where
  After-managers :
      (ids : Option (List ℕ)) (db : Database)
      → After
          (λ _. Unit {0})
          (λ _ new.
            IsReset id ids (members db).manages (members new).manages
            × ((members new).works ≡ (members db).works))
          (given_ids ids (λ ids.
            delete_many in_memory project_manager (λ r. r.project_id == id)
            >> when
                (not (is_empty ids))
                (create_project_managers in_memory (map (λ m. (id, m)) ids))))
          db
  unfolding create_project_managers
  After-managers none db = After-pure tt (refl, refl)
  After-managers (some []) db =
      let e = managers-IsReset id db.project_managers.next_id [] db.project_managers.rows in
      After-seq_then _ _ (
        After-delete_many project_manager _
          (After-when _ _ (λ e. cc) (λ _. (rw append-nil at e, refl))))
  After-managers (some (m ∷ ids)) db = After-seq_then _ _ (
      After-delete_many project_manager _ (
        After-when _ _
          (λ _. After-current _ (
            After-find_many project_manager _ _ (
              After-throw_if _ _ _ (λ _. tt)
                λ _.
                  After-throw_if _ _ _ (λ _. tt)
                    λ _. After-create_many project_manager _ (
                      managers-IsReset id db.project_managers.next_id (m ∷ ids)
                          db.project_managers.rows,
                      refl,
                    ))))
          (λ e. cc)))

  After-employees :
      (ids : Option (List ℕ)) (db : Database)
      → After
          (λ _. Unit {0})
          (λ _ new.
            IsReset id ids (members db).works (members new).works
            × ((members new).manages ≡ (members db).manages))
          (given_ids ids (λ ids.
            delete_many in_memory project_employee (λ r. r.project_id == id)
            >> when
                (not (is_empty ids))
                (create_project_employees in_memory (map (λ m. (id, m)) ids))))
          db
  unfolding create_project_employees
  After-employees none db = After-pure tt (refl, refl)
  After-employees (some []) db =
      let e = employees-IsReset id db.project_employees.next_id [] db.project_employees.rows in
      After-seq_then _ _ (
        After-delete_many project_employee _
          (After-when _ _ (λ e. cc) (λ _. (rw append-nil at e, refl))))
  After-employees (some (m ∷ ids)) db = After-seq_then _ _ (
      After-delete_many project_employee _ (
        After-when _ _
          (λ _. After-current _ (
            After-find_many project_employee _ _ (
              After-throw_if _ _ _ (λ _. tt)
                λ _.
                  After-throw_if _ _ _ (λ _. tt)
                    λ _. After-create_many project_employee _ (
                      employees-IsReset id db.project_employees.next_id (m ∷ ids)
                          db.project_employees.rows,
                      refl,
                    ))))
          (λ e. cc)))

pub Keeps-assert_assigns_reports :
    {R : Database → Database → Type 0} (requesting_id : ℕ) (role : UserRole) (ids : List ℕ)
    (org_id : ℕ)
    → Keeps R (assert_assigns_reports in_memory requesting_id role ids org_id)
unfolding assert_assigns_reports
Keeps-assert_assigns_reports requesting_id role ids org_id =
    Keeps-when _ _ (Keeps-bind _ _ (Keeps-get_direct_report_ids _ _) λ reports. Keeps-throw_if _ _)

-- `updateProject` implements the reassignment of the two relations: when it returns, the project
-- has exactly the managers and the employees given, each where the request names them, and every
-- other project has those it had. When it throws, it has written nothing.
pub update_project-reassign :
    (c : Client)
    → IsLawful c
    → (id org_id : ℕ) (dto : UpdateProjectDto) (requesting_id : ℕ) (role : UserRole) (db : Database)
    → After
        (λ new. new ≡ db)
        (λ _ new. members new ≡ reassign id dto (members db))
        (update_project c id org_id dto requesting_id role)
        db
unfolding update_project find_first
update_project-reassign c lawful id org_id dto requesting_id role db = rw (in_memory-eq lawful) (
    After-find_first project _ _ (
      After-or_throw _ _ _ (λ _. refl)
        λ old found. After-find_first project _ _ (
          After-throw_if _ _ _ (λ _. refl)
            λ free.
              After-then (λ new. new ≡ db) _ _
                ((Keeps-given_ids {R = λ old new. new ≡ old} dto.employee_ids _
                    λ ids. Keeps-assert_assigns_reports requesting_id role ids org_id).keeps
                  db db refl)
                λ d same. rw same (
                  After-transaction _ refl (
                    After-throw_if _ _ _ (λ _. tt)
                      λ _. After-seq_then _ _ (
                        After-update project _ _ (λ _. tt)
                          λ r _.
                            let written =
                              project.put
                                (record {
                                  rows =
                                      change (λ p. p.id == id) (apply_update dto) db.projects.rows;
                                  next_id = db.projects.next_id;
                                })
                                db in
                            After-then
                              (λ new.
                                ((members new).manages
                                  ≡ reset id dto.manager_ids (members db).manages)
                                × ((members new).works ≡ (members db).works))
                              _ _ (After-managers id dto.manager_ids written)
                              λ d2 m2.
                                After-then
                                  (λ new.
                                    IsReset id dto.employee_ids (members d2).works
                                      (members new).works
                                    × ((members new).manages ≡ (members d2).manages))
                                  _ _ (After-employees id dto.employee_ids d2)
                                  λ d3 q. record {
                                    outcome = λ i. record {
                                      manages = (q.1 ∙ m2.0) i;
                                      works = (q.0 ∙ ap (reset id dto.employee_ids) m2.1) i;
                                    };
                                  }))))))
