-- ===== src/Team/Assignment.antt =====
-- What assigning managers does: the employee's managers are exactly those named.
use mathlib.Core.List.{append-nil}
use tms_api.Prelude.{
  ℕ, suc, ◌≡◌, ◌≢◌, refl, Bool, true, false, not, ◌&&◌, List, [], ◌∷◌, ◌++◌, map, keep, includes,
  is_empty, arith, ◌==◌,
}
use text.Mathlib.Text.{◌==◌ as str_eq}
use tms_api.Prisma.{Client, IsLawful, in_memory, in_memory-eq, number_from, count_from}
use tms_api.Runtime.{Runtime}
use tms_api.Database.{Database, ManagerEmployee, User, manager_employee, user}
use tms_api.Database.Action.{Action, ◌>>◌, transaction, delete_many, when}
use tms_api.Database.Constraints.{create_manager_employees}
use tms_api.Database.Triple.{
  After, After-seq_then, After-throw_if, After-when, After-find_many, After-transaction,
  After-delete_many, After-create_many, After-current, After-last_throw_if,
}
use tms_api.Team.{assign_managers, missing_from, may_manage}

-- The managers of an employee.
abbrev pub managers_of : ℕ → List ManagerEmployee → List ℕ
managers_of e rows =
    map (λ (a : ManagerEmployee). a.manager_id) (keep (λ a. a.employee_id == e) rows)

-- `assignManagers` looks these users up: active managers and admins of the organisation.
abbrev pub eligible : ℕ → List ℕ → List User → List ℕ
eligible org_id ids users =
    map (λ (u : User). u.id)
      (keep
        (λ u.
          includes ids u.id
          && u.organisation_id == org_id
          && may_manage u.role
          && str_eq u.status "active")
        users)

pub record IsAssigned (employee_id org_id : ℕ) (ids : List ℕ) (old new : Database) : Type 0 where
  pub not_self : includes ids employee_id ≡ false
  pub all_eligible : is_empty (missing_from (eligible org_id ids old.users.rows) ids) ≡ true
  pub managers : managers_of employee_id new.manager_employees.rows ≡ ids
  pub others :
      (k : ℕ)
      → k ≢ employee_id
      → managers_of k new.manager_employees.rows ≡ managers_of k old.manager_employees.rows

abbrev assignments : ℕ → List ℕ → List (ℕ → ManagerEmployee)
assignments e ids =
    map (λ (k : ℕ × ℕ) id. record { id = id; manager_id = k.0; employee_id = k.1 })
      (map (λ m. (m, e)) ids)

managers_of-append :
    (k : ℕ) (xs ys : List ManagerEmployee)
    → managers_of k (xs ++ ys) ≡ managers_of k xs ++ managers_of k ys
managers_of-append k [] ys = refl
managers_of-append k (x ∷ xs) ys = ground (arith, managers_of-append k xs ys)

managers_of-cleared :
    (k : ℕ) (rows : List ManagerEmployee)
    → managers_of k (keep (λ a. not (a.employee_id == k)) rows) ≡ []
managers_of-cleared k [] = refl
managers_of-cleared k (a ∷ rows) = ground (arith, managers_of-cleared k rows)

managers_of-others :
    (k e : ℕ) (rows : List ManagerEmployee)
    → k ≢ e
    → managers_of k (keep (λ a. not (a.employee_id == e)) rows) ≡ managers_of k rows
managers_of-others k e [] ne = refl
managers_of-others k e (a ∷ rows) ne = ground (arith, managers_of-others k e rows ne)

managers_of-assignments :
    (e n : ℕ) (ids : List ℕ) → managers_of e (number_from n (assignments e ids)) ≡ ids
managers_of-assignments e n [] = refl
managers_of-assignments e n (m ∷ ids) = ground (arith, managers_of-assignments e (suc n) ids)

others-assignments :
    (k e n : ℕ) (ids : List ℕ) → k ≢ e → managers_of k (number_from n (assignments e ids)) ≡ []
others-assignments k e n [] ne = refl
others-assignments k e n (m ∷ ids) ne = ground (arith, others-assignments k e (suc n) ids ne)

abbrev reassigned : ℕ → List ℕ → Database → Database
reassigned e ids db = record db {
  manager_employees = record {
    rows =
        keep (λ a. not (a.employee_id == e)) db.manager_employees.rows
        ++ number_from db.manager_employees.next_id (assignments e ids);
    next_id = count_from db.manager_employees.next_id (assignments e ids);
  };
}

reassigned-IsAssigned :
    (e org_id : ℕ) (ids : List ℕ) (db : Database)
    → includes ids e ≡ false
    → is_empty (missing_from (eligible org_id ids db.users.rows) ids) ≡ true
    → IsAssigned e org_id ids db (reassigned e ids db)
reassigned-IsAssigned e org_id ids db not_self valid =
    let rows : List ManagerEmployee =
      keep (λ a. not (a.employee_id == e)) db.manager_employees.rows in
    let n = db.manager_employees.next_id in
    record {
      not_self = not_self;
      all_eligible = valid;
      managers =
          rw
            (
              managers_of-append e rows (number_from n (assignments e ids)),
              managers_of-cleared e db.manager_employees.rows,
            )
            (managers_of-assignments e n ids);
      others = λ k ne.
          rw
            (
              managers_of-append k rows (number_from n (assignments e ids)),
              others-assignments k e n ids ne,
              managers_of-others k e db.manager_employees.rows ne,
            )
            (append-nil (managers_of k db.manager_employees.rows));
    }

After-create_assignments :
    {Q : Unit {0} → Database → Type 0} {db : Database} (e : ℕ) (ids : List ℕ)
    → Q tt (record db {
      manager_employees = record {
        rows =
            db.manager_employees.rows
            ++ number_from db.manager_employees.next_id (assignments e ids);
        next_id = count_from db.manager_employees.next_id (assignments e ids);
      };
    })
    → After (λ _. Unit {0}) Q (create_manager_employees in_memory (map (λ m. (m, e)) ids)) db
unfolding create_manager_employees
After-create_assignments e ids h = After-current _ (
    After-find_many manager_employee _ _ (
      After-throw_if _ _ _ (λ _. tt)
        λ _. After-throw_if _ _ _ (λ _. tt) λ _. After-create_many manager_employee _ h))

-- The transaction at the end of `assignManagers`.
abbrev reassign : ℕ → List ℕ → Action (Unit {0})
reassign e ids = transaction (
    delete_many in_memory manager_employee (λ a. a.employee_id == e)
    >> when (not (is_empty ids)) (create_manager_employees in_memory (map (λ m. (m, e)) ids)))

After-reassign :
    {Q : Unit {0} → Database → Type 0} (e : ℕ) (ids : List ℕ) (db : Database)
    → Q tt (reassigned e ids db)
    → After (λ new. new ≡ db) Q (reassign e ids) db
After-reassign e [] db h = After-transaction _ refl (
    After-seq_then _ _
      (After-delete_many manager_employee _ (After-when _ _ (λ e. cc) (λ _. rw append-nil at h))))
After-reassign e (m ∷ ids) db h = After-transaction _ refl (
    After-seq_then _ _ (
      After-delete_many manager_employee _
        (After-when _ _ (λ _. After-create_assignments e (m ∷ ids) h) (λ e. cc))))

not-false : (b : Bool) → not b ≡ false → b ≡ true
not-false b h = ground arith

none_missing :
    (valid ids : List ℕ) → not (is_empty ids) ≡ false → is_empty (missing_from valid ids) ≡ true
none_missing valid [] h = refl
none_missing valid (m ∷ ids) h = cc

-- A call of `assignManagers` that throws has written nothing, since its two writes are one
-- transaction. One that returns was given no user as their own manager, and only active managers
-- and admins of the organisation; the employee's managers are then exactly those given, in their
-- order, and every other user's are what they were.
pub assign_managers-IsAssigned :
    (c : Client) (rt : Runtime)
    → IsLawful c
    → (employee_id : ℕ) (ids : List ℕ) (org_id : ℕ) (db : Database)
    → After
        (λ new. new ≡ db)
        (λ _ new. IsAssigned employee_id org_id ids db new)
        (assign_managers c rt employee_id ids org_id)
        db
unfolding assign_managers
assign_managers-IsAssigned c rt lawful e ids org_id db = rw (in_memory-eq lawful) (
    After-throw_if _ _ _ (λ _. refl)
      λ not_self. After-seq_then _ _ (
        After-when _ _
          (λ _. After-find_many user _ _ (
            After-last_throw_if _ _ (λ _. refl)
              λ valid.
                After-reassign e ids db
                  (reassigned-IsAssigned e org_id ids db not_self (not-false _ valid))))
          (λ nobody. After-reassign e ids db (
            reassigned-IsAssigned e org_id ids db not_self
              (none_missing (eligible org_id ids db.users.rows) ids nobody)))))
