-- ===== src/Team/Agreement.antt =====
-- The two ways in which the services ask for direct reports agree.
use tms_api.Prelude.{
  ℕ, ◌≡◌, refl, ◌∙◌, Bool, true, false, ◌&&◌, Option, none, some, is_some, List, [], ◌∷◌, map, keep,
  first, includes, arith, ◌==◌,
}
use tms_api.Prisma.{Client, IsLawful, in_memory, in_memory-eq}
use tms_api.Database.{Database, ManagerEmployee}
use tms_api.Database.Action.{Result, ok, thrown, calls, queries, or_throw, pure, ◌>>◌}
use tms_api.Errors.{Thrown}
use tms_api.Database.Constraints.{user_in}
use tms_api.Team.{get_direct_report_ids, assert_is_direct_report}
use tms_api.Team.Guards.{reports_of, reports_to}

abbrev pub is_ok : {A : Type 0} → Result A → Bool
is_ok (ok a) = true
is_ok (thrown e) = false

-- An assignment of the pair is found exactly when the employee is among the manager's.
is_some-reports :
    (m e org_id : ℕ) (db : Database) (rows : List ManagerEmployee)
    → is_some (first (reports_to m e org_id db) rows)
      ≡ includes
          (map
            (λ (a : ManagerEmployee). a.employee_id)
            (keep (λ a. a.manager_id == m && user_in in_memory org_id db a.manager_id) rows))
          e
is_some-reports m e org_id db [] = refl
is_some-reports m e org_id db (a ∷ rows) = ground (arith, is_some-reports m e org_id db rows)

answer :
    (found : Option ManagerEmployee) (e : Thrown) (db : Database)
    → (is_ok ((or_throw found e >> pure tt) db).0 ≡ is_some found)
      × (((or_throw found e >> pure tt) db).1 ≡ db)
unfolding calls queries
answer none e db = (refl, refl)
answer (some a) e db = (refl, refl)

-- `assertIsDirectReport` returns exactly for the employees that `getDirectReportIds` lists, and
-- neither writes.
pub assert_is_direct_report-reports_of :
    (c : Client)
    → IsLawful c
    → (manager_id employee_id org_id : ℕ) (db : Database)
    → (get_direct_report_ids c manager_id org_id db ≡ (ok (reports_of manager_id org_id db), db))
      × (is_ok (assert_is_direct_report c manager_id employee_id org_id db).0
          ≡ includes (reports_of manager_id org_id db) employee_id)
      × ((assert_is_direct_report c manager_id employee_id org_id db).1 ≡ db)
unfolding get_direct_report_ids assert_is_direct_report calls queries
assert_is_direct_report-reports_of c lawful m e org_id db = rw (in_memory-eq lawful) (
  refl,
  (answer (first (reports_to m e org_id db) db.manager_employees.rows) _ db).0
      ∙ is_some-reports m e org_id db db.manager_employees.rows,
  (answer (first (reports_to m e org_id db) db.manager_employees.rows) _ db).1,
)
