-- ===== src/Team/Views.antt =====
-- The two views of a team, from the manager and from the employee.
use tms_api.Prelude.{
  ℕ, ◌≡◌, refl, sym, ◌∙◌, Bool, Bool-cases, true, ◌&&◌, some, is_some, Option-cases, inl, inr, List,
  [], ◌∷◌, map, keep, first, any, includes, All, arith, ◌==◌,
}
use mathlib.Core.Bool.{true≢false}
use mathlib.Core.Path.{subst}
use tms_api.Prisma.{Client, IsLawful, in_memory, in_memory-eq}
use tms_api.Prisma.Rows.{first_sound}
use tms_api.Database.{Database, ManagerEmployee, User, manager_employee}
use tms_api.Database.Constraints.{user_in}
use tms_api.Database.Triple.{After, After-current, After-find_many, After-pure}
use tms_api.Team.{get_direct_report_ids, get_manager_ids, get_team_members, related_users}
use tms_api.Users.Scope.{After-reports}

-- The assignments of one pair.
abbrev assigned : ℕ → ℕ → List ManagerEmployee → Bool
assigned manager_id employee_id rows =
    any (λ a. a.manager_id == manager_id && a.employee_id == employee_id) rows

managers_assigned :
    (m e : ℕ) (ok : ℕ → Bool) (rows : List ManagerEmployee)
    → ok e ≡ true
    → includes
        (map
          (λ (a : ManagerEmployee). a.manager_id)
          (keep (λ a. a.employee_id == e && ok a.employee_id) rows))
        m
      ≡ assigned m e rows
managers_assigned m e ok [] h = refl
managers_assigned m e ok (a ∷ rows) h = elim (Bool-cases (a.employee_id == e)) [
  | inl hit ↦
      let same : a.employee_id ≡ e = ground (arith, hit) in
      let fine : ok a.employee_id ≡ true = rw same h in
      ground (arith, hit, fine, managers_assigned m e ok rows h)
  | inr miss ↦ ground (arith, miss, managers_assigned m e ok rows h)
]

reports_assigned :
    (m e : ℕ) (ok : ℕ → Bool) (rows : List ManagerEmployee)
    → ok m ≡ true
    → includes
        (map
          (λ (a : ManagerEmployee). a.employee_id)
          (keep (λ a. a.manager_id == m && ok a.manager_id) rows))
        e
      ≡ assigned m e rows
reports_assigned m e ok [] h = refl
reports_assigned m e ok (a ∷ rows) h = elim (Bool-cases (a.manager_id == m)) [
  | inl hit ↦
      let same : a.manager_id ≡ m = ground (arith, hit) in
      let fine : ok a.manager_id ≡ true = rw same h in
      ground (arith, hit, fine, reports_assigned m e ok rows h)
  | inr miss ↦ ground (arith, miss, reports_assigned m e ok rows h)
]

-- For two users of an organisation, `getManagerIds` of the one lists the other exactly where
-- `getDirectReportIds` of the other lists the one. Neither throws or writes.
pub get_manager_ids-get_direct_report_ids :
    (c : Client)
    → IsLawful c
    → (manager_id employee_id org_id : ℕ) (db : Database)
    → user_in in_memory org_id db manager_id ≡ true
    → user_in in_memory org_id db employee_id ≡ true
    → After
        (λ _. ⊥)
        (λ managers new.
          (new ≡ db)
          × After
              (λ _. ⊥)
              (λ reports later.
                (later ≡ db) × (includes managers manager_id ≡ includes reports employee_id))
              (get_direct_report_ids c manager_id org_id)
              db)
        (get_manager_ids c employee_id org_id)
        db
unfolding get_manager_ids
get_manager_ids-get_direct_report_ids c lawful manager_id employee_id org_id db m e =
    rw (in_memory-eq lawful) (
      After-current _ (
        After-find_many manager_employee _ _ (
          After-pure _ (
            refl,
            After-reports manager_id org_id (
              refl,
              managers_assigned manager_id employee_id (user_in in_memory org_id db)
                    db.manager_employees.rows e
                  ∙ sym (
                      reports_assigned manager_id employee_id (user_in in_memory org_id db)
                        db.manager_employees.rows m),
            ),
          ))))

-- The assignments' users exist.
abbrev pub IsLinked : Database → Type 0
IsLinked db =
    All
      (λ (a : ManagerEmployee).
        is_some (first (λ (u : User). u.id == a.employee_id) db.users.rows) ≡ true)
      db.manager_employees.rows

related-ids :
    (db : Database) (p : ManagerEmployee → Bool) (rows : List ManagerEmployee)
    → All
        (λ (a : ManagerEmployee).
          is_some (first (λ (u : User). u.id == a.employee_id) db.users.rows) ≡ true)
        rows
    → let ids = map (λ (a : ManagerEmployee). a.employee_id) (keep p rows) in
      map (λ (u : User). u.id) (related_users in_memory db ids) ≡ ids
related-ids db p [] h = refl
related-ids db p (a ∷ rows) h = elim (Bool-cases (p a)) [
  | inr miss ↦ rw miss (related-ids db p rows h.1)
  | inl hit ↦ elim (Option-cases (first (λ (u : User). u.id == a.employee_id) db.users.rows)) [
    | inl gone ↦ absurd (true≢false (sym h.0 ∙ rw gone refl))
    | inr (u, found) ↦
        let same : (u.id == a.employee_id) ≡ true = first_sound _ db.users.rows u found in
        let own : u.id ≡ a.employee_id = ground (arith, same) in
        rw (hit, found, related_users, own) (rw (related-ids db p rows h.1) refl)
  ]
]

-- The users are rows of the table, each the one that its id finds.
abbrev pub AreRows : Database → List User → Type 0
AreRows db us = All (λ (u : User). first (λ (v : User). v.id == u.id) db.users.rows ≡ some u) us

related-AreRows : (db : Database) (ids : List ℕ) → AreRows db (related_users in_memory db ids)
related-AreRows db [] = tt
related-AreRows db (id ∷ ids) =
    elim (Option-cases (first (λ (u : User). u.id == id) db.users.rows)) [
      | inl gone ↦ rw (gone, related_users) (related-AreRows db ids)
      | inr (u, found) ↦
          let same : (u.id == id) ≡ true = first_sound _ db.users.rows u found in
          let own : u.id ≡ id = ground (arith, same) in
          let here : first (λ (v : User). v.id == u.id) db.users.rows ≡ some u =
            subst (λ k. first (λ (v : User). v.id == k) db.users.rows ≡ some u) (sym own) found in
          rw (found, related_users) (here, related-AreRows db ids)
    ]

-- Where the assignments' users exist, `getTeamMembers` gives their rows of the users that
-- `getDirectReportIds` lists, in its order. Neither throws or writes.
pub get_team_members-get_direct_report_ids :
    (c : Client)
    → IsLawful c
    → (manager_id org_id : ℕ) (db : Database) → IsLinked db
    → After
        (λ _. ⊥)
        (λ us new.
          (new ≡ db)
          × AreRows db us
          × After
              (λ _. ⊥)
              (λ reports later. (later ≡ db) × (map (λ u. u.id) us ≡ reports))
              (get_direct_report_ids c manager_id org_id)
              db)
        (get_team_members c manager_id org_id)
        db
unfolding get_team_members
get_team_members-get_direct_report_ids c lawful manager_id org_id db linked =
    rw (in_memory-eq lawful) (
      After-current _ (
        After-find_many manager_employee _ _ (
          After-pure _ (
            refl,
            related-AreRows db _,
            After-reports manager_id org_id
                (refl, related-ids db _ db.manager_employees.rows linked),
          ))))
