-- ===== src/Users/Roles.antt =====
-- Who may give a role: `createUser` and `updateUser` called by a manager.
use tms_api.Prelude.{
  ℕ, ◌≡◌, ◌⊎◌, inl, inr, refl, ◌∙◌, String, true, false, Option, none, some, or_default, List, [],
  ◌∷◌, ◌++◌, change, first, arith, ◌==◌, Bool-cases, Option-cases, if◌then◌else◌,
}
use tms_api.Prisma.{in_memory}
use tms_api.Prisma.Rows.{first-change, first-append}
use tms_api.Runtime.{Runtime}
use tms_api.Database.{Database, User, UserRole, employee, manager, user}
use tms_api.Database.Triple.{
  After, After-bind, After-then, After-throw_if, After-find_first, After-or_throw, After-create,
  After-update,
}
use tms_api.Database.Keeps.{Keeps-when, Keeps-then, Keeps-delete_many, Keeps-pure}
use tms_api.Team.{remove_all_managed_employees}
use tms_api.Users.{
  CreateUserDto, UpdateUserDto, apply_update, raises_role, is_employee_role, create_user,
  update_user,
}
use tms_api.Users.Keeps.{
  TeamOutside, Keeps-given_ids, Keeps-assert_can_manage, Keeps-assert_manages_projects,
  Keeps-assign_managers, Keeps-assign_projects, Keeps-assign_new_managers,
}

-- The role that the account `id` has above that of an employee.
abbrev pub raised : Option User → Option UserRole
raised none = none
raised (some u) = if is_employee_role u.role then none else some u.role

abbrev pub privilege : ℕ → Database → Option UserRole
privilege id db = raised (first (λ (u : User). u.id == id) db.users.rows)

-- No account has a privilege that it did not have.
pub record GrantsNone (old new : Database) : Type 0 where
  pub kept : (id : ℕ) → (privilege id new ≡ privilege id old) ⊎ (privilege id new ≡ none)

pub assignments : TeamOutside GrantsNone
assignments = record {
  managers = λ t old db h. record { kept = h.kept };
  project_managers = λ t old db h. record { kept = h.kept };
  project_employees = λ t old db h. record { kept = h.kept };
}

pub GrantsNone-refl : (db : Database) → GrantsNone db db
GrantsNone-refl db = record { kept = λ id. inl refl }

raised-append :
    (k : ℕ) (u : User) (rows : List User)
    → is_employee_role u.role ≡ true
    → raised (first (λ (v : User). v.id == k) (rows ++ u ∷ []))
      ≡ raised (first (λ (v : User). v.id == k) rows)
raised-append k u rows is_employee =
    rw (first-append (λ (v : User). v.id == k) rows (u ∷ []))
      (elim (Option-cases (first (λ (v : User). v.id == k) rows)) [
        | inr (v, e) ↦ rw e refl
        | inl e ↦
            rw e (elim (Bool-cases (u.id == k)) [
              | inl h ↦ rw (h, is_employee) refl
              | inr h ↦ rw h refl
            ])
      ])

raised-update :
    (dto : UpdateUserDto) (u : User)
    → raises_role dto.role ≡ false
    → (raised (some (apply_update dto u)) ≡ raised (some u))
      ⊎ (raised (some (apply_update dto u)) ≡ none)
raised-update dto u h = elim (Option-cases dto.role) [
  | inl e ↦ inl (rw e refl)
  | inr (role, e) ↦
      inr (let is : is_employee_role role ≡ true = ground (arith, h, e) in rw (e, is) refl)
]

raised-change :
    (k id : ℕ) (dto : UpdateUserDto) (rows : List User)
    → raises_role dto.role ≡ false
    → let new =
        first (λ (v : User). v.id == k) (change (λ v. v.id == id) (apply_update dto) rows) in
      (raised new ≡ raised (first (λ (v : User). v.id == k) rows)) ⊎ (raised new ≡ none)
raised-change k id dto rows h =
    rw (first-change (λ (v : User). v.id) (apply_update dto) (λ v. refl) k id rows)
      (elim (Bool-cases (k == id)) [
        | inr e ↦ rw e (inl refl)
        | inl e ↦ rw e (elim (Option-cases (first (λ (v : User). v.id == k) rows)) [
          | inl f ↦ rw f (inl refl)
          | inr (u, f) ↦ rw f (raised-update dto u h)
        ])
      ])

pub still :
    {now before start : Option UserRole}
    → (now ≡ before) ⊎ (now ≡ none)
    → (before ≡ start) ⊎ (before ≡ none)
    → (now ≡ start) ⊎ (now ≡ none)
still (inl e) (inl f) = inl (e ∙ f)
still (inl e) (inr f) = inr (e ∙ f)
still (inr e) _ = inr e

new_employee :
    (role : Option UserRole)
    → raises_role role ≡ false
    → is_employee_role (or_default role employee) ≡ true
new_employee none h = refl
new_employee (some role) h = ground (arith, h)

module _ (rt : Runtime) (id org_id requesting_id : ℕ) (db : Database) where
  pub update-GrantsNone :
      (dto : UpdateUserDto)
      → After
          (GrantsNone db)
          (λ _. GrantsNone db)
          (update_user in_memory rt id org_id dto requesting_id manager)
          db
  unfolding update_user remove_all_managed_employees
  update-GrantsNone dto =
      let start = GrantsNone-refl db in
      After-find_first user _ _ (
        After-or_throw _ _ _ (λ _. start)
          λ u found.
            After-then _ _ _
              ((Keeps-assert_can_manage {R = GrantsNone} requesting_id manager id org_id).keeps db
                db start)
              λ d g.
                After-throw_if _ _ _ (λ _. g)
                  λ allowed.
                    After-throw_if _ _ _ (λ _. g)
                      λ _.
                        After-bind (λ _. GrantsNone db) _ _
                          (After-update user _ _ (λ _. g)
                            (λ r _. record {
                              kept = λ k.
                                  still (raised-change k id dto d.users.rows allowed) (g.kept k);
                            }))
                          λ updated d' g'.
                            (Keeps-then _ _
                                (Keeps-when _ _ (Keeps-delete_many _ assignments.managers _))
                                (Keeps-then _ _
                                  (Keeps-given_ids dto.manager_ids _
                                    λ ids. Keeps-assign_managers assignments rt id ids org_id)
                                  (Keeps-then _ _
                                    (Keeps-given_ids dto.project_ids _ λ ids.
                                      Keeps-then _ _
                                        (Keeps-assert_manages_projects requesting_id manager ids
                                          org_id)
                                        (Keeps-assign_projects assignments rt id ids org_id))
                                    (Keeps-pure updated)))).keeps
                              db d' g')

  pub create-GrantsNone :
      (hash : String → String) (dto : CreateUserDto)
      → After
          (GrantsNone db)
          (λ _. GrantsNone db)
          (create_user in_memory rt hash org_id dto requesting_id manager)
          db
  unfolding create_user
  create-GrantsNone hash dto =
      let start = GrantsNone-refl db in
      After-throw_if _ _ _ (λ _. start)
        λ allowed. After-find_first user _ _ (
          After-throw_if _ _ _ (λ _. start)
            λ fresh.
              After-throw_if _ _ _ (λ _. start)
                λ _.
                  After-bind (λ _. GrantsNone db) _ _
                    (After-create user _ (record {
                      kept = λ k.
                          inl (raised-append k _ db.users.rows (new_employee dto.role allowed));
                    }))
                    λ u d g.
                      (Keeps-then _ _
                          (Keeps-assign_new_managers assignments rt u.id org_id requesting_id
                            manager dto.manager_ids)
                          (Keeps-then _ _
                            (Keeps-when _ _ (
                              Keeps-then _ _
                                (Keeps-assert_manages_projects requesting_id manager _ org_id)
                                (Keeps-assign_projects assignments rt u.id _ org_id)))
                            (Keeps-pure u))).keeps
                        db d g)
