-- ===== src/Users/Scope.antt =====
-- Which accounts a manager or an admin may deactivate.
use mathlib.Core.Option
use tms_api.Prelude.{
  ℕ, ◌≡◌, ◌≢◌, ◌⊎◌, inl, inr, refl, Bool, true, false, not, ◌&&◌, some, List, first, change,
  includes, arith, ◌==◌, ==_refl, if◌then◌else◌,
}
use tms_api.Prisma.{Client, IsLawful, in_memory, in_memory-eq}
use tms_api.Prisma.Rows.{first-change}
use tms_api.Prisma.Keys.{IsKeyed, first-key}
use tms_api.Database.{Database, User, UserRole, employee, manager, admin, user, manager_employee}
use tms_api.Database.Triple.{
  After, After-seq, After-seq_then, After-find_first, After-find_many, After-found, After-update,
  After-current, After-pure, After-last_throw_if,
}
use tms_api.Team.{get_direct_report_ids}
use tms_api.Team.Guards.{reports_of}
use tms_api.Users.{assert_can_manage_user, deactivate_user, deactivated}

-- An admin manages every account, another user only those of direct reports.
abbrev pub IsInScope : ℕ → UserRole → ℕ → ℕ → Database → Type 0
IsInScope requesting_id role target_id org_id db =
    (role ≡ admin) ⊎ (includes (reports_of requesting_id org_id db) target_id ≡ true)

included : (b : Bool) → not b ≡ false → b ≡ true
included b h = ground arith

pub After-reports :
    {I : Database → Type 0} {Q : List ℕ → Database → Type 0} {db : Database} (manager_id org_id : ℕ)
    → Q (reports_of manager_id org_id db) db
    → After I Q (get_direct_report_ids in_memory manager_id org_id) db
unfolding get_direct_report_ids
After-reports manager_id org_id h =
    After-current _ (After-find_many manager_employee _ _ (After-pure _ h))

pub After-assert_can_manage :
    {I : Database → Type 0} {Q : Unit {0} → Database → Type 0} {db : Database} (requesting_id : ℕ)
    (role : UserRole) (target_id org_id : ℕ)
    → I db
    → (IsInScope requesting_id role target_id org_id db → Q tt db)
    → After I Q (assert_can_manage_user in_memory requesting_id role target_id org_id) db
unfolding assert_can_manage_user
After-assert_can_manage requesting_id admin target_id org_id i h = After-pure tt (h (inl refl))
After-assert_can_manage requesting_id employee target_id org_id i h = After-seq _ _ (
    After-reports requesting_id org_id
      (After-last_throw_if _ _ (λ _. i) λ within. h (inr (included _ within))))
After-assert_can_manage requesting_id manager target_id org_id i h = After-seq _ _ (
    After-reports requesting_id org_id
      (After-last_throw_if _ _ (λ _. i) λ within. h (inr (included _ within))))

pub record IsDeactivated (id org_id requesting_id : ℕ) (role : UserRole) (old new : Database)
    : Type 0 where
  pub u : User
  pub found : first (λ v. v.id == id && v.organisation_id == org_id) old.users.rows ≡ some u
  pub in_scope : IsInScope requesting_id role id org_id old
  pub row : first (λ v. v.id == id) new.users.rows ≡ some (deactivated u)
  pub rows : new.users.rows ≡ change (λ v. v.id == id) deactivated old.users.rows
  pub others :
      (k : ℕ)
      → k ≢ id
      → first (λ v. v.id == k) new.users.rows ≡ first (λ v. v.id == k) old.users.rows

pub deactivate_user-IsDeactivated :
    (c : Client)
    → IsLawful c
    → (id org_id requesting_id : ℕ) (role : UserRole) (db : Database)
    → IsKeyed (λ (v : User). v.id) db.users
    → After
        (λ new. new ≡ db)
        (λ _ new. IsDeactivated id org_id requesting_id role db new)
        (deactivate_user c id org_id requesting_id role)
        db
unfolding deactivate_user
deactivate_user-IsDeactivated c lawful id org_id requesting_id role db keys =
    rw (in_memory-eq lawful) (
      After-find_first user _ _ (
        After-seq_then _ _ (
          After-found _ _ (λ _. refl)
            λ u found. After-seq_then _ _ (
              After-assert_can_manage requesting_id role id org_id refl λ in_scope.
                After-seq_then _ _ (
                  After-update user _ _ (λ _. refl)
                    λ r _. After-pure tt (record {
                      u = u;
                      found = found;
                      in_scope = in_scope;
                      row = rw (user_changed id) (rw (==_refl id, user_key u found) refl);
                      rows = refl;
                      others = λ k ne. rw (user_changed k) (ground (arith, ne));
                    }))))))
  where
    user_changed :
        (k : ℕ)
        → first (λ v. v.id == k) (change (λ (v : User). v.id == id) deactivated db.users.rows) ≡ (
            if k == id
            then Option.map deactivated (first (λ v. v.id == k) db.users.rows)
            else first (λ v. v.id == k) db.users.rows)
    user_changed k = first-change (λ (v : User). v.id) deactivated (λ v. refl) k id _

    user_key :
        (u : User)
        → first (λ v. v.id == id && v.organisation_id == org_id) db.users.rows ≡ some u
        → first (λ v. v.id == id) db.users.rows ≡ some u
    user_key u found =
        first-key (λ v. v.id) _ id db.users.rows u (λ v e. ground (arith, e)) keys.distinct found
