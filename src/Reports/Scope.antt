-- ===== src/Reports/Scope.antt =====
-- Whose timesheets a report holds.
use tms_api.Prelude.{
  ℕ, ◌≡◌, refl, sym, ap, ◌∙◌, Bool, true, false, not, ◌&&◌, ◌||◌, Option, none, some, List, [], ◌∷◌,
  ◌++◌, map, keep, includes, inl, inr, Bool-cases, arith, ◌==◌,
}
use tms_api.Prisma.{Client, IsLawful, in_memory, in_memory-eq}
use tms_api.Dates.{Date}
use tms_api.Runtime.{Runtime}
use tms_api.Database.{
  Database, UserRole, employee, manager, admin, Timesheet, timesheet, time_entry,
}
use tms_api.Database.Triple.{
  After, After-seq, After-throw_if, After-given, After-find_many, After-pure,
}
use tms_api.Team.Guards.{reports_of}
use tms_api.Users.Scope.{After-reports}
use tms_api.Reports.{
  ReportFilters, given, given_and, user_where, status_where, within, user_scope, generate_report,
  aggregates_of,
}

-- An employee sees their own timesheets, a manager also the direct reports', an admin all.
abbrev pub may_see : Database → ℕ → ℕ → UserRole → ℕ → Bool
may_see db org_id requesting_id employee id = id == requesting_id
may_see db org_id requesting_id manager id =
    includes (reports_of requesting_id org_id db) id || id == requesting_id
may_see db org_id requesting_id admin id = true

-- The wanted user, if one is given.
abbrev pub wanted : Option ℕ → ℕ → Bool
wanted none user_id = true
wanted (some id) user_id = user_id == id

-- The given user may be seen.
abbrev pub is_permitted : Option ℕ → (ℕ → Bool) → Bool
is_permitted none may = true
is_permitted (some id) may = may id

includes-append :
    (ids : List ℕ) (last id : ℕ) → includes (ids ++ last ∷ []) id ≡ (includes ids id || id == last)
includes-append [] last id = ground arith
includes-append (x ∷ ids) last id = ground (arith, includes-append ids last id)

denied :
    (o : Option ℕ) (scope may : ℕ → Bool)
    → ((id : ℕ) → scope id ≡ may id)
    → given_and o (λ id. not (scope id)) ≡ true
    → is_permitted o may ≡ false
denied none scope may same h = cc
denied (some id) scope may same h = ground (arith, same id, h)

permitted :
    (o : Option ℕ) (scope may : ℕ → Bool)
    → ((id : ℕ) → scope id ≡ may id)
    → given_and o (λ id. not (scope id)) ≡ false
    → is_permitted o may ≡ true
permitted none scope may same h = refl
permitted (some id) scope may same h = ground (arith, same id, h)

everyone : (o : Option ℕ) → is_permitted o (λ id. true) ≡ true
everyone none = refl
everyone (some id) = refl

-- The scope is what may be seen.
pub After-user_scope :
    {I : Database → Type 0} {Q : (ℕ → Bool) → Database → Type 0} {db : Database} (org_id : ℕ)
    (user_id : Option ℕ) (requesting_id : ℕ) (role : UserRole)
    → (is_permitted user_id (may_see db org_id requesting_id role) ≡ false → I db)
    → ((scope : ℕ → Bool)
        → ((id : ℕ) → scope id ≡ may_see db org_id requesting_id role id)
        → is_permitted user_id (may_see db org_id requesting_id role) ≡ true
        → Q scope db)
    → After I Q (user_scope in_memory org_id user_id requesting_id role) db
unfolding user_scope
After-user_scope org_id user_id requesting_id employee i h =
    After-throw_if _ _ _ (λ bad. i (denied user_id _ _ (λ id. refl) bad))
      (λ good. After-pure _ (h _ (λ id. refl) (permitted user_id _ _ (λ id. refl) good)))
After-user_scope org_id user_id requesting_id manager i h = After-seq _ _ (
    After-reports requesting_id org_id (
      After-throw_if _ _ _ (λ bad. i (denied user_id _ _ (includes-append _ requesting_id) bad))
        (λ good. After-pure _ (
          h _ (includes-append _ requesting_id)
            (permitted user_id _ _ (includes-append _ requesting_id) good)))))
After-user_scope org_id user_id requesting_id admin i h =
    After-pure _ (h _ (λ id. refl) (everyone user_id))

keep-cong :
    {A : Type 0} (p q : A → Bool) → ((x : A) → p x ≡ q x) → (xs : List A) → keep p xs ≡ keep q xs
keep-cong p q same [] = refl
keep-cong p q same (x ∷ xs) = ground (arith, same x, keep-cong p q same xs)

-- The user filter, where the given user may be seen.
user_where-may :
    (o : Option ℕ) (scope may : ℕ → Bool)
    → ((id : ℕ) → scope id ≡ may id)
    → is_permitted o may ≡ true
    → (user_id : ℕ) → user_where o scope user_id ≡ (may user_id && wanted o user_id)
user_where-may none scope may same ok user_id = ground (arith, same user_id)
user_where-may (some id) scope may same ok user_id = elim (Bool-cases (user_id == id)) [
  | inl hit ↦ let is_id : user_id ≡ id = ground (arith, hit) in rw is_id (rw ok (ground arith))
  | inr miss ↦ ground (arith, miss)
]

-- The timesheets that a report is to hold.
abbrev pub is_reported :
    Database → ℕ → Date → Date → ReportFilters → ℕ → UserRole → Timesheet → Bool
is_reported db org_id from to filters requesting_id role t =
    t.organisation_id == org_id
    && within from to t.week_start_date
    && (may_see db org_id requesting_id role t.user_id && wanted (given filters.user_id) t.user_id)
    && status_where filters.status t.status

firsts :
    {A B : Type 0} (f : A → B) (xs : List A)
    → map {A = A × B} (λ p. p.0) (map (λ x. (x, f x)) xs) ≡ xs
firsts f [] = refl
firsts f (x ∷ xs) = ap (λ rest. x ∷ rest) (firsts f xs)

-- For valid dates, `generateReport` writes nothing. It throws only where a user is given whom the
-- caller may not see: an employee sees themselves, a manager also the direct reports, an admin
-- everyone. Otherwise the report holds exactly the organisation's timesheets of users whom the
-- caller may see that pass the filters, and the aggregates of these.
pub generate_report-is_reported :
    (c : Client) (rt : Runtime)
    → IsLawful c
    → (org_id : ℕ) (filters : ReportFilters) (requesting_id : ℕ) (role : UserRole) (db : Database)
      (from to : Date)
    → rt.parse_date filters.date_from ≡ some from
    → rt.parse_date filters.date_to ≡ some to
    → After
        (λ new.
          (new ≡ db)
          × (is_permitted (given filters.user_id) (may_see db org_id requesting_id role) ≡ false))
        (λ r new.
          (new ≡ db)
          × (is_permitted (given filters.user_id) (may_see db org_id requesting_id role) ≡ true)
          × (map (λ p. p.0) r.timesheets
              ≡ keep (is_reported db org_id from to filters requesting_id role) db.timesheets.rows)
          × (r.aggregates ≡ aggregates_of (map (λ p. p.0) r.timesheets)))
        (generate_report c rt org_id filters requesting_id role)
        db
unfolding generate_report
generate_report-is_reported c rt lawful org_id filters requesting_id role db from to is_from is_to =
    rw (in_memory-eq lawful) (
      After-seq _ _ (
        After-user_scope org_id (given filters.user_id) requesting_id role
          (λ denied. (refl, denied))
          λ scope same ok. After-given _ _ _ from is_from (
            After-given _ _ _ to is_to (
              After-find_many timesheet _ _ (
                After-find_many time_entry _ _ (
                  After-pure _ (
                    refl,
                    ok,
                    firsts _ (keep _ db.timesheets.rows)
                        ∙ keep-cong _ _
                            (λ t.
                              ap
                                (λ b.
                                  t.organisation_id == org_id
                                  && within from to t.week_start_date
                                  && b
                                  && status_where filters.status t.status)
                                (user_where-may (given filters.user_id) scope _ same ok t.user_id))
                            db.timesheets.rows,
                    ap aggregates_of (sym (firsts _ (keep _ db.timesheets.rows))),
                  )))))))
