-- ===== src/Prisma/Rows.antt =====
-- What a change of rows leaves alone.
use mathlib.Core.Path.{subst}
use mathlib.Core.Option.{some-injective}
use mathlib.Core.Option
use mathlib.Core.Bool.{true≢false}
use tms_api.Prelude.{
  ◌≢◌, false, some, none, ap, sym, ◌∙◌, ℕ, ◌≡◌, refl, Bool, true, not, inl, inr, Bool-cases, none,
  some, is_some, List, [], ◌∷◌, ◌++◌, keep, first, change, arith, ◌==◌, if◌then◌else◌,
}

pub change-none {ℓ} :
    {A : Type ℓ} (p : A → Bool) (f : A → A) (xs : List A) → first p xs ≡ none → change p f xs ≡ xs
change-none p f [] h = refl
change-none p f (x ∷ xs) h = ground (arith, change-none p f xs)

pub first_sound {ℓ} :
    {A : Type ℓ} (p : A → Bool) (xs : List A) (x : A) → first p xs ≡ some x → p x ≡ true
first_sound p [] x e = cc
first_sound p (y ∷ xs) x e = elim (Bool-cases (p y)) [
  | inl hit ↦ subst (λ z. p z ≡ true) (some-injective _ _ (rw hit at e)) hit
  | inr miss ↦ first_sound p xs x (rw miss at e)
]

module _ {R : Type 0} (id : R → ℕ) (f : R → R) (same : (r : R) → id (f r) ≡ id r) where
  -- The row that the key `k` names, after the row that `i` names is changed under its key.
  pub first-change :
      (k i : ℕ) (rs : List R)
      → first (λ r. id r == k) (change (λ r. id r == i) f rs)
        ≡ (if k == i then Option.map f (first (λ r. id r == k) rs) else first (λ r. id r == k) rs)
  first-change k i [] = ground arith
  first-change k i (r ∷ rs) = ground (arith, same r, first-change k i rs)

  pub is_some-first-change :
      (k i : ℕ) (rs : List R)
      → is_some (first (λ r. id r == k) (change (λ r. id r == i) f rs))
        ≡ is_some (first (λ r. id r == k) rs)
  is_some-first-change k i rs = ground (arith, first-change k i rs)

-- The row that the key `k` names, after those that `i` names are deleted.
pub first-delete :
    {R : Type 0} (id : R → ℕ) (k i : ℕ) (rs : List R)
    → first (λ r. id r == k) (keep (λ r. not (id r == i)) rs)
      ≡ (if k == i then none else first (λ r. id r == k) rs)
first-delete id k i [] = ground arith
first-delete id k i (r ∷ rs) = ground (arith, first-delete id k i rs)

-- The row that the key `k` names, after a row is appended.
pub first-append {ℓ} :
    {A : Type ℓ} (p : A → Bool) (xs ys : List A)
    → first p (xs ++ ys) ≡ (elim (first p xs) [ none ↦ first p ys | some x ↦ some x ])
first-append p [] ys = refl
first-append p (x ∷ xs) ys = ground (arith, first-append p xs ys)

-- A weaker test finds a row too.
pub first-weaken {ℓ} :
    {A : Type ℓ} (p q : A → Bool) (xs : List A)
    → ((x : A) → p x ≡ true → q x ≡ true)
    → (x : A) → first p xs ≡ some x
    → is_some (first q xs) ≡ true
first-weaken p q [] h x e = cc
first-weaken p q (y ∷ xs) h x e = elim (Bool-cases (q y)) [
  | inl hit ↦ rw hit refl
  | inr miss ↦ elim (Bool-cases (p y)) [
    | inl yes_p ↦ absurd (true≢false (sym (h y yes_p) ∙ miss))
    | inr no_p ↦ rw miss (first-weaken p q xs h x (rw no_p at e))
  ]
]

-- A row that is found before a change is found after it, if the change keeps the test.
pub first-change_found :
    {R : Type 0} (p q : R → Bool) (f : R → R) (rs : List R) (r : R)
    → ((s : R) → p (f s) ≡ p s)
    → first p rs ≡ some r
    → first p (change q f rs) ≡ some (if q r then f r else r)
first-change_found p q f [] r same e = cc
first-change_found p q f (s ∷ rs) r same e = elim (Bool-cases (p s)) [
  | inl hit ↦
      let is_s : s ≡ r = some-injective _ _ (rw hit at e) in
      let both : p (if q s then f s else s) ≡ true = ground (arith, same s, hit) in
      rw both (rw is_s refl)
  | inr miss ↦
      let later : first p rs ≡ some r = rw miss at e in
      let neither : p (if q s then f s else s) ≡ false = ground (arith, same s, miss) in
      rw neither (first-change_found p q f rs r same later)
]

-- A row appended last is found, or another one is.
pub first-append-ne-none {ℓ} :
    {A : Type ℓ} (p : A → Bool) (xs : List A) (x : A) → p x ≡ true → first p (xs ++ x ∷ []) ≢ none
first-append-ne-none p [] x h e = cc
first-append-ne-none p (y ∷ xs) x h e = elim (Bool-cases (p y)) [
  | inl hit ↦ cc
  | inr miss ↦ first-append-ne-none p xs x h (rw miss at e)
]

-- A row that one test finds keeps another test, that it passes, from finding none.
pub first-found {ℓ} :
    {A : Type ℓ} (p q : A → Bool) (xs : List A) (x : A)
    → first p xs ≡ some x
    → q x ≡ true
    → first q xs ≢ none
first-found p q [] x e h none_found = cc
first-found p q (y ∷ xs) x e h none_found = elim (Bool-cases (q y)) [
  | inl hit ↦ cc
  | inr miss ↦ elim (Bool-cases (p y)) [
    | inl yes_p ↦ true≢false (sym h ∙ ap q (sym (some-injective _ _ (rw yes_p at e))) ∙ miss)
    | inr no_p ↦ first-found p q xs x (rw no_p at e) h (rw miss at none_found)
  ]
]

-- What is found stays found when rows are appended.
pub is_some-first-append {ℓ} :
    {A : Type ℓ} (p : A → Bool) (xs ys : List A)
    → is_some (first p xs) ≡ true
    → is_some (first p (xs ++ ys)) ≡ true
is_some-first-append p [] ys h = cc
is_some-first-append p (x ∷ xs) ys h = ground (arith, h, is_some-first-append p xs ys)
