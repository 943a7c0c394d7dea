-- ===== src/Prisma/Keys.antt =====
-- The primary key of a table: no two rows share an `id`, and all lie below the next one.
use tms_api.Prelude.{
  ℕ, suc, ◌<◌, ◌≡◌, ◌≢◌, refl, sym, Bool, List, [], ◌∷◌, ◌++◌, All, All-append, change, keep, first,
  some, some, true, Bool-cases, inl, inr, All-first, arith, ◌==◌, All-keep, if◌then◌else◌,
}
use mathlib.Core.List.{append-nil, append_assoc}
use mathlib.Core.Option.{some-injective}
use tms_api.Prisma.Rows.{first_sound}
use tms_api.Prisma.{Table, number_from, count_from}

module _ {R : Type 0} (id : R → ℕ) where
  abbrev pub Distinct : List R → Type 0
  Distinct [] = Unit
  Distinct (r ∷ rs) = All (λ s. id s ≢ id r) rs × Distinct rs

  pub record IsKeyed (t : Table R) : Type 0 where
    pub below : All (λ r. id r < t.next_id) t.rows
    pub distinct : Distinct t.rows

  abbrev pub KeepsId : (R → R) → Type 0
  KeepsId f = (r : R) → id (f r) ≡ id r

  All-id-change :
      (P : ℕ → Type 0) (p : R → Bool) (f : R → R)
      → KeepsId f
      → (rs : List R) → All (λ r. P (id r)) rs
      → All (λ r. P (id r)) (change p f rs)
  All-id-change P p f same [] h = tt
  All-id-change P p f same (r ∷ rs) h = ground (arith, same r, All-id-change P p f same rs h.1)

  Distinct-change :
      (p : R → Bool) (f : R → R)
      → KeepsId f
      → (rs : List R) → Distinct rs
      → Distinct (change p f rs)
  Distinct-change p f same [] h = tt
  Distinct-change p f same (r ∷ rs) h =
      let e : id (if p r then f r else r) ≡ id r = ground (arith, same r) in
      (rw e (All-id-change (λ n. n ≢ id r) p f same rs h.0), Distinct-change p f same rs h.1)

  pub change-IsKeyed :
      (p : R → Bool) (f : R → R) (t : Table R)
      → KeepsId f
      → IsKeyed t
      → IsKeyed (record t { rows = change p f t.rows })
  change-IsKeyed p f t same h = record {
    below = All-id-change (λ n. n < t.next_id) p f same t.rows h.below;
    distinct = Distinct-change p f same t.rows h.distinct;
  }

  Distinct-keep : (p : R → Bool) (rs : List R) → Distinct rs → Distinct (keep p rs)
  Distinct-keep p [] h = tt
  Distinct-keep p (r ∷ rs) h =
      ground (arith, All-keep (λ s. id s ≢ id r) p rs h.0, Distinct-keep p rs h.1)

  pub keep-IsKeyed :
      (p : R → Bool) (t : Table R) → IsKeyed t → IsKeyed (record t { rows = keep p t.rows })
  keep-IsKeyed p t h = record {
    below = All-keep _ p t.rows h.below;
    distinct = Distinct-keep p t.rows h.distinct;
  }

  -- A row appended under the next id.
  below_suc : (n : ℕ) (rs : List R) → All (λ r. id r < n) rs → All (λ r. id r < suc n) rs
  below_suc n [] h = tt
  below_suc n (r ∷ rs) h = (omega arith, below_suc n rs h.1)

  Distinct-append :
      (n : ℕ) (row : R) (rs : List R)
      → id row ≡ n
      → All (λ r. id r < n) rs
      → Distinct rs
      → Distinct (rs ++ row ∷ [])
  Distinct-append n row [] e b d = (tt, tt)
  Distinct-append n row (r ∷ rs) e b d =
      (All-append _ rs (row ∷ []) d.0 (ground (arith, b.0), tt), Distinct-append n row rs e b.1 d.1)

  pub append-IsKeyed :
      (row : R) (t : Table R)
      → id row ≡ t.next_id
      → IsKeyed t
      → IsKeyed (record { rows = t.rows ++ row ∷ []; next_id = suc t.next_id })
  append-IsKeyed row t e h = record {
    below = All-append _ t.rows (row ∷ []) (below_suc t.next_id t.rows h.below) (omega arith, tt);
    distinct = Distinct-append t.next_id row t.rows e h.below h.distinct;
  }

  -- Rows appended under the next ids.
  pub number-IsKeyed :
      (mks : List (ℕ → R)) (t : Table R)
      → All (λ mk. (n : ℕ) → id (mk n) ≡ n) mks
      → IsKeyed t
      → IsKeyed (record {
        rows = t.rows ++ number_from t.next_id mks;
        next_id = count_from t.next_id mks;
      })
  number-IsKeyed [] t e h = rw append-nil (record { below = h.below; distinct = h.distinct })
  number-IsKeyed (mk ∷ mks) t e h =
      rw (← append_assoc t.rows (mk t.next_id ∷ []) (number_from (suc t.next_id) mks)) (
        number-IsKeyed mks (record { rows = t.rows ++ mk t.next_id ∷ []; next_id = suc t.next_id })
          e.1 (append-IsKeyed (mk t.next_id) t (e.0 t.next_id) h))

-- A row that is found with the key `k` is the row that the primary key names.
pub first-key :
    {R : Type 0} (id : R → ℕ) (p : R → Bool) (k : ℕ) (rs : List R) (r : R)
    → ((s : R) → p s ≡ true → id s ≡ k)
    → Distinct id rs
    → first p rs ≡ some r
    → first (λ s. id s == k) rs ≡ some r
first-key id p k [] r h d e = cc
first-key id p k (s ∷ rs) r h d e = elim (Bool-cases (p s)) [
  | inl hit ↦
      let same : s ≡ r = some-injective _ _ (rw hit at e) in
      let key : id s ≡ k = h s hit in rw (← same) (ground (arith, key))
  | inr miss ↦
      let later : first p rs ≡ some r = rw miss at e in
      let other : id r ≢ id s = All-first (λ t. id t ≢ id s) p rs d.0 later in
      let key : id r ≡ k = h r (first_sound p rs r later) in
      ground (arith, other, key, first-key id p k rs r h d.1 later)
]

-- A test that only one key passes finds the row with that key that another test has found.
pub first-Distinct :
    {R : Type 0} (id : R → ℕ) (p q : R → Bool) (rs : List R) (r : R)
    → Distinct id rs
    → first p rs ≡ some r
    → q r ≡ true
    → ((s : R) → q s ≡ true → id s ≡ id r)
    → first q rs ≡ some r
first-Distinct id p q [] r d e is_q key = cc
first-Distinct id p q (s ∷ rs) r d e is_q key = elim (Bool-cases (p s)) [
  | inl hit ↦ let same : s ≡ r = some-injective _ _ (rw hit at e) in rw (same, is_q) refl
  | inr miss ↦
      let later : first p rs ≡ some r = rw miss at e in
      let other : id r ≢ id s = All-first (λ t. id t ≢ id s) p rs d.0 later in
      elim (Bool-cases (q s)) [
        | inl yes_q ↦ absurd (other (sym (key s yes_q)))
        | inr no_q ↦ rw no_q (first-Distinct id p q rs r d.1 later is_q key)
      ]
]
