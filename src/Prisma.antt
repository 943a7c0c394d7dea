-- ===== src/Prisma.antt =====
-- The Prisma client and the MySQL server behind it. They are no code of this repository: a client
-- is a parameter of every service, with its documented behaviour as the hypothesis `IsLawful`.
-- A table is modelled by its rows and by the next value of its autoincremented `id` column.
pub mod Rows
pub mod Keys
use mathlib.Core.Path.{subst}
use tms_api.Prelude.{
  ℕ, suc, ◌≡◌, refl, sym, Bool, not, Option, none, some, List, [], ◌∷◌, ◌++◌, keep, first, change,
  length, leb, if◌then◌else◌,
}

pub record Table (Row : Type 0) : Type 0 where
  pub rows : List Row
  pub next_id : ℕ

-- The queries that the services issue; a query's `where` clause is a test on rows. `none` from
-- `update` and `delete` is Prisma's error P2025, "record to update not found".
pub record Client : Type 1 where
  pub find_first : {Row : Type 0} → (Row → Bool) → Table Row → Option Row
  pub find_last_by : {Row : Type 0} → (Row → ℕ) → (Row → Bool) → Table Row → Option Row
  pub find_many : {Row : Type 0} → (Row → Bool) → Table Row → List Row
  pub count : {Row : Type 0} → (Row → Bool) → Table Row → ℕ
  pub create : {Row : Type 0} → (ℕ → Row) → Table Row → Row × Table Row
  pub create_many : {Row : Type 0} → List (ℕ → Row) → Table Row → Table Row
  pub update : {Row : Type 0} → (Row → Bool) → (Row → Row) → Table Row → Option (Row × Table Row)
  pub update_many : {Row : Type 0} → (Row → Bool) → (Row → Row) → Table Row → Table Row
  pub delete : {Row : Type 0} → (Row → Bool) → Table Row → Option (Table Row)
  pub delete_many : {Row : Type 0} → (Row → Bool) → Table Row → Table Row

-- `findFirst` with `orderBy: { key: 'desc' }`: a row with the greatest key.
abbrev pub last_by {ℓ} : {A : Type ℓ} → (A → ℕ) → (A → Bool) → List A → Option A
last_by key p [] = none
last_by key p (x ∷ xs) =
    let rest = last_by key p xs in
    if p x
    then (elim rest [ none ↦ some x | some y ↦ if leb (key y) (key x) then some x else some y ])
    else rest

-- The autoincremented column numbers the new rows in order.
abbrev pub number_from {ℓ} : {A : Type ℓ} → ℕ → List (ℕ → A) → List A
number_from n [] = []
number_from n (mk ∷ mks) = mk n ∷ number_from (suc n) mks

abbrev pub count_from {ℓ} : {A : Type ℓ} → ℕ → List A → ℕ
count_from n [] = n
count_from n (x ∷ xs) = count_from (suc n) xs

-- A client that keeps its tables as lists: the documented behaviour, executable.
abbrev pub in_memory : Client
in_memory = record {
  find_first = λ p t. first p t.rows;
  find_last_by = λ key p t. last_by key p t.rows;
  find_many = λ p t. keep p t.rows;
  count = λ p t. length (keep p t.rows);
  create = λ mk t.
      (mk t.next_id, record { rows = t.rows ++ mk t.next_id ∷ []; next_id = suc t.next_id });
  create_many = λ mks t. record {
    rows = t.rows ++ number_from t.next_id mks;
    next_id = count_from t.next_id mks;
  };
  update = λ p f t. elim (first p t.rows) [
    | none ↦ none
    | some r ↦ some (f r, record t { rows = change p f t.rows })
  ];
  update_many = λ p f t. record t { rows = change p f t.rows };
  delete = λ p t. elim (first p t.rows) [
    | none ↦ none
    | some r ↦ some (record t { rows = keep (λ x. not (p x)) t.rows })
  ];
  delete_many = λ p t. record t { rows = keep (λ r. not (p r)) t.rows };
}

-- What Prisma's reference says of each query, on any table and for any `where` clause.
pub record IsLawful (c : Client) : Type 1 where
  pub finds_first : {R : Type 0} (p : R → Bool) (t : Table R) → c.find_first p t ≡ first p t.rows
  pub finds_last :
      {R : Type 0} (key : R → ℕ) (p : R → Bool) (t : Table R)
      → c.find_last_by key p t ≡ last_by key p t.rows
  pub finds_many : {R : Type 0} (p : R → Bool) (t : Table R) → c.find_many p t ≡ keep p t.rows
  pub counts : {R : Type 0} (p : R → Bool) (t : Table R) → c.count p t ≡ length (keep p t.rows)
  pub creates : {R : Type 0} (mk : ℕ → R) (t : Table R) → c.create mk t ≡ in_memory.create mk t
  pub creates_many :
      {R : Type 0} (mks : List (ℕ → R)) (t : Table R)
      → c.create_many mks t ≡ in_memory.create_many mks t
  pub updates :
      {R : Type 0} (p : R → Bool) (f : R → R) (t : Table R)
      → c.update p f t ≡ in_memory.update p f t
  pub updates_many :
      {R : Type 0} (p : R → Bool) (f : R → R) (t : Table R)
      → c.update_many p f t ≡ in_memory.update_many p f t
  pub deletes : {R : Type 0} (p : R → Bool) (t : Table R) → c.delete p t ≡ in_memory.delete p t
  pub deletes_many :
      {R : Type 0} (p : R → Bool) (t : Table R) → c.delete_many p t ≡ in_memory.delete_many p t

-- So a lawful client is interchangeable with the executable one, and a proof may compute.
pub in_memory-eq : {c : Client} → IsLawful c → c ≡ in_memory
in_memory-eq h = λ i. record {
  find_first = λ p t. h.finds_first p t i;
  find_last_by = λ key p t. h.finds_last key p t i;
  find_many = λ p t. h.finds_many p t i;
  count = λ p t. h.counts p t i;
  create = λ mk t. h.creates mk t i;
  create_many = λ mks t. h.creates_many mks t i;
  update = λ p f t. h.updates p f t i;
  update_many = λ p f t. h.updates_many p f t i;
  delete = λ p t. h.deletes p t i;
  delete_many = λ p t. h.deletes_many p t i;
}

pub in_memory-IsLawful : IsLawful in_memory
in_memory-IsLawful = record {
  finds_first = λ p t. refl;
  finds_last = λ key p t. refl;
  finds_many = λ p t. refl;
  counts = λ p t. refl;
  creates = λ mk t. refl;
  creates_many = λ mks t. refl;
  updates = λ p f t. refl;
  updates_many = λ p f t. refl;
  deletes = λ p t. refl;
  deletes_many = λ p t. refl;
}

-- To prove a statement for every lawful client, prove it for the executable one.
pub for_lawful {ℓ} : (P : Client → Type ℓ) → P in_memory → (c : Client) → IsLawful c → P c
for_lawful P h c lawful = subst P (sym (in_memory-eq lawful)) h
