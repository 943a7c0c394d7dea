-- ===== src/Pages.antt =====
-- Paging, as the list handlers and their services share it: the page and limit that a handler makes
-- of its query, the query for a page, and what reading the pages one after the other gives. What
-- `parseInt` makes of the query is `none` for NaN.
use native.Mathlib.Nat.{zero-add, add-zero, add-suc, zero-mul, suc-add, suc-mul}
use mathlib.Core.Path.{subst}
use tms_api.Prelude.{
  ℕ, zero, suc, ◌+◌, ◌*◌, ◌≤◌, min, ◌≡◌, refl, sym, ap, ◌∙◌, Bool, Option, none, some, some-none,
  List, [], ◌∷◌, ◌++◌, keep, length, arith, ◌==◌, if◌then◌else◌, false,
}
use mathlib.Core.Option.{some-injective}
use tms_api.Constants.{default_page, default_limit}
use tms_api.Errors.{unexpected}
use tms_api.Prisma.{Client, in_memory}
use tms_api.Database.{Database, Model}
use tms_api.Database.Action.{Action, ◌>>=◌, pure, or_throw, find_many, count}
use tms_api.Database.Triple.{
  After, After-bind, After-find_many, After-count, After-pure, After-or_throw, After-weaken,
  After-returns,
}

-- The integers: `negsuc n` is -(n + 1).
pub data ℤ : Type 0 where
  pos : ℕ → ℤ
  negsuc : ℕ → ℤ

abbrev pub negate : ℕ → ℤ
negate zero = pos 0
negate (suc n) = negsuc n

abbrev pub pred : ℤ → ℤ
pred (pos zero) = negsuc 0
pred (pos (suc n)) = pos n
pred (negsuc n) = negsuc (suc n)

abbrev pub times : ℤ → ℤ → ℤ
times (pos a) (pos b) = pos (a * b)
times (pos a) (negsuc b) = negate (a * suc b)
times (negsuc a) (pos b) = negate (suc a * b)
times (negsuc a) (negsuc b) = pos (suc a * suc b)

-- `Math.min(n, 100)`
abbrev pub at_most_100 : ℤ → ℤ
at_most_100 (pos n) = pos (min n 100)
at_most_100 (negsuc n) = negsuc n

-- `parseInt(text) || fallback`
abbrev pub or_fallback : Option ℤ → ℕ → ℤ
or_fallback none fallback = pos fallback
or_fallback (some (pos n)) fallback = pos (if n == 0 then fallback else n)
or_fallback (some (negsuc n)) fallback = negsuc n

abbrev pub page_of : Option ℤ → ℤ
page_of page = or_fallback page default_page

abbrev pub limit_of : Option ℤ → ℤ
limit_of limit = at_most_100 (or_fallback limit default_limit)

-- The options `skip` and `take` of `findMany`.
abbrev pub skip {ℓ} : {A : Type ℓ} → ℕ → List A → List A
skip zero xs = xs
skip (suc n) [] = []
skip (suc n) (x ∷ xs) = skip n xs

abbrev pub take {ℓ} : {A : Type ℓ} → ℕ → List A → List A
take zero xs = []
take (suc n) [] = []
take (suc n) (x ∷ xs) = x ∷ take n xs

abbrev pub reverse_onto {ℓ} : {A : Type ℓ} → List A → List A → List A
reverse_onto [] ys = ys
reverse_onto (x ∷ xs) ys = reverse_onto xs (x ∷ ys)

abbrev pub reverse {ℓ} : {A : Type ℓ} → List A → List A
reverse xs = reverse_onto xs []

-- `findMany` with `take` and `skip` on the rows in order: a negative `skip` is refused, and a negative
-- `take` reads from the end, where it skips too.
abbrev pub window {ℓ} : {A : Type ℓ} → ℤ → ℤ → List A → Option (List A)
window taken (negsuc n) xs = none
window (pos t) (pos n) xs = some (take t (skip n xs))
window (negsuc t) (pos n) xs = some (reverse (take (suc t) (skip n (reverse xs))))

-- The page of the rows `xs`: `skip: (page - 1) * limit, take: limit`.
abbrev pub page_rows {ℓ} : {A : Type ℓ} → List A → ℤ → ℤ → Option (List A)
page_rows xs page limit = window limit (times (pred page) limit) xs

-- `{ data, meta: { total, page, limit } }`
pub record Page (Row : Type 0) : Type 0 where
  pub data_ : List Row
  pub total : ℕ
  pub page : ℤ
  pub limit : ℤ

-- `findMany` with `skip`, `take` and an order, and `count`, for one test. `sort` is the order in
-- which the database has the rows for this query.
unfoldable pub find_page :
    Client
    → {Row : Type 0} → Model Row
    → (List Row → List Row)
    → (Row → Bool)
    → ℤ
    → ℤ
    → Action (Page Row)
find_page c model sort p page limit = do
  rows ← find_many c model p
  total ← count c model p
  data_ ← or_throw (page_rows (sort rows) page limit) unexpected
  pure (record { data_ = data_; total = total; page = page; limit = limit })

-- The `n` pages of a handler from the one after the first `k`, one call after the other.
unfoldable pub read_pages :
    {Row : Type 0}
    → (Option ℤ → Option ℤ → Action (Page Row))
    → Option ℤ
    → ℕ
    → ℕ
    → Action (List Row)
read_pages handler asked k zero = pure []
read_pages handler asked k (suc n) = do
  p ← handler (some (pos (suc k))) asked
  rest ← read_pages handler asked (suc k) n
  pure (p.data_ ++ rest)

module _ {ℓ} {A : Type ℓ} where
  take-skip : (n : ℕ) (xs : List A) → take n xs ++ skip n xs ≡ xs
  take-skip zero xs = refl
  take-skip (suc n) [] = refl
  take-skip (suc n) (x ∷ xs) = ap (λ l. x ∷ l) (take-skip n xs)

  skip-nil : (n : ℕ) → skip {A = A} n [] ≡ []
  skip-nil zero = refl
  skip-nil (suc n) = refl

  skip-skip : (n m : ℕ) (xs : List A) → skip m (skip n xs) ≡ skip (n + m) xs
  skip-skip zero m xs = rw (zero-add m) refl
  skip-skip (suc n) m [] = skip-nil m ∙ sym (skip-nil (suc n + m))
  skip-skip (suc n) m (x ∷ xs) = rw (suc-add n m) (skip-skip n m xs)

  skip-length : (n : ℕ) (xs : List A) → length xs ≤ n → skip n xs ≡ []
  skip-length zero [] h = refl
  skip-length zero (x ∷ xs) h = absurd (omega arith)
  skip-length (suc n) [] h = refl
  skip-length (suc n) (x ∷ xs) h = skip-length n xs (omega arith)

  next_page :
      (k limit : ℕ) (xs : List A)
      → take limit (skip (k * limit) xs) ++ skip (suc k * limit) xs ≡ skip (k * limit) xs
  next_page k limit xs =
      rw (suc-mul k limit)
        (rw (sym (skip-skip (k * limit) limit xs)) (take-skip limit (skip (k * limit) xs)))

-- The call returns the page of `rows`, and the number of all; it throws only for a window that is
-- refused; and it writes nothing.
abbrev pub IsPageOf : {Row : Type 0} → List Row → ℕ → ℤ → ℤ → Database → Action (Page Row) → Type 0
IsPageOf rows total page limit db m =
    After (λ new. (new ≡ db) × (page_rows rows page limit ≡ none))
      (λ p new. (new ≡ db) × (page_rows rows page limit ≡ some p.data_) × (p.total ≡ total)) m db

-- So for every page and limit of the query.
abbrev pub IsPaged :
    {Row : Type 0} → (Option ℤ → Option ℤ → Action (Page Row)) → List Row → ℕ → Database → Type 0
IsPaged handler rows total db =
    (page limit : Option ℤ)
    → IsPageOf rows total (page_of page) (limit_of limit) db (handler page limit)

pub find_page-IsPageOf :
    {Row : Type 0} {db : Database} (model : Model Row) (sort : List Row → List Row) (p : Row → Bool)
    (page limit : ℤ)
    → let rows = keep p (model.get db).rows in
      IsPageOf (sort rows) (length rows) page limit db (find_page in_memory model sort p page limit)
unfolding find_page
find_page-IsPageOf model sort p page limit = After-find_many model _ _ (
    After-count model _ _
      (After-or_throw _ _ _ (λ refused. (refl, refused)) λ rows is. After-pure _ (refl, is, refl)))

module _ {Row : Type 0} (handler : Option ℤ → Option ℤ → Action (Page Row)) (rows : List Row)
    (total : ℕ) (db : Database) (asked : Option ℤ) (m : ℕ) (is_m : limit_of asked ≡ pos m)
    (paged : (k : ℕ)
      → IsPageOf rows total
          (page_of (some (pos (suc k))))
          (limit_of asked)
          db
          (handler (some (pos (suc k))) asked)) where
  numbered : (k : ℕ) → page_of (some (pos (suc k))) ≡ pos (suc k)
  numbered k = let positive : (suc k == 0) ≡ false = ground arith in rw positive refl

  one_page :
      (k : ℕ)
      → After
          (λ _. ⊥)
          (λ p new. (new ≡ db) × (p.data_ ≡ take m (skip (k * m) rows)))
          (handler (some (pos (suc k))) asked)
          db
  one_page k =
      let is_page : IsPageOf rows total (pos (suc k)) (pos m) db
          (handler (some (pos (suc k))) asked) =
        subst (λ l. IsPageOf rows total (pos (suc k)) l db (handler (some (pos (suc k))) asked))
          is_m
          (subst
            (λ q. IsPageOf rows total q (limit_of asked) db (handler (some (pos (suc k))) asked))
            (numbered k) (paged k)) in
      After-weaken (λ p new h. (h.0, sym (some-injective _ _ h.1)))
        (After-returns (λ d h. some-none refl h.1) is_page)

  pages-whole :
      (k n : ℕ)
      → length rows ≤ (k + n) * m
      → After
          (λ _. ⊥)
          (λ all new. (new ≡ db) × (all ≡ skip (k * m) rows))
          (read_pages handler asked k n)
          db
  unfolding read_pages
  pages-whole k zero h = After-pure _ (refl, sym (skip-length (k * m) _ (rw (← add-zero k) h)))
  pages-whole k (suc n) h = After-bind _ _ _ (one_page k) λ p new page. rw (page.0) (
      After-bind (λ rest new. (new ≡ db) × (rest ≡ skip (suc k * m) rows)) _ _
        (pages-whole (suc k) n (rw (suc-add k n, ← add-suc k n) h))
        λ rest new rests. After-pure _ (rests.0, rw (page.1, rests.1) (next_page k m rows)))

  -- Where the first `n` pages have room for all rows, they hold these.
  pub IsPaged-read_pages :
      (n : ℕ)
      → length rows ≤ n * m
      → After (λ _. ⊥) (λ all new. (new ≡ db) × (all ≡ rows)) (read_pages handler asked 0 n) db
  IsPaged-read_pages n h =
      subst
        (λ m.
          After (λ _. ⊥) (λ all new. (new ≡ db) × (all ≡ skip m rows))
            (read_pages handler asked 0 n) db)
        (zero-mul m) (pages-whole 0 n (rw (zero-add n) h))
