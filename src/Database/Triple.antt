-- ===== src/Database/Triple.antt =====
-- Reasoning about service calls, step by step from a known database: a call that returns ends in
-- its postcondition `Q`, and a call that throws ends in `I`.
use tms_api.Prelude.{
  ◌≡◌, refl, Bool, true, false, Option, none, some, ℕ, suc, List, [], ◌∷◌, ◌++◌, not, first, keep,
  length, change, inl, inr, Option-cases,
}
use tms_api.Errors.{Thrown}
use tms_api.Prisma.{in_memory, last_by, number_from, count_from}
use tms_api.Database.Models.{Database, Model}
use tms_api.Database.Action.{
  Result, ok, thrown, Action, pure, ◌>>=◌, ◌>>◌, throw, throw_if, or_throw, when, transaction,
  current, find_first, find_last_by, find_many, count, create, create_many, update, update_many,
  delete, delete_many,
}

abbrev pub Ensures :
    (Database → Type 0) → {A : Type 0} → (A → Database → Type 0) → Result A → Database → Type 0
Ensures I Q (ok a) db = Q a db
Ensures I Q (thrown e) db = I db

-- What holds after the call `m` from the database `db`.
pub record After (I : Database → Type 0) {A : Type 0} (Q : A → Database → Type 0) (m : Action A)
    (db : Database) : Type 0 where
  pub outcome : Ensures I Q (m db).0 (m db).1

same_outcome :
    (I : Database → Type 0) {A : Type 0} (r : Result A) (db : Database)
    → Ensures I (λ _. I) r db
    → I db
same_outcome I (ok a) db h = h
same_outcome I (thrown e) db h = h

committed :
    {A : Type 0} (R : A → Database → Type 0) (r : Result A) (d db : Database)
    → (I : Database → Type 0) → Ensures (λ _. ⊥) R r d
    → let next : Result A × Database = elim r [ ok a ↦ (ok a, d) | thrown e ↦ (thrown e, db) ] in
      Ensures I R next.0 next.1
committed R (ok a) d db I q = q
committed R (thrown e) d db I q = absurd q

-- A transaction that cannot throw.
pub After-commit :
    {A : Type 0} {I : Database → Type 0} {R : A → Database → Type 0} (m : Action A) {db : Database}
    → After (λ _. ⊥) R m db
    → After I R (transaction m) db
unfolding transaction
After-commit {I} {R} m {db} h = record { outcome = committed R (m db).0 (m db).1 db I h.outcome }

-- What holds however the call ends.
pub After-always :
    {I : Database → Type 0} {A : Type 0} {m : Action A} {db : Database}
    → After I (λ _. I) m db
    → I (m db).1
After-always {I} {m} {db} h = same_outcome I (m db).0 (m db).1 h.outcome

module _ {B : Type 0} {I : Database → Type 0} {R : B → Database → Type 0} where
  resume :
      {A : Type 0} (Q : A → Database → Type 0) (f : A → Action B) (r : Result A) (db : Database)
      → Ensures I Q r db
      → ((a : A) (d : Database) → Q a d → After I R (f a) d)
      → let next : Result B × Database = elim r [ ok a ↦ f a db | thrown e ↦ (thrown e, db) ] in
        Ensures I R next.0 next.1
  resume Q f (ok a) db q h = (h a db q).outcome
  resume Q f (thrown e) db i h = i

  -- Sequencing.
  pub After-bind :
      {A : Type 0} (Q : A → Database → Type 0) (m : Action A) (f : A → Action B) {db : Database}
      → After I Q m db
      → ((a : A) (d : Database) → Q a d → After I R (f a) d)
      → After I R (m >>= f) db
  unfolding ◌>>=◌
  After-bind Q m f {db} h k = record { outcome = resume Q f (m db).0 (m db).1 h.outcome k }

  pub After-then :
      {A : Type 0} (Q : Database → Type 0) (m : Action A) (k : Action B) {db : Database}
      → After I (λ _. Q) m db
      → ((d : Database) → Q d → After I R k d)
      → After I R (m >> k) db
  unfolding ◌>>◌
  After-then Q m k h next = After-bind (λ _. Q) m (λ _. k) h (λ _. next)

  -- Sequencing, where the rest of the call is the postcondition.
  pub After-seq :
      {A : Type 0} (m : Action A) (f : A → Action B) {db : Database}
      → After I (λ a. After I R (f a)) m db
      → After I R (m >>= f) db
  After-seq m f h = After-bind (λ a. After I R (f a)) m f h (λ a d k. k)

  pub After-seq_then :
      {A : Type 0} (m : Action A) (k : Action B) {db : Database}
      → After I (λ _. After I R k) m db
      → After I R (m >> k) db
  unfolding ◌>>◌
  After-seq_then m k h = After-seq m (λ _. k) h

  pub After-pure : (b : B) {db : Database} → R b db → After I R (pure b) db
  unfolding pure
  After-pure b h = record { outcome = h }

  pub After-throw : (e : Thrown) {db : Database} → I db → After I R (throw e) db
  unfolding throw
  After-throw e h = record { outcome = h }

  -- `if (!found) throw e`, and then `f`.
  pub After-or_throw :
      {A : Type 0} (found : Option A) (e : Thrown) (f : A → Action B) {db : Database}
      → (found ≡ none → I db)
      → ((a : A) → found ≡ some a → After I R (f a) db)
      → After I R (or_throw found e >>= f) db
  unfolding or_throw ◌>>=◌
  After-or_throw none e f none_case some_case = record { outcome = none_case refl }
  After-or_throw (some a) e f none_case some_case = record { outcome = (some_case a refl).outcome }

  -- The same, where it is found.
  pub After-given :
      {A : Type 0} (found : Option A) (e : Thrown) (f : A → Action B) (a : A) {db : Database}
      → found ≡ some a
      → After I R (f a) db
      → After I R (or_throw found e >>= f) db
  unfolding or_throw ◌>>=◌
  After-given found e f a is_found h = rw is_found (record { outcome = h.outcome })

  -- `if (test) throw e`, and then `k`.
  pub After-throw_if :
      (test : Bool) (e : Thrown) (k : Action B) {db : Database}
      → (test ≡ true → I db)
      → (test ≡ false → After I R k db)
      → After I R (throw_if test e >> k) db
  unfolding throw_if ◌>>◌
  After-throw_if true e k fails goes_on = record { outcome = fails refl }
  After-throw_if false e k fails goes_on = record { outcome = (goes_on refl).outcome }

  -- The queries that only read.
  module _ {Row : Type 0} (model : Model Row) (p : Row → Bool) {db : Database} where
    pub After-find_first :
        (f : Option Row → Action B)
        → After I R (f (first p (model.get db).rows)) db
        → After I R (find_first in_memory model p >>= f) db
    unfolding find_first ◌>>=◌
    After-find_first f h = record { outcome = h.outcome }

    pub After-find_last_by :
        (key : Row → ℕ) (f : Option Row → Action B)
        → After I R (f (last_by key p (model.get db).rows)) db
        → After I R (find_last_by in_memory model key p >>= f) db
    unfolding find_last_by ◌>>=◌
    After-find_last_by key f h = record { outcome = h.outcome }

    pub After-find_many :
        (f : List Row → Action B)
        → After I R (f (keep p (model.get db).rows)) db
        → After I R (find_many in_memory model p >>= f) db
    unfolding find_many ◌>>=◌
    After-find_many f h = record { outcome = h.outcome }

    pub After-count :
        (f : ℕ → Action B)
        → After I R (f (length (keep p (model.get db).rows))) db
        → After I R (count in_memory model p >>= f) db
    unfolding count ◌>>=◌
    After-count f h = record { outcome = h.outcome }

  pub After-current :
      (f : Database → Action B) {db : Database} → After I R (f db) db → After I R (current >>= f) db
  unfolding current ◌>>=◌
  After-current f h = record { outcome = h.outcome }

  -- A transaction that throws ends where it began.
  pub After-transaction :
      (m : Action B) {db : Database}
      → I db
      → After (λ _. Unit {0}) R m db
      → After I R (transaction m) db
  unfolding transaction
  After-transaction m {db} i h = record { outcome = commit (m db).0 (m db).1 h.outcome }
    where
      commit :
          (r : Result B) (d : Database)
          → Ensures (λ _. Unit {0}) R r d
          → let next : Result B × Database = elim r [
            | ok a ↦ (ok a, d)
            | thrown e ↦ (thrown e, db)
          ] in
            Ensures I R next.0 next.1
      commit (ok a) d q = q
      commit (thrown e) d q = i

-- `if (!found) throw e`, where what was found is not used.
pub After-found :
    {A : Type 0} {I : Database → Type 0} {Q : A → Database → Type 0} {db : Database}
    (found : Option A) (e : Thrown)
    → (found ≡ none → I db)
    → ((a : A) → found ≡ some a → Q a db)
    → After I Q (or_throw found e) db
unfolding or_throw
After-found none e none_case some_case = record { outcome = none_case refl }
After-found (some a) e none_case some_case = record { outcome = some_case a refl }

-- `if (test) { body }`
pub After-when :
    {I : Database → Type 0} {Q : Unit {0} → Database → Type 0} {db : Database} (test : Bool)
    (body : Action (Unit {0}))
    → (test ≡ true → After I Q body db)
    → (test ≡ false → Q tt db)
    → After I Q (when test body) db
unfolding when
After-when true body runs skips = record { outcome = (runs refl).outcome }
After-when false body runs skips = record { outcome = skips refl }

-- The queries that write.
module _ {I : Database → Type 0} {Row : Type 0} (model : Model Row) {db : Database} where
  pub After-create :
      {Q : Row → Database → Type 0} (mk : ℕ → Row)
      → let t = model.get db in
        Q
          (mk t.next_id)
          (model.put (record { rows = t.rows ++ mk t.next_id ∷ []; next_id = suc t.next_id }) db)
        → After I Q (create in_memory model mk) db
  unfolding create
  After-create mk h = record { outcome = h }

  pub After-create_many :
      {Q : Unit {0} → Database → Type 0} (mks : List (ℕ → Row))
      → let t = model.get db in
        Q tt (
          model.put
            (record {
              rows = t.rows ++ number_from t.next_id mks;
              next_id = count_from t.next_id mks;
            })
            db)
        → After I Q (create_many in_memory model mks) db
  unfolding create_many
  After-create_many mks h = record { outcome = h }

  pub After-update :
      {Q : Row → Database → Type 0} (p : Row → Bool) (f : Row → Row)
      → (first p (model.get db).rows ≡ none → I db)
      → ((r : Row)
          → first p (model.get db).rows ≡ some r
          → Q
              (f r)
              (model.put (record (model.get db) { rows = change p f (model.get db).rows }) db))
      → After I Q (update in_memory model p f) db
  unfolding update
  After-update p f missing found = elim (Option-cases (first p (model.get db).rows)) [
    | inl e ↦ record { outcome = rw (e, update) (missing e) }
    | inr (r, e) ↦ record { outcome = rw (e, update) (found r e) }
  ]

  pub After-update_many :
      {Q : Unit {0} → Database → Type 0} (p : Row → Bool) (f : Row → Row)
      → Q tt (model.put (record (model.get db) { rows = change p f (model.get db).rows }) db)
      → After I Q (update_many in_memory model p f) db
  unfolding update_many
  After-update_many p f h = record { outcome = h }

  pub After-delete :
      {Q : Unit {0} → Database → Type 0} (p : Row → Bool)
      → (first p (model.get db).rows ≡ none → I db)
      → ((r : Row)
          → first p (model.get db).rows ≡ some r
          → Q tt (
              model.put
                (record (model.get db) { rows = keep (λ x. not (p x)) (model.get db).rows })
                db))
      → After I Q (delete in_memory model p) db
  unfolding delete
  After-delete p missing found = elim (Option-cases (first p (model.get db).rows)) [
    | inl e ↦ record { outcome = rw (e, delete) (missing e) }
    | inr (r, e) ↦ record { outcome = rw (e, delete) (found r e) }
  ]

  pub After-delete_many :
      {Q : Unit {0} → Database → Type 0} (p : Row → Bool)
      → Q tt (
          model.put (record (model.get db) { rows = keep (λ x. not (p x)) (model.get db).rows }) db)
      → After I Q (delete_many in_memory model p) db
  unfolding delete_many
  After-delete_many p h = record { outcome = h }

-- `if (test) throw e` at the end.
pub After-last_throw_if :
    {I : Database → Type 0} {Q : Unit {0} → Database → Type 0} {db : Database} (test : Bool)
    (e : Thrown)
    → (test ≡ true → I db)
    → (test ≡ false → Q tt db)
    → After I Q (throw_if test e) db
unfolding throw_if pure throw
After-last_throw_if true e throws passes = record { outcome = throws refl }
After-last_throw_if false e throws passes = record { outcome = passes refl }

same_ensured :
    (I : Database → Type 0) {A : Type 0} {Q R : A → Database → Type 0} (r : Result A)
    (db : Database)
    → ((a : A) (d : Database) → Q a d → R a d)
    → Ensures I Q r db
    → Ensures I R r db
same_ensured I (ok a) db weaker h = weaker a db h
same_ensured I (thrown e) db weaker h = h

-- A weaker postcondition.
pub After-weaken :
    {I : Database → Type 0} {A : Type 0} {Q R : A → Database → Type 0} {m : Action A}
    {db : Database}
    → ((a : A) (d : Database) → Q a d → R a d)
    → After I Q m db
    → After I R m db
After-weaken {I} {m} {db} weaker h = record {
  outcome = same_ensured I (m db).0 (m db).1 weaker h.outcome;
}

never_thrown :
    (I : Database → Type 0) {A : Type 0} (Q : A → Database → Type 0) (r : Result A) (db : Database)
    → ((d : Database) → I d → ⊥)
    → Ensures I Q r db
    → Ensures (λ _. ⊥) Q r db
never_thrown I Q (ok a) db never h = h
never_thrown I Q (thrown e) db never h = never db h

-- A call whose throws are excluded returns.
pub After-returns :
    {I : Database → Type 0} {A : Type 0} {Q : A → Database → Type 0} {m : Action A} {db : Database}
    → ((d : Database) → I d → ⊥)
    → After I Q m db
    → After (λ _. ⊥) Q m db
After-returns {I} {Q} {m} {db} never h = record {
  outcome = never_thrown I Q (m db).0 (m db).1 never h.outcome;
}

unconditional :
    (I : Database → Type 0) {A : Type 0} (Q : A → Database → Type 0) (r : Result A) (db : Database)
    → Ensures I Q r db
    → Ensures (λ _. Unit {0}) Q r db
unconditional I Q (ok a) db h = h
unconditional I Q (thrown e) db h = tt

-- A transaction that throws undoes what it wrote.
pub After-rollback :
    {I : Database → Type 0} {A : Type 0} {R : A → Database → Type 0} (m : Action A) {db : Database}
    → I db
    → After I R m db
    → After I R (transaction m) db
After-rollback {I} {R} m {db} i h =
    After-transaction m i (record { outcome = unconditional I R (m db).0 (m db).1 h.outcome })
