-- ===== src/Database/Action.antt =====
-- An async service call: state and exceptions. The database comes back after a throw too, since
-- what was written outside a transaction stays written.
use tms_api.Prelude.{ℕ, Bool, true, false, Option, none, some, List, if◌then◌else◌}
use tms_api.Errors.{Thrown, unexpected}
use tms_api.Prisma.{Client}
use tms_api.Database.Models.{Database, Model}

pub data Result (A : Type 0) : Type 0 where
  ok : A → Result A
  thrown : Thrown → Result A

abbrev pub Action : Type 0 → Type 0
Action A = Database → Result A × Database

unfoldable pub pure : {A : Type 0} → A → Action A
pure a db = (ok a, db)

unfoldable pub throw : {A : Type 0} → Thrown → Action A
throw e db = (thrown e, db)

infixl 5 ◌>>=◌ ◌>>◌
unfoldable pub ◌>>=◌ : {A B : Type 0} → Action A → (A → Action B) → Action B
unfolding throw
◌>>=◌ m f db = let (r, db') = m db in elim r [ ok a ↦ f a db' | thrown e ↦ throw e db' ]

unfoldable pub ◌>>◌ : {A B : Type 0} → Action A → Action B → Action B
unfolding ◌>>=◌
m >> k = m >>= λ _. k

-- The database that a filter over a relation looks into.
unfoldable pub current : Action Database
current db = (ok db, db)

-- `if (test) throw e`
unfoldable pub throw_if : Bool → Thrown → Action (Unit {0})
throw_if test e db = (if test then thrown e else ok tt, db)

-- `if (!found) throw e`
unfoldable pub or_throw : {A : Type 0} → Option A → Thrown → Action A
unfolding throw pure
or_throw none e = throw e
or_throw (some a) e = pure a

-- `if (test) { body }`
unfoldable pub when : Bool → Action (Unit {0}) → Action (Unit {0})
unfolding pure
when true body = body
when false body = pure tt

-- `prisma.$transaction`: a throw inside undoes what was written inside.
unfoldable pub transaction : {A : Type 0} → Action A → Action A
transaction m db = let (r, db') = m db in elim r [ ok a ↦ (ok a, db') | thrown e ↦ (thrown e, db) ]

-- Unfolds the calls above, for proofs that compute.
unfoldable pub calls : Unit {0}
unfolding ◌>>=◌ ◌>>◌ pure throw throw_if or_throw when transaction current
calls = tt

module _ (c : Client) {Row : Type 0} (model : Model Row) where
  unfoldable pub find_first : (Row → Bool) → Action (Option Row)
  find_first p db = (ok (c.find_first p (model.get db)), db)

  unfoldable pub find_last_by : (Row → ℕ) → (Row → Bool) → Action (Option Row)
  find_last_by key p db = (ok (c.find_last_by key p (model.get db)), db)

  unfoldable pub find_many : (Row → Bool) → Action (List Row)
  find_many p db = (ok (c.find_many p (model.get db)), db)

  unfoldable pub count : (Row → Bool) → Action ℕ
  count p db = (ok (c.count p (model.get db)), db)

  unfoldable pub create : (ℕ → Row) → Action Row
  create mk db = let (r, t) = c.create mk (model.get db) in (ok r, model.put t db)

  unfoldable pub create_many : List (ℕ → Row) → Action (Unit {0})
  create_many mks db = (ok tt, model.put (c.create_many mks (model.get db)) db)

  -- A missing record is an error of Prisma.
  unfoldable pub update : (Row → Bool) → (Row → Row) → Action Row
  update p f db = elim (c.update p f (model.get db)) [
    | none ↦ (thrown unexpected, db)
    | some (r, t) ↦ (ok r, model.put t db)
  ]

  unfoldable pub update_many : (Row → Bool) → (Row → Row) → Action (Unit {0})
  update_many p f db = (ok tt, model.put (c.update_many p f (model.get db)) db)

  unfoldable pub delete : (Row → Bool) → Action (Unit {0})
  delete p db = elim (c.delete p (model.get db)) [
    | none ↦ (thrown unexpected, db)
    | some t ↦ (ok tt, model.put t db)
  ]

  unfoldable pub delete_many : (Row → Bool) → Action (Unit {0})
  delete_many p db = (ok tt, model.put (c.delete_many p (model.get db)) db)

-- Unfolds the calls and the queries, for tests.
unfoldable pub queries : Unit {0}
unfolding calls find_first find_last_by find_many count create create_many update update_many delete
    delete_many
queries = tt
