-- ===== src/Database/Keeps.antt =====
-- What a service call keeps of the database: a relation `R` between the database at the start and
-- every later one.
use tms_api.Prelude.{ℕ, Bool, true, false, Option, List, if◌then◌else◌}
use tms_api.Errors.{Thrown}
use tms_api.Prisma.{Table, in_memory}
use tms_api.Database.Models.{Database, Model}
use tms_api.Database.Action.{
  Action, pure, ◌>>=◌, ◌>>◌, throw, throw_if, or_throw, when, transaction, current, find_first,
  find_last_by, find_many, create, create_many, update, update_many, delete, delete_many,
}
use tms_api.Database.Triple.{
  After, After-bind, After-then, After-pure, After-throw, After-found, After-last_throw_if,
  After-when, After-rollback, After-create, After-create_many, After-update, After-update_many,
  After-delete, After-delete_many,
}

pub record Keeps (R : Database → Database → Type 0) {A : Type 0} (m : Action A) : Type 0 where
  pub keeps : (old db : Database) → R old db → After (R old) (λ _. R old) m db

-- A table whose rows the relation does not mention.
abbrev pub IsOutside : (Database → Database → Type 0) → {Row : Type 0} → Model Row → Type 0
IsOutside R {Row} model = (t : Table Row) (old db : Database) → R old db → R old (model.put t db)

module _ {R : Database → Database → Type 0} where
  module _ {A : Type 0} where
    pub Keeps-pure : (a : A) → Keeps R (pure a)
    Keeps-pure a = record { keeps = λ old db h. After-pure a h }

    pub Keeps-throw : (e : Thrown) → Keeps R {A = A} (throw e)
    Keeps-throw e = record { keeps = λ old db h. After-throw e h }

    pub Keeps-or_throw : (o : Option A) (e : Thrown) → Keeps R (or_throw o e)
    Keeps-or_throw o e = record { keeps = λ old db h. After-found o e (λ _. h) (λ a _. h) }

    pub Keeps-transaction : (m : Action A) → Keeps R m → Keeps R (transaction m)
    Keeps-transaction m k = record { keeps = λ old db h. After-rollback m h (k.keeps old db h) }

    module _ {B : Type 0} where
      pub Keeps-bind :
          (m : Action A) (f : A → Action B)
          → Keeps R m
          → ((a : A) → Keeps R (f a))
          → Keeps R (m >>= f)
      Keeps-bind m f k l = record {
        keeps = λ old db h. After-bind _ m f (k.keeps old db h) (λ a d q. (l a).keeps old d q);
      }

      pub Keeps-then : (m : Action A) (f : Action B) → Keeps R m → Keeps R f → Keeps R (m >> f)
      Keeps-then m f k l = record {
        keeps = λ old db h. After-then _ m f (k.keeps old db h) (λ d q. l.keeps old d q);
      }

  pub Keeps-if :
      {A : Type 0} (test : Bool) (m n : Action A)
      → Keeps R m
      → Keeps R n
      → Keeps R (if test then m else n)
  Keeps-if true m n k l = k
  Keeps-if false m n k l = l

  pub Keeps-throw_if : (test : Bool) (e : Thrown) → Keeps R (throw_if test e)
  Keeps-throw_if test e = record {
    keeps = λ old db h. After-last_throw_if test e (λ _. h) (λ _. h);
  }

  pub Keeps-when : (test : Bool) (m : Action (Unit {0})) → Keeps R m → Keeps R (when test m)
  Keeps-when test m k = record {
    keeps = λ old db h. After-when test m (λ _. k.keeps old db h) (λ _. h);
  }

  pub Keeps-current : Keeps R current
  unfolding current
  Keeps-current = record { keeps = λ old db h. record { outcome = h } }

  module _ {Row : Type 0} (model : Model Row) where
    pub Keeps-find_first : (p : Row → Bool) → Keeps R (find_first in_memory model p)
    unfolding find_first
    Keeps-find_first p = record { keeps = λ old db h. record { outcome = h } }

    pub Keeps-find_many : (p : Row → Bool) → Keeps R (find_many in_memory model p)
    unfolding find_many
    Keeps-find_many p = record { keeps = λ old db h. record { outcome = h } }

    pub Keeps-find_last_by :
        (key : Row → ℕ) (p : Row → Bool) → Keeps R (find_last_by in_memory model key p)
    unfolding find_last_by
    Keeps-find_last_by key p = record { keeps = λ old db h. record { outcome = h } }

    module _ (outside : IsOutside R model) where
      pub Keeps-create : (mk : ℕ → Row) → Keeps R (create in_memory model mk)
      Keeps-create mk = record { keeps = λ old db h. After-create model mk (outside _ old db h) }

      pub Keeps-create_many : (mks : List (ℕ → Row)) → Keeps R (create_many in_memory model mks)
      Keeps-create_many mks = record {
        keeps = λ old db h. After-create_many model mks (outside _ old db h);
      }

      pub Keeps-update : (p : Row → Bool) (f : Row → Row) → Keeps R (update in_memory model p f)
      Keeps-update p f = record {
        keeps = λ old db h. After-update model p f (λ _. h) (λ r _. outside _ old db h);
      }

      pub Keeps-update_many :
          (p : Row → Bool) (f : Row → Row) → Keeps R (update_many in_memory model p f)
      Keeps-update_many p f = record {
        keeps = λ old db h. After-update_many model p f (outside _ old db h);
      }

      pub Keeps-delete : (p : Row → Bool) → Keeps R (delete in_memory model p)
      Keeps-delete p = record {
        keeps = λ old db h. After-delete model p (λ _. h) (λ r _. outside _ old db h);
      }

      pub Keeps-delete_many : (p : Row → Bool) → Keeps R (delete_many in_memory model p)
      Keeps-delete_many p = record {
        keeps = λ old db h. After-delete_many model p (outside _ old db h);
      }
