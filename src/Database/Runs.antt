-- ===== src/Database/Runs.antt =====
-- Running a service call step by step, where each step's result is known.
use tms_api.Prelude.{◌≡◌, ap, refl, Bool, true, false, Option, none, some}
use tms_api.Errors.{Thrown}
use tms_api.Database.Models.{Database}
use tms_api.Database.Action.{
  Result, ok, thrown, Action, ◌>>=◌, ◌>>◌, throw, or_throw, throw_if, pure,
}

module _ {A B : Type 0} (m : Action A) {db new : Database} where
  pub bind-ok : (f : A → Action B) (a : A) → m db ≡ (ok a, new) → (m >>= f) db ≡ f a new
  unfolding ◌>>=◌ throw
  bind-ok f a e =
      ap (λ (r : Result A × Database). elim r.0 [ ok x ↦ f x r.1 | thrown t ↦ throw t r.1 ]) e

  pub bind-thrown :
      (f : A → Action B) (e : Thrown) → m db ≡ (thrown e, new) → (m >>= f) db ≡ (thrown e, new)
  unfolding ◌>>=◌ throw
  bind-thrown f e h =
      ap (λ (r : Result A × Database). elim r.0 [ ok x ↦ f x r.1 | thrown t ↦ throw t r.1 ]) h

  pub then-ok : (k : Action B) (a : A) → m db ≡ (ok a, new) → (m >> k) db ≡ k new
  unfolding ◌>>◌
  then-ok k a e = bind-ok (λ _. k) a e

  pub then-thrown :
      (k : Action B) (e : Thrown) → m db ≡ (thrown e, new) → (m >> k) db ≡ (thrown e, new)
  unfolding ◌>>◌
  then-thrown k e h = bind-thrown (λ _. k) e h

module _ (db : Database) where
  pub or_throw-some :
      {A : Type 0} (o : Option A) (e : Thrown) (a : A) → o ≡ some a → or_throw o e db ≡ (ok a, db)
  unfolding or_throw pure
  or_throw-some o e a h = rw h refl

  pub or_throw-none :
      {A : Type 0} (o : Option A) (e : Thrown) → o ≡ none → or_throw o e db ≡ (thrown e, db)
  unfolding or_throw throw
  or_throw-none o e h = rw h refl

  pub throw_if-true : (test : Bool) (e : Thrown) → test ≡ true → throw_if test e db ≡ (thrown e, db)
  unfolding throw_if
  throw_if-true test e h = rw h refl

  pub throw_if-false : (test : Bool) (e : Thrown) → test ≡ false → throw_if test e db ≡ (ok tt, db)
  unfolding throw_if
  throw_if-false test e h = rw h refl
