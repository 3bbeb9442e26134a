-- ===== src/Model/Keeps.antt =====
-- Relations between the database before and after: a rule for each way to build a transaction or a
-- task, for any relation that is reflexive and transitive.
use nurix_takehome.Common.{ℕ, ◌≡◌, refl, sym, subst, arith, Bool, true, false, if◌then◌else◌}
use nurix_takehome.Model.Rows.{Db}
use nurix_takehome.Model.Txn
use nurix_takehome.Model.Txn.{
  Error, Result, ok, err, Txn, pure, throw, gets, World, Task, commit, after,
}
use nurix_takehome.Model.Task
use nurix_takehome.Model.Task.{done, lift, await_others, continue}

pub record IsPreorder (R : Db → Db → Type 0) : Type 0 where
  pub reflexive : (d : Db) → R d d
  pub transitive : (a b c : Db) → R a b → R b c → R a c

-- Whatever a transaction does, `R` holds between the database before it and after it.
pub record Keeps (R : Db → Db → Type 0) {A : Type 0} (m : Txn A) : Type 0 where
  pub at : (now : ℕ) (d : Db) → R d (after (m now d) d)

pub record KeepsTask (R : Db → Db → Type 0) {A : Type 0} (t : Task A) : Type 0 where
  pub at : (w : World) → R w.db (t w).1.db

pub db-commit :
    {A : Type 0} (m : Txn A) (w : World) → (commit m w).1.db ≡ after (m w.clock w.db) w.db
unfolding commit
db-commit m w = ground arith

module _ {R : Db → Db → Type 0} (o : IsPreorder R) where
  pub Keeps-pure : {A : Type 0} (a : A) → Keeps R (pure a)
  Keeps-pure a = record { at = λ now d. o.reflexive d }

  pub Keeps-gets : {A : Type 0} (f : ℕ → Db → A) → Keeps R (gets f)
  Keeps-gets f = record { at = λ now d. o.reflexive d }

  second_keeps :
      {B : Type 0} (r : Result (B × Db)) (a b : Db) → R a b → R b (after r b) → R a (after r a)
  second_keeps (ok (_, c)) a b h g = o.transitive a b c h g
  second_keeps (err e) a b h g = o.reflexive a

  rest_keeps :
      {A B : Type 0} (r : Result (A × Db)) (f : A → Txn B) (now : ℕ) (d : Db)
      → R d (after r d)
      → ((a : A) → Keeps R (f a))
      → R d (after {A = B} (elim r [ ok (a, d') ↦ f a now d' | err e ↦ err e ]) d)
  rest_keeps (err e) f now d h k = h
  rest_keeps (ok (a, b)) f now d h k = second_keeps (f a now b) d b h ((k a).at now b)

  pub Keeps-bind :
      {A B : Type 0} (m : Txn A) (f : A → Txn B)
      → Keeps R m
      → ((a : A) → Keeps R (f a))
      → Keeps R (Txn.◌>>=◌ m f)
  Keeps-bind m f h k = record { at = λ now d. rest_keeps (m now d) f now d (h.at now d) k }

  pub Keeps-if :
      {A : Type 0} (b : Bool) (m n : Txn A)
      → (b ≡ true → Keeps R m)
      → (b ≡ false → Keeps R n)
      → Keeps R (if b then m else n)
  Keeps-if true m n h k = h refl
  Keeps-if false m n h k = k refl

  pub KeepsTask-done : {A : Type 0} (a : A) → KeepsTask R (done a)
  KeepsTask-done a = record { at = λ w. o.reflexive w.db }

  pub KeepsTask-lift : {A : Type 0} (r : Result A) → KeepsTask R (lift r)
  KeepsTask-lift r = record { at = λ w. o.reflexive w.db }

  pub KeepsTask-commit : {A : Type 0} (m : Txn A) → Keeps R m → KeepsTask R (commit m)
  KeepsTask-commit m k = record {
    at = λ w. subst (R w.db) (sym (db-commit m w)) (k.at w.clock w.db);
  }

  pub continue_keeps :
      {A B : Type 0} (r : Result A) (f : A → Task B) (w : World)
      → ((a : A) → KeepsTask R (f a))
      → R w.db (continue r f w).1.db
  continue_keeps (ok a) f w k = (k a).at w
  continue_keeps (err e) f w k = o.reflexive w.db

  pub KeepsTask-bind :
      {A B : Type 0} (t : Task A) (f : A → Task B)
      → KeepsTask R t
      → ((a : A) → KeepsTask R (f a))
      → KeepsTask R (Task.◌>>=◌ t f)
  KeepsTask-bind t f h k = record {
    at = λ w. o.transitive w.db (t w).1.db _ (h.at w) (continue_keeps (t w).0 f (t w).1 k);
  }

pub KeepsTask-await :
    {R : Db → Db → Type 0} (others : World → World)
    → ((w : World) → R w.db (others w).db)
    → KeepsTask R (await_others others)
KeepsTask-await others h = record { at = h }
