-- ===== src/Model/Commit.antt =====
-- What follows a transaction in a task, where the transaction commits and where it raises.
use nurix_takehome.Common.{ℕ, ◌≡◌, ap}
use nurix_takehome.Model.Rows.{Db}
use nurix_takehome.Model.Txn
use nurix_takehome.Model.Txn.{Error, Result, ok, err, Txn, World, Task, commit, settle}
use nurix_takehome.Model.Task
use nurix_takehome.Model.Task.{continue}

module _ {A B : Type 0} (m : Txn A) (f : A → Task B) (w : World) where
  pub bind-commit :
      {a : A} {d : Db}
      → m w.clock w.db ≡ ok (a, d)
      → Task.◌>>=◌ (commit m) f w ≡ f a (record w { db = d })
  unfolding commit
  bind-commit e = ap (λ r. continue (settle r w).0 f (settle r w).1) e

  pub bind-commit_err :
      {x : Error} → m w.clock w.db ≡ err x → Task.◌>>=◌ (commit m) f w ≡ (err x, w)
  unfolding commit
  bind-commit_err e = ap (λ r. continue (settle r w).0 f (settle r w).1) e

module _ {A B : Type 0} (m : Txn A) (f : A → Txn B) (now : ℕ) (d : Db) where
  pub bind-ok : {a : A} {d' : Db} → m now d ≡ ok (a, d') → Txn.◌>>=◌ m f now d ≡ f a now d'
  bind-ok e = rw (Txn.◌>>=◌, e)

  pub bind-err : {x : Error} → m now d ≡ err x → Txn.◌>>=◌ m f now d ≡ err x
  bind-err e = rw (Txn.◌>>=◌, e)
