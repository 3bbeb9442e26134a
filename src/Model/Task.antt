-- ===== src/Model/Task.antt =====
-- Tasks of the event loop: what a task has committed stays when it raises later on.
use nurix_takehome.Model.Txn.{Result, ok, err, World, Task}

abbrev pub done : {A : Type 0} → A → Task A
done a w = (ok a, w)

-- A pure part that may raise.
abbrev pub lift : {A : Type 0} → Result A → Task A
lift r w = (r, w)

-- The other tasks run while this one waits.
abbrev pub await_others : (World → World) → Task (Unit {0})
await_others others w = (ok tt, others w)

abbrev pub continue : {A B : Type 0} → Result A → (A → Task B) → Task B
continue (ok a) f w = f a w
continue (err e) f w = (err e, w)

infixl 5 ◌>>=◌ ◌>>◌
abbrev pub ◌>>=◌ : {A B : Type 0} → Task A → (A → Task B) → Task B
◌>>=◌ m f w = continue (m w).0 f (m w).1

abbrev pub ◌>>◌ : {B : Type 0} → Task (Unit {0}) → Task B → Task B
m >> k = m >>= λ _. k
