-- ===== src/State/Machine/View.antt =====
-- The three ways in which a call of `transition` ends: it raises, it leaves the database as it was,
-- or it moves the row that it met. Later proofs are by cases on these.

use nurix_takehome.Common.{
  ℕ, ◌≡◌, refl, Bool, true, false, none, some, List, [], ◌∷◌, inl, inr, arith, first, any_row,
  update_where, Option-cases, Bool-cases,
}
use nurix_takehome.Model.Rows.{Call, Db}
use nurix_takehome.Model.Txn.{Error, Result, ok, err, unauthorized_column, unique_violation}
use nurix_takehome.Persistence.Calls.{phones_unique}
use nurix_takehome.State.Machine.{
  Move, TransitionResult, applied_to, no_op, regression, is_unauthorized, is_regression, meets,
  assign, transition,
}
use nurix_takehome.State.Machine.Effects.{
  table_after, settled, transition-unauthorized, transition-regression, transition-conflict,
  transition-hit, transition-miss,
}

-- The row `c` is moved.
pub record Moves (m : Move) (now : ℕ) (d : Db) (c : Call) : Type 0 where
  pub allowed : is_regression m ≡ false
  pub fits : phones_unique (table_after m now d) ≡ true
  pub found : first (meets m) d.calls ≡ some c

pub data View (m : Move) (now : ℕ) (d : Db) : Result (TransitionResult × Db) → Type 0 where
  raised : (e : Error) → View m now d (err e)
  kept : (r : TransitionResult) → r.applied ≡ false → View m now d (ok (r, d))
  moved :
      (c : Call)
      → Moves m now d c
      → View m now d (
          ok (
            applied_to (assign m now c),
            settled m now (assign m now c) (record d { calls = table_after m now d }),
          ))

update_where-none {ℓ} :
    {A : Type ℓ} (p : A → Bool) (f : A → A) (xs : List A)
    → first p xs ≡ none
    → update_where p f xs ≡ xs
unfolding first update_where
update_where-none p f [] h = refl
update_where-none p f (x ∷ xs) h = ground (arith, update_where-none p f xs)

module _ (m : Move) (now : ℕ) (d : Db) where
  kept_table :
      first (meets m) d.calls ≡ none
      → View m now d (ok (no_op, record d { calls = table_after m now d }))
  kept_table e = rw (update_where-none (meets m) (assign m now) d.calls e) (kept no_op refl)

  pub transition-View : View m now d (transition m now d)
  transition-View = elim (Bool-cases (any_row is_unauthorized m.column_updates)) [
    | inl bad ↦ rw (transition-unauthorized m now d bad) (raised unauthorized_column)
    | inr fine ↦ elim (Bool-cases (is_regression m)) [
      | inl back ↦ rw (transition-regression m now d fine back) (kept regression refl)
      | inr on ↦ elim (Bool-cases (phones_unique (table_after m now d))) [
        | inr clash ↦ rw (transition-conflict m now d fine on clash) (raised unique_violation)
        | inl fits ↦ elim (Option-cases (first (meets m) d.calls)) [
          | inl e ↦ rw (transition-miss m now d fine on fits e) (kept_table e)
          | inr (c, e) ↦
              rw (transition-hit m now d fine on fits e)
                (moved c (record { allowed = on; fits = fits; found = e }))
        ]
      ]
    ]
  ]
