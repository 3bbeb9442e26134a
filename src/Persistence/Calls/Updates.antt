-- ===== src/Persistence/Calls/Updates.antt =====
-- The update of the calls table succeeds exactly when the phone index accepts the new table.
use mathlib.Core.Option
use nurix_takehome.Common.{ℕ, ◌≡◌, Bool, true, false, first, update_where}
use nurix_takehome.Model.Rows.{Call, Db}
use nurix_takehome.Model.Txn.{ok, err, unique_violation}
use nurix_takehome.Persistence.Calls.{phones_unique, update_calls}

module _ (p : Call → Bool) (f : ℕ → Call → Call) (now : ℕ) (d : Db) where
  abbrev pub updated_table : Db
  updated_table = record d { calls = update_where p (f now) d.calls }

  pub update_calls-eq-ok :
      phones_unique (update_where p (f now) d.calls) ≡ true
      → update_calls p f now d ≡ ok (Option.map (f now) (first p d.calls), updated_table)
  unfolding update_calls
  update_calls-eq-ok u = rw u

  pub update_calls-eq-err :
      phones_unique (update_where p (f now) d.calls) ≡ false
      → update_calls p f now d ≡ err unique_violation
  unfolding update_calls
  update_calls-eq-err u = rw u
