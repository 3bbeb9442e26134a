-- ===== src/State/Machine/Effects.antt =====
-- What `transition` comes to, branch by branch, and what it does to the calls.

use nurix_takehome.Common.{
  ℕ, ◌+◌, ◌≡◌, true, false, none, some, List, [], ◌∷◌, ◌++◌, inl, inr, first, any_row, update_where,
  Bool-cases, if◌then◌else◌,
}
use nurix_takehome.Model.Status.{is_terminal}
use nurix_takehome.Model.Rows.{Call, Db}
use nurix_takehome.Model.Txn.{ok, err, unauthorized_column, unique_violation, ◌>>=◌}
use nurix_takehome.Audit.{emit_audit}
use nurix_takehome.Persistence.Calls.{phones_unique, update_calls}
use nurix_takehome.Persistence.Calls.Updates.{
  updated_table, update_calls-eq-ok, update_calls-eq-err,
}
use nurix_takehome.State.Machine.{
  Move, applied_to, no_op, regression, is_unauthorized, is_regression, meets, assign, move_event,
  record_move, transition,
}
use nurix_takehome.State.Rollup.Frame.{rolled, rollup-eq-ok, calls-rolled}

module _ (m : Move) (now : ℕ) where
  abbrev pub table_after : Db → List Call
  table_after d = update_where (meets m) (assign m now) d.calls

  -- The database with the audit row of the move.
  abbrev pub audited : Call → Db → Db
  audited c d = record d {
    audit = d.audit ++ record { id = d.audit_seq; ts = now; event = move_event m c } ∷ [];
    audit_seq = d.audit_seq + 1;
  }

  -- Then the rollup, if the move is to a terminal status.
  unfoldable pub settled : Call → Db → Db
  settled c d =
      if is_terminal m.new_status then rolled c.campaign_id now (audited c d) else audited c d

  pub record_move-some :
      (c : Call) (d : Db) → record_move m (some c) now d ≡ ok (applied_to c, settled c d)
  unfolding record_move settled emit_audit
  record_move-some c d = elim (Bool-cases (is_terminal m.new_status)) [
    | inl t ↦ rw t (rw (rollup-eq-ok c.campaign_id now (audited c d), ◌>>=◌))
    | inr f ↦ rw f
  ]

  pub calls-settled : (c : Call) (d : Db) → (settled c d).calls ≡ d.calls
  unfolding settled
  calls-settled c d = elim (Bool-cases (is_terminal m.new_status)) [
    | inl t ↦ rw t (calls-rolled c.campaign_id now (audited c d))
    | inr f ↦ rw f
  ]

  module _ (d : Db) where
    pub transition-unauthorized :
        any_row is_unauthorized m.column_updates ≡ true
        → transition m now d ≡ err unauthorized_column
    unfolding transition
    transition-unauthorized h = rw h

    pub transition-regression :
        any_row is_unauthorized m.column_updates ≡ false
        → is_regression m ≡ true
        → transition m now d ≡ ok (regression, d)
    unfolding transition
    transition-regression h k = rw (h, k)

    pub transition-conflict :
        any_row is_unauthorized m.column_updates ≡ false
        → is_regression m ≡ false
        → phones_unique (table_after d) ≡ false
        → transition m now d ≡ err unique_violation
    unfolding transition update_calls
    transition-conflict h k u =
        rw (h, k) (rw (update_calls-eq-err (meets m) (assign m) now d u, ◌>>=◌))

    pub transition-hit :
        {c : Call}
        → any_row is_unauthorized m.column_updates ≡ false
        → is_regression m ≡ false
        → phones_unique (table_after d) ≡ true
        → first (meets m) d.calls ≡ some c
        → transition m now d
          ≡ ok (
            applied_to (assign m now c),
            settled (assign m now c) (record d { calls = table_after d }),
          )
    unfolding transition update_calls
    transition-hit {c} h k u e =
        rw (h, k)
          (rw (update_calls-eq-ok (meets m) (assign m) now d u, ◌>>=◌)
            (rw e (record_move-some (assign m now c) (updated_table (meets m) (assign m) now d))))

    pub transition-miss :
        any_row is_unauthorized m.column_updates ≡ false
        → is_regression m ≡ false
        → phones_unique (table_after d) ≡ true
        → first (meets m) d.calls ≡ none
        → transition m now d ≡ ok (no_op, record d { calls = table_after d })
    unfolding transition update_calls record_move
    transition-miss h k u e =
        rw (h, k) (rw (update_calls-eq-ok (meets m) (assign m) now d u, ◌>>=◌) (rw e))
