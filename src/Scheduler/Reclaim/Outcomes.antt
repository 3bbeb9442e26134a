-- ===== src/Scheduler/Reclaim/Outcomes.antt =====
-- What each kind of reclaim outcome says of the database.
use nurix_takehome.Common.{◌+◌, ◌≡◌, refl, true, Option, none, some, if◌then◌else◌}
use nurix_takehome.Model.Status.{CallStatus, queued}
use nurix_takehome.Model.Rows.{Call, Db}
use nurix_takehome.Model.Txn.{Result, ok, err, World, commit, settle}
use nurix_takehome.Model.Deps.{Deps}
use nurix_takehome.Persistence.Calls.{get}
use nurix_takehome.Persistence.Calls.Ids.{ids_unique}
use nurix_takehome.State.Machine.{TransitionResult, is_no_op, set_columns, assign, transition}
use nurix_takehome.State.Machine.Stored.{Stored, stored_lem}
use nurix_takehome.State.Machine.View.{View, raised, kept, moved, transition-View}
use nurix_takehome.Scheduler.Reclaim.{
  ReclaimOutcome, status, terminal_applied, executed, skipped_no_op, failed, confirmed,
  terminal_move, reclaim_move, reclaim_txn, caught, reclaim_one,
}

-- The call as a reclaim leaves it: queued, under a new epoch, and out of reach of the old handle.
pub record Reset (c b : Call) : Type 0 where
  pub status : b.status ≡ queued
  pub epoch : b.attempt_epoch ≡ c.attempt_epoch + 1
  pub handle : b.provider_call_id ≡ none

-- What the kind of the outcome says, where the provider confirmed `s`.
abbrev pub Told : Call → Option CallStatus → World → ReclaimOutcome → World → Type 0
Told c s v o w = elim o.kind [
  | failed ↦ w ≡ v
  | skipped_no_op ↦ w ≡ v
  | executed ↦ (s ≡ none) × ((b : Call) × (get c.id w.db ≡ some b) × Reset c b)
  | terminal_applied ↦
      (t : CallStatus) × (s ≡ some t) × ((b : Call) × (get c.id w.db ≡ some b) × (b.status ≡ t))
]

module _ (c : Call) where
  reset_result : Result (TransitionResult × Db) → Result (ReclaimOutcome × Db)
  reset_result x = elim x [
    | ok (r, d) ↦ ok (
      record {
        call_id = c.id;
        kind = if is_no_op r then skipped_no_op else executed;
        detail = none;
      },
      d,
    )
    | err e ↦ err e
  ]

  terminal_result : CallStatus → Result (TransitionResult × Db) → Result (ReclaimOutcome × Db)
  terminal_result t x = elim x [
    | ok (r, d) ↦ ok (
      record {
        call_id = c.id;
        kind = if is_no_op r then skipped_no_op else terminal_applied;
        detail = some (status t);
      },
      d,
    )
    | err e ↦ err e
  ]

module _ (c : Call) (v : World) (u : ids_unique v.db.calls ≡ true) where
  Tell : Option CallStatus → Result (ReclaimOutcome × Db) → Type 0
  Tell s r = Told c s v (caught c (settle r v).0) (settle r v).1

  Reset-row : (b : Call) → Reset c (assign (reclaim_move c) v.clock b)
  unfolding assign set_columns
  Reset-row b = record { status = refl; epoch = refl; handle = refl }

  reset-View :
      (x : Result (TransitionResult × Db))
      → View (reclaim_move c) v.clock v.db x
      → Stored (reclaim_move c) v.clock v.db u x
      → Tell none (reset_result c x)
  unfolding Tell is_no_op reset_result terminal_result
  reset-View _ (raised e) s = refl
  reset-View _ (kept r h) s = rw h refl
  reset-View _ (moved b h) s =
      let (b', _, _, g) = s refl in (refl, (assign (reclaim_move c) v.clock b', g, Reset-row b'))

  status_row : (t : CallStatus) (b : Call) → (assign (terminal_move c t) v.clock b).status ≡ t
  unfolding assign set_columns
  status_row t b = refl

  terminal-View :
      (t : CallStatus) (x : Result (TransitionResult × Db))
      → View (terminal_move c t) v.clock v.db x
      → Stored (terminal_move c t) v.clock v.db u x
      → Tell (some t) (terminal_result c t x)
  unfolding Tell is_no_op reset_result terminal_result
  terminal-View t _ (raised e) s = refl
  terminal-View t _ (kept r h) s = rw h refl
  terminal-View t _ (moved b h) s =
      let (b', _, _, g) = s refl in
      (t, refl, (assign (terminal_move c t) v.clock b', g, status_row t b'))

  told_by : (s : Option CallStatus) → Tell s (reclaim_txn s c v.clock v.db)
  unfolding reclaim_txn Tell reset_result terminal_result
  told_by none =
      reset-View (transition (reclaim_move c) v.clock v.db)
        (transition-View (reclaim_move c) v.clock v.db) (stored_lem (reclaim_move c) v.clock v.db u)
  told_by (some t) =
      terminal-View t (transition (terminal_move c t) v.clock v.db)
        (transition-View (terminal_move c t) v.clock v.db)
        (stored_lem (terminal_move c t) v.clock v.db u)

-- Whatever the provider answers and the other tasks do meanwhile, the outcome tells the truth: a
-- failed or skipped reclaim has changed nothing; an executed one, only where the provider confirmed
-- no terminal status, leaves the call queued under the next epoch and without its handle; and a
-- confirmed terminal status is the call's status.
pub reclaim_one-Told :
    (deps : Deps) (others : World → World) (c : Call) (w : World)
    → ids_unique (others w).db.calls ≡ true
    → Told c
        (confirmed deps c)
        (others w)
        (reclaim_one deps others c w).0
        (reclaim_one deps others c w).1
unfolding reclaim_one commit Tell
reclaim_one-Told deps others c w u = told_by c (others w) u (confirmed deps c)
