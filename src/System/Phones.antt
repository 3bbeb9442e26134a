-- ===== src/System/Phones.antt =====
-- The partial unique index on the phones of live calls, over every task.
use nurix_takehome.Common.{ℕ, ◌≡◌, true, update_where, Option-cases, Bool-cases, inl, inr}
use nurix_takehome.Model.Rows.{Db}
use nurix_takehome.Model.Txn.{Result, World, after}
use nurix_takehome.Model.Deps.{Deps}
use nurix_takehome.Audit.{emit_audit}
use nurix_takehome.Persistence.Calls.{
  phones_unique, has_id, claim, oldest, is_claimable, claim_next_queued,
}
use nurix_takehome.Persistence.Calls.Updates.{update_calls-eq-ok, update_calls-eq-err}
use nurix_takehome.Persistence.Cursors.{update_last_dispatch_at}
use nurix_takehome.Persistence.Inbox.{mark_processed}
use nurix_takehome.State.Machine.{Move, TransitionResult, assign, transition}
use nurix_takehome.State.Machine.Effects.{calls-settled, table_after}
use nurix_takehome.State.Machine.View.{View, raised, kept, moved, transition-View}
use nurix_takehome.State.Rollup.Frame.{promote-eq-ok, calls-promoted}
use nurix_takehome.Scheduler.Tick.{Others, tick}
use nurix_takehome.Scheduler.Webhook.{process_pending_inbox}
use nurix_takehome.Scheduler.Reclaim.{stuck_reclaim_sweep}
use nurix_takehome.System.Primitives.{Primitives}
use nurix_takehome.System.Tasks.{OthersKeep, tick_keeps, inbox_keeps, sweep_keeps}

abbrev pub PhonesKept : Db → Db → Type 0
PhonesKept d d' = phones_unique d.calls ≡ true → phones_unique d'.calls ≡ true

move-View :
    (m : Move) (now : ℕ) (d : Db) (r : Result (TransitionResult × Db))
    → View m now d r
    → PhonesKept d (after r d)
move-View m now d _ (raised e) u = u
move-View m now d _ (kept r h) u = u
move-View m now d _ (moved c h) u =
    rw (calls-settled m now (assign m now c) (record d { calls = table_after m now d })) h.fits

claim_phones : (i now : ℕ) (d : Db) → PhonesKept d (after (claim_next_queued i now d) d)
unfolding claim_next_queued
claim_phones i now d u = elim (Option-cases (oldest (is_claimable i now) d.calls)) [
  | inl e ↦ rw e u
  | inr (c, e) ↦
      rw e (elim (Bool-cases (phones_unique (update_where (has_id c.id) (claim now) d.calls))) [
        | inl v ↦ rw (update_calls-eq-ok (has_id c.id) claim now d v) v
        | inr v ↦ rw (update_calls-eq-err (has_id c.id) claim now d v) u
      ])
]

pub phones_kept : Primitives PhonesKept
unfolding emit_audit update_last_dispatch_at mark_processed
phones_kept = record {
  order = record { reflexive = λ d u. u; transitive = λ a b c h k u. k (h u) };
  audit = λ e. record { at = λ now d u. u };
  move = λ m a. record {
    at = λ now d. move-View m now d (transition m now d) (transition-View m now d);
  };
  claim = λ i. record { at = claim_phones i };
  promote =
      λ i. record { at = λ now d u. rw (promote-eq-ok i now d) (rw (calls-promoted i now d) u) };
  cursor = λ i ts. record { at = λ now d u. u };
  mark = λ i. record { at = λ now d u. u };
}

-- If no phone stands in two queued, dialing or connected calls, then that is so after a tick, after
-- a drain of the inbox and after a reclaim sweep, if the other tasks keep it too.
pub phones_unique-tick :
    (deps : Deps) (others : Others) (around : ℕ → World → World) (w : World)
    → OthersKeep PhonesKept others
    → ((j : ℕ) (v : World) → PhonesKept v.db (around j v).db)
    → phones_unique w.db.calls ≡ true
    → (phones_unique (tick deps others w).1.db.calls ≡ true)
      × (phones_unique (process_pending_inbox deps w).1.db.calls ≡ true)
      × (phones_unique (stuck_reclaim_sweep deps around w).1.db.calls ≡ true)
phones_unique-tick deps others around w k l u = (
  (tick_keeps phones_kept deps others k).at w u,
  inbox_keeps phones_kept deps w u,
  sweep_keeps phones_kept deps around l w u,
)
