-- ===== src/System/Tasks.antt =====
-- A relation that the primitives keep, and that the rest of the system keeps meanwhile, holds
-- between the database before a whole task and after it.
use nurix_takehome.Common.{
  ℕ, zero, suc, ◌≡◌, sym, subst, arith, Bool, true, false, Option, none, some, List, [], ◌∷◌,
  any_row, Bool-cases, inl, inr,
}
use nurix_takehome.Model.Rows.{Call, CampaignWithCursor, Db}
use nurix_takehome.Model.Txn.{World, commit}
use nurix_takehome.Model.Task.{lift, await_others}
use nurix_takehome.Model.Keeps.{
  KeepsTask, KeepsTask-done, KeepsTask-lift, KeepsTask-commit, KeepsTask-bind, KeepsTask-await,
}
use nurix_takehome.Model.Deps.{Deps}
use nurix_takehome.Scheduler.Config.{tick_base_seconds}
use nurix_takehome.Scheduler.Select.{select}
use nurix_takehome.Scheduler.Dispatch.{claim_phase, idem_key, placed, outcome_phase}
use nurix_takehome.Scheduler.Tick.{
  Others, finish_dispatch, dispatch_one, requeue_if, run_pick, tick,
}
use nurix_takehome.Model.Deps.{stuck_reclaim_seconds}
use nurix_takehome.Persistence.Calls.{find_stuck_dialing}
use nurix_takehome.Scheduler.Reclaim.{
  confirmed, reclaim_one, reclaim_rows, frees_capacity, notify, stuck_reclaim_sweep,
}
use nurix_takehome.Scheduler.Webhook.{
  RowOutcome, Drain, after_row, is_empty, row_txn, process_one_row, drain, process_pending_inbox,
}
use nurix_takehome.System.Rows.{row_keeps, reclaim_keeps}
use nurix_takehome.System.Primitives.{
  Primitives, select_keeps, requeue_keeps, claim_phase_keeps, outcome_phase_keeps,
}

db-notify : (b : Bool) (w : World) → (notify b w).db ≡ w.db
unfolding notify
db-notify b w = ground arith

world-after_row : (o : RowOutcome) (d : Drain) → (after_row o d).world ≡ d.world
world-after_row o d = ground arith

-- The other tasks keep the relation, wherever they run.
pub record OthersKeep (R : Db → Db → Type 0) (others : Others) : Type 0 where
  pub after_pick : (w : World) → R w.db (others.after_pick w).db
  pub after_requeue : (w : World) → R w.db (others.after_requeue w).db
  pub during_call : (w : World) → R w.db (others.during_call w).db

module _ {R : Db → Db → Type 0} (p : Primitives R) (deps : Deps) (others : Others)
    (k : OthersKeep R others) where
  finish_keeps :
      (c : CampaignWithCursor) (o : Option Call) → KeepsTask R (finish_dispatch deps others c o)
  finish_keeps c none = KeepsTask-done p.order none
  finish_keeps c (some x) =
      KeepsTask-bind p.order (lift (placed (deps.place_call (idem_key x) x.phone))) _
        (KeepsTask-lift p.order _)
        (λ outcome.
          KeepsTask-bind p.order (await_others others.during_call) _
            (KeepsTask-await _ k.during_call)
            (λ _.
              KeepsTask-bind p.order (lift (tick_base_seconds deps c.retry_config)) _
                (KeepsTask-lift p.order _)
                (λ base.
                  KeepsTask-bind p.order (commit (outcome_phase deps c x base outcome)) _
                    (KeepsTask-commit p.order _ (outcome_phase_keeps p deps c x base outcome))
                    (λ _. KeepsTask-done p.order (some c.id)))))

  dispatch_keeps : (c : CampaignWithCursor) → KeepsTask R (dispatch_one deps others c)
  unfolding dispatch_one
  dispatch_keeps c =
      KeepsTask-bind p.order (commit (claim_phase c)) (finish_dispatch deps others c)
        (KeepsTask-commit p.order _ (claim_phase_keeps p c)) (finish_keeps c)

  requeue_if_keeps : (b : Bool) (i : ℕ) → KeepsTask R (requeue_if b i)
  requeue_if_keeps true i = KeepsTask-commit p.order _ (requeue_keeps p i)
  requeue_if_keeps false i = KeepsTask-done p.order tt

  run_keeps : (o : Option (CampaignWithCursor × Bool)) → KeepsTask R (run_pick deps others o)
  run_keeps none = KeepsTask-done p.order _
  run_keeps (some (c, b)) =
      KeepsTask-bind p.order (await_others others.after_pick) _ (KeepsTask-await _ k.after_pick)
        (λ _. KeepsTask-bind p.order (requeue_if b c.id) _ (requeue_if_keeps b c.id) (λ _.
          KeepsTask-bind p.order (await_others others.after_requeue) _
            (KeepsTask-await _ k.after_requeue)
            (λ _.
              KeepsTask-bind p.order (dispatch_one deps others c) _ (dispatch_keeps c)
                (λ r. KeepsTask-done p.order (record { campaign_id = r; is_retry = b })))))

  pub tick_keeps : KeepsTask R (tick deps others)
  unfolding tick
  tick_keeps =
      KeepsTask-bind p.order (commit (select deps)) (run_pick deps others)
        (KeepsTask-commit p.order _ (select_keeps p deps)) run_keeps

module _ {R : Db → Db → Type 0} (p : Primitives R) (deps : Deps) where
  one_row_keeps : (w : World) → R w.db (process_one_row deps w).1.db
  unfolding process_one_row
  one_row_keeps w = (KeepsTask-commit p.order (row_txn deps) (row_keeps p deps)).at w

  drain_keeps : (n : ℕ) (w : World) → R w.db (drain deps n w).world.db
  unfolding drain
  drain_keeps zero w = p.order.reflexive w.db
  drain_keeps (suc n) w = elim (Bool-cases (is_empty (process_one_row deps w).0)) [
    | inl e ↦ rw e (one_row_keeps w)
    | inr e ↦ rw e (
        subst (λ z. R w.db z.db)
          (sym
            (world-after_row (process_one_row deps w).0 (drain deps n (process_one_row deps w).1)))
          (p.order.transitive w.db _ _ (one_row_keeps w)
            (drain_keeps n (process_one_row deps w).1)))
  ]

  pub inbox_keeps : (w : World) → R w.db (process_pending_inbox deps w).1.db
  unfolding process_pending_inbox
  inbox_keeps w =
      subst (R w.db)
        (sym (db-notify (drain deps deps.settings.webhook_processor_batch_max w).applied_any _))
        (drain_keeps deps.settings.webhook_processor_batch_max w)

  module _ (others : ℕ → World → World) (k : (i : ℕ) (w : World) → R w.db (others i w).db) where
    reclaim_one_keeps : (c : Call) (w : World) → R w.db (reclaim_one deps (others c.id) c w).1.db
    unfolding reclaim_one
    reclaim_one_keeps c w =
        p.order.transitive w.db (others c.id w).db _ (k c.id w)
          ((KeepsTask-commit p.order _ (reclaim_keeps p (confirmed deps c) c)).at (others c.id w))

    rows_keep : (cs : List Call) (w : World) → R w.db (reclaim_rows deps others cs w).1.db
    unfolding reclaim_rows
    rows_keep [] w = p.order.reflexive w.db
    rows_keep (c ∷ cs) w =
        p.order.transitive w.db (reclaim_one deps (others c.id) c w).1.db _ (reclaim_one_keeps c w)
          (rows_keep cs (reclaim_one deps (others c.id) c w).1)

    pub sweep_keeps : (w : World) → R w.db (stuck_reclaim_sweep deps others w).1.db
    unfolding stuck_reclaim_sweep
    sweep_keeps w =
        let rows = find_stuck_dialing (stuck_reclaim_seconds deps.settings) w.clock w.db in
        subst (R w.db)
          (sym (
            db-notify (any_row frees_capacity (reclaim_rows deps others rows w).0)
              (reclaim_rows deps others rows w).1))
          (rows_keep rows w)
