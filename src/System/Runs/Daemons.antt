-- ===== src/System/Runs/Daemons.antt =====
-- The timer loops make runs of the service.
use nurix_takehome.Common.{ℕ, zero, suc}
use nurix_takehome.Model.Txn.{World}
use nurix_takehome.Model.Deps.{Deps}
use nurix_takehome.Scheduler.Reclaim.{stuck_reclaim_sweep}
use nurix_takehome.Scheduler.Webhook.{process_pending_inbox}
use nurix_takehome.Scheduler.Daemons.{stuck_reclaim_sweep_loop, webhook_inbox_safety_net_loop}
use nurix_takehome.System.Runs.{Run, stay, ticked, drained, swept, ingested, posted, aged, later}

Run-trans : {u v w : World} → Run u v → Run v w → Run u w
Run-trans r stay = r
Run-trans r (ticked deps others q a b c) = ticked deps others (Run-trans r q) a b c
Run-trans r (drained deps q) = drained deps (Run-trans r q)
Run-trans r (swept deps around q a) = swept deps around (Run-trans r q) a
Run-trans r (ingested verified id provider payload q) =
    ingested verified id provider payload (Run-trans r q)
Run-trans r (posted lib known py deps id draw body q f) =
    posted lib known py deps id draw body (Run-trans r q) f
Run-trans r (aged enabled i by q) = aged enabled i by (Run-trans r q)
Run-trans r (later t q) = later t (Run-trans r q)

module _ (deps : Deps) (asleep : ℕ → World → World)
    (a : (j : ℕ) (u : World) → Run u (asleep j u)) where
  -- Whatever runs while the safety net sleeps, its rounds make a run of the service.
  pub safety_net-Run :
      (rounds : ℕ) (w : World) → Run w (webhook_inbox_safety_net_loop deps asleep rounds w)
  unfolding webhook_inbox_safety_net_loop
  safety_net-Run zero w = stay
  safety_net-Run (suc rounds) w =
      let u = (process_pending_inbox deps w).1 in
      Run-trans (Run-trans (drained deps stay) (a rounds u))
        (safety_net-Run rounds (asleep rounds u))

  -- The same of the sweeps, if also what goes on while a reclaim asks the provider is a run.
  pub sweep_loop-Run :
      (others : ℕ → World → World)
      → ((j : ℕ) (u : World) → Run u (others j u))
      → (rounds : ℕ) (w : World) → Run w (stuck_reclaim_sweep_loop deps others asleep rounds w)
  unfolding stuck_reclaim_sweep_loop
  sweep_loop-Run others k zero w = stay
  sweep_loop-Run others k (suc rounds) w =
      let u = (stuck_reclaim_sweep deps others w).1 in
      Run-trans (Run-trans (swept deps others stay k) (a rounds u))
        (sweep_loop-Run others k rounds (asleep rounds u))
