-- ===== src/Scheduler/Daemons.antt =====
-- The timer loops of app/scheduler/reclaim.py and app/scheduler/webhook_processor.py, for a number of
-- rounds. `asleep` is what the other tasks do, and how the clock moves, while a loop sleeps
-- with a number of rounds to go.
use nurix_takehome.Common.{ℕ, zero, suc}
use nurix_takehome.Model.Txn.{World}
use nurix_takehome.Model.Deps.{Deps}
use nurix_takehome.Scheduler.Reclaim.{stuck_reclaim_sweep}
use nurix_takehome.Scheduler.Webhook.{process_pending_inbox}

-- `others` is what happens while a reclaim asks the provider.
unfoldable pub stuck_reclaim_sweep_loop :
    Deps → (ℕ → World → World) → (ℕ → World → World) → ℕ → World → World
stuck_reclaim_sweep_loop deps others asleep zero w = w
stuck_reclaim_sweep_loop deps others asleep (suc rounds) w =
    stuck_reclaim_sweep_loop deps others asleep rounds
      (asleep rounds (stuck_reclaim_sweep deps others w).1)

unfoldable pub webhook_inbox_safety_net_loop : Deps → (ℕ → World → World) → ℕ → World → World
webhook_inbox_safety_net_loop deps asleep zero w = w
webhook_inbox_safety_net_loop deps asleep (suc rounds) w =
    webhook_inbox_safety_net_loop deps asleep rounds
      (asleep rounds (process_pending_inbox deps w).1)
