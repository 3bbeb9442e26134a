-- ===== src/Scheduler/Tick.antt =====
-- `tick` and `_dispatch_one` of app/scheduler/tick.py, as tasks that wait for the database and the
-- provider. What the rest of the system does in between is given.
pub mod Stall
pub mod Conflict
pub mod Raise
use nurix_takehome.Common.{ℕ, Bool, true, false, Option, none, some}
use nurix_takehome.Model.Rows.{CampaignWithCursor, Call}
use nurix_takehome.Model.Txn.{World, Task, commit}
use nurix_takehome.Model.Task.{done, lift, await_others, ◌>>=◌, ◌>>◌}
use nurix_takehome.Model.Deps.{Deps}
use nurix_takehome.Scheduler.Config.{tick_base_seconds}
use nurix_takehome.Scheduler.Select.{select}
use nurix_takehome.Scheduler.Dispatch.{
  requeue_oldest_retry_due, claim_phase, idem_key, placed, outcome_phase,
}

pub record TickDecision : Type 0 where
  pub campaign_id : Option ℕ
  pub is_retry : Bool

-- What the other tasks, and the other replicas, do to the database while the tick waits: after the
-- pick, after the requeue, and while the provider is called.
pub record Others : Type 0 where
  pub after_pick : World → World
  pub after_requeue : World → World
  pub during_call : World → World

abbrev pub finish_dispatch : Deps → Others → CampaignWithCursor → Option Call → Task (Option ℕ)
finish_dispatch deps others campaign none = done none
finish_dispatch deps others campaign (some c) = do
  outcome ← lift (placed (deps.place_call (idem_key c) c.phone))
  await_others others.during_call
  base ← lift (tick_base_seconds deps campaign.retry_config)
  commit (outcome_phase deps campaign c base outcome)
  done (some campaign.id)

unfoldable pub dispatch_one : Deps → Others → CampaignWithCursor → Task (Option ℕ)
unfolding commit placed
dispatch_one deps others campaign = do
  claimed ← commit (claim_phase campaign)
  finish_dispatch deps others campaign claimed

abbrev pub requeue_if : Bool → ℕ → Task (Unit {0})
requeue_if true campaign = commit (requeue_oldest_retry_due campaign)
requeue_if false campaign = done tt

abbrev pub run_pick : Deps → Others → Option (CampaignWithCursor × Bool) → Task TickDecision
run_pick deps others none = done (record { campaign_id = none; is_retry = false })
run_pick deps others (some (campaign, retry)) = do
  await_others others.after_pick
  requeue_if retry campaign.id
  await_others others.after_requeue
  dispatched ← dispatch_one deps others campaign
  done (record { campaign_id = dispatched; is_retry = retry })

unfoldable pub tick : Deps → Others → Task TickDecision
unfolding commit dispatch_one
tick deps others = do picked ← commit (select deps); run_pick deps others picked
