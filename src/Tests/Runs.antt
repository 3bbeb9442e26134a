-- ===== src/Tests/Runs.antt =====
-- The properties of whole runs, at a run of a delivery, a drain, a request and a tick.
use nurix_takehome.Common.{
  ◌≡◌, ◌↔◌, refl, true, none, some, [], ◌∷◌, arith, InList, ℕ, ◌+◌, ◌-◌, ◌*◌, ◌≤◌, length,
  count_where, any_row, first,
}
use nurix_takehome.Model.Status.{dialing, queued, active}
use nurix_takehome.Model.Rows.{Call, AuditRow}
use nurix_takehome.Model.Txn.{World, commit}
use nurix_takehome.Persistence.Calls
use nurix_takehome.Persistence.Calls.{phones_unique, is_guarded}
use nurix_takehome.Persistence.Calls.Ids.{ids_unique}
use nurix_takehome.State.Lifecycle.{Evolves}
use nurix_takehome.Scheduler.Tick.{tick}
use nurix_takehome.Scheduler.Tick.Stall.{alone}
use nurix_takehome.Scheduler.Webhook.{process_pending_inbox}
use nurix_takehome.Api.Ingest.{received, handle_webhook_ingest}
use nurix_takehome.System.Runs.{Run, stay, ticked, drained, ingested}
use nurix_takehome.System.Runs.Calls.{Run-phones_unique}
use nurix_takehome.System.Runs.Evolve.{Run-Evolves}
use nurix_takehome.System.Runs.Log.{Run-AuditGrows, Run-follow}
use nurix_takehome.State.Rollup.Log.{AuditGrows}
use nurix_takehome.Audit.Reader.{audit_key}
use nurix_takehome.Audit.Reader.Answers.{Wanted, follow}
use nurix_takehome.Persistence.Pages.Order.{Desc}
use nurix_takehome.Model.Json.{get}
use nurix_takehome.Persistence.Inbox.{is_unprocessed, insert}
use nurix_takehome.Scheduler.Daemons.{stuck_reclaim_sweep_loop, webhook_inbox_safety_net_loop}
use nurix_takehome.System.Runs.Deliveries.{ingest-Run}
use nurix_takehome.System.Runs.Daemons.{safety_net-Run, sweep_loop-Run}
use nurix_takehome.System.Backlog.{waiting}
use nurix_takehome.System.Backlog.Rounds.{loop_raises, safety_net-waiting}
use nurix_takehome.Tests.AuditLog.{alphabet, query}
use nurix_takehome.Tests.Samples.{
  sample_call, sample_campaign, sample_db, sample_deps, payload, world_of,
}

abbrev first_world : World
first_world = world_of (
    sample_db (sample_campaign 7 active ∷ [])
      (sample_call 1 7 "+1" dialing ∷ sample_call 2 7 "+2" queued ∷ []) [])

abbrev delivered : World
delivered = (handle_webhook_ingest true 3 "mock" (payload "e-1" "p-1" "COMPLETED") first_world).1

abbrev last_world : World
last_world = (tick sample_deps alone (process_pending_inbox sample_deps delivered).1).1

abbrev after_delivery : Run delivered last_world
after_delivery =
    ticked sample_deps alone (drained sample_deps stay) (λ u. stay) (λ u. stay) (λ u. stay)

abbrev day : Run first_world last_world
day =
    ticked sample_deps alone
      (drained sample_deps (ingested true 3 "mock" (payload "e-1" "p-1" "COMPLETED") stay))
      (λ u. stay) (λ u. stay) (λ u. stay)

day_phones : phones_unique last_world.db.calls ≡ true
unfolding phones_unique is_guarded any_row
day_phones = Run-phones_unique day refl

Run-Evolves_example :
    (c' : Call) × (Calls.get 1 last_world.db ≡ some c') × Evolves (sample_call 1 7 "+1" dialing) c'
unfolding ids_unique any_row Calls.get first
Run-Evolves_example = Run-Evolves 1 day refl refl

day_log : AuditGrows first_world.db last_world.db
day_log = Run-AuditGrows day

-- A page more than the log has rows.
abbrev pages : ℕ
pages = length last_world.db.audit + 1

day_pages :
    Desc audit_key (follow alphabet query last_world.db pages none)
    × ((r : AuditRow)
        → InList r (follow alphabet query last_world.db pages none)
          ↔ InList r last_world.db.audit × Wanted alphabet query r)
day_pages = Run-follow 1 alphabet query pages day refl refl (omega arith)

-- Two rounds of the safety net and two sweeps, after which the phone index holds.
daemons :
    (phones_unique (webhook_inbox_safety_net_loop sample_deps (λ j u. u) 2 first_world).db.calls
      ≡ true)
    × (phones_unique
          (stuck_reclaim_sweep_loop sample_deps (λ j u. u) (λ j u. u) 2 first_world).db.calls
        ≡ true)
unfolding phones_unique is_guarded any_row
daemons = (
  Run-phones_unique (safety_net-Run sample_deps (λ j u. u) (λ j u. stay) 2 first_world) refl,
  Run-phones_unique
      (sweep_loop-Run sample_deps (λ j u. u) (λ j u. stay) (λ j u. u) (λ j u. stay) 2 first_world)
      refl,
)

safety_net-waiting_example :
    waiting (webhook_inbox_safety_net_loop sample_deps (λ j u. u) 2 delivered)
    ≤ waiting delivered + loop_raises sample_deps (λ j u. u) 2 delivered - 2 * 50
safety_net-waiting_example =
    safety_net-waiting sample_deps (λ j u. u) 2 delivered (λ j u. omega arith)

one_waits : waiting delivered ≡ 1
unfolding count_where is_unprocessed handle_webhook_ingest insert first get commit
one_waits = refl

-- The event is delivered with another status after the day, when it has been processed.
ingest-Run_example :
    handle_webhook_ingest true 9 "mock" (payload "e-1" "p-1" "FAILED") last_world
    ≡ (received, last_world)
unfolding get
ingest-Run_example =
    ingest-Run first_world 3 9 "mock" "e-1" (payload "e-1" "p-1" "COMPLETED")
      (payload "e-1" "p-1" "FAILED") refl refl after_delivery
