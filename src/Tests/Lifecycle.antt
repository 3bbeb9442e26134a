-- ===== src/Tests/Lifecycle.antt =====
-- The lifecycle properties at a database with a completed call and a late event for it.
use nurix_takehome.Common.{◌≡◌, refl, true, some, [], ◌∷◌, any_row, first}
use nurix_takehome.Model.Status.{completed, dialing, active}
use nurix_takehome.Model.Rows.{Call}
use nurix_takehome.Model.Txn.{World}
use nurix_takehome.Persistence.Calls.{get, phones_unique, is_guarded}
use nurix_takehome.Persistence.Calls.Ids.{ids_unique}
use nurix_takehome.State.Lifecycle.{Evolves, Evolved-refl}
use nurix_takehome.Scheduler.Tick.{Others, tick}
use nurix_takehome.Scheduler.Webhook.{process_pending_inbox}
use nurix_takehome.Scheduler.Reclaim.{stuck_reclaim_sweep}
use nurix_takehome.System.Lifecycle.{
  tick-Evolves, process_pending_inbox-Evolves, stuck_reclaim_sweep-Evolves,
}
use nurix_takehome.System.Phones.{phones_unique-tick}
use nurix_takehome.System.Log.{audit-grows}
use nurix_takehome.State.Rollup.Log.{AuditGrows, AuditGrows-refl}
use nurix_takehome.Tests.Samples.{
  sample_call, sample_campaign, sample_db, sample_deps, world_of, inbox_row, payload,
}

abbrev late : World
late = world_of (
    sample_db (sample_campaign 7 active ∷ [])
      (sample_call 1 7 "+1" completed ∷ sample_call 2 7 "+2" dialing ∷ [])
      (inbox_row 5 (payload "e-1" "p-1" "IN_PROGRESS") ∷ []))

abbrev idle : Others
idle = record { after_pick = λ w. w; after_requeue = λ w. w; during_call = λ w. w }

ticked_call :
    (c' : Call) × (get 1 (tick sample_deps idle late).1.db ≡ some c')
    × Evolves (sample_call 1 7 "+1" completed) c'
unfolding get ids_unique any_row first
ticked_call =
    tick-Evolves sample_deps idle late 1
      (record {
        after_pick = λ w u. (u, Evolved-refl w.db.calls);
        after_requeue = λ w u. (u, Evolved-refl w.db.calls);
        during_call = λ w u. (u, Evolved-refl w.db.calls);
      })
      refl refl

late_event :
    (c' : Call) × (get 1 (process_pending_inbox sample_deps late).1.db ≡ some c')
    × Evolves (sample_call 1 7 "+1" completed) c'
unfolding get ids_unique any_row first
late_event = process_pending_inbox-Evolves sample_deps late 1 refl refl

late_sweep :
    (c' : Call) × (get 1 (stuck_reclaim_sweep sample_deps (λ j w. w) late).1.db ≡ some c')
    × Evolves (sample_call 1 7 "+1" completed) c'
unfolding get ids_unique any_row first
late_sweep =
    stuck_reclaim_sweep-Evolves sample_deps (λ j w. w) late 1
      (λ j v u. (u, Evolved-refl v.db.calls)) refl refl

late_log :
    AuditGrows late.db (tick sample_deps idle late).1.db
    × AuditGrows late.db (process_pending_inbox sample_deps late).1.db
late_log = audit-grows sample_deps idle late (record {
  after_pick = λ w. AuditGrows-refl w.db;
  after_requeue = λ w. AuditGrows-refl w.db;
  during_call = λ w. AuditGrows-refl w.db;
})

late_phones :
    (phones_unique (tick sample_deps idle late).1.db.calls ≡ true)
    × (phones_unique (process_pending_inbox sample_deps late).1.db.calls ≡ true)
    × (phones_unique (stuck_reclaim_sweep sample_deps (λ j w. w) late).1.db.calls ≡ true)
unfolding phones_unique is_guarded any_row
late_phones =
    phones_unique-tick sample_deps idle (λ j w. w) late
      (record { after_pick = λ w u. u; after_requeue = λ w u. u; during_call = λ w u. u })
      (λ j v u. u) refl
