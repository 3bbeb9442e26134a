-- ===== src/Tests/Scheduling.antt =====
-- The properties of the scheduler, each at a concrete world.
use nurix_takehome.Common.{
  ℕ, String, ◌≡◌, ◌<◌, ◌↔◌, ◌⊎◌, refl, inl, true, false, none, some, [], ◌∷◌, any_row, rows_where,
  count_where, update_where,
}
use nurix_takehome.Model.Status.{
  queued, dialing, retry_pending, active, status_eq, campaign_status_eq,
}
use nurix_takehome.Model.Json
use nurix_takehome.Model.Json.{Fields, end, field, str, arr, obj, cons, nil}
use nurix_takehome.Model.Rows.{Call, CampaignWithCursor}
use nurix_takehome.Model.Txn.{World, ok, err, Error, key_error}
use nurix_takehome.Persistence.Calls.{
  oldest, is_claimable, phones_unique, is_guarded, find_retry_due_campaign_ids, is_retry_due,
  is_among, in_flight_counts_by_campaign, in_flight_count, count_of, is_in_flight,
}
use nurix_takehome.Persistence.Calls.Ids.{ids_unique}
use nurix_takehome.Persistence.Campaigns.{
  list_eligible_for_tick, is_eligible, is_open, is_dispatchable, cursor_of,
}
use nurix_takehome.Persistence.Inbox.{oldest_unprocessed, is_unprocessed}
use nurix_takehome.Provider.{parse_event, payload_item}
use nurix_takehome.State.Machine.{meets, assign, set_columns}
use nurix_takehome.Scheduler.Hours.{
  is_in_window, day_key, parse_day_windows, parse_windows, parse_window, item, iso_time, covers,
  any_open,
}
use nurix_takehome.Model.Time.{before, at_most, naive}
use nurix_takehome.Scheduler.Tick.Raise.{tick-aware_window}
use nurix_takehome.Scheduler.Hours.Windows.{Covered, is_in_window-Covered}
use nurix_takehome.Scheduler.Select.{
  select, split_hours, gate, skip_hours, rr_before, rr_min, rr_sorted, rr_insert, pick,
}
use nurix_takehome.Scheduler.Select.Gates.{SameTables}
use nurix_takehome.Scheduler.Select.Sound.{Picked, select-Picked}
use nurix_takehome.Scheduler.Dispatch.{is_requeueable}
use nurix_takehome.Scheduler.Tick.{tick}
use nurix_takehome.Scheduler.Tick.Stall.{alone, ticks, ticks-Stalled}
use nurix_takehome.Scheduler.Tick.Conflict.{ticks-Blocked}
use nurix_takehome.Scheduler.Webhook.{process_pending_inbox}
use nurix_takehome.Scheduler.Webhook.Progress.{
  process_pending_inbox-poisoned, process_pending_inbox-drains,
}
use nurix_takehome.Scheduler.Reclaim.{reclaim_one, confirmed}
use nurix_takehome.Scheduler.Reclaim.Outcomes.{Told, reclaim_one-Told}
use nurix_takehome.System.Cap.Bound.{Capped, tick-Capped}
use nurix_takehome.Tests.Samples.{
  sample_call, sample_campaign, sample_db, sample_deps, sample_platform, weekdays, world_of,
  inbox_row, payload,
}

abbrev waiting : ℕ → ℕ → String → ℕ → Call
waiting i campaign phone due = record (sample_call i campaign phone retry_pending) {
  next_attempt_at = some due;
}

-- Campaign 7 waits for a retry that is not due; campaign 8 has a call to make.
abbrev starving : World
starving = world_of (
    sample_db (sample_campaign 7 active ∷ sample_campaign 8 active ∷ [])
      (waiting 1 7 "+1" 5000 ∷ sample_call 2 8 "+2" queued ∷ []) [])

abbrev seven : CampaignWithCursor
seven = record { campaign = sample_campaign 7 active; last_dispatch_at = none }

abbrev eight : CampaignWithCursor
eight = record { campaign = sample_campaign 8 active; last_dispatch_at = none }

ticks-Stalled_example : SameTables starving.db (ticks sample_deps (1000 ∷ 2000 ∷ []) starving).db
unfolding split_hours is_in_window day_key parse_day_windows parse_windows parse_window item
    iso_time before covers at_most any_open Json.get list_eligible_for_tick is_eligible is_open
    is_dispatchable cursor_of rows_where any_row status_eq campaign_status_eq pick
    find_retry_due_campaign_ids is_retry_due is_among in_flight_counts_by_campaign in_flight_count
    count_where count_of is_in_flight rr_before rr_min rr_sorted rr_insert oldest is_claimable
ticks-Stalled_example = ticks-Stalled sample_deps seven (1000 ∷ 2000 ∷ []) starving (
  record {
    in_hours = seven ∷ eight ∷ [];
    out_of_hours = [];
    split = refl;
    fresh = refl;
    drained = refl;
  },
  (
    record {
      in_hours = seven ∷ eight ∷ [];
      out_of_hours = [];
      split = refl;
      fresh = refl;
      drained = refl;
    },
    tt,
  ),
)

-- The due retry of campaign 7 has the phone of a call of campaign 8.
abbrev clashing : World
clashing = world_of (
    sample_db (sample_campaign 7 active ∷ sample_campaign 8 active ∷ [])
      (waiting 1 7 "+1" 500 ∷ sample_call 2 8 "+1" queued ∷ []) [])

ticks-Blocked_example : SameTables clashing.db (ticks sample_deps (1000 ∷ []) clashing).db
unfolding split_hours is_in_window day_key parse_day_windows parse_windows parse_window item
    iso_time before covers at_most any_open Json.get list_eligible_for_tick is_eligible is_open
    is_dispatchable cursor_of rows_where any_row status_eq campaign_status_eq pick
    find_retry_due_campaign_ids is_retry_due is_among in_flight_counts_by_campaign in_flight_count
    count_where count_of is_in_flight rr_before rr_min rr_sorted rr_insert oldest is_requeueable
    meets assign set_columns update_where phones_unique is_guarded
ticks-Blocked_example =
    ticks-Blocked sample_deps seven (waiting 1 7 "+1" 500) (1000 ∷ []) clashing (
      record {
        in_hours = seven ∷ eight ∷ [];
        out_of_hours = [];
        split = refl;
        retry = refl;
        due = refl;
        clash = refl;
      },
      tt,
    )

abbrev fresh : World
fresh = world_of (sample_db (sample_campaign 7 active ∷ []) (sample_call 1 7 "+1" queued ∷ []) [])

select-Picked_example : Picked sample_deps 1000 fresh.db seven false × SameTables fresh.db fresh.db
unfolding select gate skip_hours split_hours is_in_window day_key parse_day_windows parse_windows
    parse_window item iso_time before covers at_most any_open Json.get list_eligible_for_tick
    is_eligible is_open is_dispatchable cursor_of rows_where any_row status_eq campaign_status_eq
    pick find_retry_due_campaign_ids is_retry_due is_among in_flight_counts_by_campaign
    in_flight_count count_where count_of is_in_flight rr_before rr_min rr_sorted rr_insert
select-Picked_example = select-Picked sample_deps 1000 fresh.db refl

tick-Capped_example : Capped fresh.db 7 (tick sample_deps alone fresh).1.db
unfolding ids_unique any_row
tick-Capped_example = tick-Capped sample_deps 7 fresh refl

-- A delivery without a handle, before one that is in order.
abbrev jammed : World
jammed = world_of (
    sample_db (sample_campaign 7 active ∷ []) (sample_call 1 7 "+1" dialing ∷ []) (
      inbox_row 5 (field "provider_event_id" (str "e-0") end)
      ∷ inbox_row 6 (payload "e-1" "p-1" "COMPLETED")
      ∷ []))

process_pending_inbox-poisoned_example : process_pending_inbox sample_deps jammed ≡ (50, jammed)
unfolding oldest_unprocessed is_unprocessed parse_event payload_item Json.get
process_pending_inbox-poisoned_example = process_pending_inbox-poisoned sample_deps jammed (record {
  row = inbox_row 5 (field "provider_event_id" (str "e-0") end);
  oldest = refl;
  reason = key_error;
  unparsed = refl;
})

drained_inbox :
    ((process_pending_inbox sample_deps jammed).0 ≡ 50)
    ⊎ ((process_pending_inbox sample_deps jammed).0 < 50)
      × (oldest_unprocessed (process_pending_inbox sample_deps jammed).1.db.inbox ≡ none)
drained_inbox = process_pending_inbox-drains sample_deps jammed

reclaim_one-Told_example :
    Told
      (sample_call 1 7 "+1" dialing)
      (confirmed sample_deps (sample_call 1 7 "+1" dialing))
      jammed
      (reclaim_one sample_deps (λ w. w) (sample_call 1 7 "+1" dialing) jammed).0
      (reclaim_one sample_deps (λ w. w) (sample_call 1 7 "+1" dialing) jammed).1
unfolding ids_unique any_row
reclaim_one-Told_example =
    reclaim_one-Told sample_deps (λ w. w) (sample_call 1 7 "+1" dialing) jammed refl

is_in_window-Covered_example :
    (is_in_window sample_platform weekdays "UTC" 1000 ≡ ok true)
    ↔ Covered 10 (record { start = naive 9; end = naive 17 } ∷ [])
unfolding day_key parse_day_windows parse_windows parse_window item iso_time before Json.get
is_in_window-Covered_example =
    is_in_window-Covered sample_platform weekdays "UTC" 1000 {day = 0} {t = 10} refl refl
      ((refl, refl), tt)

abbrev utc_hours : Fields
utc_hours =
    field "mon"
      (arr (cons (obj (field "start" (str "09:00Z") (field "end" (str "17:00Z") end))) nil)) end

abbrev offset_world : World
offset_world = world_of (
    sample_db (record (sample_campaign 7 active) { schedule = utc_hours } ∷ [])
      (sample_call 1 7 "+1" queued ∷ []) [])

tick-aware_window_example :
    (y : Error) × (tick sample_deps alone offset_world ≡ (err y, offset_world))
unfolding day_key parse_day_windows parse_windows parse_window item iso_time before Json.get
    list_eligible_for_tick is_eligible is_open is_dispatchable cursor_of rows_where any_row
    status_eq campaign_status_eq
tick-aware_window_example =
    tick-aware_window sample_deps alone offset_world
      (record {
        campaign = record (sample_campaign 7 active) { schedule = utc_hours };
        last_dispatch_at = none;
      })
      {day = 0} {t = 10} (inl refl) refl refl refl
