-- ===== src/Tests/Moves.antt =====
-- The properties of moves, retries, rollups and the tables, each at a concrete database.
use nurix_takehome.Common.{
  ℕ, ◌⊎◌, false, true, ◌≡◌, ◌≤◌, ◌<◌, ◌+◌, ◌*◌, ◌^◌, ◌-◌, refl, some, [], ◌∷◌, arith, any_row,
  first, InList, inl, count_where, update_where, ltb, if◌then◌else◌,
}
use nurix_takehome.Model.Status.{
  dialing, completed, in_progress, queued, active, no_answer, is_terminal, status_eq,
  campaign_status_eq, transition,
}
use nurix_takehome.Model.Json.{str, txt}
use nurix_takehome.Model.Rows.{Call, Db}
use nurix_takehome.Model.Txn.{ok, err, non_terminal_outcome}
use nurix_takehome.Persistence.Calls.{
  get, is_claimable, claim_next_queued, oldest, phones_unique, is_guarded, store_calls,
  update_calls, count_active_by_campaign, is_active, claim,
}
use nurix_takehome.Persistence.Calls.Ids.{ids_unique}
use nurix_takehome.Persistence.Calls.Claim.{ClaimOf, claim_next_queued-ClaimOf}
use nurix_takehome.Persistence.Campaigns.{stats}
use nurix_takehome.Persistence.Campaigns.Stats.{stats-partition}
use nurix_takehome.Persistence.Inbox.{insert}
use nurix_takehome.Persistence.Inbox.Dedupe.{insert-insert}
use nurix_takehome.State.Machine
use nurix_takehome.State.Machine.{
  Move, TransitionResult, applied_to, assign, meets, set_columns, is_regression, is_unauthorized,
}
use nurix_takehome.State.Machine.Effects.{settled, transition-hit}
use nurix_takehome.State.Machine.Log.{Logged, transition-Logged}
use nurix_takehome.State.Machine.Close.{transition-NotStranded}
use nurix_takehome.State.Machine.Stored.{MovedRow, transition-MovedRow}
use nurix_takehome.State.Retry.{Outcome, jitter_of, compute_backoff, apply_retryable_outcome}
use nurix_takehome.State.Retry.Backoff.{compute_backoff-grows}
use nurix_takehome.State.Retry.Budget.{IsPolicy, apply_retryable_outcome-IsPolicy}
use nurix_takehome.State.Rollup.Frame.{rolled}
use nurix_takehome.State.Rollup.Close.{closed, rolled-campaigns}
use nurix_takehome.Scheduler.Dispatch.{plain_move}
use nurix_takehome.Model.Deps.{ProviderEvent}
use nurix_takehome.Scheduler.Webhook.{intermediate_move, apply_event}
use nurix_takehome.Scheduler.Webhook.Events.{written, apply_event-get}
use nurix_takehome.Tests.Samples.{sample_deps, sample_call, sample_campaign, sample_db, payload}

-- Two calls of an active campaign: one in progress, one queued.
abbrev two_calls : Db
two_calls =
    sample_db (sample_campaign 7 active ∷ [])
      (sample_call 1 7 "+1" in_progress ∷ sample_call 2 7 "+2" queued ∷ []) []

abbrev finish : Move
finish =
    plain_move (sample_call 1 7 "+1" in_progress) in_progress completed transition (txt "done" ∷ [])

abbrev finished : Call
finished = record (sample_call 1 7 "+1" in_progress) { status = completed; updated_at = 50 }

finish-hits :
    Machine.transition finish 50 two_calls
    ≡ ok (
      applied_to finished,
      settled finish 50 finished
          (record two_calls { calls = finished ∷ sample_call 2 7 "+2" queued ∷ [] }),
    )
unfolding meets assign set_columns is_regression is_unauthorized is_terminal status_eq any_row first
    update_where phones_unique is_guarded
finish-hits =
    transition-hit finish 50 two_calls {c = sample_call 1 7 "+1" in_progress} refl refl refl refl

transition-Logged_example : Logged finish 50 two_calls (applied_to finished) (
    settled finish 50 finished
      (record two_calls { calls = finished ∷ sample_call 2 7 "+2" queued ∷ [] }))
transition-Logged_example = transition-Logged finish 50 two_calls finish-hits

transition-MovedRow_example :
    MovedRow finish 50 two_calls
      (settled finish 50 finished
        (record two_calls { calls = finished ∷ sample_call 2 7 "+2" queued ∷ [] }))
      (applied_to finished)
unfolding ids_unique any_row
transition-MovedRow_example = transition-MovedRow finish 50 two_calls refl finish-hits refl

stays_open :
    InList
      (sample_campaign 7 active)
      (settled finish 50 finished
        (record two_calls { calls = finished ∷ sample_call 2 7 "+2" queued ∷ [] })).campaigns
unfolding settled rolled is_terminal count_where is_active count_active_by_campaign
stays_open = inl refl

transition-NotStranded_example :
    0
    < count_active_by_campaign 7 (
        settled finish 50 finished
          (record two_calls { calls = finished ∷ sample_call 2 7 "+2" queued ∷ [] }))
unfolding is_terminal campaign_status_eq
transition-NotStranded_example =
    transition-NotStranded finish 50 two_calls {row = finished} (sample_campaign 7 active) refl
      finish-hits refl refl stays_open refl

abbrev missed : Outcome
missed = record {
  call_id = 1;
  expected_status = in_progress;
  expected_epoch = 1;
  retries_remaining = 2;
  outcome = no_answer;
  backoff_base_seconds = 30;
  reason_prefix = "webhook";
  uniform = 200000;
}

apply_retryable_outcome-IsPolicy_example :
    ((is_terminal no_answer ≡ false)
      × (apply_retryable_outcome missed 50 two_calls ≡ err non_terminal_outcome))
    ⊎ ((is_terminal no_answer ≡ true)
        × ((m : Move) × IsPolicy missed 50 m
            × (apply_retryable_outcome missed 50 two_calls ≡ Machine.transition m 50 two_calls)))
apply_retryable_outcome-IsPolicy_example = apply_retryable_outcome-IsPolicy missed 50 two_calls

compute_backoff-grows_example :
    (30 * 2 ^ (3 - 1) * 800000 ≤ compute_backoff 3 30 0)
    × (compute_backoff 3 30 0 ≤ 30 * 2 ^ (3 - 1) * 1200000)
    × (4 * compute_backoff 3 30 0 ≤ 3 * compute_backoff (3 + 1) 30 400000)
    × (compute_backoff (3 + 1) 30 400000 ≤ 3 * compute_backoff 3 30 0)
compute_backoff-grows_example = compute_backoff-grows 3 30 0 400000 (omega arith)

first_wait : compute_backoff 1 30 200000 ≡ 30000000
unfolding compute_backoff jitter_of
first_wait = refl

rolled-campaigns_example : (rolled 7 50 two_calls).campaigns ≡ (
    if ltb 0 (count_active_by_campaign 7 two_calls)
    then two_calls.campaigns
    else closed 7 50 two_calls)
rolled-campaigns_example = rolled-campaigns 7 50 two_calls

stats-partition_example :
    (stats 7 two_calls).completed + (stats 7 two_calls).failed + (stats 7 two_calls).in_progress
    ≡ (stats 7 two_calls).total
stats-partition_example = stats-partition 7 two_calls

second_delivery :
    (k : ℕ) × (d' : Db) × (insert 3 "mock" "e-1" (payload "e-1" "p-1" "COMPLETED") 50 two_calls
      ≡ ok (k, d'))
    × (insert 4 "mock" "e-1" (payload "e-1" "p-1" "FAILED") 60 d' ≡ ok (k, d'))
second_delivery =
    insert-insert 3 4 "mock" "e-1" (payload "e-1" "p-1" "COMPLETED") (payload "e-1" "p-1" "FAILED")
      50 60 two_calls

abbrev claimed_two : Call
claimed_two = claim 50 (sample_call 2 7 "+2" queued)

claim_next_queued-ClaimOf_example :
    ClaimOf 7 50 two_calls
      (record two_calls { calls = sample_call 1 7 "+1" in_progress ∷ claimed_two ∷ [] })
      claimed_two
unfolding ids_unique any_row claim_next_queued oldest is_claimable status_eq update_calls
    store_calls first update_where phones_unique is_guarded
claim_next_queued-ClaimOf_example = claim_next_queued-ClaimOf 7 50 two_calls refl refl

-- A late event that reports the call as dialing, after it was in progress.
abbrev late_event : ProviderEvent
late_event = record {
  provider_event_id = str "e-2";
  provider_call_id = str "p-1";
  status_enum = dialing;
}

apply_event-get_example :
    (d' : Db) × (apply_event sample_deps (sample_call 1 7 "+1" in_progress) late_event 50 two_calls
      ≡ ok (applied_to (written late_event 50 (sample_call 1 7 "+1" in_progress)), d'))
    × (get 1 d' ≡ some (written late_event 50 (sample_call 1 7 "+1" in_progress)))
unfolding ids_unique any_row is_terminal phones_unique is_guarded update_where meets
    intermediate_move assign set_columns status_eq
apply_event-get_example =
    apply_event-get sample_deps (sample_call 1 7 "+1" in_progress) late_event 50 two_calls refl
      (inl refl) refl refl refl
