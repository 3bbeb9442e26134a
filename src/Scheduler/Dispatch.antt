-- ===== src/Scheduler/Dispatch.antt =====
-- Step 5 of `tick` in app/scheduler/tick.py: `_requeue_oldest_retry_due` and the three phases of
-- `_dispatch_one`.
use nurix_takehome.Common.{
  ℕ, ◌+◌, ◌-◌, Bool, true, false, ◌&&◌, Option, none, some, [], ◌∷◌, leb, ltb, ◌==◌, if◌then◌else◌,
}
use nurix_takehome.Model.Status.{
  CallStatus, EventType, queued, dialing, retry_pending, failed, pending, claimed, dispatch,
  transition, retry_due, status_eq, campaign_status_eq,
}
use nurix_takehome.Model.Json.{Json, null, num, str, stamp, end, field, Text, txt}
use nurix_takehome.Model.Rows.{CampaignWithCursor, Call}
use nurix_takehome.Model.Txn.{Result, ok, err, provider_error, Txn, pure, gets, ◌>>=◌, ◌>>◌}
use nurix_takehome.Model.Deps.{Deps, PlaceOutcome, accepted, rejected, crashed, IdempotencyKey}
use nurix_takehome.Audit.{audit_event, emit_audit}
use nurix_takehome.Persistence.Calls.{
  oldest, claim_next_queued, count_retries_due_system, in_flight_count,
}
use nurix_takehome.Persistence.Cursors.{get_last_dispatch_at, update_last_dispatch_at}
use nurix_takehome.State.Machine
use nurix_takehome.State.Machine.{
  Move, TransitionResult, set_provider_call_id, set_next_attempt_at, set_retries_remaining,
}
use nurix_takehome.State.Retry.{compute_backoff}
use nurix_takehome.State.Rollup.{maybe_promote_to_active}

-- `next_attempt_at IS NOT NULL AND next_attempt_at <= NOW()`
abbrev pub is_past : ℕ → Option ℕ → Bool
is_past now none = false
is_past now (some t) = leb t now

unfoldable pub is_requeueable : ℕ → ℕ → Call → Bool
is_requeueable campaign now c =
    c.campaign_id == campaign && (status_eq c.status retry_pending && is_past now c.next_attempt_at)

-- A move that keeps the epoch and the columns, with no extra.
abbrev pub plain_move : Call → CallStatus → CallStatus → EventType → Text → Move
plain_move c expected new event reason = record {
  call_id = c.id;
  expected_status = expected;
  new_status = new;
  expected_epoch = c.attempt_epoch;
  new_epoch = none;
  event_type = event;
  reason = reason;
  extra = end;
  column_updates = [];
}

abbrev pub requeue_move : Call → Move
requeue_move c =
    plain_move c retry_pending queued retry_due
      (txt "backoff elapsed; requeueing for dispatch" ∷ [])

abbrev pub requeue_row : Option Call → Txn (Unit {0})
requeue_row none = pure tt
requeue_row (some c) = do result ← Machine.transition (requeue_move c); pure tt

unfoldable pub requeue_oldest_retry_due : ℕ → Txn (Unit {0})
requeue_oldest_retry_due campaign = do
  row ← gets (λ now d. oldest (is_requeueable campaign now) d.calls)
  requeue_row row

abbrev iso_or_null : Option ℕ → Json
iso_or_null none = null
iso_or_null (some t) = stamp t

-- Phase 1. The counts are read before the claim.
abbrev pub promote_if : Bool → ℕ → Txn (Unit {0})
promote_if true campaign = maybe_promote_to_active campaign
promote_if false campaign = pure tt

abbrev pub record_claim : CampaignWithCursor → ℕ → ℕ → Option ℕ → Option Call → Txn (Option Call)
record_claim campaign retries in_flight cursor none = pure none
record_claim campaign retries in_flight cursor (some c) = do
  emit_audit (record (audit_event claimed (txt "claim for dispatch" ∷ [])) {
    campaign_id = some campaign.id;
    call_id = some c.id;
    phone = some c.phone;
    attempt_epoch = some c.attempt_epoch;
    state_before = some "QUEUED";
    state_after = some "DIALING";
    extra = field "in_flight_at_claim" (num in_flight) (
        field "max_concurrent" (num campaign.max_concurrent) (
          field "retries_pending_system" (num retries)
            (field "rr_cursor_before" (iso_or_null cursor) end)));
  })
  promote_if (campaign_status_eq campaign.status pending) campaign.id
  pure (some c)

unfoldable pub claim_phase : CampaignWithCursor → Txn (Option Call)
claim_phase campaign = do
  retries ← gets count_retries_due_system
  in_flight ← gets (λ now d. in_flight_count campaign.id d)
  cursor ← gets (λ now d. get_last_dispatch_at campaign.id d)
  c ← claim_next_queued campaign.id
  record_claim campaign retries in_flight cursor c

abbrev pub idem_key : Call → IdempotencyKey
idem_key c = record { call_id = c.id; attempt_epoch = c.attempt_epoch }

-- Phase 3.
abbrev pub backoff_move : Deps → Call → ℕ → ℕ → Move
backoff_move deps c base now =
    record (plain_move c dialing retry_pending transition (txt "provider_unavailable" ∷ [])) {
      column_updates =
          set_next_attempt_at
            (some (now + compute_backoff c.attempt_epoch base (deps.uniform c.id c.attempt_epoch)))
          ∷ set_retries_remaining (c.retries_remaining - 1)
          ∷ [];
    }

unfoldable pub outcome_move : Deps → Call → ℕ → PlaceOutcome → ℕ → Move
outcome_move deps c base (accepted p) now =
    record (plain_move c dialing dialing dispatch (txt "dispatched to provider" ∷ [])) {
      extra = field "provider_call_id" (str p) end;
      column_updates = set_provider_call_id (some p) ∷ [];
    }
outcome_move deps c base (rejected code) now =
    record (plain_move c dialing failed transition (txt "provider_rejected:" ∷ txt code ∷ [])) {
      extra = field "reason_code" (str code) end;
    }
outcome_move deps c base _ now =
    if ltb 0 c.retries_remaining
    then backoff_move deps c base now
    else plain_move c dialing failed transition (txt "provider_unavailable, retries exhausted" ∷ [])

unfoldable pub outcome_phase : Deps → CampaignWithCursor → Call → ℕ → PlaceOutcome → Txn (Unit {0})
unfolding outcome_move
outcome_phase deps campaign c base outcome = do
  now ← gets (λ now d. now)
  result ← Machine.transition (outcome_move deps c base outcome now)
  update_last_dispatch_at campaign.id now

-- An exception that neither `except` names leaves `_dispatch_one` before Phase 3.
unfoldable pub placed : PlaceOutcome → Result PlaceOutcome
placed crashed = err provider_error
placed o = ok o
