-- ===== src/State/Retry.antt =====
-- app/state/retry_apply.py.
pub mod Backoff
pub mod Budget
use nurix_takehome.Common.{
  ℕ, ◌+◌, ◌-◌, ◌*◌, ◌^◌, ◌%◌, String, none, some, [], ◌∷◌, ltb, if◌then◌else◌,
}
use nurix_takehome.Model.Status.{CallStatus, retry_pending, failed, value, transition}
use nurix_takehome.Model.Json.{end, txt, Text}
use nurix_takehome.Model.Txn.{ok, err, Txn}
use nurix_takehome.State.Classify.{RetryOutcome, status, terminal, classify}
use nurix_takehome.State.Machine
use nurix_takehome.State.Machine.{
  TransitionResult, Move, set_next_attempt_at, set_retries_remaining,
}

-- `1.0 + random.uniform(-0.2, 0.2)` in millionths: whatever is drawn stands for one of the values
-- from 800000 to 1200000.
unfoldable pub jitter_of : ℕ → ℕ
jitter_of uniform = 800000 + uniform % 400001

-- `timedelta(seconds=base * 2**exponent * jitter)` in microseconds, for the number that this call draws.
unfoldable pub compute_backoff : ℕ → ℕ → ℕ → ℕ
compute_backoff attempt_epoch base_seconds uniform =
    base_seconds * 2 ^ (if ltb attempt_epoch 1 then 0 else attempt_epoch - 1) * jitter_of uniform

-- The keyword arguments of `apply_retryable_outcome`, and the random draw.
pub record Outcome : Type 0 where
  pub call_id : ℕ
  pub expected_status : CallStatus
  pub expected_epoch : ℕ
  pub retries_remaining : ℕ
  pub outcome : CallStatus
  pub backoff_base_seconds : ℕ
  pub reason_prefix : String
  pub uniform : ℕ

abbrev pub outcome_move : Outcome → CallStatus → Text → Move
outcome_move o new reason = record {
  call_id = o.call_id;
  expected_status = o.expected_status;
  new_status = new;
  expected_epoch = o.expected_epoch;
  new_epoch = none;
  event_type = transition;
  reason = txt o.reason_prefix ∷ txt " " ∷ txt (value o.outcome) ∷ reason;
  extra = end;
  column_updates = [];
}

abbrev pub retry_move : Outcome → ℕ → Move
retry_move o now = record (outcome_move o retry_pending (txt "; backoff scheduled" ∷ [])) {
  column_updates =
      set_next_attempt_at
        (some (now + compute_backoff o.expected_epoch o.backoff_base_seconds o.uniform))
      ∷ set_retries_remaining (o.retries_remaining - 1)
      ∷ [];
}

unfoldable pub apply_decision : Outcome → RetryOutcome → Txn TransitionResult
apply_decision o terminal now = Machine.transition (outcome_move o o.outcome []) now
apply_decision o _ now =
    if ltb 0 o.retries_remaining
    then Machine.transition (retry_move o now) now
    else Machine.transition (outcome_move o failed (txt "; retries exhausted" ∷ [])) now

-- `datetime.now` is read in the transaction, as `NOW()` is.
unfoldable pub apply_retryable_outcome : Outcome → Txn TransitionResult
unfolding apply_decision classify
apply_retryable_outcome o now d = elim (classify (status o.outcome)) [
  | ok decision ↦ apply_decision o decision now d
  | err e ↦ err e
]
