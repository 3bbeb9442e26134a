-- ===== src/Scheduler/Webhook.antt =====
-- app/scheduler/webhook_processor.py.
pub mod Progress
pub mod Events
use nurix_takehome.Common.{
  ℕ, zero, suc, ◌+◌, Bool, true, false, Option, none, some, [], ◌∷◌, if◌then◌else◌,
}
use nurix_takehome.Model.Status.{
  CallStatus, value, is_terminal, status_eq, transition, webhook_ignored_stale,
}
use nurix_takehome.Model.Json.{Json, null, num, str, Fields, end, field, Text, txt, int}
use nurix_takehome.Model.Rows.{Call, InboxRow, Campaign, Db}
use nurix_takehome.Model.Txn.{
  Result, ok, err, data_error, Txn, pure, gets, World, ◌>>=◌, ◌>>◌, commit,
}
use nurix_takehome.Model.Deps.{Deps, ProviderEvent}
use nurix_takehome.Audit.{audit_event, emit_audit}
use nurix_takehome.Persistence.Calls.{get_by_provider_call_id}
use nurix_takehome.Persistence.Campaigns
use nurix_takehome.Persistence.Inbox.{claim_unprocessed_one, mark_processed}
use nurix_takehome.Scheduler.Config.{webhook_base_seconds}
use nurix_takehome.Scheduler.Dispatch.{plain_move}
use nurix_takehome.Scheduler.Reclaim.{notify}
use nurix_takehome.State.Machine
use nurix_takehome.State.Machine.{Move, TransitionResult, is_no_op, is_terminal_regression}
use nurix_takehome.State.Retry.{Outcome, apply_retryable_outcome}

pub data RowOutcome : Type 0 where
  applied stale empty error : RowOutcome

abbrev pub raise_or : {A : Type 0} → Result A → Txn A
raise_or (ok a) now d = ok (a, d)
raise_or (err e) now d = err e

-- The query by `provider_call_id`: None is NULL, which no row meets; the driver refuses a value
-- that is no text.
unfoldable pub find_call : Json → Db → Result (Option Call)
find_call (str p) d = ok (get_by_provider_call_id p d)
find_call null d = ok none
find_call _ d = err data_error

abbrev pub config_of : Option Campaign → Fields
config_of none = end
config_of (some c) = c.retry_config

unfoldable pub webhook_outcome : Deps → Call → CallStatus → ℕ → Outcome
webhook_outcome deps c s base = record {
  call_id = c.id;
  expected_status = c.status;
  expected_epoch = c.attempt_epoch;
  retries_remaining = c.retries_remaining;
  outcome = s;
  backoff_base_seconds = base;
  reason_prefix = "webhook";
  uniform = deps.uniform c.id c.attempt_epoch;
}

unfoldable pub apply_terminal_event : Deps → Call → CallStatus → Txn TransitionResult
unfolding webhook_outcome
apply_terminal_event deps c s = do
  campaign ← gets (λ now d. Campaigns.get c.campaign_id d)
  base ← raise_or (webhook_base_seconds deps (config_of campaign))
  apply_retryable_outcome (webhook_outcome deps c s base)

unfoldable pub intermediate_move : Call → ProviderEvent → Move
intermediate_move c e =
    record (plain_move c c.status e.status_enum transition
      (txt "webhook " ∷ txt (value e.status_enum) ∷ [])) {
        extra =
            field "provider_event_id" e.provider_event_id
              (field "provider_call_id" e.provider_call_id end);
      }

unfoldable pub apply_event : Deps → Call → ProviderEvent → Txn TransitionResult
unfolding apply_terminal_event intermediate_move
apply_event deps c e =
    if is_terminal e.status_enum
    then apply_terminal_event deps c e.status_enum
    else Machine.transition (intermediate_move c e)

abbrev pub ignored_reason : TransitionResult → Call → ProviderEvent → Text
ignored_reason r c e =
    if is_terminal_regression r
    then txt "terminal-wins: " ∷ txt (value c.status) ∷ txt " ← " ∷ txt (value e.status_enum) ∷ []
    else txt "CAS no-op: expected " ∷ txt (value c.status) ∷ txt "/" ∷ int c.attempt_epoch ∷ []

abbrev pub ignored_extra : TransitionResult → Call → ProviderEvent → Fields
ignored_extra r c e =
    if is_terminal_regression r
    then field "current_status" (str (value c.status)) (
        field "event_status" (str (value e.status_enum))
          (field "provider_event_id" e.provider_event_id end))
    else field "expected_status" (str (value c.status)) (
        field "expected_epoch" (num c.attempt_epoch) (
          field "event_status" (str (value e.status_enum))
            (field "provider_event_id" e.provider_event_id end)))

abbrev pub finish_row : Bool → TransitionResult → InboxRow → Call → ProviderEvent → Txn RowOutcome
finish_row true r row c e = do
  emit_audit (record (audit_event webhook_ignored_stale (ignored_reason r c e)) {
    campaign_id = some c.campaign_id;
    call_id = some c.id;
    phone = some c.phone;
    attempt_epoch = some c.attempt_epoch;
    extra = ignored_extra r c e;
  })
  mark_processed row.id
  pure stale
finish_row false r row c e = do mark_processed row.id; pure applied

abbrev pub process_call : Deps → InboxRow → ProviderEvent → Option Call → Txn RowOutcome
process_call deps row e none = do
  emit_audit (record (audit_event webhook_ignored_stale (txt "unknown provider_call_id" ∷ [])) {
    extra =
        field "provider_event_id" e.provider_event_id
          (field "provider_call_id" e.provider_call_id end);
  })
  mark_processed row.id
  pure stale
process_call deps row e (some c) =
    if status_eq e.status_enum c.status
    then (do mark_processed row.id; pure stale)
    else (do result ← apply_event deps c e; finish_row (is_no_op result) result row c e)

-- The transaction from the parsed event on.
unfoldable pub process_event : Deps → InboxRow → ProviderEvent → Txn RowOutcome
unfolding find_call apply_event
process_event deps row e now d =
    (raise_or (find_call e.provider_call_id d) >>= process_call deps row e) now d

abbrev pub process_claimed : Deps → Option InboxRow → Txn RowOutcome
process_claimed deps none = pure empty
process_claimed deps (some row) = do
  e ← raise_or (deps.parse_event_fn row.payload)
  process_event deps row e

unfoldable pub row_txn : Deps → Txn RowOutcome
row_txn deps = do row ← claim_unprocessed_one; process_claimed deps row

abbrev pub outcome_or_error : Result RowOutcome → RowOutcome
outcome_or_error (ok o) = o
outcome_or_error (err _) = error

-- `except Exception: return "error"`; the transaction has rolled back.
unfoldable pub process_one_row : Deps → World → RowOutcome × World
unfolding commit row_txn
process_one_row deps w = let r = commit (row_txn deps) w in (outcome_or_error r.0, r.1)

pub record Drain : Type 0 where
  pub processed : ℕ
  pub applied_any : Bool
  pub world : World

abbrev pub after_row : RowOutcome → Drain → Drain
after_row applied d = record d { processed = d.processed + 1; applied_any = true }
after_row _ d = record d { processed = d.processed + 1 }

-- `for _ in range(cap)`: the counts of the rounds that remain, and the world they end in.
abbrev pub is_empty : RowOutcome → Bool
is_empty empty = true
is_empty _ = false

unfoldable pub drain : Deps → ℕ → World → Drain
drain deps zero w = record { processed = 0; applied_any = false; world = w }
drain deps (suc n) w =
    let r = process_one_row deps w in
    let rest = drain deps n r.1 in
    if is_empty r.0
    then record { processed = 0; applied_any = false; world = r.1 }
    else after_row r.0 rest

unfoldable pub process_pending_inbox : Deps → World → ℕ × World
process_pending_inbox deps w =
    let r = drain deps deps.settings.webhook_processor_batch_max w in
    (r.processed, notify r.applied_any r.world)
