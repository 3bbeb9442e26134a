-- ===== src/State/Machine.antt =====
-- app/state/machine.py.
pub mod Effects
pub mod View
pub mod Evolution
pub mod Log
pub mod Stored
pub mod Close
use nurix_takehome.Common.{
  ℕ, String, Bool, true, false, not, ◌&&◌, Option, none, some, List, [], ◌∷◌, ◌==◌, if◌then◌else◌,
  any_row,
}
use nurix_takehome.Model.Status.{CallStatus, EventType, value, is_terminal, status_eq}
use nurix_takehome.Model.Json.{Fields, Text}
use nurix_takehome.Model.Rows.{Call, AuditEvent}
use nurix_takehome.Model.Txn.{unauthorized_column, Txn, pure, throw, ◌>>=◌, ◌>>◌}
use nurix_takehome.Audit.{audit_event, emit_audit}
use nurix_takehome.Persistence.Calls.{update_calls}
use nurix_takehome.State.Rollup.{maybe_transition_campaign_terminal}

pub data RejectedReason : Type 0 where
  terminal_regression : RejectedReason

-- `no_op`, `applied_` and `terminal_regression` of the class are `no_op`, `applied` and
-- `regression` here.
pub record TransitionResult : Type 0 where
  pub applied : Bool
  pub row : Option Call
  pub rejected_reason : Option RejectedReason

abbrev pub no_op : TransitionResult
no_op = record { applied = false; row = none; rejected_reason = none }

abbrev pub regression : TransitionResult
regression = record { applied = false; row = none; rejected_reason = some terminal_regression }

abbrev pub applied_to : Call → TransitionResult
applied_to c = record { applied = true; row = some c; rejected_reason = none }

unfoldable pub is_no_op : TransitionResult → Bool
is_no_op r = not r.applied

unfoldable pub is_terminal_regression : TransitionResult → Bool
is_terminal_regression r = elim r.rejected_reason [ none ↦ false | some _ ↦ true ]

-- The columns of the allow-list with their values; `unlisted` is a column of any other name.
pub data ColumnUpdate : Type 0 where
  set_provider_call_id : Option String → ColumnUpdate
  set_next_attempt_at : Option ℕ → ColumnUpdate
  set_retries_remaining : ℕ → ColumnUpdate
  unlisted : String → ColumnUpdate

unfoldable pub is_unauthorized : ColumnUpdate → Bool
is_unauthorized (unlisted _) = true
is_unauthorized _ = false

unfoldable pub set_column : ColumnUpdate → Call → Call
set_column (set_provider_call_id p) c = record c { provider_call_id = p }
set_column (set_next_attempt_at t) c = record c { next_attempt_at = t }
set_column (set_retries_remaining n) c = record c { retries_remaining = n }
set_column (unlisted _) c = c

unfoldable pub set_columns : List ColumnUpdate → Call → Call
unfolding set_column
set_columns [] c = c
set_columns (u ∷ us) c = set_columns us (set_column u c)

-- The keyword arguments of `transition`.
pub record Move : Type 0 where
  pub call_id : ℕ
  pub expected_status : CallStatus
  pub new_status : CallStatus
  pub expected_epoch : ℕ
  pub new_epoch : Option ℕ
  pub event_type : EventType
  pub reason : Text
  pub extra : Fields
  pub column_updates : List ColumnUpdate

-- `WHERE id = $2 AND status = $3 AND attempt_epoch = $4`
unfoldable pub meets : Move → Call → Bool
meets m c =
    c.id == m.call_id
    && (status_eq c.status m.expected_status && c.attempt_epoch == m.expected_epoch)

abbrev or_epoch : Option ℕ → ℕ → ℕ
or_epoch none e = e
or_epoch (some e') e = e'

-- The SET clause.
unfoldable pub assign : Move → ℕ → Call → Call
assign m now c = set_columns m.column_updates (record c {
  status = m.new_status;
  updated_at = now;
  attempt_epoch = or_epoch m.new_epoch c.attempt_epoch;
})

abbrev pub rollup_if : Bool → ℕ → Txn (Unit {0})
rollup_if true campaign = maybe_transition_campaign_terminal campaign
rollup_if false campaign = pure tt

-- The audit row of a move, with what the updated row says.
unfoldable pub move_event : Move → Call → AuditEvent
move_event m row = record (audit_event m.event_type m.reason) {
  campaign_id = some row.campaign_id;
  call_id = some m.call_id;
  phone = some row.phone;
  attempt_epoch = some row.attempt_epoch;
  state_before = some (value m.expected_status);
  state_after = some (value m.new_status);
  extra = m.extra;
}

-- What follows the UPDATE.
unfoldable pub record_move : Move → Option Call → Txn TransitionResult
unfolding move_event
record_move m none = pure no_op
record_move m (some row) = do
  emit_audit (move_event m row)
  rollup_if (is_terminal m.new_status) row.campaign_id
  pure (applied_to row)

-- The two guards that stand before any database work.
unfoldable pub is_regression : Move → Bool
is_regression m = is_terminal m.expected_status && not (status_eq m.new_status m.expected_status)

unfoldable pub transition : Move → Txn TransitionResult
unfolding record_move
transition m =
    if any_row is_unauthorized m.column_updates
    then throw unauthorized_column
    else if is_regression m
    then pure regression
    else (do row ← update_calls (meets m) (assign m); record_move m row)
