-- ===== src/Scheduler/Reclaim.antt =====
-- app/scheduler/reclaim.py.
pub mod Outcomes
use nurix_takehome.Common.{
  ℕ, ◌+◌, String, Bool, true, false, Option, none, some, List, [], ◌∷◌, if◌then◌else◌, any_row,
}
use nurix_takehome.Model.Status.{
  CallStatus, queued, dialing, value, is_terminal, reclaim_skipped_terminal, reclaim_executed,
}
use nurix_takehome.Model.Json.{Json, null, num, str, end, field, txt}
use nurix_takehome.Model.Rows.{Call}
use nurix_takehome.Model.Txn.{Error, Result, ok, err, Txn, pure, World, ◌>>=◌, commit}
use nurix_takehome.Model.Deps.{Deps, reported, timed_out, raised, stuck_reclaim_seconds}
use nurix_takehome.Persistence.Calls.{find_stuck_dialing}
use nurix_takehome.State.Machine.{Move, is_no_op, set_provider_call_id, transition}
use nurix_takehome.Scheduler.Dispatch.{plain_move}

pub data ReclaimKind : Type 0 where
  terminal_applied executed skipped_no_op failed : ReclaimKind

-- `detail`: the value of a status, or the exception.
pub data Detail : Type 0 where
  status : CallStatus → Detail
  exception : Error → Detail

pub record ReclaimOutcome : Type 0 where
  pub call_id : ℕ
  pub kind : ReclaimKind
  pub detail : Option Detail

-- Every error path of the confirm is `none`.
unfoldable pub best_effort_get_status : Deps → String → Option CallStatus
best_effort_get_status deps p = elim (deps.get_status p) [
  | reported s ↦ some s
  | timed_out ↦ none
  | raised ↦ none
]

abbrev if_terminal : Option CallStatus → Option CallStatus
if_terminal none = none
if_terminal (some s) = if is_terminal s then some s else none

-- `terminal_status` after the confirm; a row without a handle is not confirmed.
unfoldable pub confirmed : Deps → Call → Option CallStatus
unfolding best_effort_get_status
confirmed deps c = elim c.provider_call_id [
  | none ↦ none
  | some p ↦ if_terminal (best_effort_get_status deps p)
]

abbrev handle_json : Option String → Json
handle_json none = null
handle_json (some p) = str p

abbrev pub terminal_move : Call → CallStatus → Move
terminal_move c s =
    record (plain_move c dialing s reclaim_skipped_terminal
      (txt "provider confirmed " ∷ txt (value s) ∷ [])) {
        extra = field "provider_call_id" (handle_json c.provider_call_id) end;
      }

unfoldable pub apply_terminal : Call → CallStatus → Txn ReclaimOutcome
apply_terminal c s = do
  result ← transition (terminal_move c s)
  pure (record {
    call_id = c.id;
    kind = if is_no_op result then skipped_no_op else terminal_applied;
    detail = some (status s);
  })

abbrev pub reclaim_move : Call → Move
reclaim_move c =
    record (plain_move c dialing queued reclaim_executed
      (txt "DIALING exceeded grace window; bumping epoch" ∷ [])) {
        new_epoch = some (c.attempt_epoch + 1);
        extra =
            field "previous_epoch" (num c.attempt_epoch)
              (field "provider_call_id" (handle_json c.provider_call_id) end);
        column_updates = set_provider_call_id none ∷ [];
      }

unfoldable pub apply_reclaim : Call → Txn ReclaimOutcome
apply_reclaim c = do
  result ← transition (reclaim_move c)
  pure (record {
    call_id = c.id;
    kind = if is_no_op result then skipped_no_op else executed;
    detail = none;
  })

unfoldable pub reclaim_txn : Option CallStatus → Call → Txn ReclaimOutcome
unfolding apply_terminal apply_reclaim
reclaim_txn (some s) c = apply_terminal c s
reclaim_txn none c = apply_reclaim c

-- `except BaseException`: every failure is an outcome.
abbrev pub caught : Call → Result ReclaimOutcome → ReclaimOutcome
caught c (ok o) = o
caught c (err e) = record { call_id = c.id; kind = failed; detail = some (exception e) }

-- `others` is what the other tasks do while the provider is asked.
unfoldable pub reclaim_one : Deps → (World → World) → Call → World → ReclaimOutcome × World
unfolding confirmed reclaim_txn commit
reclaim_one deps others c w =
    let r = commit (reclaim_txn (confirmed deps c) c) (others w) in (caught c r.0, r.1)

unfoldable pub frees_capacity : ReclaimOutcome → Bool
frees_capacity o = elim o.kind [ executed ↦ true | terminal_applied ↦ true | _ ↦ false ]

abbrev pub push : ReclaimOutcome → List ReclaimOutcome × World → List ReclaimOutcome × World
push o (os, w) = (o ∷ os, w)

-- The tasks of the group, by the order in which they write. `others` may differ from row to row.
unfoldable pub reclaim_rows :
    Deps → (ℕ → World → World) → List Call → World → List ReclaimOutcome × World
unfolding reclaim_one
reclaim_rows deps others [] w = ([], w)
reclaim_rows deps others (c ∷ cs) w =
    let r = reclaim_one deps (others c.id) c w in push r.0 (reclaim_rows deps others cs r.1)

unfoldable pub notify : Bool → World → World
notify true w = record w { wake = true }
notify false w = w

unfoldable pub stuck_reclaim_sweep :
    Deps → (ℕ → World → World) → World → List ReclaimOutcome × World
unfolding reclaim_rows notify frees_capacity
stuck_reclaim_sweep deps others w =
    let rows = find_stuck_dialing (stuck_reclaim_seconds deps.settings) w.clock w.db in
    let r = reclaim_rows deps others rows w in (r.0, notify (any_row frees_capacity r.0) r.1)
