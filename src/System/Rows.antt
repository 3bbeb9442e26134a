-- ===== src/System/Rows.antt =====
-- The transactions of the webhook processor and of the reclaim sweep keep what the primitives keep.
use nurix_takehome.Common.{ℕ, Bool, true, false, Option, none, some, arith}
use nurix_takehome.Model.Status.{CallStatus, status_eq}
use nurix_takehome.Model.Rows.{Call, InboxRow, Db}
use nurix_takehome.Model.Txn.{pure, ◌>>=◌, ◌>>◌}
use nurix_takehome.Model.Keeps.{Keeps, Keeps-pure, Keeps-bind, Keeps-if}
use nurix_takehome.Model.Deps.{Deps, ProviderEvent}
use nurix_takehome.Persistence.Inbox.{mark_processed, oldest_unprocessed, claim_unprocessed_one}
use nurix_takehome.State.Machine.{TransitionResult, is_no_op, transition}
use nurix_takehome.Scheduler.Reclaim.{terminal_move, reclaim_move, reclaim_txn}
use nurix_takehome.Scheduler.Webhook.{
  applied, stale, empty, raise_or, apply_event, finish_row, process_call, process_claimed,
  process_event, row_txn, find_call,
}
use nurix_takehome.System.Primitives.{Primitives}
use nurix_takehome.System.Events.{raise_or_keeps, event_keeps}

module _ {R : Db → Db → Type 0} (p : Primitives R) where
  mark_then : {A : Type 0} (i : ℕ) (a : A) → Keeps R (mark_processed i >> pure a)
  mark_then i a =
      Keeps-bind p.order (mark_processed i) (λ _. pure a) (p.mark i) (λ _. Keeps-pure p.order a)

  finish_keeps :
      (b : Bool) (r : TransitionResult) (row : InboxRow) (c : Call) (e : ProviderEvent)
      → Keeps R (finish_row b r row c e)
  finish_keeps true r row c e =
      Keeps-bind p.order _ (λ _. mark_processed row.id >> pure stale) (p.audit _)
        (λ _. mark_then row.id stale)
  finish_keeps false r row c e = mark_then row.id applied

  call_keeps :
      (deps : Deps) (row : InboxRow) (e : ProviderEvent) (o : Option Call)
      → Keeps R (process_call deps row e o)
  call_keeps deps row e none =
      Keeps-bind p.order _ (λ _. mark_processed row.id >> pure stale) (p.audit _)
        (λ _. mark_then row.id stale)
  call_keeps deps row e (some c) =
      Keeps-if p.order (status_eq e.status_enum c.status) (mark_processed row.id >> pure stale)
        (apply_event deps c e >>= λ r. finish_row (is_no_op r) r row c e)
        (λ _. mark_then row.id stale)
        (λ _.
          Keeps-bind p.order (apply_event deps c e) (λ r. finish_row (is_no_op r) r row c e)
            (event_keeps p.order p.move deps c e) (λ r. finish_keeps (is_no_op r) r row c e))

  process_event_keeps :
      (deps : Deps) (row : InboxRow) (e : ProviderEvent) → Keeps R (process_event deps row e)
  unfolding process_event
  process_event_keeps deps row e = record {
    at = λ now d.
        (Keeps-bind p.order (raise_or (find_call e.provider_call_id d)) (process_call deps row e)
            (raise_or_keeps p.order p.move _) (call_keeps deps row e)).at
          now d;
  }

  claimed_keeps : (deps : Deps) (o : Option InboxRow) → Keeps R (process_claimed deps o)
  claimed_keeps deps none = Keeps-pure p.order empty
  claimed_keeps deps (some row) =
      Keeps-bind p.order (raise_or (deps.parse_event_fn row.payload)) (process_event deps row)
        (raise_or_keeps p.order p.move _) (process_event_keeps deps row)

  pub row_keeps : (deps : Deps) → Keeps R (row_txn deps)
  unfolding row_txn claim_unprocessed_one
  row_keeps deps = record {
    at = λ now d. (claimed_keeps deps (oldest_unprocessed d.inbox)).at now d;
  }

  pub reclaim_keeps : (o : Option CallStatus) (c : Call) → Keeps R (reclaim_txn o c)
  unfolding reclaim_txn
  reclaim_keeps (some s) c =
      Keeps-bind p.order (transition (terminal_move c s)) _
        (p.move (terminal_move c s) (omega arith)) (λ r. Keeps-pure p.order _)
  reclaim_keeps none c =
      Keeps-bind p.order (transition (reclaim_move c)) _ (p.move (reclaim_move c) (omega arith))
        (λ r. Keeps-pure p.order _)
