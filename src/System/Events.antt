-- ===== src/System/Events.antt =====
-- How the webhook processor applies an event keeps what `transition` keeps.
use nurix_takehome.Common.{ℕ, ltb, Bool-cases, inl, inr, [], arith}
use nurix_takehome.Model.Status.{CallStatus, is_terminal}
use nurix_takehome.Model.Rows.{Call, Db}
use nurix_takehome.Model.Txn.{Result, ok, err, after}
use nurix_takehome.Model.Keeps.{IsPreorder, Keeps, Keeps-pure, Keeps-bind, Keeps-if}
use nurix_takehome.Model.Deps.{Deps, ProviderEvent}
use nurix_takehome.Persistence.Campaigns
use nurix_takehome.State.Classify.{RetryOutcome, terminal, status, classify}
use nurix_takehome.State.Machine.{Move, TransitionResult, transition}
use nurix_takehome.State.Machine.Evolution.{Advances}
use nurix_takehome.State.Retry.{
  Outcome, outcome_move, retry_move, apply_decision, apply_retryable_outcome,
}
use nurix_takehome.Scheduler.Config.{webhook_base_seconds}
use nurix_takehome.Scheduler.Webhook.{
  raise_or, config_of, webhook_outcome, apply_terminal_event, intermediate_move, apply_event,
}

module _ {R : Db → Db → Type 0} (order : IsPreorder R)
    (move : (m : Move) → Advances m → Keeps R (transition m)) where
  decision_keeps : (o : Outcome) (r : RetryOutcome) → Keeps R (apply_decision o r)
  unfolding apply_decision
  decision_keeps o terminal = move (outcome_move o o.outcome []) (omega arith)
  decision_keeps o _ = record {
    at = λ now d. elim (Bool-cases (ltb 0 o.retries_remaining)) [
      | inl t ↦ rw t ((move (retry_move o now) (omega arith)).at now d)
      | inr f ↦ rw f ((move (outcome_move o _ _) (omega arith)).at now d)
    ];
  }

  decided :
      (o : Outcome) (r : Result RetryOutcome) (now : ℕ) (d : Db)
      → R d (
          after {A = TransitionResult}
            (elim r [ ok x ↦ apply_decision o x now d | err e ↦ err e ])
            d)
  decided o (ok x) now d = (decision_keeps o x).at now d
  decided o (err e) now d = order.reflexive d

  outcome_keeps : (o : Outcome) → Keeps R (apply_retryable_outcome o)
  unfolding apply_retryable_outcome
  outcome_keeps o = record { at = λ now d. decided o (classify (status o.outcome)) now d }

  pub raise_or_keeps : {A : Type 0} (r : Result A) → Keeps R (raise_or r)
  raise_or_keeps (ok a) = Keeps-pure order a
  raise_or_keeps (err e) = record { at = λ now d. order.reflexive d }

  terminal_event_keeps :
      (deps : Deps) (c : Call) (s : CallStatus) → Keeps R (apply_terminal_event deps c s)
  unfolding apply_terminal_event
  terminal_event_keeps deps c s = record {
    at = λ now d.
        (Keeps-bind order
            (raise_or (webhook_base_seconds deps (config_of (Campaigns.get c.campaign_id d))))
            (λ base. apply_retryable_outcome (webhook_outcome deps c s base)) (raise_or_keeps _)
            (λ base. outcome_keeps (webhook_outcome deps c s base))).at
          now d;
  }

  pub event_keeps : (deps : Deps) (c : Call) (e : ProviderEvent) → Keeps R (apply_event deps c e)
  unfolding apply_event
  event_keeps deps c e =
      Keeps-if order (is_terminal e.status_enum) (apply_terminal_event deps c e.status_enum)
        (transition (intermediate_move c e)) (λ _. terminal_event_keeps deps c e.status_enum)
        (λ _. move (intermediate_move c e) (omega arith))
