-- ===== src/Scheduler/Webhook/Progress.antt =====
-- How far a drain of the inbox gets, and what stops it.
use nurix_takehome.Common.{
  ℕ, zero, suc, ◌+◌, ◌<◌, ◌≤◌, ◌≡◌, ◌⊎◌, ltb, ltb→lt, refl, sym, ◌∙◌, Bool, true, false, Option,
  none, some, arith, Option-cases, Bool-cases, inl, inr,
}
use nurix_takehome.Model.Rows.{Call, InboxRow, Db}
use nurix_takehome.Model.Status.{status_eq}
use nurix_takehome.Model.Txn.{Error, Result, ok, err, World, commit, settle, Txn, pure, ◌>>=◌}
use nurix_takehome.State.Machine.{TransitionResult, is_no_op}
use nurix_takehome.Model.Deps.{Deps, ProviderEvent}
use nurix_takehome.Persistence.Inbox.{mark_processed, oldest_unprocessed, claim_unprocessed_one}
use nurix_takehome.Scheduler.Reclaim.{notify}
use nurix_takehome.Scheduler.Webhook.{
  RowOutcome, applied, stale, error, raise_or, find_call, apply_event, finish_row, process_call,
  process_event, process_claimed, outcome_or_error, row_txn, process_one_row, Drain, after_row,
  is_empty, drain, process_pending_inbox,
}

-- The oldest row waiting carries a payload that the provider's adapter does not parse.
pub record Poisoned (deps : Deps) (d : Db) : Type 0 where
  pub row : InboxRow
  pub oldest : oldest_unprocessed d.inbox ≡ some row
  pub reason : Error
  pub unparsed : deps.parse_event_fn row.payload ≡ err reason

module _ (deps : Deps) (w : World) (p : Poisoned deps w.db) where
  row_txn-raises : row_txn deps w.clock w.db ≡ err p.reason
  unfolding row_txn claim_unprocessed_one
  row_txn-raises = rw (p.oldest) (rw (p.unparsed))

  process_one_row-error : process_one_row deps w ≡ (error, w)
  unfolding process_one_row commit
  process_one_row-error = rw (row_txn-raises)

  drain-error : (n : ℕ) → drain deps n w ≡ record { processed = n; applied_any = false; world = w }
  unfolding drain
  drain-error zero = refl
  drain-error (suc n) = rw (process_one_row-error, drain-error n) (ground arith)

  -- While the oldest row waiting does not parse, a drain counts its whole cap of rounds and leaves
  -- the world as it was: no other row of the inbox is processed, however many wait behind it.
  pub process_pending_inbox-poisoned :
      process_pending_inbox deps w ≡ (deps.settings.webhook_processor_batch_max, w)
  unfolding process_pending_inbox notify
  process_pending_inbox-poisoned = rw (drain-error deps.settings.webhook_processor_batch_max)

true-false : true ≡ false → ⊥
true-false h = cc

-- The transaction does not report that there was no row.
abbrev Filled : Result (RowOutcome × Db) → Type 0
Filled (ok (o, d)) = is_empty o ≡ false
Filled (err e) = Unit {0}

AlwaysFilled : Txn RowOutcome → Type 0
AlwaysFilled m = (now : ℕ) (d : Db) → Filled (m now d)

Filled-rest :
    {A : Type 0} (r : Result (A × Db)) (f : A → Txn RowOutcome) (now : ℕ)
    → ((a : A) → AlwaysFilled (f a))
    → Filled (elim r [ ok (a, d') ↦ f a now d' | err e ↦ err e ])
unfolding AlwaysFilled
Filled-rest (ok (a, d)) f now h = h a now d
Filled-rest (err e) f now h = tt

filled_bind :
    {A : Type 0} (m : Txn A) (f : A → Txn RowOutcome)
    → ((a : A) → AlwaysFilled (f a))
    → AlwaysFilled (m >>= f)
unfolding AlwaysFilled
filled_bind m f h now d = Filled-rest (m now d) f now h

filled_pure : (o : RowOutcome) → is_empty o ≡ false → AlwaysFilled (pure o)
unfolding AlwaysFilled
filled_pure o h now d = h

filled_finish :
    (b : Bool) (r : TransitionResult) (row : InboxRow) (c : Call) (e : ProviderEvent)
    → AlwaysFilled (finish_row b r row c e)
filled_finish true r row c e =
    filled_bind _ _ (λ _. filled_bind (mark_processed row.id) _ (λ _. filled_pure stale refl))
filled_finish false r row c e =
    filled_bind (mark_processed row.id) _ (λ _. filled_pure applied refl)

filled_unknown :
    (deps : Deps) (row : InboxRow) (e : ProviderEvent) → AlwaysFilled (process_call deps row e none)
filled_unknown deps row e =
    filled_bind _ _ (λ _. filled_bind (mark_processed row.id) _ (λ _. filled_pure stale refl))

filled_call :
    (deps : Deps) (row : InboxRow) (e : ProviderEvent) (o : Option Call)
    → AlwaysFilled (process_call deps row e o)
unfolding AlwaysFilled
filled_call deps row e none now d = filled_unknown deps row e now d
filled_call deps row e (some c) now d = elim (Bool-cases (status_eq e.status_enum c.status)) [
  | inl t ↦
      rw t
        (filled_bind (mark_processed row.id) (λ _. pure stale) (λ _. filled_pure stale refl) now d)
  | inr f ↦ rw f (
      filled_bind (apply_event deps c e) (λ r. finish_row (is_no_op r) r row c e)
        (λ r. filled_finish (is_no_op r) r row c e) now d)
]

filled_claimed : (deps : Deps) (row : InboxRow) → AlwaysFilled (process_claimed deps (some row))
unfolding AlwaysFilled process_event
filled_claimed deps row =
    filled_bind (raise_or (deps.parse_event_fn row.payload)) (process_event deps row) (λ e now d.
      filled_bind (raise_or (find_call e.provider_call_id d)) (process_call deps row e)
        (filled_call deps row e) now d)

Filled-outcome :
    (r : Result (RowOutcome × Db)) (w : World)
    → Filled r
    → is_empty (outcome_or_error (settle r w).0) ≡ false
Filled-outcome (ok (o, d)) w h = h
Filled-outcome (err e) w h = refl

module _ (deps : Deps) where
  pub empty_row :
      (w : World)
      → is_empty (process_one_row deps w).0 ≡ true
      → (oldest_unprocessed w.db.inbox ≡ none) × ((process_one_row deps w).1 ≡ w)
  unfolding process_one_row row_txn claim_unprocessed_one AlwaysFilled commit
  empty_row w h = elim (Option-cases (oldest_unprocessed w.db.inbox)) [
    | inl e ↦ (e, rw e)
    | inr (row, e) ↦ absurd (
        true-false (
          sym (rw e at h)
          ∙ Filled-outcome (process_claimed deps (some row) w.clock w.db) w
              (filled_claimed deps row w.clock w.db)))
  ]

  pub processed-after_row :
      (o : RowOutcome) (r : Drain)
      → ((after_row o r).processed ≡ r.processed + 1) × ((after_row o r).world ≡ r.world)
  processed-after_row o r = ground arith

  drain_progress :
      (n : ℕ) (w : World)
      → ((drain deps n w).processed ≤ n)
        × ((drain deps n w).processed < n
            → oldest_unprocessed (drain deps n w).world.db.inbox ≡ none)
  unfolding drain
  drain_progress zero w = (omega arith, λ h. absurd (omega arith))
  drain_progress (suc n) w = elim (Bool-cases (is_empty (process_one_row deps w).0)) [
    | inl t ↦ let (e, same) = empty_row w t in rw t (omega arith, λ h. rw same e)
    | inr f ↦
        let (p, q) = drain_progress n (process_one_row deps w).1 in
        let (k, l) =
          processed-after_row (process_one_row deps w).0
            (drain deps n (process_one_row deps w).1) in
        rw f (rw (k, l) (omega arith, λ h. q (omega arith)))
  ]

  pub inbox-notify : (b : Bool) (w : World) → (notify b w).db ≡ w.db
  unfolding notify
  inbox-notify b w = ground arith

  -- A drain handles its whole cap of rows, or fewer, and then there is no row left waiting.
  pub process_pending_inbox-drains :
      (w : World)
      → ((process_pending_inbox deps w).0 ≡ deps.settings.webhook_processor_batch_max)
        ⊎ ((process_pending_inbox deps w).0 < deps.settings.webhook_processor_batch_max)
          × (oldest_unprocessed (process_pending_inbox deps w).1.db.inbox ≡ none)
  unfolding process_pending_inbox
  process_pending_inbox-drains w =
      let r = drain deps deps.settings.webhook_processor_batch_max w in
      let (p, q) = drain_progress deps.settings.webhook_processor_batch_max w in
      elim (Bool-cases (ltb r.processed deps.settings.webhook_processor_batch_max)) [
        | inl t ↦
            let below = ltb→lt r.processed deps.settings.webhook_processor_batch_max t in
            inr (below, rw (inbox-notify r.applied_any r.world) (q below))
        | inr f ↦ inl (ground arith)
      ]
