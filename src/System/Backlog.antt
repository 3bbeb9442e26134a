-- ===== src/System/Backlog.antt =====
-- A row of the inbox whose transaction commits is marked, and no other row is touched.
pub mod Rounds
use nurix_takehome.Common.{
  ℕ, zero, suc, ◌+◌, ◌-◌, ◌*◌, ◌≤◌, ◌<◌, ◌≡◌, refl, sym, ap, subst, ◌∙◌, leb, Bool, true, false,
  ◌&&◌, Option, none, some, List, [], ◌∷◌, arith, ==_iff, ◌==◌, inl, inr, any_row, update_where,
  count_where, Option-cases, Bool-cases, if◌then◌else◌,
}
use native.Mathlib.Nat.{suc-mul}
use nurix_takehome.Model.Status.{is_terminal, status_eq}
use nurix_takehome.Model.Rows.{Call, InboxRow, Db}
use nurix_takehome.Model.Txn.{Result, ok, err, World, commit, settle, Txn, pure, ◌>>=◌, ◌>>◌, after}
use nurix_takehome.Model.Keeps.{IsPreorder, Keeps}
use nurix_takehome.Model.Deps.{Deps, ProviderEvent}
use nurix_takehome.Persistence.Inbox.{
  is_unprocessed, oldest_unprocessed, claim_unprocessed_one, row_id, mark_processed,
}
use nurix_takehome.State.Machine.{Move, TransitionResult, is_no_op, assign, transition}
use nurix_takehome.State.Machine.Effects.{audited, settled, table_after}
use nurix_takehome.State.Machine.View.{View, raised, kept, moved, transition-View}
use nurix_takehome.State.Rollup.Frame.{inbox-rolled}
use nurix_takehome.Scheduler.Webhook.{
  RowOutcome, applied, stale, empty, error, raise_or, find_call, apply_event, finish_row,
  process_call, process_event, process_claimed, outcome_or_error, row_txn, process_one_row, Drain,
  is_empty, drain, process_pending_inbox,
}
use nurix_takehome.Audit.{emit_audit}
use nurix_takehome.Scheduler.Webhook.Progress.{empty_row, processed-after_row, inbox-notify}
use nurix_takehome.Scheduler.Daemons.{webhook_inbox_safety_net_loop}
use nurix_takehome.System.Events.{event_keeps}

abbrev pub SameInbox : Db → Db → Type 0
SameInbox d d' = d'.inbox ≡ d.inbox

same_inbox : IsPreorder SameInbox
same_inbox = record { reflexive = λ d. refl; transitive = λ a b c e f. f ∙ e }

inbox-settled : (m : Move) (now : ℕ) (c : Call) (d : Db) → (settled m now c d).inbox ≡ d.inbox
unfolding settled
inbox-settled m now c d = elim (Bool-cases (is_terminal m.new_status)) [
  | inl t ↦ rw t (inbox-rolled c.campaign_id now (audited m now c d))
  | inr f ↦ rw f refl
]

pub move_inbox : (m : Move) → Keeps SameInbox (transition m)
move_inbox m = record { at = λ now d. at_view now d (transition m now d) (transition-View m now d) }
  where
    at_view :
        (now : ℕ) (d : Db) (r : Result (TransitionResult × Db))
        → View m now d r
        → SameInbox d (after r d)
    at_view now d _ (raised e) = refl
    at_view now d _ (kept r h) = refl
    at_view now d _ (moved c h) =
        inbox-settled m now (assign m now c) (record d { calls = table_after m now d })

abbrev marked : ℕ → ℕ → List InboxRow → List InboxRow
marked i now rows = update_where (row_id i) (λ r. record r { processed_at = some now }) rows

-- If the transaction commits, it has marked the row, and has left the inbox as it was otherwise.
abbrev pub MarkedBy : ℕ → ℕ → Db → Result (RowOutcome × Db) → Type 0
MarkedBy i now d (ok (o, d')) = d'.inbox ≡ marked i now d.inbox
MarkedBy i now d (err e) = Unit {0}

module _ (i now : ℕ) where
  marked_after :
      {A : Type 0} (d : Db) (r : Result (A × Db)) (f : A → Txn RowOutcome)
      → SameInbox d (after r d)
      → ((a : A) (d' : Db) → MarkedBy i now d' (f a now d'))
      → MarkedBy i now d (elim r [ ok (a, d') ↦ f a now d' | err e ↦ err e ])
  marked_after d (err e) f s h = tt
  marked_after d (ok (a, d')) f s h = same_start (f a now d') (h a d')
    where
      same_start : (x : Result (RowOutcome × Db)) → MarkedBy i now d' x → MarkedBy i now d x
      same_start (err e) k = tt
      same_start (ok (o, d'')) k = rw (sym s) k

module _ (deps : Deps) (row : InboxRow) (now : ℕ) where
  abbrev Marks : Txn RowOutcome → Type 0
  Marks m = (d : Db) → MarkedBy row.id now d (m now d)

  Marks-finish :
      (b : Bool) (r : TransitionResult) (c : Call) (e : ProviderEvent)
      → Marks (finish_row b r row c e)
  unfolding mark_processed emit_audit
  Marks-finish true r c e d = refl
  Marks-finish false r c e d = refl

  Marks-call : (e : ProviderEvent) (o : Option Call) → Marks (process_call deps row e o)
  unfolding mark_processed emit_audit
  Marks-call e none d = refl
  Marks-call e (some c) d = elim (Bool-cases (status_eq e.status_enum c.status)) [
    | inl t ↦ rw t refl
    | inr f ↦ rw f (
        marked_after row.id now d (apply_event deps c e now d)
          (λ r. finish_row (is_no_op r) r row c e)
          ((event_keeps same_inbox (λ m _. move_inbox m) deps c e).at now d)
          (λ r d'. Marks-finish (is_no_op r) r c e d'))
  ]

  raised_or : {A : Type 0} (r : Result A) (d : Db) → SameInbox d (after (raise_or r now d) d)
  raised_or (ok a) d = refl
  raised_or (err e) d = refl

  pub Marks-claimed : Marks (process_claimed deps (some row))
  unfolding process_event
  Marks-claimed d =
      marked_after row.id now d (raise_or (deps.parse_event_fn row.payload) now d)
        (process_event deps row) (raised_or (deps.parse_event_fn row.payload) d)
        (λ e d'.
          marked_after row.id now d' (raise_or (find_call e.provider_call_id d') now d')
            (process_call deps row e) (raised_or (find_call e.provider_call_id d') d')
            (λ o d''. Marks-call e o d''))

abbrev pub waiting : World → ℕ
waiting w = count_where is_unprocessed w.db.inbox

-- A row that waits, with the id.
abbrev pub awaited : ℕ → InboxRow → Bool
awaited i r = row_id i r && is_unprocessed r

found_head :
    (r : InboxRow) (rows : List InboxRow)
    → is_unprocessed r ≡ true
    → any_row (awaited r.id) (r ∷ rows) ≡ true
unfolding any_row
found_head r rows t = rw ((==_iff r.id r.id).1 refl) (rw t refl)

found_tail :
    (i : ℕ) (r : InboxRow) (rows : List InboxRow)
    → any_row (awaited i) rows ≡ true
    → any_row (awaited i) (r ∷ rows) ≡ true
unfolding any_row
found_tail i r rows t = ground arith

pub oldest_in :
    (rows : List InboxRow) (row : InboxRow)
    → oldest_unprocessed rows ≡ some row
    → any_row (awaited row.id) rows ≡ true
unfolding oldest_unprocessed
oldest_in [] row h = cc
oldest_in (r ∷ rows) row h = elim (Bool-cases (is_unprocessed r)) [
  | inr f ↦ found_tail row.id r rows (oldest_in rows row (rw f at h))
  | inl t ↦ elim (Option-cases (oldest_unprocessed rows)) [
    | inl e ↦
        let same : r ≡ row = cc (rw (t, e) at h) in
        subst (λ x. any_row (awaited x.id) (r ∷ rows) ≡ true) same (found_head r rows t)
    | inr (b, e) ↦ elim (Bool-cases (leb r.received_at b.received_at)) [
      | inl k ↦
          let same : r ≡ row = cc (rw (t, e, k) at h) in
          subst (λ x. any_row (awaited x.id) (r ∷ rows) ≡ true) same (found_head r rows t)
      | inr k ↦
          let same : b ≡ row = cc (rw (t, e, k) at h) in
          found_tail row.id r rows (oldest_in rows row (e ∙ ap some same))
    ]
  ]
]

pub fewer_waiting :
    (i now : ℕ) (rows : List InboxRow)
    → (count_where is_unprocessed (marked i now rows) ≤ count_where is_unprocessed rows)
      × (any_row (awaited i) rows ≡ true
          → count_where is_unprocessed (marked i now rows) < count_where is_unprocessed rows)
unfolding count_where update_where any_row is_unprocessed
fewer_waiting i now [] = (omega arith, λ h. cc)
fewer_waiting i now (r ∷ rows) = let (p, q) = fewer_waiting i now rows in ground (arith, p, q)
