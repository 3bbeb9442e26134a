-- ===== src/System/Backlog/Rounds.antt =====
-- How fast the inbox empties, over the rounds of the safety net.
use nurix_takehome.Common.{
  ℕ, zero, suc, ◌+◌, ◌-◌, ◌*◌, ◌≤◌, ◌≡◌, refl, true, false, none, some, List, [], ◌∷◌, arith, inl,
  inr, any_row, count_where, Option-cases, Bool-cases, if◌then◌else◌,
}
use native.Mathlib.Nat.{suc-mul}
use nurix_takehome.Model.Rows.{InboxRow, Db}
use nurix_takehome.Model.Txn.{Result, ok, err, World, commit, settle}
use nurix_takehome.Model.Deps.{Deps}
use nurix_takehome.Persistence.Inbox.{is_unprocessed, oldest_unprocessed, claim_unprocessed_one}
use nurix_takehome.Scheduler.Webhook.{
  RowOutcome, error, process_claimed, outcome_or_error, row_txn, process_one_row, is_empty, drain,
  process_pending_inbox,
}
use nurix_takehome.Scheduler.Webhook.Progress.{empty_row, processed-after_row, inbox-notify}
use nurix_takehome.Scheduler.Daemons.{webhook_inbox_safety_net_loop}
use nurix_takehome.System.Backlog.{
  MarkedBy, Marks-claimed, waiting, awaited, oldest_in, fewer_waiting,
}

module _ (deps : Deps) where
  -- One for a row whose transaction raised.
  abbrev raise_count : RowOutcome → ℕ
  raise_count error = 1
  raise_count _ = 0

  settled_waiting :
      (row : InboxRow) (w : World) (r : Result (RowOutcome × Db))
      → MarkedBy row.id w.clock w.db r
      → any_row (awaited row.id) w.db.inbox ≡ true
      → waiting (settle r w).1 + 1 ≤ waiting w + raise_count (outcome_or_error (settle r w).0)
  settled_waiting row w (err e) k h = omega arith
  settled_waiting row w (ok (o, d)) k h =
      let (p, q) = fewer_waiting row.id w.clock w.db.inbox in rw k (omega (arith, q h))

  -- A row's round takes a row off the backlog, or it raises, or there is no row.
  row_waiting :
      (w : World)
      → is_empty (process_one_row deps w).0 ≡ false
      → waiting (process_one_row deps w).1 + 1 ≤ waiting w + raise_count (process_one_row deps w).0
  unfolding process_one_row commit row_txn claim_unprocessed_one
  row_waiting w h = elim (Option-cases (oldest_unprocessed w.db.inbox)) [
    | inl e ↦ cc (rw e at h)
    | inr (row, e) ↦ rw e (
        settled_waiting row w (process_claimed deps (some row) w.clock w.db)
          (Marks-claimed deps row w.clock w.db) (oldest_in w.db.inbox row e))
  ]

  -- How many of the rounds of a drain raise.
  unfoldable pub raises : ℕ → World → ℕ
  raises zero w = 0
  raises (suc n) w =
      let o = (process_one_row deps w).0 in
      let rest = raises n (process_one_row deps w).1 in
      if is_empty o then 0 else raise_count o + rest

  raises-bound : (n : ℕ) (w : World) → raises n w ≤ n
  unfolding raises
  raises-bound zero w = omega arith
  raises-bound (suc n) w = ground (arith, raises-bound n (process_one_row deps w).1)

  no_row :
      (rows : List InboxRow) → oldest_unprocessed rows ≡ none → count_where is_unprocessed rows ≡ 0
  unfolding oldest_unprocessed count_where
  no_row [] e = refl
  no_row (r ∷ rows) e = elim (Bool-cases (is_unprocessed r)) [
    | inl t ↦ absurd (cc (rw t at e))
    | inr f ↦ rw f (omega (arith, no_row rows (rw f at e)))
  ]

  waiting-drain : (n : ℕ) (w : World) → waiting (drain deps n w).world ≤ waiting w + raises n w - n
  unfolding drain raises
  waiting-drain zero w = omega arith
  waiting-drain (suc n) w = elim (Bool-cases (is_empty (process_one_row deps w).0)) [
    | inl t ↦
        let (e, same) = empty_row deps w t in
        rw t (rw same (rw (no_row w.db.inbox e) (omega arith)))
    | inr f ↦
        let (k, l) =
          processed-after_row deps (process_one_row deps w).0
            (drain deps n (process_one_row deps w).1) in
        rw f (rw l (omega (arith, waiting-drain n (process_one_row deps w).1, row_waiting w f)))
  ]

  abbrev cap : ℕ
  cap = deps.settings.webhook_processor_batch_max

  inbox_waiting :
      (w : World) → waiting (process_pending_inbox deps w).1 ≤ waiting w + raises cap w - cap
  unfolding process_pending_inbox
  inbox_waiting w =
      let r = drain deps cap w in rw (inbox-notify deps r.applied_any r.world) (waiting-drain cap w)

  module _ (asleep : ℕ → World → World) where
    -- How many rows raise over the rounds of the loop.
    unfoldable pub loop_raises : ℕ → World → ℕ
    loop_raises zero w = 0
    loop_raises (suc rounds) w =
        raises cap w + loop_raises rounds (asleep rounds (process_pending_inbox deps w).1)

    loop_raises-bound : (rounds : ℕ) (w : World) → loop_raises rounds w ≤ rounds * cap
    unfolding loop_raises
    loop_raises-bound zero w = omega arith
    loop_raises-bound (suc rounds) w = omega (
      arith,
      suc-mul rounds cap,
      raises-bound cap w,
      loop_raises-bound rounds (asleep rounds (process_pending_inbox deps w).1),
    )

    -- Each round of the safety net takes a full cap off the backlog, but for the rows that raise: after
    -- a number of rounds no more rows wait than did at the start, and the rows that raised, less the
    -- cap for every round, if no more rows wait after a pause than before it. So a backlog without such
    -- rows is gone as soon as the rounds cover it.
    pub safety_net-waiting :
        (rounds : ℕ) (w : World)
        → ((j : ℕ) (u : World) → waiting (asleep j u) ≤ waiting u)
        → waiting (webhook_inbox_safety_net_loop deps asleep rounds w)
          ≤ waiting w + loop_raises rounds w - rounds * cap
    unfolding webhook_inbox_safety_net_loop loop_raises
    safety_net-waiting zero w h = omega arith
    safety_net-waiting (suc rounds) w h =
        let u = (process_pending_inbox deps w).1 in
        omega (
          arith,
          suc-mul rounds cap,
          loop_raises-bound rounds (asleep rounds u),
          safety_net-waiting rounds (asleep rounds u) h,
          h rounds u,
          inbox_waiting w,
        )
