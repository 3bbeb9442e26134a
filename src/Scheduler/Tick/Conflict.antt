-- ===== src/Scheduler/Tick/Conflict.antt =====
-- Where requeueing a due call would break the phone index, the tick raises, and so does the next.
use nurix_takehome.Common.{
  ℕ, ◌≡◌, refl, sym, subst, ap, ap₂, ◌∙◌, true, false, some, List, [], ◌∷◌, All, All-map, any_row,
  update_where,
}
use nurix_takehome.Model.Status.{is_terminal}
use nurix_takehome.Model.Rows.{CampaignWithCursor, Call, Db}
use nurix_takehome.Model.Txn.{pure, Task, ok, err, World, unique_violation}
use nurix_takehome.Model.Task.{done, await_others, ◌>>=◌, ◌>>◌}
use nurix_takehome.Model.Commit.{bind-commit, bind-commit_err, bind-err}
use nurix_takehome.Model.Deps.{Deps}
use nurix_takehome.Persistence.Calls.{phones_unique, oldest}
use nurix_takehome.Persistence.Campaigns.{list_eligible_for_tick}
use nurix_takehome.State.Machine.{transition, is_unauthorized, is_regression, meets, assign}
use nurix_takehome.State.Machine.Effects.{table_after, transition-conflict}
use nurix_takehome.Scheduler.Select.{select, pick, split_hours}
use nurix_takehome.Scheduler.Select.Gates.{
  SameTables, SameTables-refl, SameTables-trans, find_retry_due-same,
}
use nurix_takehome.Scheduler.Select.Sound.{the_pick, select-Returns, capped-same}
use nurix_takehome.Scheduler.Dispatch.{is_requeueable, requeue_move, requeue_oldest_retry_due}
use nurix_takehome.Scheduler.Tick.{TickDecision, dispatch_one, run_pick, tick}
use nurix_takehome.Scheduler.Tick.Stall.{alone, ticks, eligible-same}

-- The pick is a retry, and its oldest due row cannot be queued: the index would refuse the table.
pub record Blocked (deps : Deps) (now : ℕ) (c : CampaignWithCursor) (r : Call) (d : Db)
    : Type 0 where
  pub in_hours : List CampaignWithCursor
  pub out_of_hours : List CampaignWithCursor
  pub split : split_hours deps.platform now (list_eligible_for_tick d) ≡ ok (in_hours, out_of_hours)
  pub retry : the_pick deps now d in_hours ≡ some (c, true)
  pub due : oldest (is_requeueable c.id now) d.calls ≡ some r
  pub clash : phones_unique (table_after (requeue_move r) now d) ≡ false

unlisted : (r : Call) → any_row is_unauthorized (requeue_move r).column_updates ≡ false
unfolding any_row
unlisted r = refl

onward : (r : Call) → is_regression (requeue_move r) ≡ false
unfolding is_regression is_terminal
onward r = refl

requeue-err :
    (i now : ℕ) (d : Db) (r : Call)
    → oldest (is_requeueable i now) d.calls ≡ some r
    → phones_unique (table_after (requeue_move r) now d) ≡ false
    → requeue_oldest_retry_due i now d ≡ err unique_violation
unfolding requeue_oldest_retry_due
requeue-err i now d r e h = rw e (
    bind-err (transition (requeue_move r)) (λ result. pure tt) now d
      (transition-conflict (requeue_move r) now d (unlisted r) (onward r) h))

module _ (deps : Deps) (c : CampaignWithCursor) (r : Call) where
  -- The dispatch that does not come to pass.
  rest_of_pick : Task TickDecision
  rest_of_pick = do
    await_others alone.after_requeue
    dispatched ← dispatch_one deps alone c
    done (record { campaign_id = dispatched; is_retry = true })

  run_pick-err :
      (w : World)
      → oldest (is_requeueable c.id w.clock) w.db.calls ≡ some r
      → phones_unique (table_after (requeue_move r) w.clock w.db) ≡ false
      → run_pick deps alone (some (c, true)) w ≡ (err unique_violation, w)
  unfolding rest_of_pick
  run_pick-err w e h =
      bind-commit_err (requeue_oldest_retry_due c.id) (λ _. rest_of_pick) w
        (requeue-err c.id w.clock w.db r e h)

  tick-err :
      (w : World)
      → Blocked deps w.clock c r w.db
      → (d : Db) × (tick deps alone w ≡ (err unique_violation, record w { db = d }))
        × SameTables w.db d
  unfolding tick
  tick-err w b =
      let (d, e, t) = select-Returns deps w.clock w.db b.split in
      (
        d,
        bind-commit (select deps) (run_pick deps alone) w (e ∙ ap (λ q. ok (q, d)) b.retry)
            ∙ run_pick-err (record w { db = d })
                (subst (λ cs. oldest (is_requeueable c.id w.clock) cs ≡ some r) (sym t.calls) b.due)
                (subst
                  (λ cs.
                    phones_unique
                      (update_where (meets (requeue_move r)) (assign (requeue_move r) w.clock) cs)
                    ≡ false)
                  (sym t.calls) b.clash),
        t,
      )

  Blocked-same :
      {now : ℕ} {d d' : Db} → SameTables d d' → Blocked deps now c r d → Blocked deps now c r d'
  Blocked-same {now} {d} {d'} t b = record {
    in_hours = b.in_hours;
    out_of_hours = b.out_of_hours;
    split = ap (split_hours deps.platform now) (eligible-same t) ∙ b.split;
    retry = ap₂ pick (find_retry_due-same now t) (capped-same now t b.in_hours) ∙ b.retry;
    due = subst (λ cs. oldest (is_requeueable c.id now) cs ≡ some r) (sym t.calls) b.due;
    clash =
        subst
          (λ cs.
            phones_unique (update_where (meets (requeue_move r)) (assign (requeue_move r) now) cs)
            ≡ false)
          (sym t.calls) b.clash;
  }

-- While the oldest due retry of the picked campaign cannot be queued, because the phone index refuses
-- the table that would come of it, the ticks at all the times at which the pick is so together leave
-- the campaigns, the calls, the cursors and the inbox as they were.
pub ticks-Blocked :
    (deps : Deps) (c : CampaignWithCursor) (r : Call) (ts : List ℕ) (w : World)
    → All (λ t. Blocked deps t c r w.db) ts
    → SameTables w.db (ticks deps ts w).db
unfolding ticks
ticks-Blocked deps c r [] w h = SameTables-refl w.db
ticks-Blocked deps c r (t ∷ ts) w (s, rest) =
    let (d, e, k) = tick-err deps c r (record w { clock = t }) s in
    let k' = subst (λ r. SameTables w.db r.1.db) (sym e) k in
    SameTables-trans k' (
      ticks-Blocked deps c r ts (tick deps alone (record w { clock = t })).1
        (All-map ts (λ u. Blocked-same deps c r k') rest))
