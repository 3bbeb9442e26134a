-- ===== src/Scheduler/Tick/Stall.antt =====
-- Where the pick has nothing to claim, the tick comes to nothing: no call moves, no cursor moves, and
-- the next tick makes the same pick.
use nurix_takehome.Common.{
  ℕ, ◌≡◌, sym, subst, ap, ap₂, ◌∙◌, false, none, some, List, [], ◌∷◌, All-map, All,
}
use nurix_takehome.Model.Rows.{CampaignWithCursor, Db}
use nurix_takehome.Model.Txn.{ok, World}
use nurix_takehome.Model.Task.{continue, done}
use nurix_takehome.Model.Commit.{bind-commit, bind-ok}
use nurix_takehome.Model.Deps.{Deps}
use nurix_takehome.Persistence.Calls.{
  oldest, is_claimable, claim_next_queued, count_retries_due_system, in_flight_count,
}
use nurix_takehome.Persistence.Cursors.{get_last_dispatch_at}
use nurix_takehome.Persistence.Campaigns.{list_eligible_for_tick, is_eligible}
use nurix_takehome.Scheduler.Select.{select, pick, split_hours}
use nurix_takehome.Scheduler.Select.Gates.{
  SameTables, SameTables-refl, SameTables-trans, find_retry_due-same,
}
use nurix_takehome.Scheduler.Select.Sound.{the_pick, select-Returns, capped-same}
use nurix_takehome.Scheduler.Dispatch.{claim_phase, record_claim}
use nurix_takehome.Scheduler.Tick.{Others, dispatch_one, finish_dispatch, run_pick, tick}

-- No other task touches the world while the tick waits.
abbrev pub alone : Others
alone = record { after_pick = λ w. w; after_requeue = λ w. w; during_call = λ w. w }

claim_next_queued-none :
    (i now : ℕ) (d : Db)
    → oldest (is_claimable i now) d.calls ≡ none
    → claim_next_queued i now d ≡ ok (none, d)
unfolding claim_next_queued
claim_next_queued-none i now d e = rw e

claim_phase-none :
    (c : CampaignWithCursor) (now : ℕ) (d : Db)
    → oldest (is_claimable c.id now) d.calls ≡ none
    → claim_phase c now d ≡ ok (none, d)
unfolding claim_phase
claim_phase-none c now d e =
    bind-ok (claim_next_queued c.id)
      (record_claim c (count_retries_due_system now d) (in_flight_count c.id d)
        (get_last_dispatch_at c.id d))
      now d (claim_next_queued-none c.id now d e)

dispatch_one-none :
    (deps : Deps) (c : CampaignWithCursor) (w : World)
    → oldest (is_claimable c.id w.clock) w.db.calls ≡ none
    → dispatch_one deps alone c w ≡ (ok none, w)
unfolding dispatch_one
dispatch_one-none deps c w e =
    bind-commit (claim_phase c) (finish_dispatch deps alone c) w (claim_phase-none c w.clock w.db e)

-- The campaign that a tick in this database picks for a fresh call has no call to claim.
pub record Stalled (deps : Deps) (now : ℕ) (c : CampaignWithCursor) (d : Db) : Type 0 where
  pub in_hours : List CampaignWithCursor
  pub out_of_hours : List CampaignWithCursor
  pub split : split_hours deps.platform now (list_eligible_for_tick d) ≡ ok (in_hours, out_of_hours)
  pub fresh : the_pick deps now d in_hours ≡ some (c, false)
  pub drained : oldest (is_claimable c.id now) d.calls ≡ none

module _ (deps : Deps) (c : CampaignWithCursor) where
  run_pick-none :
      (w : World)
      → oldest (is_claimable c.id w.clock) w.db.calls ≡ none
      → run_pick deps alone (some (c, false)) w
        ≡ (ok (record { campaign_id = none; is_retry = false }), w)
  run_pick-none w e =
      ap (λ p. continue p.0 (λ i. done (record { campaign_id = i; is_retry = false })) p.1)
        (dispatch_one-none deps c w e)

  tick-none :
      (w : World)
      → Stalled deps w.clock c w.db
      → (d : Db) × (tick deps alone w
          ≡ (ok (record { campaign_id = none; is_retry = false }), record w { db = d }))
        × SameTables w.db d
  unfolding tick
  tick-none w s =
      let (d, e, t) = select-Returns deps w.clock w.db s.split in
      (
        d,
        bind-commit (select deps) (run_pick deps alone) w (e ∙ ap (λ q. ok (q, d)) s.fresh)
            ∙ run_pick-none (record w { db = d })
                (subst (λ cs. oldest (is_claimable c.id w.clock) cs ≡ none) (sym t.calls)
                  s.drained),
        t,
      )

pub eligible-same :
    {d d' : Db} → SameTables d d' → list_eligible_for_tick d' ≡ list_eligible_for_tick d
unfolding list_eligible_for_tick is_eligible get_last_dispatch_at
eligible-same {d} {d'} s =
    ap (λ x. list_eligible_for_tick (record d' { campaigns = x })) s.campaigns
    ∙ ap (λ x. list_eligible_for_tick (record d' { campaigns = d.campaigns; calls = x })) s.calls
    ∙ ap
        (λ x.
          list_eligible_for_tick
            (record d' { campaigns = d.campaigns; calls = d.calls; cursors = x }))
        s.cursors

module _ (deps : Deps) (c : CampaignWithCursor) where
  Stalled-same :
      {now : ℕ} {d d' : Db} → SameTables d d' → Stalled deps now c d → Stalled deps now c d'
  Stalled-same {now} {d} {d'} t s = record {
    in_hours = s.in_hours;
    out_of_hours = s.out_of_hours;
    split = ap (split_hours deps.platform now) (eligible-same t) ∙ s.split;
    fresh = ap₂ pick (find_retry_due-same now t) (capped-same now t s.in_hours) ∙ s.fresh;
    drained = subst (λ cs. oldest (is_claimable c.id now) cs ≡ none) (sym t.calls) s.drained;
  }

-- The ticks of a scheduler at these times, where nothing else runs.
unfoldable pub ticks : Deps → List ℕ → World → World
ticks deps [] w = w
ticks deps (t ∷ ts) w = ticks deps ts (tick deps alone (record w { clock = t })).1

-- While the campaign that the tick picks for a fresh call has no call to claim, as when all it has
-- is retries that are not due, nothing is dispatched for any campaign: at all the times at which the
-- pick is so, the ticks together leave the campaigns, the calls, the cursors and the inbox as they
-- were.
pub ticks-Stalled :
    (deps : Deps) (c : CampaignWithCursor) (ts : List ℕ) (w : World)
    → All (λ t. Stalled deps t c w.db) ts
    → SameTables w.db (ticks deps ts w).db
unfolding ticks
ticks-Stalled deps c [] w h = SameTables-refl w.db
ticks-Stalled deps c (t ∷ ts) w (s, rest) =
    let (d, e, k) = tick-none deps c (record w { clock = t }) s in
    let k' = subst (λ r. SameTables w.db r.1.db) (sym e) k in
    SameTables-trans k' (
      ticks-Stalled deps c ts (tick deps alone (record w { clock = t })).1
        (All-map ts (λ u. Stalled-same deps c k') rest))
