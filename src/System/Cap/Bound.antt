-- ===== src/System/Cap/Bound.antt =====
-- The cap over a whole tick that nothing interleaves with.
use nurix_takehome.Common.{
  ℕ, ◌+◌, ◌≤◌, ◌<◌, ◌≡◌, refl, sym, subst, ◌⊎◌, inl, inr, Bool, true, false, Option, none, some,
  arith, ◌==◌, ==_iff, InList, if◌then◌else◌, Bool-cases,
}
use nurix_takehome.Model.Rows.{Call, CampaignWithCursor, Db}
use nurix_takehome.Model.Txn.{Result, ok, err, World, commit}
use nurix_takehome.Model.Task.{done, lift, await_others, continue, ◌>>=◌}
use nurix_takehome.Model.Keeps.{
  KeepsTask, KeepsTask-done, KeepsTask-lift, KeepsTask-commit, KeepsTask-bind, KeepsTask-await,
  continue_keeps, db-commit,
}
use nurix_takehome.Model.Commit.{bind-commit, bind-commit_err}
use nurix_takehome.Model.Deps.{Deps}
use nurix_takehome.Persistence.Calls.{in_flight_count}
use nurix_takehome.Persistence.Calls.Ids.{ids_unique}
use nurix_takehome.Persistence.Campaigns.{list_eligible_for_tick}
use nurix_takehome.Scheduler.Config.{tick_base_seconds}
use nurix_takehome.Scheduler.Dispatch.{
  requeue_oldest_retry_due, claim_phase, idem_key, placed, outcome_phase,
}
use nurix_takehome.Scheduler.Select.{select, split_hours}
use nurix_takehome.Scheduler.Select.Gates.{SameTables}
use nurix_takehome.Scheduler.Select.Sound.{
  Picked, select-Picked, select-Returns, select-err, the_pick, result_cases,
}
use nurix_takehome.Scheduler.Tick.{
  TickDecision, finish_dispatch, dispatch_one, requeue_if, run_pick, tick,
}
use nurix_takehome.Scheduler.Tick.Stall.{alone}
use nurix_takehome.System.Primitives.{requeue_keeps}
use nurix_takehome.System.Lifecycle.{calls_evolve}
use nurix_takehome.System.Cap.{
  NoMore, NoMore-same, no_more, requeue-NoMore, outcome-NoMore, claim_phase_raises,
}

-- How many more calls of campaign `j` a dispatch for campaign `i` may take into flight.
abbrev one_if : ℕ → ℕ → ℕ
one_if i j = if i == j then 1 else 0

module _ (deps : Deps) (j : ℕ) where
  finish-NoMore :
      (c : CampaignWithCursor) (o : Option Call)
      → KeepsTask (NoMore j) (finish_dispatch deps alone c o)
  finish-NoMore c none = KeepsTask-done (no_more j) none
  finish-NoMore c (some x) =
      KeepsTask-bind (no_more j) (lift (placed (deps.place_call (idem_key x) x.phone))) _
        (KeepsTask-lift (no_more j) _)
        (λ outcome.
          KeepsTask-bind (no_more j) (await_others alone.during_call) _
            (KeepsTask-await _ (λ w. NoMore-same j w.db w.db refl))
            (λ _.
              KeepsTask-bind (no_more j) (lift (tick_base_seconds deps c.retry_config)) _
                (KeepsTask-lift (no_more j) _)
                (λ base.
                  KeepsTask-bind (no_more j) (commit (outcome_phase deps c x base outcome)) _
                    (KeepsTask-commit (no_more j) _ (outcome-NoMore j deps c x base outcome))
                    (λ _. KeepsTask-done (no_more j) (some c.id)))))

  dispatch_raises :
      (c : CampaignWithCursor) (w : World)
      → ids_unique w.db.calls ≡ true
      → in_flight_count j (dispatch_one deps alone c w).1.db
        ≤ in_flight_count j w.db + one_if c.id j
  unfolding dispatch_one
  dispatch_raises c w u =
      let t = commit (claim_phase c) w in
      let rest =
        continue_keeps (no_more j) t.0 (finish_dispatch deps alone c) t.1 (finish-NoMore c) in
      let first =
        subst (λ z. in_flight_count j z ≤ in_flight_count j w.db + one_if c.id j)
          (sym (db-commit (claim_phase c) w)) (claim_phase_raises j c w.clock w.db u) in
      omega arith

  requeue_if-NoMore : (b : Bool) (i : ℕ) → KeepsTask (NoMore j) (requeue_if b i)
  requeue_if-NoMore true i = KeepsTask-commit (no_more j) _ (requeue-NoMore j i)
  requeue_if-NoMore false i = KeepsTask-done (no_more j) tt

requeue_if_ids :
    (b : Bool) (i : ℕ) (w : World)
    → ids_unique w.db.calls ≡ true
    → ids_unique (requeue_if b i w).1.db.calls ≡ true
requeue_if_ids true i w u =
    rw (db-commit (requeue_oldest_retry_due i) w)
      (((requeue_keeps calls_evolve i).at w.clock w.db u).0)
requeue_if_ids false i w u = u

-- What a tick does to the number of calls of campaign `j` in flight.
abbrev pub Capped : Db → ℕ → Db → Type 0
Capped d j d' =
    NoMore j d d'
    ⊎ (c : CampaignWithCursor) × (c.id ≡ j)
      × InList c (list_eligible_for_tick d)
      × (in_flight_count j d' ≤ c.max_concurrent)

module _ (deps : Deps) (j : ℕ) where
  dispatch_after :
      (c : CampaignWithCursor) (b : Bool) (r : Result (Unit {0})) (w : World)
      → ids_unique w.db.calls ≡ true
      → in_flight_count j
          (continue {B = TickDecision} r
            (λ _.
              (dispatch_one deps alone c >>= λ x. done (record { campaign_id = x; is_retry = b })))
            w).1.db
        ≤ in_flight_count j w.db + one_if c.id j
  dispatch_after c b (err e) w u = omega arith
  dispatch_after c b (ok _) w u = elim (result_cases (dispatch_one deps alone c w).0) [
    | inl (x, e) ↦ rw e (dispatch_raises deps j c w u)
    | inr (x, e) ↦ rw e (dispatch_raises deps j c w u)
  ]

  run_pick_raises :
      (c : CampaignWithCursor) (b : Bool) (w : World)
      → ids_unique w.db.calls ≡ true
      → in_flight_count j (run_pick deps alone (some (c, b)) w).1.db
        ≤ in_flight_count j w.db + one_if c.id j
  run_pick_raises c b w u =
      let t = requeue_if b c.id w in
      let before = (requeue_if-NoMore deps j b c.id).at w in
      let rest : in_flight_count j (run_pick deps alone (some (c, b)) w).1.db
          ≤ in_flight_count j t.1.db + one_if c.id j =
        dispatch_after c b t.0 t.1 (requeue_if_ids b c.id w u) in
      omega arith

  Capped-pick :
      (w : World) (d : Db) (c : CampaignWithCursor) (b : Bool)
      → ids_unique w.db.calls ≡ true
      → SameTables w.db d
      → Picked deps w.clock w.db c b
      → Capped w.db j (run_pick deps alone (some (c, b)) (record w { db = d })).1.db
  Capped-pick w d c b u t p =
      let raised = run_pick_raises c b (record w { db = d }) (rw t.calls u) in
      let same = NoMore-same j w.db d t.calls in
      elim (Bool-cases (c.id == j)) [
        | inr f ↦ inl (let r' = rw f at raised in omega arith)
        | inl h ↦
            let k = (==_iff c.id j).0 h in
            let below = subst (λ i. in_flight_count i w.db < c.max_concurrent) k p.below in
            inr (c, k, p.eligible, (let r' = rw h at raised in omega arith))
      ]

  Capped-by :
      (w : World) (d : Db) (o : Option (CampaignWithCursor × Bool))
      → ids_unique w.db.calls ≡ true
      → select deps w.clock w.db ≡ ok (o, d)
      → SameTables w.db d
      → Capped w.db j (run_pick deps alone o (record w { db = d })).1.db
  Capped-by w d none u e t = inl (NoMore-same j w.db d t.calls)
  Capped-by w d (some (c, b)) u e t = Capped-pick w d c b u t (select-Picked deps w.clock w.db e).0

  -- A tick that nothing interleaves with takes no campaign over its cap: of each campaign no more
  -- calls are in flight after it than before, or the campaign was eligible and they are within its
  -- `max_concurrent`.
  pub tick-Capped :
      (w : World) → ids_unique w.db.calls ≡ true → Capped w.db j (tick deps alone w).1.db
  unfolding tick
  tick-Capped w u =
      elim (result_cases (split_hours deps.platform w.clock (list_eligible_for_tick w.db))) [
        | inr (z, e) ↦ inl (
            subst (λ r. NoMore j w.db r.1.db)
              (sym (
                bind-commit_err (select deps) (run_pick deps alone) w
                  (select-err deps w.clock w.db e)))
              (NoMore-same j w.db w.db refl))
        | inl ((xs, ys), e) ↦
            let (d, g, t) = select-Returns deps w.clock w.db e in
            subst (λ r. Capped w.db j r.1.db)
              (sym (bind-commit (select deps) (run_pick deps alone) w g))
              (Capped-by w d (the_pick deps w.clock w.db xs) u g t)
      ]
