-- ===== src/System/Cap.antt =====
-- The concurrency cap over a tick that nothing interleaves with.
pub mod Bound
use nurix_takehome.Common.{
  ℕ, ◌+◌, ◌≤◌, ◌<◌, ◌≡◌, refl, sym, ap, subst, ◌∙◌, ◌⊎◌, inl, inr, Bool, true, false, Option, none,
  some, List, [], ◌∷◌, arith, ◌==◌, ==_iff, InList, All, if◌then◌else◌, count_where, Bool-cases,
}
use nurix_takehome.Model.Status.{queued, pending, campaign_status_eq}
use nurix_takehome.Model.Rows.{AuditEvent, Call, CampaignWithCursor, Db}
use nurix_takehome.Model.Txn
use nurix_takehome.Model.Txn.{Result, ok, err, World, Txn, pure, gets, after, commit}
use nurix_takehome.Model.Keeps.{IsPreorder, Keeps, Keeps-pure, Keeps-gets, Keeps-bind}
use nurix_takehome.Model.Deps.{Deps, PlaceOutcome, accepted, rejected, unavailable, crashed}
use nurix_takehome.Audit.{emit_audit}
use nurix_takehome.Persistence.Calls.{
  is_in_flight, occupies, in_flight_count, oldest, count_retries_due_system, claim_next_queued,
}
use nurix_takehome.Persistence.Calls.Ids.{ids_unique}
use nurix_takehome.Persistence.Calls.InFlight.{count_where-update, claim_next_queued-in_flight}
use nurix_takehome.Persistence.Cursors.{get_last_dispatch_at, update_last_dispatch_at}
use nurix_takehome.State.Machine.{Move, TransitionResult, assign, meets, transition}
use nurix_takehome.State.Machine.Effects.{calls-settled, table_after}
use nurix_takehome.State.Machine.Evolution.{assign_core, meets_facts}
use nurix_takehome.State.Machine.View.{View, raised, kept, moved, transition-View}
use nurix_takehome.State.Lifecycle.{All-always}
use nurix_takehome.State.Rollup.{maybe_promote_to_active}
use nurix_takehome.State.Rollup.Frame.{promoted, promote-eq-ok, calls-promoted}
use nurix_takehome.Scheduler.Dispatch.{
  is_requeueable, requeue_move, requeue_row, requeue_oldest_retry_due, promote_if, record_claim,
  claim_phase, outcome_move, outcome_phase,
}

-- No more calls of the campaign are in flight than before.
abbrev pub NoMore : ℕ → Db → Db → Type 0
NoMore j d d' = in_flight_count j d' ≤ in_flight_count j d

pub NoMore-same : (j : ℕ) (d d' : Db) → d'.calls ≡ d.calls → NoMore j d d'
unfolding in_flight_count
NoMore-same j d d' e = rw e (omega arith)

no_more : (j : ℕ) → IsPreorder (NoMore j)
no_more j = record {
  reflexive = λ d. NoMore-same j d d refl;
  transitive = λ a b c h k. omega arith;
}

-- A move that takes no call into flight.
abbrev Calm : Move → Type 0
Calm m = is_in_flight m.new_status ≡ true → is_in_flight m.expected_status ≡ true

no_flight : is_in_flight queued ≡ true → ⊥
unfolding is_in_flight
no_flight h = cc

module _ (j : ℕ) where
  assign-Calm :
      (m : Move) (now : ℕ) (x : Call)
      → Calm m
      → meets m x ≡ true
      → occupies j (assign m now x) ≡ true
      → occupies j x ≡ true
  assign-Calm m now x c h k =
      let (_, campaign, _, new, _) = assign_core m now x in
      let (_, old, _) = meets_facts m now x h in
      let k' = rw (campaign, new) at k in rw old (ground (arith, c))

  moved_table :
      (m : Move) (now : ℕ) (d : Db)
      → Calm m
      → count_where (occupies j) (table_after m now d) ≤ in_flight_count j d
  unfolding in_flight_count
  moved_table m now d c =
      count_where-update (occupies j) (meets m) (assign m now) d.calls
        (All-always _ d.calls (λ x. assign-Calm m now x c))

  Calm-View :
      (m : Move) (now : ℕ) (d : Db)
      → Calm m
      → (r : Result (TransitionResult × Db)) → View m now d r
      → NoMore j d (after r d)
  unfolding in_flight_count
  Calm-View m now d c _ (raised e) = NoMore-same j d d refl
  Calm-View m now d c _ (kept r h) = NoMore-same j d d refl
  Calm-View m now d c _ (moved b h) =
      subst (λ cs. count_where (occupies j) cs ≤ in_flight_count j d)
        (sym (calls-settled m now (assign m now b) (record d { calls = table_after m now d })))
        (moved_table m now d c)

  move-NoMore : (m : Move) → Calm m → Keeps (NoMore j) (transition m)
  move-NoMore m c = record {
    at = λ now d. Calm-View m now d c (transition m now d) (transition-View m now d);
  }

  requeue_row-NoMore : (o : Option Call) → Keeps (NoMore j) (requeue_row o)
  unfolding is_in_flight
  requeue_row-NoMore none = Keeps-pure (no_more j) tt
  requeue_row-NoMore (some c) =
      Keeps-bind (no_more j) (transition (requeue_move c)) (λ _. pure tt)
        (move-NoMore (requeue_move c) (λ h. absurd (no_flight h))) (λ _. Keeps-pure (no_more j) tt)

  pub requeue-NoMore : (i : ℕ) → Keeps (NoMore j) (requeue_oldest_retry_due i)
  unfolding requeue_oldest_retry_due
  requeue-NoMore i = record {
    at = λ now d. (requeue_row-NoMore (oldest (is_requeueable i now) d.calls)).at now d;
  }

  from_dialing :
      (deps : Deps) (c : Call) (base : ℕ) (o : PlaceOutcome) (now : ℕ)
      → Calm (outcome_move deps c base o now)
  unfolding outcome_move is_in_flight
  from_dialing deps c base o now h = ground arith

  pub outcome-NoMore :
      (deps : Deps) (k : CampaignWithCursor) (c : Call) (base : ℕ) (o : PlaceOutcome)
      → Keeps (NoMore j) (outcome_phase deps k c base o)
  unfolding outcome_phase update_last_dispatch_at
  outcome-NoMore deps k c base o = record {
    at = λ now d.
        (Keeps-bind (no_more j) (transition (outcome_move deps c base o now))
            (λ _. update_last_dispatch_at k.id now) (move-NoMore _ (from_dialing deps c base o now))
            (λ _. record { at = λ now d. NoMore-same j d _ refl })).at
          now d;
  }

  promote_if-NoMore : (b : Bool) (i : ℕ) → Keeps (NoMore j) (promote_if b i)
  promote_if-NoMore true i = record {
    at = λ now d.
        rw (promote-eq-ok i now d) (NoMore-same j d (promoted i now d) (calls-promoted i now d));
  }
  promote_if-NoMore false i = Keeps-pure (no_more j) tt

  audit-NoMore : (e : AuditEvent) → Keeps (NoMore j) (emit_audit e)
  unfolding emit_audit
  audit-NoMore e = record { at = λ now d. NoMore-same j d _ refl }

  record_claim-NoMore :
      (c : CampaignWithCursor) (r n : ℕ) (t : Option ℕ) (o : Option Call)
      → Keeps (NoMore j) (record_claim c r n t o)
  record_claim-NoMore c r n t none = Keeps-pure (no_more j) none
  record_claim-NoMore c r n t (some k) =
      Keeps-bind (no_more j) _
        (λ _.
          Txn.◌>>=◌ (promote_if (campaign_status_eq c.status pending) c.id) (λ _. pure (some k)))
        (audit-NoMore _)
        (λ _.
          Keeps-bind (no_more j) (promote_if (campaign_status_eq c.status pending) c.id)
            (λ _. pure (some k)) (promote_if-NoMore _ c.id) (λ _. Keeps-pure (no_more j) (some k)))

  raised_by :
      (r : Result (Option Call × Db)) (f : Option Call → Txn (Option Call)) (now : ℕ) (d : Db)
      (n : ℕ)
      → in_flight_count j (after r d) ≤ n
      → in_flight_count j d ≤ n
      → ((o : Option Call) → Keeps (NoMore j) (f o))
      → in_flight_count j
          (after {A = Option Call} (elim r [ ok (a, d') ↦ f a now d' | err e ↦ err e ]) d)
        ≤ n
  raised_by (err e) f now d n h b k = b
  raised_by (ok (a, d')) f now d n h b k = second (f a now d') ((k a).at now d')
    where
      second :
          (x : Result (Option Call × Db))
          → NoMore j d' (after x d')
          → in_flight_count j (after x d) ≤ n
      second (ok (_, c)) l = omega arith
      second (err e) l = b

  -- Phase 1 takes one call into flight at most, and that for its own campaign.
  pub claim_phase_raises :
      (c : CampaignWithCursor) (now : ℕ) (d : Db)
      → ids_unique d.calls ≡ true
      → in_flight_count j (after (claim_phase c now d) d)
        ≤ in_flight_count j d + (if c.id == j then 1 else 0)
  unfolding claim_phase
  claim_phase_raises c now d u =
      let a = count_retries_due_system now d in
      let b = in_flight_count c.id d in
      let t = get_last_dispatch_at c.id d in
      raised_by (claim_next_queued c.id now d) (record_claim c a b t) now d
        (in_flight_count j d + (if c.id == j then 1 else 0))
        (claim_next_queued-in_flight c.id j now d u) (omega arith) (record_claim-NoMore c a b t)
