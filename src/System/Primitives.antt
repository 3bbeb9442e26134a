-- ===== src/System/Primitives.antt =====
-- The operations on the database that the tasks are built from, and the transactions of the tasks.
use nurix_takehome.Common.{
  ℕ, Bool, true, false, Option, none, some, List, [], ◌∷◌, ltb, Bool-cases, inl, inr, map, arith,
}
use nurix_takehome.Model.Status.{pending, campaign_status_eq}
use nurix_takehome.Model.Rows.{AuditEvent, Call, CampaignWithCursor, Db}
use nurix_takehome.Model.Txn.{Result, ok, err, pure, ◌>>=◌}
use nurix_takehome.Model.Keeps.{IsPreorder, Keeps, Keeps-pure, Keeps-bind}
use nurix_takehome.Model.Deps.{Deps, PlaceOutcome}
use nurix_takehome.Audit.{emit_audit}
use nurix_takehome.Persistence.Calls.{
  oldest, claim_next_queued, count_of, in_flight_count, count_retries_due_system,
  in_flight_counts_by_campaign, find_retry_due_campaign_ids,
}
use nurix_takehome.Persistence.Campaigns.{list_eligible_for_tick}
use nurix_takehome.Persistence.Cursors.{get_last_dispatch_at, update_last_dispatch_at}
use nurix_takehome.Persistence.Inbox.{mark_processed}
use nurix_takehome.State.Machine.{Move, transition}
use nurix_takehome.State.Machine.Evolution.{Advances}
use nurix_takehome.State.Rollup.{maybe_promote_to_active}
use nurix_takehome.Scheduler.Select.{
  select, gate, gate_one, keep, survivors, by_hours, id_of, pick, split_hours, skip_hours,
}
use nurix_takehome.Scheduler.Dispatch.{
  requeue_oldest_retry_due, requeue_row, requeue_move, is_requeueable, record_claim, promote_if,
  claim_phase, outcome_phase, outcome_move,
}

pub record Primitives (R : Db → Db → Type 0) : Type 0 where
  pub order : IsPreorder R
  pub audit : (e : AuditEvent) → Keeps R (emit_audit e)
  pub move : (m : Move) → Advances m → Keeps R (transition m)
  pub claim : (i : ℕ) → Keeps R (claim_next_queued i)
  pub promote : (i : ℕ) → Keeps R (maybe_promote_to_active i)
  pub cursor : (i ts : ℕ) → Keeps R (update_last_dispatch_at i ts)
  pub mark : (i : ℕ) → Keeps R (mark_processed i)

module _ {R : Db → Db → Type 0} (p : Primitives R) where
  skip_hours_keeps : (cs : List CampaignWithCursor) → Keeps R (skip_hours cs)
  unfolding skip_hours
  skip_hours_keeps [] = Keeps-pure p.order tt
  skip_hours_keeps (c ∷ cs) = Keeps-bind p.order _ _ (p.audit _) (λ _. skip_hours_keeps cs)

  gate_one_keeps : (c : CampaignWithCursor) (n : ℕ) → Keeps R (gate_one c n)
  gate_one_keeps c n = record {
    at = λ now d. elim (Bool-cases (ltb n c.max_concurrent)) [
      | inl t ↦ rw t (p.order.reflexive d)
      | inr f ↦ rw f ((Keeps-bind p.order _ _ (p.audit _) (λ _. Keeps-pure p.order false)).at now d)
    ];
  }

  gate_keeps : (counts : List (ℕ × ℕ)) (cs : List CampaignWithCursor) → Keeps R (gate counts cs)
  unfolding gate
  gate_keeps counts [] = Keeps-pure p.order []
  gate_keeps counts (c ∷ cs) =
      Keeps-bind p.order (gate_one c (count_of c.id counts))
        (λ b. gate counts cs >>= λ r. pure (keep b c r)) (gate_one_keeps c (count_of c.id counts))
        (λ b.
          Keeps-bind p.order (gate counts cs) (λ r. pure (keep b c r)) (gate_keeps counts cs)
            (λ r. Keeps-pure p.order (keep b c r)))

  survivors_keeps : (cs : List CampaignWithCursor) → Keeps R (survivors cs)
  survivors_keeps cs = record {
    at = λ now d.
        (Keeps-bind p.order (gate (in_flight_counts_by_campaign (map id_of cs) d) cs)
            (λ capped now' d'. ok (pick (find_retry_due_campaign_ids now' d') capped, d'))
            (gate_keeps (in_flight_counts_by_campaign (map id_of cs) d) cs)
            (λ capped. record { at = λ now' d'. p.order.reflexive d' })).at
          now d;
  }

  by_hours_keeps :
      (r : Result (List CampaignWithCursor × List CampaignWithCursor)) → Keeps R (by_hours r)
  by_hours_keeps (err e) = record { at = λ now d. p.order.reflexive d }
  by_hours_keeps (ok (xs, ys)) = record {
    at = λ now d.
        (Keeps-bind p.order (skip_hours ys) (λ _. survivors xs) (skip_hours_keeps ys)
            (λ _. survivors_keeps xs)).at
          now d;
  }

  pub select_keeps : (deps : Deps) → Keeps R (select deps)
  unfolding select
  select_keeps deps = record {
    at = λ now d.
        (by_hours_keeps (split_hours deps.platform now (list_eligible_for_tick d))).at now d;
  }

  requeue_row_keeps : (o : Option Call) → Keeps R (requeue_row o)
  requeue_row_keeps none = Keeps-pure p.order tt
  requeue_row_keeps (some c) =
      Keeps-bind p.order (transition (requeue_move c)) (λ _. pure tt)
        (p.move (requeue_move c) (omega arith)) (λ _. Keeps-pure p.order tt)

  pub requeue_keeps : (i : ℕ) → Keeps R (requeue_oldest_retry_due i)
  unfolding requeue_oldest_retry_due
  requeue_keeps i = record {
    at = λ now d. (requeue_row_keeps (oldest (is_requeueable i now) d.calls)).at now d;
  }

  promote_if_keeps : (b : Bool) (i : ℕ) → Keeps R (promote_if b i)
  promote_if_keeps true i = p.promote i
  promote_if_keeps false i = Keeps-pure p.order tt

  record_claim_keeps :
      (c : CampaignWithCursor) (r n : ℕ) (t : Option ℕ) (o : Option Call)
      → Keeps R (record_claim c r n t o)
  record_claim_keeps c r n t none = Keeps-pure p.order none
  record_claim_keeps c r n t (some k) =
      Keeps-bind p.order _
        (λ _. promote_if (campaign_status_eq c.status pending) c.id >>= λ _. pure (some k))
        (p.audit _)
        (λ _.
          Keeps-bind p.order (promote_if (campaign_status_eq c.status pending) c.id)
            (λ _. pure (some k)) (promote_if_keeps _ c.id) (λ _. Keeps-pure p.order (some k)))

  pub claim_phase_keeps : (c : CampaignWithCursor) → Keeps R (claim_phase c)
  unfolding claim_phase
  claim_phase_keeps c = record {
    at = λ now d.
        let f =
          record_claim c (count_retries_due_system now d) (in_flight_count c.id d)
            (get_last_dispatch_at c.id d) in
        (Keeps-bind p.order (claim_next_queued c.id) f (p.claim c.id) (
            record_claim_keeps c (count_retries_due_system now d) (in_flight_count c.id d)
              (get_last_dispatch_at c.id d))).at
          now d;
  }

  outcome_move-Advances :
      (deps : Deps) (c : Call) (base : ℕ) (o : PlaceOutcome) (now : ℕ)
      → Advances (outcome_move deps c base o now)
  unfolding outcome_move
  outcome_move-Advances deps c base o now = ground arith

  pub outcome_phase_keeps :
      (deps : Deps) (k : CampaignWithCursor) (c : Call) (base : ℕ) (o : PlaceOutcome)
      → Keeps R (outcome_phase deps k c base o)
  unfolding outcome_phase
  outcome_phase_keeps deps k c base o = record {
    at = λ now d.
        (Keeps-bind p.order (transition (outcome_move deps c base o now))
            (λ _. update_last_dispatch_at k.id now)
            (p.move _ (outcome_move-Advances deps c base o now)) (λ _. p.cursor k.id now)).at
          now d;
  }
