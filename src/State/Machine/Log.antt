-- ===== src/State/Machine/Log.antt =====
-- Every change that `transition` makes comes with its audit row, and nothing else does.

use nurix_takehome.Common.{
  ℕ, ◌≡◌, refl, sym, ap, subst, ◌∙◌, ◌⊎◌, inl, inr, true, false, some, List, [], ◌∷◌, ◌++◌,
  append_assoc, first, Bool-cases,
}
use nurix_takehome.Model.Status.{is_terminal, value}
use nurix_takehome.Model.Rows.{Call, AuditEvent, AuditRow, Db}
use nurix_takehome.Model.Txn.{Result, ok, err, after}
use nurix_takehome.State.Machine.{
  Move, TransitionResult, applied_to, meets, assign, move_event, transition,
}
use nurix_takehome.Persistence.Calls.Ids.{first-InTable}
use nurix_takehome.State.Machine.Evolution.{assign_core, meets_facts}
use nurix_takehome.State.Machine.Effects.{audited, settled, table_after}
use nurix_takehome.State.Machine.View.{View, raised, kept, moved, transition-View}
use nurix_takehome.State.Rollup.Log.{Numbered, AuditGrows, AuditGrows-refl, rolled-AuditGrows}

-- What the event says of the row before the move and of the row after it.
pub record IsMoveEvent (m : Move) (before after : Call) (e : AuditEvent) : Type 0 where
  pub event_type : e.event_type ≡ m.event_type
  pub reason : e.reason ≡ m.reason
  pub extra : e.extra ≡ m.extra
  pub call : e.call_id ≡ some before.id
  pub campaign : e.campaign_id ≡ some before.campaign_id
  pub phone : e.phone ≡ some before.phone
  pub state_before : e.state_before ≡ some (value before.status)
  pub state_after : e.state_after ≡ some (value after.status)
  pub epoch : e.attempt_epoch ≡ some after.attempt_epoch

move_event-IsMoveEvent :
    (m : Move) (now : ℕ) (c : Call)
    → meets m c ≡ true
    → IsMoveEvent m c (assign m now c) (move_event m (assign m now c))
unfolding move_event
move_event-IsMoveEvent m now c h =
    let (x, y, z) = meets_facts m now c h in
    let (i, k, p, s, t) = assign_core m now c in
    record {
      event_type = refl;
      reason = refl;
      extra = refl;
      call = ap some (sym x);
      campaign = ap some k;
      phone = ap some p;
      state_before = ap (λ v. some (value v)) (sym y);
      state_after = ap (λ v. some (value v)) (sym s);
      epoch = refl;
    }

module _ (m : Move) (now : ℕ) where
  -- The audit row of the move that left the row `c`, on the log of `d`.
  abbrev pub move_row : Call → Db → AuditRow
  move_row c d = record { id = d.audit_seq; ts = now; event = move_event m c }

  pub settled_log :
      (c : Call) (d : Db)
      → (rows : List AuditRow) × ((settled m now c d).audit ≡ d.audit ++ (move_row c d ∷ rows))
        × Numbered d.audit_seq (move_row c d ∷ rows) (settled m now c d).audit_seq
  unfolding settled
  settled_log c d = elim (Bool-cases (is_terminal m.new_status)) [
    | inl t ↦
        let (rows, e, h) = rolled-AuditGrows c.campaign_id now (audited m now c d) in
        (rows, rw t (e ∙ append_assoc d.audit (move_row c d ∷ []) rows), rw t (refl, h))
    | inr f ↦ ([], rw f refl, rw f (refl, refl))
  ]

  module _ (d : Db) where
    -- What a successful call comes to.
    abbrev pub Logged : TransitionResult → Db → Type 0
    Logged r d' =
        (r.applied ≡ false) × (d' ≡ d)
        ⊎ (c : Call) × (first (meets m) d.calls ≡ some c)
          × (r ≡ applied_to (assign m now c))
          × IsMoveEvent m c (assign m now c) (move_event m (assign m now c))
          × ((rows : List AuditRow) × (d'.audit ≡ d.audit ++ (move_row (assign m now c) d ∷ rows)))

    abbrev LoggedResult : Result (TransitionResult × Db) → Type 0
    LoggedResult (ok (r, d')) = Logged r d'
    LoggedResult (err e) = Unit {0}

    logged-View : (x : Result (TransitionResult × Db)) → View m now d x → LoggedResult x
    logged-View _ (raised e) = tt
    logged-View _ (kept r h) = inl (h, refl)
    logged-View _ (moved c h) =
        let (rows, e, _) =
          settled_log (assign m now c) (record d { calls = table_after m now d }) in
        let met = (first-InTable (meets m) d.calls h.found).1 in
        inr (c, h.found, refl, move_event-IsMoveEvent m now c met, (rows, e))

    -- A call that returns either changes nothing at all and says so, or has met a row, returns it
    -- updated, and has put the audit row of this move directly behind the log. The event of that row has
    -- the call's id, campaign and phone, its status before and after, its epoch after, and what the move
    -- says of the type, the reason and the extra fields.
    pub transition-Logged :
        {r : TransitionResult} {d' : Db} → transition m now d ≡ ok (r, d') → Logged r d'
    transition-Logged e =
        subst LoggedResult e (logged-View (transition m now d) (transition-View m now d))

    log-View : (x : Result (TransitionResult × Db)) → View m now d x → AuditGrows d (after x d)
    log-View _ (raised e) = AuditGrows-refl d
    log-View _ (kept r h) = AuditGrows-refl d
    log-View _ (moved c h) =
        let (rows, e, g) =
          settled_log (assign m now c) (record d { calls = table_after m now d }) in
        (move_row (assign m now c) d ∷ rows, e, g)

    pub transition-AuditGrows : AuditGrows d (after (transition m now d) d)
    transition-AuditGrows = log-View (transition m now d) (transition-View m now d)
