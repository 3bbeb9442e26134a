-- ===== src/State/Machine/Stored.antt =====
-- The row that a transition returns is the row that the table holds afterwards.
use nurix_takehome.Common.{
  ℕ, ◌≡◌, refl, ap, subst, ◌∙◌, Bool, true, none, some, List, [], ◌∷◌, arith, ==_iff, InList, first,
  update_where, inl, inr,
}
use nurix_takehome.Model.Rows.{Call, Db}
use nurix_takehome.Model.Txn.{Result, ok, err}
use nurix_takehome.Persistence.Calls.{has_id, get}
use nurix_takehome.Persistence.Calls.Ids.{ids_unique, first-InTable, in_any}
use nurix_takehome.State.Machine.{
  Move, TransitionResult, applied_to, or_epoch, meets, assign, transition,
}
use nurix_takehome.State.Machine.Effects.{calls-settled, table_after}
use nurix_takehome.State.Machine.Evolution.{assign_core, meets_facts}
use nurix_takehome.State.Machine.View.{View, raised, kept, moved, transition-View}

first-updated :
    (p : Call → Bool) (f : Call → Call) (xs : List Call) (b : Call)
    → ((x : Call) → (f x).id ≡ x.id)
    → ids_unique xs ≡ true
    → InList b xs
    → p b ≡ true
    → first (has_id b.id) (update_where p f xs) ≡ some (f b)
unfolding first update_where ids_unique
first-updated p f [] b h u k t = absurd k
first-updated p f (x ∷ xs) b h u (inl e) t = ground (arith, h x, e)
first-updated p f (x ∷ xs) b h u (inr k) t =
    ground
      (arith, h x, ==_iff x.id b.id, in_any b xs k, first-updated p f xs b h (ground arith) k t)

module _ (m : Move) (now : ℕ) (d : Db) (u : ids_unique d.calls ≡ true) where
  -- The row moved is the row with the id of the move, and it is stored as it was assigned.
  abbrev pub Stored : Result (TransitionResult × Db) → Type 0
  Stored (err e) = Unit {0}
  Stored (ok (r, d')) =
      r.applied ≡ true
      → (b : Call) × (first (meets m) d.calls ≡ some b)
        × (r ≡ applied_to (assign m now b))
        × (get m.call_id d' ≡ some (assign m now b))

  stored_row :
      (b : Call)
      → first (meets m) d.calls ≡ some b
      → first (has_id m.call_id) (table_after m now d) ≡ some (assign m now b)
  stored_row b e =
      let (stands, met) = first-InTable (meets m) d.calls e in
      subst (λ i. first (has_id i) (table_after m now d) ≡ some (assign m now b))
        ((meets_facts m now b met).0)
        (first-updated (meets m) (assign m now) d.calls b (λ x. (assign_core m now x).0) u stands
          met)

  Stored-View : (x : Result (TransitionResult × Db)) → View m now d x → Stored x
  unfolding get
  Stored-View _ (raised e) = tt
  Stored-View _ (kept r h) = λ a. cc
  Stored-View _ (moved b h) = λ a. (
    b,
    h.found,
    refl,
    ap (first (has_id m.call_id))
          (calls-settled m now (assign m now b) (record d { calls = table_after m now d }))
        ∙ stored_row b h.found,
  )

  pub stored_lem : Stored (transition m now d)
  stored_lem = Stored-View (transition m now d) (transition-View m now d)

pub transition-Stored :
    (m : Move) (now : ℕ) (d : Db) {r : TransitionResult} {d' : Db} (u : ids_unique d.calls ≡ true)
    → transition m now d ≡ ok (r, d')
    → Stored m now d u (ok (r, d'))
transition-Stored m now d u e = subst (Stored m now d u) e (stored_lem m now d u)

-- The row that a move met, and what the move has made of it.
pub record MovedRow (m : Move) (now : ℕ) (d d' : Db) (r : TransitionResult) : Type 0 where
  pub before : Call
  pub after : Call
  pub stands : InList before d.calls
  pub met_id : before.id ≡ m.call_id
  pub met_status : before.status ≡ m.expected_status
  pub met_epoch : before.attempt_epoch ≡ m.expected_epoch
  pub returned : r ≡ applied_to after
  pub stored : get m.call_id d' ≡ some after
  pub id : after.id ≡ before.id
  pub campaign : after.campaign_id ≡ before.campaign_id
  pub phone : after.phone ≡ before.phone
  pub status : after.status ≡ m.new_status
  pub same_epoch : m.new_epoch ≡ none → after.attempt_epoch ≡ before.attempt_epoch
  pub next_epoch : (e : ℕ) → m.new_epoch ≡ some e → after.attempt_epoch ≡ e

-- From a table with a unique key, a transition that says it was applied has moved the one row with the
-- move's id, which had the expected status and epoch. It returns that row, with its campaign and phone,
-- the new status and the new epoch, or the old one if the move has none; and the table has it so.
pub transition-MovedRow :
    (m : Move) (now : ℕ) (d : Db) {r : TransitionResult} {d' : Db}
    → ids_unique d.calls ≡ true
    → transition m now d ≡ ok (r, d')
    → r.applied ≡ true
    → MovedRow m now d d' r
transition-MovedRow m now d u e a =
    let (b, found, returned, stored) = transition-Stored m now d u e a in
    let (stands, met) = first-InTable (meets m) d.calls found in
    let (x, y, z) = meets_facts m now b met in
    let (i, c, p, s, k) = assign_core m now b in
    record {
      before = b;
      after = assign m now b;
      stands = stands;
      met_id = x;
      met_status = y;
      met_epoch = z;
      returned = returned;
      stored = stored;
      id = i;
      campaign = c;
      phone = p;
      status = s;
      same_epoch = λ n. k ∙ ap (λ o. or_epoch o b.attempt_epoch) n;
      next_epoch = λ j n. k ∙ ap (λ o. or_epoch o b.attempt_epoch) n;
    }
