-- ===== src/State/Machine/Evolution.antt =====
-- A transition lets a call evolve: identity, epoch and terminal statuses are kept.
use nurix_takehome.Common.{ℕ, ◌≤◌, ◌≡◌, refl, sym, subst, true, false, List, [], ◌∷◌, arith}
use nurix_takehome.Model.Status.{status_eq_iff}
use nurix_takehome.Model.Rows.{Call, Db}
use nurix_takehome.Model.Txn.{Result, after}
use nurix_takehome.Persistence.Calls.Ids.{ids_unique, ids_unique-update}
use nurix_takehome.State.Lifecycle.{All-always, Evolves, Evolved, Evolved-refl, Evolved-update}
use nurix_takehome.State.Machine.{
  Move, ColumnUpdate, TransitionResult, or_epoch, set_column, set_columns, is_regression, meets,
  assign, transition,
}
use nurix_takehome.State.Machine.Effects.{calls-settled, table_after}
use nurix_takehome.State.Machine.View.{View, raised, kept, moved, transition-View}

-- The move leaves the epoch, or raises it.
abbrev pub Advances : Move → Type 0
Advances m = m.expected_epoch ≤ or_epoch m.new_epoch m.expected_epoch

-- The listed columns are none of these.
record SameCore (c c' : Call) : Type 0 where
  id : c'.id ≡ c.id
  campaign : c'.campaign_id ≡ c.campaign_id
  phone : c'.phone ≡ c.phone
  status : c'.status ≡ c.status
  epoch : c'.attempt_epoch ≡ c.attempt_epoch

set_column-SameCore : (u : ColumnUpdate) (c : Call) → SameCore c (set_column u c)
unfolding set_column
set_column-SameCore u c = ground arith

set_columns-SameCore : (us : List ColumnUpdate) (c : Call) → SameCore c (set_columns us c)
unfolding set_columns
set_columns-SameCore [] c = record {
  id = refl;
  campaign = refl;
  phone = refl;
  status = refl;
  epoch = refl;
}
set_columns-SameCore (u ∷ us) c =
    ground (arith, set_columns-SameCore us (set_column u c), set_column-SameCore u c)

module _ (m : Move) (now : ℕ) (c : Call) where
  pub assign_core :
      ((assign m now c).id ≡ c.id)
      × ((assign m now c).campaign_id ≡ c.campaign_id)
      × ((assign m now c).phone ≡ c.phone)
      × ((assign m now c).status ≡ m.new_status)
      × ((assign m now c).attempt_epoch ≡ or_epoch m.new_epoch c.attempt_epoch)
  unfolding assign
  assign_core = ground (
    arith,
    set_columns-SameCore m.column_updates (record c {
      status = m.new_status;
      updated_at = now;
      attempt_epoch = or_epoch m.new_epoch c.attempt_epoch;
    }),
  )

  pub meets_facts :
      meets m c ≡ true
      → (c.id ≡ m.call_id) × (c.status ≡ m.expected_status) × (c.attempt_epoch ≡ m.expected_epoch)
  unfolding meets
  meets_facts h = ground (arith, status_eq_iff c.status m.expected_status)

  pub assign-Evolves :
      Advances m → is_regression m ≡ false → meets m c ≡ true → Evolves c (assign m now c)
  unfolding is_regression
  assign-Evolves a h k =
      ground (arith, assign_core, meets_facts k, status_eq_iff m.new_status m.expected_status)

module _ (m : Move) (now : ℕ) (d : Db) (a : Advances m) where
  Evolved-View :
      (r : Result (TransitionResult × Db)) → View m now d r → Evolved d.calls (after r d).calls
  Evolved-View _ (raised e) = Evolved-refl d.calls
  Evolved-View _ (kept r h) = Evolved-refl d.calls
  Evolved-View _ (moved c h) =
      subst (Evolved d.calls)
        (sym (calls-settled m now (assign m now c) (record d { calls = table_after m now d })))
        (Evolved-update (meets m) (assign m now) d.calls
          (All-always _ d.calls (λ x k. assign-Evolves m now x a h.allowed k)))

  -- Whatever the arguments, and however the call ends, the calls evolve.
  pub transition-Evolved : Evolved d.calls (after (transition m now d) d).calls
  transition-Evolved = Evolved-View (transition m now d) (transition-View m now d)

module _ (m : Move) (now : ℕ) (d : Db) where
  ids-View :
      (r : Result (TransitionResult × Db))
      → View m now d r
      → ids_unique d.calls ≡ true
      → ids_unique (after r d).calls ≡ true
  ids-View _ (raised e) u = u
  ids-View _ (kept r h) u = u
  ids-View _ (moved c h) u =
      rw (calls-settled m now (assign m now c) (record d { calls = table_after m now d }))
        (rw (ids_unique-update (meets m) (assign m now) d.calls (λ x. (assign_core m now x).0)) u)

  pub transition-ids_unique :
      ids_unique d.calls ≡ true → ids_unique (after (transition m now d) d).calls ≡ true
  transition-ids_unique = ids-View (transition m now d) (transition-View m now d)
