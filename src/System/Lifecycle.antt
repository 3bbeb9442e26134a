-- ===== src/System/Lifecycle.antt =====
-- Every task lets the calls evolve, and only appends to the audit log.

use nurix_takehome.Common.{
  ℕ, ◌≡◌, refl, sym, subst, true, false, some, List, [], ◌∷◌, arith, ◌==◌, All, update_where,
  Bool-cases, Option-cases, inl, inr,
}
use nurix_takehome.Model.Status.{queued, is_terminal, status_eq_iff}
use nurix_takehome.Model.Rows.{Call, Db}
use nurix_takehome.Model.Txn.{World, after}
use nurix_takehome.Model.Deps.{Deps}
use nurix_takehome.Audit.{emit_audit}
use nurix_takehome.Persistence.Calls.{
  phones_unique, oldest, is_claimable, has_id, claim, get, claim_next_queued,
}
use nurix_takehome.Persistence.Calls.Updates.{
  updated_table, update_calls-eq-ok, update_calls-eq-err,
}
use nurix_takehome.Persistence.Calls.Ids.{ids_unique, ids_unique-update, oldest-InTable, only_row}
use nurix_takehome.Persistence.Cursors.{update_last_dispatch_at}
use nurix_takehome.Persistence.Inbox.{mark_processed}
use nurix_takehome.State.Lifecycle.{
  Evolves, Evolved, Evolved-refl, Evolved-trans, Evolved-update, Evolved-get,
}
use nurix_takehome.State.Machine.{Move, transition}
use nurix_takehome.State.Machine.Evolution.{Advances, transition-Evolved, transition-ids_unique}
use nurix_takehome.State.Rollup.Frame.{promoted, promote-eq-ok, calls-promoted}
use nurix_takehome.Scheduler.Tick.{Others, tick}
use nurix_takehome.Scheduler.Webhook.{process_pending_inbox}
use nurix_takehome.Scheduler.Reclaim.{stuck_reclaim_sweep}
use nurix_takehome.System.Primitives.{Primitives}
use nurix_takehome.System.Tasks.{OthersKeep, tick_keeps, inbox_keeps, sweep_keeps}

-- From a table with a unique key: the key stays unique, and the calls evolve.
abbrev pub CallsEvolve : Db → Db → Type 0
CallsEvolve d d' =
    ids_unique d.calls ≡ true → (ids_unique d'.calls ≡ true) × Evolved d.calls d'.calls

pub same_calls : (d d' : Db) → d'.calls ≡ d.calls → CallsEvolve d d'
same_calls d d' e u = (rw e u, subst (Evolved d.calls) (sym e) (Evolved-refl d.calls))

-- Evolution keeps every id, so it keeps the key where the table has not grown.
claim-Evolves : (now : ℕ) (c : Call) → is_terminal c.status ≡ false → Evolves c (claim now c)
claim-Evolves now c h = ground arith

claimable_live : (i now : ℕ) (c : Call) → is_claimable i now c ≡ true → is_terminal c.status ≡ false
unfolding is_claimable is_terminal
claimable_live i now c h = ground (arith, status_eq_iff c.status queued)

claim_rows :
    (now : ℕ) (c : Call) (xs : List Call)
    → is_terminal c.status ≡ false
    → All (λ x. (x.id == c.id) ≡ true → x ≡ c) xs
    → All (λ x. has_id c.id x ≡ true → Evolves x (claim now x)) xs
claim_rows now c [] h k = tt
claim_rows now c (x ∷ xs) h k =
    ((λ e. claim-Evolves now x (rw (k.0 e) h)), claim_rows now c xs h k.1)

claim_evolves :
    (i now : ℕ) (d : Db) {c : Call}
    → oldest (is_claimable i now) d.calls ≡ some c
    → CallsEvolve d (updated_table (has_id c.id) claim now d)
claim_evolves i now d {c} e u =
    let (stands, claimable) = oldest-InTable (is_claimable i now) d.calls e in
    (
      rw (ids_unique-update (has_id c.id) (claim now) d.calls (λ x. refl)) u,
      Evolved-update (has_id c.id) (claim now) d.calls (
          claim_rows now c d.calls (claimable_live i now c claimable)
            (only_row c d.calls u stands)),
    )

claimed_keeps : (i now : ℕ) (d : Db) → CallsEvolve d (after (claim_next_queued i now d) d)
unfolding claim_next_queued
claimed_keeps i now d = elim (Option-cases (oldest (is_claimable i now) d.calls)) [
  | inl e ↦ rw e (same_calls d d refl)
  | inr (c, e) ↦
      rw e (elim (Bool-cases (phones_unique (update_where (has_id c.id) (claim now) d.calls))) [
        | inl u ↦ rw (update_calls-eq-ok (has_id c.id) claim now d u) (claim_evolves i now d e)
        | inr u ↦ rw (update_calls-eq-err (has_id c.id) claim now d u) (same_calls d d refl)
      ])
]

move_keeps :
    (m : Move) → Advances m → (now : ℕ) (d : Db) → CallsEvolve d (after (transition m now d) d)
move_keeps m a now d u = (transition-ids_unique m now d u, transition-Evolved m now d a)

pub calls_evolve : Primitives CallsEvolve
unfolding emit_audit update_last_dispatch_at mark_processed
calls_evolve = record {
  order = record {
    reflexive = λ d. same_calls d d refl;
    transitive = λ a b c h k u.
        let (v, e) = h u in let (w, f) = k v in (w, Evolved-trans a.calls b.calls c.calls e f);
  };
  audit = λ e. record { at = λ now d. (λ u. (u, Evolved-refl d.calls)) };
  move = λ m a. record { at = move_keeps m a };
  claim = λ i. record { at = claimed_keeps i };
  promote = λ i. record {
    at = λ now d.
        rw (promote-eq-ok i now d) (same_calls d (promoted i now d) (calls-promoted i now d));
  };
  cursor = λ i ts. record { at = λ now d. (λ u. (u, Evolved-refl d.calls)) };
  mark = λ i. record { at = λ now d. (λ u. (u, Evolved-refl d.calls)) };
}

-- A call of a table with a unique key is found again after the task, evolved.
found_after :
    (i : ℕ) (d d' : Db) {c : Call}
    → CallsEvolve d d'
    → ids_unique d.calls ≡ true
    → get i d ≡ some c
    → (c' : Call) × (get i d' ≡ some c') × Evolves c c'
found_after i d d' h u e = Evolved-get i d d' (h u).1 e

-- Over a whole tick, whatever the provider answers and whatever evolving the other tasks do in
-- between, a call that is there at the start is there at the end, with its identity, an epoch that
-- has not fallen, and its status if that was terminal.
pub tick-Evolves :
    (deps : Deps) (others : Others) (w : World) (i : ℕ) {c : Call}
    → OthersKeep CallsEvolve others
    → ids_unique w.db.calls ≡ true
    → get i w.db ≡ some c
    → (c' : Call) × (get i (tick deps others w).1.db ≡ some c') × Evolves c c'
tick-Evolves deps others w i k u e =
    found_after i w.db (tick deps others w).1.db ((tick_keeps calls_evolve deps others k).at w) u e

-- A drain of the webhook inbox, whatever the events and their order, lets every call evolve: no
-- late or repeated event moves a call out of a terminal status.
pub process_pending_inbox-Evolves :
    (deps : Deps) (w : World) (i : ℕ) {c : Call}
    → ids_unique w.db.calls ≡ true
    → get i w.db ≡ some c
    → (c' : Call) × (get i (process_pending_inbox deps w).1.db ≡ some c') × Evolves c c'
process_pending_inbox-Evolves deps w i u e =
    found_after i w.db (process_pending_inbox deps w).1.db (inbox_keeps calls_evolve deps w) u e

-- A reclaim sweep, with anything evolving in between, lets every call evolve.
pub stuck_reclaim_sweep-Evolves :
    (deps : Deps) (others : ℕ → World → World) (w : World) (i : ℕ) {c : Call}
    → ((j : ℕ) (v : World) → CallsEvolve v.db (others j v).db)
    → ids_unique w.db.calls ≡ true
    → get i w.db ≡ some c
    → (c' : Call) × (get i (stuck_reclaim_sweep deps others w).1.db ≡ some c') × Evolves c c'
stuck_reclaim_sweep-Evolves deps others w i k u e =
    found_after i w.db (stuck_reclaim_sweep deps others w).1.db
      (sweep_keeps calls_evolve deps others k w) u e
