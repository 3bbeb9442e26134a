-- ===== src/Scheduler/Webhook/Events.antt =====
-- What an event that is not terminal does to a call.
use nurix_takehome.Common.{
  ℕ, ◌≡◌, refl, sym, ap, subst, ◌∙◌, true, false, some, List, [], ◌∷◌, arith, ==_iff, InList, inl,
  inr, first, any_row, Bool-cases,
}
use nurix_takehome.Model.Status.{is_terminal, status_eq_iff}
use nurix_takehome.Model.Rows.{Call, Db}
use nurix_takehome.Model.Txn.{ok}
use nurix_takehome.Model.Deps.{Deps, ProviderEvent}
use nurix_takehome.Persistence.Calls.{get, phones_unique}
use nurix_takehome.Persistence.Calls.Ids.{ids_unique, in_any}
use nurix_takehome.State.Machine.{
  Move, applied_to, is_unauthorized, is_regression, meets, assign, set_columns, transition,
}
use nurix_takehome.State.Machine.Effects.{settled, table_after, transition-hit}
use nurix_takehome.State.Machine.Evolution.{meets_facts}
use nurix_takehome.State.Machine.Stored.{transition-Stored}
use nurix_takehome.Scheduler.Webhook.{intermediate_move, apply_event}

first-met :
    (m : Move) (c : Call) (xs : List Call)
    → ids_unique xs ≡ true
    → InList c xs
    → meets m c ≡ true
    → first (meets m) xs ≡ some c
unfolding ids_unique first
first-met m c [] u k h = absurd k
first-met m c (x ∷ xs) u (inl e) h = rw (subst (λ z. meets m z ≡ true) e h) (ap some (sym e))
first-met m c (x ∷ xs) u (inr k) h = elim (Bool-cases (meets m x)) [
  | inr f ↦ rw f (first-met m c xs (ground arith) k h)
  | inl t ↦
      let same : x.id ≡ c.id = (meets_facts m 0 x t).0 ∙ sym (meets_facts m 0 c h).0 in
      absurd (twice x c xs u k same)
]
  where
    twice :
        (x c : Call) (xs : List Call) → ids_unique (x ∷ xs) ≡ true → InList c xs → x.id ≡ c.id → ⊥
    twice x c xs u k e = let found = in_any c xs k in ground (arith, e, found)

-- The call as the event leaves it.
abbrev pub written : ProviderEvent → ℕ → Call → Call
written e now c = record c { status = e.status_enum; updated_at = now }

module _ (c : Call) (e : ProviderEvent) (now : ℕ) where
  own_row : meets (intermediate_move c e) c ≡ true
  unfolding meets intermediate_move
  own_row =
      rw
        (
          (==_iff c.id c.id).1 refl,
          (status_eq_iff c.status c.status).1 refl,
          (==_iff c.attempt_epoch c.attempt_epoch).1 refl,
        )
        refl

  open_row : is_terminal c.status ≡ false → is_regression (intermediate_move c e) ≡ false
  unfolding is_regression intermediate_move
  open_row h = rw h

  assigned : assign (intermediate_move c e) now c ≡ written e now c
  unfolding assign set_columns intermediate_move
  assigned = refl

  no_columns : any_row is_unauthorized (intermediate_move c e).column_updates ≡ false
  unfolding any_row intermediate_move
  no_columns = refl

  applies :
      (deps : Deps) (d : Db)
      → is_terminal e.status_enum ≡ false
      → apply_event deps c e now d ≡ transition (intermediate_move c e) now d
  unfolding apply_event
  applies deps d h = rw h

-- An event that is not terminal, for a call that is not, gives the call the event's status whatever
-- status the call has now, earlier or later in the course of a call: the row is stored so, if the
-- phone index accepts the table.
pub apply_event-get :
    (deps : Deps) (c : Call) (e : ProviderEvent) (now : ℕ) (d : Db)
    → ids_unique d.calls ≡ true
    → InList c d.calls
    → is_terminal c.status ≡ false
    → is_terminal e.status_enum ≡ false
    → phones_unique (table_after (intermediate_move c e) now d) ≡ true
    → (d' : Db) × (apply_event deps c e now d ≡ ok (applied_to (written e now c), d'))
      × (get c.id d' ≡ some (written e now c))
unfolding intermediate_move
apply_event-get deps c e now d u k live intermediate fits =
    let m = intermediate_move c e in
    let found = first-met m c d.calls u k (own_row c e now) in
    let hit =
      transition-hit m now d {c = c} (no_columns c e now) (open_row c e now live) fits found in
    let (b, same, _, stored) = transition-Stored m now d u hit refl in
    let again : b ≡ c = cc in
    let put = ap (assign m now) again ∙ assigned c e now in
    (
      settled m now (assign m now c) (record d { calls = table_after m now d }),
      applies c e now deps d intermediate
          ∙ hit
          ∙ ap
              (λ r. ok (
                applied_to r,
                settled m now (assign m now c) (record d { calls = table_after m now d }),
              ))
              (assigned c e now),
      stored ∙ ap some put,
    )
