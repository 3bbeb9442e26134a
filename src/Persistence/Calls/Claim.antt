-- ===== src/Persistence/Calls/Claim.antt =====
-- The claim takes the oldest due call, and gives it a new epoch.
use mathlib.Core.Option
use nurix_takehome.Common.{
  ℕ, ◌+◌, ◌≤◌, ◌≡◌, refl, ap, subst, ◌∙◌, inl, inr, Bool, true, Option, none, some, List, [], ◌∷◌,
  arith, ==_iff, InList, first, update_where, Bool-cases, Option-cases,
}
use nurix_takehome.Model.Status.{queued, dialing, status_eq_iff}
use nurix_takehome.Model.Rows.{Call, Db}
use nurix_takehome.Model.Txn.{ok}
use nurix_takehome.Persistence.Calls.{
  phones_unique, has_id, older, oldest, is_claimable, claim, claim_next_queued, update_calls,
}
use nurix_takehome.Persistence.Calls.Updates.{
  updated_table, update_calls-eq-ok, update_calls-eq-err,
}
use nurix_takehome.Persistence.Calls.Ids.{ids_unique, oldest-InTable, in_any}

older-least :
    (x : Call) (o : Option Call)
    → ((older x o).created_at ≤ x.created_at)
      × ((b : Call) → o ≡ some b → (older x o).created_at ≤ b.created_at)
older-least x none = (omega arith, λ b e. cc)
older-least x (some y) = (ground arith, λ b e. ground arith)

oldest-some :
    (p : Call → Bool) (xs : List Call)
    → oldest p xs ≡ none
    → (x : Call) → InList x xs
    → p x ≡ true
    → ⊥
unfolding oldest
oldest-some p [] e x k h = k
oldest-some p (y ∷ ys) e x (inl k) h = ground (arith, k)
oldest-some p (y ∷ ys) e x (inr k) h = oldest-some p ys (ground arith) x k h

-- No row that the test accepts is older than the one returned.
pub oldest-least :
    (p : Call → Bool) (xs : List Call) {c : Call}
    → oldest p xs ≡ some c
    → (x : Call) → InList x xs
    → p x ≡ true
    → c.created_at ≤ x.created_at
unfolding oldest
oldest-least p [] e x k h = absurd k
oldest-least p (y ∷ ys) {c} e x (inl k) h = elim (Option-cases (oldest p ys)) [
  | inl n ↦ ground (arith, k, older-least y (oldest p ys))
  | inr (b, n) ↦ ground (arith, k, older-least y (oldest p ys))
]
oldest-least p (y ∷ ys) {c} e x (inr k) h = elim (Option-cases (oldest p ys)) [
  | inl n ↦ absurd (oldest-some p ys n x k h)
  | inr (b, n) ↦
      let older_than = oldest-least p ys n x k h in
      let beats = (older-least y (oldest p ys)).1 b n in ground (arith, older_than, beats)
]

pub first-only :
    (c : Call) (xs : List Call)
    → ids_unique xs ≡ true
    → InList c xs
    → first (has_id c.id) xs ≡ some c
unfolding ids_unique first
first-only c [] u k = absurd k
first-only c (x ∷ xs) u (inl e) = rw e (ground arith)
first-only c (x ∷ xs) u (inr k) = ground (arith, in_any c xs k, ==_iff x.id c.id, first-only c xs)

pub first-update :
    (p : Call → Bool) (f : Call → Call) (xs : List Call)
    → ((x : Call) → p (f x) ≡ p x)
    → first p (update_where p f xs) ≡ Option.map f (first p xs)
unfolding first update_where
first-update p f [] h = refl
first-update p f (x ∷ xs) h = ground (arith, h x, first-update p f xs h)

-- A queued row of the campaign whose next attempt is due, if it has a time for one.
pub record IsDueQueued (i now : ℕ) (c : Call) : Type 0 where
  pub campaign : c.campaign_id ≡ i
  pub status : c.status ≡ queued
  pub due : (t : ℕ) → c.next_attempt_at ≡ some t → t ≤ now

claimable_due : (i now : ℕ) (c : Call) → is_claimable i now c ≡ true → IsDueQueued i now c
unfolding is_claimable
claimable_due i now c h =
    let queued_iff = status_eq_iff c.status queued in
    record {
      campaign = ground (arith, queued_iff);
      status = ground (arith, queued_iff);
      due = λ t e. ground (arith, queued_iff, e);
    }

due_claimable : (i now : ℕ) (c : Call) → IsDueQueued i now c → is_claimable i now c ≡ true
unfolding is_claimable
due_claimable i now c h = elim (Option-cases c.next_attempt_at) [
  | inl e ↦ ground (arith, status_eq_iff c.status queued, h.campaign, h.status, e)
  | inr (t, e) ↦
      let soon = h.due t e in
      ground (arith, status_eq_iff c.status queued, h.campaign, h.status, e, soon)
]

-- The row that a claim returned: an oldest one of the due queued rows of the campaign, dialing now,
-- under the next epoch and without the handle of the attempt before; and it stands so in the table.
pub record ClaimOf (i now : ℕ) (d d' : Db) (c : Call) : Type 0 where
  pub before : Call
  pub stands : InList before d.calls
  pub due : IsDueQueued i now before
  pub least : (x : Call) → InList x d.calls → IsDueQueued i now x → before.created_at ≤ x.created_at
  pub id : c.id ≡ before.id
  pub campaign : c.campaign_id ≡ before.campaign_id
  pub phone : c.phone ≡ before.phone
  pub status : c.status ≡ dialing
  pub epoch : c.attempt_epoch ≡ before.attempt_epoch + 1
  pub retries : c.retries_remaining ≡ before.retries_remaining
  pub handle : c.provider_call_id ≡ none
  pub stored : first (has_id before.id) d'.calls ≡ some c

claim_candidate-ok :
    (now : ℕ) (d : Db) (b : Call)
    → phones_unique (update_where (has_id b.id) (claim now) d.calls) ≡ true
    → first (has_id b.id) d.calls ≡ some b
    → update_calls (has_id b.id) claim now d
      ≡ ok (some (claim now b), updated_table (has_id b.id) claim now d)
claim_candidate-ok now d b u f =
    update_calls-eq-ok (has_id b.id) claim now d u
    ∙ ap (λ o. ok (Option.map (claim now) o, updated_table (has_id b.id) claim now d)) f

claim_of :
    (i now : ℕ) (d : Db) (b : Call)
    → ids_unique d.calls ≡ true
    → oldest (is_claimable i now) d.calls ≡ some b
    → ClaimOf i now d (updated_table (has_id b.id) claim now d) (claim now b)
claim_of i now d b u e =
    let (stands, claimable) = oldest-InTable (is_claimable i now) d.calls e in
    record {
      before = b;
      stands = stands;
      due = claimable_due i now b claimable;
      least = λ x k h. oldest-least (is_claimable i now) d.calls e x k (due_claimable i now x h);
      id = refl;
      campaign = refl;
      phone = refl;
      status = refl;
      epoch = refl;
      retries = refl;
      handle = refl;
      stored =
          first-update (has_id b.id) (claim now) d.calls (λ x. refl)
          ∙ ap (Option.map (claim now)) (first-only b d.calls u stands);
    }

-- A claim that returns a row has taken a queued call of the campaign whose next attempt is due, and
-- none such is older. The row returned is that call, now dialing, under the next epoch, without a
-- provider's handle, with its phone and retries, and the table has it so.
pub claim_next_queued-ClaimOf :
    (i now : ℕ) (d : Db) {c : Call} {d' : Db}
    → ids_unique d.calls ≡ true
    → claim_next_queued i now d ≡ ok (some c, d')
    → ClaimOf i now d d' c
unfolding claim_next_queued
claim_next_queued-ClaimOf i now d {c} {d'} u h =
    elim (Option-cases (oldest (is_claimable i now) d.calls)) [
      | inl e ↦ cc (rw e at h)
      | inr (b, e) ↦
          elim (Bool-cases (phones_unique (update_where (has_id b.id) (claim now) d.calls))) [
            | inr v ↦ cc (rw (e) at h, update_calls-eq-err (has_id b.id) claim now d v)
            | inl v ↦
                let k =
                  claim_candidate-ok now d b v
                    (first-only b d.calls u (oldest-InTable (is_claimable i now) d.calls e).0) in
                let h' : update_calls (has_id b.id) claim now d ≡ ok (some c, d') = rw e at h in
                let same : claim now b ≡ c = cc in
                let table : updated_table (has_id b.id) claim now d ≡ d' = cc in
                subst (ClaimOf i now d d') same
                  (subst (λ z. ClaimOf i now d z (claim now b)) table (claim_of i now d b u e))
          ]
    ]
