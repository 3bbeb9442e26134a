-- ===== src/Persistence/Calls/InFlight.antt =====
-- How an update changes the number of calls in flight.
use nurix_takehome.Common.{
  ℕ, ◌+◌, ◌≤◌, ◌≡◌, ap, Bool, true, false, List, [], ◌∷◌, arith, ◌==◌, ==_iff, All, if◌then◌else◌,
  count_where, any_row, update_where, Bool-cases, Option-cases, inl, inr,
}
use nurix_takehome.Model.Rows.{Call, Db}
use nurix_takehome.Model.Txn.{after}
use nurix_takehome.Persistence.Calls.{
  phones_unique, has_id, oldest, is_claimable, claim, occupies, in_flight_count, claim_next_queued,
}
use nurix_takehome.Persistence.Calls.Updates.{update_calls-eq-ok, update_calls-eq-err}
use nurix_takehome.Persistence.Calls.Ids.{ids_unique, oldest-InTable, only_row, not_any}

module _ (q : Call → Bool) (p : Call → Bool) (f : Call → Call) where
  -- An update that brings no row under the test does not raise the count.
  pub count_where-update :
      (xs : List Call)
      → All (λ x. p x ≡ true → q (f x) ≡ true → q x ≡ true) xs
      → count_where q (update_where p f xs) ≤ count_where q xs
  unfolding count_where update_where
  count_where-update [] h = omega arith
  count_where-update (x ∷ xs) h =
      let rest = count_where-update xs h.1 in
      elim (Bool-cases (p x)) [
        | inr e ↦ rw e (omega arith)
        | inl e ↦ rw e (elim (Bool-cases (q (f x))) [
          | inl t ↦ rw (t, h.0 e t) (omega arith)
          | inr t ↦ rw t (omega arith)
        ])
      ]

All-of_none :
    (i : ℕ) (q : Call → Bool) (f : Call → Call) (xs : List Call)
    → All (λ x. (x.id == i) ≡ false) xs
    → All (λ x. has_id i x ≡ true → q (f x) ≡ true → q x ≡ true) xs
All-of_none i q f [] h = tt
All-of_none i q f (x ∷ xs) h = (λ e. cc, All-of_none i q f xs h.1)

-- An update of one row raises the count by one at most.
pub count_where-update_one :
    (q : Call → Bool) (i : ℕ) (f : Call → Call) (xs : List Call)
    → ids_unique xs ≡ true
    → count_where q (update_where (has_id i) f xs) ≤ count_where q xs + 1
unfolding count_where update_where ids_unique
count_where-update_one q i f [] u = omega arith
count_where-update_one q i f (x ∷ xs) u = elim (Bool-cases (x.id == i)) [
  | inr e ↦ let rest = count_where-update_one q i f xs (ground arith) in rw e (omega arith)
  | inl e ↦
      let apart : any_row (has_id i) xs ≡ false = ground (arith, ==_iff x.id i) in
      let rest = count_where-update q (has_id i) f xs (All-of_none i q f xs (not_any i xs apart)) in
      elim (Bool-cases (q (f x))) [
        | inl t ↦ rw (e) (rw t (omega arith))
        | inr t ↦ rw (e) (rw t (omega arith))
      ]
]

-- The rows that the claim meets are the claimed one.
claim_row :
    (j : ℕ) (now : ℕ) (c : Call) (xs : List Call)
    → (c.campaign_id == j) ≡ false
    → All (λ x. (x.id == c.id) ≡ true → x ≡ c) xs
    → All (λ x. has_id c.id x ≡ true → occupies j (claim now x) ≡ true → occupies j x ≡ true) xs
claim_row j now c [] h k = tt
claim_row j now c (x ∷ xs) h k =
    (λ e t. cc (ap (λ z. z.campaign_id) (k.0 e)), claim_row j now c xs h k.1)

claimable_of : (i now : ℕ) (c : Call) → is_claimable i now c ≡ true → c.campaign_id ≡ i
unfolding is_claimable
claimable_of i now c h = ground arith

-- A claim for one campaign raises its calls in flight by one at most, and no other campaign's.
pub claim_next_queued-in_flight :
    (i j now : ℕ) (d : Db)
    → ids_unique d.calls ≡ true
    → in_flight_count j (after (claim_next_queued i now d) d)
      ≤ in_flight_count j d + (if i == j then 1 else 0)
unfolding claim_next_queued in_flight_count
claim_next_queued-in_flight i j now d u =
    elim (Option-cases (oldest (is_claimable i now) d.calls)) [
      | inl e ↦ rw e (ground arith)
      | inr (c, e) ↦
          rw e (elim (Bool-cases (phones_unique (update_where (has_id c.id) (claim now) d.calls))) [
            | inr v ↦ rw (update_calls-eq-err (has_id c.id) claim now d v) (ground arith)
            | inl v ↦
                rw (update_calls-eq-ok (has_id c.id) claim now d v) (elim (Bool-cases (i == j)) [
                  | inl t ↦ rw t (count_where-update_one (occupies j) c.id (claim now) d.calls u)
                  | inr t ↦
                      let (stands, claimable) = oldest-InTable (is_claimable i now) d.calls e in
                      let apart : (c.campaign_id == j) ≡ false =
                        rw (claimable_of i now c claimable) t in
                      let kept =
                        count_where-update (occupies j) (has_id c.id) (claim now) d.calls
                          (claim_row j now c d.calls apart (only_row c d.calls u stands)) in
                      rw t (omega arith)
                ])
          ])
    ]
