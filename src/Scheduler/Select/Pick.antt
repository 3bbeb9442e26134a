-- ===== src/Scheduler/Select/Pick.antt =====
-- What `pick` chooses among the campaigns that passed the gates.
use nurix_takehome.Common.{
  ℕ, ◌≡◌, refl, sym, subst, ◌⊎◌, inl, inr, Bool, true, false, Option, none, some, List, [], ◌∷◌,
  All, InList, rows_where, Bool-cases,
}
use nurix_takehome.Model.Rows.{CampaignWithCursor}
use nurix_takehome.Persistence.Calls.{is_among}
use nurix_takehome.Scheduler.Select.{rr_before, rr_sorted, rr_min, first_candidate, pick}
use nurix_takehome.Scheduler.Select.Order.{
  head_of, head_of-sorted, IsLeast, rr_min-IsLeast, rr_min-none,
}

module _ (p : CampaignWithCursor → Bool) where
  kept_in :
      (c x : CampaignWithCursor) (xs : List CampaignWithCursor)
      → p x ≡ true
      → (InList c (rows_where p xs) → InList c xs × (p c ≡ true))
      → InList c (x ∷ rows_where p xs)
      → InList c (x ∷ xs) × (p c ≡ true)
  kept_in c x xs t ih (inl e) = (inl e, rw e t)
  kept_in c x xs t ih (inr k) = let (a, b) = ih k in (inr a, b)

  pub in_rows_where :
      (c : CampaignWithCursor) (xs : List CampaignWithCursor)
      → InList c (rows_where p xs)
      → InList c xs × (p c ≡ true)
  unfolding rows_where
  in_rows_where c [] h = absurd h
  in_rows_where c (x ∷ xs) h = elim (Bool-cases (p x)) [
    | inl t ↦ kept_in c x xs t (in_rows_where c xs) (rw t at h)
    | inr f ↦ let (a, b) = in_rows_where c xs (rw f at h) in (inr a, b)
  ]

  All-rows_where :
      (P : CampaignWithCursor → Type 0) (xs : List CampaignWithCursor)
      → All P (rows_where p xs)
      → All (λ x. p x ≡ true → P x) xs
  unfolding rows_where
  All-rows_where P [] h = tt
  All-rows_where P (x ∷ xs) h = elim (Bool-cases (p x)) [
    | inl t ↦
        let k : All P (x ∷ rows_where p xs) = rw t at h in ((λ _. k.0), All-rows_where P xs k.1)
    | inr f ↦ ((λ t. cc), All-rows_where P xs (rw f at h))
  ]

  none_in_rows : (xs : List CampaignWithCursor) → rows_where p xs ≡ [] → All (λ x. p x ≡ false) xs
  unfolding rows_where
  none_in_rows [] h = tt
  none_in_rows (x ∷ xs) h = elim (Bool-cases (p x)) [
    | inl t ↦ cc (rw t at h)
    | inr f ↦ (f, none_in_rows xs (rw f at h))
  ]

-- A retry: the least campaign among those with a retry due.
abbrev pub RetryPick : List ℕ → List CampaignWithCursor → CampaignWithCursor → Type 0
RetryPick due capped c =
    (is_among c.id due ≡ true) × All (λ x. is_among x.id due ≡ true → rr_before x c ≡ false) capped

-- No retry is due anywhere, and the campaign is the least of all.
abbrev pub FreshPick : List ℕ → List CampaignWithCursor → CampaignWithCursor → Type 0
FreshPick due capped c = All (λ x. is_among x.id due ≡ false) capped × IsLeast c capped

abbrev pub PickOf : List ℕ → List CampaignWithCursor → CampaignWithCursor → Bool → Type 0
PickOf due capped c b =
    InList c capped × ((b ≡ true) × RetryPick due capped c ⊎ (b ≡ false) × FreshPick due capped c)

abbrev pub PickResult :
    List ℕ → List CampaignWithCursor → Option (CampaignWithCursor × Bool) → Type 0
PickResult due capped none = capped ≡ []
PickResult due capped (some (c, b)) = PickOf due capped c b

module _ (due : List ℕ) (capped : List CampaignWithCursor) where
  abbrev candidates : List CampaignWithCursor
  candidates = rows_where (λ c. is_among c.id due) capped

  picked_retry : {c : CampaignWithCursor} → rr_min candidates ≡ some c → PickOf due capped c true
  picked_retry {c} e =
      let (stands, least) = rr_min-IsLeast candidates e in
      let (a, b) = in_rows_where (λ x. is_among x.id due) c capped stands in
      (
        a,
        inl (
          refl,
          (b, All-rows_where (λ x. is_among x.id due) (λ x. rr_before x c ≡ false) capped least),
        ),
      )

  picked_fresh :
      {c : CampaignWithCursor}
      → rr_min candidates ≡ none
      → rr_min capped ≡ some c
      → PickOf due capped c false
  picked_fresh e f =
      let (stands, least) = rr_min-IsLeast capped f in
      (
        stands,
        inr (
          refl,
          (none_in_rows (λ x. is_among x.id due) capped (rr_min-none candidates e), least),
        ),
      )

  -- `pick` over the minimum of the candidates.
  abbrev chosen :
      Option CampaignWithCursor → Option CampaignWithCursor → Option (CampaignWithCursor × Bool)
  chosen (some c) other = some (c, true)
  chosen none none = none
  chosen none (some c) = some (c, false)

  first_candidate-chosen :
      (xs : List CampaignWithCursor) (o : Option CampaignWithCursor)
      → first_candidate xs o ≡ chosen (head_of xs) o
  first_candidate-chosen [] none = refl
  first_candidate-chosen [] (some c) = refl
  first_candidate-chosen (x ∷ xs) o = refl

  pick-chosen : pick due capped ≡ chosen (rr_min candidates) (rr_min capped)
  unfolding pick
  pick-chosen =
      rw (first_candidate-chosen (rr_sorted candidates) (rr_min capped), head_of-sorted candidates)

  chosen-PickResult :
      (o n : Option CampaignWithCursor)
      → rr_min candidates ≡ o
      → rr_min capped ≡ n
      → PickResult due capped (chosen o n)
  chosen-PickResult none none e f = rr_min-none capped f
  chosen-PickResult none (some c) e f = picked_fresh e f
  chosen-PickResult (some c) n e f = picked_retry e

  -- There is no pick only if no campaign passed the gates. A pick is a survivor of the gates. If any
  -- survivor has a retry due, it is such a one, `is_retry` is set, and no survivor with a retry due
  -- comes before it in the order of cursors; if none has, no survivor at all does.
  pub pick-PickResult : PickResult due capped (pick due capped)
  pick-PickResult =
      subst (PickResult due capped) (sym pick-chosen)
        (chosen-PickResult (rr_min candidates) (rr_min capped) refl refl)
