-- ===== src/Persistence/Campaigns/Eligible.antt =====
-- What `list_eligible_for_tick` returns.
use nurix_takehome.Common.{
  ◌≡◌, ◌⊎◌, inl, inr, true, List, [], ◌∷◌, map, arith, leb, InList, rows_where, Bool-cases,
}
use nurix_takehome.Model.Rows.{Campaign, CampaignWithCursor, Db}
use nurix_takehome.Persistence.Campaigns.{
  is_open, has_work, cursor_of, with_cursor, insert_by_id, sort_by_id, is_eligible,
  list_eligible_for_tick,
}

of_insert :
    (c x : CampaignWithCursor) (xs : List CampaignWithCursor)
    → InList c (insert_by_id x xs)
    → (c ≡ x) ⊎ InList c xs
unfolding insert_by_id
of_insert c x [] h = h
of_insert c x (y ∷ ys) h = elim (Bool-cases (leb x.id y.id)) [
  | inl t ↦ rw t at h
  | inr f ↦ in_rest (rw f at h) (of_insert c x ys)
]
  where
    in_rest :
        (c ≡ y) ⊎ InList c (insert_by_id x ys)
        → (InList c (insert_by_id x ys) → (c ≡ x) ⊎ InList c ys)
        → (c ≡ x) ⊎ ((c ≡ y) ⊎ InList c ys)
    in_rest (inl e) k = inr (inl e)
    in_rest (inr s) k = elim (k s) [ inl e ↦ inl e | inr t ↦ inr (inr t) ]

of_sort :
    (c : CampaignWithCursor) (xs : List CampaignWithCursor) → InList c (sort_by_id xs) → InList c xs
unfolding sort_by_id
of_sort c [] h = h
of_sort c (x ∷ xs) h = elim (of_insert c x (sort_by_id xs) h) [
  | inl e ↦ inl e
  | inr s ↦ inr (of_sort c xs s)
]

abbrev pub Facts : Db → CampaignWithCursor → Type 0
Facts d c =
    (is_open c.status ≡ true)
    × (has_work c.id d ≡ true)
    × (c.last_dispatch_at ≡ cursor_of c.id d.cursors)

of_rows :
    (d : Db) (c : CampaignWithCursor) (xs : List Campaign)
    → InList c (map (with_cursor d) (rows_where (is_eligible d) xs))
    → Facts d c
unfolding rows_where is_eligible
of_rows d c [] h = absurd h
of_rows d c (x ∷ xs) h = elim (Bool-cases (is_eligible d x)) [
  | inl t ↦ here (rw t at h) (of_rows d c xs)
  | inr f ↦ of_rows d c xs (rw f at h)
]
  where
    here :
        (c ≡ with_cursor d x) ⊎ InList c (map (with_cursor d) (rows_where (is_eligible d) xs))
        → (InList c (map (with_cursor d) (rows_where (is_eligible d) xs)) → Facts d c)
        → Facts d c
    here (inl e) k = rw e (ground arith)
    here (inr s) k = k s

pub eligible-Facts :
    (d : Db) (c : CampaignWithCursor) → InList c (list_eligible_for_tick d) → Facts d c
unfolding list_eligible_for_tick
eligible-Facts d c h = of_rows d c d.campaigns (of_sort c _ h)
