-- ===== src/Scheduler/Select/Sound.antt =====
-- A campaign is picked only if it is open, has dispatchable work, is within its business hours and
-- below its cap.
use nurix_takehome.Common.{
  ℕ, ◌<◌, ◌≡◌, refl, subst, ap, ap₂, ◌∙◌, ◌⊎◌, inl, inr, Bool, true, false, Option, some, List, [],
  ◌∷◌, arith, ltb→lt, ==_iff, ◌==◌, map, Bool-cases, count_where, InList,
}
use nurix_takehome.Model.Rows.{CampaignWithCursor, Db}
use nurix_takehome.Model.Txn.{Error, Result, ok, err, ◌>>=◌}
use nurix_takehome.Model.Deps.{Platform, Deps}
use nurix_takehome.Persistence.Calls.{
  occupies, in_flight_count, in_flight_counts_by_campaign, count_of, find_retry_due_campaign_ids,
}
use nurix_takehome.Persistence.Campaigns.{list_eligible_for_tick}
use nurix_takehome.Persistence.Campaigns.Eligible.{Facts, eligible-Facts}
use nurix_takehome.Scheduler.Hours.{is_in_window}
use nurix_takehome.Scheduler.Select.{add_side, split_hours, id_of, pick, select}
use nurix_takehome.Scheduler.Select.Pick.{PickOf, PickResult, pick-PickResult, in_rows_where}
use nurix_takehome.Scheduler.Select.Gates.{
  SameTables, SameTables-trans, Returns, below_cap, capped, find_retry_due-same, skip_hours-Returns,
  survivors-Returns,
}

abbrev InHours : Platform → ℕ → List CampaignWithCursor → CampaignWithCursor → Type 0
InHours p now cs c = InList c cs × (is_in_window p c.schedule c.timezone now ≡ ok true)

add-InHours :
    (p : Platform) (now : ℕ) (x : CampaignWithCursor) (cs : List CampaignWithCursor) (b : Bool)
    (r : Result (List CampaignWithCursor × List CampaignWithCursor))
    (xs ys : List CampaignWithCursor)
    → is_in_window p x.schedule x.timezone now ≡ ok b
    → ((us vs : List CampaignWithCursor)
        → r ≡ ok (us, vs)
        → (c : CampaignWithCursor) → InList c us
        → InHours p now cs c)
    → add_side x b r ≡ ok (xs, ys)
    → (c : CampaignWithCursor) → InList c xs
    → InHours p now (x ∷ cs) c
add-InHours p now x cs b (err e) xs ys w ih h c k = cc
add-InHours p now x cs false (ok (us, vs)) xs ys w ih h c k =
    let (a, i) = ih us vs refl c (subst (InList c) (ground arith) k) in (inr a, i)
add-InHours p now x cs true (ok (us, vs)) xs ys w ih h c k =
    head_or_rest (subst (InList c) {y = x ∷ us} (ground arith) k)
  where
    head_or_rest : (c ≡ x) ⊎ InList c us → InHours p now (x ∷ cs) c
    head_or_rest (inl e) = (inl e, rw e w)
    head_or_rest (inr s) = let (a, i) = ih us vs refl c s in (inr a, i)

pub result_cases {ℓ} :
    {A : Type ℓ} (r : Result A) → ((a : A) × (r ≡ ok a)) ⊎ ((e : _) × (r ≡ err e))
result_cases (ok a) = inl (a, refl)
result_cases (err e) = inr (e, refl)

InHours-of :
    (p : Platform) (now : ℕ) (cs xs ys : List CampaignWithCursor)
    → split_hours p now cs ≡ ok (xs, ys)
    → (c : CampaignWithCursor) → InList c xs
    → InHours p now cs c
unfolding split_hours
InHours-of p now [] xs ys e c h = absurd (subst (InList c) {y = []} (ground arith) h)
InHours-of p now (x ∷ cs) xs ys e c h =
    elim (result_cases (is_in_window p x.schedule x.timezone now)) [
      | inl (b, w) ↦
          add-InHours p now x cs b (split_hours p now cs) xs ys w (InHours-of p now cs)
            (rw (w, split_hours) at e) c h
      | inr (z, w) ↦ cc (rw (w, split_hours) at e)
    ]

-- The dict of counts has the count of every campaign asked for.
count_of-counts :
    (c : CampaignWithCursor) (cs : List CampaignWithCursor) (d : Db)
    → InList c cs
    → count_of c.id (in_flight_counts_by_campaign (map id_of cs) d) ≡ in_flight_count c.id d
unfolding count_of in_flight_counts_by_campaign
count_of-counts c [] d h = absurd h
count_of-counts c (x ∷ cs) d (inl e) = rw e (ground arith)
count_of-counts c (x ∷ cs) d (inr h) = elim (Bool-cases (x.id == c.id)) [
  | inl t ↦ rw t (ap (λ i. in_flight_count i d) ((==_iff x.id c.id).0 t))
  | inr f ↦ rw f (count_of-counts c cs d h)
]

in_flight-same :
    {d d' : Db}
    → SameTables d d'
    → (is : List ℕ) → in_flight_counts_by_campaign is d' ≡ in_flight_counts_by_campaign is d
unfolding in_flight_counts_by_campaign in_flight_count
in_flight-same s [] = refl
in_flight-same s (i ∷ is) =
    ap₂ (λ (n : ℕ) (r : List (ℕ × ℕ)). (i, n) ∷ r) (ap (count_where (occupies i)) s.calls)
      (in_flight-same s is)

pub capped-same :
    (now : ℕ) {d d' : Db}
    → SameTables d d'
    → (cs : List CampaignWithCursor) → capped now d' cs ≡ capped now d cs
capped-same now s cs = rw (in_flight-same s (map id_of cs))

module _ (deps : Deps) (now : ℕ) (d : Db) where
  abbrev pub the_pick : List CampaignWithCursor → Option (CampaignWithCursor × Bool)
  the_pick in_hours = pick (find_retry_due_campaign_ids now d) (capped now d in_hours)

  pub select-Returns :
      {xs ys : List CampaignWithCursor}
      → split_hours deps.platform now (list_eligible_for_tick d) ≡ ok (xs, ys)
      → Returns (select deps now d) (the_pick xs) d
  unfolding select
  select-Returns {xs} {ys} e =
      let (d1, f, s) = skip_hours-Returns ys now d in
      let (d2, g, t) = survivors-Returns xs now d1 in
      (
        d2,
        rw e (
            rw (f, ◌>>=◌)
              (g
                ∙ ap (λ p. ok (p, d2))
                    (ap₂ pick (find_retry_due-same now s) (capped-same now s xs)))),
        SameTables-trans s t,
      )

  pub select-err :
      {z : Error}
      → split_hours deps.platform now (list_eligible_for_tick d) ≡ err z
      → select deps now d ≡ err z
  unfolding select
  select-err e = rw e

  -- The campaign may be dispatched: it passed every gate, and comes first among those that did.
  pub record Picked (c : CampaignWithCursor) (b : Bool) : Type 0 where
    pub eligible : InList c (list_eligible_for_tick d)
    pub facts : Facts d c
    pub in_hours : is_in_window deps.platform c.schedule c.timezone now ≡ ok true
    pub below : in_flight_count c.id d < c.max_concurrent
    pub rivals :
        (xs : List CampaignWithCursor) × (ys : List CampaignWithCursor) × (split_hours deps.platform
            now
            (list_eligible_for_tick d)
          ≡ ok (xs, ys))
        × PickOf (find_retry_due_campaign_ids now d) (capped now d xs) c b

  Picked-of :
      (xs ys : List CampaignWithCursor) (c : CampaignWithCursor) (b : Bool)
      → split_hours deps.platform now (list_eligible_for_tick d) ≡ ok (xs, ys)
      → PickOf (find_retry_due_campaign_ids now d) (capped now d xs) c b
      → Picked c b
  Picked-of xs ys c b e p =
      let counts = in_flight_counts_by_campaign (map id_of xs) d in
      let (stands, under) = in_rows_where (below_cap counts) c xs p.0 in
      let (eligible, hours) =
        InHours-of deps.platform now (list_eligible_for_tick d) xs ys e c stands in
      record {
        eligible = eligible;
        facts = eligible-Facts d c eligible;
        in_hours = hours;
        below = ltb→lt _ _ (rw (count_of-counts c xs d stands) at under);
        rivals = (xs, ys, e, p);
      }

  -- A campaign that `select` picks is open, has a call to dispatch, is in its business hours and
  -- below its cap, and comes first by the order of the picks. The selection changes the audit log
  -- alone.
  pub select-Picked :
      {c : CampaignWithCursor} {b : Bool} {d' : Db}
      → select deps now d ≡ ok (some (c, b), d')
      → Picked c b × SameTables d d'
  select-Picked {c} {b} {d'} h =
      elim (result_cases (split_hours deps.platform now (list_eligible_for_tick d))) [
        | inr (z, e) ↦ cc (select-err e)
        | inl ((xs, ys), e) ↦
            let (d2, g, t) = select-Returns e in
            let q : the_pick xs ≡ some (c, b) = cc in
            let k : d2 ≡ d' = cc in
            (
              Picked-of xs ys c b e (
                  subst (PickResult (find_retry_due_campaign_ids now d) (capped now d xs)) q
                    (pick-PickResult _ _)),
              subst (SameTables d) k t,
            )
      ]
