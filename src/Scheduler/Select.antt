-- ===== src/Scheduler/Select.antt =====
-- Steps 1 to 4 of `tick` in app/scheduler/tick.py: which campaign is next.
pub mod Order
pub mod Pick
pub mod Gates
pub mod Sound
use nurix_takehome.Common.{
  ℕ, Bool, true, false, ◌&&◌, ◌||◌, Option, none, some, List, [], ◌∷◌, map, ltb, ◌==◌,
  if◌then◌else◌, rows_where,
}
use nurix_takehome.Model.Status.{skip_business_hour, skip_concurrency}
use nurix_takehome.Model.Json.{num, str, end, field, txt, int}
use nurix_takehome.Model.Rows.{AuditEvent, CampaignWithCursor}
use nurix_takehome.Model.Txn.{Result, ok, err, Txn, pure, gets, ◌>>=◌, ◌>>◌}
use nurix_takehome.Model.Deps.{Platform, Deps}
use nurix_takehome.Audit.{audit_event, emit_audit}
use nurix_takehome.Persistence.Calls.{
  is_among, count_of, in_flight_counts_by_campaign, find_retry_due_campaign_ids,
}
use nurix_takehome.Persistence.Campaigns.{list_eligible_for_tick}
use nurix_takehome.Scheduler.Hours.{is_in_window}

-- `c.last_dispatch_at or datetime.min`
abbrev pub rr_time : CampaignWithCursor → ℕ
rr_time c = elim c.last_dispatch_at [ none ↦ 0 | some t ↦ t ]

-- `<` of two `_rr_sort_key` tuples.
unfoldable pub rr_before : CampaignWithCursor → CampaignWithCursor → Bool
rr_before a b = ltb (rr_time a) (rr_time b) || (rr_time a == rr_time b && ltb a.id b.id)

-- `sorted(..., key=_rr_sort_key)`, which is stable.
unfoldable pub rr_insert : CampaignWithCursor → List CampaignWithCursor → List CampaignWithCursor
rr_insert c [] = c ∷ []
rr_insert c (x ∷ xs) = if rr_before x c then x ∷ rr_insert c xs else c ∷ x ∷ xs

unfoldable pub rr_sorted : List CampaignWithCursor → List CampaignWithCursor
unfolding rr_insert
rr_sorted [] = []
rr_sorted (c ∷ cs) = rr_insert c (rr_sorted cs)

-- `min(..., key=_rr_sort_key)`, which returns the first of equal minima.
abbrev rr_least : CampaignWithCursor → Option CampaignWithCursor → CampaignWithCursor
rr_least c none = c
rr_least c (some m) = if rr_before m c then m else c

unfoldable pub rr_min : List CampaignWithCursor → Option CampaignWithCursor
rr_min [] = none
rr_min (c ∷ cs) = some (rr_least c (rr_min cs))

-- Step 2a. The first list is `in_hours`, the second `out_of_hours`.
abbrev side :
    Bool
    → CampaignWithCursor
    → List CampaignWithCursor × List CampaignWithCursor
    → List CampaignWithCursor × List CampaignWithCursor
side true c (xs, ys) = (c ∷ xs, ys)
side false c (xs, ys) = (xs, c ∷ ys)

abbrev add_side :
    CampaignWithCursor
    → Bool
    → Result (List CampaignWithCursor × List CampaignWithCursor)
    → Result (List CampaignWithCursor × List CampaignWithCursor)
add_side c b (ok r) = ok (side b c r)
add_side c b (err e) = err e

unfoldable pub split_hours :
    Platform
    → ℕ
    → List CampaignWithCursor
    → Result (List CampaignWithCursor × List CampaignWithCursor)
split_hours p now [] = ok ([], [])
split_hours p now (c ∷ cs) =
    let rest = split_hours p now cs in
    elim (is_in_window p c.schedule c.timezone now) [ ok b ↦ add_side c b rest | err e ↦ err e ]

abbrev pub skip_hours_event : CampaignWithCursor → AuditEvent
skip_hours_event c =
    record (audit_event skip_business_hour (txt "outside configured business-hour window" ∷ [])) {
      campaign_id = some c.id;
      extra = field "timezone" (str c.timezone) end;
    }

unfoldable pub skip_hours : List CampaignWithCursor → Txn (Unit {0})
skip_hours [] = pure tt
skip_hours (c ∷ cs) = do emit_audit (skip_hours_event c); skip_hours cs

-- Step 2b: the campaigns below their cap, in order. The others leave an audit row.
abbrev pub skip_concurrency_event : CampaignWithCursor → ℕ → AuditEvent
skip_concurrency_event c current =
    record (audit_event skip_concurrency
      (txt "in-flight " ∷ int current ∷ txt " >= max_concurrent " ∷ int c.max_concurrent ∷ [])) {
        campaign_id = some c.id;
        extra = field "in_flight" (num current) (field "max_concurrent" (num c.max_concurrent) end);
      }

abbrev pub gate_one : CampaignWithCursor → ℕ → Txn Bool
gate_one c current =
    if ltb current c.max_concurrent
    then pure true
    else (do emit_audit (skip_concurrency_event c current); pure false)

abbrev pub keep : {A : Type 0} → Bool → A → List A → List A
keep true a rest = a ∷ rest
keep false a rest = rest

unfoldable pub gate : List (ℕ × ℕ) → List CampaignWithCursor → Txn (List CampaignWithCursor)
gate counts [] = pure []
gate counts (c ∷ cs) = do
  below ← gate_one c (count_of c.id counts)
  rest ← gate counts cs
  pure (keep below c rest)

abbrev pub id_of : CampaignWithCursor → ℕ
id_of c = c.id

-- Steps 3 and 4: the least retry candidate, or else the least survivor, with `is_retry`.
abbrev first_candidate :
    List CampaignWithCursor → Option CampaignWithCursor → Option (CampaignWithCursor × Bool)
first_candidate (c ∷ _) other = some (c, true)
first_candidate [] none = none
first_candidate [] (some c) = some (c, false)

unfoldable pub pick : List ℕ → List CampaignWithCursor → Option (CampaignWithCursor × Bool)
pick retry_due capped =
    first_candidate (rr_sorted (rows_where (λ c. is_among c.id retry_due) capped)) (rr_min capped)

-- The reads and skip rows up to the pick. Nothing raises after the first audit row, so the rows may
-- stand in one transaction; `none` is an early return.
abbrev pub survivors : List CampaignWithCursor → Txn (Option (CampaignWithCursor × Bool))
survivors in_hours = do
  counts ← gets (λ now d. in_flight_counts_by_campaign (map id_of in_hours) d)
  capped ← gate counts in_hours
  retry_due ← gets find_retry_due_campaign_ids
  pure (pick retry_due capped)

abbrev pub by_hours :
    Result (List CampaignWithCursor × List CampaignWithCursor)
    → Txn (Option (CampaignWithCursor × Bool))
by_hours (err e) now d = err e
by_hours (ok (in_hours, out_of_hours)) now d =
    (skip_hours out_of_hours >>= λ _. survivors in_hours) now d

unfoldable pub select : Deps → Txn (Option (CampaignWithCursor × Bool))
unfolding gate skip_hours
select deps now d = by_hours (split_hours deps.platform now (list_eligible_for_tick d)) now d
