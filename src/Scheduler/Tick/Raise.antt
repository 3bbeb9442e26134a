-- ===== src/Scheduler/Tick/Raise.antt =====
-- A tick over a campaign whose hours cannot be compared with the local time.
use nurix_takehome.Common.{ℕ, ◌≡◌, refl, inl, inr, some, List, [], ◌∷◌, InList, subst}
use nurix_takehome.Model.Json.{get}
use nurix_takehome.Model.Rows.{CampaignWithCursor}
use nurix_takehome.Model.Txn.{Error, ok, err, World}
use nurix_takehome.Model.Commit.{bind-commit_err}
use nurix_takehome.Model.Deps.{Platform, Deps}
use nurix_takehome.Persistence.Campaigns.{list_eligible_for_tick}
use nurix_takehome.Scheduler.Hours.{
  TimeWindow, day_key, parse_day_windows, day_or_empty, is_in_window,
}
use nurix_takehome.Scheduler.Hours.Windows.{aware_window}
use nurix_takehome.Scheduler.Select.{split_hours, select}
use nurix_takehome.Scheduler.Select.Sound.{result_cases, select-err}
use nurix_takehome.Scheduler.Tick.{Others, tick, run_pick}

split_raises :
    (p : Platform) (now : ℕ) (c : CampaignWithCursor) (cs : List CampaignWithCursor) {x : Error}
    → InList c cs
    → is_in_window p c.schedule c.timezone now ≡ err x
    → (y : Error) × (split_hours p now cs ≡ err y)
unfolding split_hours
split_raises p now c [] h e = absurd h
split_raises p now c (d ∷ ds) {x} (inl same) e =
    (x, rw (subst (λ z. is_in_window p z.schedule z.timezone now ≡ err x) same e, split_hours) refl)
split_raises p now c (d ∷ ds) (inr k) e =
    let (y, f) = split_raises p now c ds k e in
    elim (result_cases (is_in_window p d.schedule d.timezone now)) [
      | inl (b, g) ↦ (y, rw (g, split_hours) (rw f refl))
      | inr (z, g) ↦ (z, rw (g, split_hours) refl)
    ]

-- If a campaign that is eligible has, for the local weekday, a first window that starts at a time
-- with an offset from UTC, then the tick raises and leaves the world as it was, whatever the other
-- campaigns are and whatever else runs. So nothing is dispatched for any campaign.
pub tick-aware_window :
    (deps : Deps) (others : Others) (w : World) (c : CampaignWithCursor) {day t offset : ℕ}
    {v : TimeWindow} {vs : List TimeWindow}
    → InList c (list_eligible_for_tick w.db)
    → deps.platform.localize c.timezone w.clock ≡ some (day, t)
    → parse_day_windows deps.platform (day_or_empty (get (day_key day) c.schedule)) ≡ ok (v ∷ vs)
    → v.start.offset ≡ some offset
    → (y : Error) × (tick deps others w ≡ (err y, w))
unfolding tick
tick-aware_window deps others w c k e h o =
    let (y, f) =
      split_raises deps.platform w.clock c (list_eligible_for_tick w.db) k
        (aware_window deps.platform c.schedule c.timezone w.clock e h o) in
    (y, bind-commit_err (select deps) (run_pick deps others) w (select-err deps w.clock w.db f))
