-- ===== src/Persistence/Campaigns/Stats.antt =====
-- The figures of a campaign's statistics add up.
use nurix_takehome.Common.{
  ℕ, ◌+◌, ◌≡◌, refl, List, [], ◌∷◌, arith, count_where, ◌==◌, if◌then◌else◌, ◌&&◌,
}
use nurix_takehome.Model.Status.{CallStatus, completed, status_eq}
use nurix_takehome.Model.Rows.{Call, Db}
use nurix_takehome.Persistence.Calls.{is_active}
use nurix_takehome.Persistence.Campaigns.{stats, is_failure}

one_kind :
    (s : CallStatus)
    → (if status_eq s completed then 1 else 0)
        + (if is_failure s then 1 else 0)
        + (if is_active s then 1 else 0)
      ≡ 1
unfolding status_eq is_failure is_active
one_kind s = ground arith

count_kinds :
    (i : ℕ) (cs : List Call)
    → count_where (λ c. c.campaign_id == i && status_eq c.status completed) cs
        + count_where (λ c. c.campaign_id == i && is_failure c.status) cs
        + count_where (λ c. c.campaign_id == i && is_active c.status) cs
      ≡ count_where (λ c. c.campaign_id == i) cs
unfolding count_where
count_kinds i [] = refl
count_kinds i (c ∷ cs) = ground (arith, one_kind c.status, count_kinds i cs)

-- The calls reported as completed, as failed and as in progress are all the calls of the campaign,
-- each in one of the three figures.
pub stats-partition :
    (i : ℕ) (d : Db)
    → (stats i d).completed + (stats i d).failed + (stats i d).in_progress ≡ (stats i d).total
unfolding stats
stats-partition i d = count_kinds i d.calls
