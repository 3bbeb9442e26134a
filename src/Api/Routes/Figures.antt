-- ===== src/Api/Routes/Figures.antt =====
-- The status that a call is shown with, against the figures of its campaign.
use nurix_takehome.Common.{ℕ, String, ◌≡◌, refl, ap, Bool, ◌&&◌, str_eq, count_where, ◌==◌}
use mathlib.Core.Path.{fun_ext}
use nurix_takehome.Model.Status.{
  CallStatus, queued, dialing, in_progress, retry_pending, completed, failed, no_answer, busy,
  status_eq,
}
use nurix_takehome.Model.Rows.{Db}
use nurix_takehome.Persistence.Calls.{is_active}
use nurix_takehome.Persistence.Campaigns.{stats, is_failure}
use nurix_takehome.Api.Routes.{external_call_status}

abbrev pub shown_calls : ℕ → String → Db → ℕ
shown_calls i s d =
    count_where (λ c. c.campaign_id == i && str_eq (external_call_status c.status) s) d.calls

one_status :
    (c : CallStatus)
    → (str_eq (external_call_status c) "completed" ≡ status_eq c completed)
      × (str_eq (external_call_status c) "failed" ≡ is_failure c)
      × (str_eq (external_call_status c) "in_progress" ≡ is_active c)
unfolding external_call_status status_eq is_failure is_active
one_status queued = (refl, refl, refl)
one_status dialing = (refl, refl, refl)
one_status in_progress = (refl, refl, refl)
one_status retry_pending = (refl, refl, refl)
one_status CallStatus.completed = (refl, refl, refl)
one_status failed = (refl, refl, refl)
one_status no_answer = (refl, refl, refl)
one_status busy = (refl, refl, refl)

counts :
    (i : ℕ) (d : Db) {p q : CallStatus → Bool}
    → ((c : CallStatus) → p c ≡ q c)
    → count_where (λ c. c.campaign_id == i && p c.status) d.calls
      ≡ count_where (λ c. c.campaign_id == i && q c.status) d.calls
counts i d h =
    ap (λ (p : CallStatus → Bool). count_where (λ c. c.campaign_id == i && p c.status) d.calls)
      (fun_ext h)

-- The figures of a campaign count its calls by the status that each is shown with: as completed, as
-- failed and as in progress.
pub shown_calls-stats :
    (i : ℕ) (d : Db)
    → (shown_calls i "completed" d ≡ (stats i d).completed)
      × (shown_calls i "failed" d ≡ (stats i d).failed)
      × (shown_calls i "in_progress" d ≡ (stats i d).in_progress)
unfolding stats
shown_calls-stats i d = (
  counts i d (λ c. (one_status c).0),
  counts i d (λ c. (one_status c).1),
  counts i d (λ c. (one_status c).2),
)
