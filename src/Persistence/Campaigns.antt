-- ===== src/Persistence/Campaigns.antt =====
-- `CampaignRepo` of app/persistence/repositories.py, over the `campaigns` table.

pub mod Stats
pub mod Eligible
use nurix_takehome.Common.{
  ℕ, ◌+◌, ◌-◌, String, Bool, true, false, ◌&&◌, Option, none, List, [], ◌∷◌, ◌++◌, map, leb, ◌==◌,
  if◌then◌else◌, first, rows_where, count_where, any_row, update_where,
}
use nurix_takehome.Model.Status.{
  CallStatus, CampaignStatus, queued, retry_pending, completed, failed, no_answer, busy, pending,
  active, status_eq, campaign_status_eq,
}
use nurix_takehome.Model.Json.{Fields}
use nurix_takehome.Model.Rows.{Campaign, CampaignWithCursor, Call, Cursor, Db}
use nurix_takehome.Model.Txn.{ok, Txn}
use nurix_takehome.Persistence.Calls.{is_active}

abbrev pub has_id : ℕ → Campaign → Bool
has_id i c = c.id == i

unfoldable pub get : ℕ → Db → Option Campaign
get i d = first (has_id i) d.campaigns

-- What a campaign is created from.
pub record NewCampaign : Type 0 where
  pub name : String
  pub timezone : String
  pub schedule : Fields
  pub max_concurrent : ℕ
  pub retry_config : Fields

-- `id` is what `gen_random_uuid()` draws.
unfoldable pub create : ℕ → NewCampaign → Txn ℕ
create id n now d = ok (
  id,
  record d {
    campaigns =
        d.campaigns
        ++ record {
          id = id;
          name = n.name;
          status = pending;
          timezone = n.timezone;
          schedule = n.schedule;
          max_concurrent = n.max_concurrent;
          retry_config = n.retry_config;
          created_at = now;
          updated_at = now;
        }
          ∷ [];
  },
)

abbrev pub is_in : ℕ → CampaignStatus → Campaign → Bool
is_in i s c = c.id == i && campaign_status_eq c.status s

-- `UPDATE campaigns SET status = new WHERE id = $1 AND status = expected RETURNING id`
unfoldable pub transition_if : ℕ → CampaignStatus → CampaignStatus → Txn Bool
transition_if i expected new now d = ok (
  any_row (is_in i expected) d.campaigns,
  record d {
    campaigns =
        update_where (is_in i expected) (λ c. record c { status = new; updated_at = now })
          d.campaigns;
  },
)

-- `status IN ('QUEUED', 'RETRY_PENDING')`
unfoldable pub is_dispatchable : CallStatus → Bool
is_dispatchable queued = true
is_dispatchable retry_pending = true
is_dispatchable _ = false

-- `status IN ('PENDING', 'ACTIVE')`
unfoldable pub is_open : CampaignStatus → Bool
is_open pending = true
is_open active = true
is_open _ = false

abbrev pub has_work : ℕ → Db → Bool
has_work i d = any_row (λ c. c.campaign_id == i && is_dispatchable c.status) d.calls

-- The LEFT JOIN: NULL for a campaign without a row, or with a NULL in its row.
unfoldable pub cursor_of : ℕ → List Cursor → Option ℕ
cursor_of i [] = none
cursor_of i (c ∷ cs) = if c.campaign_id == i then c.last_dispatch_at else cursor_of i cs

abbrev pub with_cursor : Db → Campaign → CampaignWithCursor
with_cursor d c = record { campaign = c; last_dispatch_at = cursor_of c.id d.cursors }

-- `ORDER BY c.id ASC`
insert_by_id : CampaignWithCursor → List CampaignWithCursor → List CampaignWithCursor
insert_by_id c [] = c ∷ []
insert_by_id c (x ∷ xs) = if leb c.id x.id then c ∷ x ∷ xs else x ∷ insert_by_id c xs

sort_by_id : List CampaignWithCursor → List CampaignWithCursor
unfolding insert_by_id
sort_by_id [] = []
sort_by_id (c ∷ cs) = insert_by_id c (sort_by_id cs)

unfoldable pub is_eligible : Db → Campaign → Bool
is_eligible d c = is_open c.status && has_work c.id d

unfoldable pub list_eligible_for_tick : Db → List CampaignWithCursor
unfolding sort_by_id
list_eligible_for_tick d = sort_by_id (map (with_cursor d) (rows_where (is_eligible d) d.campaigns))

pub record CampaignStats : Type 0 where
  pub total : ℕ
  pub completed : ℕ
  pub failed : ℕ
  pub retries_attempted : ℕ
  pub in_progress : ℕ

abbrev counted : ℕ → (CallStatus → Bool) → Db → ℕ
counted i p d = count_where (λ c. c.campaign_id == i && p c.status) d.calls

-- `status IN ('FAILED', 'NO_ANSWER', 'BUSY')`
unfoldable pub is_failure : CallStatus → Bool
is_failure failed = true
is_failure no_answer = true
is_failure busy = true
is_failure _ = false

-- `SUM(GREATEST(attempt_epoch - 1, 0))`, 0 over no rows
unfoldable pub sum_retries : ℕ → List Call → ℕ
sum_retries i [] = 0
sum_retries i (c ∷ cs) = (if c.campaign_id == i then c.attempt_epoch - 1 else 0) + sum_retries i cs

-- An aggregate without GROUP BY always returns its row.
unfoldable pub stats : ℕ → Db → CampaignStats
stats i d = record {
  total = count_where (λ c. c.campaign_id == i) d.calls;
  completed = counted i (λ s. status_eq s completed) d;
  failed = counted i is_failure d;
  retries_attempted = sum_retries i d.calls;
  in_progress = counted i is_active d;
}

pub record TerminalAggregate : Type 0 where
  pub completed : ℕ
  pub failed : ℕ
  pub no_answer : ℕ
  pub busy : ℕ

-- The aggregate of `terminal_aggregate`, which the rollup reads by a query of its own.
unfoldable pub terminal_aggregate : ℕ → Db → TerminalAggregate
terminal_aggregate i d = record {
  completed = counted i (λ s. status_eq s completed) d;
  failed = counted i (λ s. status_eq s failed) d;
  no_answer = counted i (λ s. status_eq s no_answer) d;
  busy = counted i (λ s. status_eq s busy) d;
}
