-- ===== src/Tests/Api.antt =====
-- The properties of the HTTP handlers, each at a concrete database.
use nurix_takehome.Common.{
  ℕ, ◌+◌, ◌≡◌, ◌⊎◌, refl, String, true, none, some, List, [], ◌∷◌, length, first, ◌++◌, All,
}
use nurix_takehome.Model.Status.{dialing, queued, active, pending}
use nurix_takehome.Model.Json.{end}
use nurix_takehome.Model.Rows.{Campaign, Call, Db}
use nurix_takehome.Model.Txn.{unique_violation}
use nurix_takehome.Persistence.Calls.{phones_unique, count_active_by_campaign}
use nurix_takehome.Persistence.Campaigns
use nurix_takehome.Scheduler.Reclaim.{notify}
use nurix_takehome.Api.Campaigns.{CampaignCreate, created, crashed, create_campaign}
use nurix_takehome.Api.Debug
use nurix_takehome.Api.Campaigns.Fits.{IsFree}
use nurix_takehome.Api.Campaigns.NewCalls.{AreNewCalls}
use nurix_takehome.Api.Campaigns.Outcome.{create_campaign-AreNewCalls}
use nurix_takehome.Api.Schemas.Phones.Accepted.{NoRepeats}
use nurix_takehome.Tests.Samples.{
  sample_call, sample_campaign, sample_db, sample_deps, world_of, weekdays,
}

abbrev ringing : Db
ringing =
    sample_db (sample_campaign 7 active ∷ [])
      (sample_call 1 7 "+1" dialing ∷ sample_call 2 7 "+2" queued ∷ []) []

abbrev order : CampaignCreate
order = record {
  name = "nyc-evening";
  timezone = "UTC";
  schedule = weekdays;
  max_concurrent = none;
  retry_config = end;
  max_attempts = 2;
}

abbrev phones : List (ℕ × String)
phones = (3, "+3") ∷ (4, "+4") ∷ []

create_campaign-AreNewCalls_example :
    (create_campaign sample_deps 8 phones order (world_of ringing)
        ≡ (crashed unique_violation, world_of ringing))
      × (phones_unique ringing.calls ≡ true
          → All (λ e. IsFree ringing.calls e.1) phones
          → NoRepeats ("+3" ∷ "+4" ∷ [])
          → ⊥)
    ⊎ (c : Campaign) × (d' : Db) × (rows : List Call) × (create_campaign sample_deps 8 phones order
          (world_of ringing)
        ≡ (created c, notify true (record (world_of ringing) { db = d' })))
      × (c.status ≡ pending)
      × (Campaigns.get 8 d' ≡ some c)
      × (d'.calls ≡ ringing.calls ++ rows)
      × AreNewCalls 8 order.max_attempts rows ("+3" ∷ "+4" ∷ [])
      × (count_active_by_campaign 8 d' ≡ count_active_by_campaign 8 ringing + length phones)
unfolding Campaigns.get first
create_campaign-AreNewCalls_example =
    create_campaign-AreNewCalls sample_deps 8 phones order (world_of ringing) refl
