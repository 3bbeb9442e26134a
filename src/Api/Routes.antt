-- ===== src/Api/Routes.antt =====
-- The routes of app/api/routers/campaigns.py and app/api/routers/calls.py. A page cursor is the pair
-- that its text encodes.
pub mod Created
pub mod Figures
use nurix_takehome.Common.{
  ℕ, suc, String, Bool, Option, none, some, List, [], ◌∷◌, map, if◌then◌else◌,
}
use nurix_takehome.Model.Status.{
  CallStatus, value, queued, dialing, in_progress, retry_pending, completed, failed, no_answer,
  busy,
}
use nurix_takehome.Model.Rows.{Campaign, Call, Db}
use nurix_takehome.Model.Txn.{Error, type_error, Result, ok, err, World}
use nurix_takehome.Model.Deps.{Deps}
use nurix_takehome.Persistence.Calls
use nurix_takehome.Persistence.Campaigns
use nurix_takehome.Persistence.Campaigns.{CampaignStats}
use nurix_takehome.Persistence.Pages.{Key, list_page, list_for_campaign}
use nurix_takehome.Api.Schemas.Phones.{PhoneNumbers}
use nurix_takehome.Api.Schemas.Body.{Body, within, validate}
use nurix_takehome.Api.Responses.{
  Pydantic, dump_schedule, dump_retry, CampaignResponse, row_to_response,
}
use nurix_takehome.Api.Campaigns as Creation
use nurix_takehome.Api.Campaigns.{CampaignCreate, create_campaign}

-- 422, 404, an exception or the answer 500, and an answer.
pub data Answer (A : Type 0) : Type 0 where
  unprocessable : Answer A
  not_found : Answer A
  crashed : Error → Answer A
  disappeared : Answer A
  answered : A → Answer A

abbrev pub of_result : {A : Type 0} → Result A → Answer A
of_result (ok a) = answered a
of_result (err e) = crashed e

-- The ids that the database draws, one for each phone.
unfoldable pub draw_ids : (ℕ → ℕ) → ℕ → List String → List (ℕ × String)
draw_ids draw i [] = []
draw_ids draw i (p ∷ ps) = (draw i, p) ∷ draw_ids draw (suc i) ps

-- What the handler passes to the repositories.
abbrev pub request_of : Pydantic → Body → CampaignCreate
request_of py b = record {
  name = b.name;
  timezone = b.timezone;
  schedule = dump_schedule py b.schedule;
  max_concurrent = b.max_concurrent;
  retry_config = dump_retry b.retry_config;
  max_attempts = b.retry_config.max_attempts;
}

abbrev pub reply_of : Pydantic → Creation.Reply → Answer CampaignResponse
reply_of py (Creation.created c) = of_result (row_to_response py c)
reply_of py Creation.disappeared = disappeared
reply_of py (Creation.crashed e) = crashed e

-- A TypeError passes through the validation as the answer 500.
abbrev refusal : {A : Type 0} → Error → Answer A
refusal type_error = crashed type_error
refusal _ = unprocessable

module _ {N : Type 0} (lib : PhoneNumbers N) (known : String → Bool) (py : Pydantic)
    (deps : Deps) where
  abbrev pub create_from : ℕ → (ℕ → ℕ) → Result Body → World → Answer CampaignResponse × World
  create_from id draw (err e) w = (refusal e, w)
  create_from id draw (ok b) w =
      let (reply, w') = create_campaign deps id (draw_ids draw 0 b.phones) (request_of py b) w in
      (reply_of py reply, w')

  -- `POST /campaigns`
  unfoldable pub post_campaign : ℕ → (ℕ → ℕ) → Body → World → Answer CampaignResponse × World
  post_campaign id draw body w = create_from id draw (validate lib known body) w

-- `GET /campaigns/{campaign_id}`
unfoldable pub get_campaign : Pydantic → ℕ → Db → Answer CampaignResponse
get_campaign py id d = elim (Campaigns.get id d) [
  | none ↦ not_found
  | some row ↦ of_result (row_to_response py row)
]

abbrev appended : {A : Type 0} → Result A → Result (List A) → Result (List A)
appended (err e) rest = err e
appended (ok a) (err e) = err e
appended (ok a) (ok rest) = ok (a ∷ rest)

-- `[_row_to_response(r) for r in rows]`
unfoldable pub to_responses : Pydantic → List Campaign → Result (List CampaignResponse)
to_responses py [] = ok []
to_responses py (row ∷ rows) = appended (row_to_response py row) (to_responses py rows)

abbrev listed : {A : Type 0} → Result (List A) → Option Key → Answer (List A × Option Key)
listed (ok xs) next = answered (xs, next)
listed (err e) next = crashed e

-- `GET /campaigns`
unfoldable pub list_campaigns :
    Pydantic → Option Key → ℕ → Db → Answer (List CampaignResponse × Option Key)
unfolding to_responses
list_campaigns py cursor limit d =
    if within 1 200 limit
    then (elim (list_page cursor limit d) [
      | ok (rows, next) ↦ listed (to_responses py rows) next
      | err e ↦ crashed e
    ])
    else unprocessable

-- The routes below look for the campaign first, and read what they show from the later database.
abbrev if_exists : {A : Type 0} → Option Campaign → Answer A → Answer A
if_exists none a = not_found
if_exists (some row) a = a

-- `GET /campaigns/{campaign_id}/stats`
unfoldable pub get_campaign_stats : ℕ → Db → Db → Answer CampaignStats
get_campaign_stats id d later = if_exists (Campaigns.get id d) (answered (Campaigns.stats id later))

pub record CampaignCallResponse : Type 0 where
  pub id : ℕ
  pub phone : String
  pub status : String
  pub attempt_epoch : ℕ
  pub retries_remaining : ℕ
  pub next_attempt_at : Option ℕ
  pub updated_at : ℕ

abbrev call_response : Call → CampaignCallResponse
call_response c = record {
  id = c.id;
  phone = c.phone;
  status = value c.status;
  attempt_epoch = c.attempt_epoch;
  retries_remaining = c.retries_remaining;
  next_attempt_at = c.next_attempt_at;
  updated_at = c.updated_at;
}

-- `GET /campaigns/{campaign_id}/calls`
unfoldable pub list_campaign_calls :
    ℕ → Option Key → ℕ → Db → Db → Answer (List CampaignCallResponse × Option Key)
unfolding value
list_campaign_calls id cursor limit d later =
    if within 1 200 limit
    then if_exists (Campaigns.get id d) (elim (list_for_campaign id cursor limit later) [
      | ok (rows, next) ↦ answered (map call_response rows, next)
      | err e ↦ crashed e
    ])
    else unprocessable

-- `_EXTERNAL_STATUS_MAP` of app/api/routers/calls.py
unfoldable pub external_call_status : CallStatus → String
external_call_status queued = "in_progress"
external_call_status dialing = "in_progress"
external_call_status in_progress = "in_progress"
external_call_status retry_pending = "in_progress"
external_call_status completed = "completed"
external_call_status failed = "failed"
external_call_status no_answer = "failed"
external_call_status busy = "failed"

pub record CallResponse : Type 0 where
  pub id : ℕ
  pub campaign_id : ℕ
  pub phone : String
  pub status : String

-- `GET /calls/{call_id}`
unfoldable pub get_call : ℕ → Db → Answer CallResponse
unfolding external_call_status
get_call i d = elim (Calls.get i d) [
  | none ↦ not_found
  | some row ↦ answered (record {
    id = row.id;
    campaign_id = row.campaign_id;
    phone = row.phone;
    status = external_call_status row.status;
  })
]
