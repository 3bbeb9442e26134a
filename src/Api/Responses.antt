-- ===== src/Api/Responses.antt =====
-- The JSON that app/api/routers/campaigns.py stores of a validated body, and `_row_to_response`,
-- which reads it back. How pydantic writes a time and reads one is given.
pub mod Roundtrip
use nurix_takehome.Common.{
  ℕ, suc, String, Bool, true, false, ◌&&◌, Option, none, some, List, [], ◌∷◌, ltb, if◌then◌else◌,
}
use nurix_takehome.Model.Json.{
  Json, null, bool, num, str, arr, obj, Items, nil, cons, Fields, end, field, get,
}
use nurix_takehome.Model.Status.{CampaignStatus, pending, active, completed, failed}
use nurix_takehome.Model.Rows.{Campaign}
use nurix_takehome.Model.Time.{Time}
use nurix_takehome.Model.Txn.{Result, ok, err, value_error, type_error}
use nurix_takehome.Scheduler.Hours.{TimeWindow}
use nurix_takehome.Api.Schemas.Body.{
  Weekday, mon, tue, wed, thu, fri, sat, sun, weekday_key, RetryConfig, Schedule, start_before_end,
  validate_retry,
}

-- What pydantic makes of a `time` in JSON mode, and of a JSON value for a field of type `time` or `int`.
pub record Pydantic : Type 0 where
  pub time_text : Time → String
  pub time_of : Json → Option Time
  pub int_of : Json → Option ℕ

infixl 5 ◌>>=◌
abbrev ◌>>=◌ : {A B : Type 0} → Result A → (A → Result B) → Result B
ok a >>= f = f a
err e >>= f = err e

-- `w.model_dump(mode="json")`
unfoldable pub dump_window : Pydantic → TimeWindow → Json
dump_window p w =
    obj (field "start" (str (p.time_text w.start)) (field "end" (str (p.time_text w.end)) end))

unfoldable pub dump_windows : Pydantic → List TimeWindow → Items
unfolding dump_window
dump_windows p [] = nil
dump_windows p (w ∷ ws) = cons (dump_window p w) (dump_windows p ws)

-- `schedule_json`
unfoldable pub dump_schedule : Pydantic → Schedule → Fields
unfolding dump_windows weekday_key
dump_schedule p [] = end
dump_schedule p ((d, ws) ∷ rest) =
    field (weekday_key d) (arr (dump_windows p ws)) (dump_schedule p rest)

-- `body.retry_config.model_dump(mode="json")`
unfoldable pub dump_retry : RetryConfig → Fields
dump_retry r =
    field "max_attempts" (num r.max_attempts)
      (field "backoff_base_seconds" (num r.backoff_base_seconds) end)

-- `_EXTERNAL_STATUS_MAP`
unfoldable pub external_status : CampaignStatus → String
external_status pending = "pending"
external_status active = "in_progress"
external_status completed = "completed"
external_status failed = "failed"

-- A field that is missing, or that pydantic cannot read, is a ValidationError.
abbrev required : {A : Type 0} → (Json → Option A) → Option Json → Result A
required read none = err value_error
required read (some j) = elim (read j) [ none ↦ err value_error | some a ↦ ok a ]

-- `TimeWindow(**w)`: what is no object cannot be spread.
unfoldable pub load_window : Pydantic → Json → Result TimeWindow
unfolding start_before_end
load_window p (obj fs) = do
  s ← required p.time_of (get "start" fs)
  e ← required p.time_of (get "end" fs)
  start_before_end (record { start = s; end = e })
load_window p _ = err type_error

unfoldable pub load_windows : Pydantic → Items → Result (List TimeWindow)
unfolding load_window
load_windows p nil = ok []
load_windows p (cons j js) = do w ← load_window p j; ws ← load_windows p js; ok (w ∷ ws)

-- `for w in (sched_raw.get(key) or [])`: iterating a text or an object spreads its characters or keys.
unfoldable pub load_day : Pydantic → Option Json → Result (List TimeWindow)
unfolding load_windows
load_day p none = ok []
load_day p (some (arr js)) = load_windows p js
load_day p (some null) = ok []
load_day p (some (bool false)) = ok []
load_day p (some (num n)) = if ltb 0 n then err type_error else ok []
load_day p (some (str String.[])) = ok []
load_day p (some (obj end)) = ok []
load_day p (some _) = err type_error

-- `_WEEKDAY_KEYS`
abbrev pub weekdays : List Weekday
weekdays = mon ∷ tue ∷ wed ∷ thu ∷ fri ∷ sat ∷ sun ∷ []

unfoldable pub load_days : Pydantic → Fields → List Weekday → Result Schedule
unfolding load_day weekday_key
load_days p schedule [] = ok []
load_days p schedule (d ∷ ds) = do
  ws ← load_day p (get (weekday_key d) schedule)
  rest ← load_days p schedule ds
  ok ((d, ws) ∷ rest)

-- `RetryConfig(**row.retry_config)`
unfoldable pub load_retry : Pydantic → Fields → Result RetryConfig
unfolding validate_retry
load_retry p fs = do
  m ← required p.int_of (get "max_attempts" fs)
  b ← required p.int_of (get "backoff_base_seconds" fs)
  validate_retry (record { max_attempts = m; backoff_base_seconds = b })

pub record CampaignResponse : Type 0 where
  pub id : ℕ
  pub name : String
  pub status : String
  pub timezone : String
  pub schedule : Schedule
  pub max_concurrent : ℕ
  pub retry_config : RetryConfig
  pub created_at : ℕ
  pub updated_at : ℕ

unfoldable pub row_to_response : Pydantic → Campaign → Result CampaignResponse
unfolding load_days load_retry external_status
row_to_response p row = do
  schedule ← load_days p row.schedule weekdays
  retry ← load_retry p row.retry_config
  ok (record {
    id = row.id;
    name = row.name;
    status = external_status row.status;
    timezone = row.timezone;
    schedule = schedule;
    max_concurrent = row.max_concurrent;
    retry_config = retry;
    created_at = row.created_at;
    updated_at = row.updated_at;
  })
