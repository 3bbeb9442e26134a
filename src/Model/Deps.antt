-- ===== src/Model/Deps.antt =====
-- app/deps.py, app/config.py, app/provider/types.py and the port of app/provider/base.py. The
-- provider, the time zone data, the readers of text and the random draw are given, not modelled.
use nurix_takehome.Common.{ℕ, ◌+◌, String, Option}
use nurix_takehome.Model.Status.{CallStatus}
use nurix_takehome.Model.Json.{Json, Fields}
use nurix_takehome.Model.Txn.{Result}
use nurix_takehome.Model.Time.{Time}

-- The whole-number settings that the modelled code reads.
pub record Settings : Type 0 where
  pub max_concurrent_default : ℕ
  pub max_call_duration_seconds : ℕ
  pub retry_backoff_base_seconds : ℕ
  pub webhook_processor_batch_max : ℕ

unfoldable pub stuck_reclaim_seconds : Settings → ℕ
stuck_reclaim_seconds s = s.max_call_duration_seconds + 30

-- What a call of `place_call` comes to; `crashed` is any exception that the caller does not catch.
pub data PlaceOutcome : Type 0 where
  accepted : String → PlaceOutcome
  rejected : String → PlaceOutcome
  unavailable crashed : PlaceOutcome

-- What a call of `get_status` under `wait_for` comes to.
pub data StatusReply : Type 0 where
  reported : CallStatus → StatusReply
  timed_out raised : StatusReply

-- f"{call_id}:{attempt_epoch}", by its parts. A UUID holds no colon, so the text has one reading.
pub record IdempotencyKey : Type 0 where
  pub call_id : ℕ
  pub attempt_epoch : ℕ

pub record ProviderEvent : Type 0 where
  pub provider_event_id : Json
  pub provider_call_id : Json
  pub status_enum : CallStatus

-- `time.fromisoformat`, `float` of a text in whole seconds, and
-- `now.astimezone(ZoneInfo(zone))` as weekday (Monday is 0) and time of day; `none` where they raise.
pub record Platform : Type 0 where
  pub time_of_iso : String → Option Time
  pub float_of : String → Option ℕ
  pub localize : String → ℕ → Option (ℕ × ℕ)

pub record Deps : Type 0 where
  pub settings : Settings
  pub platform : Platform
  pub place_call : IdempotencyKey → String → PlaceOutcome
  pub get_status : String → StatusReply
  pub parse_event_fn : Fields → Result ProviderEvent
  -- What `random.uniform` draws for the backoff of a call's attempt.
  pub uniform : ℕ → ℕ → ℕ
