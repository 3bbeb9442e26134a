-- ===== src/Api/Schemas/Body.antt =====
-- The request body of app/api/schemas/campaigns.py: the fields as pydantic has read them, and what
-- the models' validators make of them. `value_error` is the answer 422; pydantic lets a TypeError
-- pass, which is the answer 500. The numbers of a body are not negative here.
pub mod Valid
use nurix_takehome.Common.{
  ℕ, String, Bool, true, false, ◌&&◌, Option, none, some, List, [], ◌∷◌, leb, length, if◌then◌else◌,
}
use nurix_takehome.Model.Time.{Time, before}
use nurix_takehome.Model.Txn.{Error, Result, ok, err, value_error, type_error}
use nurix_takehome.Scheduler.Hours.{TimeWindow}
use nurix_takehome.Api.Schemas.Text.{len}
use nurix_takehome.Api.Schemas.Zones.{tz_valid}
use nurix_takehome.Api.Schemas.Phones.{
  PhoneNumbers, Phones, rejected, zero_valid, accepted, normalize_phones,
}

pub data Weekday : Type 0 where
  mon tue wed thu fri sat sun : Weekday

unfoldable pub weekday_key : Weekday → String
weekday_key mon = "mon"
weekday_key tue = "tue"
weekday_key wed = "wed"
weekday_key thu = "thu"
weekday_key fri = "fri"
weekday_key sat = "sat"
weekday_key sun = "sun"

pub record RetryConfig : Type 0 where
  pub max_attempts : ℕ
  pub backoff_base_seconds : ℕ

abbrev pub Schedule : Type 0
Schedule = List (Weekday × List TimeWindow)

-- `CampaignCreate`, before its validators and after them.
pub record Body : Type 0 where
  pub name : String
  pub timezone : String
  pub schedule : Schedule
  pub max_concurrent : Option ℕ
  pub retry_config : RetryConfig
  pub phones : List String

-- The error that two parts of a model come to: a TypeError ends the validation, and other errors
-- are collected.
abbrev worse : Error → Error → Error
worse e type_error = type_error
worse e _ = e

infixl 20 ◌⊛◌
abbrev pub ◌⊛◌ : {A B : Type 0} → Result (A → B) → Result A → Result B
ok f ⊛ ok a = ok (f a)
ok f ⊛ err e = err e
err e ⊛ ok a = err e
err e ⊛ err x = err (worse e x)

abbrev pub within : ℕ → ℕ → ℕ → Bool
within lo hi n = leb lo n && leb n hi

abbrev pub valid_if : {A : Type 0} → Bool → A → Result A
valid_if true a = ok a
valid_if false a = err value_error

-- `TimeWindow._start_before_end`
abbrev pub ordered : TimeWindow → Result Bool → Result TimeWindow
ordered w (ok b) = valid_if b w
ordered w (err e) = err e

unfoldable pub start_before_end : TimeWindow → Result TimeWindow
unfolding before
start_before_end w = ordered w (before w.start w.end)

abbrev pub prepend : {A : Type 0} → Result A → Result (List A → List A)
prepend (ok a) = ok (λ l. a ∷ l)
prepend (err e) = err e

unfoldable pub validate_windows : List TimeWindow → Result (List TimeWindow)
unfolding start_before_end
validate_windows [] = ok []
validate_windows (w ∷ ws) = prepend (start_before_end w) ⊛ validate_windows ws

abbrev pub with_day : Weekday → Result (List TimeWindow) → Result (Weekday × List TimeWindow)
with_day d (ok ws) = ok (d, ws)
with_day d (err e) = err e

unfoldable pub validate_schedule : Schedule → Result Schedule
unfolding validate_windows
validate_schedule [] = ok []
validate_schedule ((d, ws) ∷ rest) =
    prepend (with_day d (validate_windows ws)) ⊛ validate_schedule rest

-- `RetryConfig`, by its bounds.
unfoldable pub validate_retry : RetryConfig → Result RetryConfig
validate_retry r = valid_if (within 0 10 r.max_attempts && within 1 3600 r.backoff_base_seconds) r

unfoldable pub validate_max : Option ℕ → Result (Option ℕ)
validate_max none = ok none
validate_max (some n) = valid_if (within 1 100 n) (some n)

abbrev pub phones_result : Phones → Result (List String)
phones_result (rejected e more es) = err value_error
phones_result zero_valid = err value_error
phones_result (accepted ps) = ok ps

-- The bounds on the length come before the validator.
unfoldable pub validate_phones : {N : Type 0} → PhoneNumbers N → List String → Result (List String)
unfolding normalize_phones
validate_phones lib raws =
    if within 1 10000 (length raws)
    then phones_result (normalize_phones lib raws)
    else err value_error

abbrev pub body_of : String → String → Schedule → Option ℕ → RetryConfig → List String → Body
body_of name zone schedule max retry phones = record {
  name = name;
  timezone = zone;
  schedule = schedule;
  max_concurrent = max;
  retry_config = retry;
  phones = phones;
}

module _ {N : Type 0} (lib : PhoneNumbers N) (known : String → Bool) where
  -- `CampaignCreate(**body)`
  unfoldable pub validate : Body → Result Body
  validate b =
      ok body_of
      ⊛ valid_if (within 1 200 (len b.name)) b.name
      ⊛ tz_valid known b.timezone
      ⊛ validate_schedule b.schedule
      ⊛ validate_max b.max_concurrent
      ⊛ validate_retry b.retry_config
      ⊛ validate_phones lib b.phones
