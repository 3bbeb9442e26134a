-- ===== src/Scheduler/Config.antt =====
-- `retry_config.get("backoff_base_seconds", default)` made a number, as app/scheduler/tick.py and
-- app/scheduler/webhook_processor.py do it.
use nurix_takehome.Common.{ℕ, true, false, Option, none, some}
use nurix_takehome.Model.Json.{Json, null, bool, num, str, stamp, arr, obj, Fields, get}
use nurix_takehome.Model.Txn.{Result, ok, err, value_error, type_error}
use nurix_takehome.Model.Deps.{Deps}

abbrev parsed : Option ℕ → Result ℕ
parsed none = err value_error
parsed (some n) = ok n

-- `float(v)`
unfoldable pub to_float : Deps → Json → Result ℕ
to_float d (num n) = ok n
to_float d (bool true) = ok 1
to_float d (bool false) = ok 0
to_float d (str s) = parsed (d.platform.float_of s)
to_float d (stamp t) = err value_error
to_float d _ = err type_error

unfoldable pub tick_base_seconds : Deps → Fields → Result ℕ
unfolding to_float
tick_base_seconds d config = elim (get "backoff_base_seconds" config) [
  | none ↦ ok d.settings.retry_backoff_base_seconds
  | some j ↦ to_float d j
]

-- `isinstance(v, int | float | str)` holds of a `bool` too; the rest takes the default.
abbrev webhook_float : Deps → Json → Result ℕ
webhook_float d null = ok d.settings.retry_backoff_base_seconds
webhook_float d (arr _) = ok d.settings.retry_backoff_base_seconds
webhook_float d (obj _) = ok d.settings.retry_backoff_base_seconds
webhook_float d j = to_float d j

unfoldable pub webhook_base_seconds : Deps → Fields → Result ℕ
unfolding to_float
webhook_base_seconds d config = elim (get "backoff_base_seconds" config) [
  | none ↦ ok d.settings.retry_backoff_base_seconds
  | some j ↦ webhook_float d j
]
