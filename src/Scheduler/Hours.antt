-- ===== src/Scheduler/Hours.antt =====
-- app/scheduler/business_hours.py.
pub mod Windows
use nurix_takehome.Common.{
  ℕ, zero, suc, String, Bool, true, false, Option, none, some, List, [], ◌∷◌, if◌then◌else◌,
}
use nurix_takehome.Model.Json.{Json, null, str, arr, obj, Items, nil, cons, Fields, get}
use nurix_takehome.Model.Txn.{
  Error, Result, ok, err, invalid_schedule, value_error, key_error, type_error,
}
use nurix_takehome.Model.Time.{Time, before, at_most, naive}
use nurix_takehome.Model.Deps.{Platform}

infixl 5 ◌>>=◌
abbrev ◌>>=◌ : {A B : Type 0} → Result A → (A → Result B) → Result B
ok a >>= f = f a
err e >>= f = err e

unfoldable pub day_key : ℕ → String
day_key zero = "mon"
day_key (suc zero) = "tue"
day_key (suc (suc zero)) = "wed"
day_key (suc (suc (suc zero))) = "thu"
day_key (suc (suc (suc (suc zero)))) = "fri"
day_key (suc (suc (suc (suc (suc zero))))) = "sat"
day_key (suc (suc (suc (suc (suc (suc _)))))) = "sun"

pub record TimeWindow : Type 0 where
  pub start : Time
  pub end : Time

abbrev or_raise : {A : Type 0} → Error → Option A → Result A
or_raise e none = err e
or_raise e (some a) = ok a

-- `raw[key]`
unfoldable pub item : String → Json → Result Json
item key (obj fs) = or_raise key_error (get key fs)
item key _ = err type_error

-- `time.fromisoformat(v)`
unfoldable pub iso_time : Platform → Json → Result Time
iso_time p (str s) = or_raise value_error (p.time_of_iso s)
iso_time p _ = err type_error

unfoldable pub parse_window : Platform → Json → Result TimeWindow
unfolding item iso_time before
parse_window p raw = do
  s ← item "start" raw
  start ← iso_time p s
  e ← item "end" raw
  end ← iso_time p e
  ordered ← before start end
  if ordered then ok (record { start = start; end = end }) else err invalid_schedule

unfoldable pub parse_windows : Platform → Items → Result (List TimeWindow)
unfolding parse_window
parse_windows p nil = ok []
parse_windows p (cons j js) = do w ← parse_window p j; ws ← parse_windows p js; ok (w ∷ ws)

unfoldable pub parse_day_windows : Platform → Json → Result (List TimeWindow)
unfolding parse_windows
parse_day_windows p null = ok []
parse_day_windows p (arr js) = parse_windows p js
parse_day_windows p _ = err invalid_schedule

-- `w.start <= t_now < w.end`
unfoldable pub covers : Time → TimeWindow → Result Bool
covers t w = do started ← at_most w.start t; if started then before t w.end else ok false

-- `any(...)` ends at the first window that covers the time, or that raises.
unfoldable pub any_open : Time → List TimeWindow → Result Bool
unfolding covers
any_open t [] = ok false
any_open t (w ∷ ws) =
    let rest = any_open t ws in do open_now ← covers t w; if open_now then ok true else rest

abbrev pub day_or_empty : Option Json → Json
day_or_empty none = arr nil
day_or_empty (some j) = j

-- `except InvalidScheduleError: return False`; other exceptions pass.
abbrev pub open_at : ℕ → Result (List TimeWindow) → Result Bool
open_at t (ok ws) = any_open (naive t) ws
open_at t (err invalid_schedule) = ok false
open_at t (err e) = err e

unfoldable pub is_in_window : Platform → Fields → String → ℕ → Result Bool
unfolding day_key any_open
is_in_window p schedule timezone now = elim (p.localize timezone now) [
  | none ↦ ok false
  | some (weekday, t) ↦
      open_at t (parse_day_windows p (day_or_empty (get (day_key weekday) schedule)))
]
