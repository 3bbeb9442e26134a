-- ===== src/Api/Responses/Roundtrip.antt =====
-- What is stored of an accepted schedule, read back by the scheduler and by the API.
use nurix_takehome.Common.{
  String, ◌≡◌, refl, some, List, [], ◌∷◌, map, All, str_eq, if◌then◌else◌, Bool-cases, inl, inr,
}
use nurix_takehome.Model.Json.{str, num, get}
use nurix_takehome.Model.Txn.{ok}
use nurix_takehome.Model.Deps.{Platform}
use nurix_takehome.Scheduler.Hours.{TimeWindow, parse_windows, parse_day_windows, day_or_empty}
use nurix_takehome.Api.Schemas.Body.{Weekday, weekday_key, RetryConfig, Schedule, validate_retry}
use nurix_takehome.Api.Schemas.Body.Valid.{IsOrdered, AllWindows}
use nurix_takehome.Api.Responses.{
  Pydantic, dump_windows, dump_schedule, dump_retry, load_windows, load_day, load_days, load_retry,
}

-- `schedule.get(key, [])` of the body.
unfoldable pub windows_of : String → Schedule → List TimeWindow
windows_of key [] = []
windows_of key ((d, ws) ∷ rest) = if str_eq (weekday_key d) key then ws else windows_of key rest

-- The scheduler reads the texts of the window's times as those times.
abbrev pub Parses : Platform → Pydantic → TimeWindow → Type 0
Parses p py w =
    (p.time_of_iso (py.time_text w.start) ≡ some w.start)
    × (p.time_of_iso (py.time_text w.end) ≡ some w.end)

-- pydantic reads the texts of the window's times as those times.
abbrev pub Loads : Pydantic → TimeWindow → Type 0
Loads py w =
    (py.time_of (str (py.time_text w.start)) ≡ some w.start)
    × (py.time_of (str (py.time_text w.end)) ≡ some w.end)

parse_dumped :
    (p : Platform) (py : Pydantic) (ws : List TimeWindow)
    → All IsOrdered ws
    → All (Parses p py) ws
    → parse_windows p (dump_windows py ws) ≡ ok ws
unfolding parse_windows dump_windows get
parse_dumped p py [] o h = refl
parse_dumped p py (w ∷ ws) (b, o) ((s, e), h) =
    rw (s, parse_windows) (rw e (rw b (rw (parse_dumped p py ws o h) refl)))

load_dumped :
    (py : Pydantic) (ws : List TimeWindow)
    → All IsOrdered ws
    → All (Loads py) ws
    → load_windows py (dump_windows py ws) ≡ ok ws
unfolding load_windows dump_windows get
load_dumped py [] o h = refl
load_dumped py (w ∷ ws) (b, o) ((s, e), h) =
    rw (s, load_windows) (rw e (rw b (rw (load_dumped py ws o h) refl)))

-- For every key, the scheduler reads what is stored of an accepted schedule as the windows of the
-- body for that key, in order, and as no windows if the body has none, provided that it reads what
-- pydantic writes of a time as that time.
pub parse_day_windows-dump_schedule :
    (p : Platform) (py : Pydantic) (key : String) (s : Schedule)
    → AllWindows IsOrdered s
    → AllWindows (Parses p py) s
    → parse_day_windows p (day_or_empty (get key (dump_schedule py s))) ≡ ok (windows_of key s)
unfolding dump_schedule get windows_of parse_day_windows
parse_day_windows-dump_schedule p py key [] o h = refl
parse_day_windows-dump_schedule p py key ((d, ws) ∷ rest) (b, o) (k, h) =
    elim (Bool-cases (str_eq (weekday_key d) key)) [
      | inl e ↦ rw e (parse_dumped p py ws b k)
      | inr e ↦ rw e (parse_day_windows-dump_schedule p py key rest o h)
    ]

pub load_day-dump_schedule :
    (py : Pydantic) (key : String) (s : Schedule)
    → AllWindows IsOrdered s
    → AllWindows (Loads py) s
    → load_day py (get key (dump_schedule py s)) ≡ ok (windows_of key s)
unfolding dump_schedule get windows_of load_day
load_day-dump_schedule py key [] o h = refl
load_day-dump_schedule py key ((d, ws) ∷ rest) (b, o) (k, h) =
    elim (Bool-cases (str_eq (weekday_key d) key)) [
      | inl e ↦ rw e (load_dumped py ws b k)
      | inr e ↦ rw e (load_day-dump_schedule py key rest o h)
    ]

-- The schedule of a response: every weekday, with the body's windows for it.
abbrev pub shown : Schedule → List Weekday → Schedule
shown s ds = map (λ d. (d, windows_of (weekday_key d) s)) ds

pub load_days-dump_schedule :
    (py : Pydantic) (s : Schedule) (ds : List Weekday)
    → AllWindows IsOrdered s
    → AllWindows (Loads py) s
    → load_days py (dump_schedule py s) ds ≡ ok (shown s ds)
unfolding load_days
load_days-dump_schedule py s [] o h = refl
load_days-dump_schedule py s (d ∷ ds) o h =
    rw (load_day-dump_schedule py (weekday_key d) s o h)
      (rw (load_days-dump_schedule py s ds o h) refl)

pub load_retry-dump_retry :
    (py : Pydantic) (r : RetryConfig)
    → py.int_of (num r.max_attempts) ≡ some r.max_attempts
    → py.int_of (num r.backoff_base_seconds) ≡ some r.backoff_base_seconds
    → validate_retry r ≡ ok r
    → load_retry py (dump_retry r) ≡ ok r
unfolding load_retry dump_retry get
load_retry-dump_retry py r a b v = rw a (rw b v)
