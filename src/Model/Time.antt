-- ===== src/Model/Time.antt =====
-- `datetime.time` and its comparisons: a time of day, with the offset from UTC that an ISO text may
-- give it. Python raises TypeError where a time with an offset meets one without.
use nurix_takehome.Common.{ℕ, ◌+◌, Bool, Option, none, some, ltb, leb}
use nurix_takehome.Model.Txn.{Result, ok, err, type_error}

-- Microseconds of the day; an offset counts microseconds east of UTC from minus one day, so that it
-- is not negative.
pub record Time : Type 0 where
  pub wall : ℕ
  pub offset : Option ℕ

-- `a < b` and `a <= b`
abbrev compare_by : (ℕ → ℕ → Bool) → ℕ → ℕ → Option ℕ → Option ℕ → Result Bool
compare_by test a b none none = ok (test a b)
compare_by test a b (some x) (some y) = ok (test (a + y) (b + x))
compare_by test a b none (some y) = err type_error
compare_by test a b (some x) none = err type_error

unfoldable pub before : Time → Time → Result Bool
before a b = compare_by ltb a.wall b.wall a.offset b.offset

unfoldable pub at_most : Time → Time → Result Bool
at_most a b = compare_by leb a.wall b.wall a.offset b.offset

abbrev pub naive : ℕ → Time
naive t = record { wall = t; offset = none }
