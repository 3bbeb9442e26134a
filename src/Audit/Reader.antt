-- ===== src/Audit/Reader.antt =====
-- app/audit/reader.py: the filters of the audit page, over the keyset pages. The case folding of
-- `ILIKE` and the Unicode class of the decimal digits are given. A cursor is the pair that its text
-- encodes.
pub mod Answers
pub mod Phone
use Prim.Native.Char.{Char, code}
use nurix_takehome.Common.{
  ℕ, String, Bool, true, false, ◌&&◌, ◌||◌, Option, none, some, List, [], ◌∷◌, leb, ltb, ◌==◌,
  str_eq, any_row, rows_where, if◌then◌else◌,
}
use nurix_takehome.Model.Status.{
  EventType, claimed, dispatch, retry_due, skip_business_hour, skip_concurrency,
  webhook_ignored_stale, transition, reclaim_skipped_terminal, reclaim_executed,
  campaign_promoted_active, campaign_completed, debug_age_dialing,
}
use nurix_takehome.Model.Rows.{AuditRow, Db}
use nurix_takehome.Model.Txn.{Result, ok, err, value_error}
use nurix_takehome.Persistence.Pages.{Key, page}
use nurix_takehome.Api.Schemas.Text.{len}
use nurix_takehome.Audit.Like.{like, pattern_of, same_char}
use nurix_takehome.Audit.Render.{render}

-- The strings of `EventType`.
unfoldable pub event_value : EventType → String
event_value claimed = "CLAIMED"
event_value dispatch = "DISPATCH"
event_value retry_due = "RETRY_DUE"
event_value skip_business_hour = "SKIP_BUSINESS_HOUR"
event_value skip_concurrency = "SKIP_CONCURRENCY"
event_value webhook_ignored_stale = "WEBHOOK_IGNORED_STALE"
event_value transition = "TRANSITION"
event_value reclaim_skipped_terminal = "RECLAIM_SKIPPED_TERMINAL"
event_value reclaim_executed = "RECLAIM_EXECUTED"
event_value campaign_promoted_active = "CAMPAIGN_PROMOTED_ACTIVE"
event_value campaign_completed = "CAMPAIGN_COMPLETED"
event_value debug_age_dialing = "DEBUG_AGE_DIALING"

-- What Python and the database know of characters.
pub record Alphabet : Type 0 where
  pub is_digit : Char → Bool
  pub same_letter : Char → Char → Bool

-- `_DIGITS_RE.sub("", raw)`
unfoldable pub digits_of : (Char → Bool) → String → String
digits_of is_digit String.[] = String.[]
digits_of is_digit (String.◌∷◌ c s) =
    let rest = digits_of is_digit s in if is_digit c then String.◌∷◌ c rest else rest

abbrev pub phone_filter_min_digits : ℕ
phone_filter_min_digits = 3

abbrev pub max_limit : ℕ
max_limit = 500

unfoldable pub normalize_phone_query : (Char → Bool) → Option String → Option String
unfolding digits_of
normalize_phone_query is_digit none = none
normalize_phone_query is_digit (some raw) =
    let digits = digits_of is_digit raw in
    if ltb (len digits) phone_filter_min_digits then none else some digits

pub data EventFilter : Type 0 where
  one : String → EventFilter
  any_of : List String → EventFilter

pub record AuditQuery : Type 0 where
  pub campaign_id : Option ℕ
  pub call_id : Option ℕ
  pub event_type : Option EventFilter
  pub from_ts : Option ℕ
  pub to_ts : Option ℕ
  pub reason_contains : Option String
  pub phone : Option String
  pub cursor : Option Key
  pub limit : ℕ

-- `column = $1`, without a filter for None; no NULL equals anything.
abbrev pub equal_to : Option ℕ → Option ℕ → Bool
equal_to none column = true
equal_to (some i) none = false
equal_to (some i) (some j) = j == i

abbrev pub event_meets : Option EventFilter → EventType → Bool
event_meets none e = true
event_meets (some (one s)) e = str_eq (event_value e) s
event_meets (some (any_of ss)) e = any_row (λ s. str_eq (event_value e) s) ss

abbrev pub not_before : Option ℕ → ℕ → Bool
not_before none ts = true
not_before (some t) ts = leb t ts

abbrev pub not_after : Option ℕ → ℕ → Bool
not_after none ts = true
not_after (some t) ts = leb ts t

-- `if reason_contains:` passes the empty text over.
abbrev pub reason_meets : Alphabet → Option String → String → Bool
reason_meets a none reason = true
reason_meets a (some String.[]) reason = true
reason_meets a (some (String.◌∷◌ c s)) reason =
    like a.same_letter reason (pattern_of (String.◌∷◌ c s))

abbrev pub phone_like : String → Option String → Bool
phone_like digits none = false
phone_like digits (some phone) = like same_char phone (pattern_of digits)

-- The digits are taken again here, and too few are no filter.
abbrev pub phone_meets : Alphabet → Option String → Option String → Bool
phone_meets a none phone = true
phone_meets a (some raw) phone =
    if leb phone_filter_min_digits (len (digits_of a.is_digit raw))
    then phone_like (digits_of a.is_digit raw) phone
    else true

-- The WHERE clause, without the cursor.
unfoldable pub row_meets : Alphabet → AuditQuery → AuditRow → Bool
unfolding event_value digits_of
row_meets a q r =
    equal_to q.campaign_id r.event.campaign_id
    && equal_to q.call_id r.event.call_id
    && event_meets q.event_type r.event.event_type
    && not_before q.from_ts r.ts
    && not_after q.to_ts r.ts
    && reason_meets a q.reason_contains (render r.event.reason)
    && phone_meets a q.phone r.event.phone

abbrev pub audit_key : AuditRow → Key
audit_key r = (r.ts, r.id)

abbrev pub limit_ok : ℕ → Bool
limit_ok n = ltb 0 n && leb n max_limit

unfoldable pub query_audit : Alphabet → AuditQuery → Db → Result (List AuditRow × Option Key)
unfolding row_meets
query_audit a q d =
    if limit_ok q.limit
    then ok (page audit_key (rows_where (row_meets a q) d.audit) q.cursor q.limit)
    else err value_error
