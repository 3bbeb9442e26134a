-- ===== src/Api/AuditLog.antt =====
-- `list_audit` of app/api/routers/audit.py. The answer shows the rows as they are.
use Prim.Native.Char.{Char, code}
use nurix_takehome.Common.{
  ℕ, String, not, Option, none, some, List, [], ◌∷◌, map, ◌==◌, rows_where, if◌then◌else◌,
}
use nurix_takehome.Model.Rows.{AuditRow, Db}
use nurix_takehome.Persistence.Pages.{Key}
use nurix_takehome.Api.Schemas.Text.{strip, is_empty}
use nurix_takehome.Api.Schemas.Body.{within}
use nurix_takehome.Api.Routes.{Answer, unprocessable, of_result}
use nurix_takehome.Audit.Reader.{
  Alphabet, EventFilter, one, any_of, AuditQuery, normalize_phone_query, query_audit,
}

-- `s.split(",")`, which has one piece at least.
abbrev onto_first : Char → List String → List String
onto_first c [] = String.◌∷◌ c "" ∷ []
onto_first c (piece ∷ pieces) = String.◌∷◌ c piece ∷ pieces

unfoldable pub split_commas : String → List String
split_commas String.[] = "" ∷ []
split_commas (String.◌∷◌ c s) =
    let rest = split_commas s in if code c == b',' then "" ∷ rest else onto_first c rest

-- `[s.strip() for s in event_type.split(",") if s.strip()]`
unfoldable pub event_items : String → List String
unfolding split_commas
event_items s = rows_where (λ p. not (is_empty p)) (map strip (split_commas s))

abbrev filter_of : List String → Option EventFilter
filter_of [] = none
filter_of (s ∷ []) = some (one s)
filter_of (s ∷ t ∷ ss) = some (any_of (s ∷ t ∷ ss))

unfoldable pub event_filter : Option String → Option EventFilter
unfolding event_items
event_filter none = none
event_filter (some s) = if is_empty s then none else filter_of (event_items s)

-- The parameters of the request.
pub record AuditParams : Type 0 where
  pub campaign_id : Option ℕ
  pub call_id : Option ℕ
  pub event_type : Option String
  pub from_ts : Option ℕ
  pub to_ts : Option ℕ
  pub reason_contains : Option String
  pub phone : Option String
  pub cursor : Option Key
  pub limit : ℕ

-- The query, from the phone as the route passes it on.
abbrev pub query_of : AuditParams → Option String → AuditQuery
query_of p phone = record {
  campaign_id = p.campaign_id;
  call_id = p.call_id;
  event_type = event_filter p.event_type;
  from_ts = p.from_ts;
  to_ts = p.to_ts;
  reason_contains = p.reason_contains;
  phone = phone;
  cursor = p.cursor;
  limit = p.limit;
}

unfoldable pub list_audit : Alphabet → AuditParams → Db → Answer (List AuditRow × Option Key)
unfolding event_filter query_audit normalize_phone_query
list_audit a p d =
    if within 1 500 p.limit
    then of_result (query_audit a (query_of p (normalize_phone_query a.is_digit p.phone)) d)
    else unprocessable
