-- ===== src/Tests/AuditLog.antt =====
-- The properties of the audit page, each at a concrete log.
use nurix_takehome.Common.{
  ℕ, ◌≡◌, ◌↔◌, refl, true, false, none, some, [], ◌∷◌, arith, InList, rows_where,
}
use nurix_takehome.Model.Json.{txt, int}
use nurix_takehome.Model.Status.{dispatch}
use nurix_takehome.Model.Rows.{AuditRow, Db}
use nurix_takehome.Persistence.Pages.Order.{Desc}
use nurix_takehome.Audit.{audit_event}
use nurix_takehome.Audit.Like.{like, pattern_of, same_char, tokens, matches}
use nurix_takehome.Audit.Like.Escape.{Contains, like-pattern_of}
use nurix_takehome.Audit.Render.{render}
use nurix_takehome.Audit.Reader.{
  Alphabet, AuditQuery, audit_key, normalize_phone_query, query_audit,
}
use nurix_takehome.Audit.Reader.Phone.{query_audit-normalize}
use nurix_takehome.Audit.Reader.Answers.{Wanted, follow, follow-Wanted}
use nurix_takehome.Api.Schemas.Text.{strip, is_space}
use nurix_takehome.Api.AuditLog.{event_items}
use nurix_takehome.Tests.Samples.{sample_db}

like-pattern_of_example :
    (like same_char "at 100% of it" (pattern_of "100%") ≡ true)
    ↔ Contains same_char "100%" "at 100% of it"
like-pattern_of_example = like-pattern_of same_char "100%" "at 100% of it"

finds : like same_char "at 100% of it" (pattern_of "0% of") ≡ true
unfolding like pattern_of tokens matches
finds = refl

finds_no_wildcard : like same_char "at 100 of it" (pattern_of "100%") ≡ false
unfolding like pattern_of tokens matches
finds_no_wildcard = refl

rendered : render (txt "in-flight " ∷ int 1205 ∷ txt "." ∷ []) ≡ "in-flight 1205."
unfolding render
rendered = refl

items : event_items " DISPATCH,, CLAIMED" ≡ "DISPATCH" ∷ "CLAIMED" ∷ []
unfolding event_items strip is_space rows_where
items = refl

abbrev row : ℕ → AuditRow
row i = record { id = i; ts = 100; event = audit_event dispatch (txt "round-robin dispatch" ∷ []) }

abbrev log : Db
log = record (sample_db [] [] []) { audit = row 1 ∷ row 2 ∷ []; audit_seq = 3 }

abbrev pub alphabet : Alphabet
alphabet = record { is_digit = λ c. true; same_letter = same_char }

abbrev pub query : AuditQuery
query = record {
  campaign_id = none;
  call_id = none;
  event_type = none;
  from_ts = none;
  to_ts = none;
  reason_contains = some "robin";
  phone = none;
  cursor = none;
  limit = 1;
}

follow-Wanted_example :
    Desc audit_key (follow alphabet query log 3 none)
    × ((r : AuditRow)
        → InList r (follow alphabet query log 3 none)
          ↔ InList r log.audit × Wanted alphabet query r)
follow-Wanted_example = follow-Wanted alphabet query log 3 refl ((refl, tt), (tt, tt)) (omega arith)

-- A typed phone and its digits ask for the same.
typed_phone :
    query_audit alphabet
      (record query { phone = normalize_phone_query alphabet.is_digit (some "55-12") })
      log
    ≡ query_audit alphabet (record query { phone = some "55-12" }) log
typed_phone = query_audit-normalize alphabet (record query { phone = some "55-12" }) log
