-- ===== src/Audit/Reader/Phone.antt =====
-- The phone filter of the audit page, whose text is cut down to its digits twice.
use Prim.Native.Char.{Char}
use mathlib.Core.Path.{fun_ext}
use nurix_takehome.Common.{
  ℕ, String, ◌≡◌, refl, ap, inl, inr, Bool, true, false, ◌&&◌, Option, none, some, arith, leb, ltb,
  Bool-cases,
}
use nurix_takehome.Model.Rows.{Db}
use nurix_takehome.Api.Schemas.Text.{len}
use nurix_takehome.Audit.Render.{render}
use nurix_takehome.Audit.Reader.{
  Alphabet, digits_of, normalize_phone_query, AuditQuery, equal_to, event_meets, not_before,
  not_after, reason_meets, phone_meets, row_meets, query_audit,
}

digits_of-digits_of :
    (is_digit : Char → Bool) (s : String)
    → digits_of is_digit (digits_of is_digit s) ≡ digits_of is_digit s
unfolding digits_of
digits_of-digits_of is_digit String.[] = refl
digits_of-digits_of is_digit (String.◌∷◌ c s) = elim (Bool-cases (is_digit c)) [
  | inl e ↦ rw e (rw e (ap (λ x. String.◌∷◌ c x) (digits_of-digits_of is_digit s)))
  | inr e ↦ rw e (digits_of-digits_of is_digit s)
]

few : (n : ℕ) → ltb n 3 ≡ true → leb 3 n ≡ false
few n h = ground arith

phone_meets-normalize :
    (a : Alphabet) (raw phone : Option String)
    → phone_meets a (normalize_phone_query a.is_digit raw) phone ≡ phone_meets a raw phone
unfolding normalize_phone_query
phone_meets-normalize a none phone = refl
phone_meets-normalize a (some raw) phone =
    elim (Bool-cases (ltb (len (digits_of a.is_digit raw)) 3)) [
      | inl e ↦ rw (e, normalize_phone_query) (rw (few _ e) refl)
      | inr e ↦ rw (e, normalize_phone_query) (rw (digits_of-digits_of a.is_digit raw) refl)
    ]

row_meets-normalize :
    (a : Alphabet) (q : AuditQuery)
    → row_meets a (record q { phone = normalize_phone_query a.is_digit q.phone }) ≡ row_meets a q
unfolding row_meets
row_meets-normalize a q = fun_ext (λ r.
    ap
      (λ b.
        equal_to q.campaign_id r.event.campaign_id
        && equal_to q.call_id r.event.call_id
        && event_meets q.event_type r.event.event_type
        && not_before q.from_ts r.ts
        && not_after q.to_ts r.ts
        && reason_meets a q.reason_contains (render r.event.reason)
        && b)
      (phone_meets-normalize a q.phone r.event.phone))

-- A query answers the same whether its phone was cut down to its digits before or not, and whether
-- too few digits were turned into no filter before or not, for every text a caller may type.
pub query_audit-normalize :
    (a : Alphabet) (q : AuditQuery) (d : Db)
    → query_audit a (record q { phone = normalize_phone_query a.is_digit q.phone }) d
      ≡ query_audit a q d
unfolding query_audit
query_audit-normalize a q d = rw (row_meets-normalize a q) refl
