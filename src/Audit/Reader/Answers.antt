-- ===== src/Audit/Reader/Answers.antt =====
-- Which audit rows the page shows.
use nurix_takehome.Common.{
  ℕ, zero, suc, ◌-◌, ◌≤◌, ◌<◌, String, ◌≡◌, ◌↔◌, refl, sym, ap, ap₂, ◌∙◌, subst, ◌⊎◌, inl, inr,
  Bool, true, ◌&&◌, Option, none, some, List, [], ◌∷◌, ◌++◌, arith, leb, length, str_eq, eq_iff,
  InList, any_row, rows_where, Bool-cases,
}
use mathlib.Core.Path.{fun_ext}
use nurix_takehome.Model.Status.{EventType}
use nurix_takehome.Model.Rows.{AuditRow, Db}
use nurix_takehome.Model.Txn.{Result, ok, err}
use nurix_takehome.Persistence.Pages.{Key, page}
use nurix_takehome.Persistence.Pages.Order.{Desc, Distinct, All-rows_where}
use nurix_takehome.Persistence.Pages.Walk.{walk, walk-Desc}
use nurix_takehome.Api.Schemas.Text.{len}
use nurix_takehome.Audit.Like.{same_char}
use nurix_takehome.Audit.Like.Escape.{Contains, like-pattern_of}
use nurix_takehome.Audit.Render.{render}
use nurix_takehome.Audit.Reader.{
  event_value, Alphabet, digits_of, EventFilter, one, any_of, AuditQuery, equal_to, event_meets,
  not_before, not_after, reason_meets, phone_like, phone_meets, row_meets, audit_key, limit_ok,
  query_audit,
}

abbrev pub IsFor : Option ℕ → Option ℕ → Type 0
IsFor none column = Unit
IsFor (some i) column = column ≡ some i

abbrev pub IsEvent : Option EventFilter → String → Type 0
IsEvent none e = Unit
IsEvent (some (one s)) e = e ≡ s
IsEvent (some (any_of ss)) e = InList e ss

abbrev pub IsFrom : Option ℕ → ℕ → Type 0
IsFrom none ts = Unit
IsFrom (some t) ts = t ≤ ts

abbrev pub IsUntil : Option ℕ → ℕ → Type 0
IsUntil none ts = Unit
IsUntil (some t) ts = ts ≤ t

abbrev pub HasReason : Alphabet → Option String → String → Type 0
HasReason a none reason = Unit
HasReason a (some String.[]) reason = Unit
HasReason a (some (String.◌∷◌ c s)) reason = Contains a.same_letter (String.◌∷◌ c s) reason

abbrev pub HasPhone : Alphabet → Option String → Option String → Type 0
HasPhone a none phone = Unit
HasPhone a (some raw) phone =
    (len (digits_of a.is_digit raw) < 3)
    ⊎ (p : String) × (phone ≡ some p) × Contains same_char (digits_of a.is_digit raw) p

-- What the caller asks for, in words of the row.
pub record Wanted (a : Alphabet) (q : AuditQuery) (r : AuditRow) : Type 0 where
  pub campaign : IsFor q.campaign_id r.event.campaign_id
  pub call : IsFor q.call_id r.event.call_id
  pub event : IsEvent q.event_type (event_value r.event.event_type)
  pub from : IsFrom q.from_ts r.ts
  pub until : IsUntil q.to_ts r.ts
  pub reason : HasReason a q.reason_contains (render r.event.reason)
  pub phone : HasPhone a q.phone r.event.phone

equal_to-IsFor : (o column : Option ℕ) → (equal_to o column ≡ true) ↔ IsFor o column
equal_to-IsFor none column = (λ _. tt, λ _. refl)
equal_to-IsFor (some i) none = ground arith
equal_to-IsFor (some i) (some j) = ground arith

among_iff : (e : String) (ss : List String) → (any_row (λ s. str_eq e s) ss ≡ true) ↔ InList e ss
unfolding any_row
among_iff e [] = (λ h. cc, λ k. absurd k)
among_iff e (s ∷ ss) = (
  λ h. elim (Bool-cases (str_eq e s)) [
    | inl t ↦ inl ((eq_iff e s).0 t)
    | inr f ↦ inr ((among_iff e ss).0 (rw f at h))
  ],
  λ k. elim k [
    | inl t ↦ rw ((eq_iff e s).1 t) refl
    | inr j ↦ let found = (among_iff e ss).1 j in ground (arith, found)
  ],
)

event_meets-IsEvent :
    (o : Option EventFilter) (e : EventType) → (event_meets o e ≡ true) ↔ IsEvent o (event_value e)
event_meets-IsEvent none e = (λ _. tt, λ _. refl)
event_meets-IsEvent (some (one s)) e = eq_iff (event_value e) s
event_meets-IsEvent (some (any_of ss)) e = among_iff (event_value e) ss

not_before-IsFrom : (o : Option ℕ) (ts : ℕ) → (not_before o ts ≡ true) ↔ IsFrom o ts
not_before-IsFrom none ts = (λ _. tt, λ _. refl)
not_before-IsFrom (some t) ts = ground arith

not_after-IsUntil : (o : Option ℕ) (ts : ℕ) → (not_after o ts ≡ true) ↔ IsUntil o ts
not_after-IsUntil none ts = (λ _. tt, λ _. refl)
not_after-IsUntil (some t) ts = ground arith

reason_meets-HasReason :
    (a : Alphabet) (o : Option String) (reason : String)
    → (reason_meets a o reason ≡ true) ↔ HasReason a o reason
reason_meets-HasReason a none reason = (λ _. tt, λ _. refl)
reason_meets-HasReason a (some String.[]) reason = (λ _. tt, λ _. refl)
reason_meets-HasReason a (some (String.◌∷◌ c s)) reason =
    like-pattern_of a.same_letter (String.◌∷◌ c s) reason

phone_like_iff :
    (digits : String) (phone : Option String)
    → (phone_like digits phone ≡ true)
      ↔ ((p : String) × (phone ≡ some p) × Contains same_char digits p)
phone_like_iff digits none = (λ h. cc, λ (p, e, k). cc)
phone_like_iff digits (some phone) = (
  λ h. (phone, refl, (like-pattern_of same_char digits phone).0 h),
  λ (p, e, k).
      let same : p ≡ phone = cc in
      (like-pattern_of same_char digits phone).1 (subst (Contains same_char digits) same k),
)

phone_meets-HasPhone :
    (a : Alphabet) (o phone : Option String) → (phone_meets a o phone ≡ true) ↔ HasPhone a o phone
phone_meets-HasPhone a none phone = (λ _. tt, λ _. refl)
phone_meets-HasPhone a (some raw) phone =
    elim (Bool-cases (leb 3 (len (digits_of a.is_digit raw)))) [
      | inl e ↦ rw e (
        λ h. inr ((phone_like_iff (digits_of a.is_digit raw) phone).0 h),
        λ k. elim k [
          | inl short ↦ absurd (ground arith)
          | inr found ↦ (phone_like_iff (digits_of a.is_digit raw) phone).1 found
        ],
      )
      | inr e ↦ rw e (λ h. inl (ground arith), λ k. refl)
    ]

all_seven :
    (b1 b2 b3 b4 b5 b6 b7 : Bool)
    → ((b1 && b2 && b3 && b4 && b5 && b6 && b7) ≡ true)
      ↔ (b1 ≡ true)
        × (b2 ≡ true)
        × (b3 ≡ true)
        × (b4 ≡ true)
        × (b5 ≡ true)
        × (b6 ≡ true)
        × (b7 ≡ true)
all_seven b1 b2 b3 b4 b5 b6 b7 = ground arith

row_meets-Wanted :
    (a : Alphabet) (q : AuditQuery) (r : AuditRow) → (row_meets a q r ≡ true) ↔ Wanted a q r
unfolding row_meets
row_meets-Wanted a q r = (
  λ h.
      let (h1, h2, h3, h4, h5, h6, h7) = (all_seven _ _ _ _ _ _ _).0 h in
      record {
        campaign = (equal_to-IsFor q.campaign_id r.event.campaign_id).0 h1;
        call = (equal_to-IsFor q.call_id r.event.call_id).0 h2;
        event = (event_meets-IsEvent q.event_type r.event.event_type).0 h3;
        from = (not_before-IsFrom q.from_ts r.ts).0 h4;
        until = (not_after-IsUntil q.to_ts r.ts).0 h5;
        reason = (reason_meets-HasReason a q.reason_contains (render r.event.reason)).0 h6;
        phone = (phone_meets-HasPhone a q.phone r.event.phone).0 h7;
      },
  λ w. (all_seven _ _ _ _ _ _ _).1 (
    (equal_to-IsFor q.campaign_id r.event.campaign_id).1 w.campaign,
    (equal_to-IsFor q.call_id r.event.call_id).1 w.call,
    (event_meets-IsEvent q.event_type r.event.event_type).1 w.event,
    (not_before-IsFrom q.from_ts r.ts).1 w.from,
    (not_after-IsUntil q.to_ts r.ts).1 w.until,
    (reason_meets-HasReason a q.reason_contains (render r.event.reason)).1 w.reason,
    (phone_meets-HasPhone a q.phone r.event.phone).1 w.phone,
  ),
)

InList-rows_where :
    {A : Type 0} (p : A → Bool) (xs : List A) (c : A)
    → InList c (rows_where p xs) ↔ InList c xs × (p c ≡ true)
unfolding rows_where
InList-rows_where p [] c = (λ k. absurd k, λ (k, _). absurd k)
InList-rows_where p (x ∷ xs) c = elim (Bool-cases (p x)) [
  | inl t ↦ rw t (
    λ k. elim k [
      | inl e ↦ (inl e, subst (λ y. p y ≡ true) (sym e) t)
      | inr j ↦ let (i, h) = (InList-rows_where p xs c).0 j in (inr i, h)
    ],
    λ (k, h). elim k [ inl e ↦ inl e | inr j ↦ inr ((InList-rows_where p xs c).1 (j, h)) ],
  )
  | inr f ↦ rw f (
    λ k. let (i, h) = (InList-rows_where p xs c).0 k in (inr i, h),
    λ (k, h). elim k [
      | inl e ↦ cc (subst (λ y. p y ≡ true) e h)
      | inr j ↦ (InList-rows_where p xs c).1 (j, h)
    ],
  )
]

Distinct-rows_where :
    (p : AuditRow → Bool) (xs : List AuditRow)
    → Distinct audit_key xs
    → Distinct audit_key (rows_where p xs)
unfolding rows_where
Distinct-rows_where p [] h = tt
Distinct-rows_where p (x ∷ xs) (a, h) = elim (Bool-cases (p x)) [
  | inl t ↦ rw t (All-rows_where p _ xs a, Distinct-rows_where p xs h)
  | inr f ↦ rw f (Distinct-rows_where p xs h)
]

length-rows_where : {A : Type 0} (p : A → Bool) (xs : List A) → length (rows_where p xs) ≤ length xs
unfolding rows_where
length-rows_where p [] = omega arith
length-rows_where p (x ∷ xs) = ground (arith, length-rows_where p xs)

abbrev shown_then :
    (Option Key → List AuditRow) → Result (List AuditRow × Option Key) → List AuditRow
shown_then more (err e) = []
shown_then more (ok (rows, next)) = rows ++ elim next [ none ↦ [] | some k ↦ more (some k) ]

-- A reader of the audit page, who follows the cursors for `fuel` pages at most.
unfoldable pub follow : Alphabet → AuditQuery → Db → ℕ → Option Key → List AuditRow
follow a q d zero cursor = []
follow a q d (suc fuel) cursor =
    shown_then (follow a q d fuel) (query_audit a (record q { cursor = cursor }) d)

any_cursor :
    (a : Alphabet) (q : AuditQuery) (c : Option Key)
    → row_meets a (record q { cursor = c }) ≡ row_meets a q
unfolding row_meets
any_cursor a q c = refl

abbrev joined : (Key → List AuditRow) → List AuditRow × Option Key → List AuditRow
joined more (rows, next) = rows ++ elim next [ none ↦ [] | some k ↦ more k ]

follow-walk :
    (a : Alphabet) (q : AuditQuery) (d : Db) (fuel : ℕ) (cursor : Option Key)
    → limit_ok q.limit ≡ true
    → follow a q d fuel cursor
      ≡ walk audit_key fuel (rows_where (row_meets a q) d.audit) q.limit cursor
unfolding follow walk query_audit
follow-walk a q d zero cursor h = refl
follow-walk a q d (suc fuel) cursor h = rw h (
    ap₂
      (λ (test : AuditRow → Bool) (more : Key → List AuditRow).
        joined more (page audit_key (rows_where test d.audit) cursor q.limit))
      (any_cursor a q cursor) (fun_ext (λ k. follow-walk a q d fuel (some k) h)))

-- Following the cursors of a query from its first page on, with a limit of 1 to 500, ends within one
-- page more than the log has rows. The pages hold exactly the rows of the log that the query asks
-- for, each once, the latest first, if the ids of the log are distinct.
pub follow-Wanted :
    (a : Alphabet) (q : AuditQuery) (d : Db) (fuel : ℕ)
    → limit_ok q.limit ≡ true
    → Distinct audit_key d.audit
    → length d.audit < fuel
    → Desc audit_key (follow a q d fuel none)
      × ((r : AuditRow) → InList r (follow a q d fuel none) ↔ InList r d.audit × Wanted a q r)
follow-Wanted a q d fuel h u l =
    let rows = rows_where (row_meets a q) d.audit in
    let limit : q.limit ≡ suc (q.limit - 1) = ground arith in
    let e = follow-walk a q d fuel none h ∙ ap (λ m. walk audit_key fuel rows m none) limit in
    let fits : length rows < fuel = omega (arith, length-rows_where (row_meets a q) d.audit) in
    let (desc, all) =
      walk-Desc audit_key rows (q.limit - 1) fuel (Distinct-rows_where (row_meets a q) d.audit u)
        fits in
    (
      subst (Desc audit_key) (sym e) desc,
      λ r. subst (λ xs. InList r xs ↔ InList r d.audit × Wanted a q r) (sym e) (wanted r _ (all r)),
    )
  where
    wanted :
        (r : AuditRow) (xs : List AuditRow)
        → InList r xs ↔ InList r (rows_where (row_meets a q) d.audit)
        → InList r xs ↔ InList r d.audit × Wanted a q r
    wanted r xs i = (
      λ k.
          let (m, t) = (InList-rows_where (row_meets a q) d.audit r).0 (i.0 k) in
          (m, (row_meets-Wanted a q r).0 t),
      λ (m, w).
          i.1 ((InList-rows_where (row_meets a q) d.audit r).1 (m, (row_meets-Wanted a q r).1 w)),
    )
