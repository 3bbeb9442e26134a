-- ===== src/Api/Schemas/Body/Valid.antt =====
-- Which request bodies the validators of app/api/schemas/campaigns.py accept.
use nurix_takehome.Common.{
  ℕ, String, ◌≡◌, ◌↔◌, ◌≤◌, refl, sym, ap, ◌∙◌, inl, inr, Bool, true, false, ◌&&◌, Option, none,
  some, List, [], ◌∷◌, arith, length, All, Bool-cases,
}
use nurix_takehome.Model.Time.{before}
use nurix_takehome.Model.Txn.{Result, ok, err}
use nurix_takehome.Scheduler.Hours.{TimeWindow}
use nurix_takehome.Api.Schemas.Text.{len}
use nurix_takehome.Api.Schemas.Zones.{tz_valid, canonical}
use nurix_takehome.Api.Schemas.Phones.{
  PhoneNumbers, Phones, rejected, zero_valid, accepted, normalize_phones,
}
use nurix_takehome.Api.Schemas.Body.{
  Weekday, Schedule, Body, RetryConfig, body_of, ◌⊛◌, within, valid_if, ordered, start_before_end,
  validate_windows, validate_schedule, validate_retry, validate_max, validate_phones, phones_result,
  validate, prepend, with_day,
}

abbrev pub IsOrdered : TimeWindow → Type 0
IsOrdered w = before w.start w.end ≡ ok true

abbrev pub AllWindows : (TimeWindow → Type 0) → Schedule → Type 0
AllWindows P s = All (λ e. All P e.1) s

⊛-ok :
    {A B : Type 0} (f : Result (A → B)) (r : Result A) {b : B}
    → (f ⊛ r) ≡ ok b
    → (g : A → B) × (a : A) × (f ≡ ok g) × (r ≡ ok a) × (g a ≡ b)
⊛-ok (ok f) (ok a) h = (f, a, refl, refl, cc)
⊛-ok (ok f) (err e) h = cc
⊛-ok (err e) (ok a) h = cc
⊛-ok (err e) (err x) h = cc

valid_if_iff : {A : Type 0} (b : Bool) (a c : A) → (valid_if b a ≡ ok c) ↔ (c ≡ a) × (b ≡ true)
valid_if_iff true a c = ground arith
valid_if_iff false a c = ground arith

ordered_iff : (w v : TimeWindow) (r : Result Bool) → (ordered w r ≡ ok v) ↔ (v ≡ w) × (r ≡ ok true)
ordered_iff w v (ok true) = ground arith
ordered_iff w v (ok false) = ground arith
ordered_iff w v (err e) = ground arith

prepend_iff :
    {A : Type 0} (r : Result A) (rs : Result (List A)) (ys : List A)
    → ((prepend r ⊛ rs) ≡ ok ys)
      ↔ ((a : A) × (l : List A) × (r ≡ ok a) × (rs ≡ ok l) × (ys ≡ a ∷ l))
prepend_iff (ok a) (ok l) ys = (λ h. (a, l, refl, refl, cc), λ (b, m, e, f, k). cc)
prepend_iff (ok a) (err e) ys = (λ h. cc, λ (b, m, e, f, k). cc)
prepend_iff (err x) (ok l) ys = (λ h. cc, λ (b, m, e, f, k). cc)
prepend_iff (err x) (err e) ys = (λ h. cc, λ (b, m, e, f, k). cc)

with_day_iff :
    (d : Weekday) (r : Result (List TimeWindow)) (x : Weekday × List TimeWindow)
    → (with_day d r ≡ ok x) ↔ ((l : List TimeWindow) × (r ≡ ok l) × (x ≡ (d, l)))
with_day_iff d (ok l) x = (λ h. (l, refl, cc), λ (m, e, f). cc)
with_day_iff d (err e) x = (λ h. cc, λ (m, e, f). cc)

windows_iff :
    (ws vs : List TimeWindow) → (validate_windows ws ≡ ok vs) ↔ (vs ≡ ws) × All IsOrdered ws
unfolding validate_windows start_before_end
windows_iff [] vs = (λ h. (cc, tt), λ (e, _). cc)
windows_iff (w ∷ ws) vs = (
  λ h.
      let (a, l, e, f, g) = (prepend_iff (start_before_end w) (validate_windows ws) vs).0 h in
      let (i, o) = (ordered_iff w a (before w.start w.end)).0 e in
      let (j, os) = (windows_iff ws l).0 f in (cc, (o, os)),
  λ (g, (o, os)). (prepend_iff (start_before_end w) (validate_windows ws) vs).1 (
    w,
    ws,
    (ordered_iff w w (before w.start w.end)).1 (refl, o),
    (windows_iff ws ws).1 (refl, os),
    g,
  ),
)

schedule_iff : (s t : Schedule) → (validate_schedule s ≡ ok t) ↔ (t ≡ s) × AllWindows IsOrdered s
unfolding validate_schedule
schedule_iff [] t = (λ h. (cc, tt), λ (e, _). cc)
schedule_iff ((d, ws) ∷ rest) t = (
  λ h.
      let (a, l, e, f, g) =
        (prepend_iff (with_day d (validate_windows ws)) (validate_schedule rest) t).0 h in
      let (vs, i, j) = (with_day_iff d (validate_windows ws) a).0 e in
      let (k, o) = (windows_iff ws vs).0 i in
      let (m, os) = (schedule_iff rest l).0 f in (cc, (o, os)),
  λ (g, (o, os)). (prepend_iff (with_day d (validate_windows ws)) (validate_schedule rest) t).1 (
    (d, ws),
    rest,
    (with_day_iff d (validate_windows ws) (d, ws)).1 (ws, (windows_iff ws ws).1 (refl, o), refl),
    (schedule_iff rest rest).1 (refl, os),
    g,
  ),
)

abbrev pub MaxBounds : Option ℕ → Type 0
MaxBounds none = Unit
MaxBounds (some n) = (1 ≤ n) × (n ≤ 100)

max_iff : (m n : Option ℕ) → (validate_max m ≡ ok n) ↔ (n ≡ m) × MaxBounds m
unfolding validate_max
max_iff none n = (λ h. (cc, tt), λ (e, _). cc)
max_iff (some m) n = ground arith

within_iff : (lo hi n : ℕ) → (within lo hi n ≡ true) ↔ (lo ≤ n) × (n ≤ hi)
within_iff lo hi n = ground arith

and_iff : (a b : Bool) → ((a && b) ≡ true) ↔ (a ≡ true) × (b ≡ true)
and_iff a b = ground arith

abbrev pub RetryBounds : RetryConfig → Type 0
RetryBounds r =
    (r.max_attempts ≤ 10) × (1 ≤ r.backoff_base_seconds) × (r.backoff_base_seconds ≤ 3600)

pub retry_iff : (r q : RetryConfig) → (validate_retry r ≡ ok q) ↔ (q ≡ r) × RetryBounds r
unfolding validate_retry
retry_iff r q = (
  λ h.
      let (e, t) = (valid_if_iff _ r q).0 h in
      let (a, b) = (and_iff _ _).0 t in
      let x = (within_iff 0 10 r.max_attempts).0 a in
      let y = (within_iff 1 3600 r.backoff_base_seconds).0 b in (e, (x.1, y.0, y.1)),
  λ (e, (x, y, z)). (valid_if_iff _ r q).1 (
    e,
    (and_iff _ _).1 (
      (within_iff 0 10 r.max_attempts).1 (omega arith, x),
      (within_iff 1 3600 r.backoff_base_seconds).1 (y, z),
    ),
  ),
)

accepted_iff : (r : Phones) (ps : List String) → (phones_result r ≡ ok ps) ↔ (r ≡ accepted ps)
accepted_iff (rejected e n es) ps = ground arith
accepted_iff zero_valid ps = ground arith
accepted_iff (accepted qs) ps = ground arith

phones_iff :
    {N : Type 0} (lib : PhoneNumbers N) (raws ps : List String)
    → (validate_phones lib raws ≡ ok ps)
      ↔ (1 ≤ length raws) × (length raws ≤ 10000) × (normalize_phones lib raws ≡ accepted ps)
unfolding validate_phones
phones_iff lib raws ps = elim (Bool-cases (within 1 10000 (length raws))) [
  | inl e ↦
      let (a, b) = (within_iff 1 10000 (length raws)).0 e in
      rw e (λ h. (a, b, (accepted_iff _ ps).0 h), λ (_, _, h). (accepted_iff _ ps).1 h)
  | inr e ↦ rw e (λ h. cc, λ (a, b, _). cc ((within_iff 1 10000 (length raws)).1 (a, b)))
]

-- The six fields.
fields_iff :
    {A B C D E F G : Type 0} (f : A → B → C → D → E → F → G) (ra : Result A) (rb : Result B)
    (rc : Result C) (rd : Result D) (re : Result E) (rf : Result F) (g : G)
    → ((ok f ⊛ ra ⊛ rb ⊛ rc ⊛ rd ⊛ re ⊛ rf) ≡ ok g) ↔ (
        (a : A) × (b : B) × (c : C) × (d : D) × (e : E) × (x : F) × (ra ≡ ok a)
        × (rb ≡ ok b)
        × (rc ≡ ok c)
        × (rd ≡ ok d)
        × (re ≡ ok e)
        × (rf ≡ ok x)
        × (g ≡ f a b c d e x))
fields_iff f ra rb rc rd re rf g = (
  λ h.
      let (f6, x, e6, x6, y6) = ⊛-ok _ rf h in
      let (f5, e, e5, x5, y5) = ⊛-ok _ re e6 in
      let (f4, d, e4, x4, y4) = ⊛-ok _ rd e5 in
      let (f3, c, e3, x3, y3) = ⊛-ok _ rc e4 in
      let (f2, b, e2, x2, y2) = ⊛-ok _ rb e3 in
      let (f1, a, e1, x1, y1) = ⊛-ok (ok f) ra e2 in (a, b, c, d, e, x, x1, x2, x3, x4, x5, x6, cc),
  λ (a, b, c, d, e, x, x1, x2, x3, x4, x5, x6, y).
      rw x1 (rw x2 (rw x3 (rw x4 (rw x5 (rw x6 (ap ok (sym y))))))),
)

zone_iff :
    (known : String → Bool) (v z : String)
    → (tz_valid known v ≡ ok z) ↔ (z ≡ canonical v) × (known (canonical v) ≡ true)
unfolding tz_valid
zone_iff known v z = elim (Bool-cases (known (canonical v))) [
  | inl e ↦ rw e (λ h. (cc, refl), λ (k, _). cc)
  | inr e ↦ rw e (λ h. cc, λ (k, t). cc)
]

-- What an accepted body meets, and what it becomes.
pub record Accepts {N : Type 0} (lib : PhoneNumbers N) (known : String → Bool) (b c : Body)
    : Type 0 where
  pub name_length : (1 ≤ len b.name) × (len b.name ≤ 200)
  pub zone : known (canonical b.timezone) ≡ true
  pub windows : AllWindows IsOrdered b.schedule
  pub max_concurrent : MaxBounds b.max_concurrent
  pub retry : RetryBounds b.retry_config
  pub count : (1 ≤ length b.phones) × (length b.phones ≤ 10000)
  pub numbers : normalize_phones lib b.phones ≡ accepted c.phones
  pub result : c ≡ record b { timezone = canonical b.timezone; phones = c.phones }

-- A request body is accepted exactly when its name has 1 to 200 characters, the zone that its time
-- zone's name stands for is known, every window starts before it ends, the concurrency is left out or
-- from 1 to 100, there are at most 10 retries and a backoff of 1 to 3600 seconds, and there are 1 to
-- 10000 phones and their normalisation accepts them. It is then changed in two fields: a deprecated
-- zone name is replaced, and the phones are in E.164.
pub validate-Accepts :
    {N : Type 0} (lib : PhoneNumbers N) (known : String → Bool) (b c : Body)
    → (validate lib known b ≡ ok c) ↔ Accepts lib known b c
unfolding validate
validate-Accepts lib known b c = (
  λ h.
      let (n, z, s, m, r, ps, e1, e2, e3, e4, e5, e6, y) = (fields_iff body_of _ _ _ _ _ _ c).0 h in
      let (i1, j1) = (valid_if_iff _ b.name n).0 e1 in
      let (i2, j2) = (zone_iff known b.timezone z).0 e2 in
      let (i3, j3) = (schedule_iff b.schedule s).0 e3 in
      let (i4, j4) = (max_iff b.max_concurrent m).0 e4 in
      let (i5, j5) = (retry_iff b.retry_config r).0 e5 in
      let (k, l, j6) = (phones_iff lib b.phones ps).0 e6 in
      record {
        name_length = (within_iff 1 200 (len b.name)).0 j1;
        zone = j2;
        windows = j3;
        max_concurrent = j4;
        retry = j5;
        count = (k, l);
        numbers = j6 ∙ ap accepted (sym (ap (λ x. x.phones) y));
        result = y ∙ cc;
      },
  λ a. (fields_iff body_of _ _ _ _ _ _ c).1 (
    b.name,
    canonical b.timezone,
    b.schedule,
    b.max_concurrent,
    b.retry_config,
    c.phones,
    (valid_if_iff _ b.name b.name).1 (refl, (within_iff 1 200 (len b.name)).1 a.name_length),
    (zone_iff known b.timezone (canonical b.timezone)).1 (refl, a.zone),
    (schedule_iff b.schedule b.schedule).1 (refl, a.windows),
    (max_iff b.max_concurrent b.max_concurrent).1 (refl, a.max_concurrent),
    (retry_iff b.retry_config b.retry_config).1 (refl, a.retry),
    (phones_iff lib b.phones c.phones).1 (a.count.0, a.count.1, a.numbers),
    a.result,
  ),
)
