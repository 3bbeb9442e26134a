-- ===== src/Api/Schemas/Phones/Numbers.antt =====
-- Which texts are phone numbers, without the loop's own reading of a row.
use Prim.Native.Char.{Char, code}
use nurix_takehome.Common.{
  String, ◌≡◌, ◌≢◌, ◌↔◌, refl, ap, ap₂, true, List, [], ◌∷◌, map, ==_iff, inl, inr, Bool-cases,
}
use nurix_takehome.Api.Schemas.Text.{strip, starts_with_plus}
use nurix_takehome.Api.Schemas.Phones.{
  Reading, number, unreadable, PhoneNumbers, good, row_of, read_row, accepted, normalize_phones,
}
use nurix_takehome.Api.Schemas.Phones.Accepted.{NoRepeats, normalize_phones-NoRepeats}

-- The stripped text starts with a plus, the library reads it as a number that it holds valid, and this
-- is how it writes that number in E.164.
pub record IsNumber {N : Type 0} (lib : PhoneNumbers N) (raw phone : String) : Type 0 where
  pub sign : Char
  pub rest : String
  pub text : strip raw ≡ String.◌∷◌ sign rest
  pub plus : code sign ≡ b'+'
  pub value : N
  pub parsed : lib.parse (strip raw) ≡ number value
  pub valid : lib.is_valid_number value ≡ true
  pub written : lib.format_number value ≡ phone

-- Row by row.
abbrev pub AreNumbers : {N : Type 0} → PhoneNumbers N → List String → List String → Type 0
AreNumbers lib [] [] = Unit
AreNumbers lib [] (p ∷ ps) = ⊥
AreNumbers lib (raw ∷ raws) [] = ⊥
AreNumbers lib (raw ∷ raws) (p ∷ ps) = IsNumber lib raw p × AreNumbers lib raws ps

plus_text :
    (s : String)
    → starts_with_plus s ≡ true
    → (c : Char) × (rest : String) × (s ≡ String.◌∷◌ c rest) × (code c ≡ b'+')
plus_text String.[] h = cc
plus_text (String.◌∷◌ c s) h = (c, s, refl, (==_iff (code c) b'+').0 h)

text_plus :
    (s : String) (c : Char) (rest : String)
    → s ≡ String.◌∷◌ c rest
    → code c ≡ b'+'
    → starts_with_plus s ≡ true
text_plus s c rest e h = rw e ((==_iff (code c) b'+').1 h)

module _ {N : Type 0} (lib : PhoneNumbers N) where
  read_good :
      (r : Reading N) (p : String)
      → read_row lib r ≡ good p
      → (n : N) × (r ≡ number n) × (lib.is_valid_number n ≡ true) × (lib.format_number n ≡ p)
  read_good (unreadable e) p h = cc
  read_good (number n) p h = elim (Bool-cases (lib.is_valid_number n)) [
    | inl t ↦ (n, refl, t, cc (rw t at h))
    | inr f ↦ cc (rw f at h)
  ]

  row_of-IsNumber : (raw p : String) → (row_of lib raw ≡ good p) ↔ IsNumber lib raw p
  unfolding row_of
  row_of-IsNumber raw p = (
    λ h. elim (Bool-cases (starts_with_plus (strip raw))) [
      | inr f ↦ cc (rw f at h)
      | inl t ↦
          let (c, s, e, k) = plus_text (strip raw) t in
          let (n, x, y, z) = read_good (lib.parse (strip raw)) p (rw t at h) in
          record {
            sign = c;
            rest = s;
            text = e;
            plus = k;
            value = n;
            parsed = x;
            valid = y;
            written = z;
          }
    ],
    λ k.
        rw (text_plus (strip raw) k.sign k.rest k.text k.plus)
          (rw k.parsed (rw k.valid (ap good k.written))),
  )

  rows-AreNumbers :
      (raws ps : List String) → (map (row_of lib) raws ≡ map good ps) ↔ AreNumbers lib raws ps
  rows-AreNumbers [] [] = (λ h. tt, λ k. refl)
  rows-AreNumbers [] (p ∷ ps) = (λ h. cc, λ k. absurd k)
  rows-AreNumbers (raw ∷ raws) [] = (λ h. cc, λ k. absurd k)
  rows-AreNumbers (raw ∷ raws) (p ∷ ps) = (
    λ h. ((row_of-IsNumber raw p).0 (cc), (rows-AreNumbers raws ps).0 (cc)),
    λ (k, l). ap₂ ◌∷◌ ((row_of-IsNumber raw p).1 k) ((rows-AreNumbers raws ps).1 l),
  )

  -- A request's phones are accepted exactly when there is a row at least, every row starts with a plus,
  -- is read as a number and held valid by the library, and no two rows are the same number in E.164.
  -- What is accepted is then the E.164 of each row, in the order of the rows.
  pub normalize_phones-AreNumbers :
      (raws ps : List String)
      → (normalize_phones lib raws ≡ accepted ps)
        ↔ AreNumbers lib raws ps × NoRepeats ps × (ps ≢ [])
  normalize_phones-AreNumbers raws ps = (
    λ h.
        let (k, r, n) = (normalize_phones-NoRepeats lib raws ps).0 h in
        ((rows-AreNumbers raws ps).0 k, r, n),
    λ (k, r, n). (normalize_phones-NoRepeats lib raws ps).1 ((rows-AreNumbers raws ps).1 k, r, n),
  )
