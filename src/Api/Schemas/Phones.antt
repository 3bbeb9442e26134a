-- ===== src/Api/Schemas/Phones.antt =====
-- `CampaignCreate._normalize_phones`. The library `phonenumbers` is given: what it reads a text as,
-- which numbers it holds valid, and how it writes a number in E.164.
pub mod Accepted
pub mod Numbers
use nurix_takehome.Common.{
  ℕ, zero, suc, ◌+◌, ◌-◌, String, Bool, true, false, not, Option, none, some, List, [], ◌∷◌, ◌++◌,
  str_eq, length, if◌then◌else◌,
}
use nurix_takehome.Api.Schemas.Text.{strip, starts_with_plus}

pub data Reading (N : Type 0) : Type 0 where
  number : N → Reading N
  unreadable : String → Reading N

pub record PhoneNumbers (N : Type 0) : Type 0 where
  pub parse : String → Reading N
  pub is_valid_number : N → Bool
  pub format_number : N → String

-- The reasons of the entries; a duplicate names the index of the first such row.
pub data Reason : Type 0 where
  missing_country_code invalid : Reason
  unparsed : String → Reason
  duplicate : ℕ → String → Reason

pub record PhoneError : Type 0 where
  pub index : ℕ
  pub input : String
  pub reason : Reason

-- `errors`, `normalized` and `seen_e164` of the loop.
pub record Scan : Type 0 where
  pub errors : List PhoneError
  pub normalized : List String
  pub seen_e164 : List (String × ℕ)

-- What one row is, apart from the rows before it.
pub data Row : Type 0 where
  bad : Reason → Row
  good : String → Row

unfoldable pub seen : String → List (String × ℕ) → Option ℕ
seen p [] = none
seen p ((q, i) ∷ rest) = if str_eq q p then some i else seen p rest

abbrev pub add_error : ℕ → String → Reason → Scan → Scan
add_error i raw r s = record s {
  errors = s.errors ++ record { index = i; input = raw; reason = r } ∷ [];
}

abbrev pub add_good : ℕ → String → String → Option ℕ → Scan → Scan
add_good i raw p (some j) s = add_error i raw (duplicate j p) s
add_good i raw p none s = record s {
  normalized = s.normalized ++ p ∷ [];
  seen_e164 = (p, i) ∷ s.seen_e164;
}

abbrev pub add_row : ℕ → String → Row → Scan → Scan
add_row i raw (bad r) s = add_error i raw r s
add_row i raw (good p) s = add_good i raw p (seen p s.seen_e164) s

module _ {N : Type 0} (lib : PhoneNumbers N) where
  abbrev pub valid_row : N → Row
  valid_row n = if lib.is_valid_number n then good (lib.format_number n) else bad invalid

  abbrev pub read_row : Reading N → Row
  read_row (number n) = valid_row n
  read_row (unreadable e) = bad (unparsed e)

  unfoldable pub row_of : String → Row
  row_of raw =
      if starts_with_plus (strip raw)
      then read_row (lib.parse (strip raw))
      else bad missing_country_code

  -- The loop over `enumerate(v)`, from an index on.
  unfoldable pub scan : ℕ → List String → Scan → Scan
  scan i [] s = s
  scan i (raw ∷ rest) s = scan (suc i) rest (add_row i raw (row_of raw) s)

-- The first entry, the number of the others, and the entries.
pub data Phones : Type 0 where
  rejected : PhoneError → ℕ → List PhoneError → Phones
  zero_valid : Phones
  accepted : List String → Phones

abbrev pub outcome_of : List PhoneError → List String → Phones
outcome_of (e ∷ es) normalized = rejected e (length es) (e ∷ es)
outcome_of [] [] = zero_valid
outcome_of [] (p ∷ ps) = accepted (p ∷ ps)

abbrev pub empty_scan : Scan
empty_scan = record { errors = []; normalized = []; seen_e164 = [] }

unfoldable pub normalize_phones : {N : Type 0} → PhoneNumbers N → List String → Phones
unfolding scan row_of seen
normalize_phones lib v = let s = scan lib 0 v empty_scan in outcome_of s.errors s.normalized
