-- ===== src/Audit/Like.antt =====
-- The patterns of app/audit/reader.py: the escaping of the caller's text, and `LIKE` and `ILIKE` of
-- the database, which compare characters as they are or without regard to case.
pub mod Escape
use Prim.Native.Char.{Char, code}
use nurix_takehome.Common.{
  ℕ, String, Bool, true, false, ◌&&◌, ◌||◌, Option, none, some, List, [], ◌∷◌, ◌==◌, if◌then◌else◌,
}

-- `s.replace(c, "\\" + c)`
unfoldable pub put_escape : ℕ → String → String
put_escape n String.[] = String.[]
put_escape n (String.◌∷◌ c s) =
    let rest = String.◌∷◌ c (put_escape n s) in if code c == n then String.◌∷◌ "\\" rest else rest

-- The three replacements, backslash first.
unfoldable pub escape : String → String
unfolding put_escape
escape s = put_escape b'_' (put_escape b'%' (put_escape b'\\' s))

abbrev pub append : String → String → String
append String.[] t = t
append (String.◌∷◌ c s) t = String.◌∷◌ c (append s t)

-- f'%{escaped}%'
unfoldable pub pattern_of : String → String
unfolding escape
pattern_of s = String.◌∷◌ "%" (append (escape s) "%")

pub data Token : Type 0 where
  any_run any_char : Token
  lit : Char → Token

-- The tokens of a pattern. One that ends with its escape character is an error of the database,
-- which no pattern of this program is.
abbrev prepend_token : Token → Option (List Token) → Option (List Token)
prepend_token t none = none
prepend_token t (some ts) = some (t ∷ ts)

abbrev token_of : Char → Token
token_of c = if code c == b'%' then any_run else (if code c == b'_' then any_char else lit c)

unfoldable pub tokens : String → Option (List Token)
tokens String.[] = some []
tokens (String.◌∷◌ c String.[]) = if code c == b'\\' then none else some (token_of c ∷ [])
tokens (String.◌∷◌ c (String.◌∷◌ d s)) =
    let escaped = prepend_token (lit d) (tokens s) in
    let plain = prepend_token (token_of c) (tokens (String.◌∷◌ d s)) in
    if code c == b'\\' then escaped else plain

module _ (same : Char → Char → Bool) where
  unfoldable pub matches : List Token → String → Bool
  matches [] String.[] = true
  matches [] (String.◌∷◌ d t) = false
  matches (any_run ∷ ts) String.[] = matches ts String.[]
  matches (any_run ∷ ts) (String.◌∷◌ d t) = matches ts (String.◌∷◌ d t) || matches (any_run ∷ ts) t
  matches (any_char ∷ ts) String.[] = false
  matches (any_char ∷ ts) (String.◌∷◌ d t) = matches ts t
  matches (lit c ∷ ts) String.[] = false
  matches (lit c ∷ ts) (String.◌∷◌ d t) = same c d && matches ts t

  abbrev pub matches_all : Option (List Token) → String → Bool
  matches_all none t = false
  matches_all (some ts) t = matches ts t

  -- `text LIKE pattern`
  unfoldable pub like : String → String → Bool
  like text pattern = matches_all (tokens pattern) text

abbrev pub same_char : Char → Char → Bool
same_char c d = code c == code d
