-- ===== src/Api/Schemas/Zones.antt =====
-- `_tz_valid` of app/api/schemas/campaigns.py, with its table of deprecated names.
use nurix_takehome.Common.{String, Bool, List, [], ◌∷◌, str_eq, if◌then◌else◌}
use nurix_takehome.Model.Txn.{Result, ok, err, value_error}

-- `_DEPRECATED_TZ_ALIASES`
abbrev pub deprecated_tz_aliases : List (String × String)
deprecated_tz_aliases =
    ("Asia/Calcutta", "Asia/Kolkata")
    ∷ ("Asia/Saigon", "Asia/Ho_Chi_Minh")
    ∷ ("Asia/Rangoon", "Asia/Yangon")
    ∷ ("America/Buenos_Aires", "America/Argentina/Buenos_Aires")
    ∷ ("America/Catamarca", "America/Argentina/Catamarca")
    ∷ ("America/Cordoba", "America/Argentina/Cordoba")
    ∷ ("America/Jujuy", "America/Argentina/Jujuy")
    ∷ ("America/Mendoza", "America/Argentina/Mendoza")
    ∷ ("America/Indianapolis", "America/Indiana/Indianapolis")
    ∷ ("America/Louisville", "America/Kentucky/Louisville")
    ∷ ("America/Virgin", "America/St_Thomas")
    ∷ []

-- `table.get(v, v)`
unfoldable pub get_or_self : String → List (String × String) → String
get_or_self v [] = v
get_or_self v ((old, new) ∷ rest) = if str_eq old v then new else get_or_self v rest

unfoldable pub canonical : String → String
unfolding get_or_self
canonical v = get_or_self v deprecated_tz_aliases

-- `known` tells whether `ZoneInfo` takes a name.
unfoldable pub tz_valid : (String → Bool) → String → Result String
unfolding canonical
tz_valid known v = if known (canonical v) then ok (canonical v) else err value_error
