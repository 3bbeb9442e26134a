-- ===== src/Model/Json.antt =====
-- JSON values, as they stand in the JSONB columns and in a webhook's body, and the tests on text
-- that reading them takes. Fractions and negative numbers do not occur in what the program reads;
-- `stamp` is the ISO text of a timestamp, by its value.
use nurix_takehome.Common.{ℕ, String, Bool, Option, none, some, List, str_eq, if◌then◌else◌}

mutual
  pub data Json : Type 0 where
    null : Json
    bool : Bool → Json
    num : ℕ → Json
    str : String → Json
    stamp : ℕ → Json
    arr : Items → Json
    obj : Fields → Json

  pub data Items : Type 0 where
    nil : Items
    cons : Json → Items → Items

  pub data Fields : Type 0 where
    end : Fields
    field : String → Json → Fields → Fields

-- `d.get(k)` of a decoded object.
unfoldable pub get : String → Fields → Option Json
get k end = none
get k (field j v rest) = if str_eq j k then some v else get k rest

-- An f-string, by its parts.
pub data Part : Type 0 where
  txt : String → Part
  int : ℕ → Part

abbrev pub Text : Type 0
Text = List Part
