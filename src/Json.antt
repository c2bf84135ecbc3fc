-- ===== src/Json.antt =====
-- JSON values, as `json.loads` returns them to the pipeline (a Python `None`, `bool`, `int`, `str`,
-- `list` or `dict`). An object lists its keys in the order of the dict.
pub mod Canonical
use growth_clockwork.Prelude.{
  String, Bool, Option, none, some, List, [], ◌∷◌, str_eq, if◌then◌else◌, true, false, all, is_in,
  ◌&&◌,
}
use growth_clockwork.Prelude.Int.{ℤ}

mutual
  pub data Json : Type 0 where
    null : Json
    bool : Bool → Json
    num : ℤ → Json
    str : String → Json
    arr : Items → Json
    obj : Fields → Json

  pub data Items : Type 0 where
    nil : Items
    cons : Json → Items → Items

  pub data Fields : Type 0 where
    end : Fields
    field : String → Json → Fields → Fields

-- `value.get(key)` of a dict.
abbrev pub get_field : String → Fields → Option Json
get_field k end = none
get_field k (field j v fs) = if str_eq j k then some v else get_field k fs

-- `value[key]`, with `none` where Python raises `KeyError` or `TypeError`.
abbrev pub index : Json → String → Option Json
index (obj fs) k = get_field k fs
index _ k = none

-- A `list` of JSON values.
abbrev pub items : List Json → Items
items [] = nil
items (v ∷ vs) = cons v (items vs)

abbrev pub has_field : Fields → String → Bool
has_field fs k = elim (get_field k fs) [ none ↦ false | some v ↦ true ]

abbrev pub keys : Fields → List String
keys end = []
keys (field k v fs) = k ∷ keys fs

-- `set(fields) == required`
unfoldable pub has_exactly : Fields → List String → Bool
has_exactly fs required = all (has_field fs) required && all (λ k. is_in k required) (keys fs)
